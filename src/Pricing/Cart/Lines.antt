-- ===== src/Pricing/Cart/Lines.antt =====
-- What the first loop of `calculateCart` (src/shared/pos/posCalculator.ts) establishes of each line.
use pos_desktop.Prelude.{
  ℕ, ◌+◌, ◌*◌, ◌≤◌, ◌≡◌, List, [], ◌∷◌, map, arith, inl, inr, ok, on_ok, Option-cases, Bool-cases,
  sum_by, All,
}
use pos_desktop.Prelude.Number.{safe_natural}
use pos_desktop.Catalog.{CatalogContract}
use pos_desktop.Pricing.Types.{
  CartCalculationInputLine, PreparedLine, cart_line_total_limit, cart_invoice_total_limit,
}
use pos_desktop.Pricing.Quantity.{quantity_scale, parse_quantity}
use pos_desktop.Pricing.Amounts.{half_up, checked_number, calculate_discount, calculate_discount-le}
use pos_desktop.Pricing.Cart.{is_valid_snapshot, price_line, prepare_line, prepare_lines}

-- The amounts of a prepared line fit together.
pub record IsPrepared (line : PreparedLine) : Type 0 where
  pub discount_le : line.line_discount ≤ line.subtotal
  pub taxable_eq : line.taxable + line.line_discount ≡ line.subtotal

abbrev Prepares : CartCalculationInputLine → ℕ → PreparedLine × ℕ → Type 0
Prepares line subtotal p = (p.0.input ≡ line) × (p.1 ≡ subtotal + p.0.subtotal) × IsPrepared p.0

price_line-Prepares :
    (contract : CatalogContract) (line : CartCalculationInputLine) (price rate subtotal : ℕ)
    (p : PreparedLine × ℕ)
    → price_line contract line price rate subtotal ≡ ok p
    → Prepares line subtotal p
unfolding price_line
price_line-Prepares contract line price rate subtotal p h =
    on_ok (parse_quantity line.quantity contract.maximum_quantity) _ h λ quantity _ h₁.
      let line_subtotal = half_up (quantity * price) quantity_scale in
      on_ok (checked_number line_subtotal contract.maximum_line_total cart_line_total_limit) _ h₁
        λ _ _ h₂.
          on_ok (calculate_discount line_subtotal line.discount_type line.discount_value) _ h₂
            λ discount granted h₃.
              on_ok
                (checked_number (subtotal + line_subtotal) contract.maximum_invoice_total
                  cart_invoice_total_limit)
                _ h₃
                λ _ _ h₄. ground (
                  arith,
                  calculate_discount-le line_subtotal line.discount_type line.discount_value
                      granted,
                )

prepare_line-Prepares :
    (contract : CatalogContract) (subtotal : ℕ) (line : CartCalculationInputLine)
    (p : PreparedLine × ℕ)
    → prepare_line contract subtotal line ≡ ok p
    → Prepares line subtotal p
unfolding prepare_line
prepare_line-Prepares contract subtotal line p h =
    elim (Option-cases (safe_natural line.unit_price_amount)) [
      | inl bad ↦ cc (rw (bad, prepare_line) at h)
      | inr (price, priced) ↦ elim (Option-cases (safe_natural line.tax_rate_basis_points)) [
        | inl bad ↦ cc (rw (priced, bad, prepare_line) at h)
        | inr (rate, rated) ↦ elim (Bool-cases (is_valid_snapshot contract line price rate)) [
          | inl good ↦
              price_line-Prepares contract line price rate subtotal p
                (rw (priced, rated, good, prepare_line) at h)
          | inr bad ↦ cc (rw (priced, rated, bad, prepare_line) at h)
        ]
      ]
    ]

-- The loop keeps the lines in their order, its running total is their sum, and every line is sound.
pub prepare_lines-IsPrepared :
    (contract : CatalogContract) (subtotal : ℕ) (lines : List CartCalculationInputLine)
    (p : List PreparedLine × ℕ)
    → prepare_lines contract subtotal lines ≡ ok p
    → (map PreparedLine.input p.0 ≡ lines)
      × (p.1 ≡ subtotal + sum_by PreparedLine.subtotal p.0)
      × All IsPrepared p.0
unfolding prepare_lines
prepare_lines-IsPrepared contract subtotal [] p h = ground arith
prepare_lines-IsPrepared contract subtotal (line ∷ lines) p h =
    on_ok (prepare_line contract subtotal line) _ h λ q one h₁.
      on_ok (prepare_lines contract q.1 lines) _ h₁ λ rest more h₂. ground (
        arith,
        prepare_line-Prepares contract subtotal line q one,
        prepare_lines-IsPrepared contract q.1 lines rest more,
      )
