-- ===== src/Pricing/Quantity/Steps.antt =====
-- A step of a quantity by thousandths (`addQuantity` of src/shared/pos/posCalculator.ts).
use pos_desktop.Prelude.{
  ℕ, ◌≤◌, ◌≡◌, refl, sym, ap, ◌∙◌, subst, some, arith, inl, inr, Option-cases, ok, on_ok,
}
use pos_desktop.Prelude.Int.{ℤ, pos, negsuc, ◌+ℤ◌}
use pos_desktop.Prelude.Number.{whole, safe_integer}
use pos_desktop.Prelude.Text.{Text}
use pos_desktop.Catalog.{CatalogContract}
use pos_desktop.Pricing.Quantity.{
  parse_quantity_unchecked, parse_quantity, milli_to_quantity, within_range, add_quantity,
}
use pos_desktop.Pricing.Quantity.RoundTrip.{parse_quantity_unchecked-milli_to_quantity}

parse_quantity-eq :
    (value maximum : Text) {n : ℕ}
    → parse_quantity value maximum ≡ ok n
    → parse_quantity_unchecked value ≡ some n
unfolding parse_quantity
parse_quantity-eq value maximum h = elim (Option-cases (parse_quantity_unchecked value)) [
  | inl bad ↦ cc (rw (bad, parse_quantity) at h)
  | inr (v, e) ↦ elim (Option-cases (parse_quantity_unchecked maximum)) [
    | inl bad ↦ cc (rw (e, bad, parse_quantity) at h)
    | inr (m, f) ↦ e ∙ ap some (ground (arith, rw (e, f, parse_quantity) at h))
  ]
]

within_range_lem :
    (next : ℤ) (lo hi : ℕ) {t : Text}
    → within_range next lo hi ≡ ok t
    → (n : ℕ) × (next ≡ pos n) × (t ≡ milli_to_quantity n) × (lo ≤ n) × (n ≤ hi)
unfolding within_range
within_range_lem (negsuc n) lo hi h = cc
within_range_lem (pos n) lo hi h = (n, refl, ground arith, ground arith, ground arith)

safe_integer-eq : (d : ℤ) {e : ℤ} → safe_integer (whole d) ≡ some e → e ≡ d
safe_integer-eq (pos n) h = ground arith
safe_integer-eq (negsuc n) h = ground arith

-- If a step is accepted, the new text reads as the old quantity plus the step, within the catalog's
-- minimum and maximum.
pub add_quantity_lem :
    (quantity : Text) (delta : ℤ) (contract : CatalogContract) {t : Text}
    → add_quantity quantity (whole delta) contract ≡ ok t
    → (current next lo hi : ℕ) × (parse_quantity_unchecked quantity ≡ some current)
      × (parse_quantity_unchecked contract.minimum_quantity ≡ some lo)
      × (parse_quantity_unchecked contract.maximum_quantity ≡ some hi)
      × (parse_quantity_unchecked t ≡ some next)
      × (pos current +ℤ delta ≡ pos next)
      × (lo ≤ next)
      × (next ≤ hi)
unfolding add_quantity
add_quantity_lem quantity delta contract h = elim (Option-cases (safe_integer (whole delta))) [
  | inl bad ↦ cc (rw (bad, add_quantity) at h)
  | inr (d, safe) ↦
      on_ok (parse_quantity quantity contract.maximum_quantity) _ (rw (safe, add_quantity) at h)
        λ current parsed h₁.
          elim (Option-cases (parse_quantity_unchecked contract.minimum_quantity)) [
            | inl bad ↦ cc (rw bad at h₁)
            | inr (lo, minimum) ↦
                elim (Option-cases (parse_quantity_unchecked contract.maximum_quantity)) [
                  | inl bad ↦ cc (rw (minimum, bad) at h₁)
                  | inr (hi, maximum) ↦
                      let (next, sum, text, low, high) =
                        within_range_lem (pos current +ℤ d) lo hi (rw (minimum, maximum) at h₁) in
                      (
                        current,
                        next,
                        lo,
                        hi,
                        parse_quantity-eq quantity contract.maximum_quantity parsed,
                        minimum,
                        maximum,
                        subst (λ s. parse_quantity_unchecked s ≡ some next) (sym text)
                            (parse_quantity_unchecked-milli_to_quantity next),
                        subst (λ e. pos current +ℤ e ≡ pos next) (safe_integer-eq delta safe) sum,
                        low,
                        high,
                      )
                ]
          ]
]
