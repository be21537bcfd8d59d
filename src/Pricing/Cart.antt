-- ===== src/Pricing/Cart.antt =====
-- `calculateCart` of src/shared/pos/posCalculator.ts: the guards, the loop that prepares the lines,
-- the invoice discount with its allocation, and the loop over the totals.
pub mod Lines
pub mod Conservation
pub mod Modes
use pos_desktop.Prelude.{
  ℕ, ◌+◌, ◌-◌, ◌*◌, Bool, true, false, not, ◌&&◌, ◌||◌, Option, none, some, List, [], ◌∷◌, ◌++◌,
  map, ltb, leb, ◌==◌, if◌then◌else◌, ok, err, ◌>>=◌, ◌>>◌, refuse_if, length, any, every, sum_by,
}
use pos_desktop.Prelude.Number.{safe_natural}
use pos_desktop.Prelude.Text.{Text, text_eq}
use pos_desktop.Catalog.{
  TaxMode, untaxed, inclusive, exclusive, MixedTaxModePolicy, single_invoice_mode, per_line,
  CatalogContract,
}
use pos_desktop.Pricing.Types.{
  DiscountType, CalculationResult, CartCalculationInputLine, CartCalculationLine, CartCalculation,
  PreparedLine, cart_empty, cart_product_snapshot_invalid, cart_mixed_tax_mode, cart_mixed_currency,
  cart_line_total_limit, cart_invoice_total_limit,
}
use pos_desktop.Prelude.Number.{Number}
use pos_desktop.Pricing.Quantity.{quantity_scale, parse_quantity}
use pos_desktop.Pricing.Amounts.{
  percentage_scale, half_up, checked_number, calculate_discount, calculate_tax,
}
use pos_desktop.Pricing.Allocation.{allocation_for}

-- `new Set(values)`, in insertion order.
pub set_from {ℓ} : {A : Type ℓ} → (A → A → Bool) → List A → List A → List A
set_from eq seen [] = seen
set_from eq seen (x ∷ xs) = set_from eq (if any (eq x) seen then seen else seen ++ (x ∷ [])) xs

unfoldable pub mode_eq : TaxMode → TaxMode → Bool
mode_eq untaxed untaxed = true
mode_eq inclusive inclusive = true
mode_eq exclusive exclusive = true
mode_eq _ _ = false

is_single : MixedTaxModePolicy → Bool
is_single single_invoice_mode = true
is_single per_line = false

abbrev is_upper : ℕ → Bool
is_upper c = leb b'A' c && leb c b'Z'

-- `/^[A-Z]{3}$/`
unfoldable pub is_currency : Text → Bool
is_currency value = length value == 3 && every is_upper value

-- The guards on the tax modes and the currencies of a cart.
check_modes : List CartCalculationInputLine → CatalogContract → CalculationResult (Unit {0})
unfolding set_from mode_eq is_single text_eq
check_modes lines contract =
    let modes = set_from mode_eq [] (map CartCalculationInputLine.tax_mode lines) in
    let currencies = set_from text_eq [] (map CartCalculationInputLine.currency lines) in
    do
      refuse_if (is_single contract.mixed_tax_mode_policy && ltb 1 (length modes))
          cart_mixed_tax_mode
      refuse_if (ltb 1 (length currencies) || not (any (text_eq contract.currency) currencies))
          cart_mixed_currency

-- The snapshot checks of one line, for a price and a rate that are safe natural numbers.
is_valid_snapshot : CatalogContract → CartCalculationInputLine → ℕ → ℕ → Bool
unfolding is_currency mode_eq
is_valid_snapshot contract line price rate =
    is_currency line.currency
    && leb price contract.maximum_unit_price
    && leb rate 10_000
    && not (mode_eq line.tax_mode untaxed && not (rate == 0))
    && not (length line.id == 0)
    && not (length line.product_uuid == 0)

-- The rest of the loop's body, for a line that passes the snapshot checks.
price_line :
    CatalogContract → CartCalculationInputLine → ℕ → ℕ → ℕ → CalculationResult (PreparedLine × ℕ)
unfolding half_up checked_number calculate_discount parse_quantity
price_line contract line price rate subtotal = do
  quantity ← parse_quantity line.quantity contract.maximum_quantity
  let line_subtotal = half_up (quantity * price) quantity_scale
  checked_number line_subtotal contract.maximum_line_total cart_line_total_limit
  line_discount ← calculate_discount line_subtotal line.discount_type line.discount_value
  checked_number (subtotal + line_subtotal) contract.maximum_invoice_total cart_invoice_total_limit
  ok (
    record {
      input = line;
      subtotal = line_subtotal;
      line_discount = line_discount;
      taxable = line_subtotal - line_discount;
      rate = rate;
    },
    subtotal + line_subtotal,
  )

unfoldable pub prepare_line :
    CatalogContract → ℕ → CartCalculationInputLine → CalculationResult (PreparedLine × ℕ)
unfolding is_valid_snapshot price_line
prepare_line contract subtotal line = elim (safe_natural line.unit_price_amount) [
  | none ↦ err cart_product_snapshot_invalid
  | some price ↦ elim (safe_natural line.tax_rate_basis_points) [
    | none ↦ err cart_product_snapshot_invalid
    | some rate ↦
        if is_valid_snapshot contract line price rate
        then price_line contract line price rate subtotal
        else err cart_product_snapshot_invalid
  ]
]

-- The first loop, with the running subtotal.
unfoldable pub prepare_lines :
    CatalogContract → ℕ → List CartCalculationInputLine → CalculationResult (List PreparedLine × ℕ)
unfolding prepare_line
prepare_lines contract subtotal [] = ok ([], subtotal)
prepare_lines contract subtotal (line ∷ lines) =
    prepare_line contract subtotal line >>= λ (p : PreparedLine × ℕ).
    prepare_lines contract p.1 lines >>= λ (rest : List PreparedLine × ℕ). ok (p.0 ∷ rest.0, rest.1)

pub record LineTotals : Type 0 where
  pub lines : List CartCalculationLine
  pub tax_total : ℕ
  pub grand_total : ℕ

-- `result.ok`
abbrev fits : CalculationResult ℕ → Bool
fits (ok n) = true
fits (err e) = false

-- The amounts of one line, from its part of the invoice discount.
unfoldable pub calculated_line : PreparedLine → ℕ → CartCalculationLine
unfolding calculate_tax mode_eq
calculated_line line allocation =
    let taxable = line.taxable - allocation in
    let tax_amount = calculate_tax taxable line.input.tax_mode line.rate in
    record {
      id = line.input.id;
      subtotal_amount = line.subtotal;
      discount_amount = line.line_discount + allocation;
      tax_amount = tax_amount;
      total_amount =
          if mode_eq line.input.tax_mode exclusive then taxable + tax_amount else taxable;
    }

-- The five checks of a line; the first is of the grand total so far.
line_fits : CatalogContract → ℕ → CartCalculationLine → Bool
unfolding checked_number
line_fits contract grand_total line =
    let limit = contract.maximum_line_total in
    fits (checked_number grand_total contract.maximum_invoice_total cart_invoice_total_limit)
    && fits (checked_number line.subtotal_amount limit cart_line_total_limit)
    && fits (checked_number line.discount_amount limit cart_line_total_limit)
    && fits (checked_number line.tax_amount limit cart_line_total_limit)
    && fits (checked_number line.total_amount limit cart_line_total_limit)

-- The body of the second loop, for the grand total so far.
unfoldable pub total_line :
    CatalogContract → ℕ → PreparedLine → ℕ → CalculationResult (CartCalculationLine × ℕ)
unfolding calculated_line line_fits
total_line contract grand_total line allocation =
    let calculated = calculated_line line allocation in
    let new_total = grand_total + calculated.total_amount in
    if line_fits contract new_total calculated
    then ok (calculated, new_total)
    else err cart_invoice_total_limit

-- The second loop, with the running tax and grand totals. It never lacks an allocation: there is one
-- for each line.
unfoldable pub total_lines :
    CatalogContract → ℕ → ℕ → List PreparedLine → List ℕ → CalculationResult LineTotals
unfolding total_line
total_lines contract tax grand [] allocations =
    ok (record { lines = []; tax_total = tax; grand_total = grand })
total_lines contract tax grand (line ∷ lines) [] = err cart_invoice_total_limit
total_lines contract tax grand (line ∷ lines) (allocation ∷ allocations) =
    total_line contract grand line allocation >>= λ (p : CartCalculationLine × ℕ).
    total_lines contract (tax + p.0.tax_amount) p.1 lines allocations >>= λ (rest : LineTotals).
    ok (record rest { lines = p.0 ∷ rest.lines })

-- The checks of the four totals.
finish : CatalogContract → ℕ → ℕ → LineTotals → CalculationResult CartCalculation
unfolding checked_number
finish contract subtotal discount_total totals = do
  subtotal_amount ← checked_number subtotal contract.maximum_invoice_total cart_invoice_total_limit
  discount_total_amount ←
      checked_number discount_total contract.maximum_invoice_total cart_invoice_total_limit
  tax_total_amount ←
      checked_number totals.tax_total contract.maximum_invoice_total cart_invoice_total_limit
  grand_total_amount ←
      checked_number totals.grand_total contract.maximum_invoice_total cart_invoice_total_limit
  ok (record {
    lines = totals.lines;
    subtotal_amount = subtotal_amount;
    discount_total_amount = discount_total_amount;
    tax_total_amount = tax_total_amount;
    grand_total_amount = grand_total_amount;
  })

module _ (locale_after : Text → Text → Bool) where
  -- What follows the first loop.
  price_prepared :
      CatalogContract
      → DiscountType
      → Number
      → List PreparedLine
      → ℕ
      → CalculationResult CartCalculation
  unfolding calculate_discount allocation_for total_lines finish
  price_prepared contract type value prepared subtotal = do
    let item_discount_total = sum_by PreparedLine.line_discount prepared
    let taxable_total = sum_by PreparedLine.taxable prepared
    invoice_discount ← calculate_discount taxable_total type value
    allocations ← allocation_for locale_after prepared invoice_discount taxable_total
    totals ← total_lines contract 0 0 prepared allocations
    finish contract subtotal (item_discount_total + invoice_discount) totals

  unfoldable pub calculate_cart :
      List CartCalculationInputLine
      → CatalogContract
      → DiscountType
      → Number
      → CalculationResult CartCalculation
  unfolding check_modes prepare_lines price_prepared
  calculate_cart lines contract invoice_discount_type invoice_discount_value = do
    refuse_if (length lines == 0) cart_empty
    check_modes lines contract
    prepare_lines contract 0 lines >>= λ (p : List PreparedLine × ℕ).
        price_prepared contract invoice_discount_type invoice_discount_value p.0 p.1
