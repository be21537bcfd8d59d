-- ===== src/Pricing/Amounts.antt =====
-- Rounding, discounts and taxes of one amount (src/shared/pos/posCalculator.ts), and what bounds them.
use pos_desktop.Prelude.{
  ℕ, ◌+◌, ◌-◌, ◌*◌, ◌/◌, ◌≤◌, ◌<◌, ◌≡◌, ◌||◌, none, some, arith, ltb, ◌==◌, if◌then◌else◌,
  Option-cases, inl, inr, ok, err,
}
use pos_desktop.Prelude.Number.{Number, safe_natural, max_safe_integer}
use pos_desktop.Catalog.{TaxMode, untaxed, inclusive, exclusive}
use pos_desktop.Pricing.Types.{
  DiscountType, fixed, percentage, null, CartCalculationErrorCode, CalculationResult,
  cart_discount_invalid, cart_discount_exceeds_amount,
}

abbrev pub percentage_scale : ℕ
percentage_scale = 10_000

-- A `bigint` here is never negative, and the denominators are 1000, 10000 and 10000 + rate, so the
-- `RangeError` of the source is out of reach.
unfoldable pub half_up : ℕ → ℕ → ℕ
half_up numerator denominator = (numerator + denominator / 2) / denominator

unfoldable pub checked_number : ℕ → ℕ → CartCalculationErrorCode → CalculationResult ℕ
checked_number value maximum code =
    if ltb maximum value || ltb max_safe_integer value then err code else ok value

-- The branches on the type, for a value that is a safe natural number.
discount_of : ℕ → DiscountType → ℕ → CalculationResult ℕ
unfolding half_up
discount_of amount null value = if value == 0 then ok 0 else err cart_discount_invalid
discount_of amount fixed value =
    if ltb amount value then err cart_discount_exceeds_amount else ok value
discount_of amount percentage value =
    if ltb percentage_scale value
    then err cart_discount_invalid
    else ok (half_up (amount * value) percentage_scale)

unfoldable pub calculate_discount : ℕ → DiscountType → Number → CalculationResult ℕ
unfolding discount_of
calculate_discount amount type raw_value = elim (safe_natural raw_value) [
  | none ↦ err cart_discount_invalid
  | some value ↦ discount_of amount type value
]

-- The subtraction is exact: `half_up` takes no more than the amount here (`inclusive_tax-le`).
unfoldable pub calculate_tax : ℕ → TaxMode → ℕ → ℕ
unfolding half_up
calculate_tax amount untaxed rate = 0
calculate_tax amount exclusive rate = half_up (amount * rate) percentage_scale
calculate_tax amount inclusive rate =
    amount - half_up (amount * percentage_scale) (percentage_scale + rate)

-- The result is the whole number nearest to the quotient, and a tie goes up.
pub half_up_nearest :
    (n d : ℕ) → 0 < d → (2 * d * half_up n d ≤ 2 * n + d) × (2 * n < 2 * d * half_up n d + d)
unfolding half_up
half_up_nearest n d h = grind arith

half_up-le : (n d m : ℕ) → 0 < d → n ≤ m * d → half_up n d ≤ m
unfolding half_up
half_up-le n d m h le = grind arith

pub percentage-le :
    (amount value : ℕ)
    → value ≤ percentage_scale
    → half_up (amount * value) percentage_scale ≤ amount
percentage-le amount value h =
    half_up-le (amount * value) percentage_scale amount (omega arith) (grind arith)

pub inclusive_net-le :
    (amount rate : ℕ) → half_up (amount * percentage_scale) (percentage_scale + rate) ≤ amount
inclusive_net-le amount rate =
    half_up-le (amount * percentage_scale) (percentage_scale + rate) amount (omega arith)
      (grind arith)

discount_of-le :
    (amount : ℕ) (type : DiscountType) (value : ℕ) {d : ℕ}
    → discount_of amount type value ≡ ok d
    → d ≤ amount
unfolding discount_of
discount_of-le amount null value h = ground arith
discount_of-le amount fixed value h = ground arith
discount_of-le amount percentage value h = ground (arith, percentage-le amount value)

-- A discount that is granted never exceeds the amount it is taken off.
pub calculate_discount-le :
    (amount : ℕ) (type : DiscountType) (raw : Number) {d : ℕ}
    → calculate_discount amount type raw ≡ ok d
    → d ≤ amount
unfolding calculate_discount
calculate_discount-le amount type raw h = elim (Option-cases (safe_natural raw)) [
  | inl bad ↦ cc (rw (bad, calculate_discount) at h)
  | inr (value, good) ↦ discount_of-le amount type value (rw (good, calculate_discount) at h)
]

-- A tax that is contained in the price is no more than the price.
pub calculate_tax_inclusive-le : (amount rate : ℕ) → calculate_tax amount inclusive rate ≤ amount
unfolding calculate_tax
calculate_tax_inclusive-le amount rate = omega arith

-- A checked number is unchanged, within its limit and exact as a JavaScript number.
pub checked_number-eq :
    (value maximum : ℕ) (code : CartCalculationErrorCode) {n : ℕ}
    → checked_number value maximum code ≡ ok n
    → (n ≡ value) × (value ≤ maximum) × (value ≤ max_safe_integer)
unfolding checked_number
checked_number-eq value maximum code h = ground arith
