-- ===== src/Pricing/Quantity.antt =====
-- Quantities: decimal texts with up to three places, read into thousandths and printed back
-- (src/shared/pos/posCalculator.ts).
pub mod RoundTrip
pub mod Steps
use pos_desktop.Prelude.{
  ℕ, ◌+◌, ◌*◌, ◌/◌, ◌%◌, ◌≡◌, refl, Bool, true, false, ◌&&◌, ◌||◌, Option, none, some, List, [],
  ◌∷◌, ◌++◌, ltb, leb, ◌==◌, if◌then◌else◌, ok, err, ◌>>=◌, ◌>>◌, refuse_if, length,
}
use pos_desktop.Prelude.Int.{ℤ, pos, negsuc, ◌+ℤ◌, ltb_ℤ}
use pos_desktop.Prelude.Number.{Number, safe_natural, safe_integer}
use pos_desktop.Prelude.Text.{
  Text, codes, digit_run, after_digits, digits_value, decimal, pad_start, pad_end, text_eq,
}
use pos_desktop.Catalog.{CatalogContract}
use pos_desktop.Pricing.Types.{CalculationResult, cart_quantity_invalid, cart_quantity_out_of_range}

abbrev pub quantity_scale : ℕ
quantity_scale = 1000

-- The digits of `(?:\.(?<fraction>\d{1,3}))?$`: empty where the text ends, and `none` where it does
-- not match.
unfoldable pub fraction_part : Text → Option Text
unfolding digit_run after_digits text_eq
fraction_part [] = some []
fraction_part (c ∷ s) =
    if c == b'.'
      && leb 1 (length (digit_run s))
      && leb (length (digit_run s)) 3
      && text_eq (digit_run s) s
    then some s
    else none

-- The value of a whole part and a fraction that the expression matched.
quantity_value : Text → Option Text → Option ℕ
unfolding digits_value pad_end
quantity_value whole none = none
quantity_value [] (some fraction) = none
quantity_value (c ∷ s) (some fraction) =
    some (digits_value (c ∷ s) * quantity_scale + digits_value (pad_end 3 fraction))

unfoldable pub parse_quantity_unchecked : Text → Option ℕ
unfolding fraction_part quantity_value
parse_quantity_unchecked value =
    quantity_value (digit_run value) (fraction_part (after_digits value))

unfoldable pub parse_quantity : Text → Text → CalculationResult ℕ
unfolding parse_quantity_unchecked
parse_quantity value maximum = elim (parse_quantity_unchecked value) [
  | none ↦ err cart_quantity_invalid
  | some parsed ↦ elim (parse_quantity_unchecked maximum) [
    | none ↦ err cart_quantity_invalid
    | some maximum_value ↦
        if parsed == 0 || ltb maximum_value parsed
        then err cart_quantity_out_of_range
        else ok parsed
  ]
]

unfoldable pub milli_to_quantity : ℕ → Text
unfolding decimal pad_start
milli_to_quantity value =
    decimal (value / quantity_scale) ++ (b'.' ∷ pad_start 3 (decimal (value % quantity_scale)))

unfoldable pub format_quantity : Number → CalculationResult Text
unfolding milli_to_quantity
format_quantity milli = elim (safe_natural milli) [
  | none ↦ err cart_quantity_invalid
  | some value ↦ ok (milli_to_quantity value)
]

-- The check of the new quantity, and its text.
within_range : ℤ → ℕ → ℕ → CalculationResult Text
unfolding milli_to_quantity
within_range (negsuc n) minimum maximum = err cart_quantity_out_of_range
within_range (pos next) minimum maximum =
    if ltb next minimum || ltb maximum next
    then err cart_quantity_out_of_range
    else ok (milli_to_quantity next)

unfoldable pub add_quantity : Text → Number → CatalogContract → CalculationResult Text
unfolding parse_quantity parse_quantity_unchecked within_range ◌+ℤ◌
add_quantity quantity delta_milli contract = elim (safe_integer delta_milli) [
  | none ↦ err cart_quantity_invalid
  | some delta ↦ do
    current ← parse_quantity quantity contract.maximum_quantity
    elim (parse_quantity_unchecked contract.minimum_quantity) [
      | none ↦ err cart_quantity_invalid
      | some minimum ↦ elim (parse_quantity_unchecked contract.maximum_quantity) [
        | none ↦ err cart_quantity_invalid
        | some maximum ↦ within_range (pos current +ℤ delta) minimum maximum
      ]
    ]
]
