-- ===== src/Pricing/Quantity/RoundTrip.antt =====
-- A printed quantity reads back as itself (src/shared/pos/posCalculator.ts).
use pos_desktop.Prelude.{
  ℕ, ◌+◌, ◌*◌, ◌/◌, ◌%◌, ◌≤◌, ◌≡◌, refl, false, some, [], ◌∷◌, arith, length, ap,
}
use pos_desktop.Prelude.Text.{
  Text, is_digit, digits_value, decimal, pad_start, text_eq_refl, Digits, decimal-Digits,
  digits_value-decimal, digits_value-pad_start, length-decimal, decimal_nonempty, pad_start-Digits,
  length-pad_start, pad_end_full, digit_run-append, after_digits-append, digit_run_of_Digits,
}
use pos_desktop.Pricing.Quantity.{
  quantity_scale, fraction_part, quantity_value, parse_quantity_unchecked, milli_to_quantity,
}

-- Three digits behind a point are the fraction.
fraction_part_lem : (s : Text) → Digits s → length s ≡ 3 → fraction_part (b'.' ∷ s) ≡ some s
unfolding fraction_part
fraction_part_lem s h e = rw (digit_run_of_Digits s h, text_eq_refl s, e)

quantity_value_lem :
    (whole fraction : Text)
    → 1 ≤ length whole
    → length fraction ≡ 3
    → quantity_value whole (some fraction)
      ≡ some (digits_value whole * quantity_scale + digits_value fraction)
unfolding quantity_value
quantity_value_lem [] fraction h e = absurd (omega arith)
quantity_value_lem (c ∷ s) fraction h e = rw (pad_end_full 3 fraction (omega arith))

-- Printing a number of thousandths and reading the text gives the number back.
pub parse_quantity_unchecked-milli_to_quantity :
    (v : ℕ) → parse_quantity_unchecked (milli_to_quantity v) ≡ some v
unfolding parse_quantity_unchecked milli_to_quantity
parse_quantity_unchecked-milli_to_quantity v =
    let whole = decimal (v / 1000) in
    let fraction = pad_start 3 (decimal (v % 1000)) in
    let whole_digits : Digits whole = decimal-Digits (v / 1000) in
    let fraction_digits : Digits fraction = pad_start-Digits 3 _ (decimal-Digits (v % 1000)) in
    let three : length fraction ≡ 3 =
      length-pad_start 3 _ (length-decimal 2 (v % 1000) (omega arith)) in
    let point : is_digit b'.' ≡ false = unfold is_digit in refl in
    rw
      (
        digit_run-append whole b'.' fraction whole_digits point,
        after_digits-append whole b'.' fraction whole_digits point,
        fraction_part_lem fraction fraction_digits three,
        quantity_value_lem whole fraction (decimal_nonempty (v / 1000)) three,
        digits_value-decimal,
        digits_value-pad_start,
        digits_value-decimal,
      )
      (ap some (omega arith))
