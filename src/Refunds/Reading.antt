-- ===== src/Refunds/Reading.antt =====
-- The reading of a quantity (`toMilli` of src/shared/pos/refundCalculator.ts). `Number` of a text is a
-- parameter, which has nothing where it gives no whole number from zero on.
use pos_desktop.Prelude.{
  ℕ, zero, suc, ◌+◌, ◌*◌, ◌/◌, ◌%◌, ◌≤◌, ◌≡◌, refl, ap, ◌∙◌, true, false, Option, none, some, [],
  ◌∷◌, ◌++◌, ◌==◌, length, take, if◌then◌else◌, arith,
}
use pos_desktop.Prelude.Text.{
  Text, is_digit, digits_value, decimal, pad_start, pad_end, Digits, decimal-Digits,
  digits_value-decimal, digits_value-pad_start, length-decimal, decimal_nonempty, pad_start-Digits,
  length-pad_start, pad_end_full,
}
use pos_desktop.Pricing.Quantity.{milli_to_quantity}
use pos_desktop.Refunds.{Doubles}
use pos_desktop.Refunds.Conserved.{exact_limit, IsExact}

-- The first piece of `split('.')`, and what is behind the point.
unfoldable before_point : Text → Text
before_point [] = []
before_point (c ∷ s) = let rest = before_point s in if c == b'.' then [] else c ∷ rest

unfoldable after_point : Text → Text
after_point [] = []
after_point (c ∷ s) = let rest = after_point s in if c == b'.' then s else rest

no_point : (c : ℕ) → is_digit c ≡ true → (c == b'.') ≡ false
unfolding is_digit
no_point c h = ground (arith, h)

before_point-Digits : (s t : Text) → Digits s → before_point (s ++ b'.' ∷ t) ≡ s
unfolding before_point
before_point-Digits [] t h = refl
before_point-Digits (c ∷ s) t (here, h) = ground (arith, no_point c here, before_point-Digits s t h)

whole_piece : (s : Text) → Digits s → before_point s ≡ s
unfolding before_point
whole_piece [] h = refl
whole_piece (c ∷ s) (here, h) = ground (arith, no_point c here, whole_piece s h)

after_point-Digits : (s t : Text) → Digits s → after_point (s ++ b'.' ∷ t) ≡ t
unfolding after_point
after_point-Digits [] t h = refl
after_point-Digits (c ∷ s) t (here, h) = ground (arith, no_point c here, after_point-Digits s t h)

take_all : (n : ℕ) (s : Text) → length s ≤ n → take n s ≡ s
take_all zero [] h = refl
take_all zero (c ∷ s) h = absurd (omega arith)
take_all (suc n) [] h = refl
take_all (suc n) (c ∷ s) h = ap (λ t. c ∷ t) (take_all n s (omega arith))

module _ (d : Doubles) (number_of : Text → Option ℕ) where
  abbrev in_milli : Option ℕ → Option ℕ → Option ℕ
  in_milli (some whole) (some fraction) = some (d.plus (d.times whole 1000) fraction)
  in_milli (some whole) none = none
  in_milli none fraction = none

  unfoldable pub to_milli : Text → Option ℕ
  unfolding before_point after_point pad_end
  to_milli quantity =
      in_milli (number_of (before_point quantity))
        (number_of (take 3 (pad_end 3 (before_point (after_point quantity)))))

  -- `Number` reads digits.
  abbrev pub ReadsDigits : Type 0
  ReadsDigits =
      (t : Text)
      → 1 ≤ length t
      → Digits t
      → digits_value t ≤ exact_limit
      → number_of t ≡ some (digits_value t)

  -- Where doubles are exact on whole numbers up to 2^53 and `Number` reads digits, a quantity that the
  -- cart prints is read back as the same number of thousandths, up to 2^53.
  pub to_milli-milli_to_quantity :
      IsExact d → ReadsDigits → (v : ℕ) → v ≤ exact_limit → to_milli (milli_to_quantity v) ≡ some v
  unfolding to_milli milli_to_quantity
  to_milli-milli_to_quantity exact reads v le =
      let whole = decimal (v / 1000) in
      let fraction = pad_start 3 (decimal (v % 1000)) in
      let fraction_digits : Digits fraction = pad_start-Digits 3 _ (decimal-Digits (v % 1000)) in
      let three : length fraction ≡ 3 =
        length-pad_start 3 _ (length-decimal 2 (v % 1000) (omega arith)) in
      let whole_value = digits_value-decimal (v / 1000) in
      let fraction_value : digits_value fraction ≡ v % 1000 =
        digits_value-pad_start 3 (decimal (v % 1000)) ∙ digits_value-decimal (v % 1000) in
      let thousands : d.times (v / 1000) 1000 ≡ v / 1000 * 1000 =
        exact.0 (v / 1000) 1000 (omega (arith, le)) in
      let all : d.plus (v / 1000 * 1000) (v % 1000) ≡ v / 1000 * 1000 + v % 1000 =
        exact.1 (v / 1000 * 1000) (v % 1000) (omega (arith, le)) in
      rw
        (
          before_point-Digits whole fraction (decimal-Digits (v / 1000)),
          after_point-Digits whole fraction (decimal-Digits (v / 1000)),
          whole_piece fraction fraction_digits,
          pad_end_full 3 fraction (omega (arith, three)),
          take_all 3 fraction (omega (arith, three)),
          reads whole (decimal_nonempty (v / 1000)) (decimal-Digits (v / 1000))
              (omega (arith, whole_value, le)),
          reads fraction (omega (arith, three)) fraction_digits (omega (arith, fraction_value, le)),
          whole_value,
          fraction_value,
          thousands,
          all,
        )
        (ap some (omega arith))
