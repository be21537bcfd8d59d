-- ===== src/Prelude/Text.antt =====
-- JavaScript strings as lists of UTF-16 code units: equality, decimal digits and padding.
use Prim.Native.Nat.{ℕ, zero, suc, ◌+◌, ◌-◌, ◌*◌, ◌/◌, ◌%◌, ◌^◌, ◌≤◌, ◌<◌}
use Prim.Native.Char.{code}
use Prim.Native.String.{String}
use mathlib.Core.Path.{◌≡◌, refl}
use mathlib.Core.Logic.{◌↔◌, inl, inr}
use mathlib.Core.Bool.{Bool, true, false, ◌&&◌, ◌||◌}
use mathlib.Core.List.{List, [], ◌∷◌, ◌++◌, append-nil}
use native.Mathlib.Omega.{arith}
use native.Mathlib.Nat.{pow-suc}
use pos_desktop.Prelude.Tests.{ltb, leb, ◌==◌, if◌then◌else◌, Bool-cases}
use pos_desktop.Prelude.Lists.{length-replicate, length, replicate, All, length-append, All-append}

abbrev pub Text : Type 0
Text = List ℕ

-- The code units of an ASCII literal.
abbrev pub codes : String → Text
codes String.[] = []
codes (String.◌∷◌ c s) = code c ∷ codes s

-- `a === b`
unfoldable pub text_eq : Text → Text → Bool
text_eq [] [] = true
text_eq [] (d ∷ t) = false
text_eq (c ∷ s) [] = false
text_eq (c ∷ s) (d ∷ t) = c == d && text_eq s t

pub text_eq_iff : (s t : Text) → (text_eq s t ≡ true) ↔ (s ≡ t)
unfolding text_eq
text_eq_iff [] [] = ground arith
text_eq_iff [] (d ∷ t) = ground arith
text_eq_iff (c ∷ s) [] = ground arith
text_eq_iff (c ∷ s) (d ∷ t) = ground (arith, text_eq_iff s t)

pub text_eq_refl : (s : Text) → text_eq s s ≡ true
text_eq_refl s = (text_eq_iff s s).1 refl

-- Code unit by code unit, `s` comes after `t`.
unfoldable pub text_after : Text → Text → Bool
text_after [] t = false
text_after (c ∷ s) [] = true
text_after (c ∷ s) (d ∷ t) = ltb d c || c == d && text_after s t

pub text_after_asym : (s t : Text) → text_after s t ≡ true → text_after t s ≡ false
unfolding text_after
text_after_asym [] t h = cc
text_after_asym (c ∷ s) [] h = refl
text_after_asym (c ∷ s) (d ∷ t) h = ground (arith, text_after_asym s t)

pub text_after_trans :
    (s t u : Text) → text_after s t ≡ false → text_after t u ≡ false → text_after s u ≡ false
unfolding text_after
text_after_trans [] t u h k = refl
text_after_trans (c ∷ s) [] u h k = cc
text_after_trans (c ∷ s) (d ∷ t) [] h k = cc
text_after_trans (c ∷ s) (d ∷ t) (e ∷ u) h k = ground (arith, text_after_trans s t u)

-- `\d` of a regular expression
unfoldable pub is_digit : ℕ → Bool
is_digit c = leb b'0' c && leb c b'9'

-- The longest prefix of digits, which `\d+` takes where no digit may follow it.
unfoldable pub digit_run : Text → Text
unfolding is_digit
digit_run [] = []
digit_run (c ∷ s) = let run = digit_run s in if is_digit c then c ∷ run else []

unfoldable pub after_digits : Text → Text
unfolding is_digit
after_digits [] = []
after_digits (c ∷ s) = let rest = after_digits s in if is_digit c then rest else c ∷ s

-- `BigInt(digits)`
value_from : ℕ → Text → ℕ
value_from acc [] = acc
value_from acc (c ∷ s) = value_from (acc * 10 + (c - b'0')) s

unfoldable pub digits_value : Text → ℕ
unfolding value_from
digits_value = value_from 0

-- `String(n)`; a number is longer than its digits, so the fuel `n + 1` is enough.
decimal_from : ℕ → ℕ → Text
decimal_from zero n = []
decimal_from (suc fuel) n =
    let more = decimal_from fuel (n / 10) in
    let last : Text = (n % 10 + b'0') ∷ [] in if ltb n 10 then last else more ++ last

unfoldable pub decimal : ℕ → Text
unfolding decimal_from
decimal n = decimal_from (suc n) n

-- `s.padStart(n, '0')` and `s.padEnd(n, '0')`
unfoldable pub pad_start : ℕ → Text → Text
pad_start n s = replicate (n - length s) b'0' ++ s

unfoldable pub pad_end : ℕ → Text → Text
pad_end n s = s ++ replicate (n - length s) b'0'

abbrev pub Digits : Text → Type 0
Digits = All λ c. is_digit c ≡ true

value_from-append :
    (acc : ℕ) (s t : Text) → value_from acc (s ++ t) ≡ value_from (value_from acc s) t
unfolding value_from
value_from-append acc [] t = refl
value_from-append acc (c ∷ s) t = value_from-append (acc * 10 + (c - b'0')) s t

pub digits_value-snoc :
    (s : Text) (c : ℕ) → digits_value (s ++ c ∷ []) ≡ digits_value s * 10 + (c - b'0')
unfolding digits_value
digits_value-snoc s c = value_from-append 0 s (c ∷ [])

value_from-zeros : (n : ℕ) (s : Text) → value_from 0 (replicate n b'0' ++ s) ≡ value_from 0 s
unfolding value_from
value_from-zeros zero s = refl
value_from-zeros (suc n) s = value_from-zeros n s

pub digits_value-pad_start : (n : ℕ) (s : Text) → digits_value (pad_start n s) ≡ digits_value s
unfolding digits_value pad_start
digits_value-pad_start n s = value_from-zeros (n - length s) s

decimal_from-Digits : (fuel n : ℕ) → Digits (decimal_from fuel n)
unfolding decimal_from is_digit
decimal_from-Digits zero n = tt
decimal_from-Digits (suc fuel) n =
    let last_digit : is_digit (n % 10 + b'0') ≡ true = ground arith in
    elim (Bool-cases (ltb n 10)) [
      | inl small ↦ rw small (last_digit, tt)
      | inr large ↦ rw large (
          All-append (λ c. is_digit c ≡ true) (decimal_from fuel (n / 10)) _
            (decimal_from-Digits fuel (n / 10)) (last_digit, tt))
    ]

pub decimal-Digits : (n : ℕ) → Digits (decimal n)
unfolding decimal
decimal-Digits n = decimal_from-Digits (suc n) n

digits_value-decimal_from : (fuel n : ℕ) → n < fuel → digits_value (decimal_from fuel n) ≡ n
unfolding decimal_from
digits_value-decimal_from zero n h = elim h [ ]
digits_value-decimal_from (suc fuel) n h = ground (
  arith,
  digits_value-snoc (decimal_from fuel (n / 10)) (n % 10 + b'0'),
  digits_value-snoc [] (n % 10 + b'0'),
  digits_value_nil,
  digits_value-decimal_from fuel (n / 10),
)
  where
    digits_value_nil : digits_value [] ≡ 0
    digits_value_nil = unfold digits_value in refl

decimal_from-length : (fuel k n : ℕ) → n < 10 ^ suc k → length (decimal_from fuel n) ≤ suc k
unfolding decimal_from
decimal_from-length zero k n h = omega arith
decimal_from-length (suc fuel) zero n h = ground arith
decimal_from-length (suc fuel) (suc k) n h = ground (
  arith,
  pow-suc 10 (suc k),
  length-append (decimal_from fuel (n / 10)) ((n % 10 + b'0') ∷ []),
  decimal_from-length fuel k (n / 10),
)

-- A number below a power of ten has at most that many digits.
pub length-decimal : (k n : ℕ) → n < 10 ^ suc k → length (decimal n) ≤ suc k
unfolding decimal
length-decimal k n h = decimal_from-length (suc n) k n h

-- Reading what `String(n)` prints gives the number back.
pub digits_value-decimal : (n : ℕ) → digits_value (decimal n) ≡ n
unfolding decimal
digits_value-decimal n = digits_value-decimal_from (suc n) n (omega arith)

-- A number has a digit.
pub decimal_nonempty : (n : ℕ) → 1 ≤ length (decimal n)
unfolding decimal decimal_from
decimal_nonempty n = ground (arith, length-append (decimal_from n (n / 10)) ((n % 10 + b'0') ∷ []))

zeros-Digits : (n : ℕ) → Digits (replicate n b'0')
unfolding is_digit
zeros-Digits zero = tt
zeros-Digits (suc n) = (refl, zeros-Digits n)

pub pad_start-Digits : (n : ℕ) (s : Text) → Digits s → Digits (pad_start n s)
unfolding pad_start
pad_start-Digits n s h =
    All-append (λ c. is_digit c ≡ true) (replicate (n - length s) b'0') s (zeros-Digits _) h

pub length-pad_start : (n : ℕ) (s : Text) → length s ≤ n → length (pad_start n s) ≡ n
unfolding pad_start
length-pad_start n s h = omega (
  arith,
  length-append (replicate (n - length s) b'0') s,
  length-replicate {A = ℕ} (n - length s) b'0',
)

pub pad_end_full : (n : ℕ) (s : Text) → n ≤ length s → pad_end n s ≡ s
unfolding pad_end
pad_end_full n s h = let none_left : n - length s ≡ 0 = omega arith in rw none_left (append-nil s)

-- A run of digits ends at the first other character.
pub digit_run-append :
    (s : Text) (c : ℕ) (t : Text) → Digits s → is_digit c ≡ false → digit_run (s ++ c ∷ t) ≡ s
unfolding digit_run
digit_run-append [] c t h e = rw e
digit_run-append (d ∷ s) c t h e = rw (h.0, digit_run-append s c t h.1 e)

pub after_digits-append :
    (s : Text) (c : ℕ) (t : Text)
    → Digits s
    → is_digit c ≡ false
    → after_digits (s ++ c ∷ t) ≡ c ∷ t
unfolding after_digits
after_digits-append [] c t h e = rw e
after_digits-append (d ∷ s) c t h e = rw (h.0, after_digits-append s c t h.1 e)

pub digit_run_of_Digits : (s : Text) → Digits s → digit_run s ≡ s
unfolding digit_run
digit_run_of_Digits [] h = refl
digit_run_of_Digits (d ∷ s) h = rw (h.0, digit_run_of_Digits s h.1)
