-- ===== src/Prelude/Json/Quoting.antt =====
-- What a quoted text and a printed number determine.
use pos_desktop.Prelude.{
  ℕ, ◌+◌, ◌-◌, ◌*◌, ◌/◌, ◌%◌, ◌<◌, ◌≡◌, ◌≢◌, refl, sym, ap, ◌∙◌, Bool, true, false, not, ◌&&◌, ◌||◌,
  [], ◌∷◌, ◌++◌, ltb, ◌==◌, if◌then◌else◌, arith, if_cases,
}
use mathlib.Core.List.{append_assoc}
use pos_desktop.Prelude.Text.{
  Text, decimal, is_digit, digit_run, after_digits, digits_value, digit_run-append,
  after_digits-append, decimal-Digits, digits_value-decimal,
}
use pos_desktop.Prelude.Json.{
  hex_digit, unicode_escape, control_escape, is_high, is_low, starts_low, unit_text, quoted_from,
  quoted,
}

-- What a quoted code unit stands for, and the text behind it.
abbrev digit_value : ℕ → ℕ
digit_value d = if ltb d b'a' then d - b'0' else d - b'a' + 10

abbrev hex_value : Text → ℕ × Text
hex_value (a ∷ b ∷ c ∷ d ∷ rest) =
    (((digit_value a * 16 + digit_value b) * 16 + digit_value c) * 16 + digit_value d, rest)
hex_value other = (0, [])

abbrev short_value : ℕ → ℕ
short_value d =
    if d == b'b'
    then 8
    else if d == b't'
    then 9
    else if d == b'n'
    then 10
    else if d == b'f'
    then 12
    else if d == b'r'
    then 13
    else d

abbrev escape_value : Text → ℕ × Text
escape_value [] = (0, [])
escape_value (d ∷ s) = if d == b'u' then hex_value s else (short_value d, s)

read_unit : Text → ℕ × Text
read_unit [] = (0, [])
read_unit (c ∷ s) = if c == b'\\' then escape_value s else (c, s)

digit_value-hex_digit : (n : ℕ) → n < 16 → digit_value (hex_digit n) ≡ n
digit_value-hex_digit n h = ground arith

read_unit-unicode_escape :
    (c : ℕ) (rest : Text) → c < 65536 → read_unit (unicode_escape c ++ rest) ≡ (c, rest)
unfolding read_unit
read_unit-unicode_escape c rest h =
    rw
      (
        digit_value-hex_digit (c / 4096 % 16) (omega arith),
        digit_value-hex_digit (c / 256 % 16) (omega arith),
        digit_value-hex_digit (c / 16 % 16) (omega arith),
        digit_value-hex_digit (c % 16) (omega arith),
      )
      (ap (λ (n : ℕ). (n, rest)) (omega arith))

special_value :
    (c : ℕ) (rest : Text) → (c == b'"' || c == b'\\') ≡ true → escape_value (c ∷ rest) ≡ (c, rest)
special_value c rest h = ground arith

-- A code unit of the basic plane below the spaces, or of a surrogate pair.
read_unit-control_escape :
    (c : ℕ) (rest : Text) → ltb c 32 ≡ true → read_unit (control_escape c ++ rest) ≡ (c, rest)
unfolding read_unit
read_unit-control_escape c rest small =
    if_cases P (c == 8) (λ e. is 8 e)
      λ f.
        if_cases P (c == 9) (λ e. is 9 e)
          λ f.
            if_cases P (c == 10) (λ e. is 10 e)
              λ f.
                if_cases P (c == 12) (λ e. is 12 e)
                  λ f.
                    if_cases P (c == 13) (λ e. is 13 e)
                      λ f. read_unit-unicode_escape c rest (ground (arith, small))
  where
    P : Text → Type 0
    P t = read_unit (t ++ rest) ≡ (c, rest)

    is : (n : ℕ) → (c == n) ≡ true → ◌≡◌ {A = ℕ × Text} (n, rest) (c, rest)
    is n e = let same : n ≡ c = ground (arith, e) in ap (λ (m : ℕ). (m, rest)) same

surrogate : (c : ℕ) (p q : Bool) → (is_high c && p || is_low c && q) ≡ true → c < 65536
surrogate c p q h = ground (arith, h)

read_unit-unit_text :
    (paired : Bool) (c : ℕ) (s rest : Text) → read_unit (unit_text paired c s ++ rest) ≡ (c, rest)
unfolding read_unit unit_text
read_unit-unit_text paired c s rest =
    if_cases P (c == b'"' || c == b'\\') (λ e. special_value c rest e)
      λ plain.
        if_cases P (ltb c 32) (λ e. read_unit-control_escape c rest e)
          λ printed.
            if_cases P (is_high c && not (starts_low s) || is_low c && not paired)
              (λ e.
                read_unit-unicode_escape c rest (surrogate c (not (starts_low s)) (not paired) e))
              λ whole. unescaped plain
  where
    P : Text → Type 0
    P t = read_unit (t ++ rest) ≡ (c, rest)

    unescaped :
        (c == b'"' || c == b'\\') ≡ false
        → (if c == b'\\' then escape_value rest else (c, rest)) ≡ (c, rest)
    unescaped h = ground (arith, h)

-- No code unit is written as the quote that ends a text.
head_of : Text → ℕ
head_of [] = 0
head_of (c ∷ s) = c

unit_text-head :
    (paired : Bool) (c : ℕ) (s rest : Text) → head_of (unit_text paired c s ++ rest) ≢ b'"'
unfolding unit_text head_of
unit_text-head paired c s rest =
    if_cases P (c == b'"' || c == b'\\') (λ e h. absurd (omega (arith, h)))
      λ plain.
        if_cases P (ltb c 32) (λ e. control c)
          λ printed.
            if_cases P (is_high c && not (starts_low s) || is_low c && not paired)
              (λ e h. absurd (omega (arith, h))) (λ whole h. absurd (ground (arith, plain, h)))
  where
    P : Text → Type 0
    P t = head_of (t ++ rest) ≢ b'"'

    control : (c : ℕ) → P (control_escape c)
    control c h = absurd (ground (arith, h))

abbrev after_head : Text → Text
after_head [] = []
after_head (c ∷ s) = s

abbrev paired_with : ℕ → Text → Bool
paired_with c s = is_high c && starts_low s

-- A quotation ends where its text does: what follows two equal quotations is equal.
quoted_from-inj :
    (p q : Bool) (s t x y : Text) → quoted_from p s ++ x ≡ quoted_from q t ++ y → (s ≡ t) × (x ≡ y)
unfolding quoted_from head_of
quoted_from-inj p q [] [] x y h = (refl, ap after_head h)
quoted_from-inj p q [] (d ∷ t) x y h = absurd (
    unit_text-head q d t (quoted_from (paired_with d t) t ++ y)
      (sym (ap head_of (h ∙ append_assoc (unit_text q d t) (quoted_from (paired_with d t) t) y))))
quoted_from-inj p q (c ∷ s) [] x y h = absurd (
    unit_text-head p c s (quoted_from (paired_with c s) s ++ x)
      (ap head_of (sym (append_assoc (unit_text p c s) (quoted_from (paired_with c s) s) x) ∙ h)))
quoted_from-inj p q (c ∷ s) (d ∷ t) x y h =
    let behind = quoted_from (paired_with c s) s ++ x in
    let behind' = quoted_from (paired_with d t) t ++ y in
    let whole : unit_text p c s ++ behind ≡ unit_text q d t ++ behind' =
      sym (append_assoc (unit_text p c s) (quoted_from (paired_with c s) s) x)
      ∙ h
      ∙ append_assoc (unit_text q d t) (quoted_from (paired_with d t) t) y in
    let read : ◌≡◌ {A = ℕ × Text} (c, behind) (d, behind') =
      sym (read_unit-unit_text p c s behind)
      ∙ ap read_unit whole
      ∙ read_unit-unit_text q d t behind' in
    let (same, rest) =
      quoted_from-inj (paired_with c s) (paired_with d t) s t x y
        (ap (λ (r : ℕ × Text). r.1) read) in
    let here : c ≡ d = ap (λ (r : ℕ × Text). r.0) read in (cc (here, same), rest)

pub quoted-inj : (s t x y : Text) → quoted s ++ x ≡ quoted t ++ y → (s ≡ t) × (x ≡ y)
unfolding quoted
quoted-inj s t x y h = quoted_from-inj false false s t x y (ap after_head h)

-- So does a number in front of what is not a digit.
pub decimal-inj :
    (n m c d : ℕ) (x y : Text)
    → is_digit c ≡ false
    → is_digit d ≡ false
    → decimal n ++ (c ∷ x) ≡ decimal m ++ (d ∷ y)
    → (n ≡ m) × (c ∷ x ≡ d ∷ y)
decimal-inj n m c d x y e f h =
    let digits : decimal n ≡ decimal m =
      sym (digit_run-append (decimal n) c x (decimal-Digits n) e)
      ∙ ap digit_run h
      ∙ digit_run-append (decimal m) d y (decimal-Digits m) f in
    (
      sym (digits_value-decimal n) ∙ ap digits_value digits ∙ digits_value-decimal m,
      sym (after_digits-append (decimal n) c x (decimal-Digits n) e)
          ∙ ap after_digits h
          ∙ after_digits-append (decimal m) d y (decimal-Digits m) f,
    )
