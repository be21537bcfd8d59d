-- ===== src/Pricing/Cart/Modes.antt =====
-- The guards of `calculateCart` (src/shared/pos/posCalculator.ts) on tax modes and currencies.
use pos_desktop.Prelude.{
  ◌≤◌, ◌≡◌, refl, sym, ◌∙◌, subst, ◌==◌, Bool, true, false, inl, inr, List, [], ◌∷◌, ◌++◌, map,
  arith, Bool-cases, ok, on_ok, All, All-map, length, refuse_if, any, length-append,
}
use pos_desktop.Prelude.Number.{Number}
use pos_desktop.Prelude.Text.{Text, text_eq, text_eq_iff}
use pos_desktop.Catalog.{TaxMode, CatalogContract, single_invoice_mode}
use pos_desktop.Pricing.Types.{DiscountType, CartCalculationInputLine, CartCalculation, cart_empty}
use pos_desktop.Pricing.Cart.{set_from, mode_eq, check_modes, calculate_cart}

module _ {ℓ} {A : Type ℓ} (eq : A → A → Bool) where
  set_from_grows : (seen xs : List A) → length seen ≤ length (set_from eq seen xs)
  unfolding set_from
  set_from_grows seen [] = omega arith
  set_from_grows seen (x ∷ xs) = elim (Bool-cases (any (eq x) seen)) [
    | inl old ↦ rw old (set_from_grows seen xs)
    | inr new ↦
        rw new (omega (arith, set_from_grows (seen ++ (x ∷ [])) xs, length-append seen (x ∷ [])))
  ]

  set_from_old :
      (m x : A) (xs : List A)
      → eq x m ≡ true
      → set_from eq (m ∷ []) (x ∷ xs) ≡ set_from eq (m ∷ []) xs
  unfolding set_from
  set_from_old m x xs e = rw e

  set_from_new :
      (m x : A) (xs : List A) → eq x m ≡ false → 2 ≤ length (set_from eq (m ∷ []) (x ∷ xs))
  unfolding set_from
  set_from_new m x xs e = rw e (set_from_grows (m ∷ x ∷ []) xs)

  -- A set that stays a singleton has met that value alone.
  set_from_single :
      (m : A) (xs : List A)
      → ((x y : A) → eq x y ≡ true → x ≡ y)
      → length (set_from eq (m ∷ []) xs) ≤ 1
      → All (λ x. x ≡ m) xs × (set_from eq (m ∷ []) xs ≡ m ∷ [])
  set_from_single m [] sound h = (tt, unfold set_from in refl)
  set_from_single m (x ∷ xs) sound h = elim (Bool-cases (eq x m)) [
    | inl same ↦
        let (rest, one) =
          set_from_single m xs sound (subst (λ s. length s ≤ 1) (set_from_old m x xs same) h) in
        ((sound x m same, rest), set_from_old m x xs same ∙ one)
    | inr new ↦ absurd (omega (arith, set_from_new m x xs new))
  ]

mode_eq-eq : (x y : TaxMode) → mode_eq x y ≡ true → x ≡ y
unfolding mode_eq
mode_eq-eq x y h = ground arith

text_eq-eq : (x y : Text) → text_eq x y ≡ true → x ≡ y
text_eq-eq x y h = (text_eq_iff x y).0 h

All-of_map {ℓ κ ι} :
    {A : Type ℓ} {B : Type κ} (P : B → Type ι) (f : A → B) (xs : List A)
    → All P (map f xs)
    → All (λ x. P (f x)) xs
All-of_map P f [] h = tt
All-of_map P f (x ∷ xs) h = (h.0, All-of_map P f xs h.1)

-- The first line's mode and currency, and the lines that follow.
module _ (contract : CatalogContract) (line : CartCalculationInputLine)
    (lines : List CartCalculationInputLine) where
  abbrev modes : List TaxMode
  modes = set_from mode_eq [] (map CartCalculationInputLine.tax_mode (line ∷ lines))

  abbrev currencies : List Text
  currencies = set_from text_eq [] (map CartCalculationInputLine.currency (line ∷ lines))

  check_modes_single :
      check_modes (line ∷ lines) contract ≡ ok tt
      → contract.mixed_tax_mode_policy ≡ single_invoice_mode
      → length modes ≤ 1
  unfolding check_modes
  check_modes_single h single = ground arith

  check_modes_currency :
      check_modes (line ∷ lines) contract ≡ ok tt
      → (length currencies ≤ 1) × (any (text_eq contract.currency) currencies ≡ true)
  unfolding check_modes
  check_modes_currency h = ground arith

  modes_uniform :
      check_modes (line ∷ lines) contract ≡ ok tt
      → contract.mixed_tax_mode_policy ≡ single_invoice_mode
      → All (λ x. x.tax_mode ≡ line.tax_mode) lines
  unfolding set_from
  modes_uniform h single =
      All-of_map (λ m. m ≡ line.tax_mode) CartCalculationInputLine.tax_mode lines
        (set_from_single mode_eq line.tax_mode _ mode_eq-eq (check_modes_single h single)).0

  currencies_uniform :
      check_modes (line ∷ lines) contract ≡ ok tt
      → All (λ x. x.currency ≡ contract.currency) (line ∷ lines)
  unfolding set_from
  currencies_uniform h =
      let (small, known) = check_modes_currency h in
      let (same, one) =
        set_from_single text_eq line.currency (map CartCalculationInputLine.currency lines)
          text_eq-eq small in
      let own : text_eq contract.currency line.currency ≡ true =
        ground (arith, subst (λ s. any (text_eq contract.currency) s ≡ true) one known) in
      let equal = text_eq-eq contract.currency line.currency own in
      (
        sym equal,
        All-map (λ x e. e ∙ sym equal) lines
            (All-of_map (λ c. c ≡ line.currency) CartCalculationInputLine.currency lines same),
      )

-- A cart that is priced has one currency, the catalog's, and under the single-mode policy one tax
-- mode, that of its first line.
pub calculate_cart_uniform :
    (locale_after : Text → Text → Bool) (contract : CatalogContract)
    (line : CartCalculationInputLine) (lines : List CartCalculationInputLine) (type : DiscountType)
    (value : Number) {c : CartCalculation}
    → calculate_cart locale_after (line ∷ lines) contract type value ≡ ok c
    → All (λ x. x.currency ≡ contract.currency) (line ∷ lines)
      × (contract.mixed_tax_mode_policy ≡ single_invoice_mode
          → All (λ x. x.tax_mode ≡ line.tax_mode) lines)
unfolding calculate_cart
calculate_cart_uniform locale_after contract line lines type value h =
    on_ok (refuse_if (length (line ∷ lines) == 0) cart_empty) _ h λ _ _ h₁.
      on_ok (check_modes (line ∷ lines) contract) _ h₁ λ _ checked h₂.
        (currencies_uniform contract line lines checked, modes_uniform contract line lines checked)
