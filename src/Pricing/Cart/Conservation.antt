-- ===== src/Pricing/Cart/Conservation.antt =====
-- The totals of a calculated cart (`calculateCart` of src/shared/pos/posCalculator.ts) are those of
-- its lines, and each line balances.
use pos_desktop.Prelude.{
  ℕ, suc, ◌+◌, ◌≤◌, ◌≡◌, refl, subst, ◌==◌, Bool, inl, inr, List, [], ◌∷◌, map, arith,
  if◌then◌else◌, Bool-cases, ok, on_ok, sum, sum_by, All, get_or, length, refuse_if,
}
use pos_desktop.Prelude.Number.{Number, max_safe_integer}
use pos_desktop.Prelude.Text.{Text}
use pos_desktop.Catalog.{TaxMode, exclusive, CatalogContract}
use pos_desktop.Pricing.Types.{
  DiscountType, CartCalculationInputLine, CartCalculationLine, CartCalculation, PreparedLine,
  cart_empty, cart_invoice_total_limit,
}
use pos_desktop.Pricing.Amounts.{
  checked_number, checked_number-eq, calculate_discount, calculate_discount-le,
}
use pos_desktop.Pricing.Allocation.{taxable_at, allocation_for}
use pos_desktop.Pricing.Allocation.Conservation.{IsAllocation, allocation_for-IsAllocation}
use pos_desktop.Pricing.Cart.{
  mode_eq, check_modes, LineTotals, calculated_line, line_fits, total_line, total_lines, finish,
  prepare_lines, price_prepared, calculate_cart,
}
use pos_desktop.Pricing.Cart.Lines.{IsPrepared, prepare_lines-IsPrepared}

-- The tax that is added to a line's price: none where the price contains it.
abbrev pub added_tax : TaxMode → ℕ → ℕ
added_tax mode tax = if mode_eq mode exclusive then tax else 0

-- A calculated line belongs to its input, and what is paid is the subtotal less the discount plus
-- the added tax.
pub record IsBalanced (input : CartCalculationInputLine) (line : CartCalculationLine) : Type 0 where
  pub id_eq : line.id ≡ input.id
  pub discount_le : line.discount_amount ≤ line.subtotal_amount
  pub balance :
      line.total_amount + line.discount_amount
      ≡ line.subtotal_amount + added_tax input.tax_mode line.tax_amount

abbrev pub AllBalanced : List CartCalculationInputLine → List CartCalculationLine → Type 0
AllBalanced [] [] = Unit
AllBalanced [] (line ∷ lines) = ⊥
AllBalanced (input ∷ inputs) [] = ⊥
AllBalanced (input ∷ inputs) (line ∷ lines) = IsBalanced input line × AllBalanced inputs lines

-- What the result of a calculation says of its input.
pub record IsConserved (inputs : List CartCalculationInputLine) (c : CartCalculation) : Type 0 where
  pub balanced : AllBalanced inputs c.lines
  pub subtotal_eq : c.subtotal_amount ≡ sum_by CartCalculationLine.subtotal_amount c.lines
  pub discount_eq : c.discount_total_amount ≡ sum_by CartCalculationLine.discount_amount c.lines
  pub tax_eq : c.tax_total_amount ≡ sum_by CartCalculationLine.tax_amount c.lines
  pub grand_eq : c.grand_total_amount ≡ sum_by CartCalculationLine.total_amount c.lines
  pub discount_le : c.discount_total_amount ≤ c.subtotal_amount
  pub safe : c.grand_total_amount ≤ max_safe_integer

calculated_line_lem :
    (line : PreparedLine) (allocation : ℕ)
    → IsPrepared line
    → allocation ≤ line.taxable
    → IsBalanced line.input (calculated_line line allocation)
unfolding calculated_line
calculated_line_lem line allocation prepared le = record {
  id_eq = refl;
  discount_le = omega arith;
  balance = elim (Bool-cases (mode_eq line.input.tax_mode exclusive)) [
    | inl added ↦ rw added (omega arith)
    | inr contained ↦ rw contained (omega arith)
  ];
}

total_line_lem :
    (contract : CatalogContract) (grand : ℕ) (line : PreparedLine) (allocation : ℕ)
    (p : CartCalculationLine × ℕ)
    → IsPrepared line
    → allocation ≤ line.taxable
    → total_line contract grand line allocation ≡ ok p
    → IsBalanced line.input p.0
      × (p.0.subtotal_amount ≡ line.subtotal)
      × (p.0.discount_amount ≡ line.line_discount + allocation)
      × (p.1 ≡ grand + p.0.total_amount)
unfolding total_line
total_line_lem contract grand line allocation p prepared le h =
    let calculated = calculated_line line allocation in
    elim (Bool-cases (line_fits contract (grand + calculated.total_amount) calculated)) [
      | inl good ↦ ground (arith, calculated_line_lem line allocation prepared le)
      | inr bad ↦ cc (rw (bad, total_line) at h)
    ]

record AreTotals (prepared : List PreparedLine) (allocations : List ℕ) (tax grand : ℕ)
    (t : LineTotals) : Type 0 where
  balanced : AllBalanced (map PreparedLine.input prepared) t.lines
  subtotal_eq :
      sum_by CartCalculationLine.subtotal_amount t.lines ≡ sum_by PreparedLine.subtotal prepared
  discount_eq :
      sum_by CartCalculationLine.discount_amount t.lines
      ≡ sum_by PreparedLine.line_discount prepared + sum allocations
  tax_eq : t.tax_total ≡ tax + sum_by CartCalculationLine.tax_amount t.lines
  grand_eq : t.grand_total ≡ grand + sum_by CartCalculationLine.total_amount t.lines

total_lines_lem :
    (contract : CatalogContract) (tax grand : ℕ) (prepared : List PreparedLine)
    (allocations : List ℕ) (t : LineTotals)
    → All IsPrepared prepared
    → length allocations ≡ length prepared
    → ((i : ℕ) → get_or allocations i 0 ≤ taxable_at prepared i)
    → total_lines contract tax grand prepared allocations ≡ ok t
    → AreTotals prepared allocations tax grand t
unfolding total_lines
total_lines_lem contract tax grand [] [] t sound len within h = ground arith
total_lines_lem contract tax grand [] (a ∷ rest) t sound len within h = absurd (omega arith)
total_lines_lem contract tax grand (line ∷ lines) [] t sound len within h = cc
total_lines_lem contract tax grand (line ∷ lines) (a ∷ as') t sound len within h =
    on_ok (total_line contract grand line a) _ h λ p one h₁.
      on_ok (total_lines contract (tax + p.0.tax_amount) p.1 lines as') _ h₁ λ rest more h₂.
        ground (
          arith,
          total_line_lem contract grand line a p sound.0 (within 0) one,
          total_lines_lem contract (tax + p.0.tax_amount) p.1 lines as' rest sound.1 (omega arith)
              (λ i. within (suc i)) more,
        )

taxable-le-subtotal :
    (prepared : List PreparedLine)
    → All IsPrepared prepared
    → sum_by PreparedLine.line_discount prepared + sum_by PreparedLine.taxable prepared
      ≡ sum_by PreparedLine.subtotal prepared
taxable-le-subtotal [] sound = omega arith
taxable-le-subtotal (line ∷ lines) sound = omega (arith, taxable-le-subtotal lines sound.1, sound.0)

finish_lem :
    (contract : CatalogContract) (subtotal discount : ℕ) (t : LineTotals) (c : CartCalculation)
    → finish contract subtotal discount t ≡ ok c
    → (c.lines ≡ t.lines)
      × (c.subtotal_amount ≡ subtotal)
      × (c.discount_total_amount ≡ discount)
      × (c.tax_total_amount ≡ t.tax_total)
      × (c.grand_total_amount ≡ t.grand_total)
      × (c.grand_total_amount ≤ max_safe_integer)
unfolding finish
finish_lem contract subtotal discount t c h =
    let limit = contract.maximum_invoice_total in
    let code = cart_invoice_total_limit in
    on_ok (checked_number subtotal limit code) _ h λ s hs h₁.
      on_ok (checked_number discount limit code) _ h₁ λ d hd h₂.
        on_ok (checked_number t.tax_total limit code) _ h₂ λ x hx h₃.
          on_ok (checked_number t.grand_total limit code) _ h₃ λ g hg h₄. ground (
            arith,
            checked_number-eq subtotal limit code hs,
            checked_number-eq discount limit code hd,
            checked_number-eq t.tax_total limit code hx,
            checked_number-eq t.grand_total limit code hg,
          )

module _ (locale_after : Text → Text → Bool) (contract : CatalogContract) where
  price_prepared-IsConserved :
      (type : DiscountType) (value : Number) (prepared : List PreparedLine) (subtotal : ℕ)
      (c : CartCalculation)
      → All IsPrepared prepared
      → subtotal ≡ sum_by PreparedLine.subtotal prepared
      → price_prepared locale_after contract type value prepared subtotal ≡ ok c
      → IsConserved (map PreparedLine.input prepared) c
  unfolding price_prepared
  price_prepared-IsConserved type value prepared subtotal c sound total h =
      let taxable = sum_by PreparedLine.taxable prepared in
      on_ok (calculate_discount taxable type value) _ h λ discount granted h₁.
        let fits : discount ≤ taxable = calculate_discount-le taxable type value granted in
        let (found, allocated, split) =
          allocation_for-IsAllocation locale_after prepared discount fits in
        on_ok (allocation_for locale_after prepared discount taxable) _ h₁ λ allocations e h₂.
          on_ok (total_lines contract 0 0 prepared allocations) _ h₂ λ totals te h₃.
            let same : found ≡ allocations = cc in
            let split' : IsAllocation prepared discount allocations =
              subst (IsAllocation prepared discount) same split in
            let done =
              finish_lem contract subtotal (sum_by PreparedLine.line_discount prepared + discount)
                totals c h₃ in
            let t =
              total_lines_lem contract 0 0 prepared allocations totals sound split'.same_length
                split'.within te in
            let lines_eq = done.0 in
            record {
              balanced = rw lines_eq t.balanced;
              subtotal_eq = rw lines_eq (omega (arith, total, done.1, t.subtotal_eq));
              discount_eq = rw lines_eq (omega (arith, done.2, t.discount_eq, split'.sum_eq));
              tax_eq = rw lines_eq (omega (arith, done.3, t.tax_eq));
              grand_eq = rw lines_eq (omega (arith, done.4, t.grand_eq));
              discount_le =
                  omega (arith, done.1, done.2, total, fits, taxable-le-subtotal prepared sound);
              safe = done.5;
            }

  -- If `calculateCart` succeeds, each total is the sum of its column over the lines, there is one
  -- line for each line of the cart, in order and under its id, each line's total is its subtotal
  -- less its discount plus the tax that its mode adds, and the discount is at most the subtotal.
  pub calculate_cart-IsConserved :
      (lines : List CartCalculationInputLine) (type : DiscountType) (value : Number)
      {c : CartCalculation}
      → calculate_cart locale_after lines contract type value ≡ ok c
      → IsConserved lines c
  unfolding calculate_cart
  calculate_cart-IsConserved lines type value {c} h =
      on_ok (refuse_if (length lines == 0) cart_empty) _ h λ _ _ h₁.
        on_ok (check_modes lines contract) _ h₁ λ _ _ h₂.
          on_ok (prepare_lines contract 0 lines) _ h₂ λ p ready h₃.
            let (same, total, sound) = prepare_lines-IsPrepared contract 0 lines p ready in
            subst (λ inputs. IsConserved inputs c) same
              (price_prepared-IsConserved type value p.0 p.1 c sound (omega (arith, total)) h₃)
