-- ===== src/Refunds/Conserved.antt =====
-- Refunds in installments give back what was paid (src/shared/pos/refundCalculator.ts).
use pos_desktop.Prelude.{
  ℕ, ◌+◌, ◌-◌, ◌*◌, ◌/◌, ◌≤◌, ◌≡◌, refl, ◌∙◌, ap, subst, false, ◌||◌, List, [], ◌∷◌, sum, sum_by,
  ltb, ◌==◌, Result, ok, ◌>>=◌, arith, All,
}
use pos_desktop.Prelude.Int.{pos}
use pos_desktop.Refunds.{
  Doubles, RefundError, RefundLineInput, RefundLine, prorate, refund_at, refund_quantity,
  calculate_refund_line,
}

abbrev pub exact_limit : ℕ
exact_limit = 9_007_199_254_740_992

-- Whole doubles up to 2^53 are exact.
abbrev pub IsExact : Doubles → Type 0
IsExact d =
    ((a b : ℕ) → a * b ≤ exact_limit → d.times a b ≡ a * b)
    × ((a b : ℕ) → a + b ≤ exact_limit → d.plus a b ≡ a + b)
    × ((a b : ℕ) → a ≤ exact_limit → 1 ≤ b → d.floor_quotient a b ≡ a / b)

-- The share of an amount, rounded half up.
abbrev pub share : ℕ → ℕ → ℕ → ℕ
share amount part whole = (amount * part + whole / 2) / whole

share_all : (amount whole : ℕ) → 1 ≤ whole → share amount whole whole ≡ amount
share_all amount whole h = grind arith

share_mono : (amount m n whole : ℕ) → m ≤ n → share amount m whole ≤ share amount n whole
share_mono amount m n whole h = grind arith

-- Refunding a line in installments: each next one finds what the ones before it refunded.
abbrev pub after : RefundLineInput → ℕ → RefundLine → RefundLineInput
after input q line = record input {
  prior_quantity = input.prior_quantity + q;
  prior_total = input.prior_total + line.total_amount;
  prior_tax = input.prior_tax + line.tax_amount;
  prior_discount = input.prior_discount + line.discount_amount;
}

unfoldable pub installments :
    Doubles → RefundLineInput → List ℕ → Result RefundError (List RefundLine)
installments d input [] = ok []
installments d input (q ∷ qs) = do
  line ← calculate_refund_line d (record input { requested_quantity = pos q })
  rest ← installments d (after input q line) qs
  ok (line ∷ rest)

product_mono : (a n whole : ℕ) → n ≤ whole → a * n ≤ a * whole
product_mono a n whole h = grind arith

half_le : (n : ℕ) → n / 2 ≤ n
half_le n = grind arith

asks_right :
    (q whole cumulative : ℕ)
    → 1 ≤ q
    → cumulative ≤ whole
    → ((q == 0) || ltb whole cumulative) ≡ false
asks_right q whole cumulative h k = ground arith

catches_up : (prior entitled : ℕ) → prior ≤ entitled → prior + (entitled - prior) ≡ entitled
catches_up prior entitled h = omega arith

module _ (d : Doubles) (exact : IsExact d) where
  prorate-share :
      (amount n whole : ℕ)
      → 1 ≤ whole
      → n ≤ whole
      → amount * whole + whole ≤ exact_limit
      → prorate d amount n whole ≡ share amount n whole
  unfolding prorate
  prorate-share amount n whole some_whole part fits =
      let smaller = product_mono amount n whole part in
      let half = half_le whole in
      let half_exact : d.floor_quotient whole 2 ≡ whole / 2 =
        exact.2 whole 2 (omega arith) (omega arith) in
      let product : d.times amount n ≡ amount * n = exact.0 amount n (omega arith) in
      let total : d.plus (amount * n) (whole / 2) ≡ amount * n + whole / 2 =
        exact.1 (amount * n) (whole / 2) (omega arith) in
      let quotient = exact.2 (amount * n + whole / 2) whole (omega arith) some_whole in
      let nonzero : (whole == 0) ≡ false = ground arith in
      rw (nonzero, half_exact, product, total) quotient

  step :
      (input : RefundLineInput) (q : ℕ)
      → 1 ≤ q
      → input.prior_quantity + q ≤ input.original_quantity
      → input.original_total * input.original_quantity + input.original_quantity ≤ exact_limit
      → input.prior_total ≡ share input.original_total input.prior_quantity input.original_quantity
      → (line : RefundLine) × (calculate_refund_line d (record input { requested_quantity = pos q })
          ≡ ok line)
        × (input.prior_total + line.total_amount
            ≡ share input.original_total (input.prior_quantity + q) input.original_quantity)
  unfolding calculate_refund_line refund_quantity refund_at
  step input q some_q room fits prior =
      let asked = record input { requested_quantity = pos q } in
      let cumulative = input.prior_quantity + q in
      let sum_exact : d.plus input.prior_quantity q ≡ cumulative =
        exact.1 input.prior_quantity q (omega arith) in
      let accepted : ((q == 0) || ltb input.original_quantity cumulative) ≡ false =
        asks_right q input.original_quantity cumulative some_q room in
      let entitled =
        prorate-share input.original_total cumulative input.original_quantity (omega arith) room
          fits in
      let grown =
        share_mono input.original_total input.prior_quantity cumulative input.original_quantity
          (omega arith) in
      (
        refund_at d asked cumulative,
        rw (sum_exact, accepted) refl,
        rw entitled (
            catches_up input.prior_total
              (share input.original_total cumulative input.original_quantity) (rw prior grown)),
      )

  installments-share :
      (input : RefundLineInput) (qs : List ℕ)
      → All (λ q. 1 ≤ q) qs
      → input.prior_quantity + sum qs ≤ input.original_quantity
      → input.original_total * input.original_quantity + input.original_quantity ≤ exact_limit
      → input.prior_total ≡ share input.original_total input.prior_quantity input.original_quantity
      → (lines : List RefundLine) × (installments d input qs ≡ ok lines)
        × (input.prior_total + sum_by (λ line. line.total_amount) lines
            ≡ share input.original_total (input.prior_quantity + sum qs) input.original_quantity)
  unfolding installments
  installments-share input [] positive room fits prior =
      let nothing : input.prior_quantity + 0 ≡ input.prior_quantity = omega arith in
      ([], refl, rw nothing (omega (arith, prior)))
  installments-share input (q ∷ qs) (some_q, positive) room fits prior =
      let (line, accepted, reached) = step input q some_q (omega arith) fits prior in
      let (lines, done, total) =
        installments-share (after input q line) qs positive (omega arith) fits reached in
      let regrouped : input.prior_quantity + q + sum qs ≡ input.prior_quantity + (q + sum qs) =
        omega arith in
      (
        line ∷ lines,
        rw (accepted, done) refl,
        subst
            (λ n.
              input.prior_total + (line.total_amount + sum_by (λ l. l.total_amount) lines)
              ≡ share input.original_total n input.original_quantity)
            regrouped (omega (arith, total)),
      )

  -- A line whose earlier refunds follow the rule can be refunded in any installments that together do
  -- not pass its quantity, while the products stay exact: every installment is accepted, and all
  -- that was refunded is then the share of the total, rounded half up, at the quantity reached; at the
  -- whole quantity it is the total itself.
  pub installments_conserve :
      (input : RefundLineInput) (qs : List ℕ)
      → All (λ q. 1 ≤ q) qs
      → input.prior_quantity + sum qs ≤ input.original_quantity
      → input.original_total * input.original_quantity + input.original_quantity ≤ exact_limit
      → input.prior_total ≡ share input.original_total input.prior_quantity input.original_quantity
      → (lines : List RefundLine) × (installments d input qs ≡ ok lines)
        × (input.prior_total + sum_by (λ line. line.total_amount) lines
            ≡ share input.original_total (input.prior_quantity + sum qs) input.original_quantity)
        × (1 ≤ input.original_quantity
            → input.prior_quantity + sum qs ≡ input.original_quantity
            → input.prior_total + sum_by (λ line. line.total_amount) lines ≡ input.original_total)
  unfolding installments
  installments_conserve input qs positive room fits prior =
      let (lines, done, total) = installments-share input qs positive room fits prior in
      (
        lines,
        done,
        total,
        λ some_whole whole.
            total
            ∙ (ap (λ n. share input.original_total n input.original_quantity) whole
                ∙ share_all input.original_total input.original_quantity some_whole),
      )
