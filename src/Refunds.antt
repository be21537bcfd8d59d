-- ===== src/Refunds.antt =====
-- Refund proration (src/shared/pos/refundCalculator.ts). The code computes in JavaScript doubles,
-- whose operations on whole numbers are a parameter.
mod Conserved
mod Reading
mod Tests
use pos_desktop.Prelude.{
  ℕ, zero, ◌+◌, ◌-◌, ◌*◌, ◌/◌, ◌≤◌, ◌<◌, ◌≡◌, Bool, true, false, ◌||◌, List, [], ◌∷◌, sum_by, map,
  length, ltb, ◌==◌, if◌then◌else◌, min, Result, err, ok, ◌>>=◌, ◌>>◌, refuse_if,
}
use pos_desktop.Prelude.Int.{ℤ, pos, negsuc}
use pos_desktop.Prelude.Text.{Text}
use pos_desktop.Catalog.{TaxMode, exclusive}

-- The product, the sum and `Math.floor` of the quotient of two whole doubles. The differences that
-- the code takes are of amounts below 2^53, which are exact.
pub record Doubles : Type 0 where
  pub times : ℕ → ℕ → ℕ
  pub plus : ℕ → ℕ → ℕ
  pub floor_quotient : ℕ → ℕ → ℕ

pub data RefundError : Type 0 where
  invalid_quantity no_lines : RefundError

-- Amounts and quantities of the original line and of its refunds so far; `is_exclusive` is the test
-- of the tax mode.
pub record RefundLineInput : Type 0 where
  pub item_uuid : Text
  pub original_quantity : ℕ
  pub original_total : ℕ
  pub original_tax : ℕ
  pub original_discount : ℕ
  pub is_exclusive : Bool
  pub prior_quantity : ℕ
  pub prior_total : ℕ
  pub prior_tax : ℕ
  pub prior_discount : ℕ
  pub requested_quantity : ℤ

pub record RefundLine : Type 0 where
  pub item_uuid : Text
  pub subtotal_amount : ℕ
  pub discount_amount : ℕ
  pub tax_amount : ℕ
  pub total_amount : ℕ

pub record Refund : Type 0 where
  pub lines : List RefundLine
  pub subtotal_amount : ℕ
  pub discount_total : ℕ
  pub tax_total : ℕ
  pub grand_total : ℕ

module _ (d : Doubles) where
  unfoldable pub prorate : ℕ → ℕ → ℕ → ℕ
  prorate amount numerator denominator =
      if denominator == 0
      then 0
      else d.floor_quotient (d.plus (d.times amount numerator) (d.floor_quotient denominator 2))
          denominator

  -- The amounts of a line at a cumulative quantity; `Math.max(0, a - b)` is subtraction on ℕ.
  unfoldable pub refund_at : RefundLineInput → ℕ → RefundLine
  refund_at input cumulative =
      let total =
        prorate input.original_total cumulative input.original_quantity - input.prior_total in
      let tax =
        min (prorate input.original_tax cumulative input.original_quantity - input.prior_tax)
          total in
      let discount =
        prorate input.original_discount cumulative input.original_quantity - input.prior_discount in
      record {
        item_uuid = input.item_uuid;
        subtotal_amount = d.plus (total - (if input.is_exclusive then tax else 0)) discount;
        discount_amount = discount;
        tax_amount = tax;
        total_amount = total;
      }

  unfoldable pub refund_quantity : RefundLineInput → ℕ → Result RefundError RefundLine
  refund_quantity input requested =
      let cumulative = d.plus input.prior_quantity requested in
      do
        refuse_if ((requested == 0) || ltb input.original_quantity cumulative)
            RefundError.invalid_quantity
        ok (refund_at input cumulative)

  abbrev refund_requested : RefundLineInput → ℤ → Result RefundError RefundLine
  refund_requested input (pos n) = refund_quantity input n
  refund_requested input (negsuc n) = err RefundError.invalid_quantity

  unfoldable pub calculate_refund_line : RefundLineInput → Result RefundError RefundLine
  calculate_refund_line input = refund_requested input input.requested_quantity

  unfoldable pub refund_lines : List RefundLineInput → Result RefundError (List RefundLine)
  refund_lines [] = ok []
  refund_lines (input ∷ inputs) = do
    line ← calculate_refund_line input
    rest ← refund_lines inputs
    ok (line ∷ rest)

  -- `results.reduce((sum, r) => sum + f(r), 0)`
  unfoldable pub total_from : ℕ → (RefundLine → ℕ) → List RefundLine → ℕ
  total_from acc f [] = acc
  total_from acc f (line ∷ lines) = total_from (d.plus acc (f line)) f lines

  unfoldable pub calculate_refund : List RefundLineInput → Result RefundError Refund
  calculate_refund inputs = do
    refuse_if (length inputs == 0) RefundError.no_lines
    lines ← refund_lines inputs
    ok (record {
      lines = lines;
      subtotal_amount = total_from 0 (λ line. line.subtotal_amount) lines;
      discount_total = total_from 0 (λ line. line.discount_amount) lines;
      tax_total = total_from 0 (λ line. line.tax_amount) lines;
      grand_total = total_from 0 (λ line. line.total_amount) lines;
    })
