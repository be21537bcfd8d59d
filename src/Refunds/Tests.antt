-- ===== src/Refunds/Tests.antt =====
-- The line that costs 100 over three pieces, refunded one piece at a time, and the theorem at it.
use pos_desktop.Prelude.{
  ℕ, ◌+◌, ◌*◌, ◌/◌, ◌≤◌, ◌≡◌, refl, false, some, List, [], ◌∷◌, sum, sum_by, arith, ok, err,
}
use pos_desktop.Prelude.Int.{pos, negsuc}
use pos_desktop.Prelude.Text.{digits_value, codes}
use pos_desktop.Refunds.{
  Doubles, RefundError, RefundLineInput, RefundLine, prorate, refund_at, refund_quantity,
  calculate_refund_line, refund_lines, calculate_refund,
}
use pos_desktop.Refunds.Conserved.{IsExact, share, installments, installments_conserve}
use pos_desktop.Refunds.Reading.{to_milli, to_milli-milli_to_quantity}
use pos_desktop.Pricing.Quantity.{milli_to_quantity}

-- Numbers on which the operations are always exact.
abbrev exact_doubles : Doubles
exact_doubles = record { times = λ a b. a * b; plus = λ a b. a + b; floor_quotient = λ a b. a / b }

exact_doubles-IsExact : IsExact exact_doubles
exact_doubles-IsExact = (λ a b h. refl, λ a b h. refl, λ a b h k. refl)

abbrev three_for_100 : RefundLineInput
three_for_100 = record {
  item_uuid = codes "i";
  original_quantity = 3000;
  original_total = 100;
  original_tax = 95;
  original_discount = 0;
  is_exclusive = false;
  prior_quantity = 0;
  prior_total = 0;
  prior_tax = 0;
  prior_discount = 0;
  requested_quantity = pos 1000;
}

abbrev refunded : ℕ → ℕ → RefundLine
refunded total tax = record {
  item_uuid = codes "i";
  subtotal_amount = total;
  discount_amount = 0;
  tax_amount = tax;
  total_amount = total;
}

piece_by_piece :
    installments exact_doubles three_for_100 (1000 ∷ 1000 ∷ 1000 ∷ [])
    ≡ ok (refunded 33 32 ∷ refunded 34 31 ∷ refunded 33 32 ∷ [])
unfolding installments calculate_refund_line refund_quantity refund_at prorate
piece_by_piece = refl

no_more_than_was_sold :
    calculate_refund_line exact_doubles (record three_for_100 { requested_quantity = pos 3001 })
    ≡ err RefundError.invalid_quantity
unfolding calculate_refund_line refund_quantity
no_more_than_was_sold = refl

nothing_negative :
    calculate_refund exact_doubles (record three_for_100 { requested_quantity = negsuc 4 } ∷ [])
    ≡ err RefundError.invalid_quantity
unfolding calculate_refund refund_lines calculate_refund_line
nothing_negative = refl

installments_conserve_example :
    (lines : List RefundLine) × (installments exact_doubles three_for_100 (1000 ∷ 1000 ∷ 1000 ∷ [])
      ≡ ok lines)
    × (0 + sum_by (λ line. line.total_amount) lines
        ≡ share 100 (0 + sum (1000 ∷ 1000 ∷ 1000 ∷ [])) 3000)
    × (1 ≤ 3000
        → 0 + sum (1000 ∷ 1000 ∷ 1000 ∷ []) ≡ 3000
        → 0 + sum_by (λ line. line.total_amount) lines ≡ 100)
installments_conserve_example =
    installments_conserve exact_doubles exact_doubles-IsExact three_for_100
      (1000 ∷ 1000 ∷ 1000 ∷ []) (omega arith, (omega arith, (omega arith, tt))) (omega arith)
      (omega arith) refl

-- Two and a half.
half_of_five : to_milli exact_doubles (λ t. some (digits_value t)) (codes "2.5") ≡ some 2500
unfolding to_milli digits_value
half_of_five = refl

to_milli-milli_to_quantity_example :
    to_milli exact_doubles (λ t. some (digits_value t)) (milli_to_quantity 2005) ≡ some 2005
to_milli-milli_to_quantity_example =
    to_milli-milli_to_quantity exact_doubles (λ t. some (digits_value t)) exact_doubles-IsExact
      (λ t some_digit digits small. refl) 2005 (omega arith)
