-- ===== src/Payments/Tests.antt =====
-- Tenders for a total of 1000, and the theorems at them.
use pos_desktop.Prelude.{
  ◌≡◌, refl, inl, inr, true, false, none, some, List, [], ◌∷◌, arith, err, ok, find,
}
use pos_desktop.Prelude.Int.{pos, negsuc}
use pos_desktop.Prelude.Number.{Number, whole, other}
use pos_desktop.Prelude.Text.{Text, codes, text_eq}
use pos_desktop.Payments.{
  PaymentMethodType, PaymentErrorCode, PaymentInputRow, ResolvedPaymentMethod,
  PaymentCalculationRow, PaymentCalculation, calculate_payments, resolve_row, resolve_rows,
  check_amount, resolve_method, settle,
}
use pos_desktop.Payments.Settled.{IsSettled, calculate_payments-IsSettled}
use pos_desktop.Payments.Accepted.{calculate_payments_accepts, calculate_payments_first_failure}

abbrev method : Text → PaymentMethodType → ResolvedPaymentMethod
method uuid type = record {
  uuid = uuid;
  type = some type;
  is_active = true;
  requires_reference = false;
  allows_change = true;
}

abbrev methods : List ResolvedPaymentMethod
methods =
    method (codes "cash") PaymentMethodType.cash
    ∷ record (method (codes "card") PaymentMethodType.card) { requires_reference = true }
    ∷ method (codes "bank") PaymentMethodType.bank_transfer
    ∷ []

abbrev entered : Text → Text → Number → PaymentInputRow
entered id uuid amount = record { id = id; method_uuid = uuid; amount = amount; reference = none }

abbrev cash_row : PaymentCalculationRow
cash_row = record {
  id = codes "1";
  method_uuid = codes "cash";
  type = PaymentMethodType.cash;
  amount = 1200;
  reference = none;
}

abbrev cash_tender : List PaymentInputRow
cash_tender = entered (codes "1") (codes "cash") (whole (pos 1200)) ∷ []

abbrev cash_settled : PaymentCalculation
cash_settled = record {
  rows = cash_row ∷ [];
  paid_total_amount = 1200;
  change_due_amount = 200;
  due_amount = 0;
}

cash_gets_change : calculate_payments cash_tender methods 1000 ≡ ok cash_settled
unfolding calculate_payments resolve_rows resolve_row check_amount text_eq resolve_method settle
cash_gets_change = refl

card_needs_reference :
    calculate_payments (entered (codes "1") (codes "card") (whole (pos 1000)) ∷ []) methods 1000
    ≡ err PaymentErrorCode.reference_required
unfolding calculate_payments resolve_rows resolve_row check_amount text_eq resolve_method settle
card_needs_reference = refl

card_gets_no_change :
    calculate_payments
      (record (entered (codes "1") (codes "card") (whole (pos 1001))) {
        reference = some (codes "r");
      }
        ∷ [])
      methods
      1000
    ≡ err PaymentErrorCode.non_cash_overpayment
unfolding calculate_payments resolve_rows resolve_row check_amount text_eq resolve_method settle
card_gets_no_change = refl

fractions_are_refused :
    calculate_payments (entered (codes "1") (codes "cash") other ∷ []) methods 0
    ≡ err PaymentErrorCode.amount_invalid
unfolding calculate_payments resolve_rows resolve_row check_amount text_eq resolve_method settle
fractions_are_refused = refl

nothing_for_nothing :
    calculate_payments (entered (codes "1") (codes "cash") (whole (pos 0)) ∷ []) methods 0
    ≡ ok (record {
      rows = record cash_row { amount = 0 } ∷ [];
      paid_total_amount = 0;
      change_due_amount = 0;
      due_amount = 0;
    })
unfolding calculate_payments resolve_rows resolve_row check_amount text_eq resolve_method settle
nothing_for_nothing = refl

calculate_payments-IsSettled_example : IsSettled cash_tender methods 1000 cash_settled
calculate_payments-IsSettled_example =
    calculate_payments-IsSettled cash_tender methods 1000 cash_settled cash_gets_change

cash_found :
    find (λ c. text_eq c.uuid (codes "cash")) methods
    ≡ some (method (codes "cash") PaymentMethodType.cash)
unfolding text_eq
cash_found = refl

calculate_payments_accepts_example : calculate_payments cash_tender methods 1000 ≡ ok cash_settled
calculate_payments_accepts_example =
    calculate_payments_accepts cash_tender methods 1000 (cash_row ∷ []) (omega arith) (omega arith)
      (
        (
          refl,
          omega arith,
          inl (omega arith),
          refl,
          refl,
          refl,
          (method (codes "cash") PaymentMethodType.cash, cash_found, refl, refl, refl),
        ),
        tt,
      )
      (omega arith) (omega arith) (inr (refl, tt))

bank_is_refused :
    resolve_row methods false (entered (codes "2") (codes "bank") (whole (pos 5)))
    ≡ err PaymentErrorCode.type_unsupported
unfolding resolve_row check_amount text_eq resolve_method
bank_is_refused = refl

calculate_payments_first_failure_example :
    calculate_payments
      (entered (codes "1") (codes "cash") (whole (pos 1200))
        ∷ entered (codes "2") (codes "bank") (whole (pos 5))
        ∷ entered (codes "3") (codes "none") (whole (negsuc 0))
        ∷ [])
      methods
      1000
    ≡ err PaymentErrorCode.type_unsupported
calculate_payments_first_failure_example =
    calculate_payments_first_failure cash_tender
      (entered (codes "3") (codes "none") (whole (negsuc 0)) ∷ [])
      (entered (codes "2") (codes "bank") (whole (pos 5))) methods 1000 (cash_row ∷ [])
      PaymentErrorCode.type_unsupported (omega arith)
      (
        (
          refl,
          omega arith,
          inl (omega arith),
          refl,
          refl,
          refl,
          (method (codes "cash") PaymentMethodType.cash, cash_found, refl, refl, refl),
        ),
        tt,
      )
      bank_is_refused
