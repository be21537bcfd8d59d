-- ===== src/Payments/Accepted.antt =====
-- Which tenders `calculatePayments` (src/shared/pos/paymentCalculator.ts) accepts, and which failure
-- it reports for the others.
use pos_desktop.Prelude.{
  ℕ, ◌-◌, ◌≤◌, ◌≡◌, refl, sym, ◌⊎◌, inl, inr, Bool, true, false, not, ◌&&◌, some, List, [], ◌∷◌,
  ◌++◌, length, find, sum_by, any, ltb, ◌==◌, min, err, ok, arith, All, Each, length-append,
}
use pos_desktop.Prelude.Int.{pos}
use pos_desktop.Prelude.Number.{whole}
use pos_desktop.Prelude.Text.{text_eq}
use pos_desktop.Payments.Settled.{sum_by-cash}
use pos_desktop.Payments.{
  PaymentErrorCode, PaymentInputRow, ResolvedPaymentMethod, PaymentCalculationRow, supported_type,
  is_cash, is_unusable, resolve_method, check_amount, resolve_row, resolve_rows, cash_amount,
  settle, calculate_payments, max_payment_total, max_rows,
}

-- A row that passes the checks on rows, and what it becomes: `free` allows an amount of nothing.
abbrev pub Admissible :
    List ResolvedPaymentMethod → Bool → PaymentInputRow → PaymentCalculationRow → Type 0
Admissible methods free input row =
    (input.amount ≡ whole (pos row.amount))
    × (row.amount ≤ max_payment_total)
    × ((1 ≤ row.amount) ⊎ (free ≡ true))
    × (row.id ≡ input.id)
    × (row.method_uuid ≡ input.method_uuid)
    × (row.reference ≡ input.reference)
    × ((m : ResolvedPaymentMethod) × (find (λ c. text_eq c.uuid input.method_uuid) methods ≡ some m)
        × (m.is_active ≡ true)
        × (supported_type m.type ≡ some row.type)
        × ((m.requires_reference && is_unusable input.reference) ≡ false))

check_amount_accepts :
    (free : Bool) (n : ℕ)
    → n ≤ max_payment_total
    → (1 ≤ n) ⊎ (free ≡ true)
    → check_amount free (whole (pos n)) ≡ ok n
unfolding check_amount
check_amount_accepts free n fits some_paid = ground arith

module _ (methods : List ResolvedPaymentMethod) (free : Bool) where
  resolve_row_accepts :
      (input : PaymentInputRow) (row : PaymentCalculationRow)
      → Admissible methods free input row
      → resolve_row methods free input ≡ ok row
  unfolding resolve_row resolve_method
  resolve_row_accepts input row
        (amount, fits, some_paid, id, uuid, reference, (m, found, active, supported, usable)) =
      let entered : check_amount free input.amount ≡ ok row.amount =
        rw amount (check_amount_accepts free row.amount fits some_paid) in
      rw (entered, found, active, supported, usable, sym id, sym uuid, sym reference) refl

  resolve_rows_accepts :
      (inputs : List PaymentInputRow) (rows : List PaymentCalculationRow)
      → Each (Admissible methods free) inputs rows
      → resolve_rows methods free inputs ≡ ok rows
  unfolding resolve_rows
  resolve_rows_accepts [] [] h = refl
  resolve_rows_accepts [] (row ∷ rows) h = absurd h
  resolve_rows_accepts (input ∷ inputs) [] h = absurd h
  resolve_rows_accepts (input ∷ inputs) (row ∷ rows) (first, rest) =
      rw (resolve_row_accepts input row first, resolve_rows_accepts inputs rows rest) refl

  resolve_rows_first_failure :
      (good rest : List PaymentInputRow) (bad : PaymentInputRow) (rows : List PaymentCalculationRow)
      (code : PaymentErrorCode)
      → Each (Admissible methods free) good rows
      → resolve_row methods free bad ≡ err code
      → resolve_rows methods free (good ++ bad ∷ rest) ≡ err code
  unfolding resolve_rows
  resolve_rows_first_failure [] rest bad rows code h failed = rw failed refl
  resolve_rows_first_failure (input ∷ good) rest bad [] code h failed = absurd h
  resolve_rows_first_failure (input ∷ good) rest bad (row ∷ rows) code (first, later) failed =
      rw
        (
          resolve_row_accepts input row first,
          resolve_rows_first_failure good rest bad rows code later failed,
        )
        refl

not_over : (n limit : ℕ) → n ≤ limit → ltb limit n ≡ false
not_over n limit h = ground arith

not_none : (n : ℕ) → 1 ≤ n → (n == 0) ≡ false
not_none n h = ground arith

nothing_due : (grand paid : ℕ) → grand ≤ paid → ltb 0 (grand - paid) ≡ false
nothing_due grand paid h = ground arith

nothing_left : (grand paid : ℕ) → grand ≤ paid → grand - paid ≡ 0
nothing_left grand paid h = ground arith

none_mixed :
    (rows : List PaymentCalculationRow)
    → All (λ row. is_cash row.type ≡ true) rows
    → any (λ row. not (is_cash row.type)) rows ≡ false
none_mixed [] h = refl
none_mixed (row ∷ rows) (cash, later) = rw (cash, none_mixed rows later) refl

change_due :
    (rows : List PaymentCalculationRow) (grand : ℕ)
    → let paid = sum_by (λ row. row.amount) rows in
      (paid ≡ grand) ⊎ All (λ row. is_cash row.type ≡ true) rows
      → ((ltb 0 (paid - grand) && any (λ row. not (is_cash row.type)) rows) ≡ false)
        × (min (paid - grand) (sum_by cash_amount rows) ≡ paid - grand)
change_due rows grand (inl exact) = ground (arith, exact)
change_due rows grand (inr cash) = rw (none_mixed rows cash, sum_by-cash rows cash) ground arith

-- A tender of 1 to 20 admissible rows, which together reach the grand total without passing the
-- limit, and which are exactly the grand total or all cash, is accepted: the change is what is
-- over, and nothing is due.
pub calculate_payments_accepts :
    (inputs : List PaymentInputRow) (methods : List ResolvedPaymentMethod) (grand_total : ℕ)
    (rows : List PaymentCalculationRow)
    → 1 ≤ length inputs
    → length inputs ≤ max_rows
    → Each (Admissible methods ((length inputs == 1) && (grand_total == 0))) inputs rows
    → sum_by (λ row. row.amount) rows ≤ max_payment_total
    → grand_total ≤ sum_by (λ row. row.amount) rows
    → (sum_by (λ row. row.amount) rows ≡ grand_total) ⊎ All (λ row. is_cash row.type ≡ true) rows
    → calculate_payments inputs methods grand_total
      ≡ ok (record {
        rows = rows;
        paid_total_amount = sum_by (λ row. row.amount) rows;
        change_due_amount = sum_by (λ row. row.amount) rows - grand_total;
        due_amount = 0;
      })
unfolding calculate_payments settle
calculate_payments_accepts inputs methods grand_total rows some_rows few_rows admissible fits
      reaches balanced =
    let (allowed, change) = change_due rows grand_total balanced in
    rw
      (
        not_none (length inputs) some_rows,
        not_over (length inputs) max_rows few_rows,
        resolve_rows_accepts methods ((length inputs == 1) && (grand_total == 0)) inputs rows
            admissible,
        not_over (sum_by (λ row. row.amount) rows) max_payment_total fits,
        nothing_due grand_total (sum_by (λ row. row.amount) rows) reaches,
        allowed,
        change,
        nothing_left grand_total (sum_by (λ row. row.amount) rows) reaches,
      )
      refl

-- The failure reported is that of the first row that has one: when every row before a row is
-- admissible and that row is refused, the tender is refused with the same code, whatever the rows
-- after it are, provided that there are at most 20 rows.
pub calculate_payments_first_failure :
    (good rest : List PaymentInputRow) (bad : PaymentInputRow)
    (methods : List ResolvedPaymentMethod) (grand_total : ℕ) (rows : List PaymentCalculationRow)
    (code : PaymentErrorCode)
    → let inputs = good ++ bad ∷ rest in
      let free = (length inputs == 1) && (grand_total == 0) in
      length inputs ≤ max_rows
      → Each (Admissible methods free) good rows
      → resolve_row methods free bad ≡ err code
      → calculate_payments inputs methods grand_total ≡ err code
unfolding calculate_payments
calculate_payments_first_failure good rest bad methods grand_total rows code few admissible failed =
    let inputs = good ++ bad ∷ rest in
    let free = (length inputs == 1) && (grand_total == 0) in
    let some_rows : 1 ≤ length inputs = omega (arith, length-append good (bad ∷ rest)) in
    rw
      (
        not_none (length inputs) some_rows,
        not_over (length inputs) max_rows few,
        resolve_rows_first_failure methods free good rest bad rows code admissible failed,
      )
      refl
