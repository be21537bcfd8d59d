-- ===== src/Payments/Settled.antt =====
-- What a tender that `calculatePayments` (src/shared/pos/paymentCalculator.ts) accepts guarantees,
-- which tenders it accepts, and which failure it reports.
use pos_desktop.Prelude.{
  refuse_if_lem, not-false, ℕ, ◌+◌, ◌-◌, ◌≤◌, ◌≡◌, refl, ap, subst, sym, ◌⊎◌, inl, inr, Bool, true,
  false, not, ◌&&◌, Option, none, some, List, [], ◌∷◌, length, find, sum_by, any, ltb, ◌==◌, min,
  ok, refuse_if, on_ok, ok-inj, arith, All, Any, All-map, Each, find-member, any-All, Option-cases,
}
use pos_desktop.Prelude.Int.{pos}
use pos_desktop.Prelude.Number.{Number, whole, safe_natural}
use pos_desktop.Prelude.Text.{text_eq, text_eq_iff}
use pos_desktop.Payments.{
  PaymentMethodType, PaymentErrorCode, PaymentInputRow, ResolvedPaymentMethod,
  PaymentCalculationRow, PaymentCalculation, supported_type, typed, is_cash, is_unusable,
  resolve_method, check_amount, resolve_row, resolve_rows, cash_amount, settle, calculate_payments,
  max_payment_total, max_rows,
}

-- The row that an entered row became: what was entered, under an active method of the catalog with
-- that identifier and a supported type, with a reference where the method requires one.
abbrev pub Tenders : List ResolvedPaymentMethod → PaymentInputRow → PaymentCalculationRow → Type 0
Tenders methods input row =
    (row.id ≡ input.id)
    × (row.method_uuid ≡ input.method_uuid)
    × (row.reference ≡ input.reference)
    × (input.amount ≡ whole (pos row.amount))
    × ((m : ResolvedPaymentMethod) × Any (λ c. c ≡ m) methods
        × (m.uuid ≡ input.method_uuid)
        × (m.is_active ≡ true)
        × (supported_type m.type ≡ some row.type)
        × ((m.requires_reference && is_unusable row.reference) ≡ false))

safe_natural-whole : (x : Number) (n : ℕ) → safe_natural x ≡ some n → x ≡ whole (pos n)
safe_natural-whole (whole (pos k)) n h = ground arith
safe_natural-whole x n h = cc

check_amount_lem :
    (free : Bool) (entered : Number) (amount : ℕ)
    → check_amount free entered ≡ ok amount
    → entered ≡ whole (pos amount)
unfolding check_amount
check_amount_lem free entered amount h = elim (Option-cases (safe_natural entered)) [
  | inl absent ↦ cc (rw absent at h)
  | inr (n, e) ↦
      let kept : n ≡ amount = ground (arith, rw e at h) in
      subst (λ k. entered ≡ whole (pos k)) kept (safe_natural-whole entered n e)
]

typed_lem :
    (o : Option PaymentMethodType) (type : PaymentMethodType) → typed o ≡ ok type → o ≡ some type
typed_lem none type h = cc
typed_lem (some t) type h = ap some (ok-inj h)

abbrev Resolved : ResolvedPaymentMethod → PaymentInputRow → ℕ → PaymentCalculationRow → Type 0
Resolved m input amount row =
    (m.is_active ≡ true)
    × (supported_type m.type ≡ some row.type)
    × ((m.requires_reference && is_unusable row.reference) ≡ false)
    × (row.id ≡ input.id)
    × (row.method_uuid ≡ input.method_uuid)
    × (row.reference ≡ input.reference)
    × (row.amount ≡ amount)

module _ (methods : List ResolvedPaymentMethod) (free : Bool) where
  resolve_method_lem :
      (m : ResolvedPaymentMethod) (input : PaymentInputRow) (amount : ℕ)
      (row : PaymentCalculationRow)
      → resolve_method m input amount ≡ ok row
      → Resolved m input amount row
  unfolding resolve_method
  resolve_method_lem m input amount row h =
      on_ok (refuse_if (not m.is_active) PaymentErrorCode.method_inactive) _ h λ u active k.
        on_ok (typed (supported_type m.type)) _ k λ type supported l.
          on_ok
            (refuse_if (m.requires_reference && is_unusable input.reference)
              PaymentErrorCode.reference_required)
            _ l
            λ v usable fin.
              let active' : m.is_active ≡ true =
                not-false m.is_active
                  (refuse_if_lem (not m.is_active) PaymentErrorCode.method_inactive active) in
              let supported' = typed_lem (supported_type m.type) type supported in
              let usable' =
                refuse_if_lem (m.requires_reference && is_unusable input.reference)
                  PaymentErrorCode.reference_required usable in
              subst (λ r. Resolved m input amount r) (ok-inj fin)
                (active', supported', usable', refl, refl, refl, refl)

  resolve_row-Tenders :
      (input : PaymentInputRow) (row : PaymentCalculationRow)
      → resolve_row methods free input ≡ ok row
      → Tenders methods input row
  unfolding resolve_row
  resolve_row-Tenders input row h = on_ok (check_amount free input.amount) _ h λ amount e k.
      elim (Option-cases (find (λ candidate. text_eq candidate.uuid input.method_uuid) methods)) [
        | inl absent ↦ cc (rw absent at k)
        | inr (m, found) ↦
            let (member, same) =
              find-member (λ candidate. text_eq candidate.uuid input.method_uuid) methods m found in
            let (active, supported, referenced, id, method, reference, exact) =
              resolve_method_lem m input amount row (rw found at k) in
            (
              id,
              method,
              reference,
              subst (λ n. input.amount ≡ whole (pos n)) (sym exact)
                  (check_amount_lem free input.amount amount e),
              (
                m,
                member,
                (text_eq_iff m.uuid input.method_uuid).0 same,
                active,
                supported,
                referenced,
              ),
            )
      ]

  resolve_rows-Tenders :
      (inputs : List PaymentInputRow) (rows : List PaymentCalculationRow)
      → resolve_rows methods free inputs ≡ ok rows
      → Each (Tenders methods) inputs rows
  unfolding resolve_rows
  resolve_rows-Tenders [] rows h = subst (Each (Tenders methods) []) (ok-inj h) tt
  resolve_rows-Tenders (input ∷ inputs) rows h =
      on_ok (resolve_row methods free input) _ h λ first e k.
        on_ok (resolve_rows methods free inputs) _ k λ rest f l.
          subst (Each (Tenders methods) (input ∷ inputs)) (ok-inj l)
            (resolve_row-Tenders input first e, resolve_rows-Tenders inputs rest f)

counted : (n : ℕ) → (n == 0) ≡ false → 1 ≤ n
counted n h = ground arith

bounded : (n limit : ℕ) → ltb limit n ≡ false → n ≤ limit
bounded n limit h = ground arith

-- The rows are what was entered, and the sums fit: everything tendered is the grand total and the
-- change, nothing is due, and change is only given for cash.
abbrev pub IsSettled :
    List PaymentInputRow → List ResolvedPaymentMethod → ℕ → PaymentCalculation → Type 0
IsSettled inputs methods grand_total p =
    (1 ≤ length inputs)
    × (length inputs ≤ max_rows)
    × Each (Tenders methods) inputs p.rows
    × (p.paid_total_amount ≡ sum_by (λ row. row.amount) p.rows)
    × (p.paid_total_amount ≤ max_payment_total)
    × (p.paid_total_amount ≡ grand_total + p.change_due_amount)
    × (p.due_amount ≡ 0)
    × ((p.change_due_amount ≡ 0) ⊎ All (λ row. is_cash row.type ≡ true) p.rows)

pub sum_by-cash :
    (rows : List PaymentCalculationRow)
    → All (λ row. is_cash row.type ≡ true) rows
    → sum_by cash_amount rows ≡ sum_by (λ row. row.amount) rows
sum_by-cash [] h = refl
sum_by-cash (row ∷ rows) h = rw (h.0) (ap (λ n. row.amount + n) (sum_by-cash rows h.1))

All-cash :
    (rows : List PaymentCalculationRow)
    → any (λ row. not (is_cash row.type)) rows ≡ false
    → All (λ row. is_cash row.type ≡ true) rows
All-cash rows h =
    All-map (λ row e. not-false (is_cash row.type) e) rows
      (any-All (λ row. not (is_cash row.type)) rows h)

-- The three numbers of a settlement, whose checks passed.
settled_amounts :
    (paid grand cash : ℕ) (mixed : Bool)
    → ltb 0 (grand - paid) ≡ false
    → (ltb 0 (paid - grand) && mixed) ≡ false
    → (mixed ≡ false → cash ≡ paid)
    → (paid ≡ grand + min (paid - grand) cash)
      × (grand - paid ≡ 0)
      × ((min (paid - grand) cash ≡ 0) ⊎ (mixed ≡ false))
settled_amounts paid grand cash mixed h k l = ground arith

-- An accepted tender has 1 to 20 rows, each the entered one under an active method of a supported
-- type, with the reference that the method requires; the amounts paid are their sum, at most the
-- limit, and exactly the grand total and the change; nothing is due, and there is no change unless
-- every row is cash.
pub calculate_payments-IsSettled :
    (inputs : List PaymentInputRow) (methods : List ResolvedPaymentMethod) (grand_total : ℕ)
    (p : PaymentCalculation)
    → calculate_payments inputs methods grand_total ≡ ok p
    → IsSettled inputs methods grand_total p
unfolding calculate_payments settle
calculate_payments-IsSettled inputs methods grand_total p h =
    on_ok (refuse_if (length inputs == 0) PaymentErrorCode.rows_required) _ h λ u some_rows h1.
      on_ok (refuse_if (ltb max_rows (length inputs)) PaymentErrorCode.row_limit) _ h1
        λ v few_rows h2.
          let free = (length inputs == 1) && (grand_total == 0) in
          on_ok (resolve_rows methods free inputs) _ h2 λ rows resolved h3.
            let paid = sum_by (λ row. row.amount) rows in
            let mixed = any (λ row. not (is_cash row.type)) rows in
            on_ok (refuse_if (ltb max_payment_total paid) PaymentErrorCode.total_limit) _ h3
              λ w fits h4.
                on_ok (refuse_if (ltb 0 (grand_total - paid)) PaymentErrorCode.insufficient_tender)
                  _ h4
                  λ x enough h5.
                    on_ok
                      (refuse_if (ltb 0 (paid - grand_total) && mixed)
                        PaymentErrorCode.non_cash_overpayment)
                      _ h5
                      λ y cash_only fin.
                        let (exact, nothing_due, change) =
                          settled_amounts paid grand_total (sum_by cash_amount rows) mixed
                            (refuse_if_lem (ltb 0 (grand_total - paid))
                              PaymentErrorCode.insufficient_tender enough)
                            (refuse_if_lem (ltb 0 (paid - grand_total) && mixed)
                              PaymentErrorCode.non_cash_overpayment cash_only)
                            (λ e. sum_by-cash rows (All-cash rows e)) in
                        subst (IsSettled inputs methods grand_total) (ok-inj fin) (
                          counted (length inputs) (
                              refuse_if_lem (length inputs == 0) PaymentErrorCode.rows_required
                                some_rows),
                          bounded (length inputs) max_rows (
                              refuse_if_lem (ltb max_rows (length inputs))
                                PaymentErrorCode.row_limit few_rows),
                          resolve_rows-Tenders methods free inputs rows resolved,
                          refl,
                          bounded paid max_payment_total (
                              refuse_if_lem (ltb max_payment_total paid)
                                PaymentErrorCode.total_limit fits),
                          exact,
                          nothing_due,
                          elim change [
                            | inl none_given ↦ inl none_given
                            | inr same ↦ inr (All-cash rows same)
                          ],
                        )
