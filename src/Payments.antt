-- ===== src/Payments.antt =====
-- The tender (src/shared/pos/paymentCalculator.ts): `calculatePayments`, from the rows that the
-- cashier entered and the methods that the catalog resolved to the change due. A grand total is the
-- natural number that `calculateCart` returns.
mod Settled
mod Accepted
mod Tests
use pos_desktop.Prelude.{
  ℕ, zero, ◌+◌, ◌-◌, ◌<◌, Bool, true, false, not, ◌&&◌, ◌||◌, Option, none, some, List, [], ◌∷◌,
  length, find, sum_by, any, ltb, ◌==◌, if◌then◌else◌, min, Result, err, ok, ◌>>=◌, ◌>>◌, refuse_if,
}
use pos_desktop.Prelude.Number.{Number, safe_natural}
use pos_desktop.Prelude.Text.{Text, text_eq}

-- `PaymentMethodType` of src/shared/contracts/catalog.contract.ts.
pub data PaymentMethodType : Type 0 where
  cash card bank_transfer wallet loyalty other : PaymentMethodType

abbrev pub max_payment_total : ℕ
max_payment_total = 900_000_000_000_000

abbrev pub max_rows : ℕ
max_rows = 20

abbrev pub max_reference_length : ℕ
max_reference_length = 255

pub data PaymentErrorCode : Type 0 where
  rows_required row_limit amount_invalid amount_zero amount_limit method_unknown method_inactive :
      PaymentErrorCode
  type_unsupported reference_required insufficient_tender non_cash_overpayment total_limit :
      PaymentErrorCode

pub record PaymentInputRow : Type 0 where
  id : Text
  method_uuid : Text
  amount : Number
  reference : Option Text

pub record ResolvedPaymentMethod : Type 0 where
  uuid : Text
  type : Option PaymentMethodType
  is_active : Bool
  requires_reference : Bool
  allows_change : Bool

-- The type of a row is one of the supported three.
pub record PaymentCalculationRow : Type 0 where
  id : Text
  method_uuid : Text
  type : PaymentMethodType
  amount : ℕ
  reference : Option Text

pub record PaymentCalculation : Type 0 where
  rows : List PaymentCalculationRow
  paid_total_amount : ℕ
  change_due_amount : ℕ
  due_amount : ℕ

abbrev pub PaymentCalculationResult : Type 0 → Type 0
PaymentCalculationResult Value = Result PaymentErrorCode Value

-- The type, when it is a supported one.
abbrev pub supported_type : Option PaymentMethodType → Option PaymentMethodType
supported_type (some PaymentMethodType.cash) = some PaymentMethodType.cash
supported_type (some PaymentMethodType.card) = some PaymentMethodType.card
supported_type (some PaymentMethodType.other) = some PaymentMethodType.other
supported_type _ = none

abbrev pub is_cash : PaymentMethodType → Bool
is_cash PaymentMethodType.cash = true
is_cash _ = false

-- `reference === null || reference.length === 0 || reference.length > MAX_REFERENCE_LENGTH`
abbrev pub is_unusable : Option Text → Bool
is_unusable none = true
is_unusable (some reference) =
    (length reference == 0) || ltb max_reference_length (length reference)

abbrev pub typed : Option PaymentMethodType → PaymentCalculationResult PaymentMethodType
typed none = err PaymentErrorCode.type_unsupported
typed (some type) = ok type

-- The checks of a row's method, and the row that they let through.
unfoldable pub resolve_method :
    ResolvedPaymentMethod → PaymentInputRow → ℕ → PaymentCalculationResult PaymentCalculationRow
resolve_method method row amount = do
  refuse_if (not method.is_active) PaymentErrorCode.method_inactive
  type ← typed (supported_type method.type)
  refuse_if (method.requires_reference && is_unusable row.reference)
      PaymentErrorCode.reference_required
  ok (record {
    id = row.id;
    method_uuid = row.method_uuid;
    type = type;
    amount = amount;
    reference = row.reference;
  })

-- The amount of a row, through the checks on it; `free` says that it is the only row of a sale of
-- nothing.
unfoldable pub check_amount : Bool → Number → PaymentCalculationResult ℕ
check_amount free entered = do
  amount ← elim (safe_natural entered) [
    | none ↦ err PaymentErrorCode.amount_invalid
    | some n ↦ ok n
  ]
  refuse_if (ltb max_payment_total amount) PaymentErrorCode.amount_limit
  refuse_if ((amount == 0) && not free) PaymentErrorCode.amount_zero
  ok amount

-- The body of the loop over the rows.
unfoldable pub resolve_row :
    List ResolvedPaymentMethod
    → Bool
    → PaymentInputRow
    → PaymentCalculationResult PaymentCalculationRow
resolve_row methods free row = do
  amount ← check_amount free row.amount
  method ← elim (find (λ candidate. text_eq candidate.uuid row.method_uuid) methods) [
    | none ↦ err PaymentErrorCode.method_unknown
    | some method ↦ ok method
  ]
  resolve_method method row amount

unfoldable pub resolve_rows :
    List ResolvedPaymentMethod
    → Bool
    → List PaymentInputRow
    → PaymentCalculationResult (List PaymentCalculationRow)
resolve_rows methods free [] = ok []
resolve_rows methods free (row ∷ rows) = do
  first ← resolve_row methods free row
  rest ← resolve_rows methods free rows
  ok (first ∷ rest)

abbrev pub cash_amount : PaymentCalculationRow → ℕ
cash_amount row = if is_cash row.type then row.amount else 0

-- The sums and the checks on them; subtraction on ℕ is `a > b ? a - b : 0`.
unfoldable pub settle : List PaymentCalculationRow → ℕ → PaymentCalculationResult PaymentCalculation
settle rows grand_total =
    let paid = sum_by (λ row. row.amount) rows in
    let overpayment = paid - grand_total in
    do
      refuse_if (ltb max_payment_total paid) PaymentErrorCode.total_limit
      refuse_if (ltb 0 (grand_total - paid)) PaymentErrorCode.insufficient_tender
      refuse_if (ltb 0 overpayment && any (λ row. not (is_cash row.type)) rows)
          PaymentErrorCode.non_cash_overpayment
      ok (record {
        rows = rows;
        paid_total_amount = paid;
        change_due_amount = min overpayment (sum_by cash_amount rows);
        due_amount = grand_total - paid;
      })

unfoldable pub calculate_payments :
    List PaymentInputRow
    → List ResolvedPaymentMethod
    → ℕ
    → PaymentCalculationResult PaymentCalculation
calculate_payments rows methods grand_total = do
  refuse_if (length rows == 0) PaymentErrorCode.rows_required
  refuse_if (ltb max_rows (length rows)) PaymentErrorCode.row_limit
  resolved ← resolve_rows methods ((length rows == 1) && (grand_total == 0)) rows
  settle resolved grand_total
