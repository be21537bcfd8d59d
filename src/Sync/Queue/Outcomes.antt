-- ===== src/Sync/Queue/Outcomes.antt =====
-- How an upload ends, is offered again and is counted: the outcomes of `SyncQueueRepository`
-- (src/main/repositories/syncQueue.repository.ts).
use pos_desktop.Prelude.{
  ℕ, Bool, true, false, not, ◌&&◌, ◌||◌, Option, none, some, List, [], ◌∷◌, any, ◌==◌,
  if◌then◌else◌, min, Result, ok, ◌>>=◌, ◌>>◌, refuse_if,
}
use pos_desktop.Prelude.Text.{Text, text_eq}
use pos_desktop.Sync.States.{SyncQueueState, state_eq}
use pos_desktop.Sync.Queue.{
  QueueItem, LocalInvoice, Tables, UploadOwner, Fault, update_where, count_where, is_upload, is_due,
  update_invoices, update_guarded,
}
use pos_desktop.Sync.Queue.Uploads.{uploads_in_state}

unfoldable pub synced_row : ℕ → QueueItem → QueueItem
synced_row now item = record item {
  state = SyncQueueState.synced;
  upload_lease_at = none;
  next_attempt_at = none;
  last_error_code = none;
  last_error_details = none;
  updated_at = now;
}

unfoldable pub mark_upload_synced : Text → ℕ → Tables → Result Fault Tables
mark_upload_synced uuid now tables =
    update_guarded uuid SyncQueueState.uploading (synced_row now) tables

-- The three states that an upload may fail with.
pub data FailedState : Type 0 where
  retryable_error conflict rejected : FailedState

abbrev pub failed_state : FailedState → SyncQueueState
failed_state FailedState.retryable_error = SyncQueueState.retryable_error
failed_state FailedState.conflict = SyncQueueState.conflict
failed_state FailedState.rejected = SyncQueueState.rejected

-- `details` is the JSON text of `serializeErrorDetails`.
pub record UploadFailure : Type 0 where
  pub error_code : Text
  pub details : Option Text
  pub next_attempt_at : Option ℕ

unfoldable pub retry_at : FailedState → UploadFailure → ℕ → Option ℕ
retry_at FailedState.retryable_error failure now = elim (failure.next_attempt_at) [
  | none ↦ some now
  | some at ↦ some at
]
retry_at _ failure now = none

unfoldable pub failed_row : FailedState → ℕ → UploadFailure → QueueItem → QueueItem
failed_row state now failure item = record item {
  state = failed_state state;
  upload_lease_at = none;
  next_attempt_at = retry_at state failure now;
  last_error_code = some failure.error_code;
  last_error_details = failure.details;
  updated_at = now;
}

unfoldable pub fail_upload : Text → FailedState → ℕ → UploadFailure → Tables → Result Fault Tables
fail_upload uuid state now failure tables =
    update_guarded uuid SyncQueueState.uploading (failed_row state now failure) tables

unfoldable pub is_named : Text → Text → Text → QueueItem → Bool
is_named invoice key hash item =
    is_upload item
    && text_eq item.local_aggregate_uuid invoice
    && text_eq item.idempotency_key key
    && text_eq item.payload_hash hash
    && state_eq item.state SyncQueueState.rejected

unfoldable pub reoffer_row : ℕ → QueueItem → QueueItem
reoffer_row now item = record item {
  state = SyncQueueState.pending;
  next_attempt_at = none;
  upload_lease_at = none;
  updated_at = now;
}

unfoldable pub is_rejected_invoice : Text → LocalInvoice → Bool
is_rejected_invoice invoice i =
    text_eq i.local_uuid invoice && state_eq i.sync_status SyncQueueState.rejected

unfoldable pub reoffer_invoice : ℕ → LocalInvoice → LocalInvoice
reoffer_invoice now i = record i { sync_status = SyncQueueState.pending; updated_at = now }

-- The second update: the invoice moves with its queue row.
unfoldable pub reoffer : Text → ℕ → Tables → Result Fault (Tables × Bool)
reoffer invoice now tables = do
  invoices ← update_invoices (is_rejected_invoice invoice) (reoffer_invoice now) tables.invoices
  refuse_if (not (count_where (is_rejected_invoice invoice) tables.invoices == 1))
      Fault.invoice_not_rejected
  ok (record tables { invoices = invoices }, true)

unfoldable pub requeue_rejected_upload :
    Text → Text → Text → ℕ → Tables → Result Fault (Tables × Bool)
requeue_rejected_upload invoice key hash now tables =
    let updated = record tables {
      queue = update_where (is_named invoice key hash) (reoffer_row now) tables.queue;
    } in
    if count_where (is_named invoice key hash) tables.queue == 1
    then reoffer invoice now updated
    else ok (updated, false)

unfoldable pub count_foreign_pending_uploads : UploadOwner → Tables → ℕ
count_foreign_pending_uploads owner tables =
    count_where
      (λ item.
        is_upload item
        && (state_eq item.state SyncQueueState.pending
            || state_eq item.state SyncQueueState.retryable_error)
        && any
            (λ i.
              text_eq i.local_uuid item.local_aggregate_uuid
              && (not (text_eq i.company_uuid owner.company_uuid)
                  || not (text_eq i.device_uuid owner.device_uuid)))
            tables.invoices)
      tables.queue

abbrev earlier : Option ℕ → Option ℕ → Option ℕ
earlier none b = b
earlier (some a) none = some a
earlier (some a) (some b) = some (min a b)

-- `MIN` of the deadlines after `now`.
unfoldable pub earliest_after : ℕ → List QueueItem → Option ℕ
earliest_after now [] = none
earliest_after now (item ∷ items) =
    let rest = earliest_after now items in
    if is_due now item.next_attempt_at then rest else earlier item.next_attempt_at rest

unfoldable pub next_retry_deadline : UploadOwner → ℕ → Tables → Option ℕ
next_retry_deadline owner now tables =
    earliest_after now (uploads_in_state owner SyncQueueState.retryable_error tables)
