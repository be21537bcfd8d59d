-- ===== src/Sync/Queue/Tests.antt =====
-- A queue of two sales of this till and one of another, and the theorems at it.
use pos_desktop.Prelude.{ℕ, ◌≡◌, refl, true, Bool, Option, none, some, List, [], ◌∷◌, ok, Each, leb}
use pos_desktop.Prelude.Text.{Text, codes, text_eq, text_after}
use pos_desktop.Prelude.Sorting.{sort_by, insert_by}
use pos_desktop.Sync.States.{SyncQueueState}
use pos_desktop.Sync.Queue.{
  QueueItem, LocalInvoice, Tables, UploadOwner, NewQueueItem, with_uuid, is_upload, is_owned,
  update_invoices, in_state, update_one,
}
use pos_desktop.Sync.Queue.Uploads.{
  Candidate, ClaimedUpload, claim_next_invoice_upload, claim_found, claim, claim_row,
  claimed_upload, dispatched, is_claimable, drains_after, later_created, uuid_order, owned_in_state,
  update_each, uploads_in_state, expire_row, release_row, reclaim_expired_upload_leases,
  release_due_retries,
}
use pos_desktop.Sync.Queue.Outcomes.{
  requeue_rejected_upload, reoffer, reoffer_row, is_named, is_rejected_invoice, reoffer_invoice,
  count_foreign_pending_uploads,
}
use pos_desktop.Sync.Queue.Moves.{Shifted}
use pos_desktop.Sync.Queue.Recovery.{Owned, reclaim-Shifted, release-Shifted}
use pos_desktop.Sync.Queue.Claim.{IsClaim, claim_next_invoice_upload-IsClaim}
use pos_desktop.Sync.Queue.Steps.{Operation, run, run_all, RowsMove, run-RowsMove}
use pos_desktop.Sync.Queue.History.{Persist, run_all-Persist}

abbrev sale : Text → Text → NewQueueItem
sale uuid invoice = record {
  local_queue_uuid = uuid;
  aggregate_type = codes "invoice";
  local_aggregate_uuid = invoice;
  operation = codes "upload";
  payload_json = codes "p";
  payload_hash = codes "h";
  idempotency_key = uuid;
  dependency_queue_uuid = none;
}

abbrev invoice : Text → Text → LocalInvoice
invoice uuid device = record {
  local_uuid = uuid;
  company_uuid = codes "c";
  device_uuid = device;
  sync_status = SyncQueueState.pending;
  sync_attempts = 0;
  synced_at = none;
  updated_at = 0;
}

abbrev row : Text → Text → ℕ → QueueItem
row uuid inv n = record {
  local_queue_uuid = uuid;
  aggregate_type = codes "invoice";
  local_aggregate_uuid = inv;
  operation = codes "upload";
  payload_json = codes "p";
  payload_hash = codes "h";
  idempotency_key = uuid;
  state = SyncQueueState.pending;
  dependency_queue_uuid = none;
  queue_sequence = some n;
  attempt_count = 0;
  next_attempt_at = none;
  upload_lease_at = none;
  last_error_code = none;
  last_error_details = none;
  created_at = 5;
  updated_at = 5;
}

abbrev till : UploadOwner
till = record { company_uuid = codes "c"; device_uuid = codes "d" }

abbrev start : Tables
start = record {
  queue =
      row (codes "b") (codes "i2") 2
      ∷ row (codes "a") (codes "i1") 1
      ∷ row (codes "x") (codes "i3") 3
      ∷ [];
  invoices =
      invoice (codes "i1") (codes "d")
      ∷ invoice (codes "i2") (codes "d")
      ∷ invoice (codes "i3") (codes "e")
      ∷ [];
}

abbrev anything : Candidate → Bool
anything candidate = true

abbrev leased : QueueItem
leased = record (row (codes "a") (codes "i1") 1) {
  state = SyncQueueState.uploading;
  attempt_count = 1;
  upload_lease_at = some 9;
  updated_at = 9;
}

abbrev claimed : Tables
claimed = record {
  queue = row (codes "b") (codes "i2") 2 ∷ leased ∷ row (codes "x") (codes "i3") 3 ∷ [];
  invoices =
      record (invoice (codes "i1") (codes "d")) {
        sync_status = SyncQueueState.uploading;
        sync_attempts = 1;
        updated_at = 9;
      }
      ∷ invoice (codes "i2") (codes "d")
      ∷ invoice (codes "i3") (codes "e")
      ∷ [];
}

abbrev upload : ClaimedUpload
upload = record {
  local_queue_uuid = codes "a";
  invoice_local_uuid = codes "i1";
  payload_json = codes "p";
  payload_hash = codes "h";
  idempotency_key = codes "a";
  attempt_count = 1;
}

drains_in_sequence : claim_next_invoice_upload till 9 anything start ≡ ok (claimed, some upload)
unfolding claim_next_invoice_upload claim_found claim claim_row claimed_upload dispatched
    is_claimable is_upload is_owned update_invoices in_state with_uuid update_one text_eq sort_by
    insert_by drains_after later_created text_after
drains_in_sequence = refl

abbrev is_over : Option ℕ → ℕ → Bool
is_over none now = true
is_over (some at) now = leb at now

foreign_are_counted : count_foreign_pending_uploads till start ≡ 1
unfolding count_foreign_pending_uploads is_upload text_eq
foreign_are_counted = refl

-- The lease that was taken above runs out, and the row is then due again.
abbrev expired : Tables
expired = record claimed {
  queue =
      row (codes "b") (codes "i2") 2
      ∷ record leased {
        state = SyncQueueState.retryable_error;
        upload_lease_at = none;
        next_attempt_at = some 20;
        last_error_code = some (codes "upload_lease_expired");
        last_error_details =
            some
              (codes "{\"message\":\"The upload lease expired before an answer was recorded.\"}");
        updated_at = 20;
      }
      ∷ row (codes "x") (codes "i3") 3
      ∷ [];
}

lease_runs_out :
    reclaim_expired_upload_leases till 20 is_over claimed ≡ ok (expired, codes "a" ∷ [])
unfolding reclaim_expired_upload_leases update_each uploads_in_state owned_in_state is_upload
    is_owned in_state with_uuid update_one expire_row text_eq sort_by insert_by uuid_order
    text_after
lease_runs_out = refl

abbrev due : Tables
due = record expired {
  queue =
      row (codes "b") (codes "i2") 2
      ∷ record leased {
        state = SyncQueueState.pending;
        upload_lease_at = none;
        next_attempt_at = some 20;
        last_error_code = some (codes "upload_lease_expired");
        last_error_details =
            some
              (codes "{\"message\":\"The upload lease expired before an answer was recorded.\"}");
        updated_at = 30;
      }
      ∷ row (codes "x") (codes "i3") 3
      ∷ [];
}

retry_is_released : release_due_retries till 30 expired ≡ ok (due, codes "a" ∷ [])
unfolding release_due_retries update_each uploads_in_state owned_in_state is_upload is_owned
    in_state with_uuid update_one release_row text_eq sort_by insert_by later_created text_after
retry_is_released = refl

abbrev refused : Tables
refused = record {
  queue = record (row (codes "a") (codes "i1") 1) { state = SyncQueueState.rejected } ∷ [];
  invoices =
      record (invoice (codes "i1") (codes "d")) { sync_status = SyncQueueState.rejected } ∷ [];
}

abbrev reoffered : Tables
reoffered = record {
  queue = record (row (codes "a") (codes "i1") 1) { updated_at = 40 } ∷ [];
  invoices = record (invoice (codes "i1") (codes "d")) { updated_at = 40 } ∷ [];
}

by_name_only :
    run (Operation.requeues (codes "i1") (codes "a") (codes "h") 40) refused ≡ ok reoffered
unfolding run requeue_rejected_upload is_named is_upload text_eq reoffer_row reoffer update_invoices
    is_rejected_invoice reoffer_invoice
by_name_only = refl

claim_next_invoice_upload-IsClaim_example : IsClaim till 9 anything start claimed (some upload)
claim_next_invoice_upload-IsClaim_example =
    claim_next_invoice_upload-IsClaim till 9 anything start claimed (some upload) drains_in_sequence

reclaim-Shifted_example :
    Each
      (Shifted
        (Owned till claimed.invoices)
        SyncQueueState.uploading
        SyncQueueState.retryable_error)
      claimed.queue
      expired.queue
    × (expired.invoices ≡ claimed.invoices)
reclaim-Shifted_example =
    reclaim-Shifted till 20 is_over claimed expired (codes "a" ∷ []) lease_runs_out

release-Shifted_example :
    Each
      (Shifted (Owned till expired.invoices) SyncQueueState.retryable_error SyncQueueState.pending)
      expired.queue
      due.queue
    × (due.invoices ≡ expired.invoices)
release-Shifted_example = release-Shifted till 30 expired due (codes "a" ∷ []) retry_is_released

run-RowsMove_example :
    RowsMove (Operation.requeues (codes "i1") (codes "a") (codes "h") 40) refused reoffered
run-RowsMove_example =
    run-RowsMove (Operation.requeues (codes "i1") (codes "a") (codes "h") 40) refused reoffered
      by_name_only

abbrev history : List Operation
history =
    Operation.enqueues (sale (codes "n") (codes "i9")) 6
    ∷ Operation.claims till 9 anything
    ∷ Operation.marks_synced (codes "a") 10
    ∷ Operation.requeues (codes "i1") (codes "a") (codes "h") 11
    ∷ []

run_all-Persist_example : Persist start.queue (run_all history start).queue
run_all-Persist_example = run_all-Persist history start
