-- ===== src/Sync/Queue/Uploads.antt =====
-- The claim of an upload and the two loops that recover uploads, of `SyncQueueRepository`
-- (src/main/repositories/syncQueue.repository.ts).
use pos_desktop.Prelude.{
  ℕ, ◌+◌, Bool, true, false, ◌&&◌, ◌||◌, Option, none, some, List, [], ◌∷◌, map, filter, find, ltb,
  ◌==◌, Result, ok, ◌>>=◌,
}
use pos_desktop.Prelude.Sorting.{sort_by}
use pos_desktop.Prelude.Text.{Text, text_eq, text_after, codes}
use pos_desktop.Sync.States.{SyncQueueState, state_eq}
use pos_desktop.Sync.Queue.{
  QueueItem, LocalInvoice, Tables, UploadOwner, Fault, is_upload, is_owned, is_due, update_invoices,
  in_state, update_one,
}

pub record Candidate : Type 0 where
  pub local_queue_uuid : Text
  pub invoice_local_uuid : Text
  pub payload_json : Text

pub record ClaimedUpload : Type 0 where
  pub local_queue_uuid : Text
  pub invoice_local_uuid : Text
  pub payload_json : Text
  pub payload_hash : Text
  pub idempotency_key : Text
  pub attempt_count : ℕ

-- `ORDER BY queue_sequence IS NULL, queue_sequence, created_at, local_queue_uuid`: the first comes
-- after the second.
unfoldable pub later_created : QueueItem → QueueItem → Bool
later_created a b =
    ltb b.created_at a.created_at
    || (a.created_at == b.created_at) && text_after a.local_queue_uuid b.local_queue_uuid

abbrev pub sequence_after : Option ℕ → Option ℕ → Bool → Bool
sequence_after none none tie = tie
sequence_after none (some n) tie = true
sequence_after (some m) none tie = false
sequence_after (some m) (some n) tie = ltb n m || (m == n) && tie

unfoldable pub drains_after : QueueItem → QueueItem → Bool
drains_after a b = sequence_after a.queue_sequence b.queue_sequence (later_created a b)

unfoldable pub is_claimable : UploadOwner → ℕ → List LocalInvoice → QueueItem → Bool
is_claimable owner now invoices item =
    is_upload item
    && state_eq item.state SyncQueueState.pending
    && is_due now item.next_attempt_at
    && is_owned owner invoices item

unfoldable pub candidate_of : QueueItem → Candidate
candidate_of row = record {
  local_queue_uuid = row.local_queue_uuid;
  invoice_local_uuid = row.local_aggregate_uuid;
  payload_json = row.payload_json;
}

unfoldable pub claim_row : ℕ → QueueItem → QueueItem → QueueItem
claim_row now row item = record item {
  state = SyncQueueState.uploading;
  attempt_count = row.attempt_count + 1;
  upload_lease_at = some now;
  updated_at = now;
}

unfoldable pub claimed_upload : QueueItem → ClaimedUpload
claimed_upload row = record {
  local_queue_uuid = row.local_queue_uuid;
  invoice_local_uuid = row.local_aggregate_uuid;
  payload_json = row.payload_json;
  payload_hash = row.payload_hash;
  idempotency_key = row.idempotency_key;
  attempt_count = row.attempt_count + 1;
}

unfoldable pub dispatched : ℕ → LocalInvoice → LocalInvoice
dispatched now i = record i {
  sync_status = SyncQueueState.uploading;
  sync_attempts = i.sync_attempts + 1;
  updated_at = now;
}

-- The two updates of a claim.
unfoldable pub claim : ℕ → QueueItem → Tables → Result Fault (Tables × Option ClaimedUpload)
claim now row tables = do
  claimed ←
      update_one (in_state row.local_queue_uuid SyncQueueState.pending) (claim_row now row) tables
  invoices ←
      update_invoices (λ i. text_eq i.local_uuid row.local_aggregate_uuid) (dispatched now)
        claimed.invoices
  ok (record claimed { invoices = invoices }, some (claimed_upload row))

unfoldable pub claim_found :
    ℕ → Option QueueItem → Tables → Result Fault (Tables × Option ClaimedUpload)
claim_found now none tables = ok (tables, none)
claim_found now (some row) tables = claim now row tables

unfoldable pub claim_next_invoice_upload :
    UploadOwner → ℕ → (Candidate → Bool) → Tables → Result Fault (Tables × Option ClaimedUpload)
claim_next_invoice_upload owner now accept tables =
    let candidates =
      sort_by drains_after (filter (is_claimable owner now tables.invoices) tables.queue) in
    claim_found now (find (λ row. accept (candidate_of row)) candidates) tables

unfoldable pub expire_row : ℕ → QueueItem → QueueItem
expire_row now item = record item {
  state = SyncQueueState.retryable_error;
  upload_lease_at = none;
  next_attempt_at = some now;
  last_error_code = some (codes "upload_lease_expired");
  last_error_details =
      some (codes "{\"message\":\"The upload lease expired before an answer was recorded.\"}");
  updated_at = now;
}

-- The guard of an update of one owned upload.
unfoldable pub owned_in_state :
    UploadOwner → List LocalInvoice → Text → SyncQueueState → QueueItem → Bool
owned_in_state owner invoices uuid state item =
    in_state uuid state item && is_upload item && is_owned owner invoices item

-- One guarded update for each row of a list; `change` is the same for all.
unfoldable pub update_each :
    UploadOwner
    → SyncQueueState
    → (QueueItem → QueueItem)
    → List QueueItem
    → Tables
    → Result Fault Tables
update_each owner state change [] tables = ok tables
update_each owner state change (row ∷ rows) tables = do
  updated ←
      update_one (owned_in_state owner tables.invoices row.local_queue_uuid state) change tables
  update_each owner state change rows updated

unfoldable pub uploads_in_state : UploadOwner → SyncQueueState → Tables → List QueueItem
uploads_in_state owner state tables =
    filter
      (λ item. is_upload item && state_eq item.state state && is_owned owner tables.invoices item)
      tables.queue

unfoldable pub uuid_order : QueueItem → QueueItem → Bool
uuid_order a b = text_after a.local_queue_uuid b.local_queue_uuid

-- `isExpired` is the caller's, a pure function of the lease and the time, so that the rows that it
-- passes over are left out first.
unfoldable pub reclaim_expired_upload_leases :
    UploadOwner → ℕ → (Option ℕ → ℕ → Bool) → Tables → Result Fault (Tables × List Text)
reclaim_expired_upload_leases owner now is_expired tables =
    let rows = sort_by uuid_order (uploads_in_state owner SyncQueueState.uploading tables) in
    let expired = filter (λ row. is_expired row.upload_lease_at now) rows in
    do
      updated ← update_each owner SyncQueueState.uploading (expire_row now) expired tables
      ok (updated, map (λ row. row.local_queue_uuid) expired)

unfoldable pub release_row : ℕ → QueueItem → QueueItem
release_row now item = record item { state = SyncQueueState.pending; updated_at = now }

unfoldable pub release_due_retries : UploadOwner → ℕ → Tables → Result Fault (Tables × List Text)
release_due_retries owner now tables =
    let rows = sort_by later_created (
      filter (λ item. is_due now item.next_attempt_at)
        (uploads_in_state owner SyncQueueState.retryable_error tables)) in
    do
      updated ← update_each owner SyncQueueState.retryable_error (release_row now) rows tables
      ok (updated, map (λ row. row.local_queue_uuid) rows)
