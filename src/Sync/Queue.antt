-- ===== src/Sync/Queue.antt =====
-- The two tables that an upload moves through, and `SyncQueueRepository`
-- (src/main/repositories/syncQueue.repository.ts). A transaction that throws leaves the tables as
-- they were, so an operation is a function from the tables to a fault or the new tables. The SQL
-- statements are the functions on lists that they describe. Timestamps are texts of `toISOString`,
-- which are ordered as the instants they name, here numbers.
mod Uploads
mod Outcomes
mod Moves
mod Recovery
mod Ready
mod Claim
mod Steps
mod History
mod Tests
use pos_desktop.Prelude.{
  ℕ, zero, ◌+◌, ◌<◌, Bool, true, false, not, ◌&&◌, ◌||◌, Option, none, some, List, [], ◌∷◌, ◌++◌,
  map, length, filter, find, any, every, ltb, leb, ◌==◌, if◌then◌else◌, max, Result, err, ok, ◌>>=◌,
  ◌>>◌, refuse_if,
}
use pos_desktop.Prelude.Text.{Text, text_eq, text_after, codes}
use pos_desktop.Sync.States.{SyncQueueState, state_eq, is_transition_allowed}

pub record QueueItem : Type 0 where
  local_queue_uuid : Text
  aggregate_type : Text
  local_aggregate_uuid : Text
  operation : Text
  payload_json : Text
  payload_hash : Text
  idempotency_key : Text
  state : SyncQueueState
  dependency_queue_uuid : Option Text
  queue_sequence : Option ℕ
  attempt_count : ℕ
  next_attempt_at : Option ℕ
  upload_lease_at : Option ℕ
  last_error_code : Option Text
  last_error_details : Option Text
  created_at : ℕ
  updated_at : ℕ

-- The columns of `local_invoices` that the queue reads or writes.
pub record LocalInvoice : Type 0 where
  local_uuid : Text
  company_uuid : Text
  device_uuid : Text
  sync_status : SyncQueueState
  sync_attempts : ℕ
  synced_at : Option ℕ
  updated_at : ℕ

pub record Tables : Type 0 where
  queue : List QueueItem
  invoices : List LocalInvoice

pub record NewQueueItem : Type 0 where
  local_queue_uuid : Text
  aggregate_type : Text
  local_aggregate_uuid : Text
  operation : Text
  payload_json : Text
  payload_hash : Text
  idempotency_key : Text
  dependency_queue_uuid : Option Text

pub record UploadOwner : Type 0 where
  company_uuid : Text
  device_uuid : Text

pub data Fault : Type 0 where
  not_found not_allowed wrong_state changed_before invoice_not_rejected constraint_failed : Fault

-- `UPDATE ... SET change WHERE matches`, and its `changes`.
abbrev pub update_where : {A : Type 0} → (A → Bool) → (A → A) → List A → List A
update_where matches change rows = map (λ row. if matches row then change row else row) rows

abbrev pub count_where : {A : Type 0} → (A → Bool) → List A → ℕ
count_where matches rows = length (filter matches rows)

unfoldable pub with_uuid : Text → QueueItem → Bool
with_uuid uuid item = text_eq item.local_queue_uuid uuid

-- `aggregate_type = 'invoice' AND operation = 'upload'`
unfoldable pub is_upload : QueueItem → Bool
is_upload item =
    text_eq item.aggregate_type (codes "invoice") && text_eq item.operation (codes "upload")

-- The join with `local_invoices` on the company and the device.
unfoldable pub is_owned : UploadOwner → List LocalInvoice → QueueItem → Bool
is_owned owner invoices item =
    any
      (λ i.
        text_eq i.local_uuid item.local_aggregate_uuid
        && text_eq i.company_uuid owner.company_uuid
        && text_eq i.device_uuid owner.device_uuid)
      invoices

-- `next_attempt_at IS NULL OR next_attempt_at <= now`
abbrev pub is_due : ℕ → Option ℕ → Bool
is_due now none = true
is_due now (some at) = leb at now

-- `CHECK ((sync_status = 'synced') = (synced_at IS NOT NULL))`
abbrev pub is_consistent : LocalInvoice → Bool
is_consistent invoice = elim (invoice.synced_at) [
  | none ↦ not (state_eq invoice.sync_status SyncQueueState.synced)
  | some at ↦ state_eq invoice.sync_status SyncQueueState.synced
]

unfoldable pub update_invoices :
    (LocalInvoice → Bool)
    → (LocalInvoice → LocalInvoice)
    → List LocalInvoice
    → Result Fault (List LocalInvoice)
update_invoices matches change invoices = do
  refuse_if (not (every (λ i. not (matches i) || is_consistent (change i)) invoices))
      Fault.constraint_failed
  ok (update_where matches change invoices)

-- `COALESCE(MAX(queue_sequence), 0)`
abbrev pub highest : List QueueItem → ℕ
highest [] = 0
highest (item ∷ queue) =
    let rest = highest queue in elim (item.queue_sequence) [ none ↦ rest | some n ↦ max n rest ]

unfoldable pub new_row : NewQueueItem → ℕ → ℕ → QueueItem
new_row item sequence now = record {
  local_queue_uuid = item.local_queue_uuid;
  aggregate_type = item.aggregate_type;
  local_aggregate_uuid = item.local_aggregate_uuid;
  operation = item.operation;
  payload_json = item.payload_json;
  payload_hash = item.payload_hash;
  idempotency_key = item.idempotency_key;
  state = SyncQueueState.pending;
  dependency_queue_uuid = item.dependency_queue_uuid;
  queue_sequence = some sequence;
  attempt_count = 0;
  next_attempt_at = none;
  upload_lease_at = none;
  last_error_code = none;
  last_error_details = none;
  created_at = now;
  updated_at = now;
}

-- `idx_sync_queue_invoice_upload`: one upload of an invoice.
unfoldable pub is_second_upload : NewQueueItem → QueueItem → Bool
is_second_upload item row =
    is_upload row
    && text_eq item.aggregate_type row.aggregate_type
    && text_eq item.operation row.operation
    && text_eq item.local_aggregate_uuid row.local_aggregate_uuid

-- The keys of the table: its primary key, the unique idempotency key, the unique upload of an invoice
-- and the reference. The unique sequence is that of a new row, which is above all others.
unfoldable pub violates : NewQueueItem → List QueueItem → Bool
violates item queue =
    any
      (λ row.
        with_uuid item.local_queue_uuid row
        || text_eq row.idempotency_key item.idempotency_key
        || is_second_upload item row)
      queue
    || elim (item.dependency_queue_uuid) [
      | none ↦ false
      | some uuid ↦ not (any (with_uuid uuid) queue)
    ]

unfoldable pub enqueue : NewQueueItem → ℕ → Tables → Result Fault Tables
enqueue item now tables = do
  refuse_if (violates item tables.queue) Fault.constraint_failed
  ok (record tables { queue = tables.queue ++ new_row item (highest tables.queue + 1) now ∷ [] })

-- A guarded update of one row: `UPDATE ... WHERE local_queue_uuid = ? AND state = ?`, which must
-- change exactly one.
unfoldable pub in_state : Text → SyncQueueState → QueueItem → Bool
in_state uuid state item = with_uuid uuid item && state_eq item.state state

unfoldable pub update_one :
    (QueueItem → Bool) → (QueueItem → QueueItem) → Tables → Result Fault Tables
update_one matches change tables = do
  refuse_if (not (count_where matches tables.queue == 1)) Fault.changed_before
  ok (record tables { queue = update_where matches change tables.queue })

unfoldable pub select_state : Text → Tables → Result Fault SyncQueueState
select_state uuid tables = elim (find (with_uuid uuid) tables.queue) [
  | none ↦ err Fault.not_found
  | some row ↦ ok (row.state)
]

unfoldable pub transition : Text → SyncQueueState → ℕ → Tables → Result Fault Tables
transition uuid next now tables = do
  state ← select_state uuid tables
  refuse_if (not (is_transition_allowed state next)) Fault.not_allowed
  update_one (in_state uuid state) (λ item. record item { state = next; updated_at = now }) tables

unfoldable pub update_guarded :
    Text → SyncQueueState → (QueueItem → QueueItem) → Tables → Result Fault Tables
update_guarded uuid expected change tables = do
  state ← select_state uuid tables
  refuse_if (not (state_eq state expected)) Fault.wrong_state
  update_one (in_state uuid expected) change tables
