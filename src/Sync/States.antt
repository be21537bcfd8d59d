-- ===== src/Sync/States.antt =====
-- The states of a queued upload and the moves between them
-- (src/shared/constants/syncQueueStates.ts).
use pos_desktop.Prelude.{
  ℕ, ◌==◌, ◌≡◌, Bool, true, not, ◌&&◌, ◌||◌, Option, none, some, List, [], ◌∷◌, any, arith,
}
use pos_desktop.Prelude.Text.{Text, text_eq}

pub data SyncQueueState : Type 0 where
  pending uploading synced retryable_error conflict rejected : SyncQueueState

abbrev index : SyncQueueState → ℕ
index SyncQueueState.pending = 0
index SyncQueueState.uploading = 1
index SyncQueueState.synced = 2
index SyncQueueState.retryable_error = 3
index SyncQueueState.conflict = 4
index SyncQueueState.rejected = 5

abbrev pub state_eq : SyncQueueState → SyncQueueState → Bool
state_eq s t = index s == index t

-- `SYNC_QUEUE_TRANSITIONS`
abbrev pub transitions : SyncQueueState → List SyncQueueState
transitions SyncQueueState.pending = SyncQueueState.uploading ∷ []
transitions SyncQueueState.uploading =
    SyncQueueState.synced ∷ SyncQueueState.retryable_error ∷ SyncQueueState.conflict
    ∷ SyncQueueState.rejected ∷ []
transitions SyncQueueState.synced = []
transitions SyncQueueState.retryable_error = SyncQueueState.pending ∷ []
transitions SyncQueueState.conflict = []
transitions SyncQueueState.rejected = []

abbrev pub is_transition_allowed : SyncQueueState → SyncQueueState → Bool
is_transition_allowed from to = any (state_eq to) (transitions from)

-- `canProcessSyncQueueItem`
abbrev pub can_process : SyncQueueState → Option SyncQueueState → Bool
can_process state none = state_eq state SyncQueueState.pending
can_process state (some dependency) =
    state_eq state SyncQueueState.pending && state_eq dependency SyncQueueState.synced

pub record ImmutableSyncQueueRecord : Type 0 where
  payload_json : Text
  payload_hash : Text
  idempotency_key : Text

abbrev pub has_immutable_fields_changed : ImmutableSyncQueueRecord → ImmutableSyncQueueRecord → Bool
has_immutable_fields_changed existing candidate =
    not (text_eq existing.payload_json candidate.payload_json)
    || not (text_eq existing.payload_hash candidate.payload_hash)
    || not (text_eq existing.idempotency_key candidate.idempotency_key)

pub state_eq→≡ : (s t : SyncQueueState) → state_eq s t ≡ true → s ≡ t
state_eq→≡ s t h = ground arith
