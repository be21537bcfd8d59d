-- ===== src/Sync/Queue/Moves.antt =====
-- What the operations of `SyncQueueRepository` (src/main/repositories/syncQueue.repository.ts) do to
-- the rows that they find: each moves along the transitions of
-- src/shared/constants/syncQueueStates.ts and keeps its evidence.
use pos_desktop.Prelude.{
  ℕ, ◌≡◌, refl, sym, ◌∙◌, ap, subst, ◌⊎◌, inl, inr, Bool, true, not, List, [], ◌∷◌, ◌==◌, ok,
  refuse_if, on_ok, ok-inj, refuse_if_lem, not-false, and_true, ==_iff, Each, Each-map, Bool-cases,
}
use pos_desktop.Prelude.Text.{Text}
use pos_desktop.Sync.States.{SyncQueueState, state_eq, state_eq→≡, is_transition_allowed}
use pos_desktop.Sync.Queue.{
  QueueItem, Tables, Fault, update_where, count_where, with_uuid, in_state, update_one,
  update_guarded, select_state, transition,
}
use pos_desktop.Sync.Queue.Outcomes.{
  mark_upload_synced, FailedState, failed_state, UploadFailure, fail_upload, synced_row, failed_row,
}

-- What identifies a row and what it uploads.
abbrev pub SameEvidence : QueueItem → QueueItem → Type 0
SameEvidence a b =
    (b.local_queue_uuid ≡ a.local_queue_uuid)
    × (b.aggregate_type ≡ a.aggregate_type)
    × (b.local_aggregate_uuid ≡ a.local_aggregate_uuid)
    × (b.operation ≡ a.operation)
    × (b.payload_json ≡ a.payload_json)
    × (b.payload_hash ≡ a.payload_hash)
    × (b.idempotency_key ≡ a.idempotency_key)
    × (b.queue_sequence ≡ a.queue_sequence)
    × (b.created_at ≡ a.created_at)

-- The row is as it was; or it was one of `P`'s and moved from `from` to `to` with its evidence.
abbrev pub Shifted :
    (QueueItem → Type 0) → SyncQueueState → SyncQueueState → QueueItem → QueueItem → Type 0
Shifted P from to a b = (b ≡ a) ⊎ P a × (a.state ≡ from) × (b.state ≡ to) × SameEvidence a b

abbrev pub Anyone : QueueItem → Type 0
Anyone item = Unit

pub unchanged : (x : QueueItem) → SameEvidence x x
unchanged x = (refl, refl, refl, refl, refl, refl, refl, refl, refl)

-- The row is as it was; or it took an allowed transition, and kept its evidence.
abbrev pub Moved : QueueItem → QueueItem → Type 0
Moved a b = (b ≡ a) ⊎ (is_transition_allowed a.state b.state ≡ true) × SameEvidence a b

pub update_where-Each :
    {A : Type 0} (R : A → A → Type 0) (matches : A → Bool) (change : A → A)
    → ((x : A) → R x x)
    → ((x : A) → matches x ≡ true → R x (change x))
    → (xs : List A) → Each R xs (update_where matches change xs)
update_where-Each R matches change same changed [] = tt
update_where-Each R matches change same changed (x ∷ xs) = (
  elim (Bool-cases (matches x)) [ inl m ↦ rw m (changed x m) | inr m ↦ rw m (same x) ],
  update_where-Each R matches change same changed xs,
)

pub Shifted-trans :
    (P : QueueItem → Type 0) (from to : SyncQueueState)
    → ¬ (to ≡ from)
    → (a b c : QueueItem) → Shifted P from to a b
    → Shifted P from to b c
    → Shifted P from to a c
Shifted-trans P from to differ a b c (inl same) k = subst (λ x. Shifted P from to x c) same k
Shifted-trans P from to differ a b c (inr h) (inl same) =
    subst (Shifted P from to a) (sym same) (inr h)
Shifted-trans P from to differ a b c (inr (p, start, stop, same)) (inr (q, again, moved, rest)) =
    absurd (differ (sym stop ∙ again))

Shifted-Moved :
    (P : QueueItem → Type 0) (from to : SyncQueueState)
    → is_transition_allowed from to ≡ true
    → (a b : QueueItem) → Shifted P from to a b
    → Moved a b
Shifted-Moved P from to allowed a b (inl same) = inl same
Shifted-Moved P from to allowed a b (inr (p, start, stop, same)) =
    inr (rw (start, stop) allowed, same)

pub update_one-queue :
    (matches : QueueItem → Bool) (change : QueueItem → QueueItem) (t : Tables) {u : Tables}
    → update_one matches change t ≡ ok u
    → (u ≡ record t { queue = update_where matches change t.queue })
      × (count_where matches t.queue ≡ 1)
unfolding update_one
update_one-queue matches change t {u} h =
    on_ok (refuse_if (not (count_where matches t.queue == 1)) Fault.changed_before) _ h
      λ v once fin. (
        sym (ok-inj fin),
        (==_iff (count_where matches t.queue) 1).0 (
            not-false (count_where matches t.queue == 1)
              (refuse_if_lem (not (count_where matches t.queue == 1)) Fault.changed_before once)),
      )

pub in_state-state :
    (uuid : Text) (s : SyncQueueState) (item : QueueItem)
    → in_state uuid s item ≡ true
    → item.state ≡ s
unfolding in_state
in_state-state uuid s item h =
    state_eq→≡ (item.state) s (and_true (with_uuid uuid item) (state_eq item.state s) h).1

-- An update of one row whose guard fixes the state.
pub update_one-Shifted :
    (P : QueueItem → Type 0) (from to : SyncQueueState) (matches : QueueItem → Bool)
    (change : QueueItem → QueueItem) (t u : Tables)
    → ((x : QueueItem) → matches x ≡ true → P x × (x.state ≡ from))
    → ((x : QueueItem) → ((change x).state ≡ to) × SameEvidence x (change x))
    → update_one matches change t ≡ ok u
    → Each (Shifted P from to) t.queue u.queue × (u.invoices ≡ t.invoices)
update_one-Shifted P from to matches change t u guarded shifts h =
    let (same, once) = update_one-queue matches change t h in
    (
      subst (λ v. Each (Shifted P from to) t.queue v.queue) (sym same)
          (update_where-Each (Shifted P from to) matches change (λ x. inl refl)
            (λ x m. inr ((guarded x m).0, (guarded x m).1, (shifts x).0, (shifts x).1)) t.queue),
      ap (λ v. v.invoices) same,
    )

pub moves :
    (P : QueueItem → Type 0) (from to : SyncQueueState)
    → is_transition_allowed from to ≡ true
    → (xs ys : List QueueItem) → Each (Shifted P from to) xs ys
    → Each Moved xs ys
moves P from to allowed xs ys h =
    Each-map (Shifted P from to) Moved (Shifted-Moved P from to allowed) xs ys h

-- A transition that is not refused is an allowed one.
pub transition-Moved :
    (uuid : Text) (next : SyncQueueState) (now : ℕ) (t u : Tables)
    → transition uuid next now t ≡ ok u
    → Each Moved t.queue u.queue
unfolding transition
transition-Moved uuid next now t u h = on_ok (select_state uuid t) _ h λ state found h1.
    on_ok (refuse_if (not (is_transition_allowed state next)) Fault.not_allowed) _ h1
      λ v allowed h2.
        moves Anyone state next
          (not-false (is_transition_allowed state next)
            (refuse_if_lem (not (is_transition_allowed state next)) Fault.not_allowed allowed))
          t.queue u.queue
          (update_one-Shifted Anyone state next (in_state uuid state)
            (λ item. record item { state = next; updated_at = now }) t u
            (λ x m. (tt, in_state-state uuid state x m)) (λ x. (refl, unchanged x)) h2).0

update_guarded-Shifted :
    (uuid : Text) (from to : SyncQueueState) (change : QueueItem → QueueItem) (t u : Tables)
    → ((x : QueueItem) → ((change x).state ≡ to) × SameEvidence x (change x))
    → update_guarded uuid from change t ≡ ok u
    → Each (Shifted Anyone from to) t.queue u.queue
unfolding update_guarded
update_guarded-Shifted uuid from to change t u shifts h =
    on_ok (select_state uuid t) _ h λ state found h1.
      on_ok (refuse_if (not (state_eq state from)) Fault.wrong_state) _ h1 λ v as_expected h2.
        (update_one-Shifted Anyone from to (in_state uuid from) change t u
          (λ x m. (tt, in_state-state uuid from x m)) shifts h2).0

pub mark_upload_synced-Moved :
    (uuid : Text) (now : ℕ) (t u : Tables)
    → mark_upload_synced uuid now t ≡ ok u
    → Each Moved t.queue u.queue
unfolding mark_upload_synced synced_row
mark_upload_synced-Moved uuid now t u h =
    moves Anyone SyncQueueState.uploading SyncQueueState.synced refl t.queue u.queue (
      update_guarded-Shifted uuid SyncQueueState.uploading SyncQueueState.synced (synced_row now) t
        u (λ x. (refl, unchanged x)) h)

failure_allowed :
    (s : FailedState) → is_transition_allowed SyncQueueState.uploading (failed_state s) ≡ true
failure_allowed FailedState.retryable_error = refl
failure_allowed FailedState.conflict = refl
failure_allowed FailedState.rejected = refl

pub fail_upload-Moved :
    (uuid : Text) (state : FailedState) (now : ℕ) (failure : UploadFailure) (t u : Tables)
    → fail_upload uuid state now failure t ≡ ok u
    → Each Moved t.queue u.queue
unfolding fail_upload failed_row
fail_upload-Moved uuid state now failure t u h =
    moves Anyone SyncQueueState.uploading (failed_state state) (failure_allowed state) t.queue
      u.queue
      (update_guarded-Shifted uuid SyncQueueState.uploading (failed_state state)
        (failed_row state now failure) t u (λ x. (refl, unchanged x)) h)
