-- ===== src/Sync/Queue/Recovery.antt =====
-- The two recovery loops of `SyncQueueRepository` (src/main/repositories/syncQueue.repository.ts)
-- touch the uploads of their owner only.
use pos_desktop.Prelude.{
  ℕ, ◌≡◌, refl, sym, ◌∙◌, ap, subst, inl, Bool, true, ◌&&◌, Option, List, [], ◌∷◌, filter, ok,
  on_ok, ok-inj, and_true, Each, Each-refl, Each-trans,
}
use pos_desktop.Prelude.Sorting.{sort_by}
use pos_desktop.Prelude.Text.{Text}
use pos_desktop.Sync.States.{SyncQueueState}
use pos_desktop.Sync.Queue.{
  QueueItem, LocalInvoice, Tables, UploadOwner, is_upload, is_owned, is_due, in_state, update_one,
}
use pos_desktop.Sync.Queue.Uploads.{
  expire_row, owned_in_state, update_each, reclaim_expired_upload_leases, release_due_retries,
  uuid_order, uploads_in_state, later_created, release_row,
}
use pos_desktop.Sync.Queue.Moves.{
  SameEvidence, unchanged, Shifted, Shifted-trans, update_one-Shifted, in_state-state,
}

-- The uploads of an owner, among the invoices.
abbrev pub Owned : UploadOwner → List LocalInvoice → QueueItem → Type 0
Owned owner invoices item = (is_upload item ≡ true) × (is_owned owner invoices item ≡ true)

owned_in_state-state :
    (owner : UploadOwner) (invoices : List LocalInvoice) (uuid : Text) (s : SyncQueueState)
    (x : QueueItem)
    → owned_in_state owner invoices uuid s x ≡ true
    → Owned owner invoices x × (x.state ≡ s)
unfolding owned_in_state
owned_in_state-state owner invoices uuid s x h =
    let (rest, own) = and_true (in_state uuid s x && is_upload x) (is_owned owner invoices x) h in
    let (here, upload) = and_true (in_state uuid s x) (is_upload x) rest in
    ((upload, own), in_state-state uuid s x here)

-- A loop of guarded updates touches the owner's uploads only.
update_each-Shifted :
    (owner : UploadOwner) (from to : SyncQueueState) (change : QueueItem → QueueItem)
    → ¬ (to ≡ from)
    → ((x : QueueItem) → ((change x).state ≡ to) × SameEvidence x (change x))
    → (rows : List QueueItem) (t u : Tables) → update_each owner from change rows t ≡ ok u
    → Each (Shifted (Owned owner t.invoices) from to) t.queue u.queue × (u.invoices ≡ t.invoices)
unfolding update_each
update_each-Shifted owner from to change differ shifts [] t u h = (
  subst (λ v. Each (Shifted (Owned owner t.invoices) from to) t.queue v.queue) (ok-inj h)
      (Each-refl (Shifted (Owned owner t.invoices) from to) (λ x. inl refl) t.queue),
  ap (λ v. v.invoices) (sym (ok-inj h)),
)
update_each-Shifted owner from to change differ shifts (row ∷ rows) t u h =
    let P = Owned owner t.invoices in
    on_ok (update_one (owned_in_state owner t.invoices row.local_queue_uuid from) change t) _ h
      λ v first h1.
        let (here, kept) =
          update_one-Shifted P from to (owned_in_state owner t.invoices row.local_queue_uuid from)
            change t v (owned_in_state-state owner t.invoices row.local_queue_uuid from) shifts
            first in
        let (later, kept2) = update_each-Shifted owner from to change differ shifts rows v u h1 in
        (
          Each-trans (Shifted P from to) (Shifted-trans P from to differ) t.queue v.queue u.queue
              here
              (subst (λ invoices. Each (Shifted (Owned owner invoices) from to) v.queue u.queue)
                kept later),
          kept2 ∙ kept,
        )

-- Reclaiming expired leases changes nothing but uploads of the owner's own invoices, which go from
-- `uploading` to `retryable_error` with their evidence; no invoice changes.
pub reclaim-Shifted :
    (owner : UploadOwner) (now : ℕ) (is_expired : Option ℕ → ℕ → Bool) (t u : Tables)
    (ids : List Text)
    → reclaim_expired_upload_leases owner now is_expired t ≡ ok (u, ids)
    → Each
        (Shifted (Owned owner t.invoices) SyncQueueState.uploading SyncQueueState.retryable_error)
        t.queue
        u.queue
      × (u.invoices ≡ t.invoices)
unfolding reclaim_expired_upload_leases expire_row
reclaim-Shifted owner now is_expired t u ids h =
    let rows = sort_by uuid_order (uploads_in_state owner SyncQueueState.uploading t) in
    let expired = filter (λ row. is_expired row.upload_lease_at now) rows in
    on_ok (update_each owner SyncQueueState.uploading (expire_row now) expired t) _ h λ v done fin.
      subst
        (λ w.
          Each
            (Shifted (Owned owner t.invoices) SyncQueueState.uploading
              SyncQueueState.retryable_error)
            t.queue w.queue
          × (w.invoices ≡ t.invoices))
        (ap (λ p. p.0) (ok-inj fin))
        (update_each-Shifted owner SyncQueueState.uploading SyncQueueState.retryable_error
          (expire_row now) (λ e. cc) (λ x. (refl, unchanged x)) expired t v done)

-- Releasing due retries changes nothing but uploads of the owner's own invoices, which go from
-- `retryable_error` to `pending` with their evidence; no invoice changes.
pub release-Shifted :
    (owner : UploadOwner) (now : ℕ) (t u : Tables) (ids : List Text)
    → release_due_retries owner now t ≡ ok (u, ids)
    → Each
        (Shifted (Owned owner t.invoices) SyncQueueState.retryable_error SyncQueueState.pending)
        t.queue
        u.queue
      × (u.invoices ≡ t.invoices)
unfolding release_due_retries release_row
release-Shifted owner now t u ids h =
    let rows = sort_by later_created (
      filter (λ item. is_due now item.next_attempt_at)
        (uploads_in_state owner SyncQueueState.retryable_error t)) in
    on_ok (update_each owner SyncQueueState.retryable_error (release_row now) rows t) _ h
      λ v done fin.
        subst
          (λ w.
            Each
              (Shifted (Owned owner t.invoices) SyncQueueState.retryable_error
                SyncQueueState.pending)
              t.queue w.queue
            × (w.invoices ≡ t.invoices))
          (ap (λ p. p.0) (ok-inj fin))
          (update_each-Shifted owner SyncQueueState.retryable_error SyncQueueState.pending
            (release_row now) (λ e. cc) (λ x. (refl, unchanged x)) rows t v done)
