-- ===== src/Sync/Queue/Steps.antt =====
-- Histories of the queue: any sequence of the operations of `SyncQueueRepository`
-- (src/main/repositories/syncQueue.repository.ts), failed ones included.
use pos_desktop.Prelude.{
  ℕ, ◌+◌, ◌≡◌, refl, sym, ap, subst, ◌⊎◌, inl, inr, Bool, true, not, Option, none, some, List, [],
  ◌∷◌, ◌++◌, ◌==◌, Result, err, ok, refuse_if, on_ok, ok-inj, and_true, Each, Each-map, Each-refl,
  Bool-cases,
}
use pos_desktop.Prelude.Text.{Text}
use pos_desktop.Sync.States.{SyncQueueState, state_eq→≡}
use pos_desktop.Sync.Queue.{
  QueueItem, LocalInvoice, Tables, NewQueueItem, UploadOwner, Fault, update_where, count_where,
  highest, new_row, violates, enqueue, transition, update_invoices,
}
use pos_desktop.Sync.Queue.Uploads.{
  Candidate, ClaimedUpload, claim_row, claim_next_invoice_upload, reclaim_expired_upload_leases,
  release_due_retries,
}
use pos_desktop.Sync.Queue.Outcomes.{
  mark_upload_synced, FailedState, UploadFailure, fail_upload, is_named, requeue_rejected_upload,
  reoffer, reoffer_row, is_rejected_invoice,
}
use pos_desktop.Sync.Queue.Moves.{
  SameEvidence, unchanged, Moved, update_where-Each, moves, transition-Moved,
  mark_upload_synced-Moved, fail_upload-Moved,
}
use pos_desktop.Sync.Queue.Recovery.{Owned, reclaim-Shifted, release-Shifted}
use pos_desktop.Sync.Queue.Ready.{IsReady}
use pos_desktop.Sync.Queue.Claim.{Leased, IsClaim, claim_next_invoice_upload-IsClaim}

-- The calls of the repository that write.
pub data Operation : Type 0 where
  enqueues : NewQueueItem → ℕ → Operation
  transitions : Text → SyncQueueState → ℕ → Operation
  claims : UploadOwner → ℕ → (Candidate → Bool) → Operation
  reclaims : UploadOwner → ℕ → (Option ℕ → ℕ → Bool) → Operation
  releases : UploadOwner → ℕ → Operation
  marks_synced : Text → ℕ → Operation
  fails : Text → FailedState → ℕ → UploadFailure → Operation
  requeues : Text → Text → Text → ℕ → Operation

abbrev written : {A : Type 0} → Result Fault (Tables × A) → Result Fault Tables
written (err fault) = err fault
written (ok (tables, answer)) = ok tables

unfoldable pub run : Operation → Tables → Result Fault Tables
run (Operation.enqueues item now) t = enqueue item now t
run (Operation.transitions uuid next now) t = transition uuid next now t
run (Operation.claims owner now accept) t = written (claim_next_invoice_upload owner now accept t)
run (Operation.reclaims owner now is_expired) t =
    written (reclaim_expired_upload_leases owner now is_expired t)
run (Operation.releases owner now) t = written (release_due_retries owner now t)
run (Operation.marks_synced uuid now) t = mark_upload_synced uuid now t
run (Operation.fails uuid state now failure) t = fail_upload uuid state now failure t
run (Operation.requeues invoice key hash now) t =
    written (requeue_rejected_upload invoice key hash now t)

-- A call that throws leaves the tables as they were.
abbrev pub after_run : Tables → Result Fault Tables → Tables
after_run t (err fault) = t
after_run t (ok u) = u

unfoldable pub run_all : List Operation → Tables → Tables
run_all [] t = t
run_all (op ∷ ops) t = run_all ops (after_run t (run op t))

-- A rejected row, named by its invoice, key and hash, was offered again.
abbrev pub Reoffered : Text → Text → Text → QueueItem → QueueItem → Type 0
Reoffered invoice key hash a b =
    (b ≡ a)
    ⊎ (is_named invoice key hash a ≡ true)
      × (a.state ≡ SyncQueueState.rejected)
      × (b.state ≡ SyncQueueState.pending)
      × SameEvidence a b

-- What an operation does to the rows.
abbrev pub RowsMove : Operation → Tables → Tables → Type 0
RowsMove (Operation.enqueues item now) t u =
    u.queue ≡ t.queue ++ new_row item (highest t.queue + 1) now ∷ []
RowsMove (Operation.requeues invoice key hash now) t u =
    Each (Reoffered invoice key hash) t.queue u.queue
RowsMove op t u = Each Moved t.queue u.queue

written-ok :
    {A : Type 0} (r : Result Fault (Tables × A)) (u : Tables)
    → written r ≡ ok u
    → (a : A) × (r ≡ ok (u, a))
written-ok (err fault) u h = cc
written-ok (ok (v, a)) u h = (a, ap (λ w. ok (w, a)) (ok-inj h))

Leased-Moved :
    (owner : UploadOwner) (now : ℕ) (invoices : List LocalInvoice) (row a b : QueueItem)
    → IsReady owner now invoices row
    → Leased now row a b
    → Moved a b
unfolding claim_row
Leased-Moved owner now invoices row a b claimable (inl same) = inl same
Leased-Moved owner now invoices row a b claimable (inr (here, leased)) =
    let (waiting, due, kind, operation, own) = claimable in
    subst (λ x. Moved x b) (sym here)
      (subst (Moved row) (sym leased) (inr (rw waiting refl, unchanged row)))

claim-Moved :
    (owner : UploadOwner) (now : ℕ) (accept : Candidate → Bool) (t u : Tables)
    (c : Option ClaimedUpload)
    → IsClaim owner now accept t u c
    → Each Moved t.queue u.queue
claim-Moved owner now accept t u none (same, refused) =
    subst (λ v. Each Moved t.queue v.queue) (sym same) (Each-refl Moved (λ x. inl refl) t.queue)
claim-Moved owner now accept t u (some c)
      (row, place, claimable, accepted, first, upload, leased, invoices) =
    Each-map (Leased now row) Moved (λ a b. Leased-Moved owner now t.invoices row a b claimable)
      t.queue u.queue leased

named-rejected :
    (invoice key hash : Text) (x : QueueItem)
    → is_named invoice key hash x ≡ true
    → x.state ≡ SyncQueueState.rejected
unfolding is_named
named-rejected invoice key hash x h =
    state_eq→≡ (x.state) SyncQueueState.rejected (and_true _ _ h).1

Reoffered-rows :
    (invoice key hash : Text) (now : ℕ) (xs : List QueueItem)
    → Each
        (Reoffered invoice key hash)
        xs
        (update_where (is_named invoice key hash) (reoffer_row now) xs)
unfolding reoffer_row
Reoffered-rows invoice key hash now xs =
    update_where-Each (Reoffered invoice key hash) (is_named invoice key hash) (reoffer_row now)
      (λ x. inl refl) (λ x m. inr (m, named-rejected invoice key hash x m, refl, unchanged x)) xs

reoffer-queue :
    (invoice : Text) (now : ℕ) (t u : Tables) (b : Bool)
    → reoffer invoice now t ≡ ok (u, b)
    → u.queue ≡ t.queue
unfolding reoffer
reoffer-queue invoice now t u b h = on_ok (update_invoices _ _ t.invoices) _ h λ invoices moved h1.
    on_ok
      (refuse_if (not (count_where (is_rejected_invoice invoice) t.invoices == 1))
        Fault.invoice_not_rejected)
      _ h1 λ v once fin. ap (λ p. p.0.queue) (sym (ok-inj fin))

requeue-Reoffered :
    (invoice key hash : Text) (now : ℕ) (t u : Tables) (b : Bool)
    → requeue_rejected_upload invoice key hash now t ≡ ok (u, b)
    → Each (Reoffered invoice key hash) t.queue u.queue
unfolding requeue_rejected_upload
requeue-Reoffered invoice key hash now t u b h =
    let updated = record t {
      queue = update_where (is_named invoice key hash) (reoffer_row now) t.queue;
    } in
    let same : u.queue ≡ updated.queue =
      elim (Bool-cases (count_where (is_named invoice key hash) t.queue == 1)) [
        | inl once ↦ reoffer-queue invoice now updated u b (rw once at h)
        | inr missed ↦ ap (λ p. p.0.queue) (sym (ok-inj (rw missed at h)))
      ] in
    subst (Each (Reoffered invoice key hash) t.queue) (sym same)
      (Reoffered-rows invoice key hash now t.queue)

-- Every call that succeeds moves the rows along the transition table and keeps their evidence,
-- except two: `enqueue` appends one pending row with the next sequence number, and a re-offer takes
-- back to `pending` a row that is rejected and has the invoice, the key and the hash it names.
pub run-RowsMove : (op : Operation) (t u : Tables) → run op t ≡ ok u → RowsMove op t u
unfolding run enqueue
run-RowsMove (Operation.enqueues item now) t u h =
    on_ok (refuse_if (violates item t.queue) Fault.constraint_failed) _ h
      λ v fresh fin. ap (λ w. w.queue) (sym (ok-inj fin))
run-RowsMove (Operation.transitions uuid next now) t u h = transition-Moved uuid next now t u h
run-RowsMove (Operation.claims owner now accept) t u h =
    let (c, done) = written-ok (claim_next_invoice_upload owner now accept t) u h in
    claim-Moved owner now accept t u c
      (claim_next_invoice_upload-IsClaim owner now accept t u c done)
run-RowsMove (Operation.reclaims owner now is_expired) t u h =
    let (ids, done) = written-ok (reclaim_expired_upload_leases owner now is_expired t) u h in
    moves (Owned owner t.invoices) SyncQueueState.uploading SyncQueueState.retryable_error refl
      t.queue u.queue (reclaim-Shifted owner now is_expired t u ids done).0
run-RowsMove (Operation.releases owner now) t u h =
    let (ids, done) = written-ok (release_due_retries owner now t) u h in
    moves (Owned owner t.invoices) SyncQueueState.retryable_error SyncQueueState.pending refl
      t.queue u.queue (release-Shifted owner now t u ids done).0
run-RowsMove (Operation.marks_synced uuid now) t u h = mark_upload_synced-Moved uuid now t u h
run-RowsMove (Operation.fails uuid state now failure) t u h =
    fail_upload-Moved uuid state now failure t u h
run-RowsMove (Operation.requeues invoice key hash now) t u h =
    let (b, done) = written-ok (requeue_rejected_upload invoice key hash now t) u h in
    requeue-Reoffered invoice key hash now t u b done
