-- ===== src/Sync/Queue/History.antt =====
-- What survives every history of the queue (src/main/repositories/syncQueue.repository.ts).
use pos_desktop.Prelude.{
  ◌+◌, ◌≡◌, refl, sym, ◌∙◌, subst, inl, inr, Bool, true, ◌||◌, List, [], ◌∷◌, ◌++◌, Result, err, ok,
  arith, Each, Each-map, Each-refl,
}
use pos_desktop.Prelude.Text.{Text}
use pos_desktop.Sync.States.{SyncQueueState, state_eq, is_transition_allowed}
use pos_desktop.Sync.Queue.{QueueItem, Tables, Fault, highest, new_row}
use pos_desktop.Sync.Queue.Moves.{SameEvidence, unchanged, Moved}
use pos_desktop.Sync.Queue.Steps.{
  Operation, run, after_run, run_all, Reoffered, RowsMove, run-RowsMove,
}

-- `synced` and `conflict`, which nothing leaves.
abbrev pub is_final : SyncQueueState → Bool
is_final state = state_eq state SyncQueueState.synced || state_eq state SyncQueueState.conflict

-- A row later: the same evidence, and the same in every column if it was final.
abbrev pub Kept : QueueItem → QueueItem → Type 0
Kept a b = SameEvidence a b × (is_final a.state ≡ true → b ≡ a)

-- The rows of a table are, in order, the first rows of a later one.
abbrev pub Persist : List QueueItem → List QueueItem → Type 0
Persist [] ys = Unit
Persist (x ∷ xs) [] = ⊥
Persist (x ∷ xs) (y ∷ ys) = Kept x y × Persist xs ys

SameEvidence-trans : (a b c : QueueItem) → SameEvidence a b → SameEvidence b c → SameEvidence a c
SameEvidence-trans a b c (p1, p2, p3, p4, p5, p6, p7, p8, p9) (q1, q2, q3, q4, q5, q6, q7, q8, q9) =
    (q1 ∙ p1, q2 ∙ p2, q3 ∙ p3, q4 ∙ p4, q5 ∙ p5, q6 ∙ p6, q7 ∙ p7, q8 ∙ p8, q9 ∙ p9)

Kept-refl : (a : QueueItem) → Kept a a
Kept-refl a = (unchanged a, λ e. refl)

Kept-trans : (a b c : QueueItem) → Kept a b → Kept b c → Kept a c
Kept-trans a b c (same, still) (again, settled) = (
  SameEvidence-trans a b c same again,
  λ e. settled (subst (λ x. is_final x.state ≡ true) (sym (still e)) e) ∙ still e,
)

same-Kept : (a b : QueueItem) → b ≡ a → Kept a b
same-Kept a b same = subst (Kept a) (sym same) (Kept-refl a)

leaves_final : (s t : SyncQueueState) → is_transition_allowed s t ≡ true → is_final s ≡ true → ⊥
leaves_final s t allowed final = ground arith

Moved-Kept : (a b : QueueItem) → Moved a b → Kept a b
Moved-Kept a b (inl same) = same-Kept a b same
Moved-Kept a b (inr (allowed, same)) = (same, λ e. absurd (leaves_final a.state b.state allowed e))

Reoffered-Kept :
    (invoice key hash : Text) (a b : QueueItem) → Reoffered invoice key hash a b → Kept a b
Reoffered-Kept invoice key hash a b (inl same) = same-Kept a b same
Reoffered-Kept invoice key hash a b (inr (named, start, stop, same)) =
    (same, λ e. absurd (cc (subst (λ s. is_final s ≡ true) start e)))

Each-Persist : (xs ys : List QueueItem) → Each Kept xs ys → Persist xs ys
Each-Persist [] ys h = tt
Each-Persist (x ∷ xs) [] h = absurd h
Each-Persist (x ∷ xs) (y ∷ ys) (h, hs) = (h, Each-Persist xs ys hs)

Persist-append : (xs ys : List QueueItem) → Persist xs (xs ++ ys)
Persist-append [] ys = tt
Persist-append (x ∷ xs) ys = (Kept-refl x, Persist-append xs ys)

Persist-trans : (xs ys zs : List QueueItem) → Persist xs ys → Persist ys zs → Persist xs zs
Persist-trans [] ys zs h k = tt
Persist-trans (x ∷ xs) [] zs h k = absurd h
Persist-trans (x ∷ xs) (y ∷ ys) [] h k = absurd k
Persist-trans (x ∷ xs) (y ∷ ys) (z ∷ zs) (h, hs) (k, ks) =
    (Kept-trans x y z h k, Persist-trans xs ys zs hs ks)

Moved-rows : (xs ys : List QueueItem) → Each Moved xs ys → Persist xs ys
Moved-rows xs ys h = Each-Persist xs ys (Each-map Moved Kept Moved-Kept xs ys h)

RowsMove-Persist : (op : Operation) (t u : Tables) → RowsMove op t u → Persist t.queue u.queue
RowsMove-Persist (Operation.enqueues item now) t u h =
    subst (Persist t.queue) (sym h)
      (Persist-append t.queue (new_row item (highest t.queue + 1) now ∷ []))
RowsMove-Persist (Operation.requeues invoice key hash now) t u h =
    Each-Persist t.queue u.queue (
      Each-map (Reoffered invoice key hash) Kept (Reoffered-Kept invoice key hash) t.queue u.queue
        h)
RowsMove-Persist (Operation.transitions uuid next now) t u h = Moved-rows t.queue u.queue h
RowsMove-Persist (Operation.claims owner now accept) t u h = Moved-rows t.queue u.queue h
RowsMove-Persist (Operation.reclaims owner now is_expired) t u h = Moved-rows t.queue u.queue h
RowsMove-Persist (Operation.releases owner now) t u h = Moved-rows t.queue u.queue h
RowsMove-Persist (Operation.marks_synced uuid now) t u h = Moved-rows t.queue u.queue h
RowsMove-Persist (Operation.fails uuid state now failure) t u h = Moved-rows t.queue u.queue h

after_run-Persist :
    (op : Operation) (t : Tables) (r : Result Fault Tables)
    → run op t ≡ r
    → Persist t.queue (after_run t r).queue
after_run-Persist op t (err fault) h =
    Each-Persist t.queue t.queue (Each-refl Kept Kept-refl t.queue)
after_run-Persist op t (ok u) h = RowsMove-Persist op t u (run-RowsMove op t u h)

-- Through any sequence of calls, failed ones included, no row is lost or moved, each keeps its
-- identity, its payload, its hash, its idempotency key and its place in the sequence, and a row that
-- is synced or in conflict never changes again.
pub run_all-Persist : (ops : List Operation) (t : Tables) → Persist t.queue (run_all ops t).queue
unfolding run_all
run_all-Persist [] t = Each-Persist t.queue t.queue (Each-refl Kept Kept-refl t.queue)
run_all-Persist (op ∷ ops) t =
    Persist-trans t.queue (after_run t (run op t)).queue
      (run_all ops (after_run t (run op t))).queue (after_run-Persist op t (run op t) refl)
      (run_all-Persist ops (after_run t (run op t)))
