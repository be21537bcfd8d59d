-- ===== src/Stock/Advances.antt =====
-- What an accepted snapshot or top-up does to the tables: no grant is lost or changes its identity,
-- and neither a lifecycle nor a consumption goes back
-- (src/main/repositories/stockAllocation.repository.ts).
use pos_desktop.Prelude.{
  ℕ, ◌≡◌, refl, subst, Bool, not, ◌&&◌, none, some, List, [], ◌∷◌, every, ltb, ◌==◌, Option, Result,
  ok, err, refuse_if, arith, on_ok, ok-inj, if_cases, option_cases,
}
use pos_desktop.Prelude.Text.{Text}
use pos_desktop.Stock.Tables.{
  ObservationSource, bootstrap, incremental, StoredGrant, Tables, is_grant, find_grant_by_uuid,
}
use pos_desktop.Stock.Ingest.{
  Envelope, Fault, mark_capability_unavailable, older_revision, duplicate_allocation,
  conflicting_revision, rolled_back_lifecycle, conflicting_envelope, has_duplicate, active_revision,
  same_lifecycle_envelope, changed_identity, same_bootstrap_identity, validation_mark,
  assert_consumption_advance, raise_validation_mark, write_capability, set_observation_source,
  install_grants,
}
use pos_desktop.Stock.Tables.{
  CoverageBoundary, TerminalMarker, Hold, write_coverage_boundary, write_terminal_marker,
  record_hold, clear_hold,
}
use pos_desktop.Stock.Spendable.{NewConsumption, insert_consumption}
use pos_desktop.Stock.Balances.{insert_consumption-some}
use pos_desktop.Stock.Updating.{
  update_rows-Accepted, observe_recovery_lifecycle-Accepted, upsert_grant-Accepted,
}
use pos_desktop.Stock.Snapshots.{
  Call, snapshot, top_up, unavailable, recovery_observed, grant_created, consumption_inserted,
  boundary_written, marker_written, hold_recorded, hold_cleared, kept, kept_or, receive,
  receive_all, is_older, is_same, may_be_omitted, grants_observed_at, check_envelopes,
  confirm_grants, confirm_snapshot, install_snapshot, ingest_bootstrap_snapshot, replay_grant,
  add_grant, top_up_grant, top_up_grants, ingest_top_up_grants,
}
use pos_desktop.Stock.Marks.{
  Later-refl, Grows-refl, accepted_mark, Advances-refl, IsMarked, accepted_mark-raise,
  raise-Advances, IsMarked-le, accepted_mark-written, written-IsMarked,
}
use pos_desktop.Stock.Accepting.{
  assert_consumption_advance-le, Accepted, Accepted-trans, written-Grows, install_grants-Accepted,
}

-- The capability is not read by the marks or the rows.
with_capability :
    (t t' : Tables) (revision now : ℕ) (reconciled : Bool)
    → Accepted t t'
    → Accepted t (write_capability t' revision now reconciled)
unfolding accepted_mark validation_mark
with_capability t t' revision now reconciled (a, m) =
    (record { grows = a.grows; accepted = a.accepted }, m)

raise-IsMarked :
    (t : Tables) (e : Envelope) (revision now : ℕ)
    → IsMarked t
    → IsMarked (raise_validation_mark t e revision now)
unfolding raise_validation_mark
raise-IsMarked t e revision now marked =
    IsMarked-le t (raise_validation_mark t e revision now) t.grants
      (accepted_mark-raise t e revision now) marked

raise-Accepted :
    (t : Tables) (e : Envelope) (revision now : ℕ)
    → IsMarked t
    → Accepted t (raise_validation_mark t e revision now)
raise-Accepted t e revision now marked =
    (raise-Advances t e revision now, raise-IsMarked t e revision now marked)

source-Accepted :
    (t : Tables) (uuid : Text) (source : ObservationSource)
    → IsMarked t
    → Accepted t (set_observation_source t uuid source)
unfolding set_observation_source
source-Accepted t uuid source marked =
    update_rows-Accepted t (is_grant uuid) (λ row. record row { observation_source = source })
      (λ row mine. Later-refl t row) (λ row k. k) marked

confirm_grants-Accepted :
    (es : List Envelope) (t : Tables) (revision now : ℕ)
    → IsMarked t
    → Accepted t (confirm_grants t es revision now)
unfolding confirm_grants
confirm_grants-Accepted [] t revision now marked = (Advances-refl t, marked)
confirm_grants-Accepted (e ∷ es) t revision now marked =
    let raised = raise_validation_mark t e revision now in
    let sourced = set_observation_source raised e.allocation_uuid bootstrap in
    Accepted-trans t raised (confirm_grants sourced es revision now)
      (raise-Accepted t e revision now marked)
      λ m.
        Accepted-trans raised sourced (confirm_grants sourced es revision now)
          (source-Accepted raised e.allocation_uuid bootstrap m)
          λ n. confirm_grants-Accepted es sourced revision now n

ingest_bootstrap_snapshot-Accepted :
    (t t' : Tables) (revision : ℕ) (es : List Envelope) (now : ℕ) (reconciled : Bool)
    → ingest_bootstrap_snapshot t revision es now reconciled ≡ ok t'
    → IsMarked t
    → Accepted t t'
unfolding ingest_bootstrap_snapshot confirm_snapshot install_snapshot
ingest_bootstrap_snapshot-Accepted t t' revision es now reconciled h marked =
    on_ok (refuse_if (is_older (active_revision t.capability) revision) older_revision) _ h
      λ u1 e1 h1. on_ok (refuse_if (has_duplicate [] es) duplicate_allocation) _ h1 λ u2 e2 h2.
        if_cases (λ r. r ≡ ok t' → Accepted t t') (is_same (active_revision t.capability) revision)
          (λ equal h3. on_ok (check_envelopes t (grants_observed_at t revision) es) _ h3 λ u4 e4 h4.
            on_ok
              (refuse_if (not (every (may_be_omitted es) (grants_observed_at t revision)))
                conflicting_revision)
              _ h4
              λ u5 e5 h5. subst (Accepted t) (ok-inj h5) (
                with_capability t (confirm_grants t es revision now) revision now reconciled
                  (confirm_grants-Accepted es t revision now marked)))
          (λ newer h3. on_ok (install_grants t es revision now) _ h3 λ next e4 h4.
            subst (Accepted t) (ok-inj h4) (
              with_capability t next revision now reconciled
                (install_grants-Accepted t next es revision now e4 marked)))
          h2

add_grant-Accepted :
    (t t' : Tables) (e : Envelope) (revision now : ℕ)
    → find_grant_by_uuid t e.allocation_uuid ≡ none
    → add_grant t e revision now ≡ ok t'
    → IsMarked t
    → Accepted t t'
unfolding add_grant
add_grant-Accepted t t' e revision now absent h marked =
    on_ok (assert_consumption_advance t none e) _ h λ u1 e1 h1. subst (Accepted t) (ok-inj h1) (
      record {
        grows =
            written-Grows t e revision now incremental (λ row found. absurd (cc (absent, found)))
              (assert_consumption_advance-le t none e e1);
        accepted = accepted_mark-written t e revision now incremental;
      },
      written-IsMarked t e revision now incremental marked,
    )

replay_grant-Accepted :
    (t t' : Tables) (row : StoredGrant) (e : Envelope) (revision now : ℕ)
    → replay_grant t row e revision now ≡ ok t'
    → IsMarked t
    → Accepted t t'
unfolding replay_grant
replay_grant-Accepted t t' row e revision now h marked =
    on_ok (refuse_if (not (same_bootstrap_identity row.grant e)) changed_identity) _ h λ u1 e1 h1.
      on_ok
        (refuse_if (ltb e.lifecycle_generation row.grant.lifecycle_generation)
          rolled_back_lifecycle)
        _ h1
        λ u2 e2 h2.
          on_ok
            (refuse_if
              (e.lifecycle_generation == row.grant.lifecycle_generation
                && not (same_lifecycle_envelope row.grant e))
              conflicting_envelope)
            _ h2
            λ u3 e3 h3.
              on_ok (assert_consumption_advance t (some row) e) _ h3
                λ u4 e4 h4. subst (Accepted t) (ok-inj h4) (raise-Accepted t e revision now marked)

top_up_grant-Accepted :
    (t t' : Tables) (e : Envelope) (revision now : ℕ)
    → top_up_grant t e revision now ≡ ok t'
    → IsMarked t
    → Accepted t t'
unfolding top_up_grant
top_up_grant-Accepted t t' e revision now =
    option_cases (λ r. r ≡ ok t' → IsMarked t → Accepted t t')
      (find_grant_by_uuid t e.allocation_uuid)
      (λ absent h marked. add_grant-Accepted t t' e revision now absent h marked)
      λ (row : StoredGrant) found h marked. replay_grant-Accepted t t' row e revision now h marked

top_up_grants-Accepted :
    (es : List Envelope) (t t' : Tables) (revision now : ℕ)
    → top_up_grants t es revision now ≡ ok t'
    → IsMarked t
    → Accepted t t'
unfolding top_up_grants
top_up_grants-Accepted [] t t' revision now h marked =
    subst (Accepted t) (ok-inj h) (Advances-refl t, marked)
top_up_grants-Accepted (e ∷ es) t t' revision now h marked =
    on_ok (top_up_grant t e revision now) _ h λ next first rest.
      Accepted-trans t next t' (top_up_grant-Accepted t next e revision now first marked)
        λ m. top_up_grants-Accepted es next t' revision now rest m

ingest_top_up_grants-Accepted :
    (t t' : Tables) (es : List Envelope) (now : ℕ)
    → ingest_top_up_grants t es now ≡ ok t'
    → IsMarked t
    → Accepted t t'
unfolding ingest_top_up_grants
ingest_top_up_grants-Accepted t t' es now =
    option_cases (λ r. r ≡ ok t' → IsMarked t → Accepted t t') (active_revision t.capability)
      (λ absent h. cc)
      λ (revision : ℕ) found h marked.
        on_ok (refuse_if (has_duplicate [] es) duplicate_allocation) _ h
          λ u1 e1 h1. top_up_grants-Accepted es t t' revision now h1 marked

kept-Accepted :
    (t : Tables) (r : Result Fault Tables)
    → ((t' : Tables) → r ≡ ok t' → Accepted t t')
    → IsMarked t
    → Accepted t (kept t r)
kept-Accepted t (ok next) h marked = h next refl
kept-Accepted t (err fault) h marked = (Advances-refl t, marked)

kept_or-Accepted :
    (t : Tables) (r : Option Tables)
    → ((t' : Tables) → r ≡ some t' → Accepted t t')
    → IsMarked t
    → Accepted t (kept_or t r)
kept_or-Accepted t (some next) h marked = h next refl
kept_or-Accepted t none h marked = (Advances-refl t, marked)

-- A consumption adds to the journal alone.
insert_consumption-Accepted :
    (t t' : Tables) (c : NewConsumption)
    → insert_consumption t c ≡ some t'
    → IsMarked t
    → Accepted t t'
unfolding accepted_mark validation_mark
insert_consumption-Accepted t t' c h marked =
    subst (Accepted t) (insert_consumption-some t t' c h)
      (record { grows = Grows-refl t t.grants; accepted = λ u generation. omega arith }, marked)

-- The boundaries, the markers and the holds are no grants.
aside :
    (t : Tables) (boundaries : List CoverageBoundary) (markers : List TerminalMarker)
    (holds : List Hold)
    → IsMarked t
    → Accepted t (record t { boundaries = boundaries; markers = markers; holds = holds })
unfolding accepted_mark validation_mark
aside t boundaries markers holds marked =
    (record { grows = Grows-refl t t.grants; accepted = λ u generation. omega arith }, marked)

receive-Accepted : (t : Tables) (call : Call) → IsMarked t → Accepted t (receive t call)
unfolding receive mark_capability_unavailable accepted_mark validation_mark write_coverage_boundary
    write_terminal_marker record_hold clear_hold
receive-Accepted t (snapshot revision es now reconciled) marked =
    kept-Accepted t _
      (λ t' h. ingest_bootstrap_snapshot-Accepted t t' revision es now reconciled h marked) marked
receive-Accepted t (top_up es now) marked =
    kept-Accepted t _ (λ t' h. ingest_top_up_grants-Accepted t t' es now h marked) marked
receive-Accepted t (unavailable now) marked =
    (record { grows = Grows-refl t t.grants; accepted = λ u generation. omega arith }, marked)
receive-Accepted t (recovery_observed o) marked =
    kept-Accepted t _ (λ t' h. observe_recovery_lifecycle-Accepted t t' o h marked) marked
receive-Accepted t (grant_created g) marked = upsert_grant-Accepted t g marked
receive-Accepted t (consumption_inserted c) marked =
    kept_or-Accepted t _ (λ t' h. insert_consumption-Accepted t t' c h marked) marked
receive-Accepted t (boundary_written b) marked = aside t _ t.markers t.holds marked
receive-Accepted t (marker_written m) marked = aside t t.boundaries _ t.holds marked
receive-Accepted t (hold_recorded h) marked = aside t t.boundaries t.markers _ marked
receive-Accepted t (hold_cleared uuid generation) marked = aside t t.boundaries t.markers _ marked

-- Through any calls that the clients of the repository make to write, refused ones included
-- (`upsertGrant` with a context is called inside a snapshot only), from tables whose stored
-- consumptions are marked: no grant is lost, moved or given another identity, no lifecycle goes back, a
-- grant keeps its rights generation and the server's consumption, or has a consumption no less than
-- what had been accepted for the generation it then has, the consumption accepted for a rights
-- generation never falls, and the stored consumptions stay marked.
pub receive_all-Accepted :
    (t : Tables) (calls : List Call) → IsMarked t → Accepted t (receive_all t calls)
unfolding receive_all
receive_all-Accepted t [] marked = (Advances-refl t, marked)
receive_all-Accepted t (call ∷ calls) marked =
    Accepted-trans t (receive t call) (receive_all t (call ∷ calls))
      (receive-Accepted t call marked) λ m. receive_all-Accepted (receive t call) calls m
