-- ===== src/Stock/Snapshots.antt =====
-- The two calls that take the server's allocation envelopes, the full snapshot of a bootstrap and the
-- grants of a top-up, and a history of the repository's calls
-- (src/main/repositories/stockAllocation.repository.ts).
use pos_desktop.Prelude.{
  ℕ, Bool, true, false, not, ◌&&◌, ◌||◌, Option, none, some, List, [], ◌∷◌, filter, find, any,
  every, ltb, ◌==◌, if◌then◌else◌, Result, ok, err, ◌>>=◌, ◌>>◌, refuse_if,
}
use pos_desktop.Prelude.Text.{Text, text_eq}
use pos_desktop.Stock.Tables.{
  ObservationSource, bootstrap, incremental, StoredGrant, Tables, is_grant, find_grant_by_uuid,
  CoverageBoundary, TerminalMarker, Hold, write_coverage_boundary, write_terminal_marker,
  record_hold, clear_hold,
}
use pos_desktop.Stock.Spendable.{NewConsumption, insert_consumption}
use pos_desktop.Stock.Lifecycle.{
  RecoveryObservation, NewGrant, observe_recovery_lifecycle, upsert_grant,
}
use pos_desktop.Stock.Ingest.{
  Envelope, Fault, older_revision, duplicate_allocation, conflicting_revision, changed_identity,
  rolled_back_lifecycle, conflicting_envelope, no_snapshot, mark_capability_unavailable,
  same_bootstrap_identity, same_lifecycle_envelope, assert_consumption_advance,
  raise_validation_mark, write_bootstrap_grant, write_capability, set_observation_source,
  has_duplicate, active_revision, install_grants,
}

-- `grantsObservedAt(revision)`
abbrev is_observed_at : ℕ → Option ℕ → Bool
is_observed_at revision none = false
is_observed_at revision (some observed) = observed == revision

unfoldable pub grants_observed_at : Tables → ℕ → List StoredGrant
grants_observed_at t revision =
    filter (λ (row : StoredGrant). is_observed_at revision row.grant.last_observed_revision)
      t.grants

abbrev is_incremental : ObservationSource → Bool
is_incremental bootstrap = false
is_incremental incremental = true

-- At an equal revision, each envelope is that of a grant observed then, but for its consumption.
unfoldable pub check_envelopes : Tables → List StoredGrant → List Envelope → Result Fault (Unit {0})
unfolding same_lifecycle_envelope assert_consumption_advance text_eq
check_envelopes t current [] = ok tt
check_envelopes t current (e ∷ es) =
    (elim (find (is_grant e.allocation_uuid) current) [
      | none ↦ err conflicting_revision
      | some row ↦
          refuse_if (not (same_lifecycle_envelope row.grant e)) conflicting_revision
          >> assert_consumption_advance t (some row) e
    ])
    >> check_envelopes t current es

-- A grant that the snapshot omits came with a top-up.
unfoldable pub may_be_omitted : List Envelope → StoredGrant → Bool
unfolding text_eq
may_be_omitted es row =
    any (λ (e : Envelope). text_eq e.allocation_uuid row.grant.allocation_uuid) es
    || is_incremental row.observation_source

-- The marks and the sources of an equal snapshot.
unfoldable pub confirm_grants : Tables → List Envelope → ℕ → ℕ → Tables
unfolding raise_validation_mark set_observation_source
confirm_grants t [] revision now = t
confirm_grants t (e ∷ es) revision now =
    confirm_grants
      (set_observation_source (raise_validation_mark t e revision now) e.allocation_uuid bootstrap)
      es revision now

-- `revision < capability.revision`
abbrev pub is_older : Option ℕ → ℕ → Bool
is_older none revision = false
is_older (some current) revision = ltb revision current

-- `capability.revision === revision`
abbrev pub is_same : Option ℕ → ℕ → Bool
is_same none revision = false
is_same (some current) revision = current == revision

-- An equal snapshot.
unfoldable pub confirm_snapshot : Tables → ℕ → List Envelope → ℕ → Bool → Result Fault Tables
unfolding grants_observed_at check_envelopes may_be_omitted confirm_grants
confirm_snapshot t revision es now reconciled =
    let current = grants_observed_at t revision in
    do
      check_envelopes t current es
      refuse_if (not (every (may_be_omitted es) current)) conflicting_revision
      ok (write_capability (confirm_grants t es revision now) revision now reconciled)

-- A new snapshot.
unfoldable pub install_snapshot : Tables → ℕ → List Envelope → ℕ → Bool → Result Fault Tables
unfolding install_grants
install_snapshot t revision es now reconciled =
    install_grants t es revision now >>= λ (next : Tables).
    ok (write_capability next revision now reconciled)

unfoldable pub ingest_bootstrap_snapshot :
    Tables → ℕ → List Envelope → ℕ → Bool → Result Fault Tables
unfolding has_duplicate confirm_snapshot install_snapshot
ingest_bootstrap_snapshot t revision es now reconciled = do
  refuse_if (is_older (active_revision t.capability) revision) older_revision
  refuse_if (has_duplicate [] es) duplicate_allocation
  if is_same (active_revision t.capability) revision
      then confirm_snapshot t revision es now reconciled
      else install_snapshot t revision es now reconciled

-- A grant of a top-up that is stored.
unfoldable pub replay_grant : Tables → StoredGrant → Envelope → ℕ → ℕ → Result Fault Tables
unfolding same_bootstrap_identity same_lifecycle_envelope assert_consumption_advance
    raise_validation_mark
replay_grant t row e revision now = do
  refuse_if (not (same_bootstrap_identity row.grant e)) changed_identity
  refuse_if (ltb e.lifecycle_generation row.grant.lifecycle_generation) rolled_back_lifecycle
  refuse_if
      (e.lifecycle_generation == row.grant.lifecycle_generation
        && not (same_lifecycle_envelope row.grant e))
      conflicting_envelope
  assert_consumption_advance t (some row) e
  ok (raise_validation_mark t e revision now)

-- A grant of a top-up that is not.
unfoldable pub add_grant : Tables → Envelope → ℕ → ℕ → Result Fault Tables
unfolding assert_consumption_advance raise_validation_mark write_bootstrap_grant
add_grant t e revision now = do
  assert_consumption_advance t none e
  ok (raise_validation_mark (write_bootstrap_grant t e revision now incremental) e revision now)

unfoldable pub top_up_grant : Tables → Envelope → ℕ → ℕ → Result Fault Tables
unfolding find_grant_by_uuid replay_grant add_grant
top_up_grant t e revision now = elim (find_grant_by_uuid t e.allocation_uuid) [
  | none ↦ add_grant t e revision now
  | some row ↦ replay_grant t row e revision now
]

unfoldable pub top_up_grants : Tables → List Envelope → ℕ → ℕ → Result Fault Tables
unfolding top_up_grant
top_up_grants t [] revision now = ok t
top_up_grants t (e ∷ es) revision now =
    top_up_grant t e revision now >>= λ (next : Tables). top_up_grants next es revision now

unfoldable pub ingest_top_up_grants : Tables → List Envelope → ℕ → Result Fault Tables
unfolding has_duplicate top_up_grants
ingest_top_up_grants t es now = elim (active_revision t.capability) [
  | none ↦ err no_snapshot
  | some revision ↦
      refuse_if (has_duplicate [] es) duplicate_allocation >> top_up_grants t es revision now
]

-- The calls of the repository that its clients make to write; one that throws leaves the tables.
-- `upsertGrant` with a context, which no client calls, is a step of a snapshot.
pub data Call : Type 0 where
  snapshot : ℕ → List Envelope → ℕ → Bool → Call
  top_up : List Envelope → ℕ → Call
  unavailable : ℕ → Call
  recovery_observed : RecoveryObservation → Call
  grant_created : NewGrant → Call
  consumption_inserted : NewConsumption → Call
  boundary_written : CoverageBoundary → Call
  marker_written : TerminalMarker → Call
  hold_recorded : Hold → Call
  hold_cleared : Text → ℕ → Call

abbrev pub kept : Tables → Result Fault Tables → Tables
kept t (ok next) = next
kept t (err fault) = t

abbrev pub kept_or : Tables → Option Tables → Tables
kept_or t (some next) = next
kept_or t none = t

unfoldable pub receive : Tables → Call → Tables
unfolding ingest_bootstrap_snapshot ingest_top_up_grants mark_capability_unavailable
    observe_recovery_lifecycle upsert_grant insert_consumption write_coverage_boundary
    write_terminal_marker record_hold clear_hold
receive t (snapshot revision es now reconciled) =
    kept t (ingest_bootstrap_snapshot t revision es now reconciled)
receive t (top_up es now) = kept t (ingest_top_up_grants t es now)
receive t (unavailable now) = mark_capability_unavailable t now
receive t (recovery_observed o) = kept t (observe_recovery_lifecycle t o)
receive t (grant_created g) = upsert_grant t g
receive t (consumption_inserted c) = kept_or t (insert_consumption t c)
receive t (boundary_written b) = write_coverage_boundary t b
receive t (marker_written m) = write_terminal_marker t m
receive t (hold_recorded h) = record_hold t h
receive t (hold_cleared uuid generation) = clear_hold t uuid generation

unfoldable pub receive_all : Tables → List Call → Tables
unfolding receive
receive_all t [] = t
receive_all t (call ∷ calls) = receive_all (receive t call) calls
