-- ===== src/Stock/Ingest.antt =====
-- How the server's allocation envelopes enter the tables: the full snapshot of a bootstrap and the
-- grants of a top-up (src/main/repositories/stockAllocation.repository.ts). Each runs inside the
-- caller's transaction, so that a throw leaves the tables as they were.
use pos_desktop.Prelude.{
  ℕ, ◌+◌, max, Bool, true, false, not, ◌&&◌, ◌||◌, Option, none, some, List, [], ◌∷◌, map, find,
  any, ltb, leb, ◌==◌, if◌then◌else◌, Result, ok, ◌>>=◌, ◌>>◌, refuse_if,
}
use pos_desktop.Prelude.Number.{max_safe_integer}
use pos_desktop.Prelude.Text.{Text, text_eq}
use pos_desktop.Stock.{
  Grant, GrantStatus, active, revocation_pending, seal_acknowledged, released, consumed,
  legacy_sealed, legacy_expired,
}
use pos_desktop.Stock.Split.{or_default}
use pos_desktop.Stock.Tables.{
  ObservationSource, bootstrap, StoredGrant, AllocationCapability, ValidationMark, Tables, is_key,
  is_grant, find_grant_by_uuid, upsert,
}

-- `BootstrapStockAllocationGrant`; its status is one of the server's five.
pub record Envelope : Type 0 where
  pub allocation_uuid : Text
  pub contract_version : ℕ
  pub company_uuid : Text
  pub device_uuid : Text
  pub warehouse_uuid : Text
  pub product_uuid : Text
  pub server_sequence : ℕ
  pub rights_generation : ℕ
  pub lifecycle_generation : ℕ
  pub granted_quantity_milli : ℕ
  pub consumed_quantity_milli : ℕ
  pub remaining_quantity_milli : ℕ
  pub consume_until : ℕ
  pub status : GrantStatus
  pub envelope_hash : Text
  pub seal_nonce : Option Text
  pub final_consumption_sequence : Option ℕ
  pub final_consumption_hash : Option Text
  pub sealed_at : Option ℕ
  pub acknowledged_at : Option ℕ
  pub released_at : Option ℕ

-- The errors that the calls throw.
pub data Fault : Type 0 where
  older_revision duplicate_allocation conflicting_revision : Fault
  changed_identity rolled_back_lifecycle conflicting_envelope : Fault
  inconsistent_consumption regressed_consumption no_snapshot stale_recovery : Fault

unfoldable pub same_option {ℓ} : {A : Type ℓ} → (A → A → Bool) → Option A → Option A → Bool
same_option eq none none = true
same_option eq none (some b) = false
same_option eq (some a) none = false
same_option eq (some a) (some b) = eq a b

-- The place of a status in the list of them.
abbrev ordinal : GrantStatus → ℕ
ordinal active = 0
ordinal revocation_pending = 1
ordinal seal_acknowledged = 2
ordinal released = 3
ordinal consumed = 4
ordinal legacy_sealed = 5
ordinal legacy_expired = 6

unfoldable pub same_bootstrap_identity : Grant → Envelope → Bool
unfolding text_eq
same_bootstrap_identity existing incoming =
    text_eq existing.company_uuid incoming.company_uuid
    && text_eq existing.device_uuid incoming.device_uuid
    && text_eq existing.warehouse_uuid incoming.warehouse_uuid
    && text_eq existing.product_uuid incoming.product_uuid
    && existing.contract_version == incoming.contract_version
    && existing.server_sequence == incoming.server_sequence

unfoldable pub same_bootstrap_envelope : Grant → Envelope → Bool
unfolding same_bootstrap_identity same_option text_eq
same_bootstrap_envelope existing incoming =
    same_bootstrap_identity existing incoming
    && existing.rights_generation == incoming.rights_generation
    && existing.lifecycle_generation == incoming.lifecycle_generation
    && existing.granted_quantity_milli == incoming.granted_quantity_milli
    && existing.server_consumed_quantity_milli == incoming.consumed_quantity_milli
    && existing.server_remaining_quantity_milli == incoming.remaining_quantity_milli
    && existing.consume_until == incoming.consume_until
    && ordinal existing.status == ordinal incoming.status
    && text_eq existing.envelope_hash incoming.envelope_hash
    && same_option text_eq existing.seal_nonce incoming.seal_nonce
    && same_option (λ a b. a == b) existing.final_consumption_sequence
        incoming.final_consumption_sequence
    && same_option text_eq existing.final_consumption_hash incoming.final_consumption_hash
    && same_option (λ a b. a == b) existing.sealed_at incoming.sealed_at
    && same_option (λ a b. a == b) existing.acknowledged_at incoming.acknowledged_at
    && same_option (λ a b. a == b) existing.released_at incoming.released_at

unfoldable pub same_lifecycle_envelope : Grant → Envelope → Bool
unfolding same_bootstrap_envelope
same_lifecycle_envelope existing incoming = same_bootstrap_envelope existing (record incoming {
  consumed_quantity_milli = existing.server_consumed_quantity_milli;
  remaining_quantity_milli = existing.server_remaining_quantity_milli;
})

abbrev pub is_mark : Text → ℕ → ValidationMark → Bool
is_mark uuid generation m = is_key uuid generation m.allocation_uuid m.rights_generation

abbrev pub high_water : Option ValidationMark → Option ℕ
high_water none = none
high_water (some m) = some m.consumed_high_water_milli

unfoldable pub validation_mark : Tables → Text → ℕ → Option ℕ
unfolding text_eq
validation_mark t uuid generation = high_water (find (is_mark uuid generation) t.marks)

-- The least consumption that an envelope may carry.
unfoldable pub consumption_floor : Tables → Option StoredGrant → Envelope → ℕ
unfolding validation_mark
consumption_floor t existing incoming =
    let mark =
      or_default 0 (validation_mark t incoming.allocation_uuid incoming.rights_generation) in
    elim existing [
      | none ↦ mark
      | some row ↦
          if row.grant.rights_generation == incoming.rights_generation
          then max mark row.grant.server_consumed_quantity_milli
          else mark
    ]

unfoldable pub assert_consumption_advance :
    Tables → Option StoredGrant → Envelope → Result Fault (Unit {0})
unfolding consumption_floor
assert_consumption_advance t existing incoming = do
  refuse_if
      (not (leb incoming.consumed_quantity_milli max_safe_integer)
        || ltb incoming.granted_quantity_milli incoming.consumed_quantity_milli
        || not (
            incoming.consumed_quantity_milli + incoming.remaining_quantity_milli
            == incoming.granted_quantity_milli))
      inconsistent_consumption
  refuse_if (ltb incoming.consumed_quantity_milli (consumption_floor t existing incoming))
      regressed_consumption

-- The mark of an envelope, and an old mark that it raises.
unfoldable pub new_mark : Envelope → ℕ → ℕ → ValidationMark
new_mark e revision now = record {
  allocation_uuid = e.allocation_uuid;
  rights_generation = e.rights_generation;
  consumed_high_water_milli = e.consumed_quantity_milli;
  observed_revision = revision;
  updated_at = now;
}

abbrev pub raised_mark : Envelope → ℕ → ℕ → ValidationMark → ValidationMark
raised_mark e revision now old = record old {
  consumed_high_water_milli = max old.consumed_high_water_milli e.consumed_quantity_milli;
  observed_revision = max old.observed_revision revision;
  updated_at = now;
}

unfoldable pub raise_validation_mark : Tables → Envelope → ℕ → ℕ → Tables
unfolding upsert new_mark text_eq
raise_validation_mark t e revision now = record t {
  marks =
      upsert (is_mark e.allocation_uuid e.rights_generation) (new_mark e revision now)
        (raised_mark e revision now) t.marks;
}

unfoldable pub new_grant : Envelope → ℕ → ℕ → Grant
new_grant e revision now = record {
  allocation_uuid = e.allocation_uuid;
  contract_version = e.contract_version;
  company_uuid = e.company_uuid;
  device_uuid = e.device_uuid;
  warehouse_uuid = e.warehouse_uuid;
  product_uuid = e.product_uuid;
  server_sequence = e.server_sequence;
  rights_generation = e.rights_generation;
  lifecycle_generation = e.lifecycle_generation;
  granted_quantity_milli = e.granted_quantity_milli;
  server_consumed_quantity_milli = e.consumed_quantity_milli;
  server_remaining_quantity_milli = e.remaining_quantity_milli;
  consume_until = e.consume_until;
  status = e.status;
  envelope_hash = e.envelope_hash;
  seal_nonce = e.seal_nonce;
  final_consumption_sequence = e.final_consumption_sequence;
  final_consumption_hash = e.final_consumption_hash;
  received_at = now;
  sealed_at = e.sealed_at;
  acknowledged_at = e.acknowledged_at;
  released_at = e.released_at;
  last_observed_revision = some revision;
  updated_at = now;
}

-- An existing row keeps the columns that the update does not name.
unfoldable pub updated_grant : Envelope → ℕ → ℕ → Grant → Grant
unfolding new_grant
updated_grant e revision now old = record (new_grant e revision now) {
  allocation_uuid = old.allocation_uuid;
  contract_version = old.contract_version;
  company_uuid = old.company_uuid;
  device_uuid = old.device_uuid;
  warehouse_uuid = old.warehouse_uuid;
  product_uuid = old.product_uuid;
  server_sequence = old.server_sequence;
}

unfoldable pub write_bootstrap_grant : Tables → Envelope → ℕ → ℕ → ObservationSource → Tables
unfolding upsert new_grant updated_grant text_eq
write_bootstrap_grant t e revision now source = record t {
  grants =
      upsert (is_grant e.allocation_uuid)
        (record { grant = new_grant e revision now; observation_source = source })
        (λ old. record {
          grant = updated_grant e revision now old.grant;
          observation_source = source;
        })
        t.grants;
}

-- `upsertGrant` with a context. It checks nothing, and its only caller is the loop over a snapshot.
unfoldable pub upsert_bootstrap_grant : Tables → Envelope → ℕ → ℕ → Tables
unfolding write_bootstrap_grant
upsert_bootstrap_grant t e revision now = write_bootstrap_grant t e revision now bootstrap

abbrev pub write_capability : Tables → ℕ → ℕ → Bool → Tables
write_capability t revision now reconciled = record t {
  capability = some (record {
    supported = true;
    revision = some revision;
    observed_at = now;
    reconciled = reconciled;
  });
}

unfoldable pub mark_capability_unavailable : Tables → ℕ → Tables
mark_capability_unavailable t now = record t {
  capability =
      some (record { supported = false; revision = none; observed_at = now; reconciled = false });
}

unfoldable pub set_observation_source : Tables → Text → ObservationSource → Tables
unfolding text_eq
set_observation_source t uuid source = record t {
  grants =
      map
        (λ (row : StoredGrant).
          if is_grant uuid row then record row { observation_source = source } else row)
        t.grants;
}

-- The `Set` of the identities met, in a loop that throws on the second of one.
unfoldable pub has_duplicate : List Text → List Envelope → Bool
unfolding text_eq
has_duplicate met [] = false
has_duplicate met (e ∷ es) =
    let rest = has_duplicate (e.allocation_uuid ∷ met) es in
    any (text_eq e.allocation_uuid) met || rest

-- The revision of a snapshot that is in force.
abbrev pub active_revision : Option AllocationCapability → Option ℕ
active_revision none = none
active_revision (some c) = if c.supported then c.revision else none

-- A stored grant keeps its identity, and its lifecycle does not go back.
unfoldable pub check_identity : Option StoredGrant → Envelope → Result Fault (Unit {0})
unfolding same_bootstrap_identity
check_identity none e = ok tt
check_identity (some row) e = do
  refuse_if (not (same_bootstrap_identity row.grant e)) changed_identity
  refuse_if (ltb e.lifecycle_generation row.grant.lifecycle_generation) rolled_back_lifecycle

-- One grant of a new snapshot.
unfoldable pub install_grant : Tables → Envelope → ℕ → ℕ → Result Fault Tables
unfolding find_grant_by_uuid check_identity assert_consumption_advance upsert_bootstrap_grant
    raise_validation_mark
install_grant t e revision now =
    let existing = find_grant_by_uuid t e.allocation_uuid in
    do
      check_identity existing e
      assert_consumption_advance t existing e
      ok (raise_validation_mark (upsert_bootstrap_grant t e revision now) e revision now)

unfoldable pub install_grants : Tables → List Envelope → ℕ → ℕ → Result Fault Tables
unfolding install_grant
install_grants t [] revision now = ok t
install_grants t (e ∷ es) revision now =
    install_grant t e revision now >>= λ (next : Tables). install_grants next es revision now
