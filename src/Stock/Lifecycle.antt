-- ===== src/Stock/Lifecycle.antt =====
-- The rows that a recovery's answer and a local setup write
-- (src/main/repositories/stockAllocation.repository.ts).
use pos_desktop.Prelude.{
  ℕ, Bool, not, ◌&&◌, Option, none, some, List, [], ◌∷◌, ◌++◌, map, filter, length, leb, ◌==◌,
  if◌then◌else◌, Result, ok, ◌>>◌, refuse_if,
}
use pos_desktop.Prelude.Text.{Text, text_eq}
use pos_desktop.Stock.{Grant, GrantStatus, active}
use pos_desktop.Stock.Tables.{bootstrap, StoredGrant, Tables, is_grant, find_grant_by_uuid}
use pos_desktop.Stock.Ingest.{Fault, stale_recovery, active_revision}

-- The argument of `observeRecoveryLifecycle`; its status is not `active`.
pub record RecoveryObservation : Type 0 where
  pub allocation_uuid : Text
  pub rights_generation : ℕ
  pub lifecycle_generation : ℕ
  pub status : GrantStatus
  pub seal_nonce : Option Text
  pub final_consumption_sequence : Option ℕ
  pub final_consumption_hash : Option Text
  pub sealed_at : Option ℕ
  pub acknowledged_at : Option ℕ
  pub released_at : Option ℕ
  pub updated_at : ℕ

-- The `WHERE` of the update.
unfoldable pub is_observed : RecoveryObservation → StoredGrant → Bool
unfolding text_eq
is_observed o row =
    is_grant o.allocation_uuid row
    && row.grant.rights_generation == o.rights_generation
    && leb row.grant.lifecycle_generation o.lifecycle_generation

unfoldable pub observed_row : RecoveryObservation → StoredGrant → StoredGrant
observed_row o row = record row {
  grant = record row.grant {
    lifecycle_generation = o.lifecycle_generation;
    status = o.status;
    seal_nonce = o.seal_nonce;
    final_consumption_sequence = o.final_consumption_sequence;
    final_consumption_hash = o.final_consumption_hash;
    sealed_at = o.sealed_at;
    acknowledged_at = o.acknowledged_at;
    released_at = o.released_at;
    updated_at = o.updated_at;
  };
}

-- `UPDATE`: the rows that a test selects are changed.
abbrev pub update_rows :
    (StoredGrant → Bool) → (StoredGrant → StoredGrant) → List StoredGrant → List StoredGrant
update_rows p change = map λ (row : StoredGrant). if p row then change row else row

unfoldable pub observe_recovery_lifecycle : Tables → RecoveryObservation → Result Fault Tables
unfolding is_observed observed_row
observe_recovery_lifecycle t o =
    refuse_if (not (length (filter (is_observed o) t.grants) == 1)) stale_recovery
    >> ok (record t { grants = update_rows (is_observed o) (observed_row o) t.grants })

-- `NewStockAllocationGrant`
pub record NewGrant : Type 0 where
  pub allocation_uuid : Text
  pub contract_version : ℕ
  pub company_uuid : Text
  pub device_uuid : Text
  pub warehouse_uuid : Text
  pub product_uuid : Text
  pub server_sequence : ℕ
  pub lifecycle_generation : ℕ
  pub granted_quantity_milli : ℕ
  pub consume_until : ℕ
  pub envelope_hash : Text
  pub received_at : ℕ

unfoldable pub local_grant : NewGrant → Option ℕ → Grant
local_grant g revision = record {
  allocation_uuid = g.allocation_uuid;
  contract_version = g.contract_version;
  company_uuid = g.company_uuid;
  device_uuid = g.device_uuid;
  warehouse_uuid = g.warehouse_uuid;
  product_uuid = g.product_uuid;
  server_sequence = g.server_sequence;
  rights_generation = 1;
  lifecycle_generation = g.lifecycle_generation;
  granted_quantity_milli = g.granted_quantity_milli;
  server_consumed_quantity_milli = 0;
  server_remaining_quantity_milli = g.granted_quantity_milli;
  consume_until = g.consume_until;
  status = active;
  envelope_hash = g.envelope_hash;
  seal_nonce = none;
  final_consumption_sequence = none;
  final_consumption_hash = none;
  received_at = g.received_at;
  sealed_at = none;
  acknowledged_at = none;
  released_at = none;
  last_observed_revision = revision;
  updated_at = g.received_at;
}

-- `upsertGrant` without a context. The column `observation_source` has `bootstrap` for its default.
unfoldable pub upsert_grant : Tables → NewGrant → Tables
unfolding find_grant_by_uuid local_grant
upsert_grant t g = elim (find_grant_by_uuid t g.allocation_uuid) [
  | some row ↦ t
  | none ↦ record t {
    grants =
        t.grants
        ++ (record {
          grant = local_grant g (active_revision t.capability);
          observation_source = bootstrap;
        }
            ∷ []);
  }
]
