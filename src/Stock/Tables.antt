-- ===== src/Stock/Tables.antt =====
-- The allocation tables and their reads and writes by key
-- (src/main/repositories/stockAllocation.repository.ts). The two status columns of a grant are one
-- here, as `mapGrantRow` reads them and as the CHECK of the table keeps them in agreement.
use pos_desktop.Prelude.{
  ℕ, Bool, not, ◌&&◌, Option, List, [], ◌∷◌, filter, find, any, ltb, leb, ◌==◌, if◌then◌else◌,
}
use pos_desktop.Prelude.Text.{Text, text_eq}
use pos_desktop.Stock.{Grant}

pub data ObservationSource : Type 0 where
  bootstrap incremental : ObservationSource

pub record StoredGrant : Type 0 where
  pub grant : Grant
  pub observation_source : ObservationSource

-- `supported` is the state; the representation is `reconciliation_v2` or `legacy`.
pub record AllocationCapability : Type 0 where
  pub supported : Bool
  pub revision : Option ℕ
  pub observed_at : ℕ
  pub reconciled : Bool

pub data ConsumptionStatus : Type 0 where
  pending acknowledged : ConsumptionStatus

pub record Consumption : Type 0 where
  pub local_uuid : Text
  pub allocation_uuid : Text
  pub consumption_sequence : ℕ
  pub invoice_local_uuid : Text
  pub item_local_uuid : Text
  pub quantity_milli : ℕ
  pub server_status : ConsumptionStatus
  pub created_at : ℕ
  pub rights_generation : Option ℕ
  pub invoice_idempotency_key : Option Text
  pub item_line_uuid : Option Text
  pub request_hash : Option Text
  pub entry_hash : Option Text
  pub chain_hash : Option Text

pub data BoundarySource : Type 0 where
  bootstrap top_up invoice_upload : BoundarySource

pub record CoverageBoundary : Type 0 where
  pub allocation_uuid : Text
  pub rights_generation : ℕ
  pub company_uuid : Text
  pub device_uuid : Text
  pub accepted_consumption_sequence : ℕ
  pub accepted_consumed_quantity_milli : ℕ
  pub accepted_chain_hash : Text
  pub source : BoundarySource
  pub observed_at : ℕ

pub record TerminalMarker : Type 0 where
  pub allocation_uuid : Text
  pub company_uuid : Text
  pub device_uuid : Text
  pub consumed : Bool
  pub lifecycle_generation : ℕ
  pub terminal_revision : ℕ
  pub observed_at : ℕ

pub data HoldReason : Type 0 where
  unreconstructable_prefix coverage_conflict coverage_inconsistent terminal_conflict : HoldReason

pub record Hold : Type 0 where
  pub allocation_uuid : Text
  pub rights_generation : ℕ
  pub reason : HoldReason
  pub detail : Option Text
  pub created_at : ℕ

pub record ValidationMark : Type 0 where
  pub allocation_uuid : Text
  pub rights_generation : ℕ
  pub consumed_high_water_milli : ℕ
  pub observed_revision : ℕ
  pub updated_at : ℕ

-- The recoveries and the disposition holds are read by their key alone.
pub record Tables : Type 0 where
  pub capability : Option AllocationCapability
  pub grants : List StoredGrant
  pub consumptions : List Consumption
  pub boundaries : List CoverageBoundary
  pub markers : List TerminalMarker
  pub holds : List Hold
  pub recoveries : List (Text × ℕ)
  pub disposition_holds : List (Text × ℕ)
  pub marks : List ValidationMark

-- A row of a rights generation of a grant.
abbrev pub is_key : Text → ℕ → Text → ℕ → Bool
is_key uuid generation u g = text_eq u uuid && g == generation

abbrev pub is_grant : Text → StoredGrant → Bool
is_grant uuid row = text_eq row.grant.allocation_uuid uuid

unfoldable pub find_grant_by_uuid : Tables → Text → Option StoredGrant
unfolding text_eq
find_grant_by_uuid t uuid = find (is_grant uuid) t.grants

unfoldable pub find_terminal_marker : Tables → Text → Option TerminalMarker
unfolding text_eq
find_terminal_marker t uuid =
    find (λ (m : TerminalMarker). text_eq m.allocation_uuid uuid) t.markers

unfoldable pub find_hold : Tables → Text → ℕ → Option Hold
unfolding text_eq
find_hold t uuid generation =
    find (λ (h : Hold). is_key uuid generation h.allocation_uuid h.rights_generation) t.holds

unfoldable pub has_recovery : Tables → Text → ℕ → Bool
unfolding text_eq
has_recovery t uuid generation = any (λ (r : Text × ℕ). is_key uuid generation r.0 r.1) t.recoveries

unfoldable pub has_disposition_hold : Tables → Text → ℕ → Bool
unfolding text_eq
has_disposition_hold t uuid generation =
    any (λ (r : Text × ℕ). is_key uuid generation r.0 r.1) t.disposition_holds

unfoldable pub find_coverage_boundary : Tables → Text → ℕ → Option CoverageBoundary
unfolding text_eq
find_coverage_boundary t uuid generation =
    find (λ (b : CoverageBoundary). is_key uuid generation b.allocation_uuid b.rights_generation)
      t.boundaries

-- `INSERT … ON CONFLICT DO UPDATE`: the row with the key is changed, or a new one is added.
unfoldable pub upsert : {A : Type 0} → (A → Bool) → A → (A → A) → List A → List A
upsert is_same new change [] = new ∷ []
upsert is_same new change (row ∷ rows) =
    let rest = upsert is_same new change rows in
    if is_same row then change row ∷ rows else row ∷ rest

-- An older boundary, or the same one again, changes nothing.
unfoldable pub write_coverage_boundary : Tables → CoverageBoundary → Tables
unfolding upsert text_eq
write_coverage_boundary t b = record t {
  boundaries =
      upsert
        (λ old.
          is_key b.allocation_uuid b.rights_generation old.allocation_uuid old.rights_generation)
        b
        (λ old.
          if ltb old.accepted_consumption_sequence b.accepted_consumption_sequence
          then record old {
            company_uuid = b.company_uuid;
            device_uuid = b.device_uuid;
            accepted_consumption_sequence = b.accepted_consumption_sequence;
            accepted_consumed_quantity_milli = b.accepted_consumed_quantity_milli;
            accepted_chain_hash = b.accepted_chain_hash;
            source = b.source;
            observed_at = b.observed_at;
          }
          else old)
        t.boundaries;
}

unfoldable pub write_terminal_marker : Tables → TerminalMarker → Tables
unfolding upsert text_eq
write_terminal_marker t m = record t {
  markers =
      upsert (λ old. text_eq old.allocation_uuid m.allocation_uuid) m
        (λ old.
          if leb old.lifecycle_generation m.lifecycle_generation
            && leb old.terminal_revision m.terminal_revision
          then record old {
            consumed = m.consumed;
            lifecycle_generation = m.lifecycle_generation;
            terminal_revision = m.terminal_revision;
            observed_at = m.observed_at;
          }
          else old)
        t.markers;
}

-- The first reason recorded stays.
unfoldable pub record_hold : Tables → Hold → Tables
unfolding upsert text_eq
record_hold t h = record t {
  holds =
      upsert
        (λ old.
          is_key h.allocation_uuid h.rights_generation old.allocation_uuid old.rights_generation)
        h (λ old. old) t.holds;
}

unfoldable pub clear_hold : Tables → Text → ℕ → Tables
unfolding text_eq
clear_hold t uuid generation = record t {
  holds =
      filter (λ (h : Hold). not (is_key uuid generation h.allocation_uuid h.rights_generation))
        t.holds;
}
