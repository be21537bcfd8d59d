-- ===== src/Stock.antt =====
-- Stock allocations: the server grants the device quantities of a product, and a sale consumes them
-- (src/main/services/stockAllocation.service.ts, src/main/services/allocationDeficit.ts and
-- src/main/repositories/stockAllocation.repository.ts). Quantities are whole thousandths.
pub mod Split
pub mod Covering
pub mod Spent
pub mod Drained
pub mod Tables
pub mod Spendable
pub mod Balances
pub mod Consumed
pub mod Ingest
pub mod Lifecycle
pub mod Snapshots
pub mod Marks
pub mod Accepting
pub mod Updating
pub mod Advances
pub mod Deficit
pub mod Journal
pub mod Missing
pub mod Shortage
pub mod Agreement
pub mod Requests
mod Fixtures
mod Tests
use pos_desktop.Prelude.{ℕ, Option}
use pos_desktop.Prelude.Text.{Text}

pub data GrantStatus : Type 0 where
  active revocation_pending seal_acknowledged released consumed legacy_sealed legacy_expired :
      GrantStatus

-- `StockAllocationGrantRow`; instants are numbers, as their texts sort.
pub record Grant : Type 0 where
  pub allocation_uuid : Text
  pub contract_version : ℕ
  pub company_uuid : Text
  pub device_uuid : Text
  pub warehouse_uuid : Text
  pub product_uuid : Text
  pub server_sequence : ℕ
  pub rights_generation : ℕ
  pub lifecycle_generation : ℕ
  pub granted_quantity_milli : ℕ
  pub server_consumed_quantity_milli : ℕ
  pub server_remaining_quantity_milli : ℕ
  pub consume_until : ℕ
  pub status : GrantStatus
  pub envelope_hash : Text
  pub seal_nonce : Option Text
  pub final_consumption_sequence : Option ℕ
  pub final_consumption_hash : Option Text
  pub received_at : ℕ
  pub sealed_at : Option ℕ
  pub acknowledged_at : Option ℕ
  pub released_at : Option ℕ
  pub last_observed_revision : Option ℕ
  pub updated_at : ℕ

pub record AllocationOwner : Type 0 where
  pub company_uuid : Text
  pub device_uuid : Text
  pub warehouse_uuid : Text
