-- ===== src/Stock/Fixtures.antt =====
-- Tables and calls for the tests of the allocations.
use pos_desktop.Prelude.{ℕ, ◌≢◌, false, Option, none, some, List, [], ◌∷◌}
use pos_desktop.Prelude.Text.{Text, codes, text_eq, text_eq_iff}
use pos_desktop.Stock.{active, AllocationOwner}
use pos_desktop.Stock.Tables.{Tables}
use pos_desktop.Stock.Spendable.{NewConsumption}
use pos_desktop.Stock.Ingest.{Envelope}
use pos_desktop.Stock.Snapshots.{Call, snapshot, top_up, receive_all}

abbrev pub envelope : Text → ℕ → ℕ → Envelope
envelope uuid quantity until = record {
  allocation_uuid = uuid;
  contract_version = 1;
  company_uuid = codes "c";
  device_uuid = codes "d";
  warehouse_uuid = codes "w";
  product_uuid = codes "p";
  server_sequence = 1;
  rights_generation = 1;
  lifecycle_generation = 1;
  granted_quantity_milli = quantity;
  consumed_quantity_milli = 0;
  remaining_quantity_milli = quantity;
  consume_until = until;
  status = active;
  envelope_hash = codes "h";
  seal_nonce = none;
  final_consumption_sequence = none;
  final_consumption_hash = none;
  sealed_at = none;
  acknowledged_at = none;
  released_at = none;
}

abbrev pub first : Envelope
first = envelope (codes "a") 2000 90

abbrev pub second : Envelope
second = envelope (codes "b") 1500 80

abbrev pub no_tables : Tables
no_tables = record {
  capability = none;
  grants = [];
  consumptions = [];
  boundaries = [];
  markers = [];
  holds = [];
  recoveries = [];
  disposition_holds = [];
  marks = [];
}

abbrev pub calls : List Call
calls = snapshot 7 (first ∷ []) 10 false ∷ top_up (second ∷ []) 11 ∷ []

abbrev pub stocked : Tables
stocked = receive_all no_tables calls

abbrev pub owner : AllocationOwner
owner = record { company_uuid = codes "c"; device_uuid = codes "d"; warehouse_uuid = codes "w" }

abbrev pub uuid : ℕ → Text
uuid n = n ∷ []

pub apart : codes "a" ≢ codes "b"
unfolding text_eq
apart e = cc ((text_eq_iff (codes "a") (codes "b")).1 e)

abbrev pub consumption : Text → ℕ → ℕ → ℕ → NewConsumption
consumption grant sequence n quantity = record {
  local_uuid = uuid n;
  allocation_uuid = grant;
  consumption_sequence = sequence;
  invoice_local_uuid = codes "i";
  item_local_uuid = uuid n;
  quantity_milli = quantity;
  created_at = 20;
  rights_generation = 1;
  invoice_idempotency_key = codes "i";
  item_line_uuid = uuid n;
  request_hash = [];
  entry_hash = [];
  chain_hash = [];
}

abbrev pub tables_or : Tables → Option Tables → Tables
tables_or t none = t
tables_or t (some next) = next
