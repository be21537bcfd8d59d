-- ===== src/Stock/Spendable.antt =====
-- What a grant may still spend, which grants of a product are usable, and the consumptions that a
-- sale writes (src/main/repositories/stockAllocation.repository.ts), with the service over them
-- (src/main/services/stockAllocation.service.ts).
use pos_desktop.Prelude.{
  ℕ, ◌+◌, ◌-◌, max, Bool, true, false, not, ◌&&◌, ◌||◌, Option, none, some, List, [], ◌∷◌, ◌++◌,
  map, filter, any, ltb, ◌==◌, if◌then◌else◌, Result, err, sum_by,
}
use pos_desktop.Prelude.Text.{Text, text_eq, text_after}
use pos_desktop.Prelude.Dict.{Dict, insert}
use pos_desktop.Prelude.Sorting.{sort_by}
use pos_desktop.Stock.{Grant, GrantStatus, active, AllocationOwner}
use pos_desktop.Stock.Split.{SplitError, allocation_data_unavailable, Split, split_allocations}
use pos_desktop.Stock.Tables.{
  StoredGrant, AllocationCapability, ConsumptionStatus, pending, acknowledged, Consumption,
  CoverageBoundary, Tables, is_key, find_grant_by_uuid, find_terminal_marker, find_hold,
  has_recovery, has_disposition_hold, find_coverage_boundary,
}

abbrev pub is_present {ℓ} : {A : Type ℓ} → Option A → Bool
is_present none = false
is_present (some a) = true

abbrev pub is_active : GrantStatus → Bool
is_active active = true
is_active _ = false

-- `capability?.state === 'unavailable'`
unfoldable pub is_unavailable : Option AllocationCapability → Bool
is_unavailable none = false
is_unavailable (some c) = not c.supported

-- `capability?.state === 'supported' ? capability.revision : null`
unfoldable pub current_revision : Option AllocationCapability → Option ℕ
current_revision none = none
current_revision (some c) = if c.supported then c.revision else none

-- `capability?.representation === 'reconciliation_v2'`
unfoldable pub is_reconciled : Option AllocationCapability → Bool
is_reconciled none = false
is_reconciled (some c) = c.reconciled

-- `? IS NULL OR column = ?`; a missing column is not equal to a number.
unfoldable pub is_current : Option ℕ → Option ℕ → Bool
is_current none column = true
is_current (some revision) none = false
is_current (some revision) (some column) = column == revision

-- What denies a grant whatever its balance: a terminal marker, a hold, a recovery or a disposition.
unfoldable pub is_blocked : Tables → Text → ℕ → Bool
unfolding find_terminal_marker find_hold has_recovery has_disposition_hold
is_blocked t uuid generation =
    is_present (find_terminal_marker t uuid)
    || is_present (find_hold t uuid generation)
    || has_recovery t uuid generation
    || has_disposition_hold t uuid generation

-- The `WHERE` of the selection.
unfoldable pub is_usable : Tables → AllocationOwner → Text → ℕ → Grant → Bool
unfolding is_blocked text_eq is_current is_reconciled current_revision
is_usable t owner product now g =
    text_eq g.company_uuid owner.company_uuid
    && text_eq g.device_uuid owner.device_uuid
    && text_eq g.warehouse_uuid owner.warehouse_uuid
    && text_eq g.product_uuid product
    && is_active g.status
    && ltb now g.consume_until
    && is_current (current_revision t.capability) g.last_observed_revision
    && not (is_blocked t g.allocation_uuid g.rights_generation)
    && (if is_reconciled t.capability
        then any
            (λ (b : CoverageBoundary).
              is_key g.allocation_uuid g.rights_generation b.allocation_uuid b.rights_generation
              && text_eq b.company_uuid g.company_uuid
              && text_eq b.device_uuid g.device_uuid)
            t.boundaries
        else g.server_consumed_quantity_milli == 0)

-- `ORDER BY consume_until, server_sequence, allocation_uuid`
unfoldable pub comes_after : Grant → Grant → Bool
unfolding text_after
comes_after g h =
    ltb h.consume_until g.consume_until
    || g.consume_until == h.consume_until && ltb h.server_sequence g.server_sequence
    || g.consume_until == h.consume_until
      && g.server_sequence == h.server_sequence
      && text_after g.allocation_uuid h.allocation_uuid

unfoldable pub usable_grants_for_product : Tables → AllocationOwner → Text → ℕ → List Grant
unfolding is_unavailable is_usable sort_by comes_after
usable_grants_for_product t owner product now =
    if is_unavailable t.capability
    then []
    else sort_by comes_after
        (filter (is_usable t owner product now) (map StoredGrant.grant t.grants))

-- `COALESCE(rights_generation, ?) = ?`
unfoldable pub is_of_generation : ℕ → Option ℕ → Bool
is_of_generation generation none = true
is_of_generation generation (some g) = g == generation

-- The quantity of the consumptions that a test selects.
abbrev pub consumed_by : (Consumption → Bool) → List Consumption → ℕ
consumed_by p = sum_by (λ row. if p row then row.quantity_milli else 0)

abbrev pub is_above : Text → ℕ → ℕ → Consumption → Bool
is_above uuid generation sequence row =
    text_eq row.allocation_uuid uuid
    && is_of_generation generation row.rights_generation
    && ltb sequence row.consumption_sequence

unfoldable pub committed_quantity_above_sequence : Tables → Text → ℕ → ℕ → ℕ
unfolding text_eq is_of_generation
committed_quantity_above_sequence t uuid generation sequence =
    consumed_by (is_above uuid generation sequence) t.consumptions

abbrev pub is_pending : ConsumptionStatus → Bool
is_pending pending = true
is_pending acknowledged = false

abbrev pub is_pending_of : Text → Consumption → Bool
is_pending_of uuid row = text_eq row.allocation_uuid uuid && is_pending row.server_status

-- The balance without a boundary; a difference below zero is zero, as `Math.max` has it.
unfoldable pub legacy_balance : Tables → Grant → ℕ
unfolding text_eq
legacy_balance t g =
    let pending_total = consumed_by (is_pending_of g.allocation_uuid) t.consumptions in
    let server_remaining : ℕ = elim g.last_observed_revision [
      | none ↦ g.granted_quantity_milli
      | some revision ↦ g.server_remaining_quantity_milli
    ] in
    server_remaining - pending_total

-- The balance above a boundary. One below zero counts as zero, as the code denies it.
unfoldable pub covered_balance : Tables → Grant → CoverageBoundary → ℕ
unfolding committed_quantity_above_sequence
covered_balance t g b =
    let uncovered =
      committed_quantity_above_sequence t g.allocation_uuid g.rights_generation
        b.accepted_consumption_sequence in
    g.granted_quantity_milli - b.accepted_consumed_quantity_milli - uncovered

-- The end of `spendableMilli`, for a grant that nothing blocks.
unfoldable pub balance : Tables → Grant → ℕ
unfolding is_reconciled legacy_balance covered_balance find_coverage_boundary
balance t g =
    if not (is_reconciled t.capability)
    then legacy_balance t g
    else elim (find_coverage_boundary t g.allocation_uuid g.rights_generation) [
      | none ↦ 0
      | some b ↦ covered_balance t g b
    ]

unfoldable pub spendable_milli : Tables → Text → ℕ
unfolding find_grant_by_uuid is_blocked balance
spendable_milli t uuid = elim (find_grant_by_uuid t uuid) [
  | none ↦ 0
  | some row ↦ if is_blocked t uuid row.grant.rights_generation then 0 else balance t row.grant
]

abbrev pub greatest : ℕ → List Consumption → ℕ
greatest n [] = n
greatest n (row ∷ rows) = greatest (max n row.consumption_sequence) rows

unfoldable pub next_consumption_sequence : Tables → Text → ℕ
unfolding text_eq
next_consumption_sequence t uuid =
    greatest 0 (filter (λ (row : Consumption). text_eq row.allocation_uuid uuid) t.consumptions) + 1

-- What a caller gives for a consumption.
pub record NewConsumption : Type 0 where
  pub local_uuid : Text
  pub allocation_uuid : Text
  pub consumption_sequence : ℕ
  pub invoice_local_uuid : Text
  pub item_local_uuid : Text
  pub quantity_milli : ℕ
  pub created_at : ℕ
  pub rights_generation : ℕ
  pub invoice_idempotency_key : Text
  pub item_line_uuid : Text
  pub request_hash : Text
  pub entry_hash : Text
  pub chain_hash : Text

unfoldable pub new_consumption : NewConsumption → Consumption
new_consumption c = record {
  local_uuid = c.local_uuid;
  allocation_uuid = c.allocation_uuid;
  consumption_sequence = c.consumption_sequence;
  invoice_local_uuid = c.invoice_local_uuid;
  item_local_uuid = c.item_local_uuid;
  quantity_milli = c.quantity_milli;
  server_status = pending;
  created_at = c.created_at;
  rights_generation = some c.rights_generation;
  invoice_idempotency_key = some c.invoice_idempotency_key;
  item_line_uuid = some c.item_line_uuid;
  request_hash = some c.request_hash;
  entry_hash = some c.entry_hash;
  chain_hash = some c.chain_hash;
}

-- A row that the keys of the table refuse beside a new one.
unfoldable pub clashes : NewConsumption → Consumption → Bool
unfolding text_eq
clashes c row =
    text_eq row.local_uuid c.local_uuid
    || text_eq row.allocation_uuid c.allocation_uuid
      && row.consumption_sequence == c.consumption_sequence
    || text_eq row.invoice_local_uuid c.invoice_local_uuid
      && text_eq row.item_local_uuid c.item_local_uuid
      && text_eq row.allocation_uuid c.allocation_uuid

-- The insertion, which fails on a key, on a grant that is not stored, and on a quantity or a sequence
-- of zero.
unfoldable pub insert_consumption : Tables → NewConsumption → Option Tables
unfolding clashes new_consumption find_grant_by_uuid
insert_consumption t c =
    if any (clashes c) t.consumptions
      || not (is_present (find_grant_by_uuid t c.allocation_uuid))
      || c.quantity_milli == 0
      || c.consumption_sequence == 0
    then none
    else some (record t { consumptions = t.consumptions ++ (new_consumption c ∷ []) })

-- The loop of a sale's commit over the entries of its split.
unfoldable pub consume : Tables → List NewConsumption → Option Tables
unfolding insert_consumption
consume t [] = some t
consume t (c ∷ cs) = elim (insert_consumption t c) [ none ↦ none | some after ↦ consume after cs ]

-- `new Map(grants.map((grant) => [grant.allocationUuid, f(grant.allocationUuid)]))`
unfoldable pub by_allocation : (Text → ℕ) → List Grant → Dict ℕ → Dict ℕ
unfolding insert
by_allocation f [] known = known
by_allocation f (g ∷ grants) known =
    by_allocation f grants (insert g.allocation_uuid (f g.allocation_uuid) known)

unfoldable pub usable_remaining_milli : Tables → AllocationOwner → Text → ℕ → ℕ
unfolding is_unavailable usable_grants_for_product spendable_milli
usable_remaining_milli t owner product now =
    if is_unavailable t.capability
    then 0
    else sum_by (λ (g : Grant). spendable_milli t g.allocation_uuid)
        (usable_grants_for_product t owner product now)

unfoldable pub split_for_product :
    (ℕ → Text) → Tables → AllocationOwner → Text → List ℕ → ℕ → Bool → Result SplitError Split
unfolding is_unavailable usable_grants_for_product spendable_milli next_consumption_sequence
    by_allocation split_allocations
split_for_product create_uuid t owner product demands now allow =
    if is_unavailable t.capability && not allow
    then err allocation_data_unavailable
    else let grants : List Grant =
        if is_unavailable t.capability then [] else usable_grants_for_product t owner product now in
      split_allocations create_uuid grants (by_allocation (spendable_milli t) grants [])
        (by_allocation (next_consumption_sequence t) grants []) demands allow
