-- ===== src/Preparation/Tests.antt =====
-- A partition at concrete candidates.
use pos_desktop.Prelude.{◌≡◌, refl, [], ◌∷◌, map, true}
use pos_desktop.Prelude.Text.{codes, text_eq}
use pos_desktop.Prelude.Dict.{lookup, insert}
use pos_desktop.Sync.States.{SyncQueueState}
use pos_desktop.Preparation.{
  PartitionInput, BlockedProduct, PrepareBlockedReason, partition_candidates, assignments,
  scope_assignments, row_assignments, touched, set_assignments, assign_all, assign, blocked_of,
  eligible_of,
}
use pos_desktop.Preparation.Partition.{IsPartition, partition_candidates-IsPartition}

-- Cola has a conflict and no policy, Water nothing.
abbrev input : PartitionInput
input = record {
  candidate_product_uuids = codes "cola" ∷ codes "water" ∷ [];
  captured_rows =
      record {
        local_queue_uuid = codes "q";
        queue_sequence = 1;
        state = SyncQueueState.conflict;
        product_uuids = codes "cola" ∷ codes "juice" ∷ [];
        allocation_uuids = [];
        scope_known = true;
      }
      ∷ [];
  owned_by_unresolved_operations = [];
  policy_disabled_products = codes "cola" ∷ [];
  held_products = [];
}

eligible_lem : (partition_candidates (λ t. t) input).eligible ≡ codes "water" ∷ []
unfolding partition_candidates assignments scope_assignments row_assignments touched set_assignments
    assign_all assign eligible_of lookup insert text_eq
eligible_lem = refl

reason_lem :
    map (λ (b : BlockedProduct). b.reason) ((partition_candidates (λ t. t) input).blocked)
    ≡ PrepareBlockedReason.terminal_conflict ∷ []
unfolding partition_candidates assignments scope_assignments row_assignments touched set_assignments
    assign_all assign blocked_of lookup insert text_eq
reason_lem = refl

partition_candidates-IsPartition_example :
    IsPartition (λ t. t) input (partition_candidates (λ t. t) input)
partition_candidates-IsPartition_example = partition_candidates-IsPartition (λ t. t) input
