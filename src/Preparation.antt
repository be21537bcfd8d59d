-- ===== src/Preparation.antt =====
-- The candidates that a preparation may ask stock for
-- (src/main/services/preparationDependencies.ts). `trim_lower` is `.trim().toLowerCase()`; a set is a
-- list of its members.
pub mod Assigning
pub mod Loops
pub mod Partition
mod Tests
use pos_desktop.Prelude.{
  ℕ, Bool, true, false, not, ◌&&◌, Option, none, some, List, [], ◌∷◌, ◌++◌, map, any, filter, ltb,
  if◌then◌else◌,
}
use pos_desktop.Prelude.Text.{Text, text_eq}
use pos_desktop.Prelude.Dict.{Dict, lookup, insert}
use pos_desktop.Sync.States.{SyncQueueState}

pub data PrepareBlockedReason : Type 0 where
  pending_upload uploading_ambiguous retryable_error terminal_conflict terminal_rejection
        dependency_scope_unknown owned_by_unresolved_operation policy_disabled
        blocked_by_unreleased_hold :
      PrepareBlockedReason

abbrev pub blocked_reason_for_queue_state : SyncQueueState → Option PrepareBlockedReason
blocked_reason_for_queue_state SyncQueueState.pending = some PrepareBlockedReason.pending_upload
blocked_reason_for_queue_state SyncQueueState.uploading =
    some PrepareBlockedReason.uploading_ambiguous
blocked_reason_for_queue_state SyncQueueState.retryable_error =
    some PrepareBlockedReason.retryable_error
blocked_reason_for_queue_state SyncQueueState.conflict = some PrepareBlockedReason.terminal_conflict
blocked_reason_for_queue_state SyncQueueState.rejected =
    some PrepareBlockedReason.terminal_rejection
blocked_reason_for_queue_state SyncQueueState.synced = none

abbrev pub precedence : PrepareBlockedReason → ℕ
precedence PrepareBlockedReason.dependency_scope_unknown = 0
precedence PrepareBlockedReason.owned_by_unresolved_operation = 1
precedence PrepareBlockedReason.terminal_conflict = 2
precedence PrepareBlockedReason.terminal_rejection = 3
precedence PrepareBlockedReason.blocked_by_unreleased_hold = 4
precedence PrepareBlockedReason.uploading_ambiguous = 5
precedence PrepareBlockedReason.pending_upload = 6
precedence PrepareBlockedReason.retryable_error = 7
precedence PrepareBlockedReason.policy_disabled = 8

pub record CapturedQueueRow : Type 0 where
  local_queue_uuid : Text
  queue_sequence : ℕ
  pub state : SyncQueueState
  pub product_uuids : List Text
  allocation_uuids : List Text
  scope_known : Bool

pub record PartitionInput : Type 0 where
  pub candidate_product_uuids : List Text
  pub captured_rows : List CapturedQueueRow
  pub owned_by_unresolved_operations : List Text
  pub policy_disabled_products : List Text
  pub held_products : List Text

pub record BlockedProduct : Type 0 where
  pub product_uuid : Text
  pub reason : PrepareBlockedReason

pub record PartitionResult : Type 0 where
  pub eligible : List Text
  pub blocked : List BlockedProduct

-- `Array.prototype.includes` and `Set.prototype.has`
abbrev pub has : List Text → Text → Bool
has texts text = any (text_eq text) texts

abbrev pub is_better : PrepareBlockedReason → Option PrepareBlockedReason → Bool
is_better reason none = true
is_better reason (some existing) = ltb (precedence reason) (precedence existing)

-- A call of `assign`, which is always given the reason's own precedence.
abbrev pub Assignment : Type 0
Assignment = Text × PrepareBlockedReason

unfoldable pub assign : Assignment → Dict PrepareBlockedReason → Dict PrepareBlockedReason
assign (product, reason) reasons =
    if is_better reason (lookup product reasons) then insert product reason reasons else reasons

unfoldable pub assign_all : List Assignment → Dict PrepareBlockedReason → Dict PrepareBlockedReason
assign_all [] reasons = reasons
assign_all (a ∷ assignments) reasons = assign_all assignments (assign a reasons)

abbrev is_some : Option PrepareBlockedReason → Bool
is_some none = false
is_some (some reason) = true

abbrev pub is_unscoped : CapturedQueueRow → Bool
is_unscoped row = not row.scope_known && is_some (blocked_reason_for_queue_state row.state)

-- The assignments of the three loops; none of them looks at what was assigned before.
unfoldable pub scope_assignments : List Text → List CapturedQueueRow → List Assignment
scope_assignments candidates rows =
    if any is_unscoped rows
    then map (λ c. (c, PrepareBlockedReason.dependency_scope_unknown)) candidates
    else []

module _ (trim_lower : Text → Text) where
  unfoldable pub touched : List Text → PrepareBlockedReason → List Text → List Assignment
  touched candidates reason [] = []
  touched candidates reason (product ∷ products) =
      let rest = touched candidates reason products in
      if has candidates (trim_lower product) then (trim_lower product, reason) ∷ rest else rest

  abbrev pub assignments_of : List Text → CapturedQueueRow → List Assignment
  assignments_of candidates row = elim (blocked_reason_for_queue_state row.state) [
    | none ↦ []
    | some reason ↦ touched candidates reason row.product_uuids
  ]

  unfoldable pub row_assignments : List Text → List CapturedQueueRow → List Assignment
  row_assignments candidates [] = []
  row_assignments candidates (row ∷ rows) =
      assignments_of candidates row ++ row_assignments candidates rows

abbrev pub assignment_if : Bool → Text → PrepareBlockedReason → List Assignment
assignment_if test product reason = if test then (product, reason) ∷ [] else []

abbrev pub assignments_for_candidate : PartitionInput → Text → List Assignment
assignments_for_candidate input c =
    assignment_if (has input.policy_disabled_products c) c PrepareBlockedReason.policy_disabled
    ++ (assignment_if (has input.held_products c) c PrepareBlockedReason.blocked_by_unreleased_hold
        ++ assignment_if (has input.owned_by_unresolved_operations c) c
            PrepareBlockedReason.owned_by_unresolved_operation)

unfoldable pub set_assignments : PartitionInput → List Text → List Assignment
set_assignments input [] = []
set_assignments input (c ∷ candidates) =
    assignments_for_candidate input c ++ set_assignments input candidates

module _ (trim_lower : Text → Text) where
  unfoldable pub assignments : PartitionInput → List Text → List Assignment
  assignments input candidates =
      scope_assignments candidates input.captured_rows
      ++ (row_assignments trim_lower candidates input.captured_rows
          ++ set_assignments input candidates)

unfoldable pub blocked_of : Dict PrepareBlockedReason → List Text → List BlockedProduct
blocked_of reasons [] = []
blocked_of reasons (c ∷ candidates) =
    let rest = blocked_of reasons candidates in
    elim (lookup c reasons) [
      | none ↦ rest
      | some reason ↦ record { product_uuid = c; reason = reason } ∷ rest
    ]

unfoldable pub eligible_of : Dict PrepareBlockedReason → List Text → List Text
eligible_of reasons candidates = filter (λ c. not (is_some (lookup c reasons))) candidates

module _ (trim_lower : Text → Text) where
  unfoldable pub partition_candidates : PartitionInput → PartitionResult
  partition_candidates input =
      let candidates = map trim_lower input.candidate_product_uuids in
      let reasons = assign_all (assignments trim_lower input candidates) [] in
      record { eligible = eligible_of reasons candidates; blocked = blocked_of reasons candidates }
