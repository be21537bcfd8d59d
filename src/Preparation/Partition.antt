-- ===== src/Preparation/Partition.antt =====
-- Which candidates are blocked, and with which reason (src/main/services/preparationDependencies.ts).
use pos_desktop.Prelude.{
  ◌≤◌, ◌≡◌, refl, true, Option, none, some, List, [], ◌∷◌, ◌++◌, map, any, sym, inl, inr, ◌⊎◌, ◌≢◌,
  subst, All, Any, All-member, Option-cases, All-map, All-append, if_cases, option_cases,
}
use pos_desktop.Prelude.Text.{Text}
use pos_desktop.Prelude.Dict.{Dict, lookup}
use pos_desktop.Preparation.{
  PrepareBlockedReason, blocked_reason_for_queue_state, precedence, PartitionInput, BlockedProduct,
  PartitionResult, has, Assignment, assign_all, is_unscoped, scope_assignments, row_assignments,
  set_assignments, assignments, blocked_of, eligible_of, partition_candidates,
}
use pos_desktop.Preparation.Assigning.{IsNoWorse, Leaves, choose-Leaves, lookup-assign_all}
use pos_desktop.Preparation.Loops.{
  Assigned, append_left, append_right, has-member, All-members, All-row_assignments,
  Assigned-row_assignments, Assigned-all, All-all, All-set_assignments, Assigned-set_assignments,
}

-- A reason applies to a product.
abbrev pub Blocks : (Text → Text) → PartitionInput → Text → PrepareBlockedReason → Type 0
Blocks trim_lower input c r =
    ((r ≡ PrepareBlockedReason.dependency_scope_unknown)
      × (any is_unscoped input.captured_rows ≡ true))
    ⊎ Any
        (λ row.
          (blocked_reason_for_queue_state row.state ≡ some r)
          × Any (λ p. trim_lower p ≡ c) row.product_uuids)
        input.captured_rows
    ⊎ ((r ≡ PrepareBlockedReason.policy_disabled) × (has input.policy_disabled_products c ≡ true))
    ⊎ ((r ≡ PrepareBlockedReason.blocked_by_unreleased_hold) × (has input.held_products c ≡ true))
    ⊎ ((r ≡ PrepareBlockedReason.owned_by_unresolved_operation)
        × (has input.owned_by_unresolved_operations c ≡ true))

module _ (trim_lower : Text → Text) (input : PartitionInput) where
  abbrev all : List Text → List Assignment
  all candidates = assignments trim_lower input candidates

  All-assignments :
      (candidates : List Text)
      → All (λ (a : Assignment). Blocks trim_lower input a.0 (a.1)) (all candidates)
  unfolding assignments scope_assignments
  All-assignments candidates =
      let P = λ (a : Assignment). Blocks trim_lower input a.0 (a.1) in
      All-append P (scope_assignments candidates input.captured_rows)
        (row_assignments trim_lower candidates input.captured_rows
          ++ set_assignments input candidates)
        (if_cases (All P) (any is_unscoped input.captured_rows)
          (λ t.
            All-all P PrepareBlockedReason.dependency_scope_unknown candidates (λ c. inl (refl, t)))
          (λ f. tt))
        (All-append P (row_assignments trim_lower candidates input.captured_rows)
          (set_assignments input candidates)
          (All-map (λ a touches. inr (inl touches))
            (row_assignments trim_lower candidates input.captured_rows)
            (All-row_assignments trim_lower candidates input.captured_rows))
          (All-map (λ a set. inr (inr set)) (set_assignments input candidates)
            (All-set_assignments input candidates)))

  Assigned-assignments :
      (candidates : List Text) (c : Text) (r : PrepareBlockedReason)
      → Any (λ x. x ≡ c) candidates
      → Blocks trim_lower input c r
      → Assigned c r (all candidates)
  unfolding assignments scope_assignments
  Assigned-assignments candidates c r place (inl (same, t)) =
      append_left c r (scope_assignments candidates input.captured_rows)
        (row_assignments trim_lower candidates input.captured_rows
          ++ set_assignments input candidates)
        (rw t (
          subst (λ q. Assigned c r (map (λ d. (d, q)) candidates)) same
            (Assigned-all c r candidates place)))
  Assigned-assignments candidates c r place (inr other) =
      append_right c r (scope_assignments candidates input.captured_rows)
        (row_assignments trim_lower candidates input.captured_rows
          ++ set_assignments input candidates)
        (elim other [
          | inl touches ↦
              append_left c r (row_assignments trim_lower candidates input.captured_rows)
                (set_assignments input candidates)
                (Assigned-row_assignments trim_lower candidates c r input.captured_rows
                  (has-member candidates c place) touches)
          | inr set ↦
              append_right c r (row_assignments trim_lower candidates input.captured_rows)
                (set_assignments input candidates)
                (Assigned-set_assignments input c r candidates place set)
        ])

  -- What the reasons hold for a candidate.
  abbrev Decides : Text → Option PrepareBlockedReason → Type 0
  Decides c none = (r : PrepareBlockedReason) → ¬ Blocks trim_lower input c r
  Decides c (some r) =
      Blocks trim_lower input c r
      × ((q : PrepareBlockedReason) → Blocks trim_lower input c q → precedence r ≤ precedence q)

  Decides-Leaves :
      (c : Text) (candidates : List Text) (o : Option PrepareBlockedReason)
      → Any (λ x. x ≡ c) candidates
      → Leaves c (all candidates) none o
      → Decides c o
  Decides-Leaves c candidates none place h = λ r blocks.
      All-member (λ a. a.0 ≢ c) (all candidates) (c, r) h
        (Assigned-assignments candidates c r place blocks) refl
  Decides-Leaves c candidates (some r) place (given, least) = (
    All-member (λ (a : Assignment). Blocks trim_lower input a.0 (a.1)) (all candidates) (c, r)
        (All-assignments candidates) given,
    (λ q blocks.
        All-member (IsNoWorse c r) (all candidates) (c, q) least
          (Assigned-assignments candidates c q place blocks) refl),
  )

  abbrev reasons : List Text → Dict PrepareBlockedReason
  reasons candidates = assign_all (all candidates) []

  Decides-reasons :
      (candidates : List Text) (c : Text)
      → Any (λ x. x ≡ c) candidates
      → Decides c (lookup c (reasons candidates))
  unfolding lookup
  Decides-reasons candidates c place =
      Decides-Leaves c candidates (lookup c (reasons candidates)) place (
        subst (Leaves c (all candidates) none) (sym (lookup-assign_all c (all candidates) []))
          (choose-Leaves c (all candidates) none))

  module _ (m : Dict PrepareBlockedReason) where
    All-eligible_of :
        (cs : List Text)
        → All (λ c. Decides c (lookup c m)) cs
        → All (λ c. Decides c none) (eligible_of m cs)
    unfolding eligible_of
    All-eligible_of [] h = tt
    All-eligible_of (c ∷ cs) (first, rest) = elim (Option-cases (lookup c m)) [
      | inl free ↦ rw free ((rw free at first), All-eligible_of cs rest)
      | inr (r, taken) ↦ rw taken (All-eligible_of cs rest)
    ]

    All-blocked_of :
        (cs : List Text)
        → All (λ c. Decides c (lookup c m)) cs
        → All (λ (b : BlockedProduct). Decides b.product_uuid (some b.reason)) (blocked_of m cs)
    unfolding blocked_of
    All-blocked_of [] h = tt
    All-blocked_of (c ∷ cs) (first, rest) =
        option_cases (All (λ (b : BlockedProduct). Decides b.product_uuid (some b.reason)))
          (lookup c m) (λ free. All-blocked_of cs rest)
          (λ r taken. ((rw taken at first), All-blocked_of cs rest))

    kept_here :
        (d c : Text) (ds : List Text)
        → lookup d m ≡ none
        → d ≡ c
        → Any (λ x. x ≡ c) (eligible_of m (d ∷ ds))
    unfolding eligible_of
    kept_here d c ds free here = rw free (inl here)

    kept_later :
        (d c : Text) (ds : List Text)
        → Any (λ x. x ≡ c) (eligible_of m ds)
        → Any (λ x. x ≡ c) (eligible_of m (d ∷ ds))
    unfolding eligible_of
    kept_later d c ds place = elim (Option-cases (lookup d m)) [
      | inl free ↦ rw free (inr place)
      | inr (r, taken) ↦ rw taken place
    ]

    listed :
        (cs : List Text) (c : Text)
        → Any (λ x. x ≡ c) cs
        → Any (λ x. x ≡ c) (eligible_of m cs)
          ⊎ Any (λ (b : BlockedProduct). b.product_uuid ≡ c) (blocked_of m cs)
    unfolding blocked_of
    listed [] c h = absurd h
    listed (d ∷ ds) c (inl here) =
        option_cases
          (λ (bs : List BlockedProduct).
            Any (λ x. x ≡ c) (eligible_of m (d ∷ ds))
            ⊎ Any (λ (b : BlockedProduct). b.product_uuid ≡ c) bs)
          (lookup d m) (λ free. inl (kept_here d c ds free here)) (λ r taken. inr (inl here))
    listed (d ∷ ds) c (inr place) =
        let before = listed ds c place in
        option_cases
          (λ (bs : List BlockedProduct).
            Any (λ x. x ≡ c) (eligible_of m (d ∷ ds))
            ⊎ Any (λ (b : BlockedProduct). b.product_uuid ≡ c) bs)
          (lookup d m) (λ free. elim before [ inl e ↦ inl (kept_later d c ds e) | inr b ↦ inr b ])
          (λ r taken. elim before [ inl e ↦ inl (kept_later d c ds e) | inr b ↦ inr (inr b) ])

-- A partition by the reasons that apply.
pub record IsPartition (trim_lower : Text → Text) (input : PartitionInput)
    (result : PartitionResult) : Type 0 where
  eligible_free :
      All (λ c. (r : PrepareBlockedReason) → ¬ Blocks trim_lower input c r) result.eligible
  blocked_first :
      All
        (λ (b : BlockedProduct).
          Blocks trim_lower input b.product_uuid b.reason
          × ((r : PrepareBlockedReason)
              → Blocks trim_lower input b.product_uuid r
              → precedence b.reason ≤ precedence r))
        result.blocked
  every_candidate :
      All
        (λ c.
          Any (λ x. x ≡ c) result.eligible
          ⊎ Any (λ (b : BlockedProduct). b.product_uuid ≡ c) result.blocked)
        (map trim_lower input.candidate_product_uuids)

-- Every candidate comes out as eligible or as blocked; no reason applies to an eligible one, and the
-- reason of a blocked one applies to it and is the most urgent of those that do.
pub partition_candidates-IsPartition :
    (trim_lower : Text → Text) (input : PartitionInput)
    → IsPartition trim_lower input (partition_candidates trim_lower input)
unfolding partition_candidates
partition_candidates-IsPartition trim_lower input =
    let cs = map trim_lower input.candidate_product_uuids in
    let m = reasons trim_lower input cs in
    let decided : All (λ c. Decides trim_lower input c (lookup c m)) cs =
      All-map (Decides-reasons trim_lower input cs) cs (All-members cs) in
    record {
      eligible_free = All-eligible_of trim_lower input m cs decided;
      blocked_first = All-blocked_of trim_lower input m cs decided;
      every_candidate = All-map (listed trim_lower input m cs) cs (All-members cs);
    }
