-- ===== src/Preparation/Loops.antt =====
-- What the loops that assign reasons assign (src/main/services/preparationDependencies.ts).
use pos_desktop.Prelude.{
  ◌≡◌, refl, Bool, true, false, some, List, [], ◌∷◌, ◌++◌, map, sym, ap, ◌∙◌, arith, inl, inr, ◌⊎◌,
  subst, All, Any, All-map, All-append, if_cases, option_cases,
}
use pos_desktop.Prelude.Text.{Text, text_eq_iff}
use pos_desktop.Preparation.{
  PrepareBlockedReason, blocked_reason_for_queue_state, CapturedQueueRow, PartitionInput, has,
  Assignment, touched, assignments_of, row_assignments, assignment_if, assignments_for_candidate,
  set_assignments,
}

abbrev pub Assigned : Text → PrepareBlockedReason → List Assignment → Type 0
Assigned c r es = Any (λ (a : Assignment). a ≡ (c, r)) es

pub append_left :
    (c : Text) (r : PrepareBlockedReason) (es fs : List Assignment)
    → Assigned c r es
    → Assigned c r (es ++ fs)
append_left c r [] fs h = absurd h
append_left c r (e ∷ es) fs (inl here) = inl here
append_left c r (e ∷ es) fs (inr place) = inr (append_left c r es fs place)

pub append_right :
    (c : Text) (r : PrepareBlockedReason) (es fs : List Assignment)
    → Assigned c r fs
    → Assigned c r (es ++ fs)
append_right c r [] fs h = h
append_right c r (e ∷ es) fs h = inr (append_right c r es fs h)

Assigned-if :
    (test : Bool) (c : Text) (r : PrepareBlockedReason)
    → test ≡ true
    → Assigned c r (assignment_if test c r)
Assigned-if true c r h = inl refl
Assigned-if false c r h = absurd (cc (h))

All-if :
    (P : Assignment → Type 0) (test : Bool) (c : Text) (r : PrepareBlockedReason)
    → (test ≡ true → P (c, r))
    → All P (assignment_if test c r)
All-if P true c r h = (h refl, tt)
All-if P false c r h = tt

pub has-member : (xs : List Text) (c : Text) → Any (λ x. x ≡ c) xs → has xs c ≡ true
has-member [] c h = absurd h
has-member (x ∷ xs) c (inl same) = rw ((text_eq_iff c x).1 (sym same)) refl
has-member (x ∷ xs) c (inr place) = ground (arith, has-member xs c place)

pub All-members : (xs : List Text) → All (λ x. Any (λ y. y ≡ x) xs) xs
All-members [] = tt
All-members (x ∷ xs) = (inl refl, All-map (λ y place. inr place) xs (All-members xs))

module _ (trim_lower : Text → Text) where
  abbrev pub Touches : Text → PrepareBlockedReason → CapturedQueueRow → Type 0
  Touches c r row =
      (blocked_reason_for_queue_state row.state ≡ some r)
      × Any (λ p. trim_lower p ≡ c) row.product_uuids

  All-touched :
      (candidates : List Text) (r : PrepareBlockedReason) (products : List Text)
      → All
          (λ (a : Assignment). Any (λ p. trim_lower p ≡ a.0) products × (a.1 ≡ r))
          (touched trim_lower candidates r products)
  unfolding touched
  All-touched candidates r [] = tt
  All-touched candidates r (p ∷ ps) =
      let rest =
        All-map {Q = λ (a : Assignment). Any (λ x. trim_lower x ≡ a.0) (p ∷ ps) × (a.1 ≡ r)}
          (λ a (place, same). (inr place, same)) (touched trim_lower candidates r ps)
          (All-touched candidates r ps) in
      if_cases (All (λ (a : Assignment). Any (λ x. trim_lower x ≡ a.0) (p ∷ ps) × (a.1 ≡ r)))
        (has candidates (trim_lower p)) (λ t. ((inl refl, refl), rest)) (λ f. rest)

  Assigned-touched :
      (candidates : List Text) (c : Text) (r : PrepareBlockedReason) (products : List Text)
      → has candidates c ≡ true
      → Any (λ p. trim_lower p ≡ c) products
      → Assigned c r (touched trim_lower candidates r products)
  unfolding touched
  Assigned-touched candidates c r [] inside h = absurd h
  Assigned-touched candidates c r (p ∷ ps) inside (inl here) =
      rw (ap (has candidates) here ∙ inside) (inl (cc (here)))
  Assigned-touched candidates c r (p ∷ ps) inside (inr place) =
      let rest = Assigned-touched candidates c r ps inside place in
      if_cases (Assigned c r) (has candidates (trim_lower p)) (λ t. inr rest) (λ f. rest)

  pub All-row_assignments :
      (candidates : List Text) (rows : List CapturedQueueRow)
      → All
          (λ (a : Assignment). Any (Touches a.0 (a.1)) rows)
          (row_assignments trim_lower candidates rows)
  unfolding row_assignments
  All-row_assignments candidates [] = tt
  All-row_assignments candidates (row ∷ rows) =
      All-append (λ (a : Assignment). Any (Touches a.0 (a.1)) (row ∷ rows))
        (assignments_of trim_lower candidates row) (row_assignments trim_lower candidates rows)
        (option_cases (All (λ (a : Assignment). Any (Touches a.0 (a.1)) (row ∷ rows)))
          (blocked_reason_for_queue_state row.state) (λ no. tt)
          (λ r is.
            All-map (λ a (place, same). inl (is ∙ ap some (sym same), place))
              (touched trim_lower candidates r row.product_uuids)
              (All-touched candidates r row.product_uuids)))
        (All-map (λ a place. inr place) (row_assignments trim_lower candidates rows)
          (All-row_assignments candidates rows))

  pub Assigned-row_assignments :
      (candidates : List Text) (c : Text) (r : PrepareBlockedReason) (rows : List CapturedQueueRow)
      → has candidates c ≡ true
      → Any (Touches c r) rows
      → Assigned c r (row_assignments trim_lower candidates rows)
  unfolding row_assignments
  Assigned-row_assignments candidates c r [] inside h = absurd h
  Assigned-row_assignments candidates c r (row ∷ rows) inside (inl (reason, place)) =
      append_left c r (assignments_of trim_lower candidates row)
        (row_assignments trim_lower candidates rows)
        (rw (assignments_of, reason)
          (Assigned-touched candidates c r row.product_uuids inside place))
  Assigned-row_assignments candidates c r (row ∷ rows) inside (inr place) =
      append_right c r (assignments_of trim_lower candidates row)
        (row_assignments trim_lower candidates rows)
        (Assigned-row_assignments candidates c r rows inside place)

pub Assigned-all :
    (c : Text) (r : PrepareBlockedReason) (candidates : List Text)
    → Any (λ x. x ≡ c) candidates
    → Assigned c r (map (λ d. (d, r)) candidates)
Assigned-all c r [] h = absurd h
Assigned-all c r (d ∷ ds) (inl same) = inl (cc (same))
Assigned-all c r (d ∷ ds) (inr place) = inr (Assigned-all c r ds place)

pub All-all :
    (P : Assignment → Type 0) (r : PrepareBlockedReason) (candidates : List Text)
    → ((c : Text) → P (c, r))
    → All P (map (λ d. (d, r)) candidates)
All-all P r [] h = tt
All-all P r (d ∷ ds) h = (h d, All-all P r ds h)

-- The last loop's assignments for one candidate.
abbrev pub InSet : PartitionInput → Assignment → Type 0
InSet input (c, r) =
    ((r ≡ PrepareBlockedReason.policy_disabled) × (has input.policy_disabled_products c ≡ true))
    ⊎ ((r ≡ PrepareBlockedReason.blocked_by_unreleased_hold) × (has input.held_products c ≡ true))
    ⊎ ((r ≡ PrepareBlockedReason.owned_by_unresolved_operation)
        × (has input.owned_by_unresolved_operations c ≡ true))

pub All-set_assignments :
    (input : PartitionInput) (candidates : List Text)
    → All (InSet input) (set_assignments input candidates)
unfolding set_assignments
All-set_assignments input [] = tt
All-set_assignments input (c ∷ cs) =
    All-append (InSet input) (assignments_for_candidate input c) (set_assignments input cs)
      (All-append (InSet input)
        (assignment_if (has input.policy_disabled_products c) c
          PrepareBlockedReason.policy_disabled)
        (assignment_if (has input.held_products c) c PrepareBlockedReason.blocked_by_unreleased_hold
          ++ assignment_if (has input.owned_by_unresolved_operations c) c
              PrepareBlockedReason.owned_by_unresolved_operation)
        (All-if (InSet input) (has input.policy_disabled_products c) c
          PrepareBlockedReason.policy_disabled (λ t. inl (refl, t)))
        (All-append (InSet input)
          (assignment_if (has input.held_products c) c
            PrepareBlockedReason.blocked_by_unreleased_hold)
          (assignment_if (has input.owned_by_unresolved_operations c) c
            PrepareBlockedReason.owned_by_unresolved_operation)
          (All-if (InSet input) (has input.held_products c) c
            PrepareBlockedReason.blocked_by_unreleased_hold (λ t. inr (inl (refl, t))))
          (All-if (InSet input) (has input.owned_by_unresolved_operations c) c
            PrepareBlockedReason.owned_by_unresolved_operation (λ t. inr (inr (refl, t))))))
      (All-set_assignments input cs)

Assigned-candidate :
    (input : PartitionInput) (c : Text) (r : PrepareBlockedReason)
    → InSet input (c, r)
    → Assigned c r (assignments_for_candidate input c)
Assigned-candidate input c r (inl (same, t)) =
    append_left c r
      (assignment_if (has input.policy_disabled_products c) c PrepareBlockedReason.policy_disabled)
      (assignment_if (has input.held_products c) c PrepareBlockedReason.blocked_by_unreleased_hold
        ++ assignment_if (has input.owned_by_unresolved_operations c) c
            PrepareBlockedReason.owned_by_unresolved_operation)
      (rw (t, same) (inl refl))
Assigned-candidate input c r (inr set) =
    append_right c r
      (assignment_if (has input.policy_disabled_products c) c PrepareBlockedReason.policy_disabled)
      (assignment_if (has input.held_products c) c PrepareBlockedReason.blocked_by_unreleased_hold
        ++ assignment_if (has input.owned_by_unresolved_operations c) c
            PrepareBlockedReason.owned_by_unresolved_operation)
      (elim set [
        | inl (same, t) ↦ rw (t, same) (inl refl)
        | inr (same, t) ↦
            append_right c r
              (assignment_if (has input.held_products c) c
                PrepareBlockedReason.blocked_by_unreleased_hold)
              (assignment_if (has input.owned_by_unresolved_operations c) c
                PrepareBlockedReason.owned_by_unresolved_operation)
              (rw (t, same) (inl refl))
      ])

pub Assigned-set_assignments :
    (input : PartitionInput) (c : Text) (r : PrepareBlockedReason) (candidates : List Text)
    → Any (λ x. x ≡ c) candidates
    → InSet input (c, r)
    → Assigned c r (set_assignments input candidates)
unfolding set_assignments
Assigned-set_assignments input c r [] h set = absurd h
Assigned-set_assignments input c r (d ∷ ds) (inl same) set =
    append_left c r (assignments_for_candidate input d) (set_assignments input ds) (
      subst (λ x. Assigned c r (assignments_for_candidate input x)) (sym same)
        (Assigned-candidate input c r set))
Assigned-set_assignments input c r (d ∷ ds) (inr place) set =
    append_right c r (assignments_for_candidate input d) (set_assignments input ds)
      (Assigned-set_assignments input c r ds place set)
