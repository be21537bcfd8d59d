-- ===== src/CartStore/Actions/Preserved.antt =====
-- Every call keeps the invariant of the draft store (src/renderer/src/modules/pos/cart.store.ts).
use pos_desktop.Prelude.{
  ℕ, ◌≡◌, refl, sym, subst, inl, inr, Bool, false, not, Option, List, [], ◌∷◌, leb, ◌==◌, arith,
  length, filter, find, find-member, All-member, All-append, All-filter, length-append,
  length-filter, if_cases, option_cases, Bool-cases,
}
use pos_desktop.Prelude.Text.{Text}
use pos_desktop.CartStore.{HeldDraft, max_held_drafts, Store, fresh_store}
use pos_desktop.CartStore.Parking.{
  hold_draft, parked, recall_draft, restore, restore_outdated, is_outdated, has_id, without,
  discard_held_draft, reset_draft, Customer, add_held, new_context,
}
use pos_desktop.CartStore.Actions.{
  Action, edits, sets_contract, sets_validity, locks, clears, resets, holds, recalls, discards,
  step, run,
}
use pos_desktop.CartStore.Actions.Outcomes.{refused, accepted, commit-Committed}
use pos_desktop.CartStore.Actions.Consistent.{IsParked, IsConsistent, fresh_store-IsConsistent}
use pos_desktop.CartStore.Actions.Commits.{set_contract-IsConsistent}
use pos_desktop.CartStore.Actions.Flags.{
  accept-IsConsistent, clear-IsConsistent, reject-IsConsistent, outdated-IsConsistent,
  edit-IsConsistent, one_more, nonzero, zero_lines, parked-IsParked, current-IsUnder,
}

module _ (locale_after : Text → Text → Bool) where
  reset_draft-IsConsistent :
      (s : Store) (sale : Text) → IsConsistent locale_after (reset_draft s sale)
  unfolding reset_draft
  reset_draft-IsConsistent s sale =
      clear-IsConsistent locale_after (new_context s) sale (omega arith) tt

  hold_draft-IsConsistent :
      (s : Store) (customer : Option Customer) (id sale : Text) (now : ℕ)
      → IsConsistent locale_after s
      → IsConsistent locale_after (hold_draft s customer id sale now).0
  unfolding hold_draft
  hold_draft-IsConsistent s customer id sale now v =
      if_cases Kept (length s.lines == 0) (λ none_left. v)
        λ filled.
          if_cases Kept s.locked (λ locked. reject-IsConsistent locale_after s _ v)
            λ free.
              if_cases Kept (leb max_held_drafts (length s.held_drafts))
                (λ full. reject-IsConsistent locale_after s _ v)
                λ room.
                  clear-IsConsistent locale_after (add_held s (parked s customer id now)) sale
                    (one_more (length s.held_drafts) room (length-append s.held_drafts _))
                    (All-append IsParked s.held_drafts _ v.parked (
                      parked-IsParked s customer id now (nonzero (length s.lines) filled) v.few
                          v.snapshots,
                      tt,
                    ))
    where
      Kept : Store × Option HeldDraft → Type 0
      Kept q = IsConsistent locale_after q.0

  restore-IsConsistent :
      (s : Store) (held : HeldDraft) (now : ℕ)
      → IsConsistent locale_after s
      → s.catalog_changed ≡ false
      → IsParked held
      → IsConsistent locale_after (restore locale_after s held now).0
  unfolding restore restore_outdated
  restore-IsConsistent s held now v same (some_lines, few, snapshots, count) =
      if_cases Kept (is_outdated s.contract held.lines)
        (λ outdated.
          outdated-IsConsistent locale_after _ refl refl some_lines snapshots few v.few_held
            v.parked)
        λ current.
          elim (commit-Committed locale_after s held.lines held.invoice_discount_type
            held.invoice_discount_value now) [
              | refused code e ↦ subst Kept (sym e) (reject-IsConsistent locale_after s code v)
              | accepted c state offers present made fine e ↦ subst Kept (sym e) (
                  accept-IsConsistent locale_after s c held.lines _ _ now state offers present same
                    (current-IsUnder c held.lines snapshots
                      (subst (λ o. is_outdated o held.lines ≡ false) present current))
                    few v.few_held v.parked made fine)
            ]
    where
      Kept : Store × Bool → Type 0
      Kept q = IsConsistent locale_after q.0

  sale_id-IsConsistent :
      (s : Store) (sale : Text)
      → IsConsistent locale_after s
      → IsConsistent locale_after (record s { sale_id = sale })
  sale_id-IsConsistent s sale v = record {
    agrees = v.agrees;
    uniform = v.uniform;
    flagged = v.flagged;
    snapshots = v.snapshots;
    few = v.few;
    few_held = v.few_held;
    parked = v.parked;
  }

  -- The held list may lose drafts.
  forget-IsConsistent :
      (s : Store) (p : HeldDraft → Bool)
      → IsConsistent locale_after s
      → IsConsistent locale_after (record s { held_drafts = filter p s.held_drafts })
  forget-IsConsistent s p v = record {
    agrees = v.agrees;
    uniform = v.uniform;
    flagged = v.flagged;
    snapshots = v.snapshots;
    few = v.few;
    few_held = omega (arith, v.few_held, length-filter p s.held_drafts);
    parked = All-filter IsParked p s.held_drafts v.parked;
  }

  recall_draft-IsConsistent :
      (s : Store) (id sale : Text) (now : ℕ)
      → IsConsistent locale_after s
      → IsConsistent locale_after (recall_draft locale_after s id sale now).0
  unfolding recall_draft
  recall_draft-IsConsistent s id sale now v =
      option_cases Kept (find (has_id id) s.held_drafts) (λ absent. v)
        λ (held : HeldDraft) found.
          if_cases Kept (not (length s.lines == 0)) (λ busy. v)
            λ idle.
              if_cases Kept s.locked (λ locked. reject-IsConsistent locale_after s _ v)
                λ free.
                  let restored =
                    restore-IsConsistent (record s { sale_id = sale }) held now
                      (sale_id-IsConsistent s sale v) (unflagged_of s v idle)
                      (All-member IsParked s.held_drafts held v.parked
                        (find-member (has_id id) s.held_drafts held found).0) in
                  if_cases Kept _ (λ done. forget-IsConsistent _ (λ h. not (has_id id h)) restored)
                    λ kept. restored
    where
      Kept : Store × Option HeldDraft → Type 0
      Kept q = IsConsistent locale_after q.0

      unflagged_of :
          (s : Store)
          → IsConsistent locale_after s
          → not (length s.lines == 0) ≡ false
          → s.catalog_changed ≡ false
      unflagged_of s v idle = elim (Bool-cases s.catalog_changed) [
        | inl changed ↦ absurd (zero_lines (length s.lines) idle (v.flagged changed).0)
        | inr same ↦ same
      ]

  discard_held_draft-IsConsistent :
      (s : Store) (id : Text)
      → IsConsistent locale_after s
      → IsConsistent locale_after (discard_held_draft s id).0
  unfolding discard_held_draft
  discard_held_draft-IsConsistent s id v =
      if_cases (λ (q : Store × Bool). IsConsistent locale_after q.0)
        (length (without id s.held_drafts) == length s.held_drafts) (λ missing. v)
        λ found. forget-IsConsistent s (λ h. not (has_id id h)) v

  pub step-IsConsistent :
      (s : Store) (a : Action)
      → IsConsistent locale_after s
      → IsConsistent locale_after (step locale_after s a)
  unfolding step
  step-IsConsistent s (edits e) v = edit-IsConsistent locale_after s e v
  step-IsConsistent s (sets_contract next now) v =
      set_contract-IsConsistent locale_after s next now v
  step-IsConsistent s (sets_validity is_valid) v = record {
    agrees = v.agrees;
    uniform = v.uniform;
    flagged = v.flagged;
    snapshots = v.snapshots;
    few = v.few;
    few_held = v.few_held;
    parked = v.parked;
  }
  step-IsConsistent s (locks value) v = record {
    agrees = v.agrees;
    uniform = v.uniform;
    flagged = v.flagged;
    snapshots = v.snapshots;
    few = v.few;
    few_held = v.few_held;
    parked = v.parked;
  }
  step-IsConsistent s (clears sale) v = clear-IsConsistent locale_after s sale v.few_held v.parked
  step-IsConsistent s (resets sale) v = reset_draft-IsConsistent s sale
  step-IsConsistent s (holds customer id sale now) v =
      hold_draft-IsConsistent s customer id sale now v
  step-IsConsistent s (recalls id sale now) v = recall_draft-IsConsistent s id sale now v
  step-IsConsistent s (discards id) v = discard_held_draft-IsConsistent s id v

  run-IsConsistent :
      (s : Store) (actions : List Action)
      → IsConsistent locale_after s
      → IsConsistent locale_after (run locale_after s actions)
  unfolding run
  run-IsConsistent s [] v = v
  run-IsConsistent s (a ∷ actions) v =
      run-IsConsistent (step locale_after s a) actions (step-IsConsistent s a v)

  -- After any calls from a fresh store, a valid state is the calculation of the draft's lines under
  -- the installed contract and the offers shown; unless the draft is flagged as outdated, every line
  -- is of the contract's revision; a flagged draft has lines and no valid totals; every line carries
  -- its own merge key and no image; there are at most 100 lines and 20 held drafts, each a draft of
  -- that kind.
  pub run_fresh-IsConsistent :
      (sale : Text) (actions : List Action)
      → IsConsistent locale_after (run locale_after (fresh_store sale) actions)
  run_fresh-IsConsistent sale actions =
      run-IsConsistent (fresh_store sale) actions (fresh_store-IsConsistent locale_after sale)
