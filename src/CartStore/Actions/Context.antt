-- ===== src/CartStore/Actions/Context.antt =====
-- The context tokens of the draft store, by which an answer that comes late is told to belong to
-- another draft (src/renderer/src/modules/pos/cart.store.ts).
use pos_desktop.Prelude.{
  ℕ, ◌+◌, ◌≤◌, ◌≡◌, refl, sym, ◌∙◌, ap, subst, Bool, true, false, not, ◌&&◌, ◌||◌, Option, some,
  List, [], ◌∷◌, ◌++◌, arith, length, leb, ◌==◌, any, if◌then◌else◌, find, if_cases, option_cases,
}
use pos_desktop.Prelude.Text.{
  Text, text_eq_iff, is_digit, digit_run, after_digits, digits_value, decimal, decimal-Digits,
  digits_value-decimal, digit_run-append, after_digits-append,
}
use pos_desktop.Catalog.{CatalogContract}
use pos_desktop.CartStore.{HeldDraft, Store, accept, clear, CartLineSnapshot, max_held_drafts}
use pos_desktop.CartStore.Catalogs.{
  is_frozen_under_other, revision_changed, unflagged, set_contract,
}
use pos_desktop.CartStore.Parking.{
  Customer, hold_draft, restore, restore_outdated, is_outdated, has_id, without, recall_draft,
  discard_held_draft, reset_draft, capture_context, is_current_context, forget_held,
}
use pos_desktop.CartStore.Actions.{
  Edit, edit, Action, edits, sets_contract, sets_validity, locks, clears, resets, holds, recalls,
  discards, step, run,
}
use pos_desktop.CartStore.Actions.Outcomes.{
  ignored, rejected, committed, cleared, trimmed, rebuilt, refused, accepted, commit-Committed,
}
use pos_desktop.CartStore.Actions.Kept.{edit-Outcome}
use pos_desktop.CartStore.Actions.Progress.{
  SameDraft, SameCatalog, still, moved, Progress-refl, Progress-trans, installed_catalog,
  evaluated-Progress, Progress,
}

-- The store with a contract installed, before its draft is looked at.
abbrev installed : Store → CatalogContract → Bool → Store
installed s next flag = record s {
  contract = some next;
  catalog_valid = true;
  catalog_generation =
      if revision_changed s.contract next then s.catalog_generation + 1 else s.catalog_generation;
  catalog_changed = flag;
}

installed-Progress :
    (s : Store) (next : CatalogContract) (flag : Bool) → Progress s (installed s next flag)
installed-Progress s next flag = record {
  context = omega arith;
  draft = omega arith;
  catalog = counted (revision_changed s.contract next) s.catalog_generation;
  same_draft = λ e. (refl, refl, refl);
  same_catalog = λ e.
      installed_catalog s.contract next
        (unmoved (revision_changed s.contract next) s.catalog_generation e);
}
  where
    counted : (b : Bool) (n : ℕ) → n ≤ (if b then n + 1 else n)
    counted b n = ground arith

    unmoved : (b : Bool) (n : ℕ) → (if b then n + 1 else n) ≡ n → b ≡ false
    unmoved b n e = ground arith

module _ (locale_after : Text → Text → Bool) where
  edit-Progress : (s : Store) (e : Edit) → Progress s (edit locale_after s e).0
  unfolding accept clear
  edit-Progress s e = elim (edit-Outcome locale_after s e) [
    | ignored r ↦ subst (λ q. Progress s q.0) (sym r) (Progress-refl s)
    | rejected code r ↦
        subst (λ q. Progress s q.0) (sym r) (still s _ refl refl refl (refl, refl, refl) refl)
    | committed c next type value now state offers present same derived made fine r ↦
        subst (λ q. Progress s q.0) (sym r) (moved s _ (omega arith) refl refl refl)
    | cleared sale r ↦ subst (λ q. Progress s q.0) (sym r) (moved s _ (omega arith) refl refl refl)
    | trimmed next changed some_lines fewer kept r ↦
        subst (λ q. Progress s q.0) (sym r) (moved s _ (omega arith) refl refl refl)
    | rebuilt c next now state offers present under fewer made fine r ↦
        subst (λ q. Progress s q.0) (sym r) (moved s _ (omega arith) refl refl refl)
  ]

  unflagged-Progress :
      (s : Store) (lines : List CartLineSnapshot) (now : ℕ)
      → Progress s (unflagged locale_after s lines now)
  unfolding unflagged
  unflagged-Progress s [] now = still s _ refl refl refl (refl, refl, refl) refl
  unflagged-Progress s (line ∷ lines) now = evaluated-Progress s _

  set_contract-Progress :
      (s : Store) (next : CatalogContract) (now : ℕ)
      → Progress s (set_contract locale_after s next now)
  unfolding set_contract
  set_contract-Progress s next now =
      if_cases (Progress s)
        ((revision_changed s.contract next || any (is_frozen_under_other next.revision) s.lines)
          && not (length s.lines == 0))
        (λ flag.
          Progress-trans s (installed s next true) _ (installed-Progress s next true)
            (still (installed s next true) _ refl refl refl (refl, refl, refl) refl))
        λ clean.
          Progress-trans s (installed s next false) _ (installed-Progress s next false)
            (unflagged-Progress (installed s next false) s.lines now)

  hold_draft-Progress :
      (s : Store) (customer : Option Customer) (id sale : Text) (now : ℕ)
      → Progress s (hold_draft s customer id sale now).0
  unfolding hold_draft clear
  hold_draft-Progress s customer id sale now =
      if_cases Kept (length s.lines == 0) (λ none_left. Progress-refl s)
        λ filled.
          if_cases Kept s.locked (λ locked. still s _ refl refl refl (refl, refl, refl) refl)
            λ free.
              if_cases Kept (leb max_held_drafts (length s.held_drafts))
                (λ full. still s _ refl refl refl (refl, refl, refl) refl)
                λ room. moved s _ (omega arith) refl refl refl
    where
      Kept : Store × Option HeldDraft → Type 0
      Kept q = Progress s q.0

  restore-Progress :
      (s : Store) (held : HeldDraft) (now : ℕ) → Progress s (restore locale_after s held now).0
  unfolding restore restore_outdated accept
  restore-Progress s held now =
      if_cases Kept (is_outdated s.contract held.lines)
        (λ outdated. moved s _ (omega arith) refl refl refl)
        λ current.
          elim (commit-Committed locale_after s held.lines held.invoice_discount_type
            held.invoice_discount_value now) [
              | refused code e ↦
                  subst Kept (sym e) (still s _ refl refl refl (refl, refl, refl) refl)
              | accepted c state offers present made fine e ↦
                  subst Kept (sym e) (moved s _ (omega arith) refl refl refl)
            ]
    where
      Kept : Store × Bool → Type 0
      Kept q = Progress s q.0

  recall_draft-Progress :
      (s : Store) (id sale : Text) (now : ℕ)
      → Progress s (recall_draft locale_after s id sale now).0
  unfolding recall_draft
  recall_draft-Progress s id sale now =
      option_cases Kept (find (has_id id) s.held_drafts) (λ absent. Progress-refl s)
        λ (held : HeldDraft) found.
          if_cases Kept (not (length s.lines == 0)) (λ busy. Progress-refl s)
            λ idle.
              if_cases Kept s.locked (λ locked. still s _ refl refl refl (refl, refl, refl) refl)
                λ free.
                  let anew : Store = record s { sale_id = sale } in
                  let restored = (restore locale_after anew held now) in
                  let made =
                    Progress-trans s anew restored.0
                      (still s anew refl refl refl (refl, refl, refl) refl)
                      (restore-Progress anew held now) in
                  if_cases Kept restored.1
                    (λ done.
                      Progress-trans s restored.0 (forget_held restored.0 id) made
                        (still restored.0 _ refl refl refl (refl, refl, refl) refl))
                    λ kept. made
    where
      Kept : Store × Option HeldDraft → Type 0
      Kept q = Progress s q.0

  discard_held_draft-Progress : (s : Store) (id : Text) → Progress s (discard_held_draft s id).0
  unfolding discard_held_draft
  discard_held_draft-Progress s id =
      if_cases (λ (q : Store × Bool). Progress s q.0)
        (length (without id s.held_drafts) == length s.held_drafts) (λ missing. Progress-refl s)
        λ found. still s _ refl refl refl (refl, refl, refl) refl

  step-Progress : (s : Store) (a : Action) → Progress s (step locale_after s a)
  unfolding step clear reset_draft
  step-Progress s (edits e) = edit-Progress s e
  step-Progress s (sets_contract next now) = set_contract-Progress s next now
  step-Progress s (sets_validity is_valid) = still s _ refl refl refl (refl, refl, refl) refl
  step-Progress s (locks value) = still s _ refl refl refl (refl, refl, refl) refl
  step-Progress s (clears sale) = moved s _ (omega arith) refl refl refl
  step-Progress s (resets sale) = moved s _ (omega arith) refl refl refl
  step-Progress s (holds customer id sale now) = hold_draft-Progress s customer id sale now
  step-Progress s (recalls id sale now) = recall_draft-Progress s id sale now
  step-Progress s (discards id) = discard_held_draft-Progress s id

  pub run-Progress : (s : Store) (actions : List Action) → Progress s (run locale_after s actions)
  unfolding run
  run-Progress s [] = Progress-refl s
  run-Progress s (a ∷ actions) =
      Progress-trans s (step locale_after s a) _ (step-Progress s a)
        (run-Progress (step locale_after s a) actions)

abbrev tail : Text → Text
tail [] = []
tail (c ∷ s) = s

-- A counter and what follows its separator are read back from a token.
decimal-inj :
    (a b : ℕ) (s t : Text) → decimal a ++ (b':' ∷ s) ≡ decimal b ++ (b':' ∷ t) → (a ≡ b) × (s ≡ t)
decimal-inj a b s t e =
    let colon : is_digit b':' ≡ false = unfold is_digit in refl in
    let heads : decimal a ≡ decimal b =
      sym (digit_run-append (decimal a) b':' s (decimal-Digits a) colon)
      ∙ ap digit_run e
      ∙ digit_run-append (decimal b) b':' t (decimal-Digits b) colon in
    let tails : b':' ∷ s ≡ b':' ∷ t =
      sym (after_digits-append (decimal a) b':' s (decimal-Digits a) colon)
      ∙ ap after_digits e
      ∙ after_digits-append (decimal b) b':' t (decimal-Digits b) colon in
    (sym (digits_value-decimal a) ∙ ap digits_value heads ∙ digits_value-decimal b, ap tail tails)

-- A token names the three counters.
capture_context-inj :
    (s t : Store)
    → is_current_context t (capture_context s) ≡ true
    → (s.context_generation ≡ t.context_generation)
      × (s.draft_revision ≡ t.draft_revision)
      × (s.catalog_generation ≡ t.catalog_generation)
unfolding capture_context is_current_context
capture_context-inj s t h =
    let (context, rest) =
      decimal-inj s.context_generation t.context_generation _ _ ((text_eq_iff _ _).0 h) in
    let (draft, last) = decimal-inj s.draft_revision t.draft_revision _ _ rest in
    (
      context,
      draft,
      sym (digits_value-decimal s.catalog_generation)
          ∙ ap digits_value last
          ∙ digits_value-decimal t.catalog_generation,
    )

-- If a token is current after any calls, they did not reset the store, and left the lines, the
-- invoice's discount and the revision of an installed contract as they were when it was captured.
pub is_current_context-run :
    (locale_after : Text → Text → Bool) (s : Store) (actions : List Action)
    → is_current_context (run locale_after s actions) (capture_context s) ≡ true
    → SameDraft s (run locale_after s actions)
      × SameCatalog s.contract (run locale_after s actions).contract
      × ((run locale_after s actions).context_generation ≡ s.context_generation)
is_current_context-run locale_after s actions h =
    let progress = run-Progress locale_after s actions in
    let (context, draft, catalog) = capture_context-inj s (run locale_after s actions) h in
    (progress.same_draft (sym draft), progress.same_catalog (sym catalog), sym context)
