-- ===== src/CartStore/Actions/Locked.antt =====
-- A draft under a protected payment attempt (src/renderer/src/modules/pos/cart.store.ts).
use pos_desktop.Prelude.{
  ℕ, ◌≡◌, refl, sym, ◌∙◌, subst, inl, inr, ◌⊎◌, Bool, true, false, not, ◌&&◌, ◌||◌, Option, List,
  [], ◌∷◌, arith, length, ◌==◌, any, every, if◌then◌else◌, find, if_cases, option_cases, and_true,
}
use pos_desktop.Prelude.Text.{Text}
use pos_desktop.Prelude.Dict.{Dict}
use pos_desktop.Catalog.{CatalogContract}
use pos_desktop.Offers.{AppliedOffer}
use pos_desktop.CartStore.{
  CartLineSnapshot, HeldDraft, CartState, empty, valid, invalid, Store, refuse, cart_attempt_locked,
}
use pos_desktop.CartStore.Editing.{
  is_present, with_catalog, with_discount, add_product, change_quantity, set_quantity,
  set_line_discount, set_invoice_discount, remove, reprice_offers,
}
use pos_desktop.CartStore.Catalogs.{
  is_frozen_under_other, revision_changed, unflagged, evaluated, set_contract, rebuild_from_catalog,
}
use pos_desktop.CartStore.Parking.{
  Customer, hold_draft, has_id, without, recall_draft, discard_held_draft,
}
use pos_desktop.CartStore.Actions.{
  Edit, adds, changes_quantity, sets_quantity, discounts_line, discounts_invoice, removes, reprices,
  rebuilds, edit, Action, edits, sets_contract, sets_validity, locks, clears, resets, holds,
  recalls, discards, step, run,
}

-- The calls that end an attempt: an unlock, and what replaces the draft.
abbrev pub releases : Action → Bool
releases (edits e) = false
releases (sets_contract next now) = false
releases (sets_validity is_valid) = false
releases (locks value) = not value
releases (clears sale) = true
releases (resets sale) = true
releases (holds customer id sale now) = false
releases (recalls id sale now) = false
releases (discards id) = false

-- `setContract`, which the lock does not stop.
abbrev pub is_contract : Action → Bool
is_contract (edits e) = false
is_contract (sets_contract next now) = true
is_contract (sets_validity is_valid) = false
is_contract (locks value) = false
is_contract (clears sale) = false
is_contract (resets sale) = false
is_contract (holds customer id sale now) = false
is_contract (recalls id sale now) = false
is_contract (discards id) = false

-- The same totals, offers, flag and contract, unless a contract was set.
abbrev pub IsShown : Bool → Store → Store → Type 0
IsShown true s t = Unit
IsShown false s t =
    (t.cart_state ≡ s.cart_state)
    × (t.last_valid ≡ s.last_valid)
    × (t.applied_offers ≡ s.applied_offers)
    × (t.catalog_changed ≡ s.catalog_changed)
    × (t.contract ≡ s.contract)

-- Still locked, and the same sale: its lines, its discount, its revision and its identity; and,
-- unless a contract was set, what is shown of it.
abbrev pub Frozen : Bool → Store → Store → Type 0
Frozen b s t =
    (t.locked ≡ true)
    × (t.lines ≡ s.lines)
    × (t.invoice_discount_type ≡ s.invoice_discount_type)
    × (t.invoice_discount_value ≡ s.invoice_discount_value)
    × (t.draft_revision ≡ s.draft_revision)
    × (t.sale_id ≡ s.sale_id)
    × IsShown b s t

IsShown-trans : (b c : Bool) (s t u : Store) → IsShown b s t → IsShown c t u → IsShown (b || c) s u
IsShown-trans true c s t u h k = tt
IsShown-trans false true s t u h k = tt
IsShown-trans false false s t u (a1, b1, c1, d1, e1) (a2, b2, c2, d2, e2) =
    (a2 ∙ a1, b2 ∙ b1, c2 ∙ c1, d2 ∙ d1, e2 ∙ e1)

Frozen-trans : (b c : Bool) (s t u : Store) → Frozen b s t → Frozen c t u → Frozen (b || c) s u
Frozen-trans b c s t u (k1, l1, m1, n1, o1, p1, q1) (k2, l2, m2, n2, o2, p2, q2) =
    (k2, l2 ∙ l1, m2 ∙ m1, n2 ∙ n1, o2 ∙ o1, p2 ∙ p1, IsShown-trans b c s t u q1 q2)

unchanged : (s : Store) → s.locked ≡ true → Frozen false s s
unchanged s locked = (locked, refl, refl, refl, refl, refl, (refl, refl, refl, refl, refl))

same_sale : (s : Store) → s.locked ≡ true → Frozen true s s
same_sale s locked = (locked, refl, refl, refl, refl, refl, tt)

-- Of a test that holds, the first branch.
if_true {ℓ κ} :
    {A : Type ℓ} (P : A → Type κ) (b : Bool) {x : A} (y : A)
    → b ≡ true
    → P x
    → P (if b then x else y)
if_true P b y h first = if_cases P b (λ holds. first) λ fails. absurd (cc (h, fails))

abbrev pub Stopped : Store → Store × Bool → Type 0
Stopped s r = (r ≡ refuse s cart_attempt_locked) ⊎ (r ≡ (s, false))

-- The test of `repriceOffers`.
abbrev is_idle : Store → Bool
is_idle s = s.locked || length s.lines == 0 || s.catalog_changed || not (is_present s.contract)

locked_idle : (s : Store) → s.locked ≡ true → is_idle s ≡ true
locked_idle s locked = ground (arith, locked)

module _ (locale_after : Text → Text → Bool) where
  -- A locked draft refuses every edit. The re-evaluation of the offers stops without a message.
  pub edit-locked : (s : Store) (e : Edit) → s.locked ≡ true → Stopped s (edit locale_after s e)
  unfolding edit add_product change_quantity set_quantity set_line_discount set_invoice_discount
      with_catalog with_discount remove reprice_offers rebuild_from_catalog
  edit-locked s (adds product quantity read_under id now) locked =
      if_true (Stopped s) s.locked _ locked (inl refl)
  edit-locked s (changes_quantity id delta now) locked =
      if_true (Stopped s) s.locked _ locked (inl refl)
  edit-locked s (sets_quantity id quantity now) locked =
      if_true (Stopped s) s.locked _ locked (inl refl)
  edit-locked s (discounts_line id type value now) locked =
      if_true (Stopped s) s.locked _ locked (inl refl)
  edit-locked s (discounts_invoice type value now) locked =
      if_true (Stopped s) s.locked _ locked (inl refl)
  edit-locked s (removes id sale now) locked = if_true (Stopped s) s.locked _ locked (inl refl)
  edit-locked s (reprices now later) locked =
      if_true (Stopped s) (is_idle s) _ (locked_idle s locked) (inr refl)
  edit-locked s (rebuilds products dropped sale now) locked =
      if_true (Stopped s) s.locked _ locked (inl refl)

  edit-Frozen : (s : Store) (e : Edit) → s.locked ≡ true → Frozen false s (edit locale_after s e).0
  edit-Frozen s e locked = elim (edit-locked s e locked) [
    | inl r ↦ subst (λ q. Frozen false s q.0) (sym r) (unchanged s locked)
    | inr r ↦ subst (λ q. Frozen false s q.0) (sym r) (unchanged s locked)
  ]

  evaluated-Frozen :
      (s : Store) (p : CartState × Dict AppliedOffer)
      → s.locked ≡ true
      → Frozen true s (evaluated s p)
  unfolding evaluated
  evaluated-Frozen s (empty, offers) locked = same_sale s locked
  evaluated-Frozen s (valid totals, offers) locked = same_sale s locked
  evaluated-Frozen s (invalid code last, offers) locked = same_sale s locked

  unflagged-Frozen :
      (s : Store) (lines : List CartLineSnapshot) (now : ℕ)
      → s.locked ≡ true
      → Frozen true s (unflagged locale_after s lines now)
  unfolding unflagged
  unflagged-Frozen s [] now locked = same_sale s locked
  unflagged-Frozen s (line ∷ lines) now locked = evaluated-Frozen s _ locked

  set_contract-Frozen :
      (s : Store) (next : CatalogContract) (now : ℕ)
      → s.locked ≡ true
      → Frozen true s (set_contract locale_after s next now)
  unfolding set_contract
  set_contract-Frozen s next now locked =
      if_cases (Frozen true s)
        ((revision_changed s.contract next || any (is_frozen_under_other next.revision) s.lines)
          && not (length s.lines == 0))
        (λ flag. same_sale s locked) λ clean. unflagged-Frozen _ s.lines now locked

  hold_draft-Frozen :
      (s : Store) (customer : Option Customer) (id sale : Text) (now : ℕ)
      → s.locked ≡ true
      → Frozen false s (hold_draft s customer id sale now).0
  unfolding hold_draft
  hold_draft-Frozen s customer id sale now locked =
      if_cases (λ (q : Store × Option HeldDraft). Frozen false s q.0) (length s.lines == 0)
        (λ none_left. unchanged s locked)
        λ filled.
          if_true (λ (q : Store × Option HeldDraft). Frozen false s q.0) s.locked _ locked
            (unchanged s locked)

  recall_draft-Frozen :
      (s : Store) (id sale : Text) (now : ℕ)
      → s.locked ≡ true
      → Frozen false s (recall_draft locale_after s id sale now).0
  unfolding recall_draft
  recall_draft-Frozen s id sale now locked =
      option_cases (λ (q : Store × Option HeldDraft). Frozen false s q.0)
        (find (has_id id) s.held_drafts) (λ absent. unchanged s locked)
        λ (held : HeldDraft) found.
          if_cases (λ (q : Store × Option HeldDraft). Frozen false s q.0)
            (not (length s.lines == 0)) (λ busy. unchanged s locked)
            λ idle.
              if_true (λ (q : Store × Option HeldDraft). Frozen false s q.0) s.locked _ locked
                (unchanged s locked)

  discard_held_draft-Frozen :
      (s : Store) (id : Text) → s.locked ≡ true → Frozen false s (discard_held_draft s id).0
  unfolding discard_held_draft
  discard_held_draft-Frozen s id locked =
      if_cases (λ (q : Store × Bool). Frozen false s q.0)
        (length (without id s.held_drafts) == length s.held_drafts) (λ missing. unchanged s locked)
        λ found. unchanged s locked

  step-Frozen :
      (s : Store) (a : Action)
      → s.locked ≡ true
      → releases a ≡ false
      → Frozen (is_contract a) s (step locale_after s a)
  unfolding step
  step-Frozen s (edits e) locked h = edit-Frozen s e locked
  step-Frozen s (sets_contract next now) locked h = set_contract-Frozen s next now locked
  step-Frozen s (sets_validity is_valid) locked h = unchanged s locked
  step-Frozen s (locks true) locked h =
      (refl, refl, refl, refl, refl, refl, (refl, refl, refl, refl, refl))
  step-Frozen s (locks false) locked h = cc
  step-Frozen s (clears sale) locked h = cc
  step-Frozen s (resets sale) locked h = cc
  step-Frozen s (holds customer id sale now) locked h =
      hold_draft-Frozen s customer id sale now locked
  step-Frozen s (recalls id sale now) locked h = recall_draft-Frozen s id sale now locked
  step-Frozen s (discards id) locked h = discard_held_draft-Frozen s id locked

  -- From a locked draft, through any calls without an unlock, a clear or a reset, the draft stays
  -- locked with the same lines, invoice discount, revision and identity. If none of the calls sets a
  -- contract, its totals, the last valid ones, its offers, its flag of a changed catalog and its
  -- contract stay too; a contract that is set may change these, under the lock.
  pub run-Frozen :
      (s : Store) (actions : List Action)
      → s.locked ≡ true
      → every (λ a. not (releases a)) actions ≡ true
      → Frozen (any is_contract actions) s (run locale_after s actions)
  unfolding run
  run-Frozen s [] locked h = unchanged s locked
  run-Frozen s (a ∷ actions) locked h =
      let (here, later) = and_true (not (releases a)) _ h in
      let first = step-Frozen s a locked (held_off (releases a) here) in
      Frozen-trans (is_contract a) (any is_contract actions) s (step locale_after s a)
        (run locale_after s (a ∷ actions)) first
        (run-Frozen (step locale_after s a) actions first.0 later)
    where
      held_off : (b : Bool) → not b ≡ true → b ≡ false
      held_off b e = ground arith
