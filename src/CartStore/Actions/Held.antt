-- ===== src/CartStore/Actions/Held.antt =====
-- A held draft comes back as it was (src/renderer/src/modules/pos/cart.store.ts).
use pos_desktop.Prelude.{
  ℕ, ◌≡◌, refl, sym, ◌∙◌, ap, subst, inl, inr, ◌⊎◌, Bool, true, false, ◌||◌, Option, none, some,
  List, [], ◌∷◌, ◌++◌, arith, length, leb, ◌==◌, any, if◌then◌else◌, find, if_cases, option_cases,
  some-inj,
}
use pos_desktop.Prelude.Text.{Text, text_eq_refl}
use pos_desktop.Prelude.Number.{Number}
use pos_desktop.Pricing.Types.{DiscountType}
use pos_desktop.Prelude.Dict.{Dict}
use pos_desktop.Offers.{AppliedOffer}
use pos_desktop.CartStore.{
  CartLineSnapshot, HeldDraft, CartState, empty, valid, invalid, Store, clear, accept, reject,
  cart_attempt_locked, candidate, commit, settle, max_held_drafts,
}
use pos_desktop.CartStore.Parking.{
  Customer, hold_draft, parked, has_id, without, recall_draft, restore, restore_outdated,
  is_outdated, add_held, forget_held,
}
use pos_desktop.CartStore.Actions.Outcomes.{is_accepted}
use pos_desktop.CartStore.Actions.Progress.{SameDraft}

-- An identity that no held draft has finds the draft that is added under it.
find-last :
    (id : Text) (drafts : List HeldDraft) (held : HeldDraft)
    → any (has_id id) drafts ≡ false
    → has_id id held ≡ true
    → find (has_id id) (drafts ++ (held ∷ [])) ≡ some held
find-last id [] held fresh named = rw named refl
find-last id (d ∷ drafts) held fresh named =
    let (here, later) = neither (has_id id d) _ fresh in
    rw here (find-last id drafts held later named)
  where
    neither : (a b : Bool) → (a || b) ≡ false → (a ≡ false) × (b ≡ false)
    neither a b f = ground arith

without-last :
    (id : Text) (drafts : List HeldDraft) (held : HeldDraft)
    → any (has_id id) drafts ≡ false
    → has_id id held ≡ true
    → without id (drafts ++ (held ∷ [])) ≡ drafts
without-last id [] held fresh named = rw named refl
without-last id (d ∷ drafts) held fresh named =
    let (here, later) = neither (has_id id d) _ fresh in
    rw here (ap (λ ds. d ∷ ds) (without-last id drafts held later named))
  where
    neither : (a b : Bool) → (a || b) ≡ false → (a ≡ false) × (b ≡ false)
    neither a b f = ground arith

settle-accept :
    (s : Store) (next : List CartLineSnapshot) (type : DiscountType) (value : Number)
    (p : CartState × Dict AppliedOffer)
    → is_accepted p.0 ≡ true
    → settle s next type value p ≡ (accept s next type value p.0 p.1, true)
unfolding settle
settle-accept s next type value (empty, offers) h = refl
settle-accept s next type value (valid totals, offers) h = refl
settle-accept s next type value (invalid code last, offers) h = cc

-- What a store has after it takes a held draft back.
abbrev Restored : Store → HeldDraft → Store → Type 0
Restored s held t =
    (t.lines ≡ held.lines)
    × (t.invoice_discount_type ≡ held.invoice_discount_type)
    × (t.invoice_discount_value ≡ held.invoice_discount_value)
    × (t.held_drafts ≡ s.held_drafts)

module _ (locale_after : Text → Text → Bool) where
  -- A draft comes back: blocked, for another catalog, or because its evaluation is accepted.
  abbrev pub ComesBack : Store → List CartLineSnapshot → DiscountType → Number → ℕ → Type 0
  ComesBack s lines type value now =
      (is_outdated s.contract lines ≡ true)
      ⊎ (is_accepted (candidate locale_after s lines type value now).0 ≡ true)

  restore-Restored :
      (s : Store) (held : HeldDraft) (now : ℕ)
      → ComesBack s held.lines held.invoice_discount_type held.invoice_discount_value now
      → (t : Store) × (restore locale_after s held now ≡ (t, true)) × Restored s held t
  unfolding restore restore_outdated commit accept
  restore-Restored s held now back =
      if_cases Back (is_outdated s.contract held.lines)
        (λ outdated. (restore_outdated s held, refl, (refl, refl, refl, refl)))
        λ current. elim back [
          | inl outdated ↦ absurd (cc (outdated, current))
          | inr fine ↦ (
            _,
            settle-accept s held.lines held.invoice_discount_type held.invoice_discount_value _
                fine,
            (refl, refl, refl, refl),
          )
        ]
    where
      Back : Store × Bool → Type 0
      Back q = (t : Store) × (q ≡ (t, true)) × Restored s held t

  -- The draft of a store again, with its held list, and the held draft that was returned.
  abbrev pub IsBack : Store → HeldDraft → Store × Option HeldDraft → Type 0
  IsBack s held q = SameDraft s q.0 × (q.0.held_drafts ≡ s.held_drafts) × (q.1 ≡ some held)

  recall-IsBack :
      (s : Store) (held : HeldDraft) (id first sale : Text) (now : ℕ)
      → s.locked ≡ false
      → any (has_id id) s.held_drafts ≡ false
      → has_id id held ≡ true
      → held.lines ≡ s.lines
      → held.invoice_discount_type ≡ s.invoice_discount_type
      → held.invoice_discount_value ≡ s.invoice_discount_value
      → ComesBack s held.lines held.invoice_discount_type held.invoice_discount_value now
      → IsBack s held (recall_draft locale_after (clear (add_held s held) first) id sale now)
  unfolding recall_draft clear candidate
  recall-IsBack s held id first sale now free fresh named lines type value back =
      option_cases (IsBack s held) (find (has_id id) (s.held_drafts ++ (held ∷ [])))
        (λ absent. absurd (cc (absent, find-last id s.held_drafts held fresh named)))
        λ (found : HeldDraft) e.
          subst
            (λ h. IsBack s held (
              if s.locked
              then (reject cleared cart_attempt_locked, none)
              else (if (restore locale_after anew h now).1
                  then (forget_held (restore locale_after anew h now).0 id, some h)
                  else ((restore locale_after anew h now).0, none))))
            (some-inj (sym (find-last id s.held_drafts held fresh named) ∙ e))
            (if_cases (IsBack s held) s.locked (λ locked. absurd (cc (locked, free)))
              λ open_.
                let (t, made, (l, d, v, kept)) = restore-Restored anew held now back in
                subst
                  (λ (r : Store × Bool).
                    IsBack s held (if r.1 then (forget_held r.0 id, some held) else (r.0, none)))
                  (sym made)
                  (
                    (l ∙ lines, d ∙ type, v ∙ value),
                    ap (without id) kept ∙ without-last id s.held_drafts held fresh named,
                    refl,
                  ))
    where
      cleared : Store
      cleared = clear (add_held s held) first

      anew : Store
      anew = record cleared { sale_id = sale }

  -- A draft that is held under a new identity and recalled comes back with its lines and its
  -- discount, and leaves the held list as it was. It needs a draft that is not locked and has lines,
  -- room to hold it, and an evaluation that is accepted when it comes back, or an outdated catalog.
  pub hold_draft-recall_draft :
      (s : Store) (customer : Option Customer) (id first sale : Text) (now later : ℕ)
      → s.locked ≡ false
      → (length s.lines == 0) ≡ false
      → leb max_held_drafts (length s.held_drafts) ≡ false
      → any (has_id id) s.held_drafts ≡ false
      → ComesBack s s.lines s.invoice_discount_type s.invoice_discount_value later
      → IsBack s
          (parked s customer id now)
          (recall_draft locale_after (hold_draft s customer id first now).0 id sale later)
  unfolding hold_draft parked
  hold_draft-recall_draft s customer id first sale now later free filled room fresh back =
      if_cases Back (length s.lines == 0) (λ none_left. absurd (cc (none_left, filled)))
        λ e.
          if_cases Back s.locked (λ locked. absurd (cc (locked, free)))
            λ open_.
              if_cases Back (leb max_held_drafts (length s.held_drafts))
                (λ full. absurd (cc (full, room)))
                λ fits.
                  recall-IsBack s (parked s customer id now) id first sale later free fresh
                    (text_eq_refl id) refl refl refl back
    where
      Back : Store × Option HeldDraft → Type 0
      Back q = IsBack s (parked s customer id now) (recall_draft locale_after q.0 id sale later)
