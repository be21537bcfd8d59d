-- ===== src/CartStore/Actions/Flags.antt =====
-- Drafts that are committed, cleared, refused or outdated keep the invariant of the draft store
-- (src/renderer/src/modules/pos/cart.store.ts).
use pos_desktop.Prelude.{
  ℕ, suc, ◌+◌, ◌≤◌, ◌≡◌, refl, sym, ap, subst, Bool, true, false, not, ◌&&◌, ◌||◌, Option, none,
  some, List, [], ◌∷◌, leb, ◌==◌, arith, length, All, All-map, any, not-false,
}
use pos_desktop.Prelude.Number.{Number}
use pos_desktop.Prelude.Text.{Text, text_eq, text_eq_iff}
use pos_desktop.Prelude.Dict.{Dict}
use pos_desktop.Catalog.{CatalogContract}
use pos_desktop.Pricing.Types.{DiscountType, cart_catalog_required}
use pos_desktop.Offers.{AppliedOffer}
use pos_desktop.CartStore.{
  CartLineSnapshot, max_held_drafts, checkout_max_lines, CartState, empty, valid, invalid, Store,
  shown_offers, accept, clear, reject, CartErrorCode, candidate, candidate_under,
}
use pos_desktop.CartStore.Catalogs.{is_frozen_under_other, revision_changed}
use pos_desktop.CartStore.Parking.{parked, is_outdated, Customer}
use pos_desktop.CartStore.Actions.{Edit, edit}
use pos_desktop.CartStore.Actions.Outcomes.{
  IsSnapshot, IsUnder, is_accepted, trim, ignored, rejected, committed, cleared, trimmed, rebuilt,
}
use pos_desktop.CartStore.Actions.Kept.{edit-Outcome}
use pos_desktop.CartStore.Actions.Consistent.{
  AllUnder, IsBlocked, IsParked, IsConsistent, candidate_under-Agrees, Agrees,
}

nothing_under : (o : Option CatalogContract) → AllUnder o []
nothing_under none = refl
nothing_under (some c) = tt

pub no_lines : (lines : List CartLineSnapshot) → lines ≡ [] → 1 ≤ length lines → ⊥
no_lines [] e h = omega arith
no_lines (line ∷ lines) e h = cc

-- The test of `setContract`.
abbrev pub is_flagged : Store → CatalogContract → Bool
is_flagged s next =
    (revision_changed s.contract next || any (is_frozen_under_other next.revision) s.lines)
    && not (length s.lines == 0)

pub flagged_lines :
    (s : Store) (next : CatalogContract) → is_flagged s next ≡ true → 1 ≤ length s.lines
flagged_lines s next h = nonempty_length (length s.lines) _ h
  where
    nonempty_length : (n : ℕ) (b : Bool) → (b && not (n == 0)) ≡ true → 1 ≤ n
    nonempty_length n b e = ground (arith, e)

-- Lines none of which is frozen under another revision.
same_revision :
    (c : CatalogContract) (lines : List CartLineSnapshot)
    → All IsSnapshot lines
    → any (is_frozen_under_other c.revision) lines ≡ false
    → All (IsUnder c) lines
same_revision c [] h e = tt
same_revision c (line ∷ lines) h e =
    let (here, later) = neither (not (text_eq line.catalog_revision c.revision)) _ e in
    (
      ((text_eq_iff line.catalog_revision c.revision).0 (not-false _ here), h.0),
      same_revision c lines h.1 later,
    )
  where
    neither : (a b : Bool) → (a || b) ≡ false → (a ≡ false) × (b ≡ false)
    neither a b f = ground arith

pub unflagged-IsUnder :
    (s : Store) (next : CatalogContract)
    → All IsSnapshot s.lines
    → is_flagged s next ≡ false
    → All (IsUnder next) s.lines
unflagged-IsUnder s next snapshots h = either s.lines snapshots h
  where
    either :
        (lines : List CartLineSnapshot)
        → All IsSnapshot lines
        → ((revision_changed s.contract next || any (is_frozen_under_other next.revision) lines)
            && not (length lines == 0))
          ≡ false
        → All (IsUnder next) lines
    either [] all e = tt
    either (line ∷ lines) all e =
        same_revision next (line ∷ lines) all (second (revision_changed s.contract next) _ _ e)
      where
        second : (a b : Bool) (n : ℕ) → ((a || b) && not (suc n == 0)) ≡ false → b ≡ false
        second a b n f = ground (arith, f)

pub one_more : (n : ℕ) {m : ℕ} → leb max_held_drafts n ≡ false → m ≡ n + 1 → m ≤ max_held_drafts
one_more n room e = ground arith

pub nonzero : (n : ℕ) → (n == 0) ≡ false → 1 ≤ n
nonzero n h = ground arith

pub zero_lines : (n : ℕ) → not (n == 0) ≡ false → 1 ≤ n → ⊥
zero_lines n h k = ground arith

pub parked-IsParked :
    (s : Store) (customer : Option Customer) (id : Text) (now : ℕ)
    → 1 ≤ length s.lines
    → length s.lines ≤ checkout_max_lines
    → All IsSnapshot s.lines
    → IsParked (parked s customer id now)
unfolding parked
parked-IsParked s customer id now some_lines few snapshots = (some_lines, few, snapshots, refl)

pub current-IsUnder :
    (c : CatalogContract) (lines : List CartLineSnapshot)
    → All IsSnapshot lines
    → is_outdated (some c) lines ≡ false
    → All (IsUnder c) lines
unfolding is_outdated
current-IsUnder c lines snapshots h = same_revision c lines snapshots h

module _ (locale_after : Text → Text → Bool) where
  pub Agrees-under :
      (s : Store) (c : CatalogContract) (state : CartState) (offers : Dict AppliedOffer)
      → s.contract ≡ some c
      → s.catalog_changed ≡ false
      → Agrees locale_after
          (some c)
          false
          s.lines
          s.invoice_discount_type
          s.invoice_discount_value
          offers
          state
      → Agrees locale_after s.contract s.catalog_changed s.lines s.invoice_discount_type
          s.invoice_discount_value offers state
  Agrees-under s c state offers present same h =
      subst
        (λ o.
          Agrees locale_after o s.catalog_changed s.lines s.invoice_discount_type
            s.invoice_discount_value offers state)
        (sym present)
        (subst
          (λ b.
            Agrees locale_after (some c) b s.lines s.invoice_discount_type s.invoice_discount_value
              offers state)
          (sym same) h)

  pub candidate_present :
      (s : Store) (c : CatalogContract) (lines : List CartLineSnapshot) (now : ℕ)
      → s.contract ≡ some c
      → candidate locale_after s lines s.invoice_discount_type s.invoice_discount_value now
        ≡ candidate_under locale_after c lines s.invoice_discount_type s.invoice_discount_value now
  unfolding candidate
  candidate_present s c lines now present =
      ap
        (λ o. elim o [
          | none ↦ (invalid cart_catalog_required none, [])
          | some contract ↦
              candidate_under locale_after contract lines s.invoice_discount_type
                s.invoice_discount_value now
        ])
        present

  blocked_Agrees :
      (s : Store) (state : CartState)
      → IsBlocked state
      → 1 ≤ length s.lines
      → Agrees locale_after s.contract s.catalog_changed s.lines s.invoice_discount_type
          s.invoice_discount_value s.applied_offers state
  blocked_Agrees s empty blocked some_lines = absurd blocked
  blocked_Agrees s (valid totals) blocked some_lines = absurd blocked
  blocked_Agrees s (invalid code last) blocked some_lines = some_lines

  -- A committed draft is consistent, whatever it replaces.
  pub accept-IsConsistent :
      (s : Store) (c : CatalogContract) (next : List CartLineSnapshot) (type : DiscountType)
      (value : Number) (now : ℕ) (state : CartState) (offers : Dict AppliedOffer)
      → s.contract ≡ some c
      → s.catalog_changed ≡ false
      → All (IsUnder c) next
      → length next ≤ checkout_max_lines
      → length s.held_drafts ≤ max_held_drafts
      → All IsParked s.held_drafts
      → candidate_under locale_after c next type value now ≡ (state, offers)
      → is_accepted state ≡ true
      → IsConsistent locale_after (accept s next type value state offers)
  unfolding accept
  accept-IsConsistent s c next type value now state offers present same under few few_held parked e
        fine =
      record {
        agrees =
            Agrees-under (accept s next type value state offers) c state (shown_offers state offers)
              present same
              (candidate_under-Agrees locale_after c next type value now state offers e fine);
        uniform = λ e. subst (λ o. AllUnder o next) (sym present) under;
        flagged = λ changed. absurd (cc (same, changed));
        snapshots = All-map (λ line u. u.1) next under;
        few = few;
        few_held = few_held;
        parked = parked;
      }

  pub clear-IsConsistent :
      (s : Store) (sale : Text)
      → length s.held_drafts ≤ max_held_drafts
      → All IsParked s.held_drafts
      → IsConsistent locale_after (clear s sale)
  unfolding clear
  clear-IsConsistent s sale few_held parked = record {
    agrees = refl;
    uniform = λ e. nothing_under s.contract;
    flagged = λ e. absurd (cc (e));
    snapshots = tt;
    few = omega arith;
    few_held = few_held;
    parked = parked;
  }

  pub reject-IsConsistent :
      (s : Store) (code : CartErrorCode)
      → IsConsistent locale_after s
      → IsConsistent locale_after (reject s code)
  reject-IsConsistent s code v = record {
    agrees = v.agrees;
    uniform = v.uniform;
    flagged = v.flagged;
    snapshots = v.snapshots;
    few = v.few;
    few_held = v.few_held;
    parked = v.parked;
  }

  -- An outdated draft, as a removal, a recall or a new catalog leaves it.
  pub outdated-IsConsistent :
      (s : Store)
      → s.catalog_changed ≡ true
      → IsBlocked s.cart_state
      → 1 ≤ length s.lines
      → All IsSnapshot s.lines
      → length s.lines ≤ checkout_max_lines
      → length s.held_drafts ≤ max_held_drafts
      → All IsParked s.held_drafts
      → IsConsistent locale_after s
  outdated-IsConsistent s changed blocked some_lines snapshots few few_held parked = record {
    agrees = blocked_Agrees s s.cart_state blocked some_lines;
    uniform = λ same. absurd (cc (same, changed));
    flagged = λ e. (some_lines, blocked);
    snapshots = snapshots;
    few = few;
    few_held = few_held;
    parked = parked;
  }

  pub edit-IsConsistent :
      (s : Store) (e : Edit)
      → IsConsistent locale_after s
      → IsConsistent locale_after (edit locale_after s e).0
  edit-IsConsistent s e v = elim (edit-Outcome locale_after s e) [
    | ignored r ↦ subst (λ q. IsConsistent locale_after q.0) (sym r) v
    | rejected code r ↦
        subst (λ q. IsConsistent locale_after q.0) (sym r) (reject-IsConsistent s code v)
    | committed c next type value now state offers present same (under, few) made fine r ↦
        subst (λ q. IsConsistent locale_after q.0) (sym r)
          (accept-IsConsistent s c next type value now state offers present same
            (under (subst (λ o. AllUnder o s.lines) present (v.uniform same))) (few v.few)
            v.few_held v.parked made fine)
    | cleared sale r ↦
        subst (λ q. IsConsistent locale_after q.0) (sym r)
          (clear-IsConsistent s sale v.few_held v.parked)
    | trimmed next changed some_lines fewer kept r ↦
        subst (λ q. IsConsistent locale_after q.0) (sym r)
          (outdated-IsConsistent (trim s next) changed refl some_lines (kept v.snapshots)
            (omega (arith, v.few, fewer)) v.few_held v.parked)
    | rebuilt c next now state offers present under fewer made fine r ↦
        subst (λ q. IsConsistent locale_after q.0) (sym r)
          (accept-IsConsistent (record s { catalog_changed = false }) c next s.invoice_discount_type
            s.invoice_discount_value now state offers present refl under
            (omega (arith, v.few, fewer)) v.few_held v.parked made fine)
  ]
