-- ===== src/CartStore/Actions/Commits.antt =====
-- A new contract keeps the invariant of the draft store
-- (src/renderer/src/modules/pos/cart.store.ts).
use pos_desktop.Prelude.{
  ℕ, ◌≤◌, ◌≡◌, refl, sym, ◌∙◌, ap, subst, Bool, false, some, List, [], ◌∷◌, arith, length, All,
  All-map, if_cases,
}
use pos_desktop.Prelude.Text.{Text}
use pos_desktop.Prelude.Dict.{Dict}
use pos_desktop.Catalog.{CatalogContract}
use pos_desktop.Offers.{AppliedOffer}
use pos_desktop.CartStore.{
  CartLineSnapshot, max_held_drafts, checkout_max_lines, CartState, empty, valid, invalid, Store,
  candidate_under,
}
use pos_desktop.CartStore.Catalogs.{set_contract, unflagged, evaluated}
use pos_desktop.CartStore.Parking.{parked}
use pos_desktop.CartStore.Actions.Outcomes.{IsUnder}
use pos_desktop.CartStore.Actions.Consistent.{
  AllUnder, IsParked, IsConsistent, candidate_under-Agrees,
}
use pos_desktop.CartStore.Actions.Flags.{
  Agrees-under, candidate_present, outdated-IsConsistent, no_lines, is_flagged, flagged_lines,
  unflagged-IsUnder,
}

module _ (locale_after : Text → Text → Bool) where
  -- A draft that is not flagged, evaluated again under its contract.
  evaluated-IsConsistent :
      (s : Store) (c : CatalogContract) (now : ℕ) (p : CartState × Dict AppliedOffer)
      → s.contract ≡ some c
      → s.catalog_changed ≡ false
      → 1 ≤ length s.lines
      → All (IsUnder c) s.lines
      → length s.lines ≤ checkout_max_lines
      → length s.held_drafts ≤ max_held_drafts
      → All IsParked s.held_drafts
      → candidate_under locale_after c s.lines s.invoice_discount_type s.invoice_discount_value now
        ≡ p
      → IsConsistent locale_after (evaluated s p)
  unfolding evaluated
  evaluated-IsConsistent s c now (empty, offers) present same some_lines under few few_held parked
        e =
      let none_left =
        candidate_under-Agrees locale_after c s.lines s.invoice_discount_type
          s.invoice_discount_value now empty offers e refl in
      absurd (no_lines s.lines none_left some_lines)
  evaluated-IsConsistent s c now (invalid code last, offers) present same some_lines under few
        few_held parked e =
      record {
        agrees = some_lines;
        uniform = λ e. subst (λ o. AllUnder o s.lines) (sym present) under;
        flagged = λ changed. absurd (cc (same, changed));
        snapshots = All-map (λ line u. u.1) s.lines under;
        few = few;
        few_held = few_held;
        parked = parked;
      }
  evaluated-IsConsistent s c now (valid totals, offers) present same some_lines under few few_held
        parked e =
      record {
        agrees = Agrees-under locale_after s c (valid totals) offers present same (
            candidate_under-Agrees locale_after c s.lines s.invoice_discount_type
              s.invoice_discount_value now (valid totals) offers e refl);
        uniform = λ e. subst (λ o. AllUnder o s.lines) (sym present) under;
        flagged = λ changed. absurd (cc (same, changed));
        snapshots = All-map (λ line u. u.1) s.lines under;
        few = few;
        few_held = few_held;
        parked = parked;
      }

  unflagged-IsConsistent :
      (s : Store) (c : CatalogContract) (lines : List CartLineSnapshot) (now : ℕ)
      → s.lines ≡ lines
      → s.contract ≡ some c
      → s.catalog_changed ≡ false
      → All (IsUnder c) s.lines
      → length s.lines ≤ checkout_max_lines
      → length s.held_drafts ≤ max_held_drafts
      → All IsParked s.held_drafts
      → IsConsistent locale_after (unflagged locale_after s lines now)
  unfolding unflagged
  unflagged-IsConsistent s c [] now shape present same under few few_held parked = record {
    agrees = shape;
    uniform = λ e. subst (λ o. AllUnder o s.lines) (sym present) under;
    flagged = λ changed. absurd (cc (same, changed));
    snapshots = All-map (λ line u. u.1) s.lines under;
    few = few;
    few_held = few_held;
    parked = parked;
  }
  unflagged-IsConsistent s c (line ∷ lines) now shape present same under few few_held parked =
      evaluated-IsConsistent s c now _ present same
        (subst (λ xs. 1 ≤ length xs) (sym shape) (omega arith)) under few few_held parked
        (ap
            (λ xs.
              candidate_under locale_after c xs s.invoice_discount_type s.invoice_discount_value
                now)
            shape
          ∙ sym (candidate_present locale_after s c (line ∷ lines) now present))

  pub set_contract-IsConsistent :
      (s : Store) (next : CatalogContract) (now : ℕ)
      → IsConsistent locale_after s
      → IsConsistent locale_after (set_contract locale_after s next now)
  unfolding set_contract
  set_contract-IsConsistent s next now v =
      if_cases (IsConsistent locale_after) (is_flagged s next)
        (λ flag.
          outdated-IsConsistent locale_after _ refl refl (flagged_lines s next flag) v.snapshots
            v.few v.few_held v.parked)
        λ clean.
          unflagged-IsConsistent _ next s.lines now refl refl refl
            (unflagged-IsUnder s next v.snapshots clean) v.few v.few_held v.parked
