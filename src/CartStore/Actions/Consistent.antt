-- ===== src/CartStore/Actions/Consistent.antt =====
-- The invariant of the draft store (src/renderer/src/modules/pos/cart.store.ts).
use pos_desktop.Prelude.{
  ℕ, ◌≤◌, ◌≡◌, refl, sym, ap, subst, Bool, true, false, Option, none, some, List, [], ◌∷◌, map, ok,
  err, arith, length, All,
}
use pos_desktop.Prelude.Number.{Number}
use pos_desktop.Prelude.Text.{Text}
use pos_desktop.Prelude.Dict.{Dict}
use pos_desktop.Catalog.{CatalogContract}
use pos_desktop.Pricing.Types.{
  DiscountType, CalculationResult, CartCalculation, cart_catalog_changed,
}
use pos_desktop.Offers.{AppliedOffer, apply_offers}
use pos_desktop.CartStore.{
  CartLineSnapshot, HeldDraft, max_held_drafts, checkout_max_lines, CartState, empty, valid,
  invalid, Store, fresh_store, offer_line, verdict, shown_offers, calculate_lines, candidate_under,
}
use pos_desktop.CartStore.Actions.Outcomes.{IsSnapshot, IsUnder, is_accepted}

-- Lines that are all frozen under the contract; without one there are none.
abbrev pub AllUnder : Option CatalogContract → List CartLineSnapshot → Type 0
AllUnder none lines = lines ≡ []
AllUnder (some contract) lines = All (IsUnder contract) lines

abbrev pub IsBlocked : CartState → Type 0
IsBlocked empty = ⊥
IsBlocked (valid totals) = ⊥
IsBlocked (invalid code last) = code ≡ cart_catalog_changed

-- A held draft: at least one line, no more than a sale takes, and the count of them.
abbrev pub IsParked : HeldDraft → Type 0
IsParked held =
    (1 ≤ length held.lines)
    × (length held.lines ≤ checkout_max_lines)
    × All IsSnapshot held.lines
    × (held.item_count ≡ length held.lines)

module _ (locale_after : Text → Text → Bool) where
  -- The state that is shown agrees with the draft. A valid one is the calculation of the lines at
  -- their frozen prices, under the installed contract and the offers shown, which were evaluated at
  -- some instant.
  abbrev pub Agrees :
      Option CatalogContract
      → Bool
      → List CartLineSnapshot
      → DiscountType
      → Number
      → Dict AppliedOffer
      → CartState
      → Type 0
  Agrees contract changed lines type value offers empty = lines ≡ []
  Agrees contract changed lines type value offers (invalid code last) = 1 ≤ length lines
  Agrees contract changed lines type value offers (valid totals) =
      (c : CatalogContract) × (contract ≡ some c)
      × (changed ≡ false)
      × (1 ≤ length lines)
      × ((now : ℕ) × (offers ≡ apply_offers (map offer_line lines) c.offers now))
      × (calculate_lines locale_after lines offers c type value ≡ ok totals)

  pub record IsConsistent (s : Store) : Type 0 where
    pub agrees :
        Agrees s.contract s.catalog_changed s.lines s.invoice_discount_type s.invoice_discount_value
          s.applied_offers s.cart_state
    -- Unless the draft is flagged, no line is of another catalog.
    pub uniform : s.catalog_changed ≡ false → AllUnder s.contract s.lines
    -- A flagged draft has lines, and its totals are not valid.
    pub flagged : s.catalog_changed ≡ true → (1 ≤ length s.lines) × IsBlocked s.cart_state
    pub snapshots : All IsSnapshot s.lines
    pub few : length s.lines ≤ checkout_max_lines
    pub few_held : length s.held_drafts ≤ max_held_drafts
    pub parked : All IsParked s.held_drafts

  pub fresh_store-IsConsistent : (sale : Text) → IsConsistent (fresh_store sale)
  unfolding fresh_store
  fresh_store-IsConsistent sale = record {
    agrees = refl;
    uniform = λ e. refl;
    flagged = λ e. absurd (cc (e));
    snapshots = tt;
    few = omega arith;
    few_held = omega arith;
    parked = tt;
  }

abbrev totals_or : CartCalculation → CartState → CartCalculation
totals_or t empty = t
totals_or t (valid totals) = totals
totals_or t (invalid code last) = t

verdict_valid :
    (r : CalculationResult CartCalculation) (totals : CartCalculation)
    → verdict r ≡ valid totals
    → r ≡ ok totals
verdict_valid (err code) totals h = cc
verdict_valid (ok found) totals h = ap (λ s. ok (totals_or totals s)) h

verdict_nonempty : (r : CalculationResult CartCalculation) → verdict r ≡ empty → ⊥
verdict_nonempty (err code) h = cc
verdict_nonempty (ok found) h = cc

module _ (locale_after : Text → Text → Bool) where
  -- An accepted candidate agrees with the draft that it was evaluated for.
  pub candidate_under-Agrees :
      (c : CatalogContract) (next : List CartLineSnapshot) (type : DiscountType) (value : Number)
      (now : ℕ) (state : CartState) (offers : Dict AppliedOffer)
      → candidate_under locale_after c next type value now ≡ (state, offers)
      → is_accepted state ≡ true
      → Agrees locale_after (some c) false next type value (shown_offers state offers) state
  unfolding candidate_under
  candidate_under-Agrees c [] type value now empty offers e fine = refl
  candidate_under-Agrees c [] type value now (valid totals) offers e fine = cc (ap (λ p. p.0) e)
  candidate_under-Agrees c next type value now (invalid code last) offers e fine = cc
  candidate_under-Agrees c (line ∷ lines) type value now empty offers e fine =
      absurd (verdict_nonempty _ (ap (λ p. p.0) e))
  candidate_under-Agrees c (line ∷ lines) type value now (valid totals) offers e fine =
      let shown : apply_offers (map offer_line (line ∷ lines)) c.offers now ≡ offers =
        ap (λ p. p.1) e in
      (
        c,
        refl,
        refl,
        omega arith,
        (now, sym shown),
        subst (λ o. calculate_lines locale_after (line ∷ lines) o c type value ≡ ok totals) shown
            (verdict_valid _ totals (ap (λ p. p.0) e)),
      )
