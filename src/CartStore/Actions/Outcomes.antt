-- ===== src/CartStore/Actions/Outcomes.antt =====
-- What the edits of a draft can do to the store (src/renderer/src/modules/pos/cart.store.ts).
use pos_desktop.Prelude.{
  ℕ, ◌+◌, ◌≤◌, ◌≡◌, refl, sym, subst, inl, inr, Bool, true, false, not, none, some, List, length,
  All, Option-cases, if_cases, option_cases,
}
use pos_desktop.Prelude.Number.{Number}
use pos_desktop.Prelude.Text.{Text}
use pos_desktop.Prelude.Dict.{Dict}
use pos_desktop.Catalog.{CatalogContract}
use pos_desktop.Pricing.Types.{DiscountType, cart_catalog_changed}
use pos_desktop.Offers.{AppliedOffer}
use pos_desktop.CartStore.{
  CartLineSnapshot, Store, CartState, empty, valid, invalid, CartErrorCode, calculation_error,
  checkout_max_lines, merge_key, refuse, mark_invalid, accept, clear, candidate_under, candidate,
  settle, commit,
}
use pos_desktop.CartStore.Editing.{with_catalog}

-- A line as it was frozen: its merge key is that of its product, which has no image.
abbrev pub IsSnapshot : CartLineSnapshot → Type 0
IsSnapshot line =
    (line.merge_key ≡ merge_key line.product line.catalog_revision) × (line.product.image ≡ none)

-- A snapshot that was frozen under a contract.
abbrev pub IsUnder : CatalogContract → CartLineSnapshot → Type 0
IsUnder contract line = (line.catalog_revision ≡ contract.revision) × IsSnapshot line

-- Lines that an edit makes from others: they stay under the contract and within the limit.
abbrev pub Derived : CatalogContract → List CartLineSnapshot → List CartLineSnapshot → Type 0
Derived contract xs ys =
    (All (IsUnder contract) xs → All (IsUnder contract) ys)
    × (length xs ≤ checkout_max_lines → length ys ≤ checkout_max_lines)

abbrev pub is_accepted : CartState → Bool
is_accepted empty = true
is_accepted (valid totals) = true
is_accepted (invalid code last) = false

module _ (locale_after : Text → Text → Bool) where
  pub data Committed (s : Store) (next : List CartLineSnapshot) (type : DiscountType)
      (value : Number) (now : ℕ) (r : Store × Bool) : Type 0 where
    refused : (code : CartErrorCode) → r ≡ refuse s code → Committed s next type value now r
    accepted :
        (contract : CatalogContract) (state : CartState) (offers : Dict AppliedOffer)
        → s.contract ≡ some contract
        → candidate_under locale_after contract next type value now ≡ (state, offers)
        → is_accepted state ≡ true
        → r ≡ (accept s next type value state offers, true)
        → Committed s next type value now r

  settle-Committed :
      (s : Store) (contract : CatalogContract) (next : List CartLineSnapshot) (type : DiscountType)
      (value : Number) (now : ℕ) (c : CartState × Dict AppliedOffer)
      → s.contract ≡ some contract
      → candidate_under locale_after contract next type value now ≡ c
      → Committed s next type value now (settle s next type value c)
  unfolding settle
  settle-Committed s contract next type value now (empty, offers) present e =
      accepted contract empty offers present e refl refl
  settle-Committed s contract next type value now (valid totals, offers) present e =
      accepted contract (valid totals) offers present e refl refl
  settle-Committed s contract next type value now (invalid code last, offers) present e =
      refused (calculation_error code) refl

  pub commit-Committed :
      (s : Store) (next : List CartLineSnapshot) (type : DiscountType) (value : Number) (now : ℕ)
      → Committed s next type value now (commit locale_after s next type value now)
  unfolding commit candidate settle
  commit-Committed s next type value now = elim (Option-cases s.contract) [
    | inl absent ↦ rw absent (refused _ refl)
    | inr (contract, present) ↦
        subst (λ c. Committed s next type value now (settle s next type value c))
          (sym (rw present refl)) (settle-Committed s contract next type value now _ present refl)
  ]

-- What a cashier's removal leaves of a draft that the catalog has outdated.
abbrev pub trim : Store → List CartLineSnapshot → Store
trim s next = record (mark_invalid (record s { lines = next }) cart_catalog_changed) {
  draft_revision = s.draft_revision + 1;
}

-- The outcomes of an edit: nothing, a message, a committed draft, an empty one, an outdated one that
-- loses lines, and one rebuilt from the catalog.
module _ (locale_after : Text → Text → Bool) where
  pub data Outcome (s : Store) (r : Store × Bool) : Type 0 where
    ignored : r ≡ (s, false) → Outcome s r
    rejected : (code : CartErrorCode) → r ≡ refuse s code → Outcome s r
    committed :
        (contract : CatalogContract) (next : List CartLineSnapshot) (type : DiscountType)
        (value : Number) (now : ℕ) (state : CartState) (offers : Dict AppliedOffer)
        → s.contract ≡ some contract
        → s.catalog_changed ≡ false
        → Derived contract s.lines next
        → candidate_under locale_after contract next type value now ≡ (state, offers)
        → is_accepted state ≡ true
        → r ≡ (accept s next type value state offers, true)
        → Outcome s r
    cleared : (sale : Text) → r ≡ (clear s sale, true) → Outcome s r
    trimmed :
        (next : List CartLineSnapshot)
        → s.catalog_changed ≡ true
        → 1 ≤ length next
        → length next ≤ length s.lines
        → (All IsSnapshot s.lines → All IsSnapshot next)
        → r ≡ (trim s next, true)
        → Outcome s r
    rebuilt :
        (contract : CatalogContract) (next : List CartLineSnapshot) (now : ℕ) (state : CartState)
        (offers : Dict AppliedOffer)
        → s.contract ≡ some contract
        → All (IsUnder contract) next
        → length next ≤ length s.lines
        → candidate_under locale_after contract next s.invoice_discount_type
            s.invoice_discount_value now
          ≡ (state, offers)
        → is_accepted state ≡ true
        → r ≡ (
          accept
              (record s { catalog_changed = false })
              next
              s.invoice_discount_type
              s.invoice_discount_value
              state
              offers,
          true,
        )
        → Outcome s r

  pub commit-Outcome :
      (s : Store) (next : List CartLineSnapshot) (type : DiscountType) (value : Number) (now : ℕ)
      → s.catalog_changed ≡ false
      → ((contract : CatalogContract) → s.contract ≡ some contract → Derived contract s.lines next)
      → Outcome s (commit locale_after s next type value now)
  commit-Outcome s next type value now same derived =
      elim (commit-Committed locale_after s next type value now) [
        | refused code e ↦ rejected code e
        | accepted contract state offers present c fine e ↦
            committed contract next type value now state offers present same
              (derived contract present) c fine e
      ]

  pub with_catalog-Outcome :
      (s : Store) (rest : CatalogContract → Store × Bool)
      → ((contract : CatalogContract)
          → s.contract ≡ some contract
          → s.catalog_changed ≡ false
          → Outcome s (rest contract))
      → Outcome s (with_catalog s rest)
  unfolding with_catalog
  with_catalog-Outcome s rest go =
      if_cases (Outcome s) s.locked (λ locked. rejected _ refl)
        λ free.
          option_cases (Outcome s) s.contract (λ absent. rejected _ refl)
            λ contract present.
              if_cases (Outcome s) (not s.catalog_valid) (λ stale. rejected _ refl)
                λ usable.
                  if_cases (Outcome s) s.catalog_changed (λ changed. rejected _ refl)
                    (go contract present)
