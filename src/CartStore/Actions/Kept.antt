-- ===== src/CartStore/Actions/Kept.antt =====
-- Each edit of a draft has one of the outcomes (src/renderer/src/modules/pos/cart.store.ts).
use pos_desktop.Prelude.{
  ℕ, ◌≤◌, ◌≡◌, refl, sym, ◌∙◌, ap, subst, ◌⊎◌, inl, inr, Bool, true, false, not, Option, none, some,
  List, [], ◌∷◌, length, All, if_cases, option_cases, some-inj, not-false,
}
use pos_desktop.Prelude.Text.{Text}
use pos_desktop.Catalog.{CatalogContract, CatalogProduct}
use pos_desktop.CartStore.{CartLineSnapshot, Store, CartErrorCode, reject, refuse}
use pos_desktop.CartStore.Catalogs.{by_uuid, replacements, rebuild, rebuild_from_catalog}
use pos_desktop.CartStore.Actions.{
  Edit, adds, changes_quantity, sets_quantity, discounts_line, discounts_invoice, removes, reprices,
  rebuilds, edit,
}
use pos_desktop.CartStore.Actions.Outcomes.{
  IsUnder, refused, accepted, commit-Committed, Outcome, ignored, rejected, committed, cleared,
  trimmed, rebuilt,
}
use pos_desktop.CartStore.Actions.Derivations.{unless_committed, replacements-IsUnder}
use pos_desktop.CartStore.Actions.Edits.{
  add_product-Outcome, change_quantity-Outcome, set_quantity-Outcome, set_line_discount-Outcome,
  set_invoice_discount-Outcome, remove-Outcome, reprice_offers-Outcome,
}

module _ (locale_after : Text → Text → Bool) where
  rebuild-Outcome :
      (s : Store) (contract : CatalogContract) (next : List CartLineSnapshot) (sale : Text)
      (now : ℕ)
      → s.contract ≡ some contract
      → s.catalog_changed ≡ true
      → All (IsUnder contract) next
      → length next ≤ length s.lines
      → Outcome locale_after s (rebuild locale_after s (some next) sale now)
  unfolding rebuild
  rebuild-Outcome s contract [] sale now present changed under fewer = cleared sale refl
  rebuild-Outcome s contract (line ∷ lines) sale now present changed under fewer =
      elim (commit-Committed locale_after (record s { catalog_changed = false }) (line ∷ lines)
        s.invoice_discount_type s.invoice_discount_value now) [
          | refused code e ↦ rejected code (
              ap (unless_committed) e
              ∙ ap (λ b. refuse (record s { catalog_changed = b }) code) (sym changed))
          | accepted c state offers p e fine r ↦
              rebuilt c (line ∷ lines) now state offers p
                (subst (λ d. All (IsUnder d) (line ∷ lines)) (some-inj (sym present ∙ p)) under)
                fewer e fine (ap unless_committed r)
        ]

  replacements_cases :
      (s : Store) (contract : CatalogContract) (made : Option (List CartLineSnapshot)) (sale : Text)
      (now : ℕ)
      → s.contract ≡ some contract
      → s.catalog_changed ≡ true
      → ((next : List CartLineSnapshot)
          → made ≡ some next
          → All (IsUnder contract) next × (length next ≤ length s.lines))
      → Outcome locale_after s (rebuild locale_after s made sale now)
  unfolding rebuild
  replacements_cases s contract none sale now present changed made = rejected _ refl
  replacements_cases s contract (some next) sale now present changed made =
      rebuild-Outcome s contract next sale now present changed (made next refl).0 (made next refl).1

  rebuild_from_catalog-Outcome :
      (s : Store) (products : List CatalogProduct) (dropped : List Text) (sale : Text) (now : ℕ)
      → Outcome locale_after s (rebuild_from_catalog locale_after s products dropped sale now)
  unfolding rebuild_from_catalog
  rebuild_from_catalog-Outcome s products dropped sale now =
      if_cases (Outcome locale_after s) s.locked (λ locked. rejected _ refl)
        λ free.
          option_cases (Outcome locale_after s) s.contract (λ absent. rejected _ refl)
            λ contract present.
              if_cases (Outcome locale_after s) (not s.catalog_valid) (λ stale. rejected _ refl)
                λ usable.
                  if_cases (Outcome locale_after s) (not s.catalog_changed) (λ same. ignored refl)
                    λ changed.
                      replacements_cases s contract
                        (replacements contract (by_uuid products []) dropped s.lines) sale now
                        present (not-false s.catalog_changed changed)
                        (replacements-IsUnder contract (by_uuid products []) dropped s.lines)

  -- Every edit has an outcome.
  pub edit-Outcome : (s : Store) (e : Edit) → Outcome locale_after s (edit locale_after s e)
  unfolding edit
  edit-Outcome s (adds product quantity read_under id now) =
      add_product-Outcome locale_after s product quantity read_under id now
  edit-Outcome s (changes_quantity id delta now) =
      change_quantity-Outcome locale_after s id delta now
  edit-Outcome s (sets_quantity id quantity now) =
      set_quantity-Outcome locale_after s id quantity now
  edit-Outcome s (discounts_line id type value now) =
      set_line_discount-Outcome locale_after s id type value now
  edit-Outcome s (discounts_invoice type value now) =
      set_invoice_discount-Outcome locale_after s type value now
  edit-Outcome s (removes id sale now) = remove-Outcome locale_after s id sale now
  edit-Outcome s (reprices now later) = reprice_offers-Outcome locale_after s now later
  edit-Outcome s (rebuilds products dropped sale now) =
      rebuild_from_catalog-Outcome s products dropped sale now

-- An edit that returns false changes nothing but the message, whichever edit it is.
pub edit-refused :
    (locale_after : Text → Text → Bool) (s : Store) (e : Edit)
    → (edit locale_after s e).1 ≡ false
    → ((edit locale_after s e).0 ≡ s)
      ⊎ ((code : CartErrorCode) × ((edit locale_after s e).0 ≡ reject s code))
edit-refused locale_after s e h = elim (edit-Outcome locale_after s e) [
  | ignored r ↦ inl (ap (λ q. q.0) r)
  | rejected code r ↦ inr (code, ap (λ q. q.0) r)
  | committed c next type value now state offers present same derived made fine r ↦
      absurd (cc (ap (λ q. q.1) r, h))
  | cleared sale r ↦ absurd (cc (ap (λ q. q.1) r, h))
  | trimmed next changed some_lines fewer kept r ↦ absurd (cc (ap (λ q. q.1) r, h))
  | rebuilt c next now state offers present under fewer made fine r ↦
      absurd (cc (ap (λ q. q.1) r, h))
]
