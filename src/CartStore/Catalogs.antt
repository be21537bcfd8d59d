-- ===== src/CartStore/Catalogs.antt =====
-- The catalog that the draft is sold under (src/renderer/src/modules/pos/cart.store.ts): a new
-- contract, its validity, and the rebuilding of a draft from a new catalog.
use pos_desktop.Prelude.{
  ℕ, ◌+◌, Bool, true, false, not, ◌&&◌, ◌||◌, Option, none, some, List, [], ◌∷◌, ◌==◌,
  if◌then◌else◌, length, any,
}
use pos_desktop.Prelude.Text.{Text, text_eq}
use pos_desktop.Prelude.Dict.{Dict, lookup, insert}
use pos_desktop.Catalog.{CatalogContract, CatalogProduct}
use pos_desktop.Pricing.Types.{cart_catalog_required, cart_catalog_changed}
use pos_desktop.Offers.{AppliedOffer}
use pos_desktop.CartStore.{
  CartLineSnapshot, Store, CartState, empty, valid, invalid, calculation_error, cart_attempt_locked,
  merge_key, immutable_product_snapshot, refuse, mark_invalid, clear, candidate, commit,
}

abbrev pub revision_changed : Option CatalogContract → CatalogContract → Bool
revision_changed none next = false
revision_changed (some contract) next = not (text_eq contract.revision next.revision)

abbrev pub is_frozen_under_other : Text → CartLineSnapshot → Bool
is_frozen_under_other revision line = not (text_eq line.catalog_revision revision)

abbrev pub set_catalog_validity : Store → Bool → Store
set_catalog_validity s is_valid = record s { catalog_valid = is_valid }

-- What `setContract` does with the draft evaluated under the contract.
unfoldable pub evaluated : Store → CartState × Dict AppliedOffer → Store
evaluated s (empty, offers) = s
evaluated s (invalid code last, offers) = mark_invalid s code
evaluated s (valid totals, offers) = record s {
  cart_state = valid totals;
  applied_offers = offers;
  last_valid = some totals;
  rejection_code = none;
}

-- `new Map(products.map((product) => [product.uuid, product]))`
unfoldable pub by_uuid : List CatalogProduct → Dict CatalogProduct → Dict CatalogProduct
unfolding insert
by_uuid [] known = known
by_uuid (product ∷ products) known = by_uuid products (insert product.uuid product known)

unfoldable pub replacement : CatalogContract → CartLineSnapshot → CatalogProduct → CartLineSnapshot
unfolding merge_key
replacement contract line product = record line {
  merge_key = merge_key product contract.revision;
  catalog_revision = contract.revision;
  product = immutable_product_snapshot product;
}

-- The body of the loop for a line that is kept.
unfoldable pub replaced :
    CatalogContract → Dict CatalogProduct → CartLineSnapshot → Option CartLineSnapshot
unfolding lookup text_eq replacement
replaced contract known line = elim (lookup line.product.uuid known) [
  | none ↦ none
  | some product ↦
      if not (text_eq product.price.currency contract.currency)
      then none
      else some (replacement contract line product)
]

-- The loop; `none` is the refusal that ends it.
unfoldable pub replacements :
    CatalogContract
    → Dict CatalogProduct
    → List Text
    → List CartLineSnapshot
    → Option (List CartLineSnapshot)
unfolding replaced text_eq
replacements contract known dropped [] = some []
replacements contract known dropped (line ∷ lines) =
    let rest = replacements contract known dropped lines in
    if any (text_eq line.id) dropped then rest else elim (replaced contract known line) [
      | none ↦ none
      | some next ↦ elim rest [ none ↦ none | some others ↦ some (next ∷ others) ]
    ]

module _ (locale_after : Text → Text → Bool) where
  -- The end of `setContract`, where the draft is not flagged.
  unfoldable pub unflagged : Store → List CartLineSnapshot → ℕ → Store
  unfolding candidate evaluated
  unflagged s [] now = record s { cart_state = empty; rejection_code = none }
  unflagged s (line ∷ lines) now =
      evaluated s (
        candidate locale_after s (line ∷ lines) s.invoice_discount_type s.invoice_discount_value
          now)

  unfoldable pub set_contract : Store → CatalogContract → ℕ → Store
  unfolding unflagged text_eq
  set_contract s next now =
      let changed = revision_changed s.contract next in
      let installed : Store = record s {
        contract = some next;
        catalog_valid = true;
        catalog_generation = if changed then s.catalog_generation + 1 else s.catalog_generation;
      } in
      if (changed || any (is_frozen_under_other next.revision) s.lines) && not (length s.lines == 0)
      then mark_invalid (record installed { catalog_changed = true }) cart_catalog_changed
      else unflagged (record installed { catalog_changed = false }) s.lines now

  -- What follows the loop.
  unfoldable pub rebuild : Store → Option (List CartLineSnapshot) → Text → ℕ → Store × Bool
  unfolding clear commit
  rebuild s none sale now = refuse s (calculation_error cart_catalog_changed)
  rebuild s (some []) sale now = (clear s sale, true)
  rebuild s (some (line ∷ lines)) sale now =
      let committed =
        commit locale_after (record s { catalog_changed = false }) (line ∷ lines)
          s.invoice_discount_type s.invoice_discount_value now in
      if committed.1 then committed else (record committed.0 { catalog_changed = true }, false)

  unfoldable pub rebuild_from_catalog :
      Store → List CatalogProduct → List Text → Text → ℕ → Store × Bool
  unfolding by_uuid replacements rebuild
  rebuild_from_catalog s products drop_line_ids sale now =
      if s.locked then refuse s cart_attempt_locked else elim s.contract [
        | none ↦ refuse s (calculation_error cart_catalog_required)
        | some contract ↦
            if not s.catalog_valid
            then refuse s (calculation_error cart_catalog_required)
            else (if not s.catalog_changed
                then (s, false)
                else rebuild s (replacements contract (by_uuid products []) drop_line_ids s.lines)
                    sale now)
      ]
