-- ===== src/CartStore/Actions.antt =====
-- The calls of the draft store as one type, with what a history of them does
-- (src/renderer/src/modules/pos/cart.store.ts). A call carries the clock and the random identities
-- that it reads.
pub mod Outcomes
pub mod Derivations
pub mod Edits
pub mod Kept
pub mod Consistent
pub mod Flags
pub mod Commits
pub mod Preserved
pub mod Progress
pub mod Context
pub mod Held
pub mod Locked
mod Tests
use pos_desktop.Prelude.{ℕ, Bool, Option, none, some, List, [], ◌∷◌}
use pos_desktop.Prelude.Number.{Number}
use pos_desktop.Prelude.Text.{Text}
use pos_desktop.Catalog.{CatalogContract, CatalogProduct}
use pos_desktop.Pricing.Types.{DiscountType}
use pos_desktop.CartStore.{Store, clear}
use pos_desktop.CartStore.Editing.{
  add_product, change_quantity, set_quantity, set_line_discount, set_invoice_discount, remove,
  reprice_offers,
}
use pos_desktop.CartStore.Catalogs.{set_contract, set_catalog_validity, rebuild_from_catalog}
use pos_desktop.CartStore.Parking.{
  set_locked, reset_draft, Customer, hold_draft, recall_draft, discard_held_draft,
}

-- The edits of the live draft, all of which a lock refuses.
pub data Edit : Type 0 where
  adds : CatalogProduct → Number → Option Text → Text → ℕ → Edit
  changes_quantity : Text → Number → ℕ → Edit
  sets_quantity : Text → Text → ℕ → Edit
  discounts_line : Text → DiscountType → Number → ℕ → Edit
  discounts_invoice : DiscountType → Number → ℕ → Edit
  removes : Text → Text → ℕ → Edit
  reprices : ℕ → ℕ → Edit
  rebuilds : List CatalogProduct → List Text → Text → ℕ → Edit

pub data Action : Type 0 where
  edits : Edit → Action
  sets_contract : CatalogContract → ℕ → Action
  sets_validity : Bool → Action
  locks : Bool → Action
  clears : Text → Action
  resets : Text → Action
  holds : Option Customer → Text → Text → ℕ → Action
  recalls : Text → Text → ℕ → Action
  discards : Text → Action

module _ (locale_after : Text → Text → Bool) where
  unfoldable pub edit : Store → Edit → Store × Bool
  unfolding add_product change_quantity set_quantity set_line_discount set_invoice_discount remove
      reprice_offers rebuild_from_catalog
  edit s (adds product quantity_milli read_under id now) =
      add_product locale_after s product quantity_milli read_under id now
  edit s (changes_quantity id delta now) = change_quantity locale_after s id delta now
  edit s (sets_quantity id quantity now) = set_quantity locale_after s id quantity now
  edit s (discounts_line id type value now) = set_line_discount locale_after s id type value now
  edit s (discounts_invoice type value now) = set_invoice_discount locale_after s type value now
  edit s (removes id sale now) = remove locale_after s id sale now
  edit s (reprices now later) = reprice_offers locale_after s now later
  edit s (rebuilds products dropped sale now) =
      rebuild_from_catalog locale_after s products dropped sale now

  unfoldable pub step : Store → Action → Store
  unfolding edit set_contract clear reset_draft hold_draft recall_draft discard_held_draft
  step s (edits e) = (edit s e).0
  step s (sets_contract contract now) = set_contract locale_after s contract now
  step s (sets_validity is_valid) = set_catalog_validity s is_valid
  step s (locks value) = set_locked s value
  step s (clears sale) = clear s sale
  step s (resets sale) = reset_draft s sale
  step s (holds customer id sale now) = (hold_draft s customer id sale now).0
  step s (recalls id sale now) = (recall_draft locale_after s id sale now).0
  step s (discards id) = (discard_held_draft s id).0

  unfoldable pub run : Store → List Action → Store
  unfolding step
  run s [] = s
  run s (action ∷ actions) = run (step s action) actions
