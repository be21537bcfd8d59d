-- ===== src/CartStore/Parking.antt =====
-- Held drafts, the lock of a payment attempt, the reset and the context tokens
-- (src/renderer/src/modules/pos/cart.store.ts).
use pos_desktop.Prelude.{
  ℕ, ◌+◌, Bool, true, false, not, Option, none, some, List, [], ◌∷◌, ◌++◌, leb, ◌==◌, if◌then◌else◌,
  length, any, filter, find,
}
use pos_desktop.Prelude.Text.{Text, text_eq, decimal}
use pos_desktop.Prelude.Dict.{lookup}
use pos_desktop.Catalog.{CatalogContract}
use pos_desktop.Pricing.Types.{CartCalculation, cart_catalog_changed}
use pos_desktop.Offers.{AppliedOffer}
use pos_desktop.CartStore.{
  CartLineSnapshot, HeldDraft, Store, cart_attempt_locked, cart_hold_limit, max_held_drafts, reject,
  mark_invalid, calculation, clear, commit,
}
use pos_desktop.CartStore.Catalogs.{is_frozen_under_other}

abbrev pub set_locked : Store → Bool → Store
set_locked s value = record s { locked = value }

unfoldable pub offer_for : Store → Text → Option AppliedOffer
unfolding lookup
offer_for s line_id = lookup line_id s.applied_offers

-- What `resetDraft` does before it clears the draft.
abbrev pub new_context : Store → Store
new_context s = record s {
  context_generation = s.context_generation + 1;
  held_drafts = [];
  locked = false;
}

unfoldable pub reset_draft : Store → Text → Store
unfolding clear
reset_draft s sale = clear (new_context s) sale

-- A customer's uuid and name.
abbrev pub Customer : Type 0
Customer = Text × Option Text

abbrev customer_uuid : Option Customer → Option Text
customer_uuid none = none
customer_uuid (some (uuid, name)) = some uuid

abbrev customer_name : Option Customer → Option Text
customer_name none = none
customer_name (some (uuid, name)) = name

abbrev grand_total : Option CartCalculation → Option ℕ
grand_total none = none
grand_total (some totals) = some totals.grand_total_amount

-- The draft that `holdDraft` parks.
unfoldable pub parked : Store → Option Customer → Text → ℕ → HeldDraft
parked s customer id now = record {
  id = id;
  held_at = now;
  lines = s.lines;
  invoice_discount_type = s.invoice_discount_type;
  invoice_discount_value = s.invoice_discount_value;
  customer_uuid = customer_uuid customer;
  customer_name = customer_name customer;
  item_count = length s.lines;
  grand_total_amount = grand_total (calculation s.cart_state);
}

abbrev pub add_held : Store → HeldDraft → Store
add_held s held = record s { held_drafts = s.held_drafts ++ (held ∷ []) }

unfoldable pub hold_draft : Store → Option Customer → Text → Text → ℕ → Store × Option HeldDraft
unfolding parked clear
hold_draft s customer id sale now =
    if length s.lines == 0
    then (s, none)
    else (if s.locked
        then (reject s cart_attempt_locked, none)
        else (if leb max_held_drafts (length s.held_drafts)
            then (reject s cart_hold_limit, none)
            else (
              clear (add_held s (parked s customer id now)) sale,
              some (parked s customer id now),
            )))

abbrev pub has_id : Text → HeldDraft → Bool
has_id id held = text_eq held.id id

-- `heldDrafts.filter((candidate) => candidate.id !== id)`
abbrev pub without : Text → List HeldDraft → List HeldDraft
without id drafts = filter (λ held. not (has_id id held)) drafts

-- Whether lines held earlier come back blocked: there is no contract, or it has another revision.
unfoldable pub is_outdated : Option CatalogContract → List CartLineSnapshot → Bool
unfolding text_eq
is_outdated none lines = true
is_outdated (some contract) lines = any (is_frozen_under_other contract.revision) lines

-- The draft that comes back blocked.
unfoldable pub restore_outdated : Store → HeldDraft → Store
restore_outdated s held = record (mark_invalid restored cart_catalog_changed) {
  draft_revision = s.draft_revision + 1;
}
  where
    restored : Store
    restored = record s {
      lines = held.lines;
      invoice_discount_type = held.invoice_discount_type;
      invoice_discount_value = held.invoice_discount_value;
      last_valid = none;
      catalog_changed = true;
    }

abbrev pub forget_held : Store → Text → Store
forget_held s id = record s { held_drafts = without id s.held_drafts }

module _ (locale_after : Text → Text → Bool) where
  -- The rest of `recallDraft`, for the draft found and the new sale's identity.
  unfoldable pub restore : Store → HeldDraft → ℕ → Store × Bool
  unfolding is_outdated restore_outdated commit
  restore s held now =
      if is_outdated s.contract held.lines
      then (restore_outdated s held, true)
      else commit locale_after s held.lines held.invoice_discount_type held.invoice_discount_value
          now

  unfoldable pub recall_draft : Store → Text → Text → ℕ → Store × Option HeldDraft
  unfolding restore text_eq
  recall_draft s id sale now = elim (find (has_id id) s.held_drafts) [
    | none ↦ (s, none)
    | some held ↦
        let restored = restore (record s { sale_id = sale }) held now in
        if not (length s.lines == 0)
        then (s, none)
        else (if s.locked
            then (reject s cart_attempt_locked, none)
            else (if restored.1
                then (forget_held restored.0 id, some held)
                else (restored.0, none)))
  ]

unfoldable pub discard_held_draft : Store → Text → Store × Bool
unfolding text_eq
discard_held_draft s id =
    let next = without id s.held_drafts in
    if length next == length s.held_drafts
    then (s, false)
    else (record s { held_drafts = next }, true)

unfoldable pub capture_context : Store → Text
unfolding decimal
capture_context s =
    decimal s.context_generation
    ++ (b':' ∷ (decimal s.draft_revision ++ (b':' ∷ decimal s.catalog_generation)))

unfoldable pub is_current_context : Store → Text → Bool
unfolding capture_context text_eq
is_current_context s token = text_eq token (capture_context s)
