-- ===== src/CartStore/Editing.antt =====
-- The edits of the live draft (src/renderer/src/modules/pos/cart.store.ts): products, quantities,
-- discounts, removal and the re-evaluation of the offers. `now` is the clock, and a `Text` that no
-- caller of the source gives is what `crypto.randomUUID` returns.
use pos_desktop.Prelude.{
  ℕ, ◌+◌, Bool, true, false, not, ◌&&◌, ◌||◌, Option, none, some, List, [], ◌∷◌, ◌++◌, map, leb,
  ◌==◌, if◌then◌else◌, ok, err, length, any, every, filter, find,
}
use pos_desktop.Prelude.Int.{pos, negsuc}
use pos_desktop.Prelude.Number.{Number, whole, safe_natural}
use pos_desktop.Prelude.Text.{Text, text_eq}
use pos_desktop.Prelude.Dict.{Dict, lookup}
use pos_desktop.Catalog.{CatalogContract, CatalogProduct}
use pos_desktop.Pricing.Types.{
  DiscountType, cart_catalog_required, cart_catalog_changed, cart_mixed_currency,
  cart_quantity_invalid, cart_invalid, cart_discount_invalid,
}
use pos_desktop.Pricing.Quantity.{add_quantity, format_quantity}
use pos_desktop.Offers.{AppliedOffer}
use pos_desktop.CartStore.{
  CartLineSnapshot, Store, CartState, empty, valid, invalid, calculation_error, cart_attempt_locked,
  cart_line_limit, checkout_max_lines, no_discount, merge_key, immutable_product_snapshot, refuse,
  mark_invalid, clear, candidate, commit,
}

-- `if (lockedRejection()) return false`, then the two checks of the catalog, and the rest with the
-- contract.
unfoldable pub with_catalog : Store → (CatalogContract → Store × Bool) → Store × Bool
with_catalog s rest = if s.locked then refuse s cart_attempt_locked else elim s.contract [
  | none ↦ refuse s (calculation_error cart_catalog_required)
  | some contract ↦
      if not s.catalog_valid
      then refuse s (calculation_error cart_catalog_required)
      else (if s.catalog_changed
          then refuse s (calculation_error cart_catalog_changed)
          else rest contract)
]

abbrev pub is_present {ℓ} : {A : Type ℓ} → Option A → Bool
is_present none = false
is_present (some a) = true

abbrev pub can_edit : Store → Bool
can_edit s = is_present s.contract && s.catalog_valid && not s.catalog_changed

abbrev pub is_positive : Option ℕ → Bool
is_positive none = false
is_positive (some n) = not (n == 0)

-- `revision !== undefined && revision !== current`
abbrev pub is_other_revision : Option Text → Text → Bool
is_other_revision none current = false
is_other_revision (some revision) current = not (text_eq revision current)

abbrev pub replace_quantity : Text → Text → CartLineSnapshot → CartLineSnapshot
replace_quantity id quantity line =
    if text_eq line.id id then record line { quantity = quantity } else line

abbrev pub replace_discount : Text → DiscountType → Number → CartLineSnapshot → CartLineSnapshot
replace_discount id type value line =
    if text_eq line.id id
    then record line { discount_type = type; discount_value = value }
    else line

abbrev pub new_line : Text → Text → CatalogContract → CatalogProduct → Text → CartLineSnapshot
new_line id key contract product quantity = record {
  id = id;
  merge_key = key;
  catalog_revision = contract.revision;
  product = immutable_product_snapshot product;
  quantity = quantity;
  discount_type = DiscountType.null;
  discount_value = no_discount;
}

abbrev pub is_for : Text → CartLineSnapshot → Bool
is_for key line = text_eq line.merge_key key

-- The offer of each line before, by its revision, is the one it has now.
unfoldable pub same_offers : Dict AppliedOffer → CartState × Dict AppliedOffer → Bool
unfolding lookup text_eq
same_offers before (empty, offers) = false
same_offers before (invalid code last, offers) = false
same_offers before (valid totals, offers) =
    length before == length offers
    && every
        (λ (entry : Text × AppliedOffer). elim (lookup entry.0 before) [
          | none ↦ false
          | some offer ↦ text_eq offer.discount.revision_uuid entry.1.discount.revision_uuid
        ])
        offers

-- The checks of a manual discount.
unfoldable pub with_discount : Store → Number → Store × Bool → Store × Bool
with_discount s value rest =
    if s.locked
    then refuse s cart_attempt_locked
    else (if not (can_edit s)
        then refuse s (
            calculation_error
              (if s.catalog_changed then cart_catalog_changed else cart_catalog_required))
        else (if is_present (safe_natural value)
            then rest
            else refuse s (calculation_error cart_discount_invalid)))

module _ (locale_after : Text → Text → Bool) where
  -- `commit(nextLines)`: the discounts of the invoice stay.
  abbrev pub commit_lines : Store → List CartLineSnapshot → ℕ → Store × Bool
  commit_lines s next now =
      commit locale_after s next s.invoice_discount_type s.invoice_discount_value now

  -- The rest of `addProduct` after its checks.
  unfoldable pub put_product :
      Store → CatalogProduct → Number → CatalogContract → Text → ℕ → Store × Bool
  unfolding merge_key add_quantity format_quantity commit text_eq
  put_product s product quantity_milli contract id now =
      let key = merge_key product contract.revision in
      elim (find (is_for key) s.lines) [
        | some existing ↦ elim (add_quantity existing.quantity quantity_milli contract) [
          | err code ↦ refuse s (calculation_error code)
          | ok next_quantity ↦
              commit_lines s (map (replace_quantity existing.id next_quantity) s.lines) now
        ]
        | none ↦
            if leb checkout_max_lines (length s.lines)
            then refuse s cart_line_limit
            else elim (format_quantity quantity_milli) [
              | err code ↦ refuse s (calculation_error code)
              | ok initial_quantity ↦
                  commit_lines s
                    (s.lines ++ (new_line id key contract product initial_quantity ∷ [])) now
            ]
      ]

  -- The rest of `addProduct` after the checks of the catalog.
  unfoldable pub add_under :
      Store → CatalogProduct → Number → Option Text → Text → ℕ → CatalogContract → Store × Bool
  unfolding put_product text_eq
  add_under s product quantity_milli read_under id now contract =
      if is_other_revision read_under contract.revision
      then refuse s (calculation_error cart_catalog_changed)
      else (if not (text_eq product.price.currency contract.currency)
          then refuse s (calculation_error cart_mixed_currency)
          else (if not (is_positive (safe_natural quantity_milli))
              then refuse s (calculation_error cart_quantity_invalid)
              else put_product s product quantity_milli contract id now))

  unfoldable pub add_product :
      Store → CatalogProduct → Number → Option Text → Text → ℕ → Store × Bool
  unfolding with_catalog add_under
  add_product s product quantity_milli read_under id now =
      with_catalog s (add_under s product quantity_milli read_under id now)

  -- The rest of `changeQuantity` after the checks of the catalog.
  unfoldable pub change_under : Store → Text → Number → ℕ → CatalogContract → Store × Bool
  unfolding add_quantity commit text_eq
  change_under s id delta_milli now contract =
      elim (find (λ (line : CartLineSnapshot). text_eq line.id id) s.lines) [
        | none ↦ refuse s (calculation_error cart_invalid)
        | some current ↦ elim (add_quantity current.quantity delta_milli contract) [
          | err code ↦ refuse s (calculation_error code)
          | ok next_quantity ↦ commit_lines s (map (replace_quantity id next_quantity) s.lines) now
        ]
      ]

  unfoldable pub change_quantity : Store → Text → Number → ℕ → Store × Bool
  unfolding with_catalog change_under
  change_quantity s id delta_milli now = with_catalog s (change_under s id delta_milli now)

  abbrev pub increment_quantity : Store → Text → ℕ → Store × Bool
  increment_quantity s id now = change_quantity s id (whole (pos 1000)) now

  abbrev pub decrement_quantity : Store → Text → ℕ → Store × Bool
  decrement_quantity s id now = change_quantity s id (whole (negsuc 999)) now

  -- The rest of `setQuantity` after the checks of the catalog.
  unfoldable pub set_under : Store → Text → Text → ℕ → CatalogContract → Store × Bool
  unfolding commit text_eq
  set_under s id quantity now contract =
      if any (λ (line : CartLineSnapshot). text_eq line.id id) s.lines
      then commit_lines s (map (replace_quantity id quantity) s.lines) now
      else refuse s (calculation_error cart_invalid)

  unfoldable pub set_quantity : Store → Text → Text → ℕ → Store × Bool
  unfolding with_catalog set_under
  set_quantity s id quantity now = with_catalog s (set_under s id quantity now)

  unfoldable pub set_line_discount : Store → Text → DiscountType → Number → ℕ → Store × Bool
  unfolding with_discount commit text_eq
  set_line_discount s id type value now =
      with_discount s value (commit_lines s (map (replace_discount id type value) s.lines) now)

  unfoldable pub set_invoice_discount : Store → DiscountType → Number → ℕ → Store × Bool
  unfolding with_discount commit
  set_invoice_discount s type value now =
      with_discount s value (commit locale_after s s.lines type value now)

  -- What `remove` does to lines that it changes.
  unfoldable pub leave_lines : Store → List CartLineSnapshot → Text → ℕ → Store × Bool
  unfolding clear commit
  leave_lines s [] sale now = (clear s sale, true)
  leave_lines s (line ∷ lines) sale now =
      if s.catalog_changed
      then (
        record (mark_invalid (record s { lines = line ∷ lines }) cart_catalog_changed) {
          draft_revision = s.draft_revision + 1;
        },
        true,
      )
      else commit_lines s (line ∷ lines) now

  unfoldable pub remove : Store → Text → Text → ℕ → Store × Bool
  unfolding leave_lines text_eq
  remove s id sale now =
      let next = filter (λ (line : CartLineSnapshot). not (text_eq line.id id)) s.lines in
      if s.locked
      then refuse s cart_attempt_locked
      else (if length next == length s.lines then (s, false) else leave_lines s next sale now)

  -- It reads the clock twice: to compare, and when it commits.
  unfoldable pub reprice_offers : Store → ℕ → ℕ → Store × Bool
  unfolding candidate same_offers commit
  reprice_offers s now later =
      let next =
        candidate locale_after s s.lines s.invoice_discount_type s.invoice_discount_value now in
      if s.locked || length s.lines == 0 || s.catalog_changed || not (is_present s.contract)
      then (s, false)
      else (if same_offers s.applied_offers next then (s, false) else commit_lines s s.lines later)
