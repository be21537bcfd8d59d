-- ===== src/CartStore.antt =====
-- The register's sale draft (src/renderer/src/modules/pos/cart.store.ts): its state, the evaluation
-- of a candidate and the commit that every change of the draft goes through. The clock and
-- `crypto.randomUUID` are arguments of the operations that read them.
pub mod Editing
pub mod Catalogs
pub mod Parking
pub mod Actions
use pos_desktop.Prelude.{
  ℕ, ◌+◌, Bool, true, false, Option, none, some, List, [], ◌∷◌, ◌++◌, map, err, ok,
}
use pos_desktop.Prelude.Int.{pos}
use pos_desktop.Prelude.Number.{Number, whole}
use pos_desktop.Prelude.Text.{Text, codes, decimal}
use pos_desktop.Prelude.Dict.{Dict, lookup}
use pos_desktop.Catalog.{TaxMode, untaxed, inclusive, exclusive, CatalogContract, CatalogProduct}
use pos_desktop.Pricing.Types.{
  DiscountType, CalculationResult, CartCalculationErrorCode, CartCalculationInputLine,
  CartCalculation, cart_catalog_required,
}
use pos_desktop.Pricing.Cart.{calculate_cart}
use pos_desktop.Offers.{OfferPricingLine, AppliedOffer, apply_offers}

pub record CartLineSnapshot : Type 0 where
  pub id : Text
  pub merge_key : Text
  pub catalog_revision : Text
  pub product : CatalogProduct
  pub quantity : Text
  pub discount_type : DiscountType
  pub discount_value : Number

-- `heldAt` is the instant that its text prints.
pub record HeldDraft : Type 0 where
  pub id : Text
  pub held_at : ℕ
  pub lines : List CartLineSnapshot
  pub invoice_discount_type : DiscountType
  pub invoice_discount_value : Number
  pub customer_uuid : Option Text
  pub customer_name : Option Text
  pub item_count : ℕ
  pub grand_total_amount : Option ℕ

abbrev pub max_held_drafts : ℕ
max_held_drafts = 20

-- `CHECKOUT_MAX_LINES`
abbrev pub checkout_max_lines : ℕ
checkout_max_lines = 100

pub data CartErrorCode : Type 0 where
  calculation_error : CartCalculationErrorCode → CartErrorCode
  cart_hold_limit cart_attempt_locked cart_line_limit : CartErrorCode

pub data CartState : Type 0 where
  empty : CartState
  valid : CartCalculation → CartState
  invalid : CartCalculationErrorCode → Option CartCalculation → CartState

pub record Store : Type 0 where
  pub lines : List CartLineSnapshot
  pub contract : Option CatalogContract
  pub cart_state : CartState
  pub invoice_discount_type : DiscountType
  pub invoice_discount_value : Number
  pub catalog_valid : Bool
  pub catalog_changed : Bool
  pub context_generation : ℕ
  pub draft_revision : ℕ
  pub catalog_generation : ℕ
  pub last_valid : Option CartCalculation
  pub rejection_code : Option CartErrorCode
  pub held_drafts : List HeldDraft
  pub sale_id : Text
  pub locked : Bool
  pub applied_offers : Dict AppliedOffer

-- `0`
abbrev pub no_discount : Number
no_discount = whole (pos 0)

-- A store with its first sale's identity.
unfoldable pub fresh_store : Text → Store
fresh_store sale = record {
  lines = [];
  contract = none;
  cart_state = empty;
  invoice_discount_type = DiscountType.null;
  invoice_discount_value = no_discount;
  catalog_valid = false;
  catalog_changed = false;
  context_generation = 0;
  draft_revision = 0;
  catalog_generation = 0;
  last_valid = none;
  rejection_code = none;
  held_drafts = [];
  sale_id = sale;
  locked = false;
  applied_offers = [];
}

abbrev tax_mode_text : TaxMode → Text
tax_mode_text untaxed = codes "none"
tax_mode_text inclusive = codes "inclusive"
tax_mode_text exclusive = codes "exclusive"

-- `parts.join('|')`
join_bars : List Text → Text
join_bars [] = []
join_bars (part ∷ []) = part
join_bars (part ∷ more ∷ parts) = part ++ (b'|' ∷ join_bars (more ∷ parts))

-- `value ?? ''`
abbrev text_or_empty : Option Text → Text
text_or_empty none = []
text_or_empty (some text) = text

unfoldable pub merge_key : CatalogProduct → Text → Text
unfolding join_bars decimal
merge_key product catalog_revision = join_bars (
    catalog_revision
    ∷ product.uuid
    ∷ product.price.currency
    ∷ decimal product.price.amount
    ∷ product.price.revision
    ∷ text_or_empty product.tax.id
    ∷ tax_mode_text product.tax.mode
    ∷ decimal product.tax.rate_basis_points
    ∷ product.tax.revision
    ∷ [])

abbrev pub immutable_product_snapshot : CatalogProduct → CatalogProduct
immutable_product_snapshot product = record product { image = none }

abbrev pub reject : Store → CartErrorCode → Store
reject s code = record s { rejection_code = some code }

-- `return reject(code)`
abbrev pub refuse : Store → CartErrorCode → Store × Bool
refuse s code = (reject s code, false)

abbrev pub mark_invalid : Store → CartCalculationErrorCode → Store
mark_invalid s code = record s {
  cart_state = invalid code s.last_valid;
  rejection_code = some (calculation_error code);
}

-- The totals that are shown.
abbrev pub calculation : CartState → Option CartCalculation
calculation empty = none
calculation (valid totals) = some totals
calculation (invalid code last) = last

-- A line as the offers and the calculator are given it.
abbrev pub offer_line : CartLineSnapshot → OfferPricingLine
offer_line line = record {
  id = line.id;
  product_uuid = line.product.uuid;
  quantity = line.quantity;
  unit_price_amount = line.product.price.amount;
  discount_type = line.discount_type;
  discount_value = line.discount_value;
}

-- `offers.get(line.id)?.discountType ?? line.discountType`, and so for the value.
abbrev line_discount : CartLineSnapshot → Option AppliedOffer → DiscountType × Number
line_discount line none = (line.discount_type, line.discount_value)
line_discount line (some offer) =
    (offer.discount.discount_type, whole (pos offer.discount.discount_value))

unfoldable pub calculator_line : Dict AppliedOffer → CartLineSnapshot → CartCalculationInputLine
unfolding lookup
calculator_line offers line =
    let discount = line_discount line (lookup line.id offers) in
    record {
      id = line.id;
      product_uuid = line.product.uuid;
      quantity = line.quantity;
      unit_price_amount = whole (pos line.product.price.amount);
      currency = line.product.price.currency;
      discount_type = discount.0;
      discount_value = discount.1;
      tax_mode = line.product.tax.mode;
      tax_rate_basis_points = whole (pos line.product.tax.rate_basis_points);
    }

abbrev pub verdict : CalculationResult CartCalculation → CartState
verdict (ok totals) = valid totals
verdict (err code) = invalid code none

abbrev pub latest : CartState → Option CartCalculation → Option CartCalculation
latest empty last = last
latest (valid totals) last = some totals
latest (invalid code previous) last = last

-- The offers of the candidate that was evaluated last are read only where it was valid.
abbrev pub shown_offers : CartState → Dict AppliedOffer → Dict AppliedOffer
shown_offers empty offers = []
shown_offers (valid totals) offers = offers
shown_offers (invalid code last) offers = []

-- What `commit` writes for a candidate that is not invalid.
unfoldable pub accept :
    Store → List CartLineSnapshot → DiscountType → Number → CartState → Dict AppliedOffer → Store
accept s next type value state offers = record s {
  lines = next;
  invoice_discount_type = type;
  invoice_discount_value = value;
  cart_state = state;
  applied_offers = shown_offers state offers;
  last_valid = latest state s.last_valid;
  rejection_code = none;
  draft_revision = s.draft_revision + 1;
}

unfoldable pub clear : Store → Text → Store
clear s sale = record s {
  lines = [];
  invoice_discount_type = DiscountType.null;
  invoice_discount_value = no_discount;
  catalog_changed = false;
  last_valid = none;
  cart_state = empty;
  applied_offers = [];
  rejection_code = none;
  draft_revision = s.draft_revision + 1;
  sale_id = sale;
}

-- The end of `commit`, for the candidate evaluated.
unfoldable pub settle :
    Store
    → List CartLineSnapshot
    → DiscountType
    → Number
    → CartState × Dict AppliedOffer
    → Store × Bool
unfolding accept
settle s next type value (invalid code last, offers) = refuse s (calculation_error code)
settle s next type value (empty, offers) = (accept s next type value empty offers, true)
settle s next type value (valid totals, offers) =
    (accept s next type value (valid totals) offers, true)

module _ (locale_after : Text → Text → Bool) where
  -- The calculation of lines that are sold under the offers given.
  unfoldable pub calculate_lines :
      List CartLineSnapshot
      → Dict AppliedOffer
      → CatalogContract
      → DiscountType
      → Number
      → CalculationResult CartCalculation
  unfolding calculator_line calculate_cart
  calculate_lines lines offers contract type value =
      calculate_cart locale_after (map (calculator_line offers) lines) contract type value

  -- The rest of `candidate`, under a contract.
  unfoldable pub candidate_under :
      CatalogContract
      → List CartLineSnapshot
      → DiscountType
      → Number
      → ℕ
      → CartState × Dict AppliedOffer
  unfolding apply_offers calculate_lines
  candidate_under contract [] type value now = (empty, [])
  candidate_under contract (line ∷ lines) type value now =
      let offers = apply_offers (map offer_line (line ∷ lines)) contract.offers now in
      (verdict (calculate_lines (line ∷ lines) offers contract type value), offers)

  -- The state that a draft would have, with the offers of its lines.
  unfoldable pub candidate :
      Store → List CartLineSnapshot → DiscountType → Number → ℕ → CartState × Dict AppliedOffer
  unfolding candidate_under
  candidate s next type value now = elim s.contract [
    | none ↦ (invalid cart_catalog_required none, [])
    | some contract ↦ candidate_under contract next type value now
  ]

  unfoldable pub commit : Store → List CartLineSnapshot → DiscountType → Number → ℕ → Store × Bool
  unfolding candidate settle
  commit s next type value now = settle s next type value (candidate s next type value now)
