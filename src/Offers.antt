-- ===== src/Offers.antt =====
-- Offers on register lines (src/shared/pos/offerRule.ts): the discount of one offer, the best offer
-- for a line, and the offers that the lines of a cart are sold under.
pub mod Agreement
pub mod Best
pub mod Applied
pub mod Sold
mod Tests
use pos_desktop.Prelude.{
  ℕ, ◌+◌, ◌-◌, ◌*◌, ◌<◌, ◌≡◌, Bool, true, false, not, ◌&&◌, ◌||◌, Option, none, some, List, [], ◌∷◌,
  ltb, leb, ◌==◌, if◌then◌else◌, any, filter, find,
}
use pos_desktop.Prelude.Int.{ℤ, pos, negsuc, ltb_ℤ}
use pos_desktop.Prelude.Number.{Number, whole, other}
use pos_desktop.Prelude.Text.{Text, text_eq}
use pos_desktop.Prelude.Dict.{Dict, lookup, insert}
use pos_desktop.Catalog.{OfferType, percentage, amount_off, fixed_price, CatalogOffer}
use pos_desktop.Pricing.Types.{DiscountType}
use pos_desktop.Pricing.Quantity.{parse_quantity_unchecked}
use pos_desktop.Pricing.Amounts.{half_up}

pub record OfferLineDiscount : Type 0 where
  pub revision_uuid : Text
  pub discount_type : DiscountType
  pub discount_value : ℕ
  pub amount : ℕ

-- The discount of an offer on a subtotal; the kind and the value are what the calculator is given.
pub record Reduction : Type 0 where
  pub type : DiscountType
  pub value : ℕ
  pub amount : ℕ

-- The cases of `switch (offer.type)`, for a quantity in thousandths and a subtotal.
unfoldable pub reduction : OfferType → ℕ → ℕ → ℕ → ℕ → Reduction
unfolding half_up
reduction percentage value quantity_milli price subtotal =
    let basis_points = if ltb 10_000 value then 10_000 else value in
    record {
      type = DiscountType.percentage;
      value = basis_points;
      amount = half_up (subtotal * basis_points) 10_000;
    }
reduction amount_off value quantity_milli price subtotal =
    let off = half_up (quantity_milli * value) 1000 in
    let taken = if ltb off subtotal then off else subtotal in
    record { type = DiscountType.fixed; value = taken; amount = taken }
reduction fixed_price value quantity_milli price subtotal =
    let asked = half_up (quantity_milli * value) 1000 in
    let taken = if leb price value || ltb subtotal asked then 0 else subtotal - asked in
    record { type = DiscountType.fixed; value = taken; amount = taken }

-- An offer that takes nothing off does not apply.
pub line_discount : CatalogOffer → Reduction → Option OfferLineDiscount
line_discount offer r =
    if r.amount == 0
    then none
    else some (record {
      revision_uuid = offer.revision_uuid;
      discount_type = r.type;
      discount_value = r.value;
      amount = r.amount;
    })

-- `milli` of the source reads a quantity as the calculator does. `Number` of an amount is that amount,
-- as it is up to 2^53.
unfoldable pub offer_discount : CatalogOffer → Text → ℕ → Option OfferLineDiscount
unfolding parse_quantity_unchecked line_discount reduction half_up
offer_discount offer quantity unit_price_amount = elim (parse_quantity_unchecked quantity) [
  | none ↦ none
  | some quantity_milli ↦
      if quantity_milli == 0
      then none
      else line_discount offer (
          reduction offer.type offer.value quantity_milli unit_price_amount
            (half_up (quantity_milli * unit_price_amount) 1000))
]

abbrev pub Candidate : Type 0
Candidate = CatalogOffer × OfferLineDiscount

abbrev pub eq_ℤ : ℤ → ℤ → Bool
eq_ℤ a b = not (ltb_ℤ a b) && not (ltb_ℤ b a)

-- Whether a candidate replaces the best so far.
unfoldable pub replaces : Candidate → Candidate → Bool
replaces (candidate, discount) (best_candidate, best) =
    ltb_ℤ best_candidate.priority candidate.priority
    || eq_ℤ candidate.priority best_candidate.priority && ltb best.amount discount.amount
    || eq_ℤ candidate.priority best_candidate.priority
      && discount.amount == best.amount
      && ltb candidate.ordinal best_candidate.ordinal

-- The better of the best so far and a candidate's discount.
unfoldable pub challenge :
    Option Candidate → CatalogOffer → Option OfferLineDiscount → Option Candidate
unfolding replaces
challenge best candidate none = best
challenge none candidate (some discount) = some (candidate, discount)
challenge (some best) candidate (some discount) =
    if replaces (candidate, discount) best then some (candidate, discount) else some best

unfoldable pub best_from : Option Candidate → List CatalogOffer → Text → ℕ → Option Candidate
unfolding challenge offer_discount
best_from best [] quantity price = best
best_from best (candidate ∷ candidates) quantity price =
    best_from (challenge best candidate (offer_discount candidate quantity price)) candidates
      quantity price

abbrev pub discount_part : Option Candidate → Option OfferLineDiscount
discount_part none = none
discount_part (some (candidate, discount)) = some discount

unfoldable pub best_offer : List CatalogOffer → Text → ℕ → Option OfferLineDiscount
unfolding best_from
best_offer candidates quantity price = discount_part (best_from none candidates quantity price)

pub record OfferPricingLine : Type 0 where
  pub id : Text
  pub product_uuid : Text
  pub quantity : Text
  pub unit_price_amount : ℕ
  pub discount_type : DiscountType
  pub discount_value : Number

pub record AppliedOffer : Type 0 where
  pub discount : OfferLineDiscount
  pub name : Text

-- `startsAt <= instant && (endsAt === null || instant < endsAt)`
unfoldable pub is_live : ℕ → CatalogOffer → Bool
is_live instant offer =
    leb offer.starts_at instant && elim offer.ends_at [ none ↦ true | some ends ↦ ltb instant ends ]

-- `value !== 0`
is_nonzero : Number → Bool
is_nonzero (whole (pos n)) = not (n == 0)
is_nonzero (whole (negsuc n)) = true
is_nonzero other = true

is_set : DiscountType → Bool
is_set DiscountType.null = false
is_set _ = true

unfoldable pub is_manual : OfferPricingLine → Bool
unfolding is_set is_nonzero
is_manual line = is_set line.discount_type || is_nonzero line.discount_value

unfoldable pub targets : OfferPricingLine → CatalogOffer → Bool
unfolding text_eq
targets line offer = any (text_eq line.product_uuid) offer.product_uuids

-- The name of the offer that a discount came from, or an empty text.
name_of : Text → List CatalogOffer → Text
unfolding text_eq
name_of revision candidates =
    elim (find (λ (c : CatalogOffer). text_eq c.revision_uuid revision) candidates) [
      | none ↦ []
      | some offer ↦ offer.name
    ]

-- The offer that a line is sold under: none for a line with a manual discount, else the best of the
-- live offers that target its product.
unfoldable pub line_offer : List CatalogOffer → OfferPricingLine → Option AppliedOffer
unfolding is_manual targets best_offer name_of
line_offer live line =
    let candidates = filter (targets line) live in
    if is_manual line
    then none
    else elim (best_offer candidates line.quantity line.unit_price_amount) [
      | none ↦ none
      | some best ↦ some (record { discount = best; name = name_of best.revision_uuid candidates })
    ]

-- `applied.set(line.id, …)` where there is an offer.
unfoldable pub apply_line : Text → Option AppliedOffer → Dict AppliedOffer → Dict AppliedOffer
unfolding insert
apply_line id none applied = applied
apply_line id (some offer) applied = insert id offer applied

unfoldable pub apply_lines :
    List CatalogOffer → List OfferPricingLine → Dict AppliedOffer → Dict AppliedOffer
unfolding apply_line line_offer
apply_lines live [] applied = applied
apply_lines live (line ∷ lines) applied =
    apply_lines live lines (apply_line line.id (line_offer live line) applied)

unfoldable pub apply_offers :
    List OfferPricingLine → Option (List CatalogOffer) → ℕ → Dict AppliedOffer
unfolding is_live apply_lines
apply_offers lines none instant = []
apply_offers lines (some offers) instant = apply_lines (filter (is_live instant) offers) lines []
