-- ===== src/Offers/Agreement.antt =====
-- An offer is a discount that the calculator grants with the same amount
-- (src/shared/pos/offerRule.ts and src/shared/pos/posCalculator.ts).
use pos_desktop.Prelude.{ℕ, ◌*◌, ◌≤◌, ◌≡◌, some, inl, inr, arith, ◌==◌, Bool-cases, ok}
use pos_desktop.Prelude.Int.{pos}
use pos_desktop.Prelude.Number.{whole, max_safe_integer}
use pos_desktop.Prelude.Text.{Text}
use pos_desktop.Catalog.{OfferType, percentage, amount_off, fixed_price, CatalogOffer}
use pos_desktop.Pricing.Types.{DiscountType}
use pos_desktop.Pricing.Quantity.{parse_quantity_unchecked}
use pos_desktop.Pricing.Amounts.{half_up, calculate_discount}
use pos_desktop.Offers.{OfferLineDiscount, reduction, Reduction, line_discount, offer_discount}

calculate_discount-fixed :
    (subtotal taken : ℕ)
    → taken ≤ subtotal
    → subtotal ≤ max_safe_integer
    → calculate_discount subtotal DiscountType.fixed (whole (pos taken)) ≡ ok taken
unfolding calculate_discount
calculate_discount-fixed subtotal taken le safe = ground arith

calculate_discount-percentage :
    (subtotal bp : ℕ)
    → bp ≤ 10_000
    → calculate_discount subtotal DiscountType.percentage (whole (pos bp))
      ≡ ok (half_up (subtotal * bp) 10_000)
unfolding calculate_discount
calculate_discount-percentage subtotal bp le = ground arith

reduction-Agrees :
    (type : OfferType) (value milli price subtotal : ℕ)
    → subtotal ≤ max_safe_integer
    → let r = reduction type value milli price subtotal in
      calculate_discount subtotal r.type (whole (pos r.value)) ≡ ok r.amount
unfolding reduction
reduction-Agrees percentage value milli price subtotal safe =
    calculate_discount-percentage subtotal _ (ground arith)
reduction-Agrees amount_off value milli price subtotal safe =
    calculate_discount-fixed subtotal _ (ground arith) safe
reduction-Agrees fixed_price value milli price subtotal safe =
    calculate_discount-fixed subtotal _ (ground arith) safe

line_discount_lem :
    (offer : CatalogOffer) (r : Reduction) {d : OfferLineDiscount}
    → line_discount offer r ≡ some d
    → (d.discount_type ≡ r.type)
      × (d.discount_value ≡ r.value)
      × (d.amount ≡ r.amount)
      × (1 ≤ d.amount)
      × (d.revision_uuid ≡ offer.revision_uuid)
unfolding line_discount
line_discount_lem offer r h = ground arith

-- An offer that applies has read the quantity, and comes from the reduction of its type.
pub offer_discount-reduction :
    (offer : CatalogOffer) (quantity : Text) (price milli : ℕ) {d : OfferLineDiscount}
    → parse_quantity_unchecked quantity ≡ some milli
    → offer_discount offer quantity price ≡ some d
    → line_discount offer
        (reduction offer.type offer.value milli price (half_up (milli * price) 1000))
      ≡ some d
unfolding offer_discount
offer_discount-reduction offer quantity price milli parsed h = elim (Bool-cases (milli == 0)) [
  | inl zero_milli ↦ cc (rw (parsed, zero_milli, offer_discount) at h)
  | inr positive ↦ rw (parsed, positive, offer_discount) at h
]

-- If a quantity reads as `milli` thousandths, the line's subtotal at the unit price is at most
-- 2^53 - 1, and an offer applies, then the offer takes something off, and the calculator given its
-- kind and value grants exactly the offer's amount on the same subtotal.
pub offer_discount-calculate_discount :
    (offer : CatalogOffer) (quantity : Text) (price milli : ℕ) {d : OfferLineDiscount}
    → parse_quantity_unchecked quantity ≡ some milli
    → half_up (milli * price) 1000 ≤ max_safe_integer
    → offer_discount offer quantity price ≡ some d
    → (calculate_discount
          (half_up (milli * price) 1000)
          d.discount_type
          (whole (pos d.discount_value))
        ≡ ok d.amount)
      × (1 ≤ d.amount)
offer_discount-calculate_discount offer quantity price milli parsed safe h =
    let subtotal = half_up (milli * price) 1000 in
    let r = reduction offer.type offer.value milli price subtotal in
    let (type, value, amount, positive, _) =
      line_discount_lem offer r (offer_discount-reduction offer quantity price milli parsed h) in
    (
      rw (type, value, amount) (reduction-Agrees offer.type offer.value milli price subtotal safe),
      positive,
    )
