-- ===== src/Offers/Tests.antt =====
-- Offers on a small cart, and the theorems at it.
use pos_desktop.Prelude.{ℕ, ◌*◌, ◌≤◌, ◌≡◌, refl, inl, some, List, [], ◌∷◌, arith, ok}
use pos_desktop.Prelude.Int.{pos}
use pos_desktop.Prelude.Number.{whole}
use pos_desktop.Prelude.Text.{Text, codes}
use pos_desktop.Prelude.Dict.{lookup}
use pos_desktop.Catalog.{OfferType, percentage, amount_off, fixed_price, CatalogOffer}
use pos_desktop.Pricing.Types.{DiscountType}
use pos_desktop.Pricing.Quantity.{parse_quantity_unchecked}
use pos_desktop.Pricing.Amounts.{half_up, calculate_discount}
use pos_desktop.Offers.{
  OfferLineDiscount, OfferPricingLine, offer_discount, best_offer, apply_offers,
}
use pos_desktop.Offers.Agreement.{offer_discount-calculate_discount}
use pos_desktop.Offers.Best.{IsBest, best_offer-IsBest}
use pos_desktop.Offers.Sold.{IsSold, apply_offers-IsSold}

abbrev offer : Text → OfferType → ℕ → ℕ → CatalogOffer
offer id type value priority = record {
  revision_uuid = id;
  name = id;
  type = type;
  value = value;
  priority = pos priority;
  ordinal = 1;
  starts_at = 100;
  ends_at = some 200;
  product_uuids = codes "p" ∷ [];
}

abbrev offers : List CatalogOffer
offers =
    offer (codes "a") percentage 1000 1
    ∷ offer (codes "b") amount_off 50 2
    ∷ offer (codes "c") fixed_price 900 2
    ∷ []

abbrev shirt : OfferPricingLine
shirt = record {
  id = codes "1";
  product_uuid = codes "p";
  quantity = codes "2.000";
  unit_price_amount = 1000;
  discount_type = DiscountType.null;
  discount_value = whole (pos 0);
}

abbrev haggled : OfferPricingLine
haggled = record shirt {
  id = codes "2";
  discount_type = DiscountType.fixed;
  discount_value = whole (pos 10);
}

abbrev two_off : OfferLineDiscount
two_off = record {
  revision_uuid = codes "c";
  discount_type = DiscountType.fixed;
  discount_value = 200;
  amount = 200;
}

best_is_fixed_price : best_offer offers (codes "2.000") 1000 ≡ some two_off
unfolding best_offer
best_is_fixed_price = refl

applied_once :
    apply_offers (shirt ∷ haggled ∷ []) (some offers) 150
    ≡ (codes "1", record { discount = two_off; name = codes "c" }) ∷ []
unfolding apply_offers
applied_once = refl

window_is_half_open : apply_offers (shirt ∷ []) (some offers) 200 ≡ []
unfolding apply_offers
window_is_half_open = refl

read_two : parse_quantity_unchecked (codes "2.000") ≡ some 2000
unfolding parse_quantity_unchecked
read_two = refl

ten_percent :
    offer_discount (offer (codes "a") percentage 1000 1) (codes "2.000") 1000
    ≡ some (record {
      revision_uuid = codes "a";
      discount_type = DiscountType.percentage;
      discount_value = 1000;
      amount = 200;
    })
unfolding offer_discount
ten_percent = refl

offer_discount-calculate_discount_example :
    (calculate_discount (half_up (2000 * 1000) 1000) DiscountType.percentage (whole (pos 1000))
      ≡ ok 200)
    × (1 ≤ 200)
unfolding half_up
offer_discount-calculate_discount_example =
    offer_discount-calculate_discount (offer (codes "a") percentage 1000 1) (codes "2.000") 1000
      2000 read_two (omega arith) ten_percent

best_offer-IsBest_example :
    IsBest (codes "2.000") 1000 offers (best_offer offers (codes "2.000") 1000)
best_offer-IsBest_example = best_offer-IsBest (codes "2.000") 1000 offers

apply_offers-IsSold_example :
    IsSold 150 offers shirt
      (lookup (codes "1") (apply_offers (shirt ∷ haggled ∷ []) (some offers) 150))
apply_offers-IsSold_example =
    apply_offers-IsSold (shirt ∷ haggled ∷ []) offers 150 shirt (ground arith) (inl refl)
