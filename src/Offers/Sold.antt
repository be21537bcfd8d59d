-- ===== src/Offers/Sold.antt =====
-- What a cart's lines are sold under (`applyOffers` of src/shared/pos/offerRule.ts), in terms of the
-- offers' windows and products.
use pos_desktop.Prelude.{
  ℕ, ◌≤◌, ◌<◌, ◌≡◌, ◌≢◌, ◌↔◌, ◌⊎◌, refl, sym, ap, subst, true, false, ◌&&◌, ◌||◌, inl, inr, Option,
  none, some, List, [], ◌∷◌, All, Any, All-map, All-member, filter, filter-All, filter-All_back,
  any, leb, ltb, arith, Bool-cases, if_cases,
}
use pos_desktop.Prelude.Int.{pos, negsuc}
use pos_desktop.Prelude.Number.{Number, whole, other}
use pos_desktop.Prelude.Text.{Text, text_eq, text_eq_iff}
use pos_desktop.Prelude.Dict.{lookup}
use pos_desktop.Prelude.Sorting.{DistinctBy}
use pos_desktop.Catalog.{CatalogOffer}
use pos_desktop.Pricing.Types.{DiscountType}
use pos_desktop.Offers.{
  OfferLineDiscount, offer_discount, best_offer, OfferPricingLine, AppliedOffer, is_live, is_set,
  is_nonzero, is_manual, targets, line_offer, apply_offers,
}
use pos_desktop.Offers.Best.{NoBetter, IsBest, best_offer-IsBest}
use pos_desktop.Offers.Applied.{lookup-apply_offers}

-- A line has a discount of its own: a kind, or a value that is not 0.
abbrev pub IsManual : OfferPricingLine → Type 0
IsManual l = (l.discount_type ≢ DiscountType.null) ⊎ (l.discount_value ≢ whole (pos 0))

-- The offers' window is half open, and may have no end.
abbrev pub IsOpen : ℕ → Option ℕ → Type 0
IsOpen instant none = Unit
IsOpen instant (some ends) = instant < ends

-- An offer is in force at an instant, for the product of a line.
abbrev pub Applies : ℕ → OfferPricingLine → CatalogOffer → Type 0
Applies instant l c =
    (c.starts_at ≤ instant)
    × IsOpen instant c.ends_at
    × Any (λ p. p ≡ l.product_uuid) c.product_uuids

-- No offer, for a line with a discount of its own or where no offer that applies takes anything off;
-- or the discount of an offer that applies, such that none that applies is better.
abbrev pub IsSold : ℕ → List CatalogOffer → OfferPricingLine → Option AppliedOffer → Type 0
IsSold instant offers l none =
    IsManual l
    ⊎ All (λ c. Applies instant l c → offer_discount c l.quantity l.unit_price_amount ≡ none) offers
IsSold instant offers l (some a) =
    ¬ IsManual l
    × ((b : CatalogOffer) × Any (λ c. c ≡ b) offers
        × Applies instant l b
        × (offer_discount b l.quantity l.unit_price_amount ≡ some a.discount)
        × All
            (λ c.
              Applies instant l c
              → (x : OfferLineDiscount) → offer_discount c l.quantity l.unit_price_amount ≡ some x
              → NoBetter (c, x) (b, a.discount))
            offers)

manual_of :
    (type : DiscountType) (value : Number)
    → (is_set type || is_nonzero value) ≡ true
    → (type ≢ DiscountType.null) ⊎ (value ≢ whole (pos 0))
unfolding is_set is_nonzero
manual_of DiscountType.fixed value h = inl (λ e. cc)
manual_of DiscountType.percentage value h = inl (λ e. cc)
manual_of DiscountType.null (whole (pos n)) h = inr (λ e. ground (arith, h, e))
manual_of DiscountType.null (whole (negsuc n)) h = inr (λ e. cc)
manual_of DiscountType.null other h = inr (λ e. cc)

not_manual_of :
    (type : DiscountType) (value : Number)
    → (is_set type || is_nonzero value) ≡ false
    → ¬ ((type ≢ DiscountType.null) ⊎ (value ≢ whole (pos 0)))
unfolding is_set is_nonzero
not_manual_of DiscountType.fixed value h m = cc
not_manual_of DiscountType.percentage value h m = cc
not_manual_of DiscountType.null (whole (pos n)) h (inl m) = m refl
not_manual_of DiscountType.null (whole (pos n)) h (inr m) =
    let zero : n ≡ 0 = ground (arith, h) in m (ap (λ k. whole (pos k)) zero)
not_manual_of DiscountType.null (whole (negsuc n)) h m = cc
not_manual_of DiscountType.null other h m = cc

live_iff :
    (starts instant : ℕ) (ends : Option ℕ)
    → ((leb starts instant && elim ends [ none ↦ true | some e ↦ ltb instant e ]) ≡ true)
      ↔ ((starts ≤ instant) × IsOpen instant ends)
live_iff starts instant none = ((λ h. (ground (arith, h), tt)), λ (s, o). ground (arith, s))
live_iff starts instant (some e) =
    ((λ h. (ground (arith, h), ground (arith, h))), λ (s, o). ground (arith, s, o))

any_iff : (p : Text) (ps : List Text) → (any (text_eq p) ps ≡ true) ↔ Any (λ q. q ≡ p) ps
any_iff p [] = ((λ h. cc), λ m. absurd m)
any_iff p (q ∷ ps) = elim (Bool-cases (text_eq p q)) [
  | inl same ↦ ((λ h. inl (sym ((text_eq_iff p q).0 same))), λ m. rw same refl)
  | inr differ ↦ (
    (λ h. inr ((any_iff p ps).0 (rw differ at h))),
    λ m. elim m [
      | inl here ↦ absurd (cc ((text_eq_iff p q).1 (sym here), differ))
      | inr later ↦ rw differ ((any_iff p ps).1 later)
    ],
  )
]

Applies-is_live :
    (instant : ℕ) (l : OfferPricingLine) (c : CatalogOffer)
    → ((is_live instant c ≡ true) × (targets l c ≡ true)) ↔ Applies instant l c
unfolding is_live targets
Applies-is_live instant l c = (
  λ (live, aimed).
      let (s, o) = (live_iff c.starts_at instant c.ends_at).0 live in
      (s, o, (any_iff l.product_uuid c.product_uuids).0 aimed),
  λ (s, o, p). (
    (live_iff c.starts_at instant c.ends_at).1 (s, o),
    (any_iff l.product_uuid c.product_uuids).1 p,
  ),
)

module _ (instant : ℕ) (offers : List CatalogOffer) (l : OfferPricingLine) where
  abbrev candidates : List CatalogOffer
  candidates = filter (targets l) (filter (is_live instant) offers)

  All-candidates :
      (P : CatalogOffer → Type 0) → All P candidates → All (λ c. Applies instant l c → P c) offers
  All-candidates P h =
      All-map (λ c k a. let (live, aimed) = (Applies-is_live instant l c).1 a in k live aimed)
        offers
        (filter-All_back (λ c. targets l c ≡ true → P c) (is_live instant) offers
          (filter-All_back P (targets l) (filter (is_live instant) offers) h))

  candidate_lem :
      (b : CatalogOffer)
      → Any (λ c. c ≡ b) candidates
      → Any (λ c. c ≡ b) offers × Applies instant l b
  candidate_lem b m =
      let live_offers = filter (is_live instant) offers in
      let (place, aimed) =
        All-member (λ x. Any (λ y. y ≡ x) live_offers × (targets l x ≡ true)) candidates b
          (filter-All (targets l) live_offers) m in
      let (member, live) =
        All-member (λ x. Any (λ y. y ≡ x) offers × (is_live instant x ≡ true)) live_offers b
          (filter-All (is_live instant) offers) place in
      (member, (Applies-is_live instant l b).0 (live, aimed))

  best-IsSold :
      is_manual l ≡ false
      → (best : Option OfferLineDiscount) (name : OfferLineDiscount → Text)
      → IsBest l.quantity l.unit_price_amount candidates best
      → IsSold instant offers l
          (elim best [ none ↦ none | some d ↦ some (record { discount = d; name = name d }) ])
  unfolding is_manual
  best-IsSold plain none name h = inr (All-candidates _ h)
  best-IsSold plain (some d) name (b, place, found, best) =
      let (member, applies) = candidate_lem b place in
      (
        not_manual_of l.discount_type l.discount_value plain,
        (b, member, applies, found, All-candidates _ best),
      )

  line_offer-IsSold : IsSold instant offers l (line_offer (filter (is_live instant) offers) l)
  unfolding line_offer
  line_offer-IsSold =
      if_cases (λ (o : Option AppliedOffer). IsSold instant offers l o) (is_manual l)
        (λ manual. inl (unfold is_manual in manual_of l.discount_type l.discount_value manual))
        λ plain.
          best-IsSold plain (best_offer candidates l.quantity l.unit_price_amount) _
            (best_offer-IsBest l.quantity l.unit_price_amount candidates)

-- In a cart whose lines have different ids, each line is sold under what it alone would be: under no
-- offer if it has a discount of its own, or if no offer in force at the instant for its product takes
-- anything off its quantity and price; else with the discount of such an offer, and no other one in
-- force for its product is better.
pub apply_offers-IsSold :
    (lines : List OfferPricingLine) (offers : List CatalogOffer) (instant : ℕ)
    (l : OfferPricingLine)
    → DistinctBy OfferPricingLine.id lines
    → Any (λ x. x ≡ l) lines
    → IsSold instant offers l (lookup l.id (apply_offers lines (some offers) instant))
apply_offers-IsSold lines offers instant l distinct member =
    subst (IsSold instant offers l)
      (sym (lookup-apply_offers lines offers instant l distinct member))
      (line_offer-IsSold instant offers l)
