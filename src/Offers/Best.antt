-- ===== src/Offers/Best.antt =====
-- The best offer for a line (`bestOffer` of src/shared/pos/offerRule.ts) against its specification:
-- the highest priority, then the larger amount, then the lowest ordinal.
use pos_desktop.Prelude.{
  ℕ, ◌≤◌, ◌<◌, ◌≡◌, refl, true, false, ◌⊎◌, inl, inr, Option, none, some, List, [], ◌∷◌, arith,
  Bool-cases, Option-cases, All, All-map, Any, subst, sym,
}
use pos_desktop.Prelude.Int.{◌≤ℤ◌}
use pos_desktop.Prelude.Text.{Text}
use pos_desktop.Catalog.{CatalogOffer}
use pos_desktop.Offers.{
  OfferLineDiscount, offer_discount, Candidate, replaces, challenge, best_from, best_offer,
  discount_part,
}

-- The order of preference: `x` is no better than `y`.
abbrev pub NoBetter : Candidate → Candidate → Type 0
NoBetter (c, x) (d, y) =
    ¬ (d.priority ≤ℤ c.priority)
    ⊎ (c.priority ≡ d.priority) × (x.amount < y.amount)
    ⊎ (c.priority ≡ d.priority) × (x.amount ≡ y.amount) × (d.ordinal ≤ c.ordinal)

NoBetter-refl : (x : Candidate) → NoBetter x x
NoBetter-refl (c, x) = inr (inr (refl, refl, omega arith))

NoBetter-trans : (x y z : Candidate) → NoBetter x y → NoBetter y z → NoBetter x z
NoBetter-trans (c, x) (d, y) (e, z) p q = ground arith

-- A candidate replaces the best exactly when it is better.
replaces_lem : (x y : Candidate) → replaces x y ≡ true → NoBetter y x
unfolding replaces
replaces_lem (c, x) (d, y) h = ground arith

stays_lem : (x y : Candidate) → replaces x y ≡ false → NoBetter x y
unfolding replaces
stays_lem (c, x) (d, y) h = ground arith

abbrev Beaten : Option Candidate → Option Candidate → Type 0
Beaten none r = Unit
Beaten (some x) none = ⊥
Beaten (some x) (some y) = NoBetter x y

Beaten-refl : (x : Option Candidate) → Beaten x x
Beaten-refl none = tt
Beaten-refl (some x) = NoBetter-refl x

Beaten-trans : (x y z : Option Candidate) → Beaten x y → Beaten y z → Beaten x z
Beaten-trans none y z p q = tt
Beaten-trans (some x) (some y) none p q = q
Beaten-trans (some x) none z p q = absurd p
Beaten-trans (some x) (some y) (some z) p q = NoBetter-trans x y z p q

abbrev paired : CatalogOffer → Option OfferLineDiscount → Option Candidate
paired c none = none
paired c (some x) = some (c, x)

challenge_lem :
    (best : Option Candidate) (c : CatalogOffer) (x : Option OfferLineDiscount)
    → Beaten best (challenge best c x) × Beaten (paired c x) (challenge best c x)
unfolding challenge
challenge_lem best c none = (Beaten-refl best, tt)
challenge_lem none c (some x) = (tt, NoBetter-refl (c, x))
challenge_lem (some best) c (some x) = elim (Bool-cases (replaces (c, x) best)) [
  | inl better ↦ rw better (replaces_lem (c, x) best better, NoBetter-refl (c, x))
  | inr worse ↦ rw worse (NoBetter-refl best, stays_lem (c, x) best worse)
]

challenge_source :
    (best : Option Candidate) (c : CatalogOffer) (x : Option OfferLineDiscount) {b : Candidate}
    → challenge best c x ≡ some b
    → (best ≡ some b) ⊎ (c ≡ b.0) × (x ≡ some b.1)
unfolding challenge
challenge_source best c none h = inl h
challenge_source none c (some x) h = ground arith
challenge_source (some best) c (some x) h = elim (Bool-cases (replaces (c, x) best)) [
  | inl better ↦ inr (ground (arith, rw (better, challenge) at h))
  | inr worse ↦ inl (rw (worse, challenge) at h)
]

module _ (quantity : Text) (price : ℕ) where
  abbrev contender : CatalogOffer → Option Candidate
  contender c = paired c (offer_discount c quantity price)

  best_from-Beaten :
      (best : Option Candidate) (cs : List CatalogOffer)
      → let r = best_from best cs quantity price in
        Beaten best r × All (λ c. Beaten (contender c) r) cs
  unfolding best_from
  best_from-Beaten best [] = (Beaten-refl best, tt)
  best_from-Beaten best (c ∷ cs) =
      let next = challenge best c (offer_discount c quantity price) in
      let r = best_from next cs quantity price in
      let (kept, rest) = best_from-Beaten next cs in
      let (old, new) = challenge_lem best c (offer_discount c quantity price) in
      (Beaten-trans best next r old kept, (Beaten-trans (contender c) next r new kept, rest))

  -- The result is the best so far, or one of the offers with its discount.
  best_from-source :
      (best : Option Candidate) (cs : List CatalogOffer) {b : Candidate}
      → best_from best cs quantity price ≡ some b
      → (best ≡ some b) ⊎ Any (λ c. (c ≡ b.0) × (offer_discount c quantity price ≡ some b.1)) cs
  unfolding best_from
  best_from-source best [] h = inl h
  best_from-source best (c ∷ cs) {b} h =
      let next = challenge best c (offer_discount c quantity price) in
      elim (best_from-source next cs h) [
        | inl won ↦ elim (challenge_source best c (offer_discount c quantity price) won) [
          | inl old ↦ inl old
          | inr new ↦ inr (inl new)
        ]
        | inr later ↦ inr (inr later)
      ]

  -- No offer takes anything off; or the discount is that of an offer of the list, and no other offer
  -- that applies is better.
  abbrev pub IsBest : List CatalogOffer → Option OfferLineDiscount → Type 0
  IsBest cs none = All (λ c. offer_discount c quantity price ≡ none) cs
  IsBest cs (some d) =
      (b : CatalogOffer) × Any (λ c. c ≡ b) cs
      × (offer_discount b quantity price ≡ some d)
      × All
          (λ c.
            (x : OfferLineDiscount)
            → offer_discount c quantity price ≡ some x
            → NoBetter (c, x) (b, d))
          cs

  no_contender :
      (c : CatalogOffer) → Beaten (contender c) none → offer_discount c quantity price ≡ none
  no_contender c h = elim (Option-cases (offer_discount c quantity price)) [
    | inl absent ↦ absent
    | inr (x, found) ↦ absurd (subst (λ o. Beaten (paired c o) none) found h)
  ]

  Any-source :
      (cs : List CatalogOffer) (b : CatalogOffer) (d : OfferLineDiscount)
      → Any (λ c. (c ≡ b) × (offer_discount c quantity price ≡ some d)) cs
      → Any (λ c. c ≡ b) cs × (offer_discount b quantity price ≡ some d)
  Any-source [] b d h = absurd h
  Any-source (c ∷ cs) b d (inl (same, found)) =
      (inl same, subst (λ o. offer_discount o quantity price ≡ some d) same found)
  Any-source (c ∷ cs) b d (inr later) =
      let (place, found) = Any-source cs b d later in (inr place, found)

  IsBest-best_from :
      (cs : List CatalogOffer) → IsBest cs (discount_part (best_from none cs quantity price))
  IsBest-best_from cs = elim (Option-cases (best_from none cs quantity price)) [
    | inl nobody ↦
        subst (λ r. IsBest cs (discount_part r)) (sym nobody)
          (All-map no_contender cs
            (subst (λ r. All (λ c. Beaten (contender c) r) cs) nobody (best_from-Beaten none cs).1))
    | inr (b, won) ↦
        let unbeaten =
          subst (λ r. All (λ c. Beaten (contender c) r) cs) won (best_from-Beaten none cs).1 in
        let source : (none ≡ some b)
            ⊎ Any (λ c. (c ≡ b.0) × (offer_discount c quantity price ≡ some b.1)) cs =
          best_from-source none cs won in
        let place : Any (λ c. (c ≡ b.0) × (offer_discount c quantity price ≡ some b.1)) cs =
          elim source [ inl never ↦ cc | inr found ↦ found ] in
        let (member, found) = Any-source cs b.0 b.1 place in
        subst (λ r. IsBest cs (discount_part r)) (sym won)
          (
            b.0,
            member,
            found,
            All-map (λ c beaten x e. subst (λ o. Beaten (paired c o) (some b)) e beaten) cs
                unbeaten,
          )
  ]

  -- If no offer of the list takes anything off there is no discount; otherwise the result is the
  -- discount of an offer of the list, and no offer of the list that applies is better: none has a
  -- higher priority, or the same and a larger amount, or the same of both and a lower ordinal.
  pub best_offer-IsBest : (cs : List CatalogOffer) → IsBest cs (best_offer cs quantity price)
  unfolding best_offer
  best_offer-IsBest cs = IsBest-best_from cs
