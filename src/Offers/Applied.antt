-- ===== src/Offers/Applied.antt =====
-- The offers of a cart line by line (`applyOffers` of src/shared/pos/offerRule.ts).
use pos_desktop.Prelude.{
  ℕ, ◌≡◌, refl, sym, ◌≢◌, ◌∙◌, subst, false, inl, inr, Option, none, some, List, [], ◌∷◌, All, Any,
  All-member, filter, Bool-cases,
}
use pos_desktop.Prelude.Text.{Text, text_eq, text_eq_iff, text_eq_refl}
use pos_desktop.Prelude.Dict.{Dict, lookup, lookup-insert}
use pos_desktop.Prelude.Sorting.{DistinctBy}
use pos_desktop.Catalog.{CatalogOffer}
use pos_desktop.Offers.{
  OfferPricingLine, AppliedOffer, is_live, line_offer, apply_line, apply_lines, apply_offers,
}

text_eq_ne : (s t : Text) → s ≢ t → text_eq s t ≡ false
text_eq_ne s t ne = elim (Bool-cases (text_eq s t)) [
  | inl same ↦ absurd (ne ((text_eq_iff s t).0 same))
  | inr differ ↦ differ
]

lookup-apply_line_ne :
    (id k : Text) (o : Option AppliedOffer) (d : Dict AppliedOffer)
    → id ≢ k
    → lookup k (apply_line id o d) ≡ lookup k d
unfolding apply_line
lookup-apply_line_ne id k none d ne = refl
lookup-apply_line_ne id k (some a) d ne = rw (lookup-insert id k a d, text_eq_ne id k ne)

lookup-apply_line_self :
    (id : Text) (o : Option AppliedOffer) (d : Dict AppliedOffer)
    → lookup id d ≡ none
    → lookup id (apply_line id o d) ≡ o
unfolding apply_line
lookup-apply_line_self id none d e = e
lookup-apply_line_self id (some a) d e = rw (lookup-insert id id a d, text_eq_refl id)

module _ (live : List CatalogOffer) where
  -- Lines with other ids leave an entry alone.
  lookup-apply_lines_ne :
      (lines : List OfferPricingLine) (k : Text) (d : Dict AppliedOffer)
      → All (λ x. x.id ≢ k) lines
      → lookup k (apply_lines live lines d) ≡ lookup k d
  unfolding apply_lines
  lookup-apply_lines_ne [] k d h = refl
  lookup-apply_lines_ne (x ∷ lines) k d h =
      lookup-apply_lines_ne lines k (apply_line x.id (line_offer live x) d) h.1
      ∙ lookup-apply_line_ne x.id k (line_offer live x) d h.0

  lookup-apply_lines :
      (lines : List OfferPricingLine) (l : OfferPricingLine) (d : Dict AppliedOffer)
      → DistinctBy OfferPricingLine.id lines
      → Any (λ x. x ≡ l) lines
      → lookup l.id d ≡ none
      → lookup l.id (apply_lines live lines d) ≡ line_offer live l
  unfolding apply_lines
  lookup-apply_lines [] l d distinct member e = absurd member
  lookup-apply_lines (x ∷ lines) l d distinct (inl same) e =
      subst (λ y. lookup y.id (apply_lines live (x ∷ lines) d) ≡ line_offer live y) same
        (lookup-apply_lines_ne lines x.id (apply_line x.id (line_offer live x) d) distinct.0
          ∙ lookup-apply_line_self x.id (line_offer live x) d
              (subst (λ (y : OfferPricingLine). lookup y.id d ≡ none) (sym same) e))
  lookup-apply_lines (x ∷ lines) l d distinct (inr later) e =
      lookup-apply_lines lines l (apply_line x.id (line_offer live x) d) distinct.1 later (
        lookup-apply_line_ne x.id l.id (line_offer live x) d
          (λ same. All-member (λ y. y.id ≢ x.id) lines l distinct.0 later (sym same))
        ∙ e)

-- In a cart whose lines have different ids, a line is sold under what `line_offer` gives it alone.
pub lookup-apply_offers :
    (lines : List OfferPricingLine) (offers : List CatalogOffer) (instant : ℕ)
    (l : OfferPricingLine)
    → DistinctBy OfferPricingLine.id lines
    → Any (λ x. x ≡ l) lines
    → lookup l.id (apply_offers lines (some offers) instant)
      ≡ line_offer (filter (is_live instant) offers) l
unfolding apply_offers
lookup-apply_offers lines offers instant l distinct member =
    lookup-apply_lines (filter (is_live instant) offers) lines l [] distinct member
      (unfold lookup in refl)
