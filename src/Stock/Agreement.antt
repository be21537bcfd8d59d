-- ===== src/Stock/Agreement.antt =====
-- The deficit that is asked for before a sale (src/main/services/allocationAcquisition.service.ts,
-- src/main/services/allocationDeficit.ts) and the split that the sale makes
-- (src/main/services/stockAllocation.service.ts) agree on what is enough.
use pos_desktop.Prelude.{
  ℕ, ◌≤◌, ◌<◌, ◌≡◌, ◌≢◌, ◌↔◌, ◌⊎◌, refl, sym, ◌∙◌, ap, subst, inl, inr, Bool, true, false, not,
  ◌&&◌, List, [], ◌∷◌, map, filter, if◌then◌else◌, arith, Result, ok, err, All, All-filter, sum,
  sum_by, if_cases, Bool-cases,
}
use pos_desktop.Prelude.Sorting.{DistinctBy, sort_by-DistinctBy}
use pos_desktop.Prelude.Text.{Text, text_eq, text_eq_iff, text_eq_refl}
use pos_desktop.Prelude.Dict.{Dict, insert}
use pos_desktop.Stock.{Grant, AllocationOwner}
use pos_desktop.Stock.Split.{
  SplitError, allocation_data_unavailable, Split, get_or_else, split_allocations,
}
use pos_desktop.Stock.Covering.{get_or_else-insert}
use pos_desktop.Stock.Drained.{Decides, split_allocations-Decides}
use pos_desktop.Stock.Tables.{Tables, StoredGrant}
use pos_desktop.Stock.Spendable.{
  is_unavailable, is_usable, spendable_milli, next_consumption_sequence, by_allocation, comes_after,
  usable_grants_for_product, usable_remaining_milli, split_for_product,
}
use pos_desktop.Stock.Deficit.{
  TrackedDemandLine, AllocationDeficitItem, covered, deficit_result, calculate_allocation_deficits,
  usable_milli_by_product,
}
use pos_desktop.Stock.Missing.{required_of, deficit_of, items, sorted_items, sorted_items-lacks}
use pos_desktop.Stock.Shortage.{items_of-positive, MakesUp, calculate_allocation_deficits-MakesUp}

-- The identity that no two stored grants share.
abbrev pub identity : StoredGrant → Text
identity row = row.grant.allocation_uuid

filter-DistinctBy :
    (p : Grant → Bool) (gs : List Grant)
    → DistinctBy Grant.allocation_uuid gs
    → DistinctBy Grant.allocation_uuid (filter p gs)
filter-DistinctBy p [] d = tt
filter-DistinctBy p (g ∷ gs) (fresh, d) =
    if_cases (DistinctBy Grant.allocation_uuid) (p g)
      (λ t. (
        All-filter (λ h. h.allocation_uuid ≢ g.allocation_uuid) p gs fresh,
        filter-DistinctBy p gs d,
      ))
      (λ f. filter-DistinctBy p gs d)

map-DistinctBy :
    (rows : List StoredGrant)
    → DistinctBy identity rows
    → DistinctBy Grant.allocation_uuid (map StoredGrant.grant rows)
map-DistinctBy [] d = tt
map-DistinctBy (row ∷ rows) (fresh, d) = (away rows fresh, map-DistinctBy rows d)
  where
    away :
        (others : List StoredGrant)
        → All (λ r. identity r ≢ identity row) others
        → All (λ g. g.allocation_uuid ≢ identity row) (map StoredGrant.grant others)
    away [] h = tt
    away (other ∷ others) h = (h.0, away others h.1)

-- The usable grants of a product have distinct identities too.
usable-DistinctBy :
    (t : Tables) (owner : AllocationOwner) (product : Text) (now : ℕ)
    → DistinctBy identity t.grants
    → DistinctBy Grant.allocation_uuid (usable_grants_for_product t owner product now)
unfolding usable_grants_for_product
usable-DistinctBy t owner product now d =
    if_cases (DistinctBy Grant.allocation_uuid) (is_unavailable t.capability) (λ u. tt)
      (λ a.
        sort_by-DistinctBy comes_after Grant.allocation_uuid
          (filter (is_usable t owner product now) (map StoredGrant.grant t.grants))
          (filter-DistinctBy (is_usable t owner product now) (map StoredGrant.grant t.grants)
            (map-DistinctBy t.grants d)))

-- A map of the grants' amounts has each grant's amount.
module _ (f : Text → ℕ) where
  get-insert :
      (u k : Text) (known : Dict ℕ)
      → (get_or_else 0 u known ≡ f u) ⊎ (k ≡ u)
      → get_or_else 0 u (insert k (f k) known) ≡ f u
  get-insert u k known h = get_or_else-insert 0 (f k) k u known ∙ split (text_eq k u) refl
    where
      split : (b : Bool) → text_eq k u ≡ b → (if b then f k else get_or_else 0 u known) ≡ f u
      split true e = ap f ((text_eq_iff k u).0 e)
      split false e = elim h [
        | inl had ↦ had
        | inr same ↦ absurd (cc ((text_eq_iff k u).1 same, e))
      ]

  by_allocation-keeps :
      (u : Text) (grants : List Grant) (known : Dict ℕ)
      → get_or_else 0 u known ≡ f u
      → get_or_else 0 u (by_allocation f grants known) ≡ f u
  unfolding by_allocation
  by_allocation-keeps u [] known h = h
  by_allocation-keeps u (g ∷ grants) known h =
      by_allocation-keeps u grants _ (get-insert u g.allocation_uuid known (inl h))

  sum_by-by_allocation :
      (grants : List Grant) (known : Dict ℕ)
      → sum_by
          (λ (g : Grant). get_or_else 0 g.allocation_uuid (by_allocation f grants known))
          grants
        ≡ sum_by (λ (g : Grant). f g.allocation_uuid) grants
  unfolding by_allocation
  sum_by-by_allocation [] known = refl
  sum_by-by_allocation (g ∷ grants) known = omega (
    arith,
    sum_by-by_allocation grants (insert g.allocation_uuid (f g.allocation_uuid) known),
    by_allocation-keeps g.allocation_uuid grants
        (insert g.allocation_uuid (f g.allocation_uuid) known)
        (get-insert g.allocation_uuid g.allocation_uuid known (inr refl)),
  )

-- Whether a split is made.
abbrev IsMade : Result SplitError Split → Type 0
IsMade r = (lines : Split) × (r ≡ ok lines)

Decides-IsMade :
    (demand total : ℕ) (r : Result SplitError Split)
    → Decides false demand total r
    → IsMade r ↔ (demand ≤ total)
Decides-IsMade demand total (err code) (same, strict, short) =
    (λ (lines, e). cc, λ enough. absurd (omega arith))
Decides-IsMade demand total (ok lines) (left, enough) = (λ made. enough refl, λ e. (lines, refl))

module _ (create_uuid : ℕ → Text) where
  -- A split that may leave nothing uncovered is made exactly where the usable remainder suffices.
  split_for_product-IsMade :
      (t : Tables) (owner : AllocationOwner) (product : Text) (wanted : List ℕ) (now : ℕ)
      → DistinctBy identity t.grants
      → is_unavailable t.capability ≡ false
      → IsMade (split_for_product create_uuid t owner product wanted now false)
        ↔ (sum wanted ≤ usable_remaining_milli t owner product now)
  unfolding split_for_product usable_remaining_milli
  split_for_product-IsMade t owner product wanted now d supported =
      subst
        (λ u.
          IsMade (
            if u && not false
            then err allocation_data_unavailable
            else split_of (if u then [] else usable_grants_for_product t owner product now))
          ↔ (sum wanted ≤ (
              if u
              then 0
              else sum_by (λ (g : Grant). spendable_milli t g.allocation_uuid)
                  (usable_grants_for_product t owner product now))))
        (sym supported)
        (subst
          (λ n.
            IsMade (split_of (usable_grants_for_product t owner product now)) ↔ (sum wanted ≤ n))
          (sum_by-by_allocation (spendable_milli t) (usable_grants_for_product t owner product now)
            [])
          (Decides-IsMade (sum wanted) _ _ (
            split_allocations-Decides create_uuid (usable_grants_for_product t owner product now) _
              _ wanted false (usable-DistinctBy t owner product now d))))
    where
      split_of : List Grant → Result SplitError Split
      split_of grants =
          split_allocations create_uuid grants (by_allocation (spendable_milli t) grants [])
            (by_allocation (next_consumption_sequence t) grants []) wanted false

nothing_found :
    (found : List (AllocationDeficitItem × List Text))
    → All (λ (i : AllocationDeficitItem). 0 < i.deficit_milli) (items found)
    → ((p : Text) → deficit_of p (items found) ≡ 0)
    → deficit_result found ≡ covered
unfolding deficit_result
nothing_found [] h none_lacks = refl
nothing_found ((item, ids) ∷ found) (more, h) none_lacks =
    let lacks = rw (text_eq_refl item.product_uuid) at (none_lacks item.product_uuid) in
    absurd (omega (arith, more, lacks))

-- The demands that a sale splits for a product: what its lines need, one by one.
unfoldable pub wanted_of : Text → List TrackedDemandLine → List ℕ
wanted_of p [] = []
wanted_of p (line ∷ lines) =
    let rest = wanted_of p lines in
    if text_eq line.product_uuid p then line.required_milli ∷ rest else rest

module _ (lower : Text → Text) where
  covered_if :
      (lines : List TrackedDemandLine) (usable : Dict ℕ)
      → ((p : Text) → required_of lower p lines ≤ get_or_else 0 p usable)
      → calculate_allocation_deficits lower lines usable ≡ covered
  unfolding calculate_allocation_deficits sorted_items
  covered_if lines usable enough =
      nothing_found (sorted_items lower lines usable) (items_of-positive usable _)
        (λ p. omega (arith, sorted_items-lacks lower lines usable p, enough p))

  -- A cart is covered exactly where no product needs more than is usable.
  covered_iff :
      (lines : List TrackedDemandLine) (usable : Dict ℕ)
      → (calculate_allocation_deficits lower lines usable ≡ covered)
        ↔ ((p : Text) → required_of lower p lines ≤ get_or_else 0 p usable)
  covered_iff lines usable = (
    λ e.
        subst (MakesUp lower lines usable) e
          (calculate_allocation_deficits-MakesUp lower lines usable),
    covered_if lines usable,
  )

  module _ (t : Tables) (owner : AllocationOwner) (now : ℕ) where
    abbrev usable_of : Text → ℕ
    usable_of p = usable_remaining_milli t owner p now

    usable-keeps :
        (p : Text) (lines : List TrackedDemandLine) (known : Dict ℕ)
        → get_or_else 0 p known ≡ usable_of p
        → get_or_else 0 p (usable_milli_by_product lower t owner now lines known) ≡ usable_of p
    unfolding usable_milli_by_product
    usable-keeps p [] known h = h
    usable-keeps p (line ∷ lines) known h =
        usable-keeps p lines _ (get-insert usable_of p (lower line.product_uuid) known (inl h))

    -- The map has the usable remainder of every product that a line needs.
    usable_or_not_needed :
        (p : Text) (lines : List TrackedDemandLine) (known : Dict ℕ)
        → (get_or_else 0 p (usable_milli_by_product lower t owner now lines known) ≡ usable_of p)
          ⊎ (required_of lower p lines ≡ 0)
    unfolding usable_milli_by_product
    usable_or_not_needed p [] known = inr refl
    usable_or_not_needed p (line ∷ lines) known =
        elim (Bool-cases (text_eq (lower line.product_uuid) p)) [
          | inl mine ↦ inl (
              usable-keeps p lines _ (
                get-insert usable_of p (lower line.product_uuid) known
                  (inr ((text_eq_iff (lower line.product_uuid) p).0 mine))))
          | inr other ↦ elim (usable_or_not_needed p lines _) [
            | inl had ↦ inl had
            | inr unneeded ↦ inr (rw other (omega (arith, unneeded)))
          ]
        ]

    enough_iff :
        (p : Text) (lines : List TrackedDemandLine)
        → (required_of lower p lines
            ≤ get_or_else 0 p (usable_milli_by_product lower t owner now lines []))
          ↔ (required_of lower p lines ≤ usable_of p)
    enough_iff p lines = elim (usable_or_not_needed p lines []) [
      | inl had ↦ ((λ h. omega (arith, h, had)), λ h. omega (arith, h, had))
      | inr unneeded ↦ ((λ h. omega (arith, unneeded)), λ h. omega (arith, unneeded))
    ]

  -- A line that names its product in lower case.
  abbrev pub IsLower : TrackedDemandLine → Type 0
  IsLower line = lower line.product_uuid ≡ line.product_uuid

  sum-wanted_of :
      (p : Text) (lines : List TrackedDemandLine)
      → All IsLower lines
      → sum (wanted_of p lines) ≡ required_of lower p lines
  unfolding wanted_of
  sum-wanted_of p [] h = refl
  sum-wanted_of p (line ∷ lines) (here, h) = rw here (ground (arith, sum-wanted_of p lines h))

  -- For stored grants with distinct identities, a device whose allocations are not unavailable and
  -- lines that name their products in lower case, the deficit calculated from the usable amounts is
  -- none exactly where the split of a sale that may leave nothing uncovered is made for every product.
  pub covered-split_for_product :
      (create_uuid : ℕ → Text) (t : Tables) (owner : AllocationOwner) (now : ℕ)
      (lines : List TrackedDemandLine)
      → DistinctBy identity t.grants
      → is_unavailable t.capability ≡ false
      → All IsLower lines
      → (calculate_allocation_deficits lower lines
            (usable_milli_by_product lower t owner now lines [])
          ≡ covered)
        ↔ ((p : Text)
            → (split : Split) × (split_for_product create_uuid t owner p
                  (wanted_of p lines)
                  now
                  false
                ≡ ok split))
  covered-split_for_product create_uuid t owner now lines d supported lower_case =
      let usable = usable_milli_by_product lower t owner now lines [] in
      let made = λ (p : Text).
        split_for_product-IsMade create_uuid t owner p (wanted_of p lines) now d supported in
      (
        λ e p. (made p).1 (
            omega (
              arith,
              sum-wanted_of p lines lower_case,
              (enough_iff t owner now p lines).0 ((covered_iff lines usable).0 e p),
            )),
        λ splits. (covered_iff lines usable).1 λ p.
            (enough_iff t owner now p lines).1
              (omega (arith, sum-wanted_of p lines lower_case, (made p).0 (splits p))),
      )
