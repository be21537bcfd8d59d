-- ===== src/Stock/Shortage.antt =====
-- The deficits of a cart make up, product by product, what its lines need beyond the usable grants
-- (src/main/services/allocationDeficit.ts).
use pos_desktop.Prelude.{
  ℕ, ◌-◌, ◌≤◌, ◌<◌, ◌≡◌, ◌≢◌, refl, Bool, true, false, ◌||◌, Option, none, some, List, [], ◌∷◌, leb,
  ltb, any, length, arith, All, All-map, Any, any-All, if_cases, Bool-cases, inl, inr, ◌⊎◌,
}
use pos_desktop.Prelude.Text.{Text, text_after}
use pos_desktop.Prelude.Dict.{Dict}
use pos_desktop.Prelude.Sorting.{DistinctBy, sort_by, sort_by-DistinctBy}
use pos_desktop.Stock.Split.{get_or_else}
use pos_desktop.Stock.Deficit.{
  TrackedDemandLine, AllocationDeficitItem, AllocationDeficitResult, covered, deficit,
  unrepresentable, top_up_max_items, top_up_max_quantity_milli, is_unrepresentable, Demand, demands,
  item_of, items_of, deficit_result, calculate_allocation_deficits,
}
use pos_desktop.Stock.Missing.{
  key, required_of, deficit_of, items, demands-DistinctBy, sorted_items, sorted_items-lacks,
}

-- Every item asks for something.
pub items_of-positive :
    (usable : Dict ℕ) (entries : Dict Demand)
    → All (λ (i : AllocationDeficitItem). 0 < i.deficit_milli) (items (items_of usable entries))
unfolding items_of item_of
items_of-positive usable [] = tt
items_of-positive usable ((product, d) ∷ entries) =
    let rest = items_of-positive usable entries in
    if_cases {A = Option (AllocationDeficitItem × List Text)}
      (λ o.
        All (λ (i : AllocationDeficitItem). 0 < i.deficit_milli)
          (items (elim o [
            | none ↦ items_of usable entries
            | some item ↦ item ∷ items_of usable entries
          ])))
      (leb d.required_milli (get_or_else 0 product usable)) (λ enough. rest)
      (λ short. (ground (arith, short), rest))

-- The products of the items are products of the entries.
items_of-away :
    (usable : Dict ℕ) (p : Text) (entries : Dict Demand)
    → All (λ e. key e ≢ p) entries
    → All (λ (i : AllocationDeficitItem). i.product_uuid ≢ p) (items (items_of usable entries))
unfolding items_of item_of
items_of-away usable p [] h = tt
items_of-away usable p ((product, d) ∷ entries) (other, h) =
    let rest = items_of-away usable p entries h in
    if_cases {A = Option (AllocationDeficitItem × List Text)}
      (λ o.
        All (λ (i : AllocationDeficitItem). i.product_uuid ≢ p)
          (items (elim o [
            | none ↦ items_of usable entries
            | some item ↦ item ∷ items_of usable entries
          ])))
      (leb d.required_milli (get_or_else 0 product usable)) (λ enough. rest)
      (λ short. (other, rest))

items_of-DistinctBy :
    (usable : Dict ℕ) (entries : Dict Demand)
    → DistinctBy key entries
    → DistinctBy AllocationDeficitItem.product_uuid (items (items_of usable entries))
unfolding items_of item_of
items_of-DistinctBy usable [] h = tt
items_of-DistinctBy usable ((product, d) ∷ entries) (fresh, h) =
    let rest = items_of-DistinctBy usable entries h in
    if_cases {A = Option (AllocationDeficitItem × List Text)}
      (λ o. DistinctBy AllocationDeficitItem.product_uuid (
        items
          (elim o [ none ↦ items_of usable entries | some item ↦ item ∷ items_of usable entries ])))
      (leb d.required_milli (get_or_else 0 product usable)) (λ enough. rest)
      (λ short. (items_of-away usable product entries fresh, rest))

-- An item that asks for something is out of bounds only by asking for too much.
too_large :
    (found : List AllocationDeficitItem)
    → All (λ i. 0 < i.deficit_milli) found
    → any is_unrepresentable found ≡ true
    → Any (λ i. top_up_max_quantity_milli < i.deficit_milli) found
unfolding is_unrepresentable
too_large [] h e = cc (e)
too_large (i ∷ found) (more, h) e = elim (Bool-cases (is_unrepresentable i)) [
  | inl over ↦ inl (ground (arith, over, more))
  | inr fits ↦ inr (too_large found h (rw fits at e))
]

module _ (lower : Text → Text) where
  -- The shortage of a cart: one item for each product of which the lines need more than is usable, which
  -- asks for exactly what is missing.
  abbrev pub IsShortage : List TrackedDemandLine → Dict ℕ → List AllocationDeficitItem → Type 0
  IsShortage lines usable found =
      DistinctBy AllocationDeficitItem.product_uuid found
      × All (λ i. 0 < i.deficit_milli) found
      × ((p : Text) → deficit_of p found ≡ required_of lower p lines - get_or_else 0 p usable)

  -- No product is short; or the items are the shortage, within the bounds; or the shortage is out of
  -- the bounds.
  abbrev pub MakesUp : List TrackedDemandLine → Dict ℕ → AllocationDeficitResult → Type 0
  MakesUp lines usable covered = (p : Text) → required_of lower p lines ≤ get_or_else 0 p usable
  MakesUp lines usable (deficit found ids) =
      IsShortage lines usable found
      × (1 ≤ length found)
      × (length found ≤ top_up_max_items)
      × All (λ i. i.deficit_milli ≤ top_up_max_quantity_milli) found
  MakesUp lines usable (unrepresentable ids) =
      (found : List AllocationDeficitItem) × IsShortage lines usable found
      × ((top_up_max_items < length found)
          ⊎ Any (λ i. top_up_max_quantity_milli < i.deficit_milli) found)

  sorted_items-IsShortage :
      (lines : List TrackedDemandLine) (usable : Dict ℕ)
      → IsShortage lines usable (items (sorted_items lower lines usable))
  unfolding sorted_items
  sorted_items-IsShortage lines usable =
      let after = λ (a : Text × Demand) (b : Text × Demand). text_after a.0 b.0 in
      (
        items_of-DistinctBy usable (sort_by after (demands lower lines [])) (
            sort_by-DistinctBy after key (demands lower lines [])
              (demands-DistinctBy lower lines [] tt)),
        items_of-positive usable (sort_by after (demands lower lines [])),
        sorted_items-lacks lower lines usable,
      )

  result-MakesUp :
      (lines : List TrackedDemandLine) (usable : Dict ℕ)
      (found : List (AllocationDeficitItem × List Text))
      → IsShortage lines usable (items found)
      → MakesUp lines usable (deficit_result found)
  unfolding deficit_result is_unrepresentable
  result-MakesUp lines usable [] (d, more, h) = λ p. omega (arith, h p)
  result-MakesUp lines usable (item ∷ found) (d, more, h) =
      if_cases (MakesUp lines usable)
        (ltb top_up_max_items (length (items (item ∷ found)))
          || any is_unrepresentable (items (item ∷ found)))
        (λ over. (items (item ∷ found), (d, more, h), beyond (ltb _ _) refl over))
        λ fits.
          let (few, fine) = neither _ _ fits in
          (
            (d, more, h),
            omega arith,
            no_more _ few,
            All-map (λ i e. ground (arith, e)) (items (item ∷ found))
                (any-All is_unrepresentable (items (item ∷ found)) fine),
          )
    where
      neither : (a b : Bool) → (a || b) ≡ false → (a ≡ false) × (b ≡ false)
      neither a b e = ground arith

      no_more : (n : ℕ) → ltb top_up_max_items n ≡ false → n ≤ top_up_max_items
      no_more n e = ground arith

      beyond :
          (b : Bool)
          → ltb top_up_max_items (length (items (item ∷ found))) ≡ b
          → (b || any is_unrepresentable (items (item ∷ found))) ≡ true
          → (top_up_max_items < length (items (item ∷ found)))
            ⊎ Any (λ i. top_up_max_quantity_milli < i.deficit_milli) (items (item ∷ found))
      beyond true e over = inl (ground (arith, e))
      beyond false e over = inr (too_large (items (item ∷ found)) more over)

  -- A cart is covered only if no product needs more than is usable. Otherwise there is a shortage: items
  -- of distinct products, each of at least 1 thousandth, that ask for each product exactly what its
  -- lines need beyond the usable amount. A deficit is that shortage, of 1 to 100 items of at most
  -- 999,999,999 thousandths. A cart is unrepresentable only if its shortage has more than 100 items or
  -- an item of more than 999,999,999.
  pub calculate_allocation_deficits-MakesUp :
      (lines : List TrackedDemandLine) (usable : Dict ℕ)
      → MakesUp lines usable (calculate_allocation_deficits lower lines usable)
  unfolding calculate_allocation_deficits sorted_items
  calculate_allocation_deficits-MakesUp lines usable =
      result-MakesUp lines usable (sorted_items lower lines usable)
        (sorted_items-IsShortage lines usable)
