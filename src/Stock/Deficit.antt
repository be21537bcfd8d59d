-- ===== src/Stock/Deficit.antt =====
-- How much allocation a cart is still missing (src/main/services/allocationDeficit.ts), with the usable
-- amounts that src/main/services/allocationAcquisition.service.ts gives it. The products'
-- identities come in lower case, as `lower` gives them; keys are ordered by code units.
mod Tests
use pos_desktop.Prelude.{
  ℕ, ◌+◌, ◌-◌, Bool, ◌||◌, Option, none, some, List, [], ◌∷◌, ◌++◌, map, any, ltb, leb,
  if◌then◌else◌, length,
}
use pos_desktop.Prelude.Number.{max_safe_integer}
use pos_desktop.Prelude.Text.{Text, text_after}
use pos_desktop.Prelude.Dict.{Dict, lookup, insert}
use pos_desktop.Prelude.Sorting.{sort_by}
use pos_desktop.Stock.{AllocationOwner}
use pos_desktop.Stock.Split.{get_or_else}
use pos_desktop.Stock.Tables.{Tables}
use pos_desktop.Stock.Spendable.{usable_remaining_milli}

abbrev pub top_up_max_items : ℕ
top_up_max_items = 100

abbrev pub top_up_max_quantity_milli : ℕ
top_up_max_quantity_milli = 999_999_999

pub record TrackedDemandLine : Type 0 where
  pub line_id : Text
  pub product_uuid : Text
  pub required_milli : ℕ

pub record AllocationDeficitItem : Type 0 where
  pub product_uuid : Text
  pub required_milli : ℕ
  pub usable_milli : ℕ
  pub deficit_milli : ℕ

pub data AllocationDeficitResult : Type 0 where
  covered : AllocationDeficitResult
  deficit : List AllocationDeficitItem → List Text → AllocationDeficitResult
  unrepresentable : List Text → AllocationDeficitResult

-- What the two maps hold for a product.
pub record Demand : Type 0 where
  pub required_milli : ℕ
  pub line_ids : List Text

abbrev pub no_demand : Demand
no_demand = record { required_milli = 0; line_ids = [] }

abbrev pub demand_or : Option Demand → Demand
demand_or none = no_demand
demand_or (some d) = d

abbrev pub more_demand : TrackedDemandLine → Demand → Demand
more_demand line d = record {
  required_milli = d.required_milli + line.required_milli;
  line_ids = d.line_ids ++ (line.line_id ∷ []);
}

-- The item of a product with the ids of its lines, where it is not covered.
unfoldable pub item_of : Dict ℕ → Text × Demand → Option (AllocationDeficitItem × List Text)
unfolding get_or_else
item_of usable (product, d) =
    let usable_milli = get_or_else 0 product usable in
    if leb d.required_milli usable_milli
    then none
    else some (
      record {
        product_uuid = product;
        required_milli = d.required_milli;
        usable_milli = usable_milli;
        deficit_milli = d.required_milli - usable_milli;
      },
      d.line_ids,
    )

-- The loop over the sorted keys.
unfoldable pub items_of : Dict ℕ → Dict Demand → List (AllocationDeficitItem × List Text)
unfolding item_of
items_of usable [] = []
items_of usable (entry ∷ entries) =
    let rest = items_of usable entries in
    elim (item_of usable entry) [ none ↦ rest | some item ↦ item ∷ rest ]

unfoldable pub is_unrepresentable : AllocationDeficitItem → Bool
is_unrepresentable item =
    ltb max_safe_integer item.deficit_milli
    || ltb item.deficit_milli 1
    || ltb top_up_max_quantity_milli item.deficit_milli

abbrev pub joined : List (List Text) → List Text
joined [] = []
joined (ids ∷ rest) = ids ++ joined rest

-- The result for the items found.
unfoldable pub deficit_result : List (AllocationDeficitItem × List Text) → AllocationDeficitResult
unfolding is_unrepresentable
deficit_result [] = covered
deficit_result (item ∷ items) =
    let found : List AllocationDeficitItem =
      map (λ (i : AllocationDeficitItem × List Text). i.0) (item ∷ items) in
    let ids = joined (map (λ (i : AllocationDeficitItem × List Text). i.1) (item ∷ items)) in
    if ltb top_up_max_items (length found) || any is_unrepresentable found
    then unrepresentable ids
    else deficit found ids

module _ (lower : Text → Text) where
  -- The loop over the lines. The two maps have the same keys, so that they are one here. The sums are
  -- exact, as those of the source are up to 2^53 thousandths.
  unfoldable pub demands : List TrackedDemandLine → Dict Demand → Dict Demand
  unfolding lookup insert
  demands [] known = known
  demands (line ∷ lines) known =
      let product = lower line.product_uuid in
      demands lines (insert product (more_demand line (demand_or (lookup product known))) known)

  unfoldable pub calculate_allocation_deficits :
      List TrackedDemandLine → Dict ℕ → AllocationDeficitResult
  unfolding demands sort_by items_of deficit_result text_after
  calculate_allocation_deficits lines usable =
      deficit_result
        (items_of usable (sort_by (λ (a : Text × Demand) b. text_after a.0 b.0) (demands lines [])))

module _ (lower : Text → Text) where
  -- `usableMilliByProduct` of the acquisition. A product that comes again is given the same amount, so
  -- that the `Set` of the products is not needed.
  unfoldable pub usable_milli_by_product :
      Tables → AllocationOwner → ℕ → List TrackedDemandLine → Dict ℕ → Dict ℕ
  unfolding usable_remaining_milli insert
  usable_milli_by_product t owner now [] usable = usable
  usable_milli_by_product t owner now (line ∷ lines) usable =
      let product = lower line.product_uuid in
      usable_milli_by_product t owner now lines
        (insert product (usable_remaining_milli t owner product now) usable)
