-- ===== src/Pricing/Allocation.antt =====
-- The split of an invoice discount over the lines by largest remainder (`allocationFor` of
-- src/shared/pos/posCalculator.ts). `locale_after` stands for `left.localeCompare(right) > 0`, the
-- collation of the platform. The caller's total is the sum of the taxable amounts, so the floors never
-- exceed the discount and the subtractions below are exact (`Floors.antt`).
pub mod Floors
pub mod Remainders
pub mod Conservation
use pos_desktop.Prelude.{
  ℕ, zero, suc, ◌+◌, ◌-◌, ◌*◌, ◌/◌, ◌%◌, ◌<◌, ◌≡◌, Bool, true, false, ◌&&◌, ◌||◌, List, [], ◌∷◌,
  map, ltb, leb, ◌==◌, if◌then◌else◌, ok, err, get_or, set, sum,
}
use pos_desktop.Prelude.Text.{Text}
use pos_desktop.Prelude.Sorting.{sort_by}
use pos_desktop.Pricing.Types.{
  PreparedLine, CalculationResult, cart_discount_exceeds_amount, CartCalculationInputLine,
}

pub record Ranked : Type 0 where
  pub index : ℕ
  pub remainder : ℕ
  pub rate : ℕ
  pub taxable : ℕ
  pub product_uuid : Text

module _ (invoice_discount taxable_total : ℕ) where
  abbrev pub floor_share : PreparedLine → ℕ
  floor_share line =
      let floor = invoice_discount * line.taxable / taxable_total in
      if ltb line.taxable floor then line.taxable else floor

  abbrev pub rank : ℕ → PreparedLine → Ranked
  rank index line = record {
    index = index;
    remainder = invoice_discount * line.taxable % taxable_total;
    rate = line.rate;
    taxable = line.taxable;
    product_uuid = line.input.product_uuid;
  }

  -- The entries of `ranked`, from an index on.
  pub rank_from : ℕ → List PreparedLine → List Ranked
  rank_from index [] = []
  rank_from index (line ∷ lines) = rank index line ∷ rank_from (index + 1) lines

-- `lines[i].taxable`
abbrev pub taxable_at : List PreparedLine → ℕ → ℕ
taxable_at [] i = 0
taxable_at (line ∷ lines) zero = line.taxable
taxable_at (line ∷ lines) (suc i) = taxable_at lines i

module _ (lines : List PreparedLine) where
  -- One unit for each ranked line that has room, until nothing remains.
  pub give_units : List Ranked → List ℕ → ℕ → List ℕ × ℕ
  give_units [] allocations remaining = (allocations, remaining)
  give_units (c ∷ cs) allocations remaining = elim (remaining == 0) [
    | true ↦ (allocations, remaining)
    | false ↦ elim (ltb (get_or allocations c.index 0) (taxable_at lines c.index)) [
      | true ↦
          give_units cs (set allocations c.index (get_or allocations c.index 0 + 1)) (remaining - 1)
      | false ↦ give_units cs allocations remaining
    ]
  ]

  -- The defensive pass: each line takes what it has room for.
  pub fill_capacity : List Ranked → List ℕ → ℕ → List ℕ × ℕ
  fill_capacity [] allocations remaining = (allocations, remaining)
  fill_capacity (c ∷ cs) allocations remaining =
      let capacity = taxable_at lines c.index - get_or allocations c.index 0 in
      let applied = if ltb capacity remaining then capacity else remaining in
      elim (remaining == 0) [
        | true ↦ (allocations, remaining)
        | false ↦ elim (capacity == 0) [
          | true ↦ fill_capacity cs allocations remaining
          | false ↦
              fill_capacity cs (set allocations c.index (get_or allocations c.index 0 + applied))
                (remaining - applied)
        ]
      ]

module _ (locale_after : Text → Text → Bool) where
  -- The comparator of `ranked.sort`: whether it puts `left` after `right`.
  abbrev pub ranked_after : Ranked → Ranked → Bool
  ranked_after left right =
      if ltb left.remainder right.remainder
      then true
      else if ltb right.remainder left.remainder
      then false
      else if ltb left.rate right.rate
      then true
      else if ltb right.rate left.rate
      then false
      else if ltb left.taxable right.taxable
      then true
      else if ltb right.taxable left.taxable
      then false
      else locale_after left.product_uuid right.product_uuid

  abbrev pub uuid_after : Ranked → Ranked → Bool
  uuid_after left right = locale_after left.product_uuid right.product_uuid

  unfoldable pub allocation_for : List PreparedLine → ℕ → ℕ → CalculationResult (List ℕ)
  unfolding rank_from give_units fill_capacity sort_by
  allocation_for lines invoice_discount taxable_total =
      let floors = map (floor_share invoice_discount taxable_total) lines in
      let ranked = sort_by ranked_after (rank_from invoice_discount taxable_total 0 lines) in
      let given = give_units lines ranked floors (invoice_discount - sum floors) in
      let filled = fill_capacity lines (sort_by uuid_after ranked) given.0 given.1 in
      if taxable_total == 0
      then ok (map (λ line. 0) lines)
      else if filled.1 == 0
      then ok filled.0
      else err cart_discount_exceeds_amount
