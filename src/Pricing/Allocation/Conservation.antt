-- ===== src/Pricing/Allocation/Conservation.antt =====
-- The allocation of an invoice discount takes exactly the discount (`allocationFor` of
-- src/shared/pos/posCalculator.ts).
use pos_desktop.Prelude.{
  ℕ, zero, suc, ◌+◌, ◌-◌, ◌*◌, ◌/◌, ◌%◌, ◌≤◌, ◌<◌, ◌≡◌, refl, ◌∙◌, ap, Bool, false, List, [], ◌∷◌,
  map, arith, ok, ◌==◌, length, get_or, sum, sum_by, All, All-map, length-map,
}
use native.Mathlib.Decide.{dec_lt}
use pos_desktop.Prelude.Text.{Text}
use pos_desktop.Prelude.Sorting.{
  sort_by, sort_by-All, sum_by-sort_by, sort_by-DistinctBy, DistinctBy,
}
use pos_desktop.Pricing.Types.{PreparedLine}
use pos_desktop.Pricing.Allocation.{
  Ranked, floor_share, rank_from, ranked_after, uuid_after, taxable_at, give_units, fill_capacity,
  allocation_for,
}
use pos_desktop.Pricing.Allocation.Floors.{
  get_or-floors, floors_and_remainders, Entry, rank_from-Entry, rank_from-DistinctBy,
}
use pos_desktop.Pricing.Allocation.Remainders.{
  Ready, Handed, fill_none, give_units-exhausts, give_units-Handed,
}

-- What a discount's allocation to the lines is.
pub record IsAllocation (lines : List PreparedLine) (d : ℕ) (allocations : List ℕ) : Type 0 where
  pub same_length : length allocations ≡ length lines
  pub sum_eq : sum allocations ≡ d
  pub within : (i : ℕ) → get_or allocations i 0 ≤ taxable_at lines i
  pub fair_low :
      (i : ℕ)
      → d * taxable_at lines i ≤ (get_or allocations i 0 + 1) * sum_by PreparedLine.taxable lines
  pub fair_high :
      (i : ℕ)
      → get_or allocations i 0 * sum_by PreparedLine.taxable lines
        ≤ d * taxable_at lines i + sum_by PreparedLine.taxable lines

abbrev no_discount : List PreparedLine → List ℕ
no_discount = map (λ line. 0)

get_or-zeros : (lines : List PreparedLine) (i : ℕ) → get_or (no_discount lines) i 0 ≡ 0
get_or-zeros [] i = refl
get_or-zeros (line ∷ lines) zero = refl
get_or-zeros (line ∷ lines) (suc i) = get_or-zeros lines i

sum-zeros : (lines : List PreparedLine) → sum (no_discount lines) ≡ 0
sum-zeros [] = refl
sum-zeros (line ∷ lines) = omega (arith, sum-zeros lines)

taxable_at-le :
    (lines : List PreparedLine) (i : ℕ) → taxable_at lines i ≤ sum_by PreparedLine.taxable lines
taxable_at-le [] i = omega arith
taxable_at-le (line ∷ lines) zero = omega arith
taxable_at-le (line ∷ lines) (suc i) = omega (arith, taxable_at-le lines i)

-- Nothing to discount: every line takes nothing.
zeros-IsAllocation :
    (lines : List PreparedLine)
    → sum_by PreparedLine.taxable lines ≡ 0
    → IsAllocation lines 0 (no_discount lines)
zeros-IsAllocation lines e = record {
  same_length = length-map (λ line. 0) lines;
  sum_eq = sum-zeros lines;
  within = λ i. rw (get_or-zeros lines i) (omega arith);
  fair_low = λ i. omega arith;
  fair_high = λ i. rw (get_or-zeros lines i) (omega arith);
}

remainder_leaves_room : (d x t : ℕ) → 0 < t → d ≤ t → 0 < d * x % t → d * x / t < x
remainder_leaves_room d x t p h r = grind arith

share_within : (d x t : ℕ) → 0 < t → d ≤ t → d * x / t ≤ x
share_within d x t p h = grind arith

share_low : (d x t a : ℕ) → 0 < t → d * x / t ≤ a → d * x ≤ (a + 1) * t
share_low d x t a p h = grind arith

share_high : (d x t a : ℕ) → a ≤ d * x / t + 1 → a * t ≤ d * x + t
share_high d x t a h = grind arith

floors_fit : (s r d t : ℕ) → 0 < t → s * t + r ≡ d * t → s ≤ d
floors_fit s r d t p e = grind arith

units_fit : (s r d t : ℕ) → s ≤ d → s * t + r ≡ d * t → (d - s) * t ≤ r
units_fit s r d t h e = grind arith

module _ (locale_after : Text → Text → Bool) (lines : List PreparedLine) (d : ℕ) where
  abbrev pub total : ℕ
  total = sum_by PreparedLine.taxable lines

  abbrev pub floors : List ℕ
  floors = map (floor_share d total) lines

  abbrev pub ranked : List Ranked
  ranked = sort_by (ranked_after locale_after) (rank_from d total 0 lines)

  abbrev pub given : List ℕ × ℕ
  given = give_units lines ranked floors (d - sum floors)

  module _ (positive : 0 < total) (fits : d ≤ total) where
    floor_at : (i : ℕ) → get_or floors i 0 ≡ d * taxable_at lines i / total
    floor_at = get_or-floors d total positive fits lines

    Entry-Ready : (c : Ranked) → Entry d total lines 0 c → Ready lines total floors c
    Entry-Ready c e = record {
      inside = omega (arith, e.below, length-map (floor_share d total) lines);
      small = rw e.remainder_eq (omega arith);
      room = λ p.
          let same : c.index - 0 ≡ c.index = omega arith in
          rw (floor_at c.index) (
            remainder_leaves_room d (taxable_at lines c.index) total positive fits
              (rw (e.remainder_eq ∙ ap (λ k. d * taxable_at lines k % total) same) at p));
    }

    ranked-Ready : All (Ready lines total floors) ranked
    ranked-Ready =
        sort_by-All (ranked_after locale_after) (Ready lines total floors) _
          (All-map Entry-Ready _ (rank_from-Entry d total 0 lines))

    ranked-DistinctBy : DistinctBy Ranked.index ranked
    ranked-DistinctBy =
        sort_by-DistinctBy (ranked_after locale_after) Ranked.index _
          (rank_from-DistinctBy d total 0 lines)

    left_over : sum floors * total + sum_by Ranked.remainder ranked ≡ d * total
    left_over =
        rw (sum_by-sort_by (ranked_after locale_after) Ranked.remainder (rank_from d total 0 lines))
          (floors_and_remainders d total positive fits 0 lines)

    floors-le : sum floors ≤ d
    floors-le = floors_fit (sum floors) _ d total positive left_over

    -- The defensive second pass never has anything to hand out.
    pub nothing_remains : given.1 ≡ 0
    nothing_remains =
        give_units-exhausts lines total ranked floors (d - sum floors) ranked-DistinctBy
          ranked-Ready (units_fit (sum floors) _ d total floors-le left_over) positive

    given-Handed : Handed lines ranked floors (d - sum floors) given
    given-Handed =
        give_units-Handed lines total ranked floors (d - sum floors) ranked-DistinctBy ranked-Ready

    given-IsAllocation : IsAllocation lines d given.0
    given-IsAllocation =
        let h = given-Handed in
        record {
          same_length = omega (arith, h.same_length, length-map (floor_share d total) lines);
          sum_eq = omega (arith, h.sum_eq, nothing_remains, floors-le);
          within = λ i.
              h.within i
                (rw (floor_at i) (share_within d (taxable_at lines i) total positive fits));
          fair_low = λ i.
              share_low d (taxable_at lines i) total _ positive
                (omega (arith, h.grows i, floor_at i));
          fair_high = λ i.
              share_high d (taxable_at lines i) total _ (omega (arith, h.by_one i, floor_at i));
        }

    emptied :
        fill_capacity lines (sort_by (uuid_after locale_after) ranked) given.0 given.1
        ≡ (given.0, 0)
    emptied = rw nothing_remains (fill_none lines _ given.0)

    allocation_positive : allocation_for locale_after lines d total ≡ ok given.0
    unfolding allocation_for
    allocation_positive = let nonzero : (total == 0) ≡ false = ground arith in rw (nonzero, emptied)

allocation_zero :
    (locale_after : Text → Text → Bool) (lines : List PreparedLine) (d : ℕ)
    → sum_by PreparedLine.taxable lines ≡ 0
    → allocation_for locale_after lines d (sum_by PreparedLine.taxable lines)
      ≡ ok (no_discount lines)
unfolding allocation_for
allocation_zero locale_after lines d e = rw e

-- A discount of at most the taxable total is allocated exactly: the parts add up to it, no line
-- gives more than its taxable amount, and each part is within one unit of the line's exact share.
pub allocation_for-IsAllocation :
    (locale_after : Text → Text → Bool) (lines : List PreparedLine) (d : ℕ)
    → d ≤ sum_by PreparedLine.taxable lines
    → (allocations : List ℕ) × (allocation_for locale_after lines d
          (sum_by PreparedLine.taxable lines)
        ≡ ok allocations)
      × IsAllocation lines d allocations
allocation_for-IsAllocation locale_after lines d fits =
    elim (dec_lt 0 (sum_by PreparedLine.taxable lines)) [
      | yes p ↦ (
        (given locale_after lines d).0,
        allocation_positive locale_after lines d p fits,
        given-IsAllocation locale_after lines d p fits,
      )
      | no z ↦
          let zero_total : sum_by PreparedLine.taxable lines ≡ 0 = omega arith in
          let zero_discount : d ≡ 0 = omega arith in
          (
            no_discount lines,
            allocation_zero locale_after lines d zero_total,
            rw zero_discount (zeros-IsAllocation lines zero_total),
          )
    ]
