-- ===== src/Pricing/Allocation/Floors.antt =====
-- The floors of an allocation and the remainders that they leave (`allocationFor` of
-- src/shared/pos/posCalculator.ts).
use pos_desktop.Prelude.{
  ℕ, zero, suc, ◌+◌, ◌-◌, ◌*◌, ◌/◌, ◌%◌, ◌≤◌, ◌<◌, ◌≡◌, List, [], ◌∷◌, map, arith, length, get_or,
  sum, sum_by, All, All-map,
}
use pos_desktop.Prelude.Sorting.{DistinctBy}
use pos_desktop.Pricing.Types.{PreparedLine}
use pos_desktop.Pricing.Allocation.{Ranked, floor_share, rank_from, taxable_at}

module _ (d t : ℕ) (positive : 0 < t) (fits : d ≤ t) where
  share-le : (x : ℕ) → d * x / t ≤ x
  share-le x = grind arith

  floor_share_lem : (line : PreparedLine) → floor_share d t line ≡ d * line.taxable / t
  floor_share_lem line = ground (arith, share-le line.taxable)

  pub get_or-floors :
      (lines : List PreparedLine) (i : ℕ)
      → get_or (map (floor_share d t) lines) i 0 ≡ d * taxable_at lines i / t
  get_or-floors [] i = omega arith
  get_or-floors (line ∷ lines) zero = floor_share_lem line
  get_or-floors (line ∷ lines) (suc i) = get_or-floors lines i

  -- Floors and remainders make up the discount's share of every line.
  pub floors_and_remainders :
      (k : ℕ) (lines : List PreparedLine)
      → sum (map (floor_share d t) lines) * t + sum_by Ranked.remainder (rank_from d t k lines)
        ≡ d * sum_by PreparedLine.taxable lines
  unfolding rank_from
  floors_and_remainders k [] = omega arith
  floors_and_remainders k (line ∷ lines) =
      rw (floor_share_lem line) (omega (arith, floors_and_remainders (k + 1) lines))

module _ (d t : ℕ) where
  -- What an entry of `ranked` says of the line it stands for.
  pub record Entry (lines : List PreparedLine) (k : ℕ) (c : Ranked) : Type 0 where
    pub from : k ≤ c.index
    pub below : c.index < k + length lines
    pub remainder_eq : c.remainder ≡ d * taxable_at lines (c.index - k) % t

  later-Entry :
      (line : PreparedLine) (lines : List PreparedLine) (k : ℕ) (c : Ranked)
      → Entry lines (k + 1) c
      → Entry (line ∷ lines) k c
  later-Entry line lines k c e =
      let shift : c.index - k ≡ suc (c.index - (k + 1)) = omega arith in
      record { from = omega arith; below = omega arith; remainder_eq = rw shift e.remainder_eq }

  pub rank_from-Entry :
      (k : ℕ) (lines : List PreparedLine) → All (Entry lines k) (rank_from d t k lines)
  unfolding rank_from
  rank_from-Entry k [] = tt
  rank_from-Entry k (line ∷ lines) =
      let start : k - k ≡ 0 = omega arith in
      (
        record { from = omega arith; below = omega arith; remainder_eq = rw start },
        All-map (later-Entry line lines k) _ (rank_from-Entry (k + 1) lines),
      )

  pub rank_from-DistinctBy :
      (k : ℕ) (lines : List PreparedLine) → DistinctBy Ranked.index (rank_from d t k lines)
  unfolding rank_from
  rank_from-DistinctBy k [] = tt
  rank_from-DistinctBy k (line ∷ lines) = (
    All-map (λ c e h. absurd (omega arith)) _ (rank_from-Entry (k + 1) lines),
    rank_from-DistinctBy (k + 1) lines,
  )
