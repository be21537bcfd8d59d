-- ===== src/Stock/Split.antt =====
-- `splitAllocations` (src/main/services/stockAllocation.service.ts): the demands of a sale's lines
-- split over the grants of a product, in order. A demand and what is left of a grant are natural
-- numbers; `create_uuid n` is what the n-th call of `createUuid` returns.
use pos_desktop.Prelude.{
  ℕ, ◌+◌, ◌-◌, min, Bool, true, false, not, ◌&&◌, Option, none, some, List, [], ◌∷◌, ltb, ◌==◌,
  Result, ok, err, ◌>>=◌,
}
use pos_desktop.Prelude.Text.{Text}
use pos_desktop.Prelude.Dict.{Dict, lookup, insert}
use pos_desktop.Stock.{Grant}

pub record AllocationSplitEntry : Type 0 where
  pub allocation_uuid : Text
  pub rights_generation : ℕ
  pub consumption_sequence : ℕ
  pub local_consumption_uuid : Text
  pub quantity_milli : ℕ

pub data SplitError : Type 0 where
  stock_allocation_unavailable allocation_data_unavailable : SplitError

-- The maps that the loops update, and the number of identities created.
pub record Progress : Type 0 where
  pub remaining : Dict ℕ
  pub next_sequence : Dict ℕ
  pub created : ℕ

abbrev pub or_default : ℕ → Option ℕ → ℕ
or_default default none = default
or_default default (some n) = n

-- `map.get(key) ?? default`
unfoldable pub get_or_else : ℕ → Text → Dict ℕ → ℕ
unfolding lookup
get_or_else default key d = or_default default (lookup key d)

-- The maps after an entry of a grant.
unfoldable pub spend : Progress → Grant → ℕ → Progress
unfolding insert get_or_else
spend p grant take = record {
  remaining =
      insert grant.allocation_uuid (get_or_else 0 grant.allocation_uuid p.remaining - take)
        p.remaining;
  next_sequence =
      insert grant.allocation_uuid (get_or_else 1 grant.allocation_uuid p.next_sequence + 1)
        p.next_sequence;
  created = p.created + 1;
}

pub record Covered : Type 0 where
  pub progress : Progress
  pub entries : List AllocationSplitEntry
  pub needed : ℕ

-- The entries of each line, and what they leave uncovered.
abbrev pub Split : Type 0
Split = List (List AllocationSplitEntry × ℕ)

module _ (create_uuid : ℕ → Text) where
  unfoldable pub entry : Progress → Grant → ℕ → AllocationSplitEntry
  unfolding get_or_else
  entry p grant take = record {
    allocation_uuid = grant.allocation_uuid;
    rights_generation = grant.rights_generation;
    consumption_sequence = get_or_else 1 grant.allocation_uuid p.next_sequence;
    local_consumption_uuid = create_uuid p.created;
    quantity_milli = take;
  }

  -- The loop over the grants, for what a line still needs.
  unfoldable pub cover : Progress → List Grant → ℕ → Covered
  unfolding entry spend get_or_else
  cover p [] needed = record { progress = p; entries = []; needed = needed }
  cover p (grant ∷ grants) needed = elim (needed == 0) [
    | true ↦ record { progress = p; entries = []; needed = needed }
    | false ↦
        let available = get_or_else 0 grant.allocation_uuid p.remaining in
        let take = min available needed in
        elim (available == 0) [
          | true ↦ cover p grants needed
          | false ↦
              let rest = cover (spend p grant take) grants (needed - take) in
              record rest { entries = entry p grant take ∷ rest.entries }
        ]
  ]

  -- The loop over the lines.
  unfoldable pub split_lines : Bool → List Grant → Progress → List ℕ → Result SplitError Split
  unfolding cover
  split_lines allow grants p [] = ok []
  split_lines allow grants p (demand ∷ demands) = elim (demand == 0) [
    | true ↦ split_lines allow grants p demands >>= λ (rest : Split). ok (([], 0) ∷ rest)
    | false ↦
        let line = cover p grants demand in
        elim (ltb 0 line.needed && not allow) [
          | true ↦ err stock_allocation_unavailable
          | false ↦ split_lines allow grants line.progress demands >>= λ (rest : Split).
              ok ((line.entries, line.needed) ∷ rest)
        ]
  ]

  unfoldable pub split_allocations :
      List Grant → Dict ℕ → Dict ℕ → List ℕ → Bool → Result SplitError Split
  unfolding split_lines
  split_allocations grants remaining next_sequence line_demands allow_uncovered =
      split_lines allow_uncovered grants
        (record { remaining = remaining; next_sequence = next_sequence; created = 0 }) line_demands
