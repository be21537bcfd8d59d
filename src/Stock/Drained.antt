-- ===== src/Stock/Drained.antt =====
-- A split drains the grants before it leaves anything uncovered, and is refused exactly where they
-- do not suffice (src/main/services/stockAllocation.service.ts).
use pos_desktop.Prelude.{
  ℕ, ◌+◌, ◌-◌, ◌≤◌, ◌<◌, ◌≡◌, ◌≢◌, refl, sym, ◌∙◌, min, inl, inr, Bool, true, false, not, ◌&&◌,
  List, [], ◌∷◌, ltb, ◌==◌, Result, ok, err, ◌>>=◌, arith, All, sum, sum_by, Bool-cases, bool_cases,
}
use pos_desktop.Prelude.Sorting.{DistinctBy}
use pos_desktop.Prelude.Text.{Text, text_eq, text_eq_iff}
use pos_desktop.Prelude.Dict.{Dict}
use pos_desktop.Stock.{Grant}
use pos_desktop.Stock.Split.{
  AllocationSplitEntry, SplitError, stock_allocation_unavailable, Progress, get_or_else, spend,
  Covered, cover, Split, split_lines, split_allocations,
}
use pos_desktop.Stock.Covering.{get_or_else-insert}

-- What a grant has left, and what all have.
abbrev pub left_of : Progress → Grant → ℕ
left_of p g = get_or_else 0 g.allocation_uuid p.remaining

abbrev pub total_left : Progress → List Grant → ℕ
total_left p = sum_by (left_of p)

spend-other :
    (p : Progress) (g : Grant) (take : ℕ) (u : Text)
    → u ≢ g.allocation_uuid
    → get_or_else 0 u (spend p g take).remaining ≡ get_or_else 0 u p.remaining
unfolding spend
spend-other p g take u away = elim (Bool-cases (text_eq g.allocation_uuid u)) [
  | inl same ↦ absurd (away (sym ((text_eq_iff g.allocation_uuid u).0 same)))
  | inr other ↦ rw other at (
      get_or_else-insert 0 (get_or_else 0 g.allocation_uuid p.remaining - take) g.allocation_uuid u
        p.remaining)
]

spend_self : (p : Progress) (g : Grant) (take : ℕ) → left_of (spend p g take) g ≡ left_of p g - take
unfolding spend
spend_self p g take = rw ((text_eq_iff g.allocation_uuid g.allocation_uuid).1 refl) at (
    get_or_else-insert 0 (get_or_else 0 g.allocation_uuid p.remaining - take) g.allocation_uuid
      g.allocation_uuid p.remaining)

total_left-spend :
    (p : Progress) (g : Grant) (take : ℕ) (grants : List Grant)
    → All (λ h. h.allocation_uuid ≢ g.allocation_uuid) grants
    → total_left (spend p g take) grants ≡ total_left p grants
total_left-spend p g take [] away = refl
total_left-spend p g take (h ∷ grants) away =
    omega (
      arith,
      spend-other p g take h.allocation_uuid away.0,
      total_left-spend p g take grants away.1,
    )

-- The quantity that no grant covers.
abbrev pub uncovered : Split → ℕ
uncovered = sum_by (λ line. line.1)

-- A split and what it leaves uncovered, or its refusal.
abbrev pub Decides : Bool → ℕ → ℕ → Result SplitError Split → Type 0
Decides allow demand total (err code) =
    (code ≡ stock_allocation_unavailable) × (allow ≡ false) × (total < demand)
Decides allow demand total (ok lines) =
    (uncovered lines ≡ demand - total) × (allow ≡ false → demand ≤ total)

later_lines :
    (allow : Bool) (r : Result SplitError Split) (entries : List AllocationSplitEntry)
    (n d later total total' : ℕ)
    → Decides allow later total' r
    → n ≡ d - total
    → total' ≡ total - d
    → (allow ≡ false → n ≡ 0)
    → Decides allow (d + later) total (r >>= λ rest. ok ((entries, n) ∷ rest))
later_lines allow (err code) entries n d later total total' (same, strict, short) e f full =
    (same, strict, omega (arith, short, e, f, full strict))
later_lines allow (ok rest) entries n d later total total' (left, enough) e f full =
    (omega (arith, left, e, f), λ strict. omega (arith, enough strict, e, f, full strict))

module _ (create_uuid : ℕ → Text) where
  -- A grant that the loop does not meet keeps what it has left.
  cover-other :
      (p : Progress) (grants : List Grant) (needed : ℕ) (u : Text)
      → All (λ h. h.allocation_uuid ≢ u) grants
      → get_or_else 0 u (cover create_uuid p grants needed).progress.remaining
        ≡ get_or_else 0 u p.remaining
  unfolding cover
  cover-other p [] needed u away = refl
  cover-other p (g ∷ grants) needed u away =
      bool_cases Kept (needed == 0) (λ done. refl)
        λ more.
          bool_cases Kept (left_of p g == 0) (λ empty. cover-other p grants needed u away.1)
            λ holds.
              cover-other (spend p g (min (left_of p g) needed)) grants
                (needed - min (left_of p g) needed) u away.1
              ∙ spend-other p g (min (left_of p g) needed) u (λ e. away.0 (sym e))
    where
      Kept : Covered → Type 0
      Kept c = get_or_else 0 u c.progress.remaining ≡ get_or_else 0 u p.remaining

  -- The loop takes what is needed, as far as the grants have it.
  cover-total :
      (p : Progress) (grants : List Grant) (needed : ℕ)
      → DistinctBy Grant.allocation_uuid grants
      → ((cover create_uuid p grants needed).needed ≡ needed - total_left p grants)
        × (total_left (cover create_uuid p grants needed).progress grants
            ≡ total_left p grants - needed)
  unfolding cover
  cover-total p [] needed d = (omega arith, omega arith)
  cover-total p (g ∷ grants) needed (fresh, d) =
      bool_cases Taken (needed == 0) (λ done. (ground (arith, done), ground (arith, done)))
        λ more.
          bool_cases Taken (left_of p g == 0)
            (λ empty.
              let (less, rest) = cover-total p grants needed d in
              let here = cover-other p grants needed g.allocation_uuid fresh in
              let none_left : left_of p g ≡ 0 = ground (arith, empty) in
              (omega (arith, less, none_left), omega (arith, rest, here, none_left)))
            λ holds.
              let take = min (left_of p g) needed in
              let (less, rest) = cover-total (spend p g take) grants (needed - take) d in
              let same = total_left-spend p g take grants fresh in
              let here =
                cover-other (spend p g take) grants (needed - take) g.allocation_uuid fresh
                ∙ spend_self p g take in
              (omega (arith, less, same), omega (arith, rest, same, here))
    where
      Taken : Covered → Type 0
      Taken c =
          (c.needed ≡ needed - total_left p (g ∷ grants))
          × (total_left c.progress (g ∷ grants) ≡ total_left p (g ∷ grants) - needed)

  split_lines-Decides :
      (allow : Bool) (grants : List Grant) (p : Progress) (demands : List ℕ)
      → DistinctBy Grant.allocation_uuid grants
      → Decides allow
          (sum demands)
          (total_left p grants)
          (split_lines create_uuid allow grants p demands)
  unfolding split_lines
  split_lines-Decides allow grants p [] d = (omega arith, λ strict. omega arith)
  split_lines-Decides allow grants p (demand ∷ demands) d =
      let line = cover create_uuid p grants demand in
      let (less, rest) = cover-total p grants demand d in
      bool_cases (Decides allow (demand + sum demands) (total_left p grants)) (demand == 0)
        (λ none_needed.
          let zero_demand : demand ≡ 0 = ground (arith, none_needed) in
          later_lines allow (split_lines create_uuid allow grants p demands) [] 0 demand
            (sum demands) (total_left p grants) (total_left p grants)
            (split_lines-Decides allow grants p demands d) (omega (arith, zero_demand))
            (omega (arith, zero_demand)) (λ strict. refl))
        λ some_needed.
          bool_cases (Decides allow (demand + sum demands) (total_left p grants))
            (ltb 0 line.needed && not allow)
            (λ refused.
              let (short, strict) = refusal line.needed allow refused in
              (refl, strict, omega (arith, less, short)))
            λ fine.
              later_lines allow (split_lines create_uuid allow grants line.progress demands)
                line.entries line.needed demand (sum demands) (total_left p grants)
                (total_left line.progress grants)
                (split_lines-Decides allow grants line.progress demands d) less rest
                (granted line.needed allow fine)
    where
      refusal : (n : ℕ) (b : Bool) → (ltb 0 n && not b) ≡ true → (0 < n) × (b ≡ false)
      refusal n b h = ground arith

      granted : (n : ℕ) (b : Bool) → (ltb 0 n && not b) ≡ false → b ≡ false → n ≡ 0
      granted n b h k = ground arith

  -- For grants with distinct identities, a split is refused only where the demands exceed what the
  -- grants have left and an uncovered rest is not allowed; a split that is made leaves uncovered the
  -- excess of the demands over what the grants have, and none unless that is allowed.
  pub split_allocations-Decides :
      (grants : List Grant) (remaining next_sequence : Dict ℕ) (demands : List ℕ) (allow : Bool)
      → DistinctBy Grant.allocation_uuid grants
      → Decides allow
          (sum demands)
          (sum_by (λ g. get_or_else 0 g.allocation_uuid remaining) grants)
          (split_allocations create_uuid grants remaining next_sequence demands allow)
  unfolding split_allocations
  split_allocations-Decides grants remaining next_sequence demands allow d =
      split_lines-Decides allow grants _ demands d
