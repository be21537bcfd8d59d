-- ===== src/Stock/Consumed.antt =====
-- A consumption lowers what its grant may spend by its quantity, and a sale that follows a split
-- spends no more than there is (src/main/repositories/stockAllocation.repository.ts,
-- src/main/services/stockAllocation.service.ts).
use pos_desktop.Prelude.{
  ℕ, ◌+◌, ◌-◌, ◌≤◌, ◌≡◌, refl, sym, ◌∙◌, ap, subst, inl, inr, Bool, true, false, not, ◌&&◌, some,
  List, [], ◌∷◌, if◌then◌else◌, arith, Result, ok, All, All-map, sum_by, Each, if_cases, some-inj,
  Option-cases,
}
use pos_desktop.Prelude.Text.{Text, text_eq, text_eq_iff}
use pos_desktop.Prelude.Dict.{Dict}
use pos_desktop.Stock.{Grant, AllocationOwner}
use pos_desktop.Stock.Split.{AllocationSplitEntry, SplitError, Split, get_or_else}
use pos_desktop.Stock.Spent.{all_entries, split_allocations-IsSplit}
use pos_desktop.Stock.Covering.{taken, get_or_else-insert}
use pos_desktop.Stock.Tables.{Tables, find_grant_by_uuid, find_coverage_boundary}
use pos_desktop.Stock.Spendable.{
  is_unavailable, spendable_milli, NewConsumption, consume, insert_consumption, by_allocation,
  usable_grants_for_product, split_for_product,
}
use pos_desktop.Stock.Balances.{
  IsAuthored, insert_consumption-some, cost, insert_consumption-spendable_milli,
}

abbrev pub total_cost : Text → List NewConsumption → ℕ
total_cost u = sum_by (cost u)

IsAuthored-with :
    (t t' : Tables) (c d : NewConsumption)
    → insert_consumption t c ≡ some t'
    → IsAuthored t d
    → IsAuthored t' d
unfolding find_grant_by_uuid find_coverage_boundary
IsAuthored-with t t' c d inserted authored =
    subst (λ s. IsAuthored s d) (insert_consumption-some t t' c inserted) (λ row e. authored row e)

consume-spendable_milli :
    (t t' : Tables) (cs : List NewConsumption) (u : Text)
    → consume t cs ≡ some t'
    → All (IsAuthored t) cs
    → spendable_milli t' u ≡ spendable_milli t u - total_cost u cs
unfolding consume
consume-spendable_milli t t' [] u h authored =
    subst (λ s. spendable_milli s u ≡ spendable_milli t u - 0) (some-inj h) (omega arith)
consume-spendable_milli t t' (c ∷ cs) u h authored = elim (Option-cases (insert_consumption t c)) [
  | inl absent ↦ cc (rw (absent, consume) at h)
  | inr (after, inserted) ↦
      let rest =
        consume-spendable_milli after t' cs u (rw (inserted, consume) at h)
          (All-map (λ d. IsAuthored-with t after c d inserted) cs authored.1) in
      let first = insert_consumption-spendable_milli t after c u inserted authored.0 in
      omega (arith, rest, first)
]

-- A consumption that records an entry.
abbrev pub Records : AllocationSplitEntry → NewConsumption → Type 0
Records e c =
    (c.allocation_uuid ≡ e.allocation_uuid)
    × (c.quantity_milli ≡ e.quantity_milli)
    × (c.consumption_sequence ≡ e.consumption_sequence)
    × (c.rights_generation ≡ e.rights_generation)

total_cost-Records :
    (u : Text) (es : List AllocationSplitEntry) (cs : List NewConsumption)
    → Each Records es cs
    → total_cost u cs ≡ taken u es
total_cost-Records u [] [] h = refl
total_cost-Records u [] (c ∷ cs) h = absurd h
total_cost-Records u (e ∷ es) [] h = absurd h
total_cost-Records u (e ∷ es) (c ∷ cs) ((named, quantity, sequence, generation), h) =
    let here : cost u c ≡ (if text_eq e.allocation_uuid u then e.quantity_milli else 0) =
      ap (λ v. if text_eq v u then c.quantity_milli else 0) named
      ∙ ap (λ n. if text_eq e.allocation_uuid u then n else 0) quantity in
    omega (arith, here, total_cost-Records u es cs h)

-- A map of the grants' amounts holds no more for a grant than its amount.
by_allocation-le :
    (f : Text → ℕ) (u : Text) (grants : List Grant) (known : Dict ℕ)
    → get_or_else 0 u known ≤ f u
    → get_or_else 0 u (by_allocation f grants known) ≤ f u
unfolding by_allocation
by_allocation-le f u [] known h = h
by_allocation-le f u (g ∷ grants) known h = by_allocation-le f u grants _ (
    subst (λ n. n ≤ f u)
      (sym (get_or_else-insert 0 (f g.allocation_uuid) g.allocation_uuid u known))
      (either (text_eq g.allocation_uuid u) refl))
  where
    either :
        (b : Bool)
        → text_eq g.allocation_uuid u ≡ b
        → (if b then f g.allocation_uuid else get_or_else 0 u known) ≤ f u
    either true e =
        let same : f g.allocation_uuid ≡ f u = ap f ((text_eq_iff g.allocation_uuid u).0 e) in
        omega (arith, same)
    either false e = h

module _ (create_uuid : ℕ → Text) where
  -- A split for a product takes from no grant more than it may spend.
  split_for_product-within :
      (t : Tables) (owner : AllocationOwner) (product : Text) (demands : List ℕ) (now : ℕ)
      (allow : Bool) (lines : Split) (u : Text)
      → split_for_product create_uuid t owner product demands now allow ≡ ok lines
      → taken u (all_entries lines) ≤ spendable_milli t u
  unfolding split_for_product get_or_else
  split_for_product-within t owner product demands now allow lines u =
      if_cases Fits (is_unavailable t.capability && not allow) (λ refused h. cc)
        λ fine h.
          let split = split_allocations-IsSplit create_uuid _ _ _ demands allow lines h in
          omega (
            arith,
            split.within u,
            by_allocation-le (spendable_milli t) u
                (if is_unavailable t.capability
                  then []
                  else usable_grants_for_product t owner product now)
                [] (omega arith),
          )
    where
      Fits : Result SplitError Split → Type 0
      Fits r = r ≡ ok lines → taken u (all_entries lines) ≤ spendable_milli t u

  -- When a split for a product is recorded, entry by entry, above the accepted boundaries and under
  -- the grants' rights generations, what each grant may spend falls by exactly what the split takes
  -- from it: no grant is spent twice or beyond what it had.
  pub split_for_product-consume :
      (t t' : Tables) (owner : AllocationOwner) (product : Text) (demands : List ℕ) (now : ℕ)
      (allow : Bool) (lines : Split) (cs : List NewConsumption) (u : Text)
      → split_for_product create_uuid t owner product demands now allow ≡ ok lines
      → Each Records (all_entries lines) cs
      → All (IsAuthored t) cs
      → consume t cs ≡ some t'
      → spendable_milli t' u + taken u (all_entries lines) ≡ spendable_milli t u
  split_for_product-consume t t' owner product demands now allow lines cs u split records authored
        done =
      omega (
        arith,
        consume-spendable_milli t t' cs u done authored,
        total_cost-Records u (all_entries lines) cs records,
        split_for_product-within t owner product demands now allow lines u split,
      )
