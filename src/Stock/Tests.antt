-- ===== src/Stock/Tests.antt =====
-- Runs of the split and of the calls, and the theorems at such runs.
use pos_desktop.Prelude.{
  ℕ, ◌+◌, ◌≡◌, refl, sym, ◌∙◌, subst, some-inj, false, some, List, [], ◌∷◌, ok, err,
}
use pos_desktop.Prelude.Text.{Text, codes, text_eq}
use pos_desktop.Prelude.Dict.{Dict, lookup}
use pos_desktop.Stock.{Grant}
use pos_desktop.Stock.Split.{
  AllocationSplitEntry, stock_allocation_unavailable, Split, get_or_else, split_allocations,
}
use pos_desktop.Stock.Covering.{taken}
use pos_desktop.Stock.Spent.{all_entries, IsSplit, split_allocations-IsSplit}
use pos_desktop.Stock.Drained.{Decides, split_allocations-Decides}
use pos_desktop.Stock.Tables.{StoredGrant, Tables, find_grant_by_uuid, find_coverage_boundary}
use pos_desktop.Stock.Spendable.{consume, NewConsumption, spendable_milli, split_for_product}
use pos_desktop.Stock.Consumed.{split_for_product-consume}
use pos_desktop.Stock.Balances.{IsAuthored}
use pos_desktop.Stock.Ingest.{new_grant}
use pos_desktop.Stock.Snapshots.{receive_all}
use pos_desktop.Stock.Advances.{receive_all-Accepted}
use pos_desktop.Stock.Accepting.{Accepted}
use pos_desktop.Stock.Fixtures.{
  first, second, no_tables, calls, stocked, owner, uuid, apart, consumption, tables_or,
}

receive_all-Accepted_example : Accepted stocked (receive_all stocked calls)
receive_all-Accepted_example =
    receive_all-Accepted stocked calls (receive_all-Accepted no_tables calls tt).1

abbrev grants : List Grant
grants = new_grant second 7 11 ∷ new_grant first 7 10 ∷ []

abbrev remaining : Dict ℕ
remaining = (codes "b", 1500) ∷ (codes "a", 2000) ∷ []

-- Two lines share the grant that ends first.
abbrev entry : Text → ℕ → ℕ → ℕ → AllocationSplitEntry
entry grant sequence n quantity = record {
  allocation_uuid = grant;
  rights_generation = 1;
  consumption_sequence = sequence;
  local_consumption_uuid = uuid n;
  quantity_milli = quantity;
}

abbrev split : Split
split =
    (entry (codes "b") 1 0 1000 ∷ [], 0)
    ∷ (entry (codes "b") 2 1 500 ∷ entry (codes "a") 1 2 1500 ∷ [], 0)
    ∷ []

split_result :
    split_for_product uuid stocked owner (codes "p") (1000 ∷ 2000 ∷ []) 20 false ≡ ok split
unfolding receive_all split_for_product
split_result = refl

split_allocations-IsSplit_example :
    IsSplit false
      (record { remaining = remaining; next_sequence = []; created = 0 })
      (1000 ∷ 2000 ∷ [])
      split
unfolding split_allocations new_grant text_eq
split_allocations-IsSplit_example =
    split_allocations-IsSplit uuid grants remaining [] (1000 ∷ 2000 ∷ []) false split refl

split_allocations-Decides_example : Decides false 4000 3500 (err stock_allocation_unavailable)
unfolding split_allocations new_grant get_or_else lookup text_eq
split_allocations-Decides_example =
    split_allocations-Decides uuid grants remaining [] (4000 ∷ []) false ((apart, tt), (tt, tt))

abbrev consumptions : List NewConsumption
consumptions =
    consumption (codes "b") 1 0 1000
    ∷ consumption (codes "b") 2 1 500
    ∷ consumption (codes "a") 1 2 1500
    ∷ []

abbrev sold : Tables
sold = tables_or stocked (consume stocked consumptions)

-- Half a unit is left of the grant that ends last.
sold_spendable : spendable_milli sold (codes "a") ≡ 500
unfolding receive_all consume spendable_milli
sold_spendable = refl

-- There is no boundary to stay above.
authored :
    (c : NewConsumption) (stored : StoredGrant)
    → find_grant_by_uuid stocked c.allocation_uuid ≡ some stored
    → stored.grant.rights_generation ≡ c.rights_generation
    → IsAuthored stocked c
unfolding receive_all find_coverage_boundary
authored c stored found same = λ row e. (
  subst (λ r. r.grant.rights_generation ≡ c.rights_generation) (some-inj (sym found ∙ e)) same,
  λ b h. cc,
)

split_for_product-consume_example :
    spendable_milli sold (codes "a") + taken (codes "a") (all_entries split)
    ≡ spendable_milli stocked (codes "a")
unfolding receive_all consume split_for_product find_grant_by_uuid find_coverage_boundary
split_for_product-consume_example =
    split_for_product-consume uuid stocked sold owner (codes "p") (1000 ∷ 2000 ∷ []) 20 false split
      consumptions (codes "a") refl
      ((refl, refl, refl, refl), ((refl, refl, refl, refl), ((refl, refl, refl, refl), tt)))
      (
        authored (consumption (codes "b") 1 0 1000) _ refl refl,
        (
          authored (consumption (codes "b") 2 1 500) _ refl refl,
          (authored (consumption (codes "a") 1 2 1500) _ refl refl, tt),
        ),
      )
      refl
