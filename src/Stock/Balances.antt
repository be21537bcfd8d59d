-- ===== src/Stock/Balances.antt =====
-- What one consumption does to the balances (src/main/repositories/stockAllocation.repository.ts).
use pos_desktop.Prelude.{
  ℕ, ◌+◌, ◌-◌, ◌<◌, ◌≡◌, refl, sym, ◌∙◌, ap, subst, Bool, true, false, not, ◌&&◌, ◌||◌, Option,
  none, some, List, [], ◌∷◌, ◌++◌, ltb, ◌==◌, if◌then◌else◌, arith, any, sum_by-append, if_cases,
  find-member, some-inj,
}
use pos_desktop.Prelude.Text.{Text, text_eq, text_eq_iff}
use pos_desktop.Stock.{Grant}
use pos_desktop.Stock.Tables.{
  StoredGrant, Consumption, CoverageBoundary, Tables, is_grant, find_grant_by_uuid,
  find_coverage_boundary,
}
use pos_desktop.Stock.Spendable.{
  is_blocked, is_reconciled, is_of_generation, consumed_by, is_above, is_pending_of,
  committed_quantity_above_sequence, legacy_balance, covered_balance, balance, spendable_milli,
  NewConsumption, new_consumption, clashes, insert_consumption, is_present,
}

-- The consumption is of the stored grant's rights generation, above its accepted boundary.
abbrev pub IsAuthored : Tables → NewConsumption → Type 0
IsAuthored t c =
    (row : StoredGrant)
    → find_grant_by_uuid t c.allocation_uuid ≡ some row
    → (row.grant.rights_generation ≡ c.rights_generation)
      × ((b : CoverageBoundary)
          → find_coverage_boundary t c.allocation_uuid row.grant.rights_generation ≡ some b
          → b.accepted_consumption_sequence < c.consumption_sequence)

-- The tables with one more consumption.
abbrev pub with_consumption : Tables → NewConsumption → Tables
with_consumption t c = record t { consumptions = t.consumptions ++ (new_consumption c ∷ []) }

pub insert_consumption-some :
    (t t' : Tables) (c : NewConsumption)
    → insert_consumption t c ≡ some t'
    → with_consumption t c ≡ t'
unfolding insert_consumption
insert_consumption-some t t' c =
    if_cases (λ r. r ≡ some t' → with_consumption t c ≡ t')
      (any (clashes c) t.consumptions
        || not (is_present (find_grant_by_uuid t c.allocation_uuid))
        || c.quantity_milli == 0
        || c.consumption_sequence == 0)
      (λ refused h. cc) λ fine h. some-inj h

consumed_by-last :
    (p : Consumption → Bool) (rows : List Consumption) (c : NewConsumption)
    → consumed_by p (rows ++ (new_consumption c ∷ []))
      ≡ consumed_by p rows + (if p (new_consumption c) then c.quantity_milli else 0)
unfolding new_consumption
consumed_by-last p rows c = omega (
  arith,
  sum_by-append (λ row. if p row then row.quantity_milli else 0) rows (new_consumption c ∷ []),
)

-- What a consumption takes from a grant.
abbrev pub cost : Text → NewConsumption → ℕ
cost u c = if text_eq c.allocation_uuid u then c.quantity_milli else 0

less : (whole before after more : ℕ) → after ≡ before + more → whole - after ≡ whole - before - more
less whole before after more h = omega (arith, h)

if_and : (a b : Bool) (n : ℕ) → b ≡ true → (if a && b then n else 0) ≡ (if a then n else 0)
if_and a true n h = ground arith
if_and a false n h = cc

pending-with :
    (t : Tables) (c : NewConsumption) (u : Text)
    → consumed_by (is_pending_of u) (with_consumption t c).consumptions
      ≡ consumed_by (is_pending_of u) t.consumptions + cost u c
unfolding new_consumption
pending-with t c u =
    consumed_by-last (is_pending_of u) t.consumptions c
    ∙ ap (λ n. consumed_by (is_pending_of u) t.consumptions + n)
        (if_and (text_eq c.allocation_uuid u) true c.quantity_milli refl)

legacy_balance-with :
    (t : Tables) (c : NewConsumption) (g : Grant)
    → legacy_balance (with_consumption t c) g ≡ legacy_balance t g - cost g.allocation_uuid c
unfolding legacy_balance
legacy_balance-with t c g = less _ _ _ _ (pending-with t c g.allocation_uuid)

-- Above a boundary that is below the new sequence, the uncovered quantity grows by the new one.
committed-with :
    (t : Tables) (c : NewConsumption) (u : Text) (generation sequence : ℕ)
    → (text_eq c.allocation_uuid u ≡ true
        → (c.rights_generation ≡ generation) × (sequence < c.consumption_sequence))
    → committed_quantity_above_sequence (with_consumption t c) u generation sequence
      ≡ committed_quantity_above_sequence t u generation sequence + cost u c
unfolding committed_quantity_above_sequence new_consumption is_of_generation
committed-with t c u generation sequence above =
    consumed_by-last (is_above u generation sequence) t.consumptions c
    ∙ ap (λ n. consumed_by (is_above u generation sequence) t.consumptions + n)
        (selected (text_eq c.allocation_uuid u) refl)
  where
    selected :
        (b : Bool)
        → text_eq c.allocation_uuid u ≡ b
        → (if b && (c.rights_generation == generation) && ltb sequence c.consumption_sequence
            then c.quantity_milli
            else 0)
          ≡ (if b then c.quantity_milli else 0)
    selected true e = let (same, below) = above e in ground (arith, same, below)
    selected false e = refl

covered_balance-with :
    (t : Tables) (c : NewConsumption) (g : Grant) (b : CoverageBoundary)
    → (text_eq c.allocation_uuid g.allocation_uuid ≡ true
        → (c.rights_generation ≡ g.rights_generation)
          × (b.accepted_consumption_sequence < c.consumption_sequence))
    → covered_balance (with_consumption t c) g b ≡ covered_balance t g b - cost g.allocation_uuid c
unfolding covered_balance
covered_balance-with t c g b above =
    less _ _ _ _ (
      committed-with t c g.allocation_uuid g.rights_generation b.accepted_consumption_sequence
        above)

balance-with :
    (t : Tables) (c : NewConsumption) (g : Grant)
    → ((b : CoverageBoundary)
        → find_coverage_boundary t g.allocation_uuid g.rights_generation ≡ some b
        → text_eq c.allocation_uuid g.allocation_uuid ≡ true
        → (c.rights_generation ≡ g.rights_generation)
          × (b.accepted_consumption_sequence < c.consumption_sequence))
    → balance (with_consumption t c) g ≡ balance t g - cost g.allocation_uuid c
unfolding balance find_coverage_boundary
balance-with t c g above =
    both (not (is_reconciled t.capability))
      (find_coverage_boundary t g.allocation_uuid g.rights_generation) above
  where
    both :
        (legacy : Bool) (o : Option CoverageBoundary)
        → ((b : CoverageBoundary)
            → o ≡ some b
            → text_eq c.allocation_uuid g.allocation_uuid ≡ true
            → (c.rights_generation ≡ g.rights_generation)
              × (b.accepted_consumption_sequence < c.consumption_sequence))
        → (if legacy
            then legacy_balance (with_consumption t c) g
            else (elim o [ none ↦ 0 | some b ↦ covered_balance (with_consumption t c) g b ]))
          ≡ (if legacy
              then legacy_balance t g
              else (elim o [ none ↦ 0 | some b ↦ covered_balance t g b ]))
            - cost g.allocation_uuid c
    both true o known = legacy_balance-with t c g
    both false none known = omega arith
    both false (some b) known = covered_balance-with t c g b (known b refl)

blocked_or : (b : Bool) (x y z : ℕ) → x ≡ y - z → (if b then 0 else x) ≡ (if b then 0 else y) - z
blocked_or true x y z h = omega arith
blocked_or false x y z h = h

find_grant_by_uuid-names :
    (t : Tables) (u : Text) (row : StoredGrant)
    → find_grant_by_uuid t u ≡ some row
    → text_eq row.grant.allocation_uuid u ≡ true
unfolding find_grant_by_uuid
find_grant_by_uuid-names t u row e = (find-member (is_grant u) t.grants row e).1

-- A consumption lowers what its grant may spend by its quantity, no lower than zero, and what no
-- other grant may spend.
pub insert_consumption-spendable_milli :
    (t t' : Tables) (c : NewConsumption) (u : Text)
    → insert_consumption t c ≡ some t'
    → IsAuthored t c
    → spendable_milli t' u ≡ spendable_milli t u - cost u c
unfolding spendable_milli find_grant_by_uuid is_blocked
insert_consumption-spendable_milli t t' c u inserted authored =
    subst (λ (s : Tables). spendable_milli s u ≡ spendable_milli t u - cost u c)
      (insert_consumption-some t t' c inserted) (found (find_grant_by_uuid t u) refl)
  where
    found :
        (o : Option StoredGrant)
        → find_grant_by_uuid t u ≡ o
        → (elim o [
          | none ↦ 0
          | some row ↦
              if is_blocked t u row.grant.rights_generation
              then 0
              else balance (with_consumption t c) row.grant
        ])
          ≡ (elim o [
            | none ↦ 0
            | some row ↦
                if is_blocked t u row.grant.rights_generation then 0 else balance t row.grant
          ])
            - cost u c
    found none e = omega arith
    found (some row) e =
        let named : row.grant.allocation_uuid ≡ u =
          (text_eq_iff row.grant.allocation_uuid u).0 (find_grant_by_uuid-names t u row e) in
        blocked_or (is_blocked t u row.grant.rights_generation) _ _ _ (
          subst (λ v. balance (with_consumption t c) row.grant ≡ balance t row.grant - cost v c)
            named
            (balance-with t c row.grant λ b covered same.
              let mine : c.allocation_uuid ≡ row.grant.allocation_uuid =
                (text_eq_iff c.allocation_uuid row.grant.allocation_uuid).0 same in
              let (generation, above) =
                authored row
                  (subst (λ v. find_grant_by_uuid t v ≡ some row) (sym (mine ∙ named)) e) in
              (
                sym generation,
                above b (
                    subst (λ v. find_coverage_boundary t v row.grant.rights_generation ≡ some b)
                      (sym mine) covered),
              )))
