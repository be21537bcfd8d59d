-- ===== src/Pricing/Allocation/Remainders.antt =====
-- The two passes over the ranked lines that hand out what the floors leave (`allocationFor` of
-- src/shared/pos/posCalculator.ts).
use pos_desktop.Prelude.{
  ℕ, zero, suc, ◌+◌, ◌*◌, ◌≤◌, ◌<◌, ◌≡◌, refl, ◌≢◌, sym, ◌∙◌, subst, List, [], ◌∷◌, arith, length,
  get_or, set, sum, sum_by, All, length-set, sum-set_suc, get_or-set_ne, get_or-set_self,
}
use native.Mathlib.Decide.{dec_lt, ℕ_discrete}
use pos_desktop.Prelude.Sorting.{DistinctBy}
use pos_desktop.Pricing.Types.{PreparedLine}
use pos_desktop.Pricing.Allocation.{Ranked, taxable_at, give_units, fill_capacity}

module _ (lines : List PreparedLine) where
  -- A ranked line that is yet to be visited: it has room if it has a remainder.
  pub record Ready (t : ℕ) (allocations : List ℕ) (c : Ranked) : Type 0 where
    pub inside : c.index < length allocations
    pub small : c.remainder < t
    pub room : 0 < c.remainder → get_or allocations c.index 0 < taxable_at lines c.index

  -- What handing out units to some lines, at most one to each, does to the allocations.
  pub record Handed (cs : List Ranked) (a : List ℕ) (units : ℕ) (r : List ℕ × ℕ) : Type 0 where
    pub same_length : length r.0 ≡ length a
    pub sum_eq : sum r.0 + r.1 ≡ sum a + units
    pub grows : (i : ℕ) → get_or a i 0 ≤ get_or r.0 i 0
    pub by_one : (i : ℕ) → get_or r.0 i 0 ≤ get_or a i 0 + 1
    pub within : (i : ℕ) → get_or a i 0 ≤ taxable_at lines i → get_or r.0 i 0 ≤ taxable_at lines i
    pub untouched : (i : ℕ) → All (λ c. c.index ≢ i) cs → get_or r.0 i 0 ≡ get_or a i 0

  Handed-none : (cs : List Ranked) (a : List ℕ) (units : ℕ) → Handed cs a units (a, units)
  Handed-none cs a units = record {
    same_length = refl;
    sum_eq = refl;
    grows = λ i. omega arith;
    by_one = λ i. omega arith;
    within = λ i h. h;
    untouched = λ i h. refl;
  }

  Handed-skip :
      (c : Ranked) (cs : List Ranked) (a : List ℕ) (units : ℕ) (r : List ℕ × ℕ)
      → Handed cs a units r
      → Handed (c ∷ cs) a units r
  Handed-skip c cs a units r h = record {
    same_length = h.same_length;
    sum_eq = h.sum_eq;
    grows = h.grows;
    by_one = h.by_one;
    within = h.within;
    untouched = λ i fresh. h.untouched i fresh.1;
  }

  module _ (c : Ranked) (cs : List Ranked) (a : List ℕ) where
    abbrev bumped : List ℕ
    bumped = set a c.index (get_or a c.index 0 + 1)

    at_bumped : c.index < length a → get_or bumped c.index 0 ≡ get_or a c.index 0 + 1
    at_bumped h = get_or-set_self a c.index _ 0 h

    off_bumped : (i : ℕ) → c.index ≢ i → get_or bumped i 0 ≡ get_or a i 0
    off_bumped i h = get_or-set_ne a c.index i _ 0 h

    Handed-one :
        (units : ℕ) (r : List ℕ × ℕ)
        → All (λ c'. c'.index ≢ c.index) cs
        → c.index < length a
        → get_or a c.index 0 < taxable_at lines c.index
        → Handed cs bumped units r
        → Handed (c ∷ cs) a (suc units) r
    Handed-one units r fresh inside room h =
        let kept = h.untouched c.index fresh in
        let own = at_bumped inside in
        record {
          same_length = omega (arith, h.same_length, length-set a c.index (get_or a c.index 0 + 1));
          sum_eq = omega (arith, h.sum_eq, sum-set_suc a c.index inside);
          grows = λ i. elim (ℕ_discrete c.index i) [
            | yes e ↦ subst (λ k. get_or a k 0 ≤ get_or r.0 k 0) e (omega arith)
            | no e ↦ omega (arith, h.grows i, off_bumped i e)
          ];
          by_one = λ i. elim (ℕ_discrete c.index i) [
            | yes e ↦ subst (λ k. get_or r.0 k 0 ≤ get_or a k 0 + 1) e (omega arith)
            | no e ↦ omega (arith, h.by_one i, off_bumped i e)
          ];
          within = λ i. elim (ℕ_discrete c.index i) [
            | yes e ↦
                subst (λ k. get_or a k 0 ≤ taxable_at lines k → get_or r.0 k 0 ≤ taxable_at lines k)
                  e (λ w. omega arith)
            | no e ↦ λ w. h.within i (omega (arith, off_bumped i e))
          ];
          untouched = λ i off. h.untouched i off.1 ∙ off_bumped i off.0;
        }

  Ready-set :
      (t : ℕ) (a : List ℕ) (i v : ℕ) (c : Ranked)
      → c.index ≢ i
      → Ready t a c
      → Ready t (set a i v) c
  Ready-set t a i v c h r =
      let same = get_or-set_ne a i c.index v 0 (λ e. h (sym e)) in
      record {
        inside = omega (arith, length-set a i v);
        small = r.small;
        room = λ p. omega (arith, r.room p, same);
      }

  Ready-set-All :
      (t : ℕ) (a : List ℕ) (i v : ℕ) (cs : List Ranked)
      → All (λ c. c.index ≢ i) cs
      → All (Ready t a) cs
      → All (Ready t (set a i v)) cs
  Ready-set-All t a i v [] h r = tt
  Ready-set-All t a i v (c ∷ cs) h r =
      (Ready-set t a i v c h.0 r.0, Ready-set-All t a i v cs h.1 r.1)

  -- The three ways of a visit in the first pass.
  give_none : (cs : List Ranked) (a : List ℕ) → give_units lines cs a 0 ≡ (a, 0)
  unfolding give_units
  give_none [] a = refl
  give_none (c ∷ cs) a = refl

  give_one :
      (c : Ranked) (cs : List Ranked) (a : List ℕ) (r : ℕ)
      → get_or a c.index 0 < taxable_at lines c.index
      → give_units lines (c ∷ cs) a (suc r)
        ≡ give_units lines cs (set a c.index (get_or a c.index 0 + 1)) r
  unfolding give_units
  give_one c cs a r room = ground arith

  give_on :
      (c : Ranked) (cs : List Ranked) (a : List ℕ) (r : ℕ)
      → taxable_at lines c.index ≤ get_or a c.index 0
      → give_units lines (c ∷ cs) a (suc r) ≡ give_units lines cs a (suc r)
  unfolding give_units
  give_on c cs a r full = ground arith

  pub fill_none : (cs : List Ranked) (a : List ℕ) → fill_capacity lines cs a 0 ≡ (a, 0)
  unfolding fill_capacity
  fill_none [] a = refl
  fill_none (c ∷ cs) a = refl

  -- One unit per line is enough: nothing remains after the first pass.
  pub give_units-exhausts :
      (t : ℕ) (cs : List Ranked) (a : List ℕ) (remaining : ℕ)
      → DistinctBy Ranked.index cs
      → All (Ready t a) cs
      → remaining * t ≤ sum_by Ranked.remainder cs
      → 0 < t
      → (give_units lines cs a remaining).1 ≡ 0
  give_units-exhausts t cs a zero dist r h p = rw give_none
  give_units-exhausts t [] a (suc remaining) dist r h p = absurd (grind arith)
  give_units-exhausts t (c ∷ cs) a (suc remaining) dist r h p =
      elim (dec_lt (get_or a c.index 0) (taxable_at lines c.index)) [
        | yes room ↦ rw (give_one c cs a remaining room) (
            give_units-exhausts t cs (set a c.index (get_or a c.index 0 + 1)) remaining dist.1
              (Ready-set-All t a c.index _ cs dist.0 r.1) (omega arith) p)
        | no full ↦
            rw (give_on c cs a remaining (omega arith))
              (give_units-exhausts t cs a (suc remaining) dist.1 r.1 (ground (arith, r.0.room)) p)
      ]

  -- The first pass hands out every unit that does not remain, at most one to a line, and none
  -- beyond a line's taxable amount.
  pub give_units-Handed :
      (t : ℕ) (cs : List Ranked) (a : List ℕ) (remaining : ℕ)
      → DistinctBy Ranked.index cs
      → All (Ready t a) cs
      → Handed cs a remaining (give_units lines cs a remaining)
  give_units-Handed t cs a zero dist r = rw give_none (Handed-none cs a 0)
  give_units-Handed t [] a (suc remaining) dist r =
      unfold give_units in Handed-none [] a (suc remaining)
  give_units-Handed t (c ∷ cs) a (suc remaining) dist r =
      elim (dec_lt (get_or a c.index 0) (taxable_at lines c.index)) [
        | yes room ↦ rw (give_one c cs a remaining room) (
            Handed-one c cs a remaining _ dist.0 r.0.inside room (
              give_units-Handed t cs (bumped c cs a) remaining dist.1
                (Ready-set-All t a c.index _ cs dist.0 r.1)))
        | no full ↦ rw (give_on c cs a remaining (omega arith)) (
            Handed-skip c cs a (suc remaining) _
              (give_units-Handed t cs a (suc remaining) dist.1 r.1))
      ]
