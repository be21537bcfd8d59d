-- ===== src/Stock/Covering.antt =====
-- What one run over the grants takes (src/main/services/stockAllocation.service.ts).
use pos_desktop.Prelude.{
  ℕ, suc, ◌+◌, ◌-◌, ◌≤◌, ◌≡◌, refl, ◌∙◌, ap, subst, min, inl, inr, Bool, true, false, Option, some,
  List, [], ◌∷◌, ◌==◌, if◌then◌else◌, arith, All, sum_by, Bool-cases, bool_cases, bool_cases,
}
use pos_desktop.Prelude.Text.{Text, text_eq, text_eq_iff}
use pos_desktop.Prelude.Dict.{Dict, lookup, insert, lookup-insert}
use pos_desktop.Stock.{Grant}
use pos_desktop.Stock.Split.{
  AllocationSplitEntry, Progress, or_default, get_or_else, spend, Covered, entry, cover,
}

-- The quantity that entries take from a grant.
abbrev pub taken : Text → List AllocationSplitEntry → ℕ
taken u = sum_by (λ e. if text_eq e.allocation_uuid u then e.quantity_milli else 0)

-- The quantity that entries take in all.
abbrev pub quantity : List AllocationSplitEntry → ℕ
quantity = sum_by AllocationSplitEntry.quantity_milli

-- The entries of a grant are numbered from `n` up, whatever lies between them.
abbrev pub Numbered : Text → ℕ → List AllocationSplitEntry → Type 0
Numbered u n [] = Unit
Numbered u n (e ∷ es) = elim (text_eq e.allocation_uuid u) [
  | true ↦ (e.consumption_sequence ≡ n) × Numbered u (suc n) es
  | false ↦ Numbered u n es
]

-- How many entries a grant has.
abbrev pub count : Text → List AllocationSplitEntry → ℕ
count u = sum_by (λ e. if text_eq e.allocation_uuid u then 1 else 0)

pub get_or_else-insert :
    (default n : ℕ) (k j : Text) (d : Dict ℕ)
    → get_or_else default j (insert k n d) ≡ (if text_eq k j then n else get_or_else default j d)
unfolding get_or_else
get_or_else-insert default n k j d =
    ap (or_default default) (lookup-insert k j n d) ∙ split (text_eq k j) (lookup j d)
  where
    split :
        (b : Bool) (o : Option ℕ)
        → or_default default (if b then some n else o) ≡ (if b then n else or_default default o)
    split true o = refl
    split false o = refl

-- What a grant has left, with what was taken from it, is what it had.
spend-remaining :
    (p : Progress) (g : Grant) (take : ℕ) (u : Text)
    → take ≤ get_or_else 0 g.allocation_uuid p.remaining
    → (if text_eq g.allocation_uuid u then take else 0) + get_or_else 0 u (spend p g take).remaining
      ≡ get_or_else 0 u p.remaining
unfolding spend
spend-remaining p g take u h = elim (Bool-cases (text_eq g.allocation_uuid u)) [
  | inl same ↦
      let e : g.allocation_uuid ≡ u = (text_eq_iff g.allocation_uuid u).0 same in
      let left =
        get_or_else-insert 0 (get_or_else 0 g.allocation_uuid p.remaining - take) g.allocation_uuid
          u p.remaining in
      let known : get_or_else 0 g.allocation_uuid p.remaining ≡ get_or_else 0 u p.remaining =
        ap (λ k. get_or_else 0 k p.remaining) e in
      rw same (omega (arith, h, known, (rw same at left)))
  | inr other ↦
      let left =
        get_or_else-insert 0 (get_or_else 0 g.allocation_uuid p.remaining - take) g.allocation_uuid
          u p.remaining in
      rw other (omega (arith, (rw other at left)))
]

spend-next :
    (p : Progress) (g : Grant) (take : ℕ) (u : Text)
    → get_or_else 1 u (spend p g take).next_sequence
      ≡ (if text_eq g.allocation_uuid u then 1 else 0) + get_or_else 1 u p.next_sequence
unfolding spend
spend-next p g take u = elim (Bool-cases (text_eq g.allocation_uuid u)) [
  | inl same ↦
      let e : g.allocation_uuid ≡ u = (text_eq_iff g.allocation_uuid u).0 same in
      let left =
        get_or_else-insert 1 (get_or_else 1 g.allocation_uuid p.next_sequence + 1) g.allocation_uuid
          u p.next_sequence in
      let known : get_or_else 1 g.allocation_uuid p.next_sequence
          ≡ get_or_else 1 u p.next_sequence =
        ap (λ k. get_or_else 1 k p.next_sequence) e in
      rw same (omega (arith, known, (rw same at left)))
  | inr other ↦
      let left =
        get_or_else-insert 1 (get_or_else 1 g.allocation_uuid p.next_sequence + 1) g.allocation_uuid
          u p.next_sequence in
      rw other (omega (arith, (rw other at left)))
]

-- What a run of the loop over the grants does to the maps, for what a line needs.
pub record Spent (p : Progress) (needed : ℕ) (c : Covered) : Type 0 where
  pub whole : quantity c.entries + c.needed ≡ needed
  pub left :
      (u : Text)
      → taken u c.entries + get_or_else 0 u c.progress.remaining ≡ get_or_else 0 u p.remaining
  pub numbered : (u : Text) → Numbered u (get_or_else 1 u p.next_sequence) c.entries
  pub next :
      (u : Text)
      → get_or_else 1 u c.progress.next_sequence
        ≡ count u c.entries + get_or_else 1 u p.next_sequence
  pub positive : All (λ e. 1 ≤ e.quantity_milli) c.entries

pub nothing-Spent :
    (p : Progress) (n : ℕ) → Spent p n (record { progress = p; entries = []; needed = n })
nothing-Spent p n = record {
  whole = omega arith;
  left = λ u. omega arith;
  numbered = λ u. tt;
  next = λ u. omega arith;
  positive = tt;
}

Numbered-entry :
    (u v : Text) (n m : ℕ) (e : AllocationSplitEntry) (es : List AllocationSplitEntry)
    → e.allocation_uuid ≡ v
    → (v ≡ u → e.consumption_sequence ≡ n)
    → m ≡ (if text_eq v u then 1 else 0) + n
    → Numbered u m es
    → Numbered u n (e ∷ es)
Numbered-entry u v n m e es named first later rest =
    elim (Bool-cases (text_eq e.allocation_uuid u)) [
      | inl same ↦
          let here : text_eq v u ≡ true = subst (λ w. text_eq w u ≡ true) named same in
          let more : m ≡ suc n = omega (arith, (rw here at later)) in
          rw (same, Numbered)
            (first ((text_eq_iff v u).0 here), subst (λ k. Numbered u k es) more rest)
      | inr other ↦
          let away : text_eq v u ≡ false = subst (λ w. text_eq w u ≡ false) named other in
          let more : m ≡ n = omega (arith, (rw away at later)) in
          rw (other, Numbered) (subst (λ k. Numbered u k es) more rest)
    ]

module _ (create_uuid : ℕ → Text) where
  entry-Spent :
      (p : Progress) (g : Grant) (take needed : ℕ) (rest : Covered)
      → take ≤ get_or_else 0 g.allocation_uuid p.remaining
      → 1 ≤ take
      → take ≤ needed
      → Spent (spend p g take) (needed - take) rest
      → Spent p needed (record rest { entries = entry create_uuid p g take ∷ rest.entries })
  unfolding entry
  entry-Spent p g take needed rest enough some_taken some_needed v = record {
    whole = omega (arith, v.whole, some_needed);
    left = λ u. omega (arith, v.left u, spend-remaining p g take u enough);
    numbered = λ u.
        Numbered-entry u g.allocation_uuid (get_or_else 1 u p.next_sequence)
          (get_or_else 1 u (spend p g take).next_sequence) (entry create_uuid p g take) rest.entries
          refl (λ e. ap (λ k. get_or_else 1 k p.next_sequence) e) (spend-next p g take u)
          (v.numbered u);
    next = λ u. omega (arith, v.next u, spend-next p g take u);
    positive = (some_taken, v.positive);
  }

  pub cover-Spent :
      (p : Progress) (grants : List Grant) (needed : ℕ)
      → Spent p needed (cover create_uuid p grants needed)
  unfolding cover
  cover-Spent p [] needed = nothing-Spent p needed
  cover-Spent p (g ∷ grants) needed =
      let available = get_or_else 0 g.allocation_uuid p.remaining in
      bool_cases (Spent p needed) (needed == 0) (λ done. nothing-Spent p needed)
        λ more.
          bool_cases (Spent p needed) (available == 0) (λ empty. cover-Spent p grants needed)
            λ holds.
              entry-Spent p g (min available needed) needed
                (cover create_uuid (spend p g (min available needed)) grants
                  (needed - min available needed))
                (ground arith) (ground (arith, more, holds)) (ground arith)
                (cover-Spent (spend p g (min available needed)) grants
                  (needed - min available needed))
