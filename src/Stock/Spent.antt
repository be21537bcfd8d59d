-- ===== src/Stock/Spent.antt =====
-- A split spends no grant beyond what is left of it, covers or reports every unit, and numbers its
-- entries without a gap (src/main/services/stockAllocation.service.ts).
use pos_desktop.Prelude.{
  ℕ, suc, ◌+◌, ◌≤◌, ◌≡◌, refl, subst, inl, inr, Bool, true, false, not, ◌&&◌, List, [], ◌∷◌, ◌++◌,
  ltb, ◌==◌, Result, ok, if◌then◌else◌, arith, All, All-append, Each, sum_by-append, on_ok, ok-inj,
  Bool-cases, bool_cases, bool_cases,
}
use pos_desktop.Prelude.Text.{Text, text_eq}
use pos_desktop.Prelude.Dict.{Dict}
use pos_desktop.Stock.{Grant}
use pos_desktop.Stock.Split.{
  AllocationSplitEntry, SplitError, Progress, get_or_else, Covered, cover, Split, split_lines,
  split_allocations,
}
use pos_desktop.Stock.Covering.{Spent, taken, quantity, Numbered, count, nothing-Spent, cover-Spent}

abbrev pub all_entries : Split → List AllocationSplitEntry
all_entries [] = []
all_entries ((entries, uncovered) ∷ lines) = entries ++ all_entries lines

-- The entries of a line with what they leave uncovered are its demand.
abbrev pub Covers : ℕ → List AllocationSplitEntry × ℕ → Type 0
Covers demand (entries, uncovered) = quantity entries + uncovered ≡ demand

pub record IsSplit (allow : Bool) (p : Progress) (demands : List ℕ) (lines : Split) : Type 0 where
  pub covers : Each Covers demands lines
  pub within : (u : Text) → taken u (all_entries lines) ≤ get_or_else 0 u p.remaining
  pub numbered : (u : Text) → Numbered u (get_or_else 1 u p.next_sequence) (all_entries lines)
  pub positive : All (λ e. 1 ≤ e.quantity_milli) (all_entries lines)
  pub complete : allow ≡ false → All (λ line. line.1 ≡ 0) lines

Numbered-append :
    (u : Text) (n : ℕ) (xs ys : List AllocationSplitEntry)
    → Numbered u n xs
    → Numbered u (count u xs + n) ys
    → Numbered u n (xs ++ ys)
Numbered-append u n [] ys h k = subst (λ m. Numbered u m ys) (omega arith) k
Numbered-append u n (e ∷ xs) ys h k = elim (Bool-cases (text_eq e.allocation_uuid u)) [
  | inl same ↦
      let (first, rest) : (e.consumption_sequence ≡ n) × Numbered u (suc n) xs =
        rw (same, Numbered) at h in
      let after : Numbered u (1 + count u xs + n) ys = rw same at k in
      rw (same, Numbered)
        (
          first,
          Numbered-append u (suc n) xs ys rest (subst (λ m. Numbered u m ys) (omega arith) after),
        )
  | inr other ↦
      let rest : Numbered u n xs = rw (other, Numbered) at h in
      let after : Numbered u (0 + count u xs + n) ys = rw other at k in
      rw (other, Numbered)
        (Numbered-append u n xs ys rest (subst (λ m. Numbered u m ys) (omega arith) after))
]

-- A line before the others.
line_first :
    (allow : Bool) (p : Progress) (demand : ℕ) (demands : List ℕ) (line : Covered) (lines : Split)
    → Spent p demand line
    → (allow ≡ false → line.needed ≡ 0)
    → IsSplit allow line.progress demands lines
    → IsSplit allow p (demand ∷ demands) ((line.entries, line.needed) ∷ lines)
line_first allow p demand demands line lines here full later = record {
  covers = (here.whole, later.covers);
  within = λ u. omega (
    arith,
    here.left u,
    later.within u,
    sum_by-append (λ e. if text_eq e.allocation_uuid u then e.quantity_milli else 0) line.entries
        (all_entries lines),
  );
  numbered = λ u.
      Numbered-append u (get_or_else 1 u p.next_sequence) line.entries (all_entries lines)
        (here.numbered u)
        (subst (λ n. Numbered u n (all_entries lines)) (here.next u) (later.numbered u));
  positive =
      All-append (λ e. 1 ≤ e.quantity_milli) line.entries (all_entries lines) here.positive
        later.positive;
  complete = λ strict. (full strict, later.complete strict);
}

module _ (create_uuid : ℕ → Text) where
  split_lines-IsSplit :
      (allow : Bool) (grants : List Grant) (p : Progress) (demands : List ℕ) (lines : Split)
      → split_lines create_uuid allow grants p demands ≡ ok lines
      → IsSplit allow p demands lines
  unfolding split_lines
  split_lines-IsSplit allow grants p [] lines = λ h. subst (IsSplit allow p []) (ok-inj h) (record {
    covers = tt;
    within = λ u. omega arith;
    numbered = λ u. tt;
    positive = tt;
    complete = λ strict. tt;
  })
  split_lines-IsSplit allow grants p (demand ∷ demands) lines =
      bool_cases Splits (demand == 0)
        (λ none_needed h. on_ok (split_lines create_uuid allow grants p demands) _ h λ rest e fin.
          subst (IsSplit allow p (demand ∷ demands)) (ok-inj fin) (
            subst (λ d. IsSplit allow p (d ∷ demands) (([], 0) ∷ rest))
              (zero_demand demand none_needed)
              (line_first allow p 0 demands (record { progress = p; entries = []; needed = 0 }) rest
                (nothing-Spent p 0) (λ strict. refl)
                (split_lines-IsSplit allow grants p demands rest e))))
        λ some_needed.
          bool_cases Splits (ltb 0 line.needed && not allow) (λ refused h. cc)
            λ fine h.
              on_ok (split_lines create_uuid allow grants line.progress demands) _ h λ rest e fin.
                subst (IsSplit allow p (demand ∷ demands)) (ok-inj fin) (
                  line_first allow p demand demands line rest
                    (cover-Spent create_uuid p grants demand) (fully_covered line.needed allow fine)
                    (split_lines-IsSplit allow grants line.progress demands rest e))
    where
      line : Covered
      line = cover create_uuid p grants demand

      Splits : Result SplitError Split → Type 0
      Splits r = r ≡ ok lines → IsSplit allow p (demand ∷ demands) lines

      zero_demand : (n : ℕ) → (n == 0) ≡ true → 0 ≡ n
      zero_demand n h = ground arith

      fully_covered : (n : ℕ) (b : Bool) → (ltb 0 n && not b) ≡ false → b ≡ false → n ≡ 0
      fully_covered n b h k = ground arith

  -- Of a split that is made, each line's entries with what they leave uncovered are its demand, no
  -- grant gives more than it has left, the entries of a grant carry the sequences from its next one
  -- on without a gap, every entry takes something, and nothing is uncovered unless that is allowed.
  pub split_allocations-IsSplit :
      (grants : List Grant) (remaining next_sequence : Dict ℕ) (demands : List ℕ) (allow : Bool)
      (lines : Split)
      → split_allocations create_uuid grants remaining next_sequence demands allow ≡ ok lines
      → IsSplit allow
          (record { remaining = remaining; next_sequence = next_sequence; created = 0 })
          demands
          lines
  unfolding split_allocations
  split_allocations-IsSplit grants remaining next_sequence demands allow lines h =
      split_lines-IsSplit allow grants _ demands lines h
