-- ===== src/Stock/Missing.antt =====
-- What a cart lacks, product by product (src/main/services/allocationDeficit.ts).
use pos_desktop.Prelude.{
  ℕ, ◌+◌, ◌-◌, ◌≡◌, ◌≢◌, refl, sym, ◌∙◌, ap, subst, Bool, true, false, Option, none, some, List, [],
  ◌∷◌, map, leb, if◌then◌else◌, arith, All, sum_by, if_cases,
}
use pos_desktop.Prelude.Text.{Text, text_eq, text_eq_iff, text_after}
use pos_desktop.Prelude.Dict.{Dict, lookup, insert, lookup-insert, All-insert}
use pos_desktop.Prelude.Sorting.{sort_by, sum_by-sort_by, DistinctBy}
use pos_desktop.Stock.Split.{get_or_else}
use pos_desktop.Stock.Deficit.{
  TrackedDemandLine, AllocationDeficitItem, Demand, demand_or, more_demand, demands, item_of,
  items_of,
}

-- What a key is the first component of.
abbrev pub key {ℓ} : {V : Type ℓ} → Text × V → Text
key entry = entry.0

insert-DistinctBy :
    (k : Text) (v : Demand) (d : Dict Demand) → DistinctBy key d → DistinctBy key (insert k v d)
unfolding insert
insert-DistinctBy k v [] h = (tt, tt)
insert-DistinctBy k v ((j, w) ∷ d) (fresh, h) =
    if_cases (DistinctBy key) (text_eq j k)
      (λ same. (subst (λ i. All (λ e. key e ≢ i) d) ((text_eq_iff j k).0 same) fresh, h))
      λ other. (
        All-insert (λ e. key e ≢ j) k v d (λ e. absurd (cc ((text_eq_iff j k).1 (sym e), other)))
            fresh,
        insert-DistinctBy k v d h,
      )

-- What the lines need of a product.
abbrev pub required_of : (Text → Text) → Text → List TrackedDemandLine → ℕ
required_of lower p =
    sum_by (λ line. if text_eq (lower line.product_uuid) p then line.required_milli else 0)

-- What the items ask for a product.
abbrev pub deficit_of : Text → List AllocationDeficitItem → ℕ
deficit_of p = sum_by (λ item. if text_eq item.product_uuid p then item.deficit_milli else 0)

abbrev pub items : List (AllocationDeficitItem × List Text) → List AllocationDeficitItem
items = map (λ i. i.0)

-- What an entry lacks, if it is the product's.
abbrev lacks : Text → Dict ℕ → Text × Demand → ℕ
lacks p usable entry =
    if text_eq entry.0 p then entry.1.required_milli - get_or_else 0 p usable else 0

-- The usable quantity of the entry's product is that of the product asked for.
lacks_own :
    (p product : Text) (usable : Dict ℕ) (d : Demand)
    → (if text_eq product p then d.required_milli - get_or_else 0 product usable else 0)
      ≡ lacks p usable (product, d)
lacks_own p product usable d = own (text_eq product p) refl
  where
    own :
        (b : Bool)
        → text_eq product p ≡ b
        → (if b then d.required_milli - get_or_else 0 product usable else 0)
          ≡ (if b then d.required_milli - get_or_else 0 p usable else 0)
    own true e = ap (λ q. d.required_milli - get_or_else 0 q usable) ((text_eq_iff product p).0 e)
    own false e = refl

item_of-lacks :
    (p : Text) (usable : Dict ℕ) (entry : Text × Demand)
    (rest : List (AllocationDeficitItem × List Text))
    → deficit_of p (items (elim (item_of usable entry) [ none ↦ rest | some item ↦ item ∷ rest ]))
      ≡ lacks p usable entry + deficit_of p (items rest)
unfolding item_of
item_of-lacks p usable (product, d) rest =
    if_cases {A = Option (AllocationDeficitItem × List Text)}
      (λ o.
        deficit_of p (items (elim o [ none ↦ rest | some item ↦ item ∷ rest ]))
        ≡ lacks p usable (product, d) + deficit_of p (items rest))
      (leb d.required_milli (get_or_else 0 product usable))
      (λ enough. omega (
        arith,
        lacks_own p product usable d,
        nothing (text_eq product p) d.required_milli (get_or_else 0 product usable) enough,
      ))
      λ short. omega (arith, lacks_own p product usable d)
  where
    nothing : (b : Bool) (n m : ℕ) → leb n m ≡ true → (if b then n - m else 0) ≡ 0
    nothing b n m h = ground arith

items_of-lacks :
    (p : Text) (usable : Dict ℕ) (entries : Dict Demand)
    → deficit_of p (items (items_of usable entries)) ≡ sum_by (lacks p usable) entries
unfolding items_of
items_of-lacks p usable [] = refl
items_of-lacks p usable (entry ∷ entries) =
    item_of-lacks p usable entry (items_of usable entries)
    ∙ ap (λ n. lacks p usable entry + n) (items_of-lacks p usable entries)

absent_lacks :
    (p : Text) (usable : Dict ℕ) (entries : Dict Demand)
    → All (λ e. key e ≢ p) entries
    → sum_by (lacks p usable) entries ≡ 0
absent_lacks p usable [] h = refl
absent_lacks p usable (entry ∷ entries) h =
    let other : text_eq entry.0 p ≡ false = not_equal (text_eq entry.0 p) refl in
    rw other (omega (arith, absent_lacks p usable entries h.1))
  where
    not_equal : (b : Bool) → text_eq entry.0 p ≡ b → text_eq entry.0 p ≡ false
    not_equal true e = absurd (h.0 ((text_eq_iff entry.0 p).0 e))
    not_equal false e = e

-- With distinct keys, the entries lack what the product's entry lacks.
lookup-lacks :
    (p : Text) (usable : Dict ℕ) (entries : Dict Demand)
    → DistinctBy key entries
    → sum_by (lacks p usable) entries
      ≡ (demand_or (lookup p entries)).required_milli - get_or_else 0 p usable
unfolding lookup
lookup-lacks p usable [] h = omega arith
lookup-lacks p usable ((j, d) ∷ entries) (fresh, h) =
    split (text_eq j p) refl (lookup-lacks p usable entries h)
  where
    split :
        (b : Bool)
        → text_eq j p ≡ b
        → sum_by (lacks p usable) entries
          ≡ (demand_or (lookup p entries)).required_milli - get_or_else 0 p usable
        → (if b then d.required_milli - get_or_else 0 p usable else 0)
            + sum_by (lacks p usable) entries
          ≡ (demand_or (if b then some d else lookup p entries)).required_milli
            - get_or_else 0 p usable
    split true e rest =
        let same : j ≡ p = (text_eq_iff j p).0 e in
        omega (
          arith,
          absent_lacks p usable entries (subst (λ q. All (λ x. key x ≢ q) entries) same fresh),
        )
    split false e rest = omega (arith, rest)

module _ (lower : Text → Text) where
  pub demands-DistinctBy :
      (lines : List TrackedDemandLine) (known : Dict Demand)
      → DistinctBy key known
      → DistinctBy key (demands lower lines known)
  unfolding demands
  demands-DistinctBy [] known h = h
  demands-DistinctBy (line ∷ lines) known h =
      demands-DistinctBy lines _ (insert-DistinctBy (lower line.product_uuid) _ known h)

  -- The map holds what the lines need.
  demands-required :
      (p : Text) (lines : List TrackedDemandLine) (known : Dict Demand)
      → (demand_or (lookup p (demands lower lines known))).required_milli
        ≡ (demand_or (lookup p known)).required_milli + required_of lower p lines
  unfolding demands
  demands-required p [] known = omega arith
  demands-required p (line ∷ lines) known =
      let product = lower line.product_uuid in
      let more = more_demand line (demand_or (lookup product known)) in
      let rest = demands-required p lines (insert product more known) in
      let here = ap (λ o. (demand_or o).required_milli) (lookup-insert product p more known) in
      omega (arith, rest, here, split (text_eq product p) refl)
    where
      split :
          (b : Bool)
          → text_eq (lower line.product_uuid) p ≡ b
          → (demand_or (
              if b
              then some (more_demand line (demand_or (lookup (lower line.product_uuid) known)))
              else lookup p known)).required_milli
            ≡ (demand_or (lookup p known)).required_milli + (if b then line.required_milli else 0)
      split true e =
          ap (λ q. (demand_or (lookup q known)).required_milli + line.required_milli)
            ((text_eq_iff (lower line.product_uuid) p).0 e)
      split false e = omega arith

  unfoldable pub sorted_items :
      List TrackedDemandLine → Dict ℕ → List (AllocationDeficitItem × List Text)
  sorted_items lines usable =
      items_of usable
        (sort_by (λ (a : Text × Demand) b. text_after a.0 b.0) (demands lower lines []))

  pub sorted_items-lacks :
      (lines : List TrackedDemandLine) (usable : Dict ℕ) (p : Text)
      → deficit_of p (items (sorted_items lines usable))
        ≡ required_of lower p lines - get_or_else 0 p usable
  unfolding sorted_items lookup
  sorted_items-lacks lines usable p =
      items_of-lacks p usable _
      ∙ sum_by-sort_by (λ (a : Text × Demand) b. text_after a.0 b.0) (lacks p usable)
          (demands lower lines [])
      ∙ lookup-lacks p usable (demands lower lines []) (demands-DistinctBy lines [] tt)
      ∙ ap (λ n. n - get_or_else 0 p usable) (demands-required p lines [] ∙ plain)
    where
      plain : 0 + required_of lower p lines ≡ required_of lower p lines
      plain = omega arith
