-- ===== src/Prelude/Sorting.antt =====
-- `Array.prototype.sort`, which is stable: an insertion sort by a test `after x y`, which says that
-- the comparator puts `x` after `y`. The result of a stable sort does not depend on the algorithm.
use Prim.Native.Nat.{ℕ, ◌+◌}
use mathlib.Core.Path.{◌≡◌, refl, sym, subst}
use mathlib.Core.Logic.{◌≢◌, inl, inr}
use mathlib.Core.Bool.{Bool, true, false}
use mathlib.Core.Option.{some}
use mathlib.Core.List.{List, [], ◌∷◌}
use native.Mathlib.Omega.{arith}
use pos_desktop.Prelude.Tests.{if◌then◌else◌, Bool-cases}
use pos_desktop.Prelude.Lists.{All, All-map, find, sum_by}

module _ {ℓ} {A : Type ℓ} (after : A → A → Bool) where
  unfoldable pub insert_by : A → List A → List A
  insert_by x [] = x ∷ []
  insert_by x (y ∷ ys) = let rest = insert_by x ys in if after x y then y ∷ rest else x ∷ y ∷ ys

  unfoldable pub sort_by : List A → List A
  unfolding insert_by
  sort_by [] = []
  sort_by (x ∷ xs) = insert_by x (sort_by xs)

  insert_by-All {κ} :
      (P : A → Type κ) (x : A) (ys : List A) → P x → All P ys → All P (insert_by x ys)
  unfolding insert_by
  insert_by-All P x [] p q = (p, q)
  insert_by-All P x (y ∷ ys) p q = ground (arith, insert_by-All P x ys p q.1)

  -- Sorting keeps what holds of every element, and every sum.
  pub sort_by-All {κ} : (P : A → Type κ) (xs : List A) → All P xs → All P (sort_by xs)
  unfolding sort_by
  sort_by-All P [] h = h
  sort_by-All P (x ∷ xs) h = insert_by-All P x (sort_by xs) h.0 (sort_by-All P xs h.1)

  sum_by-insert_by :
      (f : A → ℕ) (x : A) (ys : List A) → sum_by f (insert_by x ys) ≡ f x + sum_by f ys
  unfolding insert_by
  sum_by-insert_by f x [] = refl
  sum_by-insert_by f x (y ∷ ys) = ground (arith, sum_by-insert_by f x ys)

  pub sum_by-sort_by : (f : A → ℕ) (xs : List A) → sum_by f (sort_by xs) ≡ sum_by f xs
  unfolding sort_by
  sum_by-sort_by f [] = refl
  sum_by-sort_by f (x ∷ xs) = omega (arith, sum_by-insert_by f x (sort_by xs), sum_by-sort_by f xs)

-- No two elements have the same key.
abbrev pub DistinctBy {ℓ κ} : {A : Type ℓ} {K : Type κ} → (A → K) → List A → Type (ℓ ⊔ κ)
DistinctBy key [] = Unit
DistinctBy key (x ∷ xs) = All (λ y. key y ≢ key x) xs × DistinctBy key xs

module _ {ℓ κ} {A : Type ℓ} {K : Type κ} (after : A → A → Bool) (key : A → K) where
  insert_by-DistinctBy :
      (x : A) (ys : List A)
      → All (λ y. key y ≢ key x) ys
      → DistinctBy key ys
      → DistinctBy key (insert_by after x ys)
  unfolding insert_by
  insert_by-DistinctBy x [] fresh d = (tt, tt)
  insert_by-DistinctBy x (y ∷ ys) fresh d = elim (Bool-cases (after x y)) [
    | inl later ↦ rw later (
      insert_by-All after (λ z. key z ≢ key y) x ys (λ e. fresh.0 (sym e)) d.0,
      insert_by-DistinctBy x ys fresh.1 d.1,
    )
    | inr sooner ↦ rw sooner (fresh, d)
  ]

  -- Sorting keeps the keys distinct.
  pub sort_by-DistinctBy : (xs : List A) → DistinctBy key xs → DistinctBy key (sort_by after xs)
  unfolding sort_by
  sort_by-DistinctBy [] d = d
  sort_by-DistinctBy (x ∷ xs) d =
      insert_by-DistinctBy x (sort_by after xs) (sort_by-All after (λ y. key y ≢ key x) xs d.0)
        (sort_by-DistinctBy xs d.1)

module _ {A : Type 0} (after : A → A → Bool) where
  insert_by-All_back :
      (P : A → Type 0) (x : A) (ys : List A) → All P (insert_by after x ys) → P x × All P ys
  unfolding insert_by
  insert_by-All_back P x [] h = (h.0, tt)
  insert_by-All_back P x (y ∷ ys) h = elim (Bool-cases (after x y)) [
    | inl later ↦
        let moved : All P (y ∷ insert_by after x ys) = rw later at h in
        let (here, rest) = insert_by-All_back P x ys moved.1 in (here, (moved.0, rest))
    | inr sooner ↦ let kept : All P (x ∷ y ∷ ys) = rw sooner at h in (kept.0, kept.1)
  ]

  -- What holds of every element of a sorted list held of every element before.
  pub sort_by-All_back : (P : A → Type 0) (xs : List A) → All P (sort_by after xs) → All P xs
  unfolding sort_by
  sort_by-All_back P [] h = tt
  sort_by-All_back P (x ∷ xs) h =
      let (here, rest) = insert_by-All_back P x (sort_by after xs) h in
      (here, sort_by-All_back P xs rest)

-- No element comes after one that follows it.
abbrev pub Sorted : {A : Type 0} → (A → A → Bool) → List A → Type 0
Sorted after [] = Unit
Sorted after (x ∷ xs) = All (λ y. after x y ≡ false) xs × Sorted after xs

-- A comparator that a sort can rely on.
abbrev pub IsOrder : {A : Type 0} → (A → A → Bool) → Type 0
IsOrder {A} after =
    ((x y : A) → after x y ≡ true → after y x ≡ false)
    × ((x y z : A) → after x y ≡ false → after y z ≡ false → after x z ≡ false)

module _ {A : Type 0} (after : A → A → Bool) (order : IsOrder after) where
  insert_by-Sorted : (x : A) (ys : List A) → Sorted after ys → Sorted after (insert_by after x ys)
  unfolding insert_by
  insert_by-Sorted x [] h = (tt, tt)
  insert_by-Sorted x (y ∷ ys) (first, rest) = elim (Bool-cases (after x y)) [
    | inl later ↦ rw later (
      insert_by-All after (λ z. after y z ≡ false) x ys (order.0 x y later) first,
      insert_by-Sorted x ys rest,
    )
    | inr sooner ↦
        rw sooner ((sooner, All-map (λ z e. order.1 x y z sooner e) ys first), (first, rest))
  ]

  pub sort_by-Sorted : (xs : List A) → Sorted after (sort_by after xs)
  unfolding sort_by
  sort_by-Sorted [] = tt
  sort_by-Sorted (x ∷ xs) = insert_by-Sorted x (sort_by after xs) (sort_by-Sorted xs)

  same_place : (x : A) → after x x ≡ false
  same_place x = elim (Bool-cases (after x x)) [ inl e ↦ order.0 x x e | inr e ↦ e ]

  -- What `find` returns of a sorted list comes after no other element that passes the test.
  pub find-Sorted :
      (p : A → Bool) (xs : List A) (r : A)
      → Sorted after xs
      → find p xs ≡ some r
      → All (λ y. p y ≡ true → after r y ≡ false) xs
  find-Sorted p [] r h found = tt
  find-Sorted p (x ∷ xs) r (first, rest) found = elim (Bool-cases (p x)) [
    | inl passes ↦
        let same : x ≡ r = ground (arith, rw passes at found) in
        subst (λ z. All (λ y. p y ≡ true → after z y ≡ false) (x ∷ xs)) same
          (λ e. same_place x, All-map (λ y e q. e) xs first)
    | inr fails ↦ (λ e. absurd (cc), find-Sorted p xs r rest (rw fails at found))
  ]
