-- ===== src/Prelude/Lists.antt =====
-- Lists measured and indexed by native numbers, and the predicates on them that the parts share.
use Prim.Native.Nat.{ℕ, zero, suc, ◌+◌, ◌≤◌, ◌<◌}
use mathlib.Core.Path.{◌≡◌, refl, ap, subst}
use mathlib.Core.Bool.{Bool, true, false, ◌&&◌, ◌||◌}
use mathlib.Core.Logic.{◌≢◌, ◌⊎◌, inl, inr}
use mathlib.Core.List.{List, [], ◌∷◌, ◌++◌, map}
use mathlib.Core.Option.{Option, none, some}
use native.Mathlib.Omega.{arith}
use pos_desktop.Prelude.Tests.{if◌then◌else◌, Bool-cases}

module _ {ℓ} {A : Type ℓ} where
  abbrev pub length : List A → ℕ
  length [] = 0
  length (x ∷ xs) = suc (length xs)

  abbrev pub get_elem? : List A → ℕ → Option A
  get_elem? [] i = none
  get_elem? (x ∷ xs) zero = some x
  get_elem? (x ∷ xs) (suc i) = get_elem? xs i

  abbrev pub get_or : List A → ℕ → A → A
  get_or [] i d = d
  get_or (x ∷ xs) zero d = x
  get_or (x ∷ xs) (suc i) d = get_or xs i d

  -- A write out of bounds changes nothing.
  abbrev pub set : List A → ℕ → A → List A
  set [] i v = []
  set (x ∷ xs) zero v = v ∷ xs
  set (x ∷ xs) (suc i) v = x ∷ set xs i v

  abbrev pub replicate : ℕ → A → List A
  replicate zero a = []
  replicate (suc n) a = a ∷ replicate n a

  abbrev pub drop : ℕ → List A → List A
  drop zero xs = xs
  drop (suc n) [] = []
  drop (suc n) (x ∷ xs) = drop n xs

  abbrev pub take : ℕ → List A → List A
  take zero xs = []
  take (suc n) [] = []
  take (suc n) (x ∷ xs) = x ∷ take n xs

  -- `Array.prototype.some` and `every`.
  abbrev pub any : (A → Bool) → List A → Bool
  any p [] = false
  any p (x ∷ xs) = p x || any p xs

  abbrev pub every : (A → Bool) → List A → Bool
  every p [] = true
  every p (x ∷ xs) = p x && every p xs

  -- `Array.prototype.filter` and `find`.
  abbrev pub filter : (A → Bool) → List A → List A
  filter p [] = []
  filter p (x ∷ xs) = let rest = filter p xs in if p x then x ∷ rest else rest

  abbrev pub find : (A → Bool) → List A → Option A
  find p [] = none
  find p (x ∷ xs) = if p x then some x else find p xs

  abbrev pub All {κ} : (A → Type κ) → List A → Type κ
  All P [] = Unit
  All P (x ∷ xs) = P x × All P xs

  -- The sum of a measure over a list.
  abbrev pub sum_by : (A → ℕ) → List A → ℕ
  sum_by f [] = 0
  sum_by f (x ∷ xs) = f x + sum_by f xs

abbrev pub sum : List ℕ → ℕ
sum [] = 0
sum (x ∷ xs) = x + sum xs

module _ {ℓ} {A : Type ℓ} where
  pub length-append : (xs ys : List A) → length (xs ++ ys) ≡ length xs + length ys
  length-append [] ys = omega arith
  length-append (x ∷ xs) ys = omega (arith, length-append xs ys)

  pub length-set : (xs : List A) (i : ℕ) (v : A) → length (set xs i v) ≡ length xs
  length-set [] i v = refl
  length-set (x ∷ xs) zero v = refl
  length-set (x ∷ xs) (suc i) v = ap suc (length-set xs i v)

  pub length-map {κ} : {B : Type κ} (f : A → B) (xs : List A) → length (map f xs) ≡ length xs
  length-map f [] = refl
  length-map f (x ∷ xs) = ap suc (length-map f xs)

  pub length-replicate : (n : ℕ) (a : A) → length (replicate n a) ≡ n
  length-replicate zero a = refl
  length-replicate (suc n) a = ap suc (length-replicate n a)

  pub length-filter : (p : A → Bool) (xs : List A) → length (filter p xs) ≤ length xs
  length-filter p [] = omega arith
  length-filter p (x ∷ xs) = ground (arith, length-filter p xs)

  pub All-append {κ} : (P : A → Type κ) (xs ys : List A) → All P xs → All P ys → All P (xs ++ ys)
  All-append P [] ys h k = k
  All-append P (x ∷ xs) ys h k = (h.0, All-append P xs ys h.1 k)

  pub sum_by-append : (f : A → ℕ) (xs ys : List A) → sum_by f (xs ++ ys) ≡ sum_by f xs + sum_by f ys
  sum_by-append f [] ys = omega arith
  sum_by-append f (x ∷ xs) ys = omega (arith, sum_by-append f xs ys)

pub sum-append : (xs ys : List ℕ) → sum (xs ++ ys) ≡ sum xs + sum ys
sum-append [] ys = omega arith
sum-append (x ∷ xs) ys = omega (arith, sum-append xs ys)

pub sum-set_suc :
    (xs : List ℕ) (i : ℕ) → i < length xs → sum (set xs i (get_or xs i 0 + 1)) ≡ sum xs + 1
sum-set_suc [] i h = elim h [ ]
sum-set_suc (x ∷ xs) zero h = omega arith
sum-set_suc (x ∷ xs) (suc i) h = omega (arith, sum-set_suc xs i (omega arith))

module _ {ℓ} {A : Type ℓ} where
  pub All-map {κ ι} :
      {P : A → Type κ} {Q : A → Type ι}
      → ((x : A) → P x → Q x)
      → (xs : List A) → All P xs
      → All Q xs
  All-map f [] h = tt
  All-map f (x ∷ xs) h = (f x h.0, All-map f xs h.1)

  pub get_or-set_ne :
      (xs : List A) (i j : ℕ) (v d : A) → i ≢ j → get_or (set xs i v) j d ≡ get_or xs j d
  get_or-set_ne [] i j v d h = refl
  get_or-set_ne (x ∷ xs) zero zero v d h = absurd (h refl)
  get_or-set_ne (x ∷ xs) zero (suc j) v d h = refl
  get_or-set_ne (x ∷ xs) (suc i) zero v d h = refl
  get_or-set_ne (x ∷ xs) (suc i) (suc j) v d h = get_or-set_ne xs i j v d (λ e. h (ap suc e))

  pub get_or-set_self :
      (xs : List A) (i : ℕ) (v d : A) → i < length xs → get_or (set xs i v) i d ≡ v
  get_or-set_self [] i v d h = elim h [ ]
  get_or-set_self (x ∷ xs) zero v d h = refl
  get_or-set_self (x ∷ xs) (suc i) v d h = get_or-set_self xs i v d (omega arith)

-- Some element satisfies `P`, with its place.
abbrev pub Any {ℓ} : {A : Type ℓ} → (A → Type 0) → List A → Type 0
Any P [] = ⊥
Any P (x ∷ xs) = P x ⊎ Any P xs

-- What holds of all elements holds of a member.
pub All-member :
    {A : Type 0} (P : A → Type 0) (xs : List A) (x : A) → All P xs → Any (λ y. y ≡ x) xs → P x
All-member P [] x h m = absurd m
All-member P (y ∷ ys) x h (inl same) = subst P same h.0
All-member P (y ∷ ys) x h (inr later) = All-member P ys x h.1 later

-- Two lists of the same length, related place by place.
abbrev pub Each {ℓ κ} : {A : Type ℓ} {B : Type κ} → (A → B → Type 0) → List A → List B → Type 0
Each R [] [] = Unit
Each R [] (y ∷ ys) = ⊥
Each R (x ∷ xs) [] = ⊥
Each R (x ∷ xs) (y ∷ ys) = R x y × Each R xs ys

-- What `find` returns is in the list and passes the test.
pub find-member :
    {A : Type 0} (p : A → Bool) (xs : List A) (x : A)
    → find p xs ≡ some x
    → Any (λ y. y ≡ x) xs × (p x ≡ true)
find-member p [] x h = cc
find-member p (y ∷ ys) x h = elim (Bool-cases (p y)) [
  | inl passes ↦
      let same : some y ≡ some x = rw passes at h in
      (inl (ground (arith, same)), subst (λ z. p z ≡ true) (ground (arith, same)) passes)
  | inr fails ↦ let (later, passes) = find-member p ys x (rw fails at h) in (inr later, passes)
]

pub any-All :
    {A : Type 0} (p : A → Bool) (xs : List A) → any p xs ≡ false → All (λ x. p x ≡ false) xs
any-All p [] h = tt
any-All p (x ∷ xs) h = elim (Bool-cases (p x)) [
  | inl passes ↦ absurd (cc (rw passes at h))
  | inr fails ↦ (fails, any-All p xs (rw fails at h))
]

module _ {A : Type 0} (R : A → A → Type 0) where
  pub Each-refl : ((x : A) → R x x) → (xs : List A) → Each R xs xs
  Each-refl r [] = tt
  Each-refl r (x ∷ xs) = (r x, Each-refl r xs)

  pub Each-trans :
      ((x y z : A) → R x y → R y z → R x z)
      → (xs ys zs : List A) → Each R xs ys
      → Each R ys zs
      → Each R xs zs
  Each-trans t [] [] [] h k = tt
  Each-trans t [] [] (z ∷ zs) h k = absurd k
  Each-trans t [] (y ∷ ys) zs h k = absurd h
  Each-trans t (x ∷ xs) [] zs h k = absurd h
  Each-trans t (x ∷ xs) (y ∷ ys) [] h k = absurd k
  Each-trans t (x ∷ xs) (y ∷ ys) (z ∷ zs) (h, hs) (k, ks) =
      (t x y z h k, Each-trans t xs ys zs hs ks)

pub Each-map :
    {A : Type 0} (R S : A → A → Type 0)
    → ((x y : A) → R x y → S x y)
    → (xs ys : List A) → Each R xs ys
    → Each S xs ys
Each-map R S f [] [] h = tt
Each-map R S f [] (y ∷ ys) h = absurd h
Each-map R S f (x ∷ xs) [] h = absurd h
Each-map R S f (x ∷ xs) (y ∷ ys) (h, hs) = (f x y h, Each-map R S f xs ys hs)

-- What `filter` keeps is in the list and passes the test.
pub filter-All :
    {A : Type 0} (p : A → Bool) (xs : List A)
    → All (λ x. Any (λ y. y ≡ x) xs × (p x ≡ true)) (filter p xs)
filter-All p [] = tt
filter-All p (x ∷ xs) =
    let rest = All-map (λ y (place, passes). (inr place, passes)) (filter p xs) (filter-All p xs) in
    elim (Bool-cases (p x)) [
      | inl passes ↦ rw passes ((inl refl, passes), rest)
      | inr fails ↦ rw fails rest
    ]

no_match :
    {A : Type 0} (p : A → Bool) (xs : List A) → length (filter p xs) ≡ 0 → All (λ x. p x ≡ false) xs
no_match p [] h = tt
no_match p (x ∷ xs) h = elim (Bool-cases (p x)) [
  | inl passes ↦ absurd (ground (arith, rw passes at h))
  | inr fails ↦ (fails, no_match p xs (rw fails at h))
]

-- The only element that passes a test.
pub only_match :
    {A : Type 0} (p : A → Bool) (xs : List A) (r : A)
    → length (filter p xs) ≡ 1
    → Any (λ x. x ≡ r) xs
    → p r ≡ true
    → All (λ x. p x ≡ true → x ≡ r) xs
only_match p [] r h place m = tt
only_match p (x ∷ xs) r h place m = elim (Bool-cases (p x)) [
  | inl passes ↦
      let none_left = no_match p xs (ground (arith, rw passes at h)) in
      let same : x ≡ r = elim place [
        | inl here ↦ here
        | inr later ↦ absurd (cc (All-member (λ y. p y ≡ false) xs r none_left later))
      ] in
      (λ e. same, All-map (λ y n e. absurd (cc)) xs none_left)
  | inr fails ↦
      let later : Any (λ y. y ≡ r) xs = elim place [
        | inl here ↦ absurd (cc (here))
        | inr later ↦ later
      ] in
      (λ e. absurd (cc), only_match p xs r (rw fails at h) later m)
]

pub filter-All_back :
    {A : Type 0} (P : A → Type 0) (p : A → Bool) (xs : List A)
    → All P (filter p xs)
    → All (λ x. p x ≡ true → P x) xs
filter-All_back P p [] h = tt
filter-All_back P p (x ∷ xs) h = elim (Bool-cases (p x)) [
  | inl passes ↦
      let kept : All P (x ∷ filter p xs) = rw passes at h in
      (λ e. kept.0, filter-All_back P p xs kept.1)
  | inr fails ↦ (λ e. absurd (cc), filter-All_back P p xs (rw fails at h))
]

pub find-none :
    {A : Type 0} (p : A → Bool) (xs : List A) → find p xs ≡ none → All (λ x. p x ≡ false) xs
find-none p [] h = tt
find-none p (x ∷ xs) h = elim (Bool-cases (p x)) [
  | inl passes ↦ absurd (cc (rw passes at h))
  | inr fails ↦ (fails, find-none p xs (rw fails at h))
]

-- `filter` keeps what holds of all elements.
pub All-filter :
    {A : Type 0} (P : A → Type 0) (p : A → Bool) (xs : List A) → All P xs → All P (filter p xs)
All-filter P p [] h = tt
All-filter P p (x ∷ xs) h = elim (Bool-cases (p x)) [
  | inl passes ↦ rw passes (h.0, All-filter P p xs h.1)
  | inr fails ↦ rw fails (All-filter P p xs h.1)
]
