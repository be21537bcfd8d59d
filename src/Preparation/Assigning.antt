-- ===== src/Preparation/Assigning.antt =====
-- What the assignments of a reason leave for a product (src/main/services/preparationDependencies.ts).
use pos_desktop.Prelude.{
  ◌≤◌, ◌≡◌, refl, Option, none, some, List, [], ◌∷◌, ltb, if◌then◌else◌, ◌&&◌, sym, ap, ◌∙◌, ltb→lt,
  arith, inl, inr, ◌⊎◌, ◌≢◌, subst, All, Any, Bool-cases, if_cases,
}
use pos_desktop.Prelude.Text.{Text, text_eq, text_eq_iff, text_eq_refl}
use pos_desktop.Prelude.Dict.{Dict, lookup, lookup-insert}
use pos_desktop.Preparation.{
  PrepareBlockedReason, precedence, Assignment, assign, assign_all, is_better,
}

-- What a list of assignments leaves for a product: nothing, if none is for it; else the reason of one
-- of them, of which none is more urgent.
abbrev IsFor : Text → Assignment → Type 0
IsFor c a = a.0 ≡ c

abbrev pub IsNoWorse : Text → PrepareBlockedReason → Assignment → Type 0
IsNoWorse c r a = a.0 ≡ c → precedence r ≤ precedence (a.1)

abbrev pub Leaves :
    Text → List Assignment → Option PrepareBlockedReason → Option PrepareBlockedReason → Type 0
Leaves c es none none = All (λ a. a.0 ≢ c) es
Leaves c es none (some r) = Any (λ a. a ≡ (c, r)) es × All (IsNoWorse c r) es
Leaves c es (some q) none = ⊥
Leaves c es (some q) (some r) =
    ((q ≡ r) ⊎ Any (λ a. a ≡ (c, r)) es) × (precedence r ≤ precedence q) × All (IsNoWorse c r) es

abbrev pick : Text → Assignment → Option PrepareBlockedReason → Option PrepareBlockedReason
pick c a o = if text_eq a.0 c && is_better (a.1) o then some (a.1) else o

abbrev pub choose :
    Text → List Assignment → Option PrepareBlockedReason → Option PrepareBlockedReason
choose c [] o = o
choose c (a ∷ es) o = choose c es (pick c a o)

lookup-assign :
    (c : Text) (a : Assignment) (m : Dict PrepareBlockedReason)
    → lookup c (assign a m) ≡ pick c a (lookup c m)
unfolding assign
lookup-assign c (p, r) m = elim (Bool-cases (text_eq p c)) [
  | inl mine ↦
      let same : p ≡ c = (text_eq_iff p c).0 mine in
      subst (λ q. lookup c (assign (q, r) m) ≡ pick c (q, r) (lookup c m)) (sym same)
        (if_cases (λ (n : Dict PrepareBlockedReason). lookup c n ≡ pick c (c, r) (lookup c m))
          (is_better r (lookup c m))
          (λ better. rw (lookup-insert c c r m, text_eq_refl c, better) refl)
          (λ worse. rw (text_eq_refl c, worse) refl))
  | inr other ↦
      if_cases (λ (n : Dict PrepareBlockedReason). lookup c n ≡ pick c (p, r) (lookup c m))
        (is_better r (lookup p m)) (λ better. rw (lookup-insert p c r m, other) refl)
        (λ worse. rw other refl)
]

pub lookup-assign_all :
    (c : Text) (es : List Assignment) (m : Dict PrepareBlockedReason)
    → lookup c (assign_all es m) ≡ choose c es (lookup c m)
unfolding assign_all
lookup-assign_all c [] m = refl
lookup-assign_all c (a ∷ es) m =
    lookup-assign_all c es (assign a m) ∙ ap (choose c es) (lookup-assign c a m)

taken :
    (c b : Text) (r s : PrepareBlockedReason) (es : List Assignment)
    → b ≡ c
    → (r ≡ s) ⊎ Any (λ (a : Assignment). a ≡ (c, s)) es
    → Any (λ (a : Assignment). a ≡ (c, s)) ((b, r) ∷ es)
taken c b r s es same (inl e) = inl (cc (same, e))
taken c b r s es same (inr place) = inr place

later :
    (c b : Text) (r q s : PrepareBlockedReason) (es : List Assignment)
    → (q ≡ s) ⊎ Any (λ (a : Assignment). a ≡ (c, s)) es
    → (q ≡ s) ⊎ Any (λ (a : Assignment). a ≡ (c, s)) ((b, r) ∷ es)
later c b r q s es (inl e) = inl e
later c b r q s es (inr place) = inr (inr place)

Leaves-after :
    (c : Text) (a : Assignment) (es : List Assignment) (o p : Option PrepareBlockedReason)
    → Leaves c es (pick c a o) p
    → Leaves c (a ∷ es) o p
Leaves-after c (b, r) es none none h = elim (Bool-cases (text_eq b c)) [
  | inl mine ↦ absurd (rw mine at h)
  | inr other ↦
      let rest : All (λ a. a.0 ≢ c) es = rw other at h in
      (λ same. absurd (cc ((text_eq_iff b c).1 same, other)), rest)
]
Leaves-after c (b, r) es none (some s) h = elim (Bool-cases (text_eq b c)) [
  | inl mine ↦
      let (place, le, rest) : Leaves c es (some r) (some s) = rw mine at h in
      (taken c b r s es ((text_eq_iff b c).0 mine) place, (λ same. le, rest))
  | inr other ↦
      let (place, rest) : Leaves c es none (some s) = rw other at h in
      (inr place, ((λ same. absurd (cc ((text_eq_iff b c).1 same, other))), rest))
]
Leaves-after c (b, r) es (some q) none h =
    elim (Bool-cases (text_eq b c && ltb (precedence r) (precedence q))) [
      | inl better ↦ absurd (rw better at h)
      | inr worse ↦ absurd (rw worse at h)
    ]
Leaves-after c (b, r) es (some q) (some s) h = elim (Bool-cases (text_eq b c)) [
  | inl mine ↦ elim (Bool-cases (ltb (precedence r) (precedence q))) [
    | inl better ↦
        let (place, le, rest) : Leaves c es (some r) (some s) = rw (mine, better) at h in
        (
          inr (taken c b r s es ((text_eq_iff b c).0 mine) place),
          omega (arith, le, ltb→lt (precedence r) (precedence q) better),
          (λ same. le, rest),
        )
    | inr worse ↦
        let (place, le, rest) : Leaves c es (some q) (some s) = rw (mine, worse) at h in
        (later c b r q s es place, le, (λ same. ground (arith, le, worse), rest))
  ]
  | inr other ↦
      let (place, le, rest) : Leaves c es (some q) (some s) = rw other at h in
      (
        later c b r q s es place,
        le,
        ((λ same. absurd (cc ((text_eq_iff b c).1 same, other))), rest),
      )
]

pub choose-Leaves :
    (c : Text) (es : List Assignment) (o : Option PrepareBlockedReason)
    → Leaves c es o (choose c es o)
choose-Leaves c [] none = tt
choose-Leaves c [] (some q) = (inl refl, omega arith, tt)
choose-Leaves c (a ∷ es) o =
    Leaves-after c a es o (choose c es (pick c a o)) (choose-Leaves c es (pick c a o))
