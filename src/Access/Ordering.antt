-- ===== src/Access/Ordering.antt =====
-- The order of access answers (src/main/services/accessOrdering.ts): `admitAccessAnswer` over the
-- stored sequence, and `bootstrapRelaxes`.
use pos_desktop.Prelude.{
  ℕ, ◌<◌, ◌≡◌, refl, inl, inr, Bool, true, false, ◌&&◌, Option, none, some, List, [], ◌∷◌, leb,
  ◌==◌, if◌then◌else◌, Result, err, ok, arith, All, All-map, Bool-cases,
}
use pos_desktop.Prelude.Text.{Text, text_eq, text_eq_refl}

pub record StoredAccessSequence : Type 0 where
  pub device_uuid : Text
  pub session_epoch : ℕ
  pub sequence : ℕ

-- The parts of `RenewalOwner` that the order looks at.
pub record Owner : Type 0 where
  pub device_uuid : Text
  pub session_epoch : ℕ

-- `StaleAccessResponseError`
pub record StaleAccessResponse : Type 0 where
  received : Option ℕ
  accepted : ℕ

-- The sequence that this owner's session accepted last.
unfoldable pub current_sequence : Option StoredAccessSequence → Owner → Option ℕ
current_sequence none owner = none
current_sequence (some stored) owner =
    if text_eq stored.device_uuid owner.device_uuid && stored.session_epoch == owner.session_epoch
    then some stored.sequence
    else none

abbrev store_sequence : Owner → ℕ → Option StoredAccessSequence
store_sequence owner sequence = some (record {
  device_uuid = owner.device_uuid;
  session_epoch = owner.session_epoch;
  sequence = sequence;
})

-- The two branches of `admitAccessAnswer` for an owner, on the current sequence.
unfoldable pub admit_owned :
    Option StoredAccessSequence
    → Owner
    → Option ℕ
    → Option ℕ
    → Bool
    → Result StaleAccessResponse (Option StoredAccessSequence)
admit_owned stored owner (some accepted) none relaxes =
    if relaxes then err (record { received = none; accepted = accepted }) else ok stored
admit_owned stored owner none none relaxes = ok stored
admit_owned stored owner (some accepted) (some sequence) relaxes =
    if leb sequence accepted
    then err (record { received = some sequence; accepted = accepted })
    else ok (store_sequence owner sequence)
admit_owned stored owner none (some sequence) relaxes = ok (store_sequence owner sequence)

unfoldable pub admit_access_answer :
    Option StoredAccessSequence
    → Option Owner
    → Option ℕ
    → Bool
    → Result StaleAccessResponse (Option StoredAccessSequence)
admit_access_answer stored none sequence relaxes = ok stored
admit_access_answer stored (some owner) sequence relaxes =
    admit_owned stored owner (current_sequence stored owner) sequence relaxes

-- An answer, by its sequence and whether it relaxes access.
abbrev pub Answer : Type 0
Answer = Option ℕ × Bool

-- The answers that one owner's session admits, in the order they arrive, each tried against what the
-- ones before it stored.
abbrev admitted_after :
    Answer → Result StaleAccessResponse (Option StoredAccessSequence) → List Answer → List Answer
admitted_after answer (err stale) later = later
admitted_after answer (ok stored) later = answer ∷ later

abbrev stored_after :
    Option StoredAccessSequence
    → Result StaleAccessResponse (Option StoredAccessSequence)
    → Option StoredAccessSequence
stored_after stored (err stale) = stored
stored_after stored (ok updated) = updated

unfoldable pub admit_all : Owner → Option StoredAccessSequence → List Answer → List Answer
admit_all owner stored [] = []
admit_all owner stored (answer ∷ answers) =
    let result = admit_access_answer stored (some owner) answer.0 answer.1 in
    admitted_after answer result (admit_all owner (stored_after stored result) answers)

-- After an accepted sequence: every sequenced answer comes later in the server's order, and an
-- unsequenced one does not relax.
abbrev IsLater : ℕ → Answer → Type 0
IsLater n answer = elim (answer.0) as (λ x. Type 0) [ none ↦ answer.1 ≡ false | some m ↦ n < m ]

abbrev pub IsOrdered : List Answer → Type 0
IsOrdered [] = Unit
IsOrdered (answer ∷ answers) =
    (elim (answer.0) as (λ x. Type 0) [ none ↦ Unit | some n ↦ All (IsLater n) answers ])
    × IsOrdered answers

eq_self : (n : ℕ) → (n == n) ≡ true
eq_self n = ground arith

current_sequence-store_sequence :
    (owner : Owner) (n : ℕ) → current_sequence (store_sequence owner n) owner ≡ some n
unfolding current_sequence
current_sequence-store_sequence owner n =
    rw (text_eq_refl owner.device_uuid, eq_self owner.session_epoch) refl

IsLater-trans : (n m : ℕ) (answer : Answer) → n < m → IsLater m answer → IsLater n answer
IsLater-trans n m (none, r) h k = k
IsLater-trans n m (some l, r) h k = omega arith

module _ (owner : Owner) where
  All-admit_all :
      (n : ℕ) (stored : Option StoredAccessSequence) (answers : List Answer)
      → current_sequence stored owner ≡ some n
      → All (IsLater n) (admit_all owner stored answers)
  unfolding admit_all admit_access_answer admit_owned
  All-admit_all n stored [] h = tt
  All-admit_all n stored ((none, true) ∷ answers) h = rw h (All-admit_all n stored answers h)
  All-admit_all n stored ((none, false) ∷ answers) h = rw h (refl, All-admit_all n stored answers h)
  All-admit_all n stored ((some m, r) ∷ answers) h = elim (Bool-cases (leb m n)) [
    | inl stale ↦ rw (h, stale) (All-admit_all n stored answers h)
    | inr newer ↦
        let later : n < m = ground (arith, newer) in
        rw (h, newer)
          (
            later,
            All-map (λ a. IsLater-trans n m a later)
                (admit_all owner (store_sequence owner m) answers)
                (All-admit_all m (store_sequence owner m) answers
                  (current_sequence-store_sequence owner m)),
          )
  ]

  IsOrdered-admit_all_from :
      (c : Option ℕ) (stored : Option StoredAccessSequence) (answers : List Answer)
      → current_sequence stored owner ≡ c
      → IsOrdered (admit_all owner stored answers)
  unfolding admit_all admit_access_answer admit_owned
  IsOrdered-admit_all_from c stored [] h = tt
  IsOrdered-admit_all_from none stored ((none, r) ∷ answers) h =
      rw h (tt, IsOrdered-admit_all_from none stored answers h)
  IsOrdered-admit_all_from none stored ((some m, r) ∷ answers) h = rw h (
    All-admit_all m (store_sequence owner m) answers (current_sequence-store_sequence owner m),
    IsOrdered-admit_all_from (some m) (store_sequence owner m) answers
        (current_sequence-store_sequence owner m),
  )
  IsOrdered-admit_all_from (some n) stored ((none, true) ∷ answers) h =
      rw h (IsOrdered-admit_all_from (some n) stored answers h)
  IsOrdered-admit_all_from (some n) stored ((none, false) ∷ answers) h =
      rw h (tt, IsOrdered-admit_all_from (some n) stored answers h)
  IsOrdered-admit_all_from (some n) stored ((some m, r) ∷ answers) h = elim (Bool-cases (leb m n)) [
    | inl stale ↦ rw (h, stale) (IsOrdered-admit_all_from (some n) stored answers h)
    | inr newer ↦
        rw (h, newer)
          (
            All-admit_all m (store_sequence owner m) answers
                (current_sequence-store_sequence owner m),
            IsOrdered-admit_all_from (some m) (store_sequence owner m) answers
                (current_sequence-store_sequence owner m),
          )
  ]

  -- Of the answers that one session of a device admits, whatever order they arrive in, those that
  -- come after a sequenced one either have a greater sequence or none, and those with none do not
  -- relax access.
  pub admit_all-IsOrdered :
      (stored : Option StoredAccessSequence) (answers : List Answer)
      → IsOrdered (admit_all owner stored answers)
  admit_all-IsOrdered stored answers =
      IsOrdered-admit_all_from (current_sequence stored owner) stored answers refl
