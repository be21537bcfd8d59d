-- ===== src/Stock/Accepting.antt =====
-- The grants of a new snapshot enter marked tables
-- (src/main/repositories/stockAllocation.repository.ts).
use pos_desktop.Prelude.Text.{Text, text_eq_iff}
use pos_desktop.Prelude.Number.{max_safe_integer}
use pos_desktop.Stock.Split.{or_default}
use pos_desktop.Prelude.{
  some-inj, sym, inr, inl, Bool-cases, leb, ◌+◌, ◌||◌, find, max, if◌then◌else◌, ◌==◌, Bool, true,
  Option, none, ℕ, ◌≤◌, ◌≡◌, refl, subst, false, not, some, List, [], ◌∷◌, ltb, ok, refuse_if,
  arith, on_ok, ok-inj, refuse_if_lem,
}
use pos_desktop.Stock.Tables.{
  ObservationSource, bootstrap, StoredGrant, Tables, is_grant, find_grant_by_uuid,
}
use pos_desktop.Stock.Ingest.{
  upsert_bootstrap_grant, Envelope, changed_identity, inconsistent_consumption, validation_mark,
  consumption_floor, same_bootstrap_identity, assert_consumption_advance, raise_validation_mark,
  new_grant, updated_grant, write_bootstrap_grant, check_identity, install_grant, install_grants,
}
use pos_desktop.Stock.Marks.{
  accepted_mark, Later, Grows, upsert-Grows, Advances-refl, Advances-trans, IsMarked, written,
  accepted_mark-written, written-IsMarked, Advances,
}

-- A call that went through, from marked tables.
abbrev pub Accepted : Tables → Tables → Type 0
Accepted t t' = Advances t t' × IsMarked t'

pub Accepted-trans : (a b c : Tables) → Accepted a b → (IsMarked b → Accepted b c) → Accepted a c
Accepted-trans a b c (p, m) next = let (q, n) = next m in (Advances-trans a b c p q, n)

check_identity-le :
    (row : StoredGrant) (e : Envelope) {u : Unit}
    → check_identity (some row) e ≡ ok u
    → row.grant.lifecycle_generation ≤ e.lifecycle_generation
unfolding check_identity
check_identity-le row e h =
    on_ok (refuse_if (not (same_bootstrap_identity row.grant e)) changed_identity) _ h
      λ v first rest.
        no_less row.grant.lifecycle_generation e.lifecycle_generation (refuse_if_lem _ _ rest)
  where
    no_less : (n m : ℕ) → ltb m n ≡ false → n ≤ m
    no_less n m h = ground arith

-- An accepted consumption is no less than the mark.
pub assert_consumption_advance-le :
    (t : Tables) (existing : Option StoredGrant) (e : Envelope) {u : Unit}
    → assert_consumption_advance t existing e ≡ ok u
    → accepted_mark t e.allocation_uuid e.rights_generation ≤ e.consumed_quantity_milli
unfolding assert_consumption_advance consumption_floor accepted_mark
assert_consumption_advance-le t existing e h =
    on_ok
      (refuse_if
        (not (leb e.consumed_quantity_milli max_safe_integer)
          || ltb e.granted_quantity_milli e.consumed_quantity_milli
          || not
              (e.consumed_quantity_milli + e.remaining_quantity_milli == e.granted_quantity_milli))
        inconsistent_consumption)
      _ h
      λ v first rest.
        let reached : consumption_floor t existing e ≤ e.consumed_quantity_milli =
          no_less _ e.consumed_quantity_milli (refuse_if_lem _ _ rest) in
        above existing reached
  where
    no_less : (n m : ℕ) → ltb m n ≡ false → n ≤ m
    no_less n m h = ground arith

    above :
        (o : Option StoredGrant)
        → consumption_floor t o e ≤ e.consumed_quantity_milli
        → or_default 0 (validation_mark t e.allocation_uuid e.rights_generation)
          ≤ e.consumed_quantity_milli
    above none k = k
    above (some row) k = floor (row.grant.rights_generation == e.rights_generation) k
      where
        floor :
            (b : Bool)
            → (if b
                then max
                    (or_default 0 (validation_mark t e.allocation_uuid e.rights_generation))
                    row.grant.server_consumed_quantity_milli
                else or_default 0 (validation_mark t e.allocation_uuid e.rights_generation))
              ≤ e.consumed_quantity_milli
            → or_default 0 (validation_mark t e.allocation_uuid e.rights_generation)
              ≤ e.consumed_quantity_milli
        floor true k = omega (arith, k)
        floor false k = k

-- What `find` returns is named by the identity looked for.
find_grant_by_uuid-named :
    (u : Text) (rows : List StoredGrant) (row : StoredGrant)
    → find (is_grant u) rows ≡ some row
    → row.grant.allocation_uuid ≡ u
find_grant_by_uuid-named u [] row h = cc
find_grant_by_uuid-named u (r ∷ rows) row h = elim (Bool-cases (is_grant u r)) [
  | inl here ↦
      let same : r ≡ row = some-inj (rw here at h) in
      subst (λ (x : StoredGrant). x.grant.allocation_uuid ≡ u) same
        ((text_eq_iff r.grant.allocation_uuid u).0 here)
  | inr other ↦ find_grant_by_uuid-named u rows row (rw other at h)
]

updated-Later :
    (t : Tables) (e : Envelope) (revision now : ℕ) (source : ObservationSource) (row : StoredGrant)
    → row.grant.allocation_uuid ≡ e.allocation_uuid
    → row.grant.lifecycle_generation ≤ e.lifecycle_generation
    → accepted_mark t e.allocation_uuid e.rights_generation ≤ e.consumed_quantity_milli
    → Later t row
        (record { grant = updated_grant e revision now row.grant; observation_source = source })
unfolding updated_grant new_grant
updated-Later t e revision now source row named h k = (
  refl,
  refl,
  refl,
  refl,
  refl,
  refl,
  refl,
  h,
  inr (
      subst (λ u. accepted_mark t u e.rights_generation ≤ e.consumed_quantity_milli) (sym named) k),
)

-- The rows after a write whose envelope takes no lifecycle back, and no accepted consumption.
pub written-Grows :
    (t : Tables) (e : Envelope) (revision now : ℕ) (source : ObservationSource)
    → ((row : StoredGrant)
        → find_grant_by_uuid t e.allocation_uuid ≡ some row
        → row.grant.lifecycle_generation ≤ e.lifecycle_generation)
    → accepted_mark t e.allocation_uuid e.rights_generation ≤ e.consumed_quantity_milli
    → Grows t t.grants (written t e revision now source).grants
unfolding write_bootstrap_grant raise_validation_mark find_grant_by_uuid
written-Grows t e revision now source le reached =
    upsert-Grows t (is_grant e.allocation_uuid)
      (record { grant = new_grant e revision now; observation_source = source })
      (λ old. record {
        grant = updated_grant e revision now old.grant;
        observation_source = source;
      })
      t.grants
      λ row found.
        updated-Later t e revision now source row
          (find_grant_by_uuid-named e.allocation_uuid t.grants row found) (le row found) reached

install_grant-Accepted :
    (t t' : Tables) (e : Envelope) (revision now : ℕ)
    → install_grant t e revision now ≡ ok t'
    → IsMarked t
    → Accepted t t'
unfolding install_grant upsert_bootstrap_grant
install_grant-Accepted t t' e revision now h marked =
    on_ok (check_identity (find_grant_by_uuid t e.allocation_uuid) e) _ h λ u1 identity h1.
      on_ok (assert_consumption_advance t (find_grant_by_uuid t e.allocation_uuid) e) _ h1
        λ u2 advance h2. subst (Accepted t) (ok-inj h2) (
          record {
            grows =
                written-Grows t e revision now bootstrap
                  (λ row found.
                    check_identity-le row e
                      (subst (λ o. check_identity o e ≡ ok u1) found identity))
                  (assert_consumption_advance-le t (find_grant_by_uuid t e.allocation_uuid) e
                    advance);
            accepted = accepted_mark-written t e revision now bootstrap;
          },
          written-IsMarked t e revision now bootstrap marked,
        )

pub install_grants-Accepted :
    (t t' : Tables) (es : List Envelope) (revision now : ℕ)
    → install_grants t es revision now ≡ ok t'
    → IsMarked t
    → Accepted t t'
unfolding install_grants
install_grants-Accepted t t' [] revision now h marked =
    subst (Accepted t) (ok-inj h) (Advances-refl t, marked)
install_grants-Accepted t t' (e ∷ es) revision now h marked =
    on_ok (install_grant t e revision now) _ h λ next first rest.
      Accepted-trans t next t' (install_grant-Accepted t next e revision now first marked)
        λ m. install_grants-Accepted next t' es revision now rest m
