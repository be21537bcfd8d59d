-- ===== src/Stock/Marks.antt =====
-- The rows and the marks that the envelopes write
-- (src/main/repositories/stockAllocation.repository.ts).
use pos_desktop.Prelude.{
  ℕ, ◌≤◌, ◌≡◌, refl, sym, ◌∙◌, subst, inl, inr, ◌⊎◌, Bool, true, false, some, List, [], ◌∷◌, find,
  if◌then◌else◌, arith, Bool-cases, ==_iff, All, All-map, if_cases,
}
use pos_desktop.Prelude.Text.{Text, text_eq_refl, text_eq_iff}
use pos_desktop.Stock.Split.{or_default}
use pos_desktop.Stock.Tables.{
  ObservationSource, StoredGrant, ValidationMark, Tables, is_grant, upsert,
}
use pos_desktop.Stock.Ingest.{
  Envelope, high_water, is_mark, validation_mark, new_mark, raised_mark, raise_validation_mark,
  new_grant, updated_grant, write_bootstrap_grant,
}

-- The highest consumption accepted for a rights generation of a grant.
unfoldable pub accepted_mark : Tables → Text → ℕ → ℕ
unfolding validation_mark
accepted_mark t u generation = or_default 0 (validation_mark t u generation)

-- The consumption and its rights generation are as they were, or the consumption is no less than what
-- had been accepted for the generation that the grant then has.
abbrev pub NoLess : Tables → StoredGrant → StoredGrant → Type 0
NoLess t a b =
    (b.grant.rights_generation ≡ a.grant.rights_generation)
      × (b.grant.server_consumed_quantity_milli ≡ a.grant.server_consumed_quantity_milli)
    ⊎ (accepted_mark t b.grant.allocation_uuid b.grant.rights_generation
        ≤ b.grant.server_consumed_quantity_milli)

-- The same grant later, from given tables.
abbrev pub Later : Tables → StoredGrant → StoredGrant → Type 0
Later t a b =
    (b.grant.allocation_uuid ≡ a.grant.allocation_uuid)
    × (b.grant.company_uuid ≡ a.grant.company_uuid)
    × (b.grant.device_uuid ≡ a.grant.device_uuid)
    × (b.grant.warehouse_uuid ≡ a.grant.warehouse_uuid)
    × (b.grant.product_uuid ≡ a.grant.product_uuid)
    × (b.grant.contract_version ≡ a.grant.contract_version)
    × (b.grant.server_sequence ≡ a.grant.server_sequence)
    × (a.grant.lifecycle_generation ≤ b.grant.lifecycle_generation)
    × NoLess t a b

pub Later-refl : (t : Tables) (a : StoredGrant) → Later t a a
Later-refl t a = (refl, refl, refl, refl, refl, refl, refl, omega arith, inl (refl, refl))

-- The marks of the later tables are no lower.
abbrev Raised : Tables → Tables → Type 0
Raised t t' =
    (u : Text) (generation : ℕ) → accepted_mark t u generation ≤ accepted_mark t' u generation

NoLess-trans :
    (t t' : Tables) (a b c : StoredGrant)
    → Raised t t'
    → c.grant.allocation_uuid ≡ b.grant.allocation_uuid
    → NoLess t a b
    → NoLess t' b c
    → NoLess t a c
NoLess-trans t t' a b c raised same p (inr q) =
    inr (omega (arith, q, raised c.grant.allocation_uuid c.grant.rights_generation))
NoLess-trans t t' a b c raised same (inl (g1, c1)) (inl (g2, c2)) = inl (g2 ∙ g1, c2 ∙ c1)
NoLess-trans t t' a b c raised same (inr p) (inl (g2, c2)) = inr (rw (same, g2, c2) p)

Later-trans :
    (t t' : Tables) (a b c : StoredGrant) → Raised t t' → Later t a b → Later t' b c → Later t a c
Later-trans t t' a b c raised (p1, p2, p3, p4, p5, p6, p7, p8, p9)
      (q1, q2, q3, q4, q5, q6, q7, q8, q9) =
    (
      q1 ∙ p1,
      q2 ∙ p2,
      q3 ∙ p3,
      q4 ∙ p4,
      q5 ∙ p5,
      q6 ∙ p6,
      q7 ∙ p7,
      omega (arith, p8, q8),
      NoLess-trans t t' a b c raised q1 p9 q9,
    )

-- The rows are, in order, the first of the later ones.
abbrev pub Grows : Tables → List StoredGrant → List StoredGrant → Type 0
Grows t [] ys = Unit
Grows t (x ∷ xs) [] = ⊥
Grows t (x ∷ xs) (y ∷ ys) = Later t x y × Grows t xs ys

pub Grows-refl : (t : Tables) (xs : List StoredGrant) → Grows t xs xs
Grows-refl t [] = tt
Grows-refl t (x ∷ xs) = (Later-refl t x, Grows-refl t xs)

Grows-trans :
    (t t' : Tables) (xs ys zs : List StoredGrant)
    → Raised t t'
    → Grows t xs ys
    → Grows t' ys zs
    → Grows t xs zs
Grows-trans t t' [] ys zs raised h k = tt
Grows-trans t t' (x ∷ xs) [] zs raised h k = absurd h
Grows-trans t t' (x ∷ xs) (y ∷ ys) [] raised h k = absurd k
Grows-trans t t' (x ∷ xs) (y ∷ ys) (z ∷ zs) raised (h, hs) (k, ks) =
    (Later-trans t t' x y z raised h k, Grows-trans t t' xs ys zs raised hs ks)

-- The first row that an upsert meets is the one that `find` returns.
pub upsert-Grows :
    (t : Tables) (p : StoredGrant → Bool) (new : StoredGrant) (change : StoredGrant → StoredGrant)
    (rows : List StoredGrant)
    → ((row : StoredGrant) → find p rows ≡ some row → Later t row (change row))
    → Grows t rows (upsert p new change rows)
unfolding upsert
upsert-Grows t p new change [] h = tt
upsert-Grows t p new change (row ∷ rows) h = elim (Bool-cases (p row)) [
  | inl here ↦ rw (here, upsert) (h row (rw here refl), Grows-refl t rows)
  | inr other ↦
      rw (other, upsert)
        (Later-refl t row, upsert-Grows t p new change rows λ r e. h r (rw other e))
]

abbrev mark_of : Text → ℕ → List ValidationMark → ℕ
mark_of u generation marks = or_default 0 (high_water (find (is_mark u generation) marks))

-- Raising a mark lowers none.
upsert-mark :
    (e : Envelope) (revision now : ℕ) (u : Text) (generation : ℕ) (marks : List ValidationMark)
    → mark_of u generation marks
      ≤ mark_of u generation (
          upsert
            (is_mark e.allocation_uuid e.rights_generation)
            (new_mark e revision now)
            (raised_mark e revision now)
            marks)
unfolding upsert
upsert-mark e revision now u generation [] = omega arith
upsert-mark e revision now u generation (m ∷ marks) =
    if_cases (λ ms. mark_of u generation (m ∷ marks) ≤ mark_of u generation ms)
      (is_mark e.allocation_uuid e.rights_generation m) (λ mine. head (is_mark u generation m))
      λ other. later (is_mark u generation m) (upsert-mark e revision now u generation marks)
  where
    head :
        (b : Bool)
        → or_default 0 (high_water (if b then some m else find (is_mark u generation) marks))
          ≤ or_default 0 (
              high_water (
                if b
                then some (raised_mark e revision now m)
                else find (is_mark u generation) marks))
    head true = omega arith
    head false = omega arith

    later :
        (b : Bool)
        → mark_of u generation marks
          ≤ mark_of u generation (
              upsert
                (is_mark e.allocation_uuid e.rights_generation)
                (new_mark e revision now)
                (raised_mark e revision now)
                marks)
        → or_default 0 (high_water (if b then some m else find (is_mark u generation) marks))
          ≤ or_default 0 (
              high_water (
                if b
                then some m
                else find (is_mark u generation) (
                    upsert
                      (is_mark e.allocation_uuid e.rights_generation)
                      (new_mark e revision now)
                      (raised_mark e revision now)
                      marks)))
    later true h = omega arith
    later false h = h

-- The raised mark is at least what the envelope carries.
upsert-mark_self :
    (e : Envelope) (revision now : ℕ) (marks : List ValidationMark)
    → e.consumed_quantity_milli
      ≤ mark_of e.allocation_uuid e.rights_generation (
          upsert
            (is_mark e.allocation_uuid e.rights_generation)
            (new_mark e revision now)
            (raised_mark e revision now)
            marks)
unfolding upsert new_mark
upsert-mark_self e revision now [] =
    rw (text_eq_refl e.allocation_uuid, (==_iff e.rights_generation e.rights_generation).1 refl)
      (omega arith)
upsert-mark_self e revision now (m ∷ marks) =
    if_cases (λ ms. e.consumed_quantity_milli ≤ mark_of e.allocation_uuid e.rights_generation ms)
      (is_mark e.allocation_uuid e.rights_generation m)
      (λ mine.
        if_cases (λ o. e.consumed_quantity_milli ≤ or_default 0 (high_water o))
          (is_mark e.allocation_uuid e.rights_generation m) (λ again. omega arith)
          λ other. absurd (cc (mine, other)))
      λ other.
        if_cases (λ o. e.consumed_quantity_milli ≤ or_default 0 (high_water o))
          (is_mark e.allocation_uuid e.rights_generation m) (λ mine. absurd (cc (mine, other)))
          λ again. upsert-mark_self e revision now marks

-- What an accepted call does to the tables.
pub record Advances (t t' : Tables) : Type 0 where
  pub grows : Grows t t.grants t'.grants
  pub accepted :
      (u : Text) (generation : ℕ) → accepted_mark t u generation ≤ accepted_mark t' u generation

pub Advances-refl : (t : Tables) → Advances t t
Advances-refl t = record { grows = Grows-refl t t.grants; accepted = λ u generation. omega arith }

pub Advances-trans : (a b c : Tables) → Advances a b → Advances b c → Advances a c
Advances-trans a b c p q = record {
  grows = Grows-trans a b a.grants b.grants c.grants p.accepted p.grows q.grows;
  accepted = λ u generation. omega (arith, p.accepted u generation, q.accepted u generation);
}

-- Every stored consumption has been accepted.
abbrev pub IsMarked : Tables → Type 0
IsMarked t =
    All
      (λ row.
        row.grant.server_consumed_quantity_milli
        ≤ accepted_mark t row.grant.allocation_uuid row.grant.rights_generation)
      t.grants

pub accepted_mark-raise :
    (t : Tables) (e : Envelope) (revision now : ℕ) (u : Text) (generation : ℕ)
    → accepted_mark t u generation
      ≤ accepted_mark (raise_validation_mark t e revision now) u generation
unfolding accepted_mark raise_validation_mark
accepted_mark-raise t e revision now u generation = upsert-mark e revision now u generation t.marks

accepted_mark-raise_self :
    (t : Tables) (e : Envelope) (revision now : ℕ)
    → e.consumed_quantity_milli
      ≤ accepted_mark (raise_validation_mark t e revision now) e.allocation_uuid e.rights_generation
unfolding accepted_mark raise_validation_mark
accepted_mark-raise_self t e revision now = upsert-mark_self e revision now t.marks

pub raise-Advances :
    (t : Tables) (e : Envelope) (revision now : ℕ)
    → Advances t (raise_validation_mark t e revision now)
unfolding raise_validation_mark
raise-Advances t e revision now = record {
  grows = Grows-refl t t.grants;
  accepted = accepted_mark-raise t e revision now;
}

pub IsMarked-le :
    (t t' : Tables) (rows : List StoredGrant)
    → ((u : Text) (generation : ℕ) → accepted_mark t u generation ≤ accepted_mark t' u generation)
    → All
        (λ row.
          row.grant.server_consumed_quantity_milli
          ≤ accepted_mark t row.grant.allocation_uuid row.grant.rights_generation)
        rows
    → All
        (λ row.
          row.grant.server_consumed_quantity_milli
          ≤ accepted_mark t' row.grant.allocation_uuid row.grant.rights_generation)
        rows
IsMarked-le t t' rows le h =
    All-map (λ row k. omega (arith, k, le row.grant.allocation_uuid row.grant.rights_generation))
      rows h

-- Rows that an upsert leaves, and the one that it writes.
upsert-All :
    (P : StoredGrant → Type 0) (p : StoredGrant → Bool) (new : StoredGrant)
    (change : StoredGrant → StoredGrant) (rows : List StoredGrant)
    → P new
    → ((row : StoredGrant) → p row ≡ true → P (change row))
    → All P rows
    → All P (upsert p new change rows)
unfolding upsert
upsert-All P p new change [] fresh changed h = (fresh, tt)
upsert-All P p new change (row ∷ rows) fresh changed h = elim (Bool-cases (p row)) [
  | inl here ↦ rw (here, upsert) (changed row here, h.1)
  | inr other ↦ rw (other, upsert) (h.0, upsert-All P p new change rows fresh changed h.1)
]

abbrev pub written : Tables → Envelope → ℕ → ℕ → ObservationSource → Tables
written t e revision now source =
    raise_validation_mark (write_bootstrap_grant t e revision now source) e revision now

pub accepted_mark-written :
    (t : Tables) (e : Envelope) (revision now : ℕ) (source : ObservationSource) (u : Text)
    (generation : ℕ)
    → accepted_mark t u generation ≤ accepted_mark (written t e revision now source) u generation
unfolding write_bootstrap_grant raise_validation_mark accepted_mark validation_mark
accepted_mark-written t e revision now source u generation =
    accepted_mark-raise t e revision now u generation

pub written-IsMarked :
    (t : Tables) (e : Envelope) (revision now : ℕ) (source : ObservationSource)
    → IsMarked t
    → IsMarked (written t e revision now source)
unfolding write_bootstrap_grant raise_validation_mark new_grant updated_grant
written-IsMarked t e revision now source marked =
    let after = written t e revision now source in
    let own =
      accepted_mark-raise_self (write_bootstrap_grant t e revision now source) e revision now in
    upsert-All
      (λ row.
        row.grant.server_consumed_quantity_milli
        ≤ accepted_mark after row.grant.allocation_uuid row.grant.rights_generation)
      (is_grant e.allocation_uuid)
      (record { grant = new_grant e revision now; observation_source = source })
      (λ old. record {
        grant = updated_grant e revision now old.grant;
        observation_source = source;
      })
      t.grants own
      (λ row named.
        subst (λ u. e.consumed_quantity_milli ≤ accepted_mark after u e.rights_generation)
          (sym ((text_eq_iff row.grant.allocation_uuid e.allocation_uuid).0 named)) own)
      (IsMarked-le t after t.grants (accepted_mark-written t e revision now source) marked)
