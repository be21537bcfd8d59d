-- ===== src/Stock/Updating.antt =====
-- Calls that change rows in place, add a row, or leave the grants and the marks as they are
-- (src/main/repositories/stockAllocation.repository.ts).
use pos_desktop.Prelude.{
  ℕ, ◌≤◌, ◌≡◌, refl, subst, inl, Bool, true, not, ◌&&◌, List, [], ◌∷◌, ◌++◌, length, filter, leb,
  ◌==◌, ok, refuse_if, arith, on_ok, ok-inj, All, All-append, if_cases, option_cases,
}
use pos_desktop.Stock.Tables.{StoredGrant, Tables, is_grant, find_grant_by_uuid}
use pos_desktop.Stock.Ingest.{stale_recovery, validation_mark}
use pos_desktop.Stock.Lifecycle.{
  RecoveryObservation, is_observed, observed_row, update_rows, observe_recovery_lifecycle, NewGrant,
  local_grant, upsert_grant,
}
use pos_desktop.Stock.Marks.{Later, Later-refl, Grows, accepted_mark, Advances-refl, IsMarked}
use pos_desktop.Stock.Accepting.{Accepted}

module _ (t : Tables) (p : StoredGrant → Bool) (change : StoredGrant → StoredGrant) where
  -- Changed rows that are the same grants later.
  pub update_rows-Grows :
      (rows : List StoredGrant)
      → ((row : StoredGrant) → p row ≡ true → Later t row (change row))
      → Grows t rows (update_rows p change rows)
  update_rows-Grows [] h = tt
  update_rows-Grows (row ∷ rows) h = (
    if_cases (Later t row) (p row) (λ mine. h row mine) (λ other. Later-refl t row),
    update_rows-Grows rows h,
  )

  pub update_rows-All :
      (P : StoredGrant → Type 0) (rows : List StoredGrant)
      → ((row : StoredGrant) → P row → P (change row))
      → All P rows
      → All P (update_rows p change rows)
  update_rows-All P [] kept h = tt
  update_rows-All P (row ∷ rows) kept h =
      (if_cases P (p row) (λ mine. kept row h.0) (λ other. h.0), update_rows-All P rows kept h.1)

-- A row's consumption is marked.
abbrev pub RowMarked : Tables → StoredGrant → Type 0
RowMarked t row =
    row.grant.server_consumed_quantity_milli
    ≤ accepted_mark t row.grant.allocation_uuid row.grant.rights_generation

-- Rows that change in place, with the marks as they were.
pub update_rows-Accepted :
    (t : Tables) (p : StoredGrant → Bool) (change : StoredGrant → StoredGrant)
    → ((row : StoredGrant) → p row ≡ true → Later t row (change row))
    → ((row : StoredGrant) → RowMarked t row → RowMarked t (change row))
    → IsMarked t
    → Accepted t (record t { grants = update_rows p change t.grants })
unfolding accepted_mark validation_mark
update_rows-Accepted t p change later kept marked = (
  record {
    grows = update_rows-Grows t p change t.grants later;
    accepted = λ u generation. omega arith;
  },
  update_rows-All t p change (RowMarked t) t.grants kept marked,
)

Grows-append : (t : Tables) (rows more : List StoredGrant) → Grows t rows (rows ++ more)
Grows-append t [] more = tt
Grows-append t (row ∷ rows) more = (Later-refl t row, Grows-append t rows more)

observed-Later :
    (t : Tables) (o : RecoveryObservation) (row : StoredGrant)
    → is_observed o row ≡ true
    → Later t row (observed_row o row)
unfolding is_observed observed_row
observed-Later t o row h = (
  refl,
  refl,
  refl,
  refl,
  refl,
  refl,
  refl,
  last (is_grant o.allocation_uuid row) (row.grant.rights_generation == o.rights_generation)
      row.grant.lifecycle_generation o.lifecycle_generation h,
  inl (refl, refl),
)
  where
    last : (a b : Bool) (n m : ℕ) → (a && b && leb n m) ≡ true → n ≤ m
    last a b n m h = ground arith

pub observe_recovery_lifecycle-Accepted :
    (t t' : Tables) (o : RecoveryObservation)
    → observe_recovery_lifecycle t o ≡ ok t'
    → IsMarked t
    → Accepted t t'
unfolding observe_recovery_lifecycle
observe_recovery_lifecycle-Accepted t t' o h marked =
    on_ok (refuse_if (not (length (filter (is_observed o) t.grants) == 1)) stale_recovery) _ h
      λ u e found. subst (Accepted t) (ok-inj found) (
        update_rows-Accepted t (is_observed o) (observed_row o) (observed-Later t o)
          (λ row k. observed-RowMarked t o row k) marked)
  where
    observed-RowMarked :
        (t : Tables) (o : RecoveryObservation) (row : StoredGrant)
        → RowMarked t row
        → RowMarked t (observed_row o row)
    observed-RowMarked t o row k = k

pub upsert_grant-Accepted : (t : Tables) (g : NewGrant) → IsMarked t → Accepted t (upsert_grant t g)
unfolding upsert_grant accepted_mark validation_mark local_grant
upsert_grant-Accepted t g marked =
    option_cases (λ (s : Tables). Accepted t s) (find_grant_by_uuid t g.allocation_uuid)
      (λ absent. (
        record { grows = Grows-append t t.grants _; accepted = λ u generation. omega arith },
        All-append (RowMarked t) t.grants _ marked (omega arith, tt),
      ))
      (λ (row : StoredGrant) found. (Advances-refl t, marked))
