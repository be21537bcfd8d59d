-- ===== src/Stock/Journal.antt =====
-- The reads of the consumption journal and of the grants
-- (src/main/repositories/stockAllocation.repository.ts), and the chain that the journal extends.
use pos_desktop.Prelude.{
  ℕ, ◌≤◌, ◌<◌, ◌≡◌, refl, ap, ◌∙◌, subst, max, Bool, true, false, ◌&&◌, ◌||◌, Option, none, some,
  List, [], ◌∷◌, ◌++◌, map, filter, any, length, ltb, ◌==◌, if◌then◌else◌, Result, ok, err, arith,
  All, All-map, Bool-cases, inl, inr, lt→ltb, and_true, filter-All_back,
}
use pos_desktop.Prelude.Text.{Text, text_eq, text_eq_refl, text_after}
use pos_desktop.Prelude.Sorting.{insert_by, sort_by}
use pos_desktop.Stock.{AllocationOwner}
use pos_desktop.Stock.Tables.{StoredGrant, Consumption, Tables}
use pos_desktop.Stock.Spendable.{
  is_active, is_unavailable, current_revision, is_current, is_of_generation,
  next_consumption_sequence, greatest, NewConsumption, new_consumption, insert_consumption,
}
use pos_desktop.Stock.Balances.{insert_consumption-some}

-- The rows of a rights generation of a grant.
unfoldable is_entry : Text → ℕ → Consumption → Bool
unfolding text_eq is_of_generation
is_entry uuid generation row =
    text_eq row.allocation_uuid uuid && is_of_generation generation row.rights_generation

unfoldable pub journal_entries_for : Tables → Text → ℕ → List Consumption
unfolding is_entry sort_by
journal_entries_for t uuid generation =
    sort_by (λ (a : Consumption) b. ltb b.consumption_sequence a.consumption_sequence)
      (filter (is_entry uuid generation) t.consumptions)

-- The error that is thrown.
pub data JournalFault : Type 0 where
  no_chain_hash : JournalFault

abbrev chain_hash_of : List Consumption → Result JournalFault (Option Text)
chain_hash_of [] = ok none
chain_hash_of (row ∷ rows) = elim row.chain_hash [
  | none ↦ err no_chain_hash
  | some hash ↦ ok (some hash)
]

-- `ORDER BY consumption_sequence DESC LIMIT 1`
abbrev is_older : Consumption → Consumption → Bool
is_older a b = ltb a.consumption_sequence b.consumption_sequence

unfoldable pub latest_journal_chain_hash : Tables → Text → ℕ → Result JournalFault (Option Text)
unfolding is_entry sort_by
latest_journal_chain_hash t uuid generation =
    chain_hash_of (sort_by is_older (filter (is_entry uuid generation) t.consumptions))

unfoldable pub consumptions_for_invoice : Tables → Text → List Consumption
unfolding text_eq text_after sort_by
consumptions_for_invoice t invoice =
    sort_by
      (λ (a : Consumption) b.
        text_after a.item_local_uuid b.item_local_uuid
        || text_eq a.item_local_uuid b.item_local_uuid
          && (ltb b.consumption_sequence a.consumption_sequence
              || a.consumption_sequence == b.consumption_sequence
                && text_after a.allocation_uuid b.allocation_uuid))
      (filter (λ (row : Consumption). text_eq row.invoice_local_uuid invoice) t.consumptions)

-- `SELECT DISTINCT`
abbrev distinct : List Text → List Text
distinct [] = []
distinct (x ∷ xs) = let rest = distinct xs in if any (text_eq x) rest then rest else x ∷ rest

unfoldable pub preparable_product_uuids : Tables → AllocationOwner → List Text
unfolding text_eq text_after sort_by
preparable_product_uuids t owner = sort_by text_after (
    distinct (
      map (λ (row : StoredGrant). row.grant.product_uuid)
        (filter
          (λ (row : StoredGrant).
            text_eq row.grant.company_uuid owner.company_uuid
            && text_eq row.grant.device_uuid owner.device_uuid
            && text_eq row.grant.warehouse_uuid owner.warehouse_uuid)
          t.grants)))

pub record Diagnostics : Type 0 where
  present : Bool
  revision : Option ℕ
  total : ℕ
  usable : ℕ

abbrev is_counted : Option ℕ → ℕ → StoredGrant → Bool
is_counted revision now row =
    is_active row.grant.status
    && ltb now row.grant.consume_until
    && row.grant.server_consumed_quantity_milli == 0
    && is_current revision row.grant.last_observed_revision

unfoldable pub diagnostics : Tables → ℕ → Diagnostics
unfolding is_unavailable current_revision is_current
diagnostics t now = record {
  present = elim t.capability [ none ↦ false | some c ↦ c.supported ];
  revision = current_revision t.capability;
  total = length t.grants;
  usable =
      if is_unavailable t.capability
      then 0
      else length (filter (is_counted (current_revision t.capability) now) t.grants);
}

goes_behind :
    (row new : Consumption) (rest : List Consumption)
    → is_older row new ≡ true
    → insert_by is_older row (new ∷ rest) ≡ new ∷ insert_by is_older row rest
unfolding insert_by
goes_behind row new rest e = rw e refl

-- A row with a greater sequence than all others comes first.
newest_first :
    (p : Consumption → Bool) (new : Consumption) (rows : List Consumption)
    → p new ≡ true
    → All (λ row. p row ≡ true → row.consumption_sequence < new.consumption_sequence) rows
    → (rest : List Consumption) × (sort_by is_older (filter p (rows ++ (new ∷ []))) ≡ new ∷ rest)
unfolding sort_by
newest_first p new [] named h = ([], rw named refl)
newest_first p new (row ∷ rows) named (first, h) =
    let (rest, sorted) = newest_first p new rows named h in
    elim (Bool-cases (p row)) [
      | inl mine ↦ (
        insert_by is_older row rest,
        rw mine (
            ap (insert_by is_older row) sorted
            ∙ goes_behind row new rest (lt→ltb _ _ (first mine))),
      )
      | inr other ↦ (rest, rw other sorted)
    ]

greatest-All :
    (n : ℕ) (rows : List Consumption)
    → (n ≤ greatest n rows) × All (λ row. row.consumption_sequence ≤ greatest n rows) rows
greatest-All n [] = (omega arith, tt)
greatest-All n (row ∷ rows) =
    let (le, h) = greatest-All (max n row.consumption_sequence) rows in
    (omega (arith, le), (omega (arith, le), h))

-- The rows of a grant are below its next sequence.
below_next :
    (t : Tables) (uuid : Text)
    → All
        (λ row.
          text_eq row.allocation_uuid uuid ≡ true
          → row.consumption_sequence < next_consumption_sequence t uuid)
        t.consumptions
unfolding next_consumption_sequence
below_next t uuid =
    filter-All_back (λ (row : Consumption). row.consumption_sequence < _)
      (λ (row : Consumption). text_eq row.allocation_uuid uuid) t.consumptions
      (All-map (λ (row : Consumption) le. omega (arith, le))
        (filter (λ (row : Consumption). text_eq row.allocation_uuid uuid) t.consumptions)
        ((greatest-All 0
          (filter (λ (row : Consumption). text_eq row.allocation_uuid uuid) t.consumptions)).1))

-- A consumption that is inserted at the next sequence of its grant or above it is the one that the
-- journal of its rights generation goes on from.
pub latest_journal_chain_hash-insert_consumption :
    (t t' : Tables) (c : NewConsumption)
    → insert_consumption t c ≡ some t'
    → next_consumption_sequence t c.allocation_uuid ≤ c.consumption_sequence
    → latest_journal_chain_hash t' c.allocation_uuid c.rights_generation ≡ ok (some c.chain_hash)
unfolding latest_journal_chain_hash is_entry new_consumption is_of_generation
latest_journal_chain_hash-insert_consumption t t' c inserted above =
    subst
      (λ (s : Tables).
        latest_journal_chain_hash s c.allocation_uuid c.rights_generation ≡ ok (some c.chain_hash))
      (insert_consumption-some t t' c inserted)
      (ap chain_hash_of (
        (newest_first (is_entry c.allocation_uuid c.rights_generation) (new_consumption c)
          t.consumptions own
          (All-map (λ row below mine. omega (arith, above, below (names row mine))) t.consumptions
            (below_next t c.allocation_uuid))).1))
  where
    own : is_entry c.allocation_uuid c.rights_generation (new_consumption c) ≡ true
    own = rw (text_eq_refl c.allocation_uuid) (ground arith)

    names :
        (row : Consumption)
        → is_entry c.allocation_uuid c.rights_generation row ≡ true
        → text_eq row.allocation_uuid c.allocation_uuid ≡ true
    names row h =
        (and_true (text_eq row.allocation_uuid c.allocation_uuid)
          (is_of_generation c.rights_generation row.rights_generation) h).0
