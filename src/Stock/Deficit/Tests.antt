-- ===== src/Stock/Deficit/Tests.antt =====
-- Deficits and the journal at concrete tables.
use pos_desktop.Prelude.{◌≡◌, ◌↔◌, refl, sym, false, some, List, [], ◌∷◌, ok}
use pos_desktop.Prelude.Text.{Text, codes, text_eq}
use pos_desktop.Stock.Split.{Split}
use pos_desktop.Stock.Spendable.{
  insert_consumption, next_consumption_sequence, is_unavailable, NewConsumption, split_for_product,
}
use pos_desktop.Stock.Snapshots.{receive_all}
use pos_desktop.Stock.Deficit.{
  TrackedDemandLine, deficit, calculate_allocation_deficits, usable_milli_by_product, covered,
}
use pos_desktop.Stock.Shortage.{MakesUp, calculate_allocation_deficits-MakesUp}
use pos_desktop.Stock.Agreement.{identity, wanted_of, covered-split_for_product}
use pos_desktop.Prelude.Sorting.{DistinctBy}
use pos_desktop.Stock.Fixtures.{stocked, owner, uuid, apart, consumption, tables_or}
use pos_desktop.Stock.Journal.{
  latest_journal_chain_hash, latest_journal_chain_hash-insert_consumption,
}
use native.Mathlib.Omega.{arith}

abbrev lines : List TrackedDemandLine
lines =
    record { line_id = codes "1"; product_uuid = codes "p"; required_milli = 3000 }
    ∷ record { line_id = codes "2"; product_uuid = codes "p"; required_milli = 1000 }
    ∷ []

-- 3.5 of the 4 that the lines need can be spent.
lines_deficit :
    calculate_allocation_deficits (λ s. s) lines ((codes "p", 3500) ∷ [])
    ≡ deficit
        (record {
          product_uuid = codes "p";
          required_milli = 4000;
          usable_milli = 3500;
          deficit_milli = 500;
        }
          ∷ [])
        (codes "1" ∷ codes "2" ∷ [])
unfolding calculate_allocation_deficits text_eq
lines_deficit = refl

calculate_allocation_deficits-MakesUp_example :
    MakesUp
      (λ s. s)
      lines
      ((codes "p", 3500) ∷ [])
      (calculate_allocation_deficits (λ s. s) lines ((codes "p", 3500) ∷ []))
calculate_allocation_deficits-MakesUp_example =
    calculate_allocation_deficits-MakesUp (λ s. s) lines ((codes "p", 3500) ∷ [])

-- All that can be spent is needed.
abbrev whole_lines : List TrackedDemandLine
whole_lines =
    record { line_id = codes "1"; product_uuid = codes "p"; required_milli = 2000 }
    ∷ record { line_id = codes "2"; product_uuid = codes "p"; required_milli = 1500 }
    ∷ []

whole_lines_covered :
    calculate_allocation_deficits
      (λ s. s)
      whole_lines
      (usable_milli_by_product (λ s. s) stocked owner 20 whole_lines [])
    ≡ covered
unfolding receive_all calculate_allocation_deficits usable_milli_by_product text_eq
whole_lines_covered = refl

stocked-DistinctBy : DistinctBy identity stocked.grants
unfolding receive_all
stocked-DistinctBy = (((λ e. apart (sym e)), tt), (tt, tt))

covered-split_for_product_example :
    (calculate_allocation_deficits
        (λ s. s)
        whole_lines
        (usable_milli_by_product (λ s. s) stocked owner 20 whole_lines [])
      ≡ covered)
    ↔ ((p : Text)
        → (split : Split) × (split_for_product uuid stocked owner p
              (wanted_of p whole_lines)
              20
              false
            ≡ ok split))
unfolding receive_all is_unavailable
covered-split_for_product_example =
    covered-split_for_product (λ s. s) uuid stocked owner 20 whole_lines stocked-DistinctBy refl
      (refl, (refl, tt))

abbrev next : NewConsumption
next = record (consumption (codes "b") 1 0 1000) { chain_hash = codes "x" }

latest_journal_chain_hash-insert_consumption_example :
    latest_journal_chain_hash (tables_or stocked (insert_consumption stocked next)) (codes "b") 1
    ≡ ok (some (codes "x"))
unfolding receive_all insert_consumption next_consumption_sequence
latest_journal_chain_hash-insert_consumption_example =
    latest_journal_chain_hash-insert_consumption stocked
      (tables_or stocked (insert_consumption stocked next)) next refl (omega arith)
