-- ===== src/CartStore/Actions/Tests.antt =====
-- Runs of the draft store, and the theorems at such runs.
use pos_desktop.Prelude.{
  ◌≡◌, refl, ◌≢◌, inr, ◌⊎◌, Bool, true, false, none, some, List, [], ◌∷◌, map, ltb,
}
use pos_desktop.Prelude.Int.{pos}
use pos_desktop.Prelude.Number.{Number, whole}
use pos_desktop.Prelude.Text.{Text, codes}
use pos_desktop.Catalog.{CatalogContract, CatalogProduct, exclusive, per_line}
use pos_desktop.CartStore.{
  candidate, CartLineSnapshot, Store, calculation, fresh_store, reject, CartErrorCode,
}
use pos_desktop.CartStore.Parking.{
  capture_context, is_current_context, recall_draft, hold_draft, parked, is_outdated,
}
use pos_desktop.CartStore.Actions.{
  Action, adds, sets_quantity, edits, sets_contract, locks, holds, recalls, edit, step, run,
}
use pos_desktop.CartStore.Actions.Kept.{edit-refused}
use pos_desktop.CartStore.Actions.Consistent.{IsConsistent}
use pos_desktop.CartStore.Actions.Preserved.{run_fresh-IsConsistent}
use pos_desktop.CartStore.Actions.Progress.{SameDraft, SameCatalog}
use pos_desktop.CartStore.Actions.Context.{is_current_context-run}
use pos_desktop.CartStore.Actions.Held.{IsBack, hold_draft-recall_draft}
use pos_desktop.CartStore.Actions.Locked.{Frozen, run-Frozen}

abbrev later : Text → Text → Bool
later [] t = false
later (c ∷ s) [] = true
later (c ∷ s) (d ∷ t) = ltb d c

abbrev contract : Text → CatalogContract
contract revision = record {
  revision = revision;
  currency = codes "SAR";
  minimum_quantity = codes "0.001";
  maximum_quantity = codes "999.999";
  maximum_unit_price = 1_000_000;
  maximum_line_total = 1_000_000_000;
  maximum_invoice_total = 1_000_000_000;
  mixed_tax_mode_policy = per_line;
  offers = none;
}

abbrev tea : CatalogProduct
tea = record {
  uuid = codes "p1";
  name = codes "Tea";
  track_stock = false;
  price = record { amount = 250; currency = codes "SAR"; revision = codes "r" };
  tax = record { id = none; mode = exclusive; rate_basis_points = 1500; revision = codes "t" };
  image = some (codes "x");
}

abbrev one : Number
one = whole (pos 1000)

abbrev add_tea : Text → Action
add_tea id = edits (adds tea one none id 5)

-- Two of one product are one line.
abbrev opened : Store
opened =
    run later (fresh_store (codes "s"))
      (sets_contract (contract (codes "a")) 1 ∷ add_tea (codes "x") ∷ add_tea (codes "y") ∷ [])

opened_lines : map CartLineSnapshot.quantity opened.lines ≡ codes "2.000" ∷ []
unfolding run fresh_store
opened_lines = refl

-- 2 at 2.50 and 15 percent.
opened_total : calculation opened.cart_state ≢ none
unfolding run fresh_store
opened_total = λ e. cc (e)

-- Another revision blocks the draft, and its first line's removal empties it.
abbrev outdated : List Action
outdated = sets_contract (contract (codes "b")) 6 ∷ add_tea (codes "z") ∷ []

outdated_changed : (run later opened outdated).catalog_changed ≡ true
unfolding run fresh_store
outdated_changed = refl

run_fresh-IsConsistent_example : IsConsistent later (
    run later (fresh_store (codes "s")) (
      sets_contract (contract (codes "a")) 1
      ∷ add_tea (codes "x")
      ∷ holds none (codes "h") (codes "s2") 7
      ∷ recalls (codes "h") (codes "s3") 8
      ∷ []))
run_fresh-IsConsistent_example = run_fresh-IsConsistent later (codes "s") (
    sets_contract (contract (codes "a")) 1
    ∷ add_tea (codes "x")
    ∷ holds none (codes "h") (codes "s2") 7
    ∷ recalls (codes "h") (codes "s3") 8
    ∷ [])

-- A refused sale leaves the token current.
is_current_context-run_example :
    SameDraft opened (run later opened (locks true ∷ add_tea (codes "z") ∷ []))
    × SameCatalog opened.contract
        (run later opened (locks true ∷ add_tea (codes "z") ∷ [])).contract
    × ((run later opened (locks true ∷ add_tea (codes "z") ∷ [])).context_generation
        ≡ opened.context_generation)
unfolding run fresh_store capture_context is_current_context
is_current_context-run_example =
    is_current_context-run later opened (locks true ∷ add_tea (codes "z") ∷ []) refl

run-Frozen_example :
    Frozen false
      (step later opened (locks true))
      (run later (step later opened (locks true)) (add_tea (codes "z") ∷ locks true ∷ []))
unfolding step
run-Frozen_example =
    run-Frozen later (step later opened (locks true)) (add_tea (codes "z") ∷ locks true ∷ []) refl
      refl

edit-refused_example :
    ((edit later opened (sets_quantity (codes "q") (codes "3") 9)).0 ≡ opened)
    ⊎ ((code : CartErrorCode) × ((edit later opened (sets_quantity (codes "q") (codes "3") 9)).0
          ≡ reject opened code))
unfolding run fresh_store edit
edit-refused_example = edit-refused later opened (sets_quantity (codes "q") (codes "3") 9) refl

hold_draft-recall_draft_example : IsBack later opened (parked opened none (codes "h") 7) (
    recall_draft later
      (hold_draft opened none (codes "h") (codes "s2") 7).0
      (codes "h")
      (codes "s3")
      8)
unfolding run fresh_store candidate is_outdated
hold_draft-recall_draft_example =
    hold_draft-recall_draft later opened none (codes "h") (codes "s2") (codes "s3") 7 8 refl refl
      refl refl (inr refl)
