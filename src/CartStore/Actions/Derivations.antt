-- ===== src/CartStore/Actions/Derivations.antt =====
-- The lines that the edits make from the lines of a draft
-- (src/renderer/src/modules/pos/cart.store.ts).
use pos_desktop.Prelude.{
  ℕ, suc, ◌+◌, ◌≤◌, ◌≡◌, refl, subst, inl, inr, Bool, true, false, not, ◌||◌, some, List, [], ◌∷◌,
  ◌++◌, map, leb, ◌==◌, if◌then◌else◌, arith, length, All, any, filter, All-append, length-append,
  length-map, length-filter, Bool-cases, Option-cases, if_cases, option_cases, All-filter, some-inj,
}
use pos_desktop.Prelude.Number.{Number}
use pos_desktop.Prelude.Text.{Text, text_eq}
use pos_desktop.Prelude.Dict.{Dict, lookup}
use pos_desktop.Catalog.{CatalogContract, CatalogProduct}
use pos_desktop.Pricing.Types.{DiscountType}
use pos_desktop.CartStore.{CartLineSnapshot, Store, checkout_max_lines, merge_key}
use pos_desktop.CartStore.Editing.{
  replace_quantity, replace_discount, new_line, is_present, can_edit,
}
use pos_desktop.CartStore.Catalogs.{replaced, replacement, replacements}
use pos_desktop.CartStore.Actions.Outcomes.{IsUnder, Derived}

-- A change of the lines that keeps the snapshots keeps what is derived from them.
pub map-Derived :
    (contract : CatalogContract) (f : CartLineSnapshot → CartLineSnapshot)
    → ((line : CartLineSnapshot) → IsUnder contract line → IsUnder contract (f line))
    → (lines : List CartLineSnapshot) → Derived contract lines (map f lines)
map-Derived contract f keeps lines = (all lines, omega (arith, length-map f lines))
  where
    all :
        (lines : List CartLineSnapshot)
        → All (IsUnder contract) lines
        → All (IsUnder contract) (map f lines)
    all [] h = tt
    all (line ∷ lines) h = (keeps line h.0, all lines h.1)

pub replace_quantity-IsUnder :
    (contract : CatalogContract) (id quantity : Text) (line : CartLineSnapshot)
    → IsUnder contract line
    → IsUnder contract (replace_quantity id quantity line)
replace_quantity-IsUnder contract id quantity line h = elim (Bool-cases (text_eq line.id id)) [
  | inl found ↦ rw found h
  | inr other ↦ rw other h
]

pub replace_discount-IsUnder :
    (contract : CatalogContract) (id : Text) (type : DiscountType) (value : Number)
    (line : CartLineSnapshot)
    → IsUnder contract line
    → IsUnder contract (replace_discount id type value line)
replace_discount-IsUnder contract id type value line h = elim (Bool-cases (text_eq line.id id)) [
  | inl found ↦ rw found h
  | inr other ↦ rw other h
]

one_more :
    (n : ℕ) {m : ℕ}
    → leb checkout_max_lines n ≡ false
    → m ≡ n + 1
    → n ≤ checkout_max_lines
    → m ≤ checkout_max_lines
one_more n room e h = ground arith

pub new_line-Derived :
    (contract : CatalogContract) (id quantity : Text) (product : CatalogProduct)
    (lines : List CartLineSnapshot)
    → leb checkout_max_lines (length lines) ≡ false
    → Derived contract lines (
        lines ++ (new_line id (merge_key product contract.revision) contract product quantity ∷ []))
unfolding merge_key
new_line-Derived contract id quantity product lines room = (
  λ h. All-append (IsUnder contract) lines _ h ((refl, (refl, refl)), tt),
  one_more (length lines) room (length-append lines _),
)

pub filter-Derived :
    (contract : CatalogContract) (p : CartLineSnapshot → Bool) (lines : List CartLineSnapshot)
    → Derived contract lines (filter p lines)
filter-Derived contract p lines =
    (All-filter (IsUnder contract) p lines, omega (arith, length-filter p lines))

abbrev pub idle_for : Store → Bool
idle_for s = s.locked || length s.lines == 0 || s.catalog_changed || not (is_present s.contract)

pub busy_same : (s : Store) → idle_for s ≡ false → s.catalog_changed ≡ false
busy_same s h = ground (arith, h)

abbrev pub others : Text → CartLineSnapshot → Bool
others id line = not (text_eq line.id id)

pub editable_same : (s : Store) → not (can_edit s) ≡ false → s.catalog_changed ≡ false
editable_same s h = ground (arith, h)

-- The end of a rebuilding, for the commit of its lines.
abbrev pub unless_committed : Store × Bool → Store × Bool
unless_committed r = if r.1 then r else (record r.0 { catalog_changed = true }, false)

replacement-IsUnder :
    (contract : CatalogContract) (line : CartLineSnapshot) (product : CatalogProduct)
    → IsUnder contract (replacement contract line product)
unfolding replacement merge_key
replacement-IsUnder contract line product = (refl, (refl, refl))

replaced-IsUnder :
    (contract : CatalogContract) (known : Dict CatalogProduct) (line next : CartLineSnapshot)
    → replaced contract known line ≡ some next
    → IsUnder contract next
unfolding replaced
replaced-IsUnder contract known line next =
    option_cases (λ r. r ≡ some next → IsUnder contract next) (lookup line.product.uuid known)
      (λ absent h. cc)
      λ (product : CatalogProduct) found.
        if_cases (λ r. r ≡ some next → IsUnder contract next)
          (not (text_eq product.price.currency contract.currency)) (λ mixed h. cc)
          λ same h.
            subst (IsUnder contract) (some-inj h) (replacement-IsUnder contract line product)

pub replacements-IsUnder :
    (contract : CatalogContract) (known : Dict CatalogProduct) (dropped : List Text)
    (lines next : List CartLineSnapshot)
    → replacements contract known dropped lines ≡ some next
    → All (IsUnder contract) next × (length next ≤ length lines)
unfolding replacements
replacements-IsUnder contract known dropped [] next h =
    subst (λ xs. All (IsUnder contract) xs × (length xs ≤ 0)) (some-inj h) (tt, omega arith)
replacements-IsUnder contract known dropped (line ∷ lines) next h =
    elim (Bool-cases (any (text_eq line.id) dropped)) [
      | inl gone ↦
          let (under, fewer) =
            replacements-IsUnder contract known dropped lines next (rw gone at h) in
          (under, omega arith)
      | inr stays ↦ elim (Option-cases (replaced contract known line)) [
        | inl absent ↦ cc (rw (stays, absent) at h)
        | inr (first, made) ↦ elim (Option-cases (replacements contract known dropped lines)) [
          | inl absent ↦ cc (rw (stays, made, absent) at h)
          | inr (others, rest) ↦
              let e : some (first ∷ others) ≡ some next = rw (stays, made, rest) at h in
              let (under, fewer) = replacements-IsUnder contract known dropped lines others rest in
              subst (λ xs. All (IsUnder contract) xs × (length xs ≤ suc (length lines)))
                (some-inj e) ((replaced-IsUnder contract known line first made, under), omega arith)
        ]
      ]
    ]
