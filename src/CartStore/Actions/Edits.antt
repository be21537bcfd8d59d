-- ===== src/CartStore/Actions/Edits.antt =====
-- The outcomes of the edits of a current draft (src/renderer/src/modules/pos/cart.store.ts).
use pos_desktop.Prelude.{
  ℕ, ◌≤◌, ◌≡◌, refl, sym, ◌∙◌, subst, Bool, false, not, Option, some, List, [], ◌∷◌, ◌++◌, map, leb,
  ◌==◌, arith, length, All, any, filter, find, length-filter, if_cases, option_cases, result_cases,
  All-filter, some-inj,
}
use pos_desktop.Prelude.Number.{Number, safe_natural}
use pos_desktop.Prelude.Text.{Text, text_eq}
use pos_desktop.Catalog.{CatalogContract, CatalogProduct}
use pos_desktop.Pricing.Types.{DiscountType}
use pos_desktop.Pricing.Quantity.{add_quantity, format_quantity}
use pos_desktop.CartStore.{
  CartLineSnapshot, Store, checkout_max_lines, merge_key, commit, candidate,
}
use pos_desktop.CartStore.Editing.{
  commit_lines, replace_quantity, replace_discount, new_line, is_for, is_other_revision,
  is_positive, is_present, same_offers, add_under, change_under, set_under, put_product,
  add_product, change_quantity, set_quantity, with_discount, set_line_discount,
  set_invoice_discount, leave_lines, remove, reprice_offers, can_edit,
}
use pos_desktop.CartStore.Actions.Outcomes.{
  IsSnapshot, Derived, Outcome, ignored, rejected, cleared, trimmed, commit-Outcome,
  with_catalog-Outcome,
}
use pos_desktop.CartStore.Actions.Derivations.{
  map-Derived, replace_quantity-IsUnder, replace_discount-IsUnder, new_line-Derived, filter-Derived,
  idle_for, busy_same, others, editable_same,
}

module _ (locale_after : Text → Text → Bool) where
  commit_lines-Outcome :
      (s : Store) (next : List CartLineSnapshot) (now : ℕ)
      → s.catalog_changed ≡ false
      → ((contract : CatalogContract) → s.contract ≡ some contract → Derived contract s.lines next)
      → Outcome locale_after s (commit_lines locale_after s next now)
  commit_lines-Outcome s next now =
      commit-Outcome locale_after s next s.invoice_discount_type s.invoice_discount_value now

  put_product-Outcome :
      (s : Store) (product : CatalogProduct) (quantity : Number) (contract : CatalogContract)
      (id : Text) (now : ℕ)
      → s.catalog_changed ≡ false
      → s.contract ≡ some contract
      → Outcome locale_after s (put_product locale_after s product quantity contract id now)
  unfolding put_product
  put_product-Outcome s product quantity contract id now same present =
      option_cases (Outcome locale_after s)
        (find (is_for (merge_key product contract.revision)) s.lines)
        (λ absent.
          if_cases (Outcome locale_after s) (leb checkout_max_lines (length s.lines))
            (λ full. rejected _ refl)
            λ room.
              result_cases (Outcome locale_after s) (format_quantity quantity)
                (λ code e. rejected _ refl)
                λ initial e.
                  commit_lines-Outcome s
                    (s.lines
                      ++ (new_line id (merge_key product contract.revision) contract product initial
                          ∷ []))
                    now same
                    λ c p.
                      subst
                        (λ d. Derived d s.lines (
                          s.lines
                          ++ (new_line id (merge_key product contract.revision) contract product
                                initial
                              ∷ [])))
                        (some-inj (sym present ∙ p))
                        (new_line-Derived contract id initial product s.lines room))
        λ (existing : CartLineSnapshot) found.
          result_cases (Outcome locale_after s) (add_quantity existing.quantity quantity contract)
            (λ code e. rejected _ refl)
            λ next e.
              commit_lines-Outcome s (map (replace_quantity existing.id next) s.lines) now same
                λ c p.
                  map-Derived c (replace_quantity existing.id next)
                    (replace_quantity-IsUnder c existing.id next) s.lines

  pub add_product-Outcome :
      (s : Store) (product : CatalogProduct) (quantity : Number) (read_under : Option Text)
      (id : Text) (now : ℕ)
      → Outcome locale_after s (add_product locale_after s product quantity read_under id now)
  unfolding add_product add_under
  add_product-Outcome s product quantity read_under id now =
      with_catalog-Outcome locale_after s
        (add_under locale_after s product quantity read_under id now)
        λ contract present same.
          if_cases (Outcome locale_after s) (is_other_revision read_under contract.revision)
            (λ other. rejected _ refl)
            λ read.
              if_cases (Outcome locale_after s)
                (not (text_eq product.price.currency contract.currency)) (λ mixed. rejected _ refl)
                λ currency.
                  if_cases (Outcome locale_after s) (not (is_positive (safe_natural quantity)))
                    (λ bad. rejected _ refl)
                    λ positive. put_product-Outcome s product quantity contract id now same present

  pub change_quantity-Outcome :
      (s : Store) (id : Text) (delta : Number) (now : ℕ)
      → Outcome locale_after s (change_quantity locale_after s id delta now)
  unfolding change_quantity change_under
  change_quantity-Outcome s id delta now =
      with_catalog-Outcome locale_after s (change_under locale_after s id delta now)
        λ contract present same.
          option_cases (Outcome locale_after s)
            (find (λ (line : CartLineSnapshot). text_eq line.id id) s.lines)
            (λ absent. rejected _ refl)
            λ (current : CartLineSnapshot) found.
              result_cases (Outcome locale_after s) (add_quantity current.quantity delta contract)
                (λ code e. rejected _ refl)
                λ next e.
                  commit_lines-Outcome s (map (replace_quantity id next) s.lines) now same λ c p.
                    map-Derived c (replace_quantity id next) (replace_quantity-IsUnder c id next)
                      s.lines

  pub set_quantity-Outcome :
      (s : Store) (id quantity : Text) (now : ℕ)
      → Outcome locale_after s (set_quantity locale_after s id quantity now)
  unfolding set_quantity set_under
  set_quantity-Outcome s id quantity now =
      with_catalog-Outcome locale_after s (set_under locale_after s id quantity now)
        λ contract present same.
          if_cases (Outcome locale_after s)
            (any (λ (line : CartLineSnapshot). text_eq line.id id) s.lines)
            (λ known.
              commit_lines-Outcome s (map (replace_quantity id quantity) s.lines) now same λ c p.
                map-Derived c (replace_quantity id quantity)
                  (replace_quantity-IsUnder c id quantity) s.lines)
            (λ unknown. rejected _ refl)

  with_discount-Outcome :
      (s : Store) (value : Number) (rest : Store × Bool)
      → (s.catalog_changed ≡ false → Outcome locale_after s rest)
      → Outcome locale_after s (with_discount s value rest)
  unfolding with_discount
  with_discount-Outcome s value rest go =
      if_cases (Outcome locale_after s) s.locked (λ locked. rejected _ refl)
        λ free.
          if_cases (Outcome locale_after s) (not (can_edit s)) (λ closed. rejected _ refl)
            λ open_.
              if_cases (Outcome locale_after s) (is_present (safe_natural value))
                (λ fine. go (editable_same s open_)) (λ bad. rejected _ refl)

  pub set_line_discount-Outcome :
      (s : Store) (id : Text) (type : DiscountType) (value : Number) (now : ℕ)
      → Outcome locale_after s (set_line_discount locale_after s id type value now)
  unfolding set_line_discount
  set_line_discount-Outcome s id type value now =
      with_discount-Outcome s value
        (commit_lines locale_after s (map (replace_discount id type value) s.lines) now)
        λ same.
          commit_lines-Outcome s (map (replace_discount id type value) s.lines) now same λ c p.
            map-Derived c (replace_discount id type value)
              (replace_discount-IsUnder c id type value) s.lines

  pub set_invoice_discount-Outcome :
      (s : Store) (type : DiscountType) (value : Number) (now : ℕ)
      → Outcome locale_after s (set_invoice_discount locale_after s type value now)
  unfolding set_invoice_discount
  set_invoice_discount-Outcome s type value now =
      with_discount-Outcome s value (commit locale_after s s.lines type value now)
        λ same. commit-Outcome locale_after s s.lines type value now same λ c p. (λ h. h, λ h. h)

  leave_lines-Outcome :
      (s : Store) (next : List CartLineSnapshot) (sale : Text) (now : ℕ)
      → ((contract : CatalogContract) → Derived contract s.lines next)
      → (All IsSnapshot s.lines → All IsSnapshot next)
      → length next ≤ length s.lines
      → Outcome locale_after s (leave_lines locale_after s next sale now)
  unfolding leave_lines
  leave_lines-Outcome s [] sale now derived kept fewer = cleared sale refl
  leave_lines-Outcome s (line ∷ lines) sale now derived kept fewer =
      if_cases (Outcome locale_after s) s.catalog_changed
        (λ changed. trimmed (line ∷ lines) changed (omega arith) fewer kept refl)
        λ same. commit_lines-Outcome s (line ∷ lines) now same λ c p. derived c

  pub remove-Outcome :
      (s : Store) (id sale : Text) (now : ℕ)
      → Outcome locale_after s (remove locale_after s id sale now)
  unfolding remove
  remove-Outcome s id sale now =
      if_cases (Outcome locale_after s) s.locked (λ locked. rejected _ refl)
        λ free.
          if_cases (Outcome locale_after s) (length (filter (others id) s.lines) == length s.lines)
            (λ missing. ignored refl)
            λ found.
              leave_lines-Outcome s (filter (others id) s.lines) sale now
                (λ c. filter-Derived c (others id) s.lines)
                (All-filter IsSnapshot (others id) s.lines) (length-filter (others id) s.lines)

  pub reprice_offers-Outcome :
      (s : Store) (now later : ℕ) → Outcome locale_after s (reprice_offers locale_after s now later)
  unfolding reprice_offers
  reprice_offers-Outcome s now later =
      if_cases (Outcome locale_after s) (idle_for s) (λ idle. ignored refl)
        λ busy.
          if_cases (Outcome locale_after s)
            (same_offers s.applied_offers (
              candidate locale_after s s.lines s.invoice_discount_type s.invoice_discount_value
                now))
            (λ same. ignored refl)
            λ moved.
              commit_lines-Outcome s s.lines later (busy_same s busy) (λ c p. (λ h. h, λ h. h))
