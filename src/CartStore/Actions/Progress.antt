-- ===== src/CartStore/Actions/Progress.antt =====
-- The counters of the draft store and what stays while one stands still
-- (src/renderer/src/modules/pos/cart.store.ts).
use pos_desktop.Prelude.{
  ◌+◌, ◌≤◌, ◌≡◌, refl, sym, ◌∙◌, subst, false, Option, none, some, arith, not-false,
}
use pos_desktop.Prelude.Text.{text_eq_iff}
use pos_desktop.Prelude.Dict.{Dict}
use pos_desktop.Catalog.{CatalogContract}
use pos_desktop.Offers.{AppliedOffer}
use pos_desktop.CartStore.{CartState, empty, valid, invalid, Store}
use pos_desktop.CartStore.Catalogs.{revision_changed, evaluated}

-- The same lines and the same discount of the invoice.
abbrev pub SameDraft : Store → Store → Type 0
SameDraft s t =
    (t.lines ≡ s.lines)
    × (t.invoice_discount_type ≡ s.invoice_discount_type)
    × (t.invoice_discount_value ≡ s.invoice_discount_value)

-- A contract that is installed stays, or gives way to one of its revision.
abbrev pub SameCatalog : Option CatalogContract → Option CatalogContract → Type 0
SameCatalog none later = Unit
SameCatalog (some c) none = ⊥
SameCatalog (some c) (some d) = d.revision ≡ c.revision

-- The counters do not go back, and one that stands still kept what it counts.
pub record Progress (s t : Store) : Type 0 where
  pub context : s.context_generation ≤ t.context_generation
  pub draft : s.draft_revision ≤ t.draft_revision
  pub catalog : s.catalog_generation ≤ t.catalog_generation
  pub same_draft : t.draft_revision ≡ s.draft_revision → SameDraft s t
  pub same_catalog : t.catalog_generation ≡ s.catalog_generation → SameCatalog s.contract t.contract

SameCatalog-refl : (o : Option CatalogContract) → SameCatalog o o
SameCatalog-refl none = tt
SameCatalog-refl (some c) = refl

SameCatalog-trans :
    (a b c : Option CatalogContract) → SameCatalog a b → SameCatalog b c → SameCatalog a c
SameCatalog-trans none b c h k = tt
SameCatalog-trans (some a) none c h k = absurd h
SameCatalog-trans (some a) (some b) none h k = absurd k
SameCatalog-trans (some a) (some b) (some c) h k = k ∙ h

-- A change that leaves the draft and the contract.
pub still :
    (s t : Store)
    → t.context_generation ≡ s.context_generation
    → t.draft_revision ≡ s.draft_revision
    → t.catalog_generation ≡ s.catalog_generation
    → SameDraft s t
    → t.contract ≡ s.contract
    → Progress s t
still s t context draft catalog same kept = record {
  context = omega (arith, context);
  draft = omega (arith, draft);
  catalog = omega (arith, catalog);
  same_draft = λ e. same;
  same_catalog = λ e. subst (SameCatalog s.contract) (sym kept) (SameCatalog-refl s.contract);
}

-- A change that counts up the draft and leaves the contract.
pub moved :
    (s t : Store)
    → s.context_generation ≤ t.context_generation
    → t.draft_revision ≡ s.draft_revision + 1
    → t.catalog_generation ≡ s.catalog_generation
    → t.contract ≡ s.contract
    → Progress s t
moved s t context draft catalog kept = record {
  context = context;
  draft = omega (arith, draft);
  catalog = omega (arith, catalog);
  same_draft = λ e. absurd (omega (arith, draft, e));
  same_catalog = λ e. subst (SameCatalog s.contract) (sym kept) (SameCatalog-refl s.contract);
}

pub Progress-refl : (s : Store) → Progress s s
Progress-refl s = still s s refl refl refl (refl, refl, refl) refl

pub Progress-trans : (s t u : Store) → Progress s t → Progress t u → Progress s u
Progress-trans s t u p q = record {
  context = omega (arith, p.context, q.context);
  draft = omega (arith, p.draft, q.draft);
  catalog = omega (arith, p.catalog, q.catalog);
  same_draft = λ e.
      let (l1, t1, v1) = p.same_draft (omega (arith, p.draft, q.draft, e)) in
      let (l2, t2, v2) = q.same_draft (omega (arith, p.draft, q.draft, e)) in
      (l2 ∙ l1, t2 ∙ t1, v2 ∙ v1);
  same_catalog = λ e.
      SameCatalog-trans s.contract t.contract u.contract
        (p.same_catalog (omega (arith, p.catalog, q.catalog, e)))
        (q.same_catalog (omega (arith, p.catalog, q.catalog, e)));
}

-- A contract installed over another: its revision changed, or it did not.
pub installed_catalog :
    (o : Option CatalogContract) (next : CatalogContract)
    → revision_changed o next ≡ false
    → SameCatalog o (some next)
installed_catalog none next h = tt
installed_catalog (some c) next h = sym ((text_eq_iff c.revision next.revision).0 (not-false _ h))

pub evaluated-Progress :
    (s : Store) (p : CartState × Dict AppliedOffer) → Progress s (evaluated s p)
unfolding evaluated
evaluated-Progress s (empty, offers) = Progress-refl s
evaluated-Progress s (valid totals, offers) = still s _ refl refl refl (refl, refl, refl) refl
evaluated-Progress s (invalid code last, offers) = still s _ refl refl refl (refl, refl, refl) refl
