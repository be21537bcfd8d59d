-- ===== src/Stock/Requests/Tests.antt =====
-- The text that a key is taken from, and two requests of the same demand.
use pos_desktop.Prelude.{ℕ, ◌≡◌, ◌↔◌, refl, [], ◌∷◌, ◌++◌, map}
use pos_desktop.Prelude.Text.{Text, codes, text_after, decimal}
use pos_desktop.Stock.Deficit.{AllocationDeficitItem}
use pos_desktop.Prelude.Json.{quoted, quoted_from, unit_text}
use pos_desktop.Stock.Requests.{key_text, build_top_up_request}
use pos_desktop.Stock.Requests.Keys.{demand_of, idempotency_key_iff}

abbrev item : Text → ℕ → ℕ → AllocationDeficitItem
item product usable missing = record {
  product_uuid = product;
  required_milli = usable;
  usable_milli = usable;
  deficit_milli = missing;
}

key_text_run :
    key_text (codes "k") (item (codes "p") 0 500 ∷ item (codes "q") 1 20 ∷ [])
    ≡ codes "{\"attemptKey\":\"k\",\"items\":[{\"productUuid\":\"p\",\"quantityMilli\":500},"
      ++ codes "{\"productUuid\":\"q\",\"quantityMilli\":20}],"
      ++ codes "\"purpose\":\"desktop-stock-allocation-top-up\",\"version\":1}"
unfolding key_text text_after quoted quoted_from unit_text decimal
key_text_run = refl

-- A quote, a line feed, the unit 1, a lone surrogate and a pair.
quoted_run :
    quoted (34 ∷ 10 ∷ 1 ∷ 55296 ∷ 55357 ∷ 56832 ∷ [])
    ≡ codes "\"\\\"\\n\\u0001\\ud800" ++ 55357 ∷ 56832 ∷ 34 ∷ []
unfolding quoted quoted_from unit_text
quoted_run = refl

idempotency_key_iff_example :
    ((build_top_up_request (λ t. t) (codes "k") (item (codes "p") 0 500 ∷ [])).idempotency_key
      ≡ (build_top_up_request (λ t. t) (codes "k") (item (codes "p") 7 500 ∷ [])).idempotency_key)
    ↔ ((codes "k" ≡ codes "k")
        × (map demand_of (item (codes "p") 0 500 ∷ [])
            ≡ map demand_of (item (codes "p") 7 500 ∷ [])))
idempotency_key_iff_example =
    idempotency_key_iff (λ t. t) (λ s t same. same) (codes "k") (codes "k")
      (item (codes "p") 0 500 ∷ []) (item (codes "p") 7 500 ∷ [])
