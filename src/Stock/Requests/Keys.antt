-- ===== src/Stock/Requests/Keys.antt =====
-- The idempotency key of a top-up names its attempt and its demand (src/main/services/allocationDeficit.ts).
use pos_desktop.Prelude.{
  ℕ, ◌≡◌, ◌↔◌, refl, sym, ap, ◌∙◌, false, List, [], ◌∷◌, ◌++◌, map, drop, arith,
}
use mathlib.Core.List.{append_assoc}
use pos_desktop.Prelude.Text.{Text, codes, decimal, is_digit, text_after}
use pos_desktop.Stock.Deficit.{AllocationDeficitItem}
use pos_desktop.Prelude.Json.{
  Json, array, object, field, end, string, number, stringify, more_items, quoted, quoted_from,
  unit_text,
}
use pos_desktop.Stock.Requests.{
  canonicalize, canonicalize_items, request_items, key_text, build_top_up_request,
}
use pos_desktop.Prelude.Json.Quoting.{quoted-inj, decimal-inj}

-- What a request asks for: its products with their quantities.
abbrev pub demand_of : AllocationDeficitItem → Text × ℕ
demand_of item = (item.product_uuid, item.deficit_milli)

-- The text of an item in front of what follows.
abbrev item_text : Text × ℕ → Text → Text
item_text demand rest =
    codes "{\"productUuid\":"
    ++ (quoted (demand.0) ++ (codes ",\"quantityMilli\":" ++ (decimal (demand.1) ++ (b'}' ∷ rest))))

abbrev more_text : List (Text × ℕ) → Text → Text
more_text [] rest = b']' ∷ rest
more_text (demand ∷ demands) rest = b',' ∷ item_text demand (more_text demands rest)

abbrev list_text : List (Text × ℕ) → Text → Text
list_text [] rest = b']' ∷ rest
list_text (demand ∷ demands) rest = item_text demand (more_text demands rest)

abbrev item_value : AllocationDeficitItem → Json
item_value item = object (
    field (codes "productUuid") (string item.product_uuid)
      (field (codes "quantityMilli") (number item.deficit_milli) end))

stringify-item_text :
    (item : AllocationDeficitItem) (rest : Text)
    → stringify (canonicalize (item_value item)) ++ rest ≡ item_text (demand_of item) rest
unfolding stringify canonicalize text_after quoted quoted_from unit_text
stringify-item_text item rest =
    ap (λ t. codes "{\"productUuid\":" ++ t)
      (append_assoc (quoted item.product_uuid)
          (codes ",\"quantityMilli\":" ++ (decimal item.deficit_milli ++ (b'}' ∷ []))) rest
        ∙ ap (λ t. quoted item.product_uuid ++ (codes ",\"quantityMilli\":" ++ t))
            (append_assoc (decimal item.deficit_milli) (b'}' ∷ []) rest))

more_items-more_text :
    (items : List AllocationDeficitItem) (rest : Text)
    → more_items (canonicalize_items (request_items items)) ++ rest
      ≡ more_text (map demand_of items) rest
unfolding stringify canonicalize
more_items-more_text [] rest = refl
more_items-more_text (item ∷ items) rest =
    ap (λ t. b',' ∷ t)
      (append_assoc (stringify (canonicalize (item_value item)))
          (more_items (canonicalize_items (request_items items))) rest
        ∙ ap (λ t. stringify (canonicalize (item_value item)) ++ t)
            (more_items-more_text items rest)
        ∙ stringify-item_text item (more_text (map demand_of items) rest))

array-list_text :
    (items : List AllocationDeficitItem) (rest : Text)
    → stringify (array (canonicalize_items (request_items items))) ++ rest
      ≡ b'[' ∷ list_text (map demand_of items) rest
unfolding stringify canonicalize
array-list_text [] rest = refl
array-list_text (item ∷ items) rest =
    ap (λ t. b'[' ∷ t)
      (append_assoc (stringify (canonicalize (item_value item)))
          (more_items (canonicalize_items (request_items items))) rest
        ∙ ap (λ t. stringify (canonicalize (item_value item)) ++ t)
            (more_items-more_text items rest)
        ∙ stringify-item_text item (more_text (map demand_of items) rest))

abbrev ending : Text
ending = codes ",\"purpose\":\"desktop-stock-allocation-top-up\",\"version\":1}"

abbrev whole_text : Text → List (Text × ℕ) → Text
whole_text attempt demands =
    codes "{\"attemptKey\":"
    ++ (quoted attempt ++ (codes ",\"items\":[" ++ list_text demands ending))

key_text-whole_text :
    (attempt : Text) (items : List AllocationDeficitItem)
    → key_text attempt items ≡ whole_text attempt (map demand_of items)
unfolding key_text text_after quoted quoted_from unit_text decimal
key_text-whole_text attempt items =
    ap (λ t. codes "{\"attemptKey\":" ++ (quoted attempt ++ (codes ",\"items\":" ++ t)))
      (array-list_text items ending)

item_text-inj : (a b : Text × ℕ) (x y : Text) → item_text a x ≡ item_text b y → (a ≡ b) × (x ≡ y)
item_text-inj a b x y h =
    let (product, behind) = quoted-inj (a.0) (b.0) _ _ (ap (drop {A = ℕ} 15) h) in
    let (quantity, last) =
      decimal-inj (a.1) (b.1) b'}' b'}' x y brace brace (ap (drop {A = ℕ} 17) behind) in
    (cc (product, quantity), ap (drop {A = ℕ} 1) last)
  where
    brace : is_digit b'}' ≡ false
    brace = unfold is_digit in refl

abbrev head_or : ℕ → Text → ℕ
head_or n [] = n
head_or n (c ∷ s) = c

more_text-inj :
    (is js : List (Text × ℕ)) (x y : Text) → more_text is x ≡ more_text js y → (is ≡ js) × (x ≡ y)
more_text-inj [] [] x y h = (refl, ap (drop {A = ℕ} 1) h)
more_text-inj [] (j ∷ js) x y h = absurd (omega (arith, ap (head_or 0) h))
more_text-inj (i ∷ is) [] x y h = absurd (omega (arith, ap (head_or 0) h))
more_text-inj (i ∷ is) (j ∷ js) x y h =
    let (here, behind) =
      item_text-inj i j (more_text is x) (more_text js y) (ap (drop {A = ℕ} 1) h) in
    let (later, rest) = more_text-inj is js x y behind in (cc (here, later), rest)

list_text-inj : (is js : List (Text × ℕ)) (x y : Text) → list_text is x ≡ list_text js y → is ≡ js
list_text-inj [] [] x y h = refl
list_text-inj [] (j ∷ js) x y h = absurd (omega (arith, ap (head_or 0) h))
list_text-inj (i ∷ is) [] x y h = absurd (omega (arith, ap (head_or 0) h))
list_text-inj (i ∷ is) (j ∷ js) x y h =
    let (here, behind) = item_text-inj i j (more_text is x) (more_text js y) h in
    let (later, rest) = more_text-inj is js x y behind in cc (here, later)

whole_text-inj :
    (a b : Text) (is js : List (Text × ℕ)) → whole_text a is ≡ whole_text b js → (a ≡ b) × (is ≡ js)
whole_text-inj a b is js h =
    let (same, behind) = quoted-inj a b _ _ (ap (drop {A = ℕ} 14) h) in
    (same, list_text-inj is js ending ending (ap (drop {A = ℕ} 10) behind))

-- With a hash that keeps different texts apart, two requests have the same idempotency key exactly if
-- they are of the same attempt and ask for the same products in the same quantities and order.
pub idempotency_key_iff :
    (sha256_hex : Text → Text)
    → ((s t : Text) → sha256_hex s ≡ sha256_hex t → s ≡ t)
    → (a b : Text) (is js : List AllocationDeficitItem)
    → ((build_top_up_request sha256_hex a is).idempotency_key
        ≡ (build_top_up_request sha256_hex b js).idempotency_key)
      ↔ ((a ≡ b) × (map demand_of is ≡ map demand_of js))
unfolding build_top_up_request
idempotency_key_iff sha256_hex apart a b is js = (
  λ e. whole_text-inj a b (map demand_of is) (map demand_of js) (
      sym (key_text-whole_text a is)
      ∙ apart (key_text a is) (key_text b js) e
      ∙ key_text-whole_text b js),
  λ (same, demands).
      ap sha256_hex
        (key_text-whole_text a is ∙ cc (same, demands) ∙ sym (key_text-whole_text b js)),
)
