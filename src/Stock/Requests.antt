-- ===== src/Stock/Requests.antt =====
-- The request for more allocation: `canonicalJson` of src/main/services/localSale.fingerprint.ts
-- and `buildTopUpRequest` of src/main/services/allocationDeficit.ts.
-- SHA-256 is a parameter. The numbers of a request are safe and not negative.
pub mod Keys
mod Tests
use pos_desktop.Prelude.{
  ℕ, ◌+◌, ◌-◌, ◌/◌, ◌%◌, Bool, true, false, not, ◌&&◌, ◌||◌, List, [], ◌∷◌, ◌++◌, map, ltb, leb,
  ◌==◌, if◌then◌else◌,
}
use pos_desktop.Prelude.Text.{Text, codes, text_after}
use pos_desktop.Prelude.Json.{
  Json, null, boolean, number, string, array, object, JsonItems, nil, cons, JsonFields, end, field,
  stringify,
}
use pos_desktop.Pricing.Quantity.{milli_to_quantity}
use pos_desktop.Stock.Deficit.{AllocationDeficitItem}

-- `Object.keys(value).sort()`, field by field.
unfoldable insert_field : Text → Json → JsonFields → JsonFields
unfolding text_after
insert_field key value end = field key value end
insert_field key value (field k v fields) =
    let later = insert_field key value fields in
    if text_after key k then field k v later else field key value (field k v fields)

unfoldable mutual
  unfolding insert_field

  pub canonicalize : Json → Json
  canonicalize null = null
  canonicalize (boolean b) = boolean b
  canonicalize (number n) = number n
  canonicalize (string t) = string t
  canonicalize (array items) = array (canonicalize_items items)
  canonicalize (object fields) = object (canonicalize_fields fields)

  pub canonicalize_items : JsonItems → JsonItems
  canonicalize_items nil = nil
  canonicalize_items (cons value items) = cons (canonicalize value) (canonicalize_items items)

  pub canonicalize_fields : JsonFields → JsonFields
  canonicalize_fields end = end
  canonicalize_fields (field key value fields) =
      insert_field key (canonicalize value) (canonicalize_fields fields)

unfoldable pub canonical_json : Json → Text
unfolding canonicalize stringify
canonical_json value = stringify (canonicalize value)

-- The value whose text the key is taken from.
abbrev request_items : List AllocationDeficitItem → JsonItems
request_items [] = nil
request_items (item ∷ items) =
    cons
      (object (
        field (codes "productUuid") (string item.product_uuid)
          (field (codes "quantityMilli") (number item.deficit_milli) end)))
      (request_items items)

unfoldable pub key_text : Text → List AllocationDeficitItem → Text
unfolding canonical_json
key_text attempt_key items = canonical_json (
    object (
      field (codes "version") (number 1) (
        field (codes "purpose") (string (codes "desktop-stock-allocation-top-up")) (
          field (codes "attemptKey") (string attempt_key)
            (field (codes "items") (array (request_items items)) end)))))

pub record WireItem : Type 0 where
  product_uuid : Text
  quantity : Text

pub record TopUpRequestBody : Type 0 where
  pub idempotency_key : Text
  allocation_payload_version : ℕ
  items : List WireItem

-- The quantity is printed as in the cart, by the same `milliToQuantity`.
abbrev wire_item : AllocationDeficitItem → WireItem
wire_item item = record {
  product_uuid = item.product_uuid;
  quantity = milli_to_quantity item.deficit_milli;
}

unfoldable pub build_top_up_request :
    (Text → Text) → Text → List AllocationDeficitItem → TopUpRequestBody
unfolding key_text
build_top_up_request sha256_hex attempt_key items = record {
  idempotency_key = sha256_hex (key_text attempt_key items);
  allocation_payload_version = 2;
  items = map wire_item items;
}
