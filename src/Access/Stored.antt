-- ===== src/Access/Stored.antt =====
-- The sequence of an answer and the row that keeps the last one (`accessSequenceFromMeta` and
-- `SettingsAccessSequenceStore` of src/main/services/accessOrdering.ts). `JSON.parse` is a parameter,
-- which has nothing where it throws. The numbers of a row are whole and not negative.
use pos_desktop.Prelude.{ℕ, ◌≡◌, refl, Option, none, some, ◌==◌, if◌then◌else◌}
use pos_desktop.Prelude.Number.{Number, safe_natural}
use pos_desktop.Prelude.Text.{Text, codes, text_eq}
use pos_desktop.Prelude.Json.{Json, string, number, object, JsonFields, end, field, stringify}
use pos_desktop.Access.Ordering.{StoredAccessSequence}

abbrev some_positive : Option ℕ → Option ℕ
some_positive none = none
some_positive (some n) = if n == 0 then none else some n

-- Of `meta.access_sequence` there is nothing where it is absent or no number.
unfoldable access_sequence_from_meta : Option Number → Option ℕ
access_sequence_from_meta none = none
access_sequence_from_meta (some value) = some_positive (safe_natural value)

-- `parsed.key`
unfoldable property : Text → JsonFields → Option Json
unfolding text_eq
property key end = none
property key (field k value fields) =
    let rest = property key fields in if text_eq k key then some value else rest

abbrev stored_from : Option Json → Option Json → Option Json → Option StoredAccessSequence
stored_from (some (string device)) (some (number epoch)) (some (number sequence)) =
    some (record { device_uuid = device; session_epoch = epoch; sequence = sequence })
stored_from device epoch sequence = none

abbrev parsed_sequence : Option Json → Option StoredAccessSequence
parsed_sequence (some (object fields)) =
    stored_from (property (codes "deviceUuid") fields) (property (codes "sessionEpoch") fields)
      (property (codes "sequence") fields)
parsed_sequence other = none

module _ (parse_json : Text → Option Json) where
  -- `get` of the settings' row.
  unfoldable stored_sequence : Option Text → Option StoredAccessSequence
  unfolding property
  stored_sequence none = none
  stored_sequence (some raw) = parsed_sequence (parse_json raw)

abbrev sequence_json : StoredAccessSequence → Json
sequence_json value = object (
    field (codes "deviceUuid") (string value.device_uuid) (
      field (codes "sessionEpoch") (number value.session_epoch)
        (field (codes "sequence") (number value.sequence) end)))

-- `set` of the settings' row.
unfoldable stored_row : StoredAccessSequence → Option Text
unfolding stringify
stored_row value = some (stringify (sequence_json value))

-- A row is read as it was written, where `JSON.parse` reads what `JSON.stringify` writes.
stored_sequence-stored_row :
    (parse_json : Text → Option Json)
    → ((json : Json) → parse_json (stringify json) ≡ some json)
    → (value : StoredAccessSequence) → stored_sequence parse_json (stored_row value) ≡ some value
unfolding stored_sequence stored_row property text_eq
stored_sequence-stored_row parse_json reads value = rw (reads (sequence_json value)) refl
