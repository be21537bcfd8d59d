-- ===== src/Prelude/Json.antt =====
-- JSON values and the texts that `JSON.stringify` gives them. Numbers are whole and not negative.
pub mod Quoting
use Prim.Native.Nat.{ℕ, ◌+◌, ◌-◌, ◌/◌, ◌%◌}
use mathlib.Core.Bool.{Bool, true, false, not, ◌&&◌, ◌||◌}
use mathlib.Core.List.{[], ◌∷◌, ◌++◌}
use pos_desktop.Prelude.Tests.{ltb, leb, ◌==◌, if◌then◌else◌}
use pos_desktop.Prelude.Text.{Text, codes, decimal}

mutual
  pub data Json : Type 0 where
    null : Json
    boolean : Bool → Json
    number : ℕ → Json
    string : Text → Json
    array : JsonItems → Json
    object : JsonFields → Json

  pub data JsonItems : Type 0 where
    nil : JsonItems
    cons : Json → JsonItems → JsonItems

  -- The keys of an object are distinct and none of them is an array's index.
  pub data JsonFields : Type 0 where
    end : JsonFields
    field : Text → Json → JsonFields → JsonFields

-- A code unit in hexadecimal.
abbrev pub hex_digit : ℕ → ℕ
hex_digit n = if ltb n 10 then n + b'0' else n - 10 + b'a'

abbrev pub unicode_escape : ℕ → Text
unicode_escape c =
    b'\\'
    ∷ b'u'
    ∷ hex_digit (c / 4096 % 16)
    ∷ hex_digit (c / 256 % 16)
    ∷ hex_digit (c / 16 % 16)
    ∷ hex_digit (c % 16)
    ∷ []

-- The first and the second code unit of a surrogate pair.
abbrev pub is_high : ℕ → Bool
is_high c = leb 55296 c && ltb c 56320

abbrev pub is_low : ℕ → Bool
is_low c = leb 56320 c && ltb c 57344

abbrev pub starts_low : Text → Bool
starts_low [] = false
starts_low (c ∷ s) = is_low c

abbrev pub control_escape : ℕ → Text
control_escape c =
    if c == 8
    then b'\\' ∷ b'b' ∷ []
    else if c == 9
    then b'\\' ∷ b't' ∷ []
    else if c == 10
    then b'\\' ∷ b'n' ∷ []
    else if c == 12
    then b'\\' ∷ b'f' ∷ []
    else if c == 13
    then b'\\' ∷ b'r' ∷ []
    else unicode_escape c

-- A code unit of a quoted text; `paired` says that the one before is the first of its pair.
unfoldable pub unit_text : Bool → ℕ → Text → Text
unit_text paired c rest =
    if c == b'"' || c == b'\\'
    then b'\\' ∷ c ∷ []
    else if ltb c 32
    then control_escape c
    else if is_high c && not (starts_low rest) || is_low c && not paired
    then unicode_escape c
    else c ∷ []

unfoldable pub quoted_from : Bool → Text → Text
quoted_from paired [] = b'"' ∷ []
quoted_from paired (c ∷ s) = unit_text paired c s ++ quoted_from (is_high c && starts_low s) s

unfoldable pub quoted : Text → Text
quoted text = b'"' ∷ quoted_from false text

unfoldable mutual
  pub stringify : Json → Text
  stringify null = codes "null"
  stringify (boolean true) = codes "true"
  stringify (boolean false) = codes "false"
  stringify (number n) = decimal n
  stringify (string t) = quoted t
  stringify (array nil) = codes "[]"
  stringify (array (cons value items)) = b'[' ∷ (stringify value ++ more_items items)
  stringify (object end) = codes "{}"
  stringify (object (field key value fields)) =
      b'{' ∷ (quoted key ++ (b':' ∷ (stringify value ++ more_fields fields)))

  pub more_items : JsonItems → Text
  more_items nil = b']' ∷ []
  more_items (cons value items) = b',' ∷ (stringify value ++ more_items items)

  pub more_fields : JsonFields → Text
  more_fields end = b'}' ∷ []
  more_fields (field key value fields) =
      b',' ∷ (quoted key ++ (b':' ∷ (stringify value ++ more_fields fields)))
