-- ===== src/Prelude/Number.antt =====
-- A JavaScript `number` as the checks of the program see it: a whole number, or anything else.
use Prim.Native.Nat.{ℕ, ◌+◌}
use mathlib.Core.Option.{Option, none, some}
use pos_desktop.Prelude.Tests.{leb, if◌then◌else◌}
use pos_desktop.Prelude.Int.{ℤ, pos, negsuc}

-- `other` is a fraction, an infinity or NaN.
pub data Number : Type 0 where
  whole : ℤ → Number
  other : Number

-- `Number.MAX_SAFE_INTEGER`
abbrev pub max_safe_integer : ℕ
max_safe_integer = 9_007_199_254_740_991

-- The value of a number that passes `Number.isSafeInteger(value) && value >= 0`.
abbrev pub safe_natural : Number → Option ℕ
safe_natural (whole (pos n)) = if leb n max_safe_integer then some n else none
safe_natural (whole (negsuc n)) = none
safe_natural other = none

-- The value of a number that passes `Number.isSafeInteger`.
abbrev pub safe_integer : Number → Option ℤ
safe_integer (whole (pos n)) = if leb n max_safe_integer then some (pos n) else none
safe_integer (whole (negsuc n)) = if leb (n + 1) max_safe_integer then some (negsuc n) else none
safe_integer other = none
