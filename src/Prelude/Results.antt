-- ===== src/Prelude/Results.antt =====
-- The program's `{ ok: true, value }` and `{ ok: false, code }`, with the notation for a chain of
-- early returns.
use mathlib.Core.Path.{◌≡◌, refl, ap}
use mathlib.Core.Bool.{Bool, true, false}

pub data Result {ℓ} (Code : Type 0) (Value : Type ℓ) : Type ℓ where
  err : Code → Result Code Value
  ok : Value → Result Code Value

infixl 5 ◌>>=◌ ◌>>◌
-- `if (!result.ok) return result`, then the rest with the value.
abbrev pub ◌>>=◌ {ℓ κ} :
    {Code : Type 0} {V : Type ℓ} {W : Type κ} → Result Code V → (V → Result Code W) → Result Code W
◌>>=◌ first rest = elim first [ err code ↦ err code | ok value ↦ rest value ]

abbrev pub ◌>>◌ {ℓ κ} :
    {Code : Type 0} {V : Type ℓ} {W : Type κ} → Result Code V → Result Code W → Result Code W
first >> rest = first >>= λ ignored. rest

-- `if (test) return failure(code)`
abbrev pub refuse_if : {Code : Type 0} → Bool → Code → Result Code (Unit {0})
refuse_if false code = ok tt
refuse_if true code = err code

-- What went before a chain's success, for a proof that goes on with the value: the names that it
-- binds keep terms small.
pub on_ok {ℓ κ ι} :
    {Code : Type 0} {V : Type ℓ} {W : Type κ} {P : Type ι} (first : Result Code V)
    (rest : V → Result Code W) {w : W}
    → (first >>= rest) ≡ ok w
    → ((v : V) → first ≡ ok v → rest v ≡ ok w → P)
    → P
on_ok (err code) rest h go = cc
on_ok (ok value) rest h go = go value refl h

abbrev value_or {ℓ} : {Code : Type 0} {V : Type ℓ} → V → Result Code V → V
value_or v (err code) = v
value_or v (ok value) = value

pub ok-inj {ℓ} :
    {Code : Type 0} {V : Type ℓ} {v w : V} → ◌≡◌ {A = Result Code V} (ok v) (ok w) → v ≡ w
ok-inj {v = v} h = ap (value_or v) h

pub refuse_if_lem :
    {Code : Type 0} (b : Bool) (code : Code) {u : Unit} → refuse_if b code ≡ ok u → b ≡ false
refuse_if_lem false code h = refl
refuse_if_lem true code h = cc

pub result_cases {ℓ κ ι} :
    {Code : Type 0} {V : Type ℓ} {B : Type κ} (P : B → Type ι) (r : Result Code V) {f : Code → B}
    {g : V → B}
    → ((code : Code) → r ≡ err code → P (f code))
    → ((value : V) → r ≡ ok value → P (g value))
    → P (elim r [ err code ↦ f code | ok value ↦ g value ])
result_cases P (err code) failed succeeded = failed code refl
result_cases P (ok value) failed succeeded = succeeded value refl
