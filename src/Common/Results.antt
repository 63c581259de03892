-- ===== src/Common/Results.antt =====
-- Fallible code: a result carries its value or its error, and a chain stops at the first error.
use mathlib.Core.Option.{Option, none, some}
use mathlib.Core.Path.{◌≡◌, refl}

pub data Result {ε α} (Failure : Type ε) (Value : Type α) : Type (ε ⊔ α) where
  err : Failure → Result Failure Value
  ok : Value → Result Failure Value

infixl 5 ◌>>=◌
-- The operator `?` of Rust, with the rest of the function.
abbrev pub ◌>>=◌ {ε α β} :
    {Failure : Type ε} {Value : Type α} {Next : Type β}
    → Result Failure Value
    → (Value → Result Failure Next)
    → Result Failure Next
err failure >>= rest = err failure
ok value >>= rest = rest value

-- `option.ok_or(error)`.
abbrev pub ok_or {ε α} :
    {Failure : Type ε} {Value : Type α} → Option Value → Failure → Result Failure Value
ok_or (some value) failure = ok value
ok_or none failure = err failure

-- A chain that succeeds has a first step that did.
pub >>=-eq-ok {ε α β} :
    {Failure : Type ε} {Value : Type α} {Next : Type β} (first : Result Failure Value)
    (rest : Value → Result Failure Next) {last : Next}
    → (first >>= rest) ≡ ok last
    → (value : Value) × (first ≡ ok value) × (rest value ≡ ok last)
>>=-eq-ok (err failure) rest h = cc
>>=-eq-ok (ok value) rest h = (value, refl, h)
