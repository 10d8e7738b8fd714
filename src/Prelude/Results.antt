-- ===== src/Prelude/Results.antt =====
-- Python's exceptions as values: a call returns a result or raises.
use mathlib.Core.Path.{◌≡◌, refl}
use mathlib.Core.Logic.{◌⊎◌, inl, inr}
use mathlib.Core.Bool.{Bool, true, false}
use mathlib.Core.Option.{Option, none, some}

-- The exception classes that the modelled code raises, Python's own first.
pub data Exception : Type 0 where
  value_error index_error key_error overflow_error assertion_error : Exception
  hdlc_parsing_error missing_hdlc_flags local_protocol_error : Exception
  local_dlms_protocol_error pre_established_association_error no_rlrq_rlre_error : Exception
  protection_error decryption_error ciphering_error : Exception
  runtime_error recursion_error not_implemented_error type_error name_error : Exception

pub data Result {ℓ} (Value : Type ℓ) : Type ℓ where
  raise : Exception → Result Value
  ok : Value → Result Value

-- The rest of a body runs only where the call before it returned.
infixl 5 ◌>>=◌
abbrev pub ◌>>=◌ {ℓ κ} :
    {Value : Type ℓ} {Next : Type κ} → Result Value → (Value → Result Next) → Result Next
raise e >>= rest = raise e
ok value >>= rest = rest value

infixl 5 ◌>>◌
abbrev pub ◌>>◌ {κ} : {Next : Type κ} → Result (Unit {0}) → Result Next → Result Next
check >> rest = check >>= λ _. rest

-- `if not b: raise e`
abbrev pub require : Bool → Exception → Result (Unit {0})
require true e = ok tt
require false e = raise e

-- A lookup that raises where there is nothing.
abbrev pub or_raise {ℓ} : {A : Type ℓ} → Exception → Option A → Result A
or_raise e none = raise e
or_raise e (some a) = ok a

-- To split on a computed result and keep the equation.
pub Result-cases {ℓ} :
    {Value : Type ℓ} (call : Result Value)
    → ((value : Value) × (call ≡ ok value)) ⊎ ((e : Exception) × (call ≡ raise e))
Result-cases (raise e) = inr (e, refl)
Result-cases (ok value) = inl (value, refl)

-- Where a body returned, so did its first call.
pub >>=-eq-ok {ℓ κ} :
    {Value : Type ℓ} {Next : Type κ} (call : Result Value) (rest : Value → Result Next)
    {result : Next}
    → (call >>= rest) ≡ ok result
    → (value : Value) × (call ≡ ok value) × (rest value ≡ ok result)
>>=-eq-ok (raise e) rest returned = cc
>>=-eq-ok (ok value) rest returned = (value, refl, returned)
