-- ===== src/Xdlms/ExceptionResponse.antt =====
-- ExceptionResponse (dlms_cosem/protocol/xdlms/exception_response.py) and its enumerations
-- (dlms_cosem/enumerations.py).
use dlms_cosem.Prelude.{
  ℕ, ◌^◌, ◌≤◌, ◌<◌, ◌≡◌, ◌≢◌, refl, ap, ◌∙◌, arith, Option, none, some, List, [], ◌∷◌, ◌==◌, ltb,
  if◌then◌else◌, Result, ok, raise, ◌>>=◌, ◌>>◌, require, value_error, truthy, be_digits, pop,
  int_from_bytes, int_from_bytes-be_digits,
}

pub data StateException : Type 0 where
  service_not_allowed service_unknown : StateException

pub data ServiceException : Type 0 where
  operation_not_possible service_not_supported other_reason : ServiceException
  pdu_too_long deciphering_error invocation_counter_error : ServiceException

unfoldable pub state_exception_value : StateException → ℕ
state_exception_value service_not_allowed = 1
state_exception_value service_unknown = 2

unfoldable pub state_exception : ℕ → Result StateException
state_exception n =
    if n == 1
    then ok service_not_allowed
    else if n == 2
    then ok service_unknown
    else raise value_error

unfoldable pub service_exception_value : ServiceException → ℕ
service_exception_value operation_not_possible = 1
service_exception_value service_not_supported = 2
service_exception_value other_reason = 3
service_exception_value pdu_too_long = 4
service_exception_value deciphering_error = 5
service_exception_value invocation_counter_error = 6

unfoldable pub service_exception : ℕ → Result ServiceException
service_exception n =
    if n == 1
    then ok operation_not_possible
    else if n == 2
    then ok service_not_supported
    else if n == 3
    then ok other_reason
    else if n == 4
    then ok pdu_too_long
    else if n == 5
    then ok deciphering_error
    else if n == 6
    then ok invocation_counter_error
    else raise value_error

pub record ExceptionResponse : Type 0 where
  pub state_error : StateException
  pub service_error : ServiceException
  pub invocation_counter_data : Option ℕ

abbrev pub exception_tag : ℕ
exception_tag = 216

-- `if service_error == INVOCATION_COUNTER_ERROR: ...`
counter_of : ServiceException → List ℕ → Option ℕ
counter_of invocation_counter_error input = some (int_from_bytes input)
counter_of _ input = none

unfoldable pub from_bytes : List ℕ → Result ExceptionResponse
unfolding state_exception service_exception counter_of
from_bytes source_bytes = do
  (first, after_tag) ← pop source_bytes
  require (first == exception_tag) value_error
  (state_code, after_state) ← pop after_tag
  state_error ← state_exception state_code
  (service_code, input) ← pop after_state
  service_error ← service_exception service_code
  ok (record {
    state_error = state_error;
    service_error = service_error;
    invocation_counter_data = counter_of service_error input;
  })

-- The item of `bytes([...])` that is neither the tag nor a code: a ValueError from 256 on.
unfoldable pub counter_bytes : Option ℕ → Result (List ℕ)
counter_bytes none = ok []
counter_bytes (some counter) =
    if truthy counter
    then (if ltb counter 256 then ok (counter ∷ []) else raise value_error)
    else ok []

unfoldable pub to_bytes : ExceptionResponse → Result (List ℕ)
unfolding state_exception_value service_exception_value counter_bytes
to_bytes r = do
  counter ← counter_bytes r.invocation_counter_data
  ok (
      exception_tag
      ∷ state_exception_value r.state_error
      ∷ service_exception_value r.service_error
      ∷ counter)

-- The responses that `to_bytes` can express: a counter of one byte, other than 0, stands exactly
-- with the error of the counter.
pub data IsExpressible : ExceptionResponse → Type 0 where
  plain :
      (s : StateException) (e : ServiceException)
      → e ≢ invocation_counter_error
      → IsExpressible
          (record { state_error = s; service_error = e; invocation_counter_data = none })
  counted :
      (s : StateException) (n : ℕ)
      → 0 < n
      → n < 256
      → IsExpressible (record {
        state_error = s;
        service_error = invocation_counter_error;
        invocation_counter_data = some n;
      })

-- An exception response that `to_bytes` can express is read back from its bytes.
pub exception_round_trip :
    (r : ExceptionResponse) → IsExpressible r → (to_bytes r >>= from_bytes) ≡ ok r
unfolding to_bytes from_bytes
exception_round_trip r (plain s e ne) = ground arith
exception_round_trip r (counted s n lo hi) = ground arith

abbrev pub counted_response : StateException → ℕ → ExceptionResponse
counted_response s n = record {
  state_error = s;
  service_error = invocation_counter_error;
  invocation_counter_data = some n;
}

counter_read :
    (s : StateException) (input : List ℕ)
    → from_bytes (exception_tag ∷ state_exception_value s ∷ 6 ∷ input)
      ≡ ok (counted_response s (int_from_bytes input))
unfolding from_bytes state_exception_value
counter_read service_not_allowed input = refl
counter_read service_unknown input = refl

counter_refused :
    (s : StateException) (n : ℕ) → 256 ≤ n → to_bytes (counted_response s n) ≡ raise value_error
unfolding to_bytes
counter_refused s n lo = ground arith

-- An exception response with an invocation counter of four bytes that is over 255 is read, with
-- that counter, and the response that was read cannot be written: `to_bytes` raises a ValueError.
pub counter_not_rewritten :
    (s : StateException) (n : ℕ)
    → 256 ≤ n
    → n < 256 ^ 4
    → (from_bytes (exception_tag ∷ state_exception_value s ∷ 6 ∷ be_digits 4 n)
        ≡ ok (counted_response s n))
      × (to_bytes (counted_response s n) ≡ raise value_error)
counter_not_rewritten s n lo hi = (
  counter_read s (be_digits 4 n)
      ∙ ap (λ c. ok (counted_response s c)) (int_from_bytes-be_digits 4 n hi),
  counter_refused s n lo,
)
