-- ===== src/Examples/Protection.antt =====
-- Security control and exception responses at concrete inputs.
use dlms_cosem.Prelude.{◌≡◌, refl, arith, true, false, some, [], ◌∷◌, ok, raise, ◌>>=◌, value_error}
use dlms_cosem.Security.Control.{
  SecurityControlField, control-round_trip, control-from_bytes_inverse,
}
use dlms_cosem.Security.Control as Control
use dlms_cosem.Xdlms.ExceptionResponse.{
  ExceptionResponse, service_not_allowed, deciphering_error, state_exception_value, counted,
  invocation_counter_error, exception_round_trip, counter_not_rewritten,
}
use dlms_cosem.Xdlms.ExceptionResponse as Exceptions

abbrev authenticated_encryption : SecurityControlField
authenticated_encryption = record {
  security_suite = 0;
  authenticated = true;
  encrypted = true;
  broadcast_key = false;
  compressed = false;
}

control_read : Control.from_bytes (0x30 ∷ []) ≡ ok authenticated_encryption
unfolding Control.from_bytes
control_read = refl

abbrev counter_error : ExceptionResponse
counter_error = record {
  state_error = service_not_allowed;
  service_error = invocation_counter_error;
  invocation_counter_data = some 7;
}

exception_round_trip_example :
    (Exceptions.to_bytes counter_error >>= Exceptions.from_bytes) ≡ ok counter_error
exception_round_trip_example =
    exception_round_trip counter_error (counted service_not_allowed 7 (omega arith) (omega arith))

counter_not_rewritten_example :
    (Exceptions.from_bytes (0xd8 ∷ 1 ∷ 6 ∷ 0 ∷ 0 ∷ 1 ∷ 0 ∷ [])
      ≡ ok (Exceptions.counted_response service_not_allowed 256))
    × (Exceptions.to_bytes (Exceptions.counted_response service_not_allowed 256)
        ≡ raise value_error)
unfolding state_exception_value
counter_not_rewritten_example =
    counter_not_rewritten service_not_allowed 256 (omega arith) (ground arith)
