-- ===== src/Xdlms/Action/RoundTrip.antt =====
-- Requests and responses of the ACTION service (dlms_cosem/protocol/xdlms/action.py), written and
-- read.
use dlms_cosem.Prelude.{
  ℕ, ◌<◌, ◌≡◌, refl, ◌∙◌, arith, Option, none, some, List, [], ◌∷◌, ◌++◌, if◌then◌else◌, drop, ok,
  ◌>>=◌, truthy, byte_at,
}
use dlms_cosem.Cosem.Method.{CosemMethod, IsMethod, method_bytes, one_byte}
use dlms_cosem.Cosem.Method
use dlms_cosem.Xdlms.InvokeId.{InvokeIdAndPriority, priority_byte}
use dlms_cosem.Xdlms.InvokeId
use dlms_cosem.Xdlms.Enumerations.{
  data_access_result_value, data_access_result-value, data_access_result_bound,
}
use dlms_cosem.Xdlms.GetResponse.RoundTrip.{invoke_pops}
use dlms_cosem.Xdlms.Action.Kind.{action_type, action_type_value}
use dlms_cosem.Xdlms.Action.Status.{
  ActionResultStatus, action_result_status_value, action_result_status_lem,
  action_result_status_bound,
}
use dlms_cosem.Xdlms.Action.Defs.{
  ActionRequestNormal, ActionResponse, action_response_normal, action_response_normal_with_data,
  action_response_normal_with_error, data_part, request_to_bytes, request_from_bytes,
  request_factory, is_normal, open_normal, response_opening, to_bytes, open_response,
  normal_from_bytes, with_data_from_bytes, with_error_from_bytes, choose_class, from_bytes,
}

opened : (tag : ℕ) (rest : List ℕ) → open_normal tag (tag ∷ 1 ∷ rest) ≡ ok rest
unfolding open_normal is_normal action_type action_type_value
opened tag rest = ground arith

-- An empty octet string is written as no data.
abbrev pub kept : Option (List ℕ) → Option (List ℕ)
kept none = none
kept (some []) = none
kept (some (b ∷ bs)) = some (b ∷ bs)

abbrev pub written : ActionRequestNormal → ActionRequestNormal
written r = record r { octets = kept r.octets }

abbrev request_bytes : ActionRequestNormal → List ℕ
request_bytes r =
    195
    ∷ 1
    ∷ priority_byte r.invoke_id_and_priority
    ∷ (method_bytes r.cosem_method ++ data_part r.octets)

request_to_bytes_lem :
    (r : ActionRequestNormal)
    → r.invoke_id_and_priority.invoke_id < 16
    → IsMethod r.cosem_method
    → request_to_bytes r ≡ ok (request_bytes r)
unfolding request_to_bytes action_type_value
request_to_bytes_lem r h m =
    rw (InvokeId.to_bytes_lem r.invoke_id_and_priority h)
      (rw (Method.to_bytes_lem r.cosem_method m) refl)

abbrev the_request : CosemMethod → Option (List ℕ) → InvokeIdAndPriority → ActionRequestNormal
the_request m octets i = record { cosem_method = m; octets = octets; invoke_id_and_priority = i }

-- The flag and the data behind the nine bytes of a method.
flagged :
    (octets : Option (List ℕ)) (m : CosemMethod) (i : InvokeIdAndPriority)
    → (byte_at (method_bytes m ++ data_part octets) 9 >>= λ has_data. ok (
        the_request m
          (if truthy has_data then some (drop 10 (method_bytes m ++ data_part octets)) else none)
          i))
      ≡ ok (the_request m (kept octets) i)
flagged none m i = refl
flagged (some []) m i = refl
flagged (some (b ∷ bs)) m i = refl

request_from_bytes_lem :
    (r : ActionRequestNormal)
    → r.invoke_id_and_priority.invoke_id < 16
    → request_from_bytes (request_bytes r) ≡ ok (written r)
unfolding request_from_bytes
request_from_bytes_lem r h =
    rw
      (opened 195 (
        priority_byte r.invoke_id_and_priority
        ∷ (method_bytes r.cosem_method ++ data_part r.octets)))
      (rw
        (invoke_pops r.invoke_id_and_priority (method_bytes r.cosem_method ++ data_part r.octets) h)
        (rw (Method.from_bytes_lem r.cosem_method)
          (flagged r.octets r.cosem_method r.invoke_id_and_priority)))

-- A request whose invoke id, instance and method fit is written, and both the class and the factory
-- read it back, with an empty octet string as no data.
pub request_round_trip :
    (r : ActionRequestNormal)
    → r.invoke_id_and_priority.invoke_id < 16
    → IsMethod r.cosem_method
    → ((request_to_bytes r >>= request_from_bytes) ≡ ok (written r))
      × ((request_to_bytes r >>= request_factory) ≡ ok (written r))
unfolding request_factory is_normal action_type action_type_value
request_round_trip r h m = (
  rw (request_to_bytes_lem r h m) (request_from_bytes_lem r h),
  rw (request_to_bytes_lem r h m) (request_from_bytes_lem r h),
)

abbrev pub invoke_of : ActionResponse → InvokeIdAndPriority
invoke_of (action_response_normal _ i) = i
invoke_of (action_response_normal_with_data _ _ i) = i
invoke_of (action_response_normal_with_error _ _ i) = i

response_opening_lem :
    (s : ActionResultStatus) (i : InvokeIdAndPriority)
    → i.invoke_id < 16
    → response_opening s i ≡ ok (199 ∷ 1 ∷ priority_byte i ∷ action_result_status_value s ∷ [])
unfolding response_opening action_type_value
response_opening_lem s i h =
    rw (InvokeId.to_bytes_lem i h)
      (rw (one_byte (action_result_status_value s) (action_result_status_bound s)) refl)

open_response_lem :
    (s : ActionResultStatus) (i : InvokeIdAndPriority) (flag : ℕ) (rest : List ℕ)
    → i.invoke_id < 16
    → open_response (199 ∷ 1 ∷ priority_byte i ∷ action_result_status_value s ∷ flag ∷ rest)
      ≡ ok (i, s, truthy flag, rest)
unfolding open_response
open_response_lem s i flag rest h =
    rw (opened 199 (priority_byte i ∷ action_result_status_value s ∷ flag ∷ rest)) (
      rw (invoke_pops i (action_result_status_value s ∷ flag ∷ rest) h)
        (rw (action_result_status_lem s) refl))

factory_lem :
    (p v flag : ℕ) (rest : List ℕ)
    → from_bytes (199 ∷ 1 ∷ p ∷ v ∷ flag ∷ rest)
      ≡ choose_class (199 ∷ 1 ∷ p ∷ v ∷ flag ∷ rest) (truthy flag) rest
unfolding from_bytes is_normal action_type
factory_lem p v flag rest = refl

-- A response whose invoke id fits is written, and the factory reads it back with its class.
pub response_round_trip :
    (r : ActionResponse) → (invoke_of r).invoke_id < 16 → (to_bytes r >>= from_bytes) ≡ ok (some r)
unfolding to_bytes choose_class normal_from_bytes with_data_from_bytes with_error_from_bytes
response_round_trip (action_response_normal s i) h = rw (response_opening_lem s i h) (
    factory_lem (priority_byte i) (action_result_status_value s) 0 []
    ∙ rw (open_response_lem s i 0 [] h) refl)
response_round_trip (action_response_normal_with_data s octets i) h =
    rw (response_opening_lem s i h) (
      factory_lem (priority_byte i) (action_result_status_value s) 1 (0 ∷ octets)
      ∙ rw (open_response_lem s i 1 (0 ∷ octets) h) refl)
response_round_trip (action_response_normal_with_error s e i) h = rw (response_opening_lem s i h) (
    rw (one_byte (data_access_result_value e) (data_access_result_bound e)) (
      factory_lem (priority_byte i) (action_result_status_value s) 1
        (1 ∷ data_access_result_value e ∷ [])
      ∙ rw (open_response_lem s i 1 (1 ∷ data_access_result_value e ∷ []) h)
          (rw (data_access_result-value e) refl)))
