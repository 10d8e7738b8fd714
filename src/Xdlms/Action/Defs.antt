-- ===== src/Xdlms/Action/Defs.antt =====
-- The requests and responses of the ACTION service: dlms_cosem/protocol/xdlms/action.py.
use dlms_cosem.Prelude.{
  ℕ, Bool, true, false, Option, none, some, List, [], ◌∷◌, ◌++◌, ◌==◌, if◌then◌else◌, length, take,
  drop, Result, ok, raise, ◌>>=◌, ◌>>◌, require, value_error, assertion_error,
  not_implemented_error, truthy, int_to_bytes, pop, byte_at,
}
use dlms_cosem.Cosem.Method.{CosemMethod}
use dlms_cosem.Cosem.Method
use dlms_cosem.Xdlms.InvokeId
use dlms_cosem.Xdlms.InvokeId.{InvokeIdAndPriority}
use dlms_cosem.Xdlms.Enumerations.{DataAccessResult, data_access_result, data_access_result_value}
use dlms_cosem.Xdlms.GetResponse.Defs.{pop_invoke}
use dlms_cosem.Xdlms.Action.Kind.{ActionType, normal, action_type, action_type_value}
use dlms_cosem.Xdlms.Action.Status.{
  ActionResultStatus, action_result_status, action_result_status_value,
}

pub record ActionRequestNormal : Type 0 where
  pub cosem_method : CosemMethod
  pub octets : Option (List ℕ)
  pub invoke_id_and_priority : InvokeIdAndPriority

pub data ActionResponse : Type 0 where
  action_response_normal : ActionResultStatus → InvokeIdAndPriority → ActionResponse
  action_response_normal_with_data :
      ActionResultStatus → List ℕ → InvokeIdAndPriority → ActionResponse
  action_response_normal_with_error :
      ActionResultStatus → DataAccessResult → InvokeIdAndPriority → ActionResponse

abbrev pub request_tag : ℕ
request_tag = 195

abbrev pub response_tag : ℕ
response_tag = 199

-- `if self.data:`
abbrev pub data_part : Option (List ℕ) → List ℕ
data_part none = 0 ∷ []
data_part (some []) = 0 ∷ []
data_part (some (b ∷ bs)) = 1 ∷ b ∷ bs

unfoldable pub request_to_bytes : ActionRequestNormal → Result (List ℕ)
request_to_bytes r = do
  invoke ← InvokeId.to_bytes r.invoke_id_and_priority
  method ← Method.to_bytes r.cosem_method
  ok (request_tag ∷ action_type_value normal ∷ (invoke ++ (method ++ data_part r.octets)))

-- `ActionType(data.pop(0))`, which must be NORMAL.
unfoldable pub is_normal : ActionType → Bool
is_normal normal = true
is_normal _ = false

-- The tag and the type, as the classes check them.
unfoldable pub open_normal : ℕ → List ℕ → Result (List ℕ)
open_normal expected source_bytes = do
  (tag, input) ← pop source_bytes
  require (tag == expected) value_error
  (kind, rest) ← pop input
  type ← action_type kind
  require (is_normal type) value_error
  ok rest

unfoldable pub request_from_bytes : List ℕ → Result ActionRequestNormal
request_from_bytes source_bytes = do
  input ← open_normal request_tag source_bytes
  (invoke, rest) ← pop_invoke input
  method ← Method.from_bytes (take 9 rest)
  has_data ← byte_at rest 9
  ok (record {
    cosem_method = method;
    octets = if truthy has_data then some (drop 10 rest) else none;
    invoke_id_and_priority = invoke;
  })

-- ActionRequestFactory.from_bytes
unfoldable pub request_factory : List ℕ → Result ActionRequestNormal
request_factory source_bytes = do
  (tag, input) ← pop source_bytes
  require (tag == request_tag) value_error
  (kind, _) ← pop input
  type ← action_type kind
  if is_normal type then request_from_bytes source_bytes else raise not_implemented_error

unfoldable pub response_opening : ActionResultStatus → InvokeIdAndPriority → Result (List ℕ)
response_opening status invoke_id_and_priority = do
  invoke ← InvokeId.to_bytes invoke_id_and_priority
  code ← int_to_bytes 1 (action_result_status_value status)
  ok (response_tag ∷ action_type_value normal ∷ (invoke ++ code))

-- The method of the class of the response.
unfoldable pub to_bytes : ActionResponse → Result (List ℕ)
to_bytes (action_response_normal status invoke) = do
  head ← response_opening status invoke
  ok (head ++ (0 ∷ []))
to_bytes (action_response_normal_with_data status octets invoke) = do
  head ← response_opening status invoke
  ok (head ++ (1 ∷ 0 ∷ octets))
to_bytes (action_response_normal_with_error status error invoke) = do
  head ← response_opening status invoke
  code ← int_to_bytes 1 (data_access_result_value error)
  ok (head ++ (1 ∷ 1 ∷ code))

-- Up to the byte that says whether there is data.
unfoldable pub open_response :
    List ℕ → Result (InvokeIdAndPriority × ActionResultStatus × Bool × List ℕ)
open_response source_bytes = do
  input ← open_normal response_tag source_bytes
  (invoke, rest) ← pop_invoke input
  (code, behind) ← pop rest
  status ← action_result_status code
  (has_data, content) ← pop behind
  ok (invoke, status, truthy has_data, content)

-- ActionResponseNormal.from_bytes
unfoldable pub normal_from_bytes : List ℕ → Result ActionResponse
normal_from_bytes source_bytes = do
  (invoke, status, has_data, content) ← open_response source_bytes
  if has_data then raise value_error else ok (action_response_normal status invoke)

-- ActionResponseNormalWithData.from_bytes
unfoldable pub with_data_from_bytes : List ℕ → Result ActionResponse
with_data_from_bytes source_bytes = do
  (invoke, status, has_data, content) ← open_response source_bytes
  require has_data value_error
  (choice, octets) ← pop content
  require (choice == 0) value_error
  ok (action_response_normal_with_data status octets invoke)

-- ActionResponseNormalWithError.from_bytes
unfoldable pub with_error_from_bytes : List ℕ → Result ActionResponse
with_error_from_bytes source_bytes = do
  (invoke, status, has_data, content) ← open_response source_bytes
  require has_data value_error
  (choice, rest) ← pop content
  require (choice == 1) value_error
  require (length rest == 1) assertion_error
  (code, _) ← pop rest
  error ← data_access_result code
  ok (action_response_normal_with_error status error invoke)

-- The class by the data flag and the choice; another choice falls off the end.
unfoldable pub choose_class : List ℕ → Bool → List ℕ → Result (Option ActionResponse)
choose_class source_bytes false content = normal_from_bytes source_bytes >>= λ r. ok (some r)
choose_class source_bytes true content = do
  (choice, _) ← pop content
  if choice == 0
      then with_data_from_bytes source_bytes >>= (λ r. ok (some r))
      else if choice == 1
      then with_error_from_bytes source_bytes >>= (λ r. ok (some r))
      else ok none

-- ActionResponseFactory.from_bytes
unfoldable pub from_bytes : List ℕ → Result (Option ActionResponse)
from_bytes source_bytes = do
  (tag, input) ← pop source_bytes
  require (tag == response_tag) value_error
  (kind, rest) ← pop input
  type ← action_type kind
  (_, behind) ← pop rest
  if is_normal type
      then (do
        (_, flagged) ← pop behind
        (has_data, content) ← pop flagged
        choose_class source_bytes (truthy has_data) content)
      else raise not_implemented_error
