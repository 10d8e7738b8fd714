-- ===== src/Xdlms/Set/Defs.antt =====
-- The requests and responses of the SET service: dlms_cosem/protocol/xdlms/set.py. An access
-- selection, of any type with a `to_bytes`, is the bytes that this gives.
use dlms_cosem.Prelude.{
  ℕ, Bool, true, false, Option, none, some, List, [], ◌∷◌, ◌++◌, ◌==◌, not, length, take, drop,
  Result, ok, raise, ◌>>=◌, ◌>>◌, require, value_error, not_implemented_error, truthy, int_to_bytes,
  int_from_bytes, pop,
}
use dlms_cosem.Data.VariableInteger.{encode_variable_integer, decode_variable_integer}
use dlms_cosem.Cosem.Method.{CosemAttribute}
use dlms_cosem.Cosem.Method
use dlms_cosem.Xdlms.InvokeId
use dlms_cosem.Xdlms.InvokeId.{InvokeIdAndPriority}
use dlms_cosem.Xdlms.Enumerations.{DataAccessResult, data_access_result, data_access_result_value}
use dlms_cosem.Xdlms.GetResponse.Defs.{pop_invoke}
use dlms_cosem.Xdlms.Set.RequestKind.{SetRequestType, set_request_type, set_request_type_value}
use dlms_cosem.Xdlms.Set.RequestKind
use dlms_cosem.Xdlms.Set.ResponseKind.{SetResponseType, set_response_type, set_response_type_value}
use dlms_cosem.Xdlms.Set.ResponseKind

-- SetRequestNormal and SetRequestWithFirstBlock have the same attributes.
pub record SetRequest : Type 0 where
  pub cosem_attribute : CosemAttribute
  pub octets : List ℕ
  pub access_selection : Option (List ℕ)
  pub invoke_id_and_priority : InvokeIdAndPriority

abbrev pub request_tag : ℕ
request_tag = 193

abbrev pub response_tag : ℕ
response_tag = 197

abbrev pub access_part : Option (List ℕ) → List ℕ
access_part none = 0 ∷ []
access_part (some bytes) = 1 ∷ bytes

-- What both requests begin with.
unfoldable pub request_opening : SetRequestType → SetRequest → Result (List ℕ)
request_opening kind r = do
  invoke ← InvokeId.to_bytes r.invoke_id_and_priority
  attribute ← Method.to_bytes r.cosem_attribute
  ok (
      request_tag
      ∷ set_request_type_value kind
      ∷ (invoke ++ (attribute ++ access_part r.access_selection)))

-- SetRequestNormal.to_bytes
unfoldable pub normal_to_bytes : SetRequest → Result (List ℕ)
normal_to_bytes r = do head ← request_opening RequestKind.normal r; ok (head ++ r.octets)

-- SetRequestWithFirstBlock.to_bytes
unfoldable pub first_block_to_bytes : SetRequest → Result (List ℕ)
first_block_to_bytes r = do
  head ← request_opening RequestKind.with_first_block r
  octets_length ← encode_variable_integer (length r.octets)
  ok (head ++ (0 ∷ 0 ∷ 0 ∷ 0 ∷ 1 ∷ (octets_length ++ r.octets)))

unfoldable pub is_normal : SetRequestType → Bool
is_normal RequestKind.normal = true
is_normal _ = false

unfoldable pub is_first_block : SetRequestType → Bool
is_first_block RequestKind.with_first_block = true
is_first_block _ = false

-- What both classes read first; the test tells their types apart.
unfoldable pub open_request :
    (SetRequestType → Bool) → List ℕ → Result (InvokeIdAndPriority × CosemAttribute × List ℕ)
open_request is_kind source_bytes = do
  (tag, input) ← pop source_bytes
  require (tag == request_tag) value_error
  (kind, rest) ← pop input
  type_choice ← set_request_type kind
  require (is_kind type_choice) value_error
  (invoke, behind) ← pop_invoke rest
  attribute ← Method.from_bytes (take 9 behind)
  (has_access_selection, octets) ← pop (drop 9 behind)
  require (not (truthy has_access_selection)) not_implemented_error
  ok (invoke, attribute, octets)

abbrev pub request_of : InvokeIdAndPriority → CosemAttribute → List ℕ → SetRequest
request_of invoke attribute octets = record {
  cosem_attribute = attribute;
  octets = octets;
  access_selection = none;
  invoke_id_and_priority = invoke;
}

-- SetRequestNormal.from_bytes
unfoldable pub normal_from_bytes : List ℕ → Result SetRequest
normal_from_bytes source_bytes = do
  (invoke, attribute, octets) ← open_request is_normal source_bytes
  ok (request_of invoke attribute octets)

-- SetRequestWithFirstBlock.from_bytes
unfoldable pub first_block_from_bytes : List ℕ → Result SetRequest
first_block_from_bytes source_bytes = do
  (invoke, attribute, input) ← open_request is_first_block source_bytes
  (last_block, block) ← pop input
  require (not (truthy last_block)) value_error
  require (int_from_bytes (take 4 block) == 1) value_error
  (data_length, octets) ← decode_variable_integer (drop 4 block)
  require (data_length == length octets) value_error
  ok (request_of invoke attribute octets)

pub data SetResponse : Type 0 where
  set_response_normal : DataAccessResult → InvokeIdAndPriority → SetResponse
  set_response_with_block : InvokeIdAndPriority → ℕ → SetResponse
  set_response_last_block : DataAccessResult → InvokeIdAndPriority → ℕ → SetResponse

unfoldable pub response_opening : SetResponseType → InvokeIdAndPriority → Result (List ℕ)
response_opening kind invoke_id_and_priority = do
  invoke ← InvokeId.to_bytes invoke_id_and_priority
  ok (response_tag ∷ set_response_type_value kind ∷ invoke)

unfoldable pub to_bytes : SetResponse → Result (List ℕ)
to_bytes (set_response_normal result invoke) = do
  head ← response_opening ResponseKind.normal invoke
  code ← int_to_bytes 1 (data_access_result_value result)
  ok (head ++ code)
to_bytes (set_response_with_block invoke block_number) = do
  head ← response_opening ResponseKind.with_block invoke
  number ← int_to_bytes 4 block_number
  ok (head ++ number)
to_bytes (set_response_last_block result invoke block_number) = do
  head ← response_opening ResponseKind.with_last_block invoke
  code ← int_to_bytes 1 (data_access_result_value result)
  number ← int_to_bytes 4 block_number
  ok (head ++ (code ++ number))

-- What follows the tag and the type, which SetResponseFactory.from_bytes and the class that it calls
-- check alike.
unfoldable pub by_type : SetResponseType → List ℕ → Result SetResponse
by_type ResponseKind.normal input = do
  (invoke, rest) ← pop_invoke input
  (code, _) ← pop rest
  result ← data_access_result code
  ok (set_response_normal result invoke)
by_type ResponseKind.with_block input = do
  (invoke, rest) ← pop_invoke input
  ok (set_response_with_block invoke (int_from_bytes (take 4 rest)))
by_type ResponseKind.with_last_block input = do
  (invoke, rest) ← pop_invoke input
  (code, number) ← pop rest
  result ← data_access_result code
  ok (set_response_last_block result invoke (int_from_bytes (take 4 number)))
by_type _ input = raise not_implemented_error

-- SetResponseFactory.from_bytes
unfoldable pub from_bytes : List ℕ → Result SetResponse
from_bytes source_bytes = do
  (tag, input) ← pop source_bytes
  require (tag == response_tag) value_error
  (kind, rest) ← pop input
  type ← set_response_type kind
  by_type type rest

-- SetRequestFactory.from_bytes; the type tells the class of the result.
unfoldable pub request_by_type : SetRequestType → List ℕ → Result (SetRequestType × SetRequest)
request_by_type RequestKind.normal source_bytes =
    normal_from_bytes source_bytes >>= λ r. ok (RequestKind.normal, r)
request_by_type RequestKind.with_first_block source_bytes =
    first_block_from_bytes source_bytes >>= λ r. ok (RequestKind.with_first_block, r)
request_by_type _ source_bytes = raise not_implemented_error

unfoldable pub request_factory : List ℕ → Result (SetRequestType × SetRequest)
request_factory source_bytes = do
  (tag, input) ← pop source_bytes
  require (tag == request_tag) value_error
  (kind, _) ← pop input
  type ← set_request_type kind
  request_by_type type source_bytes
