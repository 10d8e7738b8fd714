-- ===== src/Xdlms/GetResponse/Defs.antt =====
-- The responses of the GET service: dlms_cosem/protocol/xdlms/get.py. `GetResponseWithList` reads
-- DLMS data and is a parameter of the factory.
use dlms_cosem.Prelude.{
  ℕ, Option, none, some, List, ◌∷◌, ◌++◌, ◌==◌, if◌then◌else◌, length, take, drop, Result, ok,
  raise, ◌>>=◌, ◌>>◌, require, value_error, assertion_error, truthy, int_to_bytes, int_from_bytes,
  pop,
}
use dlms_cosem.Data.VariableInteger.{encode_variable_integer, decode_variable_integer}
use dlms_cosem.Xdlms.InvokeId
use dlms_cosem.Xdlms.InvokeId.{InvokeIdAndPriority}
use dlms_cosem.Xdlms.Enumerations.{DataAccessResult, data_access_result, data_access_result_value}
use dlms_cosem.Xdlms.GetResponse.Kind.{
  GetResponseType, normal, with_block, with_list, get_response_type, get_response_type_value,
}

pub data GetResponse : Type 0 where
  get_response_normal : List ℕ → InvokeIdAndPriority → GetResponse
  get_response_normal_with_error : DataAccessResult → InvokeIdAndPriority → GetResponse
  get_response_with_block : List ℕ → ℕ → InvokeIdAndPriority → GetResponse
  get_response_last_block : List ℕ → ℕ → InvokeIdAndPriority → GetResponse
  get_response_last_block_with_error : DataAccessResult → ℕ → InvokeIdAndPriority → GetResponse

abbrev pub tag : ℕ
tag = 196

-- The bytes that open every response.
unfoldable pub opening : GetResponseType → InvokeIdAndPriority → Result (List ℕ)
unfolding get_response_type_value
opening kind invoke_id_and_priority = do
  invoke ← InvokeId.to_bytes invoke_id_and_priority
  ok (tag ∷ get_response_type_value kind ∷ invoke)

-- The block number and the octet string with its length.
unfoldable pub block : ℕ → List ℕ → Result (List ℕ)
block block_number octets = do
  number ← int_to_bytes 4 block_number
  octets_length ← encode_variable_integer (length octets)
  ok (number ++ (0 ∷ (octets_length ++ octets)))

unfoldable pub normal_to_bytes : List ℕ → InvokeIdAndPriority → Result (List ℕ)
unfolding opening
normal_to_bytes octets invoke = do head ← opening normal invoke; ok (head ++ (0 ∷ octets))

unfoldable pub error_to_bytes : DataAccessResult → InvokeIdAndPriority → Result (List ℕ)
unfolding opening data_access_result_value
error_to_bytes error invoke = do
  head ← opening normal invoke
  code ← int_to_bytes 1 (data_access_result_value error)
  ok (head ++ (1 ∷ code))

unfoldable pub block_to_bytes : List ℕ → ℕ → InvokeIdAndPriority → Result (List ℕ)
unfolding opening block
block_to_bytes octets block_number invoke = do
  head ← opening with_block invoke
  body ← block block_number octets
  ok (head ++ (0 ∷ body))

unfoldable pub last_block_to_bytes : List ℕ → ℕ → InvokeIdAndPriority → Result (List ℕ)
unfolding opening block
last_block_to_bytes octets block_number invoke = do
  head ← opening with_block invoke
  body ← block block_number octets
  ok (head ++ (1 ∷ body))

unfoldable pub last_error_to_bytes : DataAccessResult → ℕ → InvokeIdAndPriority → Result (List ℕ)
unfolding opening data_access_result_value
last_error_to_bytes error block_number invoke = do
  head ← opening with_block invoke
  number ← int_to_bytes 4 block_number
  code ← int_to_bytes 1 (data_access_result_value error)
  ok (head ++ (1 ∷ (number ++ (1 ∷ code))))

-- The method of the class of the response.
unfoldable pub to_bytes : GetResponse → Result (List ℕ)
unfolding normal_to_bytes error_to_bytes block_to_bytes last_block_to_bytes last_error_to_bytes
to_bytes (get_response_normal octets invoke) = normal_to_bytes octets invoke
to_bytes (get_response_normal_with_error error invoke) = error_to_bytes error invoke
to_bytes (get_response_with_block octets block_number invoke) =
    block_to_bytes octets block_number invoke
to_bytes (get_response_last_block octets block_number invoke) =
    last_block_to_bytes octets block_number invoke
to_bytes (get_response_last_block_with_error error block_number invoke) =
    last_error_to_bytes error block_number invoke

-- `InvokeIdAndPriority.from_bytes(data.pop(0).to_bytes(1, "big"))`
unfoldable pub pop_invoke : List ℕ → Result (InvokeIdAndPriority × List ℕ)
pop_invoke input = do
  (b, rest) ← pop input
  byte ← int_to_bytes 1 b
  invoke ← InvokeId.from_bytes byte
  ok (invoke, rest)

-- `enums.DataAccessResult(data.pop(0))` where one byte must be left.
unfoldable pub only_error : List ℕ → Result DataAccessResult
unfolding data_access_result
only_error input = do
  require (length input == 1) assertion_error
  (code, _) ← pop input
  data_access_result code

-- The octet string of a block.
unfoldable pub only_octets : List ℕ → Result (List ℕ)
only_octets input = do
  (data_length, octets) ← decode_variable_integer input
  require (data_length == length octets) value_error
  ok octets

-- A response of type NORMAL; with a choice other than 0 and 1 the method ends without a value.
unfoldable pub normal_from_bytes : InvokeIdAndPriority → List ℕ → Result (Option GetResponse)
unfolding only_error
normal_from_bytes invoke input = do
  (choice, octets) ← pop input
  if choice == 0
      then ok (some (get_response_normal octets invoke))
      else if choice == 1
      then (do error ← only_error octets; ok (some (get_response_normal_with_error error invoke)))
      else ok none

-- A response of type WITH_BLOCK, likewise.
unfoldable pub block_from_bytes : InvokeIdAndPriority → List ℕ → Result (Option GetResponse)
unfolding only_error only_octets
block_from_bytes invoke input = do
  (last, behind) ← pop input
  let block_number = int_from_bytes (take 4 behind)
  (choice, body) ← pop (drop 4 behind)
  if choice == 0
      then (do
        octets ← only_octets body
        ok (
            some (
              if truthy last
              then get_response_last_block octets block_number invoke
              else get_response_with_block octets block_number invoke)))
      else if choice == 1
      then (do
        error ← only_error body
        if truthy last
            then ok (some (get_response_last_block_with_error error block_number invoke))
            else raise value_error)
      else ok none

-- GetResponseFactory.from_bytes
module _ (with_list_from_bytes : List ℕ → Result (Option GetResponse)) where
  unfoldable pub by_type :
      GetResponseType → InvokeIdAndPriority → List ℕ → List ℕ → Result (Option GetResponse)
  unfolding normal_from_bytes block_from_bytes
  by_type normal invoke input source_bytes = normal_from_bytes invoke input
  by_type with_block invoke input source_bytes = block_from_bytes invoke input
  by_type with_list invoke input source_bytes = with_list_from_bytes source_bytes

  unfoldable pub from_bytes : List ℕ → Result (Option GetResponse)
  unfolding pop_invoke get_response_type by_type
  from_bytes source_bytes = do
    (first, after_tag) ← pop source_bytes
    require (first == tag) value_error
    (kind, after_type) ← pop after_tag
    response_type ← get_response_type kind
    (invoke, input) ← pop_invoke after_type
    by_type response_type invoke input source_bytes
