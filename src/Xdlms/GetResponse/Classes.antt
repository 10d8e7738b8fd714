-- ===== src/Xdlms/GetResponse/Classes.antt =====
-- The `from_bytes` of each response class of the GET service (dlms_cosem/protocol/xdlms/get.py).
use dlms_cosem.Prelude.{
  ℕ, List, not, ◌==◌, take, drop, Result, ok, ◌>>=◌, ◌>>◌, require, value_error, truthy,
  int_from_bytes, pop,
}
use dlms_cosem.Xdlms.InvokeId.{InvokeIdAndPriority}
use dlms_cosem.Xdlms.Enumerations.{data_access_result}
use dlms_cosem.Xdlms.GetResponse.Kind.{
  GetResponseType, normal, with_block, get_response_type, get_response_type_value,
}
use dlms_cosem.Xdlms.GetResponse.Defs.{
  GetResponse, get_response_normal, get_response_normal_with_error, get_response_with_block,
  get_response_last_block, get_response_last_block_with_error, tag, pop_invoke, only_error,
  only_octets,
}

-- What every class reads first: the tag, its own response type and the invoke id.
unfoldable pub class_opening : GetResponseType → List ℕ → Result (InvokeIdAndPriority × List ℕ)
unfolding pop_invoke get_response_type get_response_type_value
class_opening kind source_bytes = do
  (first, after_tag) ← pop source_bytes
  require (first == tag) value_error
  (code, after_type) ← pop after_tag
  response_type ← get_response_type code
  require (get_response_type_value response_type == get_response_type_value kind) value_error
  pop_invoke after_type

unfoldable pub normal_class : List ℕ → Result GetResponse
unfolding class_opening
normal_class source_bytes = do
  (invoke, input) ← class_opening normal source_bytes
  (choice, octets) ← pop input
  require (choice == 0) value_error
  ok (get_response_normal octets invoke)

-- Bytes behind the error code are ignored.
unfoldable pub error_class : List ℕ → Result GetResponse
unfolding class_opening data_access_result
error_class source_bytes = do
  (invoke, input) ← class_opening normal source_bytes
  (choice, behind) ← pop input
  require (choice == 1) value_error
  (code, _) ← pop behind
  error ← data_access_result code
  ok (get_response_normal_with_error error invoke)

unfoldable pub block_class : List ℕ → Result GetResponse
unfolding class_opening only_octets
block_class source_bytes = do
  (invoke, input) ← class_opening with_block source_bytes
  (last_block, behind) ← pop input
  require (not (truthy last_block)) value_error
  let block_number = int_from_bytes (take 4 behind)
  (choice, body) ← pop (drop 4 behind)
  require (choice == 0) value_error
  octets ← only_octets body
  ok (get_response_with_block octets block_number invoke)

unfoldable pub last_block_class : List ℕ → Result GetResponse
unfolding class_opening only_octets
last_block_class source_bytes = do
  (invoke, input) ← class_opening with_block source_bytes
  (last_block, behind) ← pop input
  require (truthy last_block) value_error
  let block_number = int_from_bytes (take 4 behind)
  (choice, body) ← pop (drop 4 behind)
  require (choice == 0) value_error
  octets ← only_octets body
  ok (get_response_last_block octets block_number invoke)

unfoldable pub last_error_class : List ℕ → Result GetResponse
unfolding class_opening only_error
last_error_class source_bytes = do
  (invoke, input) ← class_opening with_block source_bytes
  (last_block, behind) ← pop input
  require (truthy last_block) value_error
  let block_number = int_from_bytes (take 4 behind)
  (choice, body) ← pop (drop 4 behind)
  require (choice == 1) value_error
  error ← only_error body
  ok (get_response_last_block_with_error error block_number invoke)
