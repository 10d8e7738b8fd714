-- ===== src/Xdlms/Set/RoundTrip.antt =====
-- Requests and responses of the SET service (dlms_cosem/protocol/xdlms/set.py), written and read.
use dlms_cosem.Prelude.{
  ℕ, ◌^◌, ◌<◌, ◌≡◌, refl, sym, ap, arith, Bool, true, none, List, [], ◌∷◌, ◌++◌, ◌==◌, length, take,
  ok, ◌>>=◌, int_from_bytes, int_to_bytes-ok, int_from_bytes-be_digits, be_digits,
}
use dlms_cosem.Data.VariableInteger.{decode_variable_integer, decode-encode}
use dlms_cosem.Cosem.Method.{IsMethod, method_bytes, one_byte}
use dlms_cosem.Cosem.Method
use dlms_cosem.Xdlms.InvokeId.{InvokeIdAndPriority, priority_byte}
use dlms_cosem.Xdlms.InvokeId
use dlms_cosem.Xdlms.Enumerations.{
  data_access_result_value, data_access_result-value, data_access_result_bound,
}
use dlms_cosem.Xdlms.GetResponse.RoundTrip.{invoke_pops}
use dlms_cosem.Xdlms.Set.RequestKind.{SetRequestType, set_request_type, set_request_type_value}
use dlms_cosem.Xdlms.Set.RequestKind
use dlms_cosem.Xdlms.Set.ResponseKind.{SetResponseType, set_response_type, set_response_type_value}
use dlms_cosem.Xdlms.Set.ResponseKind
use dlms_cosem.Xdlms.Set.Defs.{
  SetRequest, SetResponse, set_response_normal, set_response_with_block, set_response_last_block,
  request_opening, normal_to_bytes, first_block_to_bytes, is_normal, is_first_block, open_request,
  request_of, normal_from_bytes, first_block_from_bytes, response_opening, to_bytes, by_type,
  from_bytes, request_by_type, request_factory,
}

response_opening_lem :
    (k : SetResponseType) (i : InvokeIdAndPriority)
    → i.invoke_id < 16
    → response_opening k i ≡ ok (197 ∷ set_response_type_value k ∷ priority_byte i ∷ [])
unfolding response_opening
response_opening_lem k i h = rw (InvokeId.to_bytes_lem i h) refl

-- The invoke id, and the block number, which is 0 where there is none.
abbrev pub invoke_of : SetResponse → InvokeIdAndPriority
invoke_of (set_response_normal _ i) = i
invoke_of (set_response_with_block i _) = i
invoke_of (set_response_last_block _ i _) = i

abbrev pub block_number_of : SetResponse → ℕ
block_number_of (set_response_normal _ _) = 0
block_number_of (set_response_with_block _ n) = n
block_number_of (set_response_last_block _ _ n) = n

number_read : (n : ℕ) → n < 256 ^ 4 → int_from_bytes (take 4 (be_digits 4 n)) ≡ n
number_read n h = int_from_bytes-be_digits 4 n h

-- A response whose invoke id and block number fit is written, and the factory reads it back with its
-- class.
pub set_response_round_trip :
    (r : SetResponse)
    → (invoke_of r).invoke_id < 16
    → block_number_of r < 256 ^ 4
    → (to_bytes r >>= from_bytes) ≡ ok r
unfolding to_bytes from_bytes by_type set_response_type set_response_type_value
set_response_round_trip (set_response_normal e i) h b =
    rw (response_opening_lem ResponseKind.normal i h) (
      rw (one_byte (data_access_result_value e) (data_access_result_bound e)) (
        rw (invoke_pops i (data_access_result_value e ∷ []) h)
          (rw (data_access_result-value e) refl)))
set_response_round_trip (set_response_with_block i n) h b =
    rw (response_opening_lem ResponseKind.with_block i h) (
      rw (int_to_bytes-ok 4 n b) (
        rw (invoke_pops i (be_digits 4 n) h)
          (ap (λ m. ok (set_response_with_block i m)) (number_read n b))))
set_response_round_trip (set_response_last_block e i n) h b =
    rw (response_opening_lem ResponseKind.with_last_block i h) (
      rw (one_byte (data_access_result_value e) (data_access_result_bound e)) (
        rw (int_to_bytes-ok 4 n b) (
          rw (invoke_pops i (data_access_result_value e ∷ be_digits 4 n) h) (
            rw (data_access_result-value e)
              (ap (λ m. ok (set_response_last_block e i m)) (number_read n b))))))

-- A request without an access selection, up to what follows it.
abbrev opened_bytes : SetRequestType → SetRequest → List ℕ → List ℕ
opened_bytes k r rest =
    193
    ∷ set_request_type_value k
    ∷ priority_byte r.invoke_id_and_priority
    ∷ (method_bytes r.cosem_attribute ++ (0 ∷ rest))

request_opening_lem :
    (k : SetRequestType) (r : SetRequest) (rest : List ℕ)
    → r.invoke_id_and_priority.invoke_id < 16
    → IsMethod r.cosem_attribute
    → r.access_selection ≡ none
    → (request_opening k r >>= λ head. ok (head ++ rest)) ≡ ok (opened_bytes k r rest)
unfolding request_opening
request_opening_lem k r rest h m none_selected =
    rw (InvokeId.to_bytes_lem r.invoke_id_and_priority h)
      (rw (Method.to_bytes_lem r.cosem_attribute m) (rw none_selected refl))

open_request_lem :
    (is_kind : SetRequestType → Bool) (k : SetRequestType) (r : SetRequest) (rest : List ℕ)
    → r.invoke_id_and_priority.invoke_id < 16
    → is_kind k ≡ true
    → set_request_type (set_request_type_value k) ≡ ok k
    → open_request is_kind (opened_bytes k r rest)
      ≡ ok (r.invoke_id_and_priority, r.cosem_attribute, rest)
unfolding open_request
open_request_lem is_kind k r rest h e f = rw f (
    rw e (
      rw (invoke_pops r.invoke_id_and_priority (method_bytes r.cosem_attribute ++ (0 ∷ rest)) h)
        (rw (Method.from_bytes_lem r.cosem_attribute) refl)))

same_number : (n : ℕ) → (n == n) ≡ true
same_number n = ground arith

unselected :
    (r : SetRequest)
    → r.access_selection ≡ none
    → request_of r.invoke_id_and_priority r.cosem_attribute r.octets ≡ r
unselected r e = ap (λ s. record r { access_selection = s }) (sym e)

normal_lem :
    (r : SetRequest)
    → r.invoke_id_and_priority.invoke_id < 16
    → r.access_selection ≡ none
    → request_factory (opened_bytes RequestKind.normal r r.octets) ≡ ok (RequestKind.normal, r)
unfolding request_factory request_by_type normal_from_bytes set_request_type set_request_type_value
normal_lem r h e =
    rw (open_request_lem is_normal RequestKind.normal r r.octets h (unfold is_normal in refl) refl)
      (ap (λ q. ok (RequestKind.normal, q)) (unselected r e))

first_block_lem :
    (r : SetRequest) (size : List ℕ)
    → r.invoke_id_and_priority.invoke_id < 16
    → r.access_selection ≡ none
    → decode_variable_integer (size ++ r.octets) ≡ ok (length r.octets, r.octets)
    → request_factory
        (opened_bytes RequestKind.with_first_block r (0 ∷ 0 ∷ 0 ∷ 0 ∷ 1 ∷ (size ++ r.octets)))
      ≡ ok (RequestKind.with_first_block, r)
unfolding request_factory request_by_type first_block_from_bytes set_request_type
    set_request_type_value
first_block_lem r size h e d =
    rw
      (open_request_lem is_first_block RequestKind.with_first_block r
        (0 ∷ 0 ∷ 0 ∷ 0 ∷ 1 ∷ (size ++ r.octets)) h (unfold is_first_block in refl) refl)
      (rw d (
        rw (same_number (length r.octets))
          (ap (λ q. ok (RequestKind.with_first_block, q)) (unselected r e))))

-- A request without an access selection, whose invoke id, attribute and length fit, is written by
-- either class and read back by the factory as of that class.
pub set_request_round_trip :
    (r : SetRequest)
    → r.invoke_id_and_priority.invoke_id < 16
    → IsMethod r.cosem_attribute
    → r.access_selection ≡ none
    → length r.octets < 256 ^ 127
    → ((normal_to_bytes r >>= request_factory) ≡ ok (RequestKind.normal, r))
      × ((first_block_to_bytes r >>= request_factory) ≡ ok (RequestKind.with_first_block, r))
unfolding normal_to_bytes first_block_to_bytes
set_request_round_trip r h m e few =
    let (size, written, read) = decode-encode (length r.octets) r.octets few in
    (
      rw (request_opening_lem RequestKind.normal r r.octets h m e) (normal_lem r h e),
      rw written (
          rw
            (request_opening_lem RequestKind.with_first_block r
              (0 ∷ 0 ∷ 0 ∷ 0 ∷ 1 ∷ (size ++ r.octets)) h m e)
            (first_block_lem r size h e read)),
    )
