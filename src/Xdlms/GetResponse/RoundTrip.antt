-- ===== src/Xdlms/GetResponse/RoundTrip.antt =====
-- The responses of dlms_cosem/protocol/xdlms/get.py through `to_bytes` and the factory.
use dlms_cosem.Prelude.{
  ℕ, ◌^◌, ◌<◌, ◌≡◌, ◌∙◌, arith, Option, none, some, List, [], ◌∷◌, ◌++◌, ◌==◌, if◌then◌else◌,
  ==_refl, length, Result, ok, raise, ◌>>=◌, value_error, truthy, be_digits, int_to_bytes,
  int_to_bytes-ok, int_from_bytes-be_digits,
}
use dlms_cosem.Data.VariableInteger.{
  encode_variable_integer, decode_variable_integer, decode-encode,
}
use dlms_cosem.Xdlms.InvokeId
use dlms_cosem.Xdlms.InvokeId.{InvokeIdAndPriority, priority_byte}
use dlms_cosem.Xdlms.Enumerations.{
  DataAccessResult, data_access_result_value, data_access_result-value,
}
use dlms_cosem.Xdlms.GetResponse.Kind.{
  GetResponseType, normal, with_block, get_response_type_value, get_response_type-value,
}
use dlms_cosem.Xdlms.GetResponse.Defs.{
  GetResponse, get_response_normal, get_response_normal_with_error, get_response_with_block,
  get_response_last_block, get_response_last_block_with_error, to_bytes, from_bytes, opening, block,
  by_type, block_from_bytes, normal_from_bytes, pop_invoke, only_error, only_octets,
}

abbrev pub invoke_of : GetResponse → InvokeIdAndPriority
invoke_of (get_response_normal _ i) = i
invoke_of (get_response_normal_with_error _ i) = i
invoke_of (get_response_with_block _ _ i) = i
invoke_of (get_response_last_block _ _ i) = i
invoke_of (get_response_last_block_with_error _ _ i) = i

abbrev pub block_number_of : GetResponse → ℕ
block_number_of (get_response_with_block _ n _) = n
block_number_of (get_response_last_block _ n _) = n
block_number_of (get_response_last_block_with_error _ n _) = n
block_number_of _ = 0

abbrev pub octets_of : GetResponse → List ℕ
octets_of (get_response_normal octets _) = octets
octets_of (get_response_with_block octets _ _) = octets
octets_of (get_response_last_block octets _ _) = octets
octets_of _ = []

-- The ranges of the fields: four bits of invoke id, 32 bits of block number, and a length that the
-- variable integer can hold.
pub record InRange (g : GetResponse) : Type 0 where
  pub invoke_small : (invoke_of g).invoke_id < 16
  pub number_small : block_number_of g < 256 ^ 4
  pub octets_small : length (octets_of g) < 256 ^ 127

pub invoke_pops :
    (p : InvokeIdAndPriority) (rest : List ℕ)
    → p.invoke_id < 16
    → pop_invoke (priority_byte p ∷ rest) ≡ ok (p, rest)
unfolding pop_invoke
invoke_pops p rest h =
    let byte : int_to_bytes 1 (priority_byte p) ≡ ok (priority_byte p ∷ []) = ground arith in
    rw byte (rw (InvokeId.from_bytes_lem p h))

opening_lem :
    (k : GetResponseType) (p : InvokeIdAndPriority)
    → p.invoke_id < 16
    → opening k p ≡ ok (196 ∷ get_response_type_value k ∷ priority_byte p ∷ [])
unfolding opening
opening_lem k p h = rw (InvokeId.to_bytes_lem p h)

only_octets_lem :
    (octets bytes : List ℕ)
    → decode_variable_integer (bytes ++ octets) ≡ ok (length octets, octets)
    → only_octets (bytes ++ octets) ≡ ok octets
unfolding only_octets
only_octets_lem octets bytes d = rw d (rw (==_refl (length octets)))

error_code :
    (e : DataAccessResult)
    → int_to_bytes 1 (data_access_result_value e) ≡ ok (data_access_result_value e ∷ [])
unfolding data_access_result_value
error_code e = ground arith

only_error_lem : (e : DataAccessResult) → only_error (data_access_result_value e ∷ []) ≡ ok e
unfolding only_error
only_error_lem e = data_access_result-value e

block_lem :
    (n : ℕ) (octets bytes : List ℕ)
    → n < 256 ^ 4
    → encode_variable_integer (length octets) ≡ ok bytes
    → block n octets ≡ ok (be_digits 4 n ++ (0 ∷ (bytes ++ octets)))
unfolding block
block_lem n octets bytes h e = rw (int_to_bytes-ok 4 n h) (rw e)

module _ (with_list_from_bytes : List ℕ → Result (Option GetResponse)) where
  -- Behind tag, type and invoke id the bytes are read by type.
  factory_opens :
      (k : GetResponseType) (p : InvokeIdAndPriority) (rest : List ℕ)
      → p.invoke_id < 16
      → from_bytes with_list_from_bytes (196 ∷ get_response_type_value k ∷ priority_byte p ∷ rest)
        ≡ by_type with_list_from_bytes k p rest
            (196 ∷ get_response_type_value k ∷ priority_byte p ∷ rest)
  unfolding from_bytes
  factory_opens k p rest h = rw (get_response_type-value k) (rw (invoke_pops p rest h))

  block_reads :
      (n : ℕ) (p : InvokeIdAndPriority) (last choice : ℕ) (body : List ℕ)
      → n < 256 ^ 4
      → block_from_bytes p (last ∷ (be_digits 4 n ++ (choice ∷ body))) ≡ (
          if choice == 0
          then (do
            octets ← only_octets body
            ok (
                some (
                  if truthy last
                  then get_response_last_block octets n p
                  else get_response_with_block octets n p)))
          else if choice == 1
          then (do
            error ← only_error body
            if truthy last
                then ok (some (get_response_last_block_with_error error n p))
                else raise value_error)
          else ok none)
  unfolding block_from_bytes
  block_reads n p last choice body h = rw (int_from_bytes-be_digits 4 n h)

  with_octets :
      (octets : List ℕ) (n : ℕ) (p : InvokeIdAndPriority)
      → p.invoke_id < 16
      → n < 256 ^ 4
      → length octets < 256 ^ 127
      → ((to_bytes (get_response_with_block octets n p) >>= from_bytes with_list_from_bytes)
          ≡ ok (some (get_response_with_block octets n p)))
        × ((to_bytes (get_response_last_block octets n p) >>= from_bytes with_list_from_bytes)
            ≡ ok (some (get_response_last_block octets n p)))
  unfolding to_bytes by_type
  with_octets octets n p hp hn ho =
      let (bytes, e, d) = decode-encode (length octets) octets ho in
      let body : List ℕ = be_digits 4 n ++ (0 ∷ (bytes ++ octets)) in
      let read = only_octets_lem octets bytes d in
      (
        rw (opening_lem with_block p hp) (
            rw (block_lem n octets bytes hn e) (
              factory_opens with_block p (0 ∷ body) hp
              ∙ block_reads n p 0 0 (bytes ++ octets) hn
              ∙ rw read)),
        rw (opening_lem with_block p hp) (
            rw (block_lem n octets bytes hn e) (
              factory_opens with_block p (1 ∷ body) hp
              ∙ block_reads n p 1 0 (bytes ++ octets) hn
              ∙ rw read)),
      )

  -- A response with an invoke id of four bits, a block number of 32 bits and data shorter than
  -- 256 ^ 127 bytes, of any of the five classes without lists, is read back by the factory from its
  -- bytes, whatever the parser of lists does.
  pub get_response_round_trip :
      (g : GetResponse) → InRange g → (to_bytes g >>= from_bytes with_list_from_bytes) ≡ ok (some g)
  unfolding to_bytes by_type normal_from_bytes
  get_response_round_trip (get_response_normal octets p) v =
      rw (opening_lem normal p v.invoke_small) (factory_opens normal p (0 ∷ octets) v.invoke_small)
  get_response_round_trip (get_response_normal_with_error e p) v =
      rw (opening_lem normal p v.invoke_small) (
        rw (error_code e) (
          factory_opens normal p (1 ∷ data_access_result_value e ∷ []) v.invoke_small
          ∙ rw (only_error_lem e)))
  get_response_round_trip (get_response_with_block octets n p) v =
      (with_octets octets n p v.invoke_small v.number_small v.octets_small).0
  get_response_round_trip (get_response_last_block octets n p) v =
      (with_octets octets n p v.invoke_small v.number_small v.octets_small).1
  get_response_round_trip (get_response_last_block_with_error e n p) v =
      rw (opening_lem with_block p v.invoke_small) (
        rw (int_to_bytes-ok 4 n v.number_small) (
          rw (error_code e) (
            factory_opens with_block p
              (1 ∷ (be_digits 4 n ++ (1 ∷ data_access_result_value e ∷ []))) v.invoke_small
            ∙ block_reads n p 1 1 (data_access_result_value e ∷ []) v.number_small
            ∙ rw (only_error_lem e))))
