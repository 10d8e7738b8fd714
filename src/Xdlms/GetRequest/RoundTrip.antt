-- ===== src/Xdlms/GetRequest/RoundTrip.antt =====
-- Requests of the GET service (dlms_cosem/protocol/xdlms/get.py), written and read.
use dlms_cosem.Prelude.{
  ℕ, ◌^◌, ◌<◌, ◌≡◌, refl, sym, ap, ◌∙◌, List, [], ◌∷◌, ◌++◌, append-nil, length, drop, drop_prefix,
  ok, ◌>>=◌, int_to_bytes-ok, int_from_bytes-be_digits, be_digits,
}
use dlms_cosem.Data.VariableInteger.{encode_short}
use dlms_cosem.Cosem.Descriptors.{RangeCodec}
use dlms_cosem.Cosem.Selection.{
  CosemAttributeWithSelection, IsWhole, whole_bytes, to_bytes_lem, from_bytes_lem,
}
use dlms_cosem.Cosem.Selection
use dlms_cosem.Xdlms.InvokeId
use dlms_cosem.Xdlms.InvokeId.{InvokeIdAndPriority, priority_byte}
use dlms_cosem.Xdlms.GetResponse.RoundTrip.{invoke_pops}
use dlms_cosem.Xdlms.GetRequest.Kind.{
  GetRequestType, normal, next, with_list, get_request_type, get_request_type_value,
}
use dlms_cosem.Xdlms.GetRequest.Defs.{
  GetRequest, get_request_normal, get_request_next, get_request_with_list, opening, list_to_bytes,
  to_bytes, list_from_bytes, by_type, from_bytes,
}

opening_lem :
    (k : GetRequestType) (i : InvokeIdAndPriority)
    → i.invoke_id < 16
    → opening k i ≡ ok (192 ∷ get_request_type_value k ∷ priority_byte i ∷ [])
unfolding opening
opening_lem k i h = rw (InvokeId.to_bytes_lem i h) refl

module _ {RangeDescriptor : Type 0} (ranges : RangeCodec RangeDescriptor) where
  abbrev pub AllWhole : List (CosemAttributeWithSelection RangeDescriptor) → Type 0
  AllWhole [] = Unit {0}
  AllWhole (c ∷ cs) = IsWhole ranges c × AllWhole cs

  abbrev list_bytes :
      (cs : List (CosemAttributeWithSelection RangeDescriptor)) → AllWhole cs → List ℕ
  list_bytes [] h = []
  list_bytes (c ∷ cs) h = whole_bytes ranges c ++ list_bytes cs h.1

  list_to_bytes_lem :
      (cs : List (CosemAttributeWithSelection RangeDescriptor)) (h : AllWhole cs)
      → list_to_bytes ranges cs ≡ ok (list_bytes cs h)
  unfolding list_to_bytes
  list_to_bytes_lem [] h = refl
  list_to_bytes_lem (c ∷ cs) h = rw (to_bytes_lem ranges c h.0) (rw (list_to_bytes_lem cs h.1) refl)

  list_from_bytes_lem :
      (cs : List (CosemAttributeWithSelection RangeDescriptor)) (h : AllWhole cs)
      → list_from_bytes ranges (length cs) (list_bytes cs h) ≡ ok cs
  unfolding list_from_bytes
  list_from_bytes_lem [] h = refl
  list_from_bytes_lem (c ∷ cs) h =
      let again : drop (length (whole_bytes ranges c)) (whole_bytes ranges c ++ list_bytes cs h.1)
          ≡ list_bytes cs h.1 =
        drop_prefix (whole_bytes ranges c) (list_bytes cs h.1) _ refl in
      rw (from_bytes_lem ranges c h.0 (list_bytes cs h.1))
        (rw (to_bytes_lem ranges c h.0) (rw again (rw (list_from_bytes_lem cs h.1) refl)))

  abbrev pub invoke_of : GetRequest RangeDescriptor → InvokeIdAndPriority
  invoke_of (get_request_normal _ i) = i
  invoke_of (get_request_next _ i) = i
  invoke_of (get_request_with_list _ i) = i

  -- The attributes fit and have no access selection; a block number fits four bytes and the number
  -- of attributes seven bits.
  abbrev pub InRange : GetRequest RangeDescriptor → Type 0
  InRange (get_request_normal c i) = IsWhole ranges c
  InRange (get_request_next n i) = n < 256 ^ 4
  InRange (get_request_with_list cs i) = (length cs < 128) × AllWhole cs

  -- A request whose invoke id fits is written, and the factory reads it back with its class, where
  -- its attributes fit their bytes and have no access selection, a block number is under 256 ^ 4 and
  -- a list has fewer than 128 attributes.
  pub get_request_round_trip :
      (r : GetRequest RangeDescriptor)
      → (invoke_of r).invoke_id < 16
      → InRange r
      → (to_bytes ranges r >>= from_bytes ranges) ≡ ok r
  unfolding to_bytes from_bytes by_type get_request_type get_request_type_value
  get_request_round_trip (get_request_normal c i) h s = rw (opening_lem normal i h) (
      rw (to_bytes_lem ranges c s) (
        rw (invoke_pops i (whole_bytes ranges c) h) (
          rw
            (ap (Selection.from_bytes ranges) (sym (append-nil (whole_bytes ranges c)))
              ∙ from_bytes_lem ranges c s [])
            refl)))
  get_request_round_trip (get_request_next n i) h s = rw (opening_lem next i h) (
      rw (int_to_bytes-ok 4 n s) (
        rw (invoke_pops i (be_digits 4 n) h)
          (ap (λ m. ok (get_request_next m i)) (int_from_bytes-be_digits 4 n s))))
  get_request_round_trip (get_request_with_list cs i) h (few, s) = rw (opening_lem with_list i h) (
      rw (encode_short (length cs) few) (
        rw (list_to_bytes_lem cs s) (
          rw (invoke_pops i (length cs ∷ list_bytes cs s) h) (rw (list_from_bytes_lem cs s) refl))))
