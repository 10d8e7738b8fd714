-- ===== src/Xdlms/GetRequest/Defs.antt =====
-- GetRequestNormal, GetRequestNext, GetRequestWithList and GetRequestFactory of
-- dlms_cosem/protocol/xdlms/get.py.
use dlms_cosem.Prelude.{
  ℕ, zero, suc, List, [], ◌∷◌, ◌++◌, ◌==◌, length, drop, Result, ok, ◌>>=◌, ◌>>◌, require,
  value_error, assertion_error, int_to_bytes, int_from_bytes, pop,
}
use dlms_cosem.Data.VariableInteger.{encode_variable_integer}
use dlms_cosem.Cosem.Descriptors.{RangeCodec}
use dlms_cosem.Cosem.Selection.{CosemAttributeWithSelection}
use dlms_cosem.Cosem.Selection
use dlms_cosem.Xdlms.InvokeId
use dlms_cosem.Xdlms.InvokeId.{InvokeIdAndPriority}
use dlms_cosem.Xdlms.GetResponse.Defs.{pop_invoke}
use dlms_cosem.Xdlms.GetRequest.Kind.{
  GetRequestType, normal, next, with_list, get_request_type, get_request_type_value,
}

-- The attribute of a GetRequestNormal and its selection are written as those of a list are.
pub data GetRequest (RangeDescriptor : Type 0) : Type 0 where
  get_request_normal :
      CosemAttributeWithSelection RangeDescriptor → InvokeIdAndPriority → GetRequest RangeDescriptor
  get_request_next : ℕ → InvokeIdAndPriority → GetRequest RangeDescriptor
  get_request_with_list :
      List (CosemAttributeWithSelection RangeDescriptor)
      → InvokeIdAndPriority
      → GetRequest RangeDescriptor

abbrev pub tag : ℕ
tag = 192

unfoldable pub opening : GetRequestType → InvokeIdAndPriority → Result (List ℕ)
opening kind invoke_id_and_priority = do
  invoke ← InvokeId.to_bytes invoke_id_and_priority
  ok (tag ∷ get_request_type_value kind ∷ invoke)

module _ {RangeDescriptor : Type 0} (ranges : RangeCodec RangeDescriptor) where
  unfoldable pub list_to_bytes :
      List (CosemAttributeWithSelection RangeDescriptor) → Result (List ℕ)
  list_to_bytes [] = ok []
  list_to_bytes (item ∷ items) = do
    first ← Selection.to_bytes ranges item
    rest ← list_to_bytes items
    ok (first ++ rest)

  -- The method of the class of the request.
  unfoldable pub to_bytes : GetRequest RangeDescriptor → Result (List ℕ)
  to_bytes (get_request_normal attribute invoke) = do
    head ← opening normal invoke
    body ← Selection.to_bytes ranges attribute
    ok (head ++ body)
  to_bytes (get_request_next block_number invoke) = do
    head ← opening next invoke
    number ← int_to_bytes 4 block_number
    ok (head ++ number)
  to_bytes (get_request_with_list attributes invoke) = do
    head ← opening with_list invoke
    number_of_items ← encode_variable_integer (length attributes)
    items ← list_to_bytes attributes
    ok (head ++ (number_of_items ++ items))

  -- The loop over the items: the length of one is that of writing it again.
  unfoldable pub list_from_bytes :
      ℕ → List ℕ → Result (List (CosemAttributeWithSelection RangeDescriptor))
  list_from_bytes zero input = ok []
  list_from_bytes (suc n) input = do
    item ← Selection.from_bytes ranges input
    again ← Selection.to_bytes ranges item
    items ← list_from_bytes n (drop (length again) input)
    ok (item ∷ items)

  -- What follows the tag and the type, which the factory and the class that it calls check alike.
  unfoldable pub by_type : GetRequestType → List ℕ → Result (GetRequest RangeDescriptor)
  by_type normal input = do
    (invoke, rest) ← pop_invoke input
    attribute ← Selection.from_bytes ranges rest
    ok (get_request_normal attribute invoke)
  by_type next input = do
    (invoke, rest) ← pop_invoke input
    require (length rest == 4) assertion_error
    ok (get_request_next (int_from_bytes rest) invoke)
  by_type with_list input = do
    (invoke, rest) ← pop_invoke input
    (number_of_items, items) ← pop rest
    attributes ← list_from_bytes number_of_items items
    ok (get_request_with_list attributes invoke)

  -- GetRequestFactory.from_bytes
  unfoldable pub from_bytes : List ℕ → Result (GetRequest RangeDescriptor)
  from_bytes source_bytes = do
    (t, input) ← pop source_bytes
    require (t == tag) value_error
    (kind, rest) ← pop input
    type ← get_request_type kind
    by_type type rest
