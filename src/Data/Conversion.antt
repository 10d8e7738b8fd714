-- ===== src/Data/Conversion.antt =====
-- `from_bytes`, `value_to_bytes` and `to_bytes` of the classes of dlms_cosem/dlms_data.py.
use dlms_cosem.Prelude.{
  ℕ, ◌==◌, Option, none, some, List, [], ◌∷◌, ◌++◌, length, ltb, if◌then◌else◌, truthy, Result, ok,
  raise, ◌>>=◌, ◌>>◌, require, not_implemented_error, value_error, int_to_bytes, int_from_bytes,
  signed_to_bytes, signed_from_bytes,
}
use dlms_cosem.Data.VariableInteger.{encode_variable_integer}
use dlms_cosem.Data.Types.{
  Scalar, null_data, boolean_data, bit_string_data, double_long_data, double_long_unsigned_data,
  octet_string_data, visible_string_data, integer_data, long_data, unsigned_integer_data,
  unsigned_long_data, long64_data, unsigned_long64_data, enum_data, float32_data, float64_data,
  date_time_data, date_data, time_data, DlmsData, scalar, data_array, data_structure, Items, nil,
  cons, count, DataClass, null, array, structure, boolean, double_long, double_long_unsigned,
  octet_string, visible_string, integer, long, unsigned_integer, unsigned_long, long64,
  unsigned_long64, enum, float32, float64, date_time, date, time, tag, length_of, class_of,
}

-- The struct module on "!f" and "!d", and the readers of dlms_cosem/time.py.
pub record ValueCodec (Value : Type 0) : Type 0 where
  pub pack_float32 : Value → Result (List ℕ)
  pub unpack_float32 : List ℕ → Result Value
  pub pack_float64 : Value → Result (List ℕ)
  pub unpack_float64 : List ℕ → Result Value
  pub datetime_from_bytes : List ℕ → Result Value
  pub date_from_bytes : List ℕ → Result Value
  pub time_from_bytes : List ℕ → Result Value

-- The ASCII codec on code points; its errors are ValueErrors.
unfoldable pub ascii : List ℕ → Result (List ℕ)
ascii [] = ok []
ascii (c ∷ cs) = do require (ltb c 128) value_error; rest ← ascii cs; ok (c ∷ rest)

module _ {Value : Type 0} (codec : ValueCodec Value) where
  unfoldable pub class_from_bytes : DataClass → List ℕ → Result (Scalar Value)
  class_from_bytes null bytes_data = ok null_data
  class_from_bytes boolean bytes_data = ok (boolean_data (truthy (int_from_bytes bytes_data)))
  class_from_bytes double_long bytes_data = ok (double_long_data (signed_from_bytes bytes_data))
  class_from_bytes double_long_unsigned bytes_data =
      ok (double_long_unsigned_data (int_from_bytes bytes_data))
  class_from_bytes octet_string bytes_data = ok (octet_string_data bytes_data)
  class_from_bytes visible_string bytes_data =
      ascii bytes_data >>= λ text. ok (visible_string_data text)
  class_from_bytes integer bytes_data = ok (integer_data (signed_from_bytes bytes_data))
  class_from_bytes long bytes_data = ok (long_data (signed_from_bytes bytes_data))
  class_from_bytes unsigned_integer bytes_data =
      ok (unsigned_integer_data (int_from_bytes bytes_data))
  class_from_bytes unsigned_long bytes_data = ok (unsigned_long_data (int_from_bytes bytes_data))
  class_from_bytes long64 bytes_data = ok (long64_data (signed_from_bytes bytes_data))
  class_from_bytes unsigned_long64 bytes_data =
      ok (unsigned_long64_data (int_from_bytes bytes_data))
  class_from_bytes enum bytes_data = ok (enum_data (int_from_bytes bytes_data))
  class_from_bytes float32 bytes_data = codec.unpack_float32 bytes_data >>= λ v. ok (float32_data v)
  class_from_bytes float64 bytes_data = codec.unpack_float64 bytes_data >>= λ v. ok (float64_data v)
  class_from_bytes date_time bytes_data = do
    require (length bytes_data == 12) value_error
    v ← codec.datetime_from_bytes bytes_data
    ok (date_time_data v)
  class_from_bytes date bytes_data = do
    require (length bytes_data == 5) value_error
    v ← codec.date_from_bytes bytes_data
    ok (date_data v)
  class_from_bytes time bytes_data = do
    require (length bytes_data == 4) value_error
    v ← codec.time_from_bytes bytes_data
    ok (time_data v)
  -- the classes that inherit `from_bytes`
  class_from_bytes _ bytes_data = raise not_implemented_error

  unfoldable pub value_to_bytes : Scalar Value → Result (List ℕ)
  value_to_bytes (boolean_data v) = ok (if v then 0xff ∷ [] else 0x00 ∷ [])
  value_to_bytes (bit_string_data v) = ok v
  value_to_bytes (double_long_data v) = signed_to_bytes 4 v
  value_to_bytes (double_long_unsigned_data v) = int_to_bytes 4 v
  value_to_bytes (octet_string_data v) = ok v
  value_to_bytes (visible_string_data v) = ascii v
  value_to_bytes (integer_data v) = signed_to_bytes 1 v
  value_to_bytes (long_data v) = signed_to_bytes 2 v
  value_to_bytes (unsigned_integer_data v) = int_to_bytes 1 v
  value_to_bytes (unsigned_long_data v) = int_to_bytes 2 v
  value_to_bytes (long64_data v) = signed_to_bytes 8 v
  value_to_bytes (unsigned_long64_data v) = int_to_bytes 8 v
  value_to_bytes (enum_data v) = int_to_bytes 1 v
  value_to_bytes (float32_data v) = codec.pack_float32 v
  value_to_bytes (float64_data v) = codec.pack_float64 v
  -- the classes that inherit `value_to_bytes`
  value_to_bytes _ = raise not_implemented_error

  -- `out.append(len(value_bytes))`, where the length is variable: a bytearray takes no more than 255.
  unfoldable pub length_part : Option ℕ → List ℕ → Result (List ℕ)
  length_part (some n) value_bytes = ok []
  length_part none value_bytes = do
    require (ltb (length value_bytes) 256) value_error
    ok (length value_bytes ∷ [])

  -- BaseDlmsData.to_bytes
  unfoldable pub scalar_to_bytes : Scalar Value → Result (List ℕ)
  scalar_to_bytes s = do
    value_bytes ← value_to_bytes s
    length_bytes ← length_part (length_of (class_of s)) value_bytes
    ok (tag (class_of s) ∷ (length_bytes ++ value_bytes))

  -- `to_bytes` of any object; those of DataArray and DataStructure differ in the tag.
  unfoldable mutual
    pub to_bytes : DlmsData Value → Result (List ℕ)
    to_bytes (scalar s) = scalar_to_bytes s
    to_bytes (data_array items) = do
      length_bytes ← encode_variable_integer (count items)
      item_bytes ← items_to_bytes items
      ok (tag array ∷ (length_bytes ++ item_bytes))
    to_bytes (data_structure items) = do
      length_bytes ← encode_variable_integer (count items)
      item_bytes ← items_to_bytes items
      ok (tag structure ∷ (length_bytes ++ item_bytes))

    pub items_to_bytes : Items Value → Result (List ℕ)
    items_to_bytes nil = ok []
    items_to_bytes (cons d ds) = do first ← to_bytes d; rest ← items_to_bytes ds; ok (first ++ rest)
