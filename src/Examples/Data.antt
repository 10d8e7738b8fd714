-- ===== src/Examples/Data.antt =====
-- DLMS data of dlms_cosem/dlms_data.py, with numbers for the values of the struct module.
use dlms_cosem.Prelude.{
  ℕ, ◌+◌, ◌≤◌, ◌≡◌, refl, arith, true, none, some, List, [], ◌∷◌, ◌++◌, length, ok, raise,
  value_error, negsuc, signed_to_bytes, not_implemented_error,
}
use dlms_cosem.Data.VariableInteger.{encode_variable_integer}
use dlms_cosem.Data.Types.{
  DlmsData, scalar, data_array, data_structure, Items, nil, cons, null_data, boolean_data,
  double_long_data, octet_string_data, unsigned_integer_data, visible_string_data, octet_string,
  tag, length_of, get_data_class,
}
use dlms_cosem.Data.Conversion.{
  ValueCodec, ascii, class_from_bytes, value_to_bytes, length_part, scalar_to_bytes, to_bytes,
  items_to_bytes,
}
use dlms_cosem.Data.Parser.{
  get_bytes, read_value, sized, decode_data, decode_class, parse_one_entry, parse_loop, parse,
}
use dlms_cosem.Data.RoundTrip.{
  height, WellFormed, items_height, ItemsWellFormed, parse_one_entry-to_bytes,
}
use dlms_cosem.Data.Loop.{entries, parse-to_bytes, parse-truncated}

abbrev no_values : ValueCodec ℕ
no_values = record {
  pack_float32 = λ v. raise value_error;
  unpack_float32 = λ bs. raise value_error;
  pack_float64 = λ v. raise value_error;
  unpack_float64 = λ bs. raise value_error;
  datetime_from_bytes = λ bs. raise value_error;
  date_from_bytes = λ bs. raise value_error;
  time_from_bytes = λ bs. raise value_error;
}

-- An octet string, -5, and an array of 7 and true.
abbrev reading : DlmsData ℕ
reading = data_structure (
    cons (scalar (octet_string_data (1 ∷ 2 ∷ []))) (
      cons (scalar (double_long_data (negsuc 4))) (
        cons
          (data_array
            (cons (scalar (unsigned_integer_data 7)) (cons (scalar (boolean_data true)) nil)))
          nil)))

abbrev reading_bytes : List ℕ
reading_bytes = 2 ∷ 3 ∷ 9 ∷ 2 ∷ 1 ∷ 2 ∷ 5 ∷ 255 ∷ 255 ∷ 255 ∷ 251 ∷ 1 ∷ 2 ∷ 17 ∷ 7 ∷ 3 ∷ 255 ∷ []

reading_written : to_bytes no_values reading ≡ ok reading_bytes
unfolding to_bytes scalar_to_bytes value_to_bytes length_part tag length_of encode_variable_integer
    signed_to_bytes
reading_written = refl

reading-WellFormed : WellFormed no_values reading
unfolding WellFormed
reading-WellFormed = omega arith

reading-height : height no_values reading ≤ 3
unfolding height
reading-height = omega arith

parse_one_entry-to_bytes_example :
    parse_one_entry no_values 3 (0 ∷ (reading_bytes ++ (4 ∷ []))) 1
    ≡ ok (reading, 1 + length reading_bytes)
parse_one_entry-to_bytes_example =
    parse_one_entry-to_bytes no_values reading 3 (0 ∷ (reading_bytes ++ (4 ∷ []))) 1 reading_bytes
      (4 ∷ []) reading-WellFormed reading-height reading_written refl

-- Null data are read, and not written.
null_read : parse no_values 1 2 (0 ∷ []) none ≡ some (ok (scalar null_data ∷ []))
unfolding parse parse_loop parse_one_entry get_data_class decode_class decode_data sized read_value
    get_bytes class_from_bytes length_of
null_read = refl

null_not_written : to_bytes no_values (scalar null_data) ≡ raise not_implemented_error
unfolding to_bytes scalar_to_bytes value_to_bytes
null_not_written = refl

abbrev two_entries : Items ℕ
two_entries = cons reading (cons (scalar (visible_string_data (104 ∷ 105 ∷ []))) nil)

two_written : items_to_bytes no_values two_entries ≡ ok (reading_bytes ++ (10 ∷ 2 ∷ 104 ∷ 105 ∷ []))
unfolding to_bytes scalar_to_bytes value_to_bytes length_part tag length_of encode_variable_integer
    signed_to_bytes ascii
two_written = refl

two_entries-WellFormed : ItemsWellFormed no_values two_entries
unfolding WellFormed
two_entries-WellFormed = omega arith

two_entries-height : items_height no_values two_entries ≤ 3
unfolding height
two_entries-height = omega arith

parse-to_bytes_example :
    parse no_values 3 3 (reading_bytes ++ (10 ∷ 2 ∷ 104 ∷ 105 ∷ [])) none
    ≡ some (ok (entries no_values two_entries))
parse-to_bytes_example =
    parse-to_bytes no_values two_entries 3 3 (reading_bytes ++ (10 ∷ 2 ∷ 104 ∷ 105 ∷ []))
      two_entries-WellFormed two_entries-height (omega arith) two_written

parse-truncated_example : parse no_values 1 1000 (tag octet_string ∷ 4 ∷ (1 ∷ 2 ∷ [])) none ≡ none
parse-truncated_example =
    parse-truncated no_values 4 (1 ∷ 2 ∷ []) 0 1000 (omega arith) (omega arith)
