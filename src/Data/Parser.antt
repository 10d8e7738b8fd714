-- ===== src/Data/Parser.antt =====
-- DlmsDataParser of dlms_cosem/dlms_data.py. The buffer does not change while it is parsed, so a
-- method takes it with the pointer and returns the pointer as it leaves it.
use dlms_cosem.Prelude.{
  ℕ, zero, suc, ◌+◌, ◌==◌, Bool, false, Option, none, some, List, [], ◌∷◌, ◌++◌, length, slice, leb,
  if◌then◌else◌, truthy, bit_and, Result, ok, raise, ◌>>=◌, recursion_error, int_from_bytes,
}
use dlms_cosem.Data.Types.{
  DlmsData, scalar, data_array, data_structure, Items, nil, cons, DataClass, array, structure,
  length_of, get_data_class,
}
use dlms_cosem.Data.Conversion.{ValueCodec, class_from_bytes}

-- A slice stops at the end of the buffer, the pointer does not.
unfoldable pub get_bytes : List ℕ → ℕ → ℕ → List ℕ × ℕ
get_bytes buffer pointer n = (slice buffer pointer (pointer + n), pointer + n)

-- The loop of decode_variable_integer, a byte at a time.
unfoldable pub length_data : List ℕ → ℕ → ℕ → List ℕ × ℕ
length_data buffer pointer zero = ([], pointer)
length_data buffer pointer (suc n) =
    let (part, next) = get_bytes buffer pointer 1 in
    let (rest, last) = length_data buffer next n in (part ++ rest, last)

-- The length behind its first byte.
unfoldable pub long_length : List ℕ → ℕ → ℕ → ℕ × ℕ
long_length buffer pointer n =
    let (bytes, next) = length_data buffer pointer n in (int_from_bytes bytes, next)

unfoldable pub decode_length : List ℕ → ℕ → ℕ × ℕ
decode_length buffer pointer =
    let (first, next) = get_bytes buffer pointer 1 in
    let first_byte = int_from_bytes first in
    if truthy (bit_and first_byte 0b10000000)
    then long_length buffer next (bit_and first_byte 0b01111111)
    else (first_byte, next)

module _ {Value : Type 0} (codec : ValueCodec Value) where
  unfoldable pub read_value : List ℕ → ℕ → DataClass → ℕ → Result (DlmsData Value × ℕ)
  read_value buffer pointer data_class n =
      let (part, next) = get_bytes buffer pointer n in
      class_from_bytes codec data_class part >>= λ s. ok (scalar s, next)

  unfoldable pub sized : List ℕ → ℕ → DataClass → Option ℕ → Result (DlmsData Value × ℕ)
  sized buffer pointer data_class (some n) = read_value buffer pointer data_class n
  sized buffer pointer data_class none =
      let (n, next) = decode_length buffer pointer in read_value buffer next data_class n

  unfoldable pub decode_data : List ℕ → ℕ → DataClass → Result (DlmsData Value × ℕ)
  decode_data buffer pointer data_class = sized buffer pointer data_class (length_of data_class)

  -- The loop of decode_array and decode_structure, over a parser of one entry.
  unfoldable pub decode_items : (ℕ → Result (DlmsData Value × ℕ)) → ℕ → ℕ → Result (Items Value × ℕ)
  decode_items parse_one zero pointer = ok (nil, pointer)
  decode_items parse_one (suc n) pointer = parse_one pointer >>= λ one.
      decode_items parse_one n one.1 >>= λ rest. ok (cons one.0 rest.0, rest.1)

  -- The items behind their number.
  unfoldable pub decode_container :
      (ℕ → Result (DlmsData Value × ℕ))
      → (Items Value → DlmsData Value)
      → List ℕ
      → ℕ
      → Result (DlmsData Value × ℕ)
  decode_container parse_one build buffer pointer =
      let (item_count, next) = decode_length buffer pointer in
      decode_items parse_one item_count next >>= λ items. ok (build items.0, items.1)

  -- By the class of the tag.
  unfoldable pub decode_class :
      (ℕ → Result (DlmsData Value × ℕ)) → List ℕ → ℕ → DataClass → Result (DlmsData Value × ℕ)
  decode_class parse_one buffer pointer array = decode_container parse_one data_array buffer pointer
  decode_class parse_one buffer pointer structure =
      decode_container parse_one data_structure buffer pointer
  decode_class parse_one buffer pointer klass = decode_data buffer pointer klass

  -- The first number is the depth that the stack of Python has left.
  unfoldable pub parse_one_entry : ℕ → List ℕ → ℕ → Result (DlmsData Value × ℕ)
  parse_one_entry zero buffer pointer = raise recursion_error
  parse_one_entry (suc depth) buffer pointer =
      let (tag, next) = get_bytes buffer pointer 1 in
      get_data_class (int_from_bytes tag)
      >>= decode_class (parse_one_entry depth buffer) buffer next

  -- `if limit: if len(self.data) >= limit: break`
  abbrev pub limit_reached : Option ℕ → ℕ → Bool
  limit_reached none n = false
  limit_reached (some zero) n = false
  limit_reached (some (suc limit)) n = leb (suc limit) n

  -- The loop of `parse`; `none` where it still runs after that many rounds.
  unfoldable pub parse_loop :
      ℕ
      → ℕ
      → List ℕ
      → Option ℕ
      → ℕ
      → List (DlmsData Value)
      → Option (Result (List (DlmsData Value)))
  parse_loop depth zero buffer limit pointer entries = none
  parse_loop depth (suc rounds) buffer limit pointer entries =
      if pointer == length buffer
      then some (ok entries)
      else elim (parse_one_entry depth buffer pointer) [
        | raise e ↦ some (raise e)
        | ok (entry, next) ↦
            let entries' = entries ++ (entry ∷ []) in
            if limit_reached limit (length entries')
            then some (ok entries')
            else parse_loop depth rounds buffer limit next entries'
      ]

  unfoldable pub parse : ℕ → ℕ → List ℕ → Option ℕ → Option (Result (List (DlmsData Value)))
  parse depth rounds input limit = parse_loop depth rounds input limit 0 []
