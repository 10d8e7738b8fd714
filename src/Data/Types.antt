-- ===== src/Data/Types.antt =====
-- The classes of dlms_cosem/dlms_data.py, with TAG and LENGTH of each, and DlmsDataFactory.
-- `Value` stands for the Python values that the struct module and dlms_cosem/time.py make, and for
-- those of classes that are neither read nor written. Text is the list of its code points.
use dlms_cosem.Prelude.{
  ℕ, suc, ◌==◌, ◌≡◌, refl, Bool, Option, none, some, List, [], ◌∷◌, if◌then◌else◌, Result, ok,
  raise, key_error, ℤ,
}

-- The attribute `value` of the classes without items.
pub data Scalar (Value : Type 0) : Type 0 where
  null_data : Scalar Value
  boolean_data : Bool → Scalar Value
  bit_string_data : List ℕ → Scalar Value
  double_long_data : ℤ → Scalar Value
  double_long_unsigned_data : ℕ → Scalar Value
  octet_string_data : List ℕ → Scalar Value
  visible_string_data : List ℕ → Scalar Value
  utf8_string_data : Value → Scalar Value
  bcd_data : Value → Scalar Value
  integer_data : ℤ → Scalar Value
  long_data : ℤ → Scalar Value
  unsigned_integer_data : ℕ → Scalar Value
  unsigned_long_data : ℕ → Scalar Value
  compact_array_data : Value → Scalar Value
  long64_data : ℤ → Scalar Value
  unsigned_long64_data : ℕ → Scalar Value
  enum_data : ℕ → Scalar Value
  float32_data : Value → Scalar Value
  float64_data : Value → Scalar Value
  date_time_data : Value → Scalar Value
  date_data : Value → Scalar Value
  time_data : Value → Scalar Value
  dont_care_data : Value → Scalar Value

-- An object of dlms_data.py: DataArray and DataStructure hold a list of them.
mutual
  pub data DlmsData (Value : Type 0) : Type 0 where
    scalar : Scalar Value → DlmsData Value
    data_array : Items Value → DlmsData Value
    data_structure : Items Value → DlmsData Value

  pub data Items (Value : Type 0) : Type 0 where
    nil : Items Value
    cons : DlmsData Value → Items Value → Items Value

abbrev pub count : {Value : Type 0} → Items Value → ℕ
count nil = 0
count (cons d ds) = suc (count ds)

-- The classes themselves.
pub data DataClass : Type 0 where
  null array structure boolean bit_string double_long double_long_unsigned octet_string : DataClass
  visible_string utf8_string bcd integer long unsigned_integer unsigned_long : DataClass
  compact_array long64 unsigned_long64 enum float32 float64 date_time date time : DataClass
  dont_care : DataClass

-- TAG
unfoldable pub tag : DataClass → ℕ
tag null = 0
tag array = 1
tag structure = 2
tag boolean = 3
tag bit_string = 4
tag double_long = 5
tag double_long_unsigned = 6
tag octet_string = 9
tag visible_string = 10
tag utf8_string = 12
tag bcd = 13
tag integer = 15
tag long = 16
tag unsigned_integer = 17
tag unsigned_long = 18
tag compact_array = 19
tag long64 = 20
tag unsigned_long64 = 21
tag enum = 22
tag float32 = 23
tag float64 = 24
tag date_time = 25
tag date = 26
tag time = 27
tag dont_care = 255

-- LENGTH; `none` is VARIABLE_LENGTH.
unfoldable pub length_of : DataClass → Option ℕ
length_of null = some 0
length_of array = none
length_of structure = none
length_of boolean = some 1
length_of bit_string = none
length_of double_long = some 4
length_of double_long_unsigned = some 4
length_of octet_string = none
length_of visible_string = none
length_of utf8_string = none
length_of bcd = none
length_of integer = some 1
length_of long = some 2
length_of unsigned_integer = some 1
length_of unsigned_long = some 2
length_of compact_array = none
length_of long64 = some 8
length_of unsigned_long64 = some 8
length_of enum = some 1
length_of float32 = some 4
length_of float64 = some 8
length_of date_time = some 12
length_of date = some 5
length_of time = some 4
length_of dont_care = some 0

-- DlmsDataFactory.MAP
abbrev data_class_map : List (ℕ × DataClass)
data_class_map =
    (0, null)
    ∷ (1, array)
    ∷ (2, structure)
    ∷ (3, boolean)
    ∷ (4, bit_string)
    ∷ (5, double_long)
    ∷ (6, double_long_unsigned)
    ∷ (9, octet_string)
    ∷ (10, visible_string)
    ∷ (12, utf8_string)
    ∷ (13, bcd)
    ∷ (15, integer)
    ∷ (16, long)
    ∷ (17, unsigned_integer)
    ∷ (18, unsigned_long)
    ∷ (19, compact_array)
    ∷ (20, long64)
    ∷ (21, unsigned_long64)
    ∷ (22, enum)
    ∷ (23, float32)
    ∷ (24, float64)
    ∷ (25, date_time)
    ∷ (26, date)
    ∷ (27, time)
    ∷ (255, dont_care)
    ∷ []

find_class : ℕ → List (ℕ × DataClass) → Result DataClass
find_class t [] = raise key_error
find_class t ((key, klass) ∷ rest) =
    let later = find_class t rest in if key == t then ok klass else later

unfoldable pub get_data_class : ℕ → Result DataClass
unfolding find_class
get_data_class t = find_class t data_class_map

-- Each class stands in the map under its tag.
pub get_data_class-tag : (k : DataClass) → get_data_class (tag k) ≡ ok k
unfolding get_data_class tag
get_data_class-tag null = refl
get_data_class-tag _ = refl

abbrev pub class_of : {Value : Type 0} → Scalar Value → DataClass
class_of null_data = null
class_of (boolean_data v) = boolean
class_of (bit_string_data v) = bit_string
class_of (double_long_data v) = double_long
class_of (double_long_unsigned_data v) = double_long_unsigned
class_of (octet_string_data v) = octet_string
class_of (visible_string_data v) = visible_string
class_of (utf8_string_data v) = utf8_string
class_of (bcd_data v) = bcd
class_of (integer_data v) = integer
class_of (long_data v) = long
class_of (unsigned_integer_data v) = unsigned_integer
class_of (unsigned_long_data v) = unsigned_long
class_of (compact_array_data v) = compact_array
class_of (long64_data v) = long64
class_of (unsigned_long64_data v) = unsigned_long64
class_of (enum_data v) = enum
class_of (float32_data v) = float32
class_of (float64_data v) = float64
class_of (date_time_data v) = date_time
class_of (date_data v) = date
class_of (time_data v) = time
class_of (dont_care_data v) = dont_care
