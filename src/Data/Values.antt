-- ===== src/Data/Values.antt =====
-- The values of the classes of dlms_cosem/dlms_data.py, written and read back.
use dlms_cosem.Prelude.{
  ℕ, ◌*◌, ◌^◌, ◌<◌, ◌≡◌, ◌⊎◌, inl, inr, refl, sym, ap, ◌∙◌, arith, true, false, Bool-cases, none,
  some, List, [], ◌∷◌, length, ltb→lt, ltb, Result, ok, >>=-eq-ok, require, value_error,
  int_to_bytes, int_from_bytes, be_digits, length-be_digits, int_from_bytes-be_digits, ℤ, magnitude,
  complement, signed_to_bytes, signed_from_bytes, signed_from_bytes-to_bytes,
}
use mathlib.Core.Path.{subst}
use dlms_cosem.Data.Types.{
  Scalar, null_data, boolean_data, bit_string_data, double_long_data, double_long_unsigned_data,
  octet_string_data, visible_string_data, utf8_string_data, bcd_data, integer_data, long_data,
  unsigned_integer_data, unsigned_long_data, compact_array_data, long64_data, unsigned_long64_data,
  enum_data, float32_data, float64_data, date_time_data, date_data, time_data, dont_care_data,
  length_of, class_of,
}
use dlms_cosem.Data.Conversion.{ValueCodec, ascii, class_from_bytes, value_to_bytes}

pub unsigned-read :
    (n x : ℕ) (bytes : List ℕ)
    → int_to_bytes n x ≡ ok bytes
    → (int_from_bytes bytes ≡ x) × (length bytes ≡ n)
unsigned-read n x bytes e = elim (Bool-cases (ltb x (256 ^ n))) [
  | inl fits ↦
      let same : be_digits n x ≡ bytes = ground arith in
      (
        ap int_from_bytes (sym same) ∙ int_from_bytes-be_digits n x (ltb→lt x (256 ^ n) fits),
        ap length (sym same) ∙ length-be_digits n x,
      )
  | inr big ↦ ground arith
]

signed-read :
    (n h : ℕ) (v : ℤ) (bytes : List ℕ)
    → 256 ^ n ≡ 2 * h
    → 0 < h
    → signed_to_bytes n v ≡ ok bytes
    → (signed_from_bytes bytes ≡ v) × (length bytes ≡ n)
unfolding signed_to_bytes
signed-read n h v bytes half p e = elim (Bool-cases (ltb (2 * magnitude v) (256 ^ n))) [
  | inl fits ↦
      let small : 2 * magnitude v < 256 ^ n = ltb→lt (2 * magnitude v) (256 ^ n) fits in
      let (written, read) = signed_from_bytes-to_bytes n h v half p (omega arith) in
      let same : be_digits n (complement n v) ≡ bytes = ground arith in
      (
        ap signed_from_bytes (sym same) ∙ read,
        ap length (sym same) ∙ length-be_digits n (complement n v),
      )
  | inr big ↦ ground arith
]

ascii-read : (text bytes : List ℕ) → ascii text ≡ ok bytes → bytes ≡ text
unfolding ascii
ascii-read [] bytes e = ground arith
ascii-read (c ∷ cs) bytes e =
    let (_, small, e1) = >>=-eq-ok (require (ltb c 128) value_error) _ e in
    let (rest, e2, e3) = >>=-eq-ok (ascii cs) _ e1 in
    let same : rest ≡ cs = ascii-read cs rest e2 in
    let whole : c ∷ rest ≡ bytes = ground arith in sym whole ∙ ap (λ t. c ∷ t) same

module _ {Value : Type 0} (codec : ValueCodec Value) where
  -- A value that is packed into `n` bytes and unpacked as itself: not every float is a "!f".
  pub record Survives (n : ℕ) (pack : Value → Result (List ℕ)) (unpack : List ℕ → Result Value)
      (v : Value) : Type 0 where
    pub packed : List ℕ
    pub pack_returns : pack v ≡ ok packed
    pub size : length packed ≡ n
    pub unpack_returns : unpack packed ≡ ok v

  -- What is needed, beyond being written, to be read back: strings whose length fits seven bits,
  -- and a class with a reader.
  abbrev pub Readable : Scalar Value → Type 0
  Readable (bit_string_data v) = 1 < 0
  Readable (octet_string_data v) = length v < 128
  Readable (visible_string_data v) = length v < 128
  Readable (float32_data v) = Survives 4 codec.pack_float32 codec.unpack_float32 v
  Readable (float64_data v) = Survives 8 codec.pack_float64 codec.unpack_float64 v
  Readable _ = Unit {0}

  pub record Reads (s : Scalar Value) (bytes : List ℕ) : Type 0 where
    pub read : class_from_bytes codec (class_of s) bytes ≡ ok s
    pub length_fits :
        ((length_of (class_of s) ≡ none) × (length bytes < 128))
        ⊎ (length_of (class_of s) ≡ some (length bytes))

  pub value-Reads :
      (s : Scalar Value) (bytes : List ℕ)
      → Readable s
      → value_to_bytes codec s ≡ ok bytes
      → Reads s bytes
  unfolding value_to_bytes class_from_bytes length_of
  value-Reads (boolean_data true) bytes r e =
      let same : 0xff ∷ [] ≡ bytes = ground arith in
      subst (λ (t : List ℕ). Reads (boolean_data true) t) same
        (record { read = refl; length_fits = inr refl })
  value-Reads (boolean_data false) bytes r e =
      let same : 0x00 ∷ [] ≡ bytes = ground arith in
      subst (λ (t : List ℕ). Reads (boolean_data false) t) same
        (record { read = refl; length_fits = inr refl })
  value-Reads (bit_string_data v) bytes r e = absurd (omega arith)
  value-Reads (double_long_data v) bytes r e =
      let (read, size) = signed-read 4 2147483648 v bytes refl (omega arith) e in
      record {
        read = ap (λ x. ok (double_long_data x)) read;
        length_fits = inr (ap some (sym size));
      }
  value-Reads (double_long_unsigned_data v) bytes r e =
      let (read, size) = unsigned-read 4 v bytes e in
      record {
        read = ap (λ x. ok (double_long_unsigned_data x)) read;
        length_fits = inr (ap some (sym size));
      }
  value-Reads (octet_string_data v) bytes r e =
      let same : v ≡ bytes = ground arith in
      subst (λ (t : List ℕ). Reads (octet_string_data v) t) same
        (record { read = refl; length_fits = inl (refl, r) })
  value-Reads (visible_string_data v) bytes r e =
      let same : bytes ≡ v = ascii-read v bytes e in
      subst (λ (t : List ℕ). Reads (visible_string_data v) t) (sym same)
        (record { read = rw (e ∙ ap ok same) refl; length_fits = inl (refl, r) })
  value-Reads (integer_data v) bytes r e =
      let (read, size) = signed-read 1 128 v bytes refl (omega arith) e in
      record { read = ap (λ x. ok (integer_data x)) read; length_fits = inr (ap some (sym size)) }
  value-Reads (long_data v) bytes r e =
      let (read, size) = signed-read 2 32768 v bytes refl (omega arith) e in
      record { read = ap (λ x. ok (long_data x)) read; length_fits = inr (ap some (sym size)) }
  value-Reads (unsigned_integer_data v) bytes r e =
      let (read, size) = unsigned-read 1 v bytes e in
      record {
        read = ap (λ x. ok (unsigned_integer_data x)) read;
        length_fits = inr (ap some (sym size));
      }
  value-Reads (unsigned_long_data v) bytes r e =
      let (read, size) = unsigned-read 2 v bytes e in
      record {
        read = ap (λ x. ok (unsigned_long_data x)) read;
        length_fits = inr (ap some (sym size));
      }
  value-Reads (long64_data v) bytes r e =
      let (read, size) = signed-read 8 9223372036854775808 v bytes refl (omega arith) e in
      record { read = ap (λ x. ok (long64_data x)) read; length_fits = inr (ap some (sym size)) }
  value-Reads (unsigned_long64_data v) bytes r e =
      let (read, size) = unsigned-read 8 v bytes e in
      record {
        read = ap (λ x. ok (unsigned_long64_data x)) read;
        length_fits = inr (ap some (sym size));
      }
  value-Reads (enum_data v) bytes r e =
      let (read, size) = unsigned-read 1 v bytes e in
      record { read = ap (λ x. ok (enum_data x)) read; length_fits = inr (ap some (sym size)) }
  value-Reads (float32_data v) bytes r e =
      let same : r.packed ≡ bytes = (let p = r.pack_returns in ground arith) in
      subst (λ (t : List ℕ). Reads (float32_data v) t) same
        (record { read = rw r.unpack_returns refl; length_fits = inr (ap some (sym r.size)) })
  value-Reads (float64_data v) bytes r e =
      let same : r.packed ≡ bytes = (let p = r.pack_returns in ground arith) in
      subst (λ (t : List ℕ). Reads (float64_data v) t) same
        (record { read = rw r.unpack_returns refl; length_fits = inr (ap some (sym r.size)) })
  value-Reads null_data bytes r e = ground arith
  value-Reads (utf8_string_data v) bytes r e = ground arith
  value-Reads (bcd_data v) bytes r e = ground arith
  value-Reads (compact_array_data v) bytes r e = ground arith
  value-Reads (date_time_data v) bytes r e = ground arith
  value-Reads (date_data v) bytes r e = ground arith
  value-Reads (time_data v) bytes r e = ground arith
  value-Reads (dont_care_data v) bytes r e = ground arith
