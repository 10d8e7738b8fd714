-- ===== src/Data/Entry.antt =====
-- An entry without items, as `to_bytes` of dlms_cosem/dlms_data.py writes it, and DlmsDataParser.
use dlms_cosem.Prelude.{
  ℕ, suc, ◌+◌, ◌<◌, ◌≡◌, ◌⊎◌, refl, sym, ap, ◌∙◌, arith, Option, none, some, List, [], ◌∷◌, ◌++◌,
  length, drop, Result, ok, ◌>>=◌, >>=-eq-ok, int_from_bytes,
}
use mathlib.Core.Path.{subst}
use dlms_cosem.Data.VariableInteger.{short}
use dlms_cosem.Data.Types.{
  Scalar, DlmsData, scalar, boolean_data, DataClass, tag, length_of, class_of, get_data_class,
  get_data_class-tag,
}
use dlms_cosem.Data.Conversion.{
  ValueCodec, class_from_bytes, value_to_bytes, length_part, scalar_to_bytes,
}
use dlms_cosem.Data.Parser.{
  get_bytes, read_value, sized, decode_data, decode_class, parse_one_entry,
}
use dlms_cosem.Data.Cursor.{after_bytes, get_bytes-at, decode_length-at, int_one}
use dlms_cosem.Data.Values.{Readable, value-Reads}

module _ {Value : Type 0} (codec : ValueCodec Value) where
  read_value-at :
      (buffer : List ℕ) (p n : ℕ) (k : DataClass) (s : Scalar Value) (vb rest : List ℕ)
      → drop p buffer ≡ vb ++ rest
      → n ≡ length vb
      → class_from_bytes codec k vb ≡ ok s
      → read_value codec buffer p k n ≡ ok (scalar s, p + n)
  unfolding read_value
  read_value-at buffer p n k s vb rest here e c =
      rw (get_bytes-at buffer p n vb rest here e) (rw c refl)

  sized-at :
      (buffer : List ℕ) (p : ℕ) (k : DataClass) (s : Scalar Value) (lo : Option ℕ)
      (lb vb rest : List ℕ)
      → length_part codec lo vb ≡ ok lb
      → ((lo ≡ none) × (length vb < 128)) ⊎ (lo ≡ some (length vb))
      → class_from_bytes codec k vb ≡ ok s
      → drop p buffer ≡ (lb ++ vb) ++ rest
      → sized codec buffer p k lo ≡ ok (scalar s, p + length (lb ++ vb))
  unfolding length_part sized
  sized-at buffer p k s (some n) lb vb rest l fits c here =
      let size : n ≡ length vb = ground arith in
      let absent : [] ≡ lb = ground arith in
      subst
        (λ (t : List ℕ).
          drop p buffer ≡ (t ++ vb) ++ rest
          → sized codec buffer p k (some n) ≡ ok (scalar s, p + length (t ++ vb)))
        absent
        (λ at_value.
          read_value-at buffer p n k s vb rest at_value size c ∙ (λ i. ok (scalar s, p + size i)))
        here
  sized-at buffer p k s none lb vb rest l fits c here =
      let small : length vb < 128 = ground arith in
      let one : length vb ∷ [] ≡ lb = ground arith in
      subst
        (λ (t : List ℕ).
          drop p buffer ≡ (t ++ vb) ++ rest
          → sized codec buffer p k none ≡ ok (scalar s, p + length (t ++ vb)))
        one
        (λ at_one.
          rw
            (decode_length-at buffer (length vb) p (length vb ∷ []) (vb ++ rest) (short small)
              at_one)
            (read_value-at buffer (p + 1) (length vb) k s vb rest
                (after_bytes buffer p 1 (length vb ∷ []) (vb ++ rest) at_one refl) refl c
              ∙ (let len : p + 1 + length vb ≡ p + length ((length vb ∷ []) ++ vb) = omega arith in
                  λ i. ok (scalar s, len i))))
        here

  scalar_class :
      (parse_one : ℕ → Result (DlmsData Value × ℕ)) (buffer : List ℕ) (p : ℕ) (s : Scalar Value)
      → decode_class codec parse_one buffer p (class_of s) ≡ decode_data codec buffer p (class_of s)
  unfolding decode_class
  scalar_class parse_one buffer p (boolean_data v) = refl
  scalar_class parse_one buffer p _ = refl

  -- An entry begins with its tag.
  pub entry-step :
      (depth : ℕ) (buffer : List ℕ) (p : ℕ)
      → parse_one_entry codec (suc depth) buffer p ≡ (
          get_data_class (int_from_bytes (get_bytes buffer p 1).0)
          >>= decode_class codec
              (parse_one_entry codec depth buffer)
              buffer
              (get_bytes buffer p 1).1)
  unfolding parse_one_entry
  entry-step depth buffer p = refl

  pub entry-tag :
      (depth : ℕ) (buffer : List ℕ) (p : ℕ) (k : DataClass) (body rest : List ℕ)
      → drop p buffer ≡ (tag k ∷ body) ++ rest
      → parse_one_entry codec (suc depth) buffer p
        ≡ decode_class codec (parse_one_entry codec depth buffer) buffer (p + 1) k
  entry-tag depth buffer p k body rest here =
      entry-step depth buffer p
      ∙ rw (get_bytes-at buffer p 1 (tag k ∷ []) (body ++ rest) here refl)
          (rw (ap get_data_class (int_one (tag k)) ∙ get_data_class-tag k) refl)

  pub scalar-read :
      (s : Scalar Value) (depth : ℕ) (buffer : List ℕ) (p : ℕ) (bytes rest : List ℕ)
      → Readable codec s
      → scalar_to_bytes codec s ≡ ok bytes
      → drop p buffer ≡ bytes ++ rest
      → parse_one_entry codec (suc depth) buffer p ≡ ok (scalar s, p + length bytes)
  unfolding scalar_to_bytes decode_data
  scalar-read s depth buffer p bytes rest r e here =
      let (vb, e1, e2) = >>=-eq-ok (value_to_bytes codec s) _ e in
      let (lb, e3, e4) = >>=-eq-ok (length_part codec (length_of (class_of s)) vb) _ e2 in
      let same : tag (class_of s) ∷ (lb ++ vb) ≡ bytes = ground arith in
      let reads = value-Reads codec s vb r e1 in
      let here' : drop p buffer ≡ (tag (class_of s) ∷ (lb ++ vb)) ++ rest =
        here ∙ ap (λ t. t ++ rest) (sym same) in
      entry-tag depth buffer p (class_of s) (lb ++ vb) rest here'
      ∙ scalar_class (parse_one_entry codec depth buffer) buffer (p + 1) s
      ∙ sized-at buffer (p + 1) (class_of s) s (length_of (class_of s)) lb vb rest e3
          reads.length_fits reads.read
          (after_bytes buffer p 1 (tag (class_of s) ∷ []) ((lb ++ vb) ++ rest) here' refl)
      ∙ (let len : p + 1 + length (lb ++ vb) ≡ p + length bytes = omega (arith, ap length same) in
          λ i. ok (scalar s, len i))
