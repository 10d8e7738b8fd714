-- ===== src/Data/VariableInteger.antt =====
-- Lengths in the variable integers of A-XDR: encode_variable_integer and decode_variable_integer of
-- dlms_cosem/dlms_data.py.
use dlms_cosem.Prelude.{
  ℕ, zero, suc, ◌+◌, ◌-◌, ◌*◌, ◌/◌, ◌%◌, ◌^◌, ◌≤◌, ◌<◌, ◌≡◌, ◌⊎◌, inl, inr, refl, sym, ap, ◌∙◌,
  arith, true, List, [], ◌∷◌, ◌++◌, ltb, ltb→lt, lt→ltb, if◌then◌else◌, Bool-cases, take, drop,
  slice, take_prefix, drop_prefix, Result, ok, ◌>>=◌, bit_and, truthy, all_below, table_eq,
  be_digits, int_to_bytes, int_from_bytes, byte_at, int_to_bytes-ok, int_from_bytes-be_digits,
  length-be_digits,
}
use mathlib.Core.Path.{subst}
use native.Mathlib.Nat.{pow-suc}

-- The loop that looks for the number of bytes: `to_bytes` raises until it is enough. As many rounds
-- as the number itself suffice, so the loop never ends for want of rounds.
byte_count : ℕ → ℕ → ℕ → ℕ
byte_count zero encoded_length x = encoded_length
byte_count (suc fuel) encoded_length x =
    let more = byte_count fuel (encoded_length + 1) x in
    if ltb x (256 ^ encoded_length) then encoded_length else more

unfoldable pub encode_variable_integer : ℕ → Result (List ℕ)
unfolding byte_count
encode_variable_integer x =
    if ltb 0b01111111 x
    then (let encoded_length = byte_count x 1 x in
        do
          length_byte ← int_to_bytes 1 (0b10000000 + encoded_length)
          digits ← int_to_bytes encoded_length x
          ok (length_byte ++ digits))
    else int_to_bytes 1 x

unfoldable pub decode_variable_integer : List ℕ → Result (ℕ × List ℕ)
decode_variable_integer bytes_input = do
  first ← byte_at bytes_input 0
  let length_length = bit_and first 0b01111111
  ok (
      if truthy (bit_and first 0b10000000)
      then (
        int_from_bytes (slice bytes_input 1 (length_length + 1)),
        drop (length_length + 1) bytes_input,
      )
      else (length_length, drop 1 bytes_input))

lt-pow : (x : ℕ) → x < 256 ^ x
lt-pow zero = omega arith
lt-pow (suc x) = omega (arith, pow-suc 256 x, lt-pow x)

-- What the loop finds: a number of bytes that is enough, and no smaller one from `n` on is.
record Counted (n x m : ℕ) : Type 0 where
  enough : x < 256 ^ m
  above : n ≤ m
  first : (m ≡ n) ⊎ (256 ^ (m - 1) ≤ x)

byte_count-first :
    (fuel n x : ℕ)
    → x < 256 ^ (n + fuel)
    → (m : ℕ) × (byte_count (suc fuel) n x ≡ m) × Counted n x m
unfolding byte_count
byte_count-first zero n x h =
    let e : x < 256 ^ n = subst (λ t. x < 256 ^ t) (let z : n + 0 ≡ n = omega arith in z) h in
    (n, rw (lt→ltb x (256 ^ n) e), record { enough = e; above = omega arith; first = inl refl })
byte_count-first (suc fuel) n x h = elim (Bool-cases (ltb x (256 ^ n))) [
  | inl e ↦
      (n, rw e, record { enough = ltb→lt x (256 ^ n) e; above = omega arith; first = inl refl })
  | inr e ↦
      let (m, c, k) =
        byte_count-first fuel (n + 1) x
          (subst (λ t. x < 256 ^ t) (let z : n + suc fuel ≡ n + 1 + fuel = omega arith in z) h) in
      (
        m,
        rw e c,
        record {
          enough = k.enough;
          above = omega arith;
          first = inr (later n m k.first (ground arith));
        },
      )
]
  where
    later : (n m : ℕ) → (m ≡ n + 1) ⊎ (256 ^ (m - 1) ≤ x) → 256 ^ n ≤ x → 256 ^ (m - 1) ≤ x
    later n m (inl p) q = subst (λ t. 256 ^ t ≤ x) (let z : n ≡ m - 1 = omega arith in z) q
    later n m (inr p) q = p

pow_mono : (a d : ℕ) → 256 ^ a ≤ 256 ^ (a + d)
pow_mono a zero =
    subst (λ t. 256 ^ a ≤ 256 ^ t) (let z : a ≡ a + 0 = omega arith in z) (omega arith)
pow_mono a (suc d) =
    subst (λ t. 256 ^ a ≤ 256 ^ t) (let z : suc (a + d) ≡ a + suc d = omega arith in z)
      (omega (arith, pow_mono a d, pow-suc 256 (a + d)))

few_bytes : (x m : ℕ) → x < 256 ^ 127 → Counted 1 x m → m ≤ 127
few_bytes x m h k = small (m - 128) k.first
  where
    small : (d : ℕ) → (m ≡ 1) ⊎ (256 ^ (m - 1) ≤ x) → m ≤ 127
    small d (inl p) = omega arith
    small d (inr p) = elim (Bool-cases (ltb m 128)) [
      | inl e ↦ omega (arith, ltb→lt m 128 e)
      | inr e ↦
          let lo : 127 ≤ m - 1 = ground arith in
          absurd (
            omega (
              arith,
              h,
              p,
              subst (λ t. 256 ^ 127 ≤ 256 ^ t)
                  (let z : 127 + (m - 1 - 127) ≡ m - 1 = omega arith in z)
                  (pow_mono 127 (m - 1 - 127)),
            ))
    ]

module _ (b : ℕ) (h : b < 256) where
  pub low_bits : bit_and b 0b1111111 ≡ b % 128
  unfolding all_below
  low_bits = table_eq 256 (λ x. bit_and x 0b1111111) (λ x. x % 128) refl b h

  pub top_bit : bit_and b 0b10000000 ≡ b / 128 * 128
  unfolding all_below
  top_bit = table_eq 256 (λ x. bit_and x 0b10000000) (λ x. x / 128 * 128) refl b h

decode_short : (x : ℕ) (rest : List ℕ) → x < 128 → decode_variable_integer (x ∷ rest) ≡ ok (x, rest)
unfolding decode_variable_integer
decode_short x rest h = ground (arith, low_bits x (omega arith), top_bit x (omega arith))

decode_long :
    (m x : ℕ) (rest : List ℕ)
    → m ≤ 127
    → x < 256 ^ m
    → decode_variable_integer ((128 + m) ∷ (be_digits m x ++ rest)) ≡ ok (x, rest)
unfolding decode_variable_integer
decode_long m x rest hm hx =
    let top : truthy (bit_and (128 + m) 0b10000000) ≡ true =
      ground (arith, top_bit (128 + m) (omega arith)) in
    let low : bit_and (128 + m) 0b1111111 ≡ m = omega (arith, low_bits (128 + m) (omega arith)) in
    let digits = be_digits m x in
    let count : m + 1 - 1 ≡ m = omega arith in
    let number : int_from_bytes (take (m + 1 - 1) (digits ++ rest)) ≡ x =
      ap int_from_bytes (
        ap (λ t. take t (digits ++ rest)) count
        ∙ take_prefix digits rest m (sym (length-be_digits m x)))
      ∙ int_from_bytes-be_digits m x hx in
    let left : drop (m + 1) ((128 + m) ∷ (digits ++ rest)) ≡ rest =
      drop_prefix ((128 + m) ∷ digits) rest (m + 1) (omega (arith, length-be_digits m x)) in
    rw top (rw low (λ i. ok (number i, left i)))

-- The number of bytes of a length that does not fit seven bits.
counted : (x : ℕ) → 127 < x → (m : ℕ) × (byte_count x 1 x ≡ m) × Counted 1 x m
counted zero h = absurd (omega arith)
counted (suc k) h =
    byte_count-first k 1 (suc k)
      (subst (λ t. suc k < 256 ^ t) (let z : suc k ≡ 1 + k = omega arith in z) (lt-pow (suc k)))

encode_long :
    (x m : ℕ)
    → 127 < x
    → x < 256 ^ m
    → m ≤ 127
    → byte_count x 1 x ≡ m
    → encode_variable_integer x ≡ ok ((128 + m) ∷ be_digits m x)
unfolding encode_variable_integer
encode_long x m h e k c = rw (lt→ltb 127 x h) (
    rw c (
      rw (int_to_bytes-ok 1 (128 + m) (omega arith))
        (rw (int_to_bytes-ok m x e) (let z : (128 + m) % 256 ≡ 128 + m = omega arith in rw z))))

pub encode_short : (x : ℕ) → x < 128 → encode_variable_integer x ≡ ok (x ∷ [])
unfolding encode_variable_integer
encode_short x h = ground arith

-- Both forms of an encoded length below 256 ^ 127.
pub data Shape (x : ℕ) : List ℕ → Type 0 where
  short : x < 128 → Shape x (x ∷ [])
  long : (m : ℕ) → m ≤ 127 → x < 256 ^ m → Shape x ((128 + m) ∷ be_digits m x)

pub encode-Shape :
    (x : ℕ)
    → x < 256 ^ 127
    → (bytes : List ℕ) × (encode_variable_integer x ≡ ok bytes) × Shape x bytes
encode-Shape x h = elim (Bool-cases (ltb 127 x)) [
  | inl above ↦
      let (m, c, k) = counted x (ltb→lt 127 x above) in
      let few : m ≤ 127 = few_bytes x m h k in
      (
        (128 + m) ∷ be_digits m x,
        encode_long x m (ltb→lt 127 x above) k.enough few c,
        long m few k.enough,
      )
  | inr below ↦ let small : x < 128 = ground arith in (x ∷ [], encode_short x small, short small)
]

decode-Shape :
    (x : ℕ) (bytes rest : List ℕ)
    → Shape x bytes
    → decode_variable_integer (bytes ++ rest) ≡ ok (x, rest)
decode-Shape x _ rest (short h) = decode_short x rest h
decode-Shape x _ rest (long m few enough) = decode_long m x rest few enough

-- A length below 256 ^ 127 is encoded, and the encoding reads back as the length with whatever
-- follows it left over.
pub decode-encode :
    (x : ℕ) (rest : List ℕ)
    → x < 256 ^ 127
    → (bytes : List ℕ) × (encode_variable_integer x ≡ ok bytes)
      × (decode_variable_integer (bytes ++ rest) ≡ ok (x, rest))
decode-encode x rest h =
    let (bytes, e, shape) = encode-Shape x h in (bytes, e, decode-Shape x bytes rest shape)
