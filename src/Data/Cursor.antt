-- ===== src/Data/Cursor.antt =====
-- Where the pointer of DlmsDataParser (dlms_cosem/dlms_data.py) stands in the buffer.
use dlms_cosem.Prelude.{
  ℕ, zero, suc, ◌+◌, ◌-◌, ◌≤◌, ◌≡◌, refl, ap, ◌∙◌, arith, true, false, List, [], ◌∷◌, ◌++◌, length,
  take, drop, slice, take_prefix, drop_prefix, length-drop, truthy, bit_and, int_from_bytes,
  be_digits, length-be_digits, int_from_bytes-be_digits,
}
use dlms_cosem.Data.VariableInteger.{Shape, short, long, low_bits, top_bit}
use dlms_cosem.Data.Parser.{get_bytes, length_data, long_length, decode_length}

drop-drop : (p n : ℕ) (xs : List ℕ) → drop (p + n) xs ≡ drop n (drop p xs)
drop-drop zero n xs = ap (λ k. drop k xs) (let e : 0 + n ≡ n = omega arith in e)
drop-drop (suc p) zero [] = ap (λ k. drop k []) (let e : suc p + 0 ≡ suc p = omega arith in e)
drop-drop (suc p) (suc n) [] =
    ap (λ k. drop k []) (let e : suc p + suc n ≡ suc (p + suc n) = omega arith in e)
drop-drop (suc p) n (x ∷ xs) =
    ap (λ k. drop k (x ∷ xs)) (let e : suc p + n ≡ suc (p + n) = omega arith in e)
    ∙ drop-drop p n xs

pub int_one : (b : ℕ) → int_from_bytes (b ∷ []) ≡ b
int_one b = omega arith

module _ (buffer : List ℕ) where
  pub after_bytes :
      (pointer n : ℕ) (bytes rest : List ℕ)
      → drop pointer buffer ≡ bytes ++ rest
      → n ≡ length bytes
      → drop (pointer + n) buffer ≡ rest
  after_bytes pointer n bytes rest here e =
      drop-drop pointer n buffer ∙ ap (drop n) here ∙ drop_prefix bytes rest n e

  pub get_bytes-at :
      (pointer n : ℕ) (bytes rest : List ℕ)
      → drop pointer buffer ≡ bytes ++ rest
      → n ≡ length bytes
      → get_bytes buffer pointer n ≡ (bytes, pointer + n)
  unfolding get_bytes
  get_bytes-at pointer n bytes rest here e =
      let size : pointer + n - pointer ≡ n = omega arith in
      let part : slice buffer pointer (pointer + n) ≡ bytes =
        ap (λ k. take k (drop pointer buffer)) size
        ∙ ap (take n) here
        ∙ take_prefix bytes rest n e in
      λ i. (part i, pointer + n)

  -- Behind the end there is nothing to read.
  pub get_bytes-past :
      (pointer n : ℕ) → length buffer ≤ pointer → get_bytes buffer pointer n ≡ ([], pointer + n)
  unfolding get_bytes
  get_bytes-past pointer n past = λ i. (
    empty (pointer + n - pointer) (drop pointer buffer) (omega (arith, length-drop pointer buffer))
        i,
    pointer + n,
  )
    where
      empty : (k : ℕ) (xs : List ℕ) → length xs ≡ 0 → take k xs ≡ []
      empty zero xs e = refl
      empty (suc k) [] e = refl
      empty (suc k) (x ∷ xs) e = absurd (omega arith)

  length_data-at :
      (bytes : List ℕ) (pointer : ℕ) (rest : List ℕ)
      → drop pointer buffer ≡ bytes ++ rest
      → length_data buffer pointer (length bytes) ≡ (bytes, pointer + length bytes)
  unfolding length_data
  length_data-at [] pointer rest here =
      λ i. ([], (let e : pointer ≡ pointer + 0 = omega arith in e) i)
  length_data-at (b ∷ bytes) pointer rest here =
      rw (get_bytes-at pointer 1 (b ∷ []) (bytes ++ rest) here refl) (
        rw
          (length_data-at bytes (pointer + 1) rest
            (after_bytes pointer 1 (b ∷ []) (bytes ++ rest) here refl))
          (λ i. (
            b ∷ bytes,
            (let e : pointer + 1 + length bytes ≡ pointer + length (b ∷ bytes) = omega arith in e)
                i,
          )))

  pub decode_length-at :
      (x pointer : ℕ) (bytes rest : List ℕ)
      → Shape x bytes
      → drop pointer buffer ≡ bytes ++ rest
      → decode_length buffer pointer ≡ (x, pointer + length bytes)
  unfolding decode_length long_length
  decode_length-at x pointer _ rest (short h) here =
      rw (get_bytes-at pointer 1 (x ∷ []) rest here refl) (
        rw (int_one x) (
          rw
            (let e : truthy (bit_and x 0b10000000) ≡ false =
                ground (arith, top_bit x (omega arith)) in
              e)
            refl))
  decode_length-at x pointer _ rest (long m few enough) here =
      let top : truthy (bit_and (128 + m) 0b10000000) ≡ true =
        ground (arith, top_bit (128 + m) (omega arith)) in
      let low : bit_and (128 + m) 0b01111111 ≡ length (be_digits m x) =
        omega (arith, low_bits (128 + m) (omega arith), length-be_digits m x) in
      rw (get_bytes-at pointer 1 ((128 + m) ∷ []) (be_digits m x ++ rest) here refl) (
        rw (int_one (128 + m)) (
          rw top (
            rw low (
              rw
                (length_data-at (be_digits m x) (pointer + 1) rest
                  (after_bytes pointer 1 ((128 + m) ∷ []) (be_digits m x ++ rest) here refl))
                (λ i. (
                  int_from_bytes-be_digits m x enough i,
                  (let e : pointer + 1 + length (be_digits m x)
                            ≡ pointer + length ((128 + m) ∷ be_digits m x) =
                          omega arith in
                        e)
                      i,
                ))))))
