-- ===== src/Crc/Detect.antt =====
-- Corrupted bytes and the check sequence of dlms_cosem/crc.py: a round is injective in the register
-- and in the byte.
use dlms_cosem.Prelude.{
  ℕ, ◌*◌, ◌/◌, ◌%◌, ◌<◌, ◌≡◌, ◌≢◌, refl, sym, ap, ◌∙◌, arith, Bool, true, false, List, [], ◌∷◌,
  ◌++◌, All-split, Result, ok, bit_xor, all_below, table_eq, IsByte, IsBytes,
}
use dlms_cosem.Crc.Defs.{
  reverse_byte, reverse_byte_message, table_entry, calculate_from, output_byte, calculate_for,
}
use dlms_cosem.Crc.Xor.{xor_cancel_right, xor_cancel_left, xor_low_byte, xor_bound}
use dlms_cosem.Crc.Total.{
  crc_step_lem, crc_step_bound, calculate_from-ok, calculate_for-register, reverse_byte-IsByte,
  reverse_byte_message-IsBytes, sequence_of,
}

-- The last byte of a table entry determines its index: both shifts of the polynomial are undone.
unshift : ℕ → ℕ
unshift y = bit_xor y (y * 32 % 256)

index_of : ℕ → ℕ
index_of y = bit_xor (unshift y) (unshift y / 16)

index_of-entry : (i : ℕ) → i < 256 → index_of (table_entry i % 256) ≡ i
unfolding all_below table_entry index_of unshift
index_of-entry = table_eq 256 (λ i. index_of (table_entry i % 256)) (λ i. i) refl

entry_injective : (i j : ℕ) → i < 256 → j < 256 → table_entry i % 256 ≡ table_entry j % 256 → i ≡ j
entry_injective i j hi hj e = sym (index_of-entry i hi) ∙ ap index_of e ∙ index_of-entry j hj

-- The register after one round.
abbrev next : ℕ → ℕ → ℕ
next crc c = bit_xor (crc % 256 * 256) (table_entry (bit_xor (crc / 256) c))

next_parts :
    (crc crc' c c' : ℕ)
    → crc < 65536
    → crc' < 65536
    → c < 256
    → c' < 256
    → next crc c ≡ next crc' c'
    → (bit_xor (crc / 256) c ≡ bit_xor (crc' / 256) c') × (crc % 256 ≡ crc' % 256)
next_parts crc crc' c c' h h' k k' e =
    let lt : bit_xor (crc / 256) c < 256 = xor_bound 8 (crc / 256) c (omega arith) (omega arith) in
    let lt' : bit_xor (crc' / 256) c' < 256 =
      xor_bound 8 (crc' / 256) c' (omega arith) (omega arith) in
    let same : bit_xor (crc / 256) c ≡ bit_xor (crc' / 256) c' = entry_injective _ _ lt lt' (
      omega (
        arith,
        e,
        xor_low_byte (crc % 256) (table_entry (bit_xor (crc / 256) c)),
        xor_low_byte (crc' % 256) (table_entry (bit_xor (crc' / 256) c')),
      )) in
    (
      same,
      omega (
        arith,
        xor_cancel_right (crc % 256 * 256) (table_entry (bit_xor (crc' / 256) c'))
            (crc' % 256 * 256) (rw same at e),
      ),
    )

next_same_byte :
    (crc crc' c : ℕ) → crc < 65536 → crc' < 65536 → c < 256 → next crc c ≡ next crc' c → crc ≡ crc'
next_same_byte crc crc' c h h' k e =
    let (same, low) = next_parts crc crc' c c h h' k k e in
    omega (arith, low, xor_cancel_right (crc / 256) c (crc' / 256) same)

next_same_register :
    (crc c c' : ℕ) → crc < 65536 → c < 256 → c' < 256 → next crc c ≡ next crc c' → c ≡ c'
next_same_register crc c c' h k k' e =
    xor_cancel_left c (crc / 256) c' (next_parts crc crc c c' h h k k' e).0

-- The same bytes lead from different registers to different registers.
calculate_from_injective :
    (bs : List ℕ) (crc crc' r : ℕ)
    → crc < 65536
    → crc' < 65536
    → IsBytes bs
    → calculate_from crc bs ≡ ok r
    → calculate_from crc' bs ≡ ok r
    → crc ≡ crc'
unfolding calculate_from
calculate_from_injective [] crc crc' r h h' hs e e' = ground arith
calculate_from_injective (c ∷ bs) crc crc' r h h' (hc, hs) e e' =
    next_same_byte crc crc' c h h' hc (
      calculate_from_injective bs (next crc c) (next crc' c) r (crc_step_bound crc c h hc)
        (crc_step_bound crc' c h' hc) hs (rw (crc_step_lem crc c h hc) at e)
        (rw (crc_step_lem crc' c h' hc) at e'))

calculate_from_detects :
    (front back : List ℕ) (a b crc r : ℕ)
    → crc < 65536
    → IsBytes front
    → IsBytes back
    → a < 256
    → b < 256
    → calculate_from crc (front ++ (a ∷ back)) ≡ ok r
    → calculate_from crc (front ++ (b ∷ back)) ≡ ok r
    → a ≡ b
unfolding calculate_from
calculate_from_detects [] back a b crc r h hf hs ha hb e e' = next_same_register crc a b h ha hb (
    calculate_from_injective back (next crc a) (next crc b) r (crc_step_bound crc a h ha)
      (crc_step_bound crc b h hb) hs (rw (crc_step_lem crc a h ha) at e)
      (rw (crc_step_lem crc b h hb) at e'))
calculate_from_detects (c ∷ front) back a b crc r h (hc, hf) hs ha hb e e' =
    calculate_from_detects front back a b (next crc c) r (crc_step_bound crc c h hc) hf hs ha hb
      (rw (crc_step_lem crc c h hc) at e) (rw (crc_step_lem crc c h hc) at e')

reverse_byte_involutive : (b : ℕ) → b < 256 → reverse_byte (reverse_byte b) ≡ b
unfolding all_below reverse_byte
reverse_byte_involutive = table_eq 256 (λ b. reverse_byte (reverse_byte b)) (λ b. b) refl

reverse_byte_message-append :
    (xs ys : List ℕ)
    → reverse_byte_message (xs ++ ys) ≡ reverse_byte_message xs ++ reverse_byte_message ys
unfolding reverse_byte_message
reverse_byte_message-append [] ys = refl
reverse_byte_message-append (x ∷ xs) ys = rw (reverse_byte_message-append xs ys)

reverse_byte_injective : (a b : ℕ) → a < 256 → b < 256 → reverse_byte a ≡ reverse_byte b → a ≡ b
reverse_byte_injective a b ha hb e = cc (reverse_byte_involutive a ha, reverse_byte_involutive b hb)

output_byte_injective : (a b : ℕ) → a < 256 → b < 256 → output_byte a ≡ output_byte b → a ≡ b
unfolding output_byte
output_byte_injective a b ha hb e =
    reverse_byte_injective a b ha hb (xor_cancel_right (reverse_byte a) 0xff (reverse_byte b) e)

sequence_injective :
    (r s : ℕ) (lsb_first : Bool)
    → r < 65536
    → s < 65536
    → ◌≡◌ {A = Result (List ℕ)} (ok (sequence_of r lsb_first)) (ok (sequence_of s lsb_first))
    → r ≡ s
sequence_injective r s true hr hs e = omega (
  arith,
  output_byte_injective (r % 256) (s % 256) (omega arith) (omega arith) (cc e),
  output_byte_injective (r / 256) (s / 256) (omega arith) (omega arith) (cc e),
)
sequence_injective r s false hr hs e = omega (
  arith,
  output_byte_injective (r % 256) (s % 256) (omega arith) (omega arith) (cc e),
  output_byte_injective (r / 256) (s / 256) (omega arith) (omega arith) (cc e),
)

-- The register after a message with the byte `a` between `front` and `back`.
register :
    (front back : List ℕ) (a : ℕ)
    → IsBytes (front ++ (a ∷ back))
    → (r : ℕ) × (calculate_from 0xffff (reverse_byte_message (front ++ (a ∷ back))) ≡ ok r)
      × (r < 65536)
register front back a h =
    calculate_from-ok 0xffff _ (omega arith) (reverse_byte_message-IsBytes _ h)

same_byte :
    (front back : List ℕ) (a b r : ℕ)
    → IsBytes front
    → IsBytes back
    → a < 256
    → b < 256
    → calculate_from 0xffff (reverse_byte_message (front ++ (a ∷ back))) ≡ ok r
    → calculate_from 0xffff (reverse_byte_message (front ++ (b ∷ back))) ≡ ok r
    → a ≡ b
unfolding reverse_byte_message
same_byte front back a b r hf hk ha hb e e' = reverse_byte_injective a b ha hb (
    calculate_from_detects (reverse_byte_message front) (reverse_byte_message back) (reverse_byte a)
      (reverse_byte b) 0xffff r (omega arith) (reverse_byte_message-IsBytes front hf)
      (reverse_byte_message-IsBytes back hk) (reverse_byte-IsByte a ha) (reverse_byte-IsByte b hb)
      (rw (reverse_byte_message-append front (a ∷ back)) at e)
      (rw (reverse_byte_message-append front (b ∷ back)) at e'))

-- Byte strings that differ in exactly one byte have different check sequences, wherever the byte
-- stands and whichever order of the two bytes of the sequence is asked for.
pub calculate_for_detects :
    (front back : List ℕ) (a b : ℕ) (lsb_first : Bool)
    → IsBytes (front ++ (a ∷ back))
    → IsBytes (front ++ (b ∷ back))
    → a ≢ b
    → calculate_for (front ++ (a ∷ back)) lsb_first ≢ calculate_for (front ++ (b ∷ back)) lsb_first
calculate_for_detects front back a b lsb_first h k ne e =
    let (r, er, hr) = register front back a h in
    let (s, es, hs) = register front back b k in
    let same = sequence_injective r s lsb_first hr hs (
      sym (calculate_for-register _ lsb_first r er hr)
      ∙ e
      ∙ calculate_for-register _ lsb_first s es hs) in
    let (hf, rest) = All-split IsByte front (a ∷ back) h in
    let hb = (All-split IsByte front (b ∷ back) k).1 in
    ne (same_byte front back a b r hf rest.1 rest.0 hb.0 er (rw (← same) at es))
