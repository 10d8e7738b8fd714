-- ===== src/Crc/Total.antt =====
-- The table lookups and the output of CRCCCITT (dlms_cosem/crc.py) on bytes.
use dlms_cosem.Prelude.{
  ℕ, zero, suc, ◌+◌, ◌*◌, ◌/◌, ◌%◌, ◌<◌, ◌≡◌, refl, ap, ◌∙◌, arith, Bool, true, false, some, List,
  [], ◌∷◌, ltb, ltb→lt, if◌then◌else◌, get_elem?, Result, ok, bit_and, bit_xor, all_below,
  all_below_sound, table_eq, IsByte, IsBytes,
}
use dlms_cosem.Crc.Defs.{
  reverse_byte, reverse_byte_message, table_entry, table_from, crc_ccitt_table, crc_step,
  calculate_from, output_byte, calculate_for,
}
use dlms_cosem.Crc.Xor.{xor_bound}

table_from-get : (n i k : ℕ) → k < n → get_elem? (table_from i n) k ≡ some (table_entry (i + k))
unfolding table_from
table_from-get zero i k h = absurd (omega arith)
table_from-get (suc n) i zero h = ap (λ t. some (table_entry t)) (omega arith)
table_from-get (suc n) i (suc k) h =
    table_from-get n (i + 1) k (omega arith) ∙ ap (λ t. some (table_entry t)) (omega arith)

pub table_lookup : (k : ℕ) → k < 256 → get_elem? crc_ccitt_table k ≡ some (table_entry k)
unfolding crc_ccitt_table
table_lookup k h = table_from-get 256 0 k h ∙ ap (λ t. some (table_entry t)) (omega arith)

table_entry_small : all_below 256 (λ i. ltb (table_entry i) 65536) ≡ true
unfolding all_below table_entry
table_entry_small = refl

pub table_entry_bound : (i : ℕ) → i < 256 → table_entry i < 65536
table_entry_bound i h =
    ltb→lt _ _ (all_below_sound 256 (λ i. ltb (table_entry i) 65536) i table_entry_small h)

pub low_byte_mask : (n : ℕ) → n < 65536 → bit_and n 0xff ≡ n % 256
unfolding all_below
low_byte_mask = table_eq 65536 (λ x. bit_and x 0xff) (λ x. x % 256) refl

pub high_byte_mask : (n : ℕ) → n < 65536 → bit_and n 0xff00 ≡ n / 256 * 256
unfolding all_below
high_byte_mask = table_eq 65536 (λ x. bit_and x 0xff00) (λ x. x / 256 * 256) refl

shifted_mask : (n : ℕ) → n < 65536 → bit_and (n * 256) 0xff00 ≡ n % 256 * 256
unfolding all_below
shifted_mask = table_eq 65536 (λ x. bit_and (x * 256) 0xff00) (λ x. x % 256 * 256) refl

-- One round on a register and a byte, in arithmetic.
pub crc_step_lem :
    (crc c : ℕ)
    → crc < 65536
    → c < 256
    → crc_step crc c ≡ ok (bit_xor (crc % 256 * 256) (table_entry (bit_xor (crc / 256) c)))
unfolding crc_step
crc_step_lem crc c h k =
    rw (low_byte_mask (crc / 256) (omega arith), shifted_mask crc h)
      (let e : crc / 256 % 256 ≡ crc / 256 = omega arith in
        rw e (
          rw (
            table_lookup (bit_xor (crc / 256) c)
              (xor_bound 8 (crc / 256) c (omega arith) (omega arith)))))

pub crc_step_bound :
    (crc c : ℕ)
    → crc < 65536
    → c < 256
    → bit_xor (crc % 256 * 256) (table_entry (bit_xor (crc / 256) c)) < 65536
crc_step_bound crc c h k =
    xor_bound 16 _ _ (omega arith)
      (table_entry_bound _ (xor_bound 8 _ _ (omega arith) (omega arith)))

pub calculate_from-ok :
    (crc : ℕ) (bs : List ℕ)
    → crc < 65536
    → IsBytes bs
    → (r : ℕ) × (calculate_from crc bs ≡ ok r) × (r < 65536)
unfolding calculate_from
calculate_from-ok crc [] h hs = (crc, refl, h)
calculate_from-ok crc (c ∷ bs) h (hc, hs) = rw (crc_step_lem crc c h hc) (
    calculate_from-ok (bit_xor (crc % 256 * 256) (table_entry (bit_xor (crc / 256) c))) bs
      (crc_step_bound crc c h hc) hs)

reverse_byte_small : all_below 256 (λ b. ltb (reverse_byte b) 256) ≡ true
unfolding all_below reverse_byte
reverse_byte_small = refl

pub reverse_byte-IsByte : (b : ℕ) → b < 256 → reverse_byte b < 256
reverse_byte-IsByte b h =
    ltb→lt _ _ (all_below_sound 256 (λ b. ltb (reverse_byte b) 256) b reverse_byte_small h)

pub reverse_byte_message-IsBytes : (bs : List ℕ) → IsBytes bs → IsBytes (reverse_byte_message bs)
unfolding reverse_byte_message
reverse_byte_message-IsBytes [] h = tt
reverse_byte_message-IsBytes (b ∷ bs) (h, hs) =
    (reverse_byte-IsByte b h, reverse_byte_message-IsBytes bs hs)

pub output_byte-IsByte : (b : ℕ) → b < 256 → output_byte b < 256
unfolding output_byte
output_byte-IsByte b h = xor_bound 8 _ _ (reverse_byte-IsByte b h) (omega arith)

-- The halves of the register, as the output stage reads them.
abbrev pub sequence_of : ℕ → Bool → List ℕ
sequence_of r true = output_byte (r % 256) ∷ output_byte (r / 256) ∷ []
sequence_of r false = output_byte (r / 256) ∷ output_byte (r % 256) ∷ []

pub calculate_for-register :
    (bs : List ℕ) (lsb_first : Bool) (r : ℕ)
    → calculate_from 0xffff (reverse_byte_message bs) ≡ ok r
    → r < 65536
    → calculate_for bs lsb_first ≡ ok (sequence_of r lsb_first)
unfolding calculate_for
calculate_for-register bs lsb_first r e hr =
    rw (e, low_byte_mask r hr, high_byte_mask r hr)
      (let half : r / 256 * 256 / 256 ≡ r / 256 = omega arith in rw half (pick lsb_first))
  where
    pick :
        (b : Bool)
        → ◌≡◌ {A = Result (List ℕ)}
            (ok (
              if b
              then output_byte (r % 256) ∷ output_byte (r / 256) ∷ []
              else output_byte (r / 256) ∷ output_byte (r % 256) ∷ []))
            (ok (sequence_of r b))
    pick true = refl
    pick false = refl

sequence_of_bytes :
    (r : ℕ) (lsb_first : Bool)
    → r < 65536
    → (x : ℕ) × (y : ℕ) × (sequence_of r lsb_first ≡ x ∷ y ∷ []) × IsByte x × IsByte y
sequence_of_bytes r true h =
    (_, _, refl, output_byte-IsByte _ (omega arith), output_byte-IsByte _ (omega arith))
sequence_of_bytes r false h =
    (_, _, refl, output_byte-IsByte _ (omega arith), output_byte-IsByte _ (omega arith))

-- The check sequence of every byte string exists and is two bytes, in either order.
pub calculate_for-two_bytes :
    (bs : List ℕ) (lsb_first : Bool)
    → IsBytes bs
    → (x : ℕ) × (y : ℕ) × (calculate_for bs lsb_first ≡ ok (x ∷ y ∷ [])) × IsByte x × IsByte y
calculate_for-two_bytes bs lsb_first h =
    let (r, e, hr) =
      calculate_from-ok 0xffff (reverse_byte_message bs) (omega arith)
        (reverse_byte_message-IsBytes bs h) in
    let (x, y, s, hx, hy) = sequence_of_bytes r lsb_first hr in
    (x, y, calculate_for-register bs lsb_first r e hr ∙ ap ok s, hx, hy)
