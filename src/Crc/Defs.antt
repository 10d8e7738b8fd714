-- ===== src/Crc/Defs.antt =====
-- CRCCCITT (dlms_cosem/crc.py). `c_ushort(x)` keeps the low sixteen bits.
use dlms_cosem.Prelude.{
  ℕ, zero, suc, ◌+◌, ◌-◌, ◌*◌, ◌%◌, ◌^◌, Bool, List, [], ◌∷◌, if◌then◌else◌, Result, ok, ◌>>=◌,
  bit_and, bit_xor, shl, shr, truthy, byte_at,
}

abbrev u16 : ℕ → ℕ
u16 x = x % 65536

abbrev crc_ccitt_constant : ℕ
crc_ccitt_constant = 0x1021

-- `and_value` runs through the powers of two, and `i` counts the rounds done.
reverse_loop : ℕ → ℕ → ℕ → ℕ → ℕ → ℕ
reverse_loop zero i and_value reversed byte = reversed
reverse_loop (suc rounds) i and_value reversed byte =
    reverse_loop rounds (i + 1) (and_value + and_value)
      (reversed + shr (bit_and byte and_value) i * 2 ^ (7 - i)) byte

-- The byte with its bits in the other order: the one byte that `reverse_byte` returns.
unfoldable pub reverse_byte : ℕ → ℕ
unfolding reverse_loop
reverse_byte byte = reverse_loop 8 0 1 0 byte

unfoldable pub reverse_byte_message : List ℕ → List ℕ
reverse_byte_message [] = []
reverse_byte_message (char ∷ msg) = reverse_byte char ∷ reverse_byte_message msg

-- The inner loop of `init_crc_table`.
crc_rounds : ℕ → ℕ → ℕ → ℕ
crc_rounds zero crc c = crc
crc_rounds (suc rounds) crc c =
    crc_rounds rounds
      (if truthy (bit_and (bit_xor crc c) 0x8000)
        then bit_xor (u16 (shl crc 1)) crc_ccitt_constant
        else u16 (shl crc 1))
      (u16 (shl c 1))

unfoldable pub table_entry : ℕ → ℕ
unfolding crc_rounds
table_entry i = crc_rounds 8 0 (shl i 8)

unfoldable pub table_from : ℕ → ℕ → List ℕ
table_from i zero = []
table_from i (suc n) = table_entry i ∷ table_from (i + 1) n

-- `init_crc_table`: the pre-calculated values for every byte.
unfoldable pub crc_ccitt_table : List ℕ
unfolding table_from table_entry
crc_ccitt_table = table_from 0 256

unfoldable pub crc_step : ℕ → ℕ → Result ℕ
crc_step crc_value c = do
  let tmp = bit_xor (bit_and (shr crc_value 8) 0xff) c
  let crc_shifted = bit_and (shl crc_value 8) 0xff00
  entry ← byte_at crc_ccitt_table tmp
  ok (bit_xor crc_shifted entry)

-- The loop of `_calculate`.
unfoldable pub calculate_from : ℕ → List ℕ → Result ℕ
calculate_from crc_value [] = ok crc_value
calculate_from crc_value (c ∷ input_data) = do
  crc_value' ← crc_step crc_value c
  calculate_from crc_value' input_data

-- One byte of the result: the reversed half of the register, inverted.
unfoldable pub output_byte : ℕ → ℕ
output_byte half = bit_xor (reverse_byte half) 0xff

unfoldable pub calculate_for : List ℕ → Bool → Result (List ℕ)
calculate_for input_data lsb_first = do
  reversed_crc ← calculate_from 0xffff (reverse_byte_message input_data)
  let lsb = output_byte (bit_and reversed_crc 0x00ff)
  let msb = output_byte (shr (bit_and reversed_crc 0xff00) 8)
  ok (if lsb_first then lsb ∷ msb ∷ [] else msb ∷ lsb ∷ [])
