-- ===== src/Hdlc/Fields/Bits.antt =====
-- The masks of fields.py on one byte and on the two bytes of the format field, as arithmetic.
use dlms_cosem.Prelude.{
  ℕ, ◌+◌, ◌-◌, ◌*◌, ◌/◌, ◌%◌, ◌<◌, ◌≡◌, refl, bit_and, bit_or, all_below, table_eq,
}

module _ (b : ℕ) (h : b < 256) where
  pub low_bit : bit_and b 0b1 ≡ b % 2
  unfolding all_below
  low_bit = table_eq 256 (λ x. bit_and x 0b1) (λ x. x % 2) refl b h

  pub ssn_bits : bit_and b 0b1110 ≡ b / 2 % 8 * 2
  unfolding all_below
  ssn_bits = table_eq 256 (λ x. bit_and x 0b1110) (λ x. x / 2 % 8 * 2) refl b h

  pub rsn_bits : bit_and b 0b11100000 ≡ b / 32 * 32
  unfolding all_below
  rsn_bits = table_eq 256 (λ x. bit_and x 0b11100000) (λ x. x / 32 * 32) refl b h

  pub final_bit : bit_and b 0b10000 ≡ b / 16 % 2 * 16
  unfolding all_below
  final_bit = table_eq 256 (λ x. bit_and x 0b10000) (λ x. x / 16 % 2 * 16) refl b h

  pub or_final : bit_or b 0x10 ≡ b + (16 * (1 - b / 16 % 2))
  unfolding all_below
  or_final = table_eq 256 (λ x. bit_or x 0x10) (λ x. x + (16 * (1 - x / 16 % 2))) refl b h

  pub low_two_bits : bit_and b 0b11 ≡ b % 4
  unfolding all_below
  low_two_bits = table_eq 256 (λ x. bit_and x 0b11) (λ x. x % 4) refl b h

  pub high_nibble : bit_and b 0b11110000 ≡ b / 16 * 16
  unfolding all_below
  high_nibble = table_eq 256 (λ x. bit_and x 0b11110000) (λ x. x / 16 * 16) refl b h

  pub segmentation_bit : bit_and b 0b1000 ≡ b / 8 % 2 * 8
  unfolding all_below
  segmentation_bit = table_eq 256 (λ x. bit_and x 0b1000) (λ x. x / 8 % 2 * 8) refl b h

pub length_bits : (n : ℕ) → n < 65536 → bit_and n 0x7ff ≡ n % 2048
unfolding all_below
length_bits = table_eq 65536 (λ x. bit_and x 0x7ff) (λ x. x % 2048) refl

module _ (n : ℕ) (h : n < 2048) where
  pub or_format_type : bit_or 0xa000 n ≡ 0xa000 + n
  unfolding all_below
  or_format_type = table_eq 2048 (λ x. bit_or 0xa000 x) (λ x. 0xa000 + x) refl n h

  pub or_segmented : bit_or (0xa000 + n) 0x800 ≡ 0xa800 + n
  unfolding all_below
  or_segmented = table_eq 2048 (λ x. bit_or (0xa000 + x) 0x800) (λ x. 0xa800 + x) refl n h
