-- ===== src/Hdlc/Address/Bits.antt =====
-- The masks of address.py as arithmetic.
use dlms_cosem.Prelude.{ℕ, ◌+◌, ◌*◌, ◌/◌, ◌%◌, ◌<◌, ◌≡◌, refl, bit_and, bit_or, all_below, table_eq}

pub or_one : (n : ℕ) → n < 128 → bit_or (n * 2) 1 ≡ n * 2 + 1
unfolding all_below
or_one = table_eq 128 (λ x. bit_or (x * 2) 1) (λ x. x * 2 + 1) refl

module _ (n : ℕ) (h : n < 16384) where
  pub low_seven : bit_and n 0b0000000001111111 ≡ n % 128
  unfolding all_below
  low_seven = table_eq 16384 (λ x. bit_and x 0x7f) (λ x. x % 128) refl n h

  pub high_seven : bit_and n 0b0011111110000000 ≡ n / 128 * 128
  unfolding all_below
  high_seven = table_eq 16384 (λ x. bit_and x 0x3f80) (λ x. x / 128 * 128) refl n h
