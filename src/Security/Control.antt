-- ===== src/Security/Control.antt =====
-- SecurityControlField (dlms_cosem/security.py).
use dlms_cosem.Prelude.{
  ℕ, ◌+◌, ◌*◌, ◌/◌, ◌%◌, ◌≤◌, ◌<◌, ◌≡◌, refl, arith, Bool, List, [], ◌∷◌, ◌==◌, ◌||◌, if◌then◌else◌,
  Result, ok, ◌>>=◌, ◌>>◌, require, value_error, bit_and, truthy, all_below, table_eq, int_to_bytes,
  int_from_bytes,
}

pub record SecurityControlField : Type 0 where
  pub security_suite : ℕ
  pub authenticated : Bool
  pub encrypted : Bool
  pub broadcast_key : Bool
  pub compressed : Bool

unfoldable pub validate_security_suite_number : ℕ → Result (Unit {0})
validate_security_suite_number suite = require (suite == 0 || suite == 1 || suite == 2) value_error

unfoldable pub make : ℕ → Bool → Bool → Bool → Bool → Result SecurityControlField
unfolding validate_security_suite_number
make suite authenticated encrypted broadcast_key compressed = do
  validate_security_suite_number suite
  ok (record {
    security_suite = suite;
    authenticated = authenticated;
    encrypted = encrypted;
    broadcast_key = broadcast_key;
    compressed = compressed;
  })

unfoldable pub from_bytes : List ℕ → Result SecurityControlField
unfolding make
from_bytes source_bytes =
    let val = int_from_bytes source_bytes in
    make (bit_and val 0b00001111) (truthy (bit_and val 0b00010000))
      (truthy (bit_and val 0b00100000)) (truthy (bit_and val 0b01000000))
      (truthy (bit_and val 0b10000000))

-- `if flag: _byte += value`
abbrev pub flag_value : Bool → ℕ → ℕ
flag_value flag value = if flag then value else 0

unfoldable pub to_bytes : SecurityControlField → Result (List ℕ)
to_bytes f = int_to_bytes 1 (
    f.security_suite
    + flag_value f.authenticated 0b00010000
    + flag_value f.encrypted 0b00100000
    + flag_value f.broadcast_key 0b01000000
    + flag_value f.compressed 0b10000000)

module _ (b : ℕ) (h : b < 256) where
  suite_bits : bit_and b 0b1111 ≡ b % 16
  unfolding all_below
  suite_bits = table_eq 256 (λ x. bit_and x 0b1111) (λ x. x % 16) refl b h

  authenticated_bit : bit_and b 0b10000 ≡ b / 16 % 2 * 16
  unfolding all_below
  authenticated_bit = table_eq 256 (λ x. bit_and x 0b10000) (λ x. x / 16 % 2 * 16) refl b h

  encrypted_bit : bit_and b 0b100000 ≡ b / 32 % 2 * 32
  unfolding all_below
  encrypted_bit = table_eq 256 (λ x. bit_and x 0b100000) (λ x. x / 32 % 2 * 32) refl b h

  broadcast_bit : bit_and b 0b1000000 ≡ b / 64 % 2 * 64
  unfolding all_below
  broadcast_bit = table_eq 256 (λ x. bit_and x 0b1000000) (λ x. x / 64 % 2 * 64) refl b h

  compressed_bit : bit_and b 0b10000000 ≡ b / 128 * 128
  unfolding all_below
  compressed_bit = table_eq 256 (λ x. bit_and x 0b10000000) (λ x. x / 128 * 128) refl b h

-- The byte of a field, in arithmetic.
abbrev pub control_byte : SecurityControlField → ℕ
control_byte f =
    f.security_suite
    + flag_value f.authenticated 16
    + flag_value f.encrypted 32
    + flag_value f.broadcast_key 64
    + flag_value f.compressed 128

pub control_byte-IsByte : (f : SecurityControlField) → f.security_suite ≤ 2 → control_byte f < 256
control_byte-IsByte f h = ground arith

-- A field that can be made has one of the three suites.
pub make-suite :
    (suite : ℕ) (authenticated encrypted broadcast_key compressed : Bool) (f : SecurityControlField)
    → make suite authenticated encrypted broadcast_key compressed ≡ ok f
    → f.security_suite ≤ 2
unfolding make validate_security_suite_number
make-suite suite authenticated encrypted broadcast_key compressed f e = ground arith

pub control-to_bytes :
    (f : SecurityControlField) → f.security_suite ≤ 2 → to_bytes f ≡ ok (control_byte f ∷ [])
unfolding to_bytes
control-to_bytes f h = ground arith

pub control-from_bytes :
    (f : SecurityControlField) → f.security_suite ≤ 2 → from_bytes (control_byte f ∷ []) ≡ ok f
unfolding from_bytes
control-from_bytes f h =
    let small : control_byte f < 256 = ground arith in
    ground (
      arith,
      suite_bits (control_byte f) small,
      authenticated_bit (control_byte f) small,
      encrypted_bit (control_byte f) small,
      broadcast_bit (control_byte f) small,
      compressed_bit (control_byte f) small,
    )

-- A security control field of the suites 0 to 2 is read back from its byte.
pub control-round_trip :
    (f : SecurityControlField) → f.security_suite ≤ 2 → (to_bytes f >>= from_bytes) ≡ ok f
control-round_trip f h = rw (control-to_bytes f h) (control-from_bytes f h)

-- The byte from which a security control field is read is the byte that it is written as.
pub control-from_bytes_inverse :
    (b : ℕ) (f : SecurityControlField)
    → b < 256
    → from_bytes (b ∷ []) ≡ ok f
    → to_bytes f ≡ ok (b ∷ [])
unfolding from_bytes to_bytes
control-from_bytes_inverse b f h e = ground (
  arith,
  suite_bits b h,
  authenticated_bit b h,
  encrypted_bit b h,
  broadcast_bit b h,
  compressed_bit b h,
)
