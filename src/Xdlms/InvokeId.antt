-- ===== src/Xdlms/InvokeId.antt =====
-- InvokeIdAndPriority (dlms_cosem/protocol/xdlms/invoke_id_and_priority.py).
use dlms_cosem.Prelude.{
  ℕ, ◌+◌, ◌*◌, ◌/◌, ◌%◌, ◌<◌, ◌≡◌, refl, arith, Bool, true, false, List, [], ◌∷◌, ◌==◌, length,
  Result, ok, ◌>>=◌, ◌>>◌, require, value_error, bit_and, shl, truthy, all_below, table_eq,
  int_to_bytes, int_from_bytes,
}

pub record InvokeIdAndPriority : Type 0 where
  pub invoke_id : ℕ
  pub confirmed : Bool
  pub high_priority : Bool

unfoldable pub from_bytes : List ℕ → Result InvokeIdAndPriority
from_bytes source_bytes = do
  require (length source_bytes == 1) value_error
  let val = int_from_bytes source_bytes
  ok (record {
    invoke_id = bit_and val 0b00001111;
    confirmed = truthy (bit_and val 0b01000000);
    high_priority = truthy (bit_and val 0b10000000);
  })

-- A Boolean in arithmetic.
abbrev pub bool_int : Bool → ℕ
bool_int true = 1
bool_int false = 0

unfoldable pub to_bytes : InvokeIdAndPriority → Result (List ℕ)
to_bytes p =
    int_to_bytes 1 (p.invoke_id + shl (bool_int p.confirmed) 6 + shl (bool_int p.high_priority) 7)

module _ (b : ℕ) (h : b < 256) where
  low_nibble : bit_and b 0b1111 ≡ b % 16
  unfolding all_below
  low_nibble = table_eq 256 (λ x. bit_and x 0b1111) (λ x. x % 16) refl b h

  bit_six : bit_and b 0b1000000 ≡ b / 64 % 2 * 64
  unfolding all_below
  bit_six = table_eq 256 (λ x. bit_and x 0b1000000) (λ x. x / 64 % 2 * 64) refl b h

  bit_seven : bit_and b 0b10000000 ≡ b / 128 * 128
  unfolding all_below
  bit_seven = table_eq 256 (λ x. bit_and x 0b10000000) (λ x. x / 128 * 128) refl b h

abbrev pub priority_byte : InvokeIdAndPriority → ℕ
priority_byte p = p.invoke_id + bool_int p.confirmed * 64 + bool_int p.high_priority * 128

pub to_bytes_lem :
    (p : InvokeIdAndPriority) → p.invoke_id < 16 → to_bytes p ≡ ok (priority_byte p ∷ [])
unfolding to_bytes
to_bytes_lem p h = ground arith

pub from_bytes_lem :
    (p : InvokeIdAndPriority) → p.invoke_id < 16 → from_bytes (priority_byte p ∷ []) ≡ ok p
unfolding from_bytes
from_bytes_lem p h = ground (
  arith,
  low_nibble (priority_byte p) (ground arith),
  bit_six (priority_byte p) (ground arith),
  bit_seven (priority_byte p) (ground arith),
)

-- An invoke id of four bits with its confirmation and priority is read back from its byte.
pub invoke_round_trip :
    (p : InvokeIdAndPriority) → p.invoke_id < 16 → (to_bytes p >>= from_bytes) ≡ ok p
invoke_round_trip p h = rw (to_bytes_lem p h) (from_bytes_lem p h)
