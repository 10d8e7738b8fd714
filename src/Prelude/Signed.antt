-- ===== src/Prelude/Signed.antt =====
-- Integers, and Python's `int.to_bytes(n, "big", signed=True)` and its inverse.
use Prim.Native.Nat.{ℕ, ◌-◌, ◌*◌, ◌^◌, ◌<◌}
use mathlib.Core.Path.{◌≡◌}
use mathlib.Core.List.{List}
use native.Mathlib.Omega.{arith}
use dlms_cosem.Prelude.Tests.{ltb, lt→ltb, if◌then◌else◌}
use dlms_cosem.Prelude.Lists.{length}
use dlms_cosem.Prelude.Results.{Result, ok, raise, overflow_error}
use dlms_cosem.Prelude.Bytes.{be_digits, int_from_bytes, int_from_bytes-be_digits, length-be_digits}

-- `negsuc n` is -(n + 1).
pub data ℤ : Type 0 where
  pos : ℕ → ℤ
  negsuc : ℕ → ℤ

-- How far the number is from -1 or from 0.
abbrev pub magnitude : ℤ → ℕ
magnitude (pos x) = x
magnitude (negsuc x) = x

-- Two's complement in `n` bytes.
abbrev pub complement : ℕ → ℤ → ℕ
complement n (pos x) = x
complement n (negsuc x) = 256 ^ n - 1 - x

unfoldable pub signed_to_bytes : ℕ → ℤ → Result (List ℕ)
signed_to_bytes n v =
    if ltb (2 * magnitude v) (256 ^ n)
    then ok (be_digits n (complement n v))
    else raise overflow_error

abbrev from_complement : ℕ → ℕ → ℤ
from_complement n x = if ltb (2 * x) (256 ^ n) then pos x else negsuc (256 ^ n - 1 - x)

unfoldable pub signed_from_bytes : List ℕ → ℤ
signed_from_bytes bs = from_complement (length bs) (int_from_bytes bs)

complement_small :
    (n h : ℕ) (v : ℤ) → 256 ^ n ≡ 2 * h → 0 < h → magnitude v < h → complement n v < 256 ^ n
complement_small n h (pos x) e p s = omega arith
complement_small n h (negsuc x) e p s = omega arith

from_complement-complement :
    (n h : ℕ) (v : ℤ)
    → 256 ^ n ≡ 2 * h
    → 0 < h
    → magnitude v < h
    → from_complement n (complement n v) ≡ v
from_complement-complement n h (pos x) e p s = ground arith
from_complement-complement n h (negsuc x) e p s = ground arith

-- A number that fits is written, in `n` bytes, and read back.
pub signed_from_bytes-to_bytes :
    (n h : ℕ) (v : ℤ)
    → 256 ^ n ≡ 2 * h
    → 0 < h
    → magnitude v < h
    → (signed_to_bytes n v ≡ ok (be_digits n (complement n v)))
      × (signed_from_bytes (be_digits n (complement n v)) ≡ v)
unfolding signed_to_bytes signed_from_bytes
signed_from_bytes-to_bytes n h v e p s = (
  rw (lt→ltb (2 * magnitude v) (256 ^ n) (omega arith)),
  rw (length-be_digits n (complement n v)) (
      rw (int_from_bytes-be_digits n (complement n v) (complement_small n h v e p s))
        (from_complement-complement n h v e p s)),
)
