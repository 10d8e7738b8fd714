-- ===== src/Prelude/Bytes.antt =====
-- Byte strings and Python's `int.to_bytes(n, "big")` and `int.from_bytes(b, "big")`.
use Prim.Native.Nat.{ℕ, zero, suc, ◌+◌, ◌*◌, ◌/◌, ◌%◌, ◌^◌, ◌<◌}
use mathlib.Core.Path.{◌≡◌, refl}
use mathlib.Core.List.{List, [], ◌∷◌, ◌++◌}
use native.Mathlib.Omega.{arith}
use native.Mathlib.Nat.{pow-suc}
use dlms_cosem.Prelude.Tests.{ltb, ◌==◌, if◌then◌else◌}
use dlms_cosem.Prelude.Lists.{length, get_elem?, length-append, All, All-append}
use dlms_cosem.Prelude.Results.{
  Result, ok, raise, or_raise, index_error, value_error, overflow_error,
}

abbrev pub IsByte : ℕ → Type 0
IsByte b = b < 256

abbrev pub IsBytes : List ℕ → Type 0
IsBytes = All IsByte

-- The last `n` base-256 digits of `x`, most significant first.
abbrev pub be_digits : ℕ → ℕ → List ℕ
be_digits zero x = []
be_digits (suc n) x = be_digits n (x / 256) ++ (x % 256 ∷ [])

-- `x.to_bytes(n, "big")`
abbrev pub int_to_bytes : ℕ → ℕ → Result (List ℕ)
int_to_bytes n x = if ltb x (256 ^ n) then ok (be_digits n x) else raise overflow_error

abbrev from_digits : ℕ → List ℕ → ℕ
from_digits acc [] = acc
from_digits acc (b ∷ bs) = from_digits (acc * 256 + b) bs

-- `int.from_bytes(bs, "big")`
abbrev pub int_from_bytes : List ℕ → ℕ
int_from_bytes = from_digits 0

-- `bs[i]`
abbrev pub byte_at : List ℕ → ℕ → Result ℕ
byte_at bs i = or_raise index_error (get_elem? bs i)

-- A member of an IntEnum by its value, in the order of their definition.
abbrev pub member_of {ℓ} : {A : Type ℓ} → List (ℕ × A) → ℕ → Result A
member_of [] n = raise value_error
member_of ((value, member) ∷ rest) n =
    let later = member_of rest n in if value == n then ok member else later

-- `bs.pop(0)` on a bytearray
abbrev pub pop : List ℕ → Result (ℕ × List ℕ)
pop [] = raise index_error
pop (b ∷ bs) = ok (b, bs)

from_digits-snoc :
    (xs : List ℕ) (acc b : ℕ) → from_digits acc (xs ++ (b ∷ [])) ≡ from_digits acc xs * 256 + b
from_digits-snoc [] acc b = refl
from_digits-snoc (x ∷ xs) acc b = from_digits-snoc xs (acc * 256 + x) b

pub int_from_bytes-be_digits : (n x : ℕ) → x < 256 ^ n → int_from_bytes (be_digits n x) ≡ x
int_from_bytes-be_digits zero x h = omega arith
int_from_bytes-be_digits (suc n) x h = omega (
  arith,
  from_digits-snoc (be_digits n (x / 256)) 0 (x % 256),
  int_from_bytes-be_digits n (x / 256) (omega (arith, pow-suc 256 n)),
)

pub length-be_digits : (n x : ℕ) → length (be_digits n x) ≡ n
length-be_digits zero x = refl
length-be_digits (suc n) x =
    omega
      (arith, length-append (be_digits n (x / 256)) (x % 256 ∷ []), length-be_digits n (x / 256))

pub be_digits-IsBytes : (n x : ℕ) → IsBytes (be_digits n x)
be_digits-IsBytes zero x = tt
be_digits-IsBytes (suc n) x =
    All-append IsByte (be_digits n (x / 256)) (x % 256 ∷ []) (be_digits-IsBytes n (x / 256))
      (omega arith)

pub int_to_bytes-ok : (n x : ℕ) → x < 256 ^ n → int_to_bytes n x ≡ ok (be_digits n x)
int_to_bytes-ok n x h = ground arith
