-- ===== src/Crc/Xor.antt =====
-- Exclusive or at variables: the law of the lowest digit, and what follows by induction.
use Prim.Native.Nat.{digits, bit_xor-bitwise, differ}
use dlms_cosem.Prelude.{ℕ, zero, suc, ◌+◌, ◌*◌, ◌/◌, ◌%◌, ◌^◌, ◌≤◌, ◌<◌, ◌≡◌, refl, arith, bit_xor}
use native.Mathlib.Nat.{pow-suc}

abbrev xor_digits : ℕ → ℕ → ℕ → ℕ
xor_digits n a b = digits (λ b. b) differ n a b

xor_digits_fuel : (n m a b : ℕ) → a ≤ n → a ≤ m → xor_digits n a b ≡ xor_digits m a b
xor_digits_fuel zero zero zero b p q = refl
xor_digits_fuel zero zero (suc a) b p q = refl
xor_digits_fuel zero (suc m) zero b p q = refl
xor_digits_fuel zero (suc m) (suc a) b p q = absurd (omega arith)
xor_digits_fuel (suc n) zero zero b p q = refl
xor_digits_fuel (suc n) zero (suc a) b p q = absurd (omega arith)
xor_digits_fuel (suc n) (suc m) zero b p q = refl
xor_digits_fuel (suc n) (suc m) (suc a) b p q =
    omega (arith, xor_digits_fuel n m (suc a / 2) (b / 2) (omega arith) (omega arith))

pub zero-bit_xor : (b : ℕ) → bit_xor 0 b ≡ b
zero-bit_xor b = bit_xor-bitwise 0 b

differ_digit : (x y : ℕ) → x < 2 → y < 2 → differ x y ≡ (x + y) % 2
differ_digit zero zero p q = refl
differ_digit zero (suc zero) p q = refl
differ_digit zero (suc (suc y)) p q = absurd (omega arith)
differ_digit (suc zero) zero p q = refl
differ_digit (suc zero) (suc zero) p q = refl
differ_digit (suc zero) (suc (suc y)) p q = absurd (omega arith)
differ_digit (suc (suc x)) y p q = absurd (omega arith)

pub bit_xor_step : (a b : ℕ) → bit_xor a b ≡ bit_xor (a / 2) (b / 2) * 2 + (a + b) % 2
bit_xor_step zero b = omega (arith, zero-bit_xor b, zero-bit_xor (b / 2))
bit_xor_step (suc a) b = omega (
  arith,
  bit_xor-bitwise (suc a) b,
  bit_xor-bitwise (suc a / 2) (b / 2),
  differ_digit (suc a % 2) (b % 2) (omega arith) (omega arith),
  xor_digits_fuel a (suc a / 2) (suc a / 2) (b / 2) (omega arith) (omega arith),
)

xor_cancel_fuel : (n a b c : ℕ) → a ≤ n → c ≤ n → bit_xor a b ≡ bit_xor c b → a ≡ c
xor_cancel_fuel zero a b c p q h = omega arith
xor_cancel_fuel (suc n) a b c p q h =
    let s : bit_xor (a / 2) (b / 2) ≡ bit_xor (c / 2) (b / 2) =
      omega (arith, bit_xor_step a b, bit_xor_step c b) in
    omega (
      arith,
      bit_xor_step a b,
      bit_xor_step c b,
      xor_cancel_fuel n (a / 2) (b / 2) (c / 2) (omega arith) (omega arith) s,
    )

-- Exclusive or with the same number on the right is injective.
pub xor_cancel_right : (a b c : ℕ) → bit_xor a b ≡ bit_xor c b → a ≡ c
xor_cancel_right a b c h = xor_cancel_fuel (a + c) a b c (omega arith) (omega arith) h

xor_comm_fuel : (n a b : ℕ) → a ≤ n → b ≤ n → bit_xor a b ≡ bit_xor b a
xor_comm_fuel zero zero zero p q = refl
xor_comm_fuel zero zero (suc b) p q = absurd (omega arith)
xor_comm_fuel zero (suc a) b p q = absurd (omega arith)
xor_comm_fuel (suc n) a b p q = omega (
  arith,
  bit_xor_step a b,
  bit_xor_step b a,
  xor_comm_fuel n (a / 2) (b / 2) (omega arith) (omega arith),
)

pub xor_comm : (a b : ℕ) → bit_xor a b ≡ bit_xor b a
xor_comm a b = xor_comm_fuel (a + b) a b (omega arith) (omega arith)

pub xor_cancel_left : (a b c : ℕ) → bit_xor b a ≡ bit_xor b c → a ≡ c
xor_cancel_left a b c h = xor_cancel_right a b c (omega (arith, xor_comm a b, xor_comm c b))

-- Numbers of `k` digits give numbers of `k` digits.
pub xor_bound : (k a b : ℕ) → a < 2 ^ k → b < 2 ^ k → bit_xor a b < 2 ^ k
xor_bound zero zero b p q = omega (arith, zero-bit_xor b)
xor_bound zero (suc a) b p q = absurd (omega arith)
xor_bound (suc k) a b p q = omega (
  arith,
  bit_xor_step a b,
  pow-suc 2 k,
  xor_bound k (a / 2) (b / 2) (omega (arith, pow-suc 2 k)) (omega (arith, pow-suc 2 k)),
)

-- A number whose last byte is 0 leaves the last byte of the other alone.
pub xor_low_byte : (a t : ℕ) → bit_xor (a * 256) t % 256 ≡ t % 256
xor_low_byte a t = omega (
  arith,
  bit_xor_step (a * 256) t,
  bit_xor_step (a * 256 / 2) (t / 2),
  bit_xor_step (a * 256 / 2 / 2) (t / 2 / 2),
  bit_xor_step (a * 256 / 2 / 2 / 2) (t / 2 / 2 / 2),
  bit_xor_step (a * 256 / 2 / 2 / 2 / 2) (t / 2 / 2 / 2 / 2),
  bit_xor_step (a * 256 / 2 / 2 / 2 / 2 / 2) (t / 2 / 2 / 2 / 2 / 2),
  bit_xor_step (a * 256 / 2 / 2 / 2 / 2 / 2 / 2) (t / 2 / 2 / 2 / 2 / 2 / 2),
  bit_xor_step (a * 256 / 2 / 2 / 2 / 2 / 2 / 2 / 2) (t / 2 / 2 / 2 / 2 / 2 / 2 / 2),
)
