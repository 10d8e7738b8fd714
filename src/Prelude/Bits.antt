-- ===== src/Prelude/Bits.antt =====
-- Shifts, and masks as arithmetic: at variables the tactics take `bit_and` for an unknown.
use Prim.Native.Nat.{ℕ, zero, suc, ◌*◌, ◌/◌, ◌^◌, ◌<◌}
use mathlib.Core.Path.{◌≡◌}
use mathlib.Core.Bool.{Bool, true, ◌&&◌, not}
use native.Mathlib.Omega.{arith}
use dlms_cosem.Prelude.Tests.{◌==◌, ==_iff}

-- `x << k` and `x >> k`
abbrev pub shl : ℕ → ℕ → ℕ
shl x k = x * 2 ^ k

abbrev pub shr : ℕ → ℕ → ℕ
shr x k = x / 2 ^ k

-- `bool(x)`
abbrev pub truthy : ℕ → Bool
truthy x = not (x == 0)

-- A test of all naturals under a bound, by evaluation.
unfoldable pub all_below : ℕ → (ℕ → Bool) → Bool
all_below zero test = true
all_below (suc bound) test = let below = all_below bound test in test bound && below

pub all_below_sound :
    (bound : ℕ) (test : ℕ → Bool) (i : ℕ) → all_below bound test ≡ true → i < bound → test i ≡ true
unfolding all_below
all_below_sound (suc bound) test i passed small = ground (arith, all_below_sound bound test i)
all_below_sound zero test i passed small = absurd (omega arith)

module _ (n : ℕ) (f g : ℕ → ℕ) where
  pub table_eq : all_below n (λ x. f x == g x) ≡ true → (x : ℕ) → x < n → f x ≡ g x
  table_eq h x lt = (==_iff _ _).0 (all_below_sound n (λ x. f x == g x) x h lt)
