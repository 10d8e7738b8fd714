-- ===== src/Prelude.antt =====
-- What the modules share: names of the libraries passed on, tests on numbers, lists measured by
-- native numbers, Python's exceptions as values, masks and shifts, and byte strings.
pub mod Tests
pub mod Lists
pub mod Results
pub mod Bits
pub mod Bytes
pub mod Signed
pub use Tests.*
pub use Lists.*
pub use Results.*
unfoldable pub use Bits.*
unfoldable pub use Bytes.*
unfoldable pub use Signed.*
pub use Prim.Native.Nat.{ℕ, zero, suc, ◌+◌, ◌-◌, ◌*◌, ◌/◌, ◌%◌, ◌^◌, ◌≤◌, ◌<◌}
pub use Prim.Native.Nat.{bit_and, bit_or, bit_xor}
pub use mathlib.Core.Path.{◌≡◌, refl, sym, ap, ◌∙◌}
pub use mathlib.Core.Logic.{◌≢◌, ◌↔◌, ◌⊎◌, inl, inr}
pub use mathlib.Core.Bool.{Bool, true, false, not, ◌&&◌, ◌||◌}
pub use mathlib.Core.Option.{Option, none, some}
pub use mathlib.Core.List.{List, [], ◌∷◌, ◌++◌, map, append_assoc, append-nil}
pub use native.Mathlib.Omega.{arith}
