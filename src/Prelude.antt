-- ===== src/Prelude.antt =====
-- The names that the modules of the kernel share: those of the libraries, passed on, the tests
-- and lists over the native numbers, signed integers, and C arrays.
mod Tests
mod Lists
mod Int
mod Arrays
mod Text
mod Bytes
mod Bits
mod Doubling
pub use Tests.*
pub use Lists.*
pub use Int.*
pub use Arrays.*
unfoldable pub use Text.*
unfoldable pub use Bytes.*
pub use Bits.{bit_or_apart}
unfoldable pub use Doubling.*
pub use Prim.Native.Nat.{
  ℕ, zero, suc, ◌+◌, ◌-◌, ◌*◌, ◌/◌, ◌%◌, ◌^◌, ◌≤◌, ◌<◌, min, max, bit_and, bit_or, bit_xor,
}
pub use mathlib.Core.Path.{◌≡◌, refl, sym, ap, ap₂, subst, ◌∙◌, fun_ext}
pub use mathlib.Core.Logic.{◌≢◌, ◌↔◌, ◌⊎◌, inl, inr}
pub use mathlib.Core.Bool.{Bool, true, false, not, ◌&&◌, ◌||◌}
pub use mathlib.Core.Option.{Option, none, some}
pub use mathlib.Core.List.{List, [], ◌∷◌, ◌++◌, map, append-nil, append_assoc}
pub use native.Mathlib.Omega.{arith}
unfoldable pub use native.Mathlib.Decide.{dec_lt, ℕ_discrete}
