-- ===== src/Common.antt =====
-- The names that the models of the library's parts share: the standard ones, passed on, and
-- those of the children (Boolean tests, lists measured by native numbers, octets, words).
mod Tests
mod Lists
mod Bytes
pub mod BigEndian
mod Fallible
pub mod Bits
pub mod BitLaws
pub mod Powers
pub mod Masks
pub use Tests.*
pub use Lists.*
pub use Bytes.*
pub use Fallible.*
pub use Prim.Native.Nat.{
  ℕ, zero, suc, ◌+◌, ◌-◌, ◌*◌, ◌/◌, ◌%◌, ◌^◌, ◌≤◌, ◌<◌, min, max, bit_and, bit_or, bit_xor,
}
pub use mathlib.Core.Path.{◌≡◌, refl, sym, ap, ap₂, ◌∙◌}
pub use mathlib.Core.Logic.{◌≢◌, ◌↔◌, ◌⊎◌, inl, inr}
pub use mathlib.Core.Bool.{Bool, true, false, ◌&&◌, ◌||◌, not}
pub use mathlib.Core.Option.{Option, none, some}
pub use mathlib.Core.List.{List, [], ◌∷◌, ◌++◌, map, append-nil, append_assoc}
pub use native.Mathlib.Omega.{arith}
