-- ===== src/Base.antt =====
-- The names that every module of the kernel model shares: the libraries' names passed on, and
-- those of the children for tests, C words, lists and functions over addresses.
mod Tests
mod Words
mod Lists
mod Stores
mod Loops
mod Faults
pub mod Bits
unfoldable pub use Tests.*
unfoldable pub use Words.*
unfoldable pub use Lists.*
unfoldable pub use Stores.*
unfoldable pub use Loops.*
unfoldable pub use Faults.*
pub use Prim.Native.Nat.{
  ℕ, zero, suc, ◌+◌, ◌-◌, ◌*◌, ◌/◌, ◌%◌, ◌^◌, ◌≤◌, ◌<◌, bit_and, bit_or, bit_xor, min, max,
}
pub use mathlib.Core.Path.{◌≡◌, refl, sym, ap, ◌∙◌}
pub use mathlib.Core.Logic.{◌≢◌, ◌↔◌, ◌⊎◌, inl, inr}
pub use mathlib.Core.Bool.{Bool, true, false, not, ◌&&◌, ◌||◌}
pub use mathlib.Core.Option.{Option, none, some}
pub use mathlib.Core.List.{List, [], ◌∷◌, ◌++◌}
pub use native.Mathlib.Omega.{arith}
