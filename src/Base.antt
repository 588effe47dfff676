-- ===== src/Base.antt =====
-- Names that the other modules share: the libraries' numbers, paths, options and lists, and this
-- library's own tests, lists, bits and machine words. It models no code of its own.
mod Tests
mod Lists
mod Bits
mod Word
mod Int
mod Mask
unfoldable pub use Tests.*
pub use Lists.*
unfoldable pub use Bits.*
pub use Word.*
unfoldable pub use Int.*
pub use Mask.*
pub use Prim.Native.Nat.{
  ℕ, zero, suc, ◌+◌, ◌-◌, ◌*◌, ◌/◌, ◌%◌, ◌^◌, ◌≤◌, ◌<◌, min, max, bit_and, bit_or,
}
pub use mathlib.Core.Path.{◌≡◌, refl, sym, ap, ap₂, ◌∙◌, subst}
pub use mathlib.Core.Logic.{◌≢◌, ◌↔◌, ◌⊎◌, inl, inr}
pub use mathlib.Core.Bool.{Bool, true, false, not, ◌&&◌, ◌||◌}
pub use mathlib.Core.Option.{Option, none, some}
pub use mathlib.Core.List.{List, [], ◌∷◌, ◌++◌, map}
pub use native.Mathlib.Omega.{arith}
