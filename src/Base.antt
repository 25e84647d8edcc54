-- ===== src/Base.antt =====
-- The names that the components share: those of the libraries, passed on, and the Boolean tests,
-- lists and results of the native numbers.
pub use Prim.Native.Nat.{
  ℕ, zero, suc, ◌+◌, ◌-◌, ◌*◌, ◌/◌, ◌%◌, ◌^◌, ◌≤◌, ◌<◌, min, compare, Ordering,
}
pub use mathlib.Core.Path.{◌≡◌, refl, sym, ap, ◌∙◌, subst}
pub use mathlib.Core.Logic.{◌≢◌, ◌↔◌, ◌⊎◌, inl, inr}
pub use mathlib.Core.Bool.{Bool, true, false, not, ◌&&◌, ◌||◌}
pub use mathlib.Core.Option.{Option, none, some}
pub use mathlib.Core.List.{List, [], ◌∷◌, ◌++◌, map}
pub use native.Mathlib.Omega.{arith}
pub mod Tests
pub mod Lists
pub mod Results
pub mod Texts
pub mod Int
pub mod Floats
pub mod Options
pub mod Draws
pub mod Numerals
pub mod Sorting
pub mod Members
pub use Tests.*
pub use Lists.*
unfoldable pub use Numerals.{itoa, atoi, padded}
pub use Int.*
pub use Floats.*
pub use Results.*
pub use Texts.*
