-- ===== src/Prelude.antt =====
-- What the modules share: library names passed on, Boolean tests on numbers and byte strings, and
-- lists measured by native numbers. A `std::string` is the list of its bytes.
mod Tests
mod Lists
mod Strings
unfoldable pub use Tests.*
unfoldable pub use Lists.*
unfoldable pub use Strings.*
pub use Prim.Native.Nat.{ℕ, zero, suc, ◌+◌, ◌-◌, ◌*◌, ◌/◌, ◌%◌, ◌^◌, ◌≤◌, ◌<◌, min}
pub use mathlib.Core.Path.{◌≡◌, refl, sym, ap, ap₂, ◌∙◌, subst}
pub use mathlib.Core.Logic.{◌≢◌, ◌↔◌, ◌⊎◌, inl, inr}
pub use mathlib.Core.Bool.{Bool, true, false, not, ◌&&◌, ◌||◌}
pub use mathlib.Core.Option.{Option, none, some}
pub use mathlib.Core.List.{
  List, [], ◌∷◌, ◌++◌, map, reverse, append-nil, append_assoc, reverse-append, reverse-reverse,
  reverse-cons,
}
pub use native.Mathlib.Omega.{arith}
