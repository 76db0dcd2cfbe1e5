-- ===== src/Prelude.antt =====
-- Shared names: the libraries', passed on, and those of the children. No source file is modelled
-- in this module; the children model the parts of Go's standard library that `le` relies on.
mod Tests
mod Lists
mod Text
pub mod Maps
pub mod Order
pub mod Int
pub mod Letters
pub mod Search
pub mod Decimal
pub mod Space
pub mod Utf8
pub mod Runes
pub mod Sort
pub use Tests.*
pub use Lists.*
unfoldable pub use Text.*
pub use Prim.Native.Nat.{ℕ, zero, suc, ◌+◌, ◌-◌, ◌*◌, ◌/◌, ◌%◌, ◌^◌, ◌≤◌, ◌<◌, min, max}
pub use mathlib.Core.Path.{◌≡◌, refl, sym, ap, ◌∙◌, subst}
pub use mathlib.Core.Logic.{◌≢◌, ◌↔◌, ◌⊎◌, inl, inr}
pub use mathlib.Core.Bool.{Bool, true, false, not, ◌&&◌, ◌||◌}
pub use mathlib.Core.Option.{Option, none, some}
pub use mathlib.Core.List.{List, [], ◌∷◌, ◌++◌, map, append-nil, append_assoc}
pub use native.Mathlib.Omega.{arith}
