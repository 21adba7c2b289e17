-- ===== src/Prelude.antt =====
-- The names that the other modules share: the libraries', passed on, with the Boolean tests, the
-- lists measured by native numbers, and a stable sort, which models `Array.prototype.sort`.
mod Tests
mod Lists
pub mod Result
pub mod Number
pub mod Json
pub mod Print
pub mod Text
pub mod Sort
pub mod Distinct
pub use Tests.*
unfoldable pub use Lists.*
pub use Prim.Native.Nat.{ℕ, zero, suc, ◌+◌, ◌-◌, ◌*◌, ◌/◌, ◌%◌, ◌^◌, ◌≤◌, ◌<◌, min, max}
pub use Prim.Native.String.{String}
pub use mathlib.Core.Path.{◌≡◌, refl, sym, ap, ap₂, subst, subst₂, ◌∙◌}
pub use mathlib.Core.Logic.{◌≢◌, ◌↔◌, ◌⊎◌, inl, inr}
pub use mathlib.Core.Bool.{Bool, true, false, not, ◌&&◌, ◌||◌}
pub use mathlib.Core.Option.{Option, none, some}
pub use mathlib.Core.List.{List, [], ◌∷◌, ◌++◌, map, Perm, append_assoc, append-nil}
pub use native.Mathlib.Omega.{arith}
