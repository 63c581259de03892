-- ===== src/Common.antt =====
-- The names that the other modules share: the libraries', passed on, and those of the children.
mod Tests
mod Results
mod Lists
mod Words
mod Related
mod Repeats
mod Texts
mod Sorting
mod Keyed
mod Found
unfoldable pub use Tests.*
pub use Results.*
unfoldable pub use Lists.*
pub use Words.*
pub use Related.*
pub use Repeats.*
unfoldable pub use Texts.*
pub use Texts.Laws.*
unfoldable pub use Sorting.*
pub use Sorting.Laws.*
pub use Keyed.*
pub use Found.*
pub use Prim.Native.Nat.{
  ℕ, zero, suc, ◌+◌, ◌-◌, ◌*◌, ◌/◌, ◌%◌, ◌^◌, ◌≤◌, ◌<◌, min, compare, Ordering,
}
pub use mathlib.Core.Path.{◌≡◌, refl, sym, ap, subst, ◌∙◌}
pub use mathlib.Core.Logic.{◌≢◌, ◌↔◌, ◌⊎◌, inl, inr}
pub use mathlib.Core.Bool.{Bool, true, false, not, ◌&&◌, ◌||◌}
pub use mathlib.Core.Option.{Option, none, some}
pub use mathlib.Core.List.{List, [], ◌∷◌, ◌++◌, map}
pub use native.Mathlib.Omega.{arith}
