-- ===== src/Prelude.antt =====
-- The names that every module shares: the libraries', passed on, and those of the children.
mod Tests
mod Lists
mod Equality
mod Maps
mod Sorting
mod Stable
mod Sets
pub use Tests.*
pub use Lists.*
unfoldable pub use Lists.{keep_if, some_of, every_of}
pub use Equality.*
unfoldable pub use Equality.{contains}
pub use Maps.*
unfoldable pub use Maps.{lookup, insert, remove, has}
pub use Sorting.*
unfoldable pub use Sorting.{unique, sort_insert, sort, sorted_set}
pub use Stable.*
pub use Sets.*
unfoldable pub use Stable.{stable_sort, stable_insert}
pub use Prim.Native.Nat.{ℕ, zero, suc, ◌+◌, ◌-◌, ◌*◌, ◌/◌, ◌%◌, ◌^◌, ◌≤◌, ◌<◌, min, max}
pub use Prim.Native.String.{String}
pub use mathlib.Core.Path.{◌≡◌, refl, sym, ap, ap₂, ◌∙◌, fun_ext}
pub use mathlib.Core.Logic.{◌≢◌, ◌↔◌, ◌⊎◌, inl, inr}
pub use mathlib.Core.Bool.{Bool, true, false, not, ◌&&◌, ◌||◌}
pub use mathlib.Core.Option.{Option, none, some}
pub use mathlib.Core.List.{List, [], ◌∷◌, ◌++◌, map}
pub use native.Mathlib.Omega.{arith}
