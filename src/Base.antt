-- ===== src/Base.antt =====
-- The names that all parts share: the libraries', passed on, and those of the children.
mod Tests
mod Lists
pub mod Int
mod Strings
mod Split
mod Utf8
mod Decimal
mod Maps
mod Sort
mod Results
mod Paths
mod Counting
pub use Tests.*
pub use Lists.*
unfoldable pub use Strings.*
unfoldable pub use Split.*
unfoldable pub use Utf8.*
unfoldable pub use Decimal.*
unfoldable pub use Maps.*
unfoldable pub use Sort.*
pub use Results.*
unfoldable pub use Paths.*
unfoldable pub use Counting.*
pub use Prim.Native.Nat.{ℕ, zero, suc, ◌+◌, ◌-◌, ◌*◌, ◌/◌, ◌%◌, ◌^◌, ◌≤◌, ◌<◌, min, max}
pub use mathlib.Core.Path.{◌≡◌, refl, sym, ap, subst, ◌∙◌}
pub use mathlib.Core.Logic.{◌≢◌, ◌↔◌, ◌⊎◌, inl, inr}
pub use mathlib.Core.Bool.{Bool, true, false, not, ◌&&◌, ◌||◌}
pub use mathlib.Core.Option.{Option, none, some}
pub use mathlib.Core.List.{List, [], ◌∷◌, ◌++◌, map}
pub use native.Mathlib.Omega.{arith}
