-- ===== src/Base.antt =====
-- The names that the other modules share: the libraries', passed on, and those of the children.
mod Tests
mod Lists
mod Throws
mod Strings
mod Maps
mod Sums
mod Int
mod Values
mod Runtime
mod Trimming
mod Numbers
mod Classes
pub use Tests.*
pub use Lists.*
pub use Throws.*
unfoldable pub use Strings.*
pub use Maps.*
pub use Sums.*
pub use Int.*
pub use Values.*
pub use Runtime.*
pub use Trimming.*
pub use Numbers.*
pub use Classes.*
pub use Prim.Native.Nat.{ℕ, zero, suc, ◌+◌, ◌-◌, ◌*◌, ◌/◌, ◌%◌, ◌^◌, ◌≤◌, ◌<◌}
pub use mathlib.Core.Path.{◌≡◌, refl, sym, ap, ◌∙◌}
pub use mathlib.Core.Logic.{◌≢◌, ◌↔◌, ◌⊎◌, inl, inr}
pub use mathlib.Core.Bool.{Bool, true, false, not, ◌&&◌, ◌||◌}
pub use mathlib.Core.Option.{Option, none, some}
pub use mathlib.Core.List.{List, [], ◌∷◌, ◌++◌, map}
pub use native.Mathlib.Omega.{arith}
