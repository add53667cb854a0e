-- ===== src/Base.antt =====
-- The names that the other modules share: numbers, logic, lists and the Boolean tests.
mod Tests
mod Lists
mod Filters
mod Orders
mod Text
mod Keys
pub mod Map
pub mod Set
pub use Tests.*
pub use Lists.*
pub use Filters.*
pub use Orders.*
pub use Keys.*
unfoldable pub use Text.{locale_le}
pub use Prim.Native.Nat.{ℕ, zero, suc, ◌+◌, ◌-◌, ◌*◌, ◌/◌, ◌%◌, ◌≤◌, ◌<◌, min, max}
pub use Prim.Native.String.{String}
pub use mathlib.Core.Path.{◌≡◌, refl, sym, ap, subst, ◌∙◌}
pub use mathlib.Core.Logic.{◌≢◌, ◌↔◌, ◌⊎◌, inl, inr, ⊎_elim}
pub use mathlib.Core.Bool.{Bool, true, false, not, ◌&&◌, ◌||◌}
pub use mathlib.Core.Option.{Option, none, some}
pub use mathlib.Core.List.{List, [], ◌∷◌, cons≢nil, ◌++◌, map, Memᴰ, append-nil, append_assoc}
pub use native.Mathlib.Omega.{arith}
