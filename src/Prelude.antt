-- ===== src/Prelude.antt =====
-- The names that the other modules share: the libraries', passed on, and those of the children:
-- Boolean tests, lists over the native numbers, signed integers, results with failures.
mod Tests
mod Lists
mod Int
mod Maps
pub use Tests.*
pub use Lists.*
unfoldable pub use Int.*
pub use Maps.*
pub use Prim.Native.Nat.{ℕ, zero, suc, ◌+◌, ◌-◌, ◌*◌, ◌/◌, ◌%◌, ◌^◌, ◌≤◌, ◌<◌}
pub use mathlib.Core.Path.{◌≡◌, refl, sym, ap, ◌∙◌}
pub use mathlib.Core.Logic.{◌≢◌, ◌↔◌, ◌⊎◌, inl, inr}
pub use mathlib.Core.Bool.{Bool, true, false, not, ◌&&◌, ◌||◌}
pub use mathlib.Core.Option.{Option, none, some}
pub use mathlib.Core.List.{List, [], ◌∷◌, ◌++◌, map}
pub use native.Mathlib.Omega.{arith}
