-- ===== src/Common.antt =====
-- Names that every part shares: the libraries', passed on, the Boolean tests, lists measured by
-- native numbers, signed integers, and commands that may fault. It models no code of its own.
mod Tests
mod Lists
mod Int
mod Command
pub use Tests.*
pub use Lists.*
pub use Int.*
pub use Command.*
pub use Prim.Native.Nat.{ℕ, zero, suc, ◌+◌, ◌-◌, ◌*◌, ◌/◌, ◌%◌, ◌^◌, ◌≤◌, ◌<◌}
pub use mathlib.Core.Path.{◌≡◌, refl, sym, ap, ◌∙◌}
pub use mathlib.Core.Logic.{◌≢◌, ◌↔◌, ◌⊎◌, inl, inr}
pub use mathlib.Core.Bool.{Bool, true, false, ◌&&◌, ◌||◌, not}
pub use mathlib.Core.Option.{Option, none, some}
pub use mathlib.Core.List.{List, [], ◌∷◌, ◌++◌, map}
pub use native.Mathlib.Omega.{arith}
