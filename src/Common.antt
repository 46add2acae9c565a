-- ===== src/Common.antt =====
-- The names that every component shares: the library's, passed on, Boolean tests, equality of keys,
-- Python's dictionaries and sets, integers, and the exceptions that the program raises.
mod Tests
pub mod Keys
pub mod Text
pub mod Decimal
pub mod Dict
pub mod Sets
pub mod Int
pub mod Errors
pub mod Floats
pub use Tests.*
pub use Keys.*
pub use Prim.Native.Nat.{ℕ, zero, suc, ◌+◌, ◌-◌, ◌*◌, ◌/◌, ◌%◌, ◌≤◌, ◌<◌, max, min}
pub use Prim.Native.String.{String}
pub use mathlib.Core.Path.{◌≡◌, refl, sym, ap, ap₂, subst, ◌∙◌, fun_ext}
pub use mathlib.Core.Logic.{◌≢◌, ◌↔◌, ◌⊎◌, inl, inr}
pub use mathlib.Core.Bool.{Bool, true, false, not, ◌&&◌, ◌||◌}
pub use mathlib.Core.Option.{Option, none, some}
pub use mathlib.Core.List.{List, [], ◌∷◌, ◌++◌, map, foldl}
pub use native.Mathlib.Omega.{arith}
