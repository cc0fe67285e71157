-- ===== src/Common.antt =====
-- What the models of all components share: names of the libraries, Boolean tests, lists and byte
-- strings over the native numbers, and the outcome of code that can fail.
mod Tests
mod Lists
pub mod Text
pub mod Words
pub mod Decimal
pub mod Outcome
pub mod Attempt
pub mod Result
pub mod Memory
pub mod Time
pub mod Logger
pub mod Error
pub use Tests.*
pub use Lists.*
pub use Prim.Native.Nat.{ℕ, zero, suc, ◌+◌, ◌-◌, ◌*◌, ◌/◌, ◌%◌, ◌^◌, ◌≤◌, ◌<◌}
pub use mathlib.Core.Path.{◌≡◌, refl, sym, ap, subst, ◌∙◌}
pub use mathlib.Core.Logic.{◌≢◌, ◌↔◌, ◌⊎◌, inl, inr}
pub use mathlib.Core.Bool.{Bool, true, false, not, ◌&&◌, ◌||◌}
pub use mathlib.Core.Option.{Option, none, some}
pub use mathlib.Core.List.{List, [], ◌∷◌, ◌++◌, map, append-nil, append_assoc}
pub use native.Mathlib.Omega.{arith}
