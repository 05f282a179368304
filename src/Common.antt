-- ===== src/Common.antt =====
-- Names shared by all modules: the libraries' names passed on, Boolean tests, words, maps and sets.
mod Tests
mod Lists
mod Words
mod Keys
pub mod Int
pub mod Results
pub mod HashMap
pub mod HashSet
pub use Tests.*
pub use Lists.*
unfoldable pub use Words.*
pub use Keys.*
pub use Prim.Native.Nat.{ℕ, zero, suc, ◌+◌, ◌-◌, ◌*◌, ◌/◌, ◌%◌, ◌≤◌, ◌<◌, min, max}
pub use mathlib.Core.Path.{◌≡◌, refl, sym, ap, subst, ◌∙◌}
pub use mathlib.Core.Logic.{◌≢◌, ◌↔◌, ◌⊎◌, inl, inr}
pub use mathlib.Core.Bool.{Bool, true, false, not, ◌&&◌, ◌||◌}
pub use mathlib.Core.Option.{Option, none, some}
pub use mathlib.Core.List.{List, [], ◌∷◌, ◌++◌, map}
pub use native.Mathlib.Omega.{arith}
