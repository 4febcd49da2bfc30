-- ===== src/Base.antt =====
-- The names that every module of the development shares: those of the libraries, passed on, and
-- those of the children (tests on numbers, lists indexed by numbers, runs that may panic, lists
-- without repetition, memory that is updated).
mod Tests
mod Lists
mod Outcome
mod Distinct
mod Updates
pub use Tests.*
pub use Lists.*
pub use Outcome.*
unfoldable pub use Distinct.*
unfoldable pub use Updates.*
pub use Prim.Native.Nat.{ℕ, zero, suc, ◌+◌, ◌-◌, ◌*◌, ◌/◌, ◌%◌, ◌^◌, ◌≤◌, ◌<◌}
pub use mathlib.Core.Path.{◌≡◌, refl, sym, subst, ap, ◌∙◌, fun_ext}
pub use mathlib.Core.Logic.{◌≢◌, ◌↔◌, ◌⊎◌, inl, inr}
pub use mathlib.Core.Bool.{Bool, true, false, not, ◌&&◌, ◌||◌, false≢true}
pub use mathlib.Core.Option.{Option, none, some}
pub use mathlib.Core.List.{List, [], ◌∷◌, ◌++◌}
pub use native.Mathlib.Omega.{arith}
unfoldable pub use native.Mathlib.Decide.{dec_lt, dec_le, ℕ_discrete}
