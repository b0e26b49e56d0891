-- ===== src/Base.antt =====
-- What the modules of the library share: the names of the base libraries, Boolean tests, lists and
-- blocks of memory, machine words, and the outcome of a run.
pub mod Tests
pub mod Lists
pub mod Words
pub mod Mod
pub mod Family
pub mod Outcome
pub use Tests.*
pub use Lists.*
pub use Words.*
pub use Mod.*
pub use Family.*
pub use Outcome.*
pub use Prim.Native.Nat.{ℕ, zero, suc, ◌+◌, ◌-◌, ◌*◌, ◌/◌, ◌%◌, ◌^◌, ◌≤◌, ◌<◌, min, max}
pub use mathlib.Core.Path.{◌≡◌, refl, sym, ap, subst, ◌∙◌}
pub use mathlib.Core.Logic.{◌≢◌, ◌↔◌, ◌⊎◌, inl, inr}
pub use mathlib.Core.Bool.{Bool, true, false, not, ◌&&◌, ◌||◌}
pub use mathlib.Core.Option.{Option, none, some}
pub use mathlib.Core.List.{List, [], ◌∷◌, ◌++◌, append_assoc, append-nil}
pub use native.Mathlib.Omega.{arith}
