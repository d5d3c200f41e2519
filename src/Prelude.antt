-- ===== src/Prelude.antt =====
-- The names that the other modules share: the libraries', passed on, tests on numbers, lists measured
-- by native numbers, results with an error, texts as lists of code units, and signed integers.
mod Tests
mod Lists
mod Results
mod Texts
mod Slices
pub mod Int
pub mod Interleaving
pub mod Pointwise
pub use Tests.*
pub use Lists.*
pub use Results.*
unfoldable pub use Texts.*
pub use Slices.*
pub use Prim.Native.Nat.{ℕ, zero, suc, ◌+◌, ◌-◌, ◌*◌, ◌/◌, ◌%◌, ◌^◌, ◌≤◌, ◌<◌, min, max}
pub use mathlib.Core.Path.{◌≡◌, refl, sym, ap, ap₂, ◌∙◌, subst, ◌≡⟨◌⟩◌, ◌∎}
pub use mathlib.Core.Logic.{◌≢◌, ◌↔◌, ◌⊎◌, inl, inr}
pub use mathlib.Core.Bool.{Bool, true, false, not, ◌&&◌, ◌||◌}
pub use mathlib.Core.Option.{Option, none, some}
pub use mathlib.Core.List.{List, [], ◌∷◌, ◌++◌, map, reverse, append_assoc, append-nil}
pub use native.Mathlib.Omega.{arith}
