-- ===== src/Prelude.antt =====
-- The names that the modules share: those of the libraries, passed on, and the tests, lists and
-- results below.
mod Tests
mod Lists
mod Results
mod Counts
mod Slices
pub use Tests.*
pub use Lists.*
pub use Results.*
pub use Counts.*
pub use Slices.*
pub use Prim.Native.Nat.{ℕ, zero, suc, ◌+◌, ◌-◌, ◌*◌, ◌/◌, ◌%◌, ◌^◌, ◌≤◌, ◌<◌}
pub use mathlib.Core.Path.{◌≡◌, refl, subst, sym, ap, ap₂, ◌∙◌}
pub use mathlib.Core.Logic.{◌≢◌, ◌↔◌, ◌⊎◌, inl, inr}
pub use mathlib.Core.Bool.{Bool, true, false, not, ◌&&◌, ◌||◌}
pub use mathlib.Core.Option.{Option, none, some}
pub use mathlib.Core.List.{List, [], ◌∷◌, ◌++◌, map, append-nil, append_assoc, map-append}
pub use Prim.Native.String.{String}
pub use native.Mathlib.Omega.{arith}
