-- ===== src/Base.antt =====
-- What the other modules share: the libraries' names, passed on, and those of the children.
pub mod Tests
pub mod Lists
pub mod Results
pub mod Maps
pub mod Texts
pub mod MapSizes
pub use Prim.Native.Nat.{ℕ, zero, suc, ◌+◌, ◌-◌, ◌*◌, ◌/◌, ◌%◌, ◌^◌, ◌≤◌, ◌<◌}
pub use Prim.Native.String.{String}
pub use mathlib.Core.Path.{◌≡◌, refl, sym, ap, ◌∙◌, subst}
pub use mathlib.Core.Logic.{◌≢◌, ◌↔◌, ◌⊎◌, inl, inr}
pub use mathlib.Core.Bool.{Bool, true, false, not, ◌&&◌, ◌||◌}
pub use mathlib.Core.Option.{Option, none, some}
pub use mathlib.Core.List.{List, [], ◌∷◌, ◌++◌, map, append_assoc, append-nil}
pub use native.Mathlib.Omega.{arith}
pub use Tests.*
pub use Lists.*
pub use Results.*
pub use Texts.*
pub use MapSizes.*
unfoldable pub use Maps.*
