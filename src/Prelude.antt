-- ===== src/Prelude.antt =====
-- The names that the other modules share: the libraries', passed on, and those of its children.
mod Tests
mod Lists
mod Text
mod Names
mod Order
pub use Tests.*
pub use Lists.*
unfoldable pub use Text.*
unfoldable pub use Names.*
pub use Order.*
pub use Prim.Native.Nat.{ℕ, zero, suc, ◌+◌, ◌-◌, ◌*◌, ◌/◌, ◌%◌, ◌^◌, ◌≤◌, ◌<◌}
pub use Prim.Native.String.{String}
pub use mathlib.Core.Path.{◌≡◌, refl, sym, ap, ◌∙◌}
pub use mathlib.Core.Logic.{◌≢◌, ◌↔◌, ◌⊎◌, inl, inr}
pub use mathlib.Core.Bool.{Bool, true, false, ◌&&◌, ◌||◌, not}
pub use mathlib.Core.Option.{Option, none, some}
pub use mathlib.Core.List.{List, [], ◌∷◌, ◌++◌, append_assoc, append-nil}
unfoldable pub use mathlib.Core.List.{map}
pub use native.Mathlib.Omega.{arith}
