-- ===== src/Prelude.antt =====
-- The names that the other modules share: the libraries', passed on, and those of six children.
mod Tests
mod Lists
mod ByteText
mod Maps
mod Heaps
mod Sums
unfoldable pub use Tests.*
unfoldable pub use Lists.*
unfoldable pub use ByteText.*
unfoldable pub use Maps.*
pub use Heaps.*
unfoldable pub use Sums.*
pub use Prim.Native.Nat.{ℕ, zero, suc, ◌+◌, ◌-◌, ◌*◌, ◌/◌, ◌%◌, ◌^◌, ◌≤◌, ◌<◌}
pub use mathlib.Core.Path.{◌≡◌, refl, sym, ap, subst, ◌∙◌}
pub use mathlib.Core.Logic.{◌≢◌, ◌↔◌, ◌⊎◌, inl, inr}
pub use mathlib.Core.Bool.{Bool, true, false, not, ◌&&◌, ◌||◌}
pub use mathlib.Core.Option.{Option, none, some}
pub use mathlib.Core.List.{List, [], ◌∷◌, ◌++◌, map, append_assoc, append-nil}
pub use native.Mathlib.Omega.{arith}
