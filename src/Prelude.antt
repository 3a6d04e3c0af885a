-- ===== src/Prelude.antt =====
-- Names that all modules share: the libraries', passed on, and those of the children.
mod Tests
mod Lists
mod Int
mod Word
mod Dict
mod Errors
mod Arrays
mod Channels
mod Queues
pub mod Panic
pub use Tests.*
unfoldable pub use Lists.*
unfoldable pub use Int.*
pub use Word.*
unfoldable pub use Dict.*
pub use Errors.*
pub use Arrays.*
unfoldable pub use Channels.*
pub use Queues.*
pub use Prim.Native.Nat.{ℕ, zero, suc, ◌+◌, ◌-◌, ◌*◌, ◌/◌, ◌%◌, ◌^◌, ◌≤◌, ◌<◌}
pub use Prim.Native.String.{String}
pub use mathlib.Core.Path.{◌≡◌, refl, sym, ap, subst, ◌∙◌}
pub use mathlib.Core.Logic.{◌≢◌, ◌↔◌, ◌⊎◌, inl, inr}
pub use mathlib.Core.Bool.{Bool, true, false, ◌&&◌, ◌||◌, not}
pub use mathlib.Core.Option.{Option, none, some}
pub use mathlib.Core.List.{List, [], ◌∷◌, ◌++◌, map}
pub use native.Mathlib.Omega.{arith}
pub use text.Mathlib.TextEquality.{eq_iff as str_eq_iff}
unfoldable pub use text.Mathlib.Text.{◌==◌ as str_eq}
