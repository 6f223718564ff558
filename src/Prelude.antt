-- ===== src/Prelude.antt =====
-- The names that the other modules share: the libraries', passed on, and the program's own tests
-- on numbers, texts and lists (JavaScript's `===`, `includes`, `some`, `every`, `find`, `??`).
mod Tests
mod Lists
mod Tables
mod Keys
mod First
mod Members
pub use Tests.*
pub use Lists.*
unfoldable pub use Tables.{update_by}
pub use Tables.*
unfoldable pub use Keys.{HasKeys}
pub use Keys.*
unfoldable pub use First.{first_by}
pub use First.*
pub use Members.*
pub use Prim.Native.Nat.{ℕ, zero, suc, ◌+◌, ◌-◌, ◌*◌, ◌/◌, ◌%◌, ◌^◌, ◌≤◌, ◌<◌}
pub use Prim.Native.String.{String}
pub use mathlib.Core.Path.{◌≡◌, refl, sym, ap, ◌∙◌, subst}
pub use mathlib.Core.Logic.{◌≢◌, ◌↔◌, ◌⊎◌, inl, inr}
pub use mathlib.Core.Bool.{Bool, true, false, not, ◌&&◌, ◌||◌}
pub use mathlib.Core.Option.{Option, none, some}
pub use mathlib.Core.List.{List, [], ◌∷◌, ◌++◌, map}
pub use native.Mathlib.Omega.{arith}
pub use text.Mathlib.Text.{◌==◌}
pub use text.Mathlib.TextEquality.{eq_iff}
pub use text.Mathlib.TextPositions.{eq_refl}
