-- ===== src/Base.antt =====
-- The names that all components share: the library's, passed on, C's comparisons (`Tests`),
-- arrays (`Lists`), bytes and buffers (`Buffer`), strings
-- (`Strings`).
mod Tests
mod Lists
mod Buffer
mod Strings
unfoldable pub use Tests.*
pub use Lists.*
unfoldable pub use Buffer.*
unfoldable pub use Strings.*
pub use Prim.Native.Nat.{ℕ, zero, suc, ◌+◌, ◌-◌, ◌*◌, ◌/◌, ◌%◌, ◌^◌, ◌≤◌, ◌<◌, min}
pub use mathlib.Core.Path.{◌≡◌, refl, sym, ap, ◌∙◌, subst}
pub use mathlib.Core.Logic.{◌≢◌, ◌↔◌, ◌⊎◌, inl, inr}
pub use mathlib.Core.Bool.{Bool, true, false, not, ◌&&◌, ◌||◌}
pub use mathlib.Core.Option.{Option, none, some}
pub use mathlib.Core.List.{List, [], ◌∷◌, ◌++◌, append-nil, append_assoc}
pub use native.Mathlib.Omega.{arith}
