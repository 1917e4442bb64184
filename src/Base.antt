-- ===== src/Base.antt =====
-- Names that the whole development shares: the libraries' names passed on, the conditional, and
-- Go's `map[string]V` (Base/GoMap).
pub mod GoMap
pub mod Cond
pub mod Duration
pub mod Rune
pub use Cond.{if◌then◌else◌, Bool-cases, is_some, some_of_is_some}
pub use Duration.{ℤ, pos, negsuc, is_zero}
pub use Prim.Native.Nat.{ℕ, zero, suc, ◌+◌, ◌-◌, ◌*◌, ◌%◌, ◌^◌, ◌≤◌, ◌<◌}
pub use Prim.Native.String.{String, ◌++◌ as ◌<>◌}
pub use mathlib.Core.Path.{◌≡◌, refl, sym, ap, subst, ◌∙◌}
pub use mathlib.Core.Logic.{◌≢◌, ◌↔◌, ◌⊎◌, inl, inr}
pub use mathlib.Core.Bool.{Bool, true, false, not, ◌&&◌, ◌||◌}
pub use mathlib.Core.Option.{Option, none, some}
pub use mathlib.Core.List.{List, [], ◌∷◌, ◌++◌}
pub use native.Mathlib.Omega.{arith}
pub use text.Mathlib.Text.{◌==◌}
pub use text.Mathlib.TextEquality.{eq_iff}
