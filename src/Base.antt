-- ===== src/Base.antt =====
-- The names that the other modules share: the libraries', passed on, Boolean tests,
-- lists with native lengths, and the integers of Go's `int64`.
mod Tests
mod Lists
mod Slices
mod Int
mod Bytes
mod Text
mod Maps
pub use Tests.*
pub use Lists.*
pub use Slices.*
pub use Int.*
unfoldable pub use Maps.*
unfoldable pub use Bytes.*
pub use Bytes.Trim.*
pub use Maps.Sizes.{IsMap, HasKey, lookup-Mem, set-IsMap, key_of_both}
unfoldable pub use Text.*
pub use Prim.Native.Nat.{ℕ, zero, suc, ◌+◌, ◌-◌, ◌*◌, ◌/◌, ◌%◌, ◌^◌, ◌≤◌, ◌<◌, min}
pub use Prim.Native.String.{String}
pub use mathlib.Core.Path.{◌≡◌, refl, sym, ap, ap₂, ◌∙◌, subst, fun_ext}
pub use mathlib.Core.Logic.{◌≢◌, ◌↔◌, ◌⊎◌, inl, inr}
pub use mathlib.Core.Bool.{Bool, true, false, not, ◌&&◌, ◌||◌}
pub use mathlib.Core.Option.{Option, none, some}
pub use mathlib.Core.List.{List, [], ◌∷◌, ◌++◌, map}
pub use native.Mathlib.Omega.{arith}
pub use text.Mathlib.Text.{◌==◌}
pub use text.Mathlib.TextEquality.{eq_iff}
pub use text.Mathlib.TextPositions.{eq_refl}
