-- ===== src/Prelude.antt =====
-- The names that every module shares: the libraries', passed on, the Boolean tests on numbers, and
-- the order of texts and the JSON values of three children.
mod Tests
pub mod Order
mod Fold
mod Split
pub use Split.{first_word-append, append-cancel, append-not_empty}
unfoldable pub use Split.{strip, split, after_first, first_word, is_word}
unfoldable pub use Fold.{lower_is}
pub use Fold.{codes}
pub use Tests.*
pub use Order.{text_gt, newer, not_older}
unfoldable pub use Order.{text_lt}
pub use Prim.Native.Nat.{ℕ, zero, suc, ◌+◌, ◌-◌, ◌*◌, ◌/◌, ◌%◌, ◌^◌, ◌≤◌, ◌<◌, min, max}
pub use Prim.Native.String.{String}
pub use mathlib.Core.Path.{◌≡◌, refl, sym, ap, ◌∙◌, fun_ext}
pub use mathlib.Core.Logic.{◌≢◌, ◌↔◌, ◌⊎◌, inl, inr}
pub use mathlib.Core.Bool.{Bool, true, false, ◌&&◌, ◌||◌, not}
pub use mathlib.Core.Option.{Option, none, some}
pub use mathlib.Core.List.{List, [], ◌∷◌, ◌++◌, map}
pub use native.Mathlib.Omega.{arith}
pub use text.Mathlib.Text.{◌==◌}
pub use text.Mathlib.TextEquality.{eq_iff}
pub use text.Mathlib.TextPositions.{eq_refl}
