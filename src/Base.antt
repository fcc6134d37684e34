-- ===== src/Base.antt =====
-- The names that the other modules share: the libraries', passed on, and the helpers on tests,
-- lists and texts of the child modules.
mod Tests
mod Lists
pub mod Text
pub mod Json
pub use Tests.*
unfoldable pub use Lists.{
  length, All, append, contains, index_of, get_or, lookup, get_elem?, remove,
}
pub use Lists.{length-append, length-map, Pairwise, no_pairs, pair}
unfoldable pub use Text.{
  split, part_before, contains_text, replace_first, replace_all, repeat, trim_suffix, trim_right,
  decimal, pad4,
}
pub use Text.{split-ne-nil}
pub use Prim.Native.Nat.{ℕ, zero, suc, ◌+◌, ◌-◌, ◌*◌, ◌≤◌, ◌<◌}
pub use Prim.Native.String.{String}
pub use text.Mathlib.Text.{starts_with, ◌==◌ as str_eq}
pub use text.Mathlib.TextEquality.{eq_iff}
pub use text.Mathlib.TextPositions.{eq_refl}
pub use mathlib.Core.Path.{◌≡◌, refl, sym, ap, ◌∙◌}
pub use mathlib.Core.Logic.{◌≢◌, ◌↔◌, ◌⊎◌, inl, inr}
pub use mathlib.Core.Bool.{Bool, true, false, not, ◌&&◌, ◌||◌}
pub use mathlib.Core.Option.{Option, none, some}
pub use mathlib.Core.List.{List, [], ◌∷◌, ◌++◌, map}
pub use native.Mathlib.Omega.{arith}
