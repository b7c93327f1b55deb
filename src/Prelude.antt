-- ===== src/Prelude.antt =====
-- The names that the other modules share: the libraries' names, passed on, and those of the
-- children for tests, lists, results and text.
mod Tests
mod Lists
mod Strings
pub mod Outcome
pub mod Sorting
pub mod Unique
pub mod Int
pub mod Slices
pub mod Ranking
pub use Tests.*
pub use Lists.*
pub use Prim.Native.Nat.{ℕ, zero, suc, ◌+◌, ◌-◌, ◌*◌, ◌/◌, ◌%◌, ◌^◌, ◌≤◌, ◌<◌}
pub use Prim.Native.String.{String}
pub use mathlib.Core.Path.{◌≡◌, refl, sym, ap, ◌∙◌}
pub use mathlib.Core.Logic.{◌≢◌, ◌↔◌, ◌⊎◌, inl, inr}
pub use mathlib.Core.Bool.{Bool, true, false, not, ◌&&◌, ◌||◌}
pub use mathlib.Core.Option.{Option, none, some}
pub use mathlib.Core.List.{List, [], ◌∷◌, ◌++◌, map}
pub use text.Mathlib.Text.{◌==◌}
pub use text.Mathlib.TextEquality.{eq_iff}
pub use text.Mathlib.TextPositions.{eq_refl}
pub use native.Mathlib.Omega.{arith}
unfoldable pub use Strings.{
  is_space, keep, pick, trim_left, trim_right, trim_space, to_lower, to_upper, has_prefix,
  str_contains, str_lt, strings,
}
pub use Strings.{
  append, str_lt_asym, str_lt_cotrans, str_lt_connected, str_lt_irrefl, trim_space_idem,
}
