-- ===== src/Prelude.antt =====
-- Names that every module shares: the libraries', passed on, and those of the children.
mod Tests
mod Lists
mod Each
mod Text
mod Paths
mod Decimals
mod Times
mod Sort
mod Sublist
pub mod Map
pub use Tests.*
pub use Lists.*
pub use Each.*
pub use Sublist.{Sub, nil, Sub-snoc, Sub-tail, Sub-delete}
pub use Paths.{◌<>◌, starts_with, clean-not_empty}
pub use Decimals.{show_inj, digits_from-decimal, All-decimal, decimal_some}
unfoldable pub use Decimals.{digits_from, digits_of, decimal}
pub use Times.{minute_length, day_length}
unfoldable pub use Decimals.{show}
unfoldable pub use Paths.{clean, join_path, base, dir}
pub use Text.{◌==◌, codes, str_le_total, str_le_trans, str_le_antisym}
unfoldable pub use Text.{str_le}
unfoldable pub use Sort.{insert, insertion_sort}
pub use Sort.{
  IsSorted, insertion_sort-IsSorted, count-insertion_sort, length-insertion_sort,
  sum_by-insertion_sort, any-insertion_sort, All-insertion_sort,
}
pub use Prim.Native.Nat.{ℕ, zero, suc, ◌+◌, ◌-◌, ◌*◌, ◌/◌, ◌%◌, ◌^◌, ◌≤◌, ◌<◌, min, max}
pub use Prim.Native.String.{String}
pub use mathlib.Core.Path.{◌≡◌, refl, sym, ap, subst, ◌∙◌}
pub use mathlib.Core.Logic.{◌≢◌, ◌↔◌, ◌⊎◌, inl, inr}
pub use mathlib.Core.Bool.{Bool, true, false, not, ◌&&◌, ◌||◌}
pub use mathlib.Core.Option.{Option, none, some}
pub use mathlib.Core.List.{List, [], ◌∷◌, ◌++◌, map, reverse}
pub use native.Mathlib.Omega.{arith}
pub use text.Mathlib.TextEquality.{eq_iff}
pub use text.Mathlib.TextPositions.{eq_refl}
