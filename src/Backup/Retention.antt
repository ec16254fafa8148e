-- ===== src/Backup/Retention.antt =====
-- service/backup_retention.go: which runs of a backup go. A `keep` of 0 stands for every `int` that is not
-- positive.
pub mod Laws
mod Examples
use casa_os_app_management.Prelude.{
  ℕ, zero, suc, ◌+◌, ◌-◌, ◌*◌, ◌/◌, ◌%◌, ◌^◌, ◌≤◌, ◌<◌, min, max, String, ◌≡◌, ◌≢◌, ◌↔◌, ◌⊎◌, inl,
  inr, refl, sym, ap, subst, ◌∙◌, Bool, true, false, not, ◌&&◌, ◌||◌, Option, none, some, List, [],
  ◌∷◌, ◌++◌, map, reverse, arith, eq_iff, eq_refl, ◌==◌, ltb, leb, ◌=ℕ◌, if◌then◌else◌, leb→le,
  ltb→lt, Bool-cases, Option-cases, length, take, drop, length-append, length-take, length-drop,
  take-append-drop, count, any, keep, count-append, count-le-length, any-pos, any-append,
  any-reverse, any_none, get_elem?, set, count-set, count-pos, drop-set, length-set, drop-append,
  drop_step, get_elem?-drop, get_elem?_in, get_elem?-append, get_elem?_lt, Sub, nil, Sub-snoc,
  Sub-tail, Sub-delete, snoc-ne-nil, All, All-append, All-map, All-zip, str_le, codes, str_le_total,
  str_le_trans, str_le_antisym, insert, insertion_sort, IsSorted, insertion_sort-IsSorted,
  count-insertion_sort, length-insertion_sort, sum_by-insertion_sort, any-insertion_sort,
  All-insertion_sort, sum_by, sum_by-append, sum_by-keep, count-keep, All-keep, All-keep_of,
  All-tail_of_append, All-head_of_append,
}
use casa_os_app_management.Prelude.Map
use casa_os_app_management.Prelude.Map.{
  Map, get-assign, get-delete, keys, IsMap, IsMap-assign, IsMap-delete, any-keys, count-keys,
}

-- `sort.Strings`
abbrev pub sort_strings : List String → List String
sort_strings = insertion_sort str_le

unfoldable pub runs_to_purge : List String → ℕ → List String
runs_to_purge stamps kept =
    if kept =ℕ 0 || leb (length stamps) kept
    then []
    else take (length (sort_strings stamps) - kept) (sort_strings stamps)
