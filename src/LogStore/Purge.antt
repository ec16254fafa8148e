-- ===== src/LogStore/Purge.antt =====
-- pkg/logstore/purge.go: which files of the log store go.
--
-- A `time.Time` in UTC is the number of nanoseconds since the start of year 1, so the zero time is 0;
-- earlier times are not modelled. A retention or a cap of 0 stands for every `int` that is not
-- positive. Sizes are added as numbers, without the bound of an `int64`.
pub mod Ages
pub mod Days
pub mod Laws
mod Examples
use casa_os_app_management.Prelude.{
  day_length, ℕ, zero, suc, ◌+◌, ◌-◌, ◌*◌, ◌/◌, ◌%◌, ◌^◌, ◌≤◌, ◌<◌, min, max, String, ◌≡◌, ◌≢◌, ◌↔◌,
  ◌⊎◌, inl, inr, refl, sym, ap, subst, ◌∙◌, Bool, true, false, not, ◌&&◌, ◌||◌, Option, none, some,
  List, [], ◌∷◌, ◌++◌, map, arith, eq_iff, eq_refl, ◌==◌, ltb, leb, ◌=ℕ◌, if◌then◌else◌, leb→le,
  ltb→lt, Bool-cases, Option-cases, length, take, drop, length-append, length-take, length-drop,
  take-append-drop, count, any, keep, count-append, count-le-length, any-pos, any_none, get_elem?,
  set, count-set, count-pos, drop-set, length-set, drop-append, drop_step, get_elem?-drop,
  get_elem?_in, get_elem?-append, get_elem?_lt, Sub, nil, Sub-snoc, Sub-tail, Sub-delete,
  snoc-ne-nil, All, All-append, All-map, str_le, codes, str_le_total, str_le_trans, insert,
  insertion_sort, IsSorted, insertion_sort-IsSorted, count-insertion_sort, length-insertion_sort,
  sum_by-insertion_sort, All-insertion_sort, sum_by, sum_by-append, sum_by-keep, count-keep,
  All-keep, All-keep_of, All-tail_of_append, All-head_of_append,
}
use casa_os_app_management.Prelude.Map
use casa_os_app_management.Prelude.Map.{
  Map, get-assign, get-delete, keys, IsMap, IsMap-assign, IsMap-delete, any-keys, count-keys,
}

pub record FileInfo : Type 0 where
  pub path : String
  -- midnight of the day in the name; 0 for a file the layout does not know
  pub day : ℕ
  pub size : ℕ

-- `t.IsZero()`
abbrev pub is_zero : ℕ → Bool
is_zero t = t =ℕ 0

-- `now.Truncate(24 * time.Hour).AddDate(0, 0, -days)`, in UTC
unfoldable pub cutoff_of : ℕ → ℕ → ℕ
cutoff_of now days = now - now % day_length - days * day_length

-- the test of the first loop of `PlanPurge`
unfoldable pub is_aged : ℕ → ℕ → FileInfo → Bool
unfolding cutoff_of
is_aged now retention f =
    ltb 0 retention && (not (is_zero f.day) && not (ltb (cutoff_of now retention) f.day))

abbrev pub by_day : FileInfo → FileInfo → Bool
by_day a b = leb a.day b.day

abbrev pub paths_of : List FileInfo → List String
paths_of = map (λ f. f.path)

abbrev pub size_of : List FileInfo → ℕ
size_of = sum_by (λ f. f.size)

-- The inner loop: the files of one day go together. What it returns is the paths planned, the total
-- that is left and the files that `i` has not passed.
unfoldable pub same_day : ℕ → ℕ → List FileInfo → List String × ℕ × List FileInfo
same_day day total [] = ([], total, [])
same_day day total (f ∷ fs) =
    if f.day =ℕ day
    then (let (plan, left, rest) = same_day day (total - f.size) fs in (f.path ∷ plan, left, rest))
    else ([], total, f ∷ fs)

-- the outer loop, with fuel for one round a file
unfoldable pub whole_days : ℕ → ℕ → ℕ → List FileInfo → List String
unfolding same_day
whole_days zero max total files = []
whole_days (suc n) max total [] = []
whole_days (suc n) max total (f ∷ fs) = elim (ltb max total) [
  | true ↦
      let (plan, left, rest) = same_day f.day total (f ∷ fs) in plan ++ whole_days n max left rest
  | false ↦ []
]

unfoldable pub plan_purge : List FileInfo → ℕ → ℕ → ℕ → List String
unfolding is_aged whole_days
plan_purge files now retention max =
    let plan = paths_of (keep (is_aged now retention) files) in
    let kept = keep (λ f. not (is_aged now retention f)) files in
    if max =ℕ 0
    then plan
    else (let dated = insertion_sort by_day (keep (λ f. not (is_zero f.day)) kept) in
        plan ++ whole_days (length dated) max (size_of kept) dated)

-- the loop of `Usage` over the files: their bytes, and the oldest day among them
unfoldable pub usage_from : ℕ → ℕ → List FileInfo → ℕ × ℕ
usage_from bytes oldest [] = (bytes, oldest)
usage_from bytes oldest (f ∷ fs) =
    usage_from (bytes + f.size)
      (if not (is_zero f.day) && (is_zero oldest || ltb f.day oldest) then f.day else oldest) fs

unfoldable pub usage : List FileInfo → ℕ × ℕ
unfolding usage_from
usage files = usage_from 0 0 files
