-- ===== src/LogStore/Purge/Laws.antt =====
-- pkg/logstore/purge.go: what a plan takes and what it leaves.
use casa_os_app_management.Prelude.{
  ℕ, ◌+◌, ◌≤◌, ◌<◌, String, ◌≡◌, ◌≢◌, ◌⊎◌, inl, inr, refl, sym, ap, subst, ◌∙◌, Bool, true, not,
  List, ◌++◌, arith, ◌=ℕ◌, Bool-cases, length, count, keep, count-append, All, All-append, All-map,
  All-zip, insertion_sort, IsSorted, insertion_sort-IsSorted, count-insertion_sort,
  sum_by-insertion_sort, All-insertion_sort, sum_by-append, sum_by-keep, count-keep, All-keep,
  All-keep_of, All-tail_of_append, All-head_of_append,
}
use mathlib.Core.List.{map-append}
use casa_os_app_management.LogStore.Purge.{
  FileInfo, is_zero, is_aged, by_day, paths_of, size_of, whole_days, plan_purge,
}
use casa_os_app_management.LogStore.Purge.Days.{earlier, Days, whole_days_lem, keep-append}
use casa_os_app_management.LogStore.Purge.Ages.{IsMidnight, IsOld, aged→old, old→aged, aged_before}

pub record Purged (files : List FileInfo) (now retention max : ℕ) (plan : List String)
    : Type 0 where
  pub gone : List FileInfo
  pub kept : List FileInfo
  pub planned : plan ≡ paths_of gone
  pub whole : (p : FileInfo → Bool) → count p files ≡ count p gone + count p kept
  pub dated : All (λ f. f.day ≢ 0) gone
  pub no_old : All (λ g. ¬ IsOld now retention g) kept
  pub oldest_first : All (λ f. All (λ g. g.day ≢ 0 → f.day < g.day) kept) gone
  pub capped : (max ≡ 0) ⊎ (size_of kept ≤ max) ⊎ All (λ g. g.day ≡ 0) kept
  pub needed :
      All
        (λ f.
          IsOld now retention f
          ⊎ ((0 < max) × (max < size_of kept + size_of (keep (λ g. not (earlier f g)) gone))))
        gone

module _ (files : List FileInfo) (now retention max : ℕ) (midnight : All IsMidnight files) where
  abbrev aged : List FileInfo
  aged = keep (is_aged now retention) files

  abbrev fresh : List FileInfo
  fresh = keep (λ f. not (is_aged now retention f)) files

  abbrev IsFresh : FileInfo → Type 0
  IsFresh f = not (is_aged now retention f) ≡ true

  abbrev IsAged : FileInfo → Type 0
  IsAged f = is_aged now retention f ≡ true

  aged_all : All IsAged aged
  aged_all = All-keep (is_aged now retention) files

  fresh_all : All IsFresh fresh
  fresh_all = All-keep (λ f. not (is_aged now retention f)) files

  aged-IsOld : All (IsOld now retention) aged
  aged-IsOld =
      All-zip IsAged IsMidnight (IsOld now retention) aged (λ f a m. aged→old now retention f a m)
        aged_all (All-keep_of IsMidnight (is_aged now retention) files midnight)

  fresh-IsOld : All (λ g. ¬ IsOld now retention g) fresh
  fresh-IsOld =
      All-zip IsFresh IsMidnight (λ g. ¬ IsOld now retention g) fresh
        (λ f a m. old→aged now retention f (ground arith) m) fresh_all
        (All-keep_of IsMidnight (λ f. not (is_aged now retention f)) files midnight)

  -- what is aged is from an earlier day than whatever is not
  aged_first :
      (gs : List FileInfo)
      → All IsFresh gs
      → All (λ f. All (λ g. g.day ≢ 0 → f.day < g.day) gs) aged
  aged_first gs h =
      All-map IsAged (λ f. All (λ g. g.day ≢ 0 → f.day < g.day) gs) aged
        (λ f a.
          All-map IsFresh (λ g. g.day ≢ 0 → f.day < g.day) gs
            (λ g b z. aged_before now retention f g a (ground arith) z) h)
        aged_all

  uncapped : max ≡ 0 → Purged files now retention max (paths_of aged)
  uncapped e = record {
    gone = aged;
    kept = fresh;
    planned = refl;
    whole = λ p. count-keep p (is_aged now retention) files;
    dated = All-map (IsOld now retention) (λ f. f.day ≢ 0) aged (λ f o. o.1) aged-IsOld;
    no_old = fresh-IsOld;
    oldest_first = aged_first fresh fresh_all;
    capped = inl e;
    needed = All-map (IsOld now retention) _ aged (λ f o. inl o) aged-IsOld;
  }

  abbrev undated : List FileInfo
  undated = keep (λ f. is_zero f.day) fresh

  abbrev dated : List FileInfo
  dated = keep (λ f. not (is_zero f.day)) fresh

  abbrev by_age : List FileInfo
  by_age = insertion_sort by_day dated

  sorted : IsSorted by_day by_age
  sorted = insertion_sort-IsSorted by_day (λ a b. ground arith) (λ a b c h k. ground arith) dated

  sizes : size_of fresh ≡ size_of undated + size_of by_age
  sizes = omega (
    arith,
    sum_by-keep (λ (f : FileInfo). f.size) (λ f. is_zero f.day) fresh,
    sum_by-insertion_sort by_day (λ (f : FileInfo). f.size) dated,
  )

  abbrev IsDated : FileInfo → Type 0
  IsDated f = not (is_zero f.day) ≡ true

  abbrev Stays : FileInfo → Type 0
  Stays f = IsDated f × IsFresh f × (¬ IsOld now retention f)

  module _ (capped : 0 < max)
      (d : Days max
        (size_of fresh)
        by_age
        (whole_days (length by_age) max (size_of fresh) by_age)) where
    by_age_all : All Stays (d.gone ++ d.rest)
    by_age_all = subst (All Stays) d.split (
        All-insertion_sort by_day Stays dated (
          All-zip IsDated (λ f. IsFresh f × (¬ IsOld now retention f)) Stays dated
            (λ f a b. (a, b.0, b.1)) (All-keep (λ f. not (is_zero f.day)) fresh)
            (All-keep_of (λ f. IsFresh f × (¬ IsOld now retention f)) (λ f. not (is_zero f.day))
              fresh
              (All-zip IsFresh (λ f. ¬ IsOld now retention f)
                (λ f. IsFresh f × (¬ IsOld now retention f)) fresh (λ f a b. (a, b)) fresh_all
                fresh-IsOld))))

    gone_all : All Stays d.gone
    gone_all = All-head_of_append Stays d.gone d.rest by_age_all

    rest_all : All Stays d.rest
    rest_all = All-tail_of_append Stays d.gone d.rest by_age_all

    undated_all : All (λ g. g.day ≡ 0) undated
    undated_all =
        All-map (λ f. is_zero f.day ≡ true) (λ g. g.day ≡ 0) undated (λ f z. ground arith)
          (All-keep (λ f. is_zero f.day) fresh)

    whole_lem :
        (p : FileInfo → Bool)
        → count p files ≡ count p (aged ++ d.gone) + count p (undated ++ d.rest)
    whole_lem p = omega (
      arith,
      count-keep p (is_aged now retention) files,
      count-keep p (λ f. is_zero f.day) fresh,
      count-insertion_sort by_day p dated,
      ap (count p) d.split,
      count-append p d.gone d.rest,
      count-append p aged d.gone,
      count-append p undated d.rest,
    )

    size_left : size_of fresh ≡ size_of (undated ++ d.rest) + size_of d.gone
    size_left = omega (
      arith,
      sizes,
      ap size_of d.split,
      sum_by-append (λ (f : FileInfo). f.size) d.gone d.rest,
      sum_by-append (λ (f : FileInfo). f.size) undated d.rest,
    )

    gone_first : All (λ f. All (λ g. g.day ≢ 0 → f.day < g.day) (undated ++ d.rest)) d.gone
    gone_first =
        All-map (λ f. All (λ g. f.day < g.day) d.rest)
          (λ f. All (λ g. g.day ≢ 0 → f.day < g.day) (undated ++ d.rest)) d.gone
          (λ f later.
            All-append (λ g. g.day ≢ 0 → f.day < g.day) undated d.rest
              (All-map (λ g. g.day ≡ 0) (λ g. g.day ≢ 0 → f.day < g.day) undated
                (λ g z n. absurd (n z)) undated_all)
              (All-map (λ g. f.day < g.day) (λ g. g.day ≢ 0 → f.day < g.day) d.rest (λ g l n. l)
                later))
          d.before

    -- the cap needs the day of `f` gone
    IsNeeded : FileInfo → Type 0
    IsNeeded f =
        (0 < max)
        × (max
            < size_of (undated ++ d.rest)
              + size_of (keep (λ g. not (earlier f g)) (aged ++ d.gone)))

    gone-IsNeeded : All IsNeeded d.gone
    unfolding IsNeeded
    gone-IsNeeded =
        All-map (λ f. max + size_of (keep (earlier f) d.gone) < size_of fresh) IsNeeded d.gone
          (λ f n. (
            capped,
            omega (
              arith,
              size_left,
              sum_by-keep (λ (g : FileInfo). g.size) (earlier f) d.gone,
              ap size_of (keep-append (λ g. not (earlier f g)) aged d.gone),
              sum_by-append (λ (g : FileInfo). g.size) (keep (λ g. not (earlier f g)) aged)
                  (keep (λ g. not (earlier f g)) d.gone),
            ),
          ))
          d.needed

    capped_lem :
        (max ≡ 0) ⊎ (size_of (undated ++ d.rest) ≤ max) ⊎ All (λ g. g.day ≡ 0) (undated ++ d.rest)
    capped_lem = elim d.enough [
      | inl none_left ↦ inr (
          inr (
            All-append (λ g. g.day ≡ 0) undated d.rest undated_all
              (subst (All (λ g. g.day ≡ 0)) (sym none_left) tt)))
      | inr fits ↦ inr (inl (omega (arith, size_left)))
    ]

    capped_plan :
        Purged files now retention max
          (paths_of aged ++ whole_days (length by_age) max (size_of fresh) by_age)
    unfolding IsNeeded
    capped_plan = record {
      gone = aged ++ d.gone;
      kept = undated ++ d.rest;
      planned =
          ap (◌++◌ (paths_of aged)) d.planned
          ∙ sym (map-append (λ (f : FileInfo). f.path) aged d.gone);
      whole = whole_lem;
      dated =
          All-append (λ f. f.day ≢ 0) aged d.gone
            (All-map (IsOld now retention) (λ f. f.day ≢ 0) aged (λ f o. o.1) aged-IsOld)
            (All-map Stays (λ f. f.day ≢ 0) d.gone (λ f a z. ground arith) gone_all);
      no_old =
          All-append (λ g. ¬ IsOld now retention g) undated d.rest
            (All-keep_of (λ g. ¬ IsOld now retention g) (λ f. is_zero f.day) fresh fresh-IsOld)
            (All-map Stays (λ g. ¬ IsOld now retention g) d.rest (λ g a. a.2) rest_all);
      oldest_first =
          All-append (λ f. All (λ g. g.day ≢ 0 → f.day < g.day) (undated ++ d.rest)) aged d.gone
            (aged_first (undated ++ d.rest) (
              All-append IsFresh undated d.rest
                (All-keep_of IsFresh (λ f. is_zero f.day) fresh fresh_all)
                (All-map Stays IsFresh d.rest (λ g a. a.1) rest_all)))
            gone_first;
      capped = capped_lem;
      needed =
          All-append (λ f. IsOld now retention f ⊎ IsNeeded f) aged d.gone
            (All-map (IsOld now retention) (λ f. IsOld now retention f ⊎ IsNeeded f) aged
              (λ f o. inl o) aged-IsOld)
            (All-map IsNeeded (λ f. IsOld now retention f ⊎ IsNeeded f) d.gone (λ f n. inr n)
              gone-IsNeeded);
    }

-- `PlanPurge` splits the files, whose days are midnights, into those that go and those that stay.
-- No file without a day goes. With a retention, no file of a day that is the retention or more days
-- back stays. Every file that goes is of an earlier day than every dated file that stays, so a day
-- goes whole and the oldest go first. With a cap, what stays fits it, or is all without a day. And
-- nothing goes without need: a file that goes is old, or what stays together with what goes of its
-- day and of later ones is over the cap.
pub plan_purge_lem :
    (files : List FileInfo) (now retention max : ℕ)
    → All IsMidnight files
    → Purged files now retention max (plan_purge files now retention max)
unfolding plan_purge
plan_purge_lem files now retention max midnight = elim (Bool-cases (max =ℕ 0)) [
  | inl e ↦ rw e (uncapped files now retention max midnight (ground arith))
  | inr e ↦
      let total = size_of (fresh files now retention max midnight) in
      let days = by_age files now retention max midnight in
      rw e (
        capped_plan files now retention max midnight (ground arith) (
          whole_days_lem (length days) max total days (omega arith)
            (omega (arith, sizes files now retention max midnight))
            (sorted files now retention max midnight)))
]
