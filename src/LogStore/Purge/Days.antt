-- ===== src/LogStore/Purge/Days.antt =====
-- pkg/logstore/purge.go: the two loops that take whole days, oldest first.
use casa_os_app_management.Prelude.{
  ℕ, zero, suc, ◌+◌, ◌-◌, ◌≤◌, ◌<◌, String, ◌≡◌, ◌⊎◌, inl, inr, refl, sym, ap, subst, ◌∙◌, Bool,
  true, List, [], ◌∷◌, ◌++◌, arith, ltb, ◌=ℕ◌, Bool-cases, length, keep, All, All-append, All-map,
  All-zip, IsSorted, sum_by-append, All-tail_of_append, All-head_of_append,
}
use mathlib.Core.List.{map-append, append_assoc}
use casa_os_app_management.LogStore.Purge.{
  FileInfo, by_day, paths_of, size_of, same_day, whole_days,
}

abbrev pub IsBefore : List FileInfo → List FileInfo → Type 0
IsBefore gone rest = All (λ f. All (λ g. f.day < g.day) rest) gone

abbrev pub earlier : FileInfo → FileInfo → Bool
earlier f g = ltb g.day f.day

record SameDay (day total : ℕ) (files : List FileInfo) (out : List String × ℕ × List FileInfo)
    : Type 0 where
  gone : List FileInfo
  planned : out.0 ≡ paths_of gone
  split : files ≡ gone ++ out.2
  left : out.1 + size_of gone ≡ total
  of_day : All (λ f. f.day ≡ day) gone
  later : All (λ g. day < g.day) out.2
  sorted : IsSorted by_day out.2

after_lem :
    (f : FileInfo) (fs : List FileInfo) (day : ℕ)
    → day < f.day
    → All (λ g. by_day f g ≡ true) fs
    → All (λ g. day < g.day) fs
after_lem f fs day h s =
    All-map (λ g. by_day f g ≡ true) (λ g. day < g.day) fs (λ g e. ground arith) s

same_day_lem :
    (day total : ℕ) (files : List FileInfo)
    → size_of files ≤ total
    → IsSorted by_day files
    → All (λ f. day ≤ f.day) files
    → SameDay day total files (same_day day total files)
unfolding same_day
same_day_lem day total [] h s a = record {
  gone = [];
  planned = refl;
  split = refl;
  left = omega arith;
  of_day = tt;
  later = tt;
  sorted = tt;
}
same_day_lem day total (f ∷ fs) h s a = elim (Bool-cases (f.day =ℕ day)) [
  | inl e ↦
      let r = same_day_lem day (total - f.size) fs (omega arith) s.1 a.1 in
      rw e (record {
        gone = f ∷ r.gone;
        planned = ap (◌∷◌ f.path) r.planned;
        split = ap (◌∷◌ f) r.split;
        left = omega (arith, r.left);
        of_day = (ground arith, r.of_day);
        later = r.later;
        sorted = r.sorted;
      })
  | inr e ↦
      let first : day < f.day = ground (arith, a.0) in
      rw e (record {
        gone = [];
        planned = refl;
        split = refl;
        left = omega arith;
        of_day = tt;
        later = (first, after_lem f fs day first s.0);
        sorted = s;
      })
]

same_day_fewer :
    (day total : ℕ) (files : List FileInfo) → length (same_day day total files).2 ≤ length files
unfolding same_day
same_day_fewer day total [] = omega arith
same_day_fewer day total (f ∷ fs) = ground (arith, same_day_fewer day (total - f.size) fs)

same_day_shrinks :
    (total : ℕ) (f : FileInfo) (fs : List FileInfo)
    → length (same_day f.day total (f ∷ fs)).2 ≤ length fs
unfolding same_day
same_day_shrinks total f fs = ground (arith, same_day_fewer f.day (total - f.size) fs)

pub record Days (max total : ℕ) (files : List FileInfo) (plan : List String) : Type 0 where
  pub gone : List FileInfo
  pub rest : List FileInfo
  pub planned : plan ≡ paths_of gone
  pub split : files ≡ gone ++ rest
  pub before : IsBefore gone rest
  pub enough : (rest ≡ []) ⊎ (total ≤ max + size_of gone)
  pub needed : All (λ f. max + size_of (keep (earlier f) gone) < total) gone

none_earlier :
    (f : FileInfo) (gone : List FileInfo)
    → All (λ g. f.day ≤ g.day) gone
    → size_of (keep (earlier f) gone) ≡ 0
none_earlier f [] h = refl
none_earlier f (g ∷ gs) h = ground (arith, none_earlier f gs h.1, h.0)

all_earlier :
    (f : FileInfo) (gone : List FileInfo)
    → All (λ g. g.day < f.day) gone
    → size_of (keep (earlier f) gone) ≡ size_of gone
all_earlier f [] h = refl
all_earlier f (g ∷ gs) h = ground (arith, all_earlier f gs h.1, h.0)

pub keep-append {ℓ} :
    {A : Type ℓ} (p : A → Bool) (xs ys : List A) → keep p (xs ++ ys) ≡ keep p xs ++ keep p ys
keep-append p [] ys = refl
keep-append p (x ∷ xs) ys = ground (arith, keep-append p xs ys)

earlier-append :
    (f : FileInfo) (xs ys : List FileInfo)
    → size_of (keep (earlier f) (xs ++ ys))
      ≡ size_of (keep (earlier f) xs) + size_of (keep (earlier f) ys)
earlier-append f xs ys =
    ap size_of (keep-append (earlier f) xs ys)
    ∙ sum_by-append (λ g. g.size) (keep (earlier f) xs) (keep (earlier f) ys)

module _ (max total : ℕ) (day : ℕ) (first second rest : List FileInfo)
    (of_day : All (λ f. f.day ≡ day) first) (later : All (λ g. day < g.day) (second ++ rest)) where
  IsBefore-join : IsBefore second rest → IsBefore (first ++ second) rest
  IsBefore-join h =
      All-append (λ f. All (λ g. f.day < g.day) rest) first second
        (All-map (λ f. f.day ≡ day) (λ f. All (λ g. f.day < g.day) rest) first
          (λ f e.
            All-map (λ g. day < g.day) (λ g. f.day < g.day) rest (λ g l. omega arith)
              (All-tail_of_append (λ g. day < g.day) second rest later))
          of_day)
        h

  needed-join :
      max < total
      → (left : ℕ) → left + size_of first ≡ total
      → All (λ f. max + size_of (keep (earlier f) second) < left) second
      → All (λ f. max + size_of (keep (earlier f) (first ++ second)) < total) (first ++ second)
  needed-join over left parts h =
      All-append (λ f. max + size_of (keep (earlier f) (first ++ second)) < total) first second
        (All-map (λ f. f.day ≡ day)
          (λ f. max + size_of (keep (earlier f) (first ++ second)) < total) first
          (λ f e. omega (
            arith,
            none_earlier f (first ++ second) (
                All-append (λ g. f.day ≤ g.day) first second
                  (All-map (λ g. g.day ≡ day) (λ g. f.day ≤ g.day) first (λ g d. omega arith)
                    of_day)
                  (All-map (λ g. day < g.day) (λ g. f.day ≤ g.day) second (λ g l. omega arith)
                    (All-head_of_append (λ g. day < g.day) second rest later))),
          ))
          of_day)
        (All-zip (λ g. day < g.day) (λ f. max + size_of (keep (earlier f) second) < left)
          (λ f. max + size_of (keep (earlier f) (first ++ second)) < total) second
          (λ f l p. omega (
            arith,
            earlier-append f first second,
            all_earlier f first
                (All-map (λ g. g.day ≡ day) (λ g. g.day < f.day) first (λ g d. omega arith) of_day),
          ))
          (All-head_of_append (λ g. day < g.day) second rest later) h)

pub whole_days_lem :
    (n max total : ℕ) (files : List FileInfo)
    → length files ≤ n
    → size_of files ≤ total
    → IsSorted by_day files
    → Days max total files (whole_days n max total files)
unfolding whole_days
whole_days_lem zero max total [] fuel h s = record {
  gone = [];
  rest = [];
  planned = refl;
  split = refl;
  before = tt;
  enough = inl refl;
  needed = tt;
}
whole_days_lem zero max total (f ∷ fs) fuel h s = absurd (omega arith)
whole_days_lem (suc n) max total [] fuel h s = record {
  gone = [];
  rest = [];
  planned = refl;
  split = refl;
  before = tt;
  enough = inl refl;
  needed = tt;
}
whole_days_lem (suc n) max total (f ∷ fs) fuel h s = elim (Bool-cases (ltb max total)) [
  | inr e ↦
      rw (e, whole_days)
        (record {
          gone = [];
          rest = f ∷ fs;
          planned = refl;
          split = refl;
          before = tt;
          enough = inr (ground arith);
          needed = tt;
        })
  | inl e ↦
      let out = same_day f.day total (f ∷ fs) in
      let onwards : All (λ g. f.day ≤ g.day) (f ∷ fs) = (
        omega arith,
        All-map (λ g. by_day f g ≡ true) (λ g. f.day ≤ g.day) fs (λ g l. ground arith) s.0,
      ) in
      let r = same_day_lem f.day total (f ∷ fs) h s onwards in
      let sizes : size_of r.gone + size_of out.2 ≡ size_of (f ∷ fs) =
        sym (ap size_of r.split ∙ sum_by-append (λ g. g.size) r.gone out.2) in
      let d =
        whole_days_lem n max out.1 out.2 (omega (arith, same_day_shrinks total f fs))
          (omega (arith, r.left, sizes)) r.sorted in
      let later = subst (All (λ g. f.day < g.day)) d.split r.later in
      rw (e, whole_days)
        (record {
          gone = r.gone ++ d.gone;
          rest = d.rest;
          planned =
              rw (r.planned, d.planned) (sym (map-append (λ (g : FileInfo). g.path) r.gone d.gone));
          split = r.split ∙ ap (◌++◌ r.gone) d.split ∙ sym (append_assoc r.gone d.gone d.rest);
          before = IsBefore-join max total f.day r.gone d.gone d.rest r.of_day later d.before;
          enough = elim d.enough [
            | inl none_left ↦ inl none_left
            | inr fits ↦
                inr (omega (arith, r.left, sum_by-append (λ (g : FileInfo). g.size) r.gone d.gone))
          ];
          needed =
              needed-join max total f.day r.gone d.gone d.rest r.of_day later (ground arith) out.1
                r.left d.needed;
        })
]
