-- ===== src/LogStore/Query/Pager.antt =====
-- pkg/logstore/query.go: one page of the history.
--
-- A source is a day file with the lines that its reader has still to hand out, the head first. A time of
-- 0 is the zero time. `encoded_size` is the length of a line as `json.Marshal` writes it. A limit of 0
-- stands for every `int` that is not positive. A failed read is not modelled.
pub mod Order
pub mod Merge
pub mod Merged
pub mod Windows
pub mod Pages
pub mod Next
pub mod Bounds
mod Examples
use casa_os_app_management.Prelude.{
  ℕ, zero, suc, ◌+◌, ◌-◌, ◌*◌, ◌/◌, ◌%◌, ◌^◌, ◌≤◌, ◌<◌, String, ◌≡◌, ◌≢◌, ◌↔◌, ◌⊎◌, inl, inr, refl,
  sym, ap, subst, ◌∙◌, Bool, true, false, not, ◌&&◌, ◌||◌, Option, none, some, List, [], ◌∷◌, ◌++◌,
  map, reverse, arith, eq_iff, eq_refl, ◌==◌, ltb, leb, ◌=ℕ◌, if◌then◌else◌, leb→le, ltb→lt,
  Bool-cases, Option-cases, length, take, drop, length-append, length-take, length-drop,
  take-append-drop, count, any, keep, count-append, count-le-length, any-pos, any-append,
  any-reverse, any_none, get_elem?, set, count-set, count-pos, drop-set, length-set, drop-append,
  drop_step, get_elem?-drop, get_elem?_in, get_elem?-append, get_elem?_lt, Sub, nil, Sub-snoc,
  Sub-tail, Sub-delete, snoc-ne-nil, All, All-append, All-map, All-zip, ◌<>◌, starts_with, clean,
  clean-not_empty, join_path, base, dir, show, show_inj, str_le, codes, str_le_total, str_le_trans,
  str_le_antisym, insert, insertion_sort, IsSorted, insertion_sort-IsSorted, count-insertion_sort,
  length-insertion_sort, sum_by-insertion_sort, any-insertion_sort, All-insertion_sort, sum_by,
  sum_by-append, sum_by-keep, count-keep, All-keep, All-keep_of, All-tail_of_append,
  All-head_of_append,
}
use casa_os_app_management.Prelude.Map
use casa_os_app_management.Prelude.Map.{
  Map, get-assign, get-delete, keys, IsMap, IsMap-assign, IsMap-delete, any-keys, count-keys,
}
use Prim.Native.Nat.{min, compare, Ordering}
use casa_os_app_management.LogStore.Line.{Bytes, truncate}
use casa_os_app_management.LogStore.Query.Reader.{Rec}
use casa_os_app_management.LogStore.Query.Cursor.{Cursor, cursor_text}
use casa_os_app_management.LogStore.Query.Filter.{Filter, Matcher, Line, matches, passes}

-- `logFile`, without its size
pub record LogFile : Type 0 where
  pub rel : Bytes
  pub app : String
  pub service : String
  pub day : String
  pub c12 : String

-- the fields of `Query` that `take` reads
pub record Query : Type 0 where
  pub since : ℕ
  pub until : ℕ
  pub before : Option Cursor
  pub after : Option Cursor

-- a line of a page with its cursor
pub record PageLine : Type 0 where
  pub line : Line
  pub cursor : Bytes

-- the fields of `pager` that change
pub record Pager : Type 0 where
  pub lines : List PageLine
  pub bytes : ℕ
  pub last : Option Cursor
  pub full : Bool
  pub done : Bool

-- `maxLinesBytes`
abbrev pub max_lines_bytes : ℕ
max_lines_bytes = 2097152 - 262144

-- `p.limit` in `read`
abbrev pub limit_of : ℕ → ℕ
limit_of limit = min (if limit =ℕ 0 then 500 else limit) 1000

-- the pager that `read` starts with
abbrev pub new_pager : Pager
new_pager = record { lines = []; bytes = 0; last = none; full = false; done = false }

-- `cmp.Or` of two comparisons
abbrev pub tie_break : Ordering → Ordering → Ordering
tie_break Ordering.lt o = Ordering.lt
tie_break Ordering.eq o = o
tie_break Ordering.gt o = Ordering.gt

-- `strings.Compare`
unfoldable pub compare_bytes : Bytes → Bytes → Ordering
compare_bytes [] [] = Ordering.eq
compare_bytes [] (d ∷ ds) = Ordering.lt
compare_bytes (c ∷ cs) [] = Ordering.gt
compare_bytes (c ∷ cs) (d ∷ ds) = tie_break (compare c d) (compare_bytes cs ds)

-- `compareTo`, with the line as a cursor too
unfoldable pub compare_to : Cursor → Cursor → Ordering
unfolding compare_bytes
compare_to a c =
    tie_break (compare a.at c.at) (tie_break (compare_bytes a.file c.file) (compare a.seq c.seq))

abbrev pub is_lt : Ordering → Bool
is_lt Ordering.lt = true
is_lt Ordering.eq = false
is_lt Ordering.gt = false

abbrev pub is_gt : Ordering → Bool
is_gt Ordering.lt = false
is_gt Ordering.eq = false
is_gt Ordering.gt = true

-- a head and the file it is of
abbrev pub Item : Type 0
Item = LogFile × Rec

abbrev pub cursor_of : Item → Cursor
cursor_of (file, r) = record { at = r.at; file = file.rel; seq = r.seq }

abbrev pub is_some {ℓ} : {A : Type ℓ} → Option A → Bool
is_some none = false
is_some (some a) = true

-- `first`
unfoldable pub first : Query → Item → Item → Bool
unfolding compare_to
first q a b =
    let less = is_lt (compare_to (cursor_of a) (cursor_of b)) in
    if is_some q.after then less else not less

-- what `take` does with a head before it looks at its text
pub data Verdict : Type 0 where
  skipped past inside : Verdict

-- `!q.Since.IsZero() && r.at.Before(q.Since)`
abbrev pub is_early : Query → ℕ → Bool
is_early q at = not (q.since =ℕ 0) && ltb at q.since

-- `!q.Until.IsZero() && r.at.After(q.Until)`
abbrev pub is_late : Query → ℕ → Bool
is_late q at = not (q.until =ℕ 0) && ltb q.until at

unfoldable pub forwards : Query → ℕ → Cursor → Cursor → Verdict
unfolding compare_to
forwards q hold after c =
    if not (is_gt (compare_to c after)) || is_early q c.at
    then skipped
    else if ltb hold c.at || is_late q c.at
    then past
    else inside

-- `q.Before != nil && compareTo(…) >= 0`
abbrev pub is_not_before : Option Cursor → Cursor → Bool
is_not_before none c = false
is_not_before (some before) c = not (is_lt (compare_to c before))

unfoldable pub backwards : Query → ℕ → Cursor → Verdict
unfolding compare_to
backwards q hold c =
    if is_not_before q.before c || is_late q c.at
    then skipped
    else if not (is_some q.before) && (q.until =ℕ 0 && ltb hold c.at)
    then skipped
    else if is_early q c.at
    then past
    else inside

-- the bounds of a walk, forwards behind a cursor and backwards otherwise
unfoldable pub window_of : Option Cursor → Query → ℕ → Cursor → Verdict
unfolding forwards backwards
window_of (some after) q hold c = forwards q hold after c
window_of none q hold c = backwards q hold c

-- the first half of `take`
unfoldable pub window : Query → ℕ → Cursor → Verdict
unfolding window_of
window q hold c = window_of q.after q hold c

-- the line that is shown
unfoldable pub line_of : Item → Line
unfolding truncate
line_of (file, r) = record {
  at = r.at;
  app = file.app;
  service = file.service;
  container = file.c12;
  stream = r.stream;
  text = truncate r.text;
}

-- the tests of the text: the pattern is tried on the whole of it first
unfoldable pub is_wanted : Matcher → Item → Bool
unfolding line_of matches
is_wanted m x = passes m.re (x.1).text && matches m (line_of x)

unfoldable pub page_line : Item → PageLine
unfolding line_of cursor_text
page_line x = record { line = line_of x; cursor = cursor_text (cursor_of x) }

module _ (encoded_size : PageLine → ℕ) (m : Matcher) (limit : ℕ) where
  -- the last part of `take`
  unfoldable pub append_line : Pager → Item → Pager
  unfolding page_line
  append_line p x =
      let cost = encoded_size (page_line x) + 1 in
      let lines = p.lines ++ page_line x ∷ [] in
      let stop = length lines =ℕ limit in
      if ltb 0 (length p.lines) && ltb max_lines_bytes (p.bytes + cost)
      then record p { full = true; done = true }
      else record {
        lines = lines;
        bytes = p.bytes + cost;
        last = some (cursor_of x);
        full = stop || p.full;
        done = stop || p.done;
      }

  -- `take` of a head that is judged
  unfoldable pub take_judged : Verdict → Pager → Item → Pager
  unfolding append_line is_wanted
  take_judged skipped p x = p
  take_judged past p x = record p { done = true }
  take_judged inside p x = if is_wanted m x then append_line p x else p

  module _ (q : Query) (hold : ℕ) where
    -- `take`
    unfoldable pub take_head : Pager → Item → Pager
    unfolding take_judged window
    take_head p x = take_judged (window q hold (cursor_of x)) p x

-- a day file with the lines that are left of it
abbrev pub Source : Type 0
Source = LogFile × List Rec

-- whether a head takes the place of the best one before it
unfoldable pub better : Query → ℕ → Item → Option (ℕ × Item) → Option (ℕ × Item)
unfolding first
better q i x none = some (i, x)
better q i x (some (j, best)) = if first q x best then some (i, x) else some (j, best)

-- the inner loop of `readDay`: the best head of the sources from the `i`th on, and its place
unfoldable pub pick : Query → ℕ → Option (ℕ × Item) → List Source → Option (ℕ × Item)
unfolding better
pick q i best [] = best
pick q i best ((file, []) ∷ sources) = pick q (suc i) best sources
pick q i best ((file, r ∷ rs) ∷ sources) = pick q (suc i) (better q i (file, r) best) sources

-- `advance` of the source at a place
unfoldable pub advance : ℕ → List Source → List Source
advance i [] = []
advance zero ((file, rs) ∷ sources) = (file, drop 1 rs) ∷ sources
advance (suc i) (s ∷ sources) = s ∷ advance i sources

module _ (encoded_size : PageLine → ℕ) (m : Matcher) (limit : ℕ) (q : Query) (hold : ℕ) where
  abbrev pub day_round :
      (Pager → List Source → Pager) → Pager → List Source → Option (ℕ × Item) → Pager
  day_round later p sources none = p
  day_round later p sources (some (i, x)) =
      later (take_head encoded_size m limit q hold p x) (advance i sources)

  -- the loop of `readDay`, with fuel for the lines of the sources
  unfoldable pub read_day : ℕ → Pager → List Source → Pager
  unfolding take_head pick advance
  read_day zero p sources = p
  read_day (suc fuel) p sources =
      if p.done then p else day_round (read_day fuel) p sources (pick q 0 none sources)

  -- The loop of `read` over the days, each with its files as they are opened. A round for each line is
  -- enough for a day.
  unfoldable pub read_days : Pager → List (List Source) → Pager
  unfolding read_day
  read_days p [] = p
  read_days p (sources ∷ days) =
      let p' = read_day (sum_by (λ s. length s.1) sources) p sources in
      let rest = read_days p' days in if p'.done then p' else rest
