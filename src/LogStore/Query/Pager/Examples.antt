-- ===== src/LogStore/Query/Pager/Examples.antt =====
-- Two files of one day, read a page at a time.
use casa_os_app_management.Prelude.{
  ℕ, ◌+◌, ◌≤◌, ◌<◌, String, ◌≡◌, ◌⊎◌, refl, Bool, true, false, none, some, List, [], ◌∷◌, ◌++◌,
  arith, length, count, ◌<>◌, codes, sum_by,
}
use casa_os_app_management.LogStore.Query.Reader.{Rec}
use casa_os_app_management.LogStore.Query.Cursor.{Cursor}
use casa_os_app_management.LogStore.Query.Filter.{Matcher}
use casa_os_app_management.LogStore.Query.Pager.{
  LogFile, Query, PageLine, Item, Source, compare_bytes, compare_to, new_pager, max_lines_bytes,
  limit_of, read_day, read_days,
}
use casa_os_app_management.LogStore.Query.Pager.Merge.{IsAscending, IsDay}
use casa_os_app_management.LogStore.Query.Pager.Merged.{take_all, count_lines, read_day_lem}
use casa_os_app_management.LogStore.Query.Pager.Windows.{next_query}
use casa_os_app_management.LogStore.Query.Pager.Pages.{answers}
use casa_os_app_management.LogStore.Query.Pager.Next.{pages_lem}
use casa_os_app_management.LogStore.Query.Pager.Bounds.{cost, page-IsBounded}

abbrev log_of : String → LogFile
log_of service = record {
  rel = codes ("app/" <> (service <> "/2026-01-01.0123456789ab.log"));
  app = "app";
  service = service;
  day = "2026-01-01";
  c12 = "0123456789ab";
}

abbrev rec : ℕ → ℕ → String → Rec
rec at seq text = record { at = at; seq = seq; stream = b'o'; text = codes text }

abbrev web : Source
web = (log_of "web", rec 10 0 "up" ∷ rec 30 40 "down" ∷ [])

abbrev db : Source
db = (log_of "db", rec 20 0 "ready" ∷ [])

-- every line after the start of the store, with a limit of two below
abbrev from_start : Query
from_start = record {
  since = 0;
  until = 0;
  before = none;
  after = some (record { at = 0; file = []; seq = 0 });
}

abbrev anything : Matcher
anything = record { apps = none; services = none; stream = ""; min_level = 0; re = none }

abbrev size : PageLine → ℕ
size l = 100 + length l.line.text

abbrev walk : List Item
walk =
    (log_of "web", rec 10 0 "up")
    ∷ (log_of "db", rec 20 0 "ready")
    ∷ (log_of "web", rec 30 40 "down")
    ∷ []

walk-IsAscending : IsAscending from_start.after walk
unfolding compare_to
walk-IsAscending = ((refl, (refl, tt)), ((refl, tt), (tt, tt)))

pages_lem_example :
    let p = take_all size anything 2 from_start 1000 new_pager walk in
    ((p.full ≡ false) × (p.lines ≡ answers anything 1000 from_start walk))
    ⊎ ((p.full ≡ true)
        × (c : Cursor) × (p.last ≡ some c)
        × (0 < length p.lines)
        × (answers anything 1000 from_start walk
            ≡ p.lines ++ answers anything 1000 (next_query from_start c) walk))
pages_lem_example = pages_lem size anything 2 from_start 1000 walk walk-IsAscending

web-db-IsDay : IsDay from_start.after (web ∷ db ∷ [])
unfolding compare_to compare_bytes
web-db-IsDay = (((refl, tt), (tt, tt)), ((λ h. cc h), tt), ((tt, tt), tt, tt))

read_day_lem_example :
    (xs : List Item) × (read_day size anything 2 from_start 1000 3 new_pager (web ∷ db ∷ [])
      ≡ take_all size anything 2 from_start 1000 new_pager xs)
    × IsAscending from_start.after xs
    × ((t : Item → Bool) → count t xs ≡ count_lines t (web ∷ db ∷ []))
read_day_lem_example =
    read_day_lem size anything 2 from_start 1000 3 new_pager (web ∷ db ∷ []) web-db-IsDay
      (omega arith)

-- the page is full after two lines, the second of which is of the other file
page_run :
    let p = read_day size anything 2 from_start 1000 3 new_pager (web ∷ db ∷ []) in
    (p.full ≡ true) × (p.last ≡ some (record { at = 20; file = (log_of "db").rel; seq = 0 }))
unfolding read_day
page_run = (refl, refl)

-- a second day is read behind the first, up to the limit of the page
days_run :
    let p =
      read_days size anything 3 from_start 1000 new_pager
        ((web ∷ []) ∷ (db ∷ []) ∷ (web ∷ []) ∷ []) in
    (length p.lines ≡ 3) × (p.done ≡ true)
unfolding read_days
days_run = (refl, refl)

page-IsBounded_example :
    let p =
      read_days size anything
        (limit_of 0)
        from_start
        1000
        new_pager
        ((web ∷ []) ∷ (db ∷ []) ∷ []) in
    (length p.lines ≤ 1000)
    × (length p.lines ≤ 500)
    × ((sum_by (cost size) p.lines ≤ max_lines_bytes) ⊎ (length p.lines ≤ 1))
page-IsBounded_example =
    page-IsBounded size anything 0 from_start 1000 ((web ∷ []) ∷ (db ∷ []) ∷ [])
