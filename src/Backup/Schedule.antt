-- ===== src/Backup/Schedule.antt =====
-- service/backup_schedule.go: when a backup runs by itself.
--
-- A time is a number of nanoseconds since the start of year 1 on the clock of the box, whose zone has a
-- fixed offset: a day on which the clocks change is not modelled. The first of January of year 1 was a
-- Monday. Texts are read by their code points.
pub mod Slots
pub mod Due
mod Examples
use casa_os_app_management.Prelude.{
  digits_from, digits_of, day_length, minute_length, ℕ, zero, suc, ◌+◌, ◌-◌, ◌*◌, ◌/◌, ◌%◌, ◌^◌,
  ◌≤◌, ◌<◌, min, max, String, ◌≡◌, ◌≢◌, ◌↔◌, ◌⊎◌, inl, inr, refl, sym, ap, subst, ◌∙◌, Bool, true,
  false, not, ◌&&◌, ◌||◌, Option, none, some, List, [], ◌∷◌, ◌++◌, map, reverse, arith, eq_iff,
  eq_refl, ◌==◌, ltb, leb, ◌=ℕ◌, if◌then◌else◌, leb→le, ltb→lt, Bool-cases, Option-cases, length,
  take, drop, length-append, length-take, length-drop, take-append-drop, count, any, keep,
  count-append, count-le-length, any-pos, any-append, any-reverse, any_none, get_elem?, set,
  count-set, count-pos, drop-set, length-set, drop-append, drop_step, get_elem?-drop, get_elem?_in,
  get_elem?-append, get_elem?_lt, Sub, nil, Sub-snoc, Sub-tail, Sub-delete, snoc-ne-nil, All,
  All-append, All-map, All-zip, str_le, codes, str_le_total, str_le_trans, str_le_antisym, insert,
  insertion_sort, IsSorted, insertion_sort-IsSorted, count-insertion_sort, length-insertion_sort,
  sum_by-insertion_sort, any-insertion_sort, All-insertion_sort, sum_by, sum_by-append, sum_by-keep,
  count-keep, All-keep, All-keep_of, All-tail_of_append, All-head_of_append,
}
use casa_os_app_management.Prelude.Map
use casa_os_app_management.Prelude.Map.{
  Map, get-assign, get-delete, keys, IsMap, IsMap-assign, IsMap-delete, any-keys, count-keys,
}

-- what the errors of the file say
pub data ScheduleError : Type 0 where
  not_hh_mm not_an_hour not_a_minute not_a_frequency needs_app_and_destination : ScheduleError

pub data Result {ℓ} (A : Type ℓ) : Type ℓ where
  ok : A → Result A
  err : ScheduleError → Result A

infixl 5 ◌>>=◌
abbrev pub ◌>>=◌ {ℓ κ} : {A : Type ℓ} {B : Type κ} → Result A → (A → Result B) → Result B
ok a >>= f = f a
err e >>= f = err e

pub record BackupSchedule : Type 0 where
  pub app : String
  pub destination : String
  -- "daily" or "weekly"
  pub every : String
  pub at : String
  -- `time.Weekday`, from 0 for Sunday to 6
  pub weekday : ℕ
  pub keep : ℕ
  pub hold_still : Bool
  pub enabled : Bool
  pub last_run : ℕ

-- `unicode.IsSpace`
unfoldable pub is_space : ℕ → Bool
is_space c =
    (leb 9 c && leb c 13)
    || (c =ℕ 32
        || (c =ℕ 0x85
            || (c =ℕ 0xa0
                || (c =ℕ 0x1680
                    || ((leb 0x2000 c && leb c 0x200a)
                        || (c =ℕ 0x2028
                            || (c =ℕ 0x2029 || (c =ℕ 0x202f || (c =ℕ 0x205f || c =ℕ 0x3000)))))))))

unfoldable pub trim_left : List ℕ → List ℕ
unfolding is_space
trim_left [] = []
trim_left (c ∷ cs) = if is_space c then trim_left cs else c ∷ cs

-- `strings.TrimSpace`
unfoldable pub trim_space : List ℕ → List ℕ
unfolding trim_left
trim_space cs = reverse (trim_left (reverse (trim_left cs)))

-- `strings.Split(s, ":")`, as the first part and the others
unfoldable pub split_colon : List ℕ → List ℕ × List (List ℕ)
split_colon [] = ([], [])
split_colon (c ∷ cs) =
    let (part, parts) = split_colon cs in
    if c =ℕ b':' then ([], part ∷ parts) else (c ∷ part, parts)

-- `strconv.Atoi` followed by the test that the number is from 0 to `most`. A sign is allowed; what is
-- too large for an `int` fails the test as well as it fails `Atoi`.
unfoldable pub number_up_to : ℕ → List ℕ → Option ℕ
unfolding digits_of
number_up_to most [] = none
number_up_to most (c ∷ cs) =
    let limit : ℕ = if c =ℕ b'-' then 0 else most in
    elim (digits_of (if c =ℕ b'-' || c =ℕ b'+' then cs else c ∷ cs)) [
      | none ↦ none
      | some n ↦ if leb n limit then some n else none
    ]

abbrev pub or_err : Option ℕ → ScheduleError → Result ℕ
or_err none e = err e
or_err (some n) e = ok n

unfoldable pub read_parts : List ℕ × List (List ℕ) → Result (ℕ × ℕ)
unfolding number_up_to
read_parts (hour, []) = err not_hh_mm
read_parts (hour, minute ∷ []) = do
  h ← or_err (number_up_to 23 hour) not_an_hour
  m ← or_err (number_up_to 59 minute) not_a_minute
  ok (h, m)
read_parts (hour, minute ∷ more ∷ parts) = err not_hh_mm

-- `parseAt`
unfoldable pub parse_at : String → Result (ℕ × ℕ)
unfolding read_parts trim_space split_colon
parse_at at = read_parts (split_colon (trim_space (codes at)))

-- `t.Weekday()`
abbrev pub weekday_of : ℕ → ℕ
weekday_of t = (t / day_length + 1) % 7

-- `time.Date` at that hour and minute of the day of `now`
abbrev pub time_of_day : ℕ → ℕ × ℕ → ℕ
time_of_day now (hour, minute) = now - now % day_length + (hour * 60 + minute) * minute_length

unfoldable pub daily_slot : ℕ → ℕ → ℕ
daily_slot slot now = if ltb now slot then slot - day_length else slot

unfoldable pub weekly_slot : ℕ → ℕ → ℕ → ℕ
weekly_slot weekday slot now =
    let back = (weekday_of slot + 7 - weekday) % 7 in
    let slot' = slot - back * day_length in if ltb now slot' then slot' - 7 * day_length else slot'

-- the switch of `mostRecentSlot`
unfoldable pub slot_at : BackupSchedule → ℕ → ℕ × ℕ → Result ℕ
unfolding daily_slot weekly_slot
slot_at s now t =
    let slot = time_of_day now t in
    if s.every == "daily"
    then ok (daily_slot slot now)
    else if s.every == "weekly"
    then ok (weekly_slot s.weekday slot now)
    else err not_a_frequency

unfoldable pub most_recent_slot : BackupSchedule → ℕ → Result ℕ
unfolding parse_at slot_at
most_recent_slot s now = parse_at s.at >>= slot_at s now

unfoldable pub is_due : BackupSchedule → ℕ → Result Bool
unfolding most_recent_slot
is_due s now =
    let due = most_recent_slot s now >>= λ slot. ok (ltb s.last_run slot) in
    if not s.enabled
    then ok false
    else if s.app == "" || s.destination == ""
    then err needs_app_and_destination
    else due

-- the body of the loop of `DueSchedules`
abbrev pub sift_one :
    BackupSchedule
    → Result Bool
    → List BackupSchedule × List (BackupSchedule × ScheduleError)
    → List BackupSchedule × List (BackupSchedule × ScheduleError)
sift_one s (err e) (due, broken) = (due, (s, e) ∷ broken)
sift_one s (ok true) (due, broken) = (s ∷ due, broken)
sift_one s (ok false) (due, broken) = (due, broken)

unfoldable pub sift_due :
    List BackupSchedule → ℕ → List BackupSchedule × List (BackupSchedule × ScheduleError)
sift_due [] now = ([], [])
sift_due (s ∷ ss) now = sift_one s (is_due s now) (sift_due ss now)

-- by app, then by destination
abbrev pub by_app : BackupSchedule → BackupSchedule → Bool
by_app a b = if a.app == b.app then str_le a.destination b.destination else str_le a.app b.app

unfoldable pub due_schedules :
    List BackupSchedule → ℕ → List BackupSchedule × List (BackupSchedule × ScheduleError)
unfolding sift_due
due_schedules schedules now =
    let (due, broken) = sift_due schedules now in (insertion_sort by_app due, broken)

-- what `recordBackupRun` leaves of a schedule that ran at `now`
abbrev pub ran_at : ℕ → BackupSchedule → BackupSchedule
ran_at now s = record {
  app = s.app;
  destination = s.destination;
  every = s.every;
  at = s.at;
  weekday = s.weekday;
  keep = s.keep;
  hold_still = s.hold_still;
  enabled = s.enabled;
  last_run = now;
}
