-- ===== src/Backup/Schedule/Slots.antt =====
-- service/backup_schedule.go: where the slots of a schedule are.
use casa_os_app_management.Prelude.{minute_length, day_length}
use casa_os_app_management.Prelude.{
  ℕ, ◌+◌, ◌-◌, ◌*◌, ◌%◌, ◌≤◌, ◌<◌, String, ◌≡◌, ◌⊎◌, inl, inr, refl, sym, ◌∙◌, ap, true, ◌||◌,
  Option, none, some, List, [], ◌∷◌, arith, ◌==◌, ◌=ℕ◌, if◌then◌else◌, Bool-cases, Option-cases,
  codes,
}
use casa_os_app_management.Backup.Schedule.{
  ScheduleError, Result, ok, err, ◌>>=◌, BackupSchedule, number_up_to, or_err, read_parts, parse_at,
  weekday_of, time_of_day, daily_slot, weekly_slot, most_recent_slot, slot_at, split_colon,
  trim_space, digits_of,
}

-- in a time of day
abbrev pub minutes : ℕ × ℕ → ℕ
minutes (hour, minute) = hour * 60 + minute

number-le : (most : ℕ) (cs : List ℕ) (n : ℕ) → number_up_to most cs ≡ some n → n ≤ most
unfolding number_up_to
number-le most [] n h = ground arith
number-le most (c ∷ cs) n h =
    elim (Option-cases (digits_of (if c =ℕ b'-' || c =ℕ b'+' then cs else c ∷ cs))) [
      | inl e ↦ ground arith
      | inr (k, e) ↦ ground arith
    ]

or_err-ok : (o : Option ℕ) (e : ScheduleError) (n : ℕ) → or_err o e ≡ ok n → o ≡ some n
or_err-ok none e n h = ground arith
or_err-ok (some k) e n h = ground arith

read_parts-minutes :
    (parts : List ℕ × List (List ℕ)) (t : ℕ × ℕ) → read_parts parts ≡ ok t → minutes t < 1440
unfolding read_parts
read_parts-minutes (hour, []) t h = ground arith
read_parts-minutes (hour, minute ∷ x ∷ xs) t h = ground arith
read_parts-minutes (hour, minute ∷ []) t h = elim (Option-cases (number_up_to 23 hour)) [
  | inl e ↦ ground arith
  | inr (i, e) ↦ elim (Option-cases (number_up_to 59 minute)) [
    | inl f ↦ ground arith
    | inr (j, f) ↦ ground (arith, number-le 23 hour i e, number-le 59 minute j f)
  ]
]

pub parse_at-minutes : (at : String) (t : ℕ × ℕ) → parse_at at ≡ ok t → minutes t < 1440
unfolding parse_at
parse_at-minutes at t h = read_parts-minutes (split_colon (trim_space (codes at))) t h

-- A slot at `m` minutes of its day that is the last one up to `now`, when they are `period` apart.
abbrev pub IsLastSlot : ℕ → ℕ → ℕ → ℕ → Type 0
IsLastSlot period m slot now =
    (slot ≤ now) × (now < slot + period) × (slot % day_length ≡ m * minute_length)

daily_slot-IsLastSlot :
    (now m : ℕ)
    → 7 * day_length ≤ now
    → m < 1440
    → IsLastSlot day_length m (daily_slot (now - now % day_length + m * minute_length) now) now
unfolding daily_slot
daily_slot-IsLastSlot now m h k = ground arith

weekly_slot-IsLastSlot :
    (weekday now m : ℕ)
    → 7 * day_length ≤ now
    → m < 1440
    → weekday < 7
    → let slot = weekly_slot weekday (now - now % day_length + m * minute_length) now in
      IsLastSlot (7 * day_length) m slot now × (weekday_of slot ≡ weekday)
unfolding weekly_slot
weekly_slot-IsLastSlot weekday now m h k l = ground arith

-- "daily" comes round every day, what else there is every week
abbrev pub period : BackupSchedule → ℕ
period s = if s.every == "daily" then day_length else 7 * day_length

pub result-cases {ℓ} :
    {A : Type ℓ} → (r : Result A) → ((e : ScheduleError) × (r ≡ err e)) ⊎ ((x : A) × (r ≡ ok x))
result-cases (err e) = inl (e, refl)
result-cases (ok x) = inr (x, refl)

-- `slot` is the last one of the schedule up to `now`, and on the days it says.
abbrev pub IsSlotOf : BackupSchedule → ℕ → ℕ → ℕ × ℕ → Type 0
IsSlotOf s now slot t =
    IsLastSlot (period s) (minutes t) slot now
    × (((s.every == "daily") ≡ true)
        ⊎ (((s.every == "weekly") ≡ true) × (weekday_of slot ≡ s.weekday)))

pub slot_at_lem :
    (s : BackupSchedule) (now slot : ℕ) (t : ℕ × ℕ)
    → 7 * day_length ≤ now
    → s.weekday < 7
    → minutes t < 1440
    → slot_at s now t ≡ ok slot
    → IsSlotOf s now slot t
unfolding slot_at
slot_at_lem s now slot t h k l e = elim (Bool-cases (s.every == "daily")) [
  | inl d ↦ ground (arith, daily_slot-IsLastSlot now (minutes t) h l)
  | inr d ↦ elim (Bool-cases (s.every == "weekly")) [
    | inl w ↦ ground (arith, weekly_slot-IsLastSlot s.weekday now (minutes t) h l k)
    | inr w ↦ ground arith
  ]
]

pub most_recent_slot-slot_at :
    (s : BackupSchedule) (now : ℕ) (t : ℕ × ℕ)
    → parse_at s.at ≡ ok t
    → most_recent_slot s now ≡ slot_at s now t
unfolding most_recent_slot
most_recent_slot-slot_at s now t f = ap (λ r. r >>= slot_at s now) f

-- whether there is a slot does not depend on the time
pub slot_at-total :
    (s : BackupSchedule) (now now' slot : ℕ) (t : ℕ × ℕ)
    → slot_at s now t ≡ ok slot
    → (slot' : ℕ) × (slot_at s now' t ≡ ok slot')
unfolding slot_at
slot_at-total s now now' slot t e = elim (Bool-cases (s.every == "daily")) [
  | inl d ↦ (daily_slot (time_of_day now' t) now', rw d refl)
  | inr d ↦ elim (Bool-cases (s.every == "weekly")) [
    | inl w ↦ (weekly_slot s.weekday (time_of_day now' t) now', rw (d, w) refl)
    | inr w ↦ ground arith
  ]
]

-- Take a time at least a week after the start of the calendar and a schedule whose weekday is one. A
-- slot that `mostRecentSlot` finds is one of the schedule (the time of day is the one its text says,
-- and the weekday its own if it is not daily), it is not after the time, and the next one is.
pub most_recent_slot_lem :
    (s : BackupSchedule) (now slot : ℕ)
    → 7 * day_length ≤ now
    → s.weekday < 7
    → most_recent_slot s now ≡ ok slot
    → (t : ℕ × ℕ) × (parse_at s.at ≡ ok t) × IsSlotOf s now slot t
unfolding most_recent_slot
most_recent_slot_lem s now slot h k e = elim (result-cases (parse_at s.at)) [
  | inl (r, f) ↦ ground arith
  | inr (t, f) ↦ (t, f, slot_at_lem s now slot t h k (parse_at-minutes s.at t f) (ground arith))
]

daily_slot-le :
    (now m : ℕ) → m < 1440 → daily_slot (now - now % day_length + m * minute_length) now ≤ now
unfolding daily_slot
daily_slot-le now m h = ground arith

weekly_slot-le :
    (weekday now m : ℕ)
    → m < 1440
    → weekly_slot weekday (now - now % day_length + m * minute_length) now ≤ now
unfolding weekly_slot
weekly_slot-le weekday now m h = ground arith

slot_at-le :
    (s : BackupSchedule) (now slot : ℕ) (t : ℕ × ℕ)
    → minutes t < 1440
    → slot_at s now t ≡ ok slot
    → slot ≤ now
unfolding slot_at
slot_at-le s now slot t h e = elim (Bool-cases (s.every == "daily")) [
  | inl d ↦ ground (arith, daily_slot-le now (minutes t) h)
  | inr d ↦ elim (Bool-cases (s.every == "weekly")) [
    | inl w ↦ ground (arith, weekly_slot-le s.weekday now (minutes t) h)
    | inr w ↦ ground arith
  ]
]

-- a slot is never in the future, whatever the time and the weekday
pub most_recent_slot-le :
    (s : BackupSchedule) (now slot : ℕ) → most_recent_slot s now ≡ ok slot → slot ≤ now
unfolding most_recent_slot
most_recent_slot-le s now slot e = elim (result-cases (parse_at s.at)) [
  | inl (r, f) ↦ ground (arith, e, f)
  | inr (t, f) ↦
      slot_at-le s now slot t (parse_at-minutes s.at t f)
        (sym (most_recent_slot-slot_at s now t f) ∙ e)
]
