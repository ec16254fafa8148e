-- ===== src/Backup/Schedule/Due.antt =====
-- service/backup_schedule.go: which schedules are due, and once.
use casa_os_app_management.Prelude.{day_length}
use casa_os_app_management.Prelude.{
  ℕ, ◌+◌, ◌*◌, ◌≤◌, ◌<◌, ◌≡◌, inl, inr, refl, sym, ap, ◌∙◌, Bool, true, false, ◌&&◌, ◌||◌, List, [],
  ◌∷◌, map, arith, eq_iff, ◌==◌, ltb, leb, if◌then◌else◌, Bool-cases, count, keep, str_le_total,
  str_le_trans, str_le_antisym, IsSorted, insertion_sort-IsSorted, count-insertion_sort,
}
use casa_os_app_management.Backup.Schedule.{
  ScheduleError, Result, ok, err, BackupSchedule, parse_at, most_recent_slot, is_due, sift_one,
  sift_due, by_app, due_schedules, ran_at, slot_at,
}
use casa_os_app_management.Backup.Schedule.Slots.{
  minutes, IsSlotOf, result-cases, period, slot_at-total, most_recent_slot-slot_at, slot_at_lem,
  parse_at-minutes,
}

-- two times of one schedule: the later one's slot is new exactly when a whole period has gone by
slots_apart :
    (s : BackupSchedule) (now now' slot slot' : ℕ) (t : ℕ × ℕ)
    → now ≤ now'
    → IsSlotOf s now slot t
    → IsSlotOf s now' slot' t
    → ltb now slot' ≡ leb (slot + period s) now'
slots_apart s now now' slot slot' t h a b = elim (Bool-cases (s.every == "daily")) [
  | inl d ↦ ground arith
  | inr d ↦ ground arith
]

abbrev pub is_yes : Result Bool → Bool
is_yes (ok b) = b
is_yes (err e) = false

abbrev pub is_err : Result Bool → Bool
is_err (ok b) = false
is_err (err e) = true

count-sift_one :
    (p : BackupSchedule → Bool) (s : BackupSchedule) (r : Result Bool)
    (rest : List BackupSchedule × List (BackupSchedule × ScheduleError))
    → (count p (sift_one s r rest).0 ≡ (if p s && is_yes r then 1 else 0) + count p rest.0)
      × (map (λ b. b.0) (sift_one s r rest).1
          ≡ (if is_err r then s ∷ map (λ b. b.0) rest.1 else map (λ b. b.0) rest.1))
count-sift_one p s (err e) (due, broken) = (ground arith, refl)
count-sift_one p s (ok true) (due, broken) = (ground arith, refl)
count-sift_one p s (ok false) (due, broken) = (ground arith, refl)

count-sift_due :
    (p : BackupSchedule → Bool) (ss : List BackupSchedule) (now : ℕ)
    → (count p (sift_due ss now).0 ≡ count (λ s. p s && is_yes (is_due s now)) ss)
      × (map (λ b. b.0) (sift_due ss now).1 ≡ keep (λ s. is_err (is_due s now)) ss)
unfolding sift_due
count-sift_due p [] now = (refl, refl)
count-sift_due p (s ∷ ss) now =
    let (one, two) = count-sift_one p s (is_due s now) (sift_due ss now) in
    let (due, broken) = count-sift_due p ss now in (ground (arith, one, due), rw (two, broken) refl)

by_app_total : (a b : BackupSchedule) → (by_app a b || by_app b a) ≡ true
by_app_total a b = ground (
  arith,
  eq_iff a.app b.app,
  eq_iff b.app a.app,
  str_le_total a.app b.app,
  str_le_total a.destination b.destination,
)

by_app_trans : (a b c : BackupSchedule) → by_app a b ≡ true → by_app b c ≡ true → by_app a c ≡ true
by_app_trans a b c h k = ground (
  arith,
  eq_iff a.app b.app,
  eq_iff b.app c.app,
  eq_iff a.app c.app,
  str_le_trans a.app b.app c.app,
  str_le_antisym a.app b.app,
  str_le_antisym b.app c.app,
  str_le_trans a.destination b.destination c.destination,
)

-- What is due is sorted by app and then by destination, and each schedule is in it as often as it is
-- among those given that have an unrun slot; the schedules reported are those with an error, in order.
pub due_schedules_lem :
    (ss : List BackupSchedule) (now : ℕ) (p : BackupSchedule → Bool)
    → IsSorted by_app (due_schedules ss now).0
      × ((count p (due_schedules ss now).0 ≡ count (λ s. p s && is_yes (is_due s now)) ss)
          × (map (λ b. b.0) (due_schedules ss now).1 ≡ keep (λ s. is_err (is_due s now)) ss))
unfolding due_schedules
due_schedules_lem ss now p = (
  insertion_sort-IsSorted by_app by_app_total by_app_trans (sift_due ss now).0,
  (
    count-insertion_sort by_app p (sift_due ss now).0 ∙ (count-sift_due p ss now).0,
    (count-sift_due p ss now).1,
  ),
)

slot_at-ran_at :
    (s : BackupSchedule) (now now' : ℕ) (t : ℕ × ℕ)
    → slot_at (ran_at now s) now' t ≡ slot_at s now' t
unfolding slot_at
slot_at-ran_at s now now' t = refl

-- An enabled schedule that names an app and a destination, whose weekday is one, has run at a time at
-- least a week after the start of the calendar, and its slot of then is `slot`. At a later time it is due
-- exactly if a whole period has gone by since that slot.
pub runs_once :
    (s : BackupSchedule) (now now' slot : ℕ)
    → 7 * day_length ≤ now
    → now ≤ now'
    → s.weekday < 7
    → s.enabled ≡ true
    → (s.app == "" || s.destination == "") ≡ false
    → most_recent_slot s now ≡ ok slot
    → is_due (ran_at now s) now' ≡ ok (leb (slot + period s) now')
unfolding is_due
runs_once s now now' slot h k w en named e = elim (result-cases (parse_at s.at)) [
  | inl (r, f) ↦ ground arith
  | inr (t, f) ↦
      let l : minutes t < 1440 = parse_at-minutes s.at t f in
      let first : slot_at s now t ≡ ok slot = sym (most_recent_slot-slot_at s now t f) ∙ e in
      let (slot', g) = slot_at-total s now now' slot t first in
      let again : slot_at (ran_at now s) now' t ≡ ok slot' = slot_at-ran_at s now now' t ∙ g in
      let apart : ltb now slot' ≡ leb (slot + period s) now' =
        slots_apart s now now' slot slot' t k (slot_at_lem s now slot t h w l first)
          (slot_at_lem s now' slot' t (omega (arith, h, k)) w l g) in
      let later : most_recent_slot (ran_at now s) now' ≡ ok slot' =
        most_recent_slot-slot_at (ran_at now s) now' t f ∙ again in
      rw (en, named, later) (ap ok apart)
]
