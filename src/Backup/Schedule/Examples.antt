-- ===== src/Backup/Schedule/Examples.antt =====
-- service/backup_schedule.go: a box with schedules.
use casa_os_app_management.Prelude.{minute_length, day_length}
use casa_os_app_management.Prelude.{
  ℕ, ◌+◌, ◌-◌, ◌*◌, String, ◌≡◌, refl, true, false, ◌&&◌, List, [], ◌∷◌, map, arith, ◌==◌, count,
  keep, str_le, insertion_sort, IsSorted,
}
use casa_os_app_management.Backup.Schedule.{
  ok, err, BackupSchedule, parse_at, not_an_hour, not_hh_mm, weekday_of, most_recent_slot, is_due,
  due_schedules, by_app, ran_at,
}
use casa_os_app_management.Backup.Schedule.Slots.{IsSlotOf, most_recent_slot_lem}
use casa_os_app_management.Backup.Schedule.Due.{is_yes, is_err, due_schedules_lem, runs_once}

abbrev schedule : String → String → String → BackupSchedule
schedule app every at = record {
  app = app;
  destination = "usb";
  every = every;
  at = at;
  weekday = 3;
  keep = 2;
  hold_still = false;
  enabled = true;
  last_run = 0;
}

-- seven in the morning of a Thursday
abbrev thursday : ℕ
thursday = 700003 * day_length + 420 * minute_length

thursday_test : weekday_of thursday ≡ 4
thursday_test = refl

parse_at_test :
    (parse_at " 03:30 " ≡ ok (3, 30))
    × ((parse_at "24:00" ≡ err not_an_hour) × (parse_at "3" ≡ err not_hh_mm))
unfolding parse_at
parse_at_test = (refl, (refl, refl))

daily_test :
    most_recent_slot (schedule "a" "daily" "03:00") thursday ≡ ok (thursday - 240 * minute_length)
unfolding most_recent_slot
daily_test = refl

weekly_test :
    most_recent_slot (schedule "a" "weekly" "08:00") thursday ≡ ok (thursday - 1380 * minute_length)
unfolding most_recent_slot
weekly_test = refl

most_recent_slot_lem_example :
    (t : ℕ × ℕ) × (parse_at "08:00" ≡ ok t)
    × IsSlotOf (schedule "a" "weekly" "08:00") thursday (thursday - 1380 * minute_length) t
most_recent_slot_lem_example =
    most_recent_slot_lem (schedule "a" "weekly" "08:00") thursday (thursday - 1380 * minute_length)
      (omega arith) (omega arith) weekly_test

-- an hour later it is not due
runs_once_example :
    is_due (ran_at thursday (schedule "a" "daily" "03:00")) (thursday + 60 * minute_length)
    ≡ ok false
runs_once_example =
    runs_once (schedule "a" "daily" "03:00") thursday (thursday + 60 * minute_length)
      (thursday - 240 * minute_length) (omega arith) (omega arith) (omega arith) refl refl
      daily_test

abbrev schedules : List BackupSchedule
schedules =
    schedule "b" "daily" "03:00"
    ∷ schedule "a" "weekly" "08:00"
    ∷ schedule "a" "yearly" "08:00"
    ∷ []

due_test : map (λ s. s.app) (due_schedules schedules thursday).0 ≡ "a" ∷ "b" ∷ []
unfolding due_schedules insertion_sort is_due str_le
due_test = refl

due_schedules_lem_example :
    IsSorted by_app (due_schedules schedules thursday).0
    × ((count (λ s. s.app == "a") (due_schedules schedules thursday).0
          ≡ count (λ s. (s.app == "a") && is_yes (is_due s thursday)) schedules)
        × (map (λ b. b.0) (due_schedules schedules thursday).1
            ≡ keep (λ s. is_err (is_due s thursday)) schedules))
due_schedules_lem_example = due_schedules_lem schedules thursday (λ s. s.app == "a")
