-- ===== src/Backup/Scheduler/Examples.antt =====
-- service/backup_scheduler.go: a box with two schedules.
use casa_os_app_management.Prelude.{if◌then◌else◌, day_length}
use casa_os_app_management.Prelude.{
  ℕ, ◌+◌, ◌*◌, String, ◌≡◌, refl, true, false, not, some, List, [], ◌∷◌, ◌++◌, ◌==◌, str_le,
  insertion_sort,
}
use casa_os_app_management.Backup.Schedule.{BackupSchedule, due_schedules, is_due}
use casa_os_app_management.Backup.Scheduler.{
  Lstat, there, not_there, marked, unmarked, ran, Box, Runner, run_due_backups, run_each,
  run_scheduled, apply_retention, record_backup_run, write_schedules, os_upgrade_open,
}
use casa_os_app_management.Backup.Scheduler.Spent.{record_all}
use casa_os_app_management.Backup.Scheduler.Ticks.{
  with_calls, marks_of_wait, tick_spends, tick_waits,
}

abbrev schedule : String → ℕ → BackupSchedule
schedule app kept = record {
  app = app;
  destination = "usb";
  every = "daily";
  at = "03:00";
  weekday = 0;
  keep = kept;
  hold_still = false;
  enabled = true;
  last_run = 0;
}

abbrev schedules : List BackupSchedule
schedules = schedule "b" 1 ∷ schedule "a" 0 ∷ []

abbrev box : Lstat → Box (List String)
box busy = record {
  world = "old" ∷ [];
  schedules = some schedules;
  writable = true;
  busy = busy;
  ticking = false;
  calls = [];
}

-- A run of `b` fails.
abbrev runner : Runner (List String)
runner = record {
  run = λ s stamp b. (not (s.app == "b"), record b { world = b.world ++ s.app ∷ [] });
  runs = λ destination app b. some b.world;
  purge = λ destination path b. (true, b);
}

abbrev noon : ℕ
noon = 700003 * day_length + 43200000000000

tick_test :
    (run_due_backups runner noon (box not_there)).calls
    ≡ marked "a"
      ∷ ran (schedule "a" 0)
      ∷ unmarked "a"
      ∷ marked "b"
      ∷ ran (schedule "b" 1)
      ∷ unmarked "b"
      ∷ []
unfolding run_due_backups run_each due_schedules insertion_sort is_due str_le os_upgrade_open
    record_backup_run run_scheduled apply_retention write_schedules
tick_test = refl

tick_spends_example :
    let left = record_all noon (due_schedules schedules noon).0 schedules in
    ((run_due_backups runner noon (box not_there)).schedules ≡ some left)
    × ((due_schedules left noon).0 ≡ [])
tick_spends_example =
    tick_spends runner
      (record {
        run_IsQuiet =
            λ fs s stamp b q. record { reads = q.reads; writes = q.writes; free = q.free };
        purge_IsQuiet = λ fs destination path b q. q;
      })
      schedules noon (box not_there) (record { reads = refl; writes = refl; free = refl }) refl

tick_waits_example :
    run_due_backups runner noon (box there)
    ≡ with_calls runner
        (if (box there).ticking then [] else marks_of_wait noon (box there).schedules)
        (box there)
unfolding os_upgrade_open
tick_waits_example = tick_waits runner noon (box there) refl
