-- ===== src/Backup/Scheduler.antt =====
-- service/backup_scheduler.go and service/backup_upgrade_hold.go: the backups that run by themselves.
--
-- The runner is the interface of the code: what it does to the box is a parameter, the file of schedules,
-- which the owner may save during a run, included. The marks that a tick puts into the registry of
-- operations, and takes out, are in the list of its calls. A run's `stamp` is written as the time itself.
-- What a run writes into the log of runs is not modelled.
pub mod Spent
pub mod Ticks
mod Examples
use casa_os_app_management.Prelude.{
  ℕ, zero, suc, ◌+◌, ◌-◌, ◌*◌, ◌/◌, ◌%◌, ◌^◌, ◌≤◌, ◌<◌, String, ◌≡◌, ◌≢◌, ◌↔◌, ◌⊎◌, inl, inr, refl,
  sym, ap, subst, ◌∙◌, Bool, true, false, not, ◌&&◌, ◌||◌, Option, none, some, List, [], ◌∷◌, ◌++◌,
  map, reverse, arith, eq_iff, eq_refl, ◌==◌, ltb, leb, ◌=ℕ◌, if◌then◌else◌, leb→le, ltb→lt,
  Bool-cases, Option-cases, length, take, drop, length-append, length-take, length-drop,
  take-append-drop, count, any, keep, count-append, count-le-length, any-pos, any-append,
  any-reverse, any_none, get_elem?, set, count-set, count-pos, drop-set, length-set, drop-append,
  drop_step, get_elem?-drop, get_elem?_in, get_elem?-append, get_elem?_lt, Sub, nil, Sub-snoc,
  Sub-tail, Sub-delete, snoc-ne-nil, All, All-append, All-map, All-zip, ◌<>◌, starts_with, clean,
  clean-not_empty, join_path, base, dir, show, show_inj, str_le, codes, str_le_total, str_le_trans,
  str_le_antisym, insert, insertion_sort, IsSorted, insertion_sort-IsSorted, count-insertion_sort,
  length-insertion_sort, sum_by-insertion_sort, any-insertion_sort, All-insertion_sort, sum_by,
  sum_by-append, sum_by-keep, count-keep, All-keep, All-keep_of, All-tail_of_append,
  All-head_of_append,
}
use casa_os_app_management.Prelude.Map
use casa_os_app_management.Prelude.Map.{
  Map, get-assign, get-delete, keys, IsMap, IsMap-assign, IsMap-delete, any-keys, count-keys,
}
use casa_os_app_management.Backup.Schedule.{BackupSchedule, due_schedules, ran_at}
use casa_os_app_management.Backup.Retention.{runs_to_purge}

-- what `os.Lstat` says of the file that the core keeps during an upgrade
pub data Lstat : Type 0 where
  there not_there denied : Lstat

pub data Call : Type 0 where
  marked unmarked : String → Call
  ran : BackupSchedule → Call
  purged : String → String → Call

pub record Box (W : Type 0) : Type 0 where
  -- destinations, containers and the rest
  pub world : W
  -- what `readSchedules` gives, `none` for an error
  pub schedules : Option (List BackupSchedule)
  pub writable : Bool
  pub busy : Lstat
  pub ticking : Bool
  pub calls : List Call

-- `backupRunner`: an error is `false`
pub record Runner (W : Type 0) : Type 0 where
  pub run : BackupSchedule → ℕ → Box W → Bool × Box W
  pub runs : String → String → Box W → Option (List String)
  pub purge : String → String → Box W → Bool × Box W

-- whether what the box does by itself must wait
unfoldable pub os_upgrade_open : Lstat → Bool
os_upgrade_open not_there = false
os_upgrade_open there = true
os_upgrade_open denied = true

-- the schedules of one app and destination
abbrev pub same_place : BackupSchedule → BackupSchedule → Bool
same_place s r = r.app == s.app && r.destination == s.destination

unfoldable pub record_run : BackupSchedule → ℕ → List BackupSchedule → List BackupSchedule
record_run s now [] = []
record_run s now (r ∷ rs) = (if same_place s r then ran_at now r else r) ∷ record_run s now rs

module _ {W : Type 0} where
  abbrev pub called : Call → Box W → Box W
  called c b = record b { calls = b.calls ++ c ∷ [] }

  unfoldable pub write_schedules : List BackupSchedule → Box W → Bool × Box W
  write_schedules ss b = if b.writable then (true, record b { schedules = some ss }) else (false, b)

  abbrev pub record_read : BackupSchedule → ℕ → Box W → Option (List BackupSchedule) → Bool × Box W
  record_read s now b none = (false, b)
  record_read s now b (some ss) = write_schedules (record_run s now ss) b

  unfoldable pub record_backup_run : BackupSchedule → ℕ → Box W → Bool × Box W
  record_backup_run s now b = record_read s now b b.schedules

module _ {W : Type 0} (runner : Runner W) where
  -- the loop of `ApplyRetention`: every deletion is tried
  unfoldable pub purge_all : String → String → List String → Box W → Box W
  purge_all destination app [] b = b
  purge_all destination app (stamp ∷ stamps) b =
      purge_all destination app stamps
        (runner.purge destination (join_path app stamp) (called (purged app stamp) b)).1

  abbrev pub purge_listed : String → String → ℕ → Box W → Option (List String) → Box W
  purge_listed destination app kept b none = b
  purge_listed destination app kept b (some stamps) =
      purge_all destination app (runs_to_purge stamps kept) b

  -- a `keep` of 0 stands for every one that is not positive
  unfoldable pub apply_retention : String → String → ℕ → Box W → Box W
  apply_retention destination app kept b =
      let b₁ = called (marked app) b in
      let b₂ = purge_listed destination app kept b₁ (runner.runs destination app b₁) in
      if kept =ℕ 0 then b else called (unmarked app) b₂

  unfoldable pub run_scheduled : ℕ → BackupSchedule → Box W → Box W
  run_scheduled now s b =
      let (ok, b₁) = runner.run s now (called (ran s) b) in
      let b₂ = apply_retention s.destination s.app s.keep b₁ in if ok then b₂ else b₁

  -- the loop of `RunDueBackups`
  unfoldable pub run_each : ℕ → List BackupSchedule → Box W → Box W
  run_each now [] b = b
  run_each now (s ∷ due) b =
      let b₁ = called (marked s.app) b in
      let b₂ = called (unmarked s.app) (run_scheduled now s b₁) in
      let rest = run_each now due (record_backup_run s now b₂).1 in
      if os_upgrade_open b₁.busy then called (unmarked s.app) b₁ else rest

  abbrev pub run_read : ℕ → Box W → Option (List BackupSchedule) → Box W
  run_read now b none = b
  run_read now b (some ss) = run_each now (due_schedules ss now).0 b

  abbrev pub with_ticking : Bool → Box W → Box W
  with_ticking t b = record b { ticking = t }

  unfoldable pub run_due_backups : ℕ → Box W → Box W
  run_due_backups now b =
      if b.ticking then b else with_ticking false (run_read now (with_ticking true b) b.schedules)
