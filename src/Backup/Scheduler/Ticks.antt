-- ===== src/Backup/Scheduler/Ticks.antt =====
-- service/backup_scheduler.go: what a tick leaves.
use casa_os_app_management.Prelude.{
  ℕ, String, ◌≡◌, inl, inr, refl, sym, ap, ◌∙◌, Bool, true, false, Option, none, some, List, [],
  ◌∷◌, ◌++◌, ◌=ℕ◌, if◌then◌else◌, Bool-cases, join_path,
}
use mathlib.Core.List.{append-nil, append_assoc}
use casa_os_app_management.Backup.Schedule.{BackupSchedule, due_schedules}
use casa_os_app_management.Backup.Scheduler.{
  not_there, Call, marked, unmarked, ran, purged, Box, Runner, called, write_schedules, record_run,
  record_backup_run, purge_all, purge_listed, apply_retention, run_scheduled, run_each, run_read,
  with_ticking, run_due_backups, os_upgrade_open,
}
use casa_os_app_management.Backup.Scheduler.Spent.{record_all, nothing_due}
use casa_os_app_management.Backup.Retention.{runs_to_purge}

module _ {W : Type 0} (runner : Runner W) where
  -- The schedules of the box are `fs`, they can be written, and no upgrade is open.
  pub record IsQuiet (fs : List BackupSchedule) (b : Box W) : Type 0 where
    pub reads : b.schedules ≡ some fs
    pub writes : b.writable ≡ true
    pub free : b.busy ≡ not_there

  -- A runner during whose calls the owner saves no schedules and no upgrade opens.
  pub record LeavesQuiet : Type 0 where
    pub run_IsQuiet :
        (fs : List BackupSchedule) (s : BackupSchedule) (stamp : ℕ) (b : Box W)
        → IsQuiet fs b
        → IsQuiet fs (runner.run s stamp b).1
    pub purge_IsQuiet :
        (fs : List BackupSchedule) (destination path : String) (b : Box W)
        → IsQuiet fs b
        → IsQuiet fs (runner.purge destination path b).1

  called-IsQuiet :
      (fs : List BackupSchedule) (c : Call) (b : Box W) → IsQuiet fs b → IsQuiet fs (called c b)
  called-IsQuiet fs c b q = record { reads = q.reads; writes = q.writes; free = q.free }

  module _ (leaves : LeavesQuiet) where
    purge_all-IsQuiet :
        (fs : List BackupSchedule) (destination app : String) (stamps : List String) (b : Box W)
        → IsQuiet fs b
        → IsQuiet fs (purge_all runner destination app stamps b)
    unfolding purge_all
    purge_all-IsQuiet fs destination app [] b q = q
    purge_all-IsQuiet fs destination app (stamp ∷ stamps) b q =
        purge_all-IsQuiet fs destination app stamps
          (runner.purge destination (join_path app stamp) (called (purged app stamp) b)).1
          (leaves.purge_IsQuiet fs destination (join_path app stamp) (called (purged app stamp) b)
            (called-IsQuiet fs (purged app stamp) b q))

    purge_listed-IsQuiet :
        (fs : List BackupSchedule) (destination app : String) (kept : ℕ) (b : Box W)
        (stamps : Option (List String))
        → IsQuiet fs b
        → IsQuiet fs (purge_listed runner destination app kept b stamps)
    purge_listed-IsQuiet fs destination app kept b none q = q
    purge_listed-IsQuiet fs destination app kept b (some stamps) q =
        purge_all-IsQuiet fs destination app (runs_to_purge stamps kept) b q

    apply_retention-IsQuiet :
        (fs : List BackupSchedule) (destination app : String) (kept : ℕ) (b : Box W)
        → IsQuiet fs b
        → IsQuiet fs (apply_retention runner destination app kept b)
    unfolding apply_retention
    apply_retention-IsQuiet fs destination app kept b q =
        let b₁ = called (marked app) b in
        let stamps = runner.runs destination app b₁ in
        elim (Bool-cases (kept =ℕ 0)) [
          | inl e ↦ rw e q
          | inr e ↦ rw e (
              called-IsQuiet fs (unmarked app) (purge_listed runner destination app kept b₁ stamps)
                (purge_listed-IsQuiet fs destination app kept b₁ stamps
                  (called-IsQuiet fs (marked app) b q)))
        ]

    run_scheduled-IsQuiet :
        (fs : List BackupSchedule) (now : ℕ) (s : BackupSchedule) (b : Box W)
        → IsQuiet fs b
        → IsQuiet fs (run_scheduled runner now s b)
    unfolding run_scheduled
    run_scheduled-IsQuiet fs now s b q =
        let b₀ = called (ran s) b in
        let after = leaves.run_IsQuiet fs s now b₀ (called-IsQuiet fs (ran s) b q) in
        elim (Bool-cases (runner.run s now b₀).0) [
          | inl e ↦
              rw e (
                apply_retention-IsQuiet fs s.destination s.app s.keep (runner.run s now b₀).1 after)
          | inr e ↦ rw e after
        ]

    record_backup_run-IsQuiet :
        (fs : List BackupSchedule) (now : ℕ) (s : BackupSchedule) (b : Box W)
        → IsQuiet fs b
        → IsQuiet (record_run s now fs) (record_backup_run s now b).1
    unfolding record_backup_run write_schedules
    record_backup_run-IsQuiet fs now s b q =
        rw (q.reads, q.writes) (record { reads = refl; writes = refl; free = q.free })

    run_each-IsQuiet :
        (fs : List BackupSchedule) (now : ℕ) (due : List BackupSchedule) (b : Box W)
        → IsQuiet fs b
        → IsQuiet (record_all now due fs) (run_each runner now due b)
    unfolding run_each os_upgrade_open
    run_each-IsQuiet fs now [] b q = q
    run_each-IsQuiet fs now (s ∷ due) b q =
        let b₁ = called (marked s.app) b in
        let b₂ = called (unmarked s.app) (run_scheduled runner now s b₁) in
        let after =
          called-IsQuiet fs (unmarked s.app) (run_scheduled runner now s b₁)
            (run_scheduled-IsQuiet fs now s b₁ (called-IsQuiet fs (marked s.app) b q)) in
        let shut : os_upgrade_open b.busy ≡ false = ap os_upgrade_open q.free in
        rw shut (
          run_each-IsQuiet (record_run s now fs) now due (record_backup_run s now b₂).1
            (record_backup_run-IsQuiet fs now s b₂ after))

    -- A tick that finds no other one, on a box whose schedules are read and can be written, with a runner
    -- during whose calls no schedules are saved and no upgrade opens: it leaves the schedules with the runs
    -- recorded, whether or not they failed, and of those schedules none is due at that time.
    pub tick_spends :
        (fs : List BackupSchedule) (now : ℕ) (b : Box W)
        → IsQuiet fs b
        → b.ticking ≡ false
        → let left = record_all now (due_schedules fs now).0 fs in
          ((run_due_backups runner now b).schedules ≡ some left) × ((due_schedules left now).0 ≡ [])
    unfolding run_due_backups
    tick_spends fs now b q idle =
        let due = (due_schedules fs now).0 in
        let b₁ = with_ticking runner true b in
        let quiet : IsQuiet fs b₁ = record { reads = q.reads; writes = q.writes; free = q.free } in
        (
          ap
                (λ t.
                  (if t
                    then b
                    else with_ticking runner false (run_read runner now b₁ b.schedules)).schedules)
                idle
              ∙ (ap (λ o. (run_read runner now b₁ o).schedules) q.reads
                  ∙ (run_each-IsQuiet fs now due b₁ quiet).reads),
          nothing_due now fs,
        )

-- the mark that a tick which waits puts up for the first due schedule, and takes down
abbrev pub one_mark : List BackupSchedule → List Call
one_mark [] = []
one_mark (s ∷ due) = marked s.app ∷ unmarked s.app ∷ []

abbrev pub marks_of_wait : ℕ → Option (List BackupSchedule) → List Call
marks_of_wait now none = []
marks_of_wait now (some ss) = one_mark (due_schedules ss now).0

module _ {W : Type 0} (runner : Runner W) where
  -- the box with more calls behind its own, and else as it was
  abbrev pub with_calls : List Call → Box W → Box W
  with_calls calls b = record b { calls = b.calls ++ calls }

  with_no_calls : (b : Box W) → b ≡ with_calls [] b
  with_no_calls b =
      ap (λ (calls : List Call). record b { calls = calls }) (sym (append-nil b.calls))

  run_each-with_calls :
      (now : ℕ) (due : List BackupSchedule) (b : Box W)
      → os_upgrade_open b.busy ≡ true
      → run_each runner now due b ≡ with_calls (one_mark due) b
  unfolding run_each
  run_each-with_calls now [] b h = with_no_calls b
  run_each-with_calls now (s ∷ due) b h = rw h (
      ap (λ (calls : List Call). record b { calls = calls })
        (append_assoc b.calls (marked s.app ∷ []) (unmarked s.app ∷ [])))

  run_read-with_calls :
      (now : ℕ) (b : Box W) (ss : Option (List BackupSchedule))
      → os_upgrade_open b.busy ≡ true
      → run_read runner now b ss ≡ with_calls (marks_of_wait now ss) b
  run_read-with_calls now b none h = with_no_calls b
  run_read-with_calls now b (some ss) h = run_each-with_calls now (due_schedules ss now).0 b h

  tick-with_calls :
      (now : ℕ) (b : Box W) (ticking : Bool)
      → b.ticking ≡ ticking
      → os_upgrade_open b.busy ≡ true
      → (if ticking
          then b
          else with_ticking runner false
              (run_read runner now (with_ticking runner true b) b.schedules))
        ≡ with_calls (if ticking then [] else marks_of_wait now b.schedules) b
  tick-with_calls now b true e h = with_no_calls b
  tick-with_calls now b false e h =
      ap (with_ticking runner false)
        (run_read-with_calls now (with_ticking runner true b) b.schedules h)
      ∙ ap (λ (t : Bool). with_ticking runner t (with_calls (marks_of_wait now b.schedules) b))
          (sym e)

  -- While an upgrade is open, or whether one is cannot be told, a tick that finds another one leaves
  -- the box as it was; any other tick, at its end, differs from it in two calls at most, which put the
  -- first due schedule's mark up and take it down: no backup runs, none is purged, no run is recorded,
  -- and the next tick is free to start.
  pub tick_waits :
      (now : ℕ) (b : Box W)
      → os_upgrade_open b.busy ≡ true
      → run_due_backups runner now b
        ≡ with_calls (if b.ticking then [] else marks_of_wait now b.schedules) b
  unfolding run_due_backups
  tick_waits now b h = tick-with_calls now b b.ticking refl h
