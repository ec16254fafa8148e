-- ===== src/Backup/Scheduler/Spent.antt =====
-- service/backup_scheduler.go: the schedules whose slots are spent.
use casa_os_app_management.Prelude.{
  ℕ, suc, ◌<◌, ◌≡◌, ◌⊎◌, inl, inr, refl, sym, subst, ◌∙◌, Bool, true, false, ◌&&◌, ◌||◌, some, List,
  [], ◌∷◌, arith, eq_refl, ◌==◌, Bool-cases, count, any, any_none, get_elem?, count-pos, All,
}
use casa_os_app_management.Backup.Schedule.{
  BackupSchedule, most_recent_slot, is_due, due_schedules, ran_at,
}
use casa_os_app_management.Backup.Schedule.Slots.{result-cases, most_recent_slot-le}
use casa_os_app_management.Backup.Schedule.Due.{is_yes, due_schedules_lem}
use casa_os_app_management.Backup.Scheduler.{same_place, record_run}

-- the slot of a schedule is spent
abbrev IsSpent : ℕ → BackupSchedule → Type 0
IsSpent now s = is_yes (is_due s now) ≡ false

ran_at-IsSpent : (now : ℕ) (s : BackupSchedule) → IsSpent now (ran_at now s)
unfolding is_due
ran_at-IsSpent now s = elim (Bool-cases s.enabled) [
  | inr e ↦ rw e refl
  | inl e ↦ elim (Bool-cases (s.app == "" || s.destination == "")) [
    | inl n ↦ rw (e, n) refl
    | inr n ↦ elim (result-cases (most_recent_slot (ran_at now s) now)) [
      | inl (r, f) ↦ rw (e, n, f) refl
      | inr (slot, f) ↦ rw (e, n, f) (ground (arith, most_recent_slot-le (ran_at now s) now slot f))
    ]
  ]
]

-- a schedule is spent, or is still to be run in the place of one of `due`
abbrev IsSpentOrDue : ℕ → List BackupSchedule → BackupSchedule → Type 0
IsSpentOrDue now due r = IsSpent now r ⊎ (any (λ s. same_place s r) due ≡ true)

abbrev pub record_all : ℕ → List BackupSchedule → List BackupSchedule → List BackupSchedule
record_all now [] fs = fs
record_all now (s ∷ due) fs = record_all now due (record_run s now fs)

record_run-step :
    (now : ℕ) (s : BackupSchedule) (due fs : List BackupSchedule)
    → All (IsSpentOrDue now (s ∷ due)) fs
    → All (IsSpentOrDue now due) (record_run s now fs)
unfolding record_run
record_run-step now s due [] h = tt
record_run-step now s due (r ∷ fs) h = (
  elim (Bool-cases (same_place s r)) [
    | inl e ↦ rw e (inl (ran_at-IsSpent now r))
    | inr e ↦ rw e (elim h.0 [ inl spent ↦ inl spent | inr d ↦ inr (ground (arith, d, e)) ])
  ],
  record_run-step now s due fs h.1,
)

record_all-IsSpent :
    (now : ℕ) (due fs : List BackupSchedule)
    → All (IsSpentOrDue now due) fs
    → All (IsSpentOrDue now []) (record_all now due fs)
record_all-IsSpent now [] fs h = h
record_all-IsSpent now (s ∷ due) fs h =
    record_all-IsSpent now due (record_run s now fs) (record_run-step now s due fs h)

no_due :
    (now : ℕ) (fs : List BackupSchedule)
    → All (IsSpentOrDue now []) fs
    → count (λ s. true && is_yes (is_due s now)) fs ≡ 0
no_due now [] h = refl
no_due now (r ∷ fs) h = elim h.0 [
  | inl spent ↦ rw spent (no_due now fs h.1)
  | inr d ↦ ground (arith, d)
]

count-any :
    (p : BackupSchedule → Bool) (xs : List BackupSchedule) → 0 < count p xs → any p xs ≡ true
count-any p xs h = elim (Bool-cases (any p xs)) [
  | inl e ↦ e
  | inr e ↦ absurd (omega (arith, any_none p xs e, h))
]

All-get :
    (P : BackupSchedule → Type 0) (fs : List BackupSchedule)
    → ((i : ℕ) (r : BackupSchedule) → get_elem? fs i ≡ some r → P r)
    → All P fs
All-get P [] h = tt
All-get P (r ∷ fs) h = (h 0 r refl, All-get P fs (λ i q e. h (suc i) q e))

-- at the start of a tick
IsSpentOrDue-due :
    (now : ℕ) (fs : List BackupSchedule) → All (IsSpentOrDue now (due_schedules fs now).0) fs
IsSpentOrDue-due now fs = All-get (IsSpentOrDue now (due_schedules fs now).0) fs (λ i r e.
    elim (Bool-cases (is_yes (is_due r now))) [
      | inr n ↦ inl n
      | inl y ↦ inr (
          count-any (λ s. same_place s r) (due_schedules fs now).0
            (subst (λ n. 0 < n) (sym (due_schedules_lem fs now (λ s. same_place s r)).1.0)
              (count-pos (λ s. same_place s r && is_yes (is_due s now)) fs i r e
                (ground (arith, y, eq_refl r.app, eq_refl r.destination)))))
    ])

no_length : (xs : List BackupSchedule) → count (λ s. true) xs ≡ 0 → xs ≡ []
no_length [] h = refl
no_length (x ∷ xs) h = absurd (omega (arith, h))

pub nothing_due :
    (now : ℕ) (fs : List BackupSchedule)
    → (due_schedules (record_all now (due_schedules fs now).0 fs) now).0 ≡ []
nothing_due now fs =
    let gs = record_all now (due_schedules fs now).0 fs in
    no_length (due_schedules gs now).0 (
      (due_schedules_lem gs now (λ s. true)).1.0
      ∙ no_due now gs
          (record_all-IsSpent now (due_schedules fs now).0 fs (IsSpentOrDue-due now fs)))
