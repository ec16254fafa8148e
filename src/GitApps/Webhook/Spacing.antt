-- ===== src/GitApps/Webhook/Spacing.antt =====
-- service/git_webhook_receive.go: one check waits at most, and two turns are a debounce apart.
use casa_os_app_management.Prelude.{
  ℕ, ◌+◌, String, ◌≡◌, inl, inr, sym, subst, true, false, List, [], ◌∷◌, eq_iff, ◌==◌,
  if◌then◌else◌, Bool-cases, any,
}
use casa_os_app_management.GitApps.Webhook.{
  Queue, no_checks, is_pending, schedule_git_webhook_check, look, end_turn, Event, delivery, looks,
  turn_ends, time_passes, step, run,
}
use casa_os_app_management.GitApps.Webhook.Invariant.{
  is_spaced, waiting, Inv, no_checks-Inv, time_passes-Inv,
}
use casa_os_app_management.GitApps.Webhook.Deliveries.{schedule_own, schedule_other}
use casa_os_app_management.GitApps.Webhook.Waits.{
  look_own, look_other, end_turn_own, end_turn_other,
}

-- what is shown of an app itself and of every other one holds of all
for_every_app {ℓ} : (P : String → Type ℓ) (a b : String) → P a → ((b == a) ≡ false → P b) → P b
for_every_app P a b own other = elim (Bool-cases (b == a)) [
  | inl e ↦ subst P (sym ((eq_iff b a).0 e)) own
  | inr e ↦ other e
]

pub step-Inv : (e : Event) (a : String) (q : Queue) → Inv a q → Inv a (step e q)
unfolding step
step-Inv (delivery upgrade_open attempt b) a q v =
    for_every_app (λ c. Inv a (schedule_git_webhook_check upgrade_open attempt c q).1) a b
      (schedule_own upgrade_open attempt a q v) (schedule_other upgrade_open attempt a b q v)
step-Inv (looks b) a q v = elim (Bool-cases (any (λ c. c == b) q.window)) [
  | inr e ↦ rw e v
  | inl e ↦ rw e (elim (Bool-cases (b == a)) [
    | inr other ↦ look_other a b q v other
    | inl same ↦
        let b_is_a : b ≡ a = (eq_iff b a).0 same in
        subst (λ c. Inv a (look c q)) (sym b_is_a)
          (look_own a q v (subst (λ c. any (λ d. d == c) q.window ≡ true) b_is_a e))
  ])
]
step-Inv (turn_ends turn b) a q v = elim (Bool-cases (any (λ c. c == b) q.turns)) [
  | inr e ↦ rw e v
  | inl e ↦ rw e (elim (Bool-cases (b == a)) [
    | inr other ↦ end_turn_other turn a b q v other
    | inl same ↦
        let b_is_a : b ≡ a = (eq_iff b a).0 same in
        subst (λ c. Inv a (end_turn turn c q)) (sym b_is_a)
          (end_turn_own turn a q v (subst (λ c. any (λ d. d == c) q.turns ≡ true) b_is_a e))
  ])
]
step-Inv (time_passes n) a q v = time_passes-Inv a n q v

pub run-Inv_from : (events : List Event) (a : String) (q : Queue) → Inv a q → Inv a (run events q)
unfolding run
run-Inv_from [] a q v = v
run-Inv_from (e ∷ events) a q v = run-Inv_from events a (step e q) (step-Inv e a q v)

-- From no checks, whatever is delivered, waited for and given up, for every app: as many goroutines wait
-- as the app is pending, one or none, and the times that `last` is set to for it, at which webhooks take
-- the app to check it, are each at least the debounce after the one before.
pub run-spaced :
    (events : List Event) (a : String) (now : ℕ)
    → let q = run events (no_checks now) in
      (waiting a q.window + waiting a q.turns ≡ (if is_pending a q then 1 else 0))
      × (is_spaced a q.starts ≡ true)
run-spaced events a now =
    let v = run-Inv_from events a (no_checks now) (no_checks-Inv a now) in (v.one_waits, v.spaced)
