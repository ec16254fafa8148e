-- ===== src/GitApps/Webhook/Pushes.antt =====
-- service/git_webhook_receive.go: a push is followed by a check, unless a turn of the app ends with none.
use casa_os_app_management.Prelude.{
  ℕ, ◌+◌, ◌≤◌, ◌<◌, String, ◌≡◌, inl, inr, sym, subst, Bool, true, false, ◌||◌, Option, none, some,
  List, [], ◌∷◌, arith, eq_iff, eq_refl, ◌==◌, ltb, leb, Bool-cases, any, All,
}
use casa_os_app_management.Prelude.Map
use casa_os_app_management.Prelude.Map.{
  Map, get-assign, get-delete, keys, IsMap, IsMap-assign, IsMap-delete, any-keys, count-keys,
}
use casa_os_app_management.GitApps.Webhook.{
  Queue, no_checks, Attempt, began, busy, failed, Reply, held, coalesced, queued, checking,
  is_pending, is_within, start_at, start_check, after_begin, schedule_git_webhook_check, look, Turn,
  given_up, unprepared, prepared, end_turn, Event, delivery, looks, turn_ends, time_passes, step,
  run,
}
use casa_os_app_management.GitApps.Webhook.Invariant.{newest, waiting, Inv, no_checks-Inv}
use casa_os_app_management.GitApps.Webhook.Waits.{found_in, same_without}
use casa_os_app_management.GitApps.Webhook.Spacing.{step-Inv, run-Inv_from}

abbrev pub has_reached : Option ℕ → ℕ → Bool
has_reached none t = false
has_reached (some u) t = leb t u

-- a goroutine waits to check the app, or a check of it started at the time or after it
abbrev pub is_covered : String → ℕ → Queue → Bool
is_covered a t q =
    ltb 0 (waiting a q.window + waiting a q.turns) || has_reached (newest a q.checks) t

-- the answers after which a check is owed or under way
abbrev pub promises_check : Option Reply → Bool
promises_check none = false
promises_check (some held) = false
promises_check (some coalesced) = true
promises_check (some queued) = true
promises_check (some checking) = true

-- a turn of the app that ends with no check, as the wait was given up or the check not prepared
abbrev pub gives_up : String → Event → Bool
gives_up a (delivery upgrade_open attempt b) = false
gives_up a (looks b) = false
gives_up a (turn_ends prepared b) = false
gives_up a (turn_ends unprepared b) = b == a
gives_up a (turn_ends given_up b) = b == a
gives_up a (time_passes n) = false

start_check-is_covered :
    (a b : String) (t : ℕ) (q : Queue)
    → t ≤ q.now
    → is_covered a t q ≡ true
    → is_covered a t (start_check b (start_at b q)) ≡ true
start_check-is_covered a b t q h c = ground (arith, h, c)

schedule-is_covered :
    (upgrade_open : Bool) (attempt : Attempt) (a b : String) (t : ℕ) (q : Queue)
    → t ≤ q.now
    → is_covered a t q ≡ true
    → is_covered a t (schedule_git_webhook_check upgrade_open attempt b q).1 ≡ true
unfolding schedule_git_webhook_check after_begin
schedule-is_covered true attempt a b t q h c = c
schedule-is_covered false attempt a b t q h c = elim (Bool-cases (is_pending b q)) [
  | inl p ↦ rw p c
  | inr free ↦ elim (Bool-cases (is_within (Map.get b q.last) q.now)) [
    | inl w ↦ rw (free, w) (ground (arith, c))
    | inr out ↦ rw (free, out) (go_on attempt)
  ]
]
  where
    go_on : (attempt : Attempt) → is_covered a t (after_begin attempt b q).1 ≡ true
    go_on began = start_check-is_covered a b t q h c
    go_on busy = ground (arith, c)
    go_on failed = c

-- the answer to a delivery is kept
promise-is_covered :
    (upgrade_open : Bool) (attempt : Attempt) (a : String) (q : Queue)
    → Inv a q
    → promises_check (schedule_git_webhook_check upgrade_open attempt a q).0 ≡ true
    → is_covered a q.now (schedule_git_webhook_check upgrade_open attempt a q).1 ≡ true
unfolding schedule_git_webhook_check after_begin
promise-is_covered true attempt a q v h = cc
promise-is_covered false attempt a q v h = elim (Bool-cases (is_pending a q)) [
  | inl p ↦ rw p (ground (arith, v.one_waits, p))
  | inr free ↦ elim (Bool-cases (is_within (Map.get a q.last) q.now)) [
    | inl w ↦ rw (free, w) (rw (eq_refl a) (ground arith))
    | inr out ↦ rw (free, out) (go_on attempt (rw (free, out) at h))
  ]
]
  where
    go_on :
        (attempt : Attempt)
        → promises_check (after_begin attempt a q).0 ≡ true
        → is_covered a q.now (after_begin attempt a q).1 ≡ true
    go_on began h = rw (eq_refl a) (ground arith)
    go_on busy h = rw (eq_refl a) (ground arith)
    go_on failed h = cc

look-is_covered :
    (a b : String) (t : ℕ) (q : Queue)
    → Inv a q
    → any (λ c. c == b) q.window ≡ true
    → is_covered a t q ≡ true
    → is_covered a t (look b q) ≡ true
unfolding look
look-is_covered a b t q v found c = elim (Bool-cases (b == a)) [
  | inl same ↦
      let b_is_a : b ≡ a = (eq_iff b a).0 same in
      let owed : is_pending b q ≡ true =
        subst (λ d. is_pending d q ≡ true) (sym b_is_a)
          (owed_to_one v
            (found_in a q.window (subst (λ d. any (λ e. e == d) q.window ≡ true) b_is_a found))) in
      elim (Bool-cases (is_within (Map.get b q.last) q.now)) [
        | inl w ↦ rw (owed, w) c
        | inr out ↦ rw (owed, out, same) (ground arith)
      ]
  | inr other ↦ elim (Bool-cases (is_pending b q)) [
    | inr free ↦ rw (free, same_without a b q.window other) c
    | inl owed ↦ elim (Bool-cases (is_within (Map.get b q.last) q.now)) [
      | inl w ↦ rw (owed, w) c
      | inr out ↦ rw (owed, out, other, same_without a b q.window other) c
    ]
  ]
]
  where
    owed_to_one : Inv a q → 0 < waiting a q.window → is_pending a q ≡ true
    owed_to_one v h = ground (arith, v.one_waits, h)

end_turn-is_covered :
    (turn : Turn) (a b : String) (t : ℕ) (q : Queue)
    → t ≤ q.now
    → gives_up a (turn_ends turn b) ≡ false
    → is_covered a t q ≡ true
    → is_covered a t (end_turn turn b q) ≡ true
unfolding end_turn
end_turn-is_covered prepared a b t q h g c = elim (Bool-cases (b == a)) [
  | inl same ↦ rw same (ground (arith, h))
  | inr other ↦ rw (other, same_without a b q.turns other) c
]
end_turn-is_covered unprepared a b t q h g c = rw (same_without a b q.turns g) c
end_turn-is_covered given_up a b t q h g c = rw (same_without a b q.turns g) c

-- the clock runs forwards
now-le-step : (e : Event) (q : Queue) → q.now ≤ (step e q).now
unfolding step schedule_git_webhook_check after_begin look end_turn
now-le-step (delivery true attempt b) q = omega arith
now-le-step (delivery false began b) q = ground arith
now-le-step (delivery false busy b) q = ground arith
now-le-step (delivery false failed b) q = ground arith
now-le-step (looks b) q = ground arith
now-le-step (turn_ends prepared b) q = ground arith
now-le-step (turn_ends unprepared b) q = ground arith
now-le-step (turn_ends given_up b) q = ground arith
now-le-step (time_passes n) q = omega arith

step-is_covered :
    (e : Event) (a : String) (t : ℕ) (q : Queue)
    → Inv a q
    → t ≤ q.now
    → gives_up a e ≡ false
    → is_covered a t q ≡ true
    → is_covered a t (step e q) ≡ true
unfolding step
step-is_covered (delivery upgrade_open attempt b) a t q v h g c =
    schedule-is_covered upgrade_open attempt a b t q h c
step-is_covered (looks b) a t q v h g c = elim (Bool-cases (any (λ d. d == b) q.window)) [
  | inr e ↦ rw e c
  | inl e ↦ rw e (look-is_covered a b t q v e c)
]
step-is_covered (turn_ends turn b) a t q v h g c = elim (Bool-cases (any (λ d. d == b) q.turns)) [
  | inr e ↦ rw e c
  | inl e ↦ rw e (end_turn-is_covered turn a b t q h g c)
]
step-is_covered (time_passes n) a t q v h g c = c

run-is_covered :
    (events : List Event) (a : String) (t : ℕ) (q : Queue)
    → Inv a q
    → t ≤ q.now
    → All (λ e. gives_up a e ≡ false) events
    → is_covered a t q ≡ true
    → is_covered a t (run events q) ≡ true
unfolding run
run-is_covered [] a t q v h g c = c
run-is_covered (e ∷ events) a t q v h (g, gs) c =
    run-is_covered events a t (step e q) (step-Inv e a q v) (omega (arith, h, now-le-step e q)) gs
      (step-is_covered e a t q v h g c)

-- After any deliveries, if one more for an app is answered with checking, coalesced or queued, then
-- whatever follows, unless a turn of that app ends with no check, as its wait is given up or its check
-- cannot be prepared, a goroutine waits to check the app, or a check of it has started at the time of
-- that delivery or after it.
pub push_is_seen :
    (earlier later : List Event) (start : ℕ) (upgrade_open : Bool) (attempt : Attempt) (a : String)
    → let q = run earlier (no_checks start) in
      promises_check (schedule_git_webhook_check upgrade_open attempt a q).0 ≡ true
      → All (λ e. gives_up a e ≡ false) later
      → is_covered a q.now (run later (step (delivery upgrade_open attempt a) q)) ≡ true
push_is_seen earlier later start upgrade_open attempt a promised kept =
    let q = run earlier (no_checks start) in
    let v = run-Inv_from earlier a (no_checks start) (no_checks-Inv a start) in
    let e = delivery upgrade_open attempt a in
    run-is_covered later a q.now (step e q) (step-Inv e a q v) (now-le-step e q) kept
      (unfold step in promise-is_covered upgrade_open attempt a q v promised)
