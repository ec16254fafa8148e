-- ===== src/AppOperations/World/Reach.antt =====
-- service/app_operations.go: what holds after any calls.
use casa_os_app_management.Prelude.{
  String, ◌≡◌, refl, Bool, true, false, some, List, [], ◌∷◌, arith, count, get_elem?, ◌=ℕ◌, subst,
  Option-cases, inl, inr,
}
use casa_os_app_management.AppOperations.{
  Claim, granted, refused, begin, mark_in_progress, held, hand_over,
}
use casa_os_app_management.AppOperations.World.{
  World, start, Call, claim, release, mark, unmark, rename, keep_hold, call_end, call_done, step,
  run, holds_app, Inv, start-Inv,
}
use casa_os_app_management.AppOperations.World.Holds.{claim-Inv, release-Inv, rename-Inv}
use casa_os_app_management.AppOperations.World.Marks.{mark-Inv, unmark-Inv}

pub step-Inv : (c : Call) (w : World) → Inv w → (w' : World) × (step c w ≡ some w') × Inv w'
unfolding step
step-Inv (claim app kind) w v =
    (keep_hold w (begin app kind w.registry), refl, claim-Inv app kind w v)
step-Inv (release i) w v = elim (Option-cases (get_elem? w.holds i)) [
  | inl e ↦ rw (e, call_end) (w, refl, v)
  | inr e ↦ rw (e.1, call_end) (call_end w i (some e.0), refl, release-Inv w i e.0 e.1 v)
]
step-Inv (mark app kind) w v =
    let r = mark_in_progress app kind w.registry in
    (record w { registry = r.1; marks = r.0 ∷ w.marks }, refl, mark-Inv app kind w v)
step-Inv (unmark i) w v = elim (Option-cases (get_elem? w.marks i)) [
  | inl e ↦ rw (e, call_done) (w, refl, v)
  | inr e ↦ rw (e.1, call_done) (unmark-Inv w i e.0 e.1 v)
]
step-Inv (rename app kind) w v =
    (record w { registry = hand_over app kind w.registry }, refl, rename-Inv app kind w v)

pub run_from-Inv :
    (calls : List Call) (w : World) → Inv w → (w' : World) × (run calls w ≡ some w') × Inv w'
unfolding run
run_from-Inv [] w v = (w, refl, v)
run_from-Inv (c ∷ cs) w v = let (w₁, e, v₁) = step-Inv c w v in rw (e, run) (run_from-Inv cs w₁ v₁)

-- From the empty registry, any calls of `Begin`, `markInProgress`, `handOver` and of the closures
-- that these returned, in any order and each any number of times, run without a panic. In the state
-- that they reach an app is held exactly while one hold given for it is not yet ended, each kind is
-- marked on an app as often as marks of it are not yet done, and no app has an empty list of marks.
pub run-Inv : (calls : List Call) → (w : World) × (run calls start ≡ some w) × Inv w
run-Inv calls = run_from-Inv calls start start-Inv

abbrev pub is_granted : Claim → Bool
is_granted (granted h) = true
is_granted (refused e) = false

-- In every state that calls reach, `Begin` grants an app exactly when every hold that it granted on
-- that app before has been ended, and a refusal leaves the registry as it is.
pub begin_exclusive :
    (calls : List Call) (w : World) (app kind : String)
    → run calls start ≡ some w
    → let (answer, r) = begin app kind w.registry in
      (is_granted answer ≡ (count (holds_app app) w.holds =ℕ 0))
      × (is_granted answer ≡ false → r ≡ w.registry)
unfolding begin held
begin_exclusive calls w app kind e =
    let (w', e', v) = run-Inv calls in
    let same : w' ≡ w = ground (arith, e, e') in
    let one = (subst Inv same v).one_hold app in (ground arith, ground arith)
