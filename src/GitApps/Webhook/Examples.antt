-- ===== src/GitApps/Webhook/Examples.antt =====
-- Two pushes to one app, the second within the window of the first.
use casa_os_app_management.Prelude.{◌+◌, ◌≡◌, refl, true, false, List, [], ◌∷◌, if◌then◌else◌}
use casa_os_app_management.Prelude.Map
use casa_os_app_management.Prelude.Map.{
  Map, get-assign, get-delete, keys, IsMap, IsMap-assign, IsMap-delete, any-keys, count-keys,
}
use casa_os_app_management.GitApps.Webhook.{
  no_checks, began, busy, is_pending, Event, delivery, looks, turn_ends, given_up, unprepared,
  prepared, time_passes, step, run, git_webhook_debounce,
}
use casa_os_app_management.GitApps.Webhook.Invariant.{is_spaced, waiting}
use casa_os_app_management.GitApps.Webhook.Spacing.{run-spaced}
use casa_os_app_management.GitApps.Webhook.Pushes.{is_covered, push_is_seen}

-- a check starts; a second push joins the check that waits for the window; the window closes; its turn
abbrev pushes : List Event
pushes =
    delivery false began "a"
    ∷ time_passes 1000
    ∷ delivery false began "a"
    ∷ looks "a"
    ∷ time_passes git_webhook_debounce
    ∷ looks "a"
    ∷ delivery false busy "a"
    ∷ turn_ends prepared "a"
    ∷ []

pushes_run :
    (run pushes (no_checks 5)).starts ≡ ("a", 5 + 1000 + git_webhook_debounce) ∷ ("a", 5) ∷ []
unfolding run Map.get Map.assign
pushes_run = refl

-- a check that cannot be prepared does not start, and uses up the window all the same
abbrev unprepared_turn : List Event
unprepared_turn = delivery false busy "a" ∷ turn_ends unprepared "a" ∷ []

unprepared_run :
    let q = run unprepared_turn (no_checks 5) in
    (q.starts ≡ ("a", 5) ∷ []) × (q.checks ≡ []) × (is_pending "a" q ≡ false)
unfolding run Map.get Map.assign Map.delete
unprepared_run = (refl, refl, refl)

run-spaced_example :
    let q = run pushes (no_checks 5) in
    (waiting "a" q.window + waiting "a" q.turns ≡ (if is_pending "a" q then 1 else 0))
    × (is_spaced "a" q.starts ≡ true)
run-spaced_example = run-spaced pushes "a" 5

abbrev first_push : List Event
first_push = delivery false began "a" ∷ time_passes 1000 ∷ []

abbrev afterwards : List Event
afterwards =
    time_passes git_webhook_debounce
    ∷ looks "a"
    ∷ turn_ends given_up "b"
    ∷ turn_ends prepared "a"
    ∷ []

push_is_seen_example :
    is_covered "a"
      (run first_push (no_checks 5)).now
      (run afterwards (step (delivery false began "a") (run first_push (no_checks 5))))
    ≡ true
unfolding run Map.get Map.assign
push_is_seen_example =
    push_is_seen first_push afterwards 5 false began "a" refl (refl, (refl, (refl, (refl, tt))))
