-- ===== src/GitApps/Webhook.antt =====
-- service/git_webhook_receive.go: the checks that a forge's deliveries ask for.
--
-- What is under the lock `gitWebhooks` is one step on the queue, with the goroutines that wait in it: a
-- name stands in `window` for one in `waitForGitWebhookWindow` and in `turns` for one in `beginWaiting`.
-- Whether an upgrade is open, whether the app is free and how a wait for it ends are what a step is
-- told. `starts` is every write to `last` and `checks` every start of `runGitCheck`, the newest first: a
-- turn that takes the app writes `last` before `prepareGitCheck`, which may fail. What follows the lock in
-- one go is part of its step. A time is a number of nanoseconds.
pub mod Invariant
pub mod Deliveries
pub mod Waits
pub mod Spacing
pub mod Pushes
mod Examples
use casa_os_app_management.Prelude.{
  ℕ, zero, suc, ◌+◌, ◌-◌, ◌*◌, ◌/◌, ◌%◌, ◌^◌, ◌≤◌, ◌<◌, String, ◌≡◌, ◌≢◌, ◌↔◌, ◌⊎◌, inl, inr, refl,
  sym, ap, subst, ◌∙◌, Bool, true, false, not, ◌&&◌, ◌||◌, Option, none, some, List, [], ◌∷◌, ◌++◌,
  map, reverse, arith, eq_iff, eq_refl, ◌==◌, ltb, leb, ◌=ℕ◌, if◌then◌else◌, leb→le, ltb→lt,
  Bool-cases, Option-cases, length, take, drop, length-append, length-take, length-drop,
  take-append-drop, count, any, keep, count-append, count-le-length, any-pos, any-append,
  any-reverse, any_none, get_elem?, set, count-set, count-pos, drop-set, length-set, drop-append,
  drop_step, get_elem?-drop, get_elem?_in, get_elem?-append, get_elem?_lt, Sub, nil, Sub-snoc,
  Sub-tail, Sub-delete, snoc-ne-nil, All, All-append, All-map, All-zip, ◌<>◌, starts_with, clean,
  clean-not_empty, join_path, base, dir, show, show_inj, str_le, codes, str_le_total, str_le_trans,
  str_le_antisym, insert, insertion_sort, IsSorted, insertion_sort-IsSorted, count-insertion_sort,
  length-insertion_sort, sum_by-insertion_sort, any-insertion_sort, All-insertion_sort, sum_by,
  sum_by-append, sum_by-keep, count-keep, All-keep, All-keep_of, All-tail_of_append,
  All-head_of_append,
}
use casa_os_app_management.Prelude.Map
use casa_os_app_management.Prelude.Map.{
  Map, get-assign, get-delete, keys, IsMap, IsMap-assign, IsMap-delete, any-keys, count-keys,
}

-- `gitWebhookDebounce`
abbrev pub git_webhook_debounce : ℕ
git_webhook_debounce = 10000000000

-- `gitWebhookRuns` with the clock and the goroutines
pub record Queue : Type 0 where
  pub now : ℕ
  pub pending : Map Bool
  pub last : Map ℕ
  pub window : List String
  pub turns : List String
  pub starts : List (String × ℕ)
  pub checks : List (String × ℕ)

abbrev pub no_checks : ℕ → Queue
no_checks now = record {
  now = now;
  pending = [];
  last = [];
  window = [];
  turns = [];
  starts = [];
  checks = [];
}

-- how `beginGitCheck` ends
pub data Attempt : Type 0 where
  began busy failed : Attempt

-- the answers of the delivery: `GitWebhookHeld` and the others
pub data Reply : Type 0 where
  held coalesced queued checking : Reply

abbrev pub is_set : Option Bool → Bool
is_set none = false
is_set (some b) = b

-- `gitWebhookRuns.pending[app]`
unfoldable pub is_pending : String → Queue → Bool
is_pending app q = is_set (Map.get app q.pending)

-- `time.Since(last) < gitWebhookDebounce`; an app that is not in the map was never checked
abbrev pub is_within : Option ℕ → ℕ → Bool
is_within none now = false
is_within (some last) now = ltb now (last + git_webhook_debounce)

-- `gitWebhookRuns.last[app] = time.Now()`
abbrev pub start_at : String → Queue → Queue
start_at app q = record q { last = Map.assign app q.now q.last; starts = (app, q.now) ∷ q.starts }

-- `runGitCheck` starts
abbrev pub start_check : String → Queue → Queue
start_check app q = record q { checks = (app, q.now) ∷ q.checks }

-- what follows `beginGitCheck`; `none` is its error
unfoldable pub after_begin : Attempt → String → Queue → Option Reply × Queue
after_begin began app q = (some checking, start_check app (start_at app q))
after_begin busy app q =
    (some queued, record q { pending = Map.assign app true q.pending; turns = app ∷ q.turns })
after_begin failed app q = (none, q)

-- `scheduleGitWebhookCheck`
unfoldable pub schedule_git_webhook_check : Bool → Attempt → String → Queue → Option Reply × Queue
unfolding is_pending after_begin
schedule_git_webhook_check upgrade_open attempt app q =
    if upgrade_open
    then (some held, q)
    else if is_pending app q
    then (some coalesced, q)
    else if is_within (Map.get app q.last) q.now
    then (
      some coalesced,
      record q { pending = Map.assign app true q.pending; window = app ∷ q.window },
    )
    else after_begin attempt app q

-- one goroutine of an app ends its wait
unfoldable pub without_one : String → List String → List String
without_one app [] = []
without_one app (a ∷ names) =
    let rest = without_one app names in if a == app then names else a ∷ rest

-- one round of `waitForGitWebhookWindow`
unfoldable pub look : String → Queue → Queue
unfolding is_pending without_one
look app q =
    if not (is_pending app q)
    then record q { window = without_one app q.window }
    else if is_within (Map.get app q.last) q.now
    then q
    else record q { window = without_one app q.window; turns = app ∷ q.turns }

-- how a turn ends: `beginWaiting` gives up, `prepareGitCheck` has an error, or the check starts
pub data Turn : Type 0 where
  given_up unprepared prepared : Turn

abbrev pub got_app : Turn → Bool
got_app given_up = false
got_app unprepared = true
got_app prepared = true

-- `runQueuedGitWebhookCheck` after the lock
abbrev pub prepare : Turn → String → Queue → Queue
prepare given_up app q = q
prepare unprepared app q = q
prepare prepared app q = start_check app q

-- `runQueuedGitWebhookCheck` from where `beginWaiting` ends
unfoldable pub end_turn : Turn → String → Queue → Queue
unfolding without_one
end_turn turn app q =
    let q' = record q { pending = Map.delete app q.pending; turns = without_one app q.turns } in
    prepare turn app (if got_app turn then start_at app q' else q')

pub data Event : Type 0 where
  delivery : Bool → Attempt → String → Event
  looks : String → Event
  turn_ends : Turn → String → Event
  time_passes : ℕ → Event

-- A goroutine does something only where there is one.
unfoldable pub step : Event → Queue → Queue
unfolding schedule_git_webhook_check look end_turn
step (delivery upgrade_open attempt app) q =
    (schedule_git_webhook_check upgrade_open attempt app q).1
step (looks app) q = if any (λ a. a == app) q.window then look app q else q
step (turn_ends turn app) q = if any (λ a. a == app) q.turns then end_turn turn app q else q
step (time_passes n) q = record q { now = q.now + n }

unfoldable pub run : List Event → Queue → Queue
unfolding step
run [] q = q
run (e ∷ events) q = run events (step e q)
