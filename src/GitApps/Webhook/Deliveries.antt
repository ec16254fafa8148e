-- ===== src/GitApps/Webhook/Deliveries.antt =====
-- service/git_webhook_receive.go: `scheduleGitWebhookCheck` keeps the invariant of the queue.
use casa_os_app_management.Prelude.{
  String, ◌≡◌, inl, inr, refl, Bool, true, false, arith, eq_refl, ◌==◌, Bool-cases,
}
use casa_os_app_management.Prelude.Map
use casa_os_app_management.Prelude.Map.{
  Map, get-assign, get-delete, keys, IsMap, IsMap-assign, IsMap-delete, any-keys, count-keys,
}
use casa_os_app_management.GitApps.Webhook.{
  Queue, Attempt, began, busy, failed, is_pending, is_within, start_at, after_begin,
  schedule_git_webhook_check,
}
use casa_os_app_management.GitApps.Webhook.Invariant.{
  waiting, Inv, start_at-Inv, start_other-Inv, start_check-Inv, queue_in-Inv, queue_in_other-Inv,
}

pub none_waits :
    (a : String) (q : Queue)
    → Inv a q
    → is_pending a q ≡ false
    → (waiting a q.window ≡ 0) × (waiting a q.turns ≡ 0)
none_waits a q v free = ground (arith, v.one_waits, free)

-- a delivery for the app itself, by the ways it comes out
pub schedule_own :
    (upgrade_open : Bool) (attempt : Attempt) (a : String) (q : Queue)
    → Inv a q
    → Inv a (schedule_git_webhook_check upgrade_open attempt a q).1
unfolding schedule_git_webhook_check after_begin
schedule_own true attempt a q v = v
schedule_own false attempt a q v = elim (Bool-cases (is_pending a q)) [
  | inl p ↦ rw p v
  | inr free ↦ elim (Bool-cases (is_within (Map.get a q.last) q.now)) [
    | inl w ↦ rw (free, w) (queue_in-Inv true a q v free refl)
    | inr out ↦ rw (free, out) (go_on attempt free out)
  ]
]
  where
    go_on :
        (attempt : Attempt)
        → is_pending a q ≡ false
        → is_within (Map.get a q.last) q.now ≡ false
        → Inv a (after_begin attempt a q).1
    go_on began free out =
        start_check-Inv a a (start_at a q)
          (start_at-Inv a a q v (eq_refl a) out (none_waits a q v free).1)
    go_on busy free out = queue_in-Inv false a q v free out
    go_on failed free out = v

pub schedule_other :
    (upgrade_open : Bool) (attempt : Attempt) (a b : String) (q : Queue)
    → Inv a q
    → (b == a) ≡ false
    → Inv a (schedule_git_webhook_check upgrade_open attempt b q).1
unfolding schedule_git_webhook_check after_begin
schedule_other true attempt a b q v other = v
schedule_other false attempt a b q v other = elim (Bool-cases (is_pending b q)) [
  | inl p ↦ rw p v
  | inr free ↦ elim (Bool-cases (is_within (Map.get b q.last) q.now)) [
    | inl w ↦ rw (free, w) (queue_in_other-Inv true a b q v other)
    | inr out ↦ rw (free, out) (go_on attempt)
  ]
]
  where
    go_on : (attempt : Attempt) → Inv a (after_begin attempt b q).1
    go_on began = start_check-Inv a b (start_at b q) (start_other-Inv a b q v other)
    go_on busy = queue_in_other-Inv false a b q v other
    go_on failed = v
