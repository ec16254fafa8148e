-- ===== src/GitApps/Receive.antt =====
-- service/git_webhook_receive.go and git_webhook.go: a forge's delivery, and the webhook of an app.
--
-- The files of the webhooks, those of the apps and the queue of checks make up a site. A delivery meets
-- two of them: `before` while it comes in, and `locked` under the lock, since a webhook may be turned off
-- meanwhile. `normalize` is the loader's NormalizeProjectName, `hmac` HMAC-SHA256, and a secret that is
-- made is what the random bytes give. The body is the bytes that a reader gets, or none if reading fails.
pub mod Laws
mod Examples
use casa_os_app_management.Prelude.{
  ℕ, zero, suc, ◌+◌, ◌-◌, ◌*◌, ◌/◌, ◌%◌, ◌^◌, ◌≤◌, ◌<◌, String, ◌≡◌, ◌≢◌, ◌↔◌, ◌⊎◌, inl, inr, refl,
  sym, ap, subst, ◌∙◌, Bool, true, false, not, ◌&&◌, ◌||◌, Option, none, some, List, [], ◌∷◌, ◌++◌,
  map, reverse, arith, eq_iff, eq_refl, ◌==◌, ltb, leb, ◌=ℕ◌, if◌then◌else◌, leb→le, ltb→lt,
  Bool-cases, Option-cases, length, take, drop, length-append, length-take, length-drop,
  take-append-drop, count, any, keep, count-append, count-le-length, any-pos, any-append,
  any-reverse, any_none, get_elem?, set, count-set, count-pos, drop-set, length-set, drop-append,
  drop_step, get_elem?-drop, get_elem?_in, get_elem?-append, get_elem?_lt, Sub, nil, Sub-snoc,
  Sub-tail, Sub-delete, snoc-ne-nil, All, All-append, All-map, All-zip, ◌<>◌, starts_with, clean,
  clean-not_empty, join_path, base, dir, show, show_inj, str_le, codes, str_le_total, str_le_trans,
  str_le_antisym, insert, insertion_sort, IsSorted, insertion_sort-IsSorted, count-insertion_sort,
  length-insertion_sort, sum_by-insertion_sort, any-insertion_sort, All-insertion_sort, sum_by,
  sum_by-append, sum_by-keep, count-keep, All-keep, All-keep_of, All-tail_of_append,
  All-head_of_append,
}
use casa_os_app_management.Prelude.Map
use casa_os_app_management.Prelude.Map.{
  Map, get-assign, get-delete, keys, IsMap, IsMap-assign, IsMap-delete, any-keys, count-keys,
}
use casa_os_app_management.GitApps.Signature.{
  Forge, Action, check, pong, ignored, Header, git_webhook_signed, git_webhook_event,
}
use casa_os_app_management.GitApps.Webhook.{
  Queue, Attempt, Reply, checking, schedule_git_webhook_check,
}

-- the refusals, and the errors that are passed on
pub data Refusal : Type 0 where
  git_webhook_not_found git_webhook_signature git_webhook_too_large : Refusal
  unread_body unread_webhook check_not_started not_written : Refusal

pub data Result {ℓ} (A : Type ℓ) : Type ℓ where
  ok : A → Result A
  err : Refusal → Result A

-- the answer that the forge is given
pub data Told : Type 0 where
  told_pong told_ignored : Told
  told_check : Reply → Told

-- `GitWebhookDelivery`; its result is the answer, with "checked" for "checking"
pub record GitWebhookDelivery : Type 0 where
  pub at : ℕ
  pub forge : Forge
  pub event : List ℕ
  pub result : Told

-- `gitWebhook`
pub record GitWebhook : Type 0 where
  pub secret : List ℕ
  pub last_delivery : Option GitWebhookDelivery

-- a webhook's file that is there: one that can be read, or not
abbrev pub WebhookFile : Type 0
WebhookFile = Option GitWebhook

pub record Site : Type 0 where
  pub webhooks : Map WebhookFile
  -- the apps that have a state file
  pub apps : List String
  pub queue : Queue

-- `gitWebhookMaxBody`
abbrev pub git_webhook_max_body : ℕ
git_webhook_max_body = 5242880

-- `pathExists(gitAppFile(app, ".json"))`
abbrev pub has_state : String → Site → Bool
has_state app s = any (λ a. a == app) s.apps

abbrev pub has_webhook : String → Site → Bool
has_webhook app s = elim (Map.get app s.webhooks) [ none ↦ false | some file ↦ true ]

-- `loadGitWebhook`: nothing while it is off
abbrev pub loaded : Option WebhookFile → Result (Option GitWebhook)
loaded none = ok none
loaded (some none) = err unread_webhook
loaded (some (some hook)) = ok (some hook)

-- what is read of the body, with the byte that shows that it is too long
abbrev pub read_body : Option (List ℕ) → Result (List ℕ)
read_body none = err unread_body
read_body (some body) =
    let payload = take (git_webhook_max_body + 1) body in
    if ltb git_webhook_max_body (length payload) then err git_webhook_too_large else ok payload

abbrev pub told_reply : Option Reply → Option Told
told_reply none = none
told_reply (some r) = some (told_check r)

-- what the action of a delivery comes to, and the queue after it
unfoldable pub act : Action → Bool → Attempt → String → Queue → Option Told × Queue
act pong upgrade_open attempt app q = (some told_pong, q)
act ignored upgrade_open attempt app q = (some told_ignored, q)
act check upgrade_open attempt app q =
    let (reply, q') = schedule_git_webhook_check upgrade_open attempt app q in
    (told_reply reply, q')

-- `saveGitWebhook`, which may fail
abbrev pub save_git_webhook : Bool → String → GitWebhook → Site → Site
save_git_webhook written app hook s =
    if written then record s { webhooks = Map.assign app (some hook) s.webhooks } else s

-- the end of `ReceiveGitWebhook`: the answer, and the delivery that is noted
abbrev pub note :
    Bool → String → GitWebhook → Forge → List ℕ → Option Told × Queue → Site → Result Told × Site
note written app hook forge event (none, q) s = (err check_not_started, record s { queue = q })
note written app hook forge event (some told, q) s = (
  ok told,
  save_git_webhook written app
      (record hook {
        last_delivery = some (record { at = q.now; forge = forge; event = event; result = told });
      })
      (record s { queue = q }),
)

module _ (hmac : List ℕ → List ℕ → List ℕ) (written upgrade_open : Bool) (attempt : Attempt) where
  -- what is done under the lock with the webhook that was loaded
  unfoldable pub answer :
      String → Header → List ℕ → Result (Option GitWebhook) → Site → Result Told × Site
  unfolding act
  answer app header payload (err e) s = (err e, s)
  answer app header payload (ok none) s = (err git_webhook_not_found, s)
  answer app header payload (ok (some hook)) s =
      let (forge, event, action) = git_webhook_event header in
      if not (has_state app s)
      then (err git_webhook_not_found, s)
      else if not (git_webhook_signed hmac header payload hook.secret)
      then (err git_webhook_signature, s)
      else note written app hook forge event (act action upgrade_open attempt app s.queue) s

  abbrev pub answer_body : String → Header → Result (List ℕ) → Site → Result Told × Site
  answer_body app header (err e) s = (err e, s)
  answer_body app header (ok payload) s =
      answer app header payload (loaded (Map.get app s.webhooks)) s

  module _ (normalize : String → String) where
    -- `ReceiveGitWebhook`
    unfoldable pub receive_git_webhook :
        String → Header → Option (List ℕ) → Site → Site → Result Told × Site
    unfolding answer
    receive_git_webhook app header body before locked =
        if app == "" || not (app == normalize app)
        then (err git_webhook_not_found, locked)
        else if not (has_webhook app before) || not (has_state app before)
        then (err git_webhook_not_found, locked)
        else answer_body app header (read_body body) locked

-- `setGitWebhook`, with `enabled` none where it is left as it is
module _ (normalize : String → String) (written removable : Bool) (secret : List ℕ) where
  abbrev pub renewed :
      Bool → Option Bool → String → Option GitWebhook → Site → Option Refusal × Site
  renewed regenerate none app none s = (none, s)
  renewed regenerate (some on) app none s =
      if written
      then (none, save_git_webhook true app (record { secret = secret; last_delivery = none }) s)
      else (some not_written, s)
  renewed regenerate enabled app (some hook) s =
      if not regenerate
      then (none, s)
      else if written
      then (none, save_git_webhook true app (record hook { secret = secret }) s)
      else (some not_written, s)

  abbrev pub or_off : Result (Option GitWebhook) → Option GitWebhook
  or_off (ok hook) = hook
  or_off (err e) = none

  abbrev pub turned_off : Option Bool → Bool
  turned_off none = false
  turned_off (some on) = not on

  unfoldable pub set_git_webhook : String → Option Bool → Bool → Site → Option Refusal × Site
  set_git_webhook app enabled regenerate s =
      if app == "" || not (app == normalize app)
      then (some git_webhook_not_found, s)
      else if turned_off enabled
      then (if not removable && has_webhook app s
          then (some not_written, s)
          else (none, record s { webhooks = Map.delete app s.webhooks }))
      else renewed regenerate enabled app (or_off (loaded (Map.get app s.webhooks))) s
