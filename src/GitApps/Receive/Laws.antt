-- ===== src/GitApps/Receive/Laws.antt =====
-- service/git_webhook_receive.go: a delivery that is refused changes nothing, and one that is answered
-- was signed.
use casa_os_app_management.Prelude.{
  ℕ, zero, suc, ◌+◌, ◌≤◌, String, ◌≡◌, ◌≢◌, inl, inr, refl, sym, ap, subst, ◌∙◌, Bool, true, false,
  not, ◌||◌, Option, none, some, List, [], ◌∷◌, arith, ◌==◌, ltb, Bool-cases, Option-cases, length,
  take,
}
use casa_os_app_management.Prelude.Map
use casa_os_app_management.Prelude.Map.{
  Map, get-assign, get-delete, keys, IsMap, IsMap-assign, IsMap-delete, any-keys, count-keys,
}
use casa_os_app_management.GitApps.Signature.{
  Forge, Action, check, pong, ignored, Header, git_webhook_signed, git_webhook_event,
}
use casa_os_app_management.GitApps.Webhook.{
  Queue, Attempt, began, busy, failed, Reply, is_pending, is_within, after_begin,
  schedule_git_webhook_check,
}
use casa_os_app_management.GitApps.Receive.{
  Refusal, Result, ok, err, Told, GitWebhook, WebhookFile, Site, git_webhook_max_body, has_state,
  has_webhook, loaded, read_body, act, told_reply, save_git_webhook, note, answer, answer_body,
  receive_git_webhook,
}

-- What is left of a site by a delivery: after a refusal all of it, and after an answer all other apps'
-- webhooks. An answer is for a registered app, whose webhook was on and whose secret signed the body,
-- of at most 5 MiB.
abbrev pub IsProper :
    (List ℕ → List ℕ → List ℕ)
    → String
    → Header
    → Option (List ℕ)
    → Site
    → Result Told × Site
    → Type 0
IsProper hmac app header body s (err e, s') = s' ≡ s
IsProper hmac app header body s (ok told, s') =
    (hook : GitWebhook) × (payload : List ℕ) × (body ≡ some payload)
    × (length payload ≤ git_webhook_max_body)
    × (Map.get app s.webhooks ≡ some (some hook))
    × (git_webhook_signed hmac header payload hook.secret ≡ true)
    × (has_state app s ≡ true)
    × ((j : String) → (app == j) ≡ false → Map.get j s'.webhooks ≡ Map.get j s.webhooks)

-- a check that does not start leaves the queue
schedule-none :
    (upgrade_open : Bool) (attempt : Attempt) (app : String) (q : Queue)
    → (schedule_git_webhook_check upgrade_open attempt app q).0 ≡ none
    → (schedule_git_webhook_check upgrade_open attempt app q).1 ≡ q
unfolding schedule_git_webhook_check after_begin
schedule-none true attempt app q h = cc
schedule-none false attempt app q h = elim (Bool-cases (is_pending app q)) [
  | inl p ↦ absurd (answered (rw p at h))
  | inr free ↦ elim (Bool-cases (is_within (Map.get app q.last) q.now)) [
    | inl w ↦ absurd (answered (rw (free, w) at h))
    | inr out ↦ rw (free, out) (go_on attempt (rw (free, out) at h))
  ]
]
  where
    answered : {r : Reply} → some r ≢ none
    answered h = cc

    go_on :
        (attempt : Attempt)
        → (after_begin attempt app q).0 ≡ none
        → (after_begin attempt app q).1 ≡ q
    go_on failed h = refl
    go_on began h = cc
    go_on busy h = cc

saved_others :
    (written : Bool) (app j : String) (hook : GitWebhook) (s : Site)
    → (app == j) ≡ false
    → Map.get j (save_git_webhook written app hook s).webhooks ≡ Map.get j s.webhooks
saved_others true app j hook s other = Map.get-assign app j (some hook) s.webhooks ∙ rw other refl
saved_others false app j hook s other = refl

note-IsProper :
    (hmac : List ℕ → List ℕ → List ℕ) (app : String) (header : Header) (payload : List ℕ) (s : Site)
    (hook : GitWebhook) (written : Bool) (forge : Forge) (event : List ℕ) (told : Option Told)
    (q : Queue)
    → (told ≡ none → q ≡ s.queue)
    → length payload ≤ git_webhook_max_body
    → Map.get app s.webhooks ≡ some (some hook)
    → git_webhook_signed hmac header payload hook.secret ≡ true
    → has_state app s ≡ true
    → IsProper hmac app header (some payload) s (note written app hook forge event (told, q) s)
note-IsProper hmac app header payload s hook written forge event none q same short at signed has =
    ap (λ k. record s { queue = k }) (same refl)
note-IsProper hmac app header payload s hook written forge event (some told) q same short at signed
      has =
    (
      hook,
      payload,
      refl,
      short,
      at,
      signed,
      has,
      λ j other. saved_others written app j _ (record s { queue = q }) other,
    )

some_told : (r : Reply) → told_reply (some r) ≢ none
some_told r h = cc

act-none :
    (action : Action) (upgrade_open : Bool) (attempt : Attempt) (app : String) (q : Queue)
    → (act action upgrade_open attempt app q).0 ≡ none
    → (act action upgrade_open attempt app q).1 ≡ q
unfolding act
act-none pong upgrade_open attempt app q h = cc
act-none ignored upgrade_open attempt app q h = cc
act-none check upgrade_open attempt app q h =
    elim (Option-cases (schedule_git_webhook_check upgrade_open attempt app q).0) [
      | inl e ↦ schedule-none upgrade_open attempt app q e
      | inr (r, e) ↦ absurd (some_told r (ap told_reply (sym e) ∙ h))
    ]

at_most : (n m : ℕ) → ltb n m ≡ false → m ≤ n
at_most n m h = ground arith

take_short : (n : ℕ) (xs : List ℕ) → length (take (suc n) xs) ≤ n → take (suc n) xs ≡ xs
take_short n [] h = refl
take_short zero (x ∷ xs) h = absurd (omega (arith, h))
take_short (suc n) (x ∷ xs) h = ap (◌∷◌ x) (take_short n xs (omega (arith, h)))

-- a payload that is not too long is the whole body
read_body-ok :
    (body : Option (List ℕ)) (payload : List ℕ)
    → read_body body ≡ ok payload
    → (body ≡ some payload) × (length payload ≤ git_webhook_max_body)
read_body-ok none payload h = cc
read_body-ok (some b) payload h =
    elim (Bool-cases (ltb git_webhook_max_body (length (take (git_webhook_max_body + 1) b)))) [
      | inl e ↦ absurd (not_ok (rw e at h))
      | inr e ↦
          let read : take (git_webhook_max_body + 1) b ≡ payload = ap (ok_or []) (rw e at h) in
          let short : length (take (git_webhook_max_body + 1) b) ≤ git_webhook_max_body =
            at_most git_webhook_max_body (length (take (git_webhook_max_body + 1) b)) e in
          let whole : take (git_webhook_max_body + 1) b ≡ b =
            take_short git_webhook_max_body b short in
          (ap some (sym whole ∙ read), subst (λ p. length p ≤ git_webhook_max_body) read short)
    ]
  where
    not_ok : {e : Refusal} {p : List ℕ} → err e ≢ ok p
    not_ok h = cc

    ok_or : List ℕ → Result (List ℕ) → List ℕ
    ok_or d (ok p) = p
    ok_or d (err e) = d

module _ (hmac : List ℕ → List ℕ → List ℕ) (written upgrade_open : Bool) (attempt : Attempt)
    (app : String) (header : Header) where
  answer-IsProper :
      (payload : List ℕ) (s : Site) (file : Option WebhookFile)
      → Map.get app s.webhooks ≡ file
      → length payload ≤ git_webhook_max_body
      → IsProper hmac app header
          (some payload)
          s
          (answer hmac written upgrade_open attempt app header payload (loaded file) s)
  unfolding answer
  answer-IsProper payload s none at short = refl
  answer-IsProper payload s (some none) at short = refl
  answer-IsProper payload s (some (some hook)) at short =
      let (forge, event, action) = git_webhook_event header in
      elim (Bool-cases (has_state app s)) [
        | inr e ↦ rw e refl
        | inl e ↦ elim (Bool-cases (git_webhook_signed hmac header payload hook.secret)) [
          | inr k ↦ rw (e, k) refl
          | inl k ↦
              rw (e, k)
                (note-IsProper hmac app header payload s hook written forge event
                  (act action upgrade_open attempt app s.queue).0
                  (act action upgrade_open attempt app s.queue).1
                  (act-none action upgrade_open attempt app s.queue) short at k e)
        ]
      ]

  answer_body-IsProper :
      (body : Option (List ℕ)) (s : Site) (read : Result (List ℕ))
      → read_body body ≡ read
      → IsProper hmac app header body s
          (answer_body hmac written upgrade_open attempt app header read s)
  answer_body-IsProper body s (err e) h = refl
  answer_body-IsProper body s (ok payload) h =
      let (whole, short) = read_body-ok body payload h in
      subst
        (λ b. IsProper hmac app header b s (
          answer hmac written upgrade_open attempt app header payload
            (loaded (Map.get app s.webhooks)) s))
        (sym whole) (answer-IsProper payload s (Map.get app s.webhooks) refl short)

  -- Whatever the delivery and whatever became of the webhook while it came in: a refusal or an error
  -- leaves the site as it was under the lock, and an answer is for a registered app whose webhook was on
  -- and whose secret signed the whole body, of at most 5 MiB; it leaves the webhooks of other apps.
  pub receive_git_webhook_lem :
      (normalize : String → String) (body : Option (List ℕ)) (before locked : Site)
      → IsProper hmac app header body locked (
          receive_git_webhook hmac written upgrade_open attempt normalize app header body before
            locked)
  unfolding receive_git_webhook
  receive_git_webhook_lem normalize body before locked =
      elim (Bool-cases (app == "" || not (app == normalize app))) [
        | inl e ↦ rw e refl
        | inr e ↦ elim (Bool-cases (not (has_webhook app before) || not (has_state app before))) [
          | inl k ↦ rw (e, k) refl
          | inr k ↦ rw (e, k) (answer_body-IsProper body locked (read_body body) refl)
        ]
      ]
