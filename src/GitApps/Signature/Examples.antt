-- ===== src/GitApps/Signature/Examples.antt =====
-- service/git_webhook_signature.go: deliveries to an app whose secret is `s`.
use casa_os_app_management.Prelude.{
  ℕ, ◌≡◌, refl, true, false, not, ◌&&◌, List, [], ◌∷◌, ◌++◌, ◌==◌, if◌then◌else◌, any, codes,
}
use casa_os_app_management.GitApps.Signature.{
  Header, github, pong, git_webhook_forges, git_webhook_signature_valid, signed_by_values,
  signed_by, git_webhook_signed, git_webhook_event, first_forge,
}
use casa_os_app_management.GitApps.Signature.Laws.{is_sent, is_contradicted, git_webhook_signed_lem}

-- a stand-in for HMAC: the body behind the secret
abbrev hmac : List ℕ → List ℕ → List ℕ
hmac secret body = secret ++ body

abbrev secret : List ℕ
secret = codes "s"

abbrev header : List (List ℕ) → Header
header hub name =
    if name == "X-Hub-Signature-256"
    then hub
    else if name == "X-GitHub-Event"
    then codes "ping" ∷ []
    else []

-- 73 is `s`, 62 is `b`
signed_test :
    (git_webhook_signed hmac (header (codes "sha256=7362" ∷ [])) (codes "b") secret ≡ true)
    × ((git_webhook_signed hmac (header (codes "sha256=7363" ∷ [])) (codes "b") secret ≡ false)
        × (git_webhook_signed hmac (header []) (codes "b") secret ≡ false))
unfolding git_webhook_signed signed_by signed_by_values git_webhook_signature_valid
signed_test = (refl, (refl, refl))

event_test : git_webhook_event (header []) ≡ (github, codes "ping", pong)
unfolding git_webhook_event first_forge
event_test = refl

git_webhook_signed_lem_example :
    git_webhook_signed hmac (header (codes "sha256=7362" ∷ [])) (codes "b") secret ≡ (
      any (is_sent (header (codes "sha256=7362" ∷ [])) (codes "sb") secret) git_webhook_forges
      && not (
          any
            (is_contradicted (header (codes "sha256=7362" ∷ [])) (codes "sb") secret)
            git_webhook_forges))
git_webhook_signed_lem_example =
    git_webhook_signed_lem hmac (header (codes "sha256=7362" ∷ [])) (codes "b") secret
