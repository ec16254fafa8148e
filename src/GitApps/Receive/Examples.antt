-- ===== src/GitApps/Receive/Examples.antt =====
-- A ping to an app whose secret is `s`, with the body behind the secret as a stand-in for HMAC.
use casa_os_app_management.Prelude.{
  ℕ, String, ◌≡◌, refl, true, false, none, some, List, [], ◌∷◌, ◌++◌, ◌==◌, if◌then◌else◌, codes,
}
use casa_os_app_management.Prelude.Map
use casa_os_app_management.Prelude.Map.{
  Map, get-assign, get-delete, keys, IsMap, IsMap-assign, IsMap-delete, any-keys, count-keys,
}
use casa_os_app_management.GitApps.Signature.{
  Header, git_webhook_signed, signed_by, signed_by_values, git_webhook_signature_valid,
  git_webhook_event, first_forge,
}
use casa_os_app_management.GitApps.Webhook.{no_checks, began}
use casa_os_app_management.GitApps.Receive.{
  ok, err, told_pong, git_webhook_signature, Site, receive_git_webhook,
}
use casa_os_app_management.GitApps.Receive.Laws.{IsProper, receive_git_webhook_lem}

abbrev behind : List ℕ → List ℕ → List ℕ
behind secret body = secret ++ body

abbrev as_written : String → String
as_written s = s

abbrev signed_with : String → Header
signed_with signature name =
    if name == "X-Hub-Signature-256"
    then codes signature ∷ []
    else if name == "X-GitHub-Event"
    then codes "ping" ∷ []
    else []

abbrev site : Site
site = record {
  webhooks = ("a", some (record { secret = codes "s"; last_delivery = none })) ∷ [];
  apps = "a" ∷ [];
  queue = no_checks 5;
}

-- 73 is `s`, 62 is `b`
ping_run :
    ((receive_git_webhook behind true false began as_written "a"
        (signed_with "sha256=7362")
        (some (codes "b"))
        site
        site).0
      ≡ ok told_pong)
    × ((receive_git_webhook behind true false began as_written "a"
          (signed_with "sha256=7363")
          (some (codes "b"))
          site
          site).0
        ≡ err git_webhook_signature)
unfolding receive_git_webhook Map.get git_webhook_signed signed_by signed_by_values
    git_webhook_signature_valid git_webhook_event first_forge
ping_run = (refl, refl)

receive_git_webhook_lem_example :
    IsProper behind "a" (signed_with "sha256=7362") (some (codes "b")) site (
      receive_git_webhook behind true false began as_written "a"
        (signed_with "sha256=7362")
        (some (codes "b"))
        site
        site)
receive_git_webhook_lem_example =
    receive_git_webhook_lem behind true false began "a" (signed_with "sha256=7362") as_written
      (some (codes "b")) site site
