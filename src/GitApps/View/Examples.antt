-- ===== src/GitApps/View/Examples.antt =====
-- service/git_app_view.go: an app that follows tags.
use casa_os_app_management.Prelude.{
  ℕ, String, ◌≡◌, refl, Bool, true, false, Option, none, some, [], ◌==◌, ltb, if◌then◌else◌, length,
  codes,
}
use casa_os_app_management.GitApps.State.{GitApp}
use casa_os_app_management.GitApps.Automatic.{
  git_may_deploy_automatically, may_deploy, git_tag_higher, git_tag_version, trim_v,
}
use casa_os_app_management.GitApps.View.{git_app_state_of, git_new_commits}
use casa_os_app_management.GitApps.View.Laws.{deployed_is_new}

-- versions by their length, of which the empty text is none
abbrev strict_new_version : String → Option ℕ
strict_new_version s = if s == "" then none else some (length (codes s))

abbrev greater_than : ℕ → ℕ → Bool
greater_than a b = ltb b a

abbrev app : String → GitApp
app error = record {
  app = "a";
  origin = "created";
  folder = "/a";
  remote = "r";
  branch = "main";
  access = "none";
  auto_deploy = true;
  auto_paused = false;
  blocked = false;
  env_tracked = false;
  cloned = true;
  no_compose_file = false;
  deployed = some (record { commit = "c1"; subject = ""; at = 0; images = []; tag = "v1" });
  check = some (record { at = 0; remote_commit = "c2"; error = error; remote_tag = "v11" });
  operation = none;
  history = [];
  attempted = [];
  follow = "tags";
  tag_pattern = "";
  prereleases = false;
}

state_test :
    (git_app_state_of (app "no tag matches (no pattern)") ≡ "idle")
    × (git_app_state_of (app "timeout") ≡ "unreachable")
unfolding git_app_state_of
state_test = (refl, refl)

deployed_is_new_example : git_new_commits strict_new_version greater_than (app "") ≡ true
unfolding git_may_deploy_automatically may_deploy git_tag_higher git_tag_version trim_v
deployed_is_new_example = deployed_is_new strict_new_version greater_than (app "") refl refl
