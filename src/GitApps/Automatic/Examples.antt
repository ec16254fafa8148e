-- ===== src/GitApps/Automatic/Examples.antt =====
-- service/git_deploy.go: an app whose last check saw a commit.
use casa_os_app_management.Prelude.{
  ℕ, String, ◌≡◌, refl, Bool, true, false, Option, none, some, List, [], ◌∷◌, arith, ltb, length,
  codes,
}
use casa_os_app_management.GitApps.State.{GitApp, attempt}
use casa_os_app_management.GitApps.Automatic.{
  git_may_deploy_automatically, git_tag_moved, may_deploy, git_tag_higher, git_tag_version,
}
use casa_os_app_management.GitApps.Automatic.Laws.{never_twice, moved_tag_stays}

-- versions by their length
abbrev strict_new_version : String → Option ℕ
strict_new_version s = some (length (codes s))

abbrev greater_than : ℕ → ℕ → Bool
greater_than a b = ltb b a

ltb_self : (n : ℕ) → ltb n n ≡ false
ltb_self n = ground arith

abbrev app : String → String → String → List String → String → String → GitApp
app follow tag commit attempted remote_tag remote_commit = record {
  app = "a";
  origin = "created";
  folder = "/a";
  remote = "r";
  branch = "main";
  access = "none";
  auto_deploy = true;
  auto_paused = false;
  blocked = false;
  env_tracked = false;
  cloned = true;
  no_compose_file = false;
  deployed = some (record { commit = commit; subject = ""; at = 0; images = []; tag = tag });
  check =
      some (record { at = 0; remote_commit = remote_commit; error = ""; remote_tag = remote_tag });
  operation = none;
  history = [];
  attempted = attempted;
  follow = follow;
  tag_pattern = "";
  prereleases = false;
}

upward_test :
    (git_may_deploy_automatically strict_new_version greater_than
        (app "tags" "v1" "c1" [] "v11" "c2")
      ≡ true)
    × (git_may_deploy_automatically strict_new_version greater_than
          (app "tags" "v11" "c1" [] "v1" "c2")
        ≡ false)
unfolding git_may_deploy_automatically may_deploy git_tag_higher git_tag_version
upward_test = (refl, refl)

never_twice_example :
    git_may_deploy_automatically strict_new_version greater_than
      (app "" "" "c1" ("c2" ∷ "c3" ∷ []) "" "c2")
    ≡ false
unfolding attempt
never_twice_example =
    never_twice strict_new_version greater_than "c2" ("c3" ∷ []) (app "" "" "c1" [] "" "")
      (app "" "" "c1" ("c2" ∷ "c3" ∷ []) "" "c2")
      (record { at = 0; remote_commit = "c2"; error = ""; remote_tag = "" }) refl refl (omega arith)
      refl refl refl

moved_tag_stays_example :
    git_may_deploy_automatically strict_new_version greater_than (app "tags" "v1" "c1" [] "v1" "c2")
    ≡ false
unfolding git_tag_moved
moved_tag_stays_example =
    moved_tag_stays strict_new_version greater_than (app "tags" "v1" "c1" [] "v1" "c2") ltb_self
      refl
