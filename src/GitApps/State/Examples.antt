-- ===== src/GitApps/State/Examples.antt =====
-- service/git_app_state.go: an app with four versions.
use casa_os_app_management.Prelude.{
  String, ◌≡◌, refl, true, false, none, some, [], ◌∷◌, ◌==◌, if◌then◌else◌, take, count, str_le,
  insertion_sort, IsSorted,
}
use casa_os_app_management.GitApps.State.{
  GitHistoryEntry, GitApp, git_history_length, record_entry, history_entry,
}
use casa_os_app_management.GitApps.State.History.{
  is_removable, record_entry_lem, is_some, did_run, is_for, history_entry_lem,
}

abbrev version : String → String → String → GitHistoryEntry
version commit outcome image = record {
  commit = commit;
  subject = "";
  at = 0;
  outcome = outcome;
  reason = "";
  images = ("web", image) ∷ [];
  tag = "";
}

abbrev app : GitApp
app = record {
  app = "a";
  origin = "created";
  folder = "/a";
  remote = "r";
  branch = "main";
  access = "none";
  auto_deploy = true;
  auto_paused = false;
  blocked = false;
  env_tracked = false;
  cloned = true;
  no_compose_file = false;
  deployed =
      some (record { commit = "c3"; subject = ""; at = 0; images = ("web", "i3") ∷ []; tag = "" });
  check = none;
  operation = none;
  history =
      version "c3" "deployed" "i3" ∷ version "c2" "failed" "i2" ∷ version "c2" "deployed" "i1" ∷ [];
  attempted = "c2" ∷ "c3" ∷ [];
  follow = "";
  tag_pattern = "";
  prereleases = false;
}

record_test : (record_entry (version "c4" "failed" "i4") app).0 ≡ "i1" ∷ []
unfolding record_entry insertion_sort str_le
record_test = refl

record_entry_lem_example :
    ((record_entry (version "c4" "failed" "i4") app).1.history
      ≡ take git_history_length (version "c4" "failed" "i4" ∷ app.history))
    × (IsSorted str_le (record_entry (version "c4" "failed" "i4") app).0
        × (count (λ x. x == "i1") (record_entry (version "c4" "failed" "i4") app).0
            ≡ (if is_removable "i1" (version "c4" "failed" "i4") app then 1 else 0)))
record_entry_lem_example = record_entry_lem (version "c4" "failed" "i4") app "i1"

history_entry_lem_example :
    (is_some (history_entry "c2" app) ≡ true)
    × ((did_run (history_entry "c2" app) ≡ true) × (is_for "c2" (history_entry "c2" app) ≡ true))
history_entry_lem_example = history_entry_lem "c2" app
