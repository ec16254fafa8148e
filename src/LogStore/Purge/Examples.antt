-- ===== src/LogStore/Purge/Examples.antt =====
-- A run of pkg/logstore/purge.go, and its theorem at it.
use casa_os_app_management.Prelude.{day_length}
use casa_os_app_management.Prelude.{
  ℕ, ◌+◌, ◌*◌, String, ◌≡◌, refl, List, [], ◌∷◌, arith, insertion_sort,
}
use casa_os_app_management.LogStore.Purge.{FileInfo, plan_purge, usage}
use casa_os_app_management.LogStore.Purge.Laws.{Purged, plan_purge_lem}

abbrev file : String → ℕ → ℕ → FileInfo
file path day size = record { path = path; day = day * day_length; size = size }

abbrev store : List FileInfo
store =
    file "web/b/9" 9 40
    ∷ file "stray" 0 5
    ∷ file "web/a/3" 3 10
    ∷ file "web/a/8" 8 30
    ∷ file "db/a/8" 8 20
    ∷ []

-- at noon of day 9, with a week to keep and a cap of 60
abbrev noon : ℕ
noon = 9 * day_length + 43200000000000

plan_purge_run : plan_purge store noon 6 60 ≡ "web/a/3" ∷ "web/a/8" ∷ "db/a/8" ∷ []
unfolding plan_purge insertion_sort
plan_purge_run = refl

usage_run : usage store ≡ (105, 3 * day_length)
unfolding usage
usage_run = refl

plan_purge_lem_example : Purged store noon 6 60 (plan_purge store noon 6 60)
plan_purge_lem_example = plan_purge_lem store noon 6 60 (omega arith)
