-- ===== src/Backup/Retention/Examples.antt =====
-- service/backup_retention.go: a destination with three runs.
use casa_os_app_management.Prelude.{
  ◌+◌, String, ◌≡◌, refl, List, [], ◌∷◌, ◌==◌, length, count, str_le, insertion_sort,
}
use casa_os_app_management.Backup.Retention.{runs_to_purge}
use casa_os_app_management.Backup.Retention.Laws.{left_of, AreBefore, runs_to_purge_lem}

abbrev stamps : List String
stamps = "2026-03" ∷ "2026-01" ∷ "2026-02" ∷ []

runs_to_purge_test : (runs_to_purge stamps 2 ≡ "2026-01" ∷ []) × (runs_to_purge stamps 0 ≡ [])
unfolding runs_to_purge insertion_sort str_le
runs_to_purge_test = (refl, refl)

runs_to_purge_lem_example :
    (count (λ s. s == "2026-01") (runs_to_purge stamps 2)
        + count (λ s. s == "2026-01") (left_of stamps 2)
      ≡ count (λ s. s == "2026-01") stamps)
    × (AreBefore (runs_to_purge stamps 2) (left_of stamps 2) × (length (left_of stamps 2) ≡ 2))
runs_to_purge_lem_example = runs_to_purge_lem stamps 2 (λ s. s == "2026-01")
