-- ===== src/Backup/Plan/Examples.antt =====
-- service/backup_plan.go: an app with a database.
use casa_os_app_management.Prelude.{
  ◌≤◌, String, ◌≡◌, refl, true, false, List, [], ◌∷◌, map, ◌==◌, if◌then◌else◌, count, All, clean,
  join_path, str_le, insertion_sort, IsSorted,
}
use casa_os_app_management.Prelude.Map
use casa_os_app_management.Prelude.Map.{
  Map, get-assign, get-delete, keys, IsMap, IsMap-assign, IsMap-delete, any-keys, count-keys,
}
use casa_os_app_management.Backup.Inventory.{
  BackupEntry, ServiceVolume, ComposeApp, backup_inventory, host_path_skip_reason, is_included,
  backup_entries_for_services, entries_by_name, backup_entry_for_volume, resolve_bind_source,
  compose_dir_of,
}
use casa_os_app_management.Backup.Plan.{
  BackupManifest, is_bind, decide, mark_bind_file, plan_backup, mark_bind_files, total_by_source,
}
use casa_os_app_management.Backup.Plan.Numbers.{
  bind_copies, destinations, copies_from, binds_in, binds_numbered,
}
use casa_os_app_management.Backup.Plan.Sources.{is_source, total_by_source_lem}
use casa_os_app_management.Backup.Schedule.{is_space}
use casa_os_app_management.Backup.Plan.Root.{slashes, root_for, root_for_lem}
use casa_os_app_management.Backup.Plan.Safety.{of_kind, may_copy, plan_is_safe}

abbrev mount : String → String → ServiceVolume
mount volume_type source = record { volume_type = volume_type; source = source; target = "/t" }

abbrev app : ComposeApp
app = record {
  compose_files = "/a/docker-compose.yml" ∷ [];
  working_dir = "/a";
  services =
      (
        "web",
        mount "bind" "./html"
            ∷ mount "bind" "/var/run/docker.sock"
            ∷ mount "bind" "/d/php.ini"
            ∷ [],
      )
      ∷ ("db", mount "volume" "data" ∷ mount "tmpfs" "" ∷ [])
      ∷ [];
  volumes = ("data", "a_data") ∷ [];
}

abbrev inventory : List BackupEntry
inventory = backup_inventory (λ f. true) app

abbrev manifest : BackupManifest
manifest = plan_backup "a" inventory (("data", "/docker/data") ∷ [])

included_test : map is_included inventory ≡ true ∷ true ∷ false ∷ false ∷ true ∷ false ∷ true ∷ []
unfolding backup_inventory clean join_path backup_entries_for_services entries_by_name
    insertion_sort str_le Map.get backup_entry_for_volume resolve_bind_source compose_dir_of
    host_path_skip_reason
included_test = refl

total_test :
    total_by_source (mark_bind_files (λ p. p == "/d/php.ini") manifest)
    ≡ "/a/.env" ∷ "/a/docker-compose.yml" ∷ "/a/html" ∷ "/d/php.ini" ∷ "/docker/data" ∷ []
unfolding total_by_source mark_bind_files plan_backup backup_inventory decide mark_bind_file clean
    join_path backup_entries_for_services entries_by_name insertion_sort str_le Map.get
    backup_entry_for_volume resolve_bind_source compose_dir_of host_path_skip_reason
total_test = refl

plan_is_safe_example :
    (of_kind is_bind (manifest.operations, manifest.skipped)
      ≡ count (λ e. is_bind e.kind) inventory)
    × All (λ o. may_copy o ≡ true) manifest.operations
plan_is_safe_example = plan_is_safe "a" app (λ f. true) (("data", "/docker/data") ∷ []) is_bind

binds_numbered_example :
    (bind_copies manifest.operations ≡ copies_from 0 (binds_in inventory))
    × (count (λ s. s == "binds/1") (destinations (bind_copies manifest.operations)) ≤ 1)
binds_numbered_example = binds_numbered "a" inventory (("data", "/docker/data") ∷ []) "binds/1"

total_by_source_lem_example :
    IsSorted str_le (total_by_source manifest)
    × ((count (λ x. x == "/a/html") (total_by_source manifest)
          ≡ (if is_source "/a/html" manifest.operations then 1 else 0))
        × (total_by_source (mark_bind_files (λ p. p == "/d/php.ini") manifest)
            ≡ total_by_source manifest))
total_by_source_lem_example = total_by_source_lem manifest "/a/html" (λ p. p == "/d/php.ini")

root_for_lem_example : slashes (root_for " a/b " "2026:01") ≡ 1
root_for_lem_example = root_for_lem " a/b " "2026:01"

root_test : root_for " a/b " "2026:01" ≡ "a-b/2026-01"
unfolding root_for is_space
root_test = refl
