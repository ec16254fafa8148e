-- ===== src/Backup/Inventory.antt =====
-- service/backup_inventory.go: what a backup of an app is made of.
--
-- A path is one of Linux, on which `filepath.ToSlash` changes nothing. compose-go's types are read
-- here as the parts the code reads: a volume by its type, source and target, and an app by its files.
use casa_os_app_management.Prelude.{
  String, Bool, not, ◌&&◌, ◌||◌, Option, none, some, List, [], ◌∷◌, ◌++◌, map, ◌==◌, if◌then◌else◌,
  ◌<>◌, starts_with, clean, join_path, dir, str_le, insertion_sort,
}
use casa_os_app_management.Prelude.Map
use casa_os_app_management.Prelude.Map.{
  Map, get-assign, get-delete, keys, IsMap, IsMap-assign, IsMap-delete, any-keys, count-keys,
}

-- `BackupKind`, whose values in the code are these four
pub data BackupKind : Type 0 where
  compose env volume bind : BackupKind

pub record BackupEntry : Type 0 where
  pub kind : BackupKind
  pub path : String
  pub service : String
  pub target : String
  pub volume_name : String
  -- why it is left out; empty if it is not
  pub skip : String

abbrev pub is_included : BackupEntry → Bool
is_included e = e.skip == "" && not (e.path == "")

abbrev pub is_kernel : String → Bool
is_kernel clean =
    (clean == "/dev" || starts_with clean "/dev/")
    || ((clean == "/sys" || starts_with clean "/sys/")
        || (clean == "/proc" || starts_with clean "/proc/"))

unfoldable pub host_path_skip_reason : String → String
host_path_skip_reason host_path =
    let cleaned = clean host_path in
    if cleaned == "" || (cleaned == "." || cleaned == "/")
    then "the whole filesystem is not an app's data"
    else if cleaned == "/var/run/docker.sock" || cleaned == "/run/docker.sock"
    then "the Docker socket is a door, not data"
    else if cleaned == "/etc/localtime" || cleaned == "/etc/timezone"
    then "the host's clock belongs to the host"
    else if is_kernel cleaned
    then "kernel interface, with no contents to copy"
    else ""

unfoldable pub resolve_bind_source : String → String → String
resolve_bind_source source compose_dir =
    if source == ""
    then ""
    else if starts_with source "/"
    then clean source
    else if starts_with source "~"
    then ""
    else clean (join_path compose_dir source)

-- `types.ServiceVolumeConfig`
pub record ServiceVolume : Type 0 where
  pub volume_type : String
  pub source : String
  pub target : String

unfoldable pub backup_entry_for_volume : ServiceVolume → String → String → BackupEntry
backup_entry_for_volume v service compose_dir =
    let skipped : BackupKind → String → BackupEntry = λ kind reason. record {
      kind = kind;
      path = "";
      service = service;
      target = v.target;
      volume_name = "";
      skip = reason;
    } in
    let resolved = resolve_bind_source v.source compose_dir in
    if v.volume_type == "volume"
    then (if v.source == ""
        then skipped volume "an anonymous volume has no name to restore it under"
        else record {
          kind = volume;
          path = "";
          service = service;
          target = v.target;
          volume_name = v.source;
          skip = "";
        })
    else if v.volume_type == "tmpfs"
    then skipped volume "tmpfs lives in memory and is empty at every start"
    else if v.volume_type == "npipe" || v.volume_type == "cluster"
    then skipped bind (v.volume_type <> " is not a folder to copy")
    else if resolved == ""
    then skipped bind "this mount has no host path that can be resolved"
    else record {
      kind = bind;
      path = resolved;
      service = service;
      target = v.target;
      volume_name = "";
      skip = host_path_skip_reason resolved;
    }

-- the inner loop of `backupEntriesForServices`
abbrev pub entries_of : String → String → List ServiceVolume → List BackupEntry
entries_of service compose_dir = map (λ v. backup_entry_for_volume v service compose_dir)

abbrev pub volumes_of : Option (List ServiceVolume) → List ServiceVolume
volumes_of none = []
volumes_of (some vs) = vs

-- its outer loop, over the sorted names
unfoldable pub entries_by_name : Map (List ServiceVolume) → String → List String → List BackupEntry
entries_by_name services compose_dir [] = []
entries_by_name services compose_dir (name ∷ names) =
    entries_of name compose_dir (volumes_of (Map.get name services))
    ++ entries_by_name services compose_dir names

unfoldable pub backup_entries_for_services : Map (List ServiceVolume) → String → List BackupEntry
backup_entries_for_services services compose_dir =
    entries_by_name services compose_dir (insertion_sort str_le (keys services))

-- what is read of a `*ComposeApp`
pub record ComposeApp : Type 0 where
  pub compose_files : List String
  pub working_dir : String
  pub services : Map (List ServiceVolume)
  -- the names of its volumes, where they are given one
  pub volumes : Map String

abbrev pub first_dir : List String → String
first_dir [] = ""
first_dir (f ∷ fs) = dir (clean f)

-- `composeDir`
unfoldable pub compose_dir_of : ComposeApp → String
compose_dir_of a =
    if not (a.working_dir == "") then clean a.working_dir else first_dir a.compose_files

abbrev pub file_entry : BackupKind → String → String → BackupEntry
file_entry kind path skip = record {
  kind = kind;
  path = path;
  service = "";
  target = "";
  volume_name = "";
  skip = skip;
}

abbrev pub only_the_first : String
only_the_first =
    "only the first compose file of an app is kept, and an app that has to be installed again is installed from it alone"

-- what the app's own files add, given its `.env` and whether that is there
abbrev pub entries_of_files : String → Bool → List String → List BackupEntry
entries_of_files env_file env_exists [] = []
entries_of_files env_file env_exists (file ∷ extra) =
    file_entry compose (clean file) ""
    ∷ (map (λ f. file_entry compose (clean f) only_the_first) extra
        ++ (if env_exists then file_entry env (clean env_file) "" ∷ [] else []))

-- `BackupInventory`, where `is_there` is what `os.Stat` says of the `.env`
unfoldable pub backup_inventory : (String → Bool) → ComposeApp → List BackupEntry
backup_inventory is_there a =
    let env_file = join_path a.working_dir ".env" in
    entries_of_files env_file (is_there env_file) a.compose_files
    ++ backup_entries_for_services a.services (compose_dir_of a)

abbrev pub name_or : String → Option String → String
name_or compose_name none = compose_name
name_or compose_name (some n) = if n == "" then compose_name else n

unfoldable pub docker_volume_name : ComposeApp → String → String
docker_volume_name a compose_name = name_or compose_name (Map.get compose_name a.volumes)
