-- ===== src/Backup/Plan.antt =====
-- service/backup_plan.go: the copies that make a backup, and its manifest.
pub mod Numbers
pub mod Sources
pub mod HostPaths
pub mod Safety
pub mod Root
mod Examples
use casa_os_app_management.Prelude.{
  ℕ, zero, suc, ◌+◌, ◌-◌, ◌*◌, ◌/◌, ◌%◌, ◌^◌, ◌≤◌, ◌<◌, String, ◌≡◌, ◌≢◌, ◌↔◌, ◌⊎◌, inl, inr, refl,
  sym, ap, subst, ◌∙◌, Bool, true, false, not, ◌&&◌, ◌||◌, Option, none, some, List, [], ◌∷◌, ◌++◌,
  map, reverse, arith, eq_iff, eq_refl, ◌==◌, ltb, leb, ◌=ℕ◌, if◌then◌else◌, leb→le, ltb→lt,
  Bool-cases, Option-cases, length, take, drop, length-append, length-take, length-drop,
  take-append-drop, count, any, keep, count-append, count-le-length, any-pos, any-append,
  any-reverse, any_none, get_elem?, set, count-set, count-pos, drop-set, length-set, drop-append,
  drop_step, get_elem?-drop, get_elem?_in, get_elem?-append, get_elem?_lt, Sub, nil, Sub-snoc,
  Sub-tail, Sub-delete, snoc-ne-nil, All, All-append, All-map, All-zip, ◌<>◌, starts_with, clean,
  join_path, base, dir, show, show_inj, str_le, codes, str_le_total, str_le_trans, str_le_antisym,
  insert, insertion_sort, IsSorted, insertion_sort-IsSorted, count-insertion_sort,
  length-insertion_sort, sum_by-insertion_sort, any-insertion_sort, All-insertion_sort, sum_by,
  sum_by-append, sum_by-keep, count-keep, All-keep, All-keep_of, All-tail_of_append,
  All-head_of_append,
}
use casa_os_app_management.Prelude.Map
use casa_os_app_management.Prelude.Map.{
  Map, get-assign, get-delete, keys, IsMap, IsMap-assign, IsMap-delete, any-keys, count-keys,
}
use casa_os_app_management.Backup.Inventory.{BackupKind, compose, env, volume, bind, BackupEntry}

pub record BackupOperation : Type 0 where
  pub kind : BackupKind
  pub source : String
  pub destination : String
  -- a folder, not one file
  pub directory : Bool
  pub volume_name : String
  pub service : String
  pub target : String

pub record BackupGit : Type 0 where
  pub remote : String
  pub branch : String
  pub commit : String
  pub follow : String
  pub tag : String
  pub tag_pattern : String
  pub prereleases : Bool

pub record BackupManifest : Type 0 where
  pub format_version : ℕ
  pub app : String
  pub operations : List BackupOperation
  pub skipped : List BackupEntry
  pub containers_stopped : Bool
  pub git : Option BackupGit

abbrev pub backup_format_version : ℕ
backup_format_version = 1

abbrev pub with_skip : String → BackupEntry → BackupEntry
with_skip reason e = record {
  kind = e.kind;
  path = e.path;
  service = e.service;
  target = e.target;
  volume_name = e.volume_name;
  skip = reason;
}

-- what the loop of `PlanBackup` appends for an entry: to the operations, or to the skipped
pub data Decision : Type 0 where
  copy : BackupOperation → Decision
  leave_out : BackupEntry → Decision

abbrev pub file_operation : BackupEntry → BackupOperation
file_operation e = record {
  kind = e.kind;
  source = e.path;
  destination = "compose/" <> base e.path;
  directory = false;
  volume_name = "";
  service = "";
  target = "";
}

abbrev pub volume_operation : BackupEntry → Option String → Decision
volume_operation e none = leave_out (with_skip "Docker could not say where this volume lives" e)
volume_operation e (some mountpoint) =
    if mountpoint == ""
    then leave_out (with_skip "Docker could not say where this volume lives" e)
    else copy (record {
      kind = e.kind;
      source = mountpoint;
      destination = "volumes/" <> e.volume_name;
      directory = true;
      volume_name = e.volume_name;
      service = e.service;
      target = e.target;
    })

abbrev pub bind_operation : BackupEntry → ℕ → BackupOperation
bind_operation e number = record {
  kind = e.kind;
  source = e.path;
  destination = "binds/" <> show number;
  directory = true;
  volume_name = "";
  service = e.service;
  target = e.target;
}

abbrev pub by_kind : BackupKind → BackupEntry → Map String → ℕ → Decision
by_kind compose e mountpoints number = copy (file_operation e)
by_kind env e mountpoints number = copy (file_operation e)
by_kind volume e mountpoints number = volume_operation e (Map.get e.volume_name mountpoints)
by_kind bind e mountpoints number = copy (bind_operation e number)

-- `number` is the one that the entry gets if it is a bind.
unfoldable pub decide : BackupEntry → Map String → ℕ → Decision
decide e mountpoints number =
    if not (e.skip == "") then leave_out e else by_kind e.kind e mountpoints number

abbrev pub is_bind : BackupKind → Bool
is_bind compose = false
is_bind env = false
is_bind volume = false
is_bind bind = true

-- `bind` after the entry
abbrev pub numbered : BackupEntry → ℕ → ℕ
numbered e number = if e.skip == "" && is_bind e.kind then suc number else number

abbrev pub put :
    Decision → List BackupOperation × List BackupEntry → List BackupOperation × List BackupEntry
put (copy o) (operations, skipped) = (o ∷ operations, skipped)
put (leave_out e) (operations, skipped) = (operations, e ∷ skipped)

-- the loop, with the number of binds so far
unfoldable pub plan_from :
    ℕ → Map String → List BackupEntry → List BackupOperation × List BackupEntry
plan_from number mountpoints [] = ([], [])
plan_from number mountpoints (e ∷ entries) =
    put (decide e mountpoints (suc number)) (plan_from (numbered e number) mountpoints entries)

unfoldable pub plan_backup : String → List BackupEntry → Map String → BackupManifest
unfolding plan_from
plan_backup app inventory mountpoints =
    let (operations, skipped) = plan_from 0 mountpoints inventory in
    record {
      format_version = backup_format_version;
      app = app;
      operations = operations;
      skipped = skipped;
      containers_stopped = false;
      git = none;
    }

unfoldable pub mark_bind_file : (String → Bool) → BackupOperation → BackupOperation
unfolding base
mark_bind_file is_file o =
    if is_bind o.kind && is_file o.source
    then record {
      kind = o.kind;
      source = o.source;
      destination = o.destination <> ("/" <> base o.source);
      directory = false;
      volume_name = o.volume_name;
      service = o.service;
      target = o.target;
    }
    else o

unfoldable pub mark_bind_files : (String → Bool) → BackupManifest → BackupManifest
mark_bind_files is_file m = record {
  format_version = m.format_version;
  app = m.app;
  operations = map (mark_bind_file is_file) m.operations;
  skipped = m.skipped;
  containers_stopped = m.containers_stopped;
  git = m.git;
}

-- the loop of `TotalBySource`, with the sources that `seen` maps to true
unfoldable pub sources_from : List String → List BackupOperation → List String
sources_from seen [] = []
sources_from seen (o ∷ os) =
    let others = sources_from seen os in
    let next = sources_from (o.source ∷ seen) os in
    if any (λ s. s == o.source) seen then others else o.source ∷ next

unfoldable pub total_by_source : BackupManifest → List String
unfolding sources_from
total_by_source m = insertion_sort str_le (sources_from [] m.operations)
