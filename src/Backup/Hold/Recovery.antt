-- ===== src/Backup/Hold/Recovery.antt =====
-- service/backup_hold_recovery.go: what a start of the service gives back after a process that was
-- killed while it held an app.
use casa_os_app_management.Prelude.{String, Bool, true, false, none, some, List, []}
use casa_os_app_management.Prelude.Map
use casa_os_app_management.Prelude.Map.{Map, IsMap, IsMap-assign, IsMap-delete, count-keys}
use casa_os_app_management.Backup.Hold.{Daemon, Disk}

-- whether the file of notes has one for the app
abbrev pub has_note : String → Disk → Bool
has_note app d = elim d.held [
  | none ↦ false
  | some held ↦ elim (Map.get app held) [ none ↦ false | some containers ↦ true ]
]

module _ (daemon : Daemon) (j : String) (held : Map (List String)) where
  open daemon use {Containers, up}

  abbrev noted : String → List String
  noted a = elim (Map.get a held) [ none ↦ [] | some cs ↦ cs ]
