-- ===== src/Backup/Hold/Examples.antt =====
-- Runs of service/backup_hold.go and service/backup_hold_recovery.go, and their theorems at a daemon.
use casa_os_app_management.Prelude.{
  String, ◌≡◌, ◌⊎◌, refl, Bool, true, false, not, ◌||◌, none, some, List, [], ◌∷◌, arith, eq_refl,
  ◌==◌, if◌then◌else◌, str_le, insertion_sort,
}
use casa_os_app_management.Prelude.Map
use casa_os_app_management.Prelude.Map.{
  Map, get-assign, get-delete, keys, IsMap, IsMap-assign, IsMap-delete, any-keys, count-keys,
}
use casa_os_app_management.Backup.Hold.{
  Daemon, ContainerSummary, running_container_ids, Disk, hold_app, release,
}
use casa_os_app_management.Backup.Hold.Release.{
  names, stop_failed, hold_release_lem, release_forgets,
}
use casa_os_app_management.Backup.Hold.Recovery.{has_note}

-- a daemon that starts every container but one
abbrev stop : String → (String → Bool) → Bool × (String → Bool)
stop id c = (true, λ j. if id == j then false else c j)

abbrev start : String → (String → Bool) → Bool × (String → Bool)
start id c = (not (id == "broken"), λ j. if id == j then not (id == "broken") || c j else c j)

stop_other_lem : (id j : String) (c : String → Bool) → (id == j) ≡ false → (stop id c).1 j ≡ c j
stop_other_lem id j c n = rw n refl

start_other_lem : (id j : String) (c : String → Bool) → (id == j) ≡ false → (start id c).1 j ≡ c j
start_other_lem id j c n = rw n refl

start_up_lem : (id : String) (c : String → Bool) → (start id c).0 ≡ true → (start id c).1 id ≡ true
start_up_lem id c h = ground (arith, eq_refl id)

start_keeps_lem : (id : String) (c : String → Bool) → c id ≡ true → (start id c).1 id ≡ true
start_keeps_lem id c h = ground (arith, eq_refl id)

abbrev daemon : Daemon
daemon = record {
  Containers = String → Bool;
  up = λ c j. c j;
  stop_container = stop;
  start_container = start;
  stop_other = stop_other_lem;
  start_other = start_other_lem;
  start_up = start_up_lem;
  start_keeps = start_keeps_lem;
}

abbrev lists : Map (List ContainerSummary)
lists =
    (
      "db",
      record { id = "broken"; state = "running" } ∷ record { id = "old"; state = "exited" } ∷ [],
    )
    ∷ ("web", record { id = "a1"; state = "paused" } ∷ [])
    ∷ []

abbrev all_up : String → Bool
all_up j = not (j == "old")

abbrev disk : Disk
disk = record { held = some []; writable = true }

running_lem : running_container_ids lists ≡ "a1" ∷ "broken" ∷ []
unfolding running_container_ids insertion_sort str_le
running_lem = refl

-- the release names the container that did not start, and erases the note all the same
half_released :
    let (h, err, d₁, c₁) = hold_app daemon (λ i. false) "web" lists disk all_up in
    let (failed, forgot, h', d₂, c₂) = release daemon h d₁ c₁ in
    (has_note "web" d₁ ≡ true)
    × (failed ≡ "broken" ∷ [])
    × (c₂ "broken" ≡ false)
    × (has_note "web" d₂ ≡ false)
unfolding hold_app release running_container_ids insertion_sort str_le Map.get Map.assign Map.delete
half_released = (refl, refl, refl, refl)

hold_release_lem_example :
    let (h, err, d₁, c₁) = hold_app daemon (λ i. false) "web" lists disk all_up in
    let (failed, forgot, h', d₂, c₂) = release daemon h d₁ c₁ in
    let (failed', forgot', h'', d₃, c₃) = release daemon h' d₂ c₂ in
    (all_up "a1" ≡ true
      → ((c₂ "a1" ≡ true) ⊎ (names failed "a1" ≡ true)) ⊎ (stop_failed "a1" err ≡ true))
    × (names (running_container_ids lists) "a1" ≡ false → c₂ "a1" ≡ all_up "a1")
    × (failed' ≡ [])
    × (c₃ ≡ c₂)
    × (d₃ ≡ d₂)
hold_release_lem_example = hold_release_lem daemon "a1" (λ i. false) "web" lists disk all_up

-- the same daemon, where the wait after the stop of `broken` fails
abbrev no_wait : Daemon
no_wait = record {
  Containers = String → Bool;
  up = λ c j. c j;
  stop_container = λ id c. (not (id == "broken"), (stop id c).1);
  start_container = start;
  stop_other = stop_other_lem;
  start_other = start_other_lem;
  start_up = start_up_lem;
  start_keeps = start_keeps_lem;
}

-- The container whose stop failed after it went down is not started again, the release names no
-- container that did not start, and its note is erased.
left_down :
    let (h, err, d₁, c₁) = hold_app no_wait (λ i. false) "web" lists disk all_up in
    let (failed, forgot, h', d₂, c₂) = release no_wait h d₁ c₁ in
    (stop_failed "broken" err ≡ true)
    × (failed ≡ [])
    × (c₂ "a1" ≡ true)
    × (c₂ "broken" ≡ false)
    × (has_note "web" d₂ ≡ false)
unfolding hold_app release running_container_ids insertion_sort str_le Map.get Map.assign Map.delete
left_down = (refl, refl, refl, refl, refl)

abbrev holding : Disk
holding = record { held = some (("web", "a1" ∷ "broken" ∷ []) ∷ []); writable = true }

release_forgets_example :
    let (failed, forgot, h', d', c') =
      release daemon
        (record { app = "web"; stopped = "a1" ∷ "broken" ∷ [] })
        holding
        (λ j. false) in
    (forgot ≡ true)
    × ((held' : Map (List String)) × (d'.held ≡ some held')
        × ((a : String)
            → Map.get a held'
              ≡ (if "web" == a then none else Map.get a (("web", "a1" ∷ "broken" ∷ []) ∷ []))))
release_forgets_example =
    release_forgets daemon (record { app = "web"; stopped = "a1" ∷ "broken" ∷ [] }) holding
      (λ j. false) (("web", "a1" ∷ "broken" ∷ []) ∷ []) refl refl
