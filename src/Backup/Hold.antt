-- ===== src/Backup/Hold.antt =====
-- service/backup_hold.go and service/backup_hold_recovery.go: holding an app still while it is copied,
-- and getting it back.
--
-- Docker is a parameter, `Daemon`. The file of notes is `Disk`; a read or a write that fails is a state
-- of it. The clock of a note is left out: nothing but the log reads it.
pub mod Release
pub mod Recovery
mod Examples
use casa_os_app_management.Prelude.{
  ℕ, zero, suc, ◌+◌, ◌-◌, ◌*◌, ◌/◌, ◌%◌, ◌^◌, ◌≤◌, ◌<◌, min, max, String, ◌≡◌, ◌≢◌, ◌↔◌, ◌⊎◌, inl,
  inr, refl, sym, ap, subst, ◌∙◌, Bool, true, false, not, ◌&&◌, ◌||◌, Option, none, some, List, [],
  ◌∷◌, ◌++◌, map, reverse, arith, eq_iff, eq_refl, ◌==◌, ltb, leb, ◌=ℕ◌, if◌then◌else◌, leb→le,
  ltb→lt, Bool-cases, Option-cases, length, take, drop, length-append, length-take, length-drop,
  take-append-drop, count, any, keep, count-append, count-le-length, any-pos, any_none, get_elem?,
  set, count-set, count-pos, drop-set, length-set, drop-append, drop_step, get_elem?-drop,
  get_elem?_in, get_elem?-append, get_elem?_lt, Sub, nil, Sub-snoc, Sub-tail, Sub-delete,
  snoc-ne-nil, All, All-append, All-map, All-zip, str_le, codes, str_le_total, str_le_trans, insert,
  insertion_sort, IsSorted, insertion_sort-IsSorted, count-insertion_sort, length-insertion_sort,
  sum_by-insertion_sort, All-insertion_sort, sum_by, sum_by-append, sum_by-keep, count-keep,
  All-keep, All-keep_of, All-tail_of_append, All-head_of_append,
}
use casa_os_app_management.Prelude.Map
use casa_os_app_management.Prelude.Map.{
  Map, get-assign, get-delete, keys, IsMap, IsMap-assign, IsMap-delete, any-keys, count-keys,
}

-- What the Docker daemon does: its containers, with the documented effect of a stop and of a start.
-- A call answers `true` when it has no error. A stop that has one may have taken the container down:
-- `StopContainer` waits for the container after it stopped it, and the wait can fail.
pub record Daemon : Type 1 where
  pub Containers : Type 0
  pub up : Containers → String → Bool
  pub stop_container : String → Containers → Bool × Containers
  pub start_container : String → Containers → Bool × Containers
  -- a call touches the container that it names alone
  pub stop_other :
      (id j : String) (c : Containers) → (id == j) ≡ false → up (stop_container id c).1 j ≡ up c j
  pub start_other :
      (id j : String) (c : Containers) → (id == j) ≡ false → up (start_container id c).1 j ≡ up c j
  -- a start with no error leaves the container up, and no start takes it down
  pub start_up :
      (id : String) (c : Containers)
      → (start_container id c).0 ≡ true
      → up (start_container id c).1 id ≡ true
  pub start_keeps :
      (id : String) (c : Containers) → up c id ≡ true → up (start_container id c).1 id ≡ true

-- `codegen.ContainerSummary`, as far as it is read
pub record ContainerSummary : Type 0 where
  pub id : String
  pub state : String

-- the `switch` of `runningContainerIDs`, and its test for an ID
unfoldable pub is_running : ContainerSummary → Bool
is_running c =
    (c.state == "running" || (c.state == "restarting" || c.state == "paused")) && not (c.id == "")

unfoldable pub running_in : List ContainerSummary → List String
unfolding is_running
running_in [] = []
running_in (c ∷ cs) = if is_running c then c.id ∷ running_in cs else running_in cs

unfoldable pub all_running : Map (List ContainerSummary) → List String
unfolding running_in
all_running [] = []
all_running ((service, list) ∷ rest) = running_in list ++ all_running rest

unfoldable pub running_container_ids : Map (List ContainerSummary) → List String
unfolding all_running
running_container_ids lists = insertion_sort str_le (all_running lists)

-- the file of notes: what it holds, `none` if it cannot be read, and whether it can be written
pub record Disk : Type 0 where
  pub held : Option (Map (List String))
  pub writable : Bool

-- `writeHeld`; the answer is `true` when it has no error
unfoldable pub write_held : Map (List String) → Disk → Bool × Disk
write_held held d = if d.writable then (true, record d { held = some held }) else (false, d)

unfoldable pub remember_held : String → List String → Disk → Bool × Disk
unfolding write_held
remember_held app [] d = (true, d)
remember_held app (c ∷ cs) d =
    if app == ""
    then (true, d)
    else elim d.held [ none ↦ (false, d) | some held ↦ write_held (Map.assign app (c ∷ cs) held) d ]

unfoldable pub forget_held : String → Disk → Bool × Disk
unfolding write_held
forget_held app d = elim d.held [
  | none ↦ (false, d)
  | some held ↦ elim (Map.get app held) [
    | none ↦ (true, d)
    | some containers ↦ write_held (Map.delete app held) d
  ]
]

pub data HoldError : Type 0 where
  context_ended : HoldError
  could_not_stop : String → HoldError

-- `heldApp`
pub record HeldApp : Type 0 where
  pub app : String
  pub stopped : List String

module _ (daemon : Daemon) where
  open daemon use {Containers, up, stop_container, start_container}

  -- The loop of `holdApp`. `ended` is whether the context has ended when the loop comes to the
  -- container at a place; `stopped` are the containers stopped so far, in order.
  unfoldable pub stop_from :
      (ℕ → Bool)
      → List String
      → List String
      → Containers
      → List String × Option HoldError × Containers
  stop_from ended stopped [] c = (stopped, none, c)
  stop_from ended stopped (id ∷ ids) c =
      let (ok, c') = stop_container id c in
      let rest = stop_from ended (stopped ++ id ∷ []) ids c' in
      if ended (length stopped)
      then (stopped, some context_ended, c)
      else if not ok
      then (stopped, some (could_not_stop id), c')
      else rest

  -- what `holdApp` leaves: what its release function has captured, its error, and the two states
  unfoldable pub hold_app :
      (ℕ → Bool)
      → String
      → Map (List ContainerSummary)
      → Disk
      → Containers
      → HeldApp × Option HoldError × Disk × Containers
  unfolding stop_from running_container_ids remember_held
  hold_app ended app lists d c =
      let running = running_container_ids lists in
      let (noted, d') = remember_held app running d in
      let (stopped, err, c') = stop_from ended [] running c in
      (record { app = app; stopped = stopped }, err, d', c')

  -- a loop of starts: the containers that did not start, and what it leaves
  unfoldable pub start_all : List String → Containers → List String × Containers
  start_all [] c = ([], c)
  start_all (id ∷ ids) c =
      let (ok, c') = start_container id c in
      let (failed, c'') = start_all ids c' in (if ok then failed else id ∷ failed, c'')

  -- The containers that did not start, whether the note was erased, and what is left. The release
  -- function may be called again: it has no containers to start then.
  unfoldable pub release :
      HeldApp → Disk → Containers → List String × Bool × HeldApp × Disk × Containers
  unfolding start_all forget_held
  release h d c =
      let (failed, c') = start_all (reverse h.stopped) c in
      let (forgot, d') = forget_held h.app d in (failed, forgot, record h { stopped = [] }, d', c')

  -- the loop of `RecoverHeldApps`
  unfoldable pub recover_apps :
      Map (List String) → List String → Disk → Containers → Disk × Containers
  unfolding start_all forget_held
  recover_apps held [] d c = (d, c)
  recover_apps held (app ∷ apps) d c =
      let containers : List String = elim (Map.get app held) [ none ↦ [] | some cs ↦ cs ] in
      let (failed, c') = start_all (reverse containers) c in
      let d' : Disk = elim failed [ [] ↦ (forget_held app d).1 | id ∷ ids ↦ d ] in
      recover_apps held apps d' c'

  unfoldable pub recover_held_apps : Disk → Containers → Disk × Containers
  unfolding recover_apps
  recover_held_apps d c = elim d.held [
    | none ↦ (d, c)
    | some held ↦ recover_apps held (insertion_sort str_le (Map.keys held)) d c
  ]
