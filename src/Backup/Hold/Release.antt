-- ===== src/Backup/Hold/Release.antt =====
-- service/backup_hold.go: what a hold takes, and what its release gives back.
use casa_os_app_management.Prelude.{
  ℕ, String, ◌≡◌, ◌⊎◌, inl, inr, refl, ◌∙◌, Bool, true, false, Option, none, some, List, [], ◌∷◌,
  ◌++◌, reverse, arith, eq_iff, eq_refl, ◌==◌, if◌then◌else◌, Bool-cases, Option-cases, any,
  any-append, any-reverse,
}
use casa_os_app_management.Prelude.Map
use casa_os_app_management.Prelude.Map.{
  Map, get-assign, get-delete, keys, IsMap, IsMap-assign, IsMap-delete, any-keys, count-keys,
}
use casa_os_app_management.Backup.Hold.{
  Daemon, ContainerSummary, running_container_ids, Disk, write_held, remember_held, forget_held,
  HoldError, context_ended, could_not_stop, HeldApp, stop_from, hold_app, start_all, release,
}

abbrev pub names : List String → String → Bool
names ids j = any (λ i. i == j) ids

-- the error of a hold is that the stop of the container had one
abbrev pub stop_failed : String → Option HoldError → Bool
stop_failed j none = false
stop_failed j (some context_ended) = false
stop_failed j (some (could_not_stop id)) = id == j

-- a note that is erased, or cannot be, is not erased again
forget_held_twice :
    (app : String) (d : Disk) → (forget_held app (forget_held app d).1).1 ≡ (forget_held app d).1
unfolding forget_held write_held
forget_held_twice app d = elim (Option-cases d.held) [
  | inl n ↦ ground arith
  | inr (held, e) ↦ elim (Option-cases (Map.get app held)) [
    | inl n ↦ ground arith
    | inr s ↦ elim (Bool-cases d.writable) [
      | inl w ↦ ground (arith, get-delete app app held, eq_refl app)
      | inr w ↦ ground arith
    ]
  ]
]

module _ (daemon : Daemon) (j : String) where
  open daemon use {
    Containers, up, stop_container, start_container, stop_other, start_other, start_up, start_keeps,
  }

  pub stop_from_up :
      (ended : ℕ → Bool) (stopped ids : List String) (c : Containers)
      → (up c j ≡ true) ⊎ (names stopped j ≡ true)
      → let (stopped', err, c') = stop_from daemon ended stopped ids c in
        ((up c' j ≡ true) ⊎ (names stopped' j ≡ true)) ⊎ (stop_failed j err ≡ true)
  unfolding stop_from
  stop_from_up ended stopped [] c h = inl h
  stop_from_up ended stopped (id ∷ ids) c h = ground (
    arith,
    any-append (λ i. i == j) stopped (id ∷ []),
    eq_iff id j,
    stop_other id j c,
    stop_from_up ended (stopped ++ id ∷ []) ids (stop_container id c).1,
  )

  -- a container that is not among those to stop is left alone
  pub stop_from_other :
      (ended : ℕ → Bool) (stopped ids : List String) (c : Containers)
      → names ids j ≡ false
      → let (stopped', err, c') = stop_from daemon ended stopped ids c in
        (up c' j ≡ up c j) × (names stopped' j ≡ names stopped j)
  unfolding stop_from
  stop_from_other ended stopped [] c h = (refl, refl)
  stop_from_other ended stopped (id ∷ ids) c h = ground (
    arith,
    any-append (λ i. i == j) stopped (id ∷ []),
    stop_other id j c,
    stop_from_other ended (stopped ++ id ∷ []) ids (stop_container id c).1,
  )

  pub start_all_up :
      (ids : List String) (c : Containers)
      → (up c j ≡ true) ⊎ (names ids j ≡ true)
      → let (failed, c') = start_all daemon ids c in (up c' j ≡ true) ⊎ (names failed j ≡ true)
  unfolding start_all
  start_all_up [] c h = ground arith
  start_all_up (id ∷ ids) c h = ground (
    arith,
    eq_iff id j,
    start_other id j c,
    start_up id c,
    start_keeps id c,
    start_all_up ids (start_container id c).1,
  )

  pub start_all_other :
      (ids : List String) (c : Containers)
      → names ids j ≡ false
      → up (start_all daemon ids c).1 j ≡ up c j
  unfolding start_all
  start_all_other [] c h = refl
  start_all_other (id ∷ ids) c h =
      ground (arith, start_other id j c, start_all_other ids (start_container id c).1)

  -- no start takes a container down
  pub start_all_keeps :
      (ids : List String) (c : Containers) → up c j ≡ true → up (start_all daemon ids c).1 j ≡ true
  unfolding start_all
  start_all_keeps [] c h = h
  start_all_keeps (id ∷ ids) c h = ground (
    arith,
    eq_iff id j,
    start_other id j c,
    start_keeps id c,
    start_all_keeps ids (start_container id c).1,
  )

  -- Whatever a hold came to, an error or an ended context included, its release leaves every
  -- container up that was up before, or names it among those that did not start, unless it is the one
  -- whose stop the hold reported as failed. A container that was not listed as running is as it was. A
  -- second call of the release starts nothing, and changes neither a container nor the file of notes.
  pub hold_release_lem :
      (ended : ℕ → Bool) (app : String) (lists : Map (List ContainerSummary)) (d : Disk)
      (c : Containers)
      → let (h, err, d₁, c₁) = hold_app daemon ended app lists d c in
        let (failed, forgot, h', d₂, c₂) = release daemon h d₁ c₁ in
        let (failed', forgot', h'', d₃, c₃) = release daemon h' d₂ c₂ in
        (up c j ≡ true → ((up c₂ j ≡ true) ⊎ (names failed j ≡ true)) ⊎ (stop_failed j err ≡ true))
        × (names (running_container_ids lists) j ≡ false → up c₂ j ≡ up c j)
        × (failed' ≡ [])
        × (c₃ ≡ c₂)
        × (d₃ ≡ d₂)
  unfolding hold_app release
  hold_release_lem ended app lists d c =
      let ids = running_container_ids lists in
      let (stopped, err, c₁) = stop_from daemon ended [] ids c in
      let back = any-reverse (λ i. i == j) stopped in
      (
        (λ h. elim (stop_from_up ended [] ids c (inl h)) [
          | inl s ↦ inl (start_all_up (reverse stopped) c₁ (ground (arith, s, back)))
          | inr f ↦ inr f
        ]),
        (λ n.
            let other = stop_from_other ended [] ids c n in
            start_all_other (reverse stopped) c₁ (back ∙ other.1) ∙ other.0),
        unfold start_all in refl,
        unfold start_all in refl,
        forget_held_twice app (remember_held app ids d).1,
      )

forget_held_lem :
    (app : String) (d : Disk) (held : Map (List String))
    → d.held ≡ some held
    → d.writable ≡ true
    → ((forget_held app d).0 ≡ true)
      × ((held' : Map (List String)) × ((forget_held app d).1.held ≡ some held')
          × ((a : String) → Map.get a held' ≡ (if app == a then none else Map.get a held)))
unfolding forget_held
forget_held_lem app d held e w = elim (Option-cases (Map.get app held)) [
  | inl n ↦ (ground arith, (held, ground arith, λ a. ground (arith, eq_iff app a)))
  | inr s ↦ (ground arith, (Map.delete app held, ground arith, λ a. get-delete app a held))
]

-- The release erases the app's note, if the file of notes can be read and written, whether or not
-- its containers started again, and leaves the notes of other apps.
pub release_forgets :
    (daemon : Daemon) (h : HeldApp) (d : Disk) (c : daemon.Containers) (held : Map (List String))
    → d.held ≡ some held
    → d.writable ≡ true
    → let (failed, forgot, h', d', c') = release daemon h d c in
      (forgot ≡ true)
      × ((held' : Map (List String)) × (d'.held ≡ some held')
          × ((a : String) → Map.get a held' ≡ (if h.app == a then none else Map.get a held)))
unfolding release
release_forgets daemon h d c held e w = forget_held_lem h.app d held e w
