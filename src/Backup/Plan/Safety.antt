-- ===== src/Backup/Plan/Safety.antt =====
-- service/backup_inventory.go and service/backup_plan.go: nothing is lost, and nothing foreign is copied.
use casa_os_app_management.Prelude.{
  ℕ, suc, ◌+◌, String, ◌≡◌, inl, inr, refl, ap, ◌∙◌, Bool, true, false, not, ◌&&◌, ◌||◌, Option,
  none, some, List, [], ◌∷◌, map, arith, eq_iff, ◌==◌, if◌then◌else◌, Bool-cases, count, All,
  All-append, ◌<>◌, clean, clean-not_empty, join_path, str_le, insertion_sort,
}
use casa_os_app_management.Prelude.Map
use casa_os_app_management.Prelude.Map.{
  Map, get-assign, get-delete, keys, IsMap, IsMap-assign, IsMap-delete, any-keys, count-keys,
}
use text.Mathlib.TextLemmas.{append-eq-nil_iff}
use casa_os_app_management.Backup.Plan.{
  BackupOperation, decide, by_kind, volume_operation, is_bind, numbered, put, plan_from,
  plan_backup,
}
use casa_os_app_management.Backup.Plan.HostPaths.{is_of_host, listed-path}
use casa_os_app_management.Backup.Inventory.{
  BackupKind, compose, env, volume, bind, BackupEntry, ServiceVolume, ComposeApp,
  resolve_bind_source, backup_entry_for_volume, entries_of, entries_by_name, volumes_of,
  backup_entries_for_services, entries_of_files, file_entry, only_the_first, backup_inventory,
  compose_dir_of,
}

-- how many operations and skipped entries are of a kind
abbrev pub of_kind : (BackupKind → Bool) → List BackupOperation × List BackupEntry → ℕ
of_kind p plan = count (λ o. p o.kind) plan.0 + count (λ e. p e.kind) plan.1

-- an operation that may be in a plan
abbrev pub may_copy : BackupOperation → Bool
may_copy o = not (o.source == "") && (not (is_bind o.kind) || not (is_of_host o.source))

abbrev pub by_path : BackupKind → String → Bool
by_path compose path = not (path == "")
by_path env path = not (path == "")
by_path volume path = true
by_path bind path = not (path == "") && not (is_of_host path)

-- an entry that is skipped, or has a path of its own if it is not a named volume
abbrev pub may_be_listed : BackupEntry → Bool
may_be_listed e = not (e.skip == "") || by_path e.kind e.path

module _ (p : BackupKind → Bool) where
  of_kind-volume :
      (e : BackupEntry) (mountpoint : Option String)
      (rest : List BackupOperation × List BackupEntry)
      → of_kind p (put (volume_operation e mountpoint) rest)
        ≡ (if p e.kind then 1 else 0) + of_kind p rest
  of_kind-volume e none rest = ground arith
  of_kind-volume e (some m) rest = elim (Bool-cases (m == "")) [
    | inl b ↦ rw b (ground arith)
    | inr b ↦ rw b (ground arith)
  ]

  of_kind-decide :
      (k : BackupKind) (e : BackupEntry) (mountpoints : Map String) (n : ℕ)
      (rest : List BackupOperation × List BackupEntry)
      → of_kind p (put (by_kind k e mountpoints n) rest)
        ≡ (if p e.kind then 1 else 0) + of_kind p rest
  of_kind-decide compose e mountpoints n rest = ground arith
  of_kind-decide env e mountpoints n rest = ground arith
  of_kind-decide volume e mountpoints n rest =
      of_kind-volume e (Map.get e.volume_name mountpoints) rest
  of_kind-decide bind e mountpoints n rest = ground arith

  of_kind-plan_from :
      (n : ℕ) (mountpoints : Map String) (es : List BackupEntry)
      → of_kind p (plan_from n mountpoints es) ≡ count (λ e. p e.kind) es
  unfolding plan_from decide
  of_kind-plan_from n mountpoints [] = refl
  of_kind-plan_from n mountpoints (e ∷ es) =
      let rest = plan_from (numbered e n) mountpoints es in
      elim (Bool-cases (e.skip == "")) [
        | inl b ↦ rw b (
            ground (
              arith,
              of_kind-decide e.kind e mountpoints (suc n)
                  (plan_from (if is_bind e.kind then suc n else n) mountpoints es),
              of_kind-plan_from (if is_bind e.kind then suc n else n) mountpoints es,
            ))
        | inr b ↦ rw b (ground (arith, of_kind-plan_from n mountpoints es))
      ]

may_copy-volume :
    (e : BackupEntry) (mountpoint : Option String) (rest : List BackupOperation × List BackupEntry)
    → e.kind ≡ volume
    → All (λ o. may_copy o ≡ true) rest.0
    → All (λ o. may_copy o ≡ true) (put (volume_operation e mountpoint) rest).0
may_copy-volume e none rest h hs = hs
may_copy-volume e (some m) rest h hs = elim (Bool-cases (m == "")) [
  | inl b ↦ rw b hs
  | inr b ↦ rw b (rw (b, h) refl, hs)
]

may_copy-by_kind :
    (k : BackupKind) (e : BackupEntry) (mountpoints : Map String) (n : ℕ)
    (rest : List BackupOperation × List BackupEntry)
    → e.kind ≡ k
    → by_path k e.path ≡ true
    → All (λ o. may_copy o ≡ true) rest.0
    → All (λ o. may_copy o ≡ true) (put (by_kind k e mountpoints n) rest).0
may_copy-by_kind compose e mountpoints n rest h g hs = (
  ap (λ k. not (e.path == "") && (not (is_bind k) || not (is_of_host e.path))) h
      ∙ ground (arith, g),
  hs,
)
may_copy-by_kind env e mountpoints n rest h g hs = (
  ap (λ k. not (e.path == "") && (not (is_bind k) || not (is_of_host e.path))) h
      ∙ ground (arith, g),
  hs,
)
may_copy-by_kind volume e mountpoints n rest h g hs =
    may_copy-volume e (Map.get e.volume_name mountpoints) rest h hs
may_copy-by_kind bind e mountpoints n rest h g hs = (
  ap (λ k. not (e.path == "") && (not (is_bind k) || not (is_of_host e.path))) h
      ∙ ground (arith, g),
  hs,
)

may_copy-plan_from :
    (n : ℕ) (mountpoints : Map String) (es : List BackupEntry)
    → All (λ e. may_be_listed e ≡ true) es
    → All (λ o. may_copy o ≡ true) (plan_from n mountpoints es).0
unfolding plan_from decide
may_copy-plan_from n mountpoints [] h = tt
may_copy-plan_from n mountpoints (e ∷ es) h = elim (Bool-cases (e.skip == "")) [
  | inl b ↦ rw b (
      may_copy-by_kind e.kind e mountpoints (suc n)
        (plan_from (if is_bind e.kind then suc n else n) mountpoints es) refl
        (ground (arith, h.0, b))
        (may_copy-plan_from (if is_bind e.kind then suc n else n) mountpoints es h.1))
  | inr b ↦ rw b (may_copy-plan_from n mountpoints es h.1)
]

not_a_folder : (s : String) → ((s <> " is not a folder to copy") == "") ≡ false
not_a_folder s = elim (Bool-cases ((s <> " is not a folder to copy") == "")) [
  | inl e ↦
      let empty = (append-eq-nil_iff.0 ((eq_iff (s <> " is not a folder to copy") "").0 e)).1 in
      ground (arith, ap (λ t. t == "") empty)
  | inr e ↦ e
]

listed-volume :
    (v : ServiceVolume) (service compose_dir : String)
    → may_be_listed (backup_entry_for_volume v service compose_dir) ≡ true
unfolding backup_entry_for_volume
listed-volume v service compose_dir = elim (Bool-cases (v.volume_type == "volume")) [
  | inl a ↦ elim (Bool-cases (v.source == "")) [ inl b ↦ rw (a, b) refl | inr b ↦ rw (a, b) refl ]
  | inr a ↦ elim (Bool-cases (v.volume_type == "tmpfs")) [
    | inl b ↦ rw (a, b) refl
    | inr b ↦ elim (Bool-cases (v.volume_type == "npipe" || v.volume_type == "cluster")) [
      | inl c ↦ rw (a, b, c) (ground (arith, not_a_folder v.volume_type))
      | inr c ↦ elim (Bool-cases (resolve_bind_source v.source compose_dir == "")) [
        | inl d ↦ rw (a, b, c, d) refl
        | inr d ↦ rw (a, b, c) (rw d (listed-path (resolve_bind_source v.source compose_dir) d))
      ]
    ]
  ]
]

listed-service :
    (service compose_dir : String) (vs : List ServiceVolume)
    → All (λ e. may_be_listed e ≡ true) (entries_of service compose_dir vs)
listed-service service compose_dir [] = tt
listed-service service compose_dir (v ∷ vs) =
    (listed-volume v service compose_dir, listed-service service compose_dir vs)

listed-by_name :
    (services : Map (List ServiceVolume)) (compose_dir : String) (names : List String)
    → All (λ e. may_be_listed e ≡ true) (entries_by_name services compose_dir names)
unfolding entries_by_name
listed-by_name services compose_dir [] = tt
listed-by_name services compose_dir (name ∷ names) =
    let P : BackupEntry → Type 0 = λ e. may_be_listed e ≡ true in
    All-append P (entries_of name compose_dir (volumes_of (Map.get name services)))
      (entries_by_name services compose_dir names)
      (listed-service name compose_dir (volumes_of (Map.get name services)))
      (listed-by_name services compose_dir names)

listed-extra :
    (files : List String)
    → All
        (λ e. may_be_listed e ≡ true)
        (map (λ f. file_entry compose (clean f) only_the_first) files)
listed-extra [] = tt
listed-extra (f ∷ fs) = (refl, listed-extra fs)

listed-files :
    (env_file : String) (env_exists : Bool) (files : List String)
    → All (λ e. may_be_listed e ≡ true) (entries_of_files env_file env_exists files)
listed-files env_file env_exists [] = tt
listed-files env_file false (file ∷ extra) = (
  rw (clean-not_empty file) refl,
  All-append (λ e. may_be_listed e ≡ true)
      (map (λ f. file_entry compose (clean f) only_the_first) extra) [] (listed-extra extra) tt,
)
listed-files env_file true (file ∷ extra) = (
  rw (clean-not_empty file) refl,
  All-append (λ e. may_be_listed e ≡ true)
      (map (λ f. file_entry compose (clean f) only_the_first) extra)
      (file_entry env (clean env_file) "" ∷ []) (listed-extra extra)
      (rw (clean-not_empty env_file) refl, tt),
)

-- Whatever an app mounts and wherever Docker keeps its volumes, the plan made of its inventory has as
-- many operations and skipped entries of each kind together as the inventory has entries. Every operation
-- has a source, and the path of a bind's, cleaned, is none of `/`, `.`, `/var/run/docker.sock`,
-- `/run/docker.sock`, `/etc/localtime` and `/etc/timezone`, and neither `/dev`, `/sys` or `/proc` nor
-- inside one of them.
pub plan_is_safe :
    (name : String) (a : ComposeApp) (is_there : String → Bool) (mountpoints : Map String)
    (p : BackupKind → Bool)
    → let inventory = backup_inventory is_there a in
      let m = plan_backup name inventory mountpoints in
      (of_kind p (m.operations, m.skipped) ≡ count (λ e. p e.kind) inventory)
      × All (λ o. may_copy o ≡ true) m.operations
unfolding plan_backup backup_inventory backup_entries_for_services
plan_is_safe name a is_there mountpoints p =
    let inventory = backup_inventory is_there a in
    let env_file = join_path a.working_dir ".env" in
    (
      of_kind-plan_from p 0 mountpoints inventory,
      may_copy-plan_from 0 mountpoints inventory (
          All-append (λ e. may_be_listed e ≡ true)
            (entries_of_files env_file (is_there env_file) a.compose_files)
            (backup_entries_for_services a.services (compose_dir_of a))
            (listed-files env_file (is_there env_file) a.compose_files)
            (listed-by_name a.services (compose_dir_of a)
              (insertion_sort str_le (keys a.services)))),
    )
