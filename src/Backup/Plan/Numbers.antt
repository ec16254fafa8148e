-- ===== src/Backup/Plan/Numbers.antt =====
-- service/backup_plan.go: where each entry goes, and the folders of the binds.
use casa_os_app_management.Prelude.{
  ℕ, zero, suc, ◌≤◌, String, ◌≡◌, inl, inr, refl, ap, subst, ◌∙◌, ◌&&◌, Option, none, some, List,
  [], ◌∷◌, arith, eq_iff, ◌==◌, if◌then◌else◌, Bool-cases, count, keep, length, map, ◌<>◌, show,
  show_inj,
}
use casa_os_app_management.Prelude.Map
use casa_os_app_management.Prelude.Map.{
  Map, get-assign, get-delete, keys, IsMap, IsMap-assign, IsMap-delete, any-keys, count-keys,
}
use casa_os_app_management.Backup.Plan.{
  BackupOperation, decide, by_kind, volume_operation, is_bind, put, plan_from, plan_backup,
}
use casa_os_app_management.Backup.Inventory.{BackupKind, compose, env, volume, bind, BackupEntry}
use text.Mathlib.TextLemmas.{append_cancel_left}

-- what a copy of a bind is: from where, to where, for which service and at which target
abbrev pub BindCopy : Type 0
BindCopy = String × String × String × String

abbrev pub bind_copies : List BackupOperation → List BindCopy
bind_copies [] = []
bind_copies (o ∷ os) =
    if is_bind o.kind
    then (o.source, o.destination, o.service, o.target) ∷ bind_copies os
    else bind_copies os

abbrev pub destinations : List BindCopy → List String
destinations = map (λ b. b.1)

abbrev pub folder : ℕ → String
folder n = "binds/" <> show n

-- the folders of the binds after the first `n`
abbrev pub folders_from : ℕ → ℕ → List String
folders_from n zero = []
folders_from n (suc k) = folder (suc n) ∷ folders_from (suc n) k

-- the binds that are not skipped
abbrev pub binds_in : List BackupEntry → List BackupEntry
binds_in = keep (λ e. e.skip == "" && is_bind e.kind)

abbrev pub copy_to : String → BackupEntry → BindCopy
copy_to destination e = (e.path, destination, e.service, e.target)

-- the entries in their order, each with the next folder after the first `n`
abbrev pub copies_from : ℕ → List BackupEntry → List BindCopy
copies_from n [] = []
copies_from n (e ∷ es) = copy_to (folder (suc n)) e ∷ copies_from (suc n) es

destinations-copies_from :
    (n : ℕ) (es : List BackupEntry) → destinations (copies_from n es) ≡ folders_from n (length es)
destinations-copies_from n [] = refl
destinations-copies_from n (e ∷ es) =
    ap (◌∷◌ (folder (suc n))) (destinations-copies_from (suc n) es)

folder_inj : (m n : ℕ) → folder m ≡ folder n → m ≡ n
folder_inj m n h = show_inj m n (append_cancel_left "binds/" (show m) (show n) h)

no_folder_before : (m n k : ℕ) → m ≤ n → count (λ s. s == folder m) (folders_from n k) ≡ 0
no_folder_before m n zero h = refl
no_folder_before m n (suc k) h = elim (Bool-cases (folder (suc n) == folder m)) [
  | inl e ↦
      let same : suc n ≡ m = folder_inj (suc n) m ((eq_iff (folder (suc n)) (folder m)).0 e) in
      omega (arith, same, h)
  | inr e ↦ rw e (no_folder_before m (suc n) k (omega (arith, h)))
]

folders_from-once : (d : String) (n k : ℕ) → count (λ s. s == d) (folders_from n k) ≤ 1
folders_from-once d n zero = omega arith
folders_from-once d n (suc k) = elim (Bool-cases (folder (suc n) == d)) [
  | inl e ↦
      let none_left : count (λ s. s == d) (folders_from (suc n) k) ≡ 0 =
        subst (λ x. count (λ s. s == x) (folders_from (suc n) k) ≡ 0)
          ((eq_iff (folder (suc n)) d).0 e) (no_folder_before (suc n) (suc n) k (omega arith)) in
      rw (e, none_left) (omega arith)
  | inr e ↦ rw e (folders_from-once d (suc n) k)
]

bind_copies-volume :
    (e : BackupEntry) (mountpoint : Option String) (rest : List BackupOperation × List BackupEntry)
    → e.kind ≡ volume
    → bind_copies (put (volume_operation e mountpoint) rest).0 ≡ bind_copies rest.0
bind_copies-volume e none rest h = refl
bind_copies-volume e (some m) rest h = elim (Bool-cases (m == "")) [
  | inl b ↦ rw b refl
  | inr b ↦ rw (b, h) refl
]

bind_copies-by_kind :
    (k : BackupKind) (e : BackupEntry) (mountpoints : Map String) (n : ℕ)
    (rest : List BackupOperation × List BackupEntry)
    → e.kind ≡ k
    → bind_copies (put (by_kind k e mountpoints n) rest).0
      ≡ (if is_bind k then copy_to (folder n) e ∷ bind_copies rest.0 else bind_copies rest.0)
bind_copies-by_kind compose e mountpoints n rest h = rw h refl
bind_copies-by_kind env e mountpoints n rest h = rw h refl
bind_copies-by_kind volume e mountpoints n rest h =
    bind_copies-volume e (Map.get e.volume_name mountpoints) rest h
bind_copies-by_kind bind e mountpoints n rest h = rw h refl

bind_copies-plan_from :
    (n : ℕ) (mountpoints : Map String) (es : List BackupEntry)
    → bind_copies (plan_from n mountpoints es).0 ≡ copies_from n (binds_in es)
unfolding plan_from decide
bind_copies-plan_from n mountpoints [] = refl
bind_copies-plan_from n mountpoints (e ∷ es) = elim (Bool-cases (e.skip == "")) [
  | inr b ↦ rw b (bind_copies-plan_from n mountpoints es)
  | inl b ↦ rw b (
      bind_copies-by_kind e.kind e mountpoints (suc n)
        (plan_from (if is_bind e.kind then suc n else n) mountpoints es) refl
      ∙ elim (Bool-cases (is_bind e.kind)) [
        | inl k ↦
            rw k
              (ap (◌∷◌ (copy_to (folder (suc n)) e)) (bind_copies-plan_from (suc n) mountpoints es))
        | inr k ↦ rw k (bind_copies-plan_from n mountpoints es)
      ])
]

-- The copies of binds in a plan are those of the binds that are not skipped, in the order of the
-- inventory: the first from its path to `binds/1`, the second from its path to `binds/2` and so on, each
-- with the service and the target of its entry; and no two go to the same folder.
pub binds_numbered :
    (app : String) (inventory : List BackupEntry) (mountpoints : Map String) (d : String)
    → let copies = bind_copies (plan_backup app inventory mountpoints).operations in
      (copies ≡ copies_from 0 (binds_in inventory))
      × (count (λ s. s == d) (destinations copies) ≤ 1)
unfolding plan_backup
binds_numbered app inventory mountpoints d =
    let numbers = bind_copies-plan_from 0 mountpoints inventory in
    (
      numbers,
      rw (numbers, destinations-copies_from 0 (binds_in inventory))
          (folders_from-once d 0 (length (binds_in inventory))),
    )
