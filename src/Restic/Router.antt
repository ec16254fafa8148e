-- ===== src/Restic/Router.antt =====
-- pkg/restic/router.go: which of the two engines answers a backup's nine calls.
--
-- Both engines are parameters. A call of theirs takes and returns the world: the disk of the box, the
-- destinations and the processes. An error is what the code reads of it: whether it is `ErrNothingHeld`
-- and whether its text says `directory not found`. `ctx` is part of the world.
pub mod Runs
pub mod Purging
mod Examples
use casa_os_app_management.Prelude.{
  ℕ, zero, suc, ◌+◌, ◌-◌, ◌*◌, ◌/◌, ◌%◌, ◌^◌, ◌≤◌, ◌<◌, min, max, String, ◌≡◌, ◌≢◌, ◌↔◌, ◌⊎◌, inl,
  inr, refl, sym, ap, subst, ◌∙◌, Bool, true, false, not, ◌&&◌, ◌||◌, Option, none, some, List, [],
  ◌∷◌, ◌++◌, map, reverse, arith, eq_iff, eq_refl, ◌==◌, ltb, leb, ◌=ℕ◌, if◌then◌else◌, leb→le,
  ltb→lt, Bool-cases, Option-cases, length, take, drop, length-append, length-take, length-drop,
  take-append-drop, count, any, keep, count-append, count-le-length, any-pos, any-append,
  any-reverse, any_none, get_elem?, set, count-set, count-pos, drop-set, length-set, drop-append,
  drop_step, get_elem?-drop, get_elem?_in, get_elem?-append, get_elem?_lt, Sub, nil, Sub-snoc,
  Sub-tail, Sub-delete, snoc-ne-nil, All, All-append, All-map, All-zip, str_le, codes, str_le_total,
  str_le_trans, str_le_antisym, insert, insertion_sort, IsSorted, insertion_sort-IsSorted,
  count-insertion_sort, length-insertion_sort, sum_by-insertion_sort, any-insertion_sort,
  All-insertion_sort, sum_by, sum_by-append, sum_by-keep, count-keep, All-keep, All-keep_of,
  All-tail_of_append, All-head_of_append,
}
use casa_os_app_management.Prelude.Map
use casa_os_app_management.Prelude.Map.{
  Map, get-assign, get-delete, keys, IsMap, IsMap-assign, IsMap-delete, any-keys, count-keys,
}

-- `(A, error)`, where no error is `nil`
abbrev pub Answer : Type 0 → Type 0 → Type 0
Answer E A = A × Option E

module _ (W E File Bytes : Type 0) where
  -- the calls that both engines have
  pub record Legacy : Type 0 where
    pub copy_directory : String → String → String → W → Option E × W
    pub copy_file : String → String → String → W → Option E × W
    pub restore_directory : String → String → String → W → Option E × W
    pub restore_file : String → String → String → W → Option E × W
    pub fetch : String → String → W → Answer E Bytes × W
    pub runs : String → String → W → Answer E (List String) × W
    pub purge : String → String → W → Option E × W
    pub list : String → String → String → W → Answer E (List File) × W
    pub copy_back : String → String → String → String → W → Option E × W

  -- `*Engine`: those but `purge`, and the ones that the router asks besides
  pub record Engine : Type 0 where
    pub calls : Legacy
    pub enabled : String → W → Bool
    pub held : String → W → Bool
    pub forget : String → String → W → Answer E Bool × W

  pub record Router : Type 0 where
    pub restic : Engine
    pub legacy : Legacy

-- the folder of the repository among those of the apps
abbrev pub repository_folder : String
repository_folder = "casaos-restic"

abbrev pub is_none : {E : Type 0} → Option E → Bool
is_none none = true
is_none (some e) = false

-- `isNotFound`
abbrev pub is_not_found : {E : Type 0} → (E → Bool) → Option E → Bool
is_not_found says_directory_not_found none = false
is_not_found says_directory_not_found (some e) = says_directory_not_found e

-- `errors.Is(err, ErrNothingHeld)`
abbrev pub nothing_held : {E : Type 0} → (E → Bool) → Option E → Bool
nothing_held is_nothing_held none = false
nothing_held is_nothing_held (some e) = is_nothing_held e

-- the repository's answer, unless it holds nothing there
abbrev pub or_else : {W E A : Type 0} → (E → Bool) → (A → Option E) → A × W → (W → A × W) → A × W
or_else is_nothing_held error_of (answer, w) second =
    let again = second w in
    if nothing_held is_nothing_held (error_of answer) then again else (answer, w)

-- the loop of `Runs`, with the names that `seen` maps to true
unfoldable pub names_of : String → List String → List String → List String
names_of app seen [] = []
names_of app seen (name ∷ names) =
    let others = names_of app seen names in
    let next = names_of app (name ∷ seen) names in
    if any (λ n. n == name) seen || (app == "" && name == repository_folder)
    then others
    else name ∷ next

module _ {W E File Bytes : Type 0} (says_directory_not_found is_nothing_held : E → Bool)
    (r : Router W E File Bytes) where
  unfoldable pub copy_directory : String → String → String → W → Option E × W
  copy_directory source name path w =
      if r.restic.enabled name w
      then r.restic.calls.copy_directory source name path w
      else r.legacy.copy_directory source name path w

  unfoldable pub copy_file : String → String → String → W → Option E × W
  copy_file source name path w =
      if r.restic.enabled name w
      then r.restic.calls.copy_file source name path w
      else r.legacy.copy_file source name path w

  unfoldable pub restore_directory : String → String → String → W → Option E × W
  restore_directory name remote host w =
      if r.restic.held name w
      then or_else is_nothing_held (λ e. e) (r.restic.calls.restore_directory name remote host w)
          (r.legacy.restore_directory name remote host)
      else r.legacy.restore_directory name remote host w

  unfoldable pub restore_file : String → String → String → W → Option E × W
  restore_file name remote host w =
      if r.restic.held name w
      then or_else is_nothing_held (λ e. e) (r.restic.calls.restore_file name remote host w)
          (r.legacy.restore_file name remote host)
      else r.legacy.restore_file name remote host w

  unfoldable pub list : String → String → String → W → Answer E (List File) × W
  list name remote sub w =
      if r.restic.held name w
      then or_else is_nothing_held (λ a. a.1) (r.restic.calls.list name remote sub w)
          (r.legacy.list name remote sub)
      else r.legacy.list name remote sub w

  unfoldable pub copy_back : String → String → String → String → W → Option E × W
  copy_back name remote sub host w =
      if r.restic.held name w
      then or_else is_nothing_held (λ e. e) (r.restic.calls.copy_back name remote sub host w)
          (r.legacy.copy_back name remote sub host)
      else r.legacy.copy_back name remote sub host w

  unfoldable pub fetch : String → String → W → Answer E Bytes × W
  fetch name remote w =
      if r.restic.held name w
      then or_else is_nothing_held (λ a. a.1) (r.restic.calls.fetch name remote w)
          (r.legacy.fetch name remote)
      else r.legacy.fetch name remote w

  -- `Runs` when the repository has answered
  abbrev pub runs_with : String → String → Answer E (List String) × W → Answer E (List String) × W
  runs_with name app ((in_repository, some e), w) = (([], some e), w)
  runs_with name app ((in_repository, none), w) =
      let ((stamped, err), w') = r.legacy.runs name app w in
      let names = insertion_sort str_le (names_of app [] (in_repository ++ stamped)) in
      if not (is_none err) && not (is_not_found says_directory_not_found err)
      then (([], err), w')
      else ((names, none), w')

  unfoldable pub runs : String → String → W → Answer E (List String) × W
  unfolding names_of
  runs name app w =
      if r.restic.held name w
      then runs_with name app (r.restic.calls.runs name app w)
      else r.legacy.runs name app w

  -- `Purge` when the repository has answered
  abbrev pub purge_with : String → String → Answer E Bool × W → Option E × W
  purge_with name remote ((forgotten, some e), w) = (some e, w)
  purge_with name remote ((true, none), w) = (none, w)
  purge_with name remote ((false, none), w) =
      let (err, w') = r.legacy.purge name remote w in
      (if is_not_found says_directory_not_found err then none else err, w')

  unfoldable pub purge : String → String → W → Option E × W
  purge name remote w =
      if r.restic.held name w
      then purge_with name remote (r.restic.forget name remote w)
      else r.legacy.purge name remote w
