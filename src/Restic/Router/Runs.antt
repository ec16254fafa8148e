-- ===== src/Restic/Router/Runs.antt =====
-- pkg/restic/router.go: what Runs lists.
use casa_os_app_management.Prelude.{
  String, ◌≡◌, inl, inr, refl, sym, ◌∙◌, Bool, true, false, not, ◌&&◌, ◌||◌, Option, none, List, [],
  ◌∷◌, ◌++◌, arith, eq_iff, eq_refl, ◌==◌, if◌then◌else◌, Bool-cases, count, any, str_le,
  str_le_total, str_le_trans, insertion_sort, IsSorted, insertion_sort-IsSorted,
  count-insertion_sort,
}
use casa_os_app_management.Restic.Router.{
  Router, repository_folder, is_none, is_not_found, names_of, runs,
}

abbrev pub is_in : String → List String → Bool
is_in n = any (λ m. m == n)

-- the repository's own folder among the apps
abbrev pub is_repository : String → String → Bool
is_repository app n = app == "" && n == repository_folder

count-names_of :
    (app : String) (seen names : List String) (n : String)
    → count (λ m. m == n) (names_of app seen names)
      ≡ (if is_in n names && not (is_in n seen || is_repository app n) then 1 else 0)
unfolding names_of
count-names_of app seen [] n = refl
count-names_of app seen (name ∷ names) n = elim (Bool-cases (name == n)) [
  | inl e ↦
      let p : n ≡ name = sym ((eq_iff name n).0 e) in
      rw p (
        ground (
          arith,
          eq_refl name,
          count-names_of app seen names name,
          count-names_of app (name ∷ seen) names name,
        ))
  | inr e ↦
      ground (arith, count-names_of app seen names n, count-names_of app (name ∷ seen) names n)
]

module _ {W E File Bytes : Type 0} (says_directory_not_found is_nothing_held : E → Bool)
    (r : Router W E File Bytes) where
  runs-both :
      (name app : String) (w w₁ w₂ : W) (in_repository stamped : List String) (err : Option E)
      → r.restic.held name w ≡ true
      → r.restic.calls.runs name app w ≡ ((in_repository, none), w₁)
      → r.legacy.runs name app w₁ ≡ ((stamped, err), w₂)
      → (is_none err || is_not_found says_directory_not_found err) ≡ true
      → runs says_directory_not_found is_nothing_held r name app w
        ≡ ((insertion_sort str_le (names_of app [] (in_repository ++ stamped)), none), w₂)
  unfolding runs
  runs-both name app w w₁ w₂ in_repository stamped err held first second fine =
      let passes : (not (is_none err) && not (is_not_found says_directory_not_found err)) ≡ false =
        ground (arith, fine) in
      rw (held, first, second, passes) refl

  -- A destination whose repository's key the box holds lists `in_repository` in the repository and then
  -- `stamped` on the rclone side, which may fail only because there is no such folder. The router then
  -- answers without an error, with a sorted list that has each name of either list once, and among the
  -- apps not the folder of the repository.
  pub runs_lem :
      (name app : String) (w w₁ w₂ : W) (in_repository stamped : List String) (err : Option E)
      (n : String)
      → r.restic.held name w ≡ true
      → r.restic.calls.runs name app w ≡ ((in_repository, none), w₁)
      → r.legacy.runs name app w₁ ≡ ((stamped, err), w₂)
      → (is_none err || is_not_found says_directory_not_found err) ≡ true
      → let answer = (runs says_directory_not_found is_nothing_held r name app w).0 in
        (answer.1 ≡ none)
        × (IsSorted str_le answer.0
            × (count (λ m. m == n) answer.0 ≡ (
                if is_in n (in_repository ++ stamped) && not (is_repository app n) then 1 else 0)))
  runs_lem name app w w₁ w₂ in_repository stamped err n held first second fine =
      let names = names_of app [] (in_repository ++ stamped) in
      rw (runs-both name app w w₁ w₂ in_repository stamped err held first second fine) (
        refl,
        (
          insertion_sort-IsSorted str_le str_le_total str_le_trans names,
          count-insertion_sort str_le (λ m. m == n) names
              ∙ ground (arith, count-names_of app [] (in_repository ++ stamped) n),
        ),
      )
