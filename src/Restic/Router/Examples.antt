-- ===== src/Restic/Router/Examples.antt =====
-- pkg/restic/router.go: two engines over lists of runs.
use casa_os_app_management.Prelude.{
  String, ◌≡◌, inl, inr, refl, ap, subst, Bool, true, false, not, none, some, List, [], ◌∷◌, arith,
  ◌==◌, if◌then◌else◌, Bool-cases, count, any, keep, str_le, insertion_sort, IsSorted,
}
use casa_os_app_management.Restic.Router.{Legacy, Router, purge, runs, restore_file}
use casa_os_app_management.Restic.Router.Runs.{runs_lem}
use casa_os_app_management.Restic.Router.Purging.{DeletionLaws, purge_lem}

-- the runs in the repository and the stamped ones
abbrev Runs : Type 0
Runs = List String × List String

-- an error that says `directory not found`, or is `ErrNothingHeld`
data Fault : Type 0 where
  no_folder nothing other : Fault

abbrev says_directory_not_found : Fault → Bool
says_directory_not_found no_folder = true
says_directory_not_found nothing = false
says_directory_not_found other = false

abbrev is_nothing_held : Fault → Bool
is_nothing_held no_folder = false
is_nothing_held nothing = true
is_nothing_held other = false

abbrev without : String → List String → List String
without s = keep (λ x. not (s == x))

abbrev has : String → List String → Bool
has s = any (λ x. s == x)

abbrev calls_on : (Runs → List String) → Legacy Runs Fault String String
calls_on part = record {
  copy_directory = λ source name path w. (none, w);
  copy_file = λ source name path w. (none, w);
  restore_directory = λ name remote host w. (none, w);
  restore_file = λ name remote host w. (if has remote (part w) then none else some nothing, w);
  fetch = λ name remote w. ((remote, none), w);
  runs = λ name app w. ((part w, none), w);
  purge = λ name remote w. (none, (w.0, without remote w.1));
  list = λ name remote sub w. (([], none), w);
  copy_back = λ name remote sub host w. (none, w);
}

abbrev router : Router Runs Fault String String
router = record {
  restic = record {
    calls = calls_on (λ w. w.0);
    enabled = λ name w. true;
    held = λ name w. true;
    forget = λ name remote w. ((has remote w.0, none), (without remote w.0, w.1));
  };
  legacy = calls_on (λ w. w.1);
}

abbrev world : Runs
world = ("c" ∷ "a" ∷ [], "casaos-restic" ∷ "b" ∷ "a" ∷ [])

runs_test :
    runs says_directory_not_found is_nothing_held router "usb" "" world
    ≡ (("a" ∷ "b" ∷ "c" ∷ [], none), world)
unfolding runs insertion_sort str_le
runs_test = refl

restore_file_test :
    (restore_file says_directory_not_found is_nothing_held router "usb" "b" "/x" world).0 ≡ none
unfolding restore_file
restore_file_test = refl

runs_lem_example :
    let answer = (runs says_directory_not_found is_nothing_held router "usb" "" world).0 in
    (answer.1 ≡ none) × (IsSorted str_le answer.0 × (count (λ m. m == "a") answer.0 ≡ 1))
runs_lem_example =
    runs_lem says_directory_not_found is_nothing_held router "usb" "" world world world
      ("c" ∷ "a" ∷ []) ("casaos-restic" ∷ "b" ∷ "a" ∷ []) none "a" refl refl refl refl

has-without : (s : String) (xs : List String) → has s (without s xs) ≡ false
has-without s [] = refl
has-without s (x ∷ xs) = elim (Bool-cases (s == x)) [
  | inl e ↦ rw e (has-without s xs)
  | inr e ↦ ground (arith, e, has-without s xs)
]

laws :
    DeletionLaws says_directory_not_found is_nothing_held router
      (λ name remote w. has remote w.0)
      (λ name remote w. has remote w.1)
laws = record {
  forgets = λ name remote w w' was e. (
    ap (λ a. a.0.0) e,
    (
      subst (λ v. has remote v.0 ≡ false) (ap (λ a. a.1) e) (has-without remote w.0),
      subst (λ v. has remote v.1 ≡ has remote w.1) (ap (λ a. a.1) e) refl,
    ),
  );
  purges = λ name remote w w' err e fine. (
    subst (λ v. has remote v.1 ≡ false) (ap (λ a. a.1) e) (has-without remote w.1),
    subst (λ v. has remote v.0 ≡ has remote w.0) (ap (λ a. a.1) e) refl,
  );
}

purge_lem_example :
    (has "b" ("c" ∷ "a" ∷ []) ≡ false) × (has "b" ("casaos-restic" ∷ "a" ∷ []) ≡ false)
unfolding purge
purge_lem_example =
    purge_lem says_directory_not_found is_nothing_held router (λ name remote w. has remote w.0)
      (λ name remote w. has remote w.1) laws "usb" "b" world
      ("c" ∷ "a" ∷ [], "casaos-restic" ∷ "a" ∷ []) refl refl refl
