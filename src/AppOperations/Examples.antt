-- ===== src/AppOperations/Examples.antt =====
-- Runs of service/app_operations.go, and its theorems at concrete calls.
use casa_os_app_management.Prelude.{
  ℕ, ◌≤◌, ◌<◌, String, ◌≡◌, ◌⊎◌, refl, true, false, some, List, [], ◌∷◌, arith, ◌==◌, ◌=ℕ◌, count,
  str_le, insertion_sort, IsSorted,
}
use casa_os_app_management.Prelude.Map
use casa_os_app_management.Prelude.Map.{
  Map, get-assign, get-delete, keys, IsMap, IsMap-assign, IsMap-delete, any-keys, count-keys,
}
use casa_os_app_management.AppOperations.{
  AppOperation, begin, end_hold, marks_of, mark_in_progress, hand_over, running_operations,
}
use casa_os_app_management.AppOperations.World.{
  World, start, Call, claim, release, mark, rename, step, run, holds_app, marks_app, Inv,
}
use casa_os_app_management.AppOperations.World.Reach.{run-Inv, begin_exclusive, is_granted}
use casa_os_app_management.AppOperations.Listing.{doing, kind_in, apps_of, running_operations_lem}
use casa_os_app_management.AppOperations.Waiting.{
  Round, begin_waiting, has_answer, begin_waiting_ends,
}

-- A deployment takes an app from a check, a backup marks another; the check's hold is ended twice.
abbrev handed_over : List Call
handed_over =
    claim "web" "check"
    ∷ mark "db" "backup"
    ∷ rename "web" "deploy"
    ∷ claim "web" "update"
    ∷ mark "web" "backup"
    ∷ []

abbrev after : World
after = record {
  registry = record {
    running = ("web", "deploy") ∷ [];
    marked = ("db", "backup" ∷ []) ∷ ("web", "backup" ∷ []) ∷ [];
  };
  holds = record { app = "web"; over = false } ∷ [];
  marks =
      record { app = "web"; kind = "backup"; over = false }
      ∷ record { app = "db"; kind = "backup"; over = false }
      ∷ [];
}

handed_over_lem : run handed_over start ≡ some after
unfolding run step begin mark_in_progress hand_over marks_of Map.get Map.assign
handed_over_lem = refl

run_released :
    run (claim "web" "check" ∷ release 0 ∷ claim "web" "update" ∷ release 1 ∷ []) start
    ≡ some (record {
      registry = record { running = ("web", "update") ∷ []; marked = [] };
      holds = record { app = "web"; over = false } ∷ record { app = "web"; over = true } ∷ [];
      marks = [];
    })
unfolding run step begin end_hold Map.get Map.assign Map.delete
run_released = refl

run-Inv_example : (w : World) × (run handed_over start ≡ some w) × Inv w
run-Inv_example = run-Inv handed_over

begin_exclusive_example :
    let (answer, r) = begin "web" "update" after.registry in
    (is_granted answer ≡ (count (holds_app "web") after.holds =ℕ 0))
    × (is_granted answer ≡ false → r ≡ after.registry)
begin_exclusive_example = begin_exclusive handed_over after "web" "update" handed_over_lem

listing :
    running_operations after.registry
    ≡ some (record { app = "db"; kind = "backup" } ∷ record { app = "web"; kind = "deploy" } ∷ [])
unfolding running_operations insertion_sort str_le Map.get Map.assign
listing = refl

running_operations_lem_example :
    (ops : List AppOperation) × (running_operations after.registry ≡ some ops)
    × ((a : String) → kind_in a ops ≡ doing after.registry a)
    × ((a k : String)
        → kind_in a ops ≡ some k
        → (0 < count (holds_app a) after.holds) ⊎ (0 < count (marks_app a k) after.marks))
    × ((a : String) → count (λ j. j == a) (apps_of ops) ≤ 1)
    × IsSorted str_le (apps_of ops)
running_operations_lem_example = running_operations_lem handed_over after handed_over_lem

-- an app that nobody lets go
abbrev stuck : ℕ → Round
stuck t = record { registry = after.registry; now = t; cancelled = false }

begin_waiting_ends_example :
    has_answer (
      begin_waiting "web" "backup" 1000 500
        (stuck 1000 ∷ stuck 1250 ∷ stuck 1501 ∷ stuck 1752 ∷ []))
    ≡ true
begin_waiting_ends_example =
    begin_waiting_ends "web" "backup" 1000 500
      (stuck 1000 ∷ stuck 1250 ∷ stuck 1501 ∷ stuck 1752 ∷ []) (omega arith) (omega arith)
