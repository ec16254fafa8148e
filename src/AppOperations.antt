-- ===== src/AppOperations.antt =====
-- service/app_operations.go: the one place that refuses two operations on one app.
--
-- The mutex makes each function one atomic step on `Registry`. A closure that a function hands out,
-- with its `sync.Once`, is a handle: what the closure has captured, and whether it has run.
pub mod World
pub mod Listing
pub mod Waiting
mod Examples
use casa_os_app_management.Prelude.{
  ℕ, zero, suc, String, ◌≡◌, Bool, true, false, Option, none, some, List, [], ◌∷◌, ◌++◌, ◌==◌,
  if◌then◌else◌, insertion_sort, str_le,
}
use casa_os_app_management.Prelude.Map
use casa_os_app_management.Prelude.Map.{Map}

-- `appOperations`
pub record Registry : Type 0 where
  pub running : Map String
  -- what runs on an app without holding it
  pub marked : Map (List String)

abbrev pub idle : Registry
idle = record { running = []; marked = [] }

pub record ErrAppBusy : Type 0 where
  pub app : String
  pub running : String

-- the `end` that `Begin` returns
pub record Hold : Type 0 where
  pub app : String
  pub over : Bool

-- the `done` that `markInProgress` returns
pub record Mark : Type 0 where
  pub app : String
  pub kind : String
  pub over : Bool

pub data Claim : Type 0 where
  granted : Hold → Claim
  refused : ErrAppBusy → Claim

unfoldable pub begin : String → String → Registry → Claim × Registry
begin app kind r = elim (Map.get app r.running) [
  | some running ↦ (refused (record { app = app; running = running }), r)
  | none ↦ (
    granted (record { app = app; over = false }),
    record r { running = Map.assign app kind r.running },
  )
]

-- the closure `end`: `once.Do` runs its body the first time alone
unfoldable pub end_hold : Hold → Registry → Hold × Registry
end_hold h r =
    if h.over
    then (h, r)
    else (record h { over = true }, record r { running = Map.delete h.app r.running })

-- what reading a missing key of the map gives: the nil slice
unfoldable pub marks_of : String → Registry → List String
marks_of app r = elim (Map.get app r.marked) [ none ↦ [] | some kinds ↦ kinds ]

unfoldable pub mark_in_progress : String → String → Registry → Mark × Registry
unfolding marks_of
mark_in_progress app kind r = (
  record { app = app; kind = kind; over = false },
  record r { marked = Map.assign app (marks_of app r ++ kind ∷ []) r.marked },
)

-- `slices.Delete(kinds, i, i+1)` at `i = slices.Index(kinds, kind)`; with no such kind `i` is -1, and
-- `Delete` panics: `none`
unfoldable pub delete_first : String → List String → Option (List String)
delete_first kind [] = none
delete_first kind (k ∷ ks) =
    if k == kind
    then some ks
    else elim (delete_first kind ks) [ none ↦ none | some rest ↦ some (k ∷ rest) ]

-- `marked` once `kinds` are what is left of an app's marks
unfoldable pub store_marks : String → List String → Registry → Registry
store_marks app [] r = record r { marked = Map.delete app r.marked }
store_marks app (k ∷ ks) r = record r { marked = Map.assign app (k ∷ ks) r.marked }

-- the closure `done`; `none` is a panic
unfoldable pub end_mark : Mark → Registry → Option (Mark × Registry)
unfolding marks_of delete_first store_marks
end_mark m r = if m.over then some (m, r) else elim (delete_first m.kind (marks_of m.app r)) [
  | none ↦ none
  | some kinds ↦ some (record m { over = true }, store_marks m.app kinds r)
]

unfoldable pub held : String → Registry → Bool
held app r = elim (Map.get app r.running) [ none ↦ false | some kind ↦ true ]

unfoldable pub hand_over : String → String → Registry → Registry
hand_over app kind r = elim (Map.get app r.running) [
  | none ↦ r
  | some old ↦ record r { running = Map.assign app kind r.running }
]

pub record AppOperation : Type 0 where
  pub app : String
  pub kind : String

-- the loop of `RunningOperations` over `marked`; `marked[0]` of an empty slice panics: `none`
unfoldable pub merge_marks : Map String → Map (List String) → Option (Map String)
merge_marks kinds [] = some kinds
merge_marks kinds ((app, marks) ∷ rest) = elim (Map.get app kinds) [
  | some kind ↦ merge_marks kinds rest
  | none ↦ elim marks [ [] ↦ none | first ∷ more ↦ merge_marks (Map.assign app first kinds) rest ]
]

-- `kinds[app]` for every key; a missing key reads as the empty text
unfoldable pub entries : Map String → List String → List AppOperation
entries kinds [] = []
entries kinds (app ∷ apps) =
    record { app = app; kind = elim (Map.get app kinds) [ none ↦ "" | some kind ↦ kind ] }
    ∷ entries kinds apps

unfoldable pub running_operations : Registry → Option (List AppOperation)
unfolding merge_marks entries
running_operations r = elim (merge_marks r.running r.marked) [
  | none ↦ none
  | some kinds ↦ some (entries kinds (insertion_sort str_le (Map.keys kinds)))
]
