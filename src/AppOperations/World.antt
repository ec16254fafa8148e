-- ===== src/AppOperations/World.antt =====
-- service/app_operations.go, under every interleaving of its callers: the registry beside the
-- closures that are still to be called.
mod Holds
mod Marks
pub mod Reach
use casa_os_app_management.Prelude.{
  ℕ, ◌+◌, ◌<◌, String, ◌≡◌, ◌≢◌, refl, Bool, true, false, not, ◌&&◌, Option, none, some, List, [],
  ◌∷◌, ◌++◌, ◌==◌, if◌then◌else◌, arith, eq_iff, eq_refl, count, get_elem?, set, count-set,
  count-append, count-pos, snoc-ne-nil, ap, ◌=ℕ◌, subst, Bool-cases, Option-cases, inl, inr,
}
use casa_os_app_management.Prelude.Map
use casa_os_app_management.Prelude.Map.{IsMap, Map, get-assign, get-delete}
use casa_os_app_management.AppOperations.{
  Registry, idle, Hold, Mark, Claim, granted, refused, begin, end_hold, marks_of, mark_in_progress,
  delete_first, store_marks, end_mark, held, hand_over,
}

-- the registry and every closure handed out so far
pub record World : Type 0 where
  pub registry : Registry
  pub holds : List Hold
  pub marks : List Mark

abbrev pub start : World
start = record { registry = idle; holds = []; marks = [] }

-- one call by some goroutine; `release` and `unmark` call a closure by its place in the list
pub data Call : Type 0 where
  claim : String → String → Call
  release : ℕ → Call
  mark : String → String → Call
  unmark : ℕ → Call
  rename : String → String → Call

abbrev keep_hold : World → Claim × Registry → World
keep_hold w (granted h, r) = record w { registry = r; holds = h ∷ w.holds }
keep_hold w (refused e, r) = record w { registry = r }

abbrev call_end : World → ℕ → Option Hold → World
call_end w i none = w
call_end w i (some h) =
    let (h', r) = end_hold h w.registry in record w { registry = r; holds = set w.holds i h' }

abbrev put_mark : World → ℕ → Option (Mark × Registry) → Option World
put_mark w i none = none
put_mark w i (some (m, r)) = some (record w { registry = r; marks = set w.marks i m })

abbrev call_done : World → ℕ → Option Mark → Option World
call_done w i none = some w
call_done w i (some m) = put_mark w i (end_mark m w.registry)

-- `none` is a panic
unfoldable pub step : Call → World → Option World
step (claim app kind) w = some (keep_hold w (begin app kind w.registry))
step (release i) w = some (call_end w i (get_elem? w.holds i))
step (mark app kind) w =
    let (m, r) = mark_in_progress app kind w.registry in
    some (record w { registry = r; marks = m ∷ w.marks })
step (unmark i) w = call_done w i (get_elem? w.marks i)
step (rename app kind) w = some (record w { registry = hand_over app kind w.registry })

-- the calls in the order in which they took the lock
unfoldable pub run : List Call → World → Option World
run [] w = some w
run (c ∷ cs) w = elim (step c w) [ none ↦ none | some w' ↦ run cs w' ]

abbrev pub holds_app : String → Hold → Bool
holds_app app h = not h.over && h.app == app

abbrev pub marks_app : String → String → Mark → Bool
marks_app app kind m = not m.over && (m.app == app && m.kind == kind)

pub record Inv (w : World) : Type 0 where
  -- an app is held exactly while one closure that `Begin` gave for it is still to be called
  pub one_hold :
      (app : String) → count (holds_app app) w.holds ≡ (if held app w.registry then 1 else 0)
  -- each kind is marked as often as there are closures for it still to be called
  pub same_marks :
      (app kind : String)
      → count (marks_app app kind) w.marks ≡ count (λ k. k == kind) (marks_of app w.registry)
  -- `marked[0]` is there for every app in `marked`
  pub no_empty : (app : String) → Map.get app w.registry.marked ≢ some []
  -- an app stands in `running` once
  pub one_entry : IsMap w.registry.running

pub start-Inv : Inv start
unfolding held marks_of Map.get
start-Inv = record {
  one_hold = λ app. refl;
  same_marks = λ app kind. refl;
  no_empty = λ app h. cc;
  one_entry = tt;
}
