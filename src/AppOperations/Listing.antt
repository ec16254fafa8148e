-- ===== src/AppOperations/Listing.antt =====
-- service/app_operations.go: what `RunningOperations` lists.
use casa_os_app_management.Prelude.{
  ◌≤◌, ◌<◌, String, ◌≡◌, ◌≢◌, ◌⊎◌, inl, inr, refl, sym, ap, subst, ◌∙◌, true, false, Option, none,
  some, List, [], ◌∷◌, arith, eq_iff, eq_refl, ◌==◌, ltb, if◌then◌else◌, Option-cases, count,
  str_le, str_le_total, str_le_trans, insertion_sort, IsSorted, insertion_sort-IsSorted,
  count-insertion_sort,
}
use casa_os_app_management.Prelude.Map
use casa_os_app_management.Prelude.Map.{
  Map, get-assign, get-delete, keys, IsMap, IsMap-assign, IsMap-delete, any-keys, count-keys,
}
use casa_os_app_management.AppOperations.{
  Registry, AppOperation, held, marks_of, merge_marks, entries, running_operations,
}
use casa_os_app_management.AppOperations.World.{World, start, Call, run, holds_app, marks_app, Inv}
use casa_os_app_management.AppOperations.World.Reach.{run-Inv}

abbrev first_mark : Option (List String) → Option String
first_mark none = none
first_mark (some []) = none
first_mark (some (k ∷ ks)) = some k

abbrev or_mark : Option String → Option (List String) → Option String
or_mark (some kind) marks = some kind
or_mark none marks = first_mark marks

-- what an app is said to be doing: the kind of its hold, else the first of its marks
unfoldable pub doing : Registry → String → Option String
doing r app = or_mark (Map.get app r.running) (Map.get app r.marked)

record Merged (kinds : Map String) (marked : Map (List String)) (out : Map String) : Type 0 where
  all_in : (a : String) → Map.get a out ≡ or_mark (Map.get a kinds) (Map.get a marked)
  one_each : IsMap kinds → IsMap out

merge_marks_lem :
    (kinds : Map String) (marked : Map (List String))
    → ((a : String) → Map.get a kinds ≡ none → Map.get a marked ≢ some [])
    → (out : Map String) × (merge_marks kinds marked ≡ some out) × Merged kinds marked out
unfolding merge_marks Map.get
merge_marks_lem kinds [] h = (kinds, refl, record { all_in = λ a. ground arith; one_each = λ m. m })
merge_marks_lem kinds ((app, marks) ∷ rest) h = elim (Option-cases (Map.get app kinds)) [
  | inr e ↦
      let (out, found, g) =
        merge_marks_lem kinds rest (λ a. ground (arith, h a, eq_iff app a, e.1)) in
      (
        out,
        ground arith,
        record {
          all_in = λ a. ground (arith, g.all_in a, eq_iff app a, e.1);
          one_each = g.one_each;
        },
      )
  | inl e ↦
      free marks (λ p. h app e (rw (eq_refl, p))) e
        (λ first.
          merge_marks_lem (Map.assign app first kinds) rest
            (λ a. ground (arith, h a, eq_iff app a, get-assign app a first kinds)))
]
  where
    free :
        (marks : List String)
        → marks ≢ []
        → Map.get app kinds ≡ none
        → ((first : String)
            → (out : Map String) × (merge_marks (Map.assign app first kinds) rest ≡ some out)
              × Merged (Map.assign app first kinds) rest out)
        → (out : Map String) × (merge_marks kinds ((app, marks) ∷ rest) ≡ some out)
          × Merged kinds ((app, marks) ∷ rest) out
    free [] ne e ih = absurd (ne refl)
    free (first ∷ more) ne e ih =
        let (out, found, g) = ih first in
        (
          out,
          ground arith,
          record {
            all_in = λ a. ground (arith, g.all_in a, eq_iff app a, get-assign app a first kinds, e);
            one_each = λ m. g.one_each (IsMap-assign app first kinds m);
          },
        )

abbrev pub apps_of : List AppOperation → List String
apps_of [] = []
apps_of (o ∷ os) = o.app ∷ apps_of os

-- the kind that a listing gives for an app
abbrev pub kind_in : String → List AppOperation → Option String
kind_in a [] = none
kind_in a (o ∷ os) = if o.app == a then some o.kind else kind_in a os

apps_of-entries : (kinds : Map String) (apps : List String) → apps_of (entries kinds apps) ≡ apps
unfolding entries
apps_of-entries kinds [] = refl
apps_of-entries kinds (app ∷ apps) = ap (◌∷◌ app) (apps_of-entries kinds apps)

kind_in-entries :
    (kinds : Map String) (a : String) (apps : List String)
    → (ltb 0 (count (λ j. j == a) apps) ≡ elim (Map.get a kinds) [ none ↦ false | some k ↦ true ])
      ⊎ (count (λ j. j == a) apps ≡ 0)
    → kind_in a (entries kinds apps)
      ≡ (if ltb 0 (count (λ j. j == a) apps) then Map.get a kinds else none)
unfolding entries
kind_in-entries kinds a [] h = refl
kind_in-entries kinds a (app ∷ apps) h = ground (arith, eq_iff app a, kind_in-entries kinds a apps)

module _ (kinds : Map String) (m : IsMap kinds) where
  count-sorted :
      (a : String)
      → count (λ j. j == a) (insertion_sort str_le (keys kinds))
        ≡ elim (Map.get a kinds) [ none ↦ 0 | some k ↦ 1 ]
  count-sorted a = count-insertion_sort str_le (λ j. j == a) (keys kinds) ∙ count-keys a kinds m

  kind_in-sorted :
      (a : String)
      → kind_in a (entries kinds (insertion_sort str_le (keys kinds))) ≡ Map.get a kinds
  kind_in-sorted a =
      ground (arith, count-sorted a, kind_in-entries kinds a (insertion_sort str_le (keys kinds)))

-- what an app is said to be doing is owed to a closure that is still to be called
owed :
    (w : World) (a k : String)
    → Inv w
    → or_mark (Map.get a w.registry.running) (Map.get a w.registry.marked) ≡ some k
    → (0 < count (holds_app a) w.holds) ⊎ (0 < count (marks_app a k) w.marks)
unfolding held marks_of
owed w a k v said = elim (Option-cases (Map.get a w.registry.running)) [
  | inr e ↦ inl (ground (arith, v.one_hold a, e.1))
  | inl e ↦ inr (
      marked_once (Map.get a w.registry.marked) (v.same_marks a k)
        (ap (λ o. or_mark o (Map.get a w.registry.marked)) (sym e) ∙ said))
]
  where
    marked_once :
        (marks : Option (List String))
        → count (marks_app a k) w.marks
          ≡ count (λ j. j == k) (elim marks [ none ↦ [] | some ks ↦ ks ])
        → first_mark marks ≡ some k
        → 0 < count (marks_app a k) w.marks
    marked_once none same h = cc
    marked_once (some []) same h = cc
    marked_once (some (j ∷ js)) same h = ground (arith, same, h, eq_iff j k)

-- In every state that calls reach `RunningOperations` returns, with no panic, a list that names
-- exactly the apps something runs on, each once and in the order of their names: with the kind of
-- the hold where the app is held, and else with the kind that stands first in the list of its marks. In
-- both cases a closure that `Begin` gave for the app, or a mark gave for the app and that kind, is still
-- to be called.
pub running_operations_lem :
    (calls : List Call) (w : World)
    → run calls start ≡ some w
    → (ops : List AppOperation) × (running_operations w.registry ≡ some ops)
      × ((a : String) → kind_in a ops ≡ doing w.registry a)
      × ((a k : String)
          → kind_in a ops ≡ some k
          → (0 < count (holds_app a) w.holds) ⊎ (0 < count (marks_app a k) w.marks))
      × ((a : String) → count (λ j. j == a) (apps_of ops) ≤ 1)
      × IsSorted str_le (apps_of ops)
unfolding running_operations doing
running_operations_lem calls w e =
    let (w', e', v') = run-Inv calls in
    let same : w' ≡ w = ground (arith, e, e') in
    let v = subst Inv same v' in
    let (out, found, g) =
      merge_marks_lem w.registry.running w.registry.marked (λ a _. v.no_empty a) in
    let m = g.one_each v.one_entry in
    let apps = insertion_sort str_le (keys out) in
    (
      entries out apps,
      ground arith,
      λ a. kind_in-sorted out m a ∙ g.all_in a,
      λ a k said. owed w a k v (sym (kind_in-sorted out m a ∙ g.all_in a) ∙ said),
      λ a. rw (apps_of-entries out apps) (ground (arith, count-sorted out m a)),
      rw (apps_of-entries out apps)
          (insertion_sort-IsSorted str_le str_le_total str_le_trans (keys out)),
    )
