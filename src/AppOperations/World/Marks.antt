-- ===== src/AppOperations/World/Marks.antt =====
-- service/app_operations.go: `markInProgress` and its `done` keep the invariant.
use casa_os_app_management.Prelude.{
  ℕ, ◌+◌, ◌<◌, String, ◌≡◌, ◌≢◌, refl, true, false, some, List, [], ◌∷◌, ◌++◌, ◌==◌, if◌then◌else◌,
  arith, eq_iff, eq_refl, count, get_elem?, set, count-set, count-append, count-pos, snoc-ne-nil,
  ap, Bool-cases, inl, inr,
}
use casa_os_app_management.Prelude.Map
use casa_os_app_management.Prelude.Map.{Map, get-assign, get-delete}
use casa_os_app_management.AppOperations.{
  Registry, Mark, marks_of, mark_in_progress, delete_first, store_marks, end_mark, held,
}
use casa_os_app_management.AppOperations.World.{World, put_mark, marks_app, Inv}

pub mark-Inv :
    (app kind : String) (w : World)
    → Inv w
    → Inv (
        let (m, r) = mark_in_progress app kind w.registry in
        record w { registry = r; marks = m ∷ w.marks })
unfolding mark_in_progress held marks_of
mark-Inv app kind w v = record {
  one_hold = v.one_hold;
  same_marks = λ a k. ground (
    arith,
    v.same_marks a k,
    get-assign app a (marks_of app w.registry ++ kind ∷ []) w.registry.marked,
    count-append (λ j. j == k) (marks_of app w.registry) (kind ∷ []),
    eq_iff app a,
  );
  one_entry = v.one_entry;
  no_empty = λ a. ground (
    arith,
    v.no_empty a,
    get-assign app a (marks_of app w.registry ++ kind ∷ []) w.registry.marked,
    snoc-ne-nil (marks_of app w.registry) kind,
  );
}

-- a kind that is there is found, and one occurrence of it goes
delete_first_lem :
    (kind : String) (ks : List String)
    → 0 < count (λ k. k == kind) ks
    → (rest : List String) × (delete_first kind ks ≡ some rest)
      × ((k : String)
          → count (λ j. j == k) rest + (if kind == k then 1 else 0) ≡ count (λ j. j == k) ks)
unfolding delete_first
delete_first_lem kind [] h = absurd (omega arith)
delete_first_lem kind (j ∷ ks) h = elim (Bool-cases (j == kind)) [
  | inl e ↦ rw e (ks, refl, λ k. ground (arith, ap (λ (t : String). t == k) ((eq_iff j kind).0 e)))
  | inr e ↦
      let (rest, found, counts) = delete_first_lem kind ks (ground arith) in
      rw (e, found) (j ∷ rest, refl, λ k. ground (arith, counts k))
]

marks_of-store_marks :
    (app a : String) (ks : List String) (r : Registry)
    → marks_of a (store_marks app ks r) ≡ (if app == a then ks else marks_of a r)
unfolding marks_of store_marks
marks_of-store_marks app a [] r = ground (arith, get-delete app a r.marked)
marks_of-store_marks app a (k ∷ ks) r = ground (arith, get-assign app a (k ∷ ks) r.marked)

store_marks_no_empty :
    (app a : String) (ks : List String) (r : Registry)
    → Map.get a r.marked ≢ some []
    → Map.get a (store_marks app ks r).marked ≢ some []
unfolding store_marks
store_marks_no_empty app a [] r h = ground (arith, get-delete app a r.marked)
store_marks_no_empty app a (k ∷ ks) r h = ground (arith, get-assign app a (k ∷ ks) r.marked)

running-store_marks :
    (app : String) (ks : List String) (r : Registry) → (store_marks app ks r).running ≡ r.running
unfolding store_marks
running-store_marks app [] r = refl
running-store_marks app (k ∷ ks) r = refl

-- what a `done` called a second time leaves: the same closure, called
again-Inv :
    (w : World) (i : ℕ) (m : Mark)
    → get_elem? w.marks i ≡ some m
    → Inv w
    → Inv (record w { marks = set w.marks i m })
again-Inv w i m at v = record {
  one_hold = v.one_hold;
  same_marks = λ a k. omega (arith, v.same_marks a k, count-set (marks_app a k) w.marks i m m at);
  no_empty = v.no_empty;
  one_entry = v.one_entry;
}

module _ (w : World) (i : ℕ) (m : Mark) (at : get_elem? w.marks i ≡ some m) (fresh : m.over ≡ false)
    (v : Inv w) where
  mark_there : 0 < count (λ k. k == m.kind) (marks_of m.app w.registry)
  mark_there =
      let live : marks_app m.app m.kind m ≡ true = simp (fresh, eq_refl) in
      omega
        (arith, v.same_marks m.app m.kind, count-pos (marks_app m.app m.kind) w.marks i m at live)

  taken-Inv :
      (rest : List String)
      → ((k : String)
          → count (λ j. j == k) rest + (if m.kind == k then 1 else 0)
            ≡ count (λ j. j == k) (marks_of m.app w.registry))
      → Inv (record w {
        registry = store_marks m.app rest w.registry;
        marks = set w.marks i (record m { over = true });
      })
  unfolding held
  taken-Inv rest counts = record {
    one_hold = λ a. rw (running-store_marks m.app rest w.registry) (v.one_hold a);
    same_marks = λ a k. ground (
      arith,
      v.same_marks a k,
      counts k,
      marks_of-store_marks m.app a rest w.registry,
      count-set (marks_app a k) w.marks i m (record m { over = true }) at,
      eq_iff m.app a,
    );
    no_empty = λ a. store_marks_no_empty m.app a rest w.registry (v.no_empty a);
    one_entry = rw (running-store_marks m.app rest w.registry) v.one_entry;
  }

-- `done` never panics: the mark that it takes off is there
pub unmark-Inv :
    (w : World) (i : ℕ) (m : Mark)
    → get_elem? w.marks i ≡ some m
    → Inv w
    → (w' : World) × (put_mark w i (end_mark m w.registry) ≡ some w') × Inv w'
unfolding end_mark
unmark-Inv w i m at v = elim (Bool-cases m.over) [
  | inl e ↦ (record w { marks = set w.marks i m }, ground arith, again-Inv w i m at v)
  | inr e ↦
      let (rest, found, counts) =
        delete_first_lem m.kind (marks_of m.app w.registry) (mark_there w i m at e v) in
      (
        record w {
          registry = store_marks m.app rest w.registry;
          marks = set w.marks i (record m { over = true });
        },
        ground arith,
        taken-Inv w i m at e v rest counts,
      )
]
