-- ===== src/LogStore/Query/Filter/Laws.antt =====
-- pkg/logstore/query.go: what a filter accepts, read off the filter.
use casa_os_app_management.Prelude.{
  ℕ, String, ◌≡◌, inl, inr, refl, sym, ap, ◌∙◌, Bool, true, false, not, ◌&&◌, ◌||◌, Option, none,
  some, List, [], ◌∷◌, map, arith, eq_iff, eq_refl, ◌==◌, leb, ◌=ℕ◌, if◌then◌else◌, Bool-cases,
  Option-cases, any,
}
use casa_os_app_management.LogStore.Line.{Bytes, safe_name}
use casa_os_app_management.LogStore.Line.Laws.{safe_name_lem}
use casa_os_app_management.LogStore.Line.Level.{guess_level, rank}
use casa_os_app_management.LogStore.Query.Cursor.{FilterError, Result, ok, err}
use casa_os_app_management.LogStore.Query.Filter.{
  Filter, Matcher, Line, level_rank, name_set, holds, in_set, stream_text, passes, matches,
  expression, with_pattern, with_level, compile,
}

-- a list of names accepts a name that is the same but for unsafe characters, and an empty one accepts all
abbrev pub accepts : List String → String → Bool
accepts [] name = true
accepts (n ∷ names) name = any (λ m. safe_name m == safe_name name) (n ∷ names)

holds-map :
    (names : List String) (s : String)
    → holds (map safe_name names) s ≡ any (λ m. safe_name m == s) names
holds-map [] s = refl
holds-map (n ∷ names) s = ap (λ b. (safe_name n == s) || b) (holds-map names s)

-- a name that a set of safe names holds is safe itself
holds-safe :
    (names : List String) (s : String)
    → any (λ m. safe_name m == s) names ≡ true
    → any (λ m. safe_name m == safe_name s) names ≡ true
holds-safe (n ∷ names) s h = elim (Bool-cases (safe_name n == s)) [
  | inl e ↦
      let same : safe_name n ≡ s = (eq_iff (safe_name n) s).0 e in
      let again : safe_name s ≡ safe_name n = ap safe_name (sym same) ∙ (safe_name_lem n).4 in
      rw (again, eq_refl (safe_name n)) refl
  | inr e ↦ or_true (safe_name n == safe_name s) (holds-safe names s (rw e at h))
]
  where
    or_true : (a : Bool) {b : Bool} → b ≡ true → (a || b) ≡ true
    or_true true h = refl
    or_true false h = h
holds-safe [] s h = h

in_set-name_set : (names : List String) (s : String) → in_set (name_set names) s ≡ accepts names s
unfolding in_set name_set
in_set-name_set [] s = refl
in_set-name_set (n ∷ names) s =
    rw (holds-map names s, holds-map names (safe_name s))
      (absorb (any (λ m. safe_name m == s) (n ∷ names)) (holds-safe (n ∷ names) s))
  where
    absorb : (a : Bool) {b : Bool} → (a ≡ true → b ≡ true) → (a || b) ≡ b
    absorb true h = sym (h refl)
    absorb false h = refl

abbrev pub is_above : Option ℕ → Line → Bool
is_above none l = false
is_above (some least) l = leb least (rank (guess_level l.stream l.text))

not_ok {ℓ} : {A : Type ℓ} {e : FilterError} (m : Matcher) → err e ≡ ok m → A
not_ok m h = cc

module _ (compile_pattern : String → Option (Bytes → Bool)) (quote : String → String) where
  -- the lines that the search finds
  abbrev pub is_found : Filter → Line → Bool
  is_found f l =
      if f.q == ""
      then true
      else passes (compile_pattern (expression compile_pattern quote f)) l.text

  -- what a filter asks of a line, its names taken up to unsafe characters
  abbrev pub asks_for : Filter → Line → Bool
  asks_for f l =
      accepts f.apps l.app
      && (accepts f.services l.service
          && ((f.stream == "" || stream_text l.stream == f.stream)
              && (is_above (level_rank f.level) l && is_found f l)))

  least_or : (n m : ℕ) → (n =ℕ 0 || leb n m) ≡ leb n m
  least_or n m = ground arith

  -- the tests of a matcher, with what its pattern says
  abbrev tests : Matcher → Line → Bool → Bool
  tests m l found =
      in_set m.apps l.app
      && (in_set m.services l.service
          && ((m.stream == "" || stream_text l.stream == m.stream)
              && ((m.min_level =ℕ 0 || leb m.min_level (rank (guess_level l.stream l.text)))
                  && found)))

  abbrev ok_or : Matcher → Result Matcher → Matcher
  ok_or m (ok m') = m'
  ok_or m (err e) = m

  with_pattern_lem :
      (f : Filter) (m m' : Matcher) (l : Line)
      → m.re ≡ none
      → with_pattern compile_pattern quote f m ≡ ok m'
      → matches m' l ≡ tests m l (is_found f l)
  unfolding with_pattern matches
  with_pattern_lem f m m' l none_yet h = elim (Bool-cases (f.q == "")) [
    | inl e ↦
        let same : m ≡ m' = ap (ok_or m) (rw e at h) in
        ap (λ k. matches k l) (sym same)
        ∙ (ap (λ re. tests m l (passes re l.text)) none_yet ∙ rw e refl)
    | inr e ↦ elim (Option-cases (compile_pattern (expression compile_pattern quote f))) [
      | inl k ↦ not_ok m' (rw (e, k) at h)
      | inr (re, k) ↦
          let got : Matcher = record m { re = some re } in
          let same : got ≡ m' = ap (ok_or m) (rw (e, k) at h) in
          ap (λ t. matches t l) (sym same) ∙ sym (ap (tests m l) (rw (e, k) refl))
    ]
  ]

  -- If a filter compiles, the matcher accepts exactly the lines that the filter asks for.
  pub compile_lem :
      (f : Filter) (m : Matcher) (l : Line)
      → compile compile_pattern quote f ≡ ok m
      → matches m l ≡ asks_for f l
  unfolding compile with_level matches
  compile_lem f m l h = elim (Option-cases (level_rank f.level)) [
    | inl e ↦ not_ok m (rw e at h)
    | inr (n, e) ↦
        let m0 : Matcher = record {
          apps = name_set f.apps;
          services = name_set f.services;
          stream = f.stream;
          min_level = n;
          re = none;
        } in
        elim (Bool-cases
          (not (f.stream == "") && (not (f.stream == "o") && not (f.stream == "e")))) [
            | inl k ↦ not_ok m (rw (e, k) at h)
            | inr k ↦
                with_pattern_lem f m0 m l refl (rw (e, k) at h)
                ∙ rw
                    (
                      in_set-name_set f.apps l.app,
                      in_set-name_set f.services l.service,
                      e,
                      least_or n (rank (guess_level l.stream l.text)),
                    )
                    refl
          ]
  ]
