-- ===== src/LogStore/Query/Filter.antt =====
-- pkg/logstore/query.go: which lines a query asks for.
--
-- `compile_pattern` is `regexp.Compile` and `quote` is `regexp.QuoteMeta`: a compiled pattern is the test
-- that it puts a text to.
pub mod Laws
mod Examples
use casa_os_app_management.Prelude.{
  ℕ, zero, suc, ◌+◌, ◌-◌, ◌*◌, ◌/◌, ◌%◌, ◌^◌, ◌≤◌, ◌<◌, String, ◌≡◌, ◌≢◌, ◌↔◌, ◌⊎◌, inl, inr, refl,
  sym, ap, subst, ◌∙◌, Bool, true, false, not, ◌&&◌, ◌||◌, Option, none, some, List, [], ◌∷◌, ◌++◌,
  map, reverse, arith, eq_iff, eq_refl, ◌==◌, ltb, leb, ◌=ℕ◌, if◌then◌else◌, leb→le, ltb→lt,
  Bool-cases, Option-cases, length, take, drop, length-append, length-take, length-drop,
  take-append-drop, count, any, keep, count-append, count-le-length, any-pos, any-append,
  any-reverse, any_none, get_elem?, set, count-set, count-pos, drop-set, length-set, drop-append,
  drop_step, get_elem?-drop, get_elem?_in, get_elem?-append, get_elem?_lt, Sub, nil, Sub-snoc,
  Sub-tail, Sub-delete, snoc-ne-nil, All, All-append, All-map, All-zip, ◌<>◌, starts_with, clean,
  clean-not_empty, join_path, base, dir, show, show_inj, str_le, codes, str_le_total, str_le_trans,
  str_le_antisym, insert, insertion_sort, IsSorted, insertion_sort-IsSorted, count-insertion_sort,
  length-insertion_sort, sum_by-insertion_sort, any-insertion_sort, All-insertion_sort, sum_by,
  sum_by-append, sum_by-keep, count-keep, All-keep, All-keep_of, All-tail_of_append,
  All-head_of_append,
}
use casa_os_app_management.Prelude.Map
use casa_os_app_management.Prelude.Map.{
  Map, get-assign, get-delete, keys, IsMap, IsMap-assign, IsMap-delete, any-keys, count-keys,
}
use casa_os_app_management.LogStore.Line.{Bytes, safe_name}
use casa_os_app_management.LogStore.Line.Level.{guess_level, rank}
use casa_os_app_management.LogStore.Query.Cursor.{
  Result, ok, err, bad_level, bad_stream, bad_pattern,
}

-- `Filter`
pub record Filter : Type 0 where
  pub apps : List String
  pub services : List String
  pub stream : String
  pub level : String
  pub q : String
  pub regex : Bool

-- `Matcher`: no set of names stands for every name
pub record Matcher : Type 0 where
  pub apps : Option (List String)
  pub services : Option (List String)
  pub stream : String
  pub min_level : ℕ
  pub re : Option (Bytes → Bool)

-- `Line`, less its cursor
pub record Line : Type 0 where
  pub at : ℕ
  pub app : String
  pub service : String
  pub container : String
  pub stream : ℕ
  pub text : Bytes

-- `levelRank`
unfoldable pub level_rank : String → Option ℕ
level_rank level =
    if level == "" || level == "info"
    then some 0
    else if level == "warn"
    then some 1
    else if level == "error"
    then some 2
    else none

-- `nameSet`
unfoldable pub name_set : List String → Option (List String)
name_set [] = none
name_set (name ∷ names) = some (map safe_name (name ∷ names))

abbrev pub holds : List String → String → Bool
holds set name = any (λ s. s == name) set

-- `inSet`
unfoldable pub in_set : Option (List String) → String → Bool
in_set none name = true
in_set (some set) name = holds set name || holds set (safe_name name)

-- the stream of a line as a text: a line that was read has one of two
abbrev pub stream_text : ℕ → String
stream_text c = if c =ℕ b'o' then "o" else "e"

-- what a pattern says of a text, where there is one
abbrev pub passes : Option (Bytes → Bool) → Bytes → Bool
passes none text = true
passes (some re) text = re text

-- `Match`
unfoldable pub matches : Matcher → Line → Bool
unfolding in_set
matches m l =
    in_set m.apps l.app
    && (in_set m.services l.service
        && ((m.stream == "" || stream_text l.stream == m.stream)
            && ((m.min_level =ℕ 0 || leb m.min_level (rank (guess_level l.stream l.text)))
                && passes m.re l.text)))

-- the matcher with the pattern that was compiled
abbrev pub with_re : Matcher → Option (Bytes → Bool) → Result Matcher
with_re m none = err bad_pattern
with_re m (some re) = ok (record m { re = some re })

module _ (compile_pattern : String → Option (Bytes → Bool)) (quote : String → String) where
  -- the pattern of a search
  abbrev pub expression : Filter → String
  expression f = if f.regex then f.q else "(?i)" <> quote f.q

  -- the last test of `Compile`
  unfoldable pub with_pattern : Filter → Matcher → Result Matcher
  with_pattern f m = if f.q == "" then ok m else with_re m (compile_pattern (expression f))

  unfoldable pub with_level : Filter → Option ℕ → Result Matcher
  unfolding with_pattern name_set
  with_level f none = err bad_level
  with_level f (some min_level) =
      if not (f.stream == "") && (not (f.stream == "o") && not (f.stream == "e"))
      then err bad_stream
      else with_pattern f (record {
        apps = name_set f.apps;
        services = name_set f.services;
        stream = f.stream;
        min_level = min_level;
        re = none;
      })

  -- `Compile`
  unfoldable pub compile : Filter → Result Matcher
  unfolding with_level level_rank
  compile f = with_level f (level_rank f.level)
