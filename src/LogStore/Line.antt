-- ===== src/LogStore/Line.antt =====
-- pkg/logstore/line.go: one line of a log file.
--
-- A text is the list of its bytes; a name is read by its characters. A time is a number of
-- nanoseconds; `write_time` and `read_time` are `Format` and `Parse` with the layout of RFC 3339, and
-- are parameters. The two patterns of the file are written out as tests on bytes: `(?i)` folds the
-- letters of the words, which have no case outside ASCII.
pub mod Level
pub mod Laws
mod Examples
use casa_os_app_management.Prelude.{
  ℕ, zero, suc, ◌+◌, ◌-◌, ◌*◌, ◌/◌, ◌%◌, ◌^◌, ◌≤◌, ◌<◌, String, ◌≡◌, ◌≢◌, ◌↔◌, ◌⊎◌, inl, inr, refl,
  sym, ap, subst, ◌∙◌, Bool, true, false, not, ◌&&◌, ◌||◌, Option, none, some, List, [], ◌∷◌, ◌++◌,
  map, reverse, arith, eq_iff, eq_refl, ◌==◌, ltb, leb, ◌=ℕ◌, if◌then◌else◌, leb→le, ltb→lt,
  Bool-cases, Option-cases, length, take, drop, length-append, length-take, length-drop,
  take-append-drop, count, any, keep, count-append, count-le-length, any-pos, any-append,
  any-reverse, any_none, get_elem?, set, count-set, count-pos, drop-set, length-set, drop-append,
  drop_step, get_elem?-drop, get_elem?_in, get_elem?-append, get_elem?_lt, Sub, nil, Sub-snoc,
  Sub-tail, Sub-delete, snoc-ne-nil, All, All-append, All-map, All-zip, ◌<>◌, starts_with, clean,
  clean-not_empty, join_path, base, dir, show, show_inj, str_le, codes, str_le_total, str_le_trans,
  str_le_antisym, insert, insertion_sort, IsSorted, insertion_sort-IsSorted, count-insertion_sort,
  length-insertion_sort, sum_by-insertion_sort, any-insertion_sort, All-insertion_sort, sum_by,
  sum_by-append, sum_by-keep, count-keep, All-keep, All-keep_of, All-tail_of_append,
  All-head_of_append,
}
use casa_os_app_management.Prelude.Map
use casa_os_app_management.Prelude.Map.{
  Map, get-assign, get-delete, keys, IsMap, IsMap-assign, IsMap-delete, any-keys, count-keys,
}
use Prim.Native.Char.{Char, code}

abbrev pub Bytes : Type 0
Bytes = List ℕ

abbrev pub newline : ℕ
newline = 10

abbrev pub carriage_return : ℕ
carriage_return = 13

abbrev pub space : ℕ
space = 32

-- `MaxLineBytes`
abbrev pub max_line_bytes : ℕ
max_line_bytes = 16384

-- `truncatedMark`, in UTF-8
abbrev pub truncated_mark : Bytes
truncated_mark = 32 ∷ 226 ∷ 128 ∷ 166 ∷ codes "[tronqu" ++ 195 ∷ 169 ∷ 93 ∷ []

-- `newlines.Replace`
unfoldable pub replace_newlines : Bytes → Bytes
replace_newlines [] = []
replace_newlines (c ∷ cs) =
    (if c =ℕ carriage_return || c =ℕ newline then space else c) ∷ replace_newlines cs

-- puts a byte in front of what `strings.Cut` found before the separator
abbrev pub before_cut : ℕ → Option (Bytes × Bytes) → Option (Bytes × Bytes)
before_cut c none = none
before_cut c (some (ts, after)) = some (c ∷ ts, after)

-- `strings.Cut` at a separator of one byte
unfoldable pub cut_at : ℕ → Bytes → Option (Bytes × Bytes)
cut_at sep [] = none
cut_at sep (c ∷ cs) =
    let rest = cut_at sep cs in if c =ℕ sep then some ([], cs) else before_cut c rest

-- the byte of stdout and that of stderr
abbrev pub is_stream : ℕ → Bool
is_stream c = c =ℕ b'o' || c =ℕ b'e'

module _ (write_time : ℕ → Bytes) where
  -- `FormatLine`
  unfoldable pub format_line : ℕ → ℕ → Bytes → Bytes
  unfolding replace_newlines
  format_line at stream text =
      write_time at ++ space ∷ stream ∷ space ∷ (replace_newlines text ++ newline ∷ [])

module _ (read_time : Bytes → Option ℕ) where
  -- what comes behind the time
  unfoldable pub with_time : Option ℕ → Bytes → Option (ℕ × ℕ × Bytes)
  with_time none rest = none
  with_time (some at) [] = none
  with_time (some at) (stream ∷ []) = none
  with_time (some at) (stream ∷ sep ∷ text) =
      if is_stream stream && sep =ℕ space then some (at, stream, text) else none

  unfoldable pub parse_cut : Option (Bytes × Bytes) → Option (ℕ × ℕ × Bytes)
  unfolding with_time
  parse_cut none = none
  parse_cut (some (ts, rest)) = with_time (read_time ts) rest

  -- `ParseLine`, and `parseRaw` of query.go, which is the same on bytes
  unfoldable pub parse_line : Bytes → Option (ℕ × ℕ × Bytes)
  unfolding parse_cut cut_at
  parse_line b = parse_cut (cut_at space b)

-- `utf8.RuneStart`
abbrev pub rune_start : ℕ → Bool
rune_start b = ltb b 0x80 || leb 0xc0 b

-- `cut` is moved back to the start of a rune, or to 0.
unfoldable pub back_to_rune : Bytes → ℕ → ℕ
back_to_rune text zero = 0
back_to_rune text (suc cut) =
    let earlier = back_to_rune text cut in
    elim (get_elem? text (suc cut)) [
      | none ↦ earlier
      | some b ↦ if rune_start b then suc cut else earlier
    ]

-- `Truncate`
unfoldable pub truncate : Bytes → Bytes
unfolding back_to_rune
truncate text =
    if leb (length text) max_line_bytes
    then text
    else take (back_to_rune text max_line_bytes) text ++ truncated_mark

-- what `unsafeChars` does not match
abbrev pub is_safe : ℕ → Bool
is_safe c =
    (leb b'A' c && leb c b'Z')
    || ((leb b'a' c && leb c b'z')
        || ((leb b'0' c && leb c b'9') || (c =ℕ b'_' || (c =ℕ b'.' || c =ℕ b'-'))))

-- `unsafeChars.ReplaceAllString(s, "_")`
unfoldable pub replace_unsafe : String → String
replace_unsafe String.[] = ""
replace_unsafe (String.◌∷◌ c s) =
    String.◌∷◌ (if is_safe (code c) then c else "_") (replace_unsafe s)

-- the texts that are no file name of their own
abbrev pub or_underscore : String → String
or_underscore s = if s == "" || (s == "." || s == "..") then "_" else s

-- `SafeName`
unfoldable pub safe_name : String → String
unfolding replace_unsafe
safe_name s = or_underscore (replace_unsafe s)
