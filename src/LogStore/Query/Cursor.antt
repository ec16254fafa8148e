-- ===== src/LogStore/Query/Cursor.antt =====
-- pkg/logstore/query.go: where a line is, as a text that a client sends back.
--
-- A time is a number of nanoseconds since the start of year 1 in UTC. `UnixNano` counts from 1970 in an
-- `int64`, which holds the years 1678 to 2262.
pub mod Inside
pub mod Laws
mod Examples
use casa_os_app_management.Prelude.{
  ℕ, zero, suc, ◌+◌, ◌-◌, ◌*◌, ◌/◌, ◌%◌, ◌^◌, ◌≤◌, ◌<◌, String, ◌≡◌, ◌≢◌, ◌↔◌, ◌⊎◌, inl, inr, refl,
  sym, ap, subst, ◌∙◌, Bool, true, false, not, ◌&&◌, ◌||◌, Option, none, some, List, [], ◌∷◌, ◌++◌,
  map, reverse, arith, eq_iff, eq_refl, ◌==◌, ltb, leb, ◌=ℕ◌, if◌then◌else◌, leb→le, ltb→lt,
  Bool-cases, Option-cases, length, take, drop, length-append, length-take, length-drop,
  take-append-drop, count, any, keep, count-append, count-le-length, any-pos, any-append,
  any-reverse, any_none, get_elem?, set, count-set, count-pos, drop-set, length-set, drop-append,
  drop_step, get_elem?-drop, get_elem?_in, get_elem?-append, get_elem?_lt, Sub, nil, Sub-snoc,
  Sub-tail, Sub-delete, snoc-ne-nil, All, All-append, All-map, All-zip, ◌<>◌, starts_with, clean,
  clean-not_empty, join_path, base, dir, show, show_inj, str_le, codes, str_le_total, str_le_trans,
  str_le_antisym, insert, insertion_sort, IsSorted, insertion_sort-IsSorted, count-insertion_sort,
  length-insertion_sort, sum_by-insertion_sort, any-insertion_sort, All-insertion_sort, sum_by,
  sum_by-append, sum_by-keep, count-keep, All-keep, All-keep_of, All-tail_of_append,
  All-head_of_append,
}
use casa_os_app_management.Prelude.Map
use casa_os_app_management.Prelude.Map.{
  Map, get-assign, get-delete, keys, IsMap, IsMap-assign, IsMap-delete, any-keys, count-keys,
}
use casa_os_app_management.Prelude.{decimal, digits_of}
use casa_os_app_management.LogStore.Line.{Bytes, cut_at}

pub data ℤ : Type 0 where
  pos : ℕ → ℤ
  -- `negsuc n` is the number - n - 1
  negsuc : ℕ → ℤ

-- `Cursor`
pub record Cursor : Type 0 where
  pub at : ℕ
  -- a path relative to the root of the store
  pub file : Bytes
  -- the offset of the start of the line
  pub seq : ℕ

-- `ErrBadFilter` with what is wrong
pub data FilterError : Type 0 where
  bad_level bad_stream bad_pattern bad_cursor : FilterError

pub data Result {ℓ} (A : Type ℓ) : Type ℓ where
  ok : A → Result A
  err : FilterError → Result A

-- the start of 1970
abbrev pub unix_epoch : ℕ
unix_epoch = 62135596800000000000

-- `UnixNano`
abbrev pub unix_nano : ℕ → ℤ
unix_nano t = if leb unix_epoch t then pos (t - unix_epoch) else negsuc (unix_epoch - t - 1)

-- `time.Unix(0, ns).UTC()`
abbrev pub of_unix_nano : ℤ → ℕ
of_unix_nano (pos n) = unix_epoch + n
of_unix_nano (negsuc n) = unix_epoch - (n + 1)

-- `strconv.FormatInt(n, 10)`
unfoldable pub format_int : ℤ → Bytes
format_int (pos n) = decimal n
format_int (negsuc n) = b'-' ∷ decimal (n + 1)

-- a number that was read without its sign, if the sign leaves it in an `int64`
abbrev pub signed : Bool → Option ℕ → Option ℤ
signed negative none = none
signed true (some zero) = some (pos 0)
signed true (some (suc n)) = if ltb n (2 ^ 63) then some (negsuc n) else none
signed false (some n) = if ltb n (2 ^ 63) then some (pos n) else none

-- `strconv.ParseInt(s, 10, 64)`
unfoldable pub parse_int : Bytes → Option ℤ
unfolding digits_of
parse_int [] = none
parse_int (c ∷ cs) =
    if c =ℕ b'-'
    then signed true (digits_of cs)
    else if c =ℕ b'+'
    then signed false (digits_of cs)
    else signed false (digits_of (c ∷ cs))

-- `c.String()`
unfoldable pub cursor_text : Cursor → Bytes
unfolding format_int
cursor_text c = format_int (unix_nano c.at) ++ b':' ∷ (format_int (pos c.seq) ++ b':' ∷ c.file)

-- the parts between slashes, as the first and the others
unfoldable pub path_parts : Bytes → Bytes × List Bytes
path_parts [] = ([], [])
path_parts (c ∷ cs) =
    let (part, parts) = path_parts cs in if c =ℕ b'/' then ([], part ∷ parts) else (c ∷ part, parts)

abbrev pub is_parent : Bytes → Bool
is_parent [] = false
is_parent (c ∷ []) = false
is_parent (c ∷ d ∷ []) = c =ℕ b'.' && d =ℕ b'.'
is_parent (c ∷ d ∷ e ∷ cs) = false

-- `slices.Contains(strings.Split(file, "/"), "..")`
unfoldable pub climbs : Bytes → Bool
unfolding path_parts
climbs file = let (part, parts) = path_parts file in is_parent part || any is_parent parts

abbrev pub starts_at_root : Bytes → Bool
starts_at_root [] = false
starts_at_root (c ∷ cs) = c =ℕ b'/'

abbrev pub is_empty : Bytes → Bool
is_empty [] = true
is_empty (c ∷ cs) = false

-- the tests that `ParseCursor` puts the file to
unfoldable pub is_inside : Bytes → Bool
unfolding climbs
is_inside file =
    not (is_empty file)
    && (not (starts_at_root file) && (not (any (λ c. c =ℕ b'\\') file) && not (climbs file)))

-- what `ParseCursor` makes of the numbers and the file
unfoldable pub checked_cursor : Option ℤ → Option ℤ → Bytes → Result Cursor
unfolding is_inside
checked_cursor none seq file = err bad_cursor
checked_cursor (some ns) none file = err bad_cursor
checked_cursor (some ns) (some (negsuc seq)) file = err bad_cursor
checked_cursor (some ns) (some (pos seq)) file =
    if is_inside file
    then ok (record { at = of_unix_nano ns; file = file; seq = seq })
    else err bad_cursor

-- the second and third of the parts that `strings.SplitN(s, ":", 3)` makes
unfoldable pub two_parts : Bytes → Option (Bytes × Bytes) → Result Cursor
unfolding checked_cursor parse_int
two_parts ns none = err bad_cursor
two_parts ns (some (seq, file)) = checked_cursor (parse_int ns) (parse_int seq) file

unfoldable pub three_parts : Option (Bytes × Bytes) → Result Cursor
unfolding two_parts cut_at
three_parts none = err bad_cursor
three_parts (some (ns, rest)) = two_parts ns (cut_at b':' rest)

-- `ParseCursor`
unfoldable pub parse_cursor : Bytes → Result Cursor
unfolding three_parts cut_at
parse_cursor s = three_parts (cut_at b':' s)
