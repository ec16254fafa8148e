-- ===== src/LogStore/Query/Reader.antt =====
-- pkg/logstore/query.go: the lines of a day file, forwards and backwards.
--
-- A file is the list of its bytes, which stays as it is while it is read. One call of a `step` is the
-- body of the loop of `next` once; `drain` is the calls of `next` until the reader has no more. A
-- failed read and a query that is given up are not modelled.
pub mod Lines
pub mod Splits
pub mod Forwards
pub mod Backwards
pub mod Rounds
pub mod Agreement
pub mod Written
mod Examples
use casa_os_app_management.Prelude.{
  min, ℕ, zero, suc, ◌+◌, ◌-◌, ◌*◌, ◌/◌, ◌%◌, ◌^◌, ◌≤◌, ◌<◌, String, ◌≡◌, ◌≢◌, ◌↔◌, ◌⊎◌, inl, inr,
  refl, sym, ap, subst, ◌∙◌, Bool, true, false, not, ◌&&◌, ◌||◌, Option, none, some, List, [], ◌∷◌,
  ◌++◌, map, reverse, arith, eq_iff, eq_refl, ◌==◌, ltb, leb, ◌=ℕ◌, if◌then◌else◌, leb→le, ltb→lt,
  Bool-cases, Option-cases, length, take, drop, length-append, length-take, length-drop,
  take-append-drop, count, any, keep, count-append, count-le-length, any-pos, any-append,
  any-reverse, any_none, get_elem?, set, count-set, count-pos, drop-set, length-set, drop-append,
  drop_step, get_elem?-drop, get_elem?_in, get_elem?-append, get_elem?_lt, Sub, nil, Sub-snoc,
  Sub-tail, Sub-delete, snoc-ne-nil, All, All-append, All-map, All-zip, ◌<>◌, starts_with, clean,
  clean-not_empty, join_path, base, dir, show, show_inj, str_le, codes, str_le_total, str_le_trans,
  str_le_antisym, insert, insertion_sort, IsSorted, insertion_sort-IsSorted, count-insertion_sort,
  length-insertion_sort, sum_by-insertion_sort, any-insertion_sort, All-insertion_sort, sum_by,
  sum_by-append, sum_by-keep, count-keep, All-keep, All-keep_of, All-tail_of_append,
  All-head_of_append,
}
use casa_os_app_management.Prelude.Map
use casa_os_app_management.Prelude.Map.{
  Map, get-assign, get-delete, keys, IsMap, IsMap-assign, IsMap-delete, any-keys, count-keys,
}
use casa_os_app_management.LogStore.Line.{Bytes, newline, parse_line}

-- `readChunk`
abbrev pub read_chunk : ℕ
read_chunk = 65536

-- `maxReadLine`
abbrev pub max_read_line : ℕ
max_read_line = 1048576

-- `rec`
pub record Rec : Type 0 where
  pub at : ℕ
  pub seq : ℕ
  pub stream : ℕ
  pub text : Bytes

-- what the body of the loop of `next` does
pub data Step {ℓ} (S : Type ℓ) : Type ℓ where
  ended : Step S
  again : S → Step S
  found : Rec → S → Step S

-- what a caller collects from one round and from those after it
abbrev pub collect {ℓ} : {S : Type ℓ} → (S → List Rec) → Step S → List Rec
collect later ended = []
collect later (again s) = later s
collect later (found r s) = r ∷ later s

-- the calls of `next` until it finds nothing, with fuel for the loops
unfoldable pub drain {ℓ} : {S : Type ℓ} → ℕ → (S → Step S) → S → List Rec
drain zero step s = []
drain (suc fuel) step s = collect (drain fuel step) (step s)

pub record FwdReader : Type 0 where
  pub pos : ℕ
  -- the file from `pos` on
  pub rest : Bytes

pub record RevReader : Type 0 where
  pub off : ℕ
  pub buf : Bytes
  pub trimmed : Bool

-- puts a byte in front of the line that was cut
abbrev pub before_line : ℕ → Option (Bytes × Bytes) → Option (Bytes × Bytes)
before_line c none = none
before_line c (some (line, rest)) = some (c ∷ line, rest)

-- `ReadSlice('\n')`: the line with its newline, and what follows it
unfoldable pub cut_line : Bytes → Option (Bytes × Bytes)
cut_line [] = none
cut_line (c ∷ cs) =
    let later = cut_line cs in if c =ℕ newline then some (c ∷ [], cs) else before_line c later

-- A line that does not fit into the buffer is put together from its pieces, up to a limit.
abbrev pub cap_line : Bytes → Bytes
cap_line line = if ltb read_chunk (length line) then take max_read_line line else line

-- `bytes.TrimSuffix(b, "\n")`
unfoldable pub trim_newline : Bytes → Bytes
trim_newline [] = []
trim_newline (c ∷ []) = if c =ℕ newline then [] else c ∷ []
trim_newline (c ∷ d ∷ cs) = c ∷ trim_newline (d ∷ cs)

-- `bytes.LastIndexByte(b, '\n')`
unfoldable pub last_newline : Bytes → Option ℕ
last_newline [] = none
last_newline (c ∷ cs) = elim (last_newline cs) [
  | some j ↦ some (suc j)
  | none ↦ if c =ℕ newline then some 0 else none
]

-- what is kept of a buffer that holds the tail of one line
abbrev pub keep_tail : Bytes → Bytes
keep_tail buf =
    if ltb max_read_line (length buf) then take max_read_line buf ++ newline ∷ [] else buf

-- drops a line that is still being written, given the last newline
abbrev pub trim_unfinished : ℕ → Bytes → Option ℕ → RevReader
trim_unfinished off buf none = record { off = off; buf = []; trimmed = off =ℕ 0 }
trim_unfinished off buf (some i) = record { off = off; buf = take (suc i) buf; trimmed = true }

module _ (file : Bytes) where
  -- `fill`
  unfoldable pub fill : RevReader → RevReader
  unfolding last_newline
  fill s =
      let n = min s.off read_chunk in
      let off = s.off - n in
      let buf = take n (drop off file) ++ keep_tail s.buf in
      if s.trimmed
      then record { off = off; buf = buf; trimmed = true }
      else trim_unfinished off buf (last_newline buf)

-- a line that does not parse is passed over
unfoldable pub emit {ℓ} : {S : Type ℓ} → ℕ → Option (ℕ × ℕ × Bytes) → S → Step S
emit start none s = again s
emit start (some (at, stream, text)) s =
    found (record { at = at; seq = start; stream = stream; text = text }) s

module _ (read_time : Bytes → Option ℕ) where
  unfoldable pub fwd_line : ℕ → Option (Bytes × Bytes) → Step FwdReader
  unfolding emit trim_newline
  fwd_line pos none = ended
  fwd_line pos (some (line, rest)) =
      emit pos (parse_line read_time (trim_newline (cap_line line)))
        (record { pos = pos + length line; rest = rest })

  -- `fwdReader.next`
  unfoldable pub fwd_step : FwdReader → Step FwdReader
  unfolding fwd_line cut_line
  fwd_step s = fwd_line s.pos (cut_line s.rest)

  -- the line from `k` on leaves the buffer
  unfoldable pub rev_line : RevReader → ℕ → Step RevReader
  unfolding emit
  rev_line s k =
      emit (s.off + k) (parse_line read_time (take (length s.buf - 1 - k) (drop k s.buf)))
        (record s { buf = take k s.buf })

  module _ (file : Bytes) where
    unfoldable pub rev_at : RevReader → Option ℕ → Step RevReader
    unfolding rev_line fill
    rev_at s (some j) = rev_line s (suc j)
    rev_at s none = if ltb 0 s.off || not s.trimmed then again (fill file s) else rev_line s 0

    -- `revReader.next`
    unfoldable pub rev_step : RevReader → Step RevReader
    unfolding rev_at last_newline
    rev_step s =
        if length s.buf =ℕ 0 && s.off =ℕ 0
        then ended
        else rev_at s (last_newline (take (length s.buf - 1) s.buf))
