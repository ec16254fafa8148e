-- ===== src/LogStore/Query/Reader/Lines.antt =====
-- pkg/logstore/query.go: the whole lines of a file, which both readers go through.
use casa_os_app_management.Prelude.{
  ℕ, ◌+◌, ◌<◌, ◌≡◌, inl, inr, refl, sym, ap, subst, ◌∙◌, Option, none, some, List, [], ◌∷◌, ◌++◌,
  arith, ◌=ℕ◌, if◌then◌else◌, Bool-cases, Option-cases, length, length-append, All,
}
use mathlib.Core.List.{append_assoc, append-nil}
use casa_os_app_management.LogStore.Line.{Bytes, newline, parse_line}
use casa_os_app_management.LogStore.Line.Laws.{Lacks}
use casa_os_app_management.LogStore.Query.Reader.{Rec, max_read_line}

-- The lines that a newline ends, each with the offset it starts at, without its newline. `line` is what
-- is read of the line that starts at `start`.
unfoldable pub whole_lines : ℕ → Bytes → Bytes → List (ℕ × Bytes)
whole_lines start line [] = []
whole_lines start line (c ∷ cs) =
    let next = whole_lines (start + length line + 1) [] cs in
    let longer = whole_lines start (line ++ c ∷ []) cs in
    if c =ℕ newline then (start, line) ∷ next else longer

abbrev pub rec_of : ℕ → ℕ × ℕ × Bytes → Rec
rec_of start (at, stream, text) = record { at = at; seq = start; stream = stream; text = text }

abbrev pub parsed_first : ℕ → Option (ℕ × ℕ × Bytes) → List Rec → List Rec
parsed_first start none rest = rest
parsed_first start (some fields) rest = rec_of start fields ∷ rest

-- the lines that parse
unfoldable pub records : (Bytes → Option ℕ) → List (ℕ × Bytes) → List Rec
records read_time [] = []
records read_time ((start, line) ∷ lines) =
    parsed_first start (parse_line read_time line) (records read_time lines)

-- a line that no reader cuts
abbrev pub IsShort : ℕ × Bytes → Type 0
IsShort (start, line) = length line < max_read_line

pub whole_lines-append :
    (start : ℕ) (line xs ys : Bytes)
    → whole_lines start line (xs ++ newline ∷ ys)
      ≡ whole_lines start line (xs ++ newline ∷ [])
        ++ whole_lines (start + length line + length xs + 1) [] ys
unfolding whole_lines
whole_lines-append start line [] ys = ap (λ n. (start, line) ∷ whole_lines n [] ys) (omega arith)
whole_lines-append start line (c ∷ xs) ys = elim (Bool-cases (c =ℕ newline)) [
  | inl e ↦ rw e (
      ap (◌∷◌ (start, line)) (
        whole_lines-append (start + length line + 1) [] xs ys
        ∙ ap
            (λ n.
              whole_lines (start + length line + 1) [] (xs ++ newline ∷ []) ++ whole_lines n [] ys)
            (omega arith)))
  | inr e ↦ rw e (
      whole_lines-append start (line ++ c ∷ []) xs ys
      ∙ ap (λ n. whole_lines start (line ++ c ∷ []) (xs ++ newline ∷ []) ++ whole_lines n [] ys)
          (omega (arith, length-append line (c ∷ []))))
]

pub whole_lines-Lacks :
    (start : ℕ) (line ys : Bytes) → Lacks newline ys → whole_lines start line ys ≡ []
unfolding whole_lines
whole_lines-Lacks start line [] h = refl
whole_lines-Lacks start line (c ∷ ys) (h, hs) =
    rw h (whole_lines-Lacks start (line ++ c ∷ []) ys hs)

-- what follows the last newline is not a line yet
pub whole_lines_unfinished :
    (start : ℕ) (line xs ys : Bytes)
    → Lacks newline ys
    → whole_lines start line (xs ++ ys) ≡ whole_lines start line xs
unfolding whole_lines
whole_lines_unfinished start line [] ys h = whole_lines-Lacks start line ys h
whole_lines_unfinished start line (c ∷ xs) ys h = elim (Bool-cases (c =ℕ newline)) [
  | inl e ↦
      rw e (ap (◌∷◌ (start, line)) (whole_lines_unfinished (start + length line + 1) [] xs ys h))
  | inr e ↦ rw e (whole_lines_unfinished start (line ++ c ∷ []) xs ys h)
]

pub whole_lines_one :
    (start : ℕ) (line ys rest : Bytes)
    → Lacks newline ys
    → whole_lines start line (ys ++ newline ∷ rest)
      ≡ (start, line ++ ys) ∷ whole_lines (start + length line + length ys + 1) [] rest
unfolding whole_lines
whole_lines_one start line [] rest h =
    ap (λ l. (start, l) ∷ whole_lines (start + length line + 1) [] rest) (sym (append-nil line))
    ∙ ap (λ n. (start, line ++ []) ∷ whole_lines n [] rest) (omega arith)
whole_lines_one start line (c ∷ ys) rest (h, hs) = rw h (
    whole_lines_one start (line ++ c ∷ []) ys rest hs
    ∙ (ap (λ l. (start, l) ∷ whole_lines (start + length (line ++ c ∷ []) + length ys + 1) [] rest)
          (append_assoc line (c ∷ []) ys)
        ∙ ap (λ n. (start, line ++ c ∷ ys) ∷ whole_lines n [] rest)
            (omega (arith, length-append line (c ∷ [])))))

-- the line at the end of a text of short lines is short
pub tail-IsShort :
    (start : ℕ) (line xs ys : Bytes)
    → Lacks newline ys
    → All IsShort (whole_lines start line (xs ++ (ys ++ newline ∷ [])))
    → length ys < max_read_line
unfolding whole_lines
tail-IsShort start line [] ys h short =
    let own : All IsShort ((start, line ++ ys) ∷ []) =
      subst (All IsShort) (whole_lines_one start line ys [] h) short in
    omega (arith, own.0, length-append line ys)
tail-IsShort start line (c ∷ xs) ys h short = elim (Bool-cases (c =ℕ newline)) [
  | inl e ↦ tail-IsShort (start + length line + 1) [] xs ys h (rw e at short).1
  | inr e ↦ tail-IsShort start (line ++ c ∷ []) xs ys h (rw e at short)
]

pub records-append :
    (read_time : Bytes → Option ℕ) (xs ys : List (ℕ × Bytes))
    → records read_time (xs ++ ys) ≡ records read_time xs ++ records read_time ys
unfolding records
records-append read_time [] ys = refl
records-append read_time ((start, line) ∷ xs) ys = elim (Option-cases (parse_line read_time line)) [
  | inl e ↦ rw e (records-append read_time xs ys)
  | inr (fields, e) ↦ rw e (ap (◌∷◌ (rec_of start fields)) (records-append read_time xs ys))
]
