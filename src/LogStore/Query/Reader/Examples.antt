-- ===== src/LogStore/Query/Reader/Examples.antt =====
-- Day files that are read, with the number of strokes as the text of a time.
use casa_os_app_management.Prelude.{
  ℕ, zero, suc, ◌+◌, ◌*◌, ◌≡◌, refl, ap, false, Option, none, some, List, [], ◌∷◌, ◌++◌, reverse,
  arith, ◌=ℕ◌, if◌then◌else◌, length, All, codes,
}
use casa_os_app_management.LogStore.Line.{Bytes, newline, space, parse_line, replace_newlines}
use casa_os_app_management.LogStore.Line.Laws.{Lacks}
use casa_os_app_management.LogStore.Query.Reader.{Rec, drain, fwd_step, rev_step}
use casa_os_app_management.LogStore.Query.Reader.Lines.{whole_lines, IsShort}
use casa_os_app_management.LogStore.Query.Reader.Backwards.{fresh}
use casa_os_app_management.LogStore.Query.Reader.Agreement.{rev_fwd}
use casa_os_app_management.LogStore.Query.Reader.Written.{Entry, written, expected, fwd-written}

abbrev pub strokes : ℕ → Bytes
strokes zero = []
strokes (suc n) = b'|' ∷ strokes n

abbrev pub one_more : Option ℕ → Option ℕ
one_more none = none
one_more (some n) = some (suc n)

abbrev pub tally : Bytes → Option ℕ
tally [] = some 0
tally (c ∷ cs) = let rest = tally cs in if c =ℕ b'|' then one_more rest else none

tally-strokes : (t : ℕ) → tally (strokes t) ≡ some t
tally-strokes zero = refl
tally-strokes (suc t) = ap one_more (tally-strokes t)

strokes-Lacks : (c t : ℕ) → (b'|' =ℕ c) ≡ false → Lacks c (strokes t)
strokes-Lacks c zero h = tt
strokes-Lacks c (suc t) h = (h, strokes-Lacks c t h)

-- a line that parses, one that does not, another that does, and one that is still being written
abbrev sample : Bytes
sample =
    codes "|| o up"
    ++ newline ∷ (codes "oops" ++ newline ∷ (codes "||| e x" ++ newline ∷ codes "|||"))

abbrev up : Rec
up = record { at = 2; seq = 0; stream = b'o'; text = codes "up" }

abbrev down : Rec
down = record { at = 3; seq = 13; stream = b'e'; text = codes "x" }

sample-IsShort : All IsShort (whole_lines 0 [] sample)
unfolding whole_lines
sample-IsShort = (omega arith, (omega arith, (omega arith, tt)))

rev_fwd_run :
    drain (2 * length sample + 2) (rev_step tally sample) (fresh (length sample)) ≡ down ∷ up ∷ []
unfolding drain rev_step parse_line
rev_fwd_run = refl

rev_fwd_example :
    drain (2 * length sample + 2) (rev_step tally sample) (fresh (length sample))
    ≡ reverse (drain (length sample + 1) (fwd_step tally) (record { pos = 0; rest = sample }))
rev_fwd_example = rev_fwd tally sample sample-IsShort

abbrev sample_entries : List Entry
sample_entries =
    record { at = 2; stream = b'o'; text = codes "a" ++ newline ∷ codes "b" }
    ∷ record { at = 4; stream = b'e'; text = [] }
    ∷ []

fwd-written_example :
    drain
      (length (written strokes sample_entries) + 1)
      (fwd_step tally)
      (record { pos = 0; rest = written strokes sample_entries })
    ≡ expected strokes 0 sample_entries
unfolding replace_newlines
fwd-written_example =
    fwd-written strokes tally tally-strokes (λ t. strokes-Lacks space t refl)
      (λ t. strokes-Lacks newline t refl) sample_entries
      ((refl, omega arith), ((refl, omega arith), tt))
