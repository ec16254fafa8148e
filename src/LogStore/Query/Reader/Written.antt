-- ===== src/LogStore/Query/Reader/Written.antt =====
-- pkg/logstore: a day file that `FormatLine` wrote, read again.
use casa_os_app_management.Prelude.{
  ℕ, ◌+◌, ◌<◌, ◌≡◌, refl, sym, ap, subst, ◌∙◌, true, false, Option, some, List, [], ◌∷◌, ◌++◌,
  arith, ◌=ℕ◌, length, All,
}
use mathlib.Core.List.{append_assoc}
use casa_os_app_management.LogStore.Line.{
  Bytes, newline, space, is_stream, replace_newlines, format_line,
}
use casa_os_app_management.LogStore.Line.Laws.{Lacks, Lacks-replace_newlines, parse_written}
use casa_os_app_management.LogStore.Query.Reader.{Rec, drain, fwd_step, max_read_line}
use casa_os_app_management.LogStore.Query.Reader.Lines.{
  whole_lines, records, rec_of, parsed_first, IsShort, whole_lines_one,
}
use casa_os_app_management.LogStore.Query.Reader.Splits.{Lacks-append}
use casa_os_app_management.LogStore.Query.Reader.Forwards.{fwd-records}

-- what a container wrote: when, to which stream, and the text
pub record Entry : Type 0 where
  pub at : ℕ
  pub stream : ℕ
  pub text : Bytes

module _ (write_time : ℕ → Bytes) where
  -- the line of an entry, without its newline
  abbrev pub front : Entry → Bytes
  front e = write_time e.at ++ space ∷ e.stream ∷ space ∷ replace_newlines e.text

  -- the file that the lines of the entries make up
  unfoldable pub written : List Entry → Bytes
  unfolding format_line
  written [] = []
  written (e ∷ es) = format_line write_time e.at e.stream e.text ++ written es

  -- what a reader should find: each entry with the offset of its line, its newlines made spaces
  unfoldable pub expected : ℕ → List Entry → List Rec
  expected start [] = []
  expected start (e ∷ es) =
      record { at = e.at; seq = start; stream = e.stream; text = replace_newlines e.text }
      ∷ expected (start + 0 + length (front e) + 1) es

  abbrev pub IsPlain : Entry → Type 0
  IsPlain e = (is_stream e.stream ≡ true) × (length (front e) < max_read_line)

  written_next : (e : Entry) (es : List Entry) → written (e ∷ es) ≡ front e ++ newline ∷ written es
  unfolding written
  written_next e es =
      let rest = newline ∷ [] in
      ap (λ b. b ++ written es)
        (sym (
          append_assoc (write_time e.at) (space ∷ e.stream ∷ space ∷ replace_newlines e.text) rest))
      ∙ append_assoc (front e) rest (written es)

  module _ (read_time : Bytes → Option ℕ) (read_back : (t : ℕ) → read_time (write_time t) ≡ some t)
      (spaceless : (t : ℕ) → Lacks space (write_time t))
      (one_line : (t : ℕ) → Lacks newline (write_time t)) where
    stream-Lacks : (c : ℕ) → is_stream c ≡ true → (c =ℕ newline) ≡ false
    stream-Lacks c h = ground arith

    front-Lacks : (e : Entry) → is_stream e.stream ≡ true → Lacks newline (front e)
    front-Lacks e h =
        Lacks-append (write_time e.at) (space ∷ e.stream ∷ space ∷ replace_newlines e.text)
          (one_line e.at) (refl, (stream-Lacks e.stream h, (refl, Lacks-replace_newlines e.text)))

    written-lines :
        (start : ℕ) (e : Entry) (es : List Entry)
        → IsPlain e
        → whole_lines start [] (written (e ∷ es))
          ≡ (start, front e) ∷ whole_lines (start + 0 + length (front e) + 1) [] (written es)
    written-lines start e es h =
        ap (whole_lines start []) (written_next e es)
        ∙ whole_lines_one start [] (front e) (written es) (front-Lacks e h.0)

    written-IsShort :
        (start : ℕ) (es : List Entry)
        → All IsPlain es
        → All IsShort (whole_lines start [] (written es))
    unfolding whole_lines written
    written-IsShort start [] h = tt
    written-IsShort start (e ∷ es) (h, hs) =
        subst (All IsShort) (sym (written-lines start e es h))
          (h.1, written-IsShort (start + 0 + length (front e) + 1) es hs)

    written-records :
        (start : ℕ) (es : List Entry)
        → All IsPlain es
        → records read_time (whole_lines start [] (written es)) ≡ expected start es
    unfolding whole_lines written records expected
    written-records start [] h = refl
    written-records start (e ∷ es) (h, hs) =
        ap (records read_time) (written-lines start e es h)
        ∙ (ap
              (λ p. parsed_first start p (
                records read_time (whole_lines (start + 0 + length (front e) + 1) [] (written es))))
              (parse_written write_time read_time e.at (read_back e.at) (spaceless e.at) e.stream
                (replace_newlines e.text) h.0)
            ∙ ap (◌∷◌ (rec_of start (e.at, e.stream, replace_newlines e.text)))
                (written-records (start + 0 + length (front e) + 1) es hs))

    -- If the text of a time reads back as that time and holds neither a space nor a newline, the
    -- forwards reader finds in a file of lines that `FormatLine` wrote one line for each entry, in order,
    -- with its time, its stream, the offset its line starts at, and its text with the newlines made
    -- spaces; every stream is that of stdout or of stderr and every line is shorter than 1 MiB.
    pub fwd-written :
        (es : List Entry)
        → All IsPlain es
        → drain
            (length (written es) + 1)
            (fwd_step read_time)
            (record { pos = 0; rest = written es })
          ≡ expected 0 es
    fwd-written es h =
        fwd-records read_time (length (written es) + 1) 0 (written es) (written-IsShort 0 es h)
          (omega arith)
        ∙ written-records 0 es h
