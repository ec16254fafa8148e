-- ===== src/LogStore/Query/Reader/Agreement.antt =====
-- pkg/logstore/query.go: both readers find the same lines, in opposite orders.
use casa_os_app_management.Prelude.{
  ℕ, zero, suc, ◌+◌, ◌*◌, ◌≤◌, ◌<◌, ◌≡◌, inl, inr, refl, sym, ap, subst, ◌∙◌, Bool, true, false,
  Option, none, some, List, [], ◌∷◌, ◌++◌, reverse, arith, length, take, length-append, length-take,
  All,
}
use mathlib.Core.List.{append_assoc, append-nil, reverse-append}
use casa_os_app_management.LogStore.Line.{Bytes, newline, parse_line}
use casa_os_app_management.LogStore.Line.Laws.{Lacks}
use casa_os_app_management.LogStore.Query.Reader.{
  Rec, again, collect, drain, RevReader, fill, rev_step, fwd_step,
}
use casa_os_app_management.LogStore.Query.Reader.Lines.{
  whole_lines, records, rec_of, parsed_first, IsShort, tail-IsShort, whole_lines-append,
  whole_lines_one, records-append,
}
use casa_os_app_management.LogStore.Query.Reader.Splits.{newline_cases, take-whole}
use casa_os_app_management.LogStore.Query.Reader.Forwards.{drain-emit, fwd-records}
use casa_os_app_management.LogStore.Query.Reader.Backwards.{
  unread, fresh, holding, IsWhole, at_start, untrimmed, whole, work, IsFilled, fill_first,
  fill_more,
}
use casa_os_app_management.LogStore.Query.Reader.Rounds.{pop_line, pop_last, fill_on, fill_at_first}

All-fst {ℓ κ} : {A : Type ℓ} (P : A → Type κ) (xs ys : List A) → All P (xs ++ ys) → All P xs
All-fst P [] ys h = tt
All-fst P (x ∷ xs) ys (h, hs) = (h, All-fst P xs ys hs)

last_first :
    (start : ℕ) (p : Option (ℕ × ℕ × Bytes)) (xs : List Rec)
    → parsed_first start p (reverse xs) ≡ reverse (xs ++ parsed_first start p [])
last_first start none xs = ap reverse (sym (append-nil xs))
last_first start (some fields) xs = sym (reverse-append xs (rec_of start fields ∷ []))

one_line :
    (start : ℕ) (line : Bytes)
    → Lacks newline line
    → whole_lines start [] (line ++ newline ∷ []) ≡ (start, line) ∷ []
unfolding whole_lines
one_line start line lacks = whole_lines_one start [] line [] lacks

-- the lines of what is unread, with the last one apart
lines_last :
    (file before line : Bytes) (off : ℕ)
    → off ≤ length file
    → Lacks newline line
    → whole_lines 0 [] (take off file ++ ((before ++ newline ∷ line) ++ newline ∷ []))
      ≡ whole_lines 0 [] (take off file ++ (before ++ newline ∷ []))
        ++ (off + suc (length before), line) ∷ []
lines_last file before line off h lacks =
    let front = take off file ++ before in
    let start : 0 + 0 + length front + 1 ≡ off + suc (length before) =
      omega (arith, h, length-append (take off file) before, length-take off file) in
    ap (λ b. whole_lines 0 [] (take off file ++ b))
      (append_assoc before (newline ∷ line) (newline ∷ []))
    ∙ (ap (whole_lines 0 [])
          (sym (append_assoc (take off file) before (newline ∷ (line ++ newline ∷ []))))
        ∙ (whole_lines-append 0 [] front (line ++ newline ∷ [])
            ∙ (ap
                  (λ b.
                    whole_lines 0 [] b
                    ++ whole_lines (0 + 0 + length front + 1) [] (line ++ newline ∷ []))
                  (append_assoc (take off file) before (newline ∷ []))
                ∙ ap (λ l. whole_lines 0 [] (take off file ++ (before ++ newline ∷ [])) ++ l)
                    (ap (λ n. whole_lines n [] (line ++ newline ∷ [])) start
                      ∙ one_line (off + suc (length before)) line lacks))))

module _ (read_time : Bytes → Option ℕ) (file : Bytes) where
  abbrev Reads : ℕ → RevReader → Type 0
  Reads fuel s =
      IsWhole s
      → s.off ≤ length file
      → All IsShort (whole_lines 0 [] (unread file s))
      → work s < fuel
      → drain fuel (rev_step read_time file) s
        ≡ reverse (records read_time (whole_lines 0 [] (unread file s)))

  at_start-Reads :
      (fuel : ℕ) (trimmed : Bool)
      → Reads (suc fuel) (record { off = 0; buf = []; trimmed = trimmed })
  unfolding drain rev_step records whole_lines
  at_start-Reads fuel trimmed w h short lt = refl

  filled-Reads :
      (fuel : ℕ) (s : RevReader)
      → rev_step read_time file s ≡ again (fill file s)
      → IsFilled file s (fill file s)
      → Reads fuel (fill file s)
      → Reads (suc fuel) s
  unfolding drain
  filled-Reads fuel s e f rest w h short lt =
      ap (collect (drain fuel (rev_step read_time file))) e
      ∙ (rest f.0 (omega (arith, h, f.3)) (subst (All IsShort) (sym f.1) short)
            (omega (arith, lt, f.2))
          ∙ ap (λ l. reverse (records read_time l)) f.1)

  pop-Reads :
      (fuel off : ℕ) (before line : Bytes)
      → Lacks newline line
      → Reads fuel (holding off (before ++ newline ∷ []))
      → Reads (suc fuel) (holding off ((before ++ newline ∷ line) ++ newline ∷ []))
  unfolding records
  pop-Reads fuel off before line lacks rest w h short lt =
      let lines = lines_last file before line off h lacks in
      let earlier : List (ℕ × Bytes) =
        whole_lines 0 [] (take off file ++ (before ++ newline ∷ [])) in
      let one : List (ℕ × Bytes) = (off + suc (length before), line) ∷ [] in
      drain-emit fuel (rev_step read_time file) _ (off + suc (length before))
        (parse_line read_time line) _ (pop_line read_time file off before line lacks)
      ∙ (ap (parsed_first (off + suc (length before)) (parse_line read_time line)) (
            rest (whole off before) h
              (All-fst IsShort earlier one (subst (All IsShort) lines short))
              (omega (
                arith,
                lt,
                length-append (before ++ newline ∷ line) (newline ∷ []),
                length-append before (newline ∷ line),
                length-append before (newline ∷ []),
              )))
          ∙ (last_first (off + suc (length before)) (parse_line read_time line)
                (records read_time earlier)
              ∙ ap reverse
                  (sym (ap (records read_time) lines ∙ records-append read_time earlier one))))

  last-Reads :
      (fuel : ℕ) (line : Bytes)
      → Lacks newline line
      → Reads fuel (holding 0 [])
      → Reads (suc fuel) (holding 0 (line ++ newline ∷ []))
  unfolding records whole_lines
  last-Reads fuel line lacks rest w h short lt =
      drain-emit fuel (rev_step read_time file) _ 0 (parse_line read_time line) _
        (pop_last read_time file line lacks)
      ∙ (ap (parsed_first 0 (parse_line read_time line)) (
            rest (at_start true) (omega arith) tt
              (omega (arith, lt, length-append line (newline ∷ []))))
          ∙ (last_first 0 (parse_line read_time line) []
              ∙ ap (λ l. reverse (records read_time l)) (sym (one_line 0 line lacks))))

  only :
      (fuel off : ℕ) (line : Bytes)
      → Lacks newline line
      → off ≤ length file
      → All IsShort (whole_lines 0 [] (unread file (holding off (line ++ newline ∷ []))))
      → work (holding off (line ++ newline ∷ [])) < suc fuel
      → Reads fuel (holding 0 [])
      → Reads fuel (fill file (holding off (line ++ newline ∷ [])))
      → drain (suc fuel) (rev_step read_time file) (holding off (line ++ newline ∷ []))
        ≡ reverse (
            records read_time (whole_lines 0 [] (unread file (holding off (line ++ newline ∷ [])))))
  only fuel zero line lacks h short lt start more =
      last-Reads fuel line lacks start (whole 0 line) h short lt
  only fuel (suc off) line lacks h short lt start more =
      filled-Reads fuel (holding (suc off) (line ++ newline ∷ []))
        (fill_on read_time file (suc off) line (omega arith) lacks)
        (fill_more file (suc off) line (omega arith)
          (tail-IsShort 0 [] (take (suc off) file) line lacks short))
        more (whole (suc off) line) h short lt

  reads : (fuel : ℕ) (s : RevReader) → Reads fuel s
  reads zero s w h short lt = absurd (omega (arith, lt))
  reads (suc fuel) s (at_start trimmed) h short lt =
      at_start-Reads fuel trimmed (at_start trimmed) h short lt
  reads (suc fuel) s (untrimmed zero) h short lt =
      at_start-Reads fuel false (at_start false) h short lt
  reads (suc fuel) s (untrimmed (suc off)) h short lt =
      filled-Reads fuel (fresh (suc off)) (fill_at_first read_time file (suc off) (omega arith))
        (fill_first file (suc off) (omega arith)) (reads fuel (fill file (fresh (suc off))))
        (untrimmed (suc off)) h short lt
  reads (suc fuel) s (whole off body) h short lt = elim (newline_cases body) [
    | inr (before, line, e, lacks) ↦
        subst (λ b. Reads (suc fuel) (holding off (b ++ newline ∷ []))) (sym e)
          (pop-Reads fuel off before line lacks (reads fuel (holding off (before ++ newline ∷ []))))
          (whole off body) h short lt
    | inl lacks ↦
        only fuel off body lacks h short lt (reads fuel (holding 0 []))
          (reads fuel (fill file (holding off (body ++ newline ∷ []))))
  ]

  -- The backwards reader, given two rounds for each byte before its offset and two more, returns the
  -- lines before that offset that a newline ends and that parse, each with its offset, the last one
  -- first; lines are shorter than 1 MiB.
  pub rev-records :
      (fuel off : ℕ)
      → off ≤ length file
      → All IsShort (whole_lines 0 [] (take off file))
      → 2 * off + 1 < fuel
      → drain fuel (rev_step read_time file) (fresh off)
        ≡ reverse (records read_time (whole_lines 0 [] (take off file)))
  rev-records fuel off h short lt =
      let same = append-nil (take off file) in
      reads fuel (fresh off) (untrimmed off) h
        (subst (λ b. All IsShort (whole_lines 0 [] b)) (sym same) short) (omega (arith, lt))
      ∙ ap (λ b. reverse (records read_time (whole_lines 0 [] b))) same

  -- On a file of lines that are shorter than 1 MiB the backwards reader from the end finds what the
  -- forwards reader from the start finds, in the opposite order, with the same offsets.
  pub rev_fwd :
      All IsShort (whole_lines 0 [] file)
      → drain (2 * length file + 2) (rev_step read_time file) (fresh (length file))
        ≡ reverse (drain (length file + 1) (fwd_step read_time) (record { pos = 0; rest = file }))
  rev_fwd short =
      let all : take (length file) file ≡ file =
        ap (take (length file)) (sym (append-nil file)) ∙ take-whole file [] in
      rev-records (2 * length file + 2) (length file) (omega arith)
        (subst (λ b. All IsShort (whole_lines 0 [] b)) (sym all) short) (omega arith)
      ∙ (ap (λ b. reverse (records read_time (whole_lines 0 [] b))) all
          ∙ ap reverse (sym (fwd-records read_time (length file + 1) 0 file short (omega arith))))
