-- ===== src/LogStore/Query/Reader/Forwards.antt =====
-- pkg/logstore/query.go: the forwards reader finds each line once, in the order of the file.
use casa_os_app_management.Prelude.{
  ℕ, zero, suc, ◌+◌, ◌≤◌, ◌<◌, ◌≡◌, inl, inr, refl, sym, ap, subst, ◌∙◌, Option, none, some, [],
  ◌∷◌, ◌++◌, arith, ltb, Bool-cases, length, take, length-append, All,
}
use casa_os_app_management.LogStore.Line.{Bytes, newline, parse_line}
use casa_os_app_management.LogStore.Line.Laws.{Lacks}
use casa_os_app_management.LogStore.Query.Reader.{
  collect, Step, ended, drain, max_read_line, read_chunk, cap_line, emit, fwd_line, fwd_step,
  trim_newline,
}
use casa_os_app_management.LogStore.Query.Reader.Lines.{
  whole_lines, records, parsed_first, IsShort, whole_lines-Lacks, whole_lines_one,
}
use casa_os_app_management.LogStore.Query.Reader.Splits.{
  first_newline_cases, cut_line-Lacks, cut_line_at, trim_newline_at,
}

-- one round of a loop that hands a line over or passes it over
pub drain-emit {ℓ} :
    {S : Type ℓ} (fuel : ℕ) (step : S → Step S) (s : S) (start : ℕ) (p : Option (ℕ × ℕ × Bytes))
    (next : S)
    → step s ≡ emit start p next
    → drain (suc fuel) step s ≡ parsed_first start p (drain fuel step next)
unfolding drain emit
drain-emit fuel step s start none next e = ap (collect (drain fuel step)) e
drain-emit fuel step s start (some (at, stream, text)) next e = ap (collect (drain fuel step)) e

-- the limit is above the line with its newline
cap_line_short :
    (line : Bytes)
    → length line < max_read_line
    → cap_line (line ++ newline ∷ []) ≡ line ++ newline ∷ []
cap_line_short line h = elim (Bool-cases (ltb read_chunk (length (line ++ newline ∷ [])))) [
  | inl e ↦ rw e (
      take_all (line ++ newline ∷ []) max_read_line
        (omega (arith, length-append line (newline ∷ []))))
  | inr e ↦ rw e refl
]
  where
    take_all : (xs : Bytes) (n : ℕ) → length xs ≤ n → take n xs ≡ xs
    take_all [] zero h = refl
    take_all [] (suc n) h = refl
    take_all (x ∷ xs) zero h = absurd (omega arith)
    take_all (x ∷ xs) (suc n) h = ap (◌∷◌ x) (take_all xs n (omega arith))

module _ (read_time : Bytes → Option ℕ) where
  fwd_step_at :
      (pos : ℕ) (line rest : Bytes)
      → Lacks newline line
      → length line < max_read_line
      → fwd_step read_time (record { pos = pos; rest = line ++ newline ∷ rest })
        ≡ emit pos
            (parse_line read_time line)
            (record { pos = pos + length (line ++ newline ∷ []); rest = rest })
  unfolding fwd_step fwd_line
  fwd_step_at pos line rest h short = rw (cut_line_at line rest h) (
      ap
        (λ l.
          emit pos (parse_line read_time l)
            (record { pos = pos + length (line ++ newline ∷ []); rest = rest }))
        (ap trim_newline (cap_line_short line short) ∙ trim_newline_at line))

  fwd_step_end :
      (pos : ℕ) (rest : Bytes)
      → Lacks newline rest
      → fwd_step read_time (record { pos = pos; rest = rest }) ≡ ended
  unfolding fwd_step fwd_line
  fwd_step_end pos rest h = rw (cut_line-Lacks rest h) refl

  -- The forwards reader, given a round for each byte and one more, returns the lines that a newline ends
  -- and that parse, each with its offset, in their order; lines are shorter than 1 MiB.
  pub fwd-records :
      (fuel pos : ℕ) (rest : Bytes)
      → All IsShort (whole_lines pos [] rest)
      → length rest < fuel
      → drain fuel (fwd_step read_time) (record { pos = pos; rest = rest })
        ≡ records read_time (whole_lines pos [] rest)
  unfolding drain records
  fwd-records zero pos rest short h = absurd (omega arith)
  fwd-records (suc fuel) pos rest short h = elim (first_newline_cases rest) [
    | inl lacks ↦
        ap (collect (drain fuel (fwd_step read_time))) (fwd_step_end pos rest lacks)
        ∙ sym (ap (records read_time) (whole_lines-Lacks pos [] rest lacks))
    | inr (line, after, e, lacks) ↦
        let lines = ap (whole_lines pos []) e ∙ whole_lines_one pos [] line after lacks in
        let both : All IsShort ((pos, line) ∷ whole_lines (pos + 0 + length line + 1) [] after) =
          subst (All IsShort) lines short in
        let next : pos + length (line ++ newline ∷ []) ≡ pos + 0 + length line + 1 =
          omega (arith, length-append line (newline ∷ [])) in
        drain-emit fuel (fwd_step read_time) (record { pos = pos; rest = rest }) pos
          (parse_line read_time line)
          (record { pos = pos + length (line ++ newline ∷ []); rest = after })
          (ap (λ r. fwd_step read_time (record { pos = pos; rest = r })) e
            ∙ fwd_step_at pos line after lacks both.0)
        ∙ (ap (parsed_first pos (parse_line read_time line)) (
              ap (λ n. drain fuel (fwd_step read_time) (record { pos = n; rest = after })) next
              ∙ fwd-records fuel (pos + 0 + length line + 1) after both.1
                  (omega (arith, ap length e, length-append line (newline ∷ after))))
            ∙ sym (ap (records read_time) lines))
  ]
