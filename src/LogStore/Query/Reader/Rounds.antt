-- ===== src/LogStore/Query/Reader/Rounds.antt =====
-- pkg/logstore/query.go: which line a round of the backwards reader takes.
use casa_os_app_management.Prelude.{
  ℕ, suc, ◌+◌, ◌-◌, ◌<◌, ◌≡◌, refl, ap, ◌∙◌, true, false, Option, [], ◌∷◌, ◌++◌, arith, ltb, ◌=ℕ◌,
  length, take, drop, length-append,
}
use mathlib.Core.List.{append_assoc}
use casa_os_app_management.LogStore.Line.{Bytes, newline, parse_line}
use casa_os_app_management.LogStore.Line.Laws.{Lacks}
use casa_os_app_management.LogStore.Query.Reader.{
  again, emit, last_newline, fill, rev_line, rev_at, rev_step,
}
use casa_os_app_management.LogStore.Query.Reader.Splits.{
  last_newline-Lacks, last_newline_at, take-whole, take-line, drop-line,
}
use casa_os_app_management.LogStore.Query.Reader.Backwards.{fresh, holding}

but_last : (body : Bytes) → take (length (body ++ newline ∷ []) - 1) (body ++ newline ∷ []) ≡ body
but_last body =
    let n : length (body ++ newline ∷ []) - 1 ≡ length body =
      omega (arith, length-append body (newline ∷ [])) in
    ap (λ k. take k (body ++ newline ∷ [])) n ∙ take-whole body (newline ∷ [])

-- the line behind the last newline but one
cut_out :
    (before line : Bytes) (buf : Bytes)
    → buf ≡ before ++ newline ∷ (line ++ newline ∷ [])
    → (take (suc (length before)) buf ≡ before ++ newline ∷ [])
      × (take (length buf - 1 - suc (length before)) (drop (suc (length before)) buf) ≡ line)
cut_out before line buf e =
    let n : length buf - 1 - suc (length before) ≡ length line = omega (
      arith,
      ap length e,
      length-append before (newline ∷ (line ++ newline ∷ [])),
      length-append line (newline ∷ []),
    ) in
    (
      ap (take (suc (length before))) e ∙ take-line before (line ++ newline ∷ []),
      ap (λ k. take k (drop (suc (length before)) buf)) n
          ∙ (ap (λ b. take (length line) (drop (suc (length before)) b)) e
              ∙ (ap (take (length line)) (drop-line before (line ++ newline ∷ []))
                  ∙ take-whole line (newline ∷ []))),
    )

module _ (read_time : Bytes → Option ℕ) (file : Bytes) where
  step_holding :
      (off : ℕ) (body : Bytes)
      → rev_step read_time file (holding off (body ++ newline ∷ []))
        ≡ rev_at read_time file (holding off (body ++ newline ∷ [])) (last_newline body)
  unfolding rev_step
  step_holding off body =
      let some_bytes : (length (body ++ newline ∷ []) =ℕ 0) ≡ false =
        ground (arith, length-append body (newline ∷ [])) in
      rw some_bytes (
        ap (λ b. rev_at read_time file (holding off (body ++ newline ∷ [])) (last_newline b))
          (but_last body))

  -- the last of several lines leaves the buffer
  pub pop_line :
      (off : ℕ) (before line : Bytes)
      → Lacks newline line
      → rev_step read_time file (holding off ((before ++ newline ∷ line) ++ newline ∷ []))
        ≡ emit
            (off + suc (length before))
            (parse_line read_time line)
            (holding off (before ++ newline ∷ []))
  unfolding rev_step rev_at rev_line
  pop_line off before line h =
      let buf = (before ++ newline ∷ line) ++ newline ∷ [] in
      let cut : Bytes → Bytes =
        λ b. take (length b - 1 - suc (length before)) (drop (suc (length before)) b) in
      let parts = cut_out before line buf (append_assoc before (newline ∷ line) (newline ∷ [])) in
      step_holding off (before ++ newline ∷ line)
      ∙ (ap (rev_at read_time file (holding off buf)) (last_newline_at before line h)
          ∙ (ap
                (λ b.
                  emit (off + suc (length before)) (parse_line read_time (cut buf)) (holding off b))
                parts.0
              ∙ ap
                  (λ l.
                    emit (off + suc (length before)) (parse_line read_time l)
                      (holding off (before ++ newline ∷ [])))
                  parts.1))

  -- the only line leaves the buffer
  pub pop_last :
      (line : Bytes)
      → Lacks newline line
      → rev_step read_time file (holding 0 (line ++ newline ∷ []))
        ≡ emit 0 (parse_line read_time line) (holding 0 [])
  unfolding rev_step rev_at rev_line
  pop_last line h =
      let same : length (line ++ newline ∷ []) - 1 - 0 ≡ length (line ++ newline ∷ []) - 1 =
        omega arith in
      step_holding 0 line
      ∙ (ap (rev_at read_time file (holding 0 (line ++ newline ∷ []))) (last_newline-Lacks line h)
          ∙ (ap (λ n. emit 0 (parse_line read_time (take n (line ++ newline ∷ []))) (holding 0 []))
                same
              ∙ ap (λ l. emit 0 (parse_line read_time l) (holding 0 [])) (but_last line)))

  pub fill_on :
      (off : ℕ) (line : Bytes)
      → 0 < off
      → Lacks newline line
      → rev_step read_time file (holding off (line ++ newline ∷ []))
        ≡ again (fill file (holding off (line ++ newline ∷ [])))
  unfolding rev_step rev_at
  fill_on off line lt h =
      let more : ltb 0 off ≡ true = ground (arith, lt) in
      step_holding off line
      ∙ (ap (rev_at read_time file (holding off (line ++ newline ∷ []))) (last_newline-Lacks line h)
          ∙ rw more refl)

  pub fill_at_first :
      (off : ℕ) → 0 < off → rev_step read_time file (fresh off) ≡ again (fill file (fresh off))
  unfolding rev_step rev_at
  fill_at_first off lt =
      let more : (off =ℕ 0) ≡ false = ground (arith, lt) in
      let more' : ltb 0 off ≡ true = ground (arith, lt) in rw (more, more') refl
