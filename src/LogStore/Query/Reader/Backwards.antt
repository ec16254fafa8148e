-- ===== src/LogStore/Query/Reader/Backwards.antt =====
-- pkg/logstore/query.go: one round of the backwards reader.
use casa_os_app_management.Prelude.{
  ℕ, ◌+◌, ◌-◌, ◌*◌, ◌≤◌, ◌<◌, ◌≡◌, ◌⊎◌, inl, inr, refl, sym, ap, subst, ◌∙◌, Bool, true, false, [],
  ◌∷◌, ◌++◌, arith, ltb, ◌=ℕ◌, if◌then◌else◌, length, take, drop, length-append, length-take,
}
use Prim.Native.Nat.{min}
use mathlib.Core.List.{append_assoc, append-nil}
use casa_os_app_management.LogStore.Line.{Bytes, newline}
use casa_os_app_management.LogStore.Query.Reader.{
  RevReader, max_read_line, read_chunk, keep_tail, last_newline, trim_unfinished, fill,
}
use casa_os_app_management.LogStore.Query.Reader.Lines.{whole_lines, whole_lines_unfinished}
use casa_os_app_management.LogStore.Query.Reader.Splits.{
  newline_cases, last_newline-Lacks, last_newline_at, take_more, take-line,
}

-- what the reader has not returned yet: the file up to `off`, and the buffer
abbrev pub unread : Bytes → RevReader → Bytes
unread file s = take s.off file ++ s.buf

abbrev pub fresh : ℕ → RevReader
fresh off = record { off = off; buf = []; trimmed = false }

abbrev pub holding : ℕ → Bytes → RevReader
holding off buf = record { off = off; buf = buf; trimmed = true }

-- The buffer holds whole lines. It is empty before the unfinished line is dropped, and after that only
-- at the start of the file.
pub data IsWhole : RevReader → Type 0 where
  at_start : (trimmed : Bool) → IsWhole (record { off = 0; buf = []; trimmed = trimmed })
  untrimmed : (off : ℕ) → IsWhole (fresh off)
  whole : (off : ℕ) (before : Bytes) → IsWhole (holding off (before ++ newline ∷ []))

-- what a round leaves to do
abbrev pub work : RevReader → ℕ
work s = 2 * s.off + length s.buf + (if s.trimmed then 0 else 1)

take_split :
    (file : Bytes) (n off : ℕ)
    → n ≤ off
    → take (off - n) file ++ take n (drop (off - n) file) ≡ take off file
take_split file n off h = take_more file (off - n) n ∙ ap (λ k. take k file) (omega (arith, h))

no_lines-IsWhole : (off : ℕ) → IsWhole (record { off = off; buf = []; trimmed = off =ℕ 0 })
no_lines-IsWhole off = elim (split off) [
  | inl e ↦ rw e (untrimmed off)
  | inr e ↦ rw e (at_start true)
]
  where
    split : (n : ℕ) → ((n =ℕ 0) ≡ false) ⊎ (n ≡ 0)
    split n = ground arith

work_bound : (s : RevReader) → work s ≤ 2 * s.off + length s.buf + 1
work_bound s = ground arith

keep_tail_short :
    (line : Bytes)
    → length line < max_read_line
    → keep_tail (line ++ newline ∷ []) ≡ line ++ newline ∷ []
keep_tail_short line short =
    let fits : ltb max_read_line (length (line ++ newline ∷ [])) ≡ false =
      ground (arith, length-append line (newline ∷ []), short) in
    rw fits refl

module _ (file : Bytes) where
  -- What `trim_unfinished` gives: whole lines, and none lost.
  trim_first :
      (off : ℕ) (buf : Bytes)
      → let t = trim_unfinished off buf (last_newline buf) in
        IsWhole t
        × (whole_lines 0 [] (take off file ++ t.buf) ≡ whole_lines 0 [] (take off file ++ buf))
        × (length t.buf ≤ length buf)
        × (t.off ≡ off)
  trim_first off buf = elim (newline_cases buf) [
    | inl lacks ↦ rw (last_newline-Lacks buf lacks) (
      no_lines-IsWhole off,
      ap (whole_lines 0 []) (append-nil (take off file))
          ∙ sym (whole_lines_unfinished 0 [] (take off file) buf lacks),
      omega arith,
      refl,
    )
    | inr (before, after, e, lacks) ↦
        rw (e, last_newline_at before after lacks)
          (
            subst (λ b. IsWhole (holding off b)) (sym (take-line before after)) (whole off before),
            ap (λ b. whole_lines 0 [] (take off file ++ b)) (take-line before after)
                ∙ (sym (
                      whole_lines_unfinished 0 [] (take off file ++ (before ++ newline ∷ [])) after
                        lacks)
                    ∙ ap (whole_lines 0 []) (
                        append_assoc (take off file) (before ++ newline ∷ []) after
                        ∙ ap (λ b. take off file ++ b) (append_assoc before (newline ∷ []) after))),
            omega (
              arith,
              ap length (take-line before after),
              length-append before (newline ∷ []),
              length-append before (newline ∷ after),
            ),
            refl,
          )
  ]

  abbrev chunk : ℕ → Bytes
  chunk off = take (min off read_chunk) (drop (off - min off read_chunk) file)

  length-chunk : (off : ℕ) → length (chunk off) ≤ min off read_chunk
  length-chunk off =
      omega (arith, length-take (min off read_chunk) (drop (off - min off read_chunk) file))

  unread-chunk :
      (off : ℕ) (buf : Bytes)
      → take (off - min off read_chunk) file ++ (chunk off ++ buf) ≡ take off file ++ buf
  unread-chunk off buf =
      sym (append_assoc (take (off - min off read_chunk) file) (chunk off) buf)
      ∙ ap (λ t. t ++ buf) (take_split file (min off read_chunk) off (omega arith))

  -- What a fill keeps, and that it gets on.
  abbrev pub IsFilled : RevReader → RevReader → Type 0
  IsFilled s t =
      IsWhole t
      × (whole_lines 0 [] (unread file t) ≡ whole_lines 0 [] (unread file s))
      × (work t < work s)
      × (t.off ≤ s.off)

  pub fill_first : (off : ℕ) → 0 < off → IsFilled (fresh off) (fill file (fresh off))
  unfolding fill
  fill_first off h =
      let buf = chunk off ++ [] in
      let t = trim_unfinished (off - min off read_chunk) buf (last_newline buf) in
      let got = trim_first (off - min off read_chunk) buf in
      (
        got.0,
        ap (λ o. whole_lines 0 [] (take o file ++ t.buf)) got.3
            ∙ (got.1 ∙ ap (whole_lines 0 []) (unread-chunk off [])),
        omega
            (arith, h, work_bound t, got.2, got.3, length-chunk off, length-append (chunk off) []),
        omega (arith, got.3),
      )

  pub fill_more :
      (off : ℕ) (line : Bytes)
      → 0 < off
      → length line < max_read_line
      → IsFilled
          (holding off (line ++ newline ∷ []))
          (fill file (holding off (line ++ newline ∷ [])))
  unfolding fill
  fill_more off line h short = rw (keep_tail_short line short) (
    subst (λ b. IsWhole (holding (off - min off read_chunk) b))
        (append_assoc (chunk off) line (newline ∷ []))
        (whole (off - min off read_chunk) (chunk off ++ line)),
    ap (whole_lines 0 []) (unread-chunk off (line ++ newline ∷ [])),
    omega (arith, length-chunk off, length-append (chunk off) (line ++ newline ∷ [])),
    omega arith,
  )
