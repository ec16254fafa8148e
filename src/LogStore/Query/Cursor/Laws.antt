-- ===== src/LogStore/Query/Cursor/Laws.antt =====
-- pkg/logstore/query.go: cursors are read back, and none leads out of the store.
use casa_os_app_management.Prelude.{
  ℕ, zero, suc, ◌+◌, ◌-◌, ◌^◌, ◌<◌, ◌≡◌, inl, inr, refl, sym, ap, subst, ◌∙◌, Bool, true, false,
  Option, none, some, [], ◌∷◌, ◌++◌, arith, ltb, leb, ◌=ℕ◌, leb→le, Bool-cases, Option-cases,
}
use casa_os_app_management.Prelude.{
  decimal, digits_of, digits_from, digits_from-decimal, All-decimal, decimal_some,
}
use casa_os_app_management.LogStore.Line.{Bytes, cut_at}
use casa_os_app_management.LogStore.Line.Laws.{Lacks, cut_at_first}
use casa_os_app_management.LogStore.Query.Cursor.{
  ℤ, pos, negsuc, Cursor, Result, ok, err, bad_cursor, unix_epoch, unix_nano, of_unix_nano,
  format_int, signed, parse_int, cursor_text, is_inside, checked_cursor, two_parts, three_parts,
  parse_cursor,
}
use casa_os_app_management.LogStore.Query.Cursor.Inside.{IsInside, is_inside-IsInside}

-- within an `int64`
abbrev pub Fits : ℤ → Type 0
Fits (pos n) = n < 2 ^ 63
Fits (negsuc n) = n < 2 ^ 63

digits_of-decimal : (n : ℕ) → digits_of (decimal n) ≡ some n
unfolding digits_of
digits_of-decimal n =
    let (d, rest, lt, e) = decimal_some n in
    ap digits_of e ∙ (sym (ap (digits_from 0) e) ∙ digits_from-decimal n)

parse_int-decimal : (n : ℕ) → n < 2 ^ 63 → parse_int (decimal n) ≡ some (pos n)
unfolding parse_int
parse_int-decimal n h =
    let (d, rest, lt, e) = decimal_some n in
    let minus : (b'0' + d =ℕ b'-') ≡ false = ground arith in
    let plus : (b'0' + d =ℕ b'+') ≡ false = ground arith in
    let fits : ltb n (2 ^ 63) ≡ true = ground (arith, h) in
    ap parse_int e
    ∙ rw (minus, plus)
        (ap (signed false) (ap digits_of (sym e) ∙ digits_of-decimal n) ∙ rw fits refl)

pub parse_int-format_int : (n : ℤ) → Fits n → parse_int (format_int n) ≡ some n
unfolding parse_int format_int
parse_int-format_int (pos n) h = parse_int-decimal n h
parse_int-format_int (negsuc n) h =
    let fits : ltb n (2 ^ 63) ≡ true = ground (arith, h) in
    let next : n + 1 ≡ suc n = omega arith in
    ap (signed true) (digits_of-decimal (n + 1) ∙ ap some next) ∙ rw fits refl

digit-Lacks_colon : (d : ℕ) → d < 10 → (b'0' + d =ℕ b':') ≡ false
digit-Lacks_colon d h = ground (arith, h)

format_int-Lacks : (n : ℤ) → Lacks b':' (format_int n)
unfolding format_int
format_int-Lacks (pos n) = All-decimal (λ b. (b =ℕ b':') ≡ false) digit-Lacks_colon n
format_int-Lacks (negsuc n) =
    (refl, All-decimal (λ b. (b =ℕ b':') ≡ false) digit-Lacks_colon (n + 1))

of_unix_nano-unix_nano : (t : ℕ) → of_unix_nano (unix_nano t) ≡ t
of_unix_nano-unix_nano t = elim (Bool-cases (leb unix_epoch t)) [
  | inl e ↦ rw e (omega (arith, leb→le unix_epoch t e))
  | inr e ↦ let earlier : t < unix_epoch = ground (arith, e) in rw e (omega (arith, earlier))
]

-- A cursor whose time and offset fit into an `int64` and whose file lies inside the store is read back
-- from its text as it was.
pub parse_cursor-cursor_text :
    (c : Cursor)
    → Fits (unix_nano c.at)
    → c.seq < 2 ^ 63
    → is_inside c.file ≡ true
    → parse_cursor (cursor_text c) ≡ ok c
unfolding parse_cursor three_parts two_parts checked_cursor cursor_text
parse_cursor-cursor_text c at seq inside =
    let ns = unix_nano c.at in
    let rest = format_int (pos c.seq) ++ b':' ∷ c.file in
    rw (cut_at_first b':' (format_int ns) rest (format_int-Lacks ns)) (
      ap (two_parts (format_int ns))
        (cut_at_first b':' (format_int (pos c.seq)) c.file (format_int-Lacks (pos c.seq)))
      ∙ (ap (λ n. checked_cursor n (parse_int (decimal c.seq)) c.file) (parse_int-format_int ns at)
          ∙ (ap (λ n. checked_cursor (some ns) n c.file) (parse_int-decimal c.seq seq)
              ∙ rw inside (
                  ap (λ t. ok (record { at = t; file = c.file; seq = c.seq }))
                    (of_unix_nano-unix_nano c.at)))))

signed-Fits : (negative : Bool) (o : Option ℕ) (n : ℤ) → signed negative o ≡ some n → Fits n
signed-Fits negative none n h = cc
signed-Fits true (some zero) n h = ground arith
signed-Fits true (some (suc m)) n h = ground arith
signed-Fits false (some m) n h = ground arith

parse_int-Fits : (s : Bytes) (n : ℤ) → parse_int s ≡ some n → Fits n
unfolding parse_int
parse_int-Fits [] n h = cc
parse_int-Fits (c ∷ cs) n h = elim (Bool-cases (c =ℕ b'-')) [
  | inl e ↦ signed-Fits true (digits_of cs) n (rw e at h)
  | inr e ↦ elim (Bool-cases (c =ℕ b'+')) [
    | inl k ↦ signed-Fits false (digits_of cs) n (rw (e, k) at h)
    | inr k ↦ signed-Fits false (digits_of (c ∷ cs)) n (rw (e, k) at h)
  ]
]

unix_nano-of_unix_nano : (n : ℤ) → Fits n → unix_nano (of_unix_nano n) ≡ n
unix_nano-of_unix_nano (pos n) h =
    let later : leb unix_epoch (unix_epoch + n) ≡ true = ground arith in
    rw later (ap pos (omega arith))
unix_nano-of_unix_nano (negsuc n) h =
    let earlier : leb unix_epoch (unix_epoch - (n + 1)) ≡ false = ground (arith, h) in
    rw earlier (ap negsuc (omega (arith, h)))

-- what a cursor that was read satisfies
abbrev pub IsSound : Cursor → Type 0
IsSound c = Fits (unix_nano c.at) × (c.seq < 2 ^ 63) × IsInside c.file

abbrev ok_or : Cursor → Result Cursor → Cursor
ok_or c (ok d) = d
ok_or c (err e) = c

not_ok {ℓ} : {A : Type ℓ} (c : Cursor) → err bad_cursor ≡ ok c → A
not_ok c h = cc

checked_cursor-IsSound :
    (ns seq : Option ℤ) (file : Bytes) (c : Cursor)
    → ((n : ℤ) → ns ≡ some n → Fits n)
    → ((n : ℤ) → seq ≡ some n → Fits n)
    → checked_cursor ns seq file ≡ ok c
    → IsSound c
unfolding checked_cursor
checked_cursor-IsSound none seq file c hn hs h = cc
checked_cursor-IsSound (some ns) none file c hn hs h = cc
checked_cursor-IsSound (some ns) (some (negsuc seq)) file c hn hs h = cc
checked_cursor-IsSound (some ns) (some (pos seq)) file c hn hs h =
    elim (Bool-cases (is_inside file)) [
      | inr e ↦ not_ok c (rw e at h)
      | inl e ↦
          let got : Cursor = record { at = of_unix_nano ns; file = file; seq = seq } in
          let same : got ≡ c = ap (ok_or got) (rw e at h) in
          subst IsSound same (
            subst Fits (sym (unix_nano-of_unix_nano ns (hn ns refl))) (hn ns refl),
            hs (pos seq) refl,
            (is_inside-IsInside file).0 e,
          )
    ]

-- A cursor that was read lies inside the store, and its text reads back as that cursor: its file is
-- neither empty nor rooted, holds no backslash and has no part `..`, and its numbers fit into an `int64`.
pub parse_cursor_lem :
    (s : Bytes) (c : Cursor)
    → parse_cursor s ≡ ok c
    → IsSound c × (parse_cursor (cursor_text c) ≡ ok c)
unfolding parse_cursor three_parts two_parts
parse_cursor_lem s c h = elim (Option-cases (cut_at b':' s)) [
  | inl e ↦ not_ok c (rw e at h)
  | inr ((ns, rest), e) ↦ elim (Option-cases (cut_at b':' rest)) [
    | inl k ↦ not_ok c (rw (e, k) at h)
    | inr ((seq, file), k) ↦
        let sound : IsSound c =
          checked_cursor-IsSound (parse_int ns) (parse_int seq) file c (parse_int-Fits ns)
            (parse_int-Fits seq) (rw (e, k) at h) in
        (sound, parse_cursor-cursor_text c sound.0 sound.1 ((is_inside-IsInside c.file).1 sound.2))
  ]
]
