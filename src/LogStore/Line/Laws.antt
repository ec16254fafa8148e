-- ===== src/LogStore/Line/Laws.antt =====
-- pkg/logstore/line.go: what a line keeps of what was written, and what a name becomes.
use casa_os_app_management.Prelude.{
  ℕ, zero, suc, ◌≤◌, ◌<◌, String, ◌≡◌, ◌⊎◌, inl, inr, refl, ap, ◌∙◌, Bool, true, false, ◌&&◌,
  Option, none, some, [], ◌∷◌, ◌++◌, arith, ◌==◌, leb, ◌=ℕ◌, leb→le, Bool-cases, length, take,
  get_elem?, All,
}
use Prim.Native.Char.{code}
use casa_os_app_management.LogStore.Line.{
  Bytes, newline, space, max_line_bytes, truncated_mark, replace_newlines, cut_at, is_stream,
  with_time, parse_cut, parse_line, rune_start, back_to_rune, truncate, is_safe, replace_unsafe,
  or_underscore, safe_name,
}

-- no byte of the list is `c`
abbrev pub Lacks : ℕ → Bytes → Type 0
Lacks c = All (λ b. (b =ℕ c) ≡ false)

pub Lacks-replace_newlines : (text : Bytes) → Lacks newline (replace_newlines text)
unfolding replace_newlines
Lacks-replace_newlines [] = tt
Lacks-replace_newlines (c ∷ cs) = (ground arith, Lacks-replace_newlines cs)

pub cut_at_first :
    (sep : ℕ) (ts rest : Bytes) → Lacks sep ts → cut_at sep (ts ++ sep ∷ rest) ≡ some (ts, rest)
unfolding cut_at
cut_at_first sep [] rest h = rw (same sep) refl
  where
    same : (n : ℕ) → (n =ℕ n) ≡ true
    same n = ground arith
cut_at_first sep (c ∷ ts) rest (h, hs) = rw (h, cut_at_first sep ts rest hs) refl

module _ (write_time : ℕ → Bytes) (read_time : Bytes → Option ℕ) (at : ℕ)
    (read_back : read_time (write_time at) ≡ some at)
    (spaceless : Lacks space (write_time at)) where
  pub parse_written :
      (stream : ℕ) (text : Bytes)
      → is_stream stream ≡ true
      → parse_line read_time (write_time at ++ space ∷ stream ∷ space ∷ text)
        ≡ some (at, stream, text)
  unfolding parse_line parse_cut with_time
  parse_written stream text h =
      rw (cut_at_first space (write_time at) (stream ∷ space ∷ text) spaceless, read_back, h) refl

back_to_rune-le : (text : Bytes) (cut : ℕ) → back_to_rune text cut ≤ cut
unfolding back_to_rune
back_to_rune-le text zero = omega arith
back_to_rune-le text (suc cut) = ground (arith, back_to_rune-le text cut)

-- whether a rune starts at the index, or the text does
abbrev pub starts_rune : Bytes → ℕ → Bool
starts_rune text zero = true
starts_rune text (suc i) = elim (get_elem? text (suc i)) [ none ↦ false | some b ↦ rune_start b ]

back_to_rune-starts_rune :
    (text : Bytes) (cut : ℕ) → starts_rune text (back_to_rune text cut) ≡ true
unfolding back_to_rune
back_to_rune-starts_rune text zero = refl
back_to_rune-starts_rune text (suc cut) = ground (arith, back_to_rune-starts_rune text cut)

-- A text of at most 16 KiB is kept. A longer one becomes its beginning, of at most 16 KiB and cut where
-- a rune starts or at 0, with the mark behind it.
pub truncate_lem :
    (text : Bytes)
    → ((length text ≤ max_line_bytes) × (truncate text ≡ text))
      ⊎ ((cut : ℕ) × (max_line_bytes < length text)
          × (cut ≤ max_line_bytes)
          × (starts_rune text cut ≡ true)
          × (truncate text ≡ take cut text ++ truncated_mark))
unfolding truncate
truncate_lem text = elim (Bool-cases (leb (length text) max_line_bytes)) [
  | inl e ↦ inl (leb→le _ _ e, rw e refl)
  | inr e ↦ inr (
    back_to_rune text max_line_bytes,
    ground arith,
    back_to_rune-le text max_line_bytes,
    back_to_rune-starts_rune text max_line_bytes,
    rw e refl,
  )
]

abbrev pub is_safe_text : String → Bool
is_safe_text String.[] = true
is_safe_text (String.◌∷◌ c s) = is_safe (code c) && is_safe_text s

replace_unsafe-is_safe_text : (s : String) → is_safe_text (replace_unsafe s) ≡ true
unfolding replace_unsafe
replace_unsafe-is_safe_text String.[] = refl
replace_unsafe-is_safe_text (String.◌∷◌ c s) = elim (Bool-cases (is_safe (code c))) [
  | inl e ↦ rw (e, e) (replace_unsafe-is_safe_text s)
  | inr e ↦ rw e (replace_unsafe-is_safe_text s)
]

replace_unsafe_safe : (s : String) → is_safe_text s ≡ true → replace_unsafe s ≡ s
unfolding replace_unsafe
replace_unsafe_safe String.[] h = refl
replace_unsafe_safe (String.◌∷◌ c s) h =
    let (here, later) : (is_safe (code c) ≡ true) × (is_safe_text s ≡ true) = ground arith in
    rw (here, replace_unsafe_safe s later) refl

or_underscore-cases :
    (s : String)
    → (((s == "") ≡ false) × ((s == ".") ≡ false) × ((s == "..") ≡ false) × (or_underscore s ≡ s))
      ⊎ (or_underscore s ≡ "_")
or_underscore-cases s = ground arith

-- A safe name has letters, digits and `_.-` only, is none of the empty text, `.` and `..`, and is its
-- own safe name.
pub safe_name_lem :
    (s : String)
    → (is_safe_text (safe_name s) ≡ true)
      × ((safe_name s == "") ≡ false)
      × ((safe_name s == ".") ≡ false)
      × ((safe_name s == "..") ≡ false)
      × (safe_name (safe_name s) ≡ safe_name s)
unfolding safe_name
safe_name_lem s = elim (or_underscore-cases (replace_unsafe s)) [
  | inr e ↦ rw e (refl, refl, refl, refl, refl)
  | inl k ↦ rw k.3 (
    replace_unsafe-is_safe_text s,
    k.0,
    k.1,
    k.2,
    ap or_underscore (replace_unsafe_safe (replace_unsafe s) (replace_unsafe-is_safe_text s)) ∙ k.3,
  )
]
