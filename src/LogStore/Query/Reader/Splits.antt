-- ===== src/LogStore/Query/Reader/Splits.antt =====
-- pkg/logstore/query.go: where the newlines of a text split it.
use casa_os_app_management.Prelude.{
  ℕ, zero, suc, ◌+◌, ◌≡◌, ◌⊎◌, inl, inr, refl, sym, ap, ◌∙◌, none, some, [], ◌∷◌, ◌++◌, arith, ◌=ℕ◌,
  Bool-cases, length, take, drop,
}
use casa_os_app_management.LogStore.Line.{Bytes, newline}
use casa_os_app_management.LogStore.Line.Laws.{Lacks}
use casa_os_app_management.LogStore.Query.Reader.{cut_line, trim_newline, last_newline}

pub Lacks-append : (xs ys : Bytes) → Lacks newline xs → Lacks newline ys → Lacks newline (xs ++ ys)
Lacks-append [] ys h k = k
Lacks-append (x ∷ xs) ys (h, hs) k = (h, Lacks-append xs ys hs k)

pub take-whole : (xs ys : Bytes) → take (length xs) (xs ++ ys) ≡ xs
take-whole [] [] = refl
take-whole [] (y ∷ ys) = refl
take-whole (x ∷ xs) ys = ap (◌∷◌ x) (take-whole xs ys)

pub drop-whole : (xs ys : Bytes) → drop (length xs) (xs ++ ys) ≡ ys
drop-whole [] ys = refl
drop-whole (x ∷ xs) ys = drop-whole xs ys

-- a text without a newline, or one that is split at its last newline
pub newline_cases :
    (xs : Bytes)
    → Lacks newline xs
      ⊎ ((before : Bytes) × (after : Bytes) × (xs ≡ before ++ newline ∷ after)
          × Lacks newline after)
newline_cases [] = inl tt
newline_cases (c ∷ cs) = elim (newline_cases cs) [
  | inr (before, after, e, h) ↦ inr (c ∷ before, after, ap (◌∷◌ c) e, h)
  | inl h ↦ elim (Bool-cases (c =ℕ newline)) [
    | inl e ↦ inr ([], cs, ap (λ d. d ∷ cs) (ground (arith, e)), h)
    | inr e ↦ inl (e, h)
  ]
]

pub last_newline-Lacks : (xs : Bytes) → Lacks newline xs → last_newline xs ≡ none
unfolding last_newline
last_newline-Lacks [] h = refl
last_newline-Lacks (c ∷ cs) (h, hs) = rw (last_newline-Lacks cs hs, h) refl

pub last_newline_at :
    (before after : Bytes)
    → Lacks newline after
    → last_newline (before ++ newline ∷ after) ≡ some (length before)
unfolding last_newline
last_newline_at [] after h = rw (last_newline-Lacks after h) refl
last_newline_at (c ∷ before) after h = rw (last_newline_at before after h) refl

-- the same for the first newline
pub first_newline_cases :
    (xs : Bytes)
    → Lacks newline xs
      ⊎ ((line : Bytes) × (rest : Bytes) × (xs ≡ line ++ newline ∷ rest) × Lacks newline line)
first_newline_cases [] = inl tt
first_newline_cases (c ∷ cs) = elim (Bool-cases (c =ℕ newline)) [
  | inl e ↦ inr ([], cs, ap (λ d. d ∷ cs) (ground (arith, e)), tt)
  | inr e ↦ elim (first_newline_cases cs) [
    | inr (line, rest, split, h) ↦ inr (c ∷ line, rest, ap (◌∷◌ c) split, (e, h))
    | inl h ↦ inl (e, h)
  ]
]

pub cut_line-Lacks : (xs : Bytes) → Lacks newline xs → cut_line xs ≡ none
unfolding cut_line
cut_line-Lacks [] h = refl
cut_line-Lacks (c ∷ cs) (h, hs) = rw (cut_line-Lacks cs hs, h) refl

pub cut_line_at :
    (line rest : Bytes)
    → Lacks newline line
    → cut_line (line ++ newline ∷ rest) ≡ some (line ++ newline ∷ [], rest)
unfolding cut_line
cut_line_at [] rest h = refl
cut_line_at (c ∷ line) rest (h, hs) = rw (cut_line_at line rest hs, h) refl

pub trim_newline_at : (line : Bytes) → trim_newline (line ++ newline ∷ []) ≡ line
unfolding trim_newline
trim_newline_at [] = refl
trim_newline_at (c ∷ []) = refl
trim_newline_at (c ∷ d ∷ cs) = ap (◌∷◌ c) (trim_newline_at (d ∷ cs))

take_nil : (n : ℕ) → take {A = ℕ} n [] ≡ []
take_nil zero = refl
take_nil (suc n) = refl

pub take_more : (xs : Bytes) (m n : ℕ) → take m xs ++ take n (drop m xs) ≡ take (m + n) xs
take_more xs zero n = ap (λ k. take k xs) (omega arith)
take_more [] (suc m) n = take_nil n ∙ sym (take_nil (suc m + n))
take_more (x ∷ xs) (suc m) n =
    let next : suc (m + n) ≡ suc m + n = omega arith in
    ap (◌∷◌ x) (take_more xs m n) ∙ ap (λ k. take k (x ∷ xs)) next

-- the text up to a newline that is split at, with that newline
pub take-line :
    (before after : Bytes)
    → take (suc (length before)) (before ++ newline ∷ after) ≡ before ++ newline ∷ []
take-line [] after = refl
take-line (c ∷ before) after = ap (◌∷◌ c) (take-line before after)

pub drop-line :
    (before after : Bytes) → drop (suc (length before)) (before ++ newline ∷ after) ≡ after
drop-line [] after = refl
drop-line (c ∷ before) after = drop-line before after
