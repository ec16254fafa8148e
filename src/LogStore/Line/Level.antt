-- ===== src/LogStore/Line/Level.antt =====
-- pkg/logstore/line.go: the level that a line's text is taken for.
use casa_os_app_management.Prelude.{
  ℕ, ◌+◌, ◌≡◌, refl, Bool, true, false, not, ◌&&◌, ◌||◌, Option, none, some, List, [], ◌∷◌, leb,
  ◌=ℕ◌, if◌then◌else◌, any, codes,
}
use casa_os_app_management.LogStore.Line.{Bytes}

pub data Level : Type 0 where
  info warn error : Level

-- `[A-Z]` as `[a-z]`
abbrev pub fold_case : ℕ → ℕ
fold_case c = if leb b'A' c && leb c b'Z' then c + 32 else c

-- `\w`
abbrev pub is_word : ℕ → Bool
is_word c =
    (leb b'A' c && leb c b'Z')
    || ((leb b'a' c && leb c b'z') || ((leb b'0' c && leb c b'9') || c =ℕ b'_'))

-- whether the text begins with a byte of a word
abbrev pub word_ahead : Bytes → Bool
word_ahead [] = false
word_ahead (c ∷ cs) = is_word c

-- `\b` between a byte, of a word or not, and the text behind it
abbrev pub at_boundary : Bool → Bytes → Bool
at_boundary was_word text = if was_word then not (word_ahead text) else word_ahead text

-- what follows the word, in any case of its letters, at the front of the text
unfoldable pub strip_word : Bytes → Bytes → Option Bytes
strip_word [] text = some text
strip_word (w ∷ word) [] = none
strip_word (w ∷ word) (c ∷ text) =
    let rest = strip_word word text in if fold_case c =ℕ w then rest else none

-- `(\b|_)` behind a word, which ends in a letter
abbrev pub ends_word : Bytes → Bool
ends_word [] = true
ends_word (c ∷ text) = not (is_word c) || c =ℕ b'_'

abbrev pub word_then_end : Bytes → Bytes → Bool
word_then_end word text = elim (strip_word word text) [ none ↦ false | some rest ↦ ends_word rest ]

abbrev pub word_starts : Bytes → Bytes → Bool
word_starts word text = elim (strip_word word text) [ none ↦ false | some rest ↦ true ]

abbrev pub error_words : List Bytes
error_words = codes "error" ∷ codes "err" ∷ codes "fatal" ∷ codes "panic" ∷ []

-- whether a pattern that begins with `\b` matches somewhere: `was_word` tells of the byte before
unfoldable pub matches_from : (Bytes → Bool) → Bool → Bytes → Bool
matches_from here was_word [] = at_boundary was_word [] && here []
matches_from here was_word (c ∷ text) =
    (at_boundary was_word (c ∷ text) && here (c ∷ text)) || matches_from here (is_word c) text

-- `errorRe.MatchString`
unfoldable pub names_error : Bytes → Bool
unfolding matches_from strip_word
names_error text = matches_from (λ s. any (λ w. word_then_end w s) error_words) false text

-- `warnRe.MatchString`
unfoldable pub names_warning : Bytes → Bool
unfolding matches_from strip_word
names_warning text = matches_from (word_starts (codes "warn")) false text

-- `GuessLevel`
unfoldable pub guess_level : ℕ → Bytes → Level
unfolding names_error names_warning
guess_level stream text =
    if names_error text then error else if names_warning text || stream =ℕ b'e' then warn else info

-- `levelRank` of a level that has a name
abbrev pub rank : Level → ℕ
rank info = 0
rank warn = 1
rank error = 2

guess_level_test :
    (guess_level b'o' (codes "disk err_code=5") ≡ error)
    × ((guess_level b'o' (codes "WARNING: low") ≡ warn)
        × ((guess_level b'o' (codes "no terror here") ≡ info)
            × (guess_level b'e' (codes "errors: 0") ≡ warn)))
unfolding guess_level names_error matches_from strip_word names_warning
guess_level_test = (refl, (refl, (refl, refl)))
