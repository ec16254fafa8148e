-- ===== src/Prelude/Text.antt =====
-- Texts compared whole: Go's `==` and `<=` on strings. Code points are ordered as the bytes of
-- their UTF-8 are, so the order is Go's on valid UTF-8.
use Prim.Native.Nat.{ℕ}
use Prim.Native.Char.{code}
use Prim.Native.String.{String}
use mathlib.Core.Path.{◌≡◌, refl}
use mathlib.Core.Bool.{Bool, true, false, ◌||◌}
use mathlib.Core.List.{List, [], ◌∷◌}
use native.Mathlib.Omega.{arith}
use text.Mathlib.Text.{◌==◌ as str_eq}
use text.Mathlib.TextEquality.{codes_equal}
use casa_os_app_management.Prelude.Tests.{ltb, if◌then◌else◌}

infix 50 ◌==◌
abbrev pub ◌==◌ : String → String → Bool
◌==◌ = str_eq

-- `s <= t`
unfoldable pub str_le : String → String → Bool
str_le String.[] t = true
str_le (String.◌∷◌ c s) String.[] = false
str_le (String.◌∷◌ c s) (String.◌∷◌ d t) =
    if ltb (code c) (code d) then true else if ltb (code d) (code c) then false else str_le s t

-- the code points of a text: its bytes, if it is ASCII
abbrev pub codes : String → List ℕ
codes String.[] = []
codes (String.◌∷◌ c s) = code c ∷ codes s

pub str_le_total : (s t : String) → (str_le s t || str_le t s) ≡ true
unfolding str_le
str_le_total String.[] String.[] = refl
str_le_total String.[] (String.◌∷◌ d t) = refl
str_le_total (String.◌∷◌ c s) String.[] = refl
str_le_total (String.◌∷◌ c s) (String.◌∷◌ d t) = ground (arith, str_le_total s t)

pub str_le_trans : (s t u : String) → str_le s t ≡ true → str_le t u ≡ true → str_le s u ≡ true
unfolding str_le
str_le_trans String.[] t u h k = refl
str_le_trans (String.◌∷◌ c s) String.[] u h k = ground arith
str_le_trans (String.◌∷◌ c s) (String.◌∷◌ d t) String.[] h k = ground arith
str_le_trans (String.◌∷◌ c s) (String.◌∷◌ d t) (String.◌∷◌ e u) h k =
    ground (arith, str_le_trans s t u)

pub str_le_antisym : (s t : String) → str_le s t ≡ true → str_le t s ≡ true → s ≡ t
unfolding str_le
str_le_antisym String.[] String.[] h k = refl
str_le_antisym String.[] (String.◌∷◌ d t) h k = ground arith
str_le_antisym (String.◌∷◌ c s) String.[] h k = ground arith
str_le_antisym (String.◌∷◌ c s) (String.◌∷◌ d t) h k =
    let same : c ≡ d = codes_equal c d (ground arith) in
    let rest : s ≡ t = str_le_antisym s t (ground arith) (ground arith) in
    λ i. String.◌∷◌ (same i) (rest i)
