-- ===== src/Prelude/Decimals.antt =====
-- A natural number as `strconv` and `%d` write it.
use Prim.Native.Nat.{ℕ, zero, suc, ◌+◌, ◌-◌, ◌*◌, ◌/◌, ◌%◌, ◌<◌}
use Prim.Native.Char.{Char, code}
use Prim.Native.String.{String}
use mathlib.Core.Path.{◌≡◌, refl, ap, sym, ◌∙◌}
use mathlib.Core.Logic.{inl, inr}
use native.Mathlib.Omega.{arith}
use casa_os_app_management.Prelude.Tests.{if◌then◌else◌, ltb, leb, Bool-cases}
use casa_os_app_management.Prelude.Each.{All}
use mathlib.Core.List.{List, [], ◌∷◌}
use mathlib.Core.Option.{Option, none, some}
use mathlib.Core.Bool.{true, ◌&&◌}

abbrev pub digit : ℕ → Char
digit zero = "0"
digit (suc zero) = "1"
digit (suc (suc zero)) = "2"
digit (suc (suc (suc zero))) = "3"
digit (suc (suc (suc (suc zero)))) = "4"
digit (suc (suc (suc (suc (suc zero))))) = "5"
digit (suc (suc (suc (suc (suc (suc zero)))))) = "6"
digit (suc (suc (suc (suc (suc (suc (suc zero))))))) = "7"
digit (suc (suc (suc (suc (suc (suc (suc (suc zero)))))))) = "8"
digit (suc (suc (suc (suc (suc (suc (suc (suc (suc n))))))))) = "9"

-- the digits of a number before a text, with fuel
unfoldable pub show_before : ℕ → ℕ → String → String
show_before zero n s = s
show_before (suc fuel) n s =
    let rest = show_before fuel (n / 10) (String.◌∷◌ (digit (n % 10)) s) in
    if ltb n 10 then String.◌∷◌ (digit n) s else rest

-- `%d` of a number that is not negative
unfoldable pub show : ℕ → String
unfolding show_before
show n = show_before (suc n) n ""

-- a number read from decimal digits, onto what is read before
abbrev pub read_onto : ℕ → String → ℕ
read_onto n String.[] = n
read_onto n (String.◌∷◌ c s) = read_onto (n * 10 + (code c - b'0')) s

code-digit : (n : ℕ) → n < 10 → code (digit n) - b'0' ≡ n
code-digit zero h = refl
code-digit (suc zero) h = refl
code-digit (suc (suc zero)) h = refl
code-digit (suc (suc (suc zero))) h = refl
code-digit (suc (suc (suc (suc zero)))) h = refl
code-digit (suc (suc (suc (suc (suc zero))))) h = refl
code-digit (suc (suc (suc (suc (suc (suc zero)))))) h = refl
code-digit (suc (suc (suc (suc (suc (suc (suc zero))))))) h = refl
code-digit (suc (suc (suc (suc (suc (suc (suc (suc zero)))))))) h = refl
code-digit (suc (suc (suc (suc (suc (suc (suc (suc (suc n))))))))) h = omega (arith, h)

read_onto-show_before :
    (fuel n : ℕ) (s : String) → n < fuel → read_onto 0 (show_before fuel n s) ≡ read_onto n s
unfolding show_before
read_onto-show_before zero n s h = ground (arith, h)
read_onto-show_before (suc fuel) n s h = elim (Bool-cases (ltb n 10)) [
  | inl e ↦ rw e (
      ap (λ m. read_onto m s)
        (ap (λ d. 0 * 10 + d) (code-digit n (ground (arith, e))) ∙ omega arith))
  | inr e ↦ rw e (
      read_onto-show_before fuel (n / 10) (String.◌∷◌ (digit (n % 10)) s) (ground (arith, h, e))
      ∙ ap (λ m. read_onto m s)
          (ap (λ d. n / 10 * 10 + d) (code-digit (n % 10) (omega arith)) ∙ omega arith))
]

-- different numbers are written differently
pub show_inj : (m n : ℕ) → show m ≡ show n → m ≡ n
unfolding show
show_inj m n h =
    sym (read_onto-show_before (suc m) m "" (omega arith))
    ∙ (ap (read_onto 0) h ∙ read_onto-show_before (suc n) n "" (omega arith))

show_test : show 120 ≡ "120"
unfolding show
show_test = refl

-- the digits of a number, read into `n`
unfoldable pub digits_from : ℕ → List ℕ → Option ℕ
digits_from n [] = some n
digits_from n (c ∷ cs) =
    let rest = digits_from (n * 10 + (c - b'0')) cs in
    if leb b'0' c && leb c b'9' then rest else none

unfoldable pub digits_of : List ℕ → Option ℕ
unfolding digits_from
digits_of [] = none
digits_of (c ∷ cs) = digits_from 0 (c ∷ cs)

-- the bytes of the digits of a number before a text, with fuel
unfoldable pub digits_before : ℕ → ℕ → List ℕ → List ℕ
digits_before zero n s = s
digits_before (suc fuel) n s =
    let rest = digits_before fuel (n / 10) ((b'0' + n % 10) ∷ s) in
    if ltb n 10 then (b'0' + n) ∷ s else rest

-- `strconv.FormatInt(n, 10)` of a number that is not negative
unfoldable pub decimal : ℕ → List ℕ
unfolding digits_before
decimal n = digits_before (suc n) n []

digits_from_digit :
    (m d : ℕ) (s : List ℕ) → d < 10 → digits_from m ((b'0' + d) ∷ s) ≡ digits_from (m * 10 + d) s
unfolding digits_from
digits_from_digit m d s h =
    let low : leb b'0' (b'0' + d) ≡ true = ground arith in
    let high : leb (b'0' + d) b'9' ≡ true = ground (arith, h) in
    let value : m * 10 + (b'0' + d - b'0') ≡ m * 10 + d = omega arith in
    rw (low, high) (ap (λ k. digits_from k s) value)

digits_from-digits_before :
    (fuel n : ℕ) (s : List ℕ) → n < fuel → digits_from 0 (digits_before fuel n s) ≡ digits_from n s
unfolding digits_before
digits_from-digits_before zero n s h = absurd (omega (arith, h))
digits_from-digits_before (suc fuel) n s h = elim (Bool-cases (ltb n 10)) [
  | inl e ↦
      rw e (digits_from_digit 0 n s (ground (arith, e)) ∙ ap (λ k. digits_from k s) (omega arith))
  | inr e ↦ rw e (
      digits_from-digits_before fuel (n / 10) ((b'0' + n % 10) ∷ s) (ground (arith, h, e))
      ∙ (digits_from_digit (n / 10) (n % 10) s (omega arith)
          ∙ ap (λ k. digits_from k s) (omega arith)))
]

-- the digits are read back
pub digits_from-decimal : (n : ℕ) → digits_from 0 (decimal n) ≡ some n
unfolding decimal digits_from
digits_from-decimal n = digits_from-digits_before (suc n) n [] (omega arith)

-- a test that every digit passes, every byte of a number passes
pub All-digits_before {ℓ} :
    (P : ℕ → Type ℓ) (digit_ok : (d : ℕ) → d < 10 → P (b'0' + d)) (fuel n : ℕ) (s : List ℕ)
    → All P s
    → All P (digits_before fuel n s)
unfolding digits_before
All-digits_before P digit_ok zero n s h = h
All-digits_before P digit_ok (suc fuel) n s h = elim (Bool-cases (ltb n 10)) [
  | inl e ↦ rw e (digit_ok n (ground (arith, e)), h)
  | inr e ↦ rw e (
      All-digits_before P digit_ok fuel (n / 10) ((b'0' + n % 10) ∷ s)
        (digit_ok (n % 10) (omega arith), h))
]

pub All-decimal {ℓ} :
    (P : ℕ → Type ℓ) (digit_ok : (d : ℕ) → d < 10 → P (b'0' + d)) (n : ℕ) → All P (decimal n)
unfolding decimal
All-decimal P digit_ok n = All-digits_before P digit_ok (suc n) n [] tt

-- a number has a first digit
digits_before_some :
    (fuel n : ℕ) (s : List ℕ)
    → n < fuel
    → (d : ℕ) × (rest : List ℕ) × (d < 10) × (digits_before fuel n s ≡ (b'0' + d) ∷ rest)
unfolding digits_before
digits_before_some zero n s h = absurd (omega (arith, h))
digits_before_some (suc fuel) n s h = elim (Bool-cases (ltb n 10)) [
  | inl e ↦ (n, s, ground (arith, e), rw e refl)
  | inr e ↦
      let (d, rest, lt, eq) =
        digits_before_some fuel (n / 10) ((b'0' + n % 10) ∷ s) (ground (arith, h, e)) in
      (d, rest, lt, rw e eq)
]

pub decimal_some : (n : ℕ) → (d : ℕ) × (rest : List ℕ) × (d < 10) × (decimal n ≡ (b'0' + d) ∷ rest)
unfolding decimal
decimal_some n = digits_before_some (suc n) n [] (omega arith)
