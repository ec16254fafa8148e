-- ===== src/Prelude/Lists.antt =====
-- Lists measured and indexed by native numbers, and counted by a test.
use Prim.Native.Nat.{ℕ, zero, suc, ◌+◌, ◌-◌, ◌≤◌, ◌<◌, min}
use mathlib.Core.Path.{◌≡◌, refl, ap}
use mathlib.Core.List.{List, [], ◌∷◌, ◌++◌, reverse, reverse_aux}
use mathlib.Core.Bool.{Bool, true, false, not, ◌||◌}
use mathlib.Core.Logic.{◌≢◌}
use mathlib.Core.Option.{Option, none, some}
use native.Mathlib.Omega.{arith}
use casa_os_app_management.Prelude.Tests.{if◌then◌else◌}

module _ {ℓ} {A : Type ℓ} where
  abbrev pub length : List A → ℕ
  length [] = 0
  length (x ∷ xs) = suc (length xs)

  -- `xs[:n]`
  abbrev pub take : ℕ → List A → List A
  take zero xs = []
  take (suc n) [] = []
  take (suc n) (x ∷ xs) = x ∷ take n xs

  -- `xs[n:]`
  abbrev pub drop : ℕ → List A → List A
  drop zero xs = xs
  drop (suc n) [] = []
  drop (suc n) (x ∷ xs) = drop n xs

  pub length-append : (xs ys : List A) → length (xs ++ ys) ≡ length xs + length ys
  length-append [] ys = omega arith
  length-append (x ∷ xs) ys = omega (arith, length-append xs ys)

  pub length-take : (n : ℕ) (xs : List A) → length (take n xs) ≡ min n (length xs)
  length-take zero xs = omega arith
  length-take (suc n) [] = omega arith
  length-take (suc n) (x ∷ xs) = omega (arith, length-take n xs)

  pub length-drop : (n : ℕ) (xs : List A) → length (drop n xs) ≡ length xs - n
  length-drop zero xs = omega arith
  length-drop (suc n) [] = omega arith
  length-drop (suc n) (x ∷ xs) = omega (arith, length-drop n xs)

  pub take-append-drop : (n : ℕ) (xs : List A) → take n xs ++ drop n xs ≡ xs
  take-append-drop zero xs = refl
  take-append-drop (suc n) [] = refl
  take-append-drop (suc n) (x ∷ xs) = ap (◌∷◌ x) (take-append-drop n xs)

  -- how many items pass the test
  abbrev pub count : (A → Bool) → List A → ℕ
  count p [] = 0
  count p (x ∷ xs) = let rest = count p xs in if p x then suc rest else rest

  abbrev pub any : (A → Bool) → List A → Bool
  any p [] = false
  any p (x ∷ xs) = p x || any p xs

  -- `for _, x := range xs { total += m(x) }`
  abbrev pub sum_by : (A → ℕ) → List A → ℕ
  sum_by m [] = 0
  sum_by m (x ∷ xs) = m x + sum_by m xs

  -- the items that pass the test, in order
  abbrev pub keep : (A → Bool) → List A → List A
  keep p [] = []
  keep p (x ∷ xs) = let rest = keep p xs in if p x then x ∷ rest else rest

  pub sum_by-append : (m : A → ℕ) (xs ys : List A) → sum_by m (xs ++ ys) ≡ sum_by m xs + sum_by m ys
  sum_by-append m [] ys = omega arith
  sum_by-append m (x ∷ xs) ys = omega (arith, sum_by-append m xs ys)

  -- what passes a test and what does not make up the whole
  pub sum_by-keep :
      (m : A → ℕ) (p : A → Bool) (xs : List A)
      → sum_by m xs ≡ sum_by m (keep p xs) + sum_by m (keep (λ x. not (p x)) xs)
  sum_by-keep m p [] = refl
  sum_by-keep m p (x ∷ xs) = ground (arith, sum_by-keep m p xs)

  pub count-keep :
      (q p : A → Bool) (xs : List A)
      → count q xs ≡ count q (keep p xs) + count q (keep (λ x. not (p x)) xs)
  count-keep q p [] = refl
  count-keep q p (x ∷ xs) = ground (arith, count-keep q p xs)

  pub count-append : (p : A → Bool) (xs ys : List A) → count p (xs ++ ys) ≡ count p xs + count p ys
  count-append p [] ys = omega arith
  count-append p (x ∷ xs) ys = ground (arith, count-append p xs ys)

  pub count-le-length : (p : A → Bool) (xs : List A) → count p xs ≤ length xs
  count-le-length p [] = omega arith
  count-le-length p (x ∷ xs) = ground (arith, count-le-length p xs)

  pub any-pos : (p : A → Bool) (xs : List A) → any p xs ≡ true → 0 < count p xs
  any-pos p (x ∷ xs) h = ground (arith, any-pos p xs)
  any-pos p [] h = ground arith

  pub any_none : (p : A → Bool) (xs : List A) → any p xs ≡ false → count p xs ≡ 0
  any_none p (x ∷ xs) h = ground (arith, any_none p xs)
  any_none p [] h = refl

module _ {ℓ} {A : Type ℓ} where
  abbrev pub get_elem? : List A → ℕ → Option A
  get_elem? [] i = none
  get_elem? (x ∷ xs) zero = some x
  get_elem? (x ∷ xs) (suc i) = get_elem? xs i

  -- a write out of bounds changes nothing
  abbrev pub set : List A → ℕ → A → List A
  set [] i v = []
  set (x ∷ xs) zero v = v ∷ xs
  set (x ∷ xs) (suc i) v = x ∷ set xs i v

  -- a write takes the old item out of the count and puts the new one in
  pub count-set :
      (p : A → Bool) (xs : List A) (i : ℕ) (old new : A)
      → get_elem? xs i ≡ some old
      → count p (set xs i new) + (if p old then 1 else 0) ≡ count p xs + (if p new then 1 else 0)
  count-set p [] i old new h = ground arith
  count-set p (x ∷ xs) zero old new h = ground arith
  count-set p (x ∷ xs) (suc i) old new h = ground (arith, count-set p xs i old new h)

module _ {ℓ} {A : Type ℓ} where
  pub count-pos :
      (p : A → Bool) (xs : List A) (i : ℕ) (x : A)
      → get_elem? xs i ≡ some x
      → p x ≡ true
      → 0 < count p xs
  count-pos p [] i x h t = ground arith
  count-pos p (y ∷ ys) zero x h t = ground arith
  count-pos p (y ∷ ys) (suc i) x h t = ground (arith, count-pos p ys i x h t)

  pub snoc-ne-nil : (xs : List A) (x : A) → xs ++ x ∷ [] ≢ []
  snoc-ne-nil [] x h = cc
  snoc-ne-nil (y ∷ ys) x h = cc

module _ {ℓ} {A : Type ℓ} where
  pub drop-set : (xs : List A) (i : ℕ) (v : A) → drop (suc i) (set xs i v) ≡ drop (suc i) xs
  drop-set [] i v = refl
  drop-set (x ∷ xs) zero v = refl
  drop-set (x ∷ xs) (suc i) v = drop-set xs i v

  pub length-set : (xs : List A) (i : ℕ) (v : A) → length (set xs i v) ≡ length xs
  length-set [] i v = refl
  length-set (x ∷ xs) zero v = refl
  length-set (x ∷ xs) (suc i) v = ap suc (length-set xs i v)

  pub drop-append : (xs ys : List A) (i : ℕ) → i ≤ length xs → drop i (xs ++ ys) ≡ drop i xs ++ ys
  drop-append xs ys zero h = refl
  drop-append [] ys (suc i) h = absurd (omega arith)
  drop-append (x ∷ xs) ys (suc i) h = drop-append xs ys i (omega arith)

  pub drop_step :
      (xs : List A) (i : ℕ) {x : A} → get_elem? xs i ≡ some x → drop i xs ≡ x ∷ drop (suc i) xs
  drop_step [] i h = cc
  drop_step (y ∷ ys) zero h = ground arith
  drop_step (y ∷ ys) (suc i) h = drop_step ys i h

  pub get_elem?-drop : (xs : List A) (i : ℕ) → get_elem? (drop i xs) 0 ≡ get_elem? xs i
  get_elem?-drop [] zero = refl
  get_elem?-drop [] (suc i) = refl
  get_elem?-drop (x ∷ xs) zero = refl
  get_elem?-drop (x ∷ xs) (suc i) = get_elem?-drop xs i

  pub get_elem?_in : (xs : List A) (i : ℕ) → i < length xs → (x : A) × (get_elem? xs i ≡ some x)
  get_elem?_in [] i h = absurd (omega arith)
  get_elem?_in (x ∷ xs) zero h = (x, refl)
  get_elem?_in (x ∷ xs) (suc i) h = get_elem?_in xs i (omega arith)

  pub get_elem?-append :
      (xs ys : List A) (i : ℕ) → i < length xs → get_elem? (xs ++ ys) i ≡ get_elem? xs i
  get_elem?-append [] ys i h = absurd (omega arith)
  get_elem?-append (x ∷ xs) ys zero h = refl
  get_elem?-append (x ∷ xs) ys (suc i) h = get_elem?-append xs ys i (omega arith)

  pub get_elem?_lt : (xs : List A) (i : ℕ) {x : A} → get_elem? xs i ≡ some x → i < length xs
  get_elem?_lt [] i h = cc
  get_elem?_lt (y ∷ ys) zero h = omega arith
  get_elem?_lt (y ∷ ys) (suc i) h = omega (arith, get_elem?_lt ys i h)

module _ {ℓ} {A : Type ℓ} where
  pub any-append : (p : A → Bool) (xs ys : List A) → any p (xs ++ ys) ≡ (any p xs || any p ys)
  any-append p [] ys = refl
  any-append p (x ∷ xs) ys = ground (arith, any-append p xs ys)

  any-reverse_aux :
      (p : A → Bool) (xs r : List A) → any p (reverse_aux xs r) ≡ (any p xs || any p r)
  any-reverse_aux p [] r = refl
  any-reverse_aux p (x ∷ xs) r = ground (arith, any-reverse_aux p xs (x ∷ r))

  pub any-reverse : (p : A → Bool) (xs : List A) → any p (reverse xs) ≡ any p xs
  any-reverse p xs = ground (arith, any-reverse_aux p xs [])
