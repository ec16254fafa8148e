-- ===== src/Prelude/Sort.antt =====
-- What Go's `sort` package promises of its result, by an insertion sort over a Boolean order.
use casa_os_app_management.Prelude.Tests.{if◌then◌else◌, Bool-cases}
use casa_os_app_management.Prelude.Lists.{any, count, sum_by, length}
use casa_os_app_management.Prelude.Each.{All, All-map}
use Prim.Native.Nat.{ℕ, suc, ◌+◌}
use mathlib.Core.Path.{◌≡◌, refl}
use mathlib.Core.Bool.{Bool, true, ◌||◌}
use mathlib.Core.Logic.{inl, inr}
use mathlib.Core.List.{List, [], ◌∷◌}
use native.Mathlib.Omega.{arith}

module _ {ℓ} {A : Type ℓ} (le : A → A → Bool) where
  unfoldable pub insert : A → List A → List A
  insert x [] = x ∷ []
  insert x (y ∷ ys) = if le x y then x ∷ y ∷ ys else y ∷ insert x ys

  unfoldable pub insertion_sort : List A → List A
  unfolding insert
  insertion_sort [] = []
  insertion_sort (x ∷ xs) = insert x (insertion_sort xs)

  -- every item is at most each one behind it
  abbrev pub IsSorted : List A → Type 0
  IsSorted [] = Unit
  IsSorted (x ∷ xs) = All (λ y. le x y ≡ true) xs × IsSorted xs

module _ {ℓ} {A : Type ℓ} (le : A → A → Bool) where
  count-insert : (p : A → Bool) (x : A) (xs : List A) → count p (insert le x xs) ≡ count p (x ∷ xs)
  unfolding insert
  count-insert p x [] = refl
  count-insert p x (y ∷ ys) = ground (arith, count-insert p x ys)

  pub count-insertion_sort :
      (p : A → Bool) (xs : List A) → count p (insertion_sort le xs) ≡ count p xs
  unfolding insertion_sort
  count-insertion_sort p [] = refl
  count-insertion_sort p (x ∷ xs) =
      ground (arith, count-insert p x (insertion_sort le xs), count-insertion_sort p xs)

  any-insert : (p : A → Bool) (x : A) (xs : List A) → any p (insert le x xs) ≡ any p (x ∷ xs)
  unfolding insert
  any-insert p x [] = refl
  any-insert p x (y ∷ ys) = ground (arith, any-insert p x ys)

  pub any-insertion_sort : (p : A → Bool) (xs : List A) → any p (insertion_sort le xs) ≡ any p xs
  unfolding insertion_sort
  any-insertion_sort p [] = refl
  any-insertion_sort p (x ∷ xs) =
      ground (arith, any-insert p x (insertion_sort le xs), any-insertion_sort p xs)

  length-insert : (x : A) (xs : List A) → length (insert le x xs) ≡ suc (length xs)
  unfolding insert
  length-insert x [] = refl
  length-insert x (y ∷ ys) = ground (arith, length-insert x ys)

  pub length-insertion_sort : (xs : List A) → length (insertion_sort le xs) ≡ length xs
  unfolding insertion_sort
  length-insertion_sort [] = refl
  length-insertion_sort (x ∷ xs) =
      ground (arith, length-insert x (insertion_sort le xs), length-insertion_sort xs)

  sum_by-insert : (m : A → ℕ) (x : A) (xs : List A) → sum_by m (insert le x xs) ≡ m x + sum_by m xs
  unfolding insert
  sum_by-insert m x [] = refl
  sum_by-insert m x (y ∷ ys) = ground (arith, sum_by-insert m x ys)

  pub sum_by-insertion_sort :
      (m : A → ℕ) (xs : List A) → sum_by m (insertion_sort le xs) ≡ sum_by m xs
  unfolding insertion_sort
  sum_by-insertion_sort m [] = refl
  sum_by-insertion_sort m (x ∷ xs) =
      omega (arith, sum_by-insert m x (insertion_sort le xs), sum_by-insertion_sort m xs)

  pub All-insert {κ} :
      (P : A → Type κ) (x : A) (xs : List A) → P x → All P xs → All P (insert le x xs)
  unfolding insert
  All-insert P x [] hx h = (hx, tt)
  All-insert P x (y ∷ ys) hx h = elim (Bool-cases (le x y)) [
    | inl e ↦ rw e (hx, h)
    | inr e ↦ rw e (h.0, All-insert P x ys hx h.1)
  ]

  pub All-insertion_sort {κ} :
      (P : A → Type κ) (xs : List A) → All P xs → All P (insertion_sort le xs)
  unfolding insertion_sort
  All-insertion_sort P [] h = tt
  All-insertion_sort P (x ∷ xs) h =
      All-insert P x (insertion_sort le xs) h.0 (All-insertion_sort P xs h.1)

module _ {ℓ} {A : Type ℓ} (le : A → A → Bool) (total : (a b : A) → (le a b || le b a) ≡ true)
    (trans : (a b c : A) → le a b ≡ true → le b c ≡ true → le a c ≡ true) where
  insert-IsSorted : (x : A) (xs : List A) → IsSorted le xs → IsSorted le (insert le x xs)
  unfolding insert
  insert-IsSorted x [] h = (tt, tt)
  insert-IsSorted x (y ∷ ys) h = elim (Bool-cases (le x y)) [
    | inl e ↦
        rw e ((e, All-map (λ z. le y z ≡ true) (λ z. le x z ≡ true) ys (λ z. trans x y z e) h.0), h)
    | inr e ↦ rw e (
      All-insert le (λ z. le y z ≡ true) x ys (ground (arith, total x y)) h.0,
      insert-IsSorted x ys h.1,
    )
  ]

  pub insertion_sort-IsSorted : (xs : List A) → IsSorted le (insertion_sort le xs)
  unfolding insertion_sort
  insertion_sort-IsSorted [] = tt
  insertion_sort-IsSorted (x ∷ xs) =
      insert-IsSorted x (insertion_sort le xs) (insertion_sort-IsSorted xs)
