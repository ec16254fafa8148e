-- ===== src/Prelude/Map.antt =====
-- Go's map with string keys, as an association list. Its order stands for the order in which `range`
-- happens to visit the keys.
use Prim.Native.String.{String}
use mathlib.Core.Path.{◌≡◌, refl, ◌∙◌}
use mathlib.Core.Logic.{inl, inr}
use mathlib.Core.Bool.{true, false}
use mathlib.Core.Option.{Option, none, some}
use mathlib.Core.List.{List, [], ◌∷◌}
use native.Mathlib.Omega.{arith}
use text.Mathlib.TextEquality.{eq_iff}
use casa_os_app_management.Prelude.Tests.{if◌then◌else◌, Bool-cases}
use casa_os_app_management.Prelude.Text.{◌==◌}
use casa_os_app_management.Prelude.Lists.{any, count}

abbrev pub Map {ℓ} : Type ℓ → Type ℓ
Map V = List (String × V)

module _ {ℓ} {V : Type ℓ} where
  -- `v, ok := m[k]`
  unfoldable pub get : String → Map V → Option V
  get k [] = none
  get k ((j, v) ∷ m) = if j == k then some v else get k m

  -- `m[k] = v`
  unfoldable pub assign : String → V → Map V → Map V
  assign k v [] = (k, v) ∷ []
  assign k v ((j, w) ∷ m) = if j == k then (k, v) ∷ m else (j, w) ∷ assign k v m

  -- `delete(m, k)`
  unfoldable pub delete : String → Map V → Map V
  delete k [] = []
  delete k ((j, v) ∷ m) = let rest = delete k m in if j == k then rest else (j, v) ∷ rest

  pub get-assign :
      (k j : String) (v : V) (m : Map V)
      → get j (assign k v m) ≡ (if k == j then some v else get j m)
  unfolding get assign
  get-assign k j v [] = refl
  get-assign k j v ((i, w) ∷ m) =
      ground (arith, eq_iff k j, eq_iff i k, eq_iff i j, get-assign k j v m)

  pub get-delete :
      (k j : String) (m : Map V) → get j (delete k m) ≡ (if k == j then none else get j m)
  unfolding get delete
  get-delete k j [] = ground arith
  get-delete k j ((i, w) ∷ m) = ground (arith, eq_iff k j, eq_iff i k, eq_iff i j, get-delete k j m)

  abbrev pub keys : Map V → List String
  keys [] = []
  keys ((k, v) ∷ m) = k ∷ keys m

  -- no key stands twice, which Go's map gives for nothing
  abbrev pub IsMap : Map V → Type 0
  IsMap [] = Unit
  IsMap ((k, v) ∷ m) = (any (λ j. j == k) (keys m) ≡ false) × IsMap m

  pub any-assign :
      (k j : String) (v : V) (m : Map V)
      → (k == j) ≡ false
      → any (λ i. i == j) (keys (assign k v m)) ≡ any (λ i. i == j) (keys m)
  unfolding assign
  any-assign k j v [] h = rw h refl
  any-assign k j v ((i, w) ∷ m) h =
      ground (arith, eq_iff k j, eq_iff i k, eq_iff i j, any-assign k j v m h)

  pub any-delete :
      (k j : String) (m : Map V)
      → any (λ i. i == j) (keys m) ≡ false
      → any (λ i. i == j) (keys (delete k m)) ≡ false
  unfolding delete
  any-delete k j [] h = refl
  any-delete k j ((i, w) ∷ m) h = ground (arith, any-delete k j m)

  pub IsMap-assign : (k : String) (v : V) (m : Map V) → IsMap m → IsMap (assign k v m)
  unfolding assign
  IsMap-assign k v [] h = (refl, tt)
  IsMap-assign k v ((i, w) ∷ m) h = elim (Bool-cases (i == k)) [
    | inl e ↦ rw (e, ← (eq_iff i k).0 e) h
    | inr e ↦
        let ne : (k == i) ≡ false = ground (arith, eq_iff i k, eq_iff k i) in
        rw e (any-assign k i v m ne ∙ h.0, IsMap-assign k v m h.1)
  ]

  pub IsMap-delete : (k : String) (m : Map V) → IsMap m → IsMap (delete k m)
  unfolding delete
  IsMap-delete k [] h = tt
  IsMap-delete k ((i, w) ∷ m) h = elim (Bool-cases (i == k)) [
    | inl e ↦ rw e (IsMap-delete k m h.1)
    | inr e ↦ rw e (any-delete k i m h.0, IsMap-delete k m h.1)
  ]

  -- a key is among the keys exactly when it has a value
  pub any-keys :
      (k : String) (m : Map V)
      → any (λ j. j == k) (keys m) ≡ elim (get k m) [ none ↦ false | some v ↦ true ]
  unfolding get
  any-keys k [] = refl
  any-keys k ((i, w) ∷ m) = ground (arith, any-keys k m)

  -- in a map each key stands at most once
  pub count-keys :
      (k : String) (m : Map V)
      → IsMap m
      → count (λ j. j == k) (keys m) ≡ elim (get k m) [ none ↦ 0 | some v ↦ 1 ]
  unfolding get
  count-keys k [] h = refl
  count-keys k ((i, w) ∷ m) h =
      ground (arith, count-keys k m h.1, any-keys k m, any-keys i m, eq_iff i k)

pub ruleset map_laws = (get-assign, get-delete)
