-- ===== src/LogStore/Query/Cursor/Inside.antt =====
-- pkg/logstore/query.go: which files a cursor may name.
use casa_os_app_management.Prelude.{
  ◌≡◌, ◌↔◌, refl, Bool, true, false, not, ◌&&◌, ◌||◌, List, [], ◌∷◌, arith, ◌=ℕ◌, any, All,
}
use casa_os_app_management.LogStore.Line.{Bytes}
use casa_os_app_management.LogStore.Line.Laws.{Lacks}
use casa_os_app_management.LogStore.Query.Cursor.{
  is_empty, starts_at_root, is_parent, path_parts, climbs, is_inside,
}

-- a path that names something below the root of the store
abbrev pub IsInside : Bytes → Type 0
IsInside file =
    (is_empty file ≡ false)
    × (starts_at_root file ≡ false)
    × Lacks b'\\' file
    × (is_parent (path_parts file).0 ≡ false)
    × All (λ part. is_parent part ≡ false) (path_parts file).1

neither : (a b : Bool) → (a || b) ≡ false → (a ≡ false) × (b ≡ false)
neither a b h = ground arith

any-All {ℓ} :
    {A : Type ℓ} (p : A → Bool) (xs : List A) → any p xs ≡ false ↔ All (λ x. p x ≡ false) xs
any-All p [] = (λ h. tt, λ h. refl)
any-All p (x ∷ xs) = (
  λ h. let (here, later) = neither (p x) (any p xs) h in (here, (any-All p xs).0 later),
  λ h. rw h.0 ((any-All p xs).1 h.1),
)

not-true : (a : Bool) → not a ≡ true → a ≡ false
not-true a h = ground arith

both_not : (a b : Bool) → (not a && b) ≡ true → (a ≡ false) × (b ≡ true)
both_not a b h = ground arith

pub is_inside-IsInside : (file : Bytes) → is_inside file ≡ true ↔ IsInside file
unfolding is_inside climbs
is_inside-IsInside file = (there, back)
  where
    there : is_inside file ≡ true → IsInside file
    there h =
        let (some_name, rest) = both_not (is_empty file) _ h in
        let (below, rest') = both_not (starts_at_root file) _ rest in
        let (straight, level) = both_not (any (λ c. c =ℕ b'\\') file) _ rest' in
        let (first, others) =
          neither (is_parent (path_parts file).0) (any is_parent (path_parts file).1)
            (not-true _ level) in
        (
          some_name,
          below,
          (any-All (λ c. c =ℕ b'\\') file).0 straight,
          first,
          (any-All is_parent (path_parts file).1).0 others,
        )

    back : IsInside file → is_inside file ≡ true
    back (some_name, below, straight, first, others) =
        rw
          (
            some_name,
            below,
            (any-All (λ c. c =ℕ b'\\') file).1 straight,
            first,
            (any-All is_parent (path_parts file).1).1 others,
          )
          refl
