-- ===== src/Prelude/Sublist.antt =====
-- One list inside another, with its order.
use mathlib.Core.Path.{◌≡◌, refl, sym, subst}
use mathlib.Core.List.{List, [], ◌∷◌, ◌++◌}

-- `Sub xs ys`: the items of `xs` stand in `ys` in the same order, each at a place of its own.
pub data Sub {ℓ} {A : Type ℓ} : List A → List A → Type ℓ where
  nil : Sub [] []
  skip : {y : A} {xs ys : List A} → Sub xs ys → Sub xs (y ∷ ys)
  same : {x : A} {xs ys : List A} → Sub xs ys → Sub (x ∷ xs) (x ∷ ys)

module _ {ℓ} {A : Type ℓ} where
  pub Sub-snoc : (x : A) {xs ys : List A} → Sub xs ys → Sub (xs ++ x ∷ []) (ys ++ x ∷ [])
  Sub-snoc x nil = same nil
  Sub-snoc x (skip s) = skip (Sub-snoc x s)
  Sub-snoc x (same s) = same (Sub-snoc x s)

  pub Sub-tail : {x : A} {xs ys : List A} → Sub (x ∷ xs) ys → Sub xs ys
  Sub-tail (skip s) = skip (Sub-tail s)
  Sub-tail (same s) = skip s

  delete :
      {ws ys : List A}
      → Sub ws ys
      → (xs : List A) (x : A) (zs : List A) → ws ≡ xs ++ x ∷ zs
      → Sub (xs ++ zs) ys
  delete nil [] x zs e = cc
  delete nil (v ∷ xs) x zs e = cc
  delete (skip s) xs x zs e = skip (delete s xs x zs e)
  delete (same {xs = ws} {ys = ys} s) [] x zs e =
      let tail : ws ≡ zs = cc in skip (subst (λ t. Sub t ys) tail s)
  delete (same {x = w} {xs = ws} {ys = ys} s) (v ∷ xs) x zs e =
      let head : w ≡ v = cc in
      let tail : ws ≡ xs ++ x ∷ zs = cc in
      subst (λ t. Sub (v ∷ xs ++ zs) (t ∷ ys)) (sym head) (same (delete s xs x zs tail))

  -- an item in the middle may be left out
  pub Sub-delete :
      (xs : List A) (x : A) (zs : List A) {ys : List A} → Sub (xs ++ x ∷ zs) ys → Sub (xs ++ zs) ys
  Sub-delete xs x zs s = delete s xs x zs refl
