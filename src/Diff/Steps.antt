-- ===== src/Diff/Steps.antt =====
-- The three steps of the loop of `lineDiffOps`.
use k8s_recommendation_engin.Prelude.{
  ℕ, suc, ◌≡◌, refl, List, ◌∷◌, String, str_eq, leb, true, false,
}
use k8s_recommendation_engin.Diff.{unchanged, removed, added, cell, walk}

module _ (lcs : List (List ℕ)) (i j : ℕ) (x : String) (xs : List String) (y : String)
    (ys : List String) where
  pub walk-unchanged :
      str_eq x y ≡ true
      → walk lcs i j (x ∷ xs) (y ∷ ys)
        ≡ record { kind = unchanged; line = x } ∷ walk lcs (suc i) (suc j) xs ys
  unfolding walk
  walk-unchanged same = rw (same, walk) refl

  pub walk-removed :
      str_eq x y ≡ false
      → leb (cell lcs i (suc j)) (cell lcs (suc i) j) ≡ true
      → walk lcs i j (x ∷ xs) (y ∷ ys)
        ≡ record { kind = removed; line = x } ∷ walk lcs (suc i) j xs (y ∷ ys)
  unfolding walk
  walk-removed differ most = rw (differ, most, walk) refl

  pub walk-added :
      str_eq x y ≡ false
      → leb (cell lcs i (suc j)) (cell lcs (suc i) j) ≡ false
      → walk lcs i j (x ∷ xs) (y ∷ ys)
        ≡ record { kind = added; line = y } ∷ walk lcs i (suc j) (x ∷ xs) ys
  unfolding walk
  walk-added differ less = rw (differ, less, walk) refl
