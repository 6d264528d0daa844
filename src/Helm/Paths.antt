-- ===== src/Helm/Paths.antt =====
-- internal/analyzer/proposal.go: paths of keys, compared and tested for overlap.
use Prim.Native.Nat.{Ordering}
use Prim.Native.String.{compare}
use k8s_recommendation_engin.Prelude.{
  ◌≡◌, ◌↔◌, refl, sym, ◌∙◌, ap, arith, inl, inr, Bool, true, false, ◌&&◌, List, [], ◌∷◌, String,
  str_eq, eq_iff, Bool-cases,
}

-- helmPathsOverlapAnalyzer: one of the paths begins with the other.
unfoldable pub helm_paths_overlap : List String → List String → Bool
helm_paths_overlap [] right = true
helm_paths_overlap (a ∷ left) [] = true
helm_paths_overlap (a ∷ left) (b ∷ right) = str_eq a b && helm_paths_overlap left right

abbrev order_then : Ordering → Ordering → Ordering
order_then Ordering.eq rest = rest
order_then Ordering.lt rest = Ordering.lt
order_then Ordering.gt rest = Ordering.gt

-- compareHelmPaths: key by key, and the shorter path first.
unfoldable pub compare_helm_paths : List String → List String → Ordering
compare_helm_paths [] [] = Ordering.eq
compare_helm_paths [] (b ∷ right) = Ordering.lt
compare_helm_paths (a ∷ left) [] = Ordering.gt
compare_helm_paths (a ∷ left) (b ∷ right) = order_then (compare a b) (compare_helm_paths left right)

abbrev pub is_less : Ordering → Bool
is_less Ordering.lt = true
is_less _ = false

abbrev pub is_same : Ordering → Bool
is_same Ordering.eq = true
is_same _ = false

-- equalHelmPath
abbrev pub equal_helm_path : List String → List String → Bool
equal_helm_path left right = is_same (compare_helm_paths left right)

pub helm_paths_overlap_comm :
    (left right : List String) → helm_paths_overlap left right ≡ helm_paths_overlap right left
unfolding helm_paths_overlap
helm_paths_overlap_comm [] [] = refl
helm_paths_overlap_comm [] (b ∷ right) = refl
helm_paths_overlap_comm (a ∷ left) [] = refl
helm_paths_overlap_comm (a ∷ left) (b ∷ right) = elim (Bool-cases (str_eq a b)) [
  | inl same ↦ rw (same, same_sym a b same) (helm_paths_overlap_comm left right)
  | inr differ ↦ elim (Bool-cases (str_eq b a)) [
    | inl back ↦ absurd (ground (arith, differ, same_sym b a back))
    | inr apart ↦ rw (differ, apart) refl
  ]
]
  where
    same_sym : (s t : String) → str_eq s t ≡ true → str_eq t s ≡ true
    same_sym s t h = (eq_iff t s).1 (sym ((eq_iff s t).0 h))

is_same-compare : (a b : String) → (compare a b ≡ Ordering.eq) ↔ (a ≡ b)
is_same-compare a b =
    (λ h. (eq_iff a b).0 (eq-true h), λ same. ordering-eq (compare a b) ((eq_iff a b).1 same))
  where
    eq-true : compare a b ≡ Ordering.eq → str_eq a b ≡ true
    eq-true h = rw h refl

    ordering-eq : (o : Ordering) → is_same o ≡ true → o ≡ Ordering.eq
    ordering-eq Ordering.eq h = refl
    ordering-eq Ordering.lt h = absurd (ground arith)
    ordering-eq Ordering.gt h = absurd (ground arith)

pub equal_helm_path_refl : (path : List String) → equal_helm_path path path ≡ true
unfolding compare_helm_paths
equal_helm_path_refl [] = refl
equal_helm_path_refl (a ∷ path) = rw ((is_same-compare a a).1 refl) (equal_helm_path_refl path)

pub equal_helm_path-eq :
    (left right : List String) → equal_helm_path left right ≡ true → left ≡ right
unfolding compare_helm_paths
equal_helm_path-eq [] [] h = refl
equal_helm_path-eq [] (b ∷ right) h = absurd (ground arith)
equal_helm_path-eq (a ∷ left) [] h = absurd (ground arith)
equal_helm_path-eq (a ∷ left) (b ∷ right) h =
    let (first, rest) = both (compare a b) (compare_helm_paths left right) h in
    cons-eq ((is_same-compare a b).0 first) (equal_helm_path-eq left right rest)
  where
    both :
        (o rest : Ordering)
        → is_same (order_then o rest) ≡ true
        → (o ≡ Ordering.eq) × (is_same rest ≡ true)
    both Ordering.eq rest h = (refl, h)
    both Ordering.lt rest h = absurd (ground arith)
    both Ordering.gt rest h = absurd (ground arith)

    cons-eq : a ≡ b → left ≡ right → a ∷ left ≡ b ∷ right
    cons-eq p q = ap (λ s. s ∷ left) p ∙ ap (λ path. b ∷ path) q
