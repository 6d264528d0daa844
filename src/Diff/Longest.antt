-- ===== src/Diff/Longest.antt =====
-- The table of `lineDiffOps` against the longest common subsequence.
use k8s_recommendation_engin.Prelude.{
  ℕ, zero, suc, ◌≤◌, ◌≡◌, refl, sym, ◌∙◌, ap, ◌⊎◌, inl, inr, arith, Bool, List, [], ◌∷◌, String,
  str_eq, eq_iff, leb, length, Bool-cases, count_by, not,
}
use k8s_recommendation_engin.Diff.{
  removed, added, LineDiffOp, is_change, with_kind, head_or_zero, fill_cell, fill_row, first_row,
  zeros, lcs_table, row_at, at, cell, walk, line_diff_ops,
}
use k8s_recommendation_engin.Diff.Steps.{walk-unchanged, walk-removed, walk-added}

-- The length of a longest common subsequence, by recursion on the two lists.
unfoldable pub longest : List String → List String → ℕ
longest [] ys = 0
longest (x ∷ xs) [] = 0
longest (x ∷ xs) (y ∷ ys) =
    fill_cell (str_eq x y) (longest xs (y ∷ ys)) (longest (x ∷ xs) ys) (longest xs ys)

abbrev pub IsSubsequence : List String → List String → Type 0
IsSubsequence [] xs = Unit
IsSubsequence (z ∷ zs) [] = ⊥
IsSubsequence (z ∷ zs) (x ∷ xs) = ((z ≡ x) × IsSubsequence zs xs) ⊎ IsSubsequence (z ∷ zs) xs

IsSubsequence-tail :
    (z : String) (zs xs : List String) → IsSubsequence (z ∷ zs) xs → IsSubsequence zs xs
IsSubsequence-tail z zs [] h = absurd h
IsSubsequence-tail z [] (x ∷ xs) h = tt
IsSubsequence-tail z (w ∷ zs) (x ∷ xs) (inl here) = inr here.1
IsSubsequence-tail z (w ∷ zs) (x ∷ xs) (inr later) = inr (IsSubsequence-tail z (w ∷ zs) xs later)

pub longest-bounds :
    (zs xs ys : List String) → IsSubsequence zs xs → IsSubsequence zs ys → length zs ≤ longest xs ys
unfolding longest
longest-bounds [] xs ys p q = omega arith
longest-bounds (z ∷ zs) [] ys p q = absurd p
longest-bounds (z ∷ zs) (x ∷ xs) [] p q = absurd q
longest-bounds (z ∷ zs) (x ∷ xs) (y ∷ ys) (inl a) (inl b) =
    rw ((eq_iff x y).1 (sym a.0 ∙ b.0)) (omega (arith, longest-bounds zs xs ys a.1 b.1))
longest-bounds (z ∷ zs) (x ∷ xs) (y ∷ ys) (inl a) (inr b) = ground (
  arith,
  longest-bounds zs xs ys a.1 (IsSubsequence-tail z zs ys b),
  longest-bounds (z ∷ zs) (x ∷ xs) ys (inl a) b,
)
longest-bounds (z ∷ zs) (x ∷ xs) (y ∷ ys) (inr a) (inl b) = ground (
  arith,
  longest-bounds zs xs ys (IsSubsequence-tail z zs xs a) b.1,
  longest-bounds (z ∷ zs) xs (y ∷ ys) a (inl b),
)
longest-bounds (z ∷ zs) (x ∷ xs) (y ∷ ys) (inr a) (inr b) =
    ground (arith, longest-bounds (z ∷ zs) xs ys a b, longest-bounds (z ∷ zs) xs (y ∷ ys) a (inr b))

abbrev drop : ℕ → List String → List String
drop zero xs = xs
drop (suc i) [] = []
drop (suc i) (x ∷ xs) = drop i xs

drop_next :
    (i : ℕ) (all : List String) (x : String) (xs : List String)
    → drop i all ≡ x ∷ xs
    → (suc i ≤ length all) × (drop (suc i) all ≡ xs)
drop_next zero [] x xs h = absurd (ground arith)
drop_next zero (y ∷ all) x xs h = (omega arith, ap rest_of h)
  where
    rest_of : List String → List String
    rest_of [] = []
    rest_of (w ∷ ws) = ws
drop_next (suc i) [] x xs h = absurd (ground arith)
drop_next (suc i) (y ∷ all) x xs h = let (p, q) = drop_next i all x xs h in (omega arith, q)

drop_within :
    (i : ℕ) (all : List String) (x : String) (xs : List String)
    → drop i all ≡ x ∷ xs
    → i ≤ length all
drop_within i all x xs h = omega (arith, (drop_next i all x xs h).0)

-- A row of the table as the lengths that it stands for.
longest_row : List String → List String → List ℕ
longest_row xs [] = longest xs [] ∷ []
longest_row xs (y ∷ ys) = longest xs (y ∷ ys) ∷ longest_row xs ys

longest-nil : (xs : List String) → longest xs [] ≡ 0
unfolding longest
longest-nil [] = refl
longest-nil (x ∷ xs) = refl

longest_row-nil : (ys : List String) → longest_row [] ys ≡ zeros ys
unfolding longest longest_row zeros
longest_row-nil [] = refl
longest_row-nil (y ∷ ys) = rw (longest_row-nil ys) refl

head-longest_row : (xs ys : List String) → head_or_zero (longest_row xs ys) ≡ longest xs ys
unfolding longest_row
head-longest_row xs [] = refl
head-longest_row xs (y ∷ ys) = refl

fill_row-longest_row :
    (x : String) (xs ys : List String) → fill_row x ys (longest_row xs ys) ≡ longest_row (x ∷ xs) ys
unfolding fill_row longest_row longest
fill_row-longest_row x xs [] = refl
fill_row-longest_row x xs (y ∷ ys) =
    rw (fill_row-longest_row x xs ys, head-longest_row (x ∷ xs) ys, head-longest_row xs ys) refl

first_row-lcs_table : (xs ys : List String) → first_row (lcs_table xs ys) ≡ longest_row xs ys
unfolding lcs_table
first_row-lcs_table [] ys = sym (longest_row-nil ys)
first_row-lcs_table (x ∷ xs) ys = rw (first_row-lcs_table xs ys) (fill_row-longest_row x xs ys)

row_at-lcs_table :
    (xs ys : List String) (i : ℕ)
    → i ≤ length xs
    → row_at (lcs_table xs ys) i ≡ longest_row (drop i xs) ys
unfolding lcs_table
row_at-lcs_table [] ys zero h = sym (longest_row-nil ys)
row_at-lcs_table [] ys (suc i) h = absurd (omega arith)
row_at-lcs_table (x ∷ xs) ys zero h = rw (first_row-lcs_table xs ys) (fill_row-longest_row x xs ys)
row_at-lcs_table (x ∷ xs) ys (suc i) h = row_at-lcs_table xs ys i (omega arith)

at-longest_row :
    (xs ys : List String) (j : ℕ)
    → j ≤ length ys
    → at (longest_row xs ys) j ≡ longest xs (drop j ys)
unfolding longest_row
at-longest_row xs [] zero h = refl
at-longest_row xs [] (suc j) h = absurd (omega arith)
at-longest_row xs (y ∷ ys) zero h = refl
at-longest_row xs (y ∷ ys) (suc j) h = at-longest_row xs ys j (omega arith)

cell-longest :
    (original modified : List String) (i j : ℕ)
    → i ≤ length original
    → j ≤ length modified
    → cell (lcs_table original modified) i j ≡ longest (drop i original) (drop j modified)
cell-longest original modified i j p q =
    rw (row_at-lcs_table original modified i p) (at-longest_row (drop i original) modified j q)

abbrev pub is_kept : LineDiffOp → Bool
is_kept op = not (is_change op.kind)

kept-added : (ys : List String) → count_by is_kept (with_kind added ys) ≡ 0
kept-added [] = refl
kept-added (y ∷ ys) = omega (arith, kept-added ys)

kept-removed : (xs : List String) → count_by is_kept (with_kind removed xs) ≡ 0
kept-removed [] = refl
kept-removed (x ∷ xs) = omega (arith, kept-removed xs)

kept-walk :
    (original modified : List String) (i j : ℕ) (xs ys : List String)
    → drop i original ≡ xs
    → drop j modified ≡ ys
    → count_by is_kept (walk (lcs_table original modified) i j xs ys) ≡ longest xs ys
unfolding walk longest
kept-walk original modified i j [] ys p q = kept-added ys
kept-walk original modified i j (x ∷ xs) [] p q = kept-removed (x ∷ xs)
kept-walk original modified i j (x ∷ xs) (y ∷ ys) p q =
    let (bound, next) = drop_next i original x xs p in
    let (limit, after) = drop_next j modified y ys q in
    let below : cell (lcs_table original modified) (suc i) j ≡ longest xs (y ∷ ys) =
      cell-longest original modified (suc i) j bound (drop_within j modified y ys q)
      ∙ rw (next, q) refl in
    let right : cell (lcs_table original modified) i (suc j) ≡ longest (x ∷ xs) ys =
      cell-longest original modified i (suc j) (drop_within i original x xs p) limit
      ∙ rw (p, after) refl in
    let diagonal = kept-walk original modified (suc i) (suc j) xs ys next after in
    let down = kept-walk original modified (suc i) j xs (y ∷ ys) next q in
    let across = kept-walk original modified i (suc j) (x ∷ xs) ys p after in
    elim (Bool-cases (str_eq x y)) [
      | inl same ↦ rw (walk-unchanged _ i j x xs y ys same, same) (omega (arith, diagonal))
      | inr differ ↦ elim (Bool-cases (leb (cell lcs i (suc j)) (cell lcs (suc i) j))) [
        | inl most ↦
            rw (walk-removed lcs i j x xs y ys differ most, differ) (ground (arith, down, most))
        | inr less ↦
            rw (walk-added lcs i j x xs y ys differ less, differ) (ground (arith, across, less))
      ]
    ]
  where
    lcs : List (List ℕ)
    lcs = lcs_table original modified

-- No diff keeps more lines than `lineDiffOps`: whatever lines the two texts have in common, in
-- their order, at least that many are left unchanged.
pub line_diff_ops-longest :
    (original modified common : List String)
    → IsSubsequence common original
    → IsSubsequence common modified
    → length common ≤ count_by is_kept (line_diff_ops original modified)
unfolding line_diff_ops
line_diff_ops-longest original modified common p q =
    rw (kept-walk original modified 0 0 original modified refl refl)
      (longest-bounds common original modified p q)
