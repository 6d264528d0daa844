-- ===== src/Diff/Replay.antt =====
-- What the lines of `lineDiffOps` say of the two texts.
use k8s_recommendation_engin.Prelude.{
  ℕ, suc, ◌≡◌, ◌↔◌, refl, ◌∙◌, ap, sym, inl, inr, arith, List, [], ◌∷◌, String, str_eq, eq_iff, leb,
  Bool-cases, map,
}
use k8s_recommendation_engin.Diff.{
  Kind, unchanged, removed, added, LineDiffOp, with_kind, cell, walk, line_diff_ops, change_indexes,
  ranges_of, compact_line_diff, HunkRange, lcs_table, hunk_lines,
}
use mathlib.Core.Path.{subst}
use k8s_recommendation_engin.Diff.Hunks.{AllShown, shown_ranges, shown_ranges-AllShown}
use k8s_recommendation_engin.Diff.Steps.{walk-unchanged, walk-removed, walk-added}

-- The lines of the text before the diff: all but those that it adds.
unfoldable pub before : List LineDiffOp → List String
before [] = []
before (op ∷ ops) = elim op.kind [
  | unchanged ↦ op.line ∷ before ops
  | removed ↦ op.line ∷ before ops
  | added ↦ before ops
]

-- The lines of the text after the diff: all but those that it removes.
unfoldable pub after : List LineDiffOp → List String
after [] = []
after (op ∷ ops) = elim op.kind [
  | unchanged ↦ op.line ∷ after ops
  | removed ↦ after ops
  | added ↦ op.line ∷ after ops
]

before-added : (ys : List String) → before (with_kind added ys) ≡ []
unfolding before
before-added [] = refl
before-added (y ∷ ys) = before-added ys

before-removed : (xs : List String) → before (with_kind removed xs) ≡ xs
unfolding before
before-removed [] = refl
before-removed (x ∷ xs) = rw (before-removed xs) refl

after-added : (ys : List String) → after (with_kind added ys) ≡ ys
unfolding after
after-added [] = refl
after-added (y ∷ ys) = rw (after-added ys) refl

after-removed : (xs : List String) → after (with_kind removed xs) ≡ []
unfolding after
after-removed [] = refl
after-removed (x ∷ xs) = after-removed xs

before-walk :
    (lcs : List (List ℕ)) (i j : ℕ) (xs ys : List String) → before (walk lcs i j xs ys) ≡ xs
unfolding before walk
before-walk lcs i j [] ys = before-added ys
before-walk lcs i j (x ∷ xs) [] = before-removed (x ∷ xs)
before-walk lcs i j (x ∷ xs) (y ∷ ys) = elim (Bool-cases (str_eq x y)) [
  | inl same ↦
      rw (walk-unchanged lcs i j x xs y ys same, before-walk lcs (suc i) (suc j) xs ys) refl
  | inr differ ↦ elim (Bool-cases (leb (cell lcs i (suc j)) (cell lcs (suc i) j))) [
    | inl most ↦
        rw (walk-removed lcs i j x xs y ys differ most, before-walk lcs (suc i) j xs (y ∷ ys)) refl
    | inr less ↦
        rw (walk-added lcs i j x xs y ys differ less) (before-walk lcs i (suc j) (x ∷ xs) ys)
  ]
]

after-walk : (lcs : List (List ℕ)) (i j : ℕ) (xs ys : List String) → after (walk lcs i j xs ys) ≡ ys
unfolding after walk
after-walk lcs i j [] ys = after-added ys
after-walk lcs i j (x ∷ xs) [] = after-removed (x ∷ xs)
after-walk lcs i j (x ∷ xs) (y ∷ ys) = elim (Bool-cases (str_eq x y)) [
  | inl same ↦
      rw (walk-unchanged lcs i j x xs y ys same, after-walk lcs (suc i) (suc j) xs ys)
        (ap (λ line. line ∷ ys) ((eq_iff x y).0 same))
  | inr differ ↦ elim (Bool-cases (leb (cell lcs i (suc j)) (cell lcs (suc i) j))) [
    | inl most ↦
        rw (walk-removed lcs i j x xs y ys differ most) (after-walk lcs (suc i) j xs (y ∷ ys))
    | inr less ↦
        rw (walk-added lcs i j x xs y ys differ less, after-walk lcs i (suc j) (x ∷ xs) ys) refl
  ]
]

-- The lines that are not added are the original text and those that are not removed the modified
-- one, each in its order.
pub line_diff_ops-replay :
    (original modified : List String)
    → (before (line_diff_ops original modified) ≡ original)
      × (after (line_diff_ops original modified) ≡ modified)
unfolding line_diff_ops
line_diff_ops-replay original modified =
    (before-walk _ 0 0 original modified, after-walk _ 0 0 original modified)

-- An operation that is not a change adds its line to both texts.
before-step :
    (kind : Kind) (line : String) (ops : List LineDiffOp) (index : ℕ)
    → change_indexes index (record { kind = kind; line = line } ∷ ops) ≡ []
    → (change_indexes (suc index) ops ≡ [])
      × (before ops ≡ after ops
          → before (record { kind = kind; line = line } ∷ ops)
            ≡ after (record { kind = kind; line = line } ∷ ops))
unfolding before after change_indexes
before-step unchanged line ops index h = (h, λ same. ap (λ lines. line ∷ lines) same)
before-step removed line ops index h = absurd (ground arith)
before-step added line ops index h = absurd (ground arith)

before-after :
    (index : ℕ) (ops : List LineDiffOp) → change_indexes index ops ≡ [] → before ops ≡ after ops
unfolding before after
before-after index [] h = refl
before-after index (op ∷ ops) h =
    let (rest, both) = before-step op.kind op.line ops index h in
    both (before-after (suc index) ops rest)

walk-same :
    (lcs : List (List ℕ)) (i j index : ℕ) (xs : List String)
    → change_indexes index (walk lcs i j xs xs) ≡ []
unfolding walk change_indexes
walk-same lcs i j index [] = refl
walk-same lcs i j index (x ∷ xs) =
    rw (walk-unchanged lcs i j x xs x xs ((eq_iff x x).1 refl))
      (walk-same lcs (suc i) (suc j) (suc index) xs)

AllShown-nil : (indexes : List ℕ) → AllShown [] indexes → indexes ≡ []
AllShown-nil [] h = refl
AllShown-nil (index ∷ indexes) h = absurd (ground (arith, h.0))

map-empty :
    (f : HunkRange → List String) (ranges : List HunkRange) → map f ranges ≡ [] → ranges ≡ []
map-empty f [] h = refl
map-empty f (range ∷ ranges) h = absurd (ground arith)

-- There is no hunk exactly when the two texts have the same lines.
pub compact_line_diff-empty :
    (original modified : List String)
    → (compact_line_diff original modified ≡ []) ↔ (original ≡ modified)
unfolding compact_line_diff line_diff_ops ranges_of
compact_line_diff-empty original modified = (same_lines, λ same. subst NoHunk same no_hunk)
  where
    NoHunk : List String → Type 0
    NoHunk lines = compact_line_diff original lines ≡ []

    no_hunk : compact_line_diff original original ≡ []
    no_hunk = rw (walk-same (lcs_table original original) 0 0 0 original) refl

    ops : List LineDiffOp
    ops = line_diff_ops original modified

    same_lines : compact_line_diff original modified ≡ [] → original ≡ modified
    same_lines h =
        let (all_shown, apart) = shown_ranges-AllShown ops in
        let none_shown =
          subst (λ ranges. AllShown ranges (change_indexes 0 ops))
            (map-empty (λ range. hunk_lines range 0 ops) (shown_ranges ops) h) all_shown in
        sym (before-walk (lcs_table original modified) 0 0 original modified)
        ∙ before-after 0 ops (AllShown-nil (change_indexes 0 ops) none_shown)
        ∙ after-walk (lcs_table original modified) 0 0 original modified
