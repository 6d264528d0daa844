-- ===== src/Diff.antt =====
-- internal/analyzer/patch_plan.go: the diff of a patch plan.
pub mod Longest
pub mod Replay
mod Steps
pub mod Hunks
use Prim.Native.Char.{code}
use k8s_recommendation_engin.Prelude.{
  ℕ, zero, suc, ◌+◌, ◌-◌, Bool, true, false, not, List, [], ◌∷◌, ◌++◌, map, String, str_eq, ltb,
  leb, ◌==◌, if◌then◌else◌, length, ◌<>◌, ◌≡◌, refl,
}

-- maxInt
abbrev pub max_int : ℕ → ℕ → ℕ
max_int left right = if ltb right left then left else right

-- minInt
abbrev pub min_int : ℕ → ℕ → ℕ
min_int left right = if ltb left right then left else right

-- The three values of `kind`: ' ', '-' and '+'.
pub data Kind : Type 0 where
  unchanged : Kind
  removed : Kind
  added : Kind

pub record LineDiffOp : Type 0 where
  pub kind : Kind
  pub line : String

abbrev pub head_or_zero : List ℕ → ℕ
head_or_zero [] = 0
head_or_zero (n ∷ ns) = n

abbrev pub tail_of : List ℕ → List ℕ
tail_of [] = []
tail_of (n ∷ ns) = ns

-- The body of the inner loop: lcs[i][j] from the cell below, the cell to the right and the diagonal.
abbrev pub fill_cell : Bool → ℕ → ℕ → ℕ → ℕ
fill_cell same below right diagonal = if same then diagonal + 1 else max_int below right

-- The inner loop, from the last column to the first: the row of `line`, from the row below it.
unfoldable pub fill_row : String → List String → List ℕ → List ℕ
fill_row line [] below = 0 ∷ []
fill_row line (y ∷ ys) below =
    let right = fill_row line ys (tail_of below) in
    fill_cell (str_eq line y) (head_or_zero below) (head_or_zero right)
      (head_or_zero (tail_of below))
    ∷ right

abbrev pub first_row : List (List ℕ) → List ℕ
first_row [] = []
first_row (row ∷ rows) = row

unfoldable pub zeros : List String → List ℕ
zeros [] = 0 ∷ []
zeros (y ∷ ys) = 0 ∷ zeros ys

-- The table `lcs`, filled from the last row to the first.
unfoldable pub lcs_table : List String → List String → List (List ℕ)
unfolding fill_row zeros
lcs_table [] modified = zeros modified ∷ []
lcs_table (x ∷ xs) modified =
    let rows = lcs_table xs modified in fill_row x modified (first_row rows) ∷ rows

abbrev pub row_at : List (List ℕ) → ℕ → List ℕ
row_at [] i = []
row_at (row ∷ rows) zero = row
row_at (row ∷ rows) (suc i) = row_at rows i

abbrev pub at : List ℕ → ℕ → ℕ
at [] j = 0
at (n ∷ ns) zero = n
at (n ∷ ns) (suc j) = at ns j

-- lcs[i][j]
abbrev pub cell : List (List ℕ) → ℕ → ℕ → ℕ
cell rows i j = at (row_at rows i) j

abbrev pub with_kind : Kind → List String → List LineDiffOp
with_kind kind lines = map (λ line. record { kind = kind; line = line }) lines

-- The loops over `i` and `j`: `xs` is original[i:] and `ys` is modified[j:].
unfoldable pub walk : List (List ℕ) → ℕ → ℕ → List String → List String → List LineDiffOp
walk lcs i j [] ys = with_kind added ys
walk lcs i j (x ∷ xs) [] = with_kind removed (x ∷ xs)
walk lcs i j (x ∷ xs) (y ∷ ys) = elim (str_eq x y) [
  | true ↦ record { kind = unchanged; line = x } ∷ walk lcs (suc i) (suc j) xs ys
  | false ↦ elim (leb (cell lcs i (suc j)) (cell lcs (suc i) j)) [
    | true ↦ record { kind = removed; line = x } ∷ walk lcs (suc i) j xs (y ∷ ys)
    | false ↦ record { kind = added; line = y } ∷ walk lcs i (suc j) (x ∷ xs) ys
  ]
]

-- lineDiffOps
unfoldable pub line_diff_ops : List String → List String → List LineDiffOp
unfolding lcs_table walk
line_diff_ops original modified = walk (lcs_table original modified) 0 0 original modified

abbrev pub is_change : Kind → Bool
is_change unchanged = false
is_change removed = true
is_change added = true

-- The loop that fills `changeIndexes`, from `index` on.
unfoldable pub change_indexes : ℕ → List LineDiffOp → List ℕ
change_indexes index [] = []
change_indexes index (op ∷ ops) =
    let rest = change_indexes (suc index) ops in if is_change op.kind then index ∷ rest else rest

pub record HunkRange : Type 0 where
  pub start : ℕ
  pub end : ℕ

-- `changeIndex-contextLines` and `changeIndex+contextLines`, kept within the list.
abbrev pub range_around : ℕ → ℕ → HunkRange
range_around count index = record {
  start = max_int 0 (index - 3);
  end = min_int (count - 1) (index + 3);
}

-- The loop over changeIndexes[1:] and the append after it.
unfoldable pub hunk_ranges : ℕ → HunkRange → List ℕ → List HunkRange
hunk_ranges count current [] = current ∷ []
hunk_ranges count current (index ∷ indexes) =
    let next = range_around count index in
    elim (leb next.start (current.end + 1)) [
      | true ↦
          hunk_ranges count record { start = current.start; end = max_int current.end next.end }
            indexes
      | false ↦ current ∷ hunk_ranges count next indexes
    ]

unfoldable pub ranges_of : ℕ → List ℕ → List HunkRange
unfolding hunk_ranges
ranges_of count [] = []
ranges_of count (index ∷ indexes) = hunk_ranges count (range_around count index) indexes

abbrev pub mark : Kind → String
mark unchanged = " "
mark removed = "-"
mark added = "+"

-- The lines of one hunk: ops[start] to ops[end], `index` being the index of the first op of the list.
unfoldable pub hunk_lines : HunkRange → ℕ → List LineDiffOp → List String
hunk_lines range index [] = []
hunk_lines range index (op ∷ ops) =
    let rest = hunk_lines range (suc index) ops in
    if leb range.start index
    then (if leb index range.end then (mark op.kind <> op.line) ∷ rest else rest)
    else rest

-- compactLineDiff
unfoldable pub compact_line_diff : List String → List String → List (List String)
unfolding line_diff_ops change_indexes ranges_of hunk_lines
compact_line_diff original modified =
    let ops = line_diff_ops original modified in
    map (λ range. hunk_lines range 0 ops) (ranges_of (length ops) (change_indexes 0 ops))

-- strings.Split(text, "\n"): the lines, of which there is always one.
unfoldable pub split_lines : String → List String
split_lines String.[] = "" ∷ []
split_lines (String.◌∷◌ c text) =
    let rest = split_lines text in if code c == 10 then "" ∷ rest else onto_first rest
  where
    onto_first : List String → List String
    onto_first [] = []
    onto_first (line ∷ lines) = String.◌∷◌ c line ∷ lines

-- strings.TrimSuffix(text, "\n")
unfoldable pub trim_newline : String → String
trim_newline String.[] = ""
trim_newline (String.◌∷◌ c text) =
    let rest = String.◌∷◌ c (trim_newline text) in
    if str_eq text "" then (if code c == 10 then "" else rest) else rest

-- splitDiffLines
unfoldable pub split_diff_lines : String → List String
unfolding split_lines trim_newline
split_diff_lines text =
    let trimmed = trim_newline text in if str_eq trimmed "" then [] else split_lines trimmed

abbrev lines_text : List String → String
lines_text [] = ""
lines_text (line ∷ lines) = line <> "\n" <> lines_text lines

abbrev hunks_text : List (List String) → String
hunks_text [] = ""
hunks_text (hunk ∷ hunks) = "@@ dry-run @@\n" <> lines_text hunk <> hunks_text hunks

-- unifiedDiff
unfoldable pub unified_diff : String → String → String → String
unfolding compact_line_diff split_diff_lines
unified_diff path original modified =
    if str_eq original modified
    then ""
    else "--- a/"
      <> path
      <> "\n"
      <> "+++ b/"
      <> path
      <> "\n"
      <> hunks_text (compact_line_diff (split_diff_lines original) (split_diff_lines modified))

unified_diff_example :
    unified_diff "web.yaml" "replicas: 3\ncpu: 1\n" "replicas: 2\ncpu: 1\n"
    ≡ "--- a/web.yaml\n+++ b/web.yaml\n@@ dry-run @@\n-replicas: 3\n+replicas: 2\n cpu: 1\n"
unfolding unified_diff compact_line_diff split_diff_lines split_lines trim_newline line_diff_ops
    lcs_table walk fill_row zeros change_indexes ranges_of hunk_ranges hunk_lines
unified_diff_example = refl
