-- ===== src/Diff/Hunks.antt =====
-- Which lines `compactLineDiff` shows.
use mathlib.Core.Path.{subst}
use k8s_recommendation_engin.Prelude.{
  ℕ, suc, ◌+◌, ◌≤◌, ◌<◌, ◌≡◌, refl, sym, inl, inr, arith, Bool, true, false, not, ◌&&◌, ◌||◌, List,
  [], ◌∷◌, leb, Bool-cases, length, All, any_by, if◌then◌else◌,
}
use k8s_recommendation_engin.Diff.{
  Kind, unchanged, removed, added, max_int, LineDiffOp, is_change, change_indexes, HunkRange,
  range_around, hunk_ranges, ranges_of,
}

-- The index stands in one of the ranges.
abbrev pub is_shown : List HunkRange → ℕ → Bool
is_shown ranges index = any_by (λ range. leb range.start index && leb index range.end) ranges

abbrev pub AllShown : List HunkRange → List ℕ → Type 0
AllShown ranges indexes = All (λ index. is_shown ranges index ≡ true) indexes

-- Each range ends at least one line before the next begins, and the last within the list.
abbrev pub AreApart : ℕ → List HunkRange → Type 0
AreApart count [] = Unit
AreApart count (range ∷ []) = (range.start ≤ range.end) × (range.end < count)
AreApart count (range ∷ (next ∷ ranges)) =
    (range.start ≤ range.end) × (range.end + 1 < next.start) × AreApart count (next ∷ ranges)

-- Indexes from `from` on that rise and stay below the count.
abbrev AreRising : ℕ → ℕ → List ℕ → Type 0
AreRising count from [] = Unit
AreRising count from (index ∷ indexes) =
    (from ≤ index) × (index < count) × AreRising count (suc index) indexes

AreRising-weaken :
    (count from : ℕ) (indexes : List ℕ)
    → AreRising count (suc from) indexes
    → AreRising count from indexes
AreRising-weaken count from [] h = tt
AreRising-weaken count from (index ∷ indexes) h = (omega arith, h.1, h.2)

change_indexes-AreRising :
    (count index : ℕ) (ops : List LineDiffOp)
    → index + length ops ≡ count
    → AreRising count index (change_indexes index ops)
unfolding change_indexes
change_indexes-AreRising count index [] h = tt
change_indexes-AreRising count index (op ∷ ops) h =
    let rest = change_indexes-AreRising count (suc index) ops (omega arith) in
    elim (Bool-cases (is_change op.kind)) [
      | inl change ↦ rw change (omega arith, omega arith, rest)
      | inr same ↦ rw same (AreRising-weaken count index _ rest)
    ]

abbrev widened : ℕ → HunkRange → ℕ → HunkRange
widened count current index = record {
  start = current.start;
  end = max_int current.end (range_around count index).end;
}

module _ (count : ℕ) (current : HunkRange) (index : ℕ) (indexes : List ℕ) where
  hunk_ranges-widened :
      leb (range_around count index).start (current.end + 1) ≡ true
      → hunk_ranges count current (index ∷ indexes)
        ≡ hunk_ranges count (widened count current index) indexes
  unfolding hunk_ranges
  hunk_ranges-widened near = rw (near, hunk_ranges) refl

  hunk_ranges-parted :
      leb (range_around count index).start (current.end + 1) ≡ false
      → hunk_ranges count current (index ∷ indexes)
        ≡ current ∷ hunk_ranges count (range_around count index) indexes
  unfolding hunk_ranges
  hunk_ranges-parted far = rw (far, hunk_ranges) refl

is_shown-current :
    (count : ℕ) (current : HunkRange) (indexes : List ℕ) (index : ℕ)
    → current.start ≤ index
    → index ≤ current.end
    → is_shown (hunk_ranges count current indexes) index ≡ true
unfolding hunk_ranges
is_shown-current count current [] index p q = ground arith
is_shown-current count current (next ∷ indexes) index p q =
    elim (Bool-cases (leb (range_around count next).start (current.end + 1))) [
      | inl near ↦
          rw (hunk_ranges-widened count current next indexes near)
            (is_shown-current count (widened count current next) indexes index p (ground arith))
      | inr far ↦ rw (hunk_ranges-parted count current next indexes far) (ground arith)
    ]

is_shown-later :
    (range : HunkRange) (ranges : List HunkRange) (indexes : List ℕ)
    → AllShown ranges indexes
    → AllShown (range ∷ ranges) indexes
is_shown-later range ranges [] h = tt
is_shown-later range ranges (index ∷ indexes) h =
    (ground (arith, h.0), is_shown-later range ranges indexes h.1)

hunk_ranges-shows :
    (count from : ℕ) (current : HunkRange) (indexes : List ℕ)
    → current.start ≤ from
    → AreRising count from indexes
    → AllShown (hunk_ranges count current indexes) indexes
hunk_ranges-shows count from current [] p h = tt
hunk_ranges-shows count from current (index ∷ indexes) p h =
    elim (Bool-cases (leb (range_around count index).start (current.end + 1))) [
      | inl near ↦
          subst (λ ranges. AllShown ranges (index ∷ indexes))
            (sym (hunk_ranges-widened count current index indexes near))
            (
              is_shown-current count (widened count current index) indexes index
                  (omega (arith, h.0)) (ground (arith, h.1)),
              hunk_ranges-shows count (suc index) (widened count current index) indexes
                  (omega (arith, h.0)) h.2,
            )
      | inr far ↦
          subst (λ ranges. AllShown ranges (index ∷ indexes))
            (sym (hunk_ranges-parted count current index indexes far))
            (is_shown-later current _ (index ∷ indexes) (
              is_shown-current count (range_around count index) indexes index (ground arith)
                  (ground (arith, h.1)),
              hunk_ranges-shows count (suc index) (range_around count index) indexes (ground arith)
                  h.2,
            ))
    ]

AreApart-before :
    (count : ℕ) (first current : HunkRange) (indexes : List ℕ)
    → first.start ≤ first.end
    → first.end + 1 < current.start
    → AreApart count (hunk_ranges count current indexes)
    → AreApart count (first ∷ hunk_ranges count current indexes)
unfolding hunk_ranges
AreApart-before count first current [] p q = λ h. (p, q, h)
AreApart-before count first current (index ∷ indexes) p q =
    elim (Bool-cases (leb (range_around count index).start (current.end + 1))) [
      | inl near ↦
          rw (hunk_ranges-widened count current index indexes near)
            (AreApart-before count first (widened count current index) indexes p q)
      | inr far ↦ rw (hunk_ranges-parted count current index indexes far) (λ h. (p, q, h))
    ]

hunk_ranges-AreApart :
    (count from : ℕ) (current : HunkRange) (indexes : List ℕ)
    → current.start ≤ current.end
    → current.end < count
    → AreRising count from indexes
    → AreApart count (hunk_ranges count current indexes)
unfolding hunk_ranges
hunk_ranges-AreApart count from current [] p q h = (p, q)
hunk_ranges-AreApart count from current (index ∷ indexes) p q h =
    elim (Bool-cases (leb (range_around count index).start (current.end + 1))) [
      | inl near ↦ rw (hunk_ranges-widened count current index indexes near) (
          hunk_ranges-AreApart count (suc index) (widened count current index) indexes
            (ground arith) (ground (arith, h.1)) h.2)
      | inr far ↦ rw (hunk_ranges-parted count current index indexes far) (
          AreApart-before count current (range_around count index) indexes p (ground arith) (
            hunk_ranges-AreApart count (suc index) (range_around count index) indexes
              (ground (arith, h.1)) (ground (arith, h.1)) h.2))
    ]

ranges_of-AllShown :
    (count : ℕ) (indexes : List ℕ)
    → AreRising count 0 indexes
    → AllShown (ranges_of count indexes) indexes × AreApart count (ranges_of count indexes)
unfolding ranges_of
ranges_of-AllShown count [] h = (tt, tt)
ranges_of-AllShown count (index ∷ indexes) h =
    let first = range_around count index in
    (
      (
        is_shown-current count first indexes index (ground arith) (ground (arith, h.1)),
        hunk_ranges-shows count (suc index) first indexes (ground arith) h.2,
      ),
      hunk_ranges-AreApart count (suc index) first indexes (ground (arith, h.1))
          (ground (arith, h.1)) h.2,
    )

abbrev pub shown_ranges : List LineDiffOp → List HunkRange
shown_ranges ops = ranges_of (length ops) (change_indexes 0 ops)

-- The lines that are not in both texts.
abbrev pub differs : Kind → Bool
differs unchanged = false
differs removed = true
differs added = true

-- Each line from `index` on that is not in both texts stands in one of the ranges.
abbrev pub ShowsChanges : List HunkRange → ℕ → List LineDiffOp → Type 0
ShowsChanges ranges index [] = Unit
ShowsChanges ranges index (op ∷ ops) =
    ((not (differs op.kind) || is_shown ranges index) ≡ true) × ShowsChanges ranges (suc index) ops

AllShown-first :
    (ranges : List HunkRange) (index : ℕ) (rest : List ℕ) (Rest : Type 0) (kind : Kind)
    → AllShown ranges (if is_change kind then index ∷ rest else rest)
    → (AllShown ranges rest → Rest)
    → ((not (differs kind) || is_shown ranges index) ≡ true) × Rest
AllShown-first ranges index rest Rest unchanged p follows = (refl, follows p)
AllShown-first ranges index rest Rest removed p follows = (p.0, follows p.1)
AllShown-first ranges index rest Rest added p follows = (p.0, follows p.1)

AllShown-ShowsChanges :
    (ranges : List HunkRange) (index : ℕ) (ops : List LineDiffOp)
    → AllShown ranges (change_indexes index ops)
    → ShowsChanges ranges index ops
unfolding change_indexes
AllShown-ShowsChanges ranges index [] h = tt
AllShown-ShowsChanges ranges index (op ∷ ops) h =
    AllShown-first ranges index (change_indexes (suc index) ops)
      (ShowsChanges ranges (suc index) ops) op.kind h
      (λ p. AllShown-ShowsChanges ranges (suc index) ops p)

pub shown_ranges-AllShown :
    (ops : List LineDiffOp)
    → AllShown (shown_ranges ops) (change_indexes 0 ops) × AreApart (length ops) (shown_ranges ops)
shown_ranges-AllShown ops =
    ranges_of-AllShown (length ops) (change_indexes 0 ops)
      (change_indexes-AreRising (length ops) 0 ops (omega arith))

-- The line at every position at which a diff removes or adds a line stands in one of the ranges that
-- `compactLineDiff` shows, and these ranges lie within the list and have a line between any two of
-- them.
pub ranges_of-shows :
    (ops : List LineDiffOp)
    → ShowsChanges (shown_ranges ops) 0 ops × AreApart (length ops) (shown_ranges ops)
ranges_of-shows ops =
    let (shown, apart) = shown_ranges-AllShown ops in
    (AllShown-ShowsChanges (shown_ranges ops) 0 ops shown, apart)
