-- ===== src/Examples/Diffs.antt =====
-- Runs of the diff of internal/analyzer/patch_plan.go.
use k8s_recommendation_engin.Prelude.{
  ◌≤◌, ◌≡◌, ◌↔◌, refl, inl, inr, List, [], ◌∷◌, String, length, count_by,
}
use k8s_recommendation_engin.Diff.{line_diff_ops, compact_line_diff}
use k8s_recommendation_engin.Diff.Longest.{is_kept, line_diff_ops-longest}
use k8s_recommendation_engin.Diff.Replay.{
  before, after, line_diff_ops-replay, compact_line_diff-empty,
}
use k8s_recommendation_engin.Diff.Hunks.{ShowsChanges, AreApart, shown_ranges, ranges_of-shows}

abbrev old_lines : List String
old_lines = "spec:" ∷ "replicas: 3" ∷ "paused: false" ∷ []

abbrev new_lines : List String
new_lines = "spec:" ∷ "replicas: 2" ∷ "paused: false" ∷ []

line_diff_ops-replay_example :
    (before (line_diff_ops old_lines new_lines) ≡ old_lines)
    × (after (line_diff_ops old_lines new_lines) ≡ new_lines)
line_diff_ops-replay_example = line_diff_ops-replay old_lines new_lines

line_diff_ops-longest_example : 2 ≤ count_by is_kept (line_diff_ops old_lines new_lines)
line_diff_ops-longest_example =
    line_diff_ops-longest old_lines new_lines ("spec:" ∷ "paused: false" ∷ [])
      (inl (refl, inr (inl (refl, tt)))) (inl (refl, inr (inl (refl, tt))))

ranges_of-shows_example :
    ShowsChanges
      (shown_ranges (line_diff_ops old_lines new_lines))
      0
      (line_diff_ops old_lines new_lines)
    × AreApart
        (length (line_diff_ops old_lines new_lines))
        (shown_ranges (line_diff_ops old_lines new_lines))
ranges_of-shows_example = ranges_of-shows (line_diff_ops old_lines new_lines)

compact_line_diff-empty_example :
    (compact_line_diff old_lines new_lines ≡ []) ↔ (old_lines ≡ new_lines)
compact_line_diff-empty_example = compact_line_diff-empty old_lines new_lines
