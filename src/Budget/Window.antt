-- ===== src/Budget/Window.antt =====
-- internal/state/proposal_budget.go: the times that the batch window is measured by.
use k8s_recommendation_engin.Prelude.{
  ℕ, ◌+◌, ◌≤◌, ◌<◌, ◌≡◌, refl, sym, ◌∙◌, arith, String, Bool, true, false, Option, none, some, List,
  [], ◌∷◌, str_eq, eq_iff, ltb, ltb-false→le, if◌then◌else◌, find_by, Bool-cases, inl, inr,
}
use k8s_recommendation_engin.Stamp.{format_nano, parse_stamp}
use k8s_recommendation_engin.Stamp.RoundTrip.{parse_stamp-format_nano}
use k8s_recommendation_engin.Report.{PatchPlan, patch_plan_applyable, SignalReport, WorkloadReport}
use k8s_recommendation_engin.Profile.{PolicySpec}
use k8s_recommendation_engin.Budget.{WorkloadKey, same_key, BatchItem}
use k8s_recommendation_engin.Budget.Increase.{Numerics}
use k8s_recommendation_engin.Budget.Batch.{
  item_of, update_item, since_when, rewrite_row, upsert_row, upsert_proposal_batch_item,
  window_plan, Texts, bypasses, after_upsert, batch_plan,
}

abbrev pub row_of : WorkloadKey → List BatchItem → Option BatchItem
row_of key items = find_by (λ item. same_key key item.key) items

-- A plan seen for a workload at a time.
pub record Sighting (F : Type 0) : Type 0 where
  pub workload : WorkloadReport F
  pub plan : PatchPlan
  pub generated_at : ℕ

-- The time of the first of the latest sightings that have the same text, the newest sighting first.
unfoldable pub streak_start :
    {F : Type 0} → (PatchPlan → String) → Sighting F → List (Sighting F) → ℕ
streak_start encode newest [] = newest.generated_at
streak_start encode newest (before ∷ earlier) =
    let start = streak_start encode before earlier in
    if str_eq (encode before.plan) (encode newest.plan) then start else newest.generated_at

-- The table after the sightings, the newest first; `none` is an error.
abbrev upsert_after :
    {F : Type 0}
    → (PatchPlan → String)
    → WorkloadKey
    → Sighting F
    → Option (ℕ × List BatchItem)
    → Option (ℕ × List BatchItem)
upsert_after encode key newest none = none
upsert_after encode key newest (some (first_seen, rows)) =
    upsert_proposal_batch_item key newest.workload newest.plan (encode newest.plan)
      newest.generated_at rows

unfoldable pub table_after :
    {F : Type 0}
    → (PatchPlan → String)
    → WorkloadKey
    → List BatchItem
    → Sighting F
    → List (Sighting F)
    → Option (ℕ × List BatchItem)
table_after encode key items newest [] =
    upsert_proposal_batch_item key newest.workload newest.plan (encode newest.plan)
      newest.generated_at items
table_after encode key items newest (before ∷ earlier) =
    upsert_after encode key newest (table_after encode key items before earlier)

same_key_refl : (key : WorkloadKey) → same_key key key ≡ true
same_key_refl key = rw (itself key.application, itself key.namespace, itself key.workload) refl
  where
    itself : (s : String) → str_eq s s ≡ true
    itself s = (eq_iff s s).1 refl

row_of-update_item :
    (key : WorkloadKey) (new item : BatchItem) (items : List BatchItem)
    → same_key key new.key ≡ true
    → row_of key items ≡ some item
    → row_of key (update_item key new items) ≡ some new
row_of-update_item key new item [] own found = absurd (ground arith)
row_of-update_item key new item (row ∷ rows) own found = elim (Bool-cases (same_key key row.key)) [
  | inl hit ↦ rw (hit, own) refl
  | inr miss ↦
      rw (miss, miss) (row_of-update_item key new item rows own (sym (row_of-miss miss) ∙ found))
]
  where
    row_of-miss : same_key key row.key ≡ false → row_of key (row ∷ rows) ≡ row_of key rows
    row_of-miss miss = rw miss refl

-- A row that says since when the text has been the same.
abbrev pub IsRow : WorkloadKey → String → ℕ → Option (ℕ × List BatchItem) → Type 0
IsRow key encoded start result =
    (rows : List BatchItem) × (item : BatchItem) × (result ≡ some (start, rows))
    × (row_of key rows ≡ some item)
    × (item.plan_json ≡ encoded)
    × (item.first_seen_at ≡ format_nano start)

upsert-first :
    {F : Type 0} (key : WorkloadKey) (workload : WorkloadReport F) (plan : PatchPlan)
    (encoded : String) (generated_at : ℕ) (items : List BatchItem)
    → row_of key items ≡ none
    → IsRow key encoded generated_at
        (upsert_proposal_batch_item key workload plan encoded generated_at items)
unfolding upsert_proposal_batch_item upsert_row
upsert-first key workload plan encoded generated_at items absent = (
  item_of key workload plan encoded generated_at generated_at ∷ items,
  item_of key workload plan encoded generated_at generated_at,
  rw absent refl,
  rw (same_key_refl key) refl,
  refl,
  refl,
)

upsert-again :
    {F : Type 0} (key : WorkloadKey) (workload : WorkloadReport F) (plan : PatchPlan)
    (before encoded : String) (start generated_at : ℕ) (items : List BatchItem) (item : BatchItem)
    → row_of key items ≡ some item
    → item.plan_json ≡ before
    → item.first_seen_at ≡ format_nano start
    → IsRow key encoded
        (if str_eq before encoded then start else generated_at)
        (upsert_proposal_batch_item key workload plan encoded generated_at items)
unfolding upsert_proposal_batch_item upsert_row
upsert-again key workload plan before encoded start generated_at items item found text seen =
    let first_seen = if str_eq before encoded then start else generated_at in
    let new = item_of key workload plan encoded first_seen generated_at in
    (
      update_item key new items,
      new,
      rw (found, seen, parse_stamp-format_nano start, text) refl,
      row_of-update_item key new item items (same_key_refl key) found,
      refl,
      refl,
    )

-- Over any sightings of plans of a workload that has no row yet, `upsertProposalBatchItem` never
-- fails, and the time that it gives and that the workload's row holds is that of the first of the
-- latest sightings with one JSON text, whatever the times of the sightings are.
pub table_after-streak_start :
    {F : Type 0} (encode : PatchPlan → String) (key : WorkloadKey) (items : List BatchItem)
    (newest : Sighting F) (earlier : List (Sighting F))
    → row_of key items ≡ none
    → IsRow key
        (encode newest.plan)
        (streak_start encode newest earlier)
        (table_after encode key items newest earlier)
unfolding table_after streak_start
table_after-streak_start encode key items newest [] absent =
    upsert-first key newest.workload newest.plan (encode newest.plan) newest.generated_at items
      absent
table_after-streak_start encode key items newest (before ∷ earlier) absent =
    let (rows, item, done, found, text, seen) =
      table_after-streak_start encode key items before earlier absent in
    rw done (
      upsert-again key newest.workload newest.plan (encode before.plan) (encode newest.plan)
        (streak_start encode before earlier) newest.generated_at rows item found text seen)

-- The stage succeeded and left an applyable plan.
abbrev pub is_released : Option (PatchPlan × List BatchItem) → Bool
is_released none = false
is_released (some (plan, items)) = patch_plan_applyable (some plan)

module _ {F Q : Type 0} (numerics : Numerics F Q) (texts : Texts) where
  window_plan-released :
      (generated_at window first_seen : ℕ) (plan : PatchPlan)
      → patch_plan_applyable (
          some
            (window_plan texts.show_time texts.show_duration generated_at window first_seen plan))
        ≡ true
      → first_seen + window ≤ generated_at
  unfolding patch_plan_applyable
  window_plan-released generated_at window first_seen plan free =
      elim (Bool-cases (ltb generated_at (first_seen + window))) [
        | inl early ↦ absurd (contradiction (sym (blocked_stays early) ∙ free))
        | inr late ↦ ltb-false→le generated_at (first_seen + window) late
      ]
    where
      blocked_stays :
          ltb generated_at (first_seen + window) ≡ true
          → patch_plan_applyable (
              some (
                window_plan texts.show_time texts.show_duration generated_at window first_seen
                  plan))
            ≡ false
      blocked_stays early = unfold patch_plan_applyable in simp early refl

      contradiction : false ≡ true → ⊥
      contradiction h = ground arith

  since_when-released :
      (key : WorkloadKey) (workload : WorkloadReport F) (plan : PatchPlan) (encoded : String)
      (generated_at window : ℕ) (items : List BatchItem) (stored : Option ℕ) (same : Bool)
      → 0 < window
      → is_released (
          after_upsert numerics texts generated_at window plan (
            rewrite_row key workload plan encoded generated_at items
              (since_when stored same generated_at)))
        ≡ true
      → (first_seen : ℕ) × (stored ≡ some first_seen)
        × (same ≡ true)
        × (first_seen + window ≤ generated_at)
  since_when-released key workload plan encoded generated_at window items none same on free =
      absurd (ground arith)
  since_when-released key workload plan encoded generated_at window items (some t) true on free =
      (t, refl, refl, window_plan-released generated_at window t plan free)
  since_when-released key workload plan encoded generated_at window items (some t) false on free =
      absurd (omega (arith, window_plan-released generated_at window generated_at plan free))

  upsert_row-released :
      (key : WorkloadKey) (workload : WorkloadReport F) (plan : PatchPlan) (encoded : String)
      (generated_at window : ℕ) (items : List BatchItem) (found : Option BatchItem)
      → 0 < window
      → is_released (
          after_upsert numerics texts generated_at window plan
            (upsert_row key workload plan encoded generated_at items found))
        ≡ true
      → (item : BatchItem) × (first_seen : ℕ) × (found ≡ some item)
        × (item.plan_json ≡ encoded)
        × (parse_stamp item.first_seen_at ≡ some first_seen)
        × (first_seen + window ≤ generated_at)
  unfolding upsert_row
  upsert_row-released key workload plan encoded generated_at window items none on free =
      absurd (omega (arith, window_plan-released generated_at window generated_at plan free))
  upsert_row-released key workload plan encoded generated_at window items (some item) on free =
      let (first_seen, stored, same, late) =
        since_when-released key workload plan encoded generated_at window items
          (parse_stamp item.first_seen_at) (str_eq item.plan_json encoded) on free in
      (item, first_seen, refl, (eq_iff item.plan_json encoded).0 same, stored, late)

  -- A plan that the batch stage lets pass although nothing bypasses the window, of more than 0, had a
  -- row with the same JSON text before, and the window has passed since the time in that row.
  pub batch_plan-released :
      (key : WorkloadKey) (policy : PolicySpec) (shared_signals : List (SignalReport F))
      (generated_at window : ℕ) (workload : WorkloadReport F) (plan : PatchPlan)
      (items : List BatchItem)
      → 0 < window
      → bypasses numerics texts policy shared_signals workload plan ≡ none
      → is_released (
          batch_plan numerics texts key policy shared_signals generated_at window workload plan
            items)
        ≡ true
      → (item : BatchItem) × (first_seen : ℕ) × (row_of key items ≡ some item)
        × (item.plan_json ≡ texts.encode plan)
        × (parse_stamp item.first_seen_at ≡ some first_seen)
        × (first_seen + window ≤ generated_at)
  unfolding batch_plan upsert_proposal_batch_item
  batch_plan-released key policy shared_signals generated_at window workload plan items on counted
        free =
      upsert_row-released key workload plan (texts.encode plan) generated_at window items
        (row_of key items) on (sym (rw (counted, batch_plan) refl) ∙ free)
