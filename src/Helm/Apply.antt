-- ===== src/Helm/Apply.antt =====
-- internal/analyzer/proposal.go: the changes of Helm values, merged and applied to the source.
pub mod Merged
pub mod Plans
use Prim.Native.Nat.{Ordering}
use Prim.Native.String.{compare}
use k8s_recommendation_engin.Prelude.{
  Bool, true, false, not, ◌&&◌, ◌||◌, Option, none, some, List, [], ◌∷◌, ◌++◌, String, str_eq,
  ends_with, if◌then◌else◌, is_empty,
}
use k8s_recommendation_engin.Report.{PatchChange, PatchPlan}
use k8s_recommendation_engin.Manifest.{Node}
use k8s_recommendation_engin.Helm.{
  HelmFault, value_changed, unsupported_field, no_source_path, unsupported_operation, paths_overlap,
  no_value, Reading, reads, reads_none, refused, helm_scalar_at, Edited, edited, rejected,
  set_helm_scalar_at,
}
use k8s_recommendation_engin.Helm.Paths.{
  helm_paths_overlap, compare_helm_paths, is_less, equal_helm_path,
}

-- helmPatchStringValue; `none` is the error.
abbrev pub helm_patch_string_value : String → Option Bool
helm_patch_string_value field =
    if str_eq field "spec.replicas"
    then some false
    else if ends_with field ".resources.requests.cpu"
        || ends_with field ".resources.requests.memory"
    then some true
    else none

-- The results `(changed, nil)`, with the document, and `(false, err)`.
pub data Applied : Type 0 where
  applied : Bool → Node → Applied
  failed : HelmFault → Applied

abbrev pub applied_of : Edited → Applied
applied_of (edited new) = applied true new
applied_of (rejected f) = failed f

abbrev pub set_of : (String → Bool) → Node → PatchChange → Option Bool → Applied
set_of is_int doc change none = failed (unsupported_field change.field)
set_of is_int doc change (some string_value) =
    applied_of (set_helm_scalar_at is_int doc change.source_path change.recommended string_value)

abbrev pub apply_read : (String → Bool) → Node → PatchChange → Reading → Applied
apply_read is_int doc change (refused f) = failed f
apply_read is_int doc change reads_none = failed no_value
apply_read is_int doc change (reads current) =
    if not (str_eq current change.current)
    then failed (value_changed change.current current)
    else if str_eq current change.recommended
    then applied false doc
    else set_of is_int doc change (helm_patch_string_value change.field)

-- applyHelmPatchChange
unfoldable pub apply_helm_patch_change : (String → Bool) → Node → PatchChange → Applied
unfolding helm_scalar_at set_helm_scalar_at
apply_helm_patch_change is_int doc change =
    apply_read is_int doc change (helm_scalar_at doc change.source_path)

-- The loop of buildProposalFile over the merged changes: the document, and the changes that were
-- made, in order.
pub data FileChanges : Type 0 where
  file_changes : Node → List PatchChange → FileChanges
  file_fault : HelmFault → FileChanges

abbrev pub with_made : Bool → PatchChange → FileChanges → FileChanges
with_made changed change (file_changes doc made) =
    file_changes doc (if changed then change ∷ made else made)
with_made changed change (file_fault f) = file_fault f

abbrev pub continue_with : PatchChange → (Node → FileChanges) → Applied → FileChanges
continue_with change rest (applied changed doc) = with_made changed change (rest doc)
continue_with change rest (failed f) = file_fault f

unfoldable pub apply_changes : (String → Bool) → List PatchChange → Node → FileChanges
unfolding apply_helm_patch_change
apply_changes is_int [] doc = file_changes doc []
apply_changes is_int (change ∷ changes) doc =
    continue_with change (apply_changes is_int changes) (apply_helm_patch_change is_int doc change)

-- The order of mergedHelmPatchChanges: by path, then by field.
abbrev pub before_change : PatchChange → PatchChange → Bool
before_change left right = elim (compare_helm_paths left.source_path right.source_path) [
  | Ordering.lt ↦ true
  | Ordering.gt ↦ false
  | Ordering.eq ↦ is_less (compare left.field right.field)
]

-- sort.SliceStable, by insertion: a change goes before the first that does not come before it.
unfoldable pub insert_change : PatchChange → List PatchChange → List PatchChange
insert_change change [] = change ∷ []
insert_change change (other ∷ others) =
    let rest = insert_change change others in
    if before_change other change then other ∷ rest else change ∷ (other ∷ others)

unfoldable pub sort_changes : List PatchChange → List PatchChange
unfolding insert_change
sort_changes [] = []
sort_changes (change ∷ changes) = insert_change change (sort_changes changes)

-- The checks of the first loop.
abbrev pub refused_change : PatchChange → Option HelmFault
refused_change change =
    if is_empty change.source_path
    then some (no_source_path change.field)
    else if not (str_eq change.operation "replace")
    then some (unsupported_operation change.field change.operation)
    else elim (helm_patch_string_value change.field) [
      | none ↦ some (unsupported_field change.field)
      | some string_value ↦ none
    ]

abbrev first_of : Option HelmFault → Option HelmFault → Option HelmFault
first_of none later = later
first_of (some f) later = some f

unfoldable pub first_refused : List PatchChange → Option HelmFault
first_refused [] = none
first_refused (change ∷ changes) = first_of (refused_change change) (first_refused changes)

abbrev pub plan_changes : List PatchPlan → List PatchChange
plan_changes [] = []
plan_changes (plan ∷ plans) = plan.changes ++ plan_changes plans

abbrev pub same_change : PatchChange → PatchChange → Bool
same_change existing change =
    equal_helm_path existing.source_path change.source_path
    && str_eq existing.field change.field
    && str_eq existing.current change.current
    && str_eq existing.recommended change.recommended

-- What the inner loop makes of a change, given the changes merged before it.
pub data Scan : Type 0 where
  fresh : Scan
  duplicate : Scan
  clash : HelmFault → Scan

unfoldable pub scan : List PatchChange → PatchChange → Scan
unfolding helm_paths_overlap
scan [] change = fresh
scan (existing ∷ merged) change =
    let rest = scan merged change in
    if not (helm_paths_overlap existing.source_path change.source_path)
    then rest
    else if same_change existing change
    then duplicate
    else clash (paths_overlap existing.source_path change.source_path)

pub data Merge : Type 0 where
  merge_of : List PatchChange → Merge
  merge_fault : HelmFault → Merge

abbrev pub merge_scanned :
    List PatchChange → PatchChange → (List PatchChange → Merge) → Scan → Merge
merge_scanned merged change rest fresh = rest (merged ++ change ∷ [])
merge_scanned merged change rest duplicate = rest merged
merge_scanned merged change rest (clash f) = merge_fault f

unfoldable pub merge_loop : List PatchChange → List PatchChange → Merge
unfolding scan
merge_loop [] merged = merge_of merged
merge_loop (change ∷ changes) merged =
    merge_scanned merged change (merge_loop changes) (scan merged change)

abbrev pub merge_unless : Option HelmFault → Merge → Merge
merge_unless none result = result
merge_unless (some f) result = merge_fault f

-- mergedHelmPatchChanges
unfoldable pub merged_helm_patch_changes : List PatchPlan → Merge
unfolding first_refused sort_changes merge_loop
merged_helm_patch_changes plans =
    merge_unless (first_refused (plan_changes plans))
      (merge_loop (sort_changes (plan_changes plans)) [])
