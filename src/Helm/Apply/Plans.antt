-- ===== src/Helm/Apply/Plans.antt =====
-- The changes of all the plans of a Helm values file.
use mathlib.Core.Path.{subst}
use k8s_recommendation_engin.Prelude.{
  ◌≡◌, refl, sym, ◌∙◌, ap, inl, inr, arith, Bool, true, false, ◌&&◌, ◌||◌, Option, none, some, List,
  [], ◌∷◌, ◌++◌, String, str_eq, eq_iff, if◌then◌else◌, Bool-cases, All, All-append, any_by,
}
use k8s_recommendation_engin.Report.{PatchChange, PatchPlan}
use k8s_recommendation_engin.Manifest.{Node}
use k8s_recommendation_engin.Helm.{HelmFault, reads, helm_scalar_at}
use k8s_recommendation_engin.Helm.Paths.{
  helm_paths_overlap, equal_helm_path, equal_helm_path_refl, equal_helm_path-eq,
}
use k8s_recommendation_engin.Helm.Apply.{
  file_changes, apply_changes, before_change, insert_change, sort_changes, first_refused,
  plan_changes, same_change, Scan, fresh, duplicate, clash, scan, Merge, merge_of, merge_fault,
  merge_scanned, merge_loop, merge_unless, merged_helm_patch_changes,
}
use k8s_recommendation_engin.Helm.Apply.Merged.{ArePathsApart, apply_changes-reads}

-- One of the changes has the same path, field, current and recommended text.
abbrev pub is_covered : List PatchChange → PatchChange → Bool
is_covered merged change = any_by (λ existing. same_change existing change) merged

scan-fresh :
    (merged : List PatchChange) (change : PatchChange)
    → scan merged change ≡ fresh
    → All (λ existing. helm_paths_overlap existing.source_path change.source_path ≡ false) merged
unfolding scan
scan-fresh [] change h = tt
scan-fresh (existing ∷ merged) change h =
    elim (Bool-cases (helm_paths_overlap existing.source_path change.source_path)) [
      | inr apart ↦ (apart, scan-fresh merged change (sym (rw apart refl) ∙ h))
      | inl overlap ↦ elim (Bool-cases (same_change existing change)) [
        | inl same ↦ absurd (ground (arith, h, overlap, same))
        | inr differ ↦ absurd (ground (arith, h, overlap, differ))
      ]
    ]

scan-duplicate :
    (merged : List PatchChange) (change : PatchChange)
    → scan merged change ≡ duplicate
    → is_covered merged change ≡ true
unfolding scan
scan-duplicate [] change h = absurd (ground arith)
scan-duplicate (existing ∷ merged) change h = elim (Bool-cases (same_change existing change)) [
  | inl same ↦ rw same refl
  | inr differ ↦ elim (Bool-cases (helm_paths_overlap existing.source_path change.source_path)) [
    | inl overlap ↦ absurd (ground (arith, h, overlap, differ))
    | inr apart ↦ rw (differ, scan-duplicate merged change (sym (rw apart refl) ∙ h)) refl
  ]
]

ArePathsApart-append :
    (merged : List PatchChange) (change : PatchChange)
    → ArePathsApart merged
    → All (λ existing. helm_paths_overlap existing.source_path change.source_path ≡ false) merged
    → ArePathsApart (merged ++ change ∷ [])
ArePathsApart-append [] change apart h = (tt, tt)
ArePathsApart-append (existing ∷ merged) change apart h = (
  All-append (λ other. helm_paths_overlap existing.source_path other.source_path ≡ false) merged
      (change ∷ []) apart.0 (h.0, tt),
  ArePathsApart-append merged change apart.1 h.1,
)

any_by-append :
    (p : PatchChange → Bool) (xs ys : List PatchChange)
    → any_by p (xs ++ ys) ≡ (any_by p xs || any_by p ys)
any_by-append p [] ys = refl
any_by-append p (x ∷ xs) ys = elim (Bool-cases (p x)) [
  | inl hit ↦ rw hit refl
  | inr miss ↦ rw miss (any_by-append p xs ys)
]

same_change_refl : (change : PatchChange) → same_change change change ≡ true
same_change_refl change =
    rw
      (
        equal_helm_path_refl change.source_path,
        itself change.field,
        itself change.current,
        itself change.recommended,
      )
      refl
  where
    itself : (s : String) → str_eq s s ≡ true
    itself s = (eq_iff s s).1 refl

-- The merged changes avoid each other's paths, and each change that was read is one of them.
abbrev IsMerged : List PatchChange → List PatchChange → List PatchChange → Type 0
IsMerged changes merged result =
    ArePathsApart result
    × All (λ change. is_covered result change ≡ true) changes
    × ((p : PatchChange → Bool) → any_by p merged ≡ true → any_by p result ≡ true)

merge_of-injective : (a b : List PatchChange) → merge_of a ≡ merge_of b → a ≡ b
merge_of-injective a b h = ap list_of h
  where
    list_of : Merge → List PatchChange
    list_of (merge_of merged) = merged
    list_of (merge_fault f) = a

or_true : (b c : Bool) → c ≡ true → (b || (c || false)) ≡ true
or_true true c h = refl
or_true false c h = rw h refl

or_left : (b c : Bool) → b ≡ true → (b || c) ≡ true
or_left b c h = rw h refl

merge_scanned-IsMerged :
    (changes : List PatchChange) (change : PatchChange) (merged result : List PatchChange)
    (s : Scan)
    → ((before : List PatchChange)
        → ArePathsApart before
        → merge_loop changes before ≡ merge_of result
        → IsMerged changes before result)
    → ArePathsApart merged
    → scan merged change ≡ s
    → merge_scanned merged change (merge_loop changes) s ≡ merge_of result
    → IsMerged (change ∷ changes) merged result
merge_scanned-IsMerged changes change merged result (clash f) rest apart e h = absurd (ground arith)
merge_scanned-IsMerged changes change merged result duplicate rest apart e h =
    let (result_apart, covered, kept) = rest merged apart h in
    (
      result_apart,
      (kept (λ existing. same_change existing change) (scan-duplicate merged change e), covered),
      kept,
    )
merge_scanned-IsMerged changes change merged result fresh rest apart e h =
    let (result_apart, covered, kept) =
      rest (merged ++ change ∷ [])
        (ArePathsApart-append merged change apart (scan-fresh merged change e)) h in
    (
      result_apart,
      (
        kept (λ existing. same_change existing change)
            (any_by-append (λ existing. same_change existing change) merged (change ∷ [])
              ∙ or_true (is_covered merged change) (same_change change change)
                  (same_change_refl change)),
        covered,
      ),
      λ p hit. kept p (
          any_by-append p merged (change ∷ [])
          ∙ or_left (any_by p merged) (any_by p (change ∷ [])) hit),
    )

merge_loop-IsMerged :
    (changes merged result : List PatchChange)
    → ArePathsApart merged
    → merge_loop changes merged ≡ merge_of result
    → IsMerged changes merged result
unfolding merge_loop
merge_loop-IsMerged [] merged result apart h =
    let same = merge_of-injective merged result h in
    (subst ArePathsApart same apart, tt, λ p hit. ap (any_by p) (sym same) ∙ hit)
merge_loop-IsMerged (change ∷ changes) merged result apart h =
    merge_scanned-IsMerged changes change merged result (scan merged change)
      (λ before. merge_loop-IsMerged changes before result) apart refl h

-- What holds of the sorted changes holds of the changes.
All-insert_change :
    (P : PatchChange → Type 0) (change : PatchChange) (changes : List PatchChange)
    → All P (insert_change change changes)
    → P change × All P changes
unfolding insert_change
All-insert_change P change [] h = (h.0, tt)
All-insert_change P change (other ∷ others) h = elim (Bool-cases (before_change other change)) [
  | inl before ↦
      let (first, rest) : All P (other ∷ insert_change change others) =
        subst (placed (other ∷ insert_change change others) (change ∷ (other ∷ others))) before h in
      let (here, later) = All-insert_change P change others rest in (here, (first, later))
  | inr after ↦
      subst (placed (other ∷ insert_change change others) (change ∷ (other ∷ others))) after h
]
  where
    placed : List PatchChange → List PatchChange → Bool → Type 0
    placed left right b = All P (if b then left else right)

All-sort_changes :
    (P : PatchChange → Type 0) (changes : List PatchChange)
    → All P (sort_changes changes)
    → All P changes
unfolding sort_changes
All-sort_changes P [] h = tt
All-sort_changes P (change ∷ changes) h =
    let (here, rest) = All-insert_change P change (sort_changes changes) h in
    (here, All-sort_changes P changes rest)

merge_unless-merge_of :
    (refused : Option HelmFault) (m : Merge) (result : List PatchChange)
    → merge_unless refused m ≡ merge_of result
    → m ≡ merge_of result
merge_unless-merge_of none m result h = h
merge_unless-merge_of (some f) m result h = absurd (ground arith)

-- When the changes of the plans are merged, no path of the result begins with another of them, and
-- every change of the plans is in it, with its path, field, current and recommended text.
pub merged_helm_patch_changes-covers :
    (plans : List PatchPlan) (merged : List PatchChange)
    → merged_helm_patch_changes plans ≡ merge_of merged
    → ArePathsApart merged × All (λ change. is_covered merged change ≡ true) (plan_changes plans)
unfolding merged_helm_patch_changes
merged_helm_patch_changes-covers plans merged h =
    let (apart, covered, kept) =
      merge_loop-IsMerged (sort_changes (plan_changes plans)) [] merged tt
        (merge_unless-merge_of (first_refused (plan_changes plans)) _ merged h) in
    (
      apart,
      All-sort_changes (λ change. is_covered merged change ≡ true) (plan_changes plans) covered,
    )

and_parts : (a b : Bool) → (a && b) ≡ true → (a ≡ true) × (b ≡ true)
and_parts true b h = (refl, h)
and_parts false b h = absurd (ground arith)

is_covered-reads :
    (new : Node) (merged : List PatchChange) (change : PatchChange)
    → All (λ existing. helm_scalar_at new existing.source_path ≡ reads existing.recommended) merged
    → is_covered merged change ≡ true
    → helm_scalar_at new change.source_path ≡ reads change.recommended
is_covered-reads new [] change all h = absurd (ground arith)
is_covered-reads new (existing ∷ merged) change all h =
    elim (Bool-cases (same_change existing change)) [
      | inr differ ↦ is_covered-reads new merged change all.1 (sym (rw differ refl) ∙ h)
      | inl same ↦
          let (rest, recommended) =
            and_parts
              (equal_helm_path existing.source_path change.source_path
                && str_eq existing.field change.field
                && str_eq existing.current change.current)
              (str_eq existing.recommended change.recommended) same in
          let (first, currents) =
            and_parts
              (equal_helm_path existing.source_path change.source_path
                && str_eq existing.field change.field)
              (str_eq existing.current change.current) rest in
          let (paths, fields) =
            and_parts (equal_helm_path existing.source_path change.source_path)
              (str_eq existing.field change.field) first in
          ap (helm_scalar_at new)
            (sym (equal_helm_path-eq existing.source_path change.source_path paths))
          ∙ all.0
          ∙ ap reads ((eq_iff existing.recommended change.recommended).0 recommended)
    ]

-- When `buildProposalFile` has merged the changes of the plans of a Helm values file and applied
-- them all, `helmScalarAt` reads, for every change of every plan, the text that it recommends.
pub apply_changes-plan_changes :
    (is_int : String → Bool) (plans : List PatchPlan) (merged made : List PatchChange)
    (doc new : Node)
    → merged_helm_patch_changes plans ≡ merge_of merged
    → apply_changes is_int merged doc ≡ file_changes new made
    → All
        (λ change. helm_scalar_at new change.source_path ≡ reads change.recommended)
        (plan_changes plans)
apply_changes-plan_changes is_int plans merged made doc new h applied =
    let (apart, covered) = merged_helm_patch_changes-covers plans merged h in
    let (all, others) = apply_changes-reads is_int merged doc new made apart applied in
    covered_reads (plan_changes plans) covered all
  where
    covered_reads :
        (changes : List PatchChange)
        → All (λ change. is_covered merged change ≡ true) changes
        → All (λ change. helm_scalar_at new change.source_path ≡ reads change.recommended) merged
        → All (λ change. helm_scalar_at new change.source_path ≡ reads change.recommended) changes
    covered_reads [] c a = tt
    covered_reads (change ∷ changes) c a =
        (is_covered-reads new merged change a c.0, covered_reads changes c.1 a)
