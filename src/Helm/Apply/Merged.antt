-- ===== src/Helm/Apply/Merged.antt =====
-- The merged changes of the plans, applied one after the other.
use mathlib.Core.Path.{subst}
use k8s_recommendation_engin.Prelude.{
  ◌≡◌, refl, sym, ◌∙◌, ap, inl, inr, arith, Bool, true, false, Option, none, some, List, [], ◌∷◌,
  String, str_eq, eq_iff, Bool-cases, All,
}
use k8s_recommendation_engin.Report.{PatchChange}
use k8s_recommendation_engin.Manifest.{Node}
use k8s_recommendation_engin.Helm.{Reading, reads, reads_none, refused, helm_scalar_at}
use k8s_recommendation_engin.Helm.Edit.{set_helm_scalar_at-sets}
use k8s_recommendation_engin.Helm.Paths.{helm_paths_overlap, helm_paths_overlap_comm}
use k8s_recommendation_engin.Helm.Apply.{
  helm_patch_string_value, Applied, applied, failed, applied_of, set_of, apply_read,
  apply_helm_patch_change, FileChanges, file_changes, file_fault, with_made, continue_with,
  apply_changes,
}

-- No change of the list has a path of which one begins with the other.
abbrev pub AvoidAll : List String → List PatchChange → Type 0
AvoidAll path changes = All (λ change. helm_paths_overlap change.source_path path ≡ false) changes

abbrev pub ArePathsApart : List PatchChange → Type 0
ArePathsApart [] = Unit
ArePathsApart (change ∷ changes) =
    All (λ other. helm_paths_overlap change.source_path other.source_path ≡ false) changes
    × ArePathsApart changes

-- What one change does: the path reads the new text, the others what they did.
abbrev IsMade : PatchChange → Node → Node → Type 0
IsMade change doc new =
    (helm_scalar_at new change.source_path ≡ reads change.recommended)
    × ((other : List String)
        → helm_paths_overlap change.source_path other ≡ false
        → helm_scalar_at new other ≡ helm_scalar_at doc other)

abbrev node_or : Node → Applied → Node
node_or other (applied changed doc) = doc
node_or other (failed f) = other

applied-injective : (a b : Bool) (m n : Node) → applied a m ≡ applied b n → m ≡ n
applied-injective a b m n h = ap (node_or m) h

set_of-reads :
    (is_int : String → Bool) (doc : Node) (change : PatchChange) (current : String)
    (string_value : Option Bool) (changed : Bool) (new : Node)
    → helm_scalar_at doc change.source_path ≡ reads current
    → set_of is_int doc change string_value ≡ applied changed new
    → IsMade change doc new
set_of-reads is_int doc change current none changed new before h = absurd (ground arith)
set_of-reads is_int doc change current (some string_value) changed new before h =
    let (made, set, after, frame) =
      set_helm_scalar_at-sets is_int doc change.source_path current change.recommended string_value
        before in
    subst (IsMade change doc)
      (applied-injective true changed made new (ap applied_of (sym set) ∙ h)) (after, frame)

apply_read-IsMade :
    (is_int : String → Bool) (doc : Node) (change : PatchChange) (reading : Reading)
    (changed : Bool) (new : Node)
    → helm_scalar_at doc change.source_path ≡ reading
    → apply_read is_int doc change reading ≡ applied changed new
    → IsMade change doc new
apply_read-IsMade is_int doc change reads_none changed new before h = absurd (ground arith)
apply_read-IsMade is_int doc change (refused f) changed new before h = absurd (ground arith)
apply_read-IsMade is_int doc change (reads current) changed new before h =
    elim (Bool-cases (str_eq current change.current)) [
      | inr stale ↦ absurd (ground (arith, h, stale))
      | inl expected ↦ elim (Bool-cases (str_eq current change.recommended)) [
        | inl done ↦
            subst (IsMade change doc)
              (applied-injective false changed doc new (sym (rw (expected, done) refl) ∙ h))
              (before ∙ ap reads ((eq_iff current change.recommended).0 done), λ other apart. refl)
        | inr due ↦
            set_of-reads is_int doc change current (helm_patch_string_value change.field) changed
              new before (sym (rw (expected, due) refl) ∙ h)
      ]
    ]

apply_helm_patch_change-IsMade :
    (is_int : String → Bool) (doc : Node) (change : PatchChange) (changed : Bool) (new : Node)
    → apply_helm_patch_change is_int doc change ≡ applied changed new
    → IsMade change doc new
unfolding apply_helm_patch_change
apply_helm_patch_change-IsMade is_int doc change changed new h =
    apply_read-IsMade is_int doc change (helm_scalar_at doc change.source_path) changed new refl h

abbrev document_or : Node → FileChanges → Node
document_or other (file_changes doc made) = doc
document_or other (file_fault f) = other

continue_with-file_changes :
    (change : PatchChange) (rest : Node → FileChanges) (first : Applied) (new : Node)
    (made : List PatchChange)
    → continue_with change rest first ≡ file_changes new made
    → (changed : Bool) × (doc : Node) × (later : List PatchChange) × (first ≡ applied changed doc)
      × (rest doc ≡ file_changes new later)
continue_with-file_changes change rest (failed f) new made h = absurd (ground arith)
continue_with-file_changes change rest (applied changed doc) new made h =
    let (later, e) = rest_of (rest doc) h in (changed, doc, later, refl, e)
  where
    rest_of :
        (r : FileChanges)
        → with_made changed change r ≡ file_changes new made
        → (later : List PatchChange) × (r ≡ file_changes new later)
    rest_of (file_fault f) e = absurd (ground arith)
    rest_of (file_changes d later) e =
        (later, ap (λ n. file_changes n later) (ap (document_or d) e))

All-AvoidAll :
    (path : List String) (changes : List PatchChange)
    → All (λ other. helm_paths_overlap path other.source_path ≡ false) changes
    → AvoidAll path changes
All-AvoidAll path [] h = tt
All-AvoidAll path (change ∷ changes) h =
    (helm_paths_overlap_comm change.source_path path ∙ h.0, All-AvoidAll path changes h.1)

-- When changes whose paths do not overlap have all been applied, each of their paths reads the text
-- that its change recommends, and a path that overlaps none of them reads what it did.
pub apply_changes-reads :
    (is_int : String → Bool) (changes : List PatchChange) (doc new : Node) (made : List PatchChange)
    → ArePathsApart changes
    → apply_changes is_int changes doc ≡ file_changes new made
    → All (λ change. helm_scalar_at new change.source_path ≡ reads change.recommended) changes
      × ((other : List String)
          → AvoidAll other changes
          → helm_scalar_at new other ≡ helm_scalar_at doc other)
unfolding apply_changes
apply_changes-reads is_int [] doc new made apart h =
    (tt, λ other avoid. ap (λ d. helm_scalar_at d other) (sym (ap (document_or new) h)))
apply_changes-reads is_int (change ∷ changes) doc new made apart h =
    let (changed, next, later, first, rest) =
      continue_with-file_changes change (apply_changes is_int changes)
        (apply_helm_patch_change is_int doc change) new made h in
    let (here, frame) = apply_helm_patch_change-IsMade is_int doc change changed next first in
    let (all, others) = apply_changes-reads is_int changes next new later apart.1 rest in
    (
      (others change.source_path (All-AvoidAll change.source_path changes apart.0) ∙ here, all),
      λ other avoid. others other avoid.1 ∙ frame other avoid.0,
    )
