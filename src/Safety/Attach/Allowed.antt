-- ===== src/Safety/Attach/Allowed.antt =====
-- Which recommendations the safety policy lets through.
use k8s_recommendation_engin.Prelude.{
  ◌≡◌, refl, ap, ◌∙◌, inl, inr, arith, Bool, true, false, not, ◌&&◌, ◌||◌, Option, none, some, List,
  Bool-cases, is_some,
}
use k8s_recommendation_engin.Report.{
  Risk, SafetyAssessment, Recommendation, WorkloadReport, SignalReport,
}
use k8s_recommendation_engin.Quantity.{Quantities}
use k8s_recommendation_engin.Profile.{PolicySpec}
use k8s_recommendation_engin.Budget.{recommendation_has_change}
use k8s_recommendation_engin.Safety.{Floats}
use k8s_recommendation_engin.Safety.Assess.{classify_recommendation_safety}
use k8s_recommendation_engin.Safety.Attach.{
  risk_list_contains, allowed_risks, max_decrease_risk, safety_factor_by_name, exceeding,
  judge_allowed, judge_decrease, judged, availability_recovery_change, apply_safety_policy,
  block_unsafe, with_recovery, settle_blocks, attach_safety,
}

-- The policy allows the risk, and the decrease does not exceed the limit, or an increase recovers
-- availability.
abbrev pub is_let_through : {F Q : Type 0} → Quantities Q → PolicySpec → Recommendation F → Bool
is_let_through quantities policy r =
    (risk_list_contains (allowed_risks policy) r.safety.classification
      && not (
          is_some (
            exceeding (max_decrease_risk policy.safety.max_decrease_risk)
              (safety_factor_by_name r.safety.factors "resource_decrease_size"))))
    || (policy.availability_recovery.enabled && availability_recovery_change quantities r)

judge_decrease-allowed :
    (limit : Risk) (over : Option Risk) (safety : SafetyAssessment)
    → (judge_decrease limit over safety).auto_commit_allowed
      ≡ (safety.auto_commit_allowed && not (is_some over))
judge_decrease-allowed limit none safety = ground arith
judge_decrease-allowed limit (some risk) safety = ground arith

judge_allowed-allowed :
    (policy : PolicySpec) (safety : SafetyAssessment)
    → (judge_allowed policy safety).auto_commit_allowed
      ≡ risk_list_contains (allowed_risks policy) safety.classification
judge_allowed-allowed policy safety =
    elim (Bool-cases (risk_list_contains (allowed_risks policy) safety.classification)) [
      | inl fine ↦ rw fine refl
      | inr other ↦ rw other refl
    ]

with_recovery-allowed :
    {F : Type 0} (test : Bool) (safety : SafetyAssessment) (r : Recommendation F)
    → (with_recovery test safety r).safety.auto_commit_allowed
      ≡ (safety.auto_commit_allowed || test)
with_recovery-allowed true safety r = ground arith
with_recovery-allowed false safety r = ground arith

with_recovery-keeps :
    {F : Type 0} (test : Bool) (safety : SafetyAssessment) (r : Recommendation F)
    → ((with_recovery test safety r).blocked ≡ r.blocked)
      × (recommendation_has_change (with_recovery test safety r) ≡ recommendation_has_change r)
unfolding recommendation_has_change
with_recovery-keeps true safety r = (refl, refl)
with_recovery-keeps false safety r = (refl, refl)

block_unsafe-blocked :
    {F : Type 0} (r : Recommendation F)
    → (block_unsafe r).blocked ≡ (r.blocked || not r.safety.auto_commit_allowed)
block_unsafe-blocked r = elim (Bool-cases r.safety.auto_commit_allowed) [
  | inl fine ↦ ground (arith, fine)
  | inr unsafe ↦ ground (arith, unsafe)
]

-- After `applySafetyPolicy`, an automatic commit is allowed exactly for the recommendations that
-- the policy lets through.
pub apply_safety_policy-allowed :
    {F Q : Type 0} (quantities : Quantities Q) (policy : PolicySpec) (r : Recommendation F)
    → (apply_safety_policy quantities policy r).safety.auto_commit_allowed
      ≡ is_let_through quantities policy r
unfolding apply_safety_policy
apply_safety_policy-allowed quantities policy r =
    with_recovery-allowed
      (policy.availability_recovery.enabled && availability_recovery_change quantities r)
      (judged policy r.safety) r
    ∙ ap
        (λ b.
          b || (policy.availability_recovery.enabled && availability_recovery_change quantities r))
        (judge_decrease-allowed (max_decrease_risk policy.safety.max_decrease_risk)
            (exceeding (max_decrease_risk policy.safety.max_decrease_risk)
              (safety_factor_by_name r.safety.factors "resource_decrease_size"))
            (judge_allowed policy r.safety)
          ∙ rw (judge_allowed-allowed policy r.safety) refl)

settle_blocks-change :
    {F : Type 0} (r : Recommendation F)
    → recommendation_has_change r ≡ true
    → (settle_blocks r).blocked ≡ (block_unsafe r).blocked
unfolding settle_blocks
settle_blocks-change r change = rw change refl

-- After the loop's body, a recommendation that changes something is blocked when it was blocked or
-- the policy does not let it through, and only then.
pub attach_safety-blocked :
    {F Q : Type 0} (floats : Floats F) (quantities : Quantities Q) (policy : PolicySpec)
    (shared_signals : List (SignalReport F)) (workload : WorkloadReport F)
    → recommendation_has_change workload.recommendation ≡ true
    → (attach_safety floats quantities policy shared_signals workload).recommendation.blocked ≡ (
        workload.recommendation.blocked
        || not (
            is_let_through quantities policy (record workload.recommendation {
              safety = classify_recommendation_safety floats workload shared_signals;
            })))
unfolding attach_safety apply_safety_policy
attach_safety-blocked {F} floats quantities policy shared_signals workload change =
    let classified : Recommendation F = record workload.recommendation {
      safety = classify_recommendation_safety floats workload shared_signals;
    } in
    let (blocked, same) =
      with_recovery-keeps
        (policy.availability_recovery.enabled && availability_recovery_change quantities classified)
        (judged policy classified.safety) classified in
    settle_blocks-change (apply_safety_policy quantities policy classified) (same ∙ change)
    ∙ block_unsafe-blocked (apply_safety_policy quantities policy classified)
    ∙ rw (blocked, apply_safety_policy-allowed quantities policy classified) refl
