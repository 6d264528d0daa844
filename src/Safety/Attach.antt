-- ===== src/Safety/Attach.antt =====
-- internal/analyzer/safety.go and internal/analyzer/availability_recovery.go: the policy on safety
-- and the blocks that it puts on a recommendation.
pub mod Allowed
use Prim.Native.Nat.{Ordering}
use k8s_recommendation_engin.Prelude.{
  ℕ, Bool, true, false, not, ◌&&◌, ◌||◌, Option, none, some, List, [], ◌∷◌, ◌++◌, map, String,
  str_eq, ltb, if◌then◌else◌, is_empty, ◌<>◌, contains_text, contains, starts_with, any_by, keep,
  find_by,
}
use k8s_recommendation_engin.Report.{
  Risk, low_risk, medium_risk, high_risk, SafetyFactor, SafetyAssessment, Recommendation,
  WorkloadReport, SignalReport, Report,
}
use k8s_recommendation_engin.Quantity.{Quantities}
use k8s_recommendation_engin.Profile.{PolicySpec, ApplicationProfile, spec_named}
use k8s_recommendation_engin.Budget.{recommendation_has_change}
use k8s_recommendation_engin.Budget.Batch.{policy_named}
use k8s_recommendation_engin.Safety.{Floats, risk_rank, is_high, risk_text}
use k8s_recommendation_engin.Safety.Assess.{classify_recommendation_safety}

-- riskListContains
abbrev pub same_risk : Risk → Risk → Bool
same_risk low_risk low_risk = true
same_risk medium_risk medium_risk = true
same_risk high_risk high_risk = true
same_risk _ _ = false

abbrev pub risk_list_contains : List Risk → Risk → Bool
risk_list_contains values want = any_by (λ value. same_risk value want) values

-- The risks that the policy allows, and the greatest that it allows of a decrease.
abbrev pub allowed_risks : PolicySpec → List Risk
allowed_risks policy =
    if is_empty policy.safety.allow_auto_commit
    then low_risk ∷ medium_risk ∷ []
    else policy.safety.allow_auto_commit

abbrev pub max_decrease_risk : Option Risk → Risk
max_decrease_risk none = high_risk
max_decrease_risk (some risk) = risk

-- safetyFactorByName
abbrev pub safety_factor_by_name : List SafetyFactor → String → Option SafetyFactor
safety_factor_by_name factors name = find_by (λ f. str_eq f.name name) factors

-- The risk of the decrease, where it exceeds what the policy allows.
abbrev pub exceeding : Risk → Option SafetyFactor → Option Risk
exceeding limit none = none
exceeding limit (some f) =
    if ltb (risk_rank limit) (risk_rank f.classification) then some f.classification else none

-- appendSafetyReason
abbrev pub append_reason : List String → String → List String
append_reason reasons reason =
    if contains_text reasons reason then reasons else reasons ++ reason ∷ []

-- The first part of applySafetyPolicy: the risks that are allowed.
abbrev pub judge_allowed : PolicySpec → SafetyAssessment → SafetyAssessment
judge_allowed policy safety =
    if risk_list_contains (allowed_risks policy) safety.classification
    then record safety { auto_commit_allowed = true }
    else record safety {
      auto_commit_allowed = false;
      reasons =
          append_reason safety.reasons
            ("policy allowAutoCommit excludes " <> risk_text safety.classification);
    }

-- The second part: the risk of the decrease.
abbrev pub judge_decrease : Risk → Option Risk → SafetyAssessment → SafetyAssessment
judge_decrease limit none safety = safety
judge_decrease limit (some risk) safety = record safety {
  auto_commit_allowed = false;
  reasons = append_reason safety.reasons (
      "resource decrease risk "
      <> risk_text risk
      <> " exceeds policy maxDecreaseRisk "
      <> risk_text limit);
}

abbrev pub judged : PolicySpec → SafetyAssessment → SafetyAssessment
judged policy safety =
    let limit = max_decrease_risk policy.safety.max_decrease_risk in
    judge_decrease limit
      (exceeding limit (safety_factor_by_name safety.factors "resource_decrease_size"))
      (judge_allowed policy safety)

-- The third part: the recovery of availability.
abbrev pub with_recovery :
    {F : Type 0} → Bool → SafetyAssessment → Recommendation F → Recommendation F
with_recovery false safety r = record r { safety = safety }
with_recovery true safety r = record r {
  safety = record safety {
    auto_commit_allowed = true;
    reasons =
        append_reason safety.reasons "availability recovery increase is allowed during an outage";
  };
  reason_codes = append_reason r.reason_codes "availability_recovery_safety_bypass";
}

abbrev is_not_less : Ordering → Bool
is_not_less Ordering.lt = false
is_not_less _ = true

module _ {Q : Type 0} (quantities : Quantities Q) where
  abbrev not_less : Option Q → Option Q → Bool
  not_less (some current) (some recommended) = is_not_less (quantities.cmp recommended current)
  not_less _ _ = false

  -- resourceRequestDoesNotDecrease
  unfoldable pub resource_request_does_not_decrease : String → String → Bool
  resource_request_does_not_decrease current recommended =
      if str_eq current recommended
      then true
      else if str_eq current "" || str_eq recommended ""
      then false
      else not_less (quantities.parse current) (quantities.parse recommended)

  -- availabilityRecoveryChange
  unfoldable pub availability_recovery_change : {F : Type 0} → Recommendation F → Bool
  unfolding resource_request_does_not_decrease recommendation_has_change
  availability_recovery_change r =
      r.availability_recovery
      && recommendation_has_change r
      && not (ltb r.recommended_replicas r.current_replicas)
      && resource_request_does_not_decrease r.current_cpu_request r.recommended_cpu_request
      && resource_request_does_not_decrease r.current_memory_request r.recommended_memory_request

  -- applySafetyPolicy
  unfoldable pub apply_safety_policy :
      {F : Type 0} → PolicySpec → Recommendation F → Recommendation F
  unfolding availability_recovery_change
  apply_safety_policy policy r =
      with_recovery (policy.availability_recovery.enabled && availability_recovery_change r)
        (judged policy r.safety) r

-- The first of the reasons that names the policy.
abbrev policy_reason : Option String → String
policy_reason none = "safety policy blocks auto-commit"
policy_reason (some reason) = "safety policy blocks auto-commit: " <> reason

-- safetyBlockReason
abbrev pub safety_block_reason : SafetyAssessment → String
safety_block_reason safety =
    if is_high safety.classification
    then "safety classification high_risk blocks auto-commit"
    else policy_reason (
        find_by
          (λ reason. contains reason "policy allowAutoCommit" || contains reason "maxDecreaseRisk")
          safety.reasons)

abbrev pub is_auto_commit_block : String → Bool
is_auto_commit_block reason =
    starts_with reason "confidence "
    || starts_with reason "safety classification "
    || starts_with reason "safety policy blocks auto-commit"

abbrev pub is_auto_commit_code : String → Bool
is_auto_commit_code code =
    str_eq code "confidence_below_min_auto_commit"
    || str_eq code "safety_auto_commit_blocked"
    || str_eq code "safety_high_risk_auto_commit_blocked"

-- clearNoChangeAutoCommitBlocks
unfoldable pub clear_no_change_auto_commit_blocks :
    {F : Type 0} → Recommendation F → Recommendation F
clear_no_change_auto_commit_blocks r =
    let reasons = keep (λ reason. not (is_auto_commit_block reason)) r.block_reasons in
    record r {
      block_reasons = reasons;
      reason_codes = keep (λ code. not (is_auto_commit_code code)) r.reason_codes;
      blocked = not (is_empty reasons);
    }

abbrev block_code : Risk → String
block_code high_risk = "safety_high_risk_auto_commit_blocked"
block_code _ = "safety_auto_commit_blocked"

abbrev pub block_unsafe : {F : Type 0} → Recommendation F → Recommendation F
block_unsafe r = if r.safety.auto_commit_allowed then r else record r {
  blocked = true;
  block_reasons = append_reason r.block_reasons (safety_block_reason r.safety);
  reason_codes = append_reason r.reason_codes (block_code r.safety.classification);
}

-- The rest of the loop's body, after the policy.
unfoldable pub settle_blocks : {F : Type 0} → Recommendation F → Recommendation F
unfolding clear_no_change_auto_commit_blocks recommendation_has_change
settle_blocks r =
    if recommendation_has_change r then block_unsafe r else clear_no_change_auto_commit_blocks r

-- The body of the loop of AttachSafetyAssessmentsWithPolicy.
unfoldable pub attach_safety :
    {F Q : Type 0}
    → Floats F
    → Quantities Q
    → PolicySpec
    → List (SignalReport F)
    → WorkloadReport F
    → WorkloadReport F
unfolding classify_recommendation_safety apply_safety_policy settle_blocks
attach_safety floats quantities policy shared_signals workload =
    let classified = record workload.recommendation {
      safety = classify_recommendation_safety floats workload shared_signals;
    } in
    record workload {
      recommendation = settle_blocks (apply_safety_policy quantities policy classified);
    }

-- AttachSafetyAssessmentsWithPolicy; a profile that is missing names no workload.
unfoldable pub attach_safety_assessments :
    {F Q : Type 0} → Floats F → Quantities Q → ApplicationProfile → Report F → Report F
unfolding attach_safety spec_named
attach_safety_assessments floats quantities profile report = record report {
  workloads =
      map
        (λ workload.
          attach_safety floats quantities (policy_named profile.workloads workload.name)
            report.shared_signals workload)
        report.workloads;
}
