-- ===== src/Delivery.antt =====
-- internal/state/sqlite.go: which fields of a recommendation a later run may be judged by. A
-- recommendation is delivered in a dry run, or by a proposal that was pushed.
use k8s_recommendation_engin.Prelude.{
  String, Bool, false, not, ◌&&◌, ◌||◌, Option, none, some, str_eq, ◌==◌,
}
use k8s_recommendation_engin.Report.{
  WorkloadReport, RecommendationStability, ProposalReport, patch_plan_applyable,
}
use k8s_recommendation_engin.Gates.{gate_actionable}

abbrev pub is_pushed : Option ProposalReport → Bool
is_pushed none = false
is_pushed (some proposal) = proposal.pushed

abbrev pub is_dry_run : String → Bool
is_dry_run mode = str_eq mode "" || str_eq mode "dry-run"

abbrev pub is_actionable : Option RecommendationStability → Bool
is_actionable none = false
is_actionable (some stability) = stability.actionable

abbrev pub replicas_pass : Option RecommendationStability → Bool
replicas_pass none = false
replicas_pass (some stability) = gate_actionable stability.replicas

abbrev pub cpu_passes : Option RecommendationStability → Bool
cpu_passes none = false
cpu_passes (some stability) = gate_actionable stability.cpu

abbrev pub memory_passes : Option RecommendationStability → Bool
memory_passes none = false
memory_passes (some stability) = gate_actionable stability.memory

abbrev pub is_change : (current recommended : String) → Bool
is_change current recommended =
    not (str_eq current "") && not (str_eq recommended "") && not (str_eq current recommended)

module _ {F : Type 0} where
  unfoldable pub recommendation_delivered : WorkloadReport F → Option ProposalReport → Bool
  recommendation_delivered workload proposal =
      is_dry_run workload.recommendation.mode
      || is_pushed proposal && patch_plan_applyable workload.recommendation.patch_plan

  unfoldable pub recommendation_outcome_eligible : WorkloadReport F → Option ProposalReport → Bool
  unfolding recommendation_delivered
  recommendation_outcome_eligible workload proposal =
      is_actionable workload.recommendation.stability && recommendation_delivered workload proposal

  unfoldable pub replicas_outcome_eligible : WorkloadReport F → Option ProposalReport → Bool
  unfolding recommendation_delivered
  replicas_outcome_eligible workload proposal =
      let rec = workload.recommendation in
      recommendation_delivered workload proposal
      && not rec.blocked
      && not (rec.current_replicas == rec.recommended_replicas)
      && replicas_pass rec.stability

  unfoldable pub cpu_outcome_eligible : WorkloadReport F → Option ProposalReport → Bool
  unfolding recommendation_delivered
  cpu_outcome_eligible workload proposal =
      let rec = workload.recommendation in
      recommendation_delivered workload proposal
      && not rec.blocked
      && is_change rec.current_cpu_request rec.recommended_cpu_request
      && cpu_passes rec.stability

  unfoldable pub memory_outcome_eligible : WorkloadReport F → Option ProposalReport → Bool
  unfolding recommendation_delivered
  memory_outcome_eligible workload proposal =
      let rec = workload.recommendation in
      recommendation_delivered workload proposal
      && not rec.blocked
      && is_change rec.current_memory_request rec.recommended_memory_request
      && memory_passes rec.stability
