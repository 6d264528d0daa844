-- ===== src/Report/Plan.antt =====
-- internal/analyzer/types.go: patch plans, the stability gates and the proposal report.
use k8s_recommendation_engin.Prelude.{
  ℕ, String, Bool, false, not, ◌&&◌, Option, none, some, List, is_empty,
}

pub record PatchChange : Type 0 where
  pub field : String
  pub source_path : List String
  pub operation : String
  pub current : String
  pub recommended : String

pub record PatchPlan : Type 0 where
  pub source_file : String
  pub source_format : String
  pub resource : String
  pub needed : Bool
  pub blocked : Bool
  pub block_reasons : List String
  pub changes : List PatchChange
  pub diff : String
  pub errors : List String

-- `proposalEventPlan` of the state package and `patchPlanApplyable` of the analyzer are one test.
unfoldable pub patch_plan_applyable : Option PatchPlan → Bool
patch_plan_applyable none = false
patch_plan_applyable (some plan) =
    plan.needed && not plan.blocked && is_empty plan.errors && not (is_empty plan.changes)

pub data GateStatus : Type 0 where
  hold stable pending_stability blocked : GateStatus

pub record StabilityGate : Type 0 where
  pub status : GateStatus
  pub observed : ℕ
  pub required : ℕ
  pub reason : String

pub record RecommendationStability : Type 0 where
  pub actionable : Bool
  pub replicas : StabilityGate
  pub cpu : StabilityGate
  pub memory : StabilityGate

pub record ProposalReport : Type 0 where
  pub mode : String
  pub kind : String
  pub needed : Bool
  pub blocked : Bool
  pub pushed : Bool
  pub patch_file : String
  pub branch : String
  pub commit : String
  pub remote : String
  pub push_ref : String
  pub message : String
  pub block_reasons : List String
  pub errors : List String
