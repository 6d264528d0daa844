-- ===== src/Report/Workload.antt =====
-- internal/analyzer/types.go: recommendations, workloads and the whole report.
use k8s_recommendation_engin.Prelude.{ℕ, String, Bool, true, false, Option, List}
use k8s_recommendation_engin.Report.Plan.{PatchPlan, RecommendationStability, ProposalReport}
use k8s_recommendation_engin.Report.Signals.{SignalReport, PersistentLearning}

pub data MetricsCondition : Type 0 where
  healthy degraded unhealthy : MetricsCondition

abbrev pub is_healthy : MetricsCondition → Bool
is_healthy healthy = true
is_healthy _ = false

pub data Risk : Type 0 where
  low_risk medium_risk high_risk : Risk

pub record SafetyFactor : Type 0 where
  pub name : String
  pub classification : Risk
  pub reason : String

pub record SafetyAssessment : Type 0 where
  pub classification : Risk
  pub auto_commit_allowed : Bool
  pub reasons : List String
  pub factors : List SafetyFactor

pub record Recommendation (F : Type 0) : Type 0 where
  pub mode : String
  pub current_replicas : ℕ
  pub recommended_replicas : ℕ
  pub current_cpu_request : String
  pub recommended_cpu_request : String
  pub current_memory_request : String
  pub recommended_memory_request : String
  pub safety : SafetyAssessment
  pub persistent : Option (PersistentLearning F)
  pub availability_recovery : Bool
  pub reason_codes : List String
  pub blocked : Bool
  pub block_reasons : List String
  pub patch_plan : Option PatchPlan
  pub stability : Option RecommendationStability

pub record ContainerReport : Type 0 where
  pub name : String
  pub cpu_request : String
  pub memory_request : String
  pub cpu_limit : String
  pub memory_limit : String

pub record RolloutReport : Type 0 where
  pub evaluated : Bool
  pub settled : Bool
  pub reasons : List String

pub record FailedPodReport : Type 0 where
  pub name : String
  pub uid : String
  pub container : String
  pub failed_at : ℕ

pub record AvailabilityReport : Type 0 where
  pub emergency : Bool
  pub failed_pods : List FailedPodReport

pub record AvailabilityRecoveryReport : Type 0 where
  pub enabled : Bool
  pub emergency : Bool
  pub attempted : Bool
  pub succeeded : Bool
  pub action : String
  pub pod : String
  pub reason : String
  pub error : String

pub record WorkloadReport (F : Type 0) : Type 0 where
  pub name : String
  pub namespace : String
  pub deployment : String
  pub replicas : ℕ
  pub ready_replicas : ℕ
  pub containers : List ContainerReport
  pub rollout : RolloutReport
  pub availability : AvailabilityReport
  pub metric_signals : List (SignalReport F)
  pub metrics_condition : MetricsCondition
  pub recommendation : Recommendation F
  pub recovery : Option AvailabilityRecoveryReport

pub record Report (F : Type 0) : Type 0 where
  pub application : String
  pub generated_at : ℕ
  pub workloads : List (WorkloadReport F)
  pub shared_signals : List (SignalReport F)
  pub proposal : Option ProposalReport
