-- ===== src/Examples.antt =====
-- A small report and its profile, for runs of the model and for the theorems.
mod Diffs
mod Manifests
mod Pushes
mod Attempts
mod Pods
mod Plans
mod Retained
mod Judged
use Prim.Native.Nat.{compare, Ordering}
use k8s_recommendation_engin.Prelude.{
  ℕ, ◌+◌, ◌*◌, ◌≤◌, ◌≡◌, ◌↔◌, ◌⊎◌, refl, arith, String, true, false, ◌||◌, none, some, List, [],
  ◌∷◌, if◌then◌else◌, ◌==◌, ltb, All,
}
use k8s_recommendation_engin.Stamp.{
  second, minute, format_fixed, format_nano, nano_fraction, stamp_compare, parse_stamp,
  parse_fraction, read_fraction, digits, text_compare,
}
use k8s_recommendation_engin.Quantity.{milli, milli_parse}
use k8s_recommendation_engin.Report.{
  GateStatus, OutcomeStatus, PatchChange, PatchPlan, Recommendation, WorkloadReport, Report,
  MetricsCondition, Risk, FailedPodReport, patch_plan_applyable,
}
use k8s_recommendation_engin.Profile.{PolicySpec, ApplicationProfile}
use k8s_recommendation_engin.Reservation.{
  AvailabilityRecoveryKey, EventStatus, RecoveryEvent, attempt_limit, reserve_availability_recovery,
  reserve_within_limit, reserve_row, latest_attempt, attempts_since,
}
use k8s_recommendation_engin.Reservation.History.{
  attempt_times, reserve_own, Reachable, start, next,
}
use k8s_recommendation_engin.Recovery.Live.{LivePod, found}
use k8s_recommendation_engin.Recovery.{Options, World, Environment, apply}
use k8s_recommendation_engin.Recovery.Run.{IsRun, apply-IsRun}
use k8s_recommendation_engin.Budget.{WorkloadKey, key_of, apply_proposal_budgets}
use k8s_recommendation_engin.Budget.Increase.{
  Numerics, availability_recovery_plan, urgent_batch_bypass,
}
use k8s_recommendation_engin.Budget.Batch.{
  Texts, bypasses, batch_plan, upsert_row, upsert_proposal_batch_item,
}
use k8s_recommendation_engin.Budget.Window.{
  row_of, Sighting, streak_start, table_after, IsRow, is_released, table_after-streak_start,
  batch_plan-released,
}
use k8s_recommendation_engin.Budget.{BatchItem}
use k8s_recommendation_engin.Retention.{StateTables, prune_at, prune_expired, is_expired}
use k8s_recommendation_engin.Retention.Kept.{prune_expired-prune_at}
use k8s_recommendation_engin.Delivery.{
  is_pushed, recommendation_outcome_eligible, recommendation_delivered,
}
use k8s_recommendation_engin.Clamp.{is_above}
use k8s_recommendation_engin.Clamp.Below.{exceeds, clamped, clamp_recommendation-below}
use k8s_recommendation_engin.Quantity.{Quantities}
use k8s_recommendation_engin.Report.{ProposalReport, StabilityGate, ContainerReport}
use k8s_recommendation_engin.Prelude.{str_eq, Bool}
use k8s_recommendation_engin.Stamp.{hour}
use k8s_recommendation_engin.Budget.Batch.{after_upsert}
use k8s_recommendation_engin.Budget.Status.{
  BatchStatus, StatusTexts, decoded, proposal_batch_status, status_item,
  proposal_batch_status-counts, status_item-ready,
}
use k8s_recommendation_engin.Outcome.{
  PriorRun, classify_outcome, workload_unhealthy, still_moving_same_direction, resource_direction,
}
use k8s_recommendation_engin.Outcome.Applied.{
  WantedChange, AllArrived, SomeArrived, SomeMissed, is_arrived_status, classify_outcome-AllArrived,
  classify_outcome-partial, classify_outcome-successful,
}
use k8s_recommendation_engin.Gates.{
  evaluate_replica_gate, evaluate_resource_gate, decrease_forbidden, urgent_increase, ResourceKind,
  attach_stability, blocking_reason,
}
use k8s_recommendation_engin.Gates.Evidence.{
  LastTwo, Raised, Lowered, LoweredRequest, evaluate_replica_gate-decrease,
  evaluate_replica_gate-increase, evaluate_resource_gate-decrease,
}
use k8s_recommendation_engin.Gates.Consistent.{IsConsistent, attach_stability-IsConsistent}
use k8s_recommendation_engin.Gates.Cooldown.{
  OnlyRecoveryIncreases, outcome_blocks, some_run_blocks, attach_stability-cooldown,
}
use k8s_recommendation_engin.Stamp.Order.{
  format_fixed-compare, format_nano-compare_seconds, format_nano-fraction_first,
}
use k8s_recommendation_engin.Stamp.RoundTrip.{parse_stamp-format_fixed, parse_stamp-format_nano}
use k8s_recommendation_engin.Reservation.Spacing.{
  IsSpaced, IsWithin, Reachable-IsSpaced, Reachable-IsWithin,
}

abbrev pub no_text : ℕ → String
no_text t = ""

abbrev pub replicas_change : PatchChange
replicas_change = record {
  field = "spec.replicas";
  source_path = [];
  operation = "replace";
  current = "2";
  recommended = "3";
}

abbrev pub web_plan : PatchPlan
web_plan = record {
  source_file = "web.yaml";
  source_format = "yaml";
  resource = "Deployment/web";
  needed = true;
  blocked = false;
  block_reasons = [];
  changes = replicas_change ∷ [];
  diff = "";
  errors = [];
}

abbrev pub web_recommendation : (current recommended : ℕ) → Recommendation ℕ
web_recommendation current recommended = record {
  mode = "propose";
  current_replicas = current;
  recommended_replicas = recommended;
  current_cpu_request = "200m";
  recommended_cpu_request = "100m";
  current_memory_request = "";
  recommended_memory_request = "";
  safety = record {
    classification = Risk.low_risk;
    auto_commit_allowed = true;
    reasons = [];
    factors = [];
  };
  persistent = none;
  availability_recovery = false;
  reason_codes = [];
  blocked = false;
  block_reasons = [];
  patch_plan = some web_plan;
  stability = none;
}

abbrev pub failed_pod : FailedPodReport
failed_pod = record { name = "web-1"; uid = "u1"; container = "app"; failed_at = minute }

abbrev pub web : (current recommended : ℕ) → WorkloadReport ℕ
web current recommended = record {
  name = "web";
  namespace = "default";
  deployment = "web";
  replicas = 2;
  ready_replicas = 2;
  containers = [];
  rollout = record { evaluated = true; settled = true; reasons = [] };
  availability = record { emergency = true; failed_pods = failed_pod ∷ [] };
  metric_signals = [];
  metrics_condition = MetricsCondition.healthy;
  recommendation = web_recommendation current recommended;
  recovery = none;
}

abbrev pub shop_report : Report ℕ
shop_report = record {
  application = "shop";
  generated_at = 60 * minute;
  workloads = web 2 3 ∷ [];
  shared_signals = [];
  proposal = none;
}

abbrev pub web_policy : PolicySpec
web_policy = record {
  max_proposals_per_hour = 1;
  max_proposals_per_day = 4;
  safety = record {
    allow_auto_commit = [];
    max_decrease_risk = none;
    urgent_bypass_allowed = none;
  };
  availability_recovery = record {
    enabled = true;
    failure_grace_period = "";
    cooldown = "";
    max_attempts_per_hour = 0;
  };
}

abbrev pub shop_profile : ApplicationProfile
shop_profile = record { workloads = record { name = "web"; policy = web_policy } ∷ [] }
