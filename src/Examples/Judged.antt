-- ===== src/Examples/Judged.antt =====
-- Runs of the gates, the outcomes, the eligibility and the clamp of internal/state/sqlite.go.
use Prim.Native.Nat.{Ordering}
use k8s_recommendation_engin.Prelude.{
  ℕ, ◌≡◌, ◌↔◌, ◌⊎◌, refl, arith, true, false, ◌||◌, none, some, List, [], ◌∷◌, if◌then◌else◌,
}
use k8s_recommendation_engin.Quantity.{milli}
use k8s_recommendation_engin.Report.{GateStatus, OutcomeStatus, WorkloadReport}
use k8s_recommendation_engin.Clamp.{is_above}
use k8s_recommendation_engin.Clamp.Below.{exceeds, clamped, clamp_recommendation-below}
use k8s_recommendation_engin.Quantity.{Quantities}
use k8s_recommendation_engin.Report.{ContainerReport}
use k8s_recommendation_engin.Prelude.{str_eq, Bool}
use k8s_recommendation_engin.Outcome.{
  PriorRun, classify_outcome, workload_unhealthy, still_moving_same_direction, resource_direction,
}
use k8s_recommendation_engin.Outcome.Applied.{
  WantedChange, AllArrived, SomeArrived, SomeMissed, is_arrived_status, classify_outcome-AllArrived,
  classify_outcome-partial, classify_outcome-successful,
}
use k8s_recommendation_engin.Gates.{
  evaluate_replica_gate, evaluate_resource_gate, decrease_forbidden, urgent_increase, ResourceKind,
  attach_stability, blocking_reason,
}
use k8s_recommendation_engin.Gates.Evidence.{
  LastTwo, Raised, Lowered, LoweredRequest, evaluate_replica_gate-decrease,
  evaluate_replica_gate-increase, evaluate_resource_gate-decrease,
}
use k8s_recommendation_engin.Gates.Consistent.{IsConsistent, attach_stability-IsConsistent}
use k8s_recommendation_engin.Gates.Cooldown.{
  OnlyRecoveryIncreases, outcome_blocks, some_run_blocks, attach_stability-cooldown,
}
use k8s_recommendation_engin.Examples.{web_recommendation, web}

abbrev wanted : (current recommended : ℕ) → PriorRun
wanted current recommended = record {
  generated_at = none;
  mode = "propose";
  actionable = true;
  outcome_status = none;
  replicas_actionable = true;
  cpu_actionable = true;
  memory_actionable = true;
  current_replicas = current;
  recommended_replicas = recommended;
  current_cpu_request = "200m";
  recommended_cpu_request = "100m";
  current_memory_request = "";
  recommended_memory_request = "";
}

abbrev two_lowered : List PriorRun
two_lowered = wanted 3 2 ∷ wanted 3 2 ∷ []

abbrev two_raised : List PriorRun
two_raised = wanted 2 3 ∷ wanted 2 3 ∷ []

evaluate_replica_gate-decrease_example :
    ((evaluate_replica_gate (web 3 2) two_lowered).status ≡ GateStatus.stable) ↔ (
      (decrease_forbidden (web 3 2).recommendation ≡ false)
      × (workload_unhealthy (web 3 2) ≡ false)
      × LastTwo Lowered two_lowered)
evaluate_replica_gate-decrease_example =
    evaluate_replica_gate-decrease (web 3 2) two_lowered (omega arith)

evaluate_replica_gate-increase_example :
    ((evaluate_replica_gate (web 2 3) two_raised).status ≡ GateStatus.stable)
    ↔ ((urgent_increase (web 2 3).recommendation ≡ true) ⊎ LastTwo Raised two_raised)
evaluate_replica_gate-increase_example =
    evaluate_replica_gate-increase (web 2 3) two_raised (omega arith)

cpu_lowered : resource_direction milli "200m" "100m" ≡ some Ordering.lt
unfolding resource_direction
cpu_lowered = refl

evaluate_resource_gate-decrease_example :
    ((evaluate_resource_gate milli "cpu" "200m" "100m" two_lowered ResourceKind.resource_cpu).status
      ≡ GateStatus.stable)
    ↔ LastTwo (LoweredRequest milli ResourceKind.resource_cpu) two_lowered
evaluate_resource_gate-decrease_example =
    evaluate_resource_gate-decrease milli "cpu" "200m" "100m" two_lowered ResourceKind.resource_cpu
      cpu_lowered

classify_outcome-AllArrived_example :
    (is_arrived_status (classify_outcome milli (wanted 3 2) (web 2 3)).status ≡ true)
    ↔ (WantedChange (wanted 3 2) × AllArrived (wanted 3 2) (web 2 3))
classify_outcome-AllArrived_example = classify_outcome-AllArrived milli (wanted 3 2) (web 2 3)

classify_outcome-partial_example :
    ((classify_outcome milli (wanted 3 2) (web 2 3)).status ≡ OutcomeStatus.partially_applied)
    ↔ (SomeArrived (wanted 3 2) (web 2 3) × SomeMissed (wanted 3 2) (web 2 3))
classify_outcome-partial_example = classify_outcome-partial milli (wanted 3 2) (web 2 3)

classify_outcome-successful_example :
    ((classify_outcome milli (wanted 3 2) (web 2 3)).status ≡ OutcomeStatus.applied_successful) ↔ (
      WantedChange (wanted 3 2)
      × AllArrived (wanted 3 2) (web 2 3)
      × (workload_unhealthy (web 2 3) ≡ false)
      × (still_moving_same_direction milli (wanted 3 2) (web 2 3) ≡ false))
classify_outcome-successful_example = classify_outcome-successful milli (wanted 3 2) (web 2 3)

attach_stability-IsConsistent_example :
    IsConsistent (attach_stability milli (web 3 2) none two_lowered)
attach_stability-IsConsistent_example =
    attach_stability-IsConsistent milli (web 3 2) none two_lowered

abbrev partial_run : PriorRun
partial_run = record (wanted 3 2) { outcome_status = some OutcomeStatus.partially_applied }

partial-blocks :
    (outcome_blocks none "propose" || some_run_blocks (partial_run ∷ []) "propose") ≡ true
unfolding blocking_reason
partial-blocks = refl

attach_stability-cooldown_example :
    OnlyRecoveryIncreases milli (web 3 2) (attach_stability milli (web 3 2) none (partial_run ∷ []))
attach_stability-cooldown_example =
    attach_stability-cooldown milli (web 3 2) none (partial_run ∷ []) partial-blocks

abbrev compare_sizes : Bool → Bool → Ordering
compare_sizes true false = Ordering.gt
compare_sizes false true = Ordering.lt
compare_sizes _ _ = Ordering.eq

abbrev two_sizes : Quantities Bool
two_sizes = record {
  parse = λ s. if str_eq s "big" then some true else if str_eq s "small" then some false else none;
  cmp = compare_sizes;
  print = λ q. if q then "big" else "small";
}

sizes-parse : (q : Bool) → two_sizes.parse (two_sizes.print q) ≡ some q
sizes-parse true = refl
sizes-parse false = refl

sizes_refl : (q : Bool) → is_above (two_sizes.cmp q q) ≡ false
sizes_refl true = refl
sizes_refl false = refl

abbrev small_container : ContainerReport
small_container = record {
  name = "app";
  cpu_request = "small";
  memory_request = "small";
  cpu_limit = "small";
  memory_limit = "big";
}

abbrev big_web : WorkloadReport ℕ
big_web = record (web 2 3) {
  containers = small_container ∷ [];
  recommendation = record (web_recommendation 2 3) {
    recommended_cpu_request = "big";
    recommended_memory_request = "small";
  };
}

clamp_recommendation-below_example :
    (exceeds two_sizes (clamped two_sizes big_web).recommended_cpu_request "small" ≡ false)
    × (exceeds two_sizes (clamped two_sizes big_web).recommended_memory_request "big" ≡ false)
clamp_recommendation-below_example =
    clamp_recommendation-below two_sizes sizes-parse sizes_refl big_web small_container refl
