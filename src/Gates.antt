-- ===== src/Gates.antt =====
-- internal/state/sqlite.go: the stability gates of `Attach`, which decide whether a change of the
-- replicas, the CPU request or the memory request may be patched into Git.
pub mod Evidence
pub mod Consistent
pub mod Cooldown
use Prim.Native.Nat.{Ordering}
use k8s_recommendation_engin.Prelude.{
  ℕ, zero, suc, ◌+◌, String, Bool, true, false, not, ◌&&◌, ◌||◌, Option, none, some, List, [], ◌∷◌,
  str_eq, ltb, leb, ◌==◌, if◌then◌else◌, any_by, starts_with, contains_text, decimal, ◌<>◌,
}
use k8s_recommendation_engin.Report.{
  WorkloadReport, Recommendation, RecommendationOutcome, OutcomeStatus, StabilityGate, GateStatus,
  RecommendationStability, dry_run_not_applied, not_applied, partially_applied, too_aggressive,
  too_conservative, has_active_signal_anomaly, hold, stable, pending_stability, blocked,
}
use k8s_recommendation_engin.Quantity.{Quantities}
use k8s_recommendation_engin.Outcome.{PriorRun, workload_unhealthy, resource_direction, same_order}

abbrev gate : GateStatus → ℕ → ℕ → String → StabilityGate
gate status observed required reason = record {
  status = status;
  observed = observed;
  required = required;
  reason = reason;
}

abbrev pub is_actionable_status : GateStatus → Bool
is_actionable_status stable = true
is_actionable_status hold = true
is_actionable_status _ = false

abbrev pub gate_actionable : StabilityGate → Bool
gate_actionable g = is_actionable_status g.status

abbrev pub all_actionable : StabilityGate → StabilityGate → StabilityGate → Bool
all_actionable replicas cpu memory =
    gate_actionable replicas && gate_actionable cpu && gate_actionable memory

-- Consecutive runs, this one included, that a gate requires.
abbrev pub required_runs : ℕ
required_runs = 3

abbrev pub replica_direction : PriorRun → Ordering
replica_direction run =
    if ltb run.current_replicas run.recommended_replicas
    then Ordering.gt
    else if ltb run.recommended_replicas run.current_replicas
    then Ordering.lt
    else Ordering.eq

unfoldable pub consecutive_replica_direction : List PriorRun → Ordering → ℕ
consecutive_replica_direction [] direction = 0
consecutive_replica_direction (run ∷ recent) direction =
    let more = suc (consecutive_replica_direction recent direction) in
    if same_order (replica_direction run) direction then more else 0

abbrev has_reason_prefix : List String → String → Bool
has_reason_prefix reasons prefix = any_by (λ reason. starts_with reason prefix) reasons

module _ {F : Type 0} where
  -- A reason code of urgent traffic, which lets an increase through at once.
  unfoldable pub urgent_increase : Recommendation F → Bool
  urgent_increase rec =
      has_reason_prefix rec.reason_codes "request_rate_anomaly_critical:"
      || contains_text rec.reason_codes "traffic_scale_up_allowed:true"

  -- A reason code of a floor or a block, which forbids a decrease.
  unfoldable pub decrease_forbidden : Recommendation F → Bool
  decrease_forbidden rec =
      has_reason_prefix rec.reason_codes "availability_replica_floor:"
      || has_reason_prefix rec.reason_codes "pdb_replica_floor:"
      || has_reason_prefix rec.reason_codes "scale_down_blocked"

  unfoldable pub evaluate_replica_gate : WorkloadReport F → List PriorRun → StabilityGate
  evaluate_replica_gate workload recent =
      let rec = workload.recommendation in
      let up = 1 + consecutive_replica_direction recent Ordering.gt in
      let down = 1 + consecutive_replica_direction recent Ordering.lt in
      if rec.recommended_replicas == rec.current_replicas
      then gate hold 0 0 "replica recommendation holds current count"
      else if ltb rec.current_replicas rec.recommended_replicas
      then (if urgent_increase rec
          then gate stable 1 1 "replica increase driven by urgent traffic pressure"
          else if leb required_runs up
          then gate stable up required_runs "replica increase met consecutive-run gate"
          else gate pending_stability up required_runs
              "replica increase needs more consecutive evidence")
      else if decrease_forbidden rec
      then gate blocked 0 3 "replica decrease conflicts with safety floor or scale-down block"
      else if workload_unhealthy workload
      then gate blocked 0 3 "replica decrease blocked while workload is unhealthy or anomalous"
      else if leb required_runs down
      then gate stable down required_runs "replica decrease met consecutive-run gate"
      else gate pending_stability down required_runs
          "replica decrease needs more consecutive evidence"

pub data ResourceKind : Type 0 where
  resource_cpu resource_memory : ResourceKind

abbrev pub prior_current : ResourceKind → PriorRun → String
prior_current resource_cpu run = run.current_cpu_request
prior_current resource_memory run = run.current_memory_request

abbrev pub prior_recommended : ResourceKind → PriorRun → String
prior_recommended resource_cpu run = run.recommended_cpu_request
prior_recommended resource_memory run = run.recommended_memory_request

abbrev is_direction : Ordering → Option Ordering → Bool
is_direction direction none = false
is_direction direction (some prior) = same_order prior direction

module _ {Q : Type 0} (quantities : Quantities Q) where
  -- The loop of `evaluateResourceGate`, without the 1 that `observed` begins with.
  unfoldable pub consecutive_resource_direction : ResourceKind → Ordering → List PriorRun → ℕ
  consecutive_resource_direction kind direction [] = 0
  consecutive_resource_direction kind direction (run ∷ recent) =
      let more = suc (consecutive_resource_direction kind direction recent) in
      if is_direction direction
        (resource_direction quantities (prior_current kind run) (prior_recommended kind run))
      then more
      else 0

  resource_streak_gate : String → ℕ → StabilityGate
  resource_streak_gate name observed =
      if leb required_runs observed
      then gate stable observed required_runs (name <> " decrease met consecutive-run gate")
      else gate pending_stability observed required_runs
          (name <> " decrease needs more consecutive evidence")

  unfoldable pub evaluate_resource_gate :
      String → String → String → List PriorRun → ResourceKind → StabilityGate
  unfolding resource_streak_gate
  evaluate_resource_gate name current recommended recent kind =
      elim (resource_direction quantities current recommended) [
        | none ↦ gate hold 0 0 (name <> " recommendation holds current request")
        | some Ordering.gt ↦
            gate stable 1 1 (name <> " increase is actionable for current pressure")
        | some Ordering.eq ↦
            resource_streak_gate name (1 + consecutive_resource_direction kind Ordering.eq recent)
        | some Ordering.lt ↦
            resource_streak_gate name (1 + consecutive_resource_direction kind Ordering.lt recent)
      ]

abbrev is_waiting_or_stable : GateStatus → Bool
is_waiting_or_stable pending_stability = true
is_waiting_or_stable stable = true
is_waiting_or_stable _ = false

module _ {F Q : Type 0} (quantities : Quantities Q) where
  -- The anomaly check of `evaluateStability` on the memory gate.
  memory_anomaly_gate : WorkloadReport F → StabilityGate → StabilityGate
  memory_anomaly_gate workload g =
      if is_waiting_or_stable g.status
        && has_active_signal_anomaly workload.metric_signals "memory_working_set"
      then gate blocked g.observed g.required "memory decrease blocked by active memory anomaly"
      else g

  unfoldable pub evaluate_stability : WorkloadReport F → List PriorRun → RecommendationStability
  unfolding memory_anomaly_gate
  evaluate_stability workload recent =
      let rec = workload.recommendation in
      let replicas = evaluate_replica_gate workload recent in
      let cpu =
        evaluate_resource_gate quantities "cpu" rec.current_cpu_request rec.recommended_cpu_request
          recent resource_cpu in
      let memory = memory_anomaly_gate workload (
        evaluate_resource_gate quantities "memory" rec.current_memory_request
          rec.recommended_memory_request recent resource_memory) in
      record {
        actionable = all_actionable replicas cpu memory;
        replicas = replicas;
        cpu = cpu;
        memory = memory;
      }

-- `none` is the empty reason.
unfoldable pub outcome_block_reason : OutcomeStatus → Option String
outcome_block_reason dry_run_not_applied = some "previous dry-run recommendation not applied"
outcome_block_reason not_applied = some "previous recommendation has not been applied yet"
outcome_block_reason partially_applied = some "previous recommendation is only partially applied"
outcome_block_reason too_aggressive = some "previous recommendation left the workload unhealthy"
outcome_block_reason too_conservative =
    some "previous recommendation still needs post-apply observation before another change"
outcome_block_reason _ = none

abbrev is_dry_run_status : OutcomeStatus → Bool
is_dry_run_status dry_run_not_applied = true
is_dry_run_status _ = false

-- The reason for which a status blocks in this mode: a dry run that was not applied does not block
-- a later mode that is not dry-run.
unfoldable pub blocking_reason : OutcomeStatus → String → Option String
unfolding outcome_block_reason
blocking_reason status current_mode =
    if is_dry_run_status status && not (str_eq current_mode "dry-run")
    then none
    else outcome_block_reason status

abbrev block_all : String → RecommendationStability
block_all reason =
    let block = gate blocked 0 0 reason in
    record { actionable = false; replicas = block; cpu = block; memory = block }

unfoldable pub apply_outcome_safety_gate :
    RecommendationStability → Option RecommendationOutcome → String → RecommendationStability
apply_outcome_safety_gate stability none current_mode = stability
apply_outcome_safety_gate stability (some outcome) current_mode =
    elim (blocking_reason outcome.status current_mode) [
      | none ↦ stability
      | some reason ↦ block_all reason
    ]

abbrev pub post_apply_observation_cooldown_runs : ℕ
post_apply_observation_cooldown_runs = 3

abbrev pub run_blocking_reason : PriorRun → String → Option String
run_blocking_reason run current_mode = elim run.outcome_status [
  | none ↦ none
  | some status ↦ blocking_reason status current_mode
]

cooldown_reason : String → ℕ → String
cooldown_reason reason position =
    reason
    <> "; observation cooldown "
    <> decimal position
    <> "/"
    <> decimal post_apply_observation_cooldown_runs

-- The loop of `applyRecentOutcomeCooldownGate`, from the run at the given position on.
unfoldable pub recent_cooldown :
    ℕ → RecommendationStability → List PriorRun → String → RecommendationStability
unfolding cooldown_reason
recent_cooldown position stability [] current_mode = stability
recent_cooldown position stability (run ∷ recent) current_mode =
    let rest = recent_cooldown (position + 1) stability recent current_mode in
    elim (run_blocking_reason run current_mode) [
      | none ↦ rest
      | some reason ↦ block_all (cooldown_reason reason position)
    ]

unfoldable pub apply_recent_outcome_cooldown_gate :
    RecommendationStability → List PriorRun → String → RecommendationStability
unfolding recent_cooldown
apply_recent_outcome_cooldown_gate stability recent current_mode =
    recent_cooldown 1 stability recent current_mode

abbrev is_increase : Option Ordering → Bool
is_increase (some Ordering.gt) = true
is_increase _ = false

module _ {F : Type 0} where
  abbrev pub replicas_increase : Recommendation F → Bool
  replicas_increase rec = ltb rec.current_replicas rec.recommended_replicas

module _ {F Q : Type 0} (quantities : Quantities Q) where
  abbrev pub cpu_increase : Recommendation F → Bool
  cpu_increase rec =
      is_increase
        (resource_direction quantities rec.current_cpu_request rec.recommended_cpu_request)

  abbrev pub memory_increase : Recommendation F → Bool
  memory_increase rec =
      is_increase
        (resource_direction quantities rec.current_memory_request rec.recommended_memory_request)

  recovery_gates : Recommendation F → RecommendationStability → RecommendationStability
  recovery_gates rec stability =
      let replicas =
        if replicas_increase rec
        then gate stable 1 1 "replica increase restores unavailable workload capacity"
        else stability.replicas in
      let cpu =
        if cpu_increase rec
        then gate stable 1 1 "cpu increase supports availability recovery"
        else stability.cpu in
      let memory =
        if memory_increase rec
        then gate stable 1 1 "memory increase supports availability recovery"
        else stability.memory in
      record {
        actionable = all_actionable replicas cpu memory;
        replicas = replicas;
        cpu = cpu;
        memory = memory;
      }

  unfoldable pub apply_availability_recovery_stability_gate :
      Recommendation F → RecommendationStability → RecommendationStability
  unfolding recovery_gates
  apply_availability_recovery_stability_gate rec stability =
      if rec.availability_recovery then recovery_gates rec stability else stability

  -- The gates of `Attach`, in its order, on the workload as the feedback steps before them left it.
  unfoldable pub attach_stability :
      WorkloadReport F → Option RecommendationOutcome → List PriorRun → RecommendationStability
  attach_stability workload last_outcome recent =
      let rec = workload.recommendation in
      let evaluated = evaluate_stability quantities workload recent in
      let after_outcome = apply_outcome_safety_gate evaluated last_outcome rec.mode in
      let after_cooldown = apply_recent_outcome_cooldown_gate after_outcome recent rec.mode in
      apply_availability_recovery_stability_gate rec after_cooldown
