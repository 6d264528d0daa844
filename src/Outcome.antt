-- ===== src/Outcome.antt =====
-- internal/state/sqlite.go: what became of the previous recommendation (`classifyOutcome`).
-- Cmp's -1, 0 and 1 are the three values of `Ordering`.
pub mod Applied
use Prim.Native.Nat.{Ordering}
use k8s_recommendation_engin.Prelude.{
  ℕ, suc, ◌+◌, String, Bool, true, false, not, ◌&&◌, ◌||◌, Option, none, some, List, [], ◌∷◌, ◌++◌,
  str_eq, ltb, ◌==◌, if◌then◌else◌, any_by, trim_space,
}
use k8s_recommendation_engin.Report.{
  WorkloadReport, SignalReport, RecommendationOutcome, is_active_state, is_healthy, OutcomeStatus,
  no_change_recommended, no_action_taken, dry_run_not_applied, not_applied, partially_applied,
  too_aggressive, too_conservative, applied_successful,
}
use k8s_recommendation_engin.Quantity.{Quantities}

pub record PriorRun : Type 0 where
  pub generated_at : Option ℕ
  pub mode : String
  pub actionable : Bool
  pub outcome_status : Option OutcomeStatus
  pub replicas_actionable : Bool
  pub cpu_actionable : Bool
  pub memory_actionable : Bool
  pub current_replicas : ℕ
  pub recommended_replicas : ℕ
  pub current_cpu_request : String
  pub recommended_cpu_request : String
  pub current_memory_request : String
  pub recommended_memory_request : String

unfoldable pub recommendation_mode : PriorRun → String
unfolding trim_space
recommendation_mode run = if str_eq (trim_space run.mode) "" then "dry-run" else run.mode

module _ {F : Type 0} where
  unfoldable pub workload_unhealthy : WorkloadReport F → Bool
  workload_unhealthy workload =
      not (is_healthy workload.metrics_condition)
      || ltb workload.ready_replicas workload.replicas
      || any_by (λ signal. is_active_state signal.anomaly.state) workload.metric_signals

pub same_int_direction : ℕ → ℕ → ℕ → ℕ → Bool
same_int_direction previous_current previous_recommended current recommended =
    (ltb previous_current previous_recommended && ltb current recommended)
    || (ltb previous_recommended previous_current && ltb recommended current)

abbrev pub same_order : Ordering → Ordering → Bool
same_order Ordering.lt Ordering.lt = true
same_order Ordering.eq Ordering.eq = true
same_order Ordering.gt Ordering.gt = true
same_order _ _ = false

module _ {Q : Type 0} (quantities : Quantities Q) where
  open quantities use {parse, cmp}

  -- `none` is the pair (0, false).
  unfoldable pub resource_direction : String → String → Option Ordering
  resource_direction current recommended =
      if str_eq current "" || str_eq recommended "" || str_eq current recommended
      then none
      else elim (parse current) [
        | none ↦ none
        | some c ↦ elim (parse recommended) [ none ↦ none | some r ↦ some (cmp r c) ]
      ]

  unfoldable pub same_resource_direction : String → String → String → String → Bool
  unfolding resource_direction
  same_resource_direction previous_current previous_recommended current recommended =
      elim (resource_direction previous_current previous_recommended) [
        | none ↦ false
        | some before ↦ elim (resource_direction current recommended) [
          | none ↦ false
          | some now ↦ same_order before now
        ]
      ]

  unfoldable pub still_moving_same_direction : {F : Type 0} → PriorRun → WorkloadReport F → Bool
  unfolding same_int_direction same_resource_direction
  still_moving_same_direction previous current =
      let rec = current.recommendation in
      same_int_direction previous.current_replicas previous.recommended_replicas
        rec.current_replicas rec.recommended_replicas
      || same_resource_direction previous.current_cpu_request previous.recommended_cpu_request
          rec.current_cpu_request rec.recommended_cpu_request
      || same_resource_direction previous.current_memory_request previous.recommended_memory_request
          rec.current_memory_request rec.recommended_memory_request

abbrev pub replicas_changed : PriorRun → Bool
replicas_changed previous =
    previous.replicas_actionable && not (previous.current_replicas == previous.recommended_replicas)

abbrev pub cpu_changed : PriorRun → Bool
cpu_changed previous =
    previous.cpu_actionable
    && not (str_eq previous.current_cpu_request previous.recommended_cpu_request)

abbrev pub memory_changed : PriorRun → Bool
memory_changed previous =
    previous.memory_actionable
    && not (str_eq previous.current_memory_request previous.recommended_memory_request)

-- The local variables of `classifyOutcome`: the fields that should have changed, those that did,
-- and a detail for each.
pub record Tally : Type 0 where
  pub expected : ℕ
  pub applied : ℕ
  pub details : List String

pub tally_field : Bool → Bool → String → String → Tally → Tally
tally_field false _ applied_detail missed_detail t = t
tally_field true true applied_detail missed_detail t = record {
  expected = t.expected + 1;
  applied = t.applied + 1;
  details = t.details ++ applied_detail ∷ [];
}
tally_field true false applied_detail missed_detail t = record t {
  expected = t.expected + 1;
  details = t.details ++ missed_detail ∷ [];
}

module _ {F : Type 0} where
  abbrev pub replicas_arrived : PriorRun → WorkloadReport F → Bool
  replicas_arrived previous current =
      current.recommendation.current_replicas == previous.recommended_replicas

  abbrev pub cpu_arrived : PriorRun → WorkloadReport F → Bool
  cpu_arrived previous current =
      str_eq current.recommendation.current_cpu_request previous.recommended_cpu_request

  abbrev pub memory_arrived : PriorRun → WorkloadReport F → Bool
  memory_arrived previous current =
      str_eq current.recommendation.current_memory_request previous.recommended_memory_request

  unfoldable pub tally : PriorRun → WorkloadReport F → Tally
  unfolding tally_field
  tally previous current =
      tally_field (memory_changed previous) (memory_arrived previous current)
        "memory_request_applied" "memory_request_not_applied"
        (tally_field (cpu_changed previous) (cpu_arrived previous current) "cpu_request_applied"
          "cpu_request_not_applied"
          (tally_field (replicas_changed previous) (replicas_arrived previous current)
            "replicas_applied" "replicas_not_applied"
            (record { expected = 0; applied = 0; details = [] })))

  -- The status and the details that `classifyOutcome` gives.
  module _ {Q : Type 0} (quantities : Quantities Q) where
    unfoldable pub outcome_verdict : PriorRun → WorkloadReport F → OutcomeStatus × List String
    unfolding tally recommendation_mode
    outcome_verdict previous current =
        let t = tally previous current in
        if not (replicas_changed previous)
          && not (cpu_changed previous)
          && not (memory_changed previous)
        then (if previous.actionable
            then (no_change_recommended, "previous recommendation held all actionable fields" ∷ [])
            else (no_action_taken, "previous recommendation had no actionable field changes" ∷ []))
        else if t.applied == 0
        then (if str_eq (recommendation_mode previous) "dry-run"
            then (
              dry_run_not_applied,
              t.details ++ "controller_is_not_writing_git_or_patching_kubernetes" ∷ [],
            )
            else (not_applied, t.details))
        else if ltb t.applied t.expected
        then (partially_applied, t.details)
        else if workload_unhealthy current
        then (
          too_aggressive,
          t.details ++ "current_workload_unhealthy_after_applied_recommendation" ∷ [],
        )
        else if still_moving_same_direction quantities previous current
        then (
          too_conservative,
          t.details
              ++ "current_recommendation_continues_same_direction_after_applied_recommendation"
                ∷ [],
        )
        else (applied_successful, t.details)

    unfoldable pub classify_outcome : PriorRun → WorkloadReport F → RecommendationOutcome
    unfolding outcome_verdict
    classify_outcome previous current =
        let (status, details) = outcome_verdict previous current in
        record {
          status = status;
          previous_observed_at = previous.generated_at;
          previous_current_replicas = previous.current_replicas;
          previous_recommended_replicas = previous.recommended_replicas;
          previous_current_cpu_request = previous.current_cpu_request;
          previous_recommended_cpu_request = previous.recommended_cpu_request;
          previous_current_memory_request = previous.current_memory_request;
          previous_recommended_memory_request = previous.recommended_memory_request;
          current_replicas = current.recommendation.current_replicas;
          current_cpu_request = current.recommendation.current_cpu_request;
          current_memory_request = current.recommendation.current_memory_request;
          details = details;
        }
