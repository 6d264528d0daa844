-- ===== src/Budget/Increase.antt =====
-- internal/state/proposal_budget.go: which plans only raise what a workload asks for, and which
-- signals make raising it urgent.
use k8s_recommendation_engin.Prelude.{
  String, Bool, true, false, not, ◌&&◌, ◌||◌, Option, none, some, List, [], ◌∷◌, ◌++◌, str_eq,
  if◌then◌else◌, any_by, is_empty, ends_with,
}
use k8s_recommendation_engin.Quantity.{Quantities}
use k8s_recommendation_engin.Report.{
  PatchChange, PatchPlan, SignalReport, is_active_state, WorkloadReport,
}

-- `strconv.ParseFloat`, `<` on float64, and quantities with `AsApproximateFloat64`.
pub record Numerics (F Q : Type 0) : Type 0 where
  pub parse_float : String → Option F
  pub float_less : F → F → Bool
  pub quantities : Quantities Q
  pub approximate : Q → F

abbrev pub traffic_batch_signal : String → Bool
traffic_batch_signal name =
    str_eq name "request_rate"
    || str_eq name "latency_p95"
    || str_eq name "error_rate"
    || str_eq name "concurrent_requests"

unfoldable pub has_traffic_anomaly :
    {F : Type 0} → (workload_signals shared_signals : List (SignalReport F)) → Bool
has_traffic_anomaly workload_signals shared_signals =
    any_by (λ signal. traffic_batch_signal signal.name && is_active_state signal.anomaly.state)
      (workload_signals ++ shared_signals)

abbrev pub is_request_field : String → Bool
is_request_field field =
    ends_with field ".resources.requests.cpu" || ends_with field ".resources.requests.memory"

module _ {F Q : Type 0} (numerics : Numerics F Q) where
  unfoldable pub numeric_increase : (current recommended : String) → Bool
  numeric_increase current recommended = elim (numerics.parse_float current) [
    | none ↦ false
    | some before ↦ elim (numerics.parse_float recommended) [
      | none ↦ false
      | some after ↦ numerics.float_less before after
    ]
  ]

  unfoldable pub quantity_increase : (current recommended : String) → Bool
  quantity_increase current recommended = elim (numerics.quantities.parse current) [
    | none ↦ false
    | some before ↦ elim (numerics.quantities.parse recommended) [
      | none ↦ false
      | some after ↦ numerics.float_less (numerics.approximate before) (numerics.approximate after)
    ]
  ]

  -- The body of the loop of `availabilityRecoveryPlan`.
  unfoldable pub is_recovery_change : PatchChange → Bool
  unfolding numeric_increase quantity_increase
  is_recovery_change change =
      if str_eq change.field "spec.replicas"
      then numeric_increase change.current change.recommended
      else if is_request_field change.field
      then quantity_increase change.current change.recommended
      else false

  unfoldable pub only_recovery_changes : List PatchChange → Bool
  unfolding is_recovery_change
  only_recovery_changes [] = true
  only_recovery_changes (change ∷ changes) =
      is_recovery_change change && only_recovery_changes changes

  unfoldable pub availability_recovery_plan : WorkloadReport F → PatchPlan → Bool
  unfolding only_recovery_changes
  availability_recovery_plan workload plan =
      workload.recommendation.availability_recovery
      && not (is_empty plan.changes)
      && only_recovery_changes plan.changes

  -- The body of the loop of `urgentBatchBypass`.
  unfoldable pub is_urgent_change : PatchChange → Bool
  unfolding numeric_increase quantity_increase
  is_urgent_change change =
      not (str_eq change.current change.recommended)
      && (str_eq change.field "spec.replicas" && numeric_increase change.current change.recommended
          || is_request_field change.field && quantity_increase change.current change.recommended)

  unfoldable pub urgent_batch_bypass : List (SignalReport F) → WorkloadReport F → PatchPlan → Bool
  unfolding has_traffic_anomaly is_urgent_change
  urgent_batch_bypass shared_signals workload plan =
      has_traffic_anomaly workload.metric_signals shared_signals
      && any_by (λ change. is_urgent_change change) plan.changes
