-- ===== src/Safety/Assess.antt =====
-- internal/analyzer/safety.go: the headroom and the traffic, and the assessment of all the factors.
use k8s_recommendation_engin.Prelude.{
  ℕ, Bool, true, false, not, ◌&&◌, ◌||◌, Option, none, some, List, [], ◌∷◌, ◌++◌, String, str_eq,
  leb, if◌then◌else◌, is_empty, ◌<>◌, join,
}
use k8s_recommendation_engin.Report.{
  Risk, low_risk, medium_risk, high_risk, SafetyFactor, SafetyAssessment, WorkloadReport,
  SignalReport, SignalHistory, AnomalyState, warning, critical, signal_sample, signal_history,
}
use k8s_recommendation_engin.Safety.{
  Floats, factor, is_high, is_low, percent, hundred, resource_decrease_percent,
  resource_decrease_safety, forecast_accuracy_safety, workload_health_safety, rollout_safety,
}

module _ {F : Type 0} (floats : Floats F) where
  -- The demand that memoryHeadroomSafety finds: of the history, and then of the sample.
  abbrev history_demand : Option (SignalHistory F) → F
  history_demand none = floats.literal "0"
  history_demand (some history) = floats.max (floats.literal "0") history.p95

  abbrev sample_demand : Option F → F → F
  sample_demand none demand = demand
  sample_demand (some sample) demand = floats.max demand sample

  abbrev headroom_factor : F → SafetyFactor
  headroom_factor headroom =
      if floats.less headroom (floats.literal "0.10")
      then factor "memory_headroom" high_risk
          ("only " <> percent floats (hundred floats headroom) <> " headroom after memory decrease")
      else if floats.less headroom (floats.literal "0.20")
      then factor "memory_headroom" medium_risk
          (percent floats (hundred floats headroom) <> " headroom after memory decrease")
      else factor "memory_headroom" low_risk
          (percent floats (hundred floats headroom) <> " headroom after memory decrease")

  abbrev demand_factor : F → F → SafetyFactor
  demand_factor total demand =
      if floats.less (floats.literal "0") demand
      then headroom_factor (floats.divide (floats.subtract total demand) total)
      else factor "memory_headroom" medium_risk "memory demand is unknown for decrease"

  abbrev at_least_one : ℕ → ℕ
  at_least_one n = if leb 1 n then n else 1

  abbrev bytes_factor : WorkloadReport F → Option F → SafetyFactor
  bytes_factor workload none =
      factor "memory_headroom" medium_risk "recommended memory request cannot be parsed"
  bytes_factor workload (some recommended) =
      if floats.less (floats.literal "0") recommended
      then demand_factor
          (floats.multiply recommended
            (floats.of_count (at_least_one workload.recommendation.recommended_replicas)))
          (sample_demand (signal_sample workload.metric_signals "memory_working_set")
            (history_demand (signal_history workload.metric_signals "memory_working_set")))
      else factor "memory_headroom" medium_risk "recommended memory request cannot be parsed"

  abbrev is_positive : Option F → Bool
  is_positive none = false
  is_positive (some decrease) = floats.less (floats.literal "0") decrease

  -- memoryHeadroomSafety
  unfoldable pub memory_headroom_safety : WorkloadReport F → SafetyFactor
  unfolding resource_decrease_percent signal_sample signal_history
  memory_headroom_safety workload =
      let current = workload.recommendation.current_memory_request in
      let recommended = workload.recommendation.recommended_memory_request in
      if str_eq current "" || str_eq recommended "" || str_eq current recommended
      then factor "memory_headroom" low_risk "memory request is unchanged"
      else if is_positive (resource_decrease_percent floats current recommended)
      then bytes_factor workload (floats.bytes recommended)
      else factor "memory_headroom" low_risk "memory request is not decreasing"

-- trafficSafetySignal
abbrev pub traffic_safety_signal : String → Bool
traffic_safety_signal name =
    str_eq name "request_rate"
    || str_eq name "latency_p95"
    || str_eq name "error_rate"
    || str_eq name "concurrent_requests"

abbrev pub is_critical : AnomalyState → Bool
is_critical critical = true
is_critical _ = false

abbrev pub is_warning : AnomalyState → Bool
is_warning warning = true
is_warning _ = false

-- The texts of the traffic signals in a state.
unfoldable pub anomaly_texts :
    {F : Type 0} → (AnomalyState → Bool) → List (SignalReport F) → List String
anomaly_texts test [] = []
anomaly_texts test (signal ∷ signals) =
    let rest = anomaly_texts test signals in
    if traffic_safety_signal signal.name && test signal.anomaly.state
    then (signal.name <> ": " <> signal.anomaly.reason) ∷ rest
    else rest

-- trafficAnomalySafety
unfoldable pub traffic_anomaly_safety :
    {F : Type 0} → (workload_signals shared_signals : List (SignalReport F)) → SafetyFactor
unfolding anomaly_texts
traffic_anomaly_safety workload_signals shared_signals =
    let high = anomaly_texts is_critical (workload_signals ++ shared_signals) in
    let medium = anomaly_texts is_warning (workload_signals ++ shared_signals) in
    if not (is_empty high)
    then factor "traffic_anomaly_state" high_risk (join "; " high)
    else if not (is_empty medium)
    then factor "traffic_anomaly_state" medium_risk (join "; " medium)
    else factor "traffic_anomaly_state" low_risk "no active traffic anomaly"

-- The switch of the loop of classifyRecommendationSafety.
abbrev pub raise_to : Risk → Risk → Risk
raise_to so_far high_risk = high_risk
raise_to so_far medium_risk = if is_high so_far then so_far else medium_risk
raise_to so_far low_risk = so_far

unfoldable pub classify_factors : Risk → List SafetyFactor → Risk
classify_factors so_far [] = so_far
classify_factors so_far (f ∷ factors) = classify_factors (raise_to so_far f.classification) factors

unfoldable pub factor_reasons : List SafetyFactor → List String
factor_reasons [] = []
factor_reasons (f ∷ factors) =
    let rest = factor_reasons factors in
    if is_low f.classification then rest else (f.name <> ": " <> f.reason) ∷ rest

abbrev pub assessment_of : List SafetyFactor → SafetyAssessment
assessment_of factors =
    let classification = classify_factors low_risk factors in
    let reasons = factor_reasons factors in
    record {
      classification = classification;
      auto_commit_allowed = not (is_high classification);
      reasons = if is_empty reasons then "all safety factors are low risk" ∷ [] else reasons;
      factors = factors;
    }

-- classifyRecommendationSafety
unfoldable pub classify_recommendation_safety :
    {F : Type 0} → Floats F → WorkloadReport F → List (SignalReport F) → SafetyAssessment
unfolding resource_decrease_safety forecast_accuracy_safety workload_health_safety rollout_safety
    memory_headroom_safety traffic_anomaly_safety classify_factors factor_reasons
classify_recommendation_safety floats workload shared_signals = assessment_of (
    resource_decrease_safety floats workload
    ∷ (forecast_accuracy_safety floats workload.recommendation.persistent
        ∷ (workload_health_safety floats workload
            ∷ (rollout_safety floats workload
                ∷ (memory_headroom_safety floats workload
                    ∷ (traffic_anomaly_safety workload.metric_signals shared_signals ∷ []))))))
