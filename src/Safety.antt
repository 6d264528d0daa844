-- ===== src/Safety.antt =====
-- internal/analyzer/safety.go: the safety factors of a recommendation.
pub mod Assess
pub mod Attach
pub mod Classified
use k8s_recommendation_engin.Prelude.{
  ℕ, ◌+◌, ◌-◌, ◌≡◌, refl, Bool, true, false, not, ◌&&◌, ◌||◌, Option, none, some, List, [], ◌∷◌,
  ◌++◌, String, str_eq, ltb, leb, ◌==◌, if◌then◌else◌, is_empty, ◌<>◌, join, decimal, is_some,
}
use k8s_recommendation_engin.Report.{
  Risk, low_risk, medium_risk, high_risk, SafetyFactor, SafetyAssessment, Recommendation,
  WorkloadReport, SignalReport, SignalHistory, AnomalyState, warning, critical, PersistentLearning,
  ForecastAccuracy, ForecastAccuracyScore, ScoreClassification, noisy, RecommendationOutcome,
  OutcomeStatus, too_aggressive, partially_applied, not_applied, MetricsCondition, degraded,
  unhealthy, RolloutReport, signal_sample, signal_history,
}

-- What the factors use of float64 and of fmt: `literal` is a constant of the source, `one_decimal`
-- is `%.1f`, `three_decimals` is `%+.3f`; `cores` and `bytes` are cpuRequestCores and
-- memoryRequestBytes.
pub record Floats (F : Type 0) : Type 0 where
  pub literal : String → F
  pub of_count : ℕ → F
  pub less : F → F → Bool
  pub subtract : F → F → F
  pub multiply : F → F → F
  pub divide : F → F → F
  pub max : F → F → F
  pub abs : F → F
  pub one_decimal : F → String
  pub three_decimals : F → String
  pub cores : String → Option F
  pub bytes : String → Option F

abbrev pub factor : String → Risk → String → SafetyFactor
factor name classification reason = record {
  name = name;
  classification = classification;
  reason = reason;
}

-- riskRank
abbrev pub risk_rank : Risk → ℕ
risk_rank low_risk = 1
risk_rank medium_risk = 2
risk_rank high_risk = 3

abbrev pub is_high : Risk → Bool
is_high high_risk = true
is_high _ = false

abbrev pub is_low : Risk → Bool
is_low low_risk = true
is_low _ = false

abbrev pub risk_text : Risk → String
risk_text low_risk = "low_risk"
risk_text medium_risk = "medium_risk"
risk_text high_risk = "high_risk"

module _ {F : Type 0} (floats : Floats F) where
  abbrev pub at_least : F → F → Bool
  at_least a b = not (floats.less a b)

  abbrev pub percent : F → String
  percent a = floats.one_decimal a <> "%"

  abbrev pub hundred : F → F
  hundred a = floats.multiply a (floats.literal "100")

  -- comparableResourceAny
  abbrev pub comparable_resource_any : String → Option F
  comparable_resource_any value = first_some (floats.cores value) (floats.bytes value)
    where
      first_some : Option F → Option F → Option F
      first_some (some a) other = some a
      first_some none other = other

  abbrev decrease_between : Option F → Option F → Option F
  decrease_between (some current) (some recommended) =
      if floats.less (floats.literal "0") current && floats.less recommended current
      then some (hundred (floats.divide (floats.subtract current recommended) current))
      else none
  decrease_between _ _ = none

  -- resourceDecreasePercent
  unfoldable pub resource_decrease_percent : String → String → Option F
  resource_decrease_percent current recommended =
      if str_eq current "" || str_eq recommended "" || str_eq current recommended
      then none
      else decrease_between (comparable_resource_any current) (comparable_resource_any recommended)

  abbrev replica_decrease : ℕ → ℕ → Option F
  replica_decrease current recommended =
      if ltb 0 current && ltb recommended current
      then some (
          hundred
            (floats.divide (floats.of_count (current - recommended)) (floats.of_count current)))
      else none

  -- One of the three decreases: the greatest so far, and what is said of it.
  abbrev note_decrease : String → Option F → F × List String → F × List String
  note_decrease name none noted = noted
  note_decrease name (some decrease) noted =
      (floats.max noted.0 decrease, noted.1 ++ (name <> " " <> percent decrease) ∷ [])

  abbrev decreases : Recommendation F → F × List String
  decreases r =
      note_decrease "memory"
        (resource_decrease_percent r.current_memory_request r.recommended_memory_request)
        (note_decrease "cpu"
          (resource_decrease_percent r.current_cpu_request r.recommended_cpu_request)
          (note_decrease "replicas" (replica_decrease r.current_replicas r.recommended_replicas)
            (floats.literal "0", [])))

  abbrev decrease_factor : F × List String → SafetyFactor
  decrease_factor noted =
      if at_least noted.0 (floats.literal "35")
      then factor "resource_decrease_size" high_risk ("large decrease: " <> join ", " noted.1)
      else if at_least noted.0 (floats.literal "15")
      then factor "resource_decrease_size" medium_risk ("moderate decrease: " <> join ", " noted.1)
      else factor "resource_decrease_size" low_risk (
          if is_empty noted.1
          then "no material resource decrease"
          else "small decrease: " <> join ", " noted.1)

  -- resourceDecreaseSafety
  unfoldable pub resource_decrease_safety : WorkloadReport F → SafetyFactor
  unfolding resource_decrease_percent
  resource_decrease_safety workload = decrease_factor (decreases workload.recommendation)

  -- The three tests of the loop of forecastAccuracySafety on one score, in order.
  abbrev judge_error : ForecastAccuracyScore F → Risk × List String → Risk × List String
  judge_error score (risk, reasons) =
      let text = score.signal <> " mape " <> percent (hundred score.mean_absolute_percent_error) in
      if floats.less (floats.literal "0.50") score.mean_absolute_percent_error
      then (high_risk, reasons ++ text ∷ [])
      else if floats.less (floats.literal "0.30") score.mean_absolute_percent_error
          && not (is_high risk)
      then (medium_risk, reasons ++ text ∷ [])
      else (risk, reasons)

  abbrev judge_bias : ForecastAccuracyScore F → Risk × List String → Risk × List String
  judge_bias score (risk, reasons) =
      let text =
        score.signal
        <> " underestimated by "
        <> percent (hundred (floats.abs score.mean_bias_percent)) in
      if floats.less score.mean_bias_percent (floats.literal "-0.20")
      then (high_risk, reasons ++ text ∷ [])
      else if floats.less score.mean_bias_percent (floats.literal "-0.10") && not (is_high risk)
      then (medium_risk, reasons ++ text ∷ [])
      else (risk, reasons)

  abbrev is_noisy : ScoreClassification → Bool
  is_noisy noisy = true
  is_noisy _ = false

  abbrev judge_noise : ForecastAccuracyScore F → Risk × List String → Risk × List String
  judge_noise score (risk, reasons) =
      if is_noisy score.classification && not (is_high risk)
      then (medium_risk, reasons ++ (score.signal <> " forecast is noisy") ∷ [])
      else (risk, reasons)

  unfoldable pub judge_scores :
      List (ForecastAccuracyScore F) → Risk × List String → Risk × List String
  judge_scores [] judged = judged
  judge_scores (score ∷ scores) judged = judge_scores scores (
      if ltb score.samples 3
      then judged
      else judge_noise score (judge_bias score (judge_error score judged)))

  abbrev accuracy_factor : ForecastAccuracy F → Risk × List String → SafetyFactor
  accuracy_factor accuracy (risk, reasons) = factor "prior_forecast_accuracy" risk (
      if is_empty reasons
      then "samples="
        <> decimal accuracy.samples
        <> " confidenceAdjustment="
        <> floats.three_decimals accuracy.confidence_adjustment
      else join "; " reasons)

  abbrev no_samples : SafetyFactor
  no_samples = factor "prior_forecast_accuracy" medium_risk "no prior forecast accuracy samples"

  abbrev accuracy_safety : Option (ForecastAccuracy F) → SafetyFactor
  accuracy_safety none = no_samples
  accuracy_safety (some accuracy) =
      if accuracy.samples == 0
      then no_samples
      else accuracy_factor accuracy (judge_scores accuracy.signals (low_risk, []))

  -- forecastAccuracySafety
  unfoldable pub forecast_accuracy_safety : Option (PersistentLearning F) → SafetyFactor
  unfolding judge_scores
  forecast_accuracy_safety none = no_samples
  forecast_accuracy_safety (some persistent) = accuracy_safety persistent.forecast_accuracy

  abbrev condition_factor : MetricsCondition → SafetyFactor → SafetyFactor
  condition_factor unhealthy other =
      factor "workload_health" high_risk "metrics condition is unhealthy"
  condition_factor degraded other =
      factor "workload_health" medium_risk "metrics condition is degraded"
  condition_factor MetricsCondition.healthy other = other

  -- workloadHealthSafety
  unfoldable pub workload_health_safety : WorkloadReport F → SafetyFactor
  workload_health_safety workload =
      if ltb 0 workload.replicas && workload.ready_replicas == 0
      then factor "workload_health" high_risk "no ready replicas"
      else condition_factor workload.metrics_condition (
          if ltb workload.ready_replicas workload.replicas
          then factor "workload_health" medium_risk (
              "ready replicas "
              <> decimal workload.ready_replicas
              <> "/"
              <> decimal workload.replicas)
          else factor "workload_health" low_risk "workload is healthy")

  -- The status of the last outcome; the statuses `unsafe` and `regressed`, which the source names
  -- too, are never given to an outcome.
  abbrev outcome_factor : OutcomeStatus → SafetyFactor
  outcome_factor too_aggressive =
      factor "rollout_history" high_risk "previous outcome was too_aggressive"
  outcome_factor partially_applied =
      factor "rollout_history" medium_risk "previous outcome was partially_applied"
  outcome_factor not_applied =
      factor "rollout_history" medium_risk "previous outcome was not_applied"
  outcome_factor _ = factor "rollout_history" low_risk "rollout settled and no unsafe prior outcome"

  abbrev last_outcome_factor : Option RecommendationOutcome → SafetyFactor
  last_outcome_factor none =
      factor "rollout_history" low_risk "rollout settled and no unsafe prior outcome"
  last_outcome_factor (some outcome) = outcome_factor outcome.status

  abbrev persistent_factor : Option (PersistentLearning F) → SafetyFactor
  persistent_factor none =
      factor "rollout_history" low_risk "rollout settled and no unsafe prior outcome"
  persistent_factor (some persistent) = last_outcome_factor persistent.last_outcome

  -- rolloutSafety
  unfoldable pub rollout_safety : WorkloadReport F → SafetyFactor
  rollout_safety workload =
      let reason = join ", " workload.rollout.reasons in
      if workload.rollout.evaluated && not workload.rollout.settled
      then factor "rollout_history" high_risk
          (if str_eq reason "" then "rollout is not settled" else reason)
      else persistent_factor workload.recommendation.persistent
