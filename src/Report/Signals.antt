-- ===== src/Report/Signals.antt =====
-- internal/analyzer/types.go: metric signals and what was learned from earlier runs.
use k8s_recommendation_engin.Prelude.{
  ℕ, String, Bool, true, false, ◌&&◌, Option, none, some, List, [], ◌∷◌, str_eq, if◌then◌else◌,
  any_by,
}

-- `unset` is the empty string of a signal that was never classified.
pub data AnomalyState : Type 0 where
  unset unknown normal warning critical : AnomalyState

pub record AnomalyStatus : Type 0 where
  pub state : AnomalyState
  pub reason : String

pub record SignalHistory (F : Type 0) : Type 0 where
  pub points : ℕ
  pub p50 : F
  pub p95 : F
  pub max : F

pub record SignalReport (F : Type 0) : Type 0 where
  pub name : String
  pub required : Bool
  pub anomaly : AnomalyStatus
  pub sample : Option F
  pub history : Option (SignalHistory F)

pub data ScoreClassification : Type 0 where
  overestimated underestimated accurate usable noisy : ScoreClassification

pub record ForecastAccuracyScore (F : Type 0) : Type 0 where
  pub signal : String
  pub samples : ℕ
  pub mean_absolute_percent_error : F
  pub mean_bias_percent : F
  pub classification : ScoreClassification

pub record ForecastAccuracy (F : Type 0) : Type 0 where
  pub samples : ℕ
  pub signals : List (ForecastAccuracyScore F)
  pub confidence_adjustment : F

pub data OutcomeStatus : Type 0 where
  no_change_recommended no_action_taken dry_run_not_applied not_applied : OutcomeStatus
  partially_applied too_aggressive too_conservative applied_successful : OutcomeStatus

pub record RecommendationOutcome : Type 0 where
  pub status : OutcomeStatus
  pub previous_observed_at : Option ℕ
  pub previous_current_replicas : ℕ
  pub previous_recommended_replicas : ℕ
  pub previous_current_cpu_request : String
  pub previous_recommended_cpu_request : String
  pub previous_current_memory_request : String
  pub previous_recommended_memory_request : String
  pub current_replicas : ℕ
  pub current_cpu_request : String
  pub current_memory_request : String
  pub details : List String

pub record PersistentLearning (F : Type 0) : Type 0 where
  pub prior_recommendation_runs : ℕ
  pub forecast_accuracy : Option (ForecastAccuracy F)
  pub last_recommended_cpu_request : String
  pub last_recommended_memory_request : String
  pub last_outcome : Option RecommendationOutcome

abbrev pub is_active_state : AnomalyState → Bool
is_active_state warning = true
is_active_state critical = true
is_active_state _ = false

module _ {F : Type 0} where
  -- `observationSignalAnomaly` of the analyzer is the same loop.
  unfoldable pub has_active_signal_anomaly : List (SignalReport F) → String → Bool
  has_active_signal_anomaly signals name =
      any_by (λ signal. str_eq signal.name name && is_active_state signal.anomaly.state) signals

  unfoldable pub signal_sample : List (SignalReport F) → String → Option F
  signal_sample [] name = none
  signal_sample (signal ∷ signals) name =
      let rest = signal_sample signals name in
      if str_eq signal.name name
      then (elim signal.sample [ some value ↦ some value | none ↦ rest ])
      else rest

  unfoldable pub signal_history : List (SignalReport F) → String → Option (SignalHistory F)
  signal_history [] name = none
  signal_history (signal ∷ signals) name =
      let rest = signal_history signals name in
      if str_eq signal.name name then signal.history else rest
