-- ===== src/Profile.antt =====
-- internal/config/config.go: the parts of an application profile that the modelled stages read. An
-- `int` that the code only tests for `> 0` is a natural number: a negative one acts as 0.
use k8s_recommendation_engin.Prelude.{
  ℕ, String, Bool, Option, some, none, List, [], ◌∷◌, str_eq, if◌then◌else◌,
}
use k8s_recommendation_engin.Report.{Risk}

pub record SafetyPolicySpec : Type 0 where
  pub allow_auto_commit : List Risk
  pub max_decrease_risk : Option Risk
  pub urgent_bypass_allowed : Option Bool

-- The durations are texts such as `2m`.
pub record AvailabilityRecoveryPolicySpec : Type 0 where
  pub enabled : Bool
  pub failure_grace_period : String
  pub cooldown : String
  pub max_attempts_per_hour : ℕ

pub record PolicySpec : Type 0 where
  pub max_proposals_per_hour : ℕ
  pub max_proposals_per_day : ℕ
  pub safety : SafetyPolicySpec
  pub availability_recovery : AvailabilityRecoveryPolicySpec

pub record WorkloadSpec : Type 0 where
  pub name : String
  pub policy : PolicySpec

pub record ApplicationProfile : Type 0 where
  pub workloads : List WorkloadSpec

-- The map from names to workloads that each stage builds first: the last of two equal names wins.
unfoldable pub spec_named : List WorkloadSpec → String → Option WorkloadSpec
spec_named [] name = none
spec_named (spec ∷ specs) name = elim (spec_named specs name) [
  | some later ↦ some later
  | none ↦ if str_eq spec.name name then some spec else none
]
