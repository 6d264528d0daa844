-- ===== src/Clamp.antt =====
-- internal/state/sqlite.go: requests are brought down to the limit of the workload's container.
pub mod Below
use Prim.Native.Nat.{Ordering}
use k8s_recommendation_engin.Prelude.{
  ℕ, String, Bool, true, false, ◌||◌, Option, none, some, List, [], ◌∷◌, ◌++◌, str_eq,
  if◌then◌else◌, ◌<>◌,
}
use k8s_recommendation_engin.Report.{WorkloadReport, Recommendation, ContainerReport}
use k8s_recommendation_engin.Quantity.{Quantities}

abbrev pub is_above : Ordering → Bool
is_above Ordering.gt = true
is_above _ = false

module _ {Q : Type 0} (quantities : Quantities Q) where
  -- `none` is the answer false, with which the recommended text is kept.
  unfoldable pub clamp_request_to_limit : (recommended limit : String) → Option String
  clamp_request_to_limit recommended limit =
      if str_eq recommended "" || str_eq limit ""
      then none
      else elim (quantities.parse recommended) [
        | none ↦ none
        | some wanted ↦ elim (quantities.parse limit) [
          | none ↦ none
          | some most ↦
              if is_above (quantities.cmp wanted most) then some (quantities.print most) else none
        ]
      ]

  abbrev pub clamp_cpu : {F : Type 0} → Option String → String → Recommendation F → Recommendation F
  clamp_cpu none limit rec = rec
  clamp_cpu (some clamped) limit rec = record rec {
    recommended_cpu_request = clamped;
    reason_codes = rec.reason_codes ++ ("cpu_request_clamped_to_limit:" <> limit) ∷ [];
  }

  abbrev pub clamp_memory :
      {F : Type 0} → Option String → String → Recommendation F → Recommendation F
  clamp_memory none limit rec = rec
  clamp_memory (some clamped) limit rec = record rec {
    recommended_memory_request = clamped;
    reason_codes = rec.reason_codes ++ ("memory_request_clamped_to_limit:" <> limit) ∷ [];
  }

  abbrev pub clamp_to_container :
      {F : Type 0} → List ContainerReport → Recommendation F → Recommendation F
  clamp_to_container [] rec = rec
  clamp_to_container (container ∷ []) rec =
      clamp_memory (clamp_request_to_limit rec.recommended_memory_request container.memory_limit)
        container.memory_limit
        (clamp_cpu (clamp_request_to_limit rec.recommended_cpu_request container.cpu_limit)
          container.cpu_limit rec)
  clamp_to_container (container ∷ (other ∷ others)) rec = rec

  unfoldable pub clamp_recommendation_requests_to_limits :
      {F : Type 0} → WorkloadReport F → WorkloadReport F
  clamp_recommendation_requests_to_limits workload = record workload {
    recommendation = clamp_to_container workload.containers workload.recommendation;
  }
