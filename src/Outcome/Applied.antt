-- ===== src/Outcome/Applied.antt =====
-- internal/state/sqlite.go: the statuses of `classifyOutcome`.
use k8s_recommendation_engin.Prelude.{◌≡◌, ◌↔◌, Bool, true, false, not, ◌&&◌, ◌||◌, arith}
use k8s_recommendation_engin.Report.{
  WorkloadReport, OutcomeStatus, applied_successful, partially_applied, too_aggressive,
  too_conservative,
}
use k8s_recommendation_engin.Quantity.{Quantities}
use k8s_recommendation_engin.Outcome.{
  PriorRun, replicas_changed, cpu_changed, memory_changed, replicas_arrived, cpu_arrived,
  memory_arrived, classify_outcome, workload_unhealthy, still_moving_same_direction,
}

-- The previous run wanted to change some field.
abbrev pub WantedChange : PriorRun → Type 0
WantedChange previous =
    (replicas_changed previous || cpu_changed previous || memory_changed previous) ≡ true

-- The statuses that are given only after everything arrived.
abbrev pub is_arrived_status : OutcomeStatus → Bool
is_arrived_status too_aggressive = true
is_arrived_status too_conservative = true
is_arrived_status applied_successful = true
is_arrived_status _ = false

module _ {F : Type 0} where
  -- Every field that the previous run wanted to change now has the value that it recommended.
  abbrev pub AllArrived : PriorRun → WorkloadReport F → Type 0
  AllArrived previous current =
      ((not (replicas_changed previous) || replicas_arrived previous current) ≡ true)
      × ((not (cpu_changed previous) || cpu_arrived previous current) ≡ true)
      × ((not (memory_changed previous) || memory_arrived previous current) ≡ true)

  -- Some field that the previous run wanted to change has the value that it recommended.
  abbrev pub SomeArrived : PriorRun → WorkloadReport F → Type 0
  SomeArrived previous current =
      ((replicas_changed previous && replicas_arrived previous current)
        || (cpu_changed previous && cpu_arrived previous current)
        || (memory_changed previous && memory_arrived previous current))
      ≡ true

  -- Some field that the previous run wanted to change has another value.
  abbrev pub SomeMissed : PriorRun → WorkloadReport F → Type 0
  SomeMissed previous current =
      ((replicas_changed previous && not (replicas_arrived previous current))
        || (cpu_changed previous && not (cpu_arrived previous current))
        || (memory_changed previous && not (memory_arrived previous current)))
      ≡ true

module _ {F Q : Type 0} (quantities : Quantities Q) where
  -- The outcome is too aggressive, too conservative or successful exactly when the previous run
  -- wanted some change and every field that it wanted to change now holds the recommended value.
  pub classify_outcome-AllArrived :
      (previous : PriorRun) (current : WorkloadReport F)
      → (is_arrived_status (classify_outcome quantities previous current).status ≡ true)
        ↔ (WantedChange previous × AllArrived previous current)
  unfolding classify_outcome
  classify_outcome-AllArrived previous current = (λ h. ground arith, λ h. ground arith)

  -- The outcome is partially applied exactly when some wanted field arrived and some other did not.
  pub classify_outcome-partial :
      (previous : PriorRun) (current : WorkloadReport F)
      → ((classify_outcome quantities previous current).status ≡ partially_applied)
        ↔ (SomeArrived previous current × SomeMissed previous current)
  unfolding classify_outcome
  classify_outcome-partial previous current = (λ h. ground arith, λ h. ground arith)

  -- The outcome is successful exactly when some change was wanted, every wanted field arrived, the
  -- workload is healthy and the current recommendation does not go on in the same direction.
  pub classify_outcome-successful :
      (previous : PriorRun) (current : WorkloadReport F)
      → ((classify_outcome quantities previous current).status ≡ applied_successful) ↔ (
          WantedChange previous
          × AllArrived previous current
          × (workload_unhealthy current ≡ false)
          × (still_moving_same_direction quantities previous current ≡ false))
  unfolding classify_outcome
  classify_outcome-successful previous current = (λ h. ground arith, λ h. ground arith)
