-- ===== src/Gates/Evidence.antt =====
-- internal/state/sqlite.go: the runs that make a gate stable.
use Prim.Native.Nat.{Ordering}
use k8s_recommendation_engin.Prelude.{
  ◌≤◌, ◌<◌, ◌≡◌, ◌↔◌, ◌⊎◌, inl, inr, Bool-cases, true, false, List, [], ◌∷◌, some, arith, String,
}
use k8s_recommendation_engin.Report.{WorkloadReport, stable}
use k8s_recommendation_engin.Quantity.{Quantities}
use k8s_recommendation_engin.Outcome.{PriorRun, workload_unhealthy, resource_direction}
use k8s_recommendation_engin.Gates.{
  consecutive_replica_direction, evaluate_replica_gate, urgent_increase, decrease_forbidden,
  ResourceKind, prior_current, prior_recommended, consecutive_resource_direction,
  evaluate_resource_gate,
}

-- The two latest runs both satisfy a predicate.
abbrev pub LastTwo : (PriorRun → Type 0) → List PriorRun → Type 0
LastTwo P [] = ⊥
LastTwo P (run ∷ []) = ⊥
LastTwo P (run ∷ (before ∷ rest)) = P run × P before

abbrev pub Raised : PriorRun → Type 0
Raised run = run.current_replicas < run.recommended_replicas

abbrev pub Lowered : PriorRun → Type 0
Lowered run = run.recommended_replicas < run.current_replicas

two_up :
    (recent : List PriorRun)
    → (2 ≤ consecutive_replica_direction recent Ordering.gt) ↔ LastTwo Raised recent
unfolding consecutive_replica_direction
two_up [] = (λ h. omega arith, λ h. absurd h)
two_up (run ∷ []) = (λ h. ground arith, λ h. absurd h)
two_up (run ∷ (before ∷ rest)) = (λ h. ground arith, λ h. ground arith)

two_down :
    (recent : List PriorRun)
    → (2 ≤ consecutive_replica_direction recent Ordering.lt) ↔ LastTwo Lowered recent
unfolding consecutive_replica_direction
two_down [] = (λ h. omega arith, λ h. absurd h)
two_down (run ∷ []) = (λ h. ground arith, λ h. absurd h)
two_down (run ∷ (before ∷ rest)) = (λ h. ground arith, λ h. ground arith)

module _ {F : Type 0} where
  -- A replica decrease is stable exactly when no reason code forbids it, the workload is healthy and
  -- the two latest runs both wanted fewer replicas too.
  pub evaluate_replica_gate-decrease :
      (workload : WorkloadReport F) (recent : List PriorRun)
      → workload.recommendation.recommended_replicas < workload.recommendation.current_replicas
      → ((evaluate_replica_gate workload recent).status ≡ stable) ↔ (
          (decrease_forbidden workload.recommendation ≡ false)
          × (workload_unhealthy workload ≡ false)
          × LastTwo Lowered recent)
  unfolding evaluate_replica_gate
  evaluate_replica_gate-decrease workload recent less = (
    λ h.
        let two : 2 ≤ consecutive_replica_direction recent Ordering.lt = ground arith in
        (ground arith, ground arith, (two_down recent).0 two),
    λ h. let two = (two_down recent).1 h.2 in ground arith,
  )

  -- A replica increase is stable exactly when it is urgent or the two latest runs both wanted more
  -- replicas too.
  pub evaluate_replica_gate-increase :
      (workload : WorkloadReport F) (recent : List PriorRun)
      → workload.recommendation.current_replicas < workload.recommendation.recommended_replicas
      → ((evaluate_replica_gate workload recent).status ≡ stable)
        ↔ ((urgent_increase workload.recommendation ≡ true) ⊎ LastTwo Raised recent)
  unfolding evaluate_replica_gate
  evaluate_replica_gate-increase workload recent more = (
    λ h. elim (Bool-cases (urgent_increase workload.recommendation)) [
      | inl urgent ↦ inl urgent
      | inr calm ↦
          let two : 2 ≤ consecutive_replica_direction recent Ordering.gt = ground arith in
          inr ((two_up recent).0 two)
    ],
    λ h. elim h [
      | inl urgent ↦ ground arith
      | inr raised ↦ let two = (two_up recent).1 raised in ground arith
    ],
  )

module _ {Q : Type 0} (quantities : Quantities Q) where
  abbrev pub LoweredRequest : ResourceKind → PriorRun → Type 0
  LoweredRequest kind run =
      resource_direction quantities (prior_current kind run) (prior_recommended kind run)
      ≡ some Ordering.lt

  two_lowered :
      (kind : ResourceKind) (recent : List PriorRun)
      → (2 ≤ consecutive_resource_direction quantities kind Ordering.lt recent)
        ↔ LastTwo (LoweredRequest kind) recent
  unfolding consecutive_resource_direction
  two_lowered kind [] = (λ h. omega arith, λ h. absurd h)
  two_lowered kind (run ∷ []) = (λ h. ground arith, λ h. absurd h)
  two_lowered kind (run ∷ (before ∷ rest)) = (λ h. ground arith, λ h. ground arith)

  -- A request decrease is stable exactly when the two latest runs both lowered that request too.
  pub evaluate_resource_gate-decrease :
      (name current recommended : String) (recent : List PriorRun) (kind : ResourceKind)
      → resource_direction quantities current recommended ≡ some Ordering.lt
      → ((evaluate_resource_gate quantities name current recommended recent kind).status ≡ stable)
        ↔ LastTwo (LoweredRequest kind) recent
  unfolding evaluate_resource_gate
  evaluate_resource_gate-decrease name current recommended recent kind less = (
    λ h.
        let two : 2 ≤ consecutive_resource_direction quantities kind Ordering.lt recent =
          ground arith in
        (two_lowered kind recent).0 two,
    λ h. let two = (two_lowered kind recent).1 h in ground arith,
  )
