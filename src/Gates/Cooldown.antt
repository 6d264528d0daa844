-- ===== src/Gates/Cooldown.antt =====
-- internal/state/sqlite.go: the gates after an outcome that calls for observation.
use k8s_recommendation_engin.Prelude.{
  ℕ, ◌+◌, ◌≡◌, inl, inr, Bool, true, false, ◌&&◌, ◌||◌, Option, some, none, List, [], ◌∷◌, arith,
  String, is_some, any_by, Bool-cases,
}
use k8s_recommendation_engin.Report.{
  WorkloadReport, RecommendationOutcome, RecommendationStability, StabilityGate, blocked, stable,
}
use k8s_recommendation_engin.Quantity.{Quantities}
use k8s_recommendation_engin.Outcome.{PriorRun}
use k8s_recommendation_engin.Gates.{
  blocking_reason, apply_outcome_safety_gate, recent_cooldown, apply_recent_outcome_cooldown_gate,
  apply_availability_recovery_stability_gate, attach_stability, replicas_increase, cpu_increase,
  memory_increase, run_blocking_reason, evaluate_stability,
}

abbrev pub outcome_blocks : Option RecommendationOutcome → String → Bool
outcome_blocks none mode = false
outcome_blocks (some outcome) mode = is_some (blocking_reason outcome.status mode)

abbrev pub some_run_blocks : List PriorRun → String → Bool
some_run_blocks recent mode = any_by (λ run. is_some (run_blocking_reason run mode)) recent

abbrev pub AllBlocked : RecommendationStability → Type 0
AllBlocked s =
    (s.replicas.status ≡ blocked) × (s.cpu.status ≡ blocked) × (s.memory.status ≡ blocked)

outcome_gate-AllBlocked :
    (s : RecommendationStability) (outcome : Option RecommendationOutcome) (mode : String)
    → outcome_blocks outcome mode ≡ true
    → AllBlocked (apply_outcome_safety_gate s outcome mode)
unfolding apply_outcome_safety_gate
outcome_gate-AllBlocked s none mode h = cc
outcome_gate-AllBlocked s (some outcome) mode h = ground arith

recent_cooldown_keeps :
    (position : ℕ) (s : RecommendationStability) (recent : List PriorRun) (mode : String)
    → AllBlocked s
    → AllBlocked (recent_cooldown position s recent mode)
unfolding recent_cooldown
recent_cooldown_keeps position s [] mode h = h
recent_cooldown_keeps position s (run ∷ recent) mode h =
    ground (arith, recent_cooldown_keeps (position + 1) s recent mode h)

recent_cooldown-AllBlocked :
    (position : ℕ) (s : RecommendationStability) (recent : List PriorRun) (mode : String)
    → some_run_blocks recent mode ≡ true
    → AllBlocked (recent_cooldown position s recent mode)
unfolding recent_cooldown
recent_cooldown-AllBlocked position s [] mode h = cc
recent_cooldown-AllBlocked position s (run ∷ recent) mode h =
    ground (arith, recent_cooldown-AllBlocked (position + 1) s recent mode)

-- What is left of a blocked gate: it is stable where the recovery increases that field, else blocked.
abbrev pub GateAfter : Bool → StabilityGate → Type 0
GateAfter true g = g.status ≡ stable
GateAfter false g = g.status ≡ blocked

module _ {F Q : Type 0} (quantities : Quantities Q) where
  abbrev pub OnlyRecoveryIncreases : WorkloadReport F → RecommendationStability → Type 0
  OnlyRecoveryIncreases workload s =
      let rec = workload.recommendation in
      GateAfter (rec.availability_recovery && replicas_increase rec) s.replicas
      × GateAfter (rec.availability_recovery && cpu_increase quantities rec) s.cpu
      × GateAfter (rec.availability_recovery && memory_increase quantities rec) s.memory

  recovery_gate-OnlyRecoveryIncreases :
      (workload : WorkloadReport F) (s : RecommendationStability)
      → AllBlocked s
      → OnlyRecoveryIncreases workload
          (apply_availability_recovery_stability_gate quantities workload.recommendation s)
  unfolding apply_availability_recovery_stability_gate
  recovery_gate-OnlyRecoveryIncreases workload s h = ground arith

  -- If the last outcome or one of the recent runs blocks in the current mode, then each gate is
  -- blocked, but for a field that the recommendation increases while it is marked as one of
  -- availability recovery: that gate is stable, whether or not the workload has opted in to recovery
  -- and whatever the other fields do.
  pub attach_stability-cooldown :
      (workload : WorkloadReport F) (last_outcome : Option RecommendationOutcome)
      (recent : List PriorRun)
      → (outcome_blocks last_outcome workload.recommendation.mode
          || some_run_blocks recent workload.recommendation.mode)
        ≡ true
      → OnlyRecoveryIncreases workload (attach_stability quantities workload last_outcome recent)
  unfolding attach_stability apply_recent_outcome_cooldown_gate
  attach_stability-cooldown workload last_outcome recent h =
      let mode = workload.recommendation.mode in
      let evaluated = evaluate_stability quantities workload recent in
      let after_outcome = apply_outcome_safety_gate evaluated last_outcome mode in
      recovery_gate-OnlyRecoveryIncreases workload _
        (elim (Bool-cases (some_run_blocks recent mode)) [
          | inl blocks ↦ recent_cooldown-AllBlocked 1 after_outcome recent mode blocks
          | inr clear ↦
              recent_cooldown_keeps 1 after_outcome recent mode
                (outcome_gate-AllBlocked evaluated last_outcome mode (ground arith))
        ])
