-- ===== src/Gates/Consistent.antt =====
-- internal/state/sqlite.go: the actionable flag and the gates of `Store.Attach`.
use k8s_recommendation_engin.Prelude.{
  ℕ, ◌+◌, ◌≡◌, refl, Option, some, none, List, [], ◌∷◌, arith, String,
}
use k8s_recommendation_engin.Report.{
  WorkloadReport, Recommendation, RecommendationOutcome, RecommendationStability,
}
use k8s_recommendation_engin.Quantity.{Quantities}
use k8s_recommendation_engin.Outcome.{PriorRun}
use k8s_recommendation_engin.Gates.{
  all_actionable, evaluate_stability, apply_outcome_safety_gate, recent_cooldown,
  apply_recent_outcome_cooldown_gate, apply_availability_recovery_stability_gate, attach_stability,
}

abbrev pub IsConsistent : RecommendationStability → Type 0
IsConsistent s = s.actionable ≡ all_actionable s.replicas s.cpu s.memory

apply_outcome_safety_gate-IsConsistent :
    (s : RecommendationStability) (outcome : Option RecommendationOutcome) (mode : String)
    → IsConsistent s
    → IsConsistent (apply_outcome_safety_gate s outcome mode)
unfolding apply_outcome_safety_gate
apply_outcome_safety_gate-IsConsistent s none mode h = h
apply_outcome_safety_gate-IsConsistent s (some outcome) mode h = ground arith

recent_cooldown-IsConsistent :
    (position : ℕ) (s : RecommendationStability) (recent : List PriorRun) (mode : String)
    → IsConsistent s
    → IsConsistent (recent_cooldown position s recent mode)
unfolding recent_cooldown
recent_cooldown-IsConsistent position s [] mode h = h
recent_cooldown-IsConsistent position s (run ∷ recent) mode h =
    ground (arith, recent_cooldown-IsConsistent (position + 1) s recent mode h)

module _ {F Q : Type 0} (quantities : Quantities Q) where
  evaluate_stability-IsConsistent :
      (workload : WorkloadReport F) (recent : List PriorRun)
      → IsConsistent (evaluate_stability quantities workload recent)
  unfolding evaluate_stability
  evaluate_stability-IsConsistent workload recent = refl

  recovery_gate-IsConsistent :
      (rec : Recommendation F) (s : RecommendationStability)
      → IsConsistent s
      → IsConsistent (apply_availability_recovery_stability_gate quantities rec s)
  unfolding apply_availability_recovery_stability_gate
  recovery_gate-IsConsistent rec s h = ground arith

  -- After all the gates of `Attach` the stability is actionable exactly when each gate is.
  pub attach_stability-IsConsistent :
      (workload : WorkloadReport F) (last_outcome : Option RecommendationOutcome)
      (recent : List PriorRun)
      → IsConsistent (attach_stability quantities workload last_outcome recent)
  unfolding attach_stability apply_recent_outcome_cooldown_gate
  attach_stability-IsConsistent workload last_outcome recent =
      let rec = workload.recommendation in
      let evaluated = evaluate_stability quantities workload recent in
      recovery_gate-IsConsistent rec _ (
        recent_cooldown-IsConsistent 1 _ recent rec.mode (
          apply_outcome_safety_gate-IsConsistent evaluated last_outcome rec.mode
            (evaluate_stability-IsConsistent workload recent)))
