-- ===== src/Safety/Classified.antt =====
-- The classification of a recommendation and its factors.
use k8s_recommendation_engin.Prelude.{
  ◌≤◌, ◌≡◌, refl, arith, List, [], ◌∷◌, All, inl, inr, ◌⊎◌, sym, ◌∙◌,
}
use k8s_recommendation_engin.Report.{
  Risk, low_risk, medium_risk, high_risk, SafetyFactor, WorkloadReport, SignalReport,
}
use k8s_recommendation_engin.Safety.{Floats, risk_rank}
use k8s_recommendation_engin.Safety.Assess.{
  raise_to, classify_factors, classify_recommendation_safety,
}

raise_to-bounds :
    (so_far risk : Risk)
    → (risk_rank so_far ≤ risk_rank (raise_to so_far risk))
      × (risk_rank risk ≤ risk_rank (raise_to so_far risk))
      × ((raise_to so_far risk ≡ so_far) ⊎ (raise_to so_far risk ≡ risk))
raise_to-bounds low_risk low_risk = (omega arith, omega arith, inl refl)
raise_to-bounds low_risk medium_risk = (omega arith, omega arith, inr refl)
raise_to-bounds low_risk high_risk = (omega arith, omega arith, inr refl)
raise_to-bounds medium_risk low_risk = (omega arith, omega arith, inl refl)
raise_to-bounds medium_risk medium_risk = (omega arith, omega arith, inl refl)
raise_to-bounds medium_risk high_risk = (omega arith, omega arith, inr refl)
raise_to-bounds high_risk low_risk = (omega arith, omega arith, inl refl)
raise_to-bounds high_risk medium_risk = (omega arith, omega arith, inl refl)
raise_to-bounds high_risk high_risk = (omega arith, omega arith, inl refl)

-- One of the factors has the risk.
abbrev pub HasRisk : List SafetyFactor → Risk → Type 0
HasRisk [] risk = ⊥
HasRisk (f ∷ factors) risk = (f.classification ≡ risk) ⊎ HasRisk factors risk

classify_factors-bounds :
    (so_far : Risk) (factors : List SafetyFactor)
    → (risk_rank so_far ≤ risk_rank (classify_factors so_far factors))
      × All (λ f. risk_rank f.classification ≤ risk_rank (classify_factors so_far factors)) factors
      × ((classify_factors so_far factors ≡ so_far)
          ⊎ HasRisk factors (classify_factors so_far factors))
unfolding classify_factors
classify_factors-bounds so_far [] = (omega arith, tt, inl refl)
classify_factors-bounds so_far (f ∷ factors) =
    let (more, covers, from) = raise_to-bounds so_far f.classification in
    let (later, all, rest) = classify_factors-bounds (raise_to so_far f.classification) factors in
    (
      omega (arith, more, later),
      (omega (arith, covers, later), all),
      elim rest [
        | inr there ↦ inr (inr there)
        | inl same ↦ elim from [
          | inl kept ↦ inl (same ∙ kept)
          | inr raised ↦ inr (inl (sym (same ∙ raised)))
        ]
      ],
    )

-- The classification is the greatest risk of the factors: no factor has a greater one, and it is
-- low or that of a factor.
pub classify_recommendation_safety-greatest :
    {F : Type 0} (floats : Floats F) (workload : WorkloadReport F)
    (shared_signals : List (SignalReport F))
    → All
        (λ f.
          risk_rank f.classification
          ≤ risk_rank
              (classify_recommendation_safety floats workload shared_signals).classification)
        (classify_recommendation_safety floats workload shared_signals).factors
      × (((classify_recommendation_safety floats workload shared_signals).classification ≡ low_risk)
          ⊎ HasRisk
              (classify_recommendation_safety floats workload shared_signals).factors
              (classify_recommendation_safety floats workload shared_signals).classification)
unfolding classify_recommendation_safety
classify_recommendation_safety-greatest floats workload shared_signals =
    let (more, all, from) =
      classify_factors-bounds low_risk
        (classify_recommendation_safety floats workload shared_signals).factors in
    (all, from)
