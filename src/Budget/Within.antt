-- ===== src/Budget/Within.antt =====
-- internal/state/proposal_budget.go: the plans that are left after the budgets.
use k8s_recommendation_engin.Prelude.{
  ℕ, ◌-◌, ◌*◌, String, Bool, true, false, not, ◌&&◌, ◌||◌, Option, none, some, List, [], ◌∷◌, ◌++◌,
  str_eq, leb, ◌==◌, is_empty,
}
use k8s_recommendation_engin.Stamp.{format_nano, hour}
use k8s_recommendation_engin.Report.{PatchPlan, patch_plan_applyable, WorkloadReport, Report}
use k8s_recommendation_engin.Profile.{PolicySpec, WorkloadSpec, ApplicationProfile, spec_named}
use k8s_recommendation_engin.Budget.Increase.{Numerics, availability_recovery_plan}
use k8s_recommendation_engin.Prelude.{◌≡◌, refl, ◌∙◌, arith, All, All-map, Bool-cases, inl, inr}
use k8s_recommendation_engin.Budget.{
  ProposalEvent, WorkloadKey, key_of, count_proposal_events_since, budget_reasons,
  proposal_budget_block_reasons, budget_plan, budget_option, budget_workload,
  apply_proposal_budgets,
}

-- A limit that is set and that the events since a time have reached.
abbrev pub is_exhausted : List ProposalEvent → WorkloadKey → (since limit : ℕ) → Bool
is_exhausted events key since limit =
    not (limit == 0) && leb limit (count_proposal_events_since events key (format_nano since))

-- One of the two budgets of a policy is exhausted.
abbrev pub is_overspent : List ProposalEvent → WorkloadKey → (generated_at : ℕ) → PolicySpec → Bool
is_overspent events key generated_at policy =
    is_exhausted events key (generated_at - hour) policy.max_proposals_per_hour
    || is_exhausted events key (generated_at - 24 * hour) policy.max_proposals_per_day

-- A plan that would be proposed although a budget is exhausted and recovery does not excuse it.
abbrev pub plan_overspends :
    {F Q : Type 0}
    → Numerics F Q
    → List ProposalEvent
    → WorkloadKey
    → (generated_at : ℕ) → Option WorkloadSpec
    → WorkloadReport F
    → Option PatchPlan
    → Bool
plan_overspends numerics events key generated_at none workload plan = false
plan_overspends numerics events key generated_at (some spec) workload none = false
plan_overspends numerics events key generated_at (some spec) workload (some plan) =
    patch_plan_applyable (some plan)
    && not (
        spec.policy.availability_recovery.enabled
        && availability_recovery_plan numerics workload plan)
    && is_overspent events key generated_at spec.policy

abbrev pub overspends :
    {F Q : Type 0}
    → Numerics F Q
    → List ProposalEvent
    → (application : String) → (generated_at : ℕ) → List WorkloadSpec
    → WorkloadReport F
    → Bool
overspends numerics events application generated_at specs workload =
    str_eq workload.recommendation.mode "propose"
    && plan_overspends numerics events (key_of application workload) generated_at
        (spec_named specs workload.name) workload workload.recommendation.patch_plan

is_empty-append : {A : Type 0} (xs ys : List A) → is_empty (xs ++ ys) ≡ is_empty xs && is_empty ys
is_empty-append [] ys = refl
is_empty-append (x ∷ xs) ys = refl

budget_reasons-is_empty :
    (events : List ProposalEvent) (key : WorkloadKey) (since limit : ℕ) (window : String)
    → is_empty (budget_reasons events key since limit window)
      ≡ not (is_exhausted events key since limit)
unfolding budget_reasons
budget_reasons-is_empty events key since limit window = elim (Bool-cases (limit == 0)) [
  | inl off ↦ rw off refl
  | inr on ↦
      elim (Bool-cases (leb limit (count_proposal_events_since events key (format_nano since)))) [
        | inl full ↦ rw (on, full) refl
        | inr room ↦ rw (on, room) refl
      ]
]

pub block_reasons-is_empty :
    (events : List ProposalEvent) (key : WorkloadKey) (generated_at : ℕ) (policy : PolicySpec)
    → is_empty (proposal_budget_block_reasons events key generated_at policy)
      ≡ not (is_overspent events key generated_at policy)
unfolding proposal_budget_block_reasons
block_reasons-is_empty events key generated_at policy =
    is_empty-append
      (budget_reasons events key (generated_at - hour) policy.max_proposals_per_hour " in last 1h")
      (budget_reasons events key (generated_at - 24 * hour) policy.max_proposals_per_day
        " in last 24h")
    ∙ rw
        (
          budget_reasons-is_empty events key (generated_at - hour) policy.max_proposals_per_hour
              " in last 1h",
          budget_reasons-is_empty events key (generated_at - 24 * hour) policy.max_proposals_per_day
              " in last 24h",
        )
        (not_or (is_exhausted events key (generated_at - hour) policy.max_proposals_per_hour)
          (is_exhausted events key (generated_at - 24 * hour) policy.max_proposals_per_day))
  where
    not_or : (a b : Bool) → (not a && not b) ≡ not (a || b)
    not_or true b = refl
    not_or false b = refl

module _ {F Q : Type 0} (numerics : Numerics F Q) (events : List ProposalEvent) where
  abbrev pub excused : WorkloadSpec → WorkloadReport F → PatchPlan → Bool
  excused spec workload plan =
      spec.policy.availability_recovery.enabled && availability_recovery_plan numerics workload plan

  budget_plan-within :
      (key : WorkloadKey) (generated_at : ℕ) (spec : WorkloadSpec) (workload : WorkloadReport F)
      (plan : PatchPlan)
      → plan_overspends numerics events key generated_at
          (some spec)
          workload
          (some (budget_plan numerics events key generated_at spec.policy workload plan))
        ≡ false
  unfolding budget_plan availability_recovery_plan patch_plan_applyable
  budget_plan-within key generated_at spec workload plan =
      elim (Bool-cases (excused spec workload plan)) [
        | inl free ↦ simp free (ground arith)
        | inr counted ↦ elim (Bool-cases (is_overspent events key generated_at spec.policy)) [
          | inl over ↦
              simp (counted, block_reasons-is_empty events key generated_at spec.policy, over) refl
          | inr under ↦
              simp (counted, block_reasons-is_empty events key generated_at spec.policy, under)
                (ground arith)
        ]
      ]

  budget_option-within :
      (key : WorkloadKey) (generated_at : ℕ) (spec : Option WorkloadSpec)
      (workload : WorkloadReport F) (plan : Option PatchPlan)
      → plan_overspends numerics events key generated_at spec workload
          (budget_option numerics events key generated_at spec workload plan)
        ≡ false
  unfolding budget_option
  budget_option-within key generated_at none workload none = refl
  budget_option-within key generated_at none workload (some plan) = refl
  budget_option-within key generated_at (some spec) workload none = refl
  budget_option-within key generated_at (some spec) workload (some plan) =
      elim (Bool-cases (plan.blocked || not (is_empty plan.errors) || is_empty plan.changes)) [
        | inl passed_by ↦ rw passed_by (unfold patch_plan_applyable in ground arith)
        | inr counted ↦ rw counted (budget_plan-within key generated_at spec workload plan)
      ]

  abbrev with_option : WorkloadReport F → Option PatchPlan → WorkloadReport F
  with_option workload plan = record workload {
    recommendation = record workload.recommendation { patch_plan = plan };
  }

  -- Whether a plan overspends does not depend on the plan that the workload holds.
  with_option-overspends :
      (key : WorkloadKey) (generated_at : ℕ) (spec : Option WorkloadSpec)
      (workload : WorkloadReport F) (held plan : Option PatchPlan)
      → plan_overspends numerics events key generated_at spec (with_option workload held) plan
        ≡ plan_overspends numerics events key generated_at spec workload plan
  unfolding availability_recovery_plan
  with_option-overspends key generated_at none workload held plan = refl
  with_option-overspends key generated_at (some spec) workload held none = refl
  with_option-overspends key generated_at (some spec) workload held (some plan) = refl

  abbrev budgeted :
      (application : String)
      → (generated_at : ℕ) → List WorkloadSpec
      → WorkloadReport F
      → Option PatchPlan
  budgeted application generated_at specs workload =
      budget_option numerics events (key_of application workload) generated_at
        (spec_named specs workload.name) workload workload.recommendation.patch_plan

  budget_workload-within :
      (application : String) (generated_at : ℕ) (specs : List WorkloadSpec)
      (workload : WorkloadReport F)
      → overspends numerics events application generated_at specs
          (budget_workload numerics events application generated_at specs workload)
        ≡ false
  unfolding budget_workload
  budget_workload-within application generated_at specs workload =
      elim (Bool-cases (str_eq workload.recommendation.mode "propose")) [
        | inr other ↦ simp other refl
        | inl propose ↦ simp propose (
            with_option-overspends (key_of application workload) generated_at
              (spec_named specs workload.name) workload
              (budgeted application generated_at specs workload)
              (budgeted application generated_at specs workload)
            ∙ budget_option-within (key_of application workload) generated_at
                (spec_named specs workload.name) workload workload.recommendation.patch_plan)
      ]

-- After the budgets no workload of the report that is in the mode `propose` and that the profile
-- names has an applyable plan while a limit of its policy is set that the counted events of the last
-- hour or day have reached, unless recovery is enabled and the plan is one of recovery.
pub apply_proposal_budgets-within :
    {F Q : Type 0} (numerics : Numerics F Q) (events : List ProposalEvent)
    (profile : ApplicationProfile) (report : Report F)
    → All
        (λ workload.
          overspends numerics events report.application report.generated_at profile.workloads
            workload
          ≡ false)
        (apply_proposal_budgets numerics events profile report).workloads
unfolding apply_proposal_budgets
apply_proposal_budgets-within numerics events profile report =
    All-map
      (λ workload.
        overspends numerics events report.application report.generated_at profile.workloads workload
        ≡ false)
      (λ workload.
        budget_workload numerics events report.application report.generated_at profile.workloads
          workload)
      (budget_workload-within numerics events report.application report.generated_at
        profile.workloads)
      report.workloads
