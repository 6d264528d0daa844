-- ===== src/Budget.antt =====
-- internal/state/proposal_budget.go: the hourly and daily budgets of proposals, and the window in
-- which a plan must stay the same before it is proposed. The two tables are lists of rows, the newest
-- first. `json.Marshal` of a plan is the parameter `encode`. Floating point numbers and quantities
-- are parameters.
pub mod Increase
pub mod Batch
pub mod Within
pub mod Spent
pub mod Window
pub mod Status
use k8s_recommendation_engin.Prelude.{
  ℕ, suc, ◌+◌, ◌-◌, ◌*◌, String, Bool, true, false, not, ◌&&◌, ◌||◌, Option, none, some, List, [],
  ◌∷◌, ◌++◌, map, str_eq, ltb, leb, ◌==◌, if◌then◌else◌, count_by, keep, find_by, is_empty, length,
  any_by, decimal, ◌<>◌,
}
use k8s_recommendation_engin.Stamp.{Stamp, format_nano, parse_stamp, stamp_ge, hour}
use k8s_recommendation_engin.Report.{
  PatchPlan, patch_plan_applyable, ProposalReport, Recommendation, WorkloadReport, Report,
}
use k8s_recommendation_engin.Profile.{
  PolicySpec, SafetyPolicySpec, AvailabilityRecoveryPolicySpec, WorkloadSpec, ApplicationProfile,
  spec_named,
}
use k8s_recommendation_engin.Budget.Increase.{
  Numerics, availability_recovery_plan, urgent_batch_bypass,
}

pub data ProposalStatus : Type 0 where
  failed blocked pushed local_commit patch created : ProposalStatus

abbrev pub took_effect : ProposalStatus → Bool
took_effect failed = false
took_effect blocked = false
took_effect _ = true

-- The columns that name a workload in both tables.
pub record WorkloadKey : Type 0 where
  pub application : String
  pub namespace : String
  pub workload : String

abbrev pub same_key : WorkloadKey → WorkloadKey → Bool
same_key key row =
    str_eq row.application key.application
    && str_eq row.namespace key.namespace
    && str_eq row.workload key.workload

-- A row of proposal_events.
pub record ProposalEvent : Type 0 where
  pub key : WorkloadKey
  pub deployment : String
  pub generated_at : Stamp
  pub kind : String
  pub commit : String
  pub patch_file : String
  pub changes_count : ℕ
  pub status : ProposalStatus
  pub message : String
  pub pushed : Bool
  pub remote : String
  pub push_ref : String
  pub errors : List String

-- A row of proposal_batch_items.
pub record BatchItem : Type 0 where
  pub key : WorkloadKey
  pub deployment : String
  pub source_file : String
  pub resource : String
  pub plan_json : String
  pub first_seen_at : Stamp
  pub last_seen_at : Stamp

unfoldable pub count_proposal_events_since : List ProposalEvent → WorkloadKey → Stamp → ℕ
count_proposal_events_since events key since =
    count_by
      (λ event.
        same_key key event.key && stamp_ge event.generated_at since && took_effect event.status)
      events

-- One of the two budgets: a limit of 0 is none.
unfoldable pub budget_reasons :
    List ProposalEvent → WorkloadKey → (since limit : ℕ) → String → List String
budget_reasons events key since limit window =
    let count = count_proposal_events_since events key (format_nano since) in
    if limit == 0
    then []
    else if leb limit count
    then ("proposal budget exhausted: " <> decimal count <> "/" <> decimal limit <> window) ∷ []
    else []

unfoldable pub proposal_budget_block_reasons :
    List ProposalEvent → WorkloadKey → (generated_at : ℕ) → PolicySpec → List String
unfolding budget_reasons
proposal_budget_block_reasons events key generated_at policy =
    budget_reasons events key (generated_at - hour) policy.max_proposals_per_hour " in last 1h"
    ++ budget_reasons events key (generated_at - 24 * hour) policy.max_proposals_per_day
        " in last 24h"

abbrev pub block_plan : PatchPlan → List String → PatchPlan
block_plan plan reasons = record plan {
  blocked = true;
  needed = false;
  block_reasons = plan.block_reasons ++ reasons;
}

abbrev pub note_plan : PatchPlan → String → PatchPlan
note_plan plan reason = record plan { block_reasons = plan.block_reasons ++ reason ∷ [] }

unfoldable pub recommendation_has_change : {F : Type 0} → Recommendation F → Bool
recommendation_has_change r =
    not (r.current_replicas == r.recommended_replicas)
    || not (str_eq r.current_cpu_request r.recommended_cpu_request)
    || not (str_eq r.current_memory_request r.recommended_memory_request)

abbrev pub with_plan : {F : Type 0} → WorkloadReport F → PatchPlan → WorkloadReport F
with_plan workload plan = record workload {
  recommendation = record workload.recommendation { patch_plan = some plan };
}

abbrev pub key_of : {F : Type 0} → String → WorkloadReport F → WorkloadKey
key_of application workload = record {
  application = application;
  namespace = workload.namespace;
  workload = workload.name;
}

-- `block_plan` on a plan that may be missing.
abbrev pub block_applyable : Option PatchPlan → List String → Option PatchPlan
block_applyable none reasons = none
block_applyable (some plan) reasons =
    if patch_plan_applyable (some plan) then some (block_plan plan reasons) else some plan

abbrev pub block_workload : {F : Type 0} → List String → WorkloadReport F → WorkloadReport F
block_workload reasons workload = record workload {
  recommendation = record workload.recommendation {
    patch_plan = block_applyable workload.recommendation.patch_plan reasons;
  };
}

-- `blockApplyablePlans`.
unfoldable pub block_applyable_plans :
    {F : Type 0} → List (WorkloadReport F) → String → List (WorkloadReport F)
block_applyable_plans workloads reason =
    map (λ workload. block_workload (reason ∷ []) workload) workloads

abbrev pub proposal_event_status : ProposalReport → ProposalStatus
proposal_event_status proposal =
    if not (is_empty proposal.errors)
    then failed
    else if proposal.blocked
    then blocked
    else if proposal.pushed
    then pushed
    else if not (str_eq proposal.commit "")
    then local_commit
    else if not (str_eq proposal.patch_file "")
    then patch
    else created

-- The two tables.
pub record Tables : Type 0 where
  pub events : List ProposalEvent
  pub batch : List BatchItem

abbrev pub delete_proposal_batch_item : WorkloadKey → List BatchItem → List BatchItem
delete_proposal_batch_item key items = keep (λ item. not (same_key key item.key)) items

abbrev pub event_of :
    {F : Type 0}
    → WorkloadKey
    → WorkloadReport F
    → (generated_at : ℕ) → ProposalReport
    → PatchPlan
    → ProposalEvent
event_of key workload generated_at proposal plan = record {
  key = key;
  deployment = workload.deployment;
  generated_at = format_nano generated_at;
  kind = proposal.kind;
  commit = proposal.commit;
  patch_file = proposal.patch_file;
  changes_count = length plan.changes;
  status = proposal_event_status proposal;
  message = proposal.message;
  pushed = proposal.pushed;
  remote = proposal.remote;
  push_ref = proposal.push_ref;
  errors = proposal.errors;
}

-- The body of the loop of `RecordProposalEvents`.
unfoldable pub record_event :
    {F : Type 0}
    → WorkloadKey
    → WorkloadReport F
    → (generated_at : ℕ) → ProposalReport
    → Option PatchPlan
    → Tables
    → Tables
record_event key workload generated_at proposal none tables = tables
record_event key workload generated_at proposal (some plan) tables =
    if patch_plan_applyable (some plan)
    then record {
      events = event_of key workload generated_at proposal plan ∷ tables.events;
      batch =
          if took_effect (proposal_event_status proposal)
          then delete_proposal_batch_item key tables.batch
          else tables.batch;
    }
    else tables

unfoldable pub record_events :
    {F : Type 0}
    → (application : String) → (generated_at : ℕ) → ProposalReport
    → List (WorkloadReport F)
    → Tables
    → Tables
unfolding record_event
record_events application generated_at proposal [] tables = tables
record_events application generated_at proposal (workload ∷ workloads) tables =
    record_events application generated_at proposal workloads (
      record_event (key_of application workload) workload generated_at proposal
        workload.recommendation.patch_plan tables)

unfoldable pub record_proposal_events : {F : Type 0} → Report F → Tables → Tables
unfolding record_events
record_proposal_events report tables = elim report.proposal [
  | none ↦ tables
  | some proposal ↦
      if proposal.needed
      then record_events report.application report.generated_at proposal report.workloads tables
      else tables
]

module _ {F Q : Type 0} (numerics : Numerics F Q) where
  -- A plan that the budgets apply to.
  unfoldable pub budget_plan :
      List ProposalEvent
      → WorkloadKey
      → (generated_at : ℕ) → PolicySpec
      → WorkloadReport F
      → PatchPlan
      → PatchPlan
  budget_plan events key generated_at policy workload plan =
      let reasons = proposal_budget_block_reasons events key generated_at policy in
      if policy.availability_recovery.enabled && availability_recovery_plan numerics workload plan
      then note_plan plan "proposal budget bypassed for availability recovery"
      else if is_empty reasons
      then plan
      else block_plan plan reasons

  -- The body of the loop of `ApplyProposalBudgets`.
  unfoldable pub budget_option :
      List ProposalEvent
      → WorkloadKey
      → (generated_at : ℕ) → Option WorkloadSpec
      → WorkloadReport F
      → Option PatchPlan
      → Option PatchPlan
  unfolding budget_plan
  budget_option events key generated_at spec workload none = none
  budget_option events key generated_at none workload (some plan) = some plan
  budget_option events key generated_at (some spec) workload (some plan) =
      if plan.blocked || not (is_empty plan.errors) || is_empty plan.changes
      then some plan
      else some (budget_plan events key generated_at spec.policy workload plan)

  unfoldable pub budget_workload :
      List ProposalEvent
      → (application : String) → (generated_at : ℕ) → List WorkloadSpec
      → WorkloadReport F
      → WorkloadReport F
  unfolding budget_option
  budget_workload events application generated_at specs workload =
      if str_eq workload.recommendation.mode "propose"
      then record workload {
        recommendation = record workload.recommendation {
          patch_plan =
              budget_option events (key_of application workload) generated_at
                (spec_named specs workload.name) workload workload.recommendation.patch_plan;
        };
      }
      else workload

  unfoldable pub apply_proposal_budgets :
      List ProposalEvent → ApplicationProfile → Report F → Report F
  unfolding budget_workload
  apply_proposal_budgets events profile report = record report {
    workloads =
        map
          (λ workload.
            budget_workload events report.application report.generated_at profile.workloads
              workload)
          report.workloads;
  }
