-- ===== src/Budget/Batch.antt =====
-- internal/state/proposal_budget.go: the batch window. `encode` is `json.Marshal` of a plan;
-- `show_time` and `show_duration` are the texts of times in a reason.
use k8s_recommendation_engin.Prelude.{
  ℕ, ◌+◌, String, Bool, true, false, not, ◌&&◌, ◌||◌, Option, none, some, List, [], ◌∷◌, map,
  str_eq, ltb, ◌==◌, if◌then◌else◌, find_by, ◌<>◌,
}
use k8s_recommendation_engin.Stamp.{format_nano, parse_stamp}
use k8s_recommendation_engin.Report.{
  SignalReport, PatchPlan, patch_plan_applyable, WorkloadReport, Report,
}
use k8s_recommendation_engin.Profile.{PolicySpec, WorkloadSpec, ApplicationProfile, spec_named}
use k8s_recommendation_engin.Budget.Increase.{
  Numerics, availability_recovery_plan, urgent_batch_bypass,
}
use k8s_recommendation_engin.Budget.{
  WorkloadKey, same_key, key_of, BatchItem, block_plan, note_plan, with_plan,
  delete_proposal_batch_item, recommendation_has_change, block_applyable_plans,
}

-- The row after `upsertProposalBatchItem`.
abbrev pub item_of :
    {F : Type 0}
    → WorkloadKey
    → WorkloadReport F
    → PatchPlan
    → String
    → (first_seen generated_at : ℕ) → BatchItem
item_of key workload plan encoded first_seen generated_at = record {
  key = key;
  deployment = workload.deployment;
  source_file = plan.source_file;
  resource = plan.resource;
  plan_json = encoded;
  first_seen_at = format_nano first_seen;
  last_seen_at = format_nano generated_at;
}

-- `UPDATE … WHERE` the key is this one.
abbrev pub update_item : WorkloadKey → BatchItem → List BatchItem → List BatchItem
update_item key new items = map (λ item. if same_key key item.key then new else item) items

-- Since when the plan has been the same: the stored time if its text is the same.
abbrev pub since_when : (stored : Option ℕ) → (same : Bool) → (generated_at : ℕ) → Option ℕ
since_when none same generated_at = none
since_when (some first_seen) same generated_at = some (if same then first_seen else generated_at)

abbrev pub rewrite_row :
    {F : Type 0}
    → WorkloadKey
    → WorkloadReport F
    → PatchPlan
    → String
    → (generated_at : ℕ) → List BatchItem
    → Option ℕ
    → Option (ℕ × List BatchItem)
rewrite_row key workload plan encoded generated_at items none = none
rewrite_row key workload plan encoded generated_at items (some first_seen) =
    some (
      first_seen,
      update_item key (item_of key workload plan encoded first_seen generated_at) items,
    )

-- The two branches: no row yet, or one to rewrite.
unfoldable pub upsert_row :
    {F : Type 0}
    → WorkloadKey
    → WorkloadReport F
    → PatchPlan
    → String
    → (generated_at : ℕ) → List BatchItem
    → Option BatchItem
    → Option (ℕ × List BatchItem)
upsert_row key workload plan encoded generated_at items none =
    some (generated_at, item_of key workload plan encoded generated_at generated_at ∷ items)
upsert_row key workload plan encoded generated_at items (some item) =
    rewrite_row key workload plan encoded generated_at items
      (since_when (parse_stamp item.first_seen_at) (str_eq item.plan_json encoded) generated_at)

unfoldable pub upsert_proposal_batch_item :
    {F : Type 0}
    → WorkloadKey
    → WorkloadReport F
    → PatchPlan
    → String
    → (generated_at : ℕ) → List BatchItem
    → Option (ℕ × List BatchItem)
unfolding upsert_row
upsert_proposal_batch_item key workload plan encoded generated_at items =
    upsert_row key workload plan encoded generated_at items
      (find_by (λ item. same_key key item.key) items)

-- A plan in its window is blocked.
abbrev pub window_plan :
    (show_time show_duration : ℕ → String)
    → (generated_at window first_seen : ℕ) → PatchPlan
    → PatchPlan
window_plan show_time show_duration generated_at window first_seen plan =
    if ltb generated_at (first_seen + window)
    then block_plan plan (
        ("proposal batch window open: first_seen="
          <> show_time first_seen
          <> " ready_at="
          <> show_time (first_seen + window)
          <> " window="
          <> show_duration window)
        ∷ [])
    else plan

abbrev pub urgent_batch_bypass_allowed : PolicySpec → Bool
urgent_batch_bypass_allowed policy = elim policy.safety.urgent_bypass_allowed [
  | none ↦ true
  | some allowed ↦ allowed
]

-- What Go's map gives for a name that it does not hold.
abbrev pub zero_policy : PolicySpec
zero_policy = record {
  max_proposals_per_hour = 0;
  max_proposals_per_day = 0;
  safety = record {
    allow_auto_commit = [];
    max_decrease_risk = none;
    urgent_bypass_allowed = none;
  };
  availability_recovery = record {
    enabled = false;
    failure_grace_period = "";
    cooldown = "";
    max_attempts_per_hour = 0;
  };
}

abbrev pub policy_named : List WorkloadSpec → String → PolicySpec
policy_named specs name = elim (spec_named specs name) [
  | none ↦ zero_policy
  | some spec ↦ spec.policy
]

-- The texts that the stage writes.
pub record Texts : Type 0 where
  pub encode : PatchPlan → String
  pub show_time : ℕ → String
  pub show_duration : ℕ → String

module _ {F Q : Type 0} (numerics : Numerics F Q) (texts : Texts) where
  abbrev pub bypasses :
      PolicySpec → List (SignalReport F) → WorkloadReport F → PatchPlan → Option String
  bypasses policy shared_signals workload plan =
      if policy.availability_recovery.enabled && availability_recovery_plan numerics workload plan
      then some "proposal batch bypassed for availability recovery"
      else if urgent_batch_bypass_allowed policy
          && urgent_batch_bypass numerics shared_signals workload plan
      then some "proposal batch bypassed for urgent traffic anomaly"
      else none

  -- What is left of the row and the plan after `upsertProposalBatchItem`.
  abbrev pub after_upsert :
      (generated_at window : ℕ)
      → PatchPlan
      → Option (ℕ × List BatchItem)
      → Option (PatchPlan × List BatchItem)
  after_upsert generated_at window plan none = none
  after_upsert generated_at window plan (some (first_seen, items)) =
      some
        (window_plan texts.show_time texts.show_duration generated_at window first_seen plan, items)

  -- An applyable plan.
  unfoldable pub batch_plan :
      WorkloadKey
      → PolicySpec
      → List (SignalReport F)
      → (generated_at window : ℕ) → WorkloadReport F
      → PatchPlan
      → List BatchItem
      → Option (PatchPlan × List BatchItem)
  batch_plan key policy shared_signals generated_at window workload plan items =
      elim (bypasses policy shared_signals workload plan) [
        | some reason ↦ some (note_plan plan reason, items)
        | none ↦
            after_upsert generated_at window plan
              (upsert_proposal_batch_item key workload plan (texts.encode plan) generated_at items)
      ]

  abbrev pub with_batch_plan :
      WorkloadReport F
      → Option (PatchPlan × List BatchItem)
      → Option (WorkloadReport F × List BatchItem)
  with_batch_plan workload none = none
  with_batch_plan workload (some (plan, items)) = some (with_plan workload plan, items)

  -- The rest of the loop's body: a plan that cannot be applied keeps its row only while there is a
  -- change to recommend.
  abbrev pub without_batch_plan :
      WorkloadKey → WorkloadReport F → List BatchItem → Option (WorkloadReport F × List BatchItem)
  without_batch_plan key workload items = some (
    workload,
    if recommendation_has_change workload.recommendation
        then items
        else delete_proposal_batch_item key items,
  )

  -- The body of the loop of `ApplyProposalBatch`; `none` is an error of a stored time.
  unfoldable pub batch_option :
      WorkloadKey
      → PolicySpec
      → List (SignalReport F)
      → (generated_at window : ℕ) → WorkloadReport F
      → Option PatchPlan
      → List BatchItem
      → Option (WorkloadReport F × List BatchItem)
  unfolding batch_plan
  batch_option key policy shared_signals generated_at window workload none items =
      without_batch_plan key workload items
  batch_option key policy shared_signals generated_at window workload (some plan) items =
      if patch_plan_applyable (some plan)
      then with_batch_plan workload
          (batch_plan key policy shared_signals generated_at window workload plan items)
      else without_batch_plan key workload items

  -- The workloads and the table after the loop. The Boolean is false where an error ended it.
  abbrev pub stop_or_go :
      WorkloadReport F
      → List (WorkloadReport F)
      → List BatchItem
      → Option (WorkloadReport F × List BatchItem)
      → (List BatchItem → Bool × List (WorkloadReport F) × List BatchItem)
      → Bool × List (WorkloadReport F) × List BatchItem
  stop_or_go workload workloads items none rest = (false, workload ∷ workloads, items)
  stop_or_go workload workloads items (some (seen, items')) rest =
      let (ok, others, after) = rest items' in (ok, seen ∷ others, after)

  unfoldable pub batch_from :
      (application : String)
      → List WorkloadSpec
      → List (SignalReport F)
      → (generated_at window : ℕ) → List (WorkloadReport F)
      → List BatchItem
      → Bool × List (WorkloadReport F) × List BatchItem
  unfolding batch_option
  batch_from application specs shared_signals generated_at window [] items = (true, [], items)
  batch_from application specs shared_signals generated_at window (workload ∷ workloads) items =
      stop_or_go workload workloads items
        (batch_option (key_of application workload) (policy_named specs workload.name)
          shared_signals generated_at window workload workload.recommendation.patch_plan items)
        (λ items'. batch_from application specs shared_signals generated_at window workloads items')

  -- `ApplyProposalBatch`, with `path` the state database's and `clock` the answer of `time.Now`. A
  -- profile that is missing names no workload.
  unfoldable pub apply_proposal_batch :
      (path : String)
      → (clock : ℕ) → ApplicationProfile
      → (kind : String) → (window : ℕ) → Report F
      → List BatchItem
      → Bool × Report F × List BatchItem
  unfolding batch_from
  apply_proposal_batch path clock profile kind window report items =
      if not (str_eq kind "commit") || window == 0
      then (true, report, items)
      else if str_eq path ""
      then (
        true,
        record report {
          workloads =
              block_applyable_plans report.workloads
                "proposal batch window requires --state-db for persisted grouping";
        },
        items,
      )
      else let (ok, workloads, after) =
          batch_from report.application profile.workloads report.shared_signals
            (if report.generated_at == 0 then clock else report.generated_at) window
            report.workloads items in
        (ok, record report { workloads = workloads }, after)
