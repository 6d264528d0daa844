-- ===== src/Examples/Plans.antt =====
-- Runs of internal/state/proposal_budget.go.
use k8s_recommendation_engin.Prelude.{
  ℕ, ◌+◌, ◌*◌, ◌≤◌, ◌≡◌, ◌↔◌, refl, arith, String, true, false, none, some, [], ◌∷◌, ltb, All, not,
  count_by, ◌-◌,
}
use k8s_recommendation_engin.Stamp.{
  hour, minute, format_nano, nano_fraction, parse_stamp, parse_fraction,
}
use k8s_recommendation_engin.Quantity.{milli, milli_parse}
use k8s_recommendation_engin.Report.{PatchPlan, patch_plan_applyable, Report}
use k8s_recommendation_engin.Budget.{
  WorkloadKey, key_of, apply_proposal_budgets, ProposalEvent, ProposalStatus,
}
use k8s_recommendation_engin.Budget.Increase.{
  Numerics, availability_recovery_plan, urgent_batch_bypass,
}
use k8s_recommendation_engin.Budget.Batch.{
  Texts, bypasses, batch_plan, upsert_row, upsert_proposal_batch_item,
}
use k8s_recommendation_engin.Budget.Spent.{
  reaches, exceeds_budget, AllPairs, stopped_early, apply_proposal_budgets-spent,
}
use k8s_recommendation_engin.Budget.Window.{
  row_of, Sighting, streak_start, table_after, IsRow, is_released, table_after-streak_start,
  batch_plan-released,
}
use k8s_recommendation_engin.Budget.{BatchItem}
use k8s_recommendation_engin.Budget.Batch.{after_upsert}
use k8s_recommendation_engin.Budget.Status.{
  BatchStatus, StatusTexts, decoded, proposal_batch_status, status_item, is_open,
  proposal_batch_status-counts, status_item-ready,
}
use k8s_recommendation_engin.Examples.{
  no_text, web_plan, web, shop_report, web_policy, shop_profile,
}

abbrev whole : Numerics ℕ ℕ
whole = record {
  parse_float = milli_parse;
  float_less = ltb;
  quantities = milli;
  approximate = λ q. q;
}

-- A proposal that was pushed a minute before the report, which uses up the limit of one per hour.
abbrev web_event : ProposalEvent
web_event = record {
  key = key_of "shop" (web 3 2);
  deployment = "web";
  generated_at = format_nano (2 * hour - minute);
  kind = "commit";
  commit = "abc1234";
  patch_file = "";
  changes_count = 1;
  status = ProposalStatus.pushed;
  message = "";
  pushed = true;
  remote = "origin";
  push_ref = "origin/main";
  errors = [];
}

abbrev later_report : Report ℕ
later_report = record shop_report { generated_at = 2 * hour; workloads = web 3 2 ∷ [] }

web_event-reaches : reaches (web_event ∷ []) (key_of "shop" (web 3 2)) (2 * hour - hour) 1 ≡ true
unfolding parse_stamp parse_fraction format_nano nano_fraction
web_event-reaches = refl

apply_proposal_budgets-spent_example :
    All
      (λ workload.
        exceeds_budget whole
          (web_event ∷ [])
          later_report.application
          later_report.generated_at
          shop_profile.workloads
          workload
        ≡ false)
      (apply_proposal_budgets whole (web_event ∷ []) shop_profile later_report).workloads
    × AllPairs
        (λ before after.
          stopped_early
            (web_event ∷ [])
            later_report.application
            later_report.generated_at
            shop_profile.workloads
            before
            after
          ≡ false)
        later_report.workloads
        (apply_proposal_budgets whole (web_event ∷ []) shop_profile later_report).workloads
apply_proposal_budgets-spent_example =
    apply_proposal_budgets-spent whole (web_event ∷ []) shop_profile later_report
      ((2 * hour - minute, refl), tt)

abbrev resource_text : PatchPlan → String
resource_text plan = plan.resource

abbrev web_row_key : WorkloadKey
web_row_key = key_of "shop" (web 2 3)

abbrev seen_at : ℕ → Sighting ℕ
seen_at t = record { workload = web 2 3; plan = web_plan; generated_at = t }

table_after-streak_start_example :
    IsRow web_row_key
      (resource_text (seen_at (9 * minute)).plan)
      (streak_start resource_text (seen_at (9 * minute)) (seen_at (4 * minute) ∷ []))
      (table_after resource_text web_row_key [] (seen_at (9 * minute)) (seen_at (4 * minute) ∷ []))
table_after-streak_start_example =
    table_after-streak_start resource_text web_row_key [] (seen_at (9 * minute))
      (seen_at (4 * minute) ∷ []) refl

abbrev plain_texts : Texts
plain_texts = record { encode = resource_text; show_time = no_text; show_duration = no_text }

abbrev web_item : BatchItem
web_item = record {
  key = web_row_key;
  deployment = "web";
  source_file = "web.yaml";
  resource = "Deployment/web";
  plan_json = "Deployment/web";
  first_seen_at = format_nano (4 * minute);
  last_seen_at = format_nano (4 * minute);
}

web-counted : bypasses whole plain_texts web_policy [] (web 2 3) web_plan ≡ none
unfolding availability_recovery_plan urgent_batch_bypass
web-counted = refl

web-released :
    is_released (
      batch_plan whole plain_texts web_row_key web_policy []
        (9 * minute)
        (5 * minute)
        (web 2 3)
        web_plan
        (web_item ∷ []))
    ≡ true
unfolding availability_recovery_plan urgent_batch_bypass batch_plan upsert_proposal_batch_item
    upsert_row parse_stamp parse_fraction format_nano nano_fraction patch_plan_applyable
web-released = refl

batch_plan-released_example :
    (item : BatchItem) × (first_seen : ℕ) × (row_of web_row_key (web_item ∷ []) ≡ some item)
    × (item.plan_json ≡ plain_texts.encode web_plan)
    × (parse_stamp item.first_seen_at ≡ some first_seen)
    × (first_seen + 5 * minute ≤ 9 * minute)
batch_plan-released_example =
    batch_plan-released whole plain_texts web_row_key web_policy [] (9 * minute) (5 * minute)
      (web 2 3) web_plan (web_item ∷ []) (omega arith) web-counted web-released

abbrev status_texts : StatusTexts
status_texts = record {
  show_time = no_text;
  show_duration = no_text;
  show_rounded = no_text;
  parse_error = λ raw. "bad time";
  decode = λ text. decoded web_plan;
  ordered = λ rows. rows;
}

proposal_batch_status-counts_example :
    let summary =
      (proposal_batch_status status_texts 0 (9 * minute) (5 * minute) (web_item ∷ [])).summary in
    (summary.total ≡ 1)
    × (summary.waiting_items
        ≡ count_by (is_open status_texts (9 * minute) (5 * minute)) (web_item ∷ []))
    × (summary.ready_items
        ≡ count_by
            (λ row. not (is_open status_texts (9 * minute) (5 * minute) row))
            (web_item ∷ []))
proposal_batch_status-counts_example =
    proposal_batch_status-counts status_texts 0 (9 * minute) (5 * minute) (web_item ∷ [])

web_item-read : parse_stamp web_item.first_seen_at ≡ some (4 * minute)
unfolding parse_stamp parse_fraction format_nano nano_fraction
web_item-read = refl

web_plan-applyable : patch_plan_applyable (some web_plan) ≡ true
unfolding patch_plan_applyable
web_plan-applyable = refl

status_item-ready_example :
    ((status_item status_texts (9 * minute) (5 * minute) web_item).status ≡ BatchStatus.ready) ↔ (
      is_released (
        after_upsert whole plain_texts (9 * minute) (5 * minute) web_plan (
          upsert_row web_item.key
            (web 2 3)
            web_plan
            (plain_texts.encode web_plan)
            (9 * minute)
            (web_item ∷ [])
            (some web_item)))
      ≡ true)
status_item-ready_example =
    status_item-ready status_texts whole plain_texts (9 * minute) (5 * minute) (4 * minute) web_item
      (web_item ∷ []) (web 2 3) web_plan web_item-read refl web_plan-applyable
