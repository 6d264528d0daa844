-- ===== src/Budget/Status.antt =====
-- internal/state/proposal_budget.go: the status report of the batch table. The order of the rows and
-- the JSON of a plan are SQLite's and Go's, so they are parameters.
use k8s_recommendation_engin.Prelude.{
  ℕ, ◌+◌, ◌-◌, ◌≡◌, ◌↔◌, refl, arith, String, Bool, true, false, not, Option, none, some, List, [],
  ◌∷◌, ◌++◌, map, ltb, ◌==◌, if◌then◌else◌, length, count_by, ◌<>◌, eq_iff, Bool-cases, inl, inr,
  ◌∙◌,
}
use k8s_recommendation_engin.Stamp.{Stamp, parse_stamp}
use k8s_recommendation_engin.Report.{PatchPlan, PatchChange, patch_plan_applyable, WorkloadReport}
use k8s_recommendation_engin.Budget.{WorkloadKey, BatchItem}
use k8s_recommendation_engin.Budget.Increase.{Numerics}
use k8s_recommendation_engin.Budget.Batch.{Texts, window_plan, upsert_row, after_upsert}
use k8s_recommendation_engin.Budget.Window.{is_released}

pub data BatchStatus : Type 0 where
  waiting ready : BatchStatus

pub record ProposalBatchStatusItem : Type 0 where
  pub key : WorkloadKey
  pub deployment : String
  pub source_file : String
  pub resource : String
  pub first_seen_at : ℕ
  pub last_seen_at : ℕ
  pub ready_at : ℕ
  pub remaining : String
  pub status : BatchStatus
  pub reason : String
  pub changes : List PatchChange
  pub block_reasons : List String
  pub plan_errors : List String
  pub decode_error : String

pub record ProposalBatchStatusSummary : Type 0 where
  pub total : ℕ
  pub waiting_items : ℕ
  pub ready_items : ℕ

pub record ProposalBatchStatusReport : Type 0 where
  pub generated_at : ℕ
  pub batch_window : String
  pub items : List ProposalBatchStatusItem
  pub summary : ProposalBatchStatusSummary
  pub errors : List String

-- What the report is given: the texts of errors, `json.Unmarshal` and the order of the query.
pub data Decoded : Type 0 where
  decoded : PatchPlan → Decoded
  undecoded : (error : String) → Decoded

pub record StatusTexts : Type 0 where
  pub show_time : ℕ → String
  pub show_duration : ℕ → String
  pub show_rounded : ℕ → String
  pub parse_error : Stamp → String
  pub decode : String → Decoded
  pub ordered : List BatchItem → List BatchItem

abbrev time_or_zero : Option ℕ → ℕ
time_or_zero none = 0
time_or_zero (some t) = t

-- A row's errors, the last of which is its decode error.
abbrev last_error : List String → String
last_error [] = ""
last_error (error ∷ []) = error
last_error (error ∷ (next ∷ errors)) = last_error (next ∷ errors)

module _ (texts : StatusTexts) where
  abbrev pub parse_errors : String → Stamp → Option ℕ → List String
  parse_errors column raw (some t) = []
  parse_errors column raw none = ("parse " <> column <> ": " <> texts.parse_error raw) ∷ []

  abbrev pub decode_errors : Decoded → List String
  decode_errors (decoded plan) = []
  decode_errors (undecoded error) = ("decode patch_plan_json: " <> error) ∷ []

  -- The errors of a row, in the order in which they are found.
  unfoldable pub row_errors : BatchItem → List String
  row_errors item =
      parse_errors "first_seen_at" item.first_seen_at (parse_stamp item.first_seen_at)
      ++ parse_errors "last_seen_at" item.last_seen_at (parse_stamp item.last_seen_at)
      ++ decode_errors (texts.decode item.plan_json)

  abbrev pub with_decoded : Decoded → ProposalBatchStatusItem → ProposalBatchStatusItem
  with_decoded (undecoded error) item = item
  with_decoded (decoded plan) item = record item {
    changes = plan.changes;
    block_reasons = plan.block_reasons;
    plan_errors = plan.errors;
  }

  abbrev pub ready_time : (window : ℕ) → BatchItem → ℕ
  ready_time window item = time_or_zero (parse_stamp item.first_seen_at) + window

  -- The row before its plan is decoded. A time that does not parse is Go's zero time.
  unfoldable pub timed_item : (now window : ℕ) → BatchItem → ProposalBatchStatusItem
  unfolding row_errors
  timed_item now window item =
      let ready_at = ready_time window item in
      let is_waiting = ltb now ready_at in
      record {
        key = item.key;
        deployment = item.deployment;
        source_file = item.source_file;
        resource = item.resource;
        first_seen_at = time_or_zero (parse_stamp item.first_seen_at);
        last_seen_at = time_or_zero (parse_stamp item.last_seen_at);
        ready_at = ready_at;
        remaining = if is_waiting then texts.show_rounded (ready_at - now) else "0s";
        status = if is_waiting then waiting else ready;
        reason =
            if is_waiting
            then "proposal batch window open until " <> texts.show_time ready_at
            else "batch window elapsed; next propose reconcile can commit if recommendation still matches";
        changes = [];
        block_reasons = [];
        plan_errors = [];
        decode_error = last_error (row_errors item);
      }

  -- The body of the loop over the rows.
  unfoldable pub status_item : (now window : ℕ) → BatchItem → ProposalBatchStatusItem
  unfolding timed_item
  status_item now window item =
      with_decoded (texts.decode item.plan_json) (timed_item now window item)

  abbrev pub count_status : BatchStatus → ProposalBatchStatusSummary → ProposalBatchStatusSummary
  count_status waiting s = record s { waiting_items = s.waiting_items + 1 }
  count_status ready s = record s { ready_items = s.ready_items + 1 }

  -- The last loop of `ProposalBatchStatus`.
  unfoldable pub summarize :
      List ProposalBatchStatusItem → ProposalBatchStatusSummary → ProposalBatchStatusSummary
  summarize [] s = s
  summarize (item ∷ items) s = summarize items (count_status item.status s)

  unfoldable pub report_errors : List BatchItem → List String
  unfolding row_errors
  report_errors [] = []
  report_errors (item ∷ items) =
      map (λ error. item.key.workload <> ": " <> error) (row_errors item) ++ report_errors items

  -- `ProposalBatchStatus`, with `clock` the answer of `time.Now`.
  unfoldable pub proposal_batch_status :
      (clock now window : ℕ) → List BatchItem → ProposalBatchStatusReport
  unfolding status_item summarize report_errors
  proposal_batch_status clock now window rows =
      let at = if now == 0 then clock else now in
      let items = map (λ row. status_item at window row) (texts.ordered rows) in
      record {
        generated_at = at;
        batch_window = texts.show_duration window;
        items = items;
        summary =
            summarize items (record { total = length items; waiting_items = 0; ready_items = 0 });
        errors = report_errors (texts.ordered rows);
      }

  with_decoded-status :
      (answer : Decoded) (item : ProposalBatchStatusItem)
      → (with_decoded answer item).status ≡ item.status
  with_decoded-status (decoded plan) item = refl
  with_decoded-status (undecoded error) item = refl

  -- The batch window of a row is open. A row whose time does not parse counts from time zero.
  abbrev pub is_open : (now window : ℕ) → BatchItem → Bool
  is_open now window row = ltb now (time_or_zero (parse_stamp row.first_seen_at) + window)

  status_item-open :
      (now window : ℕ) (row : BatchItem)
      → (status_item now window row).status ≡ (if is_open now window row then waiting else ready)
  unfolding status_item timed_item
  status_item-open now window row =
      with_decoded-status (texts.decode row.plan_json) (timed_item now window row)

  summarize-counts :
      (now window : ℕ) (rows : List BatchItem) (s : ProposalBatchStatusSummary)
      → let after = summarize (map (λ row. status_item now window row) rows) s in
        (after.total ≡ s.total)
        × (after.waiting_items ≡ s.waiting_items + count_by (is_open now window) rows)
        × (after.ready_items ≡ s.ready_items + count_by (λ row. not (is_open now window row)) rows)
  unfolding summarize
  summarize-counts now window [] s = (refl, omega arith, omega arith)
  summarize-counts now window (row ∷ rows) s =
      rw (status_item-open now window row) (elim (Bool-cases (is_open now window row)) [
        | inl early ↦
            let (total, waits, readies) =
              summarize-counts now window rows (count_status waiting s) in
            rw early (total, omega (arith, waits), omega (arith, readies))
        | inr late ↦
            let (total, waits, readies) = summarize-counts now window rows (count_status ready s) in
            rw late (total, omega (arith, waits), omega (arith, readies))
      ])

  length-map : {A B : Type 0} (f : A → B) (xs : List A) → length (map f xs) ≡ length xs
  length-map f [] = refl
  length-map f (x ∷ xs) = omega (arith, length-map f xs)

  -- The summary counts the rows of the query: their number, those whose batch window is open at the
  -- time of the report as waiting, and those whose window is over as ready. The time is that of the
  -- clock if none is given.
  pub proposal_batch_status-counts :
      (clock now window : ℕ) (rows : List BatchItem)
      → let at = if now == 0 then clock else now in
        let summary = (proposal_batch_status clock now window rows).summary in
        (summary.total ≡ length (texts.ordered rows))
        × (summary.waiting_items ≡ count_by (is_open at window) (texts.ordered rows))
        × (summary.ready_items ≡ count_by (λ row. not (is_open at window row)) (texts.ordered rows))
  unfolding proposal_batch_status
  proposal_batch_status-counts clock now window rows =
      let at = if now == 0 then clock else now in
      let items = map (λ row. status_item at window row) (texts.ordered rows) in
      let (total, waits, readies) =
        summarize-counts at window (texts.ordered rows)
          (record { total = length items; waiting_items = 0; ready_items = 0 }) in
      (
        total ∙ length-map (λ row. status_item at window row) (texts.ordered rows),
        omega (arith, waits),
        omega (arith, readies),
      )

  status_item-status :
      (now window : ℕ) (item : BatchItem) (first_seen : ℕ)
      → parse_stamp item.first_seen_at ≡ some first_seen
      → (status_item now window item).status
        ≡ (if ltb now (first_seen + window) then waiting else ready)
  unfolding status_item timed_item
  status_item-status now window item first_seen read =
      with_decoded-status (texts.decode item.plan_json) (timed_item now window item)
      ∙ rw (read, ready_time) refl

  released :
      {F Q : Type 0} (numerics : Numerics F Q) (batch : Texts) (now window first_seen : ℕ)
      (plan : PatchPlan)
      → patch_plan_applyable (some plan) ≡ true
      → patch_plan_applyable
          (some (window_plan batch.show_time batch.show_duration now window first_seen plan))
        ≡ not (ltb now (first_seen + window))
  released numerics batch now window first_seen plan free =
      elim (Bool-cases (ltb now (first_seen + window))) [
        | inl early ↦ unfold patch_plan_applyable in simp early (ground arith)
        | inr late ↦ rw late free
      ]

  -- A row whose time parses is reported as ready at a time exactly when an applyable plan with the
  -- JSON text of the row, upserted at that time, is still applyable after the batch window.
  pub status_item-ready :
      {F Q : Type 0} (numerics : Numerics F Q) (batch : Texts) (now window first_seen : ℕ)
      (item : BatchItem) (items : List BatchItem) (workload : WorkloadReport F) (plan : PatchPlan)
      → parse_stamp item.first_seen_at ≡ some first_seen
      → item.plan_json ≡ batch.encode plan
      → patch_plan_applyable (some plan) ≡ true
      → ((status_item now window item).status ≡ ready) ↔ (
          is_released (
            after_upsert numerics batch now window plan
              (upsert_row item.key workload plan (batch.encode plan) now items (some item)))
          ≡ true)
  unfolding upsert_row
  status_item-ready numerics batch now window first_seen item items workload plan read same free =
      let equal = (eq_iff item.plan_json (batch.encode plan)).1 same in
      ready-released (ltb now (first_seen + window)) (status_item now window item).status _
        (status_item-status now window item first_seen read)
        (rw (read, equal) (released numerics batch now window first_seen plan free))
    where
      ready-released :
          (early : Bool) (status : BatchStatus) (passes : Bool)
          → status ≡ (if early then waiting else ready)
          → passes ≡ not early
          → (status ≡ ready) ↔ (passes ≡ true)
      ready-released true status passes e f = (λ h. ground arith, λ h. ground arith)
      ready-released false status passes e f = (λ h. ground arith, λ h. ground arith)
