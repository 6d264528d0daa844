-- ===== src/Retention.antt =====
-- internal/state/retention.go: the deletion of old rows. Of each row only the columns that the
-- statements read are kept, and a number that tells the rows of one table apart.
pub mod Kept
use k8s_recommendation_engin.Prelude.{
  ℕ, ◌+◌, ◌-◌, Bool, true, false, not, ◌&&◌, Option, none, some, List, ltb, ◌==◌, if◌then◌else◌,
  any_by, keep, String, str_eq,
}
use k8s_recommendation_engin.Stamp.{Stamp, format_nano, parse_stamp, stamp_compare, is_before, hour}

-- A row of workload_runs, or of a table whose rows have a time of their own.
pub record DatedRow : Type 0 where
  pub id : ℕ
  pub dated : Stamp

-- A row that belongs to a run.
pub record RunChild : Type 0 where
  pub id : ℕ
  pub run_id : ℕ

pub record StateTables : Type 0 where
  pub learned_signals : List RunChild
  pub learned_decisions : List RunChild
  pub forecast_scores : List RunChild
  pub workload_runs : List DatedRow
  pub seasonal_signal_observations : List DatedRow
  pub convergence_observations : List DatedRow
  pub proposal_events : List DatedRow
  pub availability_recovery_events : List DatedRow
  pub proposal_batch_items : List DatedRow
  pub last_pruned_at : Option Stamp

abbrev pub state_prune_interval : ℕ
state_prune_interval = hour

-- `generated_at < ?`, on the texts.
abbrev pub is_expired : Stamp → DatedRow → Bool
is_expired cutoff row = is_before (stamp_compare row.dated cutoff)

abbrev pub delete_expired : Stamp → List DatedRow → List DatedRow
delete_expired cutoff rows = keep (λ row. not (is_expired cutoff row)) rows

-- `run_id IN (SELECT id FROM workload_runs WHERE generated_at < ?)`.
abbrev pub has_expired_run : Stamp → List DatedRow → RunChild → Bool
has_expired_run cutoff runs child =
    any_by (λ run. run.id == child.run_id && is_expired cutoff run) runs

abbrev pub delete_children : Stamp → List DatedRow → List RunChild → List RunChild
delete_children cutoff runs children =
    keep (λ child. not (has_expired_run cutoff runs child)) children

-- The transaction. The children of a run are deleted before the run.
unfoldable pub prune_at : (now retention : ℕ) → StateTables → StateTables
prune_at now retention tables =
    let cutoff = format_nano (now - retention) in
    let runs = tables.workload_runs in
    record {
      learned_signals = delete_children cutoff runs tables.learned_signals;
      learned_decisions = delete_children cutoff runs tables.learned_decisions;
      forecast_scores = delete_children cutoff runs tables.forecast_scores;
      workload_runs = delete_expired cutoff runs;
      seasonal_signal_observations = delete_expired cutoff tables.seasonal_signal_observations;
      convergence_observations = delete_expired cutoff tables.convergence_observations;
      proposal_events = delete_expired cutoff tables.proposal_events;
      availability_recovery_events = delete_expired cutoff tables.availability_recovery_events;
      proposal_batch_items = delete_expired cutoff tables.proposal_batch_items;
      last_pruned_at = some (format_nano now);
    }

-- A watermark that parses and is less than an interval old.
abbrev pub pruned_recently : (now : ℕ) → Option Stamp → Bool
pruned_recently now none = false
pruned_recently now (some raw) = elim (parse_stamp raw) [
  | none ↦ false
  | some last_pruned ↦ ltb now (last_pruned + state_prune_interval)
]

-- `PruneExpired`, with `clock` the answer of `time.Now`.
unfoldable pub prune_expired :
    (path : String) → (clock now retention : ℕ) → StateTables → StateTables
unfolding prune_at
prune_expired path clock now retention tables =
    let at = if now == 0 then clock else now in
    if str_eq path ""
    then tables
    else if retention == 0
    then tables
    else if pruned_recently at tables.last_pruned_at
    then tables
    else prune_at at retention tables
