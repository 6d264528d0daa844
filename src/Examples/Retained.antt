-- ===== src/Examples/Retained.antt =====
-- Runs of internal/state/retention.go.
use k8s_recommendation_engin.Prelude.{inl, ◌+◌, ◌*◌, ◌≡◌, refl, arith, none, [], ◌∷◌}
use k8s_recommendation_engin.Stamp.{minute, format_nano}
use k8s_recommendation_engin.Retention.{StateTables, prune_at, prune_expired}
use k8s_recommendation_engin.Retention.Kept.{IsWhole, prune_expired-IsWhole, prune_expired-prune_at}
use k8s_recommendation_engin.Stamp.{hour}

abbrev small_tables : StateTables
small_tables = record {
  learned_signals = record { id = 1; run_id = 1 } ∷ [];
  learned_decisions = record { id = 1; run_id = 2 } ∷ [];
  forecast_scores = [];
  workload_runs =
      record { id = 2; dated = format_nano (9 * hour) }
      ∷ record { id = 1; dated = format_nano hour }
      ∷ [];
  seasonal_signal_observations = [];
  convergence_observations = [];
  proposal_events = [];
  availability_recovery_events = [];
  proposal_batch_items = [];
  last_pruned_at = none;
}

prune_expired-IsWhole_example :
    IsWhole
      (record { id = 2; dated = format_nano (9 * hour) })
      small_tables
      (prune_expired "state.db" 0 (10 * hour) (2 * hour) small_tables)
prune_expired-IsWhole_example =
    prune_expired-IsWhole "state.db" 0 (10 * hour) (2 * hour) 2 (9 * hour) small_tables
      ((refl, tt), (refl, tt), tt) (refl, (refl, tt)) (omega arith) (inl refl)

prune_expired-prune_at_example :
    prune_expired "state.db" 0
      (10 * hour + minute)
      (2 * hour)
      (prune_at (10 * hour) (2 * hour) small_tables)
    ≡ prune_at (10 * hour) (2 * hour) small_tables
prune_expired-prune_at_example =
    prune_expired-prune_at "state.db" 0 (10 * hour) (10 * hour + minute) (2 * hour) small_tables
      (omega arith) (omega arith)
