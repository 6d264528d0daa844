-- ===== src/Retention/Kept.antt =====
-- internal/state/retention.go: what a prune leaves.
use mathlib.Core.Path.{subst}
use k8s_recommendation_engin.Prelude.{
  ℕ, ◌+◌, ◌-◌, ◌/◌, ◌<◌, ◌≡◌, refl, arith, Bool, true, false, some, List, [], ◌∷◌, ltb, ◌==◌,
  if◌then◌else◌, any_by, All, IsIn, keep, not, sym, String, str_eq, Bool-cases, inl, inr,
}
use k8s_recommendation_engin.Stamp.{Stamp, format_nano, second}
use k8s_recommendation_engin.Stamp.Order.{format_nano-compare_seconds}
use k8s_recommendation_engin.Stamp.RoundTrip.{parse_stamp-format_nano}
use k8s_recommendation_engin.Retention.{
  DatedRow, RunChild, StateTables, state_prune_interval, is_expired, delete_expired,
  has_expired_run, delete_children, prune_at, pruned_recently, prune_expired,
}

-- The run of a row is in the table of runs.
abbrev pub has_run : List DatedRow → RunChild → Bool
has_run runs child = any_by (λ run. run.id == child.run_id) runs

abbrev pub NoOrphans : StateTables → Type 0
NoOrphans tables =
    All (λ child. has_run tables.workload_runs child ≡ true) tables.learned_signals
    × All (λ child. has_run tables.workload_runs child ≡ true) tables.learned_decisions
    × All (λ child. has_run tables.workload_runs child ≡ true) tables.forecast_scores

abbrev pub HasUniqueIds : List DatedRow → Type 0
HasUniqueIds [] = Unit
HasUniqueIds (row ∷ rows) = (any_by (λ other. other.id == row.id) rows ≡ false) × HasUniqueIds rows

-- Of the rows of the runs' children exactly those whose run is in the table after the prune are left.
abbrev pub KeepsChildren : StateTables → StateTables → Type 0
KeepsChildren before after =
    (after.learned_signals ≡ keep (has_run after.workload_runs) before.learned_signals)
    × (after.learned_decisions ≡ keep (has_run after.workload_runs) before.learned_decisions)
    × (after.forecast_scores ≡ keep (has_run after.workload_runs) before.forecast_scores)

-- A child without a run has no expired one, and none after the deletion.
has_run-absent :
    (cutoff : Stamp) (runs : List DatedRow) (child : RunChild)
    → has_run runs child ≡ false
    → (has_expired_run cutoff runs child ≡ false)
      × (has_run (delete_expired cutoff runs) child ≡ false)
has_run-absent cutoff [] child absent = (refl, refl)
has_run-absent cutoff (run ∷ runs) child absent =
    let (no_expired, no_run) = has_run-absent cutoff runs child (ground arith) in
    (ground (arith, no_expired), ground (arith, no_run))

-- A child with a run keeps it exactly when it has no expired run.
has_run-delete_expired :
    (cutoff : Stamp) (runs : List DatedRow) (child : RunChild)
    → HasUniqueIds runs
    → has_run runs child ≡ true
    → has_run (delete_expired cutoff runs) child ≡ not (has_expired_run cutoff runs child)
has_run-delete_expired cutoff [] child unique there = absurd (ground arith)
has_run-delete_expired cutoff (run ∷ runs) child unique there =
    elim (Bool-cases (run.id == child.run_id)) [
      | inl own ↦
          let id : run.id ≡ child.run_id = eq→≡ run.id child.run_id own in
          let absent : has_run runs child ≡ false =
            subst (λ n. any_by (λ other. other.id == n) runs ≡ false) id unique.0 in
          let (no_expired, no_run) = has_run-absent cutoff runs child absent in
          elim (Bool-cases (is_expired cutoff run)) [
            | inl old ↦ rw (own, old) no_run
            | inr young ↦ simp (own, young, no_expired) refl
          ]
      | inr other ↦
          let rest = has_run-delete_expired cutoff runs child unique.1 (ground arith) in
          elim (Bool-cases (is_expired cutoff run)) [
            | inl old ↦ rw (other, old) rest
            | inr young ↦ simp (other, young) rest
          ]
    ]
  where
    eq→≡ : (n m : ℕ) → (n == m) ≡ true → n ≡ m
    eq→≡ n m h = ground arith

delete_children-has_run :
    (cutoff : Stamp) (runs : List DatedRow) (children : List RunChild)
    → HasUniqueIds runs
    → All (λ child. has_run runs child ≡ true) children
    → delete_children cutoff runs children
      ≡ keep (λ child. has_run (delete_expired cutoff runs) child) children
delete_children-has_run cutoff runs [] unique there = refl
delete_children-has_run cutoff runs (child ∷ children) unique there =
    rw
      (
        has_run-delete_expired cutoff runs child unique there.0,
        delete_children-has_run cutoff runs children unique there.1,
      )
      refl

prune_at-KeepsChildren :
    (now retention : ℕ) (tables : StateTables)
    → NoOrphans tables
    → HasUniqueIds tables.workload_runs
    → KeepsChildren tables (prune_at now retention tables)
unfolding prune_at
prune_at-KeepsChildren now retention tables (signals, decisions, scores) unique =
    let cutoff = format_nano (now - retention) in
    let kept = delete_children-has_run cutoff tables.workload_runs in
    (
      kept tables.learned_signals unique signals,
      kept tables.learned_decisions unique decisions,
      kept tables.forecast_scores unique scores,
    )

keep-All :
    (runs : List DatedRow) (children : List RunChild)
    → All (λ child. has_run runs child ≡ true) children
    → children ≡ keep (λ child. has_run runs child) children
keep-All runs [] there = refl
keep-All runs (child ∷ children) there = rw (there.0, sym (keep-All runs children there.1)) refl

KeepsChildren-refl : (tables : StateTables) → NoOrphans tables → KeepsChildren tables tables
KeepsChildren-refl tables (signals, decisions, scores) = (
  keep-All tables.workload_runs tables.learned_signals signals,
  keep-All tables.workload_runs tables.learned_decisions decisions,
  keep-All tables.workload_runs tables.forecast_scores scores,
)

-- A row written in RFC3339Nano in a later second than the cutoff's is not expired.
is_expired-later :
    (id t cutoff : ℕ)
    → cutoff / second < t / second
    → is_expired (format_nano cutoff) (record { id = id; dated = format_nano t }) ≡ false
is_expired-later id t cutoff later = ground (
  arith,
  not_before t cutoff later,
  format_nano-compare_seconds t cutoff (λ e. omega (arith, later, e)),
)
  where
    not_before : (t cutoff : ℕ) → cutoff / second < t / second → ltb t cutoff ≡ false
    not_before t cutoff later = ground arith

IsIn-delete_expired :
    (cutoff : Stamp) (row : DatedRow) (rows : List DatedRow)
    → is_expired cutoff row ≡ false
    → IsIn row rows
    → IsIn row (delete_expired cutoff rows)
IsIn-delete_expired cutoff row [] young there = elim there [ ]
IsIn-delete_expired cutoff row (first ∷ rows) young (inl same) = rw (same, young) (inl refl)
IsIn-delete_expired cutoff row (first ∷ rows) young (inr later) =
    elim (Bool-cases (is_expired cutoff first)) [
      | inl old ↦ rw old (IsIn-delete_expired cutoff row rows young later)
      | inr kept ↦ rw kept (inr (IsIn-delete_expired cutoff row rows young later))
    ]

-- What a prune keeps: a young run, and the children of the runs that are left.
abbrev pub IsWhole : DatedRow → StateTables → StateTables → Type 0
IsWhole run before after = IsIn run after.workload_runs × KeepsChildren before after

if-IsWhole :
    (b : Bool) (run : DatedRow) (before x y : StateTables)
    → IsWhole run before x
    → IsWhole run before y
    → IsWhole run before (if b then x else y)
if-IsWhole true run before x y p q = p
if-IsWhole false run before x y p q = q

-- A prune, whether it is carried out or not, keeps each run with a time in a later second than
-- that of the cutoff, and of the learned signals, the learned decisions and the forecast scores it
-- leaves exactly those whose run it leaves. Before it each of these rows has a run, and the runs have
-- different ids.
pub prune_expired-IsWhole :
    (path : String) (clock now retention id t : ℕ) (tables : StateTables)
    → NoOrphans tables
    → HasUniqueIds tables.workload_runs
    → ((if now == 0 then clock else now) - retention) / second < t / second
    → IsIn (record { id = id; dated = format_nano t }) tables.workload_runs
    → IsWhole
        (record { id = id; dated = format_nano t })
        tables
        (prune_expired path clock now retention tables)
unfolding prune_expired prune_at
prune_expired-IsWhole path clock now retention id t tables whole unique young there =
    let at = if now == 0 then clock else now in
    let row : DatedRow = record { id = id; dated = format_nano t } in
    let same : IsWhole row tables tables = (there, KeepsChildren-refl tables whole) in
    if-IsWhole (str_eq path "") row tables tables _ same (
      if-IsWhole (retention == 0) row tables tables _ same (
        if-IsWhole (pruned_recently at tables.last_pruned_at) row tables tables _ same (
          IsIn-delete_expired (format_nano (at - retention)) row tables.workload_runs
              (is_expired-later id t (at - retention) young) there,
          prune_at-KeepsChildren at retention tables whole unique,
        )))

-- A prune that follows another within the interval leaves the tables as they are.
pub prune_expired-prune_at :
    (path : String) (clock now later retention : ℕ) (tables : StateTables)
    → 0 < later
    → later < now + state_prune_interval
    → prune_expired path clock later retention (prune_at now retention tables)
      ≡ prune_at now retention tables
unfolding prune_expired prune_at
prune_expired-prune_at path clock now later retention tables on soon =
    if_same (str_eq path "") (retention == 0)
      (pruned_recently (if later == 0 then clock else later) (some (format_nano now)))
      (prune_at now retention tables) _ (rw (is_later later on) recently)
  where
    is_later : (n : ℕ) → 0 < n → (n == 0) ≡ false
    is_later n h = ground arith

    is_soon : ltb later (now + state_prune_interval) ≡ true
    is_soon = ground arith

    recently : pruned_recently later (some (format_nano now)) ≡ true
    recently = rw (parse_stamp-format_nano now, pruned_recently) is_soon

    if_same :
        (a b c : Bool) (x y : StateTables)
        → c ≡ true
        → (if a then x else if b then x else if c then x else y) ≡ x
    if_same true b c x y h = refl
    if_same false true c x y h = refl
    if_same false false c x y h = rw h refl
