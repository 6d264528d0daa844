-- ===== src/Reservation.antt =====
-- internal/state/availability_recovery.go: the table of recovery attempts and the reservation that
-- must be granted before a pod is deleted. SQLite is not part of the repository: a table is the list
-- of its rows, the newest first, and a statement acts on the rows that its WHERE clause names. The
-- failures of SQLite itself are not modelled; a text that does not parse is.
pub mod History
pub mod Latest
pub mod Spacing
use Prim.Native.Nat.{Ordering}
use k8s_recommendation_engin.Prelude.{
  ℕ, suc, ◌+◌, ◌-◌, String, Bool, true, false, not, ◌&&◌, Option, none, some, List, [], ◌∷◌, str_eq,
  ltb, leb, ◌==◌, if◌then◌else◌, count_by, keep, decimal, ◌<>◌,
}
use k8s_recommendation_engin.Stamp.{
  Stamp, format_fixed, parse_stamp, stamp_compare, stamp_ge, is_before, hour,
}

pub record AvailabilityRecoveryKey : Type 0 where
  pub application : String
  pub namespace : String
  pub workload : String
  pub deployment : String
  pub pod : String
  pub pod_uid : String

pub data EventStatus : Type 0 where
  reserved failed succeeded : EventStatus

-- A row of availability_recovery_events.
pub record RecoveryEvent : Type 0 where
  pub id : ℕ
  pub key : AvailabilityRecoveryKey
  pub attempted_at : Stamp
  pub status : EventStatus
  pub message : String

pub record AvailabilityRecoveryReservation : Type 0 where
  pub id : ℕ
  pub allowed : Bool
  pub reason : String

-- `WHERE application = ? AND namespace = ? AND workload_name = ?`.
abbrev pub same_names : AvailabilityRecoveryKey → AvailabilityRecoveryKey → Bool
same_names key row =
    str_eq row.application key.application
    && str_eq row.namespace key.namespace
    && str_eq row.workload key.workload

abbrev pub same_workload : AvailabilityRecoveryKey → RecoveryEvent → Bool
same_workload key event = same_names key event.key

abbrev pub later_of : Stamp → Option Stamp → Option Stamp
later_of raw none = some raw
later_of raw (some other) = if is_before (stamp_compare raw other) then some other else some raw

-- `ORDER BY attempted_at DESC LIMIT 1`, on the texts.
unfoldable pub latest_attempt : AvailabilityRecoveryKey → List RecoveryEvent → Option Stamp
latest_attempt key [] = none
latest_attempt key (event ∷ events) =
    let rest = latest_attempt key events in
    if same_workload key event then later_of event.attempted_at rest else rest

unfoldable pub attempts_since : AvailabilityRecoveryKey → Stamp → List RecoveryEvent → ℕ
attempts_since key since events =
    count_by (λ event. same_workload key event && stamp_ge event.attempted_at since) events

abbrev denied : String → List RecoveryEvent → AvailabilityRecoveryReservation × List RecoveryEvent
denied reason events = (record { id = 0; allowed = false; reason = reason }, events)

-- The insert, with the id that SQLite gives the row.
unfoldable pub reserve_row :
    AvailabilityRecoveryKey
    → ℕ
    → ℕ
    → List RecoveryEvent
    → AvailabilityRecoveryReservation × List RecoveryEvent
reserve_row key now next_id events = (
  record { id = next_id; allowed = true; reason = "" },
  record {
    id = next_id;
    key = key;
    attempted_at = format_fixed now;
    status = reserved;
    message = "";
  }
      ∷ events,
)

-- The count of the last hour and the insert.
unfoldable pub reserve_within_limit :
    AvailabilityRecoveryKey
    → ℕ
    → ℕ
    → ℕ
    → List RecoveryEvent
    → AvailabilityRecoveryReservation × List RecoveryEvent
unfolding reserve_row
reserve_within_limit key now max_attempts next_id events =
    let attempts = attempts_since key (format_fixed (now - hour)) events in
    if leb max_attempts attempts
    then denied
        ("availability recovery hourly attempt limit reached: "
          <> decimal attempts
          <> "/"
          <> decimal max_attempts)
        events
    else reserve_row key now next_id events

abbrev pub attempt_limit : ℕ → ℕ
attempt_limit max_attempts_per_hour =
    if max_attempts_per_hour == 0 then 6 else max_attempts_per_hour

-- The texts of a time in a reason are left to a parameter: nothing is decided by them.
module _ (show_time : ℕ → String) where
  -- `reserveAvailabilityRecovery`, with `clock` the answer of `time.Now` and `next_id` the id that
  -- SQLite would give. The outer `none` is the error of a stored time that does not parse.
  unfoldable pub reserve_availability_recovery :
      (clock next_id : ℕ)
      → AvailabilityRecoveryKey
      → (now cooldown max_attempts_per_hour : ℕ) → List RecoveryEvent
      → Option (AvailabilityRecoveryReservation × List RecoveryEvent)
  unfolding reserve_within_limit
  reserve_availability_recovery clock next_id key now cooldown max_attempts_per_hour events =
      let at = if now == 0 then clock else now in
      let limit = attempt_limit max_attempts_per_hour in
      let granted = some (reserve_within_limit key at limit next_id events) in
      if cooldown == 0 then granted else elim (latest_attempt key events) [
        | none ↦ granted
        | some raw ↦ elim (parse_stamp raw) [
          | none ↦ none
          | some latest ↦
              if ltb at (latest + cooldown)
              then some (
                  denied
                    ("availability recovery cooldown active until "
                      <> show_time (latest + cooldown))
                    events)
              else granted
        ]
      ]

-- `UPDATE availability_recovery_events SET status = ?, message = ? WHERE id = ?`; an id of 0 is
-- no reservation.
unfoldable pub complete_availability_recovery :
    ℕ → EventStatus → String → List RecoveryEvent → List RecoveryEvent
complete_availability_recovery id status message [] = []
complete_availability_recovery id status message (event ∷ events) =
    let rest = complete_availability_recovery id status message events in
    (if not (id == 0) && event.id == id
      then record event { status = status; message = message }
      else event)
    ∷ rest
