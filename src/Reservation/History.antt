-- ===== src/Reservation/History.antt =====
-- The tables that reservations, completions and prunes can build, and the times of the attempts in them.
use k8s_recommendation_engin.Prelude.{
  ℕ, ◌≡◌, String, Bool, str_eq, ◌&&◌, true, false, not, keep, Option, some, none, List, [], ◌∷◌,
  All, if◌then◌else◌,
}
use k8s_recommendation_engin.Stamp.{Stamp, stamp_compare, is_before, format_fixed, parse_stamp}
use k8s_recommendation_engin.Reservation.{
  AvailabilityRecoveryKey, EventStatus, RecoveryEvent, AvailabilityRecoveryReservation,
  reserve_availability_recovery, complete_availability_recovery,
}

-- The two keys name one workload of one application, whatever their pods are.
abbrev pub one_workload : AvailabilityRecoveryKey → AvailabilityRecoveryKey → Bool
one_workload key other =
    str_eq other.application key.application
    && str_eq other.namespace key.namespace
    && str_eq other.workload key.workload

abbrev pub add_time : Option ℕ → List ℕ → List ℕ
add_time none ts = ts
add_time (some t) ts = t ∷ ts

-- The times of a workload's attempts, the newest row first.
abbrev pub attempt_times : AvailabilityRecoveryKey → List RecoveryEvent → List ℕ
attempt_times key [] = []
attempt_times key (event ∷ events) =
    let rest = attempt_times key events in
    if one_workload key event.key then add_time (parse_stamp event.attempted_at) rest else rest

-- Every row was written with the fixed width format.
abbrev pub IsWritten : List RecoveryEvent → Type 0
IsWritten events = All (λ event. (t : ℕ) × (event.attempted_at ≡ format_fixed t)) events

-- `DELETE FROM availability_recovery_events WHERE attempted_at < ?` of `PruneExpired`.
abbrev pub prune_attempts : Stamp → List RecoveryEvent → List RecoveryEvent
prune_attempts cutoff events =
    keep (λ event. not (is_before (stamp_compare event.attempted_at cutoff))) events

-- A reservation at any clock, for any pod of any workload: those of the workload of `key` ask with its
-- cooldown and limit, the others with theirs. A completion writes the status of any row, and a prune
-- deletes the rows whose text is before that of its cutoff.
pub data Step (show_time : ℕ → String) (key : AvailabilityRecoveryKey) (cooldown limit : ℕ)
    : List RecoveryEvent → List RecoveryEvent → Type 0 where
  reserve_own :
      (clock next_id now : ℕ) (own : AvailabilityRecoveryKey) (events events' : List RecoveryEvent)
      (reservation : AvailabilityRecoveryReservation)
      → one_workload key own ≡ true
      → reserve_availability_recovery show_time clock next_id own now cooldown limit events
        ≡ some (reservation, events')
      → Step show_time key cooldown limit events events'
  reserve_other :
      (clock next_id now other_cooldown other_limit : ℕ) (other : AvailabilityRecoveryKey)
      (events events' : List RecoveryEvent) (reservation : AvailabilityRecoveryReservation)
      → one_workload key other ≡ false
      → reserve_availability_recovery show_time clock next_id other now other_cooldown other_limit
          events
        ≡ some (reservation, events')
      → Step show_time key cooldown limit events events'
  complete :
      (id : ℕ) (status : EventStatus) (message : String) (events : List RecoveryEvent)
      → Step show_time key cooldown limit events
          (complete_availability_recovery id status message events)
  prune :
      (cutoff : Stamp) (events : List RecoveryEvent)
      → Step show_time key cooldown limit events (prune_attempts cutoff events)

pub data Reachable (show_time : ℕ → String) (key : AvailabilityRecoveryKey) (cooldown limit : ℕ)
    : List RecoveryEvent → Type 0 where
  start : Reachable show_time key cooldown limit []
  next :
      (events events' : List RecoveryEvent)
      → Reachable show_time key cooldown limit events
      → Step show_time key cooldown limit events events'
      → Reachable show_time key cooldown limit events'
