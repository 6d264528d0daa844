-- ===== src/Examples/Attempts.antt =====
-- Runs of internal/state/availability_recovery.go and of the time formats.
use Prim.Native.Nat.{compare, Ordering}
use k8s_recommendation_engin.Prelude.{ℕ, ◌+◌, ◌*◌, ◌≡◌, refl, arith, true, some, List, [], ◌∷◌}
use k8s_recommendation_engin.Stamp.{
  second, minute, format_fixed, format_nano, stamp_compare, parse_stamp, parse_fraction,
  read_fraction, digits, text_compare,
}
use k8s_recommendation_engin.Reservation.{
  AvailabilityRecoveryKey, EventStatus, RecoveryEvent, attempt_limit, reserve_availability_recovery,
  reserve_within_limit, reserve_row, latest_attempt, attempts_since,
}
use k8s_recommendation_engin.Reservation.History.{
  attempt_times, reserve_own, Reachable, start, next,
}
use k8s_recommendation_engin.Stamp.Order.{
  format_fixed-compare, format_nano-compare_seconds, format_nano-fraction_first,
}
use k8s_recommendation_engin.Stamp.RoundTrip.{parse_stamp-format_nano}
use k8s_recommendation_engin.Reservation.Spacing.{
  IsSpaced, IsWithin, Reachable-IsSpaced, Reachable-IsWithin,
}
use k8s_recommendation_engin.Examples.{no_text}

abbrev web_key : AvailabilityRecoveryKey
web_key = record {
  application = "shop";
  namespace = "default";
  workload = "web";
  deployment = "web";
  pod = "web-1";
  pod_uid = "u1";
}

-- The key of the pod that replaces the first.
abbrev next_key : AvailabilityRecoveryKey
next_key = record web_key { pod = "web-2"; pod_uid = "u2" }

abbrev attempt_at : AvailabilityRecoveryKey → ℕ → ℕ → RecoveryEvent
attempt_at key id t = record {
  id = id;
  key = key;
  attempted_at = format_fixed t;
  status = EventStatus.reserved;
  message = "";
}

abbrev two_attempts : List RecoveryEvent
two_attempts = attempt_at next_key 2 (60 * minute) ∷ attempt_at web_key 1 (50 * minute) ∷ []

first_granted :
    reserve_availability_recovery no_text 0 1 web_key (50 * minute) (5 * minute) 0 []
    ≡ some (record { id = 1; allowed = true; reason = "" }, attempt_at web_key 1 (50 * minute) ∷ [])
unfolding reserve_availability_recovery reserve_within_limit reserve_row latest_attempt
    attempts_since
first_granted = refl

second_granted :
    reserve_availability_recovery no_text 0 2 next_key
      (60 * minute)
      (5 * minute)
      0
      (attempt_at web_key 1 (50 * minute) ∷ [])
    ≡ some (record { id = 2; allowed = true; reason = "" }, two_attempts)
unfolding reserve_availability_recovery reserve_within_limit reserve_row latest_attempt
    attempts_since parse_stamp format_fixed stamp_compare digits text_compare parse_fraction
    read_fraction
second_granted = refl

two_attempts-Reachable : Reachable no_text web_key (5 * minute) 0 two_attempts
two_attempts-Reachable =
    next _ _
      (next _ _ start (
        reserve_own 0 1 (50 * minute) web_key [] (attempt_at web_key 1 (50 * minute) ∷ []) _ refl
          first_granted))
      (reserve_own 0 2 (60 * minute) next_key _ two_attempts _ refl second_granted)

Reachable-IsSpaced_example : IsSpaced (5 * minute) (attempt_times web_key two_attempts)
Reachable-IsSpaced_example =
    Reachable-IsSpaced no_text web_key (5 * minute) 0 two_attempts (omega arith)
      two_attempts-Reachable

Reachable-IsWithin_example : IsWithin (attempt_limit 0) (attempt_times web_key two_attempts)
Reachable-IsWithin_example =
    Reachable-IsWithin no_text web_key (5 * minute) 0 two_attempts (omega arith)
      two_attempts-Reachable

format_fixed-compare_example :
    stamp_compare (format_fixed 1500000000) (format_fixed 1000000000)
    ≡ compare 1500000000 1000000000
format_fixed-compare_example = format_fixed-compare 1500000000 1000000000

format_nano-compare_seconds_example :
    stamp_compare (format_nano 1500000000) (format_nano 2000000000) ≡ compare 1500000000 2000000000
format_nano-compare_seconds_example =
    format_nano-compare_seconds 1500000000 2000000000 (λ e. omega (arith, e))

format_nano-fraction_first_example :
    stamp_compare (format_nano (7 * second + 500000000)) (format_nano (7 * second)) ≡ Ordering.lt
format_nano-fraction_first_example =
    format_nano-fraction_first 7 500000000 (omega arith) (omega arith)

parse_stamp-format_nano_example : parse_stamp (format_nano 1500000000) ≡ some 1500000000
parse_stamp-format_nano_example = parse_stamp-format_nano 1500000000
