-- ===== src/Reservation/Latest.antt =====
-- What the two queries of a reservation find in a table whose rows are written with the fixed width
-- format: the latest of the workload's times, and how many of them are not before a bound.
use k8s_recommendation_engin.Prelude.{
  ℕ, ◌+◌, ◌≤◌, ◌≡◌, refl, ap, true, false, Option, some, none, List, [], ◌∷◌, All, arith, ltb, leb,
  if◌then◌else◌, Bool-cases, ltb-false→le, inl, inr, ◌⊎◌, count_by,
}
use k8s_recommendation_engin.Stamp.{Stamp, format_fixed, stamp_compare, stamp_ge, is_before}
use k8s_recommendation_engin.Stamp.Order.{format_fixed-compare}
use k8s_recommendation_engin.Stamp.RoundTrip.{parse_stamp-format_fixed}
use k8s_recommendation_engin.Reservation.{
  AvailabilityRecoveryKey, RecoveryEvent, same_workload, later_of, latest_attempt, attempts_since,
}
use k8s_recommendation_engin.Reservation.History.{attempt_times, IsWritten}

pub All-raise : (a b : ℕ) (ts : List ℕ) → a ≤ b → All (λ t. t ≤ a) ts → All (λ t. t ≤ b) ts
All-raise a b [] h p = tt
All-raise a b (t ∷ ts) h p = (omega (arith, p.0), All-raise a b ts h p.1)

stamp_ge-format_fixed : (s t : ℕ) → stamp_ge (format_fixed s) (format_fixed t) ≡ leb t s
stamp_ge-format_fixed s t = ground (arith, format_fixed-compare s t)

is_before-format_fixed :
    (s t : ℕ) → is_before (stamp_compare (format_fixed s) (format_fixed t)) ≡ ltb s t
is_before-format_fixed s t = ground (arith, format_fixed-compare s t)

pub attempt_times-own :
    (key : AvailabilityRecoveryKey) (event : RecoveryEvent) (events : List RecoveryEvent) (t : ℕ)
    → same_workload key event ≡ true
    → event.attempted_at ≡ format_fixed t
    → attempt_times key (event ∷ events) ≡ t ∷ attempt_times key events
attempt_times-own key event events t own written =
    rw (own, written, parse_stamp-format_fixed t) refl

pub attempt_times-other :
    (key : AvailabilityRecoveryKey) (event : RecoveryEvent) (events : List RecoveryEvent)
    → same_workload key event ≡ false
    → attempt_times key (event ∷ events) ≡ attempt_times key events
attempt_times-other key event events other = rw other refl

pub attempts_since-count :
    (key : AvailabilityRecoveryKey) (since : ℕ) (events : List RecoveryEvent)
    → IsWritten events
    → attempts_since key (format_fixed since) events
      ≡ count_by (λ t. leb since t) (attempt_times key events)
unfolding attempts_since
attempts_since-count key since [] w = refl
attempts_since-count key since (event ∷ events) w =
    let ih = attempts_since-count key since events w.1 in
    elim (Bool-cases (same_workload key event)) [
      | inl own ↦
          rw
            (
              attempt_times-own key event events w.0.0 own w.0.1,
              own,
              w.0.1,
              stamp_ge-format_fixed w.0.0 since,
            )
            (ap (λ n. (if leb since w.0.0 then 1 else 0) + n) ih)
      | inr other ↦ rw other (omega (arith, ih))
    ]

-- The latest text is the largest time: there is none, or it is one that all are up to.
abbrev pub IsLargest : Option Stamp → List ℕ → Type 0
IsLargest found times =
    ((found ≡ none) × (times ≡ []))
    ⊎ ((latest : ℕ) × (found ≡ some (format_fixed latest)) × All (λ t. t ≤ latest) times)

later_of-IsLargest :
    (t : ℕ) (found : Option Stamp) (times : List ℕ)
    → IsLargest found times
    → IsLargest (later_of (format_fixed t) found) (t ∷ times)
later_of-IsLargest t found times (inl (e, none_yet)) =
    rw (e, none_yet) (inr (t, refl, (omega arith, tt)))
later_of-IsLargest t found times (inr (latest, e, bound)) = rw e (elim (Bool-cases (ltb t latest)) [
  | inl earlier ↦
      inr (latest, rw (is_before-format_fixed t latest, earlier) refl, (ltb→le earlier, bound))
  | inr not_earlier ↦ inr (
    t,
    rw (is_before-format_fixed t latest, not_earlier) refl,
    (omega arith, All-raise latest t times (ltb-false→le t latest not_earlier) bound),
  )
])
  where
    ltb→le : ltb t latest ≡ true → t ≤ latest
    ltb→le h = ground arith

pub latest_attempt-IsLargest :
    (key : AvailabilityRecoveryKey) (events : List RecoveryEvent)
    → IsWritten events
    → IsLargest (latest_attempt key events) (attempt_times key events)
unfolding latest_attempt
latest_attempt-IsLargest key [] w = inl (refl, refl)
latest_attempt-IsLargest key (event ∷ events) w =
    let ih = latest_attempt-IsLargest key events w.1 in
    elim (Bool-cases (same_workload key event)) [
      | inr other ↦ rw other ih
      | inl own ↦
          rw (attempt_times-own key event events w.0.0 own w.0.1, own, w.0.1)
            (later_of-IsLargest w.0.0 (latest_attempt key events) (attempt_times key events) ih)
    ]
