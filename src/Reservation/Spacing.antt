-- ===== src/Reservation/Spacing.antt =====
-- internal/state/availability_recovery.go: the times of a workload's granted attempts.
use mathlib.Core.Path.{subst}
use k8s_recommendation_engin.Prelude.{
  Bool, ℕ, ◌+◌, ◌-◌, ◌≤◌, ◌<◌, ◌≡◌, refl, sym, ◌∙◌, ap, String, true, false, not, ◌&&◌, Option,
  some, none, List, [], ◌∷◌, All, arith, ltb, leb, ◌==◌, if◌then◌else◌, Bool-cases, inl, inr,
  count_by, ltb-false→le, eq_iff, str_eq,
}
use k8s_recommendation_engin.Stamp.{
  Stamp, stamp_compare, is_before, format_fixed, parse_stamp, hour,
}
use k8s_recommendation_engin.Stamp.RoundTrip.{parse_stamp-format_fixed}
use k8s_recommendation_engin.Reservation.{
  AvailabilityRecoveryKey, EventStatus, RecoveryEvent, AvailabilityRecoveryReservation, same_names,
  same_workload, latest_attempt, attempts_since, attempt_limit, reserve_row, reserve_within_limit,
  reserve_availability_recovery, complete_availability_recovery,
}
use k8s_recommendation_engin.Reservation.History.{
  add_time, attempt_times, IsWritten, prune_attempts, Step, reserve_own, reserve_other, complete,
  prune, Reachable, start, next,
}
use k8s_recommendation_engin.Reservation.Latest.{
  attempts_since-count, latest_attempt-IsLargest, IsLargest, attempt_times-own, attempt_times-other,
}

-- Each time comes at least `gap` after all those before it.
abbrev pub IsSpaced : ℕ → List ℕ → Type 0
IsSpaced gap [] = Unit
IsSpaced gap (t ∷ ts) = All (λ s. s + gap ≤ t) ts × IsSpaced gap ts

-- At each time at most `limit` of the times so far, that one included, are not older than an hour.
abbrev pub IsWithin : ℕ → List ℕ → Type 0
IsWithin limit [] = Unit
IsWithin limit (t ∷ ts) = (count_by (λ s. leb (t - hour) s) (t ∷ ts) ≤ limit) × IsWithin limit ts

abbrev granted_row : AvailabilityRecoveryKey → ℕ → ℕ → RecoveryEvent
granted_row key id at = record {
  id = id;
  key = key;
  attempted_at = format_fixed at;
  status = EventStatus.reserved;
  message = "";
}

-- What a reservation did: it left the table alone, or it added its row.
data Outcome (key : AvailabilityRecoveryKey) (at cooldown limit : ℕ) (events : List RecoveryEvent)
    : AvailabilityRecoveryReservation → List RecoveryEvent → Type 0 where
  kept :
      (reason : String)
      → Outcome key at cooldown limit events
          (record { id = 0; allowed = false; reason = reason })
          events
  granted :
      (id : ℕ)
      → ((latest : ℕ)
          → latest_attempt key events ≡ some (format_fixed latest)
          → 0 < cooldown
          → latest + cooldown ≤ at)
      → attempts_since key (format_fixed (at - hour)) events < limit
      → Outcome key at cooldown limit events
          (record { id = id; allowed = true; reason = "" })
          (granted_row key id at ∷ events)

abbrev AvailabilityResult : Type 0
AvailabilityResult = AvailabilityRecoveryReservation × List RecoveryEvent

abbrev result_or : AvailabilityResult → Option AvailabilityResult → AvailabilityResult
result_or r none = r
result_or r (some found) = found

some_injective : {r s : AvailabilityResult} → some r ≡ some s → r ≡ s
some_injective {r} e = ap (result_or r) e

abbrev time_of : Option Stamp → ℕ
time_of none = 0
time_of (some raw) = elim (parse_stamp raw) [ none ↦ 0 | some t ↦ t ]

time_of-format_fixed : (t : ℕ) → time_of (some (format_fixed t)) ≡ t
time_of-format_fixed t = rw (parse_stamp-format_fixed t, time_of) refl

-- A text stands for one time.
same_time :
    (o : Option Stamp) (s t : ℕ) → o ≡ some (format_fixed s) → o ≡ some (format_fixed t) → s ≡ t
same_time o s t e f = sym (time_of-format_fixed s) ∙ ap time_of (sym e ∙ f) ∙ time_of-format_fixed t

abbrev start_of : ℕ → ℕ → ℕ
start_of clock now = if now == 0 then clock else now

module _ (show_time : ℕ → String) where
  reserve_within_limit-Outcome :
      (key : AvailabilityRecoveryKey) (at cooldown limit next_id : ℕ) (events : List RecoveryEvent)
      → ((latest : ℕ)
          → latest_attempt key events ≡ some (format_fixed latest)
          → 0 < cooldown
          → latest + cooldown ≤ at)
      → Outcome key at cooldown limit events
          (reserve_within_limit key at limit next_id events).0
          (reserve_within_limit key at limit next_id events).1
  unfolding reserve_within_limit reserve_row
  reserve_within_limit-Outcome key at cooldown limit next_id events free =
      let attempts = attempts_since key (format_fixed (at - hour)) events in
      elim (Bool-cases (leb limit attempts)) [
        | inl full ↦ rw full (kept _)
        | inr open_slot ↦ rw open_slot (granted next_id free (below limit attempts open_slot))
      ]
    where
      below : (a b : ℕ) → leb a b ≡ false → b < a
      below a b h = ground arith

  reserve-Outcome :
      (clock next_id : ℕ) (key : AvailabilityRecoveryKey) (now cooldown limit : ℕ)
      (events : List RecoveryEvent)
      → IsWritten events
      → (result : AvailabilityRecoveryReservation × List RecoveryEvent)
        × (reserve_availability_recovery show_time clock next_id key now cooldown limit events
            ≡ some result)
        × Outcome key (start_of clock now) cooldown (attempt_limit limit) events result.0 result.1
  unfolding reserve_availability_recovery
  reserve-Outcome clock next_id key now cooldown limit events written =
      let at = start_of clock now in
      let answer =
        reserve_within_limit-Outcome key at cooldown (attempt_limit limit) next_id events in
      elim (Bool-cases (cooldown == 0)) [
        | inl off ↦
            rw off (_, refl, answer (λ latest found on. omega (arith, eq→zero cooldown off)))
        | inr on ↦ elim (latest_attempt-IsLargest key events written) [
          | inl (empty, _) ↦
              rw (on, empty) (_, refl, answer (λ latest found _. absurd (none≢some empty found)))
          | inr (latest, found, _) ↦
              rw (on, found, parse_stamp-format_fixed latest)
                (elim (Bool-cases (ltb at (latest + cooldown))) [
                  | inl early ↦ rw early (_, refl, kept _)
                  | inr late ↦ rw late (
                    _,
                    refl,
                    answer (λ other same _.
                        waited latest other
                          (same_time (latest_attempt key events) latest other found same) late),
                  )
                ])
        ]
      ]
    where
      waited :
          (s t : ℕ)
          → s ≡ t
          → ltb (start_of clock now) (s + cooldown) ≡ false
          → t + cooldown ≤ start_of clock now
      waited s t e h = omega (arith, ltb-false→le (start_of clock now) (s + cooldown) h)

      eq→zero : (n : ℕ) → (n == 0) ≡ true → n ≡ 0
      eq→zero n h = ground arith

      none≢some : {o : Option Stamp} {a : Stamp} → o ≡ none → o ≡ some a → ⊥
      none≢some e f = ground arith

-- What holds of every table: its texts are written by the code, the workload's attempts are spaced,
-- and they stay within the limit.
abbrev IsKept : AvailabilityRecoveryKey → ℕ → ℕ → List RecoveryEvent → Type 0
IsKept key cooldown limit events =
    IsWritten events
    × IsSpaced cooldown (attempt_times key events)
    × IsWithin (attempt_limit limit) (attempt_times key events)

All-weaken :
    (at cooldown latest : ℕ) (ts : List ℕ)
    → latest + cooldown ≤ at
    → All (λ t. t ≤ latest) ts
    → All (λ s. s + cooldown ≤ at) ts
All-weaken at cooldown latest [] h p = tt
All-weaken at cooldown latest (t ∷ ts) h p =
    (omega (arith, p.0), All-weaken at cooldown latest ts h p.1)

-- Two keys of one workload have the same rows.
same_names_trans :
    (key own : AvailabilityRecoveryKey)
    → same_names key own ≡ true
    → (row : AvailabilityRecoveryKey) → same_names own row ≡ same_names key row
same_names_trans key own same row =
    let parts =
      and_split (str_eq own.application key.application) (str_eq own.namespace key.namespace)
        (str_eq own.workload key.workload) same in
    rw
      (
        (eq_iff own.application key.application).0 parts.0,
        (eq_iff own.namespace key.namespace).0 parts.1,
        (eq_iff own.workload key.workload).0 parts.2,
      )
      refl
  where
    and_split : (a b c : Bool) → (a && b && c) ≡ true → (a ≡ true) × (b ≡ true) × (c ≡ true)
    and_split true true true h = (refl, refl, refl)
    and_split false b c h = absurd (ground arith)
    and_split true false c h = absurd (ground arith)
    and_split true true false h = absurd (ground arith)

attempt_times-same :
    (key own : AvailabilityRecoveryKey)
    → same_names key own ≡ true
    → (events : List RecoveryEvent) → attempt_times own events ≡ attempt_times key events
attempt_times-same key own same [] = refl
attempt_times-same key own same (event ∷ events) =
    rw (same_names_trans key own same event.key, attempt_times-same key own same events) refl

Outcome-own :
    (key own : AvailabilityRecoveryKey) (at cooldown limit : ℕ)
    (events events' : List RecoveryEvent) (reservation : AvailabilityRecoveryReservation)
    → same_names key own ≡ true
    → 0 < cooldown
    → Outcome own at cooldown (attempt_limit limit) events reservation events'
    → IsKept key cooldown limit events
    → IsKept key cooldown limit events'
Outcome-own key own at cooldown limit events _ _ same on (kept _) k = k
Outcome-own key own at cooldown limit events _ _ same on (granted id free slot)
      (w, spaced, within) =
    let row = attempt_times-own key (granted_row own id at) events at same refl in
    let times = attempt_times-same key own same events in
    (
      ((at, refl), w),
      rw row (
        room at
            (subst (λ ts. IsLargest (latest_attempt own events) ts) times
              (latest_attempt-IsLargest own events w))
            (λ latest found. free latest found on),
        spaced,
      ),
      rw row (
        window at
            (attempts_since-count own (at - hour) events w
              ∙ ap (λ ts. count_by (λ s. leb (at - hour) s) ts) times)
            slot,
        within,
      ),
    )
  where
    room :
        (at : ℕ)
        → IsLargest (latest_attempt own events) (attempt_times key events)
        → ((latest : ℕ)
            → latest_attempt own events ≡ some (format_fixed latest)
            → latest + cooldown ≤ at)
        → All (λ s. s + cooldown ≤ at) (attempt_times key events)
    room at (inl (_, none_yet)) h = rw none_yet tt
    room at (inr (latest, found, bound)) h =
        All-weaken at cooldown latest (attempt_times key events) (h latest found) bound

    window :
        (at : ℕ) {n m : ℕ}
        → n ≡ m
        → n < attempt_limit limit
        → (if leb (at - hour) at then 1 else 0) + m ≤ attempt_limit limit
    window at e h = ground arith

Outcome-other :
    (key other : AvailabilityRecoveryKey) (at gap bound cooldown limit : ℕ)
    (events events' : List RecoveryEvent) (reservation : AvailabilityRecoveryReservation)
    → same_names key other ≡ false
    → Outcome other at gap bound events reservation events'
    → IsKept key cooldown limit events
    → IsKept key cooldown limit events'
Outcome-other key other at gap bound cooldown limit events _ _ apart (kept _) k = k
Outcome-other key other at gap bound cooldown limit events _ _ apart (granted id _ _)
      (w, spaced, within) =
    let same = attempt_times-other key (granted_row other id at) events apart in
    (((at, refl), w), rw same spaced, rw same within)

complete-attempted_at :
    (id : ℕ) (status : EventStatus) (message : String) (key : AvailabilityRecoveryKey)
    (events : List RecoveryEvent)
    → IsWritten events
    → IsWritten (complete_availability_recovery id status message events)
      × (attempt_times key (complete_availability_recovery id status message events)
          ≡ attempt_times key events)
unfolding complete_availability_recovery
complete-attempted_at id status message key [] w = (tt, refl)
complete-attempted_at id status message key (event ∷ events) w =
    let ih = complete-attempted_at id status message key events w.1 in
    elim (Bool-cases (not (id == 0) && event.id == id)) [
      | inl hit ↦ rw (hit, ih.1) ((w.0, ih.0), refl)
      | inr miss ↦ rw (miss, ih.1) ((w.0, ih.0), refl)
    ]

-- Some of the times, in their order.
data IsSubset : List ℕ → List ℕ → Type 0 where
  none_left : IsSubset [] []
  dropped : (t : ℕ) (ts ts' : List ℕ) → IsSubset ts ts' → IsSubset ts (t ∷ ts')
  left : (t : ℕ) (ts ts' : List ℕ) → IsSubset ts ts' → IsSubset (t ∷ ts) (t ∷ ts')

IsSubset-All :
    (gap bound : ℕ) (ts ts' : List ℕ)
    → IsSubset ts ts'
    → All (λ s. s + gap ≤ bound) ts'
    → All (λ s. s + gap ≤ bound) ts
IsSubset-All gap bound _ _ none_left h = tt
IsSubset-All gap bound _ _ (dropped t ts ts' sub) h = IsSubset-All gap bound ts ts' sub h.1
IsSubset-All gap bound _ _ (left t ts ts' sub) h = (h.0, IsSubset-All gap bound ts ts' sub h.1)

IsSubset-IsSpaced :
    (gap : ℕ) (ts ts' : List ℕ) → IsSubset ts ts' → IsSpaced gap ts' → IsSpaced gap ts
IsSubset-IsSpaced gap _ _ none_left h = tt
IsSubset-IsSpaced gap _ _ (dropped t ts ts' sub) h = IsSubset-IsSpaced gap ts ts' sub h.1
IsSubset-IsSpaced gap _ _ (left t ts ts' sub) h =
    (IsSubset-All gap t ts ts' sub h.0, IsSubset-IsSpaced gap ts ts' sub h.1)

IsSubset-count_by :
    (since : ℕ) (ts ts' : List ℕ)
    → IsSubset ts ts'
    → count_by (λ s. leb since s) ts ≤ count_by (λ s. leb since s) ts'
IsSubset-count_by since _ _ none_left = omega arith
IsSubset-count_by since _ _ (dropped t ts ts' sub) =
    omega (arith, IsSubset-count_by since ts ts' sub)
IsSubset-count_by since _ _ (left t ts ts' sub) = omega (arith, IsSubset-count_by since ts ts' sub)

IsSubset-IsWithin :
    (limit : ℕ) (ts ts' : List ℕ) → IsSubset ts ts' → IsWithin limit ts' → IsWithin limit ts
IsSubset-IsWithin limit _ _ none_left h = tt
IsSubset-IsWithin limit _ _ (dropped t ts ts' sub) h = IsSubset-IsWithin limit ts ts' sub h.1
IsSubset-IsWithin limit _ _ (left t ts ts' sub) h = (
  omega (arith, h.0, IsSubset-count_by (t - hour) ts ts' sub),
  IsSubset-IsWithin limit ts ts' sub h.1,
)

-- A prune leaves some of the rows.
prune_attempts-IsSubset :
    (cutoff : Stamp) (key : AvailabilityRecoveryKey) (events : List RecoveryEvent)
    → IsWritten events
    → IsWritten (prune_attempts cutoff events)
      × IsSubset (attempt_times key (prune_attempts cutoff events)) (attempt_times key events)
prune_attempts-IsSubset cutoff key [] w = (tt, none_left)
prune_attempts-IsSubset cutoff key (event ∷ events) w =
    let (written, rest) = prune_attempts-IsSubset cutoff key events w.1 in
    elim (Bool-cases (is_before (stamp_compare event.attempted_at cutoff))) [
      | inl old ↦
          rw old (written, dropped_row event events (same_workload key event) w.0.0 w.0.1 rest)
      | inr young ↦
          rw young
            ((w.0, written), left_row event events (same_workload key event) w.0.0 w.0.1 rest)
    ]
  where
    dropped_row :
        (event : RecoveryEvent) (events : List RecoveryEvent) (own : Bool) (t : ℕ)
        → event.attempted_at ≡ format_fixed t
        → IsSubset (attempt_times key (prune_attempts cutoff events)) (attempt_times key events)
        → IsSubset (attempt_times key (prune_attempts cutoff events)) (
            if own
            then add_time (parse_stamp event.attempted_at) (attempt_times key events)
            else attempt_times key events)
    dropped_row event events false t written sub = sub
    dropped_row event events true t written sub =
        rw (written, parse_stamp-format_fixed t) (dropped t _ _ sub)

    left_row :
        (event : RecoveryEvent) (events : List RecoveryEvent) (own : Bool) (t : ℕ)
        → event.attempted_at ≡ format_fixed t
        → IsSubset (attempt_times key (prune_attempts cutoff events)) (attempt_times key events)
        → IsSubset
            (if own
              then add_time
                  (parse_stamp event.attempted_at)
                  (attempt_times key (prune_attempts cutoff events))
              else attempt_times key (prune_attempts cutoff events))
            (if own
              then add_time (parse_stamp event.attempted_at) (attempt_times key events)
              else attempt_times key events)
    left_row event events false t written sub = sub
    left_row event events true t written sub =
        rw (written, parse_stamp-format_fixed t) (left t _ _ sub)

-- A step keeps what holds of the table.
Step-IsKept :
    (show_time : ℕ → String) (key : AvailabilityRecoveryKey) (cooldown limit : ℕ)
    (events events' : List RecoveryEvent)
    → 0 < cooldown
    → Step show_time key cooldown limit events events'
    → IsKept key cooldown limit events
    → IsKept key cooldown limit events'
Step-IsKept show_time key cooldown limit events events' on
      (reserve_own clock next_id now own _ _ reservation same e) k =
    let (result, e', outcome) =
      reserve-Outcome show_time clock next_id own now cooldown limit events k.0 in
    Outcome-own key own (start_of clock now) cooldown limit events events' reservation same on
      (subst (λ r. Outcome own (start_of clock now) cooldown (attempt_limit limit) events r.0 r.1)
        (some_injective (sym e' ∙ e)) outcome)
      k
Step-IsKept show_time key cooldown limit events events' on
      (reserve_other clock next_id now gap bound other _ _ reservation apart e) k =
    let (result, e', outcome) =
      reserve-Outcome show_time clock next_id other now gap bound events k.0 in
    Outcome-other key other (start_of clock now) gap (attempt_limit bound) cooldown limit events
      events' reservation apart
      (subst (λ r. Outcome other (start_of clock now) gap (attempt_limit bound) events r.0 r.1)
        (some_injective (sym e' ∙ e)) outcome)
      k
Step-IsKept show_time key cooldown limit events _ on (complete id status message _) k =
    let (w, same) = complete-attempted_at id status message key events k.0 in
    (w, rw same k.1, rw same k.2)
Step-IsKept show_time key cooldown limit events _ on (prune cutoff _) k =
    let (w, subset) = prune_attempts-IsSubset cutoff key events k.0 in
    (
      w,
      IsSubset-IsSpaced cooldown _ _ subset k.1,
      IsSubset-IsWithin (attempt_limit limit) _ _ subset k.2,
    )

Reachable-IsKept :
    (show_time : ℕ → String) (key : AvailabilityRecoveryKey) (cooldown limit : ℕ)
    (events : List RecoveryEvent)
    → 0 < cooldown
    → Reachable show_time key cooldown limit events
    → IsKept key cooldown limit events
Reachable-IsKept show_time key cooldown limit _ on start = (tt, tt, tt)
Reachable-IsKept show_time key cooldown limit _ on (next events events' before step) =
    Step-IsKept show_time key cooldown limit events events' on step
      (Reachable-IsKept show_time key cooldown limit events on before)

-- In every table that reservations, completions and prunes build, with clocks that may even run backwards,
-- each attempt of a workload that reserves with a positive cooldown comes at least that cooldown
-- after every attempt recorded before it.
pub Reachable-IsSpaced :
    (show_time : ℕ → String) (key : AvailabilityRecoveryKey) (cooldown limit : ℕ)
    (events : List RecoveryEvent)
    → 0 < cooldown
    → Reachable show_time key cooldown limit events
    → IsSpaced cooldown (attempt_times key events)
Reachable-IsSpaced show_time key cooldown limit events on reached =
    (Reachable-IsKept show_time key cooldown limit events on reached).1

-- In every table that reservations, completions and prunes build, whatever the clocks were, when an attempt of
-- a workload that reserves with a positive cooldown was recorded, it and the workload's attempts
-- recorded before it that were at most an hour older, or that had a later time, were together no more
-- than the hourly limit (6 where the policy names none).
pub Reachable-IsWithin :
    (show_time : ℕ → String) (key : AvailabilityRecoveryKey) (cooldown limit : ℕ)
    (events : List RecoveryEvent)
    → 0 < cooldown
    → Reachable show_time key cooldown limit events
    → IsWithin (attempt_limit limit) (attempt_times key events)
Reachable-IsWithin show_time key cooldown limit events on reached =
    (Reachable-IsKept show_time key cooldown limit events on reached).2
