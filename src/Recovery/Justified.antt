-- ===== src/Recovery/Justified.antt =====
-- internal/recovery/recovery.go: the conditions of one deletion.
use mathlib.Core.Path.{subst}
use k8s_recommendation_engin.Prelude.{
  IsIn, [], Bool, ◌||◌, ℕ, suc, ◌+◌, ◌≤◌, ◌<◌, ◌≡◌, ◌⊎◌, refl, sym, String, true, false, not, ◌&&◌,
  Option, some, List, ◌∷◌, arith, str_eq, Bool-cases, Option-cases, inl, inr,
}
use k8s_recommendation_engin.Report.{
  FailedPodReport, AvailabilityRecoveryReport, WorkloadReport, Report,
}
use k8s_recommendation_engin.Profile.{AvailabilityRecoveryPolicySpec}
use k8s_recommendation_engin.Reservation.{RecoveryEvent, AvailabilityRecoveryReservation}
use k8s_recommendation_engin.Recovery.Live.{
  LivePod, PodAnswer, found, not_found, get_failed, is_controlled_by_replica_set,
  current_pod_failure,
}
use k8s_recommendation_engin.Recovery.{
  Options, Deletion, World, Recheck, stop, go, Effect, Environment, has_lasted, recovery_candidate,
  reserve_in, recheck, grace_of, policy_duration, default_recovery_cooldown, key_of, deletion_of,
  delete_reserved, reserve_and_delete, recover_candidate, first_result, recover_workload,
}

-- The live pod that the checks let pass has the analysed UID, where there is one, belongs to a ReplicaSet of apps/v1, and
-- one of its containers has been failing for the grace period.
pub record IsRecoverable (candidate : FailedPodReport) (now grace : ℕ) (pod : LivePod)
    (failed_at : ℕ) : Type 0 where
  pub same_pod : (str_eq candidate.uid "" || str_eq pod.uid candidate.uid) ≡ true
  pub controlled : is_controlled_by_replica_set pod ≡ true
  pub failing : current_pod_failure pod candidate.container ≡ some failed_at
  pub lasted : (0 < failed_at) × (failed_at + grace ≤ now)

recheck-IsRecoverable :
    (env : Environment) (candidate : FailedPodReport) (now grace : ℕ) (pod : LivePod)
    → (answer : PodAnswer) (failed_at : ℕ)
    → recheck env candidate now grace answer ≡ go pod failed_at
    → (answer ≡ found pod) × IsRecoverable candidate now grace pod failed_at
unfolding recheck
recheck-IsRecoverable env candidate now grace pod not_found failed_at h = absurd (ground arith)
recheck-IsRecoverable env candidate now grace pod (get_failed e) failed_at h = absurd (ground arith)
recheck-IsRecoverable env candidate now grace pod (found live) failed_at h =
    let passed : (live ≡ pod)
        × ((not (str_eq candidate.uid "") && not (str_eq live.uid candidate.uid)) ≡ false)
        × (is_controlled_by_replica_set live ≡ true)
        × (current_pod_failure live candidate.container ≡ some failed_at)
        × (has_lasted now grace failed_at ≡ true) =
      ground arith in
    rw (sym passed.0) (
      refl,
      record {
        same_pod = same_uid (str_eq candidate.uid "") (str_eq live.uid candidate.uid) passed.1;
        controlled = passed.2;
        failing = passed.3;
        lasted = ground (arith, passed.4);
      },
    )
  where
    same_uid : (a b : Bool) → (not a && not b) ≡ false → (a || b) ≡ true
    same_uid a b h = ground arith

-- The pod that is chosen is one of the analysed, and its failure has lasted the grace period.
recovery_candidate-lasted :
    (pods : List FailedPodReport) (now grace : ℕ) (candidate : FailedPodReport)
    → recovery_candidate pods now grace ≡ some candidate
    → IsIn candidate pods × (0 < candidate.failed_at) × (candidate.failed_at + grace ≤ now)
unfolding recovery_candidate
recovery_candidate-lasted [] now grace candidate h = absurd (ground arith)
recovery_candidate-lasted (pod ∷ pods) now grace candidate h =
    elim (Bool-cases (has_lasted now grace pod.failed_at)) [
      | inl lasted ↦
          let same : pod ≡ candidate = ground arith in
          (
            inl same,
            subst (λ p. 0 < p.failed_at) same (ground arith),
            subst (λ p. p.failed_at + grace ≤ now) same (ground arith),
          )
      | inr recent ↦
          let (listed, timed, rest) =
            recovery_candidate-lasted pods now grace candidate (ground arith) in
          (inr listed, timed, rest)
    ]

-- A deletion that follows from the report, the profile and the live pod, with a reservation of its
-- own: the worlds are those before the reservation and after the deletion.
pub record IsJustified {F : Type 0} (env : Environment) (clock now : ℕ) (options : Options)
    (policy : AvailabilityRecoveryPolicySpec) (report : Report F) (workload : WorkloadReport F)
    (before after : World) : Type 0 where
  pub enabled : (options.enabled ≡ true) × (policy.enabled ≡ true)
  pub candidate : FailedPodReport
  pub analysed : IsIn candidate workload.availability.failed_pods
  pub analysed_lasted :
      (0 < candidate.failed_at) × (candidate.failed_at + grace_of env policy ≤ now)
  pub pod : LivePod
  pub failed_at : ℕ
  pub answered : env.get_pod before.deletions workload.namespace candidate.name ≡ found pod
  pub recoverable : IsRecoverable candidate now (grace_of env policy) pod failed_at
  pub reservation : AvailabilityRecoveryReservation
  pub events : List RecoveryEvent
  pub reserved :
      reserve_in env.show_time options.state_db clock before.next_id
        (key_of report workload candidate pod)
        now
        (policy_duration env policy.cooldown default_recovery_cooldown)
        policy.max_attempts_per_hour
        before.events
      ≡ some (reservation, events)
  pub allowed : reservation.allowed ≡ true
  pub deleted : after.deletions ≡ deletion_of workload candidate pod ∷ before.deletions

-- What recovery did for a workload: no deletion and no row, or one justified deletion.
pub data IsRecovered {F : Type 0} (env : Environment) (clock now : ℕ) (options : Options)
    (policy : AvailabilityRecoveryPolicySpec) (report : Report F) (workload : WorkloadReport F)
    (before after : World) : Type 0 where
  untouched : after ≡ before → IsRecovered env clock now options policy report workload before after
  deleted_pod :
      IsJustified env clock now options policy report workload before after
      → IsRecovered env clock now options policy report workload before after

delete_reserved-deletions :
    (env : Environment) (deletion : Deletion) (now failed_at id : ℕ)
    (result : AvailabilityRecoveryReport) (world : World)
    → (delete_reserved env deletion now failed_at id result world).world.deletions
      ≡ deletion ∷ world.deletions
unfolding delete_reserved
delete_reserved-deletions env deletion now failed_at id result world =
    elim (Option-cases (env.delete_pod world.deletions deletion)) [
      | inl gone ↦ rw (gone, delete_reserved) refl
      | inr (error, kept) ↦ rw (kept, delete_reserved) refl
    ]

Recheck-cases :
    (r : Recheck)
    → ((reason : String) × (error : String) × (r ≡ stop reason error))
      ⊎ ((pod : LivePod) × (failed_at : ℕ) × (r ≡ go pod failed_at))
Recheck-cases (stop reason error) = inl (reason, error, refl)
Recheck-cases (go pod failed_at) = inr (pod, failed_at, refl)

module _ {F : Type 0} (env : Environment) (clock now : ℕ) (options : Options)
    (policy : AvailabilityRecoveryPolicySpec) (report : Report F)
    (workload : WorkloadReport F) where
  abbrev Recovered : World → World → Type 0
  Recovered before after = IsRecovered env clock now options policy report workload before after

  abbrev answer_of : FailedPodReport → World → PodAnswer
  answer_of candidate world = env.get_pod world.deletions workload.namespace candidate.name

  abbrev recheck_of : FailedPodReport → World → Recheck
  recheck_of candidate world =
      recheck env candidate now (grace_of env policy) (answer_of candidate world)

  abbrev reserved_for :
      FailedPodReport
      → LivePod
      → World
      → Option (AvailabilityRecoveryReservation × List RecoveryEvent)
  reserved_for candidate pod world =
      reserve_in env.show_time options.state_db clock world.next_id
        (key_of report workload candidate pod) now
        (policy_duration env policy.cooldown default_recovery_cooldown) policy.max_attempts_per_hour
        world.events

  abbrev deletion_effect :
      FailedPodReport → LivePod → ℕ → AvailabilityRecoveryReport → World → Effect
  deletion_effect candidate pod failed_at result world =
      reserve_and_delete env options.state_db clock now policy
        (key_of report workload candidate pod) (deletion_of workload candidate pod) failed_at result
        world

  analysed_facts :
      (candidate : FailedPodReport)
      → recovery_candidate workload.availability.failed_pods now (grace_of env policy)
        ≡ some candidate
      → IsIn candidate workload.availability.failed_pods
        × ((0 < candidate.failed_at) × (candidate.failed_at + grace_of env policy ≤ now))
  analysed_facts candidate chosen =
      let (listed, timed, lasted) =
        recovery_candidate-lasted workload.availability.failed_pods now (grace_of env policy)
          candidate chosen in
      (listed, (timed, lasted))

  reserve_and_delete-IsRecovered :
      (candidate : FailedPodReport) (pod : LivePod) (failed_at : ℕ)
      (result : AvailabilityRecoveryReport) (world : World)
      → (options.enabled ≡ true) × (policy.enabled ≡ true)
      → recovery_candidate workload.availability.failed_pods now (grace_of env policy)
        ≡ some candidate
      → answer_of candidate world ≡ found pod
      → IsRecoverable candidate now (grace_of env policy) pod failed_at
      → Recovered world (deletion_effect candidate pod failed_at result world).world
  unfolding reserve_and_delete
  reserve_and_delete-IsRecovered candidate pod failed_at result world on chosen answered
        recoverable =
      elim (Option-cases (reserved_for candidate pod world)) [
        | inl broken ↦ untouched (rw (broken, reserve_and_delete) refl)
        | inr ((reservation, events), e) ↦ elim (Bool-cases reservation.allowed) [
          | inr refused ↦ untouched (rw (e, refused, reserve_and_delete) refl)
          | inl allowed ↦ deleted_pod (record {
            enabled = on;
            candidate = candidate;
            analysed = (analysed_facts candidate chosen).0;
            analysed_lasted = (analysed_facts candidate chosen).1;
            pod = pod;
            failed_at = failed_at;
            answered = answered;
            recoverable = recoverable;
            reservation = reservation;
            events = events;
            reserved = e;
            allowed = allowed;
            deleted =
                rw (e, allowed, reserve_and_delete)
                  (delete_reserved-deletions env (deletion_of workload candidate pod) now failed_at
                    reservation.id result
                    (record world { events = events; next_id = suc world.next_id }));
          })
        ]
      ]

  recover_candidate-IsRecovered :
      (candidate : FailedPodReport) (result : AvailabilityRecoveryReport) (world : World)
      → (options.enabled ≡ true) × (policy.enabled ≡ true)
      → recovery_candidate workload.availability.failed_pods now (grace_of env policy)
        ≡ some candidate
      → Recovered world
          (recover_candidate env options clock now policy report workload candidate result
            world).world
  unfolding recover_candidate
  recover_candidate-IsRecovered candidate result world on chosen =
      elim (Recheck-cases (recheck_of candidate world)) [
        | inl (reason, error, e) ↦ untouched (rw (e, recover_candidate) refl)
        | inr (pod, failed_at, e) ↦
            let (answered, recoverable) =
              recheck-IsRecoverable env candidate now (grace_of env policy) pod
                (answer_of candidate world) failed_at e in
            rw (e, recover_candidate)
              (reserve_and_delete-IsRecovered candidate pod failed_at result world on chosen
                answered recoverable)
      ]

  abbrev candidate_result : FailedPodReport → AvailabilityRecoveryReport
  candidate_result candidate = record (first_result (options.enabled && policy.enabled)) {
    pod = candidate.name;
  }

  recovered-world :
      (candidate : FailedPodReport)
      → options.enabled ≡ true
      → policy.enabled ≡ true
      → recovery_candidate workload.availability.failed_pods now (grace_of env policy)
        ≡ some candidate
      → (world : World)
      → (recover_workload env options clock now policy report workload world).world
        ≡ (recover_candidate env options clock now policy report workload candidate
            (candidate_result candidate)
            world).world
  unfolding recover_workload
  recovered-world candidate live allowed chosen world = simp (live, allowed, chosen) refl

  pub recover_workload-IsRecovered :
      (world : World)
      → IsRecovered env clock now options policy report workload world
          (recover_workload env options clock now policy report workload world).world
  unfolding recover_workload
  recover_workload-IsRecovered world = elim (Bool-cases options.enabled) [
    | inr off ↦ untouched (rw (off, recover_workload) refl)
    | inl live ↦ elim (Bool-cases policy.enabled) [
      | inr off ↦ untouched (rw (live, off, recover_workload) refl)
      | inl allowed ↦
          elim (Option-cases
            (recovery_candidate workload.availability.failed_pods now (grace_of env policy))) [
              | inl waiting ↦ untouched (rw (live, allowed, waiting, recover_workload) refl)
              | inr (candidate, chosen) ↦
                  let result = candidate_result candidate in
                  rw (recovered-world candidate live allowed chosen world)
                    (recover_candidate-IsRecovered candidate result world (live, allowed) chosen)
            ]
    ]
  ]
