-- ===== src/Recovery.antt =====
-- internal/recovery/recovery.go: the stage that deletes a failed pod so that its controller makes a
-- new one. The Kubernetes client is a parameter: `get_pod` and `delete_pod` answer for the requests
-- made so far. Only the fields of a pod that the code reads are kept. The durations of a policy are
-- natural numbers, as config.Validate refuses negative ones.
pub mod Live
pub mod Justified
pub mod Run
use k8s_recommendation_engin.Prelude.{
  ℕ, suc, ◌+◌, ◌-◌, ◌*◌, String, Bool, true, false, not, ◌&&◌, ◌||◌, Option, none, some, List, [],
  ◌∷◌, str_eq, ltb, ◌==◌, if◌then◌else◌, ◌<>◌,
}
use k8s_recommendation_engin.Stamp.{minute}
use k8s_recommendation_engin.Report.{
  FailedPodReport, AvailabilityRecoveryReport, WorkloadReport, Report,
}
use k8s_recommendation_engin.Profile.{
  AvailabilityRecoveryPolicySpec, WorkloadSpec, ApplicationProfile, spec_named,
}
use k8s_recommendation_engin.Reservation.{
  AvailabilityRecoveryKey, EventStatus, RecoveryEvent, AvailabilityRecoveryReservation,
  reserve_availability_recovery, complete_availability_recovery,
}
use k8s_recommendation_engin.Recovery.Live.{
  LivePod, PodAnswer, found, not_found, get_failed, is_controlled_by_replica_set,
  current_pod_failure,
}

pub record Options : Type 0 where
  pub enabled : Bool
  pub state_db : String
  pub now : ℕ

-- A request to delete a pod, with its preconditions.
pub record Deletion : Type 0 where
  pub namespace : String
  pub pod : String
  pub uid : String
  pub resource_version : String

-- What the stage changes outside the report: the table of attempts, the id that SQLite gives next,
-- and the deletions requested, the newest first.
pub record World : Type 0 where
  pub events : List RecoveryEvent
  pub next_id : ℕ
  pub deletions : List Deletion

abbrev pub default_failure_grace_period : ℕ
default_failure_grace_period = 2 * minute

abbrev pub default_recovery_cooldown : ℕ
default_recovery_cooldown = 5 * minute

-- Has a failure lasted the grace period? `IsZero() || now.Sub(failedAt) < gracePeriod` says no.
abbrev pub has_lasted : (now grace failed_at : ℕ) → Bool
has_lasted now grace failed_at = not (failed_at == 0 || ltb now (failed_at + grace))

unfoldable pub recovery_candidate : List FailedPodReport → (now grace : ℕ) → Option FailedPodReport
recovery_candidate [] now grace = none
recovery_candidate (pod ∷ pods) now grace =
    let rest = recovery_candidate pods now grace in
    if has_lasted now grace pod.failed_at then some pod else rest

-- `state.ReserveAvailabilityRecovery`: without a database nothing is granted.
unfoldable pub reserve_in :
    (ℕ → String)
    → (path : String) → (clock next_id : ℕ) → AvailabilityRecoveryKey
    → (now cooldown limit : ℕ) → List RecoveryEvent
    → Option (AvailabilityRecoveryReservation × List RecoveryEvent)
reserve_in show_time path clock next_id key now cooldown limit events =
    if str_eq path ""
    then some (
      record { id = 0; allowed = false; reason = "availability recovery requires --state-db" },
      events,
    )
    else reserve_availability_recovery show_time clock next_id key now cooldown limit events

-- What the checks on the live pod answer: a reason to stop, with the client's error, or the pod.
pub data Recheck : Type 0 where
  stop : (reason error : String) → Recheck
  go : LivePod → (failed_at : ℕ) → Recheck

-- What the stage did for one workload: `failed` is an error returned to the caller.
pub record Effect : Type 0 where
  pub failed : Bool
  pub result : AvailabilityRecoveryReport
  pub world : World

abbrev pub key_of :
    {F : Type 0} → Report F → WorkloadReport F → FailedPodReport → LivePod → AvailabilityRecoveryKey
key_of report workload candidate pod = record {
  application = report.application;
  namespace = workload.namespace;
  workload = workload.name;
  deployment = workload.deployment;
  pod = candidate.name;
  pod_uid = pod.uid;
}

abbrev pub deletion_of : {F : Type 0} → WorkloadReport F → FailedPodReport → LivePod → Deletion
deletion_of workload candidate pod = record {
  namespace = workload.namespace;
  pod = candidate.name;
  uid = pod.uid;
  resource_version = pod.resource_version;
}

abbrev pub first_result : Bool → AvailabilityRecoveryReport
first_result enabled = record {
  enabled = enabled;
  emergency = true;
  attempted = false;
  succeeded = false;
  action = "recreate_failed_pod";
  pod = "";
  reason = "";
  error = "";
}

abbrev pub world_after_effect : Option Effect → World → World
world_after_effect none world = world
world_after_effect (some effect) world = effect.world

-- The report and the rest of the loop after one workload.
unfoldable pub go_on :
    {F : Type 0}
    → WorkloadReport F
    → List (WorkloadReport F)
    → Option Effect
    → Bool × List (WorkloadReport F) × World
    → Bool × List (WorkloadReport F) × World
go_on workload workloads none rest = (rest.0, workload ∷ rest.1, rest.2)
go_on workload workloads (some effect) rest =
    let seen = record workload { recovery = some effect.result } in
    if effect.failed
    then (false, seen ∷ workloads, effect.world)
    else (rest.0, seen ∷ rest.1, rest.2)

-- What the stage is given: Go's durations and the texts of times, and the Kubernetes client.
pub record Environment : Type 0 where
  pub parse_duration : String → Option ℕ
  pub show_time : ℕ → String
  pub show_duration : ℕ → String
  pub get_pod : List Deletion → (namespace name : String) → PodAnswer
  pub delete_pod : List Deletion → Deletion → Option String

module _ (env : Environment) where
  abbrev pub policy_duration : String → ℕ → ℕ
  policy_duration value fallback =
      if str_eq value ""
      then fallback
      else elim (env.parse_duration value) [ none ↦ fallback | some duration ↦ duration ]

  -- From `GetPod` to the second test of the grace period.
  unfoldable pub recheck : FailedPodReport → (now grace : ℕ) → PodAnswer → Recheck
  recheck candidate now grace not_found =
      stop "failed pod no longer exists; its controller may already be recreating it" ""
  recheck candidate now grace (get_failed error) =
      stop "failed to recheck pod before availability recovery" error
  recheck candidate now grace (found pod) =
      if not (str_eq candidate.uid "") && not (str_eq pod.uid candidate.uid)
      then stop "pod was replaced after analysis; waiting for the replacement status" ""
      else if not (is_controlled_by_replica_set pod)
      then stop
          "failed pod is not controlled by a Deployment ReplicaSet; refusing direct recreation" ""
      else elim (current_pod_failure pod candidate.container) [
        | none ↦ stop "pod recovered after analysis; no recreation is needed" ""
        | some failed_at ↦
            if has_lasted now grace failed_at
            then go pod failed_at
            else stop
                ("current pod failure has not exceeded recovery grace period "
                  <> env.show_duration grace)
                ""
      ]

  abbrev pub deleted_after : (now failed_at : ℕ) → String
  deleted_after now failed_at =
      "deleted failed pod after "
      <> env.show_duration (now - failed_at)
      <> "; its controller will recreate it"

  abbrev pub record_status : Deletion → ℕ → EventStatus → String → World → World
  record_status deletion id status message world = record world {
    events = complete_availability_recovery id status message world.events;
    deletions = deletion ∷ world.deletions;
  }

  -- The deletion, once the reservation is granted, and the status written for it.
  unfoldable pub delete_reserved :
      Deletion → (now failed_at id : ℕ) → AvailabilityRecoveryReport → World → Effect
  delete_reserved deletion now failed_at id result world =
      elim (env.delete_pod world.deletions deletion) [
        | some error ↦ record {
          failed = false;
          result = record result {
            attempted = true;
            error = error;
            reason = "failed pod recreation request was rejected";
          };
          world = record_status deletion id EventStatus.failed error world;
        }
        | none ↦ record {
          failed = false;
          result = record result {
            attempted = true;
            succeeded = true;
            reason = deleted_after now failed_at;
          };
          world =
              record_status deletion id EventStatus.succeeded (deleted_after now failed_at) world;
        }
      ]

  -- The reservation and the deletion of a pod that the checks let pass.
  unfoldable pub reserve_and_delete :
      (path : String)
      → (clock now : ℕ) → AvailabilityRecoveryPolicySpec
      → AvailabilityRecoveryKey
      → Deletion
      → (failed_at : ℕ) → AvailabilityRecoveryReport
      → World
      → Effect
  unfolding delete_reserved
  reserve_and_delete path clock now policy key deletion failed_at result world =
      elim (reserve_in env.show_time path clock world.next_id key now
        (policy_duration policy.cooldown default_recovery_cooldown) policy.max_attempts_per_hour
        world.events) [
          | none ↦ record { failed = true; result = result; world = world }
          | some (reservation, events) ↦
              if reservation.allowed
              then delete_reserved deletion now failed_at reservation.id result
                  (record world { events = events; next_id = suc world.next_id })
              else record {
                failed = false;
                result = record result { reason = reservation.reason };
                world = world;
              }
        ]

  abbrev pub grace_of : AvailabilityRecoveryPolicySpec → ℕ
  grace_of policy = policy_duration policy.failure_grace_period default_failure_grace_period

  unfoldable pub recover_candidate :
      {F : Type 0}
      → (options : Options) → (clock now : ℕ) → AvailabilityRecoveryPolicySpec
      → Report F
      → WorkloadReport F
      → FailedPodReport
      → AvailabilityRecoveryReport
      → World
      → Effect
  unfolding reserve_and_delete recheck
  recover_candidate options clock now policy report workload candidate result world =
      elim (recheck candidate now (grace_of policy)
        (env.get_pod world.deletions workload.namespace candidate.name)) [
          | stop reason error ↦ record {
            failed = false;
            result = record result { reason = reason; error = error };
            world = world;
          }
          | go pod failed_at ↦
              reserve_and_delete options.state_db clock now policy
                (key_of report workload candidate pod) (deletion_of workload candidate pod)
                failed_at result world
        ]

  abbrev pub with_reason : AvailabilityRecoveryReport → String → World → Effect
  with_reason result reason world = record {
    failed = false;
    result = record result { reason = reason };
    world = world;
  }

  -- A workload in an emergency that the profile names.
  unfoldable pub recover_workload :
      {F : Type 0}
      → (options : Options) → (clock now : ℕ) → AvailabilityRecoveryPolicySpec
      → Report F
      → WorkloadReport F
      → World
      → Effect
  unfolding recover_candidate
  recover_workload options clock now policy report workload world =
      let result = first_result (options.enabled && policy.enabled) in
      if not options.enabled
      then with_reason result
          "live availability recovery is disabled; pass --availability-recovery to enable" world
      else if not policy.enabled
      then with_reason result "live availability recovery is disabled by workload policy" world
      else elim (recovery_candidate workload.availability.failed_pods now (grace_of policy)) [
        | none ↦
            with_reason result
              ("failed pods have not exceeded recovery grace period "
                <> env.show_duration (grace_of policy))
              world
        | some candidate ↦
            recover_candidate options clock now policy report workload candidate
              (record result { pod = candidate.name }) world
      ]

  -- The two `continue`s before a workload's report is touched, or what is done for it.
  unfoldable pub workload_effect :
      {F : Type 0}
      → (options : Options) → (clock now : ℕ) → List WorkloadSpec
      → Report F
      → WorkloadReport F
      → World
      → Option Effect
  workload_effect options clock now specs report workload world =
      if not workload.availability.emergency then none else elim (spec_named specs workload.name) [
        | none ↦ none
        | some spec ↦ some (
            recover_workload options clock now spec.policy.availability_recovery report workload
              world)
      ]

  -- The loop over the report's workloads, which an error of the database ends.
  unfoldable pub apply_from :
      {F : Type 0}
      → (options : Options) → (clock now : ℕ) → List WorkloadSpec
      → Report F
      → List (WorkloadReport F)
      → World
      → Bool × List (WorkloadReport F) × World
  apply_from options clock now specs report [] world = (true, [], world)
  apply_from options clock now specs report (workload ∷ workloads) world =
      let effect = workload_effect options clock now specs report workload world in
      let rest =
        apply_from options clock now specs report workloads (world_after_effect effect world) in
      go_on workload workloads effect rest

  -- `Apply`, with a client, a profile and a report that are there. The Boolean is false where it
  -- returns an error.
  unfoldable pub apply :
      {F : Type 0}
      → (clock : ℕ) → ApplicationProfile
      → Report F
      → Options
      → World
      → Bool × Report F × World
  unfolding apply_from
  apply clock profile report options world =
      let now = if options.now == 0 then clock else options.now in
      let (ok, workloads, after) =
        apply_from options clock now profile.workloads report report.workloads world in
      (ok, record report { workloads = workloads }, after)
