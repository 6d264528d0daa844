-- ===== src/Recovery/Live.antt =====
-- The pod as the Kubernetes API gives it, with the fields that internal/recovery/recovery.go reads,
-- and its tests on it.
use k8s_recommendation_engin.Prelude.{
  ℕ, String, Bool, false, not, ◌&&◌, ◌||◌, Option, none, some, List, [], ◌∷◌, str_eq, ◌==◌,
  if◌then◌else◌, is_some,
}

pub record PodCondition : Type 0 where
  pub condition_type : String
  pub status : String

pub record Terminated : Type 0 where
  pub exit_code : ℕ
  pub finished_at : ℕ

pub record ContainerStatus : Type 0 where
  pub name : String
  pub ready : Bool
  pub waiting_reason : Option String
  pub terminated : Option Terminated
  pub last_terminated : Option Terminated

pub record OwnerReference : Type 0 where
  pub api_version : String
  pub kind : String

-- `controller` is what `metav1.GetControllerOf` answers.
pub record LivePod : Type 0 where
  pub uid : String
  pub resource_version : String
  pub controller : Option OwnerReference
  pub deletion_timestamp : Option ℕ
  pub conditions : List PodCondition
  pub container_statuses : List ContainerStatus

pub data PodAnswer : Type 0 where
  found : LivePod → PodAnswer
  not_found : PodAnswer
  get_failed : (error : String) → PodAnswer

abbrev pub owned_by : Option OwnerReference → Bool
owned_by none = false
owned_by (some owner) = str_eq owner.api_version "apps/v1" && str_eq owner.kind "ReplicaSet"

abbrev pub is_controlled_by_replica_set : LivePod → Bool
is_controlled_by_replica_set pod = owned_by pod.controller

unfoldable pub pod_ready : List PodCondition → Bool
pod_ready [] = false
pod_ready (condition ∷ conditions) =
    let rest = pod_ready conditions in
    if str_eq condition.condition_type "Ready" then str_eq condition.status "True" else rest

abbrev pub waits_in_crash_loop : ContainerStatus → Bool
waits_in_crash_loop status = elim status.waiting_reason [
  | none ↦ false
  | some reason ↦ str_eq reason "CrashLoopBackOff"
]

-- The termination that a container's failure is read from.
abbrev pub failed_termination : ContainerStatus → Option Terminated
failed_termination status = elim status.terminated [
  | some terminated ↦ some terminated
  | none ↦ if waits_in_crash_loop status then status.last_terminated else none
]

abbrev pub failure_time : Option Terminated → Option ℕ
failure_time none = none
failure_time (some terminated) =
    if terminated.exit_code == 0 then none else some terminated.finished_at

unfoldable pub container_failure : List ContainerStatus → String → Option ℕ
container_failure [] name = none
container_failure (status ∷ statuses) name =
    let rest = container_failure statuses name in
    if not (str_eq status.name name) || status.ready
    then rest
    else failure_time (failed_termination status)

unfoldable pub current_pod_failure : LivePod → String → Option ℕ
current_pod_failure pod name =
    if is_some pod.deletion_timestamp || pod_ready pod.conditions
    then none
    else container_failure pod.container_statuses name
