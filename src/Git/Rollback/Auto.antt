-- ===== src/Git/Rollback/Auto.antt =====
-- internal/analyzer/auto_rollback.go: the rollback that an observation asks for.
use k8s_recommendation_engin.Prelude.{
  Bool, true, false, not, ◌&&◌, ◌||◌, Option, none, some, List, [], ◌∷◌, ◌++◌, String, str_eq,
  trim_space, ◌<>◌, join, if◌then◌else◌, is_empty,
}
use k8s_recommendation_engin.Git.{Program, done, and_then, Proposal}
use k8s_recommendation_engin.Git.Reads.{ProposalOptions}
use k8s_recommendation_engin.Git.Rollback.{proposal_rollback}

-- What the rollback reads of WorkloadObservation and of ObservationReport.
pub record WorkloadObservation : Type 0 where
  pub namespace : String
  pub deployment : String
  pub metrics_condition : String
  pub status : String
  pub outcome : String
  pub reasons : List String

pub record ObservationReport : Type 0 where
  pub latest_proposal_commit : String
  pub dirty_lines : List String
  pub workloads : List WorkloadObservation
  pub errors : List String

-- AutoRollbackReport, less the names and the time that it copies.
pub record AutoRollbackReport : Type 0 where
  pub needed : Bool
  pub blocked : Bool
  pub reasons : List String
  pub errors : List String
  pub rollback : Option Proposal

-- emptyDash
abbrev pub empty_dash : String → String
empty_dash value = if str_eq (trim_space value) "" then "-" else value

abbrev pub is_harmful : WorkloadObservation → Bool
is_harmful workload =
    str_eq workload.status "applied"
    && (str_eq workload.outcome "unsafe" || str_eq workload.outcome "regressed")

abbrev pub harm_reason : WorkloadObservation → String
harm_reason workload =
    workload.namespace
    <> "/"
    <> workload.deployment
    <> " applied outcome="
    <> workload.outcome
    <> " metrics="
    <> empty_dash workload.metrics_condition
    <> (if is_empty workload.reasons then "" else " reasons=" <> join "," workload.reasons)

-- AutoRollbackReasons
unfoldable pub auto_rollback_reasons : List WorkloadObservation → List String
auto_rollback_reasons [] = []
auto_rollback_reasons (workload ∷ workloads) =
    let rest = auto_rollback_reasons workloads in
    if is_harmful workload then harm_reason workload ∷ rest else rest

-- The options, with the branch of the profile where they name none.
abbrev pub or_branch : String → String → String
or_branch profile_branch branch = if str_eq branch "" then profile_branch else branch

abbrev pub with_branch : String → ProposalOptions → ProposalOptions
with_branch profile_branch options = record options {
  default_branch = or_branch profile_branch options.default_branch;
  branch_name = or_branch profile_branch options.branch_name;
}

abbrev pub rolled_back : List String → Proposal → AutoRollbackReport
rolled_back reasons rollback =
    if rollback.report.blocked || not (is_empty rollback.report.errors)
    then record {
      needed = true;
      blocked = true;
      reasons = reasons ++ rollback.report.block_reasons;
      errors = rollback.report.errors;
      rollback = some rollback;
    }
    else record {
      needed = true;
      blocked = false;
      reasons = reasons;
      errors = [];
      rollback = some rollback;
    }

abbrev pub not_rolled_back : Bool → Bool → List String → List String → AutoRollbackReport
not_rolled_back needed blocked reasons errors = record {
  needed = needed;
  blocked = blocked;
  reasons = reasons;
  errors = errors;
  rollback = none;
}

-- The guards of AutoRollback, in order; `branch` is the branch of the profile.
unfoldable pub guarded_rollback :
    (String → String)
    → String
    → String
    → ObservationReport
    → ProposalOptions
    → List String
    → Program AutoRollbackReport
unfolding proposal_rollback
guarded_rollback quote worktree branch observation options reasons =
    if is_empty reasons
    then done (
        not_rolled_back false false ("no applied regressed or unsafe workload was observed" ∷ [])
          [])
    else if str_eq observation.latest_proposal_commit ""
    then done (
        not_rolled_back true true
          (reasons ++ "latest k8s-recommendation-engine proposal commit was not found" ∷ []) [])
    else if not (is_empty observation.dirty_lines)
    then done (
        not_rolled_back true true
          (reasons
            ++ ("git worktree is dirty; refusing automatic rollback: "
                <> join "; " observation.dirty_lines)
              ∷ [])
          [])
    else if not (is_empty observation.errors)
    then done (not_rolled_back true true reasons observation.errors)
    else and_then (proposal_rollback quote worktree (with_branch branch options))
        (λ rollback. done (rolled_back reasons rollback))

-- AutoRollback: an observation and a profile may be missing.
unfoldable pub auto_rollback :
    (String → String)
    → String
    → Option String
    → Option ObservationReport
    → ProposalOptions
    → Program AutoRollbackReport
unfolding auto_rollback_reasons guarded_rollback
auto_rollback quote worktree profile none options =
    done (not_rolled_back false true ("observation is required before auto-rollback" ∷ []) [])
auto_rollback quote worktree none (some observation) options =
    done (not_rolled_back false true ("profile is required before auto-rollback" ∷ []) [])
auto_rollback quote worktree (some branch) (some observation) options =
    guarded_rollback quote worktree branch observation options
      (auto_rollback_reasons observation.workloads)
