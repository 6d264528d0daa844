-- ===== src/Git/Rollback.antt =====
-- internal/analyzer/proposal_lifecycle.go: the revert of a proposal commit.
pub mod Auto
use k8s_recommendation_engin.Prelude.{
  ◌≡◌, Bool, true, false, not, ◌&&◌, ◌||◌, Option, none, some, List, [], ◌∷◌, ◌++◌, String, str_eq,
  starts_with, trim_space, ◌<>◌, join, if◌then◌else◌, is_empty,
}
use k8s_recommendation_engin.Report.{ProposalReport}
use k8s_recommendation_engin.Git.{
  Command, status_porcelain, show_current, switch_branch, head_commit, log_subject, revert_head,
  GitAnswer, output, failure, Program, done, ask, and_then, Proposal, ProposalFile,
}
use k8s_recommendation_engin.Git.Reads.{
  Read, known, unknown, git_current_branch, git_branch_exists, blocking_git_status_lines,
  proposal_branch_block_reason, proposal_push_block_reason, ProposalOptions,
}
use k8s_recommendation_engin.Git.Fresh.{with_report, block_with, fail_with, push_proposal_commit}
use k8s_recommendation_engin.Git.Commit.{
  unless_reason, default_branch_of, status_answered, branch_answered, switch_answered,
  error_answered, own_subject,
}

-- `RollbackOptions` has the fields of `ProposalOptions` that the rollback reads.
abbrev pub new_rollback : Proposal
new_rollback = record {
  report = record {
    mode = "rollback";
    kind = "revert";
    needed = false;
    blocked = false;
    pushed = false;
    patch_file = "";
    branch = "";
    commit = "";
    remote = "";
    push_ref = "";
    message = "";
    block_reasons = [];
    errors = [];
  };
  files = [];
}

abbrev pub pushed_message : Proposal → Proposal
pushed_message proposal =
    let report = proposal.report in
    if report.pushed
    then with_report
        (record report {
          message = "rollback commit pushed; Fleet can reconcile after Git updates";
        })
        proposal
    else proposal

abbrev pub reverted_report : String → String → ProposalReport → ProposalReport
reverted_report branch text report = record report {
  needed = true;
  branch = branch;
  commit = trim_space text;
}

-- After the revert commit. The rollback pushes with no other option than the remote.
abbrev pub reverted : ProposalOptions → String → Proposal → String → Program Proposal
reverted options branch proposal text =
    let report = reverted_report branch text proposal.report in
    if options.push
    then and_then (push_proposal_commit options (with_report report proposal))
        (λ pushed. done (pushed_message pushed))
    else done (
        with_report
          (record report { message = "rollback commit created locally; nothing was pushed" })
          proposal)

abbrev pub revert_failed : String → Proposal → Proposal
revert_failed text proposal =
    let report = proposal.report in
    if str_eq (trim_space text) ""
    then proposal
    else with_report (record report { errors = report.errors ++ trim_space text ∷ [] }) proposal

abbrev pub revert_answered : ProposalOptions → String → Proposal → GitAnswer → Program Proposal
revert_answered options branch proposal (failure text message) =
    done (revert_failed text (fail_with ("rollback latest proposal commit: " <> message) proposal))
revert_answered options branch proposal (output text) =
    ask head_commit
      (error_answered "read rollback commit: " proposal (reverted options branch proposal))

abbrev pub rollback_subject :
    (String → String) → ProposalOptions → String → Proposal → String → Program Proposal
rollback_subject quote options branch proposal subject =
    if own_subject subject
    then ask revert_head (revert_answered options branch proposal)
    else done (
        block_with
          ("latest commit "
            <> quote (trim_space subject)
            <> " is not an k8s-recommendation-engine proposal")
          proposal)

unfoldable pub rollback_head :
    (String → String) → ProposalOptions → String → Proposal → Program Proposal
unfolding push_proposal_commit
rollback_head quote options branch proposal = ask log_subject (
    error_answered "read latest commit subject: " proposal
      (rollback_subject quote options branch proposal))

unfoldable pub rollback_on :
    (String → String) → ProposalOptions → String → String → Bool → Proposal → Program Proposal
unfolding rollback_head
rollback_on quote options branch current_branch branch_exists proposal =
    if str_eq current_branch branch
    then rollback_head quote options branch proposal
    else if branch_exists
    then ask (switch_branch branch) (
        switch_answered "could not switch to rollback branch " branch proposal
          (rollback_head quote options branch proposal))
    else done (block_with ("rollback branch does not exist: " <> branch) proposal)

unfoldable pub rollback_guarded :
    (String → String)
    → ProposalOptions
    → String
    → String
    → String
    → Proposal
    → Bool
    → Program Proposal
unfolding rollback_on
rollback_guarded quote options branch current_branch default_branch proposal branch_exists =
    unless_reason
      (proposal_branch_block_reason quote branch current_branch branch_exists default_branch)
      proposal
      (unless_reason (proposal_push_block_reason quote branch default_branch options) proposal
        (rollback_on quote options branch current_branch branch_exists proposal))

abbrev pub rollback_branch : ProposalOptions → String → String
rollback_branch options current_branch =
    if str_eq (trim_space options.branch_name) ""
    then current_branch
    else trim_space options.branch_name

-- ProposalRollback
unfoldable pub proposal_rollback : (String → String) → String → ProposalOptions → Program Proposal
unfolding git_current_branch git_branch_exists default_branch_of rollback_guarded
proposal_rollback quote worktree options =
    if str_eq worktree ""
    then done (block_with "--git-worktree is required" new_rollback)
    else ask status_porcelain (
        status_answered "refusing rollback with uncommitted changes: " new_rollback (
          and_then git_current_branch (
            branch_answered new_rollback (λ current_branch.
              let branch = rollback_branch options current_branch in
              and_then (default_branch_of options) (λ default_branch.
                and_then (git_branch_exists branch) (
                  rollback_guarded quote options branch current_branch default_branch
                    new_rollback))))))

-- ProposalRevert: its text, or its error.
pub data Reverted : Type 0 where
  reverted_text : String → Reverted
  refused : String → Reverted

abbrev pub or_refused : String → (String → Program Reverted) → GitAnswer → Program Reverted
or_refused what next (output text) = next text
or_refused what next (failure text message) = done (refused (what <> message))

abbrev pub reverted_with : String → String → Program Reverted
reverted_with text commit =
    done (reverted_text (trim_space text <> "\nrevert_commit=" <> trim_space commit))

abbrev pub revert_clean : String → Program Reverted
revert_clean status =
    let dirty = blocking_git_status_lines status in
    if is_empty dirty
    then ask revert_head (
        or_refused "revert latest proposal commit: "
          (λ text. ask head_commit (or_refused "read revert commit: " (reverted_with text))))
    else done (refused ("refusing to revert with uncommitted changes: " <> join "; " dirty))

abbrev pub revert_subject : (String → String) → String → Program Reverted
revert_subject quote subject =
    if own_subject subject
    then ask status_porcelain (or_refused "read git status: " revert_clean)
    else done (
        refused (
          "refusing to revert latest commit "
          <> quote (trim_space subject)
          <> "; subject must start with k8s-recommendation-engine:"))

abbrev pub revert_branch : (String → String) → String → Program Reverted
revert_branch quote branch =
    if starts_with (trim_space branch) "k8s-recommendation-engine/"
    then ask log_subject (or_refused "read latest commit subject: " (revert_subject quote))
    else done (
        refused (
          "refusing to revert on branch "
          <> quote (trim_space branch)
          <> "; current branch must start with k8s-recommendation-engine/"))

unfoldable pub proposal_revert : (String → String) → String → Program Reverted
proposal_revert quote worktree =
    if str_eq worktree ""
    then done (refused "--git-worktree is required")
    else ask show_current (or_refused "read current branch: " (revert_branch quote))
