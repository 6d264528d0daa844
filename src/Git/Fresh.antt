-- ===== src/Git/Fresh.antt =====
-- internal/analyzer/proposal.go: the freshness of a branch, the push and the refresh of a proposal.
use k8s_recommendation_engin.Prelude.{
  Bool, true, false, not, ◌&&◌, ◌||◌, [], ◌∷◌, ◌++◌, String, str_eq, trim_space, ◌<>◌, decimal,
  if◌then◌else◌,
}
use k8s_recommendation_engin.Report.{ProposalReport}
use k8s_recommendation_engin.Git.{
  fetch, pull_rebase, push, GitAnswer, output, failure, Program, done, ask, rebuild, and_then,
  Proposal,
}
use k8s_recommendation_engin.Git.Reads.{
  Read, known, unknown, ProposalOptions, remote_branch_missing, AheadBehind, Integer, is_positive,
  git_ahead_behind,
}

abbrev pub with_report : ProposalReport → Proposal → Proposal
with_report report proposal = record proposal { report = report }

-- `proposal.Blocked = true` with a reason, or with an error.
abbrev pub block_with : String → Proposal → Proposal
block_with reason proposal =
    let report = proposal.report in
    with_report
      (record report { blocked = true; block_reasons = report.block_reasons ++ reason ∷ [] })
      proposal

abbrev pub fail_with : String → Proposal → Proposal
fail_with error proposal =
    let report = proposal.report in
    with_report (record report { blocked = true; errors = report.errors ++ error ∷ [] }) proposal

-- A step that goes on or returns: the boolean result of the source, with the proposal.
pub data Step : Type 0 where
  go_on : Proposal → Step
  stop : Proposal → Step

abbrev signed : Integer → String
signed n = (if n.negative then "-" else "") <> decimal n.magnitude

module _ (quote : String → String) (allow_ahead : Bool) (branch remote : String)
    (proposal : Proposal) where
  abbrev remote_ref : String
  remote_ref = remote <> "/" <> branch

  abbrev counts_text : AheadBehind → String
  counts_text n = "ahead " <> signed n.ahead <> ", behind " <> signed n.behind

  -- After `pull --rebase`.
  abbrev pub rebased_step : Read AheadBehind → Program Step
  rebased_step (unknown message) =
      done
        (stop (fail_with ("read git ahead/behind state after pull --rebase: " <> message) proposal))
  rebased_step (known n) =
      if is_positive n.behind || is_positive n.ahead && not allow_ahead
      then done (
          stop (
            block_with
              ("git branch "
                <> quote branch
                <> " remains out of sync with "
                <> remote_ref
                <> " after pull --rebase ("
                <> counts_text n
                <> ")")
              proposal))
      else done (go_on proposal)

  abbrev pub pulled : AheadBehind → GitAnswer → Program Step
  pulled n (failure text message) = done (
      stop (
        block_with
          ("git branch "
            <> quote branch
            <> " is behind "
            <> remote_ref
            <> " by "
            <> signed n.behind
            <> " commit(s), and pull --rebase failed: "
            <> message)
          proposal))
  pulled n (output text) = and_then (git_ahead_behind quote branch remote) rebased_step

  -- The switch over the counts.
  abbrev pub fetched_step : Read AheadBehind → Program Step
  fetched_step (unknown message) =
      done (stop (fail_with ("read git ahead/behind state: " <> message) proposal))
  fetched_step (known n) =
      if is_positive n.ahead && is_positive n.behind
      then done (
          stop (
            block_with
              ("git branch "
                <> quote branch
                <> " has diverged from "
                <> remote_ref
                <> " after fetch ("
                <> counts_text n
                <> "); refusing to create another proposal commit on a stale base")
              proposal))
      else if is_positive n.behind
      then ask (pull_rebase remote branch) (pulled n)
      else if is_positive n.ahead && not allow_ahead
      then done (
          stop (
            block_with
              ("git branch "
                <> quote branch
                <> " already has "
                <> signed n.ahead
                <> " unpushed commit(s) relative to "
                <> remote_ref
                <> "; refusing to create another proposal commit")
              proposal))
      else done (go_on proposal)

  abbrev pub fetched : GitAnswer → Program Step
  fetched (output text) = and_then (git_ahead_behind quote branch remote) fetched_step
  fetched (failure text message) =
      if remote_branch_missing message
      then done (go_on proposal)
      else done (
          stop (
            block_with
              ("could not verify " <> remote_ref <> " freshness before proposal commit: "
                <> message)
              proposal))

-- `remote := strings.TrimSpace(options.Remote)`, or origin.
abbrev pub remote_name : ProposalOptions → String
remote_name options =
    if str_eq (trim_space options.remote) "" then "origin" else trim_space options.remote

-- ensureProposalRemoteFresh
unfoldable pub ensure_proposal_remote_fresh :
    (String → String) → ProposalOptions → String → Bool → Proposal → Program Step
ensure_proposal_remote_fresh quote options branch allow_ahead proposal =
    if not options.push
    then done (go_on proposal)
    else if str_eq (trim_space branch) ""
    then done (go_on proposal)
    else ask (fetch (remote_name options) (trim_space branch))
        (fetched quote allow_ahead (trim_space branch) (remote_name options) proposal)

abbrev pub pushed_report : String → String → ProposalReport → ProposalReport
pushed_report remote branch report = record report {
  remote = remote;
  pushed = true;
  push_ref = remote <> "/" <> branch;
  message = "proposal commit pushed; Fleet can reconcile after Git updates";
}

abbrev pub unpushed_report : String → String → String → ProposalReport → ProposalReport
unpushed_report remote branch message report = record report {
  remote = remote;
  blocked = true;
  block_reasons =
      report.block_reasons
      ++ ("push to " <> remote <> "/" <> branch
          <> " failed; proposal commit exists only in the local worktree")
        ∷ [];
  errors = report.errors ++ ("push proposal commit: " <> message) ∷ [];
  message = "proposal commit created locally, but push failed";
}

abbrev pub push_answered : String → String → Proposal → GitAnswer → Program Proposal
push_answered remote branch proposal (output text) =
    done (with_report (pushed_report remote branch proposal.report) proposal)
push_answered remote branch proposal (failure text message) =
    done (with_report (unpushed_report remote branch message proposal.report) proposal)

-- pushProposalCommit
unfoldable pub push_proposal_commit : ProposalOptions → Proposal → Program Proposal
push_proposal_commit options proposal =
    ask (push (remote_name options) proposal.report.branch)
      (push_answered (remote_name options) proposal.report.branch proposal)

-- What refreshProposalAfterGitSync makes of the proposal that it builds again.
abbrev pub refreshed_step : Proposal → Proposal → Program Step
refreshed_step proposal built =
    let report = proposal.report in
    if built.report.blocked
    then done (
        stop (
          with_report
            (record report {
              blocked = true;
              block_reasons = report.block_reasons ++ built.report.block_reasons;
              errors = report.errors ++ built.report.errors;
            })
            proposal))
    else if built.report.needed
    then done (go_on (record { report = record report { needed = true }; files = built.files }))
    else done (
        stop (record {
          report = record report {
            needed = false;
            message = "proposal no longer needed after git sync";
          };
          files = built.files;
        }))

-- refreshProposalAfterGitSync
unfoldable pub refresh_proposal_after_git_sync : Proposal → Program Step
refresh_proposal_after_git_sync proposal = rebuild (refreshed_step proposal)
