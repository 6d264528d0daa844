-- ===== src/Git/Commit.antt =====
-- internal/analyzer/proposal.go: the commit of a proposal, and the push of one that exists.
use k8s_recommendation_engin.Prelude.{
  Bool, true, false, not, ◌&&◌, Option, none, some, List, [], ◌∷◌, String, str_eq, starts_with,
  trim_space, ◌<>◌, join, if◌then◌else◌, is_empty,
}
use k8s_recommendation_engin.Git.{
  status_porcelain, switch_branch, create_branch, resolve_path, write_file, add, commit,
  head_commit, log_subject, GitAnswer, output, failure, Program, done, ask, and_then, Proposal,
  ProposalFile,
}
use k8s_recommendation_engin.Git.Reads.{
  Read, known, unknown, git_current_branch, git_branch_exists, git_default_branch,
  blocking_git_status_lines, proposal_branch_block_reason, proposal_push_block_reason,
  ProposalOptions, AheadBehind, is_zero, git_ahead_behind,
}
use k8s_recommendation_engin.Git.Fresh.{
  with_report, block_with, fail_with, Step, go_on, stop, ensure_proposal_remote_fresh,
  push_proposal_commit, refresh_proposal_after_git_sync,
}

abbrev pub after_step : (Proposal → Program Proposal) → Step → Program Proposal
after_step next (go_on proposal) = next proposal
after_step next (stop proposal) = done proposal

abbrev pub unless_reason : Option String → Proposal → Program Proposal → Program Proposal
unless_reason none proposal next = next
unless_reason (some reason) proposal next = done (block_with reason proposal)

-- The default branch of the options, or the repository's.
unfoldable pub default_branch_of : ProposalOptions → Program String
unfolding git_default_branch
default_branch_of options =
    if str_eq (trim_space options.default_branch) ""
    then git_default_branch
    else done (trim_space options.default_branch)

-- The guard that the worktree is clean.
abbrev pub status_answered : String → Proposal → Program Proposal → GitAnswer → Program Proposal
status_answered refusing proposal next (failure text message) =
    done (fail_with ("read git status: " <> message) proposal)
status_answered refusing proposal next (output text) =
    let dirty = blocking_git_status_lines text in
    if is_empty dirty then next else done (block_with (refusing <> join "; " dirty) proposal)

abbrev pub branch_answered : Proposal → (String → Program Proposal) → Read String → Program Proposal
branch_answered proposal next (unknown message) =
    done (fail_with ("read current branch: " <> message) proposal)
branch_answered proposal next (known branch) = next branch

abbrev pub switch_answered :
    String → String → Proposal → Program Proposal → GitAnswer → Program Proposal
switch_answered what branch proposal next (output text) = next
switch_answered what branch proposal next (failure text message) =
    done (block_with (what <> branch <> ": " <> message) proposal)

abbrev pub error_answered :
    String → Proposal → (String → Program Proposal) → GitAnswer → Program Proposal
error_answered what proposal next (output text) = next text
error_answered what proposal next (failure text message) =
    done (fail_with (what <> message) proposal)

-- The end of writeProposalCommit.
abbrev pub committed : ProposalOptions → Proposal → String → Program Proposal
committed options proposal text =
    let report = proposal.report in
    let with_commit = with_report (record report { commit = trim_space text }) proposal in
    if options.push
    then push_proposal_commit options with_commit
    else done (
        with_report
          (record report {
            commit = trim_space text;
            message = "proposal branch and local commit created; nothing was pushed";
          })
          proposal)

unfoldable pub make_commit : ProposalOptions → String → Proposal → Program Proposal
unfolding push_proposal_commit
make_commit options message proposal = ask (commit message) (
    error_answered "create proposal commit: " proposal (λ made.
      ask head_commit
        (error_answered "read proposal commit: " proposal (committed options proposal))))

-- The loop over the files.
unfoldable pub write_files : List ProposalFile → Proposal → Program Proposal → Program Proposal
write_files [] proposal next = next
write_files (file ∷ files) proposal next = ask (resolve_path file.source_file) (
    error_answered "" proposal (λ path. ask (write_file path file.proposed_content) (
      error_answered ("write proposed manifest " <> file.source_file <> ": ") proposal (λ written.
        ask (add file.source_file) (
          error_answered "stage proposed manifest: " proposal
            (λ staged. write_files files proposal next))))))

-- From `proposal.Branch = branch` on.
unfoldable pub commit_files :
    ProposalOptions → (Proposal → String) → String → Proposal → Program Proposal
unfolding write_files make_commit
commit_files options message branch proposal =
    let report = proposal.report in
    let on_branch = with_report (record report { branch = branch }) proposal in
    write_files proposal.files on_branch (make_commit options (message on_branch) on_branch)

-- From the creation of the branch on.
unfoldable pub commit_on :
    ProposalOptions → (Proposal → String) → String → String → Proposal → Program Proposal
unfolding commit_files
commit_on options message branch current_branch proposal =
    let rest = commit_files options message branch proposal in
    if str_eq current_branch branch
    then rest
    else ask (create_branch branch)
        (switch_answered "could not create proposal branch " branch proposal rest)

-- From the check of the remote on.
unfoldable pub commit_fresh :
    (String → String)
    → ProposalOptions
    → (Proposal → String)
    → String
    → String
    → Bool
    → Proposal
    → Program Proposal
unfolding ensure_proposal_remote_fresh refresh_proposal_after_git_sync commit_on
commit_fresh quote options message branch current_branch branch_exists proposal =
    and_then
      (ensure_proposal_remote_fresh quote options (if branch_exists then branch else current_branch)
        false proposal)
      (after_step (λ fresh.
        and_then (refresh_proposal_after_git_sync fresh)
          (after_step (commit_on options message branch current_branch))))

-- The switch to a branch that exists.
unfoldable pub commit_switched :
    (String → String)
    → ProposalOptions
    → (Proposal → String)
    → String
    → String
    → Bool
    → Proposal
    → Program Proposal
unfolding commit_fresh
commit_switched quote options message branch current_branch branch_exists proposal =
    if branch_exists && not (str_eq current_branch branch)
    then ask (switch_branch branch) (
        switch_answered "could not switch to proposal branch " branch proposal
          (commit_fresh quote options message branch branch branch_exists proposal))
    else commit_fresh quote options message branch current_branch branch_exists proposal

-- From the guards on the branch on.
unfoldable pub commit_guarded :
    (String → String)
    → ProposalOptions
    → (Proposal → String)
    → String
    → String
    → Bool
    → Proposal
    → String
    → Program Proposal
unfolding commit_switched
commit_guarded quote options message branch current_branch branch_exists proposal default_branch =
    unless_reason
      (proposal_branch_block_reason quote branch current_branch branch_exists default_branch)
      proposal
      (unless_reason (proposal_push_block_reason quote branch default_branch options) proposal
        (commit_switched quote options message branch current_branch branch_exists proposal))

abbrev pub branch_of : ProposalOptions → String
branch_of options =
    if str_eq options.branch_name "" then options.generated_branch else options.branch_name

-- writeProposalCommit; `message` is proposalCommitMessage.
unfoldable pub write_proposal_commit :
    (String → String) → ProposalOptions → (Proposal → String) → Proposal → Program Proposal
unfolding git_current_branch git_branch_exists default_branch_of commit_guarded
write_proposal_commit quote options message proposal =
    let branch = branch_of options in
    ask status_porcelain (
      status_answered "git worktree is not clean; refusing to create proposal commit: " proposal (
        and_then git_current_branch (
          branch_answered proposal (λ current_branch.
            and_then (git_branch_exists branch) (λ branch_exists.
              and_then (default_branch_of options) (
                commit_guarded quote options message branch current_branch branch_exists
                  proposal))))))

-- From the subject of the last commit on.
abbrev pub own_subject : String → Bool
own_subject subject = starts_with (trim_space subject) "k8s-recommendation-engine:"

abbrev pub publish_head : ProposalOptions → String → Proposal → String → Program Proposal
publish_head options branch proposal text =
    let report = proposal.report in
    push_proposal_commit options
      (with_report (record report { branch = branch; commit = trim_space text }) proposal)

abbrev pub publish_subject : ProposalOptions → String → Proposal → String → Program Proposal
publish_subject options branch proposal subject =
    if own_subject subject
    then ask head_commit
        (error_answered "read proposal commit: " proposal (publish_head options branch proposal))
    else done (
        block_with
          "latest commit is not an k8s-recommendation-engine proposal; refusing to push existing branch"
          proposal)

abbrev pub is_synchronized : Read AheadBehind → Bool
is_synchronized (unknown message) = false
is_synchronized (known n) = is_zero n.ahead && is_zero n.behind

abbrev pub publish_counts :
    ProposalOptions → String → Proposal → Read AheadBehind → Program Proposal
publish_counts options branch proposal counts =
    let report = proposal.report in
    if is_synchronized counts
    then done (
        with_report
          (record report {
            branch = branch;
            message = "no proposal changes and branch is synchronized with the remote";
          })
          proposal)
    else ask log_subject (
        error_answered "read latest commit subject: " proposal
          (publish_subject options branch proposal))

-- The two calls of gitAheadBehind: the first, with an empty remote, is made again with origin.
unfoldable pub publish_synchronized :
    (String → String) → ProposalOptions → String → Proposal → Program Proposal
unfolding git_ahead_behind push_proposal_commit
publish_synchronized quote options branch proposal =
    if str_eq (trim_space options.remote) ""
    then and_then (git_ahead_behind quote branch "") (λ first.
      and_then (git_ahead_behind quote branch "origin") (publish_counts options branch proposal))
    else and_then (git_ahead_behind quote branch (trim_space options.remote))
        (publish_counts options branch proposal)

unfoldable pub publish_on :
    (String → String) → ProposalOptions → String → String → Bool → Proposal → Program Proposal
unfolding publish_synchronized
publish_on quote options branch current_branch branch_exists proposal =
    if str_eq current_branch branch
    then publish_synchronized quote options branch proposal
    else if branch_exists
    then ask (switch_branch branch) (
        switch_answered "could not switch to proposal branch " branch proposal
          (publish_synchronized quote options branch proposal))
    else done (
        block_with
          ("no proposal changes and branch " <> quote branch <> " does not exist; nothing to push")
          proposal)

unfoldable pub publish_guarded :
    (String → String)
    → ProposalOptions
    → String
    → String
    → Bool
    → Proposal
    → String
    → Program Proposal
unfolding ensure_proposal_remote_fresh publish_on
publish_guarded quote options branch current_branch branch_exists proposal default_branch =
    unless_reason
      (proposal_branch_block_reason quote branch current_branch branch_exists default_branch)
      proposal
      (unless_reason (proposal_push_block_reason quote branch default_branch options) proposal (
        and_then (ensure_proposal_remote_fresh quote options branch true proposal)
          (after_step (publish_on quote options branch current_branch branch_exists))))

abbrev pub published_branch : ProposalOptions → String → String
published_branch options current_branch =
    if str_eq (trim_space options.branch_name) ""
    then current_branch
    else trim_space options.branch_name

-- publishExistingProposalCommit
unfoldable pub publish_existing_proposal_commit :
    (String → String) → ProposalOptions → Proposal → Program Proposal
unfolding git_current_branch git_branch_exists default_branch_of publish_guarded
publish_existing_proposal_commit quote options proposal = ask status_porcelain (
    status_answered "git worktree is not clean; refusing to push proposal commit: " proposal (
      and_then git_current_branch (
        branch_answered proposal (λ current_branch.
          let branch = published_branch options current_branch in
          and_then (git_branch_exists branch) (λ branch_exists.
            and_then (default_branch_of options)
              (publish_guarded quote options branch current_branch branch_exists proposal))))))
