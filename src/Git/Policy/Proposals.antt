-- ===== src/Git/Policy/Proposals.antt =====
-- The commands of `writeProposalCommit`.
use mathlib.Core.Path.{subst}
use k8s_recommendation_engin.Prelude.{
  any_by, refl, ◌≡◌, sym, some, true, eq_iff, arith, if◌then◌else◌, Bool, false, not, ◌&&◌, List,
  [], ◌∷◌, String, str_eq,
}
use k8s_recommendation_engin.Git.{
  status_porcelain, switch_branch, create_branch, resolve_path, write_file, add, commit,
  head_commit, output, Program, ask, and_then, Proposal, ProposalFile, History, World, run, IsKept,
  Keeps, and_then-Keeps, run-IsKept,
}
use k8s_recommendation_engin.Git.Reads.{
  ProposalOptions, git_current_branch, git_branch_exists, proposal_branch_block_reason,
  proposal_push_block_reason,
}
use k8s_recommendation_engin.Git.Commit.{
  committed, make_commit, write_files, after_step, commit_on, commit_fresh, commit_guarded,
  branch_of, write_proposal_commit, default_branch_of, commit_files, commit_switched,
  status_answered, branch_answered,
}
use k8s_recommendation_engin.Git.Policy.{
  Policy, policy_of, allowed, was_clean, head_own, checked_out, is_ready, says_made,
}
use k8s_recommendation_engin.Git.Fresh.{
  Step, go_on, stop, ensure_proposal_remote_fresh, refresh_proposal_after_git_sync,
}
use k8s_recommendation_engin.Git.Policy.Parts.{
  Held, At, Started, Ends, StaysAt, str_eq_refl, if-Keeps, git_current_branch-Keeps,
  git_branch_exists-Keeps, refresh-Keeps, default_branch_of-Keeps, after_step-Keeps,
  error_answered-Keeps, switch_answered-Keeps, unless_reason-Keeps, branch_answered-Keeps,
  status_answered-Keeps, push_proposal_commit-Keeps,
}
use k8s_recommendation_engin.Git.Policy.Remote.{HeldAndReady, ensure_proposal_remote_fresh-Keeps}

-- On a branch that has just been created or is checked out, with the branch that it is made from.
abbrev Based : Policy → String → String → History → Type 0
Based policy branch base history =
    Held (some branch) (some base) history × (is_ready policy base history ≡ true)

module _ (options : ProposalOptions) (quote : String → String) where
  abbrev policy : Policy
  policy = policy_of quote options

  committed-Keeps :
      (proposal : Proposal) (text : String) (history : History)
      → was_clean history ≡ true
      → head_own history ≡ true
      → checked_out history ≡ some proposal.report.branch
      → any_by says_made history ≡ true
      → Keeps (allowed policy) Ends history (committed options proposal text)
  unfolding Keeps
  committed-Keeps proposal text history clean own out made =
      if-Keeps policy Ends history options.push _ _
        (λ pushes.
          push_proposal_commit-Keeps quote options _ history pushes clean own out (rw made refl))
        (λ quiet. tt)

  make_commit-Keeps :
      (message base : String) (proposal : Proposal) (history : History)
      → Based policy proposal.report.branch base history
      → Keeps (allowed policy) Ends history (make_commit options message proposal)
  unfolding make_commit Keeps allowed
  make_commit-Keeps message base proposal history ((clean, out, based), is_based) = (
    rw (clean, based) is_based,
    λ said. error_answered-Keeps policy history _ proposal _ (commit message) said (λ made. (
      refl,
      λ head.
          error_answered-Keeps policy ((commit message, output made) ∷ history) _ proposal _
            head_commit head
            (λ text.
              committed-Keeps proposal text
                ((head_commit, output text) ∷ ((commit message, output made) ∷ history)) clean refl
                out refl),
    )),
  )

  write_files-Keeps :
      (branch base : String) (files : List ProposalFile) (proposal : Proposal)
      (next : Program Proposal) (history : History)
      → Based policy branch base history
      → ((later : History)
          → Based policy branch base later
          → Keeps (allowed policy) Ends later next)
      → Keeps (allowed policy) Ends history (write_files files proposal next)
  unfolding write_files Keeps allowed
  write_files-Keeps branch base [] proposal next history known follows = follows history known
  write_files-Keeps branch base (file ∷ files) proposal next history known follows = (
    refl,
    λ resolved.
        error_answered-Keeps policy history _ proposal _ (resolve_path file.source_file) resolved
          (λ path.
            let found : History = (resolve_path file.source_file, output path) ∷ history in
            (
              rw (known.0.0, str_eq_refl path) refl,
              λ wrote.
                  error_answered-Keeps policy found _ proposal _
                    (write_file path file.proposed_content) wrote
                    (λ written.
                      let made : History =
                        (write_file path file.proposed_content, output written) ∷ found in
                      (
                        rw (known.0.0, str_eq_refl file.source_file, str_eq_refl path) refl,
                        λ staged.
                            error_answered-Keeps policy made _ proposal _ (add file.source_file)
                              staged
                              (λ text.
                                write_files-Keeps branch base files proposal next
                                  ((add file.source_file, output text) ∷ made) known follows),
                      )),
            )),
  )

  commit_files-Keeps :
      (message : Proposal → String) (branch base : String) (proposal : Proposal) (history : History)
      → Based policy branch base history
      → Keeps (allowed policy) Ends history (commit_files options message branch proposal)
  unfolding commit_files
  commit_files-Keeps message branch base proposal history known =
      write_files-Keeps branch base proposal.files _ _ history known
        (λ last final. make_commit-Keeps _ base _ last final)

  commit_on-Keeps :
      (message : Proposal → String) (branch current_branch : String) (proposal : Proposal)
      (history : History)
      → Based policy current_branch current_branch history
      → Keeps
          (allowed policy)
          Ends
          history
          (commit_on options message branch current_branch proposal)
  unfolding commit_on Keeps allowed
  commit_on-Keeps message branch current_branch proposal history known =
      if-Keeps policy Ends history (str_eq current_branch branch) _ _
        (λ same. commit_files-Keeps message branch current_branch proposal history (
          subst (λ b. Based policy b current_branch history) ((eq_iff current_branch branch).0 same)
            known))
        (λ other. (
          known.0.0,
          λ said.
              switch_answered-Keeps policy history _ branch proposal _ (create_branch branch) said
                (λ text.
                  commit_files-Keeps message branch current_branch proposal
                    ((create_branch branch, output text) ∷ history)
                    ((known.0.0, refl, known.0.2), known.1)),
        ))

  abbrev Refreshed : String → History → Step → Type 0
  Refreshed branch later step = Based policy branch branch later

  -- After the check of the remote.
  checked-Keeps :
      (message : Proposal → String) (branch current_branch : String) (history : History)
      (step : Step)
      → HeldAndReady policy false current_branch
          (some current_branch)
          (some current_branch)
          history
          step
      → Keeps (allowed policy) Ends history (
          after_step
            (λ fresh.
              and_then
                (refresh_proposal_after_git_sync fresh)
                (after_step (commit_on options message branch current_branch)))
            step)
  unfolding Keeps
  checked-Keeps message branch current_branch history (stop proposal) h = tt
  checked-Keeps message branch current_branch history (go_on fresh) known =
      and_then-Keeps (allowed policy) (Refreshed current_branch) Ends history _ _
        (refresh-Keeps policy (Based policy current_branch current_branch) history known fresh)
        (λ last built fine.
          after_step-Keeps policy last _ built
            (λ ready. commit_on-Keeps message branch current_branch ready last fine))

  commit_fresh-Keeps :
      (message : Proposal → String) (branch current_branch : String) (branch_exists : Bool)
      (proposal : Proposal) (history : History)
      → (if branch_exists then branch else current_branch) ≡ current_branch
      → At current_branch history
      → Keeps
          (allowed policy)
          Ends
          history
          (commit_fresh quote options message branch current_branch branch_exists proposal)
  unfolding commit_fresh
  commit_fresh-Keeps message branch current_branch branch_exists proposal history named at_here =
      let here = some current_branch in
      and_then-Keeps (allowed policy) (HeldAndReady policy false current_branch here here) Ends
        history _ _
        (subst
          (λ b. Keeps (allowed policy) (HeldAndReady policy false b here here) history (
            ensure_proposal_remote_fresh quote options
              (if branch_exists then branch else current_branch) false proposal))
          named
          (ensure_proposal_remote_fresh-Keeps quote options
            (if branch_exists then branch else current_branch) false proposal here here history
            at_here))
        (λ later step known. checked-Keeps message branch current_branch later step known)

  commit_switched-Keeps :
      (message : Proposal → String) (branch current_branch : String) (branch_exists : Bool)
      (proposal : Proposal) (history : History)
      → At current_branch history
      → Keeps
          (allowed policy)
          Ends
          history
          (commit_switched quote options message branch current_branch branch_exists proposal)
  unfolding commit_switched Keeps allowed
  commit_switched-Keeps message branch current_branch branch_exists proposal history at_here =
      if-Keeps policy Ends history (branch_exists && not (str_eq current_branch branch)) _ _
        (λ switches. (
          at_here.0,
          λ said.
              switch_answered-Keeps policy history _ branch proposal _ (switch_branch branch) said
                (λ text.
                  commit_fresh-Keeps message branch branch branch_exists proposal
                    ((switch_branch branch, output text) ∷ history) (either branch_exists)
                    (at_here.0, refl, refl)),
        ))
        (λ stays.
          commit_fresh-Keeps message branch current_branch branch_exists proposal history
            (stayed branch_exists stays) at_here)
    where
      either : (b : Bool) → (if b then branch else branch) ≡ branch
      either true = refl
      either false = refl

      same : (b : Bool) → not b ≡ false → b ≡ true
      same true h = refl
      same false h = absurd (ground arith)

      stayed :
          (b : Bool)
          → (b && not (str_eq current_branch branch)) ≡ false
          → (if b then branch else current_branch) ≡ current_branch
      stayed false h = refl
      stayed true h = sym ((eq_iff current_branch branch).0 (same (str_eq current_branch branch) h))

  commit_guarded-Keeps :
      (message : Proposal → String) (branch current_branch : String) (branch_exists : Bool)
      (proposal : Proposal) (default_branch : String) (history : History)
      → At current_branch history
      → Keeps (allowed policy) Ends history (
          commit_guarded quote options message branch current_branch branch_exists proposal
            default_branch)
  unfolding commit_guarded
  commit_guarded-Keeps message branch current_branch branch_exists proposal default_branch history
        at_here =
      unless_reason-Keeps policy history
        (proposal_branch_block_reason quote branch current_branch branch_exists default_branch)
        proposal _
        (unless_reason-Keeps policy history
          (proposal_push_block_reason quote branch default_branch options) proposal _
          (commit_switched-Keeps message branch current_branch branch_exists proposal history
            at_here))

  -- The guards that both programs begin with.
  pub begun-Keeps :
      (refusing : String) (proposal : Proposal) (branch : String → String)
      (next : String → Bool → String → Program Proposal)
      → ((current_branch : String) (branch_exists : Bool) (default_branch : String)
            (history : History)
          → At current_branch history
          → Keeps (allowed policy) Ends history (next current_branch branch_exists default_branch))
      → Keeps (allowed policy) Ends [] (
          ask status_porcelain (
            status_answered refusing proposal (
              and_then git_current_branch (
                branch_answered proposal (λ current_branch.
                  and_then (git_branch_exists (branch current_branch)) (λ branch_exists.
                    and_then (default_branch_of options) (next current_branch branch_exists)))))))
  unfolding Keeps allowed
  begun-Keeps refusing proposal branch next keeps = (
    refl,
    λ said. status_answered-Keeps policy refusing proposal _ said (λ history clean.
        and_then-Keeps (allowed policy) Started Ends history git_current_branch _
          (git_current_branch-Keeps policy history clean)
          (λ later current started.
            branch_answered-Keeps policy later proposal _ current started (λ name here.
              and_then-Keeps (allowed policy) (StaysAt name) Ends later
                (git_branch_exists (branch name)) _
                (git_branch_exists-Keeps policy name later here (branch name))
                (λ after exists fine.
                  and_then-Keeps (allowed policy) (StaysAt name) Ends after
                    (default_branch_of options) _
                    (default_branch_of-Keeps policy name after fine options)
                    (λ last default_branch good. keeps name exists default_branch last good))))),
  )

pub write_proposal_commit-Keeps :
    (quote : String → String) (options : ProposalOptions) (message : Proposal → String)
    (proposal : Proposal)
    → Keeps
        (allowed (policy_of quote options))
        Ends
        []
        (write_proposal_commit quote options message proposal)
unfolding write_proposal_commit
write_proposal_commit-Keeps quote options message proposal =
    begun-Keeps options quote _ proposal (λ current_branch. branch_of options)
      (λ current_branch branch_exists.
        commit_guarded quote options message (branch_of options) current_branch branch_exists
          proposal)
      (λ current_branch branch_exists default_branch history at_here.
        commit_guarded-Keeps options quote message (branch_of options) current_branch branch_exists
          proposal default_branch history at_here)

-- Whatever git answers and whatever the worktree holds, each command that `writeProposalCommit` runs
-- is allowed after those before it: no file, branch or remote changes before a clean status, a file is
-- written where its path has just been resolved and staged only right after that, with the push option
-- on a commit is made only when git has said last that the branch it is made from is in step with the
-- remote's, or has none there, or the branch has no name, and a push follows only with that option on,
-- after its own commit, of the branch that is checked out and to the remote of the options.
pub write_proposal_commit-IsKept :
    (quote : String → String) (options : ProposalOptions) (message : Proposal → String)
    (proposal : Proposal) (world : World)
    → IsKept
        (allowed (policy_of quote options))
        (run world [] (write_proposal_commit quote options message proposal)).1
unfolding IsKept
write_proposal_commit-IsKept quote options message proposal world =
    (run-IsKept (allowed (policy_of quote options)) Ends world []
      (write_proposal_commit quote options message proposal)
      (write_proposal_commit-Keeps quote options message proposal) tt).0
