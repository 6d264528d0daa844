-- ===== src/Git/Policy/Rollbacks.antt =====
-- The commands of `ProposalRollback`, `ProposalRevert` and `AutoRollback`.
use mathlib.Core.Path.{subst}
use k8s_recommendation_engin.Prelude.{
  some, eq_iff, ◌≡◌, refl, sym, ◌∙◌, starts_with, any_by, inl, inr, Bool-cases, arith, Bool, true,
  false, not, ◌&&◌, List, [], ◌∷◌, none, some, String, str_eq, trim_space, if◌then◌else◌, is_empty,
}
use k8s_recommendation_engin.Git.{
  Command, status_porcelain, show_current, switch_branch, head_commit, log_subject, revert_head,
  GitAnswer, output, failure, Program, Proposal, History, World, run, IsKept, Keeps, and_then-Keeps,
  run-IsKept,
}
use k8s_recommendation_engin.Git.Reads.{
  ProposalOptions, git_current_branch, git_branch_exists, proposal_branch_block_reason,
  proposal_push_block_reason, blocking_git_status_lines,
}
use k8s_recommendation_engin.Git.Commit.{default_branch_of, own_subject}
use k8s_recommendation_engin.Git.Fresh.{push_proposal_commit}
use k8s_recommendation_engin.Git.Rollback.{
  new_rollback, reverted, revert_answered, rollback_subject, rollback_head, rollback_on,
  rollback_guarded, rollback_branch, proposal_rollback, Reverted, or_refused, revert_clean,
  revert_branch, proposal_revert,
}
use k8s_recommendation_engin.Git.Rollback.Auto.{
  WorkloadObservation, ObservationReport, AutoRollbackReport, auto_rollback_reasons,
  guarded_rollback, auto_rollback, is_harmful,
}
use k8s_recommendation_engin.Git.Policy.{
  Policy, policy_of, allowed, says_clean, says_made, was_clean, head_own, checked_out,
}
use k8s_recommendation_engin.Git.Policy.Parts.{
  At, Started, Ends, StaysAt, any_now, if-Keeps, git_current_branch-Keeps, git_branch_exists-Keeps,
  default_branch_of-Keeps, error_answered-Keeps, switch_answered-Keeps, unless_reason-Keeps,
  branch_answered-Keeps, status_answered-Keeps, push_proposal_commit-Keeps,
}

module _ (quote : String → String) (options : ProposalOptions) where
  abbrev policy : Policy
  policy = policy_of quote options

  reverted-Keeps :
      (branch : String) (proposal : Proposal) (text : String) (history : History)
      → was_clean history ≡ true
      → head_own history ≡ true
      → checked_out history ≡ some branch
      → any_by says_made history ≡ true
      → Keeps (allowed policy) Ends history (reverted options branch proposal text)
  unfolding Keeps
  reverted-Keeps branch proposal text history clean own out made =
      if-Keeps policy Ends history options.push _ _
        (λ pushes.
          and_then-Keeps (allowed policy) Ends Ends history (push_proposal_commit options _) _
            (push_proposal_commit-Keeps quote options _ history pushes clean own out (rw made refl))
            (λ later pushed ok. tt))
        (λ quiet. tt)

  revert_answered-Keeps :
      (branch : String) (proposal : Proposal) (history : History) (said : GitAnswer)
      → was_clean history ≡ true
      → checked_out history ≡ some branch
      → Keeps
          (allowed policy)
          Ends
          ((revert_head, said) ∷ history)
          (revert_answered options branch proposal said)
  unfolding Keeps allowed
  revert_answered-Keeps branch proposal history (failure text message) clean out = tt
  revert_answered-Keeps branch proposal history (output text) clean out = (
    refl,
    λ head.
        error_answered-Keeps policy ((revert_head, output text) ∷ history) _ proposal _ head_commit
          head
          (λ made.
            reverted-Keeps branch proposal made
              ((head_commit, output made) ∷ ((revert_head, output text) ∷ history)) clean refl out
              refl),
  )

  rollback_subject-Keeps :
      (branch : String) (proposal : Proposal) (subject : String) (history : History)
      → was_clean history ≡ true
      → checked_out history ≡ some branch
      → Keeps
          (allowed policy)
          Ends
          ((log_subject, output subject) ∷ history)
          (rollback_subject quote options branch proposal subject)
  unfolding Keeps allowed
  rollback_subject-Keeps branch proposal subject history clean out =
      let logged : History = (log_subject, output subject) ∷ history in
      if-Keeps policy Ends logged (own_subject subject) _ _
        (λ own. (
          rw (clean, own) refl,
          λ said. revert_answered-Keeps branch proposal logged said clean out,
        ))
        (λ foreign. tt)

  rollback_head-Keeps :
      (branch : String) (proposal : Proposal) (history : History)
      → At branch history
      → Keeps (allowed policy) Ends history (rollback_head quote options branch proposal)
  unfolding rollback_head Keeps allowed
  rollback_head-Keeps branch proposal history at_here = (
    refl,
    λ said.
        error_answered-Keeps policy history _ proposal _ log_subject said
          (λ subject. rollback_subject-Keeps branch proposal subject history at_here.0 at_here.1),
  )

  rollback_on-Keeps :
      (branch current_branch : String) (branch_exists : Bool) (proposal : Proposal)
      (history : History)
      → At current_branch history
      → Keeps
          (allowed policy)
          Ends
          history
          (rollback_on quote options branch current_branch branch_exists proposal)
  unfolding rollback_on Keeps allowed
  rollback_on-Keeps branch current_branch branch_exists proposal history at_here =
      if-Keeps policy Ends history (str_eq current_branch branch) _ _
        (λ same.
          rollback_head-Keeps branch proposal history
            (subst (λ b. At b history) ((eq_iff current_branch branch).0 same) at_here))
        (λ other.
          if-Keeps policy Ends history branch_exists _ _
            (λ there. (
              at_here.0,
              λ said.
                  switch_answered-Keeps policy history _ branch proposal _ (switch_branch branch)
                    said
                    (λ text.
                      rollback_head-Keeps branch proposal
                        ((switch_branch branch, output text) ∷ history) (at_here.0, refl, refl)),
            ))
            (λ absent. tt))

  rollback_guarded-Keeps :
      (branch current_branch default_branch : String) (proposal : Proposal) (branch_exists : Bool)
      (history : History)
      → At current_branch history
      → Keeps (allowed policy) Ends history (
          rollback_guarded quote options branch current_branch default_branch proposal
            branch_exists)
  unfolding rollback_guarded
  rollback_guarded-Keeps branch current_branch default_branch proposal branch_exists history
        at_here =
      unless_reason-Keeps policy history
        (proposal_branch_block_reason quote branch current_branch branch_exists default_branch)
        proposal _
        (unless_reason-Keeps policy history
          (proposal_push_block_reason quote branch default_branch options) proposal _
          (rollback_on-Keeps branch current_branch branch_exists proposal history at_here))

  proposal_rollback-Keeps :
      (worktree : String)
      → Keeps (allowed policy) Ends [] (proposal_rollback quote worktree options)
  unfolding proposal_rollback Keeps allowed
  proposal_rollback-Keeps worktree =
      if-Keeps policy Ends [] (str_eq worktree "") _ _ (λ unset. tt)
        (λ given. (
          refl,
          λ said. status_answered-Keeps policy _ new_rollback _ said (λ history clean.
              and_then-Keeps (allowed policy) Started Ends history git_current_branch _
                (git_current_branch-Keeps policy history clean)
                (λ later current started.
                  branch_answered-Keeps policy later new_rollback _ current started (λ name here.
                    and_then-Keeps (allowed policy) (StaysAt name) Ends later
                      (default_branch_of options) _
                      (default_branch_of-Keeps policy name later here options)
                      (λ after default_branch fine.
                        and_then-Keeps (allowed policy) (StaysAt name) Ends after
                          (git_branch_exists (rollback_branch options name)) _
                          (git_branch_exists-Keeps policy name after fine
                            (rollback_branch options name))
                          (λ last exists good.
                            rollback_guarded-Keeps (rollback_branch options name) name
                              default_branch new_rollback exists last good))))),
        ))

-- Whatever git answers, `ProposalRollback` reverts only after a clean status and after the subject of
-- HEAD was found, since the last switch of branch, to be that of a proposal, and it pushes only with
-- the push option on, after its own revert, the branch that is checked out to the remote of the
-- options.
pub proposal_rollback-IsKept :
    (quote : String → String) (worktree : String) (options : ProposalOptions) (world : World)
    → IsKept
        (allowed (policy_of quote options))
        (run world [] (proposal_rollback quote worktree options)).1
unfolding IsKept
proposal_rollback-IsKept quote worktree options world =
    (run-IsKept (allowed (policy_of quote options)) Ends world []
      (proposal_rollback quote worktree options) (proposal_rollback-Keeps quote options worktree)
      tt).0

-- The policy of a program that has no push option.
abbrev pub local_policy : (String → String) → Policy
local_policy quote = record { quote = quote; pushes = false; remote = "" }

or_refused-Keeps :
    (quote : String → String) (history : History) (what : String) (next : String → Program Reverted)
    (command : Command) (said : GitAnswer)
    → ((text : String)
        → Keeps (allowed (local_policy quote)) Ends ((command, output text) ∷ history) (next text))
    → Keeps
        (allowed (local_policy quote))
        Ends
        ((command, said) ∷ history)
        (or_refused what next said)
unfolding Keeps
or_refused-Keeps quote history what next command (output text) keeps = keeps text
or_refused-Keeps quote history what next command (failure text message) keeps = tt

revert_clean-Keeps :
    (quote : String → String) (status : String) (history : History)
    → head_own history ≡ true
    → Keeps
        (allowed (local_policy quote))
        Ends
        ((status_porcelain, output status) ∷ history)
        (revert_clean status)
unfolding Keeps allowed
revert_clean-Keeps quote status history own =
    let seen : History = (status_porcelain, output status) ∷ history in
    if-Keeps (local_policy quote) Ends seen (is_empty (blocking_git_status_lines status)) _ _
      (λ clean. (
        rw (any_now says_clean (status_porcelain, output status) history clean, own) refl,
        λ said. or_refused-Keeps quote seen _ _ revert_head said (λ text. (
          refl,
          λ head.
              or_refused-Keeps quote ((revert_head, output text) ∷ seen) _ _ head_commit head
                (λ made. tt),
        )),
      ))
      (λ dirty. tt)

revert_branch-Keeps :
    (quote : String → String) (branch : String)
    → Keeps
        (allowed (local_policy quote))
        Ends
        ((show_current, output branch) ∷ [])
        (revert_branch quote branch)
unfolding Keeps allowed
revert_branch-Keeps quote branch =
    let seen : History = (show_current, output branch) ∷ [] in
    if-Keeps (local_policy quote) Ends seen
      (starts_with (trim_space branch) "k8s-recommendation-engine/") _ _
      (λ named. (
        refl,
        λ said. or_refused-Keeps quote seen _ _ log_subject said (λ subject.
            let logged : History = (log_subject, output subject) ∷ seen in
            if-Keeps (local_policy quote) Ends logged (own_subject subject) _ _
              (λ own. (
                refl,
                λ status.
                    or_refused-Keeps quote logged _ _ status_porcelain status
                      (λ text. revert_clean-Keeps quote text logged own),
              ))
              (λ foreign. tt)),
      ))
      (λ other. tt)

-- Whatever git answers, `ProposalRevert` never pushes or fetches, and it reverts only after a clean
-- status and after the subject of HEAD was found to be that of a proposal.
pub proposal_revert-IsKept :
    (quote : String → String) (worktree : String) (world : World)
    → IsKept (allowed (local_policy quote)) (run world [] (proposal_revert quote worktree)).1
unfolding IsKept proposal_revert Keeps allowed
proposal_revert-IsKept quote worktree world =
    (run-IsKept (allowed (local_policy quote)) Ends world [] (proposal_revert quote worktree)
      (if-Keeps (local_policy quote) Ends [] (str_eq worktree "") _ _ (λ unset. tt)
        (λ given. (
          refl,
          λ said. or_refused-Keeps quote [] _ _ show_current said (revert_branch-Keeps quote),
        )))
      tt).0

reasons-empty :
    (workloads : List WorkloadObservation)
    → is_empty (auto_rollback_reasons workloads) ≡ not (any_by is_harmful workloads)
unfolding auto_rollback_reasons
reasons-empty [] = refl
reasons-empty (workload ∷ workloads) = elim (Bool-cases (is_harmful workload)) [
  | inl harmful ↦ rw harmful refl
  | inr fine ↦ rw fine (reasons-empty workloads)
]

-- The observation asks for a rollback, and nothing in it speaks against one.
abbrev pub may_roll_back : ObservationReport → Bool
may_roll_back observation =
    any_by is_harmful observation.workloads
    && not (str_eq observation.latest_proposal_commit "")
    && is_empty observation.dirty_lines
    && is_empty observation.errors

abbrev IsIdle : World → Program AutoRollbackReport → Type 0
IsIdle world program = ((run world [] program).1 ≡ []) × ((run world [] program).0.rollback ≡ none)

if-IsIdle :
    (world : World) (test : Bool) (left right : Program AutoRollbackReport)
    → (test ≡ true → IsIdle world left)
    → (test ≡ false → IsIdle world right)
    → IsIdle world (if test then left else right)
if-IsIdle world true left right p q = p refl
if-IsIdle world false left right p q = q refl

-- `AutoRollback` runs no git command unless a workload to which a proposal was applied is unsafe or
-- regressed, a proposal commit was found, the worktree was clean and the observation had no error.
pub auto_rollback-idle :
    (quote : String → String) (worktree branch : String) (observation : ObservationReport)
    (options : ProposalOptions) (world : World)
    → may_roll_back observation ≡ false
    → ((run world [] (auto_rollback quote worktree (some branch) (some observation) options)).1
        ≡ [])
      × ((run world []
            (auto_rollback quote worktree (some branch) (some observation) options)).0.rollback
          ≡ none)
unfolding auto_rollback guarded_rollback run
auto_rollback-idle quote worktree branch observation options world h =
    if-IsIdle world (is_empty reasons) _ _ (λ quiet. (refl, refl))
      (λ harm.
        if-IsIdle world (str_eq observation.latest_proposal_commit "") _ _ (λ lost. (refl, refl))
          (λ known.
            if-IsIdle world (not (is_empty observation.dirty_lines)) _ _ (λ dirty. (refl, refl))
              (λ clean.
                if-IsIdle world (not (is_empty observation.errors)) _ _ (λ broken. (refl, refl))
                  (λ sound. absurd (all_hold harm known clean sound)))))
  where
    reasons : List String
    reasons = auto_rollback_reasons observation.workloads

    all_hold :
        is_empty reasons ≡ false
        → str_eq observation.latest_proposal_commit "" ≡ false
        → not (is_empty observation.dirty_lines) ≡ false
        → not (is_empty observation.errors) ≡ false
        → ⊥
    all_hold harm known clean sound =
        ground (arith, h, sym (reasons-empty observation.workloads) ∙ harm, known, clean, sound)
