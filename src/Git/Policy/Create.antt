-- ===== src/Git/Policy/Create.antt =====
-- The commands of `CreateProposal`.
use k8s_recommendation_engin.Prelude.{refl, not, [], ◌∷◌, String, str_eq, trim_space}
use k8s_recommendation_engin.Git.{
  make_patch_dir, write_patch, output, Proposal, World, run, IsKept, Keeps, run-IsKept,
}
use k8s_recommendation_engin.Git.Reads.{Read, known, unknown, ProposalOptions}
use k8s_recommendation_engin.Git.Create.{
  proposal_patch_content, write_patch_at, write_proposal_patch, create_built, create_proposal,
  kind_or_patch, as_proposed,
}
use k8s_recommendation_engin.Git.Policy.{Policy, policy_of, allowed}
use k8s_recommendation_engin.Git.Policy.Parts.{Ends, if-Keeps, error_answered-Keeps}
use k8s_recommendation_engin.Git.Policy.Proposals.{write_proposal_commit-Keeps}
use k8s_recommendation_engin.Git.Policy.Publishing.{publish_existing_proposal_commit-Keeps}

write_patch_at-Keeps :
    (policy : Policy) (path : Read String) (patch : String) (proposal : Proposal)
    → Keeps (allowed policy) Ends [] (write_patch_at path patch proposal)
unfolding Keeps allowed
write_patch_at-Keeps policy (unknown message) patch proposal = tt
write_patch_at-Keeps policy (known path) patch proposal = (
  refl,
  λ said. error_answered-Keeps policy [] _ proposal _ make_patch_dir said (λ made. (
    refl,
    λ wrote.
        error_answered-Keeps policy ((make_patch_dir, output made) ∷ []) _ proposal _
          (write_patch path patch) wrote (λ written. tt),
  )),
)

write_proposal_patch-Keeps :
    (policy : Policy) (path : Read String) (proposal : Proposal)
    → Keeps (allowed policy) Ends [] (write_proposal_patch path proposal)
unfolding write_proposal_patch Keeps
write_proposal_patch-Keeps policy path proposal =
    let patch = proposal_patch_content proposal.files in
    if-Keeps policy Ends [] (str_eq (trim_space patch) "") _ _ (λ blank. tt)
      (λ full. write_patch_at-Keeps policy path patch proposal)

create_built-Keeps :
    (quote : String → String) (options : ProposalOptions) (message : Proposal → String)
    (path : Read String) (kind : String) (proposal : Proposal)
    → Keeps
        (allowed (policy_of quote options))
        Ends
        []
        (create_built quote options message path kind proposal)
unfolding create_built Keeps
create_built-Keeps quote options message path kind proposal =
    if-Keeps (policy_of quote options) Ends [] proposal.report.blocked _ _ (λ blocked. tt)
      (λ free.
        if-Keeps (policy_of quote options) Ends [] (not proposal.report.needed) _ _
          (λ idle.
            if-Keeps (policy_of quote options) Ends [] (str_eq kind "commit") _ _
              (λ commits.
                if-Keeps (policy_of quote options) Ends [] options.push _ _
                  (λ pushes. publish_existing_proposal_commit-Keeps quote options proposal pushes)
                  (λ quiet. tt))
              (λ other. tt))
          (λ needed.
            if-Keeps (policy_of quote options) Ends [] (str_eq kind "patch") _ _
              (λ patches. write_proposal_patch-Keeps (policy_of quote options) path proposal)
              (λ other.
                if-Keeps (policy_of quote options) Ends [] (str_eq kind "commit") _ _
                  (λ commits. write_proposal_commit-Keeps quote options message proposal)
                  (λ unsupported. tt))))

-- Whatever git answers, whatever the worktree holds and whatever the options are, each command that
-- `CreateProposal` runs is allowed after those before it: no manifest, branch or remote changes
-- before a clean status, nothing is fetched or pushed without the push option, with it a commit is
-- made only on a branch that git has said last to be in step with the remote's (or to have none there,
-- or that has no name), and a push is of the branch that is checked out, to the remote of the options,
-- where HEAD was just committed or, on a branch that was found not to be behind the remote's (or to
-- have none there, or that has no name), has the subject of a proposal. Commits below HEAD are not
-- looked at.
pub create_proposal-IsKept :
    (quote : String → String) (options : ProposalOptions) (message : Proposal → String)
    (path : Read String) (world : World)
    → IsKept
        (allowed (policy_of quote options))
        (run world [] (create_proposal quote options message path)).1
unfolding create_proposal IsKept Keeps
create_proposal-IsKept quote options message path world =
    (run-IsKept (allowed (policy_of quote options)) Ends world []
      (create_proposal quote options message path)
      (λ built.
        create_built-Keeps quote options message path (kind_or_patch options)
          (as_proposed (kind_or_patch options) built))
      tt).0
