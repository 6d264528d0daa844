-- ===== src/Git/Policy/Publishing.antt =====
-- The commands of `publishExistingProposalCommit`.
use mathlib.Core.Path.{subst}
use k8s_recommendation_engin.Prelude.{
  false, not, ◌||◌, arith, some, eq_iff, ◌≡◌, refl, Bool, true, [], ◌∷◌, String, str_eq, trim_space,
}
use k8s_recommendation_engin.Git.{
  Command, GitAnswer, rev_list, switch_branch, head_commit, log_subject, output, Proposal, History,
  Keeps, and_then-Keeps,
}
use k8s_recommendation_engin.Git.Reads.{
  git_ahead_behind, ProposalOptions, AheadBehind, Read, proposal_branch_block_reason,
  proposal_push_block_reason,
}
use k8s_recommendation_engin.Git.Commit.{
  after_step, own_subject, publish_subject, publish_counts, is_synchronized, publish_synchronized,
  publish_on, publish_guarded, published_branch, publish_existing_proposal_commit,
}
use k8s_recommendation_engin.Git.Policy.{
  Policy, policy_of, allowed, was_clean, checked_out, is_fresh, was_fresh, is_vouched,
}
use k8s_recommendation_engin.Git.Fresh.{Step, go_on, stop}
use k8s_recommendation_engin.Git.Policy.Parts.{
  At, Ends, if-Keeps, error_answered-Keeps, switch_answered-Keeps, unless_reason-Keeps,
  push_proposal_commit-Keeps,
}
use k8s_recommendation_engin.Git.Policy.Remote.{
  AheadReady, HeldAndReady, ensure_proposal_remote_fresh-Keeps,
}
use k8s_recommendation_engin.Git.Policy.Proposals.{begun-Keeps}

module _ (options : ProposalOptions) (quote : String → String) where
  abbrev policy : Policy
  policy = policy_of quote options

  abbrev Vouched : String → History → Type 0
  Vouched branch history = is_vouched policy branch history ≡ true

  Vouched-later :
      (branch : String) (entry : Command × GitAnswer) (history : History)
      → Vouched branch history
      → Vouched branch (entry ∷ history)
  Vouched-later branch entry history vouched = raise (str_eq (trim_space branch) "") _ _ vouched
    where
      raise : (a b c : Bool) → (a || c) ≡ true → (a || (b || c)) ≡ true
      raise true b c h = refl
      raise false true c h = refl
      raise false false c h = h

  AheadReady-Vouched :
      (branch : String) (history : History)
      → options.push ≡ true
      → AheadReady true policy branch history
      → Vouched branch history
  AheadReady-Vouched branch history pushes ready =
      found options.push (str_eq (trim_space branch) "") history pushes ready
    where
      found :
          (push blank : Bool) (history : History)
          → push ≡ true
          → (not push || blank || is_fresh quote true policy.remote (trim_space branch) history)
            ≡ true
          → (blank || was_fresh policy (trim_space branch) history) ≡ true
      found false blank history on h = absurd (ground arith)
      found true true history on h = refl
      found true false [] on h = h
      found true false (entry ∷ history) on h = rw h refl

  abbrev Known : {A : Type 0} → String → History → A → Type 0
  Known branch later answer = At branch later × Vouched branch later

  counted-Keeps :
      (branch remote : String) (history : History)
      → At branch history
      → Vouched branch history
      → Keeps (allowed policy) (Known branch) history (git_ahead_behind quote branch remote)
  unfolding git_ahead_behind Keeps allowed
  counted-Keeps branch remote history at_here vouched =
      (refl, λ said. (at_here, Vouched-later branch (rev_list branch remote, said) history vouched))

  publish_subject-Keeps :
      (branch : String) (proposal : Proposal) (subject : String) (history : History)
      → options.push ≡ true
      → was_clean history ≡ true
      → checked_out history ≡ some branch
      → Vouched branch history
      → Keeps
          (allowed policy)
          Ends
          ((log_subject, output subject) ∷ history)
          (publish_subject options branch proposal subject)
  unfolding Keeps allowed
  publish_subject-Keeps branch proposal subject history pushes clean out vouched =
      let logged : History = (log_subject, output subject) ∷ history in
      if-Keeps policy Ends logged (own_subject subject) _ _
        (λ own. (
          refl,
          λ head. error_answered-Keeps policy logged _ proposal _ head_commit head (λ text.
              push_proposal_commit-Keeps quote options _ ((head_commit, output text) ∷ logged)
                pushes clean own out
                (ground (
                  arith,
                  Vouched-later branch (head_commit, output text) logged
                      (Vouched-later branch (log_subject, output subject) history vouched),
                ))),
        ))
        (λ foreign. tt)

  publish_counts-Keeps :
      (branch : String) (proposal : Proposal) (counts : Read AheadBehind) (history : History)
      → options.push ≡ true
      → was_clean history ≡ true
      → checked_out history ≡ some branch
      → Vouched branch history
      → Keeps (allowed policy) Ends history (publish_counts options branch proposal counts)
  unfolding Keeps allowed
  publish_counts-Keeps branch proposal counts history pushes clean out vouched =
      if-Keeps policy Ends history (is_synchronized counts) _ _ (λ level. tt)
        (λ ahead. (
          refl,
          λ said. error_answered-Keeps policy history _ proposal _ log_subject said (λ subject.
              publish_subject-Keeps branch proposal subject history pushes clean out vouched),
        ))

  publish_synchronized-Keeps :
      (branch : String) (proposal : Proposal) (history : History)
      → options.push ≡ true
      → At branch history
      → Vouched branch history
      → Keeps (allowed policy) Ends history (publish_synchronized quote options branch proposal)
  unfolding publish_synchronized
  publish_synchronized-Keeps branch proposal history pushes at_here vouched =
      if-Keeps policy Ends history (str_eq (trim_space options.remote) "") _ _
        (λ unnamed.
          and_then-Keeps (allowed policy) (Known branch) Ends history _ _
            (counted-Keeps branch "" history at_here vouched)
            (λ later first ok.
              and_then-Keeps (allowed policy) (Known branch) Ends later _ _
                (counted-Keeps branch "origin" later ok.0 ok.1)
                (λ last counts fine.
                  publish_counts-Keeps branch proposal counts last pushes fine.0.0 fine.0.1
                    fine.1)))
        (λ named.
          and_then-Keeps (allowed policy) (Known branch) Ends history _ _
            (counted-Keeps branch _ history at_here vouched)
            (λ last counts fine.
              publish_counts-Keeps branch proposal counts last pushes fine.0.0 fine.0.1 fine.1))

  publish_on-Keeps :
      (branch current_branch : String) (branch_exists : Bool) (proposal : Proposal)
      (history : History)
      → options.push ≡ true
      → At current_branch history
      → Vouched branch history
      → Keeps
          (allowed policy)
          Ends
          history
          (publish_on quote options branch current_branch branch_exists proposal)
  unfolding publish_on Keeps allowed
  publish_on-Keeps branch current_branch branch_exists proposal history pushes at_here vouched =
      if-Keeps policy Ends history (str_eq current_branch branch) _ _
        (λ same.
          publish_synchronized-Keeps branch proposal history pushes
            (subst (λ b. At b history) ((eq_iff current_branch branch).0 same) at_here) vouched)
        (λ other.
          if-Keeps policy Ends history branch_exists _ _
            (λ there. (
              at_here.0,
              λ said.
                  switch_answered-Keeps policy history _ branch proposal _ (switch_branch branch)
                    said
                    (λ text.
                      publish_synchronized-Keeps branch proposal
                        ((switch_branch branch, output text) ∷ history) pushes
                        (at_here.0, refl, refl)
                        (Vouched-later branch (switch_branch branch, output text) history vouched)),
            ))
            (λ absent. tt))

  -- After the check of the remote.
  published-Keeps :
      (branch current_branch : String) (branch_exists : Bool) (history : History) (step : Step)
      → options.push ≡ true
      → HeldAndReady policy true branch (some current_branch) (some current_branch) history step
      → Keeps
          (allowed policy)
          Ends
          history
          (after_step (publish_on quote options branch current_branch branch_exists) step)
  unfolding Keeps
  published-Keeps branch current_branch branch_exists history (stop proposal) pushes h = tt
  published-Keeps branch current_branch branch_exists history (go_on fresh) pushes (held, ready) =
      publish_on-Keeps branch current_branch branch_exists fresh history pushes held
        (AheadReady-Vouched branch history pushes ready)

  publish_guarded-Keeps :
      (branch current_branch : String) (branch_exists : Bool) (proposal : Proposal)
      (default_branch : String) (history : History)
      → options.push ≡ true
      → At current_branch history
      → Keeps (allowed policy) Ends history (
          publish_guarded quote options branch current_branch branch_exists proposal default_branch)
  unfolding publish_guarded
  publish_guarded-Keeps branch current_branch branch_exists proposal default_branch history pushes
        at_here =
      let here = some current_branch in
      unless_reason-Keeps policy history
        (proposal_branch_block_reason quote branch current_branch branch_exists default_branch)
        proposal _
        (unless_reason-Keeps policy history
          (proposal_push_block_reason quote branch default_branch options) proposal _
          (and_then-Keeps (allowed policy) (HeldAndReady policy true branch here here) Ends history
            _ _
            (ensure_proposal_remote_fresh-Keeps quote options branch true proposal here here history
              at_here)
            (λ later step known.
              published-Keeps branch current_branch branch_exists later step pushes known)))

pub publish_existing_proposal_commit-Keeps :
    (quote : String → String) (options : ProposalOptions) (proposal : Proposal)
    → options.push ≡ true
    → Keeps
        (allowed (policy_of quote options))
        Ends
        []
        (publish_existing_proposal_commit quote options proposal)
unfolding publish_existing_proposal_commit
publish_existing_proposal_commit-Keeps quote options proposal pushes =
    begun-Keeps options quote _ proposal (λ current_branch. published_branch options current_branch)
      (λ current_branch branch_exists.
        publish_guarded quote options (published_branch options current_branch) current_branch
          branch_exists proposal)
      (λ current_branch branch_exists default_branch history at_here.
        publish_guarded-Keeps options quote (published_branch options current_branch) current_branch
          branch_exists proposal default_branch history pushes at_here)
