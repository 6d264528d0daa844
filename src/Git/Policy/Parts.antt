-- ===== src/Git/Policy/Parts.antt =====
-- The shared steps of the programs, each of which keeps to what is allowed.
use k8s_recommendation_engin.Prelude.{
  ◌||◌, ◌≡◌, refl, ap, eq_iff, arith, Bool, true, false, Option, none, some, [], ◌∷◌, String,
  str_eq, is_empty, any_by, trim_space, if◌then◌else◌, starts_with,
}
use k8s_recommendation_engin.Git.{
  Command, symbolic_ref, verify_branch, show_current, status_porcelain, push, GitAnswer, output,
  failure, Program, done, ask, rebuild, Proposal, History, Keeps,
}
use k8s_recommendation_engin.Git.Reads.{
  Read, known, unknown, branch_read, git_current_branch, git_branch_exists, git_default_branch,
  default_ref, default_master, default_main, default_current, ProposalOptions, git_ahead_behind,
  blocking_git_status_lines,
}
use k8s_recommendation_engin.Git.Fresh.{
  Step, go_on, stop, refresh_proposal_after_git_sync, push_proposal_commit, remote_name,
  push_answered,
}
use k8s_recommendation_engin.Git.Commit.{
  default_branch_of, error_answered, status_answered, switch_answered, unless_reason,
  branch_answered, after_step,
}
use k8s_recommendation_engin.Git.Policy.{
  Policy, policy_of, allowed, was_clean, head_own, checked_out, based_on, or_first, says_clean,
  says_made, is_vouched,
}

-- The worktree is known to be clean, and so is the branch.
abbrev pub Held : Option String → Option String → History → Type 0
Held out base history =
    (was_clean history ≡ true) × (checked_out history ≡ out) × (based_on history ≡ base)

abbrev pub At : String → History → Type 0
At branch history = Held (some branch) (some branch) history

abbrev pub Ends : {A : Type 0} → History → A → Type 0
Ends history result = Unit

abbrev pub StaysAt : {A : Type 0} → String → History → A → Type 0
StaysAt branch history result = At branch history

pub str_eq_refl : (text : String) → str_eq text text ≡ true
str_eq_refl text = (eq_iff text text).1 refl

pub any_later :
    (p : Command × GitAnswer → Bool) (entry : Command × GitAnswer) (history : History)
    → any_by p history ≡ true
    → any_by p (entry ∷ history) ≡ true
any_later p entry history h = ground (arith, h)

pub any_now :
    (p : Command × GitAnswer → Bool) (entry : Command × GitAnswer) (history : History)
    → p entry ≡ true
    → any_by p (entry ∷ history) ≡ true
any_now p entry history h = rw h refl

pub if-Keeps {ℓ} :
    {A : Type ℓ} (policy : Policy) (Ends : History → A → Type 0) (history : History) (test : Bool)
    (left right : Program A)
    → (test ≡ true → Keeps (allowed policy) Ends history left)
    → (test ≡ false → Keeps (allowed policy) Ends history right)
    → Keeps (allowed policy) Ends history (if test then left else right)
if-Keeps policy Ends history true left right p q = p refl
if-Keeps policy Ends history false left right p q = q refl

pub Keeps-weaken {ℓ} :
    {A : Type ℓ} (permits : History → Command → Bool) (Strong Weak : History → A → Type 0)
    (history : History) (program : Program A)
    → ((later : History) (a : A) → Strong later a → Weak later a)
    → Keeps permits Strong history program
    → Keeps permits Weak history program
unfolding Keeps
Keeps-weaken permits Strong Weak history (done a) weaken keeps = weaken history a keeps
Keeps-weaken permits Strong Weak history (ask command go) weaken keeps = (
  keeps.0,
  λ said.
      Keeps-weaken permits Strong Weak ((command, said) ∷ history) (go said) weaken (keeps.1 said),
)
Keeps-weaken permits Strong Weak history (rebuild go) weaken keeps =
    λ built. Keeps-weaken permits Strong Weak history (go built) weaken (keeps built)

-- A later answer of `git branch --show-current` leaves the branch that is known.
At-show_current :
    (here : String) (history : History)
    → At here history
    → (said : GitAnswer) → At here ((show_current, said) ∷ history)
At-show_current here history (clean, out, base) (output text) =
    (clean, ap (λ o. some_or o (trim_space text)) out, ap (λ o. some_or o (trim_space text)) base)
  where
    some_or : Option String → String → Option String
    some_or o t = or_first o t
At-show_current here history at_here (failure text message) = at_here

module _ (policy : Policy) (here : String) where
  default_current-Keeps :
      (history : History)
      → At here history
      → (said : GitAnswer) → Keeps (allowed policy) (StaysAt here) history (default_current said)
  unfolding Keeps
  default_current-Keeps history at_here (output text) = at_here
  default_current-Keeps history at_here (failure text message) = at_here

  default_main-Keeps :
      (history : History)
      → At here history
      → (said : GitAnswer) → Keeps (allowed policy) (StaysAt here) history (default_main said)
  unfolding Keeps allowed
  default_main-Keeps history at_here (output text) = at_here
  default_main-Keeps history at_here (failure text message) = (
    refl,
    λ said.
        default_current-Keeps ((show_current, said) ∷ history)
          (At-show_current here history at_here said) said,
  )

  default_master-Keeps :
      (history : History)
      → At here history
      → (said : GitAnswer) → Keeps (allowed policy) (StaysAt here) history (default_master said)
  unfolding Keeps allowed
  default_master-Keeps history at_here (output text) = at_here
  default_master-Keeps history at_here (failure text message) =
      (refl, λ said. default_main-Keeps ((verify_branch "main", said) ∷ history) at_here said)

  default_ref-Keeps :
      (history : History)
      → At here history
      → (said : GitAnswer) → Keeps (allowed policy) (StaysAt here) history (default_ref said)
  unfolding Keeps allowed
  default_ref-Keeps history at_here (failure text message) =
      (refl, λ said. default_master-Keeps ((verify_branch "master", said) ∷ history) at_here said)
  default_ref-Keeps history at_here (output text) =
      if-Keeps policy (StaysAt here) history (starts_with (trim_space text) "origin/") _ _
        (λ named. at_here)
        (λ other.
          if-Keeps policy (StaysAt here) history (str_eq (trim_space text) "") _ _
            (λ blank. (
              refl,
              λ said. default_master-Keeps ((verify_branch "master", said) ∷ history) at_here said,
            ))
            (λ given. at_here))

  module _ (history : History) (at_here : At here history) where
    pub git_branch_exists-Keeps :
        (branch : String) → Keeps (allowed policy) (StaysAt here) history (git_branch_exists branch)
    unfolding git_branch_exists Keeps allowed
    git_branch_exists-Keeps branch = (refl, λ said. at_here)

    pub git_ahead_behind-Keeps :
        (quote : String → String) (branch remote : String)
        → Keeps (allowed policy) (StaysAt here) history (git_ahead_behind quote branch remote)
    unfolding git_ahead_behind Keeps allowed
    git_ahead_behind-Keeps quote branch remote = (refl, λ said. at_here)

    pub default_branch_of-Keeps :
        (options : ProposalOptions)
        → Keeps (allowed policy) (StaysAt here) history (default_branch_of options)
    unfolding default_branch_of git_default_branch Keeps allowed
    default_branch_of-Keeps options =
        if-Keeps policy (StaysAt here) history (str_eq (trim_space options.default_branch) "") _ _
          (λ b. (refl, λ said. default_ref-Keeps ((symbolic_ref, said) ∷ history) at_here said))
          (λ b. at_here)

-- The refresh runs no command, so that it keeps what is known.
pub refresh-Keeps :
    (policy : Policy) (Known : History → Type 0) (history : History)
    → Known history
    → (proposal : Proposal)
    → Keeps
        (allowed policy)
        (λ later step. Known later)
        history
        (refresh_proposal_after_git_sync proposal)
unfolding refresh_proposal_after_git_sync Keeps
refresh-Keeps policy Known history known_here proposal built =
    if-Keeps policy (λ later step. Known later) history built.report.blocked _ _ (λ b. known_here)
      (λ b.
        if-Keeps policy (λ later step. Known later) history built.report.needed _ _
          (λ n. known_here) (λ n. known_here))

-- After the first question for the branch: where git names one, it is the one checked out.
abbrev pub Started : History → Read String → Type 0
Started history (known name) = At name history
Started history (unknown message) = Unit

pub git_current_branch-Keeps :
    (policy : Policy) (history : History)
    → Held none none history
    → Keeps (allowed policy) Started history git_current_branch
unfolding git_current_branch Keeps allowed
git_current_branch-Keeps policy history (clean, out, base) = (refl, answered)
  where
    answered : (said : GitAnswer) → Started ((show_current, said) ∷ history) (branch_read said)
    answered (output text) = (clean, rw out refl, rw base refl)
    answered (failure text message) = tt

-- A step that may stop.
pub after_step-Keeps :
    (policy : Policy) (history : History) (next : Proposal → Program Proposal) (step : Step)
    → ((proposal : Proposal) → Keeps (allowed policy) Ends history (next proposal))
    → Keeps (allowed policy) Ends history (after_step next step)
unfolding Keeps
after_step-Keeps policy history next (go_on proposal) keeps = keeps proposal
after_step-Keeps policy history next (stop proposal) keeps = tt

pub error_answered-Keeps :
    (policy : Policy) (history : History) (what : String) (proposal : Proposal)
    (next : String → Program Proposal) (command : Command) (said : GitAnswer)
    → ((text : String) → Keeps (allowed policy) Ends ((command, output text) ∷ history) (next text))
    → Keeps
        (allowed policy)
        Ends
        ((command, said) ∷ history)
        (error_answered what proposal next said)
unfolding Keeps
error_answered-Keeps policy history what proposal next command (output text) keeps = keeps text
error_answered-Keeps policy history what proposal next command (failure text message) keeps = tt

pub switch_answered-Keeps :
    (policy : Policy) (history : History) (what branch : String) (proposal : Proposal)
    (next : Program Proposal) (command : Command) (said : GitAnswer)
    → ((text : String) → Keeps (allowed policy) Ends ((command, output text) ∷ history) next)
    → Keeps
        (allowed policy)
        Ends
        ((command, said) ∷ history)
        (switch_answered what branch proposal next said)
unfolding Keeps
switch_answered-Keeps policy history what branch proposal next command (output text) keeps =
    keeps text
switch_answered-Keeps policy history what branch proposal next command (failure text message)
      keeps =
    tt

pub unless_reason-Keeps :
    (policy : Policy) (history : History) (reason : Option String) (proposal : Proposal)
    (next : Program Proposal)
    → Keeps (allowed policy) Ends history next
    → Keeps (allowed policy) Ends history (unless_reason reason proposal next)
unfolding Keeps
unless_reason-Keeps policy history none proposal next keeps = keeps
unless_reason-Keeps policy history (some reason) proposal next keeps = tt

pub branch_answered-Keeps :
    (policy : Policy) (history : History) (proposal : Proposal) (next : String → Program Proposal)
    (branch : Read String)
    → Started history branch
    → ((name : String) → At name history → Keeps (allowed policy) Ends history (next name))
    → Keeps (allowed policy) Ends history (branch_answered proposal next branch)
unfolding Keeps
branch_answered-Keeps policy history proposal next (known name) started keeps = keeps name started
branch_answered-Keeps policy history proposal next (unknown message) started keeps = tt

-- The guard at the start: what follows finds the worktree clean.
pub status_answered-Keeps :
    (policy : Policy) (refusing : String) (proposal : Proposal) (next : Program Proposal)
    (said : GitAnswer)
    → ((history : History) → Held none none history → Keeps (allowed policy) Ends history next)
    → Keeps
        (allowed policy)
        Ends
        ((status_porcelain, said) ∷ [])
        (status_answered refusing proposal next said)
unfolding Keeps
status_answered-Keeps policy refusing proposal next (failure text message) keeps = tt
status_answered-Keeps policy refusing proposal next (output text) keeps =
    if-Keeps policy Ends ((status_porcelain, output text) ∷ [])
      (is_empty (blocking_git_status_lines text)) _ _
      (λ clean.
        keeps ((status_porcelain, output text) ∷ [])
          (any_now says_clean (status_porcelain, output text) [] clean, refl, refl))
      (λ dirty. tt)

push_answered-Keeps :
    (policy : Policy) (history : History) (remote branch : String) (proposal : Proposal)
    (said : GitAnswer)
    → Keeps (allowed policy) Ends history (push_answered remote branch proposal said)
unfolding Keeps
push_answered-Keeps policy history remote branch proposal (output text) = tt
push_answered-Keeps policy history remote branch proposal (failure text message) = tt

pub push_proposal_commit-Keeps :
    (quote : String → String) (options : ProposalOptions) (proposal : Proposal) (history : History)
    → options.push ≡ true
    → was_clean history ≡ true
    → head_own history ≡ true
    → checked_out history ≡ some proposal.report.branch
    → (any_by says_made history
        || is_vouched (policy_of quote options) proposal.report.branch history)
      ≡ true
    → Keeps (allowed (policy_of quote options)) Ends history (push_proposal_commit options proposal)
unfolding push_proposal_commit Keeps allowed
push_proposal_commit-Keeps quote options proposal history pushes clean own out vouched = (
  rw
      (
        pushes,
        clean,
        own,
        out,
        str_eq_refl (remote_name options),
        str_eq_refl proposal.report.branch,
      )
      vouched,
  λ said.
      push_answered-Keeps (policy_of quote options)
        ((push (remote_name options) proposal.report.branch, said) ∷ history) (remote_name options)
        proposal.report.branch proposal said,
)
