-- ===== src/Git/Policy/Remote.antt =====
-- The commands of `ensureProposalRemoteFresh`, and what it finds.
use mathlib.Core.Path.{subst}
use k8s_recommendation_engin.Prelude.{
  ◌≡◌, refl, sym, arith, Bool, Option, true, false, not, ◌&&◌, ◌||◌, ◌∷◌, String, str_eq,
  trim_space,
}
use k8s_recommendation_engin.Git.{
  fetch, rev_list, pull_rebase, GitAnswer, output, failure, Program, ask, and_then, Proposal,
  History, World, run, IsKept, run-IsKept, Keeps,
}
use k8s_recommendation_engin.Git.Reads.{
  Read, known, unknown, counts_of, ProposalOptions, git_ahead_behind, AheadBehind, is_positive,
  remote_branch_missing,
}
use k8s_recommendation_engin.Git.Fresh.{
  Step, go_on, stop, ensure_proposal_remote_fresh, remote_name, fetched, fetched_step, pulled,
  rebased_step,
}
use k8s_recommendation_engin.Git.Policy.{
  Policy, policy_of, allowed, in_step, is_fresh, was_clean, checked_out, based_on,
}
use k8s_recommendation_engin.Git.Policy.Parts.{Held, str_eq_refl, if-Keeps, Keeps-weaken}

-- Where the check of the remote goes on, the last that git has said about this remote and branch is
-- that they are in step, or that the remote has no such branch; where it stops, the proposal is
-- blocked.
abbrev pub Checked : (String → String) → Bool → String → String → History → Step → Type 0
Checked quote allow_ahead remote branch history (go_on proposal) =
    is_fresh quote allow_ahead remote branch history ≡ true
Checked quote allow_ahead remote branch history (stop proposal) = proposal.report.blocked ≡ true

abbrev pub live : (String → String) → String → Policy
live quote remote = record { quote = quote; pushes = true; remote = remote }

module _ (quote : String → String) (allow_ahead : Bool) (branch remote : String)
    (proposal : Proposal) (out base : Option String) where
  abbrev pub HeldAndChecked : History → Step → Type 0
  HeldAndChecked history step =
      Held out base history × Checked quote allow_ahead remote branch history step

  -- If the counts say that the branch is in step, then they are the last that git has said.
  abbrev Told : History → Read AheadBehind → Type 0
  Told history counts =
      in_step allow_ahead counts ≡ true → is_fresh quote allow_ahead remote branch history ≡ true

  rebased_step-Keeps :
      (history : History) (counts : Read AheadBehind)
      → Held out base history
      → Told history counts
      → Keeps
          (allowed (live quote remote))
          HeldAndChecked
          history
          (rebased_step quote allow_ahead branch remote proposal counts)
  unfolding Keeps
  rebased_step-Keeps history (unknown message) held h = (held, refl)
  rebased_step-Keeps history (known n) held h =
      if-Keeps (live quote remote) HeldAndChecked history
        (is_positive n.behind || is_positive n.ahead && not allow_ahead) _ _ (λ late. (held, refl))
        (λ fine. (held, h (level (is_positive n.behind) (is_positive n.ahead) allow_ahead fine)))
    where
      level : (a b c : Bool) → (a || b && not c) ≡ false → (not a && (c || not b)) ≡ true
      level true b c e = absurd (ground arith)
      level false b true e = refl
      level false true false e = absurd (ground arith)
      level false false false e = refl

  counted-Keeps :
      (history : History) (next : Read AheadBehind → Program Step)
      → Held out base history
      → ((later : History) (counts : Read AheadBehind)
          → Held out base later
          → Told later counts
          → Keeps (allowed (live quote remote)) HeldAndChecked later (next counts))
      → Keeps
          (allowed (live quote remote))
          HeldAndChecked
          history
          (and_then (git_ahead_behind quote branch remote) next)
  unfolding Keeps and_then git_ahead_behind allowed
  counted-Keeps history next held follows = (
    refl,
    λ said.
        follows ((rev_list branch remote, said) ∷ history) (counts_of quote said) held
          (λ level. rw (str_eq_refl branch, str_eq_refl remote, level) refl),
  )

  pulled-Keeps :
      (history : History) (counts : AheadBehind) (said : GitAnswer)
      → Held out base history
      → Keeps
          (allowed (live quote remote))
          HeldAndChecked
          history
          (pulled quote allow_ahead branch remote proposal counts said)
  unfolding Keeps
  pulled-Keeps history counts (failure text message) held = (held, refl)
  pulled-Keeps history counts (output text) held =
      counted-Keeps history (rebased_step quote allow_ahead branch remote proposal) held
        rebased_step-Keeps

  fetched_step-Keeps :
      (history : History) (counts : Read AheadBehind)
      → Held out base history
      → Told history counts
      → Keeps
          (allowed (live quote remote))
          HeldAndChecked
          history
          (fetched_step quote allow_ahead branch remote proposal counts)
  unfolding Keeps allowed
  fetched_step-Keeps history (unknown message) held h = (held, refl)
  fetched_step-Keeps history (known n) held h =
      let policy = live quote remote in
      if-Keeps policy HeldAndChecked history (is_positive n.ahead && is_positive n.behind) _ _
        (λ diverged. (held, refl))
        (λ straight.
          if-Keeps policy HeldAndChecked history (is_positive n.behind) _ _
            (λ behind. (
              held.0,
              λ said. pulled-Keeps ((pull_rebase remote branch, said) ∷ history) n said held,
            ))
            (λ level.
              if-Keeps policy HeldAndChecked history (is_positive n.ahead && not allow_ahead) _ _
                (λ ahead. (held, refl))
                (λ fine. (
                  held,
                  h (both (is_positive n.behind) (is_positive n.ahead) allow_ahead level fine),
                ))))
    where
      both : (a b c : Bool) → a ≡ false → (b && not c) ≡ false → (not a && (c || not b)) ≡ true
      both true b c e f = absurd (ground arith)
      both false b true e f = refl
      both false true false e f = absurd (ground arith)
      both false false false e f = refl

  pub fetched-Keeps :
      (history : History) (said : GitAnswer)
      → Held out base history
      → Keeps
          (allowed (live quote remote))
          HeldAndChecked
          ((fetch remote branch, said) ∷ history)
          (fetched quote allow_ahead branch remote proposal said)
  unfolding Keeps
  fetched-Keeps history (output text) held =
      counted-Keeps ((fetch remote branch, output text) ∷ history)
        (fetched_step quote allow_ahead branch remote proposal) held fetched_step-Keeps
  fetched-Keeps history (failure text message) held =
      if-Keeps (live quote remote) HeldAndChecked
        ((fetch remote branch, failure text message) ∷ history) (remote_branch_missing message) _ _
        (λ missing. (held, rw (str_eq_refl branch, str_eq_refl remote, missing) refl))
        (λ broken. (held, refl))

  pub ask_fetch-Keeps :
      (history : History)
      → Held out base history
      → Keeps
          (allowed (live quote remote))
          HeldAndChecked
          history
          (ask (fetch remote branch) (fetched quote allow_ahead branch remote proposal))
  unfolding Keeps allowed
  ask_fetch-Keeps history held = (refl, λ said. fetched-Keeps history said held)

pub ensure_proposal_remote_fresh-Checked :
    (quote : String → String) (options : ProposalOptions) (branch : String) (allow_ahead : Bool)
    (proposal : Proposal) (out base : Option String) (history : History)
    → options.push ≡ true
    → str_eq (trim_space branch) "" ≡ false
    → Held out base history
    → Keeps
        (allowed (live quote (remote_name options)))
        (HeldAndChecked quote allow_ahead
          (trim_space branch)
          (remote_name options)
          proposal
          out
          base)
        history
        (ensure_proposal_remote_fresh quote options branch allow_ahead proposal)
unfolding ensure_proposal_remote_fresh Keeps allowed
ensure_proposal_remote_fresh-Checked quote options branch allow_ahead proposal out base history
      pushes named held =
    rw (pushes, named)
      (
        refl,
        λ said.
            fetched-Keeps quote allow_ahead (trim_space branch) (remote_name options) proposal out
              base history said held,
      )

not-false : (b : Bool) → not b ≡ false → b ≡ true
not-false true h = refl
not-false false h = absurd (ground arith)

-- Where the program goes on, the branch may be built upon.
abbrev pub AheadReady : Bool → Policy → String → History → Type 0
AheadReady allow_ahead policy branch history =
    (not policy.pushes
      || str_eq (trim_space branch) ""
      || is_fresh policy.quote allow_ahead policy.remote (trim_space branch) history)
    ≡ true

abbrev pub HeldAndReady :
    Policy → (allow_ahead : Bool) → String → Option String → Option String → History → Step → Type 0
HeldAndReady policy allow_ahead branch out base history (go_on proposal) =
    Held out base history × AheadReady allow_ahead policy branch history
HeldAndReady policy allow_ahead branch out base history (stop proposal) = Unit

pub ensure_proposal_remote_fresh-Keeps :
    (quote : String → String) (options : ProposalOptions) (branch : String) (allow_ahead : Bool)
    (proposal : Proposal) (out base : Option String) (history : History)
    → Held out base history
    → Keeps
        (allowed (policy_of quote options))
        (HeldAndReady (policy_of quote options) allow_ahead branch out base)
        history
        (ensure_proposal_remote_fresh quote options branch allow_ahead proposal)
unfolding ensure_proposal_remote_fresh Keeps
ensure_proposal_remote_fresh-Keeps quote options branch allow_ahead proposal out base history held =
    let policy = policy_of quote options in
    let Ready = HeldAndReady policy allow_ahead branch out base in
    if-Keeps policy Ready history (not options.push) _ _ (λ quiet. (held, rw quiet refl))
      (λ pushes.
        if-Keeps policy Ready history (str_eq (trim_space branch) "") _ _
          (λ blank. (held, rw (not-false options.push pushes, blank) refl))
          (λ named. fetches (not-false options.push pushes) named))
  where
    ready :
        (push : Bool)
        → push ≡ true
        → str_eq (trim_space branch) "" ≡ false
        → (later : History) (step : Step)
        → HeldAndChecked quote allow_ahead
            (trim_space branch)
            (remote_name options)
            proposal
            out
            base
            later
            step
        → HeldAndReady
            (record { quote = quote; pushes = push; remote = remote_name options })
            allow_ahead
            branch
            out
            base
            later
            step
    ready push on named later (stop stopped) h = tt
    ready push on named later (go_on fresh) (h, checked) = (h, rw (on, named) checked)

    fetches :
        options.push ≡ true
        → str_eq (trim_space branch) "" ≡ false
        → Keeps
            (allowed (policy_of quote options))
            (HeldAndReady (policy_of quote options) allow_ahead branch out base)
            history
            (ask
              (fetch (remote_name options) (trim_space branch))
              (fetched quote allow_ahead (trim_space branch) (remote_name options) proposal))
    fetches pushes named =
        subst
          (λ push.
            Keeps (allowed (record { quote = quote; pushes = push; remote = remote_name options }))
              (HeldAndReady (record { quote = quote; pushes = push; remote = remote_name options })
                allow_ahead branch out base)
              history
              (ask (fetch (remote_name options) (trim_space branch))
                (fetched quote allow_ahead (trim_space branch) (remote_name options) proposal)))
          (sym pushes)
          (Keeps-weaken (allowed (live quote (remote_name options)))
            (HeldAndChecked quote allow_ahead (trim_space branch) (remote_name options) proposal out
              base)
            (HeldAndReady (live quote (remote_name options)) allow_ahead branch out base) history
            (ask (fetch (remote_name options) (trim_space branch))
              (fetched quote allow_ahead (trim_space branch) (remote_name options) proposal))
            (ready true refl named)
            (ask_fetch-Keeps quote allow_ahead (trim_space branch) (remote_name options) proposal
              out base history held))

-- With the push option on, a branch with a name and a clean worktree, `ensureProposalRemoteFresh`
-- lets the program go on only when the last that git has said about the branch and the remote of the
-- options is that the branch is not behind the remote's, and not ahead of it unless that is allowed,
-- or that the remote has no such branch; else it blocks the proposal.
pub ensure_proposal_remote_fresh-run :
    (quote : String → String) (options : ProposalOptions) (branch : String) (allow_ahead : Bool)
    (proposal : Proposal) (world : World) (history : History)
    → options.push ≡ true
    → str_eq (trim_space branch) "" ≡ false
    → was_clean history ≡ true
    → IsKept (allowed (live quote (remote_name options))) history
    → Checked quote allow_ahead
        (remote_name options)
        (trim_space branch)
        (run world history
          (ensure_proposal_remote_fresh quote options branch allow_ahead proposal)).1
        (run world history
          (ensure_proposal_remote_fresh quote options branch allow_ahead proposal)).0
ensure_proposal_remote_fresh-run quote options branch allow_ahead proposal world history pushes
      named clean kept =
    ((run-IsKept (allowed (live quote (remote_name options)))
      (HeldAndChecked quote allow_ahead (trim_space branch) (remote_name options) proposal
        (checked_out history) (based_on history))
      world history (ensure_proposal_remote_fresh quote options branch allow_ahead proposal)
      (ensure_proposal_remote_fresh-Checked quote options branch allow_ahead proposal
        (checked_out history) (based_on history) history pushes named (clean, refl, refl))
      kept).1
    ).1
