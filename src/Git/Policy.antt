-- ===== src/Git/Policy.antt =====
-- The order in which the program runs git commands.
pub mod Parts
pub mod Remote
pub mod Publishing
pub mod Create
pub mod Proposals
pub mod Rollbacks
use k8s_recommendation_engin.Prelude.{
  Bool, true, false, not, ◌&&◌, ◌||◌, Option, none, some, List, [], ◌∷◌, String, str_eq, is_empty,
  any_by, trim_space, starts_with,
}
use k8s_recommendation_engin.Git.{
  Command, status_porcelain, show_current, symbolic_ref, verify_branch, switch_branch,
  create_branch, fetch, rev_list, pull_rebase, log_subject, resolve_path, write_file,
  make_patch_dir, write_patch, add, commit, head_commit, push, revert_head, GitAnswer, output,
  failure, History,
}
use k8s_recommendation_engin.Git.Reads.{
  Read, known, unknown, blocking_git_status_lines, counts_of, AheadBehind, is_positive,
  remote_branch_missing, ProposalOptions,
}
use k8s_recommendation_engin.Git.Fresh.{remote_name}

-- `git status` answered that nothing blocks.
abbrev pub says_clean : Command × GitAnswer → Bool
says_clean (status_porcelain, output text) = is_empty (blocking_git_status_lines text)
says_clean _ = false

-- HEAD is the program's own commit: since the last switch or rebase it has committed or reverted, or
-- `git log` has shown the program's subject. Commits below HEAD are not looked at.
abbrev pub head_own : History → Bool
head_own [] = false
head_own ((commit message, output text) ∷ history) = true
head_own ((revert_head, output text) ∷ history) = true
head_own ((log_subject, output text) ∷ history) =
    starts_with (trim_space text) "k8s-recommendation-engine:"
head_own ((switch_branch branch, said) ∷ history) = false
head_own ((create_branch branch, said) ∷ history) = false
head_own ((pull_rebase remote branch, said) ∷ history) = false
head_own (entry ∷ history) = head_own history

abbrev pub or_first : Option String → String → Option String
or_first none text = some text
or_first (some first) text = some first

-- The branch that is checked out: the one last created or switched to, or else the one that git named
-- first.
abbrev pub checked_out : History → Option String
checked_out [] = none
checked_out ((switch_branch branch, output text) ∷ history) = some branch
checked_out ((create_branch branch, output text) ∷ history) = some branch
checked_out ((show_current, output text) ∷ history) =
    or_first (checked_out history) (trim_space text)
checked_out (entry ∷ history) = checked_out history

-- The branch that was checked out before one was created.
abbrev pub based_on : History → Option String
based_on [] = none
based_on ((switch_branch branch, output text) ∷ history) = some branch
based_on ((show_current, output text) ∷ history) = or_first (based_on history) (trim_space text)
based_on (entry ∷ history) = based_on history

-- Not behind, and ahead only where that is allowed.
abbrev pub in_step : Bool → Read AheadBehind → Bool
in_step allow_ahead (unknown message) = false
in_step allow_ahead (known n) =
    not (is_positive n.behind) && (allow_ahead || not (is_positive n.ahead))

-- The last that git has said about the remote is that this branch is in step with the one of that
-- remote, or that the remote has no such branch.
abbrev pub is_fresh :
    (String → String) → (allow_ahead : Bool) → (remote branch : String) → History → Bool
is_fresh quote allow_ahead remote branch [] = false
is_fresh quote allow_ahead remote branch ((rev_list asked at, said) ∷ history) =
    str_eq asked branch && str_eq at remote && in_step allow_ahead (counts_of quote said)
is_fresh quote allow_ahead remote branch ((fetch at asked, failure text message) ∷ history) =
    str_eq asked branch && str_eq at remote && remote_branch_missing message
is_fresh quote allow_ahead remote branch ((fetch at asked, output text) ∷ history) = false
is_fresh quote allow_ahead remote branch ((pull_rebase at asked, said) ∷ history) = false
is_fresh quote allow_ahead remote branch (entry ∷ history) =
    is_fresh quote allow_ahead remote branch history

abbrev pub was_clean : History → Bool
was_clean history = any_by says_clean history

-- What the options decide: whether pushes are on, and the remote.
pub record Policy : Type 0 where
  pub quote : String → String
  pub pushes : Bool
  pub remote : String

abbrev pub policy_of : (String → String) → ProposalOptions → Policy
policy_of quote options = record {
  quote = quote;
  pushes = options.push;
  remote = remote_name options;
}

-- Pushes are off, the branch has no name, or it is in step with the remote's.
abbrev pub is_ready : Policy → String → History → Bool
is_ready policy branch history =
    not policy.pushes
    || str_eq (trim_space branch) ""
    || is_fresh policy.quote false policy.remote (trim_space branch) history

abbrev pub is_ready_on : Policy → Option String → History → Bool
is_ready_on policy none history = false
is_ready_on policy (some branch) history = is_ready policy branch history

abbrev pub is_branch : Option String → String → Bool
is_branch none branch = false
is_branch (some known_branch) branch = str_eq known_branch branch

-- The path has just been resolved.
abbrev pub just_resolved : String → History → Bool
just_resolved path ((resolve_path source, output text) ∷ history) = str_eq text path
just_resolved path history = false

-- The file has just been written, at the path that it resolves to.
abbrev pub just_written : String → History → Bool
just_written file
      ((write_file path content, output text)
        ∷ ((resolve_path source, output resolved) ∷ history)) =
    str_eq source file && str_eq resolved path
just_written file history = false

-- The program has made a commit or a revert.
abbrev pub says_made : Command × GitAnswer → Bool
says_made (commit message, output text) = true
says_made (revert_head, output text) = true
says_made _ = false

-- At some time git has said that the branch is not behind the one of the remote, or that there is none.
abbrev pub was_fresh : Policy → String → History → Bool
was_fresh policy branch [] = false
was_fresh policy branch (entry ∷ history) =
    is_fresh policy.quote true policy.remote branch (entry ∷ history)
    || was_fresh policy branch history

-- The branch has no name, or it was found not to be behind.
abbrev pub is_vouched : Policy → String → History → Bool
is_vouched policy branch history =
    str_eq (trim_space branch) "" || was_fresh policy (trim_space branch) history

-- What may follow what went before:
--   nothing that changes the worktree, a branch or the remote before `git status` has said that
--   nothing blocks, and nothing that reaches the remote unless pushes are on;
--   a write only to the path that was just resolved, and staging only of the file just written;
--   with pushes on, a commit only when git has said last that the branch it is made from is in step
--   with the remote's, or has none there, or when that branch has no name;
--   a push only of the branch that is checked out, to the remote of the options, and a push or a
--   revert only when HEAD is the program's own commit; and a push of a commit that it did not make in
--   this run only of a branch that was found not to be behind the remote's, or to have none there.
unfoldable pub allowed : Policy → History → Command → Bool
allowed policy history status_porcelain = true
allowed policy history show_current = true
allowed policy history symbolic_ref = true
allowed policy history (verify_branch branch) = true
allowed policy history (rev_list branch remote) = true
allowed policy history log_subject = true
allowed policy history (resolve_path path) = true
allowed policy history make_patch_dir = true
allowed policy history (write_patch path content) = true
allowed policy history head_commit = true
allowed policy history (fetch remote branch) = policy.pushes
allowed policy history (switch_branch branch) = was_clean history
allowed policy history (create_branch branch) = was_clean history
allowed policy history (pull_rebase remote branch) = policy.pushes && was_clean history
allowed policy history (write_file path content) = was_clean history && just_resolved path history
allowed policy history (add path) = was_clean history && just_written path history
allowed policy history (commit message) =
    was_clean history && is_ready_on policy (based_on history) history
allowed policy history (push remote branch) =
    policy.pushes
    && was_clean history
    && head_own history
    && str_eq remote policy.remote
    && is_branch (checked_out history) branch
    && (any_by says_made history || is_vouched policy branch history)
allowed policy history revert_head = was_clean history && head_own history
