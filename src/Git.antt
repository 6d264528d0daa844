-- ===== src/Git.antt =====
-- internal/analyzer/proposal.go: the git commands that the program runs, as programs that ask for
-- the answer of each command before they go on.
pub mod Reads
pub mod Fresh
pub mod Commit
pub mod Create
pub mod Rollback
pub mod Policy
use k8s_recommendation_engin.Prelude.{
  ◌≡◌, ℕ, Bool, true, false, Option, none, some, List, [], ◌∷◌, String,
}
use k8s_recommendation_engin.Report.{ProposalReport}

-- The arguments of `gitOutput`, and the calls of the os package that come with them.
pub data Command : Type 0 where
  status_porcelain : Command
  show_current : Command
  symbolic_ref : Command
  verify_branch : String → Command
  switch_branch : String → Command
  create_branch : String → Command
  fetch : (remote branch : String) → Command
  rev_list : (branch remote : String) → Command
  pull_rebase : (remote branch : String) → Command
  log_subject : Command
  resolve_path : String → Command
  write_file : (path content : String) → Command
  make_patch_dir : Command
  write_patch : (path content : String) → Command
  add : String → Command
  commit : String → Command
  head_commit : Command
  push : (remote branch : String) → Command
  revert_head : Command

-- The output, or the output with the text of the error.
pub data GitAnswer : Type 0 where
  output : String → GitAnswer
  failure : (text message : String) → GitAnswer

pub record ProposalFile : Type 0 where
  pub source_file : String
  pub diff : String
  pub proposed_content : String

-- A proposal report with its files.
pub record Proposal : Type 0 where
  pub report : ProposalReport
  pub files : List ProposalFile

-- A program ends with a result, runs a command, or builds the proposal again from the worktree as
-- it then is.
pub data Program {ℓ} (A : Type ℓ) : Type ℓ where
  done : A → Program A
  ask : Command → (GitAnswer → Program A) → Program A
  rebuild : (Proposal → Program A) → Program A

unfoldable pub and_then {ℓ κ} : {A : Type ℓ} {B : Type κ} → Program A → (A → Program B) → Program B
and_then (done a) next = next a
and_then (ask command go) next = ask command (λ answer. and_then (go answer) next)
and_then (rebuild go) next = rebuild (λ built. and_then (go built) next)

-- What has been run, with the answers, the last first.
abbrev pub History : Type 0
History = List (Command × GitAnswer)

-- The git and the worktree that answer: what they say may depend on all that went before.
pub record World : Type 0 where
  pub answer : History → Command → GitAnswer
  pub build : History → Proposal

unfoldable pub run {ℓ} : {A : Type ℓ} → World → History → Program A → A × History
run world history (done a) = (a, history)
run world history (ask command go) =
    let said = world.answer history command in run world ((command, said) ∷ history) (go said)
run world history (rebuild go) = run world history (go (world.build history))

-- Every command is one that is allowed after what went before it.
unfoldable pub IsKept : (History → Command → Bool) → History → Type 0
IsKept allowed [] = Unit
IsKept allowed (entry ∷ history) = (allowed history entry.0 ≡ true) × IsKept allowed history

-- A program that keeps to what is allowed whatever is answered.
unfoldable pub Keeps {ℓ} :
    {A : Type ℓ}
    → (History → Command → Bool)
    → (History → A → Type 0)
    → History
    → Program A
    → Type 0
Keeps allowed Ends history (done a) = Ends history a
Keeps allowed Ends history (ask command go) =
    (allowed history command ≡ true)
    × ((said : GitAnswer) → Keeps allowed Ends ((command, said) ∷ history) (go said))
Keeps allowed Ends history (rebuild go) = (built : Proposal) → Keeps allowed Ends history (go built)

pub run-IsKept {ℓ} :
    {A : Type ℓ} (allowed : History → Command → Bool) (Ends : History → A → Type 0) (world : World)
    (history : History) (program : Program A)
    → Keeps allowed Ends history program
    → IsKept allowed history
    → IsKept allowed (run world history program).1
      × Ends (run world history program).1 (run world history program).0
unfolding run Keeps IsKept
run-IsKept allowed Ends world history (done a) keeps kept = (kept, keeps)
run-IsKept allowed Ends world history (ask command go) keeps kept =
    let said = world.answer history command in
    run-IsKept allowed Ends world ((command, said) ∷ history) (go said) (keeps.1 said)
      (keeps.0, kept)
run-IsKept allowed Ends world history (rebuild go) keeps kept =
    run-IsKept allowed Ends world history (go (world.build history)) (keeps (world.build history))
      kept

pub and_then-Keeps {ℓ κ} :
    {A : Type ℓ} {B : Type κ} (allowed : History → Command → Bool) (Mid : History → A → Type 0)
    (Ends : History → B → Type 0) (history : History) (program : Program A) (next : A → Program B)
    → Keeps allowed Mid history program
    → ((later : History) (a : A) → Mid later a → Keeps allowed Ends later (next a))
    → Keeps allowed Ends history (and_then program next)
unfolding and_then Keeps
and_then-Keeps allowed Mid Ends history (done a) next keeps then = then history a keeps
and_then-Keeps allowed Mid Ends history (ask command go) next keeps then = (
  keeps.0,
  λ said.
      and_then-Keeps allowed Mid Ends ((command, said) ∷ history) (go said) next (keeps.1 said)
        then,
)
and_then-Keeps allowed Mid Ends history (rebuild go) next keeps then =
    λ built. and_then-Keeps allowed Mid Ends history (go built) next (keeps built) then
