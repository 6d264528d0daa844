-- ===== src/Git/Reads.antt =====
-- internal/analyzer/proposal.go: what is read from git, and the reasons that block a branch.
use Prim.Native.Char.{code}
use Prim.Native.String.{slice, len}
use k8s_recommendation_engin.Prelude.{
  ◌≡◌, refl, ℕ, ◌+◌, ◌-◌, ◌*◌, Bool, true, false, not, ◌&&◌, ◌||◌, Option, none, some, List, [],
  ◌∷◌, String, str_eq, starts_with, contains, trim_space, ◌<>◌, if◌then◌else◌, ltb, leb, ◌==◌,
}
use k8s_recommendation_engin.Diff.{split_lines}
use k8s_recommendation_engin.Git.{
  show_current, symbolic_ref, verify_branch, rev_list, GitAnswer, output, failure, Program, done,
  ask,
}

-- gitCurrentBranch: the branch, or the text of the error.
pub data Read {ℓ} (A : Type ℓ) : Type ℓ where
  known : A → Read A
  unknown : String → Read A

abbrev pub branch_read : GitAnswer → Read String
branch_read (output text) = known (trim_space text)
branch_read (failure text message) = unknown message

unfoldable pub git_current_branch : Program (Read String)
git_current_branch = ask show_current (λ said. done (branch_read said))

abbrev pub succeeded : GitAnswer → Bool
succeeded (output text) = true
succeeded (failure text message) = false

-- gitBranchExists
unfoldable pub git_branch_exists : String → Program Bool
git_branch_exists branch = ask (verify_branch branch) (λ said. done (succeeded said))

-- gitDefaultBranch, from its last question to its first.
abbrev pub default_current : GitAnswer → Program String
default_current (failure text message) = done "master"
default_current (output text) =
    done (if str_eq (trim_space text) "" then "master" else trim_space text)

abbrev pub default_main : GitAnswer → Program String
default_main (output text) = done "main"
default_main (failure text message) = ask show_current default_current

abbrev pub default_master : GitAnswer → Program String
default_master (output text) = done "master"
default_master (failure text message) = ask (verify_branch "main") default_main

abbrev pub default_ref : GitAnswer → Program String
default_ref (failure text message) = ask (verify_branch "master") default_master
default_ref (output text) =
    let branch = trim_space text in
    if starts_with branch "origin/"
    then done (slice branch 7 (len branch))
    else if str_eq branch ""
    then ask (verify_branch "master") default_master
    else done branch

unfoldable pub git_default_branch : Program String
git_default_branch = ask symbolic_ref default_ref

-- blockingGitStatusLines
unfoldable pub blocking_lines : List String → List String
blocking_lines [] = []
blocking_lines (line ∷ lines) =
    let rest = blocking_lines lines in
    let trimmed = trim_space line in
    if str_eq trimmed ""
      || starts_with trimmed "?? .k8s-recommendation-engine/"
      || str_eq trimmed "?? .k8s-recommendation-engine"
    then rest
    else trimmed ∷ rest

unfoldable pub blocking_git_status_lines : String → List String
unfolding blocking_lines
blocking_git_status_lines status = blocking_lines (split_lines status)

-- remoteBranchMissing
abbrev pub remote_branch_missing : String → Bool
remote_branch_missing message =
    contains message "couldn't find remote ref" || contains message "could not find remote ref"

-- proposalBranchBlockReason: `none` is the empty reason. `quote` is fmt's %q.
abbrev pub proposal_branch_block_reason :
    (String → String) → String → String → Bool → String → Option String
proposal_branch_block_reason quote branch current_branch branch_exists default_branch =
    if str_eq current_branch branch
    then none
    else if str_eq branch default_branch
    then none
    else if starts_with branch "k8s-recommendation-engine/"
    then none
    else if branch_exists
    then some (
        "proposal branch "
        <> quote branch
        <> " is not allowed; choose default branch "
        <> quote default_branch
        <> " or an k8s-recommendation-engine/* branch")
    else some (
        "new proposal branch "
        <> quote branch
        <> " does not exist; create it first as the default branch or use an k8s-recommendation-engine/* branch")

-- ProposalOptions; `generated_branch` is the name made from the application and the time.
pub record ProposalOptions : Type 0 where
  pub kind : String
  pub branch_name : String
  pub generated_branch : String
  pub default_branch : String
  pub remote : String
  pub push : Bool
  pub allow_default_branch_push : Bool

-- proposalPushBlockReason
abbrev pub proposal_push_block_reason :
    (String → String) → String → String → ProposalOptions → Option String
proposal_push_block_reason quote branch default_branch options =
    if not options.push
    then none
    else if str_eq branch default_branch && not options.allow_default_branch_push
    then some (
        "pushing configured default branch "
        <> quote default_branch
        <> " requires --allow-default-branch-push")
    else none

-- strconv.Atoi: a sign and a magnitude.
pub record Integer : Type 0 where
  pub negative : Bool
  pub magnitude : ℕ

digits_from : ℕ → String → Option ℕ
digits_from acc String.[] = some acc
digits_from acc (String.◌∷◌ c text) =
    let rest = digits_from (acc * 10 + (code c - 48)) text in
    if leb 48 (code c) && leb (code c) 57 then rest else none

abbrev bounded : Bool → Option ℕ → Option Integer
bounded negative none = none
bounded negative (some n) =
    if leb n (9223372036854775807 + (if negative then 1 else 0))
    then some (record { negative = negative; magnitude = n })
    else none

abbrev unsigned : Bool → String → Option Integer
unsigned negative text = if str_eq text "" then none else bounded negative (digits_from 0 text)

unfoldable pub atoi : String → Option Integer
unfolding digits_from
atoi text =
    if starts_with text "-"
    then unsigned true (slice text 1 (len text))
    else if starts_with text "+"
    then unsigned false (slice text 1 (len text))
    else unsigned false text

abbrev pub is_positive : Integer → Bool
is_positive n = not n.negative && ltb 0 n.magnitude

abbrev pub is_zero : Integer → Bool
is_zero n = n.magnitude == 0

-- strings.Fields over the white space of ASCII: the word that is being read comes first.
abbrev is_blank : ℕ → Bool
is_blank c = c == 32 || (leb 9 c && leb c 13)

abbrev onto_word : String → List String → List String
onto_word word words = if str_eq word "" then words else word ∷ words

split_words : String → String × List String
split_words String.[] = ("", [])
split_words (String.◌∷◌ c text) =
    let rest = split_words text in
    if is_blank (code c) then ("", onto_word rest.0 rest.1) else (String.◌∷◌ c rest.0, rest.1)

unfoldable pub fields : String → List String
unfolding split_words
fields text = let rest = split_words text in onto_word rest.0 rest.1

pub record AheadBehind : Type 0 where
  pub ahead : Integer
  pub behind : Integer

-- What gitAheadBehind makes of the answer of `rev-list`. The error that strconv wraps is left out of
-- the texts.
abbrev counts_read :
    (String → String) → String → String → Option Integer → Option Integer → Read AheadBehind
counts_read quote first second none behind = unknown ("parse ahead count " <> quote first)
counts_read quote first second (some ahead) none = unknown ("parse behind count " <> quote second)
counts_read quote first second (some ahead) (some behind) =
    known (record { ahead = ahead; behind = behind })

abbrev fields_read : (String → String) → String → List String → Read AheadBehind
fields_read quote text (first ∷ (second ∷ [])) =
    counts_read quote first second (atoi first) (atoi second)
fields_read quote text _ = unknown ("unexpected rev-list output " <> quote (trim_space text))

unfoldable pub counts_of : (String → String) → GitAnswer → Read AheadBehind
unfolding fields atoi
counts_of quote (failure text message) = unknown message
counts_of quote (output text) = fields_read quote text (fields text)

-- gitAheadBehind
unfoldable pub git_ahead_behind : (String → String) → String → String → Program (Read AheadBehind)
unfolding counts_of
git_ahead_behind quote branch remote =
    ask (rev_list branch remote) (λ said. done (counts_of quote said))

blocking_example :
    blocking_git_status_lines " M web.yaml\n?? .k8s-recommendation-engine/proposals/\n"
    ≡ "M web.yaml" ∷ []
unfolding blocking_git_status_lines blocking_lines split_lines trim_space
blocking_example = refl

counts_example :
    counts_of (λ s. s) (output "2\t0\n")
    ≡ known (record {
      ahead = record { negative = false; magnitude = 2 };
      behind = record { negative = false; magnitude = 0 };
    })
unfolding counts_of fields split_words atoi digits_from
counts_example = refl
