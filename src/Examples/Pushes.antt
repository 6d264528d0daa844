-- ===== src/Examples/Pushes.antt =====
-- Runs of the git commands, and of the safety assessment, of internal/analyzer.
use k8s_recommendation_engin.Prelude.{
  ℕ, ◌≤◌, ◌≡◌, ◌⊎◌, refl, true, false, not, ◌||◌, none, some, List, [], ◌∷◌, String, All,
  trim_space, ltb,
}
use k8s_recommendation_engin.Diff.{split_lines}
use k8s_recommendation_engin.Quantity.{milli}
use k8s_recommendation_engin.Report.{low_risk}
use k8s_recommendation_engin.Budget.{recommendation_has_change}
use k8s_recommendation_engin.Git.{
  Command, status_porcelain, show_current, verify_branch, create_branch, fetch, rev_list,
  log_subject, resolve_path, write_file, add, commit, head_commit, push, GitAnswer, output, failure,
  History, World, Proposal, ProposalFile, run, IsKept, and_then,
}
use k8s_recommendation_engin.Git.Reads.{
  ProposalOptions, blocking_git_status_lines, blocking_lines, git_current_branch, git_branch_exists,
  git_ahead_behind, counts_of, fields, atoi,
}
use k8s_recommendation_engin.Git.Fresh.{
  remote_name, ensure_proposal_remote_fresh, refresh_proposal_after_git_sync, push_proposal_commit,
}
use k8s_recommendation_engin.Git.Commit.{
  write_proposal_commit, default_branch_of, commit_guarded, commit_switched, commit_fresh,
  commit_on, commit_files, write_files, make_commit,
}
use k8s_recommendation_engin.Git.Rollback.{proposal_rollback, proposal_revert, new_rollback}
use k8s_recommendation_engin.Git.Rollback.Auto.{ObservationReport, auto_rollback}
use k8s_recommendation_engin.Git.Policy.{policy_of, allowed, was_clean}
use k8s_recommendation_engin.Git.Policy.Remote.{live, Checked, ensure_proposal_remote_fresh-run}
use k8s_recommendation_engin.Git.Policy.Proposals.{write_proposal_commit-IsKept}
use k8s_recommendation_engin.Git.Reads.{known}
use k8s_recommendation_engin.Git.Create.{create_proposal}
use k8s_recommendation_engin.Git.Policy.Create.{create_proposal-IsKept}
use k8s_recommendation_engin.Git.Policy.Rollbacks.{
  local_policy, proposal_rollback-IsKept, proposal_revert-IsKept, auto_rollback-idle,
}
use k8s_recommendation_engin.Safety.{Floats, risk_rank}
use k8s_recommendation_engin.Safety.Assess.{classify_recommendation_safety}
use k8s_recommendation_engin.Safety.Classified.{HasRisk, classify_recommendation_safety-greatest}
use k8s_recommendation_engin.Safety.Attach.{attach_safety}
use k8s_recommendation_engin.Safety.Attach.Allowed.{is_let_through, attach_safety-blocked}
use k8s_recommendation_engin.Examples.{web, web_policy}

abbrev same_text : String → String
same_text s = s

abbrev push_options : ProposalOptions
push_options = record {
  kind = "commit";
  branch_name = "k8s-recommendation-engine/web";
  generated_branch = "k8s-recommendation-engine/shop";
  default_branch = "main";
  remote = "";
  push = true;
  allow_default_branch_push = false;
}

abbrev web_file : ProposalFile
web_file = record { source_file = "web.yaml"; diff = "d"; proposed_content = "replicas: 2" }

abbrev web_proposal : Proposal
web_proposal = record {
  report = record (new_rollback.report) { needed = true };
  files = web_file ∷ [];
}

-- A clean worktree on main, level with its remote, whose last commit is the program's.
answer : History → Command → GitAnswer
answer history status_porcelain = output ""
answer history show_current = output "main"
answer history (rev_list branch remote) = output "0 0"
answer history log_subject = output "k8s-recommendation-engine: propose shop resource changes"
answer history head_commit = output "abc1234"
answer history (verify_branch branch) = failure "" ""
answer history (resolve_path path) = output path
answer history _ = output ""

abbrev clean_world : World
clean_world = record { answer = answer; build = λ history. web_proposal }

write_proposal_commit-IsKept_example :
    IsKept
      (allowed (policy_of same_text push_options))
      (run clean_world []
        (write_proposal_commit same_text push_options (λ p. "propose") web_proposal)).1
write_proposal_commit-IsKept_example =
    write_proposal_commit-IsKept same_text push_options (λ p. "propose") web_proposal clean_world

create_proposal-IsKept_example :
    IsKept
      (allowed (policy_of same_text push_options))
      (run clean_world []
        (create_proposal same_text push_options (λ p. "propose") (known "proposals/shop.patch"))).1
create_proposal-IsKept_example =
    create_proposal-IsKept same_text push_options (λ p. "propose") (known "proposals/shop.patch")
      clean_world

proposal_rollback-IsKept_example :
    IsKept
      (allowed (policy_of same_text push_options))
      (run clean_world [] (proposal_rollback same_text "/srv/git" push_options)).1
proposal_rollback-IsKept_example =
    proposal_rollback-IsKept same_text "/srv/git" push_options clean_world

proposal_revert-IsKept_example :
    IsKept
      (allowed (local_policy same_text))
      (run clean_world [] (proposal_revert same_text "/srv/git")).1
proposal_revert-IsKept_example = proposal_revert-IsKept same_text "/srv/git" clean_world

abbrev clean_status : History
clean_status = (status_porcelain, output "") ∷ []

named_branch : trim_space "main" ≡ "main"
unfolding trim_space
named_branch = refl

clean_status-was_clean : was_clean clean_status ≡ true
unfolding blocking_git_status_lines blocking_lines split_lines trim_space
clean_status-was_clean = refl

clean_status-IsKept : IsKept (allowed (live same_text (remote_name push_options))) clean_status
unfolding IsKept allowed
clean_status-IsKept = (refl, tt)

ensure_proposal_remote_fresh-run_example :
    Checked same_text false
      (remote_name push_options)
      (trim_space "main")
      (run clean_world clean_status
        (ensure_proposal_remote_fresh same_text push_options "main" false web_proposal)).1
      (run clean_world clean_status
        (ensure_proposal_remote_fresh same_text push_options "main" false web_proposal)).0
ensure_proposal_remote_fresh-run_example =
    ensure_proposal_remote_fresh-run same_text push_options "main" false web_proposal clean_world
      clean_status refl (rw named_branch refl) clean_status-was_clean clean_status-IsKept

-- The commands of a commit that is pushed, the last first.
abbrev commands : History → List Command
commands [] = []
commands (entry ∷ history) = entry.0 ∷ commands history

write_proposal_commit_test :
    commands
      (run clean_world []
        (write_proposal_commit same_text push_options (λ p. "propose") web_proposal)).1
    ≡ push "origin" "k8s-recommendation-engine/web"
      ∷ (head_commit
          ∷ (commit "propose"
              ∷ (add "web.yaml"
                  ∷ (write_file "web.yaml" "replicas: 2"
                      ∷ (resolve_path "web.yaml"
                          ∷ (create_branch "k8s-recommendation-engine/web"
                              ∷ (rev_list "main" "origin"
                                  ∷ (fetch "origin" "main"
                                      ∷ (verify_branch "k8s-recommendation-engine/web"
                                          ∷ (show_current ∷ (status_porcelain ∷ [])))))))))))
unfolding run write_proposal_commit answer and_then git_current_branch git_branch_exists
    default_branch_of commit_guarded commit_switched commit_fresh commit_on commit_files write_files
    make_commit push_proposal_commit ensure_proposal_remote_fresh refresh_proposal_after_git_sync
    blocking_git_status_lines blocking_lines split_lines trim_space git_ahead_behind counts_of
    fields atoi
write_proposal_commit_test = refl

abbrev quiet_observation : ObservationReport
quiet_observation = record {
  latest_proposal_commit = "abc1234";
  dirty_lines = "M web.yaml" ∷ [];
  workloads =
      record {
        namespace = "shop";
        deployment = "web";
        metrics_condition = "unhealthy";
        status = "applied";
        outcome = "unsafe";
        reasons = [];
      }
      ∷ [];
  errors = [];
}

auto_rollback-idle_example :
    ((run clean_world []
        (auto_rollback same_text "/srv/git" (some "main") (some quiet_observation) push_options)).1
      ≡ [])
    × ((run clean_world [] (
          auto_rollback same_text "/srv/git"
            (some "main")
            (some quiet_observation)
            push_options)).0.rollback
        ≡ none)
auto_rollback-idle_example =
    auto_rollback-idle same_text "/srv/git" "main" quiet_observation push_options clean_world refl

-- Whole numbers in place of floating point ones.
abbrev whole : Floats ℕ
whole = record {
  literal = λ s. 0;
  of_count = λ n. n;
  less = ltb;
  subtract = λ a b. a;
  multiply = λ a b. a;
  divide = λ a b. a;
  max = λ a b. a;
  abs = λ a. a;
  one_decimal = λ a. "";
  three_decimals = λ a. "";
  cores = λ s. none;
  bytes = λ s. none;
}

web_changes : recommendation_has_change (web 3 2).recommendation ≡ true
unfolding recommendation_has_change
web_changes = refl

attach_safety-blocked_example :
    (attach_safety whole milli web_policy [] (web 3 2)).recommendation.blocked ≡ (
      (web 3 2).recommendation.blocked
      || not (
          is_let_through milli web_policy (record (web 3 2).recommendation {
            safety = classify_recommendation_safety whole (web 3 2) [];
          })))
attach_safety-blocked_example =
    attach_safety-blocked whole milli web_policy [] (web 3 2) web_changes

classify_recommendation_safety-greatest_example :
    All
      (λ f.
        risk_rank f.classification
        ≤ risk_rank (classify_recommendation_safety whole (web 3 2) []).classification)
      (classify_recommendation_safety whole (web 3 2) []).factors
    × (((classify_recommendation_safety whole (web 3 2) []).classification ≡ low_risk)
        ⊎ HasRisk
            (classify_recommendation_safety whole (web 3 2) []).factors
            (classify_recommendation_safety whole (web 3 2) []).classification)
classify_recommendation_safety-greatest_example =
    classify_recommendation_safety-greatest whole (web 3 2) []
