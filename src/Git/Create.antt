-- ===== src/Git/Create.antt =====
-- internal/analyzer/proposal.go: the creation of a proposal.
use k8s_recommendation_engin.Prelude.{
  false, not, List, [], ◌∷◌, String, str_eq, ends_with, trim_space, ◌<>◌, if◌then◌else◌,
}
use k8s_recommendation_engin.Git.{
  make_patch_dir, write_patch, Program, done, ask, rebuild, Proposal, ProposalFile,
}
use k8s_recommendation_engin.Git.Reads.{Read, known, unknown, ProposalOptions}
use k8s_recommendation_engin.Git.Fresh.{with_report, fail_with}
use k8s_recommendation_engin.Git.Commit.{
  error_answered, write_proposal_commit, publish_existing_proposal_commit,
}

-- proposalPatchContent
unfoldable pub proposal_patch_content : List ProposalFile → String
proposal_patch_content [] = ""
proposal_patch_content (file ∷ files) =
    let rest = proposal_patch_content files in
    if str_eq file.diff ""
    then rest
    else if ends_with file.diff "\n"
    then file.diff <> rest
    else file.diff <> "\n" <> rest

abbrev pub patch_written : String → Proposal → Proposal
patch_written path proposal =
    let report = proposal.report in
    with_report
      (record report {
        patch_file = path;
        message = "proposal patch file written; no manifests were changed";
      })
      proposal

abbrev pub write_patch_at : Read String → String → Proposal → Program Proposal
write_patch_at (unknown message) patch proposal = done (fail_with message proposal)
write_patch_at (known path) patch proposal = ask make_patch_dir (
    error_answered "create proposal patch dir: " proposal (λ made. ask (write_patch path patch) (
      error_answered "write proposal patch: " proposal
        (λ written. done (patch_written path proposal)))))

-- writeProposalPatch; `path` is the file in the patch directory, or why cleanGitPath refuses it.
unfoldable pub write_proposal_patch : Read String → Proposal → Program Proposal
unfolding proposal_patch_content
write_proposal_patch path proposal =
    let report = proposal.report in
    let patch = proposal_patch_content proposal.files in
    if str_eq (trim_space patch) ""
    then done (with_report (record report { needed = false }) proposal)
    else write_patch_at path patch proposal

abbrev pub kind_or_patch : ProposalOptions → String
kind_or_patch options = if str_eq options.kind "" then "patch" else options.kind

abbrev pub as_proposed : String → Proposal → Proposal
as_proposed kind proposal =
    let report = proposal.report in
    with_report (record report { mode = "propose"; kind = kind }) proposal

-- What CreateProposal does with the proposal that it built; `kind` is the option or its default.
unfoldable pub create_built :
    (String → String)
    → ProposalOptions
    → (Proposal → String)
    → Read String
    → String
    → Proposal
    → Program Proposal
unfolding write_proposal_commit publish_existing_proposal_commit write_proposal_patch
create_built quote options message path kind proposal =
    if proposal.report.blocked
    then done proposal
    else if not proposal.report.needed
    then (if str_eq kind "commit"
        then (if options.push
            then publish_existing_proposal_commit quote options proposal
            else done proposal)
        else done proposal)
    else if str_eq kind "patch"
    then write_proposal_patch path proposal
    else if str_eq kind "commit"
    then write_proposal_commit quote options message proposal
    else done (fail_with ("unsupported proposal kind " <> quote kind) proposal)

-- CreateProposal
unfoldable pub create_proposal :
    (String → String) → ProposalOptions → (Proposal → String) → Read String → Program Proposal
unfolding create_built
create_proposal quote options message path =
    let kind = kind_or_patch options in
    rebuild (λ built. create_built quote options message path kind (as_proposed kind built))
