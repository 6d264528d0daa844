-- ===== src/Lib.antt =====
-- A model of the Kubernetes recommendation engine: the stages that stand between a recommendation and
-- a change of the cluster or of its repository.
--
-- An analysis (internal/analyzer) produces a report with one recommendation per workload. The state
-- package (internal/state) then judges it by what earlier runs recommended and by what became of them,
-- holds proposals back by a budget and a batch window, and records them. Recovery (internal/recovery)
-- deletes a failed pod of a workload in an emergency, after a reservation in the state database. The
-- safety stage classifies each change and blocks those that its policy does not allow. What is left
-- becomes a plan of changes to the source files in git, shown as a diff, and a proposal that is
-- committed and pushed, or rolled back when an observation shows harm.
--
--   Prelude      names shared by all files: Boolean tests, lists, the strings package
--   Report       internal/analyzer/types.go, the report that the stages pass on
--   Profile      internal/config/config.go, the policies of an application profile
--   Quantity     the quantities of k8s.io/apimachinery, a parameter: ParseQuantity, Cmp, String
--   Outcome      internal/state/sqlite.go, classifyOutcome and what it calls
--   Gates        internal/state/sqlite.go, evaluateStability and the gates of Store.Attach
--   Stamp        the two time formats of internal/state, as SQLite orders and Go parses them
--   Reservation  internal/state/availability_recovery.go, the table of recovery attempts
--   Recovery     internal/recovery/recovery.go, Apply and its checks on the live pod
--   Budget       internal/state/proposal_budget.go, budgets, events and the batch window
--   Retention    internal/state/retention.go, the deletion of old rows
--   Delivery     internal/state/sqlite.go, which fields a later run is judged by
--   Clamp        internal/state/sqlite.go, requests and the limits of the container
--   Safety       internal/analyzer/safety.go, the risk factors and the automatic commit
--   Diff         internal/analyzer/patch_plan.go, unifiedDiff and what it calls
--   Manifest     internal/analyzer/patch_plan.go, replicas and requests in YAML nodes
--   Helm         internal/analyzer/patch_plan.go and proposal.go, values of a Helm values file
--   Git          internal/analyzer/proposal.go, proposal_lifecycle.go and auto_rollback.go, the git
--                commands of a commit, a push, a revert and a rollback
--   Examples     the theorems and the operations at concrete inputs
--
-- A function of the source is a function of the model with its name in snake case, and a struct is a
-- record with the fields that the modelled code reads. A table of SQLite is the list of its rows, the
-- newest first, and a statement acts on the rows that its WHERE clause names; failures of SQLite
-- itself are not modelled, errors of texts that do not parse are. Times are nanoseconds since Go's zero
-- time and durations are nanoseconds, both natural numbers; `now.Sub(t) < d` is `now < t + d`. The
-- Kubernetes client, json.Marshal, quantities, floating point numbers and the texts of times are
-- parameters. All functions are structural, so there is no fuel; a fraction of a second is read with
-- nine digits, which is all that either format writes. The part of a text up to the seconds stands in
-- the model for its number of seconds, so that its order and its parse hold by construction; only the
-- fraction is modelled as text.
--
-- A prune of the recovery attempts is a step of their table, beside reservations for any pod of any
-- workload and completions.
--
-- A function that runs git is a program: it ends with a result, or it asks for the answer of a command
-- and goes on from it. `run` gives it a world, whose answers may depend on every command before; no
-- answer is assumed. Git.Policy says which command may follow which answers: it reads off the history
-- the branch that is checked out, whose commit HEAD is, and what git has said last about a branch and
-- its remote. Commits below HEAD are not looked at. Files are written and proposals built again in the same way. fmt's %q is a
-- parameter, and the error that strconv wraps is left out of texts. YAML nodes are immutable trees in
-- the model: where the source changes a node in place, the nodes of the path to it are built again, and
-- what an alias points to, which the source never follows, is left out. strconv.ParseInt on the text of
-- a scalar is a parameter. The loops of the diff recurse on the lines that are left.
--
-- Not modelled: the analysis of metrics, the building of patch plans from a recommendation, the status
-- reports of proposals and of git, observations, backtests and the controller. Output to the terminal,
-- generated code and the clients of Kubernetes and Prometheus stay outside.
pub mod Prelude
pub mod Report
pub mod Quantity
pub mod Outcome
pub mod Gates
pub mod Stamp
pub mod Profile
pub mod Reservation
pub mod Recovery
pub mod Budget
pub mod Retention
pub mod Clamp
pub mod Delivery
pub mod Safety
pub mod Diff
pub mod Manifest
pub mod Helm
pub mod Git
pub mod Examples
