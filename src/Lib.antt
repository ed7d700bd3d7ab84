-- ===== src/Lib.antt =====
-- foreman-dispatch-bridge claims issues from Dispatch and runs each as a Foreman Workload on Kubernetes.
-- One tick of bridge/main.py retries the Workloads that failed, drains the queue of pull requests to be
-- fixed, and claims new issues lane by lane. This library models the logic of these passes.
--
-- The parts, and where they stand:
-- - bridge/models.py: Models, with the Kubernetes objects that the bridge reads and writes (Workload, Task).
-- - bridge/lanes.py: Lanes. The module's two globals are the record Topology. Its lookup is `resolve`.
-- - bridge/workload.py: Workload, by part: Config (constants, gate profiles), Capacity (slots, the fix-first
--   rule, candidates), Coder (the choice of a coder), Name (Workload and branch names), Build (the pipeline's
--   steps and the manifest).
-- - bridge/retry.py: Retry. Manifest reads a Workload back; Signals reads its tasks; Hooks has the callables
--   that reconcile_failures is given, its settings and its lines; Parking, Giveup and Pass are the phases of the
--   loop's body in the order of the code, each returning the line that ends the turn, or nothing.
-- - bridge/main.py, run_once: Claim, the pass that claims issues.
-- - bridge/claim.py: Claim.Queue, the filters of Dispatch's queue, Claim.Client, the calls that claim, move and
--   release an issue, over the answers to its POSTs, and Claim.Index, find_issue_id and lane_index.
-- - bridge/prfix.py: PrFix. Item and Manifest have the items of the pull-request queue and their Workloads,
--   Drain has drain_pr_fixes; Calls has the callables and lines of reconcile_pr_fixes, Settle and Settle.Turn the
--   phases of its body and its loop. A branch or a commit of an item is a text or missing.
--   Mergeable has check_pr_mergeable and update_pull_request_branch of bridge/main.py.
-- - bridge/review_transition.py: Review, the pass that moves the issue of a completed Workload on, with
--   Signals for what it reads. The boolean that update_status returns is ignored, as in the code.
-- - bridge/prune.py: Prune, with the stamp and the age of a Workload, and Prune.Pass, the pass.
-- - bridge/http_retry.py: Http, with both retry loops; a callable is given by its answers, call by call. Its
--   loops are recursions on the attempts left. Http.Kubernetes has _delete_workload of bridge/main.py too.
-- - bridge/reconcile.py: Reconcile, with reconcile_stranded_issues and release_stuck_claims.
-- Base has what they share: lists over native numbers, Text, Python's int and dict, JSON, decimal numerals,
-- and Effects. Examples, Samples, PrFixSamples, Trials, ClaimSamples and Runs apply the theorems at
-- concrete inputs.
--
-- How the code is written down:
-- - A str is a list of code points; its case is the ASCII one, and its white space that of Latin-1.
-- - A dict is an association list in insertion order. Counters and issue numbers are naturals: a negative
--   number of an issue, which Dispatch does not have, is outside the model.
-- - A text that int() reads has at most the 4300 digits that Python allows. In the number of a pull request,
--   isdigit and int() are those of Unicode 16.0, in Base.Decimal.Unicode; elsewhere int() reads ASCII digits.
-- - A JSON number is an integer. Kubernetes objects have the types of their resource definitions, and a
--   missing field is its empty value, as the code reads it.
-- - A callable that a pass is given is a function of its arguments and of the log of the calls made before
--   (newest first), into a value or an exception. So it may answer the same question in two ways at two times.
--   Each call is logged with how it ended. Code that makes calls is a term of the monad M of Base.Effects,
--   which stops at an exception; `attempt` is a try block.
-- - The lines that a pass reports are constructors; `render` of Retry.Hooks, `render_claim` of Claim,
--   `render_drain` of PrFix.Drain, `render_fix` of PrFix.Calls, `render_review` of Review, `render_prune` of
--   Prune.Pass and `render_reconcile` of Reconcile give the text of each.
-- - Log output is not modelled, and an argument that the code ignores (agent_name) is left out.
-- - The loop of run_once claims until a lane stops it. It runs on fuel, one unit for each round: under
--   a cap, one round more than the cap is enough in each lane. Without a cap nothing bounds the rounds but the
--   lanes and the slots, as in the code.
--
-- Not modelled: environment parsing, the libraries requests and kubernetes, logging, the other calls of Dispatch's
-- client, the tick that composes the passes, and the parking and recovery of infrastructure failures.
pub mod Base
pub mod Models
pub mod Http
pub mod Lanes
pub mod Workload
pub mod Retry
pub mod Claim
pub mod Review
pub mod Prune
pub mod Reconcile
pub mod PrFix
pub mod Examples
pub mod Samples
pub mod PrFixSamples
pub mod Trials
pub mod ClaimSamples
pub mod Runs
