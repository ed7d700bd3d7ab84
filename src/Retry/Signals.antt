-- ===== src/Retry/Signals.antt =====
-- bridge/retry.py: what the tasks of a Failed Workload say about it.
use foreman_dispatch_bridge.Base.{
  Bool, false, ◌&&◌, ◌||◌, not, Option, none, some, List, [], ◌∷◌, ◌++◌, if◌then◌else◌, any,
}
use foreman_dispatch_bridge.Base.Text
use foreman_dispatch_bridge.Base.Text.{Text, codes, ◌==◌, mem_text, contains_text, strip, upper}
use foreman_dispatch_bridge.Base.Json.{Json, str, obj, Fields, get, truthy}
use foreman_dispatch_bridge.Models.{Condition, Task, Workload}
use foreman_dispatch_bridge.Workload.Build.{issue_fix}

abbrev is_coder_task : Task → Bool
is_coder_task t = t.kind == issue_fix || t.kind == codes "code"

unfoldable pub coder_said_no : List Task → Bool
unfolding issue_fix
coder_said_no = any (λ t. is_coder_task t && t.verdict == codes "NO-GO")

abbrev is_text : Text → Json → Bool
is_text t (str s) = s == t
is_text t _ = false

-- `demotionReason`, with the fallback when it is absent.
demotion_reason : Text → Json → Text
demotion_reason by (str (c ∷ s)) = c ∷ s
demotion_reason by _ = codes "review demoted by the " ++ (by ++ codes " rail")

abbrev is_rail : Text → Bool
is_rail by = by == codes "issueAsk" || by == codes "scope-overlap"

demotion_by : Json → Fields → Option (Text × Text)
unfolding demotion_reason
demotion_by (str by) extra =
    if is_rail by
      && is_text (codes "GO") (get (codes "verdictClaimed") extra)
      && not (truthy (get (codes "findings") extra))
    then some (by, demotion_reason by (get (codes "demotionReason") extra))
    else none
demotion_by _ extra = none

-- The body of the loop, for the task's modelExtra.
demotion_in : Json → Option (Text × Text)
unfolding demotion_by
demotion_in (obj extra) = demotion_by (get (codes "verdictDemotedBy") extra) extra
demotion_in _ = none

unfoldable pub rail_demoted_reason : List Task → Option (Text × Text)
unfolding demotion_in
rail_demoted_reason [] = none
rail_demoted_reason (t ∷ tasks) =
    let rest = rail_demoted_reason tasks in
    if t.kind == codes "review" && t.verdict == codes "NO-GO"
    then elim (demotion_in t.model_extra) [ none ↦ rest | some found ↦ some found ]
    else rest

unfoldable pub declared_escalations : List Text
declared_escalations =
    codes "DESIGN-DECISION" ∷ codes "NO-TECHNICAL-FIX" ∷ codes "BUDGET-EXHAUSTED" ∷ []

unfoldable pub parking_escalations : List Text
parking_escalations = codes "DESIGN-DECISION" ∷ codes "NO-TECHNICAL-FIX" ∷ []

declared_in : Json → Option Text
declared_in (str reason) =
    if mem_text (upper (strip reason)) declared_escalations
    then some (upper (strip reason))
    else none
declared_in _ = none

declared_by : Json → Option Text
unfolding declared_in
declared_by (obj extra) = declared_in (get (codes "escalation") extra)
declared_by _ = none

unfoldable pub declared_escalation : List Task → Option Text
unfolding declared_by
declared_escalation [] = none
declared_escalation (t ∷ tasks) =
    let rest = declared_escalation tasks in
    if is_coder_task t
    then elim (declared_by t.model_extra) [ none ↦ rest | some reason ↦ some reason ]
    else rest

-- Evidence in one task that the branch reached the remote.
task_pushed : Task → Bool
task_pushed t =
    not (Text.is_empty t.pull_request_url)
    || (t.kind == codes "review" && not (Text.is_empty t.verdict)
        || (is_coder_task t && t.verdict == codes "GO"
            || (contains_text t.outcome (codes "PUSH-FAILED")
                || contains_text t.error (codes "non-fast-forward"))))

unfoldable pub branch_pushed : List Task → (remote_branch_exists : Bool) → Bool
unfolding task_pushed
branch_pushed tasks remote_branch_exists = remote_branch_exists || any task_pushed tasks

abbrev is_executor_error : Condition → Bool
is_executor_error c = c.type == codes "Completed" && c.reason == codes "ExecutorError"

unfoldable pub task_failed_with_executor_error : Workload → Bool
task_failed_with_executor_error wl = any (any is_executor_error) wl.task_statuses

unfoldable pub tasks_failed_with_executor_error : List Task → Bool
tasks_failed_with_executor_error = any (λ t. any is_executor_error t.conditions)
