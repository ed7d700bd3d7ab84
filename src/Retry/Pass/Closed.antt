-- ===== src/Retry/Pass/Closed.antt =====
-- The turn of a failed Workload whose issue is closed.
use foreman_dispatch_bridge.Base.{
  ◌≡◌, refl, Bool, Option, some, List, [], ◌∷◌, given, Option-cases, ◌||◌, inl, inr,
}
use foreman_dispatch_bridge.Base.Text.{Text, codes}
use foreman_dispatch_bridge.Base.Effects.{Result, ok, ◌>>=◌, perform, attempt, recover}
use foreman_dispatch_bridge.Models.{ClaimedItem, Workload, Task}
use foreman_dispatch_bridge.Retry.Manifest.{item_from_workload}
use foreman_dispatch_bridge.Retry.Signals.{
  task_failed_with_executor_error, tasks_failed_with_executor_error,
}
use foreman_dispatch_bridge.Retry.Hooks.{asked, Log, Hooks, Settings, issue_closed}
use foreman_dispatch_bridge.Retry.Parking.{name_of}
use foreman_dispatch_bridge.Retry.Parking.ClosedIssue.{skip_closed-closed}
use foreman_dispatch_bridge.Retry.Pass.{
  Progress, append_line, fetch_tasks, unless_settled, settle_or_retry, reconcile_one,
}

-- The calls that are not questions: deletions, creations, parking, labels, escalations.
abbrev pub actions : Log → Log
actions [] = []
actions (asked t ∷ log) = actions log
actions (c ∷ log) = c ∷ actions log

closed_lem :
    (hooks : Hooks) (settings : Settings) (s : Progress) (wl : Workload) (tasks : List Task)
    (is_infra : Bool) (log : Log) (ask : ClaimedItem → Log → Result (Option Text))
    → hooks.issue_state_for ≡ some ask
    → ask (item_from_workload wl) log ≡ ok (some (codes "closed"))
    → settle_or_retry hooks settings s wl tasks is_infra log
      ≡ (ok (append_line s (issue_closed (name_of wl))), asked (name_of wl) ∷ log)
unfolding settle_or_retry unless_settled given ◌>>=◌
closed_lem hooks settings s wl tasks is_infra log ask e closed =
    rw (skip_closed-closed hooks settings wl log ask e closed) refl

fetch_tasks-asks :
    (hooks : Hooks) (settings : Settings) (name : Text) (log : Log)
    → (tasks : List Task) × (l : Log) × (fetch_tasks hooks settings name log ≡ (ok tasks, l))
      × (actions l ≡ actions log)
unfolding fetch_tasks given perform attempt ◌>>=◌
fetch_tasks-asks hooks settings name log = elim (Option-cases hooks.tasks_for) [
  | inl t ↦ ([], log, rw t refl, refl)
  | inr (tasks_for, t) ↦ (recover [] (tasks_for name log), asked name ∷ log, rw t refl, refl)
]

-- A failed Workload whose issue is closed is reported and left alone: nothing is deleted, created,
-- parked, labelled or escalated on its turn.
pub reconcile_one-closed :
    (hooks : Hooks) (settings : Settings) (s : Progress) (wl : Workload) (log : Log)
    (ask : ClaimedItem → Log → Result (Option Text))
    → hooks.issue_state_for ≡ some ask
    → ((l : Log) → ask (item_from_workload wl) l ≡ ok (some (codes "closed")))
    → ((reconcile_one hooks settings s wl log).0 ≡ ok (append_line s (issue_closed (name_of wl))))
      × (actions (reconcile_one hooks settings s wl log).1 ≡ actions log)
unfolding reconcile_one ◌>>=◌
reconcile_one-closed hooks settings s wl log ask e closed =
    let (tasks, l, fetched, quiet) = fetch_tasks-asks hooks settings (name_of wl) log in
    rw
      (
        fetched,
        closed_lem hooks settings s wl tasks
            (task_failed_with_executor_error wl || tasks_failed_with_executor_error tasks) l ask e
            (closed l),
      )
      (refl, quiet)
