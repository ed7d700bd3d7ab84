-- ===== src/Retry/Pass/Lines.antt =====
-- bridge/retry.py: exceptions in a pass of `reconcile_failures`, and the lines that it reports.
use foreman_dispatch_bridge.Base.{
  ℕ, ◌≡◌, ◌+◌, Bool, true, Option, List, [], ◌∷◌, length, length-append, arith, ◌||◌,
}
use foreman_dispatch_bridge.Base.Text.{Text}
use foreman_dispatch_bridge.Base.Dict.{Dict}
use foreman_dispatch_bridge.Base.Effects.{
  Result, ok, raise, returned, ◌>>=◌, perform, for_each, continue, recover,
}
use foreman_dispatch_bridge.Base.Effects.Rules.{Outcome, Outcome-map}
use foreman_dispatch_bridge.Base.Effects.Returns.{
  Returns, Returns-pure, Returns-perform, Returns-bind, OnSome, Returns-given_if, Returns-for_each,
  Result-Outcome, returns_rules,
}
use foreman_dispatch_bridge.Models.{ClaimedItem, Workload, Task}
use foreman_dispatch_bridge.Retry.Signals.{
  task_failed_with_executor_error, tasks_failed_with_executor_error,
}
use foreman_dispatch_bridge.Retry.Hooks.{Log, Hooks, Settings, Line, asked}
use foreman_dispatch_bridge.Workload.Name.{branch_name}
use foreman_dispatch_bridge.Retry.Parking.{Act, name_of}
use foreman_dispatch_bridge.Retry.Parking.Isolation.{
  Answers, identify-Returns, skip_closed-Returns, settle_declared-Returns, settle_demoted-Returns,
}
use foreman_dispatch_bridge.Retry.Giveup.Isolation.{
  give_up_infra-Returns, settle_repeated_nogo-Returns, settle_exhausted-Returns,
}
use foreman_dispatch_bridge.Retry.Pass.{
  Progress, append_line, fetch_tasks, fetch_feedback, fetch_branch, after_recreate, retry_workload,
  unless_settled, settle_or_retry, reconcile_one, reconcile_failures,
}
use foreman_dispatch_bridge.Retry.Pass.Rounds.{reconcile_one-Outcome, pass-Outcome}

-- A question about a branch that answers every call.
abbrev pub AnswersBranch : (Text → Text → Text → Log → Result Bool) → Type 0
AnswersBranch f = (name branch repo : Text) (log : Log) → returned (f name branch repo log) ≡ true

module _ (hooks : Hooks) (settings : Settings) (known : OnSome Answers hooks.lookup_issue_id)
    (feedback : OnSome Answers hooks.feedback_for)
    (branch : OnSome AnswersBranch hooks.branch_pushed_for) where
  fetch_tasks-Returns : (name : Text) → Returns (fetch_tasks hooks settings name)
  unfolding fetch_tasks
  fetch_tasks-Returns name = search returns_rules depth 8

  fetch_feedback-Returns : (name : Text) → Returns (fetch_feedback hooks settings name)
  unfolding fetch_feedback
  fetch_feedback-Returns name =
      Returns-given_if Answers hooks.feedback_for _ _ feedback (Returns-pure _)
        λ ask answers. Returns-perform (λ r. asked name) (ask name) (answers name)

  fetch_branch-Returns :
      (name : Text) (item : ClaimedItem) → Returns (fetch_branch hooks settings name item)
  unfolding fetch_branch
  fetch_branch-Returns name item =
      Returns-given_if AnswersBranch hooks.branch_pushed_for _ _ branch (Returns-pure _)
        λ ask answers.
          Returns-bind _ _
            (Returns-perform (λ r. asked name) (ask name (branch_name item) item.repo)
              (answers name (branch_name item) item.repo))
            λ pushed. Returns-pure _

  retry-Returns :
      (s : Progress) (wl : Workload) (is_infra : Bool)
      → Returns (retry_workload hooks settings s wl is_infra)
  unfolding retry_workload
  retry-Returns s wl is_infra =
      search
        (
          returns_rules,
          identify-Returns hooks settings known,
          fetch_feedback-Returns,
          fetch_branch-Returns,
        )
        depth 8

  unless-Returns :
      (s : Progress) (phase : Act (Option Line)) (rest : Act Progress)
      → Returns phase
      → Returns rest
      → Returns (unless_settled hooks settings s phase rest)
  unfolding unless_settled
  unless-Returns s phase rest kp kr = search returns_rules depth 8

  reconcile_one-Returns :
      (s : Progress) (wl : Workload) → Returns (reconcile_one hooks settings s wl)
  unfolding reconcile_one
  reconcile_one-Returns s wl = Returns-bind _ _ (fetch_tasks-Returns (name_of wl)) λ tasks.
      phases tasks (task_failed_with_executor_error wl || tasks_failed_with_executor_error tasks)
    where
      phases :
          (tasks : List Task) (is_infra : Bool)
          → Returns (settle_or_retry hooks settings s wl tasks is_infra)
      phases tasks is_infra = unless-Returns s _ _ (skip_closed-Returns hooks settings wl) (
          unless-Returns s _ _ (settle_declared-Returns hooks settings known wl) (
            unless-Returns s _ _ (settle_demoted-Returns hooks settings known wl tasks is_infra) (
              unless-Returns s _ _ (give_up_infra-Returns hooks settings wl is_infra) (
                unless-Returns s _ _ (settle_repeated_nogo-Returns hooks settings wl tasks is_infra)
                  (unless-Returns s _ _ (settle_exhausted-Returns hooks settings known wl is_infra)
                    (retry-Returns s wl is_infra))))))

  pass-Returns :
      (load : Dict ℕ)
      → returned (hooks.list_failed []) ≡ true
      → returned (reconcile_failures hooks settings load []).0 ≡ true
  unfolding reconcile_failures perform ◌>>=◌
  pass-Returns load listed = from (hooks.list_failed []) listed
    where
      start : Progress
      start = record { results = []; load = load }

      from :
          (r : Result (List Workload))
          → returned r ≡ true
          → returned (continue r (for_each (reconcile_one hooks settings) start) (asked [] ∷ [])).0
            ≡ true
      from (ok failed) h =
          (Returns-for_each (reconcile_one hooks settings) reconcile_one-Returns start failed).at
            (asked [] ∷ [])
      from (raise e) h = h

append_line-length :
    (s : Progress) (line : Line) → length (append_line s line).results ≡ length s.results + 1
append_line-length s line = length-append s.results (line ∷ [])

module _ (hooks : Hooks) (settings : Settings) where
  after_recreate-length :
      (s : Progress) (wl : Workload) (is_infra : Bool) (coder : Text) (r : Result (Unit {0}))
      → length (after_recreate hooks settings s wl is_infra coder r).results ≡ length s.results + 1
  unfolding after_recreate
  after_recreate-length s wl is_infra coder (raise e) = length-append s.results _
  after_recreate-length s wl is_infra coder (ok u) = length-append s.results _

  lines_lem :
      (load : Dict ℕ)
      → Outcome
          (λ s log. length s.results + 0 ≡ length (recover [] (hooks.list_failed [])))
          (λ log. Unit)
          (reconcile_failures hooks settings load [])
  lines_lem load =
      pass-Outcome hooks settings
        (λ rest s log. length s.results + length rest ≡ length (recover [] (hooks.list_failed [])))
        (λ log. Unit) load
        (λ s wl rest log h.
          Outcome-map _ _ _ _ (reconcile_one hooks settings s wl log)
            (λ a l h'. omega (arith, h, h')) (λ l h'. tt)
            (reconcile_one-Outcome hooks settings (λ log. Unit) (λ e log _ p. tt)
              (λ s' log. length s'.results ≡ length s.results + 1) s wl
              (λ line log p. append_line-length s line)
              (λ is_infra item feedback revise_from r log budget free p.
                after_recreate-length s wl is_infra _ r)
              log tt))
        (λ failed e. rw e (omega arith)) tt

-- Where the failed Workloads are listed, and the callables that look up an issue id, the feedback and
-- the pushed branch answer every call, the pass comes to its end, whatever exceptions the deletions, the
-- creations, the escalations, the parking and the other questions raise, and it reports exactly one line
-- for each failed Workload.
pub reconcile_failures-reports :
    (hooks : Hooks) (settings : Settings) (load : Dict ℕ)
    → returned (hooks.list_failed []) ≡ true
    → OnSome Answers hooks.lookup_issue_id
    → OnSome Answers hooks.feedback_for
    → OnSome AnswersBranch hooks.branch_pushed_for
    → (s : Progress) × ((reconcile_failures hooks settings load []).0 ≡ ok s)
      × (length s.results ≡ length (recover [] (hooks.list_failed [])))
reconcile_failures-reports hooks settings load listed known feedback branch =
    let (s, ended, count) =
      Result-Outcome _ _ (reconcile_failures hooks settings load [])
        (pass-Returns hooks settings known feedback branch load listed)
        (lines_lem hooks settings load) in
    (s, ended, omega (arith, count))
