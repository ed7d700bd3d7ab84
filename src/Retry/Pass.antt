-- ===== src/Retry/Pass.antt =====
-- bridge/retry.py: the retry of a Failed Workload, and the loop of `reconcile_failures`.
use foreman_dispatch_bridge.Base.{
  given, ℕ, suc, ◌+◌, Bool, true, false, ◌&&◌, ◌||◌, not, Option, none, some, List, [], ◌∷◌, ◌++◌,
  if◌then◌else◌, is_empty,
}
use foreman_dispatch_bridge.Base.Text.{Text}
use foreman_dispatch_bridge.Base.Dict.{Dict}
use foreman_dispatch_bridge.Base.Json.{Json}
use foreman_dispatch_bridge.Base.Effects.{
  Result, ok, raise, returned, recover, M, pure, ◌>>=◌, ◌>>◌, perform, attempt, for_each,
}
use foreman_dispatch_bridge.Models.{ClaimedItem, Workload, Task}
use foreman_dispatch_bridge.Workload.Config.{gate_profile_for, language_of}
use foreman_dispatch_bridge.Workload.Capacity.{Rotation, bump, is_full}
use foreman_dispatch_bridge.Workload.Coder.{coder_agent_for}
use foreman_dispatch_bridge.Workload.Name.{branch_name}
use foreman_dispatch_bridge.Workload.Build.{Request, build_workload}
use foreman_dispatch_bridge.Retry.Manifest.{attempt_of, infra_attempt_of}
use foreman_dispatch_bridge.Retry.Signals.{
  task_failed_with_executor_error, tasks_failed_with_executor_error,
}
use foreman_dispatch_bridge.Retry.Hooks.{
  Call, asked, created, Hooks, Settings, Line, deferred, retry_error, retry_infra, retry,
}
use foreman_dispatch_bridge.Retry.Parking.{
  Act, name_of, delete, identify, skip_closed, settle_declared, settle_demoted,
}
use foreman_dispatch_bridge.Retry.Giveup.{give_up_infra, settle_repeated_nogo, settle_exhausted}
pub mod Rounds
pub mod Recreation
pub mod Capacity
pub mod Lines
pub mod Closed

-- `results` and `load`
pub record Progress : Type 0 where
  pub results : List Line
  pub load : Dict ℕ

abbrev pub append_line : Progress → Line → Progress
append_line s line = record s { results = s.results ++ (line ∷ []) }

-- Capacity is not passed to the choice of a retry's coder.
abbrev pub no_rotation : Rotation
no_rotation = record { load = []; slots = []; fix_first = [] }

module _ (hooks : Hooks) (settings : Settings) where
  create : Workload → Act (Unit {0})
  unfolding perform
  create m = perform (λ r. created m (returned r)) (hooks.create_workload m)

  fetch_tasks : Text → Act (List Task)
  unfolding perform attempt ◌>>=◌
  fetch_tasks name =
      given hooks.tasks_for (pure []) λ tasks_for.
        attempt (perform (λ r. asked name) (tasks_for name)) >>= λ r. pure (recover [] r)

  fetch_feedback : Text → Act Text
  unfolding perform
  fetch_feedback name =
      given hooks.feedback_for (pure [])
        λ feedback_for. perform (λ r. asked name) (feedback_for name)

  -- The task's branch where there is evidence that it was pushed, and nothing otherwise.
  fetch_branch : Text → ClaimedItem → Act Text
  unfolding perform ◌>>=◌
  fetch_branch name item = given hooks.branch_pushed_for (pure []) λ branch_pushed.
      perform (λ r. asked name) (branch_pushed name (branch_name item) item.repo) >>= λ pushed.
      pure (if pushed then branch_name item else [])

  unfoldable pub retry_coder : ClaimedItem → Text
  retry_coder item =
      coder_agent_for settings.routing item.lane (language_of item.repo settings.gate_profiles)
        item.repo item.issue_number no_rotation

  -- The manifest of the next attempt; an infrastructure failure counts on its own counter.
  unfoldable pub next_manifest :
      Workload → ClaimedItem → Bool → (coder_agent feedback revise_from : Text) → Workload
  next_manifest wl item is_infra coder_agent feedback revise_from =
      build_workload item settings.namespace (record {
        gate_profile = gate_profile_for item.repo settings.gate_profiles;
        attempt = if is_infra then attempt_of wl else attempt_of wl + 1;
        infra_attempt = if is_infra then infra_attempt_of wl + 1 else infra_attempt_of wl;
        coder_agent = coder_agent;
        feedback = feedback;
        revision_coder_agent = [];
        verify_enabled = settings.verify_enabled;
        self_go = settings.self_go;
        revise_from_branch = revise_from;
      })

  recreate : Text → Workload → Act (Unit {0})
  unfolding delete create ◌>>=◌
  recreate name m = delete hooks settings name >>= λ _. create m

  unfoldable pub retry_line : Workload → Bool → Line
  retry_line wl is_infra =
      if is_infra
      then retry_infra (name_of wl) (infra_attempt_of wl) settings.infra_max_attempts
      else retry (name_of wl) (attempt_of wl) settings.max_attempts

  unfoldable pub after_recreate : Progress → Workload → Bool → Text → Result (Unit {0}) → Progress
  unfolding retry_line
  after_recreate s wl is_infra coder (raise e) = append_line s (retry_error (name_of wl) e)
  after_recreate s wl is_infra coder (ok _) =
      append_line (record s { load = bump coder s.load }) (retry_line wl is_infra)

  -- A coder whose slots are all taken.
  unfoldable pub is_busy : Text → Dict ℕ → Bool
  is_busy coder load =
      not (is_empty settings.agent_slots) && is_full coder load settings.agent_slots

  unfoldable pub retry_workload : Progress → Workload → Bool → Act Progress
  unfolding fetch_feedback fetch_branch retry_coder recreate after_recreate identify attempt ◌>>=◌
      is_busy
  retry_workload s wl is_infra = do
    item ← identify hooks settings wl
    feedback ← fetch_feedback (name_of wl)
    revise_from ← fetch_branch (name_of wl) item
    if is_busy (retry_coder item) s.load
        then pure (append_line s (deferred (name_of wl) (retry_coder item)))
        else (do
          ended ← attempt (
              recreate (name_of wl)
                (next_manifest wl item is_infra (retry_coder item) feedback revise_from))
          pure (after_recreate s wl is_infra (retry_coder item) ended))

  -- `continue` with a line, or on to the rest of the loop's body.
  unless_settled : Progress → Act (Option Line) → Act Progress → Act Progress
  unfolding ◌>>=◌
  unless_settled s phase rest =
      phase >>= λ settled. given settled rest (λ line. pure (append_line s line))

  settle_or_retry : Progress → Workload → List Task → Bool → Act Progress
  unfolding unless_settled
  settle_or_retry s wl tasks is_infra = unless_settled s (skip_closed hooks settings wl) (
      unless_settled s (settle_declared hooks settings wl) (
        unless_settled s (settle_demoted hooks settings wl tasks is_infra) (
          unless_settled s (give_up_infra hooks settings wl is_infra) (
            unless_settled s (settle_repeated_nogo hooks settings wl tasks is_infra) (
              unless_settled s (settle_exhausted hooks settings wl is_infra)
                (retry_workload s wl is_infra))))))

  -- The body of the loop.
  unfoldable pub reconcile_one : Progress → Workload → Act Progress
  unfolding fetch_tasks settle_or_retry
  reconcile_one s wl = do
    tasks ← fetch_tasks (name_of wl)
    settle_or_retry s wl tasks
        (task_failed_with_executor_error wl || tasks_failed_with_executor_error tasks)

  unfoldable pub reconcile_failures : Dict ℕ → Act Progress
  unfolding reconcile_one perform ◌>>=◌
  reconcile_failures load = do
    failed ← perform (λ r. asked []) hooks.list_failed
    for_each reconcile_one (record { results = []; load = load }) failed
