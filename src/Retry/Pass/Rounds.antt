-- ===== src/Retry/Pass/Rounds.antt =====
-- One round of the loop of `reconcile_failures`, and the loop, for a property of the variables and the
-- log: it is enough to look at the lines appended, at a failed deletion, and at the creation.
use foreman_dispatch_bridge.Base.{
  ℕ, ◌≡◌, refl, Bool, true, false, not, ◌&&◌, ◌||◌, Option, none, some, List, [], ◌∷◌, given, leb,
  Bool-cases, inl, inr,
}
use foreman_dispatch_bridge.Base.Text.{Text}
use foreman_dispatch_bridge.Base.Dict.{Dict}
use foreman_dispatch_bridge.Base.Effects.{
  Result, ok, raise, returned, pure, ◌>>=◌, perform, attempt, for_each, continue,
}
use foreman_dispatch_bridge.Base.Effects.Rules.{
  Outcome, Outcome-map, Outcome-both, Outcome-any, bind_lem, for_each_lem, Keeps, Keeps-Outcome,
  keeps_rules,
}
use foreman_dispatch_bridge.Models.{ClaimedItem, Workload, Task}
use foreman_dispatch_bridge.Retry.Manifest.{attempt_of, infra_attempt_of}
use foreman_dispatch_bridge.Retry.Signals.{
  task_failed_with_executor_error, tasks_failed_with_executor_error,
}
use foreman_dispatch_bridge.Retry.Hooks.{Log, Hooks, Settings, Line, asked, deleted, created}
use foreman_dispatch_bridge.Retry.Parking.{Act, name_of, delete, identify}
use foreman_dispatch_bridge.Retry.Parking.Frame.{
  Neutral, asked_keeps, identify-Keeps, skip_closed-Keeps, settle_declared-Keeps,
  settle_demoted-Keeps,
}
use foreman_dispatch_bridge.Retry.Giveup.Frame.{
  Through, Settles, give_up_infra-Keeps, settle_repeated_nogo-Keeps, settle_exhausted-Keeps,
  give_up_infra-none, settle_exhausted-none,
}
use foreman_dispatch_bridge.Retry.Pass.{
  Progress, append_line, create, fetch_tasks, fetch_feedback, fetch_branch, retry_coder,
  next_manifest, recreate, after_recreate, is_busy, retry_workload, unless_settled, settle_or_retry,
  reconcile_one, reconcile_failures,
}

-- The budget of the counter that the next attempt uses is not spent.
abbrev pub Budget : Settings → Workload → Bool → Type 0
Budget settings wl is_infra =
    ((is_infra && leb settings.infra_max_attempts (infra_attempt_of wl)) ≡ false)
    × ((leb settings.max_attempts (attempt_of wl) && not is_infra) ≡ false)

-- A test that always fails asks nothing of a phase.
Through_false : (phase : Act (Option Line)) → Settles false phase
Through_false phase log =
    Outcome-map (λ a l. Unit) (λ o l. Through false o) (λ l. Unit) (λ l. Unit) (phase log) either
      (λ l h. h) (Outcome-any (phase log))
  where
    either : (o : Option Line) (l : Log) → Unit {0} → Through false o
    either none l h = refl
    either (some line) l h = tt

module _ (hooks : Hooks) (settings : Settings) (P : Log → Type 0) (neutral : Neutral P) where
  fetch_tasks-Keeps : (name : Text) → Keeps P (fetch_tasks hooks settings name)
  unfolding fetch_tasks
  fetch_tasks-Keeps name = search (keeps_rules, asked_keeps P neutral) depth 8

  fetch_feedback-Keeps : (name : Text) → Keeps P (fetch_feedback hooks settings name)
  unfolding fetch_feedback
  fetch_feedback-Keeps name = search (keeps_rules, asked_keeps P neutral) depth 8

  fetch_branch-Keeps :
      (name : Text) (item : ClaimedItem) → Keeps P (fetch_branch hooks settings name item)
  unfolding fetch_branch
  fetch_branch-Keeps name item = search (keeps_rules, asked_keeps P neutral) depth 8

  module _ (K : Progress → Log → Type 0) (s : Progress) (wl : Workload)
      (by_line : (line : Line) (log : Log) → P log → K (append_line s line) log) where
    module _
        (by_creation : (is_infra : Bool) (item : ClaimedItem) (feedback revise_from : Text)
            (r : Result (Unit {0})) (log : Log)
          → Budget settings wl is_infra
          → is_busy hooks settings (retry_coder hooks settings item) s.load ≡ false
          → P log
          → K (after_recreate hooks settings s wl is_infra (retry_coder hooks settings item) r) (
              created
                (next_manifest hooks settings wl item is_infra
                  (retry_coder hooks settings item)
                  feedback
                  revise_from)
                (returned r)
              ∷ deleted (name_of wl) true
              ∷ log)) where
      after_deletion :
          (is_infra : Bool) (item : ClaimedItem) (feedback revise_from : Text)
          (d : Result (Unit {0})) (log : Log)
          → Budget settings wl is_infra
          → is_busy hooks settings (retry_coder hooks settings item) s.load ≡ false
          → P log
          → let ended =
              continue d
                (λ _. create hooks settings (
                  next_manifest hooks settings wl item is_infra
                    (retry_coder hooks settings item)
                    feedback
                    revise_from))
                (deleted (name_of wl) (returned d) ∷ log) in
            K
              (after_recreate hooks settings s wl is_infra
                (retry_coder hooks settings item)
                ended.0)
              ended.1
      unfolding create perform after_recreate
      after_deletion is_infra item feedback revise_from (raise e) log b h p =
          by_line _ _ (neutral _ log tt p)
      after_deletion is_infra item feedback revise_from (ok u) log b h p =
          by_creation is_infra item feedback revise_from _ log b h p

      recreate-Outcome :
          (is_infra : Bool) (item : ClaimedItem) (feedback revise_from : Text) (log : Log)
          → Budget settings wl is_infra
          → is_busy hooks settings (retry_coder hooks settings item) s.load ≡ false
          → P log
          → Outcome K P (
              (attempt (
                    recreate hooks settings (name_of wl) (
                      next_manifest hooks settings wl item is_infra
                        (retry_coder hooks settings item)
                        feedback
                        revise_from))
                  >>= λ ended. pure (
                      after_recreate hooks settings s wl is_infra
                        (retry_coder hooks settings item)
                        ended))
                log)
      unfolding recreate delete attempt perform ◌>>=◌
      recreate-Outcome is_infra item feedback revise_from log b h p =
          after_deletion is_infra item feedback revise_from (hooks.delete_workload (name_of wl) log)
            log b h p

      retry-Outcome :
          (is_infra : Bool) (log : Log)
          → Budget settings wl is_infra
          → P log
          → Outcome K P (retry_workload hooks settings s wl is_infra log)
      unfolding retry_workload
      retry-Outcome is_infra log b p =
          bind_lem P (λ _. P) K (identify hooks settings wl) _ log
            (Keeps-Outcome P (identify hooks settings wl) log
              (identify-Keeps hooks settings P neutral wl) p)
            λ item l1 p1.
              bind_lem P (λ _. P) K (fetch_feedback hooks settings (name_of wl)) _ l1
                (Keeps-Outcome P (fetch_feedback hooks settings (name_of wl)) l1
                  (fetch_feedback-Keeps (name_of wl)) p1)
                λ feedback l2 p2.
                  bind_lem P (λ _. P) K (fetch_branch hooks settings (name_of wl) item) _ l2
                    (Keeps-Outcome P (fetch_branch hooks settings (name_of wl) item) l2
                      (fetch_branch-Keeps (name_of wl) item) p2)
                    λ revise_from l3 p3.
                      elim (Bool-cases
                        (is_busy hooks settings (retry_coder hooks settings item) s.load)) [
                          | inl e ↦ rw e (by_line _ _ p3)
                          | inr e ↦
                              rw e (recreate-Outcome is_infra item feedback revise_from l3 b e p3)
                        ]

      phase-Outcome :
          (phase : Act (Option Line)) (rest : Act Progress) (c : Bool)
          → Keeps P phase
          → Settles c phase
          → (c ≡ false → (log : Log) → P log → Outcome K P (rest log))
          → (log : Log) → P log
          → Outcome K P (unless_settled hooks settings s phase rest log)
      unfolding unless_settled given
      phase-Outcome phase rest c kept settles k log p =
          bind_lem P (λ o l. Through c o × P l) K phase
            (λ o. given o rest (λ line. pure (append_line s line))) log
            (Outcome-map _ _ _ _ (phase log) (λ o l h. h) (λ l h. h.1)
              (Outcome-both _ _ _ _ (phase log) (settles log) (Keeps-Outcome P phase log kept p)))
            turn
        where
          turn :
              (o : Option Line) (l : Log)
              → Through c o × P l
              → Outcome K P (given o rest (λ line. pure (append_line s line)) l)
          turn none l h = k h.0 l h.1
          turn (some line) l h = by_line line l h.1

      settle_or_retry-Outcome :
          (tasks : List Task) (is_infra : Bool) (log : Log)
          → P log
          → Outcome K P (settle_or_retry hooks settings s wl tasks is_infra log)
      unfolding settle_or_retry
      settle_or_retry-Outcome tasks is_infra =
          free _ _ (skip_closed-Keeps hooks settings P neutral wl) (
            free _ _ (settle_declared-Keeps hooks settings P neutral wl) (
              free _ _ (settle_demoted-Keeps hooks settings P neutral wl tasks is_infra) (
                phase-Outcome _ _ _ (give_up_infra-Keeps hooks settings P neutral wl is_infra)
                  (give_up_infra-none hooks settings wl is_infra)
                  λ infra_left.
                    free _ _ (settle_repeated_nogo-Keeps hooks settings P neutral wl tasks is_infra)
                      (phase-Outcome _ _ _
                        (settle_exhausted-Keeps hooks settings P neutral wl is_infra)
                        (settle_exhausted-none hooks settings wl is_infra)
                        λ left log p. retry-Outcome is_infra log (infra_left, left) p))))
        where
          free :
              (phase : Act (Option Line)) (rest : Act Progress)
              → Keeps P phase
              → ((log : Log) → P log → Outcome K P (rest log))
              → (log : Log) → P log
              → Outcome K P (unless_settled hooks settings s phase rest log)
          free phase rest kept k =
              phase-Outcome phase rest false kept (λ log. Through_false phase log) λ _. k

      pub reconcile_one-Outcome :
          (log : Log) → P log → Outcome K P (reconcile_one hooks settings s wl log)
      unfolding reconcile_one
      reconcile_one-Outcome log p =
          bind_lem P (λ _. P) K (fetch_tasks hooks settings (name_of wl)) _ log
            (Keeps-Outcome P (fetch_tasks hooks settings (name_of wl)) log
              (fetch_tasks-Keeps (name_of wl)) p)
            λ tasks l h.
              settle_or_retry-Outcome tasks
                (task_failed_with_executor_error wl || tasks_failed_with_executor_error tasks) l h

-- The loop: what each round takes from the Workloads to go to the rest of them.
pub pass-Outcome :
    (hooks : Hooks) (settings : Settings) (I : List Workload → Progress → Log → Type 0)
    (E : Log → Type 0) (load : Dict ℕ)
    → ((s : Progress) (wl : Workload) (rest : List Workload) (log : Log)
        → I (wl ∷ rest) s log
        → Outcome (I rest) E (reconcile_one hooks settings s wl log))
    → ((failed : List Workload)
        → hooks.list_failed [] ≡ ok failed
        → I failed (record { results = []; load = load }) (asked [] ∷ []))
    → E (asked [] ∷ [])
    → Outcome (I []) E (reconcile_failures hooks settings load [])
unfolding reconcile_failures ◌>>=◌ perform
pass-Outcome hooks settings I E load round start failing = from (hooks.list_failed []) refl
  where
    from :
        (listed : Result (List Workload))
        → hooks.list_failed [] ≡ listed
        → Outcome (I []) E (
            continue listed
              (λ failed.
                for_each
                  (reconcile_one hooks settings)
                  (record { results = []; load = load })
                  failed)
              (asked [] ∷ []))
    from (ok failed) e =
        for_each_lem E I (reconcile_one hooks settings) round (record { results = []; load = load })
          failed (asked [] ∷ []) (start failed e)
    from (raise e) _ = failing
