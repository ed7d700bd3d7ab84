-- ===== src/Retry/Giveup.antt =====
-- bridge/retry.py: the branches of `reconcile_failures` for a Workload whose budget is spent, and for a
-- coder that said no twice.
use foreman_dispatch_bridge.Base.{
  given, ℕ, ◌≤◌, Bool, true, false, ◌&&◌, ◌||◌, not, Option, none, some, List, [], ◌∷◌, ◌++◌, leb,
  if◌then◌else◌, is_some,
}
use foreman_dispatch_bridge.Base.Text
use foreman_dispatch_bridge.Base.Text.{Text, codes, ◌==◌}
use foreman_dispatch_bridge.Base.Decimal.{show_nat}
use foreman_dispatch_bridge.Base.Effects.{
  Result, ok, raise, returned, recover, M, pure, ◌>>=◌, ◌>>◌, perform, attempt,
}
use foreman_dispatch_bridge.Models.{ClaimedItem, Workload, Task}
use foreman_dispatch_bridge.Retry.Manifest.{attempt_of, infra_attempt_of}
use foreman_dispatch_bridge.Retry.Signals.{coder_said_no}
use foreman_dispatch_bridge.Retry.Hooks.{
  asked, parked_infra, escalated, Hooks, Settings, Line, giveup_infra, repeated_nogo,
  repeated_nogo_park_failed, escalate_error, escalated_to, giveup,
}
use foreman_dispatch_bridge.Retry.Parking.{
  Act, succeeded, name_of, delete, try_delete, identify, current_item, park_exhausted,
}
pub mod Frame
pub mod Isolation

unfoldable pub exhausted_attempts : Text
exhausted_attempts = codes "exhausted-attempts"

abbrev or_unknown : Text → Text
or_unknown [] = codes "unknown"
or_unknown (c ∷ s) = c ∷ s

module _ (hooks : Hooks) (settings : Settings) where
  find_model : Workload → Act Text
  unfolding perform attempt
  find_model wl = given hooks.failed_model_for (pure (codes "unknown")) λ failed_model.
      attempt (perform (λ r. asked (name_of wl)) (failed_model (name_of wl))) >>= λ r.
      pure (or_unknown (recover (codes "unknown") r))

  park_dead_backend : Workload → Text → Act Bool
  unfolding perform attempt current_item
  park_dead_backend wl model =
      given hooks.park_infra
        (park_exhausted hooks settings wl
          (codes "infra failure after "
            ++ (show_nat (attempt_of wl)
                ++ codes
                    " attempts (e.g. model 403 or network error that never reached the agent)"))
          (codes "exhausted-infra"))
        λ park.
          attempt (
            perform (λ r. parked_infra (current_item hooks settings wl) (succeeded r))
              (park (current_item hooks settings wl) model (attempt_of wl)))
          >>= λ r. pure (succeeded r)

  -- A tombstone is retired only after its issue was parked.
  retire_if : Bool → Text → Line → Act (Option Line)
  unfolding try_delete
  retire_if done name line =
      if done then (try_delete hooks settings name >>= λ _. pure (some line)) else pure (some line)

  unfoldable pub give_up_infra : Workload → Bool → Act (Option Line)
  unfolding find_model park_dead_backend retire_if ◌>>=◌
  give_up_infra wl is_infra =
      if is_infra && leb settings.infra_max_attempts (infra_attempt_of wl)
      then (do
        model ← find_model wl
        done ← park_dead_backend wl model
        retire_if done (name_of wl)
            (giveup_infra (name_of wl) (infra_attempt_of wl) settings.infra_max_attempts))
      else pure none

  -- The tombstone is retired whether or not the park succeeded.
  unfoldable pub settle_repeated_nogo : Workload → List Task → Bool → Act (Option Line)
  unfolding try_delete ◌>>=◌
  settle_repeated_nogo wl tasks is_infra =
      if not is_infra && (leb 2 (attempt_of wl) && coder_said_no tasks)
      then (do
        done ←
            park_exhausted hooks settings wl
              (codes
                "coder returned NO-GO on two attempts; re-running re-derives the same judgement, so this needs a person rather than more attempts")
              (codes "repeated-nogo")
        try_delete hooks settings (name_of wl)
        pure (
            some (
              if done then repeated_nogo (name_of wl) else repeated_nogo_park_failed (name_of wl))))
      else pure none

  can_escalate : ClaimedItem → Bool
  can_escalate item =
      is_some hooks.escalate
      && (not (Text.is_empty settings.escalation_lane)
          && (not (item.lane == settings.escalation_lane) && not (Text.is_empty item.issue_id)))

  call_escalate : ClaimedItem → Act Bool
  unfolding perform can_escalate
  call_escalate item = given hooks.escalate (pure false) λ escalate.
      if can_escalate item
      then perform (λ r. escalated item (succeeded r)) (escalate item)
      else pure false

  -- The body of the `try`: the deletion that raises counts as a failed escalation.
  escalate_and_delete : ClaimedItem → Text → Act Bool
  unfolding call_escalate delete ◌>>=◌
  escalate_and_delete item name = do
    moved ← call_escalate item
    if moved then (delete hooks settings name >>= λ _. pure true) else pure false

  park_spent : Workload → Act (Option Line)
  unfolding retire_if ◌>>=◌
  park_spent wl = do
    done ←
        park_exhausted hooks settings wl
          (codes "exhausted "
            ++ (show_nat (attempt_of wl) ++ codes " attempts with no escalation lane available"))
          exhausted_attempts
    retire_if done (name_of wl) (giveup (name_of wl) (attempt_of wl) settings.max_attempts)

  after_escalation : Workload → ClaimedItem → Result Bool → Act (Option Line)
  unfolding park_spent
  after_escalation wl item (raise e) = pure (some (escalate_error (name_of wl) e))
  after_escalation wl item (ok true) =
      pure (some (escalated_to (name_of wl) item.lane settings.escalation_lane))
  after_escalation wl item (ok false) = park_spent wl

  unfoldable pub settle_exhausted : Workload → Bool → Act (Option Line)
  unfolding escalate_and_delete after_escalation identify attempt ◌>>=◌
  settle_exhausted wl is_infra =
      if leb settings.max_attempts (attempt_of wl) && not is_infra
      then (do
        item ← identify hooks settings wl
        ended ← attempt (escalate_and_delete item (name_of wl))
        after_escalation wl item ended)
      else pure none
