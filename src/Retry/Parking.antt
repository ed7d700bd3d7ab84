-- ===== src/Retry/Parking.antt =====
-- bridge/retry.py: the branches of `reconcile_failures` that end a Workload's turn before the retry.
-- Each returns the line to append, or `none` where the code falls through.
use foreman_dispatch_bridge.Base.{
  given, ℕ, ◌≤◌, Bool, true, false, ◌&&◌, ◌||◌, not, Option, none, some, List, [], ◌∷◌, ◌++◌, leb,
  if◌then◌else◌, is_empty,
}
use foreman_dispatch_bridge.Base.Text
use foreman_dispatch_bridge.Base.Text.{Text, codes, ◌==◌, mem_text}
use foreman_dispatch_bridge.Base.Decimal.{show_nat}
use foreman_dispatch_bridge.Base.Effects.{
  Result, ok, raise, returned, recover, M, pure, ◌>>=◌, ◌>>◌, perform, attempt,
}
use foreman_dispatch_bridge.Models.{ClaimedItem, Workload, Task}
use foreman_dispatch_bridge.Retry.Manifest.{item_from_workload, refresh_lane}
use foreman_dispatch_bridge.Retry.Signals.{coder_said_no, rail_demoted_reason, parking_escalations}
use foreman_dispatch_bridge.Retry.Hooks.{
  Call, asked, deleted, created, parked, labelled, parked_infra, escalated, Log, Hooks, Settings,
  Line, issue_closed, human_escalation, rail_demoted, giveup_infra, repeated_nogo,
  repeated_nogo_park_failed, escalate_error, escalated_to, giveup,
}
pub mod Frame
pub mod Isolation
pub mod ClosedIssue

abbrev pub Act : Type 0 → Type 0
Act = M {0} Call

-- Whether a callable that reports success returned true.
abbrev pub succeeded : Result Bool → Bool
succeeded (ok b) = b
succeeded (raise e) = false

abbrev name_or_mark : Text → Text
name_or_mark [] = codes "?"
name_or_mark (c ∷ s) = c ∷ s

-- The name in the lines, with which the callables are called.
abbrev pub name_of : Workload → Text
name_of wl = name_or_mark wl.name

abbrev is_closed : Option Text → Bool
is_closed none = false
is_closed (some state) = state == codes "closed"

abbrev is_true : Option Bool → Bool
is_true (some b) = b
is_true none = false

module _ (hooks : Hooks) (settings : Settings) where
  unfoldable pub delete : Text → Act (Unit {0})
  delete name = perform (λ r. deleted name (returned r)) (hooks.delete_workload name)

  -- `try: delete_workload(name)`, with the exception logged and dropped.
  unfoldable pub try_delete : Text → Act (Unit {0})
  unfolding delete ◌>>=◌ attempt perform
  try_delete name = do attempt (delete name); pure tt

  unfoldable pub find_id : ClaimedItem → Act ClaimedItem
  unfolding ◌>>=◌ perform
  find_id item =
      if Text.is_empty item.issue_id
      then given hooks.lookup_issue_id (pure item) (λ lookup.
        perform (λ r. asked item.repo) (lookup item) >>= λ found.
        pure (record item { issue_id = found }))
      else pure item

  unfoldable pub current_item : Workload → ClaimedItem
  current_item wl = refresh_lane (item_from_workload wl) settings.current_lane_for

  -- The item with dispatch's current lane and a recovered issue id.
  unfoldable pub identify : Workload → Act ClaimedItem
  unfolding find_id current_item
  identify wl = find_id (current_item wl)

  ask_parked : ClaimedItem → Act Bool
  unfolding ◌>>=◌ perform
  ask_parked item =
      given hooks.needs_human_for (pure false)
        λ needs_human. perform (λ r. asked item.repo) (needs_human item) >>= λ p. pure (is_true p)

  -- With the exception read as "not parked".
  already_parked : ClaimedItem → Act Bool
  unfolding ask_parked attempt
  already_parked item = attempt (ask_parked item) >>= λ r. pure (succeeded r)

  call_park : ClaimedItem → (reason path : Text) → Act Bool
  unfolding perform
  call_park item reason path =
      given hooks.park_for_human (pure false)
        λ park. perform (λ r. parked item path (succeeded r)) (park item reason path)

  try_park : ClaimedItem → (reason path : Text) → Act Bool
  unfolding call_park attempt
  try_park item reason path = attempt (call_park item reason path) >>= λ r. pure (succeeded r)

  repair_label : ClaimedItem → Act (Unit {0})
  unfolding perform attempt
  repair_label item =
      given hooks.ensure_human_label (pure tt) λ ensure.
        attempt (perform (λ r. labelled item (succeeded r)) (ensure item)) >>= λ r. pure tt

  -- The body of the `try` of `_park_exhausted`.
  park_unless_parked : Workload → (reason path : Text) → Act Bool
  unfolding identify ask_parked call_park
  park_unless_parked wl reason path = do
    item ← identify wl
    done ← ask_parked item
    if done then pure true else call_park item reason path

  -- `_park_exhausted`: any exception reads as a failed park.
  unfoldable pub park_exhausted : Workload → (reason path : Text) → Act Bool
  unfolding park_unless_parked attempt
  park_exhausted wl reason path =
      given hooks.park_for_human (pure false)
        λ park. attempt (park_unless_parked wl reason path) >>= λ r. pure (succeeded r)

  ask_state : Workload → Act (Option Text)
  unfolding perform attempt
  ask_state wl = given hooks.issue_state_for (pure none) λ state.
      attempt (perform (λ r. asked (name_of wl)) (state (item_from_workload wl))) >>= λ r.
      pure (recover none r)

  -- Only an explicit "closed" skips.
  unfoldable pub skip_closed : Workload → Act (Option Line)
  unfolding ask_state
  skip_closed wl = do
    state ← ask_state wl
    pure (if is_closed state then some (issue_closed (name_of wl)) else none)

  -- What both human-facing branches do with an item and a line: repair the label of a parked issue,
  -- or park it, and fall through if that fails.
  settle_parked : ClaimedItem → (reason path : Text) → Line → Act (Option Line)
  unfolding already_parked try_park repair_label
  settle_parked item reason path line = do
    done ← already_parked item
    if done
        then (repair_label item >>= λ _. pure (some line))
        else (try_park item reason path >>= λ ended. pure (if ended then some line else none))

  ask_declared : Workload → Act (Option Text)
  unfolding perform attempt
  ask_declared wl = given hooks.declared_escalation_for (pure none) λ declared.
      attempt (perform (λ r. asked (name_of wl)) (declared (name_of wl))) >>= λ r.
      pure (recover none r)

  -- A declaration that asks for a person; others fall through to the retry.
  unfoldable pub settle_declared : Workload → Act (Option Line)
  unfolding ask_declared settle_parked identify
  settle_declared wl = do
    declared ← ask_declared wl
    given declared (pure none) λ reason.
        if mem_text reason parking_escalations
        then (identify wl >>= λ item.
            settle_parked item reason (codes "declared-human")
              (human_escalation (name_of wl) reason))
        else pure none

  -- A review that a rail demoted.
  unfoldable pub settle_demoted : Workload → List Task → Bool → Act (Option Line)
  unfolding settle_parked identify
  settle_demoted wl tasks is_infra =
      if is_infra
      then pure none
      else given (rail_demoted_reason tasks) (pure none) λ demotion. identify wl >>= λ item.
          settle_parked item
            (codes "review approved; demoted by the "
              ++ (demotion.0 ++ (codes " rail, not re-runnable: " ++ demotion.1)))
            (codes "rail-demoted") (rail_demoted (name_of wl))
