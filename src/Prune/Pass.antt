-- ===== src/Prune/Pass.antt =====
-- bridge/prune.py: `prune_workloads`. A Workload is found by its name, as the code does.
use foreman_dispatch_bridge.Base.{
  ℕ, Bool, true, false, ◌&&◌, ◌||◌, not, Option, none, some, List, [], ◌∷◌, ◌++◌, leb,
  if◌then◌else◌, given, length,
}
use foreman_dispatch_bridge.Base.Text.{Text, codes, ◌==◌}
use foreman_dispatch_bridge.Base.Dict.{Dict, lookup, insert}
use foreman_dispatch_bridge.Base.Effects.{
  Result, ok, raise, returned, M, pure, ◌>>=◌, ◌>>◌, perform, attempt, for_each,
}
use foreman_dispatch_bridge.Models.{Workload}
use foreman_dispatch_bridge.Retry.Parking.{succeeded}
use foreman_dispatch_bridge.Prune.{
  Moment, Stamped, failed_phase, prunable_workloads, is_issue_workload, has_identity,
}
pub mod Due
pub mod Reasons
pub mod Whole

-- A call and how it ended: whether it returned, or for the question what it answered.
pub data PruneCall : Type 0 where
  listed : PruneCall
  deleted : Text → Bool → PruneCall
  asked_parked : Workload → (parked : Bool) → PruneCall
  reset : Workload → Bool → PruneCall

abbrev pub PruneLog : Type 0
PruneLog = List PruneCall

abbrev pub Prune : Type 0 → Type 0
Prune = M {0} PruneCall

pub record PruneHooks : Type 0 where
  pub list_workloads : PruneLog → Result (List Stamped)
  pub delete_workload : Text → PruneLog → Result (Unit {0})
  pub reset_issue : Option (Workload → PruneLog → Result (Unit {0}))
  pub is_parked_for_human : Option (Workload → PruneLog → Result Bool)

pub record PruneSettings : Type 0 where
  pub now : ℕ
  pub completed_ttl_seconds : ℕ
  pub failed_ttl_seconds : ℕ

pub data PruneLine : Type 0 where
  pruned : (name : Text) → PruneLine
  delete_failed : (name error : Text) → PruneLine
  parked_check_failed : (name error : Text) → PruneLine
  reset_skipped_parked : (name : Text) → PruneLine
  reset_skipped : (name : Text) → PruneLine
  was_reset : (name : Text) → PruneLine
  reset_failed : (name error : Text) → PruneLine

unfoldable pub render_prune : PruneLine → Text
render_prune (pruned name) = codes "prune:deleted:" ++ name
render_prune (delete_failed name e) = codes "prune:delete-failed:" ++ (name ++ (codes ":" ++ e))
render_prune (parked_check_failed name e) =
    codes "prune:parked-check-failed:" ++ (name ++ (codes ":" ++ e))
render_prune (reset_skipped_parked name) = codes "prune:reset-issue-skipped-parked:" ++ name
render_prune (reset_skipped name) = codes "prune:reset-issue-skipped:" ++ name
render_prune (was_reset name) = codes "prune:reset-issue:" ++ name
render_prune (reset_failed name e) = codes "prune:reset-issue-failed:" ++ (name ++ (codes ":" ++ e))

-- `{name: wl for wl in workloads}`: a later Workload replaces one with its name.
unfoldable pub by_name : Dict Workload → List Stamped → Dict Workload
by_name index [] = index
by_name index (s ∷ ss) = by_name (insert s.workload.name s.workload index) ss

module _ (hooks : PruneHooks) where
  abbrev deletion_line : Text → Result (Unit {0}) → PruneLine
  deletion_line name (ok u) = pruned name
  deletion_line name (raise e) = delete_failed name e

  -- The deletion, with its line.
  unfoldable pub delete_named : Text → Prune PruneLine
  unfolding perform attempt ◌>>=◌
  delete_named name =
      attempt (perform (λ r. deleted name (returned r)) (hooks.delete_workload name)) >>= λ r.
      pure (deletion_line name r)

  abbrev check_line : Text → Result Bool → List PruneLine
  check_line name (ok b) = []
  check_line name (raise e) = parked_check_failed name e ∷ []

  -- Whether the issue is parked, with the line of a question that raised: then it is not.
  unfoldable pub ask_parked_for_human : Text → Workload → Prune (List PruneLine × Bool)
  unfolding perform attempt ◌>>=◌
  ask_parked_for_human name wl = given hooks.is_parked_for_human (pure ([], false)) λ is_parked.
      attempt (perform (λ r. asked_parked wl (succeeded r)) (is_parked wl)) >>= λ r.
      pure (check_line name r, succeeded r)

  abbrev reset_line : Text → Result (Unit {0}) → PruneLine
  reset_line name (ok u) = was_reset name
  reset_line name (raise e) = reset_failed name e

  -- The end of a Failed Workload's turn, where its issue is not parked.
  unfoldable pub reset_issue_of : Text → Workload → Prune (List PruneLine)
  unfolding perform attempt ◌>>=◌
  reset_issue_of name wl = given hooks.reset_issue (pure []) λ reset_issue.
      if is_issue_workload wl && has_identity wl
      then (attempt (perform (λ r. reset wl (returned r)) (reset_issue wl)) >>= λ r.
          pure (reset_line name r ∷ []))
      else pure (reset_skipped name ∷ [])

  -- What follows the deletion of a Failed Workload.
  unfoldable pub settle_failed : Text → Workload → Prune (List PruneLine)
  unfolding ask_parked_for_human reset_issue_of ◌>>=◌
  settle_failed name wl = ask_parked_for_human name wl >>= λ asked.
      if asked.1
      then pure (asked.0 ++ reset_skipped_parked name ∷ [])
      else (reset_issue_of name wl >>= λ lines. pure (asked.0 ++ lines))

  -- `wl_by_name.get(name) or {}`; the names are those of listed Workloads.
  abbrev settle_named : Text → Option Workload → Prune (List PruneLine)
  settle_named name none = pure []
  settle_named name (some wl) = settle_failed name wl

  -- The body of the loop.
  unfoldable pub prune_one : Dict Workload → Text × Text → Prune (List PruneLine)
  unfolding delete_named settle_failed failed_phase ◌>>=◌
  prune_one index (name, phase) = delete_named name >>= λ line.
      if phase == failed_phase
      then (settle_named name (lookup name index) >>= λ lines. pure (line ∷ lines))
      else pure (line ∷ [])

  abbrev prune_next : Dict Workload → List PruneLine → Text × Text → Prune (List PruneLine)
  prune_next index lines due = prune_one index due >>= λ more. pure (lines ++ more)

  module _ (fromisoformat : Text → Option Moment) (settings : PruneSettings) where
    -- The loop over the Workloads that are due; `none` is the TypeError.
    unfoldable pub prune_listed : List Stamped → Prune (List PruneLine)
    unfolding prune_one prunable_workloads by_name for_each ◌>>=◌
    prune_listed workloads =
        given
          (prunable_workloads fromisoformat settings.completed_ttl_seconds
            settings.failed_ttl_seconds settings.now workloads)
          (λ log. (raise [], log)) (for_each (prune_next (by_name [] workloads)) [])

    -- `prune_workloads`, run to its end, with the lines that it yields.
    unfoldable pub prune_workloads : Prune (List PruneLine)
    unfolding prune_listed perform ◌>>=◌
    prune_workloads =
        if leb settings.completed_ttl_seconds 0 && leb settings.failed_ttl_seconds 0
        then pure []
        else (perform (λ r. listed) hooks.list_workloads >>= prune_listed)
