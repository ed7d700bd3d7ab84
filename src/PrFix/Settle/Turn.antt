-- ===== src/PrFix/Settle/Turn.antt =====
-- bridge/prfix.py: `reconcile_pr_fixes`, the end of a spent tier, and the loop.
use foreman_dispatch_bridge.Base.{
  ℕ, Bool, true, false, ◌&&◌, ◌||◌, not, Option, none, some, List, [], ◌∷◌, ◌++◌, if◌then◌else◌,
  given, or_default,
}
use foreman_dispatch_bridge.Base.Text
use foreman_dispatch_bridge.Base.Text.{Text, codes, ◌==◌, mem_text}
use foreman_dispatch_bridge.Base.Int.{ℤ, pos}
use foreman_dispatch_bridge.Base.Dict.{Dict, lookup}
use foreman_dispatch_bridge.Base.Json.{integer}
use foreman_dispatch_bridge.Base.Effects.{
  Result, ok, raise, pure, ◌>>=◌, perform, attempt, for_each,
}
use foreman_dispatch_bridge.Models.{Workload}
use foreman_dispatch_bridge.Workload.Build.{lane_label}
use foreman_dispatch_bridge.Workload.Capacity.{bump}
use foreman_dispatch_bridge.PrFix.Item.{show_integer, pr_fix_coder_for}
use foreman_dispatch_bridge.PrFix.Manifest.{
  prfix_key, next_prfix_lane, prfix_current_coder, escalate_prfix_manifest,
}
use foreman_dispatch_bridge.PrFix.Calls.{
  asked, FixHooks, FixSettings, FixLine, changes_requested, blocked, checks_pending,
  escalate_deferred, escalated, gave_up, failed,
}
use foreman_dispatch_bridge.PrFix.Settle.{
  FixAct, Settled, told, keyed, fix_attempt, fix_name, is_terminal, has_budget, lift, delete, mark,
  probe, offer_update, settle_over, settle_fixed, lacks_slot, replace_with, checks_failed,
  retry_fix,
}
pub mod Tells
pub mod Reports
pub mod Guarded

abbrev or_normal : Text → Text
or_normal [] = codes "NORMAL"
or_normal (c ∷ s) = c ∷ s

-- A coder of a higher tier that is not the one at work.
abbrev is_other : Text → Option Text → Bool
is_other [] current = false
is_other (c ∷ coder) none = true
is_other (c ∷ coder) (some current) = not ((c ∷ coder) == current)

abbrev lane_of : Workload → Text
lane_of wl = or_default (lookup lane_label wl.labels) []

module _ (hooks : FixHooks) (settings : FixSettings) where
  escalate_fix : Settled → Workload → Text → Text → FixAct Settled
  unfolding replace_with lacks_slot ◌>>=◌
  escalate_fix s wl lane coder =
      if lacks_slot hooks settings coder s.load
      then pure (told s (escalate_deferred (fix_name wl) coder))
      else (replace_with hooks settings (fix_name wl) (escalate_prfix_manifest wl lane coder [])
          >>= λ _. pure (
              told (record s { load = bump coder s.load })
                (escalated (fix_name wl) (or_normal (lane_of wl)) lane)))

  giveup_note : Workload → Text → ℤ → Text
  giveup_note wl status n =
      let ratio =
        show_integer (integer n)
        ++ (codes "/" ++ show_integer (integer (pos settings.max_attempts))) in
      if checks_failed hooks settings status
      then codes "foreman fix Workload "
        ++ (fix_name wl
            ++ (codes " succeeded but PR still has a failing check after "
                ++ (ratio ++ codes " attempts")))
      else codes "foreman fix exhausted "
        ++ (ratio
            ++ (codes " attempts on "
                ++ (or_normal (lane_of wl)
                    ++ (codes " (all coder tiers exhausted) (" ++ (fix_name wl ++ codes ")")))))

  block_fix : Settled → Workload → Text → Option (Text × ℤ) → ℤ → FixAct Settled
  unfolding mark giveup_note ◌>>=◌
  block_fix s wl status key n =
      given key (pure false)
        (λ k. mark hooks settings k (codes "BLOCKED") (giveup_note wl status n))
      >>= λ _. pure (
          told s
            (gave_up (fix_name wl) (checks_failed hooks settings status) n settings.max_attempts))

  -- A tier exhausted at the attempt cap.
  settle_spent : Settled → Workload → Text → Option (Text × ℤ) → ℤ → FixAct Settled
  unfolding escalate_fix block_fix
  settle_spent s wl status key n =
      given (next_prfix_lane (lane_of wl)) (block_fix s wl status key n) λ lane.
        if is_other (pr_fix_coder_for lane settings.lane_agents) (prfix_current_coder wl)
        then escalate_fix s wl lane (pr_fix_coder_for lane settings.lane_agents)
        else block_fix s wl status key n

  -- The branches for a PR that is neither over nor fixed.
  settle_open : Settled → Workload → Text → Option (Text × ℤ) → ℤ → FixAct Settled
  unfolding delete has_budget retry_fix settle_spent ◌>>=◌
  settle_open s wl status key n =
      let cap = settings.max_attempts in
      if status == codes "changes_requested"
      then (delete hooks settings (fix_name wl) >>= λ _.
          pure (told s (changes_requested (fix_name wl) n cap)))
      else if status == codes "blocked" && has_budget hooks settings n
      then pure (told s (blocked (fix_name wl) n cap))
      else if status == codes "checks_pending" && has_budget hooks settings n
      then pure (told s (checks_pending (fix_name wl) n cap))
      else if has_budget hooks settings n
      then retry_fix hooks settings s wl status key n
      else settle_spent s wl status key n

  is_over : Text → Bool
  is_over status = mem_text status (codes "merged" ∷ codes "closed" ∷ [])

  is_fixed : Workload → Text → Bool
  is_fixed wl status =
      mem_text wl.phase (codes "Succeeded" ∷ codes "Completed" ∷ []) && status == codes "ok"

  settle_known : Settled → Workload → Text → ℤ → Text × ℤ → FixAct Settled
  unfolding settle_over settle_fixed settle_open is_over is_fixed
  settle_known s wl status n key =
      if is_over status
      then settle_over hooks settings s (fix_name wl) status key
      else if is_fixed wl status
      then settle_fixed hooks settings s (fix_name wl) n key
      else settle_open s wl status (some key) n

  -- The body of the `try`.
  unfoldable pub settle_terminal : Settled → Workload → Option (Text × ℤ) → FixAct Settled
  unfolding lift probe offer_update settle_known settle_open ◌>>=◌
  settle_terminal s wl key = do
    n ← lift hooks settings (fix_attempt wl)
    found ← probe hooks settings key
    status ← offer_update hooks settings key found
    given key (settle_open s wl status none n) (settle_known s wl status n)

  -- `except Exception`: the variables are those before the turn.
  unfoldable pub after_turn : Settled → Workload → Result Settled → Settled
  after_turn s wl (ok s') = s'
  after_turn s wl (raise e) = told s (failed (fix_name wl) e)

  -- A turn; the key is read outside the `try`, so that an exception there ends the pass.
  unfoldable pub reconcile_fix : Settled → Workload → FixAct Settled
  unfolding lift settle_terminal after_turn attempt ◌>>=◌
  reconcile_fix s wl =
      if is_terminal wl.phase
      then (lift hooks settings (prfix_key wl) >>= λ key.
          attempt (settle_terminal s wl (keyed key)) >>= λ ended. pure (after_turn s wl ended))
      else pure s

  unfoldable pub reconcile_pr_fixes : Dict ℕ → FixAct Settled
  unfolding reconcile_fix perform ◌>>=◌
  reconcile_pr_fixes load = perform (λ r. asked []) hooks.list_prfix_workloads >>= λ workloads.
      for_each reconcile_fix (record { results = []; load = load }) workloads
