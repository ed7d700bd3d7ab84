-- ===== src/PrFix/Drain.antt =====
-- bridge/prfix.py: `drain_pr_fixes`.
use foreman_dispatch_bridge.Base.{
  ℕ, Bool, true, false, ◌&&◌, not, Option, none, some, List, [], ◌∷◌, ◌++◌, if◌then◌else◌, given,
  is_empty,
}
use foreman_dispatch_bridge.Base.Text.{Text, codes, mem_text}
use foreman_dispatch_bridge.Base.Dict.{Dict}
use foreman_dispatch_bridge.Base.Json.{Json, Fields, Integer}
use foreman_dispatch_bridge.Base.Effects.{
  Result, ok, raise, M, pure, ◌>>=◌, perform, attempt, for_each,
}
use foreman_dispatch_bridge.Models.{Workload}
use foreman_dispatch_bridge.Workload.Config.{gate_profile_for}
use foreman_dispatch_bridge.Workload.Capacity.{bump, is_full}
use foreman_dispatch_bridge.PrFix.Item.{
  PrFixItem, show_integer, parse_pr_fix_item, pr_fix_coder_for, failure_signature,
  prfix_workload_name,
}
use foreman_dispatch_bridge.PrFix.Manifest.{FixRequest, build_fix_workload}
pub mod Bounds

pub data DrainCall : Type 0 where
  listed : DrainCall
  made : Workload → Result (Unit {0}) → DrainCall

pub record DrainHooks : Type 0 where
  pub list_queued : List DrainCall → Result (List Json)
  pub create_workload : Workload → List DrainCall → Result (Unit {0})

-- `repr` is Python's `str` on values that are not texts.
pub record DrainSettings : Type 0 where
  pub existing_prfix_names : List Text
  pub gate_profiles : Dict Fields
  pub lane_agents : Dict Text
  pub namespace : Text
  pub verify_enabled : Bool
  pub self_go : List Text
  pub agent_slots : Dict Json
  pub repr : Json → Text

-- The lines of the pass; those behind the first carry the repository and the number of the item.
pub data DrainLine : Type 0 where
  unparseable : DrainLine
  no_branch : (repo : Text) (pr : Integer) → DrainLine
  in_flight : (repo : Text) (pr : Integer) → DrainLine
  coder_busy : (repo : Text) (pr : Integer) (coder : Text) → DrainLine
  created : (repo : Text) (pr : Integer) (name : Text) → DrainLine
  failed : (repo : Text) (pr : Integer) (error : Text) → DrainLine

abbrev tag : Text → Integer → Text → Text
tag repo pr rest = repo ++ (b'#' ∷ (show_integer pr ++ rest))

unfoldable pub render_drain : DrainLine → Text
render_drain unparseable = codes "unparseable:skip"
render_drain (no_branch repo pr) = tag repo pr (codes ":skip:no-branch")
render_drain (in_flight repo pr) = tag repo pr (codes ":skip:in-flight")
render_drain (coder_busy repo pr coder) = tag repo pr (codes ":skip:coder-busy:" ++ coder)
render_drain (created repo pr name) = tag repo pr (codes ":created:" ++ name)
render_drain (failed repo pr e) = tag repo pr (codes ":error:" ++ e)

pub record Drained : Type 0 where
  pub results : List DrainLine
  pub load : Dict ℕ

abbrev pub DrainAct : Type 0 → Type 0
DrainAct = M {0} DrainCall

abbrev pub reported : Drained → DrainLine → Drained
reported s line = record s { results = s.results ++ (line ∷ []) }

module _ (hooks : DrainHooks) (settings : DrainSettings) where
  unfoldable pub fix_coder : PrFixItem → Text
  fix_coder item = pr_fix_coder_for item.lane settings.lane_agents

  unfoldable pub fix_manifest : PrFixItem → Workload
  unfolding fix_coder
  fix_manifest item = build_fix_workload item settings.namespace (record {
    gate_profile = gate_profile_for item.repo settings.gate_profiles;
    coder_agent = fix_coder item;
    attempt = 1;
    verify_enabled = settings.verify_enabled;
    self_go = settings.self_go;
    signature = failure_signature (some item);
  })

  unfoldable pub has_no_slot : Text → Dict ℕ → Bool
  has_no_slot coder load =
      not (is_empty settings.agent_slots) && is_full coder load settings.agent_slots

  unfoldable pub after_fix : Drained → PrFixItem → Result (Unit {0}) → Drained
  after_fix s item (raise e) = reported s (failed item.repo item.pr e)
  after_fix s item (ok u) =
      reported (record s { load = bump (fix_coder item) s.load })
        (created item.repo item.pr (prfix_workload_name item))

  -- What is done with an item that has a branch.
  unfoldable pub fix_item : Drained → PrFixItem → DrainAct Drained
  unfolding fix_manifest after_fix has_no_slot attempt perform ◌>>=◌
  fix_item s item =
      if mem_text (prfix_workload_name item) settings.existing_prfix_names
      then pure (reported s (in_flight item.repo item.pr))
      else if has_no_slot (fix_coder item) s.load
      then pure (reported s (coder_busy item.repo item.pr (fix_coder item)))
      else (attempt (perform (made (fix_manifest item)) (hooks.create_workload (fix_manifest item)))
          >>= λ ended. pure (after_fix s item ended))

  unfoldable pub drain_item : Drained → PrFixItem → DrainAct Drained
  unfolding fix_item
  drain_item s item =
      given item.branch (pure (reported s (no_branch item.repo item.pr))) λ branch. fix_item s item

  drain_one : Drained → Json → DrainAct Drained
  unfolding drain_item
  drain_one s raw =
      given (parse_pr_fix_item settings.repr raw) (pure (reported s unparseable)) (drain_item s)

  unfoldable pub drain_pr_fixes : Dict ℕ → DrainAct Drained
  unfolding drain_one perform ◌>>=◌
  drain_pr_fixes load = perform (λ r. listed) hooks.list_queued >>= λ queued.
      for_each drain_one (record { results = []; load = load }) queued
