-- ===== src/PrFixSamples.antt =====
-- The theorems on the pull requests, at concrete inputs.
use foreman_dispatch_bridge.Base
use foreman_dispatch_bridge.Base.Text
use foreman_dispatch_bridge.Base.Json
use foreman_dispatch_bridge.Base.Effects
use foreman_dispatch_bridge.Base.Decimal.Unicode
use foreman_dispatch_bridge.Workload.Capacity
use foreman_dispatch_bridge.Workload.Config
use foreman_dispatch_bridge.PrFix.Item
use foreman_dispatch_bridge.PrFix.Settle
use foreman_dispatch_bridge.Base.{
  ◌≡◌, ◌≤◌, ◌+◌, ◌⊎◌, refl, All, Any, is_some, true, false, none, some, [], ◌∷◌, length, arith, inl,
  suc,
}
use foreman_dispatch_bridge.Base.Text.{codes, ◌==◌}
use foreman_dispatch_bridge.Base.Int.{pos}
use foreman_dispatch_bridge.Base.Dict.{lookup}
use foreman_dispatch_bridge.Base.Json.{boolean, Fields, Json, num, str, obj, field, end, integer}
use foreman_dispatch_bridge.Base.Effects.{ok, raise, returned}
use foreman_dispatch_bridge.Base.Effects.Rules.{Outcome}
use foreman_dispatch_bridge.Models.{Workload}
use foreman_dispatch_bridge.Workload.Capacity.{slots_for}
use foreman_dispatch_bridge.Workload.Build.Started.{Accounted}
use foreman_dispatch_bridge.Workload.Build.{issue_fix, lane_label}
use foreman_dispatch_bridge.Retry.Manifest.{attempt_of}
use foreman_dispatch_bridge.PrFix.Item.{PrFixItem}
use foreman_dispatch_bridge.PrFix.Manifest.{
  FixRequest, build_fix_workload, rebuild_prfix_manifest, escalate_prfix_manifest, prfix_key,
  prfix_current_coder, fix_steps, prfix_pr_annotation,
}
use foreman_dispatch_bridge.PrFix.Manifest.Kept.{
  rebuild_prfix_manifest_keeps, escalate_prfix_manifest_lem, prfix_key-build_fix_workload,
}
use foreman_dispatch_bridge.PrFix.Drain.{DrainHooks, DrainSettings, Drained, drain_pr_fixes}
use foreman_dispatch_bridge.PrFix.Drain.Bounds.{
  Fresh, started, drain_pr_fixes-reports, drain_pr_fixes-Fits,
}
use foreman_dispatch_bridge.PrFix.Calls.{FixHooks, FixSettings}
use foreman_dispatch_bridge.PrFix.Settle.{Settled}
use foreman_dispatch_bridge.PrFix.Settle.Turn.{reconcile_pr_fixes}
use foreman_dispatch_bridge.PrFix.Settle.Turn.Reports.{
  terminals, IsUnreadable, reconcile_pr_fixes-reports,
}
use foreman_dispatch_bridge.PrFix.Settle.Turn.Guarded.{AllReplace, reconcile_pr_fixes-AllReplace}
use foreman_dispatch_bridge.Samples.{local_slots}

abbrev a_pull_request : PrFixItem
a_pull_request = record {
  repo = codes "miso/app";
  pr = integer (pos 31);
  issue = none;
  branch = some (codes "foreman/x");
  head_sha = none;
  lane = codes "NORMAL";
  type = codes "CI_FAILURE";
  reason = codes "lint";
  feedback = codes "line too long" ∷ [];
}

abbrev a_fix_request : FixRequest
a_fix_request = record {
  gate_profile = none;
  coder_agent = codes "coder";
  attempt = 2;
  verify_enabled = true;
  self_go = [];
  signature = [];
}

abbrev a_fix_workload : Workload
a_fix_workload = build_fix_workload a_pull_request (codes "agents") a_fix_request

prfix_key-build_fix_workload_example :
    prfix_key a_fix_workload ≡ ok (some (codes "miso/app"), some (pos 31))
prfix_key-build_fix_workload_example =
    prfix_key-build_fix_workload a_pull_request (codes "agents") a_fix_request 31 refl

rebuild_prfix_manifest_keeps_example :
    let m = rebuild_prfix_manifest a_fix_workload (pos 3) (codes "ci_failure::lint") in
    (attempt_of m ≡ 3)
    × (prfix_key m ≡ prfix_key a_fix_workload)
    × (m.name ≡ a_fix_workload.name)
    × (m.spec ≡ a_fix_workload.spec)
rebuild_prfix_manifest_keeps_example =
    rebuild_prfix_manifest_keeps a_fix_workload 3 (codes "ci_failure::lint") (omega arith)

escalate_prfix_manifest_lem_example :
    let m =
      escalate_prfix_manifest a_fix_workload (codes "ESCALATED") (codes "coder-frontier") [] in
    (prfix_current_coder m ≡ some (codes "coder-frontier"))
    × (attempt_of m ≡ 1)
    × (lookup lane_label m.labels ≡ some (codes "ESCALATED"))
    × (prfix_key m ≡ prfix_key a_fix_workload)
    × (m.name ≡ a_fix_workload.name)
unfolding build_fix_workload fix_steps ◌==◌ issue_fix
escalate_prfix_manifest_lem_example =
    escalate_prfix_manifest_lem a_fix_workload (codes "ESCALATED") (codes "coder-frontier") []
      (inl refl)

abbrev a_queued_item : Json
a_queued_item = obj (
    field (codes "repo") (str (codes "miso/app"))
      (field (codes "pr") (num (pos 31)) (field (codes "branch") (str (codes "foreman/x")) end)))

abbrev drain_hooks : DrainHooks
drain_hooks = record {
  list_queued = λ log. ok (a_queued_item ∷ str (codes "?") ∷ []);
  create_workload = λ m log. raise (codes "conflict");
}

abbrev drain_settings : DrainSettings
drain_settings = record {
  existing_prfix_names = [];
  gate_profiles = [];
  lane_agents = [];
  namespace = codes "agents";
  verify_enabled = true;
  self_go = [];
  agent_slots = local_slots;
  repr = λ j. codes "?";
}

drain_pr_fixes-reports_example :
    let ended = drain_pr_fixes drain_hooks drain_settings [] [] in
    (s : Drained) × (ended.0 ≡ ok s) × (length s.results ≡ 2) × Fresh [] ended.1
drain_pr_fixes-reports_example = drain_pr_fixes-reports drain_hooks drain_settings [] refl

-- A creation that returns.
abbrev open_drain_hooks : DrainHooks
open_drain_hooks = record drain_hooks { create_workload = λ m log. ok tt }

test_started : started (drain_pr_fixes open_drain_hooks drain_settings [] []).1 (codes "coder") ≡ 1
unfolding drain_pr_fixes Effects.for_each Base.given Item.parse_pr_fix_item Json.get ◌==◌
    Text.mem_text Capacity.is_full lookup slots_for Item.pr_fix_coder_for Config.coder_agent
    build_fix_workload
test_started = refl

drain_pr_fixes-Fits_example :
    let ended = drain_pr_fixes open_drain_hooks drain_settings [] [] in
    (s : Drained) × (ended.0 ≡ ok s) × Accounted local_slots [] s.load (started ended.1)
unfolding lookup slots_for
drain_pr_fixes-Fits_example =
    drain_pr_fixes-Fits open_drain_hooks drain_settings refl [] refl (λ coder. omega arith)

abbrev fix_hooks : FixHooks
fix_hooks = record {
  list_prfix_workloads = λ log. ok (record a_fix_workload { phase = codes "Failed" } ∷ []);
  delete_workload = λ name log. ok tt;
  create_workload = λ m log. ok tt;
  mark_pr_fix = λ repo pr outcome note log. raise (codes "dispatch is down");
  pr_is_mergeable = λ repo pr log. ok (codes "checks_failed");
  get_pr_fix_signature = λ repo pr log. ok (codes "ci_failure::lint");
  update_pr_branch = λ repo pr log. ok false;
}

abbrev fix_settings : FixSettings
fix_settings = record {
  max_attempts = 3;
  progress_max_attempts = 8;
  lane_agents = [];
  agent_slots = local_slots;
}

-- A superscript two is a digit that int refuses.
abbrev a_stuck_workload : Workload
a_stuck_workload = record a_fix_workload {
  annotations = (prfix_pr_annotation, 178 ∷ []) ∷ [];
  phase = codes "Failed";
}

abbrev stuck_hooks : FixHooks
stuck_hooks = record fix_hooks { list_prfix_workloads = λ log. ok (a_stuck_workload ∷ []) }

test_stuck : returned (reconcile_pr_fixes stuck_hooks fix_settings [] []).0 ≡ false
unfolding reconcile_pr_fixes Effects.for_each Settle.is_terminal prfix_key Unicode.is_unicode_digit
    Unicode.read_digits Base.given lookup ◌==◌ prfix_pr_annotation Text.mem_text
test_stuck = refl

reconcile_pr_fixes-reports_example :
    Outcome
      (λ s log.
        length s.results
        ≡ length (terminals (record a_fix_workload { phase = codes "Failed" } ∷ [])))
      (λ log. Any IsUnreadable (record a_fix_workload { phase = codes "Failed" } ∷ []))
      (reconcile_pr_fixes fix_hooks fix_settings [] [])
reconcile_pr_fixes-reports_example = reconcile_pr_fixes-reports fix_hooks fix_settings [] refl

reconcile_pr_fixes-AllReplace_example :
    AllReplace
      (record a_fix_workload { phase = codes "Failed" } ∷ [])
      (reconcile_pr_fixes fix_hooks fix_settings [] []).1
reconcile_pr_fixes-AllReplace_example = reconcile_pr_fixes-AllReplace fix_hooks fix_settings []
