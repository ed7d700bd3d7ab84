-- ===== src/Examples.antt =====
-- The theorems at concrete inputs.
use foreman_dispatch_bridge.Base.{
  ◌≡◌, ◌↔◌, ◌≢◌, ◌<◌, refl, true, false, none, some, [], ◌∷◌, All, length, arith,
}
use foreman_dispatch_bridge.Base.Text.{Text, codes, ◌==◌, mem_text}
use foreman_dispatch_bridge.Base.Int.{pos, leb_ℤ}
use foreman_dispatch_bridge.Base.Dict.{Dict, lookup}
use foreman_dispatch_bridge.Base.Json.{Json, num}
use foreman_dispatch_bridge.Base.Effects.{ok, raise}
use foreman_dispatch_bridge.Base.Effects.Rules.{Outcome}
use foreman_dispatch_bridge.Models.{ClaimedItem, Workload}
use foreman_dispatch_bridge.Lanes.{Topology, lane_for_role, resolve}
use foreman_dispatch_bridge.Lanes.Resolution.{
  FirstPlaying, first_hit, keys_of, resolve_lem, lane_for_role_lem,
}
use foreman_dispatch_bridge.Workload.Capacity.{
  one, many, Rotation, load_of, slots_for, is_full, free_slots, filter_fix_first, coder_candidates,
  coders_saturated,
}
use foreman_dispatch_bridge.Workload.Coder.{
  Routing, by_issue, tied, best_free, pick_among, free_of, pick_coder, coder_agent_for,
}
use foreman_dispatch_bridge.Workload.Coder.Choice.{rotation, pick_coder-best, pick_coder-some}
use foreman_dispatch_bridge.Workload.Coder.Tiers.{IsName, coder_agent_for-has_room, fix_first_alone}
use foreman_dispatch_bridge.Workload.Name.{workload_name, branch_name, issue_from_name}
use foreman_dispatch_bridge.Workload.Name.Issue.{issue_from_name-workload_name}
use foreman_dispatch_bridge.Workload.Name.Collisions.{
  with_repo, workload_name_slash, workload_name_case,
}
use foreman_dispatch_bridge.Workload.Build.{Request, build_workload}
use foreman_dispatch_bridge.Workload.Build.Pairing.{StepIsPaired, build_workload_pairs}
use foreman_dispatch_bridge.Retry.Manifest.{attempt_of, infra_attempt_of, item_from_workload}
use foreman_dispatch_bridge.Retry.Manifest.RoundTrip.{
  counters-build_workload, item_from_workload-build_workload,
}
use foreman_dispatch_bridge.Retry.Hooks.{Hooks, Settings, issue_closed}
use foreman_dispatch_bridge.Retry.Parking.{name_of}
use foreman_dispatch_bridge.Retry.Pass.{Progress, append_line, reconcile_one, reconcile_failures}
use foreman_dispatch_bridge.Retry.Pass.Recreation.{Guarded, reconcile_failures-Guarded}
use foreman_dispatch_bridge.Retry.Pass.Capacity.{NotOverbooked, started, reconcile_failures-Fits}
use foreman_dispatch_bridge.Workload.Build.Started.{Accounted}
use foreman_dispatch_bridge.Retry.Pass.Lines.{reconcile_failures-reports}
use foreman_dispatch_bridge.Retry.Pass.Closed.{actions, reconcile_one-closed}

abbrev lane_normal : Text
lane_normal = codes "normal"

abbrev coder_a : Text
coder_a = codes "coder-a"

abbrev coder_b : Text
coder_b = codes "coder-b"

abbrev an_item : ClaimedItem
an_item = record {
  repo = codes "Miso/bridge";
  issue_number = 12;
  intent = codes "fix it";
  lane = lane_normal;
  issue_id = codes "id-12";
}

abbrev a_request : Request
a_request = record {
  gate_profile = none;
  attempt = 2;
  infra_attempt = 1;
  coder_agent = coder_a;
  feedback = codes "again";
  revision_coder_agent = [];
  verify_enabled = true;
  self_go = [];
  revise_from_branch = codes "foreman/b";
}

abbrev a_topology : Topology
a_topology = record {
  roles = (lane_normal, codes "base") ∷ (codes "cloud", codes "escalation") ∷ [];
  claimable = lane_normal ∷ codes "cloud" ∷ [];
}

abbrev some_slots : Dict Json
some_slots = (coder_a, num (pos 1)) ∷ (coder_b, num (pos 2)) ∷ []

abbrev a_routing : Routing
a_routing = record {
  topology = a_topology;
  lane_agents = (lane_normal, many (coder_a ∷ coder_b ∷ [])) ∷ (codes "cloud", one coder_b) ∷ [];
  base_agents = [];
  repo_agents = [];
}

abbrev a_rotation : Rotation
a_rotation = record { load = (coder_a, 1) ∷ []; slots = some_slots; fix_first = [] }

abbrev a_failed_workload : Workload
a_failed_workload = build_workload an_item (codes "agents") a_request

abbrev some_hooks : Hooks
some_hooks = record {
  list_failed = λ log. ok (a_failed_workload ∷ []);
  create_workload = λ m log. ok tt;
  delete_workload = λ name log. ok tt;
  escalate = none;
  lookup_issue_id = some (λ item log. ok (codes "id-12"));
  feedback_for = some (λ name log. ok (codes "tests fail"));
  branch_pushed_for = some (λ name branch repo log. ok true);
  issue_state_for = none;
  declared_escalation_for = none;
  park_for_human = some (λ item reason path log. raise (codes "dispatch is down"));
  tasks_for = none;
  failed_model_for = none;
  park_infra = none;
  needs_human_for = none;
  ensure_human_label = none;
}

abbrev hooks_of_closed : Hooks
hooks_of_closed = record some_hooks {
  issue_state_for = some (λ item log. ok (some (codes "closed")));
}

abbrev some_settings : Settings
some_settings = record {
  namespace = codes "agents";
  gate_profiles = [];
  max_attempts = 3;
  infra_max_attempts = 3;
  escalation_lane = [];
  routing = a_routing;
  current_lane_for = [];
  verify_enabled = true;
  self_go = [];
  agent_slots = some_slots;
}

reconcile_failures-Guarded_example :
    Guarded some_settings
      (a_failed_workload ∷ [])
      (reconcile_failures some_hooks some_settings [] []).1
reconcile_failures-Guarded_example = reconcile_failures-Guarded some_hooks some_settings []

reconcile_failures-reports_example :
    (s : Progress) × ((reconcile_failures some_hooks some_settings [] []).0 ≡ ok s)
    × (length s.results ≡ 1)
reconcile_failures-reports_example =
    reconcile_failures-reports some_hooks some_settings [] refl (λ item log. refl)
      (λ name log. refl) (λ name branch repo log. refl)

reconcile_failures-Fits_example :
    Outcome
      (λ s log. Accounted some_slots [] s.load (started log))
      (λ log. NotOverbooked some_slots [] (started log))
      (reconcile_failures some_hooks some_settings [] [])
unfolding lookup slots_for
reconcile_failures-Fits_example =
    reconcile_failures-Fits some_hooks some_settings refl [] (λ coder. omega arith)

reconcile_one-closed_example :
    ((reconcile_one hooks_of_closed some_settings
        (record { results = []; load = [] })
        a_failed_workload
        []).0
      ≡ ok (
          append_line
            (record { results = []; load = [] })
            (issue_closed (name_of a_failed_workload))))
    × (actions
          (reconcile_one hooks_of_closed some_settings
            (record { results = []; load = [] })
            a_failed_workload
            []).1
        ≡ [])
reconcile_one-closed_example =
    reconcile_one-closed hooks_of_closed some_settings (record { results = []; load = [] })
      a_failed_workload [] (λ item log. ok (some (codes "closed"))) refl (λ l. refl)

coder_agent_for-has_room_example :
    load_of
      (coder_agent_for a_routing lane_normal none (codes "Miso/bridge") 12 a_rotation)
      a_rotation.load
    < slots_for
        (coder_agent_for a_routing lane_normal none (codes "Miso/bridge") 12 a_rotation)
        some_slots
unfolding lookup ◌==◌ coder_candidates coders_saturated filter_fix_first is_full free_slots
    slots_for
coder_agent_for-has_room_example =
    coder_agent_for-has_room a_routing lane_normal none (codes "Miso/bridge") 12 a_rotation
      (coder_a ∷ coder_b ∷ []) (λ p. cc) refl refl ((λ p. cc), ((λ p. cc), tt)) (λ p. cc) refl

fix_first_alone_example :
    let r = record a_rotation { load = (coder_b, 2) ∷ []; fix_first = coder_b ∷ [] } in
    (coder_candidates (codes "cloud") a_routing.lane_agents r ≡ [])
    × (coders_saturated (coder_candidates (codes "cloud") a_routing.lane_agents r) r.load r.slots
        ≡ false)
    × (coder_agent_for a_routing (codes "cloud") none [] 3 r ≡ coder_b)
unfolding lookup ◌==◌ mem_text
fix_first_alone_example =
    fix_first_alone a_routing (codes "cloud") none [] 3
      (record a_rotation { load = (coder_b, 2) ∷ []; fix_first = coder_b ∷ [] }) coder_b (λ p. cc)
      (λ p. cc) refl refl (omega arith)

build_workload_pairs_example :
    let spec = (build_workload an_item (codes "agents") a_request).spec in
    ((spec.allow_overwrite ≡ true) ↔ (codes "foreman/b" ≢ []))
    × (spec.revise_from_branch ≡ codes "foreman/b")
    × All (StepIsPaired spec.revise_from_branch) spec.pipeline
build_workload_pairs_example = build_workload_pairs an_item (codes "agents") a_request

counters-build_workload_example :
    (attempt_of a_failed_workload ≡ 2) × (infra_attempt_of a_failed_workload ≡ 1)
counters-build_workload_example =
    counters-build_workload an_item (codes "agents") a_request (omega arith) (omega arith)

item_from_workload-build_workload_example : item_from_workload a_failed_workload ≡ an_item
item_from_workload-build_workload_example =
    item_from_workload-build_workload an_item (codes "agents") a_request

issue_from_name-workload_name_example : issue_from_name (workload_name an_item) ≡ 12
issue_from_name-workload_name_example = issue_from_name-workload_name an_item

pick_coder-best_example :
    All
      (λ b. leb_ℤ (free_of a_rotation b) (free_of a_rotation coder_b) ≡ true)
      (rotation a_rotation (coder_a ∷ coder_b ∷ []))
unfolding pick_coder pick_among by_issue tied best_free free_slots slots_for lookup ◌==◌
pick_coder-best_example = pick_coder-best (coder_a ∷ coder_b ∷ []) 12 a_rotation refl refl

pick_coder-some_example :
    (a : Text) × (pick_coder (some (many (coder_a ∷ coder_b ∷ []))) 12 a_rotation ≡ some a)
    × IsName a
pick_coder-some_example =
    pick_coder-some IsName (coder_a ∷ coder_b ∷ []) 12 a_rotation (λ p. cc)
      ((λ p. cc), ((λ p. cc), tt))

workload_name_slash_example :
    (workload_name (with_repo an_item (codes "a-b/c"))
      ≡ workload_name (with_repo an_item (codes "a/b-c")))
    × (branch_name (with_repo an_item (codes "a-b/c"))
        ≡ branch_name (with_repo an_item (codes "a/b-c")))
workload_name_slash_example = workload_name_slash an_item (codes "a") (codes "b") (codes "c")

workload_name_case_example :
    workload_name (with_repo an_item (codes "a/Uu"))
    ≡ workload_name (with_repo an_item (codes "a/uU"))
workload_name_case_example = workload_name_case an_item (codes "a/") []

resolve_lem_example :
    resolve a_topology a_routing.lane_agents (codes "cloud")
    ≡ first_hit (keys_of a_topology (codes "cloud")) a_routing.lane_agents
resolve_lem_example = resolve_lem a_topology a_routing.lane_agents (codes "cloud")

lane_for_role_lem_example :
    FirstPlaying a_topology
      (codes "escalation")
      (lane_normal ∷ codes "cloud" ∷ [])
      (lane_for_role a_topology (codes "escalation"))
lane_for_role_lem_example = lane_for_role_lem a_topology (codes "escalation")
