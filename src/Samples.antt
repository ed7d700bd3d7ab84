-- ===== src/Samples.antt =====
-- The theorems on the pass that claims, at concrete inputs.
use foreman_dispatch_bridge.Base.{
  ◌≡◌, ◌≤◌, ◌+◌, ◌⊎◌, refl, Any, is_some, true, some, [], ◌∷◌, arith, suc,
}
use foreman_dispatch_bridge.Base.Text.{codes}
use foreman_dispatch_bridge.Base.Int.{pos}
use foreman_dispatch_bridge.Base.Dict.{Dict}
use foreman_dispatch_bridge.Base.Json.{boolean, Fields, Json, num, str, obj, field, end}
use foreman_dispatch_bridge.Base.Effects.{ok}
use foreman_dispatch_bridge.Base.Effects.Rules.{Outcome}
use foreman_dispatch_bridge.Base.Effects.Returns.{OnSome}
use foreman_dispatch_bridge.Models.{ClaimedItem}
use foreman_dispatch_bridge.Lanes.{reset_topology}
use foreman_dispatch_bridge.Claim.{ClaimHooks, ClaimSettings, Claims, run_once}
use foreman_dispatch_bridge.Claim.Pairs.{Paired, CutOff, run_once-Paired}
use foreman_dispatch_bridge.Claim.Cap.{creations, run_once-within_cap}
use foreman_dispatch_bridge.Claim.Fuel.{run_once-returns}
use foreman_dispatch_bridge.Claim.Queue.{select_candidates, select_item}
use foreman_dispatch_bridge.Claim.Queue.Selected.{IsCandidate, Selects, select_candidates_lem}

abbrev pub local_slots : Dict Json
local_slots = (codes "coder", num (pos 2)) ∷ []

abbrev an_issue : ClaimedItem
an_issue = record {
  repo = codes "miso/app";
  issue_number = 7;
  intent = codes "add a test";
  lane = codes "normal";
  issue_id = codes "id-7";
}

-- Every lane offers the same issue over and over.
abbrev eager_hooks : ClaimHooks
eager_hooks = record {
  claim_one = λ lane log. ok (some an_issue);
  create_workload = λ m log. ok tt;
}

abbrev claim_settings : ClaimSettings
claim_settings = record {
  namespace = codes "agents";
  gate_profiles = [];
  routing = record {
    topology = reset_topology;
    lane_agents = [];
    base_agents = [];
    repo_agents = [];
  };
  revision_coder_agents = [];
  max_in_progress = 2;
  verify_enabled = true;
  self_go = [];
  agent_slots = local_slots;
  fix_first_agents = [];
}

run_once-Paired_example :
    Outcome
      (λ s log. OnSome (λ t. Paired log) s)
      CutOff
      (run_once eager_hooks claim_settings 3 (codes "normal" ∷ []) 0 [] [])
run_once-Paired_example = run_once-Paired eager_hooks claim_settings 3 (codes "normal" ∷ []) 0 []

run_once-within_cap_example :
    Outcome
      (λ s log. OnSome (λ t. (t.in_progress ≡ 1 + creations log) × (t.in_progress ≤ 2)) s)
      (λ log. 1 + creations log ≤ 2)
      (run_once eager_hooks claim_settings 3 (codes "normal" ∷ []) 1 [] [])
run_once-within_cap_example =
    run_once-within_cap eager_hooks claim_settings 3 (codes "normal" ∷ []) 1 [] (omega arith)
      (omega arith)

run_once-returns_example :
    let ended = run_once eager_hooks claim_settings (suc 2) (codes "normal" ∷ []) 0 [] [] in
    (t : Claims) × (ended.0 ≡ ok (some t))
    × (t.in_progress ≡ 0 + creations ended.1)
    × ((t.in_progress ≤ 2) ⊎ (creations ended.1 ≡ 0))
run_once-returns_example =
    run_once-returns eager_hooks claim_settings (codes "normal" ∷ []) 0 [] (omega arith)
      (λ lane log. refl) (λ m log. refl)

abbrev a_ready_item : Json
a_ready_item = obj (
    field (codes "title") (str (codes "Add a test")) (
      field (codes "status") (str (codes "status/ready"))
        (field (codes "claimable") (boolean true) end)))

abbrev a_bot_item : Json
a_bot_item = obj (
    field (codes "title") (str (codes "Update dep x")) (
      field (codes "status") (str (codes "status/ready"))
        (field (codes "claimable") (boolean true) end)))

select_candidates_lem_example :
    Selects
      (λ j. codes "?")
      (codes "normal")
      (a_bot_item ∷ a_ready_item ∷ [])
      (select_candidates (λ j. codes "?") (a_bot_item ∷ a_ready_item ∷ []) (codes "normal"))
    × ((item : Fields)
        → IsCandidate (λ j. codes "?") (codes "normal") item
        → Any (λ j. j ≡ obj item) (a_bot_item ∷ a_ready_item ∷ [])
        → Any
            (λ i. i ≡ item)
            (select_candidates (λ j. codes "?") (a_bot_item ∷ a_ready_item ∷ []) (codes "normal"))
          × (is_some
                (select_item (λ j. codes "?") (a_bot_item ∷ a_ready_item ∷ []) (codes "normal"))
              ≡ true))
select_candidates_lem_example =
    select_candidates_lem (λ j. codes "?") (codes "normal") (a_bot_item ∷ a_ready_item ∷ [])
