-- ===== src/Claim.antt =====
-- bridge/main.py: `run_once`, which claims ready issues lane by lane and creates a Workload for each.
use foreman_dispatch_bridge.Base.{
  ℕ, zero, suc, ◌+◌, Bool, true, false, ◌&&◌, not, Option, none, some, List, [], ◌∷◌, ◌++◌,
  if◌then◌else◌, leb, ltb, nat_eq, given,
}
use foreman_dispatch_bridge.Base.Text.{Text, codes, join}
use foreman_dispatch_bridge.Base.Dict.{Dict}
use foreman_dispatch_bridge.Base.Json.{Json, Fields}
use foreman_dispatch_bridge.Base.Decimal.{show_nat}
use foreman_dispatch_bridge.Base.Effects.{Result, M, pure, ◌>>=◌, perform, for_each}
use foreman_dispatch_bridge.Models.{ClaimedItem, Workload}
use foreman_dispatch_bridge.Workload.Config.{gate_profile_for, language_of}
use foreman_dispatch_bridge.Workload.Capacity.{
  Rotation, bump, load_of, coder_candidates, coders_saturated,
}
use foreman_dispatch_bridge.Workload.Coder.{Routing, coder_agent_for, revision_coder_agent_for}
use foreman_dispatch_bridge.Workload.Build.{build_workload}
pub mod Rounds
pub mod Pairs
pub mod Cap
pub mod Fuel
pub mod Queue
pub mod Client
pub mod Index

-- A claim on a lane, and the creation of a Workload, with how they ended.
pub data ClaimCall : Type 0 where
  claimed : Text → Result (Option ClaimedItem) → ClaimCall
  made : Workload → Result (Unit {0}) → ClaimCall

-- `claim_one(agent_name, lane, queue_for=queue_for)` and `create_workload(manifest)`, after the calls
-- made so far.
pub record ClaimHooks : Type 0 where
  pub claim_one : Text → List ClaimCall → Result (Option ClaimedItem)
  pub create_workload : Workload → List ClaimCall → Result (Unit {0})

pub record ClaimSettings : Type 0 where
  pub namespace : Text
  pub gate_profiles : Dict Fields
  pub routing : Routing
  pub revision_coder_agents : Dict Text
  pub max_in_progress : ℕ
  pub verify_enabled : Bool
  pub self_go : List Text
  pub agent_slots : Dict Json
  pub fix_first_agents : List Text

-- The lines of the pass, one for each f-string.
pub data ClaimLine : Type 0 where
  capped : (lane : Text) (in_progress cap : ℕ) → ClaimLine
  coders_busy : (lane : Text) (candidates : List Text) → ClaimLine
  empty : (lane : Text) → ClaimLine
  created : (lane name : Text) → ClaimLine

text_leb : Text → Text → Bool
text_leb [] t = true
text_leb (c ∷ s) [] = false
text_leb (c ∷ s) (d ∷ t) =
    let rest = text_leb s t in if ltb c d then true else if nat_eq c d then rest else false

insert_sorted : Text → List Text → List Text
unfolding text_leb
insert_sorted t [] = t ∷ []
insert_sorted t (u ∷ us) =
    let rest = insert_sorted t us in if text_leb t u then t ∷ u ∷ us else u ∷ rest

-- `sorted(...)` of texts, by code points.
sorted : List Text → List Text
unfolding insert_sorted
sorted [] = []
sorted (t ∷ ts) = insert_sorted t (sorted ts)

unfoldable pub render_claim : ClaimLine → Text
unfolding sorted
render_claim (capped lane n cap) =
    lane ++ (codes ":capped:" ++ (show_nat n ++ (codes "/" ++ show_nat cap)))
render_claim (coders_busy lane candidates) =
    lane ++ (codes ":coders-busy:" ++ join (codes ",") (sorted candidates))
render_claim (empty lane) = lane ++ codes ":empty"
render_claim (created lane name) = lane ++ (codes ":created:" ++ name)

-- `results`, `in_progress` and `load`
pub record Claims : Type 0 where
  pub results : List ClaimLine
  pub in_progress : ℕ
  pub load : Dict ℕ

abbrev pub ClaimAct : Type 0 → Type 0
ClaimAct = M {0} ClaimCall

module _ (hooks : ClaimHooks) (settings : ClaimSettings) where
  abbrev pub rotation_of : Claims → Rotation
  rotation_of t = record {
    load = t.load;
    slots = settings.agent_slots;
    fix_first = settings.fix_first_agents;
  }

  abbrev pub candidates_for : Text → Claims → List Text
  candidates_for lane t = coder_candidates lane settings.routing.lane_agents (rotation_of t)

  unfoldable pub is_capped : ℕ → Bool
  is_capped in_progress = ltb 0 settings.max_in_progress && leb settings.max_in_progress in_progress

  -- A lane that claimed something reports no reason for its end.
  unfoldable pub stop : ℕ → ClaimLine → Claims → Claims
  stop created_here line t =
      if nat_eq created_here 0 then record t { results = t.results ++ (line ∷ []) } else t

  unfoldable pub claim_coder : ClaimedItem → Claims → Text
  claim_coder item t =
      coder_agent_for settings.routing item.lane (language_of item.repo settings.gate_profiles)
        item.repo item.issue_number (rotation_of t)

  unfoldable pub claim_manifest : ClaimedItem → Claims → Workload
  unfolding claim_coder
  claim_manifest item t = build_workload item settings.namespace (record {
    gate_profile = gate_profile_for item.repo settings.gate_profiles;
    attempt = 1;
    infra_attempt = 1;
    coder_agent = claim_coder item t;
    feedback = [];
    revision_coder_agent =
        revision_coder_agent_for settings.routing.topology item.lane settings.revision_coder_agents;
    verify_enabled = settings.verify_enabled;
    self_go = settings.self_go;
    revise_from_branch = [];
  })

  unfoldable pub after_claim : Text → ClaimedItem → Claims → Claims
  unfolding claim_coder claim_manifest
  after_claim lane item t = record {
    results = t.results ++ (created lane (claim_manifest item t).name ∷ []);
    in_progress = t.in_progress + 1;
    load = bump (claim_coder item t) t.load;
  }

  -- `while True`, on fuel: none where the fuel runs out.
  unfoldable pub drain_lane : ℕ → Text → ℕ → Claims → ClaimAct (Option Claims)
  unfolding is_capped stop after_claim claim_manifest ◌>>=◌ perform given
  drain_lane zero lane created_here t = pure none
  drain_lane (suc fuel) lane created_here t =
      if is_capped t.in_progress
      then pure (some (stop created_here (capped lane t.in_progress settings.max_in_progress) t))
      else if coders_saturated (candidates_for lane t) t.load settings.agent_slots
      then pure (some (stop created_here (coders_busy lane (candidates_for lane t)) t))
      else (perform (claimed lane) (hooks.claim_one lane) >>= λ found.
          given found (pure (some (stop created_here (empty lane) t))) (λ item.
            perform (made (claim_manifest item t)) (hooks.create_workload (claim_manifest item t))
            >>= λ _. drain_lane fuel lane (suc created_here) (after_claim lane item t)))

  claim_from : ℕ → Option Claims → Text → ClaimAct (Option Claims)
  unfolding drain_lane given
  claim_from fuel s lane = given s (pure none) (λ t. drain_lane fuel lane 0 t)

  -- The fuel is that of each lane.
  unfoldable pub run_once : ℕ → List Text → (in_progress : ℕ) → Dict ℕ → ClaimAct (Option Claims)
  unfolding claim_from
  run_once fuel lanes in_progress load =
      for_each (claim_from fuel)
        (some (record { results = []; in_progress = in_progress; load = load })) lanes
