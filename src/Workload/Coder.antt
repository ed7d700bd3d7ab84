-- ===== src/Workload/Coder.antt =====
-- bridge/workload.py: `_pick_coder`, `coder_agent_for` and `revision_coder_agent_for`.
use foreman_dispatch_bridge.Base.{
  ℕ, zero, suc, ◌%◌, ◌≡◌, Bool, true, false, ◌&&◌, Option, none, some, List, [], ◌∷◌, map, arith,
  if◌then◌else◌, get_elem?, keep, length, is_empty,
}
use foreman_dispatch_bridge.Base.Text
use foreman_dispatch_bridge.Base.Text.{Text, ◌==◌}
use foreman_dispatch_bridge.Base.Int.{ℤ, eq_ℤ, max_ℤ}
use foreman_dispatch_bridge.Base.Dict.{Dict, lookup}
use foreman_dispatch_bridge.Lanes.{Topology, resolve}
use foreman_dispatch_bridge.Workload.Config.{coder_agent, wildcard}
use foreman_dispatch_bridge.Workload.Capacity.{Agents, one, many, Rotation, free_slots, in_rotation}
pub mod Choice
pub mod Tiers

-- `max(free)`
abbrev pub maximum : ℤ → List ℤ → ℤ
maximum best [] = best
maximum best (x ∷ xs) = maximum (max_ℤ best x) xs

abbrev pub free_of : Rotation → Text → ℤ
free_of r agent = free_slots agent r.load r.slots

-- `max(free)` over the candidates a ∷ others.
unfoldable pub best_free : Rotation → Text → List Text → ℤ
best_free r a others = maximum (free_of r a) (map (free_of r) others)

unfoldable pub tied : Rotation → Text → List Text → List Text
unfolding best_free
tied r a others = keep (λ b. eq_ℤ (free_of r b) (best_free r a others)) (a ∷ others)

-- `value[issue_number % len(value)]`
unfoldable pub by_issue : ℕ → List Text → Option Text
by_issue n names = get_elem? names (n % length names)

unfoldable pub pick_among : ℕ → Rotation → List Text → Option Text
unfolding by_issue tied
pick_among n r [] = none
pick_among n r (a ∷ others) =
    if is_empty r.slots then by_issue n (a ∷ others) else by_issue n (tied r a others)

-- `_pick_coder`
unfoldable pub pick_coder : Option Agents → ℕ → Rotation → Option Text
unfolding pick_among in_rotation
pick_coder none n r = none
pick_coder (some (one a)) n r = some a
pick_coder (some (many names)) n r =
    pick_among n r (if is_empty r.fix_first then names else keep (in_rotation r) names)

-- The agent maps, and the lanes that they are resolved against.
pub record Routing : Type 0 where
  pub topology : Topology
  pub lane_agents : Dict Agents
  pub base_agents : Dict Agents
  pub repo_agents : Dict Agents

-- `a or b` for names.
abbrev pub or_name : Option Text → Text → Text
or_name none d = d
or_name (some []) d = d
or_name (some (c ∷ s)) d = c ∷ s

-- `a or b` for entries of an agent map.
abbrev or_entry : Option Agents → Option Agents → Option Agents
or_entry none b = b
or_entry (some (one [])) b = b
or_entry (some (one (c ∷ s))) b = some (one (c ∷ s))
or_entry (some (many [])) b = b
or_entry (some (many (a ∷ names))) b = some (many (a ∷ names))

by_repo : Dict Agents → Text → ℕ → Rotation → Option Text
by_repo repo_agents [] n r = none
by_repo repo_agents (c ∷ repo) n r = pick_coder (lookup (c ∷ repo) repo_agents) n r

abbrev for_language : Dict Agents → Option Text → Option Agents
for_language base_agents none = none
for_language base_agents (some language) = lookup language base_agents

by_language : Dict Agents → Option Text → ℕ → Rotation → Option Text
by_language base_agents language n r =
    pick_coder (or_entry (for_language base_agents language) (lookup wildcard base_agents)) n r

-- The tiers below the lane's own entry.
unfoldable pub fallback_coder : Routing → Option Text → Text → ℕ → Rotation → Text
unfolding by_repo by_language
fallback_coder routes language repo n r = or_name (by_repo routes.repo_agents repo n r) (
    or_name (by_language routes.base_agents language n r)
      (or_name (pick_coder (lookup wildcard routes.lane_agents) n r) coder_agent))

unfoldable pub coder_agent_for :
    Routing → (lane : Text) (language : Option Text) (repo : Text) (n : ℕ) → Rotation → Text
unfolding fallback_coder
coder_agent_for routes lane language repo n r =
    or_name (pick_coder (resolve routes.topology routes.lane_agents lane) n r)
      (fallback_coder routes language repo n r)

unfoldable pub revision_coder_agent_for : Topology → Text → Dict Text → Text
revision_coder_agent_for t lane revision_coder_agents =
    or_name (resolve t revision_coder_agents lane) []
