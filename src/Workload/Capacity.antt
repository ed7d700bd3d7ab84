-- ===== src/Workload/Capacity.antt =====
-- bridge/workload.py: `_slots_for` to `coders_saturated`. The load counts the Workloads that each
-- coder Agent holds; the slots are the decoded CODER_AGENT_SLOTS.
use foreman_dispatch_bridge.Base.{
  ◌+◌, ℕ, zero, suc, ◌≤◌, ◌<◌, ◌≡◌, refl, Bool, true, false, ◌&&◌, ◌||◌, not, Option, none, some,
  List, [], ◌∷◌, arith, if◌then◌else◌, or_default, all, keep, is_empty, ltb,
}
use foreman_dispatch_bridge.Base.Text.{Text, ◌==◌, mem_text}
use foreman_dispatch_bridge.Base.Int.{ℤ, pos, negsuc, sub_ℕ, leb_ℤ}
use foreman_dispatch_bridge.Base.Json.{Json, null, boolean, num, str, arr, obj}
use foreman_dispatch_bridge.Base.Dict.{Dict, lookup, insert}
use foreman_dispatch_bridge.Base.Decimal.{parse_int}
use foreman_dispatch_bridge.Workload.Config.{wildcard}
pub mod Laws

-- A lane's entry in an agent map: one Agent name, or a list of them.
pub data Agents : Type 0 where
  one : Text → Agents
  many : List Text → Agents

-- `int(raw)`; `none` is a TypeError or a ValueError.
unfoldable pub int_of : Json → Option ℤ
int_of (boolean true) = some (pos 1)
int_of (boolean false) = some (pos 0)
int_of (num n) = some n
int_of (str s) = parse_int s
int_of _ = none

positive_or_one : Option ℤ → ℕ
positive_or_one (some (pos (suc n))) = suc n
positive_or_one _ = 1

unfoldable pub slots_for : Text → Dict Json → ℕ
unfolding int_of positive_or_one
slots_for agent slots =
    positive_or_one
      (int_of (or_default (lookup agent slots) (or_default (lookup wildcard slots) (num (pos 1)))))

abbrev pub load_of : Text → Dict ℕ → ℕ
load_of agent load = or_default (lookup agent load) 0

unfoldable pub free_slots : Text → Dict ℕ → Dict Json → ℤ
free_slots agent load slots = sub_ℕ (slots_for agent slots) (load_of agent load)

-- `free_slots(...) <= 0`
unfoldable pub is_full : Text → Dict ℕ → Dict Json → Bool
unfolding free_slots
is_full agent load slots = leb_ℤ (free_slots agent load slots) (pos 0)

-- What the choice of a coder takes into account beside the agent maps.
pub record Rotation : Type 0 where
  pub load : Dict ℕ
  pub slots : Dict Json
  pub fix_first : List Text

-- The tests of the loop over the candidates: false drops the agent.
unfoldable pub in_rotation : Rotation → Text → Bool
in_rotation r agent =
    if mem_text agent r.fix_first
    then (if ltb 0 (load_of agent r.load)
        then false
        else if not (is_empty r.slots) && is_full agent r.load r.slots
        then false
        else true)
    else true

unfoldable pub filter_fix_first : Rotation → List Text → List Text
unfolding in_rotation
filter_fix_first r candidates =
    if is_empty r.fix_first || is_empty candidates
    then candidates
    else keep (in_rotation r) candidates

abbrev listed : Option Agents → List Text
listed none = []
listed (some (one a)) = a ∷ []
listed (some (many names)) = names

abbrev or_agents : Option Agents → Option Agents → Option Agents
or_agents none b = b
or_agents (some a) b = some a

unfoldable pub coder_candidates : Text → Dict Agents → Rotation → List Text
coder_candidates lane lane_coder_agents r =
    elim (or_agents (lookup lane lane_coder_agents) (lookup wildcard lane_coder_agents)) [
      | none ↦ []
      | some value ↦ filter_fix_first r (listed (some value))
    ]

unfoldable pub coders_saturated : List Text → Dict ℕ → Dict Json → Bool
coders_saturated candidates load slots =
    if is_empty slots || is_empty candidates
    then false
    else all (λ a. is_full a load slots) candidates

-- `load[agent] = load.get(agent, 0) + 1`
unfoldable pub bump : Text → Dict ℕ → Dict ℕ
bump agent load = insert agent (load_of agent load + 1) load
