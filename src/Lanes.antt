-- ===== src/Lanes.antt =====
-- bridge/lanes.py: the lane topology that Dispatch publishes, and lookups by lane or role. The
-- module's two globals are the record `Topology`, which is passed to what reads them.
use foreman_dispatch_bridge.Base.{
  Bool, true, false, Option, none, some, List, [], ◌∷◌, ◌++◌, if◌then◌else◌, is_empty,
}
use foreman_dispatch_bridge.Base.Text
use foreman_dispatch_bridge.Base.Text.{Text, codes, ◌==◌, strip}
use foreman_dispatch_bridge.Base.Dict
use foreman_dispatch_bridge.Base.Dict.{Dict, lookup, insert}
use foreman_dispatch_bridge.Base.Json.{Json, boolean, str, arr, obj, Fields, get, items}
pub mod Resolution

unfoldable pub wildcard : Text
wildcard = codes "*"

unfoldable pub role_escalation : Text
role_escalation = codes "escalation"

-- `_roles` and `_claimable`
pub record Topology : Type 0 where
  pub roles : Dict Text
  pub claimable : List Text

abbrev pub reset_topology : Topology
reset_topology = record { roles = []; claimable = [] }

add_role : Text → Json → Dict Text → Dict Text
add_role lane_id (str role) roles =
    if Text.is_empty (strip role) then roles else insert lane_id (strip role) roles
add_role lane_id _ roles = roles

add_claimable : Text → Json → List Text → List Text
add_claimable lane_id (boolean true) claimable = claimable ++ lane_id ∷ []
add_claimable lane_id _ claimable = claimable

-- The part of the loop's body behind the checks of the id.
add_lane : Json → Fields → Topology → Topology
unfolding add_role add_claimable
add_lane (str lane_id) lane t =
    let id = strip lane_id in
    if Text.is_empty id then t else record {
      roles = add_role id (get (codes "role") lane) t.roles;
      claimable = add_claimable id (get (codes "claimable") lane) t.claimable;
    }
add_lane _ lane t = t

add_lanes : List Json → Topology → Topology
unfolding add_lane
add_lanes [] t = t
add_lanes (obj lane ∷ lanes) t = add_lanes lanes (add_lane (get (codes "id") lane) lane t)
add_lanes (_ ∷ lanes) t = add_lanes lanes t

-- The topology that a decoded payload leaves; the one before it is forgotten.
unfoldable pub set_topology : Json → Topology
unfolding add_lanes
set_topology (arr lanes) = add_lanes (items lanes) reset_topology
set_topology _ = reset_topology

-- `role_of(lane)`; an empty lane is a missing one.
unfoldable pub role_of : Topology → Text → Option Text
role_of t lane = if Text.is_empty lane then none else lookup lane t.roles

has_role : Topology → Text → Text → Bool
has_role t role lane = elim (lookup lane t.roles) [ none ↦ false | some r ↦ r == role ]

first_with_role : Topology → Text → List Text → Option Text
first_with_role t role [] = none
first_with_role t role (lane ∷ lanes) =
    if has_role t role lane then some lane else first_with_role t role lanes

unfoldable pub lane_for_role : Topology → Text → Option Text
unfolding first_with_role has_role
lane_for_role t role = first_with_role t role t.claimable

abbrev pub claimable_lanes : Topology → List Text
claimable_lanes t = t.claimable

module _ {ℓ} {V : Type ℓ} where
  by_wildcard : Dict V → Option V
  by_wildcard mapping = lookup wildcard mapping

  by_role : Option Text → Dict V → Option V
  unfolding by_wildcard
  by_role none mapping = by_wildcard mapping
  by_role (some []) mapping = by_wildcard mapping
  by_role (some (c ∷ r)) mapping = elim (lookup (c ∷ r) mapping) [
    | none ↦ by_wildcard mapping
    | some v ↦ some v
  ]

  -- `lookup(mapping, lane)`, named apart from the dict's own `lookup`.
  unfoldable pub resolve : Topology → Dict V → Text → Option V
  unfolding by_role
  resolve t mapping lane =
      if is_empty mapping
      then none
      else elim (if Text.is_empty lane then none else lookup lane mapping) [
        | none ↦ by_role (role_of t lane) mapping
        | some v ↦ some v
      ]

unfoldable pub resolve_polled_lanes : Topology → (configured fallback : List Text) → List Text
resolve_polled_lanes t configured fallback =
    if is_empty configured
    then (if is_empty (claimable_lanes t) then fallback else claimable_lanes t)
    else configured

unfoldable pub resolve_escalation_lane : Topology → Text → Text
unfolding lane_for_role
resolve_escalation_lane t [] = elim (lane_for_role t role_escalation) [
  | none ↦ []
  | some lane ↦ lane
]
resolve_escalation_lane t (c ∷ configured) = c ∷ configured
