-- ===== src/Retry/Manifest.antt =====
-- bridge/retry.py: `attempt_of`, `infra_attempt_of`, `item_from_workload` and `refresh_lane`.
use foreman_dispatch_bridge.Base.{
  ℕ, Bool, true, false, ◌&&◌, Option, none, some, List, [], ◌∷◌, ltb, nat_eq, if◌then◌else◌,
  or_default,
}
use foreman_dispatch_bridge.Base.Text.{Text, codes, ◌==◌}
use foreman_dispatch_bridge.Base.Int.{ℤ, pos, negsuc}
use foreman_dispatch_bridge.Base.Dict.{lookup}
use foreman_dispatch_bridge.Base.Decimal.{parse_int}
use foreman_dispatch_bridge.Models.{ClaimedItem, Workload}
use foreman_dispatch_bridge.Workload.Config.{
  attempt_annotation, infra_attempt_annotation, issue_id_annotation,
}
use foreman_dispatch_bridge.Workload.Build.{lane_label}
use foreman_dispatch_bridge.Workload.Name.{issue_from_name}
pub mod RoundTrip

-- `max(1, int(raw))`, and 1 where `int` raises.
unfoldable pub counter : Option ℤ → ℕ
counter none = 1
counter (some (pos n)) = if ltb n 1 then 1 else n
counter (some (negsuc n)) = 1

unfoldable pub attempt_of : Workload → ℕ
unfolding counter
attempt_of wl =
    counter (parse_int (or_default (lookup attempt_annotation wl.annotations) (codes "1")))

unfoldable pub infra_attempt_of : Workload → ℕ
unfolding counter
infra_attempt_of wl =
    counter (parse_int (or_default (lookup infra_attempt_annotation wl.annotations) (codes "1")))

first_issue : List ℕ → Text → ℕ
first_issue [] name = issue_from_name name
first_issue (n ∷ issues) name = n

unfoldable pub item_from_workload : Workload → ClaimedItem
unfolding first_issue
item_from_workload wl = record {
  repo = wl.spec.repo;
  issue_number = first_issue wl.spec.issues wl.name;
  intent = wl.spec.intent;
  lane = or_default (lookup lane_label wl.labels) [];
  issue_id = or_default (lookup issue_id_annotation wl.annotations) [];
}

-- Dispatch's current lane of (repository, issue number).
abbrev pub LaneIndex : Type 0
LaneIndex = List (Text × ℕ × Text)

unfoldable pub lookup_lane : Text → ℕ → LaneIndex → Option Text
lookup_lane repo n [] = none
lookup_lane repo n ((r, m, lane) ∷ index) =
    if repo == r && nat_eq n m then some lane else lookup_lane repo n index

abbrev lane_or : Option Text → Text → Text
lane_or none lane = lane
lane_or (some []) lane = lane
lane_or (some (c ∷ s)) lane = c ∷ s

unfoldable pub refresh_lane : ClaimedItem → LaneIndex → ClaimedItem
unfolding lookup_lane
refresh_lane item index = record item {
  lane = lane_or (lookup_lane item.repo item.issue_number index) item.lane;
}
