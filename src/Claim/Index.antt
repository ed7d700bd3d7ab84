-- ===== src/Claim/Index.antt =====
-- bridge/claim.py: `find_issue_id` and `lane_index`, over the queues of the lanes. A repository is a
-- text or missing. `none` is an exception of `int`.
use foreman_dispatch_bridge.Base.{
  Bool, true, false, ◌&&◌, not, Option, none, some, List, [], ◌∷◌, if◌then◌else◌, given, or_default,
}
use mathlib.Core.List.{reverse}
use foreman_dispatch_bridge.Base.Text.{Text, codes, ◌==◌}
use foreman_dispatch_bridge.Base.Int.{ℤ, pos, eq_ℤ}
use foreman_dispatch_bridge.Base.Dict.{Dict, lookup}
use foreman_dispatch_bridge.Base.Json.{
  Json, null, boolean, num, str, arr, obj, Fields, get, truthy, or_else, items,
}
use foreman_dispatch_bridge.Base.Effects.{Result, ok, raise}
use foreman_dispatch_bridge.PrFix.Mergeable.{shown, loop}
use foreman_dispatch_bridge.Claim.Queue.{is_text}
use foreman_dispatch_bridge.Claim.Client.{int_of_json, number_of, id_of}
pub mod FirstMatch
pub mod Agreement

-- `data if isinstance(data, list) else []`
abbrev list_of : Json → List Json
list_of (arr js) = items js
list_of _ = []

abbrev list_or_none : Result Json → List Json
list_or_none (ok v) = list_of v
list_or_none (raise e) = []

-- `queues`: the queue of each lane, empty where its GET raises. The order in which the GETs end is not
-- seen in the dict.
unfoldable pub queues :
    (http_get : Text → Result Json) → (url : Text → Text) → List Text → Dict (List Json)
queues http_get url [] = []
queues http_get url (lane ∷ lanes) =
    (lane, list_or_none (http_get (url lane))) ∷ queues http_get url lanes

-- `queue_snapshot.get(lane, [])`
unfoldable pub queue_of : Dict (List Json) → Text → List Json
queue_of snapshot lane = or_default (lookup lane snapshot) []

-- `int(_number(item) or 0)`
unfoldable pub item_number : Fields → Option ℤ
item_number item = int_of_json (or_else (number_of item) (num (pos 0)))

abbrev pub repo_of : Fields → Json
repo_of item = get (codes "repoFullName") item

-- The lane of each (repository, number): the dict as a list, the newest entry first.
abbrev pub Index : Type 0
Index = List (Text × ℤ × Text)

-- `index.get((repo, n))`
unfoldable pub lane_in : Text → ℤ → Index → Option Text
lane_in repo n [] = none
lane_in repo n ((r, m, lane) ∷ index) =
    if repo == r && eq_ℤ m n then some lane else lane_in repo n index

module _ (repr : Json → Text) where
  -- The inner loop of `find_issue_id`: the id, once the issue is met.
  unfoldable pub find_in : (repo : Text) → ℤ → List Json → Option (Option Text)
  unfolding item_number
  find_in repo n [] = some none
  find_in repo n (obj item ∷ js) =
      let rest = find_in repo n js in
      if is_text (repo_of item) repo
      then (given (item_number item) none
          λ m. if eq_ℤ m n then some (some (shown repr (id_of item))) else rest)
      else rest
  find_in repo n (_ ∷ js) = find_in repo n js

  abbrev found_or : Option Text → Option Text → Option Text
  found_or none rest = rest
  found_or (some id) rest = some id

  -- `find_issue_id`
  unfoldable pub find_issue_id :
      Dict (List Json) → (lanes : List Text) → (repo : Text) → ℤ → Option Text
  unfolding find_in queue_of
  find_issue_id snapshot [] repo n = some []
  find_issue_id snapshot (lane ∷ lanes) repo n =
      let rest = find_issue_id snapshot lanes repo n in
      given (find_in repo n (queue_of snapshot lane)) none λ found. found_or found rest

  -- The body of the inner loop of `lane_index`.
  unfoldable pub index_item : (lane : Text) → Index → Json → Option Index
  unfolding item_number
  index_item lane index (obj item) = given (item_number item) none λ n.
      if truthy (repo_of item) && not (eq_ℤ n (pos 0))
      then some ((shown repr (repo_of item), n, lane) ∷ index)
      else some index
  index_item lane index _ = some index

  -- The body of its outer loop.
  unfoldable pub index_lane : Dict (List Json) → Index → (lane : Text) → Option Index
  unfolding index_item queue_of loop
  index_lane snapshot index lane = loop (index_item lane) index (queue_of snapshot lane)

  -- `lane_index`
  unfoldable pub lane_index : Dict (List Json) → (lanes : List Text) → Option Index
  unfolding index_lane loop
  lane_index snapshot lanes = loop (index_lane snapshot) [] (reverse lanes)
