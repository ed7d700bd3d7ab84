-- ===== src/Claim/Queue.antt =====
-- bridge/claim.py: which items of Dispatch's queue the bridge claims. The labels of an item are a list, or
-- missing. `repr` is Python's `str` on values that are not texts.
use foreman_dispatch_bridge.Base.{
  Bool, true, false, ◌&&◌, ◌||◌, not, Option, none, some, List, [], ◌∷◌, ◌++◌, if◌then◌else◌, any,
  keep, is_some,
}
use foreman_dispatch_bridge.Base.Text.{
  Text, codes, ◌==◌, lower, starts_with, contains_text, mem_text,
}
use foreman_dispatch_bridge.Base.Json.{
  Json, null, boolean, num, str, arr, obj, Fields, get, truthy, or_else, items,
}
pub mod Bots
pub mod Selected

unfoldable pub title_substrings : List Text
title_substrings = codes "dependency dashboard" ∷ codes "renovate dashboard" ∷ []

unfoldable pub title_prefixes : List Text
title_prefixes = codes "update dep" ∷ codes "update image" ∷ []

unfoldable pub renovate_labels : List Text
renovate_labels = codes "renovate" ∷ codes "dependencies" ∷ codes "automated" ∷ []

-- Why an item is skipped.
pub data Skip : Type 0 where
  title_substring : Text → Skip
  title_prefix : Text → Skip
  bot_label : Text → Skip
  lane_mismatch : Json → Skip
  not_ready : Json → Skip
  not_claimable : Skip

unfoldable pub labels_of : Fields → List Json
labels_of item = listed_labels (get (codes "labels") item)
  where
    listed_labels : Json → List Json
    listed_labels (arr js) = items js
    listed_labels _ = []

unfoldable pub label_name : Json → Json
label_name (obj label) = get (codes "name") label
label_name label = label

first_substring : Text → List Text → Option Skip
first_substring title [] = none
first_substring title (t ∷ ts) =
    let rest = first_substring title ts in
    if contains_text title t then some (title_substring t) else rest

first_prefix : Text → List Text → Option Skip
first_prefix title [] = none
first_prefix title (t ∷ ts) =
    let rest = first_prefix title ts in if starts_with title t then some (title_prefix t) else rest

bot_label_of : Json → Option Skip
unfolding renovate_labels
bot_label_of (str name) =
    if mem_text (lower name) renovate_labels then some (bot_label (lower name)) else none
bot_label_of _ = none

abbrev or_skip : Option Skip → Option Skip → Option Skip
or_skip none b = b
or_skip (some a) b = some a

first_label : List Json → Option Skip
unfolding bot_label_of label_name
first_label [] = none
first_label (label ∷ labels) =
    let rest = first_label labels in or_skip (bot_label_of (label_name label)) rest

status_name : Json → Option Text
status_name (str name) = if starts_with name (codes "status/") then some name else none
status_name _ = none

first_status : List Json → Option Text
unfolding status_name label_name
first_status [] = none
first_status (label ∷ labels) =
    let rest = first_status labels in
    elim (status_name (label_name label)) [ none ↦ rest | some t ↦ some t ]

-- `_lane(item)`
unfoldable pub lane_of : Fields → Json
lane_of item = or_else (get (codes "lane") item) (get (codes "currentLane") item)

-- `_status(item)`
unfoldable pub status_of : Fields → Json
unfolding first_status labels_of
status_of item = elim (first_status (labels_of item)) [
  | none ↦ get (codes "status") item
  | some t ↦ str t
]

-- `j == t` for a text t.
abbrev pub is_text : Json → Text → Bool
is_text (str s) t = s == t
is_text _ t = false

abbrev pub is_true : Json → Bool
is_true (boolean b) = b
is_true _ = false

module _ (repr : Json → Text) where
  unfoldable pub title_of : Json → Text
  title_of (str t) = lower t
  title_of j = lower (repr j)

  unfoldable pub renovate_reason : Fields → Option Skip
  unfolding title_of first_substring first_prefix first_label labels_of title_substrings
      title_prefixes
  renovate_reason item =
      let title = title_of (or_else (get (codes "title") item) (str [])) in
      or_skip (first_substring title title_substrings)
        (or_skip (first_prefix title title_prefixes) (first_label (labels_of item)))

  -- The reason to skip an item, tested in the order of the code.
  unfoldable pub skip_of : Text → Fields → Option Skip
  unfolding renovate_reason lane_of status_of
  skip_of lane item = or_skip (renovate_reason item) (
      if not (is_text (or_else (lane_of item) (str lane)) lane)
      then some (lane_mismatch (lane_of item))
      else if not (is_text (status_of item) (codes "status/ready"))
      then some (not_ready (status_of item))
      else if not (is_true (get (codes "claimable") item))
          && not (is_true (get (codes "agentMatch") item))
      then some not_claimable
      else none)

  unfoldable pub select_candidates : List Json → Text → List Fields
  unfolding skip_of
  select_candidates [] lane = []
  select_candidates (obj item ∷ js) lane =
      let rest = select_candidates js lane in
      if is_some (skip_of lane item) then rest else item ∷ rest
  select_candidates (_ ∷ js) lane = select_candidates js lane

  -- The first candidate.
  unfoldable pub select_item : List Json → Text → Option Fields
  unfolding select_candidates
  select_item js lane = elim (select_candidates js lane) [ [] ↦ none | item ∷ rest ↦ some item ]
