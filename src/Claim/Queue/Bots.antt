-- ===== src/Claim/Queue/Bots.antt =====
-- bridge/claim.py: the issues that a bot maintains.
use foreman_dispatch_bridge.Base.{◌≡◌, ◌↔◌, false, Option, none, some, List, [], ◌∷◌, All, arith}
use foreman_dispatch_bridge.Base.Text.{Text, lower, starts_with, contains_text, mem_text}
use foreman_dispatch_bridge.Base.Json.{
  Json, null, boolean, num, str, arr, obj, Fields, get, or_else,
}
use foreman_dispatch_bridge.Base.Text.{codes}
use foreman_dispatch_bridge.Claim.Queue.{
  Skip, or_skip, title_substrings, title_prefixes, renovate_labels, labels_of, label_name,
  first_substring, first_prefix, bot_label_of, first_label, title_of, renovate_reason,
}

-- The lower case of an item's title.
abbrev pub title_text : (Json → Text) → Fields → Text
title_text repr item = title_of repr (or_else (get (codes "title") item) (str []))

-- Not the name of a bot's label.
abbrev pub IsOwnName : Json → Type 0
IsOwnName (str name) = mem_text (lower name) renovate_labels ≡ false
IsOwnName _ = Unit

-- The title has none of the bots' phrases in it, begins with none of their prefixes, and no label has the
-- name of one of theirs.
abbrev pub IsOwn : (Json → Text) → Fields → Type 0
IsOwn repr item =
    All (λ t. contains_text (title_text repr item) t ≡ false) title_substrings
    × All (λ t. starts_with (title_text repr item) t ≡ false) title_prefixes
    × All (λ label. IsOwnName (label_name label)) (labels_of item)

first_substring_iff :
    (title : Text) (ts : List Text)
    → (first_substring title ts ≡ none) ↔ All (λ t. contains_text title t ≡ false) ts
unfolding first_substring
first_substring_iff title [] = ground arith
first_substring_iff title (t ∷ ts) = ground (arith, first_substring_iff title ts)

first_prefix_iff :
    (title : Text) (ts : List Text)
    → (first_prefix title ts ≡ none) ↔ All (λ t. starts_with title t ≡ false) ts
unfolding first_prefix
first_prefix_iff title [] = ground arith
first_prefix_iff title (t ∷ ts) = ground (arith, first_prefix_iff title ts)

bot_label_of_iff : (name : Json) → (bot_label_of name ≡ none) ↔ IsOwnName name
unfolding bot_label_of
bot_label_of_iff (str name) = ground arith
bot_label_of_iff null = ground arith
bot_label_of_iff (boolean b) = ground arith
bot_label_of_iff (num n) = ground arith
bot_label_of_iff (arr js) = ground arith
bot_label_of_iff (obj fs) = ground arith

or_skip_iff : (a b : Option Skip) → (or_skip a b ≡ none) ↔ ((a ≡ none) × (b ≡ none))
or_skip_iff none b = ground arith
or_skip_iff (some x) b = ground arith

first_label_iff :
    (labels : List Json)
    → (first_label labels ≡ none) ↔ All (λ label. IsOwnName (label_name label)) labels
unfolding first_label
first_label_iff [] = ground arith
first_label_iff (label ∷ labels) = ground (
  arith,
  or_skip_iff (bot_label_of (label_name label)) (first_label labels),
  bot_label_of_iff (label_name label),
  first_label_iff labels,
)

-- `_renovate_reason` finds no reason exactly where the item is no bot's.
pub renovate_reason_iff :
    (repr : Json → Text) (item : Fields) → (renovate_reason repr item ≡ none) ↔ IsOwn repr item
unfolding renovate_reason
renovate_reason_iff repr item = ground (
  arith,
  or_skip_iff (first_substring (title_text repr item) title_substrings)
      (or_skip (first_prefix (title_text repr item) title_prefixes) (first_label (labels_of item))),
  or_skip_iff (first_prefix (title_text repr item) title_prefixes) (first_label (labels_of item)),
  first_substring_iff (title_text repr item) title_substrings,
  first_prefix_iff (title_text repr item) title_prefixes,
  first_label_iff (labels_of item),
)
