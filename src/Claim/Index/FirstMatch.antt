-- ===== src/Claim/Index/FirstMatch.antt =====
-- bridge/claim.py: the first match that `find_issue_id` and `lane_index` both mean.
use foreman_dispatch_bridge.Base.{
  ◌≡◌, refl, ◌∙◌, Bool, true, false, ◌&&◌, not, Option, none, some, List, [], ◌∷◌, if◌then◌else◌,
  given, All, any, ◌||◌, arith,
}
use foreman_dispatch_bridge.Base.Text.{Text, ◌==◌, eq_iff, is_empty}
use foreman_dispatch_bridge.Base.Int.{ℤ, pos, eq_ℤ}
use foreman_dispatch_bridge.Base.Dict.{Dict}
use foreman_dispatch_bridge.Base.Json.{Json, null, boolean, num, str, arr, obj, Fields, truthy}
use foreman_dispatch_bridge.PrFix.Mergeable.{shown, loop}
use foreman_dispatch_bridge.Claim.Queue.{is_text}
use foreman_dispatch_bridge.Claim.Client.{id_of}
use foreman_dispatch_bridge.Claim.Index.{
  queue_of, item_number, repo_of, Index, lane_in, find_in, found_or, find_issue_id, index_item,
}

-- A dict of the queue has a repository and a number; other elements do not matter.
abbrev pub IsSound : Json → Type 0
IsSound (obj item) =
    (repo : Text) × (n : ℤ) × (repo_of item ≡ str repo) × (item_number item ≡ some n)
IsSound _ = Unit

abbrev is_number : Option ℤ → ℤ → Bool
is_number none n = false
is_number (some m) n = eq_ℤ m n

-- The item is the issue.
unfoldable pub stands : (repo : Text) → ℤ → Fields → Bool
stands repo n item = is_text (repo_of item) repo && is_number (item_number item) n

-- The first item of a queue that is the issue.
unfoldable pub first_in : (repo : Text) → ℤ → List Json → Option Fields
first_in repo n [] = none
first_in repo n (obj item ∷ js) =
    let rest = first_in repo n js in if stands repo n item then some item else rest
first_in repo n (_ ∷ js) = first_in repo n js

abbrev pub match_or :
    (lane : Text) → Option Fields → Option (Text × Fields) → Option (Text × Fields)
match_or lane none rest = rest
match_or lane (some item) rest = some (lane, item)

-- The first lane with such an item, and its first such item.
unfoldable pub first_match :
    Dict (List Json) → (lanes : List Text) → (repo : Text) → ℤ → Option (Text × Fields)
first_match snapshot [] repo n = none
first_match snapshot (lane ∷ lanes) repo n =
    match_or lane (first_in repo n (queue_of snapshot lane)) (first_match snapshot lanes repo n)

nil_ne : (t : Text) → is_empty t ≡ false → ([] == t) ≡ false
unfolding ◌==◌
nil_ne [] h = cc
nil_ne (c ∷ s) h = refl

eq_sym : (s t : Text) → (s == t) ≡ (t == s)
eq_sym s t = ground (arith, eq_iff s t, eq_iff t s)

not_both :
    (b : Bool) (m n : ℤ) → eq_ℤ m (pos 0) ≡ true → eq_ℤ n (pos 0) ≡ false → (b && eq_ℤ m n) ≡ false
not_both b m n h k = ground arith

module _ (repr : Json → Text) (repo : Text) (n : ℤ) where
  found_id : Option Fields → Option Text
  found_id none = none
  found_id (some item) = some (shown repr (id_of item))

  find_in-first_in :
      (js : List Json)
      → All IsSound js
      → find_in repr repo n js ≡ some (found_id (first_in repo n js))
  unfolding find_in first_in stands given found_id
  find_in-first_in [] h = refl
  find_in-first_in (obj item ∷ js) ((r, m, e, f), h) =
      let ih = find_in-first_in js h in rw (e, f) (by_case (r == repo) (eq_ℤ m n) ih)
    where
      by_case :
          (a b : Bool)
          → find_in repr repo n js ≡ some (found_id (first_in repo n js))
          → (if a
              then (if b then some (some (shown repr (id_of item))) else find_in repr repo n js)
              else find_in repr repo n js)
            ≡ some (found_id (if a && b then some item else first_in repo n js))
      by_case true true ih = refl
      by_case true false ih = ih
      by_case false b ih = ih
  find_in-first_in (null ∷ js) (_, h) = find_in-first_in js h
  find_in-first_in (boolean b ∷ js) (_, h) = find_in-first_in js h
  find_in-first_in (num k ∷ js) (_, h) = find_in-first_in js h
  find_in-first_in (str t ∷ js) (_, h) = find_in-first_in js h
  find_in-first_in (arr ks ∷ js) (_, h) = find_in-first_in js h

  -- The id of the first match, empty without one.
  pub id_of_match : Option (Text × Fields) → Text
  id_of_match none = []
  id_of_match (some (lane, item)) = shown repr (id_of item)

  -- Every queue is sound.
  abbrev pub AllSound : Dict (List Json) → List Text → Type 0
  AllSound snapshot lanes = All (λ lane. All IsSound (queue_of snapshot lane)) lanes

  pub find_issue_id-first_match :
      (snapshot : Dict (List Json)) (lanes : List Text)
      → AllSound snapshot lanes
      → find_issue_id repr snapshot lanes repo n
        ≡ some (id_of_match (first_match snapshot lanes repo n))
  unfolding find_issue_id first_match given found_id id_of_match
  find_issue_id-first_match snapshot [] h = refl
  find_issue_id-first_match snapshot (lane ∷ lanes) (h, hs) =
      rw (find_in-first_in (queue_of snapshot lane) h) (
        by_match (first_in repo n (queue_of snapshot lane))
          (find_issue_id-first_match snapshot lanes hs))
    where
      by_match :
          (m : Option Fields)
          → find_issue_id repr snapshot lanes repo n
            ≡ some (id_of_match (first_match snapshot lanes repo n))
          → found_or repr (found_id m) (find_issue_id repr snapshot lanes repo n)
            ≡ some (id_of_match (match_or lane m (first_match snapshot lanes repo n)))
      by_match none ih = ih
      by_match (some item) ih = refl

  module _ (named : is_empty repo ≡ false) (numbered : eq_ℤ n (pos 0) ≡ false) where
    -- An index with the lane of a match in front of another index.
    abbrev pub Over : Option Index → (lane : Text) → Bool → Index → Type 0
    Over o lane b index =
        (index' : Index) × (o ≡ some index')
        × (lane_in repo n index' ≡ (if b then some lane else lane_in repo n index))

    index_item-Over :
        (lane : Text) (index : Index) (item : Fields)
        → IsSound (obj item)
        → Over (index_item repr lane index (obj item)) lane (stands repo n item) index
    unfolding index_item stands lane_in given shown
    index_item-Over lane index item (r, m, e, f) = rw (e, f) (by_repo r (eq_ℤ m (pos 0)) refl)
      where
        by_repo :
            (r : Text) (z : Bool)
            → eq_ℤ m (pos 0) ≡ z
            → Over
                (if truthy (str r) && not z then some ((r, m, lane) ∷ index) else some index)
                lane
                (r == repo && eq_ℤ m n)
                index
        by_repo [] z e = (index, refl, rw (nil_ne repo named) refl)
        by_repo (c ∷ s) true e = (index, refl, rw (not_both (c ∷ s == repo) m n e numbered) refl)
        by_repo (c ∷ s) false e = ((c ∷ s, m, lane) ∷ index, refl, rw (eq_sym repo (c ∷ s)) refl)

    abbrev pub is_match : Json → Bool
    is_match (obj item) = stands repo n item
    is_match _ = false

    index_json-Over :
        (lane : Text) (index : Index) (j : Json)
        → IsSound j
        → Over (index_item repr lane index j) lane (is_match j) index
    unfolding index_item
    index_json-Over lane index (obj item) h = index_item-Over lane index item h
    index_json-Over lane index null h = (index, refl, refl)
    index_json-Over lane index (boolean b) h = (index, refl, refl)
    index_json-Over lane index (num k) h = (index, refl, refl)
    index_json-Over lane index (str t) h = (index, refl, refl)
    index_json-Over lane index (arr js) h = (index, refl, refl)

    Over-trans :
        (o : Option Index) (lane : Text) (a b : Bool) (index middle : Index)
        → lane_in repo n middle ≡ (if a then some lane else lane_in repo n index)
        → Over o lane b middle
        → Over o lane (a || b) index
    Over-trans o lane true true index middle e (i, f, g) = (i, f, g)
    Over-trans o lane true false index middle e (i, f, g) = (i, f, g ∙ e)
    Over-trans o lane false true index middle e (i, f, g) = (i, f, g)
    Over-trans o lane false false index middle e (i, f, g) = (i, f, g ∙ e)

    pub index_queue-Over :
        (lane : Text) (index : Index) (js : List Json)
        → All IsSound js
        → Over (loop (index_item repr lane) index js) lane (any is_match js) index
    unfolding loop given
    index_queue-Over lane index [] h = (index, refl, refl)
    index_queue-Over lane index (j ∷ js) (h, hs) =
        let (middle, e, l) = index_json-Over lane index j h in
        rw e (
          Over-trans _ lane (is_match j) (any is_match js) index middle l
            (index_queue-Over lane middle js hs))
