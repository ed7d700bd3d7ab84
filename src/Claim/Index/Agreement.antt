-- ===== src/Claim/Index/Agreement.antt =====
-- bridge/claim.py: `lane_index` and `find_issue_id` on one snapshot.
use foreman_dispatch_bridge.Base.{
  ◌≡◌, refl, sym, ap, ◌∙◌, Bool, true, false, ◌||◌, Option, none, some, List, [], ◌∷◌, ◌++◌,
  if◌then◌else◌, given, any,
}
use mathlib.Core.List.{reverse, reverse-append}
use foreman_dispatch_bridge.Base.Text.{Text, is_empty}
use foreman_dispatch_bridge.Base.Int.{ℤ, pos, eq_ℤ}
use foreman_dispatch_bridge.Base.Dict.{Dict}
use foreman_dispatch_bridge.Base.Json.{Json, null, boolean, num, str, arr, obj, Fields}
use foreman_dispatch_bridge.PrFix.Mergeable.{loop}
use foreman_dispatch_bridge.Claim.Index.{
  queue_of, Index, lane_in, find_issue_id, index_lane, lane_index,
}
use foreman_dispatch_bridge.Claim.Index.FirstMatch.{
  stands, first_in, match_or, first_match, id_of_match, AllSound, find_issue_id-first_match,
  is_match, index_queue-Over,
}

loop-append {ℓ κ} :
    {S : Type ℓ} {A : Type κ} (step : S → A → Option S) (s : S) (xs ys : List A)
    → loop step s (xs ++ ys) ≡ given (loop step s xs) none (λ s'. loop step s' ys)
unfolding loop given
loop-append step s [] ys = refl
loop-append step s (x ∷ xs) ys = by_step (step s x) (λ s'. loop-append step s' xs ys)
  where
    by_step :
        (o : Option _)
        → ((s' : _) → loop step s' (xs ++ ys) ≡ given (loop step s' xs) none (λ t. loop step t ys))
        → given o none (λ s'. loop step s' (xs ++ ys))
          ≡ given (given o none (λ s'. loop step s' xs)) none (λ s'. loop step s' ys)
    by_step none ih = refl
    by_step (some s') ih = ih s'

pub lane_of_match : Option (Text × Fields) → Option Text
lane_of_match none = none
lane_of_match (some (lane, item)) = some lane

module _ (repr : Json → Text) (repo : Text) (n : ℤ) (named : is_empty repo ≡ false)
    (numbered : eq_ℤ n (pos 0) ≡ false) where
  abbrev matches : Json → Bool
  matches = is_match repr repo n named numbered

  first_in-any :
      (lane : Text) (js : List Json) (rest : Option (Text × Fields))
      → lane_of_match (match_or lane (first_in repo n js) rest)
        ≡ (if any matches js then some lane else lane_of_match rest)
  unfolding first_in lane_of_match
  first_in-any lane [] rest = refl
  first_in-any lane (obj item ∷ js) rest = by_item (stands repo n item) (first_in-any lane js rest)
    where
      by_item :
          (b : Bool)
          → lane_of_match (match_or lane (first_in repo n js) rest)
            ≡ (if any matches js then some lane else lane_of_match rest)
          → lane_of_match (match_or lane (if b then some item else first_in repo n js) rest)
            ≡ (if b || any matches js then some lane else lane_of_match rest)
      by_item true ih = refl
      by_item false ih = ih
  first_in-any lane (null ∷ js) rest = first_in-any lane js rest
  first_in-any lane (boolean b ∷ js) rest = first_in-any lane js rest
  first_in-any lane (num k ∷ js) rest = first_in-any lane js rest
  first_in-any lane (str t ∷ js) rest = first_in-any lane js rest
  first_in-any lane (arr ks ∷ js) rest = first_in-any lane js rest

  lane_index-first_match :
      (snapshot : Dict (List Json)) (lanes : List Text)
      → AllSound repr repo n snapshot lanes
      → (index : Index) × (lane_index repr snapshot lanes ≡ some index)
        × (lane_in repo n index ≡ lane_of_match (first_match snapshot lanes repo n))
  unfolding lane_index lane_in first_match lane_of_match given
  lane_index-first_match snapshot [] h = ([], refl, refl)
  lane_index-first_match snapshot (lane ∷ lanes) (h, hs) =
      let (index, e, f) = lane_index-first_match snapshot lanes hs in
      let (index', e', f') =
        index_queue-Over repr repo n named numbered lane index (queue_of snapshot lane) h in
      (
        index',
        ap (loop (index_lane repr snapshot) []) (reverse-append (lane ∷ []) lanes)
            ∙ loop-append (index_lane repr snapshot) [] (reverse lanes) (lane ∷ [])
            ∙ last lane index index' e e',
        f'
            ∙ added lane index f
            ∙ sym (first_in-any lane (queue_of snapshot lane) (first_match snapshot lanes repo n)),
      )
    where
      last :
          (lane : Text) (index index' : Index)
          → loop (index_lane repr snapshot) [] (reverse lanes) ≡ some index
          → index_lane repr snapshot index lane ≡ some index'
          → given
              (loop (index_lane repr snapshot) [] (reverse lanes))
              none
              (λ s. loop (index_lane repr snapshot) s (lane ∷ []))
            ≡ some index'
      last lane index index' e e' = rw e (rw e' refl)

      added :
          (lane : Text) (index : Index)
          → lane_in repo n index ≡ lane_of_match (first_match snapshot lanes repo n)
          → (if any matches (queue_of snapshot lane) then some lane else lane_in repo n index) ≡ (
              if any matches (queue_of snapshot lane)
              then some lane
              else lane_of_match (first_match snapshot lanes repo n))
      added lane index f = rw f refl

  -- On a snapshot whose items have a repository and a number, the index of the lanes and the search for
  -- an id find one match for an issue with a repository's name and a number other than 0: the first such
  -- item of the first lane that has one. The index gives its lane, the search its id; without a match
  -- the index has no entry and the id is empty.
  pub lane_index-find_issue_id :
      (snapshot : Dict (List Json)) (lanes : List Text)
      → AllSound repr repo n snapshot lanes
      → (index : Index) × (lane_index repr snapshot lanes ≡ some index)
        × (lane_in repo n index ≡ lane_of_match (first_match snapshot lanes repo n))
        × (find_issue_id repr snapshot lanes repo n
            ≡ some (id_of_match repr repo n (first_match snapshot lanes repo n)))
  lane_index-find_issue_id snapshot lanes h =
      let (index, e, f) = lane_index-first_match snapshot lanes h in
      (index, e, f, find_issue_id-first_match repr repo n snapshot lanes h)
