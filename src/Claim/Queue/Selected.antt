-- ===== src/Claim/Queue/Selected.antt =====
-- bridge/claim.py: the items that the filters leave.
use foreman_dispatch_bridge.Base.{
  ◌≡◌, ◌≢◌, ◌↔◌, ◌⊎◌, refl, sym, ap, ◌∙◌, Bool, true, false, ◌&&◌, not, Option, none, some, List,
  [], ◌∷◌, if◌then◌else◌, is_some, Any, Bool-cases, Option-cases, inl, inr, arith,
}
use mathlib.Core.Bool.{true≢false}
use foreman_dispatch_bridge.Base.Text.{Text, codes}
use foreman_dispatch_bridge.Base.Json.{
  Json, null, boolean, num, str, arr, obj, Fields, end, get, or_else,
}
use foreman_dispatch_bridge.Claim.Queue.Bots.{IsOwn, renovate_reason_iff}
use foreman_dispatch_bridge.Claim.Queue.{
  Skip, or_skip, lane_mismatch, not_ready, not_claimable, lane_of, status_of, is_text, is_true,
  renovate_reason, skip_of, select_candidates, select_item,
}

-- No bot's issue, by title and labels, in this lane or in none, ready, and offered to this agent.
abbrev pub IsCandidate : (Json → Text) → Text → Fields → Type 0
IsCandidate repr lane item =
    IsOwn repr item
    × (is_text (or_else (lane_of item) (str lane)) lane ≡ true)
    × (is_text (status_of item) (codes "status/ready") ≡ true)
    × ((is_true (get (codes "claimable") item) ≡ true)
        ⊎ (is_true (get (codes "agentMatch") item) ≡ true))

-- What is selected of a list: each candidate of it, as often as it stands there and in its order, and
-- nothing else.
pub data Selects (repr : Json → Text) (lane : Text) : List Json → List Fields → Type 0 where
  end_of_queue : Selects repr lane [] []
  taken :
      {item : Fields} {js : List Json} {items : List Fields}
      → IsCandidate repr lane item
      → Selects repr lane js items
      → Selects repr lane (obj item ∷ js) (item ∷ items)
  passed_over :
      {item : Fields} {js : List Json} {items : List Fields}
      → ¬ IsCandidate repr lane item
      → Selects repr lane js items
      → Selects repr lane (obj item ∷ js) items
  no_object :
      {j : Json} {js : List Json} {items : List Fields}
      → ((item : Fields) → j ≢ obj item)
      → Selects repr lane js items
      → Selects repr lane (j ∷ js) items

fields_of : Json → Fields
fields_of (obj item) = item
fields_of _ = end

module _ (repr : Json → Text) (lane : Text) where
  tests_iff :
      (o : Option Skip) (a b c : Skip) (in_lane ready claimable match : Bool)
      → (or_skip o (
            if not in_lane
            then some a
            else if not ready
            then some b
            else if not claimable && not match
            then some c
            else none)
          ≡ none)
        ↔ ((o ≡ none) × (in_lane ≡ true) × (ready ≡ true) × ((claimable ≡ true) ⊎ (match ≡ true)))
  tests_iff o a b c in_lane ready claimable match = ground arith

  skip_of_iff : (item : Fields) → (skip_of repr lane item ≡ none) ↔ IsCandidate repr lane item
  unfolding skip_of
  skip_of_iff item = ground (
    arith,
    renovate_reason_iff repr item,
    tests_iff (renovate_reason repr item) (lane_mismatch (lane_of item))
        (not_ready (status_of item)) not_claimable
        (is_text (or_else (lane_of item) (str lane)) lane)
        (is_text (status_of item) (codes "status/ready")) (is_true (get (codes "claimable") item))
        (is_true (get (codes "agentMatch") item)),
  )

  is_some-skip_of :
      (item : Fields) → IsCandidate repr lane item → is_some (skip_of repr lane item) ≡ false
  is_some-skip_of item h = rw ((skip_of_iff item).1 h) refl

  not_skipped :
      (item : Fields) → is_some (skip_of repr lane item) ≡ false → IsCandidate repr lane item
  not_skipped item h = elim (Option-cases (skip_of repr lane item)) [
    | inl e ↦ (skip_of_iff item).0 e
    | inr (s, e) ↦ absurd (true≢false (sym (ap is_some e) ∙ h))
  ]

  skipped : (item : Fields) → is_some (skip_of repr lane item) ≡ true → ¬ IsCandidate repr lane item
  skipped item h c = true≢false (sym h ∙ is_some-skip_of item c)

  select_candidates-Selects :
      (js : List Json) → Selects repr lane js (select_candidates repr js lane)
  unfolding select_candidates
  select_candidates-Selects [] = end_of_queue
  select_candidates-Selects (obj item ∷ js) = elim (Bool-cases (is_some (skip_of repr lane item))) [
    | inl e ↦ rw e (passed_over (skipped item e) (select_candidates-Selects js))
    | inr e ↦ rw e (taken (not_skipped item e) (select_candidates-Selects js))
  ]
  select_candidates-Selects (null ∷ js) = no_object (λ i e. cc) (select_candidates-Selects js)
  select_candidates-Selects (boolean b ∷ js) = no_object (λ i e. cc) (select_candidates-Selects js)
  select_candidates-Selects (num n ∷ js) = no_object (λ i e. cc) (select_candidates-Selects js)
  select_candidates-Selects (str t ∷ js) = no_object (λ i e. cc) (select_candidates-Selects js)
  select_candidates-Selects (arr xs ∷ js) = no_object (λ i e. cc) (select_candidates-Selects js)

  reaches :
      (item : Fields) (js : List Json)
      → IsCandidate repr lane item
      → Any (λ j. j ≡ obj item) js
      → Any (λ i. i ≡ item) (select_candidates repr js lane)
  unfolding select_candidates fields_of
  reaches item [] c h = elim h [ ]
  reaches item (obj other ∷ js) c h = elim h [
    | inl e ↦
        rw (ap (λ i. is_some (skip_of repr lane i)) (ap fields_of e) ∙ is_some-skip_of item c)
          (inl (ap fields_of e))
    | inr k ↦ elim (Bool-cases (is_some (skip_of repr lane other))) [
      | inl e ↦ rw e (reaches item js c k)
      | inr e ↦ rw e (inr (reaches item js c k))
    ]
  ]
  reaches item (null ∷ js) c h = elim h [ inl e ↦ cc | inr k ↦ reaches item js c k ]
  reaches item (boolean b ∷ js) c h = elim h [ inl e ↦ cc | inr k ↦ reaches item js c k ]
  reaches item (num n ∷ js) c h = elim h [ inl e ↦ cc | inr k ↦ reaches item js c k ]
  reaches item (str t ∷ js) c h = elim h [ inl e ↦ cc | inr k ↦ reaches item js c k ]
  reaches item (arr xs ∷ js) c h = elim h [ inl e ↦ cc | inr k ↦ reaches item js c k ]

  head_of_Any :
      (item : Fields) (js : List Json)
      → Any (λ i. i ≡ item) (select_candidates repr js lane)
      → is_some (select_item repr js lane) ≡ true
  unfolding select_item
  head_of_Any item js h = some_head (select_candidates repr js lane) h
    where
      some_head :
          (xs : List Fields)
          → Any (λ i. i ≡ item) xs
          → is_some (elim xs [ [] ↦ none | i ∷ rest ↦ some i ]) ≡ true
      some_head [] k = elim k [ ]
      some_head (i ∷ rest) k = refl

-- The items that a lane may claim are those of the queue, each as often as it stands there and in its order,
-- that are no bot's issue by title or label, stand in this lane or in none, are ready, and are claimable or
-- match the agent, and no others; and where there is one, one is taken.
pub select_candidates_lem :
    (repr : Json → Text) (lane : Text) (js : List Json)
    → Selects repr lane js (select_candidates repr js lane)
      × ((item : Fields)
          → IsCandidate repr lane item
          → Any (λ j. j ≡ obj item) js
          → Any (λ i. i ≡ item) (select_candidates repr js lane)
            × (is_some (select_item repr js lane) ≡ true))
select_candidates_lem repr lane js = (
  select_candidates-Selects repr lane js,
  λ item c k.
      let reached = reaches repr lane item js c k in
      (reached, head_of_Any repr lane item js reached),
)
