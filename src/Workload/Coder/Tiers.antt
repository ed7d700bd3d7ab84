-- ===== src/Workload/Coder/Tiers.antt =====
-- How the tiers of `coder_agent_for` and the check before a claim work together.
use mathlib.Core.Option.{some-injective}
use foreman_dispatch_bridge.Base.{
  ℕ, ◌<◌, ◌≡◌, refl, ◌∙◌, ◌≢◌, inl, inr, true, false, Option, none, some, List, [], ◌∷◌, arith,
  is_empty, All, Any, all, sym, Bool-cases,
}
use foreman_dispatch_bridge.Base.Text.{Text, mem_text}
use foreman_dispatch_bridge.Base.Int.{leb_ℤ}
use foreman_dispatch_bridge.Base.Dict.{Dict, lookup, lookup-is_empty}
use foreman_dispatch_bridge.Lanes.{resolve}
use foreman_dispatch_bridge.Workload.Capacity.{
  Agents, one, many, Rotation, is_full, load_of, slots_for, coder_candidates, filter_fix_first,
  coders_saturated,
}
use foreman_dispatch_bridge.Workload.Capacity.Laws.{is_full-false}
use foreman_dispatch_bridge.Workload.Coder.{free_of, pick_coder, Routing, or_name, coder_agent_for}
use foreman_dispatch_bridge.Workload.Coder.Choice.{rotation, pick_coder-best, pick_coder-some}

abbrev pub IsName : Text → Type 0
IsName a = a ≢ []

resolve_exact :
    (routes : Routing) (lane : Text) {v : Agents}
    → lane ≢ []
    → lookup lane routes.lane_agents ≡ some v
    → resolve routes.topology routes.lane_agents lane ≡ some v
unfolding resolve
resolve_exact routes [] named e = absurd (named refl)
resolve_exact routes (c ∷ lane) named e =
    ground (arith, lookup-is_empty (c ∷ lane) routes.lane_agents e)

candidates_of_list :
    (lane : Text) (agents : Dict Agents) (r : Rotation) (names : List Text)
    → lookup lane agents ≡ some (many names)
    → coder_candidates lane agents r ≡ rotation r names
unfolding coder_candidates filter_fix_first
candidates_of_list lane agents r names e = ground arith

some_free :
    (r : Rotation) (names : List Text)
    → all (λ a. is_full a r.load r.slots) names ≡ false
    → Any (λ a. is_full a r.load r.slots ≡ false) names
some_free r [] h = cc
some_free r (a ∷ names) h = elim (Bool-cases (is_full a r.load r.slots)) [
  | inl e ↦ inr (some_free r names (ground arith))
  | inr e ↦ inl e
]

not_full_of_le :
    (r : Rotation) (a b : Text)
    → leb_ℤ (free_of r b) (free_of r a) ≡ true
    → is_full b r.load r.slots ≡ false
    → is_full a r.load r.slots ≡ false
unfolding is_full
not_full_of_le r a b h e = ground arith

not_full_of_Any :
    (r : Rotation) (a : Text) (names : List Text)
    → All (λ b. leb_ℤ (free_of r b) (free_of r a) ≡ true) names
    → Any (λ b. is_full b r.load r.slots ≡ false) names
    → is_full a r.load r.slots ≡ false
not_full_of_Any r a [] h k = elim k [ ]
not_full_of_Any r a (b ∷ names) h (inl e) = not_full_of_le r a b h.0 e
not_full_of_Any r a (b ∷ names) h (inr k) = not_full_of_Any r a names h.1 k

or_name_of : (o : Option Text) (d a : Text) → o ≡ some a → IsName a → or_name o d ≡ a
or_name_of none d a e h = cc
or_name_of (some []) d a e h = absurd (h (sym (some-injective [] a e)))
or_name_of (some (c ∷ s)) d a e h = some-injective (c ∷ s) a e

chosen :
    (routes : Routing) (lane : Text) (language : Option Text) (repo : Text) (n : ℕ) (r : Rotation)
    {v : Agents} {a : Text}
    → lane ≢ []
    → lookup lane routes.lane_agents ≡ some v
    → pick_coder (some v) n r ≡ some a
    → IsName a
    → coder_agent_for routes lane language repo n r ≡ a
unfolding coder_agent_for
chosen routes lane language repo n r {a = a} named entry picked is_name =
    rw (resolve_exact routes lane named entry) (or_name_of _ _ a picked is_name)

not_saturated :
    (r : Rotation) (names : List Text)
    → is_empty r.slots ≡ false
    → names ≢ []
    → coders_saturated names r.load r.slots ≡ false
    → all (λ a. is_full a r.load r.slots) names ≡ false
unfolding coders_saturated
not_saturated r [] s h e = absurd (h refl)
not_saturated r (a ∷ names) s h e = rw s at e

nothing_saturated : (r : Rotation) → coders_saturated [] r.load r.slots ≡ false
unfolding coders_saturated
nothing_saturated r = ground arith

no_candidates :
    (lane : Text) (agents : Dict Agents) (r : Rotation) (a : Text)
    → lookup lane agents ≡ some (one a)
    → mem_text a r.fix_first ≡ true
    → 0 < load_of a r.load
    → coder_candidates lane agents r ≡ []
unfolding coder_candidates filter_fix_first mem_text
no_candidates lane agents r a entry listed busy = ground arith

chosen_one :
    (routes : Routing) (lane : Text) (language : Option Text) (repo : Text) (n : ℕ) (r : Rotation)
    (a : Text)
    → lane ≢ []
    → lookup lane routes.lane_agents ≡ some (one a)
    → IsName a
    → coder_agent_for routes lane language repo n r ≡ a
unfolding pick_coder
chosen_one routes lane language repo n r a named entry is_name =
    chosen routes lane language repo n r named entry refl is_name

-- A lane with a list of coders that passes the check before the claim gives its issue to a coder
-- with a free slot: with slots configured, the lane's own entry a list of names, some of them left in
-- the rotation and not all of these full, the coder's load is below its slots.
pub coder_agent_for-has_room :
    (routes : Routing) (lane : Text) (language : Option Text) (repo : Text) (n : ℕ) (r : Rotation)
    (names : List Text)
    → lane ≢ []
    → lookup lane routes.lane_agents ≡ some (many names)
    → is_empty r.slots ≡ false
    → All IsName (rotation r names)
    → coder_candidates lane routes.lane_agents r ≢ []
    → coders_saturated (coder_candidates lane routes.lane_agents r) r.load r.slots ≡ false
    → load_of (coder_agent_for routes lane language repo n r) r.load
      < slots_for (coder_agent_for routes lane language repo n r) r.slots
coder_agent_for-has_room routes lane language repo n r names named entry sloted valid left free =
    let cands = candidates_of_list lane routes.lane_agents r names entry in
    let (a, picked, is_name) = pick_coder-some IsName names n r (λ p. left (cands ∙ p)) valid in
    let best = pick_coder-best names n r sloted picked in
    let room = not_full_of_Any r a (rotation r names) best (
      some_free r (rotation r names)
        (not_saturated r (rotation r names) sloted (λ p. left (cands ∙ p)) (rw cands at free))) in
    rw (chosen routes lane language repo n r named entry picked is_name)
      (is_full-false a r.load r.slots room)

-- A fix-first coder that stands alone in its lane's entry is not kept out of the rotation: while it
-- holds a Workload the check before the claim sees no candidate, so it does not hold the lane back,
-- and the issue goes to that coder.
pub fix_first_alone :
    (routes : Routing) (lane : Text) (language : Option Text) (repo : Text) (n : ℕ) (r : Rotation)
    (a : Text)
    → lane ≢ []
    → a ≢ []
    → lookup lane routes.lane_agents ≡ some (one a)
    → mem_text a r.fix_first ≡ true
    → 0 < load_of a r.load
    → (coder_candidates lane routes.lane_agents r ≡ [])
      × (coders_saturated (coder_candidates lane routes.lane_agents r) r.load r.slots ≡ false)
      × (coder_agent_for routes lane language repo n r ≡ a)
fix_first_alone routes lane language repo n r a named is_name entry listed busy =
    let none_left = no_candidates lane routes.lane_agents r a entry listed busy in
    (
      none_left,
      rw none_left (nothing_saturated r),
      chosen_one routes lane language repo n r a named entry is_name,
    )
