-- ===== src/Lanes/Resolution.antt =====
-- bridge/lanes.py: lookups by lane and by role.
use foreman_dispatch_bridge.Base.{
  ◌≡◌, refl, sym, ap, ◌∙◌, true, false, Option, none, some, List, [], ◌∷◌, ◌++◌, is_empty, All,
  Bool-cases, inl, inr,
}
use mathlib.Core.Bool.{true≢false}
use foreman_dispatch_bridge.Base.Text.{Text, ◌==◌, eq→, eq_refl}
use foreman_dispatch_bridge.Base.Dict.{Dict, lookup}
use foreman_dispatch_bridge.Lanes.{
  wildcard, Topology, role_of, has_role, first_with_role, lane_for_role, by_wildcard, by_role,
  resolve,
}

-- The first value that a list of keys finds.
abbrev pub first_hit {ℓ} : {A : Type ℓ} → List Text → Dict A → Option A
first_hit [] mapping = none
first_hit (k ∷ keys) mapping = elim (lookup k mapping) [
  | none ↦ first_hit keys mapping
  | some v ↦ some v
]

abbrev named : Text → List Text
named [] = []
named (c ∷ s) = (c ∷ s) ∷ []

abbrev role_key : Option Text → List Text
role_key none = []
role_key (some r) = named r

-- The keys under which a lane may be configured: its id, its role and the wildcard.
abbrev pub keys_of : Topology → Text → List Text
keys_of t lane = named lane ++ (role_key (role_of t lane) ++ (wildcard ∷ []))

module _ {ℓ} {A : Type ℓ} where
  first_hit-empty : (keys : List Text) → first_hit {A = A} keys [] ≡ none
  unfolding lookup
  first_hit-empty [] = refl
  first_hit-empty (k ∷ keys) = first_hit-empty keys

  by_wildcard_lem : (mapping : Dict A) → by_wildcard mapping ≡ first_hit (wildcard ∷ []) mapping
  unfolding by_wildcard
  by_wildcard_lem mapping = by_option (lookup wildcard mapping)
    where
      by_option : (o : Option A) → o ≡ elim o [ none ↦ none | some v ↦ some v ]
      by_option none = refl
      by_option (some v) = refl

  fall_through :
      (o : Option A) {m n : Option A}
      → m ≡ n
      → elim o [ none ↦ m | some v ↦ some v ] ≡ elim o [ none ↦ n | some v ↦ some v ]
  fall_through none e = e
  fall_through (some v) e = refl

  by_role_lem :
      (role : Option Text) (mapping : Dict A)
      → by_role role mapping ≡ first_hit (role_key role ++ (wildcard ∷ [])) mapping
  unfolding by_role
  by_role_lem none mapping = by_wildcard_lem mapping
  by_role_lem (some []) mapping = by_wildcard_lem mapping
  by_role_lem (some (c ∷ r)) mapping =
      fall_through (lookup (c ∷ r) mapping) (by_wildcard_lem mapping)

  resolve_by_case :
      (t : Topology) (mapping : Dict A) (lane : Text)
      → is_empty mapping ≡ false
      → resolve t mapping lane ≡ first_hit (keys_of t lane) mapping
  unfolding resolve
  resolve_by_case t mapping [] h = rw h (by_role_lem _ mapping)
  resolve_by_case t mapping (c ∷ lane) h =
      rw h (fall_through (lookup (c ∷ lane) mapping) (by_role_lem _ mapping))

  -- A lookup finds what is configured under the lane's id, then under its role, then under the
  -- wildcard, and nothing where none of the three is a key.
  pub resolve_lem :
      (t : Topology) (mapping : Dict A) (lane : Text)
      → resolve t mapping lane ≡ first_hit (keys_of t lane) mapping
  unfolding resolve
  resolve_lem t [] lane = sym (first_hit-empty (keys_of t lane))
  resolve_lem t (e ∷ mapping) lane = resolve_by_case t (e ∷ mapping) lane refl

-- The lane's role is `role`.
abbrev pub Plays : Topology → Text → Text → Type 0
Plays t role lane = lookup lane t.roles ≡ some role

-- Nothing in the lanes plays the role, or the answer is the first that does.
abbrev pub FirstPlaying : Topology → Text → List Text → Option Text → Type 0
FirstPlaying t role lanes none = All (λ lane. ¬ Plays t role lane) lanes
FirstPlaying t role lanes (some lane) =
    (before : List Text) × (after : List Text) × (lanes ≡ before ++ (lane ∷ after))
    × Plays t role lane
    × All (λ l. ¬ Plays t role l) before

has_role→Plays : (t : Topology) (role lane : Text) → has_role t role lane ≡ true → Plays t role lane
unfolding has_role
has_role→Plays t role lane h = known (lookup lane t.roles) h
  where
    known : (o : Option Text) → elim o [ none ↦ false | some r ↦ r == role ] ≡ true → o ≡ some role
    known none e = elim (true≢false (sym e)) [ ]
    known (some r) e = ap (λ x. some x) (eq→ r role e)

Plays→has_role : (t : Topology) (role lane : Text) → Plays t role lane → has_role t role lane ≡ true
unfolding has_role
Plays→has_role t role lane h = rw (has_role, h) (eq_refl role)

skip_lane :
    (t : Topology) (role lane : Text) (lanes : List Text) (o : Option Text)
    → ¬ Plays t role lane
    → FirstPlaying t role lanes o
    → FirstPlaying t role (lane ∷ lanes) o
skip_lane t role lane lanes none h k = (h, k)
skip_lane t role lane lanes (some l) h (before, after, e, plays, none_before) =
    (lane ∷ before, after, ap (λ ls. lane ∷ ls) e, plays, (h, none_before))

first_with_role_lem :
    (t : Topology) (role : Text) (lanes : List Text)
    → FirstPlaying t role lanes (first_with_role t role lanes)
unfolding first_with_role
first_with_role_lem t role [] = tt
first_with_role_lem t role (lane ∷ lanes) = elim (Bool-cases (has_role t role lane)) [
  | inl e ↦ rw e ([], lanes, refl, has_role→Plays t role lane e, tt)
  | inr e ↦ rw e (
      skip_lane t role lane lanes _ (λ h. true≢false (sym (Plays→has_role t role lane h) ∙ e))
        (first_with_role_lem t role lanes))
]

-- The lane found for a role is the first claimable lane that plays it, and none is found only where no
-- claimable lane does.
pub lane_for_role_lem :
    (t : Topology) (role : Text) → FirstPlaying t role t.claimable (lane_for_role t role)
unfolding lane_for_role
lane_for_role_lem t role = first_with_role_lem t role t.claimable
