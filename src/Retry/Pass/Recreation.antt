-- ===== src/Retry/Pass/Recreation.antt =====
-- What a pass of `reconcile_failures` deletes and creates.
use foreman_dispatch_bridge.Base.{
  ℕ, ◌≡◌, ◌≤◌, ◌<◌, ◌+◌, refl, Bool, true, false, ◌&&◌, List, [], ◌∷◌, leb, All, Any, inl, inr,
  arith,
}
use foreman_dispatch_bridge.Base.Text.{Text}
use foreman_dispatch_bridge.Base.Dict.{Dict}
use foreman_dispatch_bridge.Base.Effects.{Result, ok, raise, recover}
use foreman_dispatch_bridge.Base.Effects.Rules.{Outcome}
use foreman_dispatch_bridge.Models.{ClaimedItem, Workload}
use foreman_dispatch_bridge.Retry.Manifest.{counter, attempt_of, infra_attempt_of}
use foreman_dispatch_bridge.Retry.Manifest.RoundTrip.{counters-build_workload}
use foreman_dispatch_bridge.Retry.Hooks.{
  asked, deleted, created, parked, labelled, parked_infra, escalated, Log, Hooks, Settings,
}
use foreman_dispatch_bridge.Retry.Parking.{name_of}
use foreman_dispatch_bridge.Retry.Parking.Frame.{Neutral}
use foreman_dispatch_bridge.Retry.Pass.{Progress, next_manifest, reconcile_one, reconcile_failures}
use foreman_dispatch_bridge.Retry.Pass.Rounds.{Budget, reconcile_one-Outcome, pass-Outcome}

-- `m` is the next attempt of `wl`: one counter is advanced by one, and it was below its cap.
abbrev pub Advances : Settings → Workload → Bool → Workload → Type 0
Advances settings wl true m =
    (infra_attempt_of wl < settings.infra_max_attempts)
    × (infra_attempt_of m ≡ infra_attempt_of wl + 1)
    × (attempt_of m ≡ attempt_of wl)
Advances settings wl false m =
    (attempt_of wl < settings.max_attempts)
    × (attempt_of m ≡ attempt_of wl + 1)
    × (infra_attempt_of m ≡ infra_attempt_of wl)

abbrev pub OneOf : List Workload → Workload → Type 0
OneOf failed wl = Any (λ w. w ≡ wl) failed

-- The call before the creation of `m` is a deletion that returned, of one of the failed Workloads,
-- whose next attempt `m` is.
abbrev pub FollowsDeletion : Settings → List Workload → Workload → Log → Type 0
FollowsDeletion settings failed m (deleted name true ∷ log) =
    (wl : Workload) × (is_infra : Bool) × OneOf failed wl
    × (name_of wl ≡ name)
    × Advances settings wl is_infra m
FollowsDeletion settings failed m _ = ⊥

-- That holds of every creation in the log.
abbrev pub Guarded : Settings → List Workload → Log → Type 0
Guarded settings failed [] = Unit
Guarded settings failed (created m b ∷ log) =
    FollowsDeletion settings failed m log × Guarded settings failed log
Guarded settings failed (_ ∷ log) = Guarded settings failed log

Guarded-Neutral : (settings : Settings) (failed : List Workload) → Neutral (Guarded settings failed)
Guarded-Neutral settings failed (asked t) log e h = h
Guarded-Neutral settings failed (deleted t b) log e h = h
Guarded-Neutral settings failed (created m b) log e h = elim e [ ]
Guarded-Neutral settings failed (parked item path b) log e h = h
Guarded-Neutral settings failed (labelled item b) log e h = h
Guarded-Neutral settings failed (parked_infra item b) log e h = h
Guarded-Neutral settings failed (escalated item b) log e h = h

attempt_of_pos : (wl : Workload) → 1 ≤ attempt_of wl
unfolding attempt_of counter
attempt_of_pos wl = ground arith

infra_attempt_of_pos : (wl : Workload) → 1 ≤ infra_attempt_of wl
unfolding infra_attempt_of counter
infra_attempt_of_pos wl = ground arith

leb-false : (a b : ℕ) → leb a b ≡ false → b < a
leb-false a b h = ground arith

leb_not_false : (a b : ℕ) → (leb a b && true) ≡ false → b < a
leb_not_false a b h = ground arith

module _ (hooks : Hooks) (settings : Settings) where
  next_manifest-Advances :
      (wl : Workload) (item : ClaimedItem) (is_infra : Bool) (coder feedback revise_from : Text)
      → Budget settings wl is_infra
      → Advances settings wl is_infra
          (next_manifest hooks settings wl item is_infra coder feedback revise_from)
  unfolding next_manifest
  next_manifest-Advances wl item true coder feedback revise_from (infra_left, left) =
      let (a, i) =
        counters-build_workload item settings.namespace _ (attempt_of_pos wl)
          (omega (arith, infra_attempt_of_pos wl)) in
      (leb-false _ _ infra_left, i, a)
  next_manifest-Advances wl item false coder feedback revise_from (infra_left, left) =
      let (a, i) =
        counters-build_workload item settings.namespace _ (omega (arith, attempt_of_pos wl))
          (infra_attempt_of_pos wl) in
      (leb_not_false _ _ left, a, i)

  module _ (failed : List Workload) where
    Inv : List Workload → Progress → Log → Type 0
    Inv rest s log = All (OneOf failed) rest × Guarded settings failed log

    round :
        (s : Progress) (wl : Workload) (rest : List Workload) (log : Log)
        → Inv (wl ∷ rest) s log
        → Outcome (Inv rest) (Guarded settings failed) (reconcile_one hooks settings s wl log)
    unfolding Inv
    round s wl rest log ((member, members), h) =
        reconcile_one-Outcome hooks settings (Guarded settings failed)
          (Guarded-Neutral settings failed) (Inv rest) s wl (λ line l p. (members, p))
          (λ is_infra item feedback revise_from r l budget free p. (
            members,
            (
              (
                wl,
                is_infra,
                member,
                refl,
                next_manifest-Advances wl item is_infra _ feedback revise_from budget,
              ),
              p,
            ),
          ))
          log h

pub All-OneOf : (failed : List Workload) → All (OneOf failed) failed
All-OneOf failed = reach failed failed (λ w h. h)
  where
    reach : (xs ys : List Workload) → ((w : Workload) → OneOf xs w → OneOf ys w) → All (OneOf ys) xs
    reach [] ys f = tt
    reach (x ∷ xs) ys f = (f x (inl refl), reach xs ys (λ w h. f w (inr h)))

-- In a pass every creation comes directly after a deletion that returned, of one of the Workloads that
-- were listed as failed; the created Workload advances exactly one of that Workload's two counters, by
-- one, and only from below the counter's cap. It holds also where the pass ends with an exception.
pub reconcile_failures-Guarded :
    (hooks : Hooks) (settings : Settings) (load : Dict ℕ)
    → Guarded settings
        (recover [] (hooks.list_failed []))
        (reconcile_failures hooks settings load []).1
unfolding Inv
reconcile_failures-Guarded hooks settings load =
    either_way (reconcile_failures hooks settings load []) (
      pass-Outcome hooks settings (Inv hooks settings failed) (Guarded settings failed) load
        (round hooks settings failed) (λ listed e. (rw e (All-OneOf listed), tt)) tt)
  where
    failed : List Workload
    failed = recover [] (hooks.list_failed [])

    either_way :
        (r : Result Progress × Log)
        → Outcome (Inv hooks settings failed []) (Guarded settings failed) r
        → Guarded settings failed r.1
    either_way (ok s, log) h = h.1
    either_way (raise e, log) h = h
