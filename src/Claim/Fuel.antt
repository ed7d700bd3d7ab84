-- ===== src/Claim/Fuel.antt =====
-- bridge/main.py: the end of the loops of `run_once`.
use foreman_dispatch_bridge.Base.{
  ℕ, zero, suc, ◌≡◌, ◌≤◌, ◌<◌, ◌+◌, refl, sym, true, false, Option, none, some, List, [], ◌∷◌,
  given, arith, Bool-cases, inl, inr, is_some, leb, ◌⊎◌,
}
use mathlib.Core.Bool.{true≢false}
use foreman_dispatch_bridge.Base.Text.{Text}
use foreman_dispatch_bridge.Base.Dict.{Dict}
use foreman_dispatch_bridge.Base.Effects.{
  Result, ok, raise, returned, pure, perform, ◌>>=◌, continue,
}
use foreman_dispatch_bridge.Base.Effects.Rules.{Outcome, for_each_lem}
use foreman_dispatch_bridge.Base.Effects.Returns.{OnSome}
use foreman_dispatch_bridge.Models.{ClaimedItem, Workload}
use foreman_dispatch_bridge.Workload.Capacity.{coders_saturated}
use foreman_dispatch_bridge.Claim.{
  ClaimCall, claimed, made, ClaimHooks, ClaimSettings, empty, Claims, ClaimAct, is_capped,
  candidates_for, claim_manifest, after_claim, drain_lane, claim_from, run_once, stop,
}
use foreman_dispatch_bridge.Claim.Cap.{creations, run_once-within}

no_fuel : 0 < 0 → ⊥
no_fuel h = omega (arith, h)

module _ (hooks : ClaimHooks) (settings : ClaimSettings) (positive : 0 < settings.max_in_progress)
    (claims : (lane : Text) (log : List ClaimCall) → returned (hooks.claim_one lane log) ≡ true)
    (creates : (m : Workload) (log : List ClaimCall)
      → returned (hooks.create_workload m log) ≡ true) where
  abbrev Ends : Option Claims → List ClaimCall → Type 0
  Ends s log = is_some s ≡ true

  abbrev Never : List ClaimCall → Type 0
  Never log = ⊥

  headroom : (n : ℕ) → is_capped hooks settings n ≡ false → n < settings.max_in_progress
  unfolding is_capped
  headroom n h = ground (arith, h, positive)

  after_creation-Ends :
      (item : ClaimedItem) (t : Claims) (r : Result (Unit {0})) (log : List ClaimCall)
      (rest : ClaimAct (Option Claims))
      → returned r ≡ true
      → ((l : List ClaimCall) → Outcome Ends Never (rest l))
      → Outcome Ends Never
          (continue r (λ _. rest) (made (claim_manifest hooks settings item t) r ∷ log))
  after_creation-Ends item t (ok u) log rest e k = k _
  after_creation-Ends item t (raise m) log rest e k = true≢false (sym e)

  drain-Ends :
      (fuel : ℕ) (lane : Text) (c : ℕ) (t : Claims) (log : List ClaimCall)
      → 0 < fuel
      → settings.max_in_progress < t.in_progress + fuel
      → Outcome Ends Never (drain_lane hooks settings fuel lane c t log)
  unfolding drain_lane ◌>>=◌ perform given after_claim
  drain-Ends zero lane c t log left enough = absurd (no_fuel left)
  drain-Ends (suc fuel) lane c t log left enough =
      elim (Bool-cases (is_capped hooks settings t.in_progress)) [
        | inl e ↦ rw e refl
        | inr free ↦
            rw free
              (elim (Bool-cases (
                coders_saturated (candidates_for hooks settings lane t) t.load
                  settings.agent_slots)) [
                    | inl e ↦ rw e refl
                    | inr e ↦ rw e (
                        after_search (hooks.claim_one lane log) (claims lane log) (λ item l.
                          drain-Ends fuel lane (suc c) (after_claim hooks settings lane item t) l
                            (omega (arith, enough, headroom t.in_progress free))
                            (omega (arith, enough))))
                  ])
      ]
    where
      after_search :
          (r : Result (Option ClaimedItem))
          → returned r ≡ true
          → ((item : ClaimedItem) (l : List ClaimCall)
              → Outcome Ends Never (
                  drain_lane hooks settings fuel lane
                    (suc c)
                    (after_claim hooks settings lane item t)
                    l))
          → Outcome Ends Never (
              continue r
                (λ found. given found (pure (some (stop hooks settings c (empty lane) t))) (λ item.
                  perform
                    (made (claim_manifest hooks settings item t))
                    (hooks.create_workload (claim_manifest hooks settings item t))
                  >>= λ _.
                      drain_lane hooks settings fuel lane
                        (suc c)
                        (after_claim hooks settings lane item t)))
                (claimed lane r ∷ log))
      after_search (raise m) e again = true≢false (sym e)
      after_search (ok none) e again = refl
      after_search (ok (some item)) e again =
          after_creation-Ends item t _ _ _ (creates (claim_manifest hooks settings item t) _)
            (again item)

  claim_from-Ends :
      (s : Option Claims) (lane : Text) (log : List ClaimCall)
      → is_some s ≡ true
      → Outcome Ends Never (claim_from hooks settings (suc settings.max_in_progress) s lane log)
  unfolding claim_from given
  claim_from-Ends none lane log h = h
  claim_from-Ends (some t) lane log h =
      drain-Ends (suc settings.max_in_progress) lane 0 t log (omega arith) (omega arith)

  run_once-Ends :
      (lanes : List Text) (in_progress : ℕ) (load : Dict ℕ)
      → Outcome Ends Never
          (run_once hooks settings (suc settings.max_in_progress) lanes in_progress load [])
  unfolding run_once
  run_once-Ends lanes in_progress load =
      for_each_lem Never (λ rest. Ends) (claim_from hooks settings (suc settings.max_in_progress))
        (λ s lane rest l k. claim_from-Ends s lane l k) _ lanes [] refl

-- Under a cap, and where claims and creations answer every call, the pass comes to its end from any start:
-- in each lane one round more than the cap is enough. The issues in progress at its end are those at its start
-- and those created; there are no more than the cap allows, unless none was created.
pub run_once-returns :
    (hooks : ClaimHooks) (settings : ClaimSettings) (lanes : List Text) (in_progress : ℕ)
    (load : Dict ℕ)
    → 0 < settings.max_in_progress
    → ((lane : Text) (log : List ClaimCall) → returned (hooks.claim_one lane log) ≡ true)
    → ((m : Workload) (log : List ClaimCall) → returned (hooks.create_workload m log) ≡ true)
    → let ended =
        run_once hooks settings (suc settings.max_in_progress) lanes in_progress load [] in
      (t : Claims) × (ended.0 ≡ ok (some t))
      × (t.in_progress ≡ in_progress + creations ended.1)
      × ((t.in_progress ≤ settings.max_in_progress) ⊎ (creations ended.1 ≡ 0))
run_once-returns hooks settings lanes in_progress load positive claims creates =
    elim (Bool-cases (leb in_progress settings.max_in_progress)) [
      | inl e ↦
          let (t, ended, count, below) =
            at settings.max_in_progress (omega arith) (ground (arith, e)) in
          (t, ended, count, inl below)
      | inr e ↦
          let (t, ended, count, below) = at in_progress (ground (arith, e)) (omega arith) in
          (t, ended, count, inr (omega (arith, count, below)))
    ]
  where
    both :
        (limit : ℕ) (r : Result (Option Claims) × List ClaimCall)
        → Outcome (λ s log. is_some s ≡ true) (λ log. ⊥) r
        → Outcome
            (λ s log.
              OnSome
                (λ t. (t.in_progress ≡ in_progress + creations log) × (t.in_progress ≤ limit))
                s)
            (λ log. in_progress + creations log ≤ limit)
            r
        → (t : Claims) × (r.0 ≡ ok (some t))
          × (t.in_progress ≡ in_progress + creations r.1)
          × (t.in_progress ≤ limit)
    both limit (ok (some t), log) e h = (t, refl, h.0, h.1)
    both limit (ok none, log) e h = elim (true≢false (sym e)) [ ]
    both limit (raise m, log) e h = elim e [ ]

    at :
        (limit : ℕ)
        → settings.max_in_progress ≤ limit
        → in_progress ≤ limit
        → let ended =
            run_once hooks settings (suc settings.max_in_progress) lanes in_progress load [] in
          (t : Claims) × (ended.0 ≡ ok (some t))
          × (t.in_progress ≡ in_progress + creations ended.1)
          × (t.in_progress ≤ limit)
    at limit above below =
        both limit
          (run_once hooks settings (suc settings.max_in_progress) lanes in_progress load [])
          (run_once-Ends hooks settings positive claims creates lanes in_progress load)
          (run_once-within hooks settings limit (suc settings.max_in_progress) lanes in_progress
            load positive above below)
