-- ===== src/Retry/Pass/Capacity.antt =====
-- bridge/retry.py: a pass of `reconcile_failures` and the slots of the coders.
use foreman_dispatch_bridge.Base.{
  ℕ, ◌≡◌, ◌≤◌, ◌+◌, Bool, true, false, some, [], ◌∷◌, arith, is_empty,
}
use foreman_dispatch_bridge.Base.Text.{Text}
use foreman_dispatch_bridge.Base.Dict.{Dict}
use foreman_dispatch_bridge.Base.Json.{Json}
use foreman_dispatch_bridge.Base.Effects.{Result, ok, raise, returned}
use foreman_dispatch_bridge.Base.Effects.Rules.{Outcome, Outcome-map}
use foreman_dispatch_bridge.Models.{ClaimedItem, Workload}
use foreman_dispatch_bridge.Workload.Capacity.{load_of, slots_for, is_full}
use foreman_dispatch_bridge.Workload.Capacity.Laws.{is_full-false}
use foreman_dispatch_bridge.Workload.Build.Started.{
  coder_at_work, count_started, build_workload-coder, Accounted, bump-Accounted,
}
use foreman_dispatch_bridge.Retry.Hooks.{
  asked, deleted, created, parked, labelled, parked_infra, escalated, Log, Hooks, Settings,
}
use foreman_dispatch_bridge.Retry.Parking.{name_of}
use foreman_dispatch_bridge.Retry.Parking.Frame.{Neutral}
use foreman_dispatch_bridge.Retry.Pass.{
  Progress, is_busy, retry_coder, next_manifest, after_recreate, reconcile_one, reconcile_failures,
}
use foreman_dispatch_bridge.Retry.Pass.Rounds.{reconcile_one-Outcome, pass-Outcome}

-- No coder has more Workloads than slots.
abbrev pub Fits : Dict Json → Dict ℕ → Type 0
Fits slots load = (coder : Text) → load_of coder load ≤ slots_for coder slots

-- The Workloads of a coder whose creation returned.
abbrev pub started : Log → Text → ℕ
started [] coder = 0
started (created m true ∷ log) coder = count_started coder m (started log coder)
started (_ ∷ log) coder = started log coder

-- What a coder holds at the start and is given since does not exceed its slots.
abbrev pub NotOverbooked : Dict Json → Dict ℕ → (Text → ℕ) → Type 0
NotOverbooked slots load given_since =
    (coder : Text) → load_of coder load + given_since coder ≤ slots_for coder slots

module _ (hooks : Hooks) (settings : Settings)
    (bounded : is_empty settings.agent_slots ≡ false) where
  not_busy :
      (coder : Text) (load : Dict ℕ)
      → is_busy hooks settings coder load ≡ false
      → is_full coder load settings.agent_slots ≡ false
  unfolding is_busy
  not_busy coder load free = ground (arith, bounded, free)

  module _ (start : Dict ℕ) where
    abbrev Booked : Dict ℕ → Log → Type 0
    Booked load log = Accounted settings.agent_slots start load (started log)

    Booked-Neutral : (load : Dict ℕ) → Neutral (Booked load)
    Booked-Neutral load (asked t) log e h = h
    Booked-Neutral load (deleted t b) log e h = h
    Booked-Neutral load (created m b) log e h = elim e [ ]
    Booked-Neutral load (parked item path b) log e h = h
    Booked-Neutral load (labelled item b) log e h = h
    Booked-Neutral load (parked_infra item b) log e h = h
    Booked-Neutral load (escalated item b) log e h = h

    next_manifest-coder :
        (wl : Workload) (item : ClaimedItem) (is_infra : Bool) (coder feedback revise_from : Text)
        → coder_at_work (next_manifest hooks settings wl item is_infra coder feedback revise_from)
          ≡ some coder
    unfolding next_manifest
    next_manifest-coder wl item is_infra coder feedback revise_from =
        build_workload-coder item settings.namespace _

    after_recreate-Booked :
        (s : Progress) (wl : Workload) (is_infra : Bool) (item : ClaimedItem)
        (coder feedback revise_from name : Text) (r : Result (Unit {0})) (log : Log)
        → is_busy hooks settings coder s.load ≡ false
        → Booked s.load log
        → Booked (after_recreate hooks settings s wl is_infra coder r).load (
            created
              (next_manifest hooks settings wl item is_infra coder feedback revise_from)
              (returned r)
            ∷ deleted name true
            ∷ log)
    unfolding after_recreate
    after_recreate-Booked s wl is_infra item coder feedback revise_from name (raise e) log free h =
        h
    after_recreate-Booked s wl is_infra item coder feedback revise_from name (ok u) log free h =
        bump-Accounted settings.agent_slots start s.load (started log)
          (next_manifest hooks settings wl item is_infra coder feedback revise_from) coder
          (next_manifest-coder wl item is_infra coder feedback revise_from)
          (is_full-false coder s.load settings.agent_slots (not_busy coder s.load free)) h

    round-Booked :
        (s : Progress) (wl : Workload) (log : Log)
        → Booked s.load log
        → Outcome
            (λ s log. Booked s.load log)
            (λ log. NotOverbooked settings.agent_slots start (started log))
            (reconcile_one hooks settings s wl log)
    round-Booked s wl log h =
        Outcome-map _ _ _ _ (reconcile_one hooks settings s wl log) (λ a l k. k)
          (λ l k. k.is_within)
          (reconcile_one-Outcome hooks settings (Booked s.load) (Booked-Neutral s.load)
            (λ s log. Booked s.load log) s wl (λ line log p. p)
            (λ is_infra item feedback revise_from r log budget free p.
              after_recreate-Booked s wl is_infra item (retry_coder hooks settings item) feedback
                revise_from (name_of wl) r log free p)
            log h)

  -- Where slots are configured and no coder starts a pass above its slots, what a coder holds at the start and
  -- the Workloads that the pass creates for it never exceed its slots, also where the pass ends with an
  -- exception; and when it returns, the counter of each coder is their sum.
  pub reconcile_failures-Fits :
      (load : Dict ℕ)
      → Fits settings.agent_slots load
      → Outcome
          (λ s log. Accounted settings.agent_slots load s.load (started log))
          (λ log. NotOverbooked settings.agent_slots load (started log))
          (reconcile_failures hooks settings load [])
  reconcile_failures-Fits load fits =
      pass-Outcome hooks settings (λ rest s log. Booked load s.load log)
        (λ log. NotOverbooked settings.agent_slots load (started log)) load
        (λ s wl rest log h. round-Booked load s wl log h)
        (λ failed e. record {
          is_count = λ coder. omega arith;
          is_within = λ coder. omega (arith, fits coder);
        })
        λ coder. omega (arith, fits coder)
