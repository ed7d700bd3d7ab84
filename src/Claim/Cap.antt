-- ===== src/Claim/Cap.antt =====
-- bridge/main.py: the cap of `run_once`.
use foreman_dispatch_bridge.Base.{ℕ, ◌≡◌, ◌≤◌, ◌<◌, ◌+◌, false, List, [], ◌∷◌, arith}
use foreman_dispatch_bridge.Base.Text.{Text}
use foreman_dispatch_bridge.Base.Dict.{Dict}
use foreman_dispatch_bridge.Base.Effects.{ok}
use foreman_dispatch_bridge.Base.Effects.Rules.{Outcome}
use foreman_dispatch_bridge.Base.Effects.Returns.{OnSome}
use foreman_dispatch_bridge.Claim.{
  ClaimCall, made, ClaimHooks, ClaimSettings, Claims, is_capped, after_claim, run_once, stop,
}
use foreman_dispatch_bridge.Claim.Rounds.{Rounds, run_once-Outcome}

-- How many creations returned.
abbrev pub creations : List ClaimCall → ℕ
creations [] = 0
creations (made m (ok u) ∷ log) = creations log + 1
creations (_ ∷ log) = creations log

module _ (hooks : ClaimHooks) (settings : ClaimSettings) where
  stop-in_progress :
      (c : ℕ) (line : _) (t : Claims) → (stop hooks settings c line t).in_progress ≡ t.in_progress
  unfolding stop
  stop-in_progress c line t = ground arith

  room :
      (n : ℕ)
      → is_capped hooks settings n ≡ false
      → 0 < settings.max_in_progress
      → n < settings.max_in_progress
  unfolding is_capped
  room n h positive = ground (arith, h, positive)

  module _ (start limit : ℕ) (positive : 0 < settings.max_in_progress)
      (above : settings.max_in_progress ≤ limit) (below : start ≤ limit) where
    Count : Claims → List ClaimCall → Type 0
    Count t log = (t.in_progress ≡ start + creations log) × (t.in_progress ≤ limit)

    Bound : List ClaimCall → Type 0
    Bound log = start + creations log ≤ limit

    Count-Rounds : Rounds hooks settings Count Bound
    unfolding Count Bound after_claim
    Count-Rounds = record {
      by_stop = λ c line t log h. rw (stop-in_progress c line t) h;
      by_failed_claim = λ lane e t log h. omega (arith, h);
      by_empty_claim = λ lane t log h. h;
      by_failed_creation = λ lane item e t log free h. omega (arith, h);
      by_creation = λ lane item u t log free h.
          (omega (arith, h), omega (arith, h, above, room t.in_progress free positive));
    }

  -- The same under any limit that neither the cap nor the start exceeds.
  pub run_once-within :
      (limit fuel : ℕ) (lanes : List Text) (in_progress : ℕ) (load : Dict ℕ)
      → 0 < settings.max_in_progress
      → settings.max_in_progress ≤ limit
      → in_progress ≤ limit
      → Outcome
          (λ s log.
            OnSome (λ t. (t.in_progress ≡ in_progress + creations log) × (t.in_progress ≤ limit)) s)
          (λ log. in_progress + creations log ≤ limit)
          (run_once hooks settings fuel lanes in_progress load [])
  unfolding Count Bound
  run_once-within limit fuel lanes in_progress load positive above below =
      run_once-Outcome hooks settings (Count in_progress limit positive above below)
        (Bound in_progress limit positive above below)
        (Count-Rounds in_progress limit positive above below) fuel lanes in_progress load []
        (omega arith, below)

  -- A pass that starts within the cap keeps to it: at its end the issues in progress are those at its start
  -- and the Workloads created, and no more than the cap allows, also where an exception cuts it off.
  pub run_once-within_cap :
      (fuel : ℕ) (lanes : List Text) (in_progress : ℕ) (load : Dict ℕ)
      → 0 < settings.max_in_progress
      → in_progress ≤ settings.max_in_progress
      → Outcome
          (λ s log.
            OnSome
              (λ t.
                (t.in_progress ≡ in_progress + creations log)
                × (t.in_progress ≤ settings.max_in_progress))
              s)
          (λ log. in_progress + creations log ≤ settings.max_in_progress)
          (run_once hooks settings fuel lanes in_progress load [])
  run_once-within_cap fuel lanes in_progress load positive =
      run_once-within settings.max_in_progress fuel lanes in_progress load positive (omega arith)
