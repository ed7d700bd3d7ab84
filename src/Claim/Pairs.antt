-- ===== src/Claim/Pairs.antt =====
-- bridge/main.py: the claims of `run_once` and the Workloads that it creates.
use foreman_dispatch_bridge.Base.{ℕ, ◌≡◌, none, some, List, [], ◌∷◌}
use foreman_dispatch_bridge.Base.Text.{Text}
use foreman_dispatch_bridge.Base.Dict.{Dict}
use foreman_dispatch_bridge.Base.Effects.{ok, raise}
use foreman_dispatch_bridge.Base.Effects.Rules.{Outcome}
use foreman_dispatch_bridge.Models.{ClaimedItem}
use foreman_dispatch_bridge.Retry.Manifest.{item_from_workload}
use foreman_dispatch_bridge.Retry.Manifest.RoundTrip.{item_from_workload-build_workload}
use foreman_dispatch_bridge.Base.Effects.Returns.{OnSome}
use foreman_dispatch_bridge.Claim.Rounds.{Rounds, run_once-Outcome}
use foreman_dispatch_bridge.Claim.{
  ClaimCall, claimed, made, ClaimHooks, ClaimSettings, Claims, claim_manifest, run_once,
}

-- The log of a pass that was not cut off: each claim that found an item is followed at once by the
-- creation, which returned, of a Workload for that item, and nothing else is created.
abbrev pub Paired : List ClaimCall → Type 0
Paired [] = Unit
Paired (claimed lane (ok none) ∷ log) = Paired log
Paired (made m (ok u) ∷ (claimed lane (ok (some item)) ∷ log)) =
    (item_from_workload m ≡ item) × Paired log
Paired _ = ⊥

-- The log of a pass that was cut off: up to the last item all is paired, and then a claim raised, or the
-- creation of the Workload for that item did.
abbrev pub CutOff : List ClaimCall → Type 0
CutOff (claimed lane (raise e) ∷ log) = Paired log
CutOff (made m (raise e) ∷ (claimed lane (ok (some item)) ∷ log)) =
    (item_from_workload m ≡ item) × Paired log
CutOff _ = ⊥

module _ (hooks : ClaimHooks) (settings : ClaimSettings) where
  claim_manifest-item :
      (item : ClaimedItem) (t : Claims)
      → item_from_workload (claim_manifest hooks settings item t) ≡ item
  unfolding claim_manifest
  claim_manifest-item item t = item_from_workload-build_workload item settings.namespace _

  Paired-Rounds : Rounds hooks settings (λ t log. Paired log) CutOff
  Paired-Rounds = record {
    by_stop = λ c line t log h. h;
    by_failed_claim = λ lane e t log h. h;
    by_empty_claim = λ lane t log h. h;
    by_failed_creation = λ lane item e t log free h. (claim_manifest-item item t, h);
    by_creation = λ lane item u t log free h. (claim_manifest-item item t, h);
  }

-- In a pass that returns, each claim that found an item is followed at once by the creation, which
-- returned, of a Workload for that item, and nothing else is created. In a pass that an exception
-- cuts off the same holds up to the last call but for the claim or the creation that raised.
pub run_once-Paired :
    (hooks : ClaimHooks) (settings : ClaimSettings) (fuel : ℕ) (lanes : List Text) (in_progress : ℕ)
    (load : Dict ℕ)
    → Outcome
        (λ s log. OnSome (λ t. Paired log) s)
        CutOff
        (run_once hooks settings fuel lanes in_progress load [])
run_once-Paired hooks settings fuel lanes in_progress load =
    run_once-Outcome hooks settings (λ t log. Paired log) CutOff (Paired-Rounds hooks settings) fuel
      lanes in_progress load [] tt
