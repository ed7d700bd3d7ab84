-- ===== src/Claim/Rounds.antt =====
-- The loop of `run_once`, for a property of its variables and the log.
use foreman_dispatch_bridge.Base.{
  ℕ, zero, suc, ◌≡◌, false, Option, none, some, List, [], ◌∷◌, given, Bool-cases, inl, inr,
}
use foreman_dispatch_bridge.Base.Text.{Text}
use foreman_dispatch_bridge.Base.Dict.{Dict}
use foreman_dispatch_bridge.Base.Effects.{Result, ok, raise, pure, perform, ◌>>=◌, continue}
use foreman_dispatch_bridge.Base.Effects.Rules.{Outcome, for_each_lem}
use foreman_dispatch_bridge.Base.Effects.Returns.{OnSome}
use foreman_dispatch_bridge.Models.{ClaimedItem}
use foreman_dispatch_bridge.Workload.Capacity.{coders_saturated}
use foreman_dispatch_bridge.Claim.{
  ClaimCall, claimed, made, ClaimHooks, ClaimSettings, ClaimLine, empty, Claims, ClaimAct,
  is_capped, candidates_for, claim_manifest, after_claim, drain_lane, claim_from, run_once, stop,
}

-- K is kept by each way through a round, where it can be E that holds if a call raises.
pub record Rounds (hooks : ClaimHooks) (settings : ClaimSettings)
    (K : Claims → List ClaimCall → Type 0) (E : List ClaimCall → Type 0) : Type 0 where
  pub by_stop :
      (c : ℕ) (line : ClaimLine) (t : Claims) (log : List ClaimCall)
      → K t log
      → K (stop hooks settings c line t) log
  pub by_failed_claim :
      (lane e : Text) (t : Claims) (log : List ClaimCall)
      → K t log
      → E (claimed lane (raise e) ∷ log)
  pub by_empty_claim :
      (lane : Text) (t : Claims) (log : List ClaimCall)
      → K t log
      → K t (claimed lane (ok none) ∷ log)
  pub by_failed_creation :
      (lane : Text) (item : ClaimedItem) (e : Text) (t : Claims) (log : List ClaimCall)
      → is_capped hooks settings t.in_progress ≡ false
      → K t log
      → E (
          made (claim_manifest hooks settings item t) (raise e)
          ∷ (claimed lane (ok (some item)) ∷ log))
  pub by_creation :
      (lane : Text) (item : ClaimedItem) (u : Unit {0}) (t : Claims) (log : List ClaimCall)
      → is_capped hooks settings t.in_progress ≡ false
      → K t log
      → K (after_claim hooks settings lane item t) (
          made (claim_manifest hooks settings item t) (ok u)
          ∷ (claimed lane (ok (some item)) ∷ log))

module _ (hooks : ClaimHooks) (settings : ClaimSettings) (K : Claims → List ClaimCall → Type 0)
    (E : List ClaimCall → Type 0) (rounds : Rounds hooks settings K E) where
  abbrev pub Kept : Option Claims → List ClaimCall → Type 0
  Kept s log = OnSome (λ t. K t log) s

  after_creation :
      (fuel : ℕ) (lane : Text) (item : ClaimedItem) (t : Claims) (r : Result (Unit {0}))
      (log : List ClaimCall) (rest : ClaimAct (Option Claims))
      → is_capped hooks settings t.in_progress ≡ false
      → K t log
      → ((l : List ClaimCall)
          → K (after_claim hooks settings lane item t) l
          → Outcome Kept E (rest l))
      → Outcome Kept E (
          continue r
            (λ _. rest)
            (made (claim_manifest hooks settings item t) r ∷ (claimed lane (ok (some item)) ∷ log)))
  after_creation fuel lane item t (ok u) log rest free h k =
      k _ (rounds.by_creation lane item u t log free h)
  after_creation fuel lane item t (raise e) log rest free h k =
      rounds.by_failed_creation lane item e t log free h

  drain-Outcome :
      (fuel : ℕ) (lane : Text) (c : ℕ) (t : Claims) (log : List ClaimCall)
      → K t log
      → Outcome Kept E (drain_lane hooks settings fuel lane c t log)
  unfolding drain_lane ◌>>=◌ perform given
  drain-Outcome zero lane c t log h = tt
  drain-Outcome (suc fuel) lane c t log h =
      elim (Bool-cases (is_capped hooks settings t.in_progress)) [
        | inl e ↦ rw e (rounds.by_stop c _ t log h)
        | inr free ↦
            rw free
              (elim (Bool-cases (
                coders_saturated (candidates_for hooks settings lane t) t.load
                  settings.agent_slots)) [
                    | inl e ↦ rw e (rounds.by_stop c _ t log h)
                    | inr e ↦ rw e (
                        after_search free (hooks.claim_one lane log) (λ item l k.
                          drain-Outcome fuel lane (suc c) (after_claim hooks settings lane item t) l
                            k))
                  ])
      ]
    where
      after_search :
          is_capped hooks settings t.in_progress ≡ false
          → (r : Result (Option ClaimedItem))
          → ((item : ClaimedItem) (l : List ClaimCall)
              → K (after_claim hooks settings lane item t) l
              → Outcome Kept E (
                  drain_lane hooks settings fuel lane
                    (suc c)
                    (after_claim hooks settings lane item t)
                    l))
          → Outcome Kept E (
              continue r
                (λ found. given found (pure (some (stop hooks settings c (empty lane) t))) (λ item.
                  perform
                    (made (claim_manifest hooks settings item t))
                    (hooks.create_workload (claim_manifest hooks settings item t))
                  >>= λ _.
                      drain_lane hooks settings fuel lane
                        (suc c)
                        (after_claim hooks settings lane item t)))
                (claimed lane r ∷ log))
      after_search free (raise e) again = rounds.by_failed_claim lane e t log h
      after_search free (ok none) again =
          rounds.by_stop c (empty lane) t _ (rounds.by_empty_claim lane t log h)
      after_search free (ok (some item)) again =
          after_creation fuel lane item t _ log _ free h (again item)

  claim_from-Outcome :
      (fuel : ℕ) (s : Option Claims) (lane : Text) (log : List ClaimCall)
      → Kept s log
      → Outcome Kept E (claim_from hooks settings fuel s lane log)
  unfolding claim_from given
  claim_from-Outcome fuel none lane log h = tt
  claim_from-Outcome fuel (some t) lane log h = drain-Outcome fuel lane 0 t log h

  pub run_once-Outcome :
      (fuel : ℕ) (lanes : List Text) (in_progress : ℕ) (load : Dict ℕ) (log : List ClaimCall)
      → K (record { results = []; in_progress = in_progress; load = load }) log
      → Outcome Kept E (run_once hooks settings fuel lanes in_progress load log)
  unfolding run_once
  run_once-Outcome fuel lanes in_progress load log h =
      for_each_lem E (λ rest. Kept) (claim_from hooks settings fuel)
        (λ s lane rest l k. claim_from-Outcome fuel s lane l k) _ lanes log h
