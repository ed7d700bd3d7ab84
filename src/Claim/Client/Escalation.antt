-- ===== src/Claim/Client/Escalation.antt =====
-- bridge/claim.py: the order of an escalation's calls, and the exceptions of a release.
use foreman_dispatch_bridge.Base.{
  ℕ, ◌≡◌, ◌≤◌, ◌≢◌, refl, Bool, true, false, Option, none, some, ◌∷◌, if◌then◌else◌, ◌⊎◌, inl, inr,
  arith,
}
use foreman_dispatch_bridge.Base.Text.{Text, codes}
use foreman_dispatch_bridge.Base.Json.{str, null, boolean, num, arr, obj}
use foreman_dispatch_bridge.Base.Effects.{Result, ok, raise, continue, pure, ◌>>=◌}
use foreman_dispatch_bridge.Models.{ClaimedItem}
use foreman_dispatch_bridge.Claim.Client.{
  Posted, answer, failure, ClientCall, posted, ClientLog, Client, not_none, as_result, item_payload,
  lane_url, unclaim_url, post, accepted, set_lane, unclaimed, unclaim, escalate, lane_payload,
}

-- The truth value of a response of `requests`: false from status 400 on.
abbrev pub IsResponseTruth : (ℕ → Bool) → Type 0
IsResponseTruth truth = (status : ℕ) → 400 ≤ status → truth status ≡ false

module _ (client : Client) (agent_name : Text) (truth : ℕ → Bool) where
  abbrev pub lane_move : ClaimedItem → (lane reason : Text) → Bool → ClientCall
  lane_move item lane reason b =
      posted (lane_url client agent_name item.issue_id) (lane_payload lane reason) b

  abbrev pub release : ClaimedItem → Bool → ClientCall
  release item b =
      posted (unclaim_url client agent_name)
        (item_payload item (codes "agentName") (str agent_name)) b

  refused :
      (status : ℕ) (text : Text)
      → (400 ≤ status → truth status ≡ false)
      → unclaimed client agent_name truth (failure (some status) text) ≡ raise text
  refused status text h = ground arith

  -- A release whose POST raises raises too, also on a response with status 400, since that response
  -- counts as false.
  pub unclaim-raise :
      IsResponseTruth truth
      → (item : ClaimedItem) (log : ClientLog) (response : Option ℕ) (text : Text)
      → client.http_post
          (unclaim_url client agent_name)
          (item_payload item (codes "agentName") (str agent_name))
          log
        ≡ failure response text
      → unclaim client agent_name truth item log ≡ (raise text, release item false ∷ log)
  unfolding unclaim post ◌>>=◌
  unclaim-raise falsy item log none text e = rw e refl
  unclaim-raise falsy item log (some status) text e =
      rw (e, refused status text (falsy status)) refl

  -- Either the move was refused or raised and nothing else was posted, or it was accepted and the
  -- release was posted after it.
  abbrev pub InOrder :
      ClaimedItem → (lane reason : Text) → ClientLog → Result Bool × ClientLog → Type 0
  InOrder item lane reason log r =
      ((r.1 ≡ lane_move item lane reason false ∷ log) × (r.0 ≢ ok true))
      ⊎ ((b : Bool) × (r.1 ≡ release item b ∷ lane_move item lane reason true ∷ log))

  after_move :
      (item : ClaimedItem) (lane reason : Text) (log : ClientLog) (p : Posted)
      → InOrder item lane reason log (
          continue
            (as_result p)
            (λ is_set. if is_set then unclaim client agent_name truth item else pure false)
            (lane_move item lane reason (not_none p) ∷ log))
  unfolding unclaim post ◌>>=◌
  after_move item lane reason log (failure response text) = inl (refl, λ e. cc)
  after_move item lane reason log (answer null) = inl (refl, λ e. cc)
  after_move item lane reason log (answer (boolean b)) = inr (_, refl)
  after_move item lane reason log (answer (num n)) = inr (_, refl)
  after_move item lane reason log (answer (str t)) = inr (_, refl)
  after_move item lane reason log (answer (arr js)) = inr (_, refl)
  after_move item lane reason log (answer (obj fs)) = inr (_, refl)

  -- An escalation posts the move to the lane first, and the release only after a move that was
  -- accepted; if the move is refused or raises, nothing else is posted and the escalation does not
  -- succeed.
  pub escalate-InOrder :
      (item : ClaimedItem) (lane reason : Text) (log : ClientLog)
      → InOrder item lane reason log (escalate client agent_name truth item lane reason log)
  unfolding escalate set_lane accepted post ◌>>=◌
  escalate-InOrder item lane reason log = after_move item lane reason log _
