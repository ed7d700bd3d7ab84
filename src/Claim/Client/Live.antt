-- ===== src/Claim/Client/Live.antt =====
-- bridge/claim.py: when `claim_one` finds an item.
use foreman_dispatch_bridge.Base.{
  ◌≡◌, refl, true, Option, none, some, List, [], ◌∷◌, if◌then◌else◌, given, All, Any, inl, inr,
}
use foreman_dispatch_bridge.Base.Text.{Text}
use foreman_dispatch_bridge.Base.Int.{ℤ}
use foreman_dispatch_bridge.Base.Json.{Json, null, boolean, num, str, arr, obj, Fields}
use foreman_dispatch_bridge.Base.Effects.{Result, ok, raise, continue, pure, attempt, ◌>>=◌}
use foreman_dispatch_bridge.Models.{ClaimedItem}
use foreman_dispatch_bridge.Claim.Queue.{select_candidates}
use foreman_dispatch_bridge.Claim.Client.ClaimOne.{HasRepo, claiming, to_claimed_item-ok}
use foreman_dispatch_bridge.Claim.Client.{
  Posted, answer, failure, ClientLog, Client, not_none, as_result, int_of_json, number_of,
  claim_payload, claim_url, post, accepted, claim, to_claimed_item, convert, try_claim,
  unless_claimed, claim_first, claim_one,
}

module _ (repr : Json → Text) (client : Client) (agent_name : Text) (lane : Text) where
  -- An item with a number whose claim is accepted whenever it is posted.
  abbrev pub IsFree : Fields → Type 0
  IsFree item =
      (n : ℤ) × (int_of_json (number_of item) ≡ some n)
      × ((log : ClientLog)
          → not_none
              (client.http_post (claim_url client agent_name) (claim_payload item n agent_name) log)
            ≡ true)

  after_post_free :
      (item : Fields) (n : ℤ) (log : ClientLog)
      → HasRepo item
      → int_of_json (number_of item) ≡ some n
      → (p : Posted) → not_none p ≡ true
      → (c : ClaimedItem) × ((continue
            (as_result p)
            (λ is_claimed.
              if is_claimed
              then (convert client agent_name repr item lane >>= λ c. pure (some c))
              else pure none)
            (claiming repr client agent_name lane item n (not_none p) ∷ log)).0
          ≡ ok (some c))
  unfolding ◌>>=◌
  after_post_free item n log h e p free =
      converted p free (to_claimed_item-ok repr client agent_name lane item n h e)
    where
      converted :
          (p : Posted)
          → not_none p ≡ true
          → (c : ClaimedItem) × (to_claimed_item client agent_name repr item lane ≡ ok c)
          → (c : ClaimedItem) × ((continue
                (as_result p)
                (λ is_claimed.
                  if is_claimed
                  then (convert client agent_name repr item lane >>= λ c. pure (some c))
                  else pure none)
                (claiming repr client agent_name lane item n (not_none p) ∷ log)).0
              ≡ ok (some c))
      converted (failure response text) free (c, k) = cc
      converted (answer null) free (c, k) = cc
      converted (answer (boolean b)) free (c, k) = (c, rw k refl)
      converted (answer (num m)) free (c, k) = (c, rw k refl)
      converted (answer (str t)) free (c, k) = (c, rw k refl)
      converted (answer (arr js)) free (c, k) = (c, rw k refl)
      converted (answer (obj fs)) free (c, k) = (c, rw k refl)

  try_claim_free :
      (item : Fields) (log : ClientLog)
      → HasRepo item
      → IsFree item
      → (c : ClaimedItem) × ((try_claim client agent_name repr lane item log).0 ≡ ok (some c))
  unfolding try_claim claim accepted post given ◌>>=◌
  try_claim_free item log h (n, e, free) = rw e (after_post_free item n log h e _ (free log))

  claim_first_live :
      (items : List Fields) (log : ClientLog)
      → All HasRepo items
      → Any IsFree items
      → (c : ClaimedItem) × ((claim_first client agent_name repr lane items log).0 ≡ ok (some c))
  unfolding claim_first attempt ◌>>=◌
  claim_first_live [] log h free = elim free [ ]
  claim_first_live (item ∷ items) log (h, hs) (inl free) =
      let (c, e) = try_claim_free item log h free in (c, rw e refl)
  claim_first_live (item ∷ items) log (h, hs) (inr free) =
      by_turn (try_claim client agent_name repr lane item log) λ l. claim_first_live items l hs free
    where
      by_turn :
          (r : Result (Option ClaimedItem) × ClientLog)
          → ((l : ClientLog)
              → (c : ClaimedItem) × ((claim_first client agent_name repr lane items l).0
                  ≡ ok (some c)))
          → (c : ClaimedItem) × ((unless_claimed client agent_name repr r.0
                (claim_first client agent_name repr lane items)
                r.1).0
              ≡ ok (some c))
      by_turn (ok (some c), l) ih = (c, refl)
      by_turn (ok none, l) ih = ih l
      by_turn (raise e, l) ih = ih l

  -- Once the queue is read, a claim on a lane finds an item if one of the lane's candidates has a
  -- number and its claim is accepted whenever it is posted, whatever becomes of the claims of the
  -- others. The candidates are taken to have a repository.
  pub claim_one-some :
      (queue_for : Text → ClientLog → Result (List Json)) (log : ClientLog) (queue : List Json)
      → queue_for lane log ≡ ok queue
      → All HasRepo (select_candidates repr queue lane)
      → Any IsFree (select_candidates repr queue lane)
      → (c : ClaimedItem) × ((claim_one client agent_name repr queue_for lane log).0 ≡ ok (some c))
  unfolding claim_one ◌>>=◌
  claim_one-some queue_for log queue e h free =
      let (c, k) = claim_first_live (select_candidates repr queue lane) log h free in (c, rw e k)
