-- ===== src/ClaimSamples.antt =====
-- The theorems on the client of Dispatch, at concrete inputs.
use foreman_dispatch_bridge.Base.{ltb, arith, inl, ◌≡◌, true, [], ◌∷◌, false, List, ℕ, refl, some}
use foreman_dispatch_bridge.Base.Text
use foreman_dispatch_bridge.Base.Dict
use foreman_dispatch_bridge.Base.Json
use foreman_dispatch_bridge.Base.Text.{Text, codes, ◌==◌}
use foreman_dispatch_bridge.Base.Json.{
  Json, str, arr, obj, field, end, nil, cons, num, boolean, null,
}
use foreman_dispatch_bridge.Base.Effects.{raise, ok}
use foreman_dispatch_bridge.Models.{ClaimedItem}
use foreman_dispatch_bridge.Base.Int.{pos}
use foreman_dispatch_bridge.Claim.Queue.{select_candidates}
use foreman_dispatch_bridge.Claim.Client.{
  Client, ClientLog, Posted, answer, failure, claim_one, unclaim, number_of,
}
use foreman_dispatch_bridge.Claim.Index.{
  Index, lane_index, lane_in, find_issue_id, queue_of, item_number,
}
use foreman_dispatch_bridge.Claim.Index.FirstMatch.{first_match, id_of_match}
use foreman_dispatch_bridge.Claim.Index.Agreement.{lane_of_match, lane_index-find_issue_id}
use foreman_dispatch_bridge.Claim.Client.ClaimOne.{Claimed, claim_one-Claimed}
use foreman_dispatch_bridge.Claim.Client.Live.{claim_one-some}
use foreman_dispatch_bridge.Claim.Client.Escalation.{release, unclaim-raise}

abbrev a_queue_item : ℕ → Json
a_queue_item n = obj (
    field (codes "title") (str (codes "Add a test")) (
      field (codes "repoFullName") (str (codes "miso/app")) (
        field (codes "number") (num (pos n)) (
          field (codes "status") (str (codes "status/ready"))
            (field (codes "claimable") (boolean true) end)))))

abbrev a_queue : List Json
a_queue = a_queue_item 7 ∷ a_queue_item 8 ∷ []

-- Dispatch refuses the first claim that it sees.
abbrev refuses_first : ClientLog → Posted
refuses_first [] = answer null
refuses_first (call ∷ log) = answer (boolean true)

abbrev a_client : Client
a_client = record {
  base = codes "https://dispatch";
  http_get = λ url log. raise (codes "no");
  http_post = λ url payload log. refuses_first log;
}

abbrev open_client : Client
open_client = record a_client { http_post = λ url payload log. answer (boolean true) }

claim_one-Claimed_example :
    Claimed
      (λ j. codes "?")
      a_client
      (codes "bridge")
      (codes "normal")
      (select_candidates (λ j. codes "?") a_queue (codes "normal"))
      []
      (claim_one a_client
        (codes "bridge")
        (λ j. codes "?")
        (λ lane log. ok a_queue)
        (codes "normal")
        [])
unfolding select_candidates Text.contains_text Text.starts_with Json.get Json.find ◌==◌ Text.lower
    number_of
claim_one-Claimed_example =
    claim_one-Claimed (λ j. codes "?") a_client (codes "bridge") (codes "normal")
      (λ lane log. ok a_queue) [] a_queue refl (refl, (refl, tt))

claim_one-some_example :
    (c : ClaimedItem) × ((claim_one open_client
        (codes "bridge")
        (λ j. codes "?")
        (λ lane log. ok a_queue)
        (codes "normal")
        []).0
      ≡ ok (some c))
unfolding select_candidates Text.contains_text Text.starts_with Json.get Json.find ◌==◌ Text.lower
    number_of
claim_one-some_example =
    claim_one-some (λ j. codes "?") open_client (codes "bridge") (codes "normal")
      (λ lane log. ok a_queue) [] a_queue refl (refl, (refl, tt)) (inl (pos 7, refl, λ log. refl))

abbrev a_claimed_item : ClaimedItem
a_claimed_item = record {
  repo = codes "miso/app";
  issue_number = 7;
  intent = [];
  lane = codes "normal";
  issue_id = codes "id-7";
}

abbrev bad_request_client : Client
bad_request_client = record a_client {
  http_post = λ url payload log. failure (some 400) (codes "400 Client Error");
}

unclaim-raise_example :
    unclaim bad_request_client (codes "bridge") (λ status. ltb status 400) a_claimed_item [] ≡ (
      raise (codes "400 Client Error"),
      release bad_request_client (codes "bridge") (λ status. ltb status 400) a_claimed_item false
          ∷ [],
    )
unclaim-raise_example =
    unclaim-raise bad_request_client (codes "bridge") (λ status. ltb status 400)
      (λ status h. ground arith) a_claimed_item [] (some 400) (codes "400 Client Error") refl

abbrev a_snapshot : Dict.Dict (List Json)
a_snapshot = (codes "normal", a_queue) ∷ (codes "cloud", a_queue_item 7 ∷ []) ∷ []

lane_index-find_issue_id_example :
    (index : Index) × (lane_index (λ j. codes "?") a_snapshot (codes "cloud" ∷ codes "normal" ∷ [])
      ≡ some index)
    × (lane_in (codes "miso/app") (pos 7) index
        ≡ lane_of_match (
            first_match a_snapshot
              (codes "cloud" ∷ codes "normal" ∷ [])
              (codes "miso/app")
              (pos 7)))
    × (find_issue_id
          (λ j. codes "?")
          a_snapshot
          (codes "cloud" ∷ codes "normal" ∷ [])
          (codes "miso/app")
          (pos 7)
        ≡ some (
            id_of_match
              (λ j. codes "?")
              (codes "miso/app")
              (pos 7)
              (first_match a_snapshot
                (codes "cloud" ∷ codes "normal" ∷ [])
                (codes "miso/app")
                (pos 7))))
unfolding queue_of Dict.lookup ◌==◌ Json.get Json.find item_number number_of
lane_index-find_issue_id_example =
    lane_index-find_issue_id (λ j. codes "?") (codes "miso/app") (pos 7) refl refl a_snapshot
      (codes "cloud" ∷ codes "normal" ∷ [])
      (
        ((codes "miso/app", pos 7, refl, refl), tt),
        (((codes "miso/app", pos 7, refl, refl), ((codes "miso/app", pos 8, refl, refl), tt)), tt),
      )
