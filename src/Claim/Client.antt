-- ===== src/Claim/Client.antt =====
-- bridge/claim.py: the calls that DispatchClient makes to claim, move and release an issue. `repr` is
-- Python's `str` on values that are not texts.
use foreman_dispatch_bridge.Base.{
  ℕ, zero, suc, Bool, true, false, ◌&&◌, not, nat_eq, Option, none, some, List, [], ◌∷◌, ◌++◌,
  if◌then◌else◌, given,
}
use foreman_dispatch_bridge.Base.Text.{Text, codes}
use foreman_dispatch_bridge.Base.Int.{ℤ, pos, pos_part}
use foreman_dispatch_bridge.Base.Decimal.{parse_int}
use foreman_dispatch_bridge.Base.Json.{
  Json, null, boolean, num, str, arr, obj, Fields, field, end, get, find, or_else,
}
use foreman_dispatch_bridge.Base.Effects.{
  Result, ok, raise, returned, M, pure, ◌>>=◌, ◌>>◌, perform, attempt,
}
use foreman_dispatch_bridge.Models.{ClaimedItem}
use foreman_dispatch_bridge.PrFix.Mergeable.{shown}
use foreman_dispatch_bridge.Claim.Queue.{lane_of, select_candidates}
pub mod ClaimOne
pub mod Live
pub mod Escalation

-- What a POST comes to: the decoded answer, which is null on a 409, or an exception with its text and
-- the status of its response, if it has one.
pub data Posted : Type 0 where
  answer : Json → Posted
  failure : (response : Option ℕ) → Text → Posted

-- A POST and whether it had an answer, and a GET.
pub data ClientCall : Type 0 where
  posted : (url : Text) → Fields → Bool → ClientCall
  fetched : (url : Text) → ClientCall

abbrev pub ClientLog : Type 0
ClientLog = List ClientCall

abbrev pub Act : Type 0 → Type 0
Act = M {0} ClientCall

-- `__init__`, with the base's trailing slashes off. The headers are left out.
pub record Client : Type 0 where
  pub base : Text
  pub http_get : Text → ClientLog → Result Json
  pub http_post : Text → Fields → ClientLog → Posted

-- `... is not None`
abbrev pub not_none : Posted → Bool
not_none (answer null) = false
not_none (answer j) = true
not_none (failure response text) = false

-- The Boolean that the methods return; an exception goes on.
abbrev pub as_result : Posted → Result Bool
as_result (failure response text) = raise text
as_result p = ok (not_none p)

-- `int(v)`; `none` where it raises.
abbrev pub int_of_json : Json → Option ℤ
int_of_json (num z) = some z
int_of_json (boolean b) = some (pos (if b then 1 else 0))
int_of_json (str t) = parse_int t
int_of_json _ = none

-- `_number(item)`
unfoldable pub number_of : Fields → Json
number_of item = or_else (get (codes "number") item) (get (codes "issueNumber") item)

abbrev pub id_of : Fields → Json
id_of item = or_else (get (codes "issueId") item) (get (codes "id") item)

-- The payload of a claim.
unfoldable pub claim_payload : Fields → ℤ → (agent_name : Text) → Fields
claim_payload item n agent_name = field (codes "issueId") (id_of item) (
    field (codes "repoFullName") (get (codes "repoFullName") item)
      (field (codes "issueNumber") (num n) (field (codes "agentName") (str agent_name) end)))

-- The identity of an item, with what the call is about.
abbrev pub item_payload : ClaimedItem → (key : Text) → Json → Fields
item_payload item key v = field (codes "issueId") (str item.issue_id) (
    field (codes "repoFullName") (str item.repo)
      (field (codes "issueNumber") (num (pos item.issue_number)) (field key v end)))

-- The payload of a lane's classification.
abbrev pub lane_payload : (lane reason : Text) → Fields
lane_payload lane reason = field (codes "model") (str (codes "bridge-escalation")) (
    field (codes "classification")
      (obj (
        field (codes "lane") (str lane) (
          field (codes "confidence") (str (codes "high"))
            (field (codes "reason") (str reason) end))))
      end)

module _ (client : Client) (agent_name : Text) where
  abbrev pub claim_url : Text
  claim_url = client.base ++ codes "/api/issues/claim"

  abbrev pub lane_url : Text → Text
  lane_url issue_id = client.base ++ (codes "/api/issues/" ++ (issue_id ++ codes "/lane"))

  abbrev pub unclaim_url : Text
  unclaim_url = client.base ++ codes "/api/issues/unclaim"

  -- A POST, with its answer as a value.
  unfoldable pub post : Text → Fields → Act Posted
  post url payload log = (
    ok (client.http_post url payload log),
    posted url payload (not_none (client.http_post url payload log)) ∷ log,
  )

  -- `self._http_post(...) is not None`
  unfoldable pub accepted : Text → Fields → Act Bool
  unfolding post ◌>>=◌
  accepted url payload = post url payload >>= λ p log. (as_result p, log)

  -- `claim`
  unfoldable pub claim : Fields → Act Bool
  unfolding accepted claim_payload number_of
  claim item =
      given (int_of_json (number_of item)) (λ log. (raise [], log))
        λ n. accepted claim_url (claim_payload item n agent_name)

  -- `set_lane`
  unfoldable pub set_lane : ClaimedItem → (lane reason : Text) → Act Bool
  unfolding accepted
  set_lane item lane reason = accepted (lane_url item.issue_id) (lane_payload lane reason)

  module _ (truth : ℕ → Bool) where
    -- `except` of `unclaim`: `status` is the response, whose truth value is that of its status.
    abbrev pub unclaimed : Posted → Result Bool
    unclaimed (failure (some status) text) =
        if truth status && nat_eq status 400 then ok true else raise text
    unclaimed p = as_result p

    -- `unclaim`
    unfoldable pub unclaim : ClaimedItem → Act Bool
    unfolding post ◌>>=◌
    unclaim item =
        post unclaim_url (item_payload item (codes "agentName") (str agent_name)) >>= λ p log.
        (unclaimed p, log)

    -- `escalate`
    unfoldable pub escalate : ClaimedItem → (lane reason : Text) → Act Bool
    unfolding set_lane unclaim ◌>>=◌
    escalate item lane reason =
        set_lane item lane reason >>= λ is_set. if is_set then unclaim item else pure false

  module _ (repr : Json → Text) where
    -- A text of an item; a repository or lane that is no text is kept as its `str`.
    abbrev text_of : Json → Text
    text_of (str t) = t
    text_of v = repr v

    -- `to_claimed_item`, for an item whose number is one; a repository must be there. A negative number, which
    -- no issue has, is kept as 0 here, and as it is by the code.
    unfoldable pub to_claimed_item : Fields → (lane : Text) → Result ClaimedItem
    unfolding number_of lane_of
    to_claimed_item item lane =
        given (find (codes "repoFullName") item) (raise (codes "'repoFullName'")) λ repo.
          given (int_of_json (number_of item)) (raise []) λ n. ok (record {
            repo = text_of repo;
            issue_number = pos_part n;
            intent = shown repr (get (codes "title") item);
            lane = text_of (or_else (lane_of item) (str lane));
            issue_id = shown repr (id_of item);
          })

    abbrev convert : Fields → (lane : Text) → Act ClaimedItem
    convert item lane log = (to_claimed_item item lane, log)

    -- The body of the `try` of `claim_one`.
    unfoldable pub try_claim : (lane : Text) → Fields → Act (Option ClaimedItem)
    unfolding claim to_claimed_item ◌>>=◌
    try_claim lane item = claim item >>= λ is_claimed.
        if is_claimed
        then (convert item lane >>= λ claimed_item. pure (some claimed_item))
        else pure none

    -- The end of a round of `claim_one`: the next candidate where one is not claimed, or raises.
    abbrev pub unless_claimed :
        Result (Option ClaimedItem) → Act (Option ClaimedItem) → Act (Option ClaimedItem)
    unless_claimed (ok (some claimed_item)) rest = pure (some claimed_item)
    unless_claimed (ok none) rest = rest
    unless_claimed (raise e) rest = rest

    -- The loop of `claim_one`.
    unfoldable pub claim_first : (lane : Text) → List Fields → Act (Option ClaimedItem)
    unfolding try_claim attempt ◌>>=◌
    claim_first lane [] = pure none
    claim_first lane (item ∷ items) =
        attempt (try_claim lane item) >>= λ r. unless_claimed r (claim_first lane items)

    -- `claim_one`
    unfoldable pub claim_one :
        (queue_for : Text → ClientLog → Result (List Json)) (lane : Text) → Act (Option ClaimedItem)
    unfolding claim_first select_candidates ◌>>=◌
    claim_one queue_for lane = (λ log. (queue_for lane log, log)) >>= λ queue.
        claim_first lane (select_candidates repr queue lane)
