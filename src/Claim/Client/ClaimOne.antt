-- ===== src/Claim/Client/ClaimOne.antt =====
-- bridge/claim.py: what `claim_one` has claimed when it ends.
use foreman_dispatch_bridge.Base.{
  ◌≡◌, refl, sym, ap, ◌∙◌, Bool, true, false, Option, none, some, List, [], ◌∷◌, ◌++◌,
  if◌then◌else◌, given, All, Any, All-append, inl, inr, is_some,
}
use mathlib.Core.List.{append_assoc}
use foreman_dispatch_bridge.Base.Text.{Text, codes}
use foreman_dispatch_bridge.Base.Int.{ℤ}
use foreman_dispatch_bridge.Base.Json.{Json, null, boolean, num, str, arr, obj, Fields, find}
use foreman_dispatch_bridge.Base.Effects.{
  Result, ok, raise, returned, continue, pure, attempt, ◌>>=◌,
}
use foreman_dispatch_bridge.Models.{ClaimedItem}
use foreman_dispatch_bridge.Claim.Queue.{select_candidates}
use foreman_dispatch_bridge.Claim.Client.{
  Posted, answer, failure, ClientCall, posted, fetched, ClientLog, Client, not_none, as_result,
  int_of_json, number_of, claim_payload, claim_url, post, accepted, claim, to_claimed_item, convert,
  try_claim, unless_claimed, claim_first, claim_one,
}

value_of : {A : Type 0} (r : Result A) → returned r ≡ true → (a : A) × (r ≡ ok a)
value_of (ok a) h = (a, refl)
value_of (raise e) h = cc

-- No POST was accepted.
abbrev pub NotTaken : ClientCall → Type 0
NotTaken (posted url payload b) = b ≡ false
NotTaken (fetched url) = Unit

-- The log is `before` with calls of which none took an issue.
abbrev pub Refusals : (before log : ClientLog) → Type 0
Refusals before log = (calls : List ClientCall) × (log ≡ calls ++ before) × All NotTaken calls

abbrev pub HasRepo : Fields → Type 0
HasRepo item = is_some (find (codes "repoFullName") item) ≡ true

module _ (repr : Json → Text) (client : Client) (agent_name : Text) (lane : Text) where
  -- The POST that claims an item, and whether it was accepted.
  abbrev pub claiming : Fields → ℤ → Bool → ClientCall
  claiming item n b = posted (claim_url client agent_name) (claim_payload item n agent_name) b

  -- One of the items was claimed, as the last call, and it is the one that is returned.
  pub record Takes (items : List Fields) (before : ClientLog) (c : ClaimedItem) (log : ClientLog)
      : Type 0 where
    pub item : Fields
    pub is_item : Any (λ i. i ≡ item) items
    pub n : ℤ
    pub is_number : int_of_json (number_of item) ≡ some n
    pub is_claimed_item : to_claimed_item client agent_name repr item lane ≡ ok c
    pub earlier : ClientLog
    pub refusals : Refusals before earlier
    pub taken : log ≡ claiming item n true ∷ earlier

  -- How a claim from a list of items may end.
  abbrev pub Claimed : List Fields → ClientLog → Result (Option ClaimedItem) × ClientLog → Type 0
  Claimed items before (ok (some c), log) = Takes items before c log
  Claimed items before (ok none, log) = Refusals before log
  Claimed items before (raise e, log) = ⊥

  -- How the turn of one item may end; its exceptions are dropped.
  abbrev Turn : Fields → ClientLog → Result (Option ClaimedItem) × ClientLog → Type 0
  Turn item before (ok (some c), log) = Takes (item ∷ []) before c log
  Turn item before (ok none, log) = Refusals before log
  Turn item before (raise e, log) = Refusals before log

  pub to_claimed_item-ok :
      (item : Fields) (n : ℤ)
      → HasRepo item
      → int_of_json (number_of item) ≡ some n
      → (c : ClaimedItem) × (to_claimed_item client agent_name repr item lane ≡ ok c)
  unfolding to_claimed_item given
  to_claimed_item-ok item n h e = value_of _ (by_repo (find (codes "repoFullName") item) refl h)
    where
      by_repo :
          (o : Option Json)
          → find (codes "repoFullName") item ≡ o
          → is_some o ≡ true
          → returned (to_claimed_item client agent_name repr item lane) ≡ true
      by_repo none there h' = cc
      by_repo (some repo) there h' = rw (there, e) refl

  took :
      (item : Fields) (n : ℤ) (log : ClientLog)
      → HasRepo item
      → int_of_json (number_of item) ≡ some n
      → Turn item log (
          (convert client agent_name repr item lane >>= λ c. pure (some c))
            (claiming item n true ∷ log))
  unfolding ◌>>=◌
  took item n log h e =
      let (c, is_c) = to_claimed_item-ok item n h e in
      rw is_c (record {
        item = item;
        is_item = inl refl;
        n = n;
        is_number = e;
        is_claimed_item = is_c;
        earlier = log;
        refusals = ([], refl, tt);
        taken = refl;
      })

  -- What is left of a turn, after a POST with this reply.
  after_post :
      (item : Fields) (n : ℤ) (log : ClientLog)
      → HasRepo item
      → int_of_json (number_of item) ≡ some n
      → (p : Posted)
      → Turn item log (
          continue
            (as_result p)
            (λ is_claimed.
              if is_claimed
              then (convert client agent_name repr item lane >>= λ c. pure (some c))
              else pure none)
            (claiming item n (not_none p) ∷ log))
  unfolding ◌>>=◌
  after_post item n log h e (failure response text) = (claiming item n false ∷ [], refl, (refl, tt))
  after_post item n log h e (answer null) = (claiming item n false ∷ [], refl, (refl, tt))
  after_post item n log h e (answer (boolean b)) = took item n log h e
  after_post item n log h e (answer (num k)) = took item n log h e
  after_post item n log h e (answer (str t)) = took item n log h e
  after_post item n log h e (answer (arr js)) = took item n log h e
  after_post item n log h e (answer (obj fs)) = took item n log h e

  try_claim-Turn :
      (item : Fields) (log : ClientLog)
      → HasRepo item
      → Turn item log (try_claim client agent_name repr lane item log)
  unfolding try_claim claim accepted post given ◌>>=◌
  try_claim-Turn item log h = by_number (int_of_json (number_of item)) refl
    where
      by_number :
          (o : Option ℤ)
          → int_of_json (number_of item) ≡ o
          → Turn item log (
              (given o
                    (λ log. (raise [], log))
                    (λ n.
                      accepted client agent_name
                        (claim_url client agent_name)
                        (claim_payload item n agent_name))
                  >>= λ is_claimed.
                      if is_claimed
                      then (convert client agent_name repr item lane >>= λ c. pure (some c))
                      else pure none)
                log)
      by_number none e = ([], refl, tt)
      by_number (some n) e =
          after_post item n log h e
            (client.http_post (claim_url client agent_name) (claim_payload item n agent_name) log)

  Takes-here :
      (item : Fields) (items : List Fields) (before log : ClientLog) (c : ClaimedItem)
      → Takes (item ∷ []) before c log
      → Takes (item ∷ items) before c log
  Takes-here item items before log c t = record {
    item = t.item;
    is_item = elim (t.is_item) [ inl e ↦ inl e | inr h ↦ elim h [ ] ];
    n = t.n;
    is_number = t.is_number;
    is_claimed_item = t.is_claimed_item;
    earlier = t.earlier;
    refusals = t.refusals;
    taken = t.taken;
  }

  Refusals-trans :
      (first second third : ClientLog)
      → Refusals first second
      → Refusals second third
      → Refusals first third
  Refusals-trans first second third (xs, e, h) (ys, f, k) = (
    ys ++ xs,
    f ∙ ap (λ l. ys ++ l) e ∙ sym (append_assoc ys xs first),
    All-append NotTaken ys xs k h,
  )

  Claimed-later :
      (item : Fields) (items : List Fields) (before log : ClientLog)
      (r : Result (Option ClaimedItem) × ClientLog)
      → Refusals before log
      → Claimed items log r
      → Claimed (item ∷ items) before r
  Claimed-later item items before log (ok none, l) h k = Refusals-trans before log l h k
  Claimed-later item items before log (raise e, l) h k = k
  Claimed-later item items before log (ok (some c), l) h t = record {
    item = t.item;
    is_item = inr t.is_item;
    n = t.n;
    is_number = t.is_number;
    is_claimed_item = t.is_claimed_item;
    earlier = t.earlier;
    refusals = Refusals-trans before log t.earlier h t.refusals;
    taken = t.taken;
  }

  claim_first-Claimed :
      (items : List Fields) (log : ClientLog)
      → All HasRepo items
      → Claimed items log (claim_first client agent_name repr lane items log)
  unfolding claim_first attempt ◌>>=◌
  claim_first-Claimed [] log h = ([], refl, tt)
  claim_first-Claimed (item ∷ items) log (h, hs) =
      by_turn (try_claim client agent_name repr lane item log) (try_claim-Turn item log h)
        (λ l. claim_first-Claimed items l hs)
    where
      by_turn :
          (r : Result (Option ClaimedItem) × ClientLog)
          → Turn item log r
          → ((l : ClientLog) → Claimed items l (claim_first client agent_name repr lane items l))
          → Claimed (item ∷ items) log (
              unless_claimed client agent_name repr r.0
                (claim_first client agent_name repr lane items)
                r.1)
      by_turn (ok (some c), l) t ih = Takes-here item items log l c t
      by_turn (ok none, l) t ih = Claimed-later item items log l _ t (ih l)
      by_turn (raise e, l) t ih = Claimed-later item items log l _ t (ih l)

  -- Once the queue is read, a claim on a lane returns, whatever the POSTs raise. If it returns an
  -- item, this is the item of a candidate of the queue whose claim was accepted, in the last call, and
  -- no other call took an issue; if it returns none, no call took one. The candidates are taken to
  -- have a repository.
  pub claim_one-Claimed :
      (queue_for : Text → ClientLog → Result (List Json)) (log : ClientLog) (queue : List Json)
      → queue_for lane log ≡ ok queue
      → All HasRepo (select_candidates repr queue lane)
      → Claimed
          (select_candidates repr queue lane)
          log
          (claim_one client agent_name repr queue_for lane log)
  unfolding claim_one ◌>>=◌
  claim_one-Claimed queue_for log queue e h =
      rw e (claim_first-Claimed (select_candidates repr queue lane) log h)
