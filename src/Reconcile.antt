-- ===== src/Reconcile.antt =====
-- bridge/reconcile.py: the two passes over the issues that Dispatch lists as claimed. A number of an
-- issue is natural. `repr` is Python's `str` on values that are not texts.
use foreman_dispatch_bridge.Base.{
  Bool, true, false, not, Option, none, some, List, [], ◌∷◌, ◌++◌, if◌then◌else◌, given, any,
  is_some,
}
use foreman_dispatch_bridge.Base.Text.{Text, codes, mem_text, contains_text}
use foreman_dispatch_bridge.Base.Int.{ℤ, pos_part}
use foreman_dispatch_bridge.Base.Json.{
  Json, null, boolean, num, str, arr, obj, Fields, get, find, truthy, items,
}
use foreman_dispatch_bridge.Base.Effects.{
  Result, ok, raise, returned, M, pure, ◌>>=◌, ◌>>◌, perform, attempt, for_each,
}
use foreman_dispatch_bridge.Models.{ClaimedItem}
use foreman_dispatch_bridge.Workload.Name.{workload_name}
use foreman_dispatch_bridge.PrFix.Mergeable.{shown, sha_text}
use foreman_dispatch_bridge.Claim.Queue.{is_text}
use foreman_dispatch_bridge.Claim.Client.{int_of_json}
pub mod Unbacked
pub mod Passes

-- A call and whether it returned.
pub data ReconcileCall : Type 0 where
  listed : (status : Text) → ReconcileCall
  status_updated : Fields → (status : Text) → Bool → ReconcileCall
  unlabelled : Fields → (label : Text) → Bool → ReconcileCall
  claim_dropped : ClaimedItem → Bool → ReconcileCall

abbrev pub ReconcileLog : Type 0
ReconcileLog = List ReconcileCall

abbrev pub Reconcile : Type 0 → Type 0
Reconcile = M {0} ReconcileCall

-- The methods of `dispatch`; an empty status stands for the default one.
pub record ReconcileHooks : Type 0 where
  pub list_claimed : (status : Text) → ReconcileLog → Result (List Json)
  pub update_status : Fields → (status : Text) → ReconcileLog → Result Bool
  pub remove_label : Fields → (label : Text) → ReconcileLog → Result Bool
  pub unclaim : ClaimedItem → ReconcileLog → Result Bool

-- The lines, with the number as the item has it.
pub data ReconcileLine : Type 0 where
  reset_to_ready : (issue_number : Json) → ReconcileLine
  released : (issue_number : Json) → ReconcileLine

-- `item.get("repoFullName") or ""`; `none` where `workload_name` cannot take it.
abbrev repo_or_empty : Json → Option Text
repo_or_empty (str t) = some t
repo_or_empty v = if truthy v then none else some []

abbrev pub issue_number_of : Fields → Json
issue_number_of item = get (codes "number") item

abbrev pub is_null : Json → Bool
is_null null = true
is_null _ = false

-- `"status/ready" in labels`; `none` is the TypeError.
abbrev pub has_ready : Json → Option Bool
has_ready (arr js) = some (any (λ j. is_text j (codes "status/ready")) (items js))
has_ready (str t) = some (contains_text t (codes "status/ready"))
has_ready (obj fs) = some (is_some (find (codes "status/ready") fs))
has_ready _ = none

-- The line of a change that returned.
abbrev pub add_line :
    {A : Type 0} → List ReconcileLine → ReconcileLine → Result A → List ReconcileLine
add_line results line (ok b) = results ++ line ∷ []
add_line results line (raise e) = results

-- An exception outside the `try`.
abbrev pub fail : Reconcile (List ReconcileLine)
fail log = (raise [], log)

module _ (repr : Json → Text) where
  -- The line as it is logged.
  unfoldable pub render_reconcile : ReconcileLine → Text
  render_reconcile (reset_to_ready n) =
      codes "issue " ++ (sha_text repr n ++ codes ": reset to ready (no Workload, no open PR)")
  render_reconcile (released n) =
      codes "issue "
      ++ (sha_text repr n ++ codes ": released stuck claim (ready, no Workload, no open PR)")

  -- The issue of an item; `none` where the code raises. A negative number, which no issue has, is kept as 0
  -- here, and as it is by the code.
  unfoldable pub issue_of : Fields → (issue_id : Text) → Option ClaimedItem
  issue_of item issue_id = given (repo_or_empty (get (codes "repoFullName") item)) none λ repo.
      given (int_of_json (issue_number_of item)) none λ n. some (record {
        repo = repo;
        issue_number = pos_part n;
        intent = [];
        lane = [];
        issue_id = issue_id;
      })

  -- A Workload or an open pull request stands behind the item.
  unfoldable pub is_backed : (workload_names : List Text) → Fields → ClaimedItem → Bool
  is_backed workload_names item ci =
      if mem_text (workload_name ci) workload_names
      then true
      else truthy (get (codes "hasOpenPr") item)

  module _ (hooks : ReconcileHooks) (workload_names : List Text) where
    -- `update_status`, then `remove_label`.
    unfoldable pub reset_item : Fields → Reconcile Bool
    unfolding perform ◌>>=◌
    reset_item item =
        perform (λ r. status_updated item (codes "ready") (returned r))
          (hooks.update_status item (codes "ready"))
        >>= λ _.
            perform (λ r. unlabelled item (codes "needs-human") (returned r))
              (hooks.remove_label item (codes "needs-human"))

    -- The body of the loop of `reconcile_stranded_issues`; what the `try` catches leaves the item alone.
    unfoldable pub reconcile_item : List ReconcileLine → Fields → Reconcile (List ReconcileLine)
    unfolding issue_of is_backed reset_item attempt ◌>>=◌
    reconcile_item results item =
        if is_null (issue_number_of item)
        then pure results
        else (given (issue_of item []) (pure results) λ ci.
            if is_backed workload_names item ci
            then pure results
            else (attempt (reset_item item) >>= λ r.
                pure (add_line results (reset_to_ready (issue_number_of item)) r)))

    unfoldable pub reconcile_json : List ReconcileLine → Json → Reconcile (List ReconcileLine)
    unfolding reconcile_item
    reconcile_json results (obj item) = reconcile_item results item
    reconcile_json results _ = pure results

    unfoldable pub reconcile_stranded_issues : Reconcile (List ReconcileLine)
    unfolding reconcile_json perform for_each ◌>>=◌
    reconcile_stranded_issues =
        perform (λ r. listed []) (hooks.list_claimed []) >>= for_each reconcile_json []

    -- The release of an issue, with its exception dropped.
    unfoldable pub release_issue :
        List ReconcileLine → Fields → ClaimedItem → Reconcile (List ReconcileLine)
    unfolding is_backed perform attempt ◌>>=◌
    release_issue results item ci =
        if is_backed workload_names item ci
        then pure results
        else (attempt (perform (λ r. claim_dropped ci (returned r)) (hooks.unclaim ci)) >>= λ r.
            pure (add_line results (released (issue_number_of item)) r))

    -- An item with labels.
    unfoldable pub release_ready : List ReconcileLine → Fields → Reconcile (List ReconcileLine)
    unfolding release_issue issue_of
    release_ready results item = given (has_ready (get (codes "labels") item)) fail λ is_ready.
        if is_ready
        then (given (issue_of item (shown repr (get (codes "issueId") item))) fail
            (release_issue results item))
        else pure results

    -- The body of the loop of `release_stuck_claims`; what raises outside its `try` ends the pass.
    unfoldable pub release_json : List ReconcileLine → Json → Reconcile (List ReconcileLine)
    unfolding release_ready
    release_json results (obj item) =
        if is_null (issue_number_of item)
        then pure results
        else if truthy (get (codes "labels") item)
        then release_ready results item
        else pure results
    release_json results _ = fail

    unfoldable pub release_stuck_claims : Reconcile (List ReconcileLine)
    unfolding release_json perform for_each ◌>>=◌
    release_stuck_claims =
        perform (λ r. listed (codes "ready")) (hooks.list_claimed (codes "ready"))
        >>= for_each release_json []
