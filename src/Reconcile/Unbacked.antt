-- ===== src/Reconcile/Unbacked.antt =====
-- bridge/reconcile.py: the issues that the two passes touch.
use foreman_dispatch_bridge.Base.{
  ◌≡◌, refl, Bool, true, false, Option, none, some, List, [], if◌then◌else◌, given, All, Any,
}
use foreman_dispatch_bridge.Base.Text.{Text, codes, mem_text}
use foreman_dispatch_bridge.Base.Json.{Json, null, boolean, num, str, arr, obj, Fields, get, truthy}
use foreman_dispatch_bridge.Base.Effects.{returned, pure, perform, attempt, ◌>>=◌}
use foreman_dispatch_bridge.Base.Effects.Rules.{
  Keeps, Keeps-pure, Keeps-bind, Keeps-perform, Keeps-attempt,
}
use foreman_dispatch_bridge.Models.{ClaimedItem}
use foreman_dispatch_bridge.Workload.Name.{workload_name}
use foreman_dispatch_bridge.PrFix.Mergeable.{shown}
use foreman_dispatch_bridge.Reconcile.{
  listed, status_updated, unlabelled, claim_dropped, ReconcileCall, ReconcileLog, Reconcile,
  ReconcileHooks, ReconcileLine, reset_to_ready, released, issue_number_of, is_null, has_ready,
  issue_of, is_backed, add_line, fail, reset_item, reconcile_item, reconcile_json, release_issue,
  release_ready, release_json,
}

module _ (repr : Json → Text) (hooks : ReconcileHooks) (workload_names : List Text)
    (claimed : List Json) where
  -- A listed item whose issue has no Workload and no open pull request.
  pub record Unbacked (item : Fields) (ci : ClaimedItem) : Type 0 where
    pub is_listed : Any (λ j. j ≡ obj item) claimed
    pub issue_id : Text
    pub is_issue : issue_of repr item issue_id ≡ some ci
    pub no_workload : mem_text (workload_name ci) workload_names ≡ false
    pub no_pr : truthy (get (codes "hasOpenPr") item) ≡ false

  -- What is changed: an issue without backing, and for a release one whose labels say that it is ready.
  abbrev pub IsUnbacked : ReconcileCall → Type 0
  IsUnbacked (status_updated item status b) = (ci : ClaimedItem) × Unbacked item ci
  IsUnbacked (unlabelled item label b) = (ci : ClaimedItem) × Unbacked item ci
  IsUnbacked (claim_dropped ci b) =
      (item : Fields) × Unbacked item ci × (has_ready (get (codes "labels") item) ≡ some true)
  IsUnbacked (listed status) = Unit

  abbrev pub AllUnbacked : ReconcileLog → Type 0
  AllUnbacked log = All IsUnbacked log

  module _ (item : Fields) (m : Any (λ j. j ≡ obj item) claimed) where
    unbacked :
        (issue_id : Text) (ci : ClaimedItem)
        → issue_of repr item issue_id ≡ some ci
        → is_backed repr workload_names item ci ≡ false
        → Unbacked item ci
    unfolding is_backed
    unbacked issue_id ci e h = record {
      is_listed = m;
      issue_id = issue_id;
      is_issue = e;
      no_workload = (both (mem_text (workload_name ci) workload_names) _ h).0;
      no_pr = (both (mem_text (workload_name ci) workload_names) _ h).1;
    }
      where
        both : (a b : Bool) → (if a then true else b) ≡ false → (a ≡ false) × (b ≡ false)
        both true b k = cc
        both false b k = (refl, k)

    -- `update_status`, then `remove_label`.
    reset_item-Keeps :
        (ci : ClaimedItem)
        → Unbacked item ci
        → Keeps AllUnbacked (reset_item repr hooks workload_names item)
    unfolding reset_item
    reset_item-Keeps ci u =
        Keeps-bind
          (perform (λ r. status_updated item (codes "ready") (returned r))
            (hooks.update_status item (codes "ready")))
          (λ b.
            perform (λ r. unlabelled item (codes "needs-human") (returned r))
              (hooks.remove_label item (codes "needs-human")))
          (Keeps-perform (λ r. status_updated item (codes "ready") (returned r))
            (hooks.update_status item (codes "ready")) λ r log h. ((ci, u), h))
          λ b.
            Keeps-perform (λ r. unlabelled item (codes "needs-human") (returned r))
              (hooks.remove_label item (codes "needs-human")) λ r log h. ((ci, u), h)

    -- A line for the change in `m`, when it returns.
    reported-Keeps :
        {A : Type 0} (m : Reconcile A) (results : List ReconcileLine) (line : ReconcileLine)
        → Keeps AllUnbacked m
        → Keeps AllUnbacked (attempt m >>= λ r. pure (add_line results line r))
    reported-Keeps m results line k =
        Keeps-bind (attempt m) (λ r. pure (add_line results line r)) (Keeps-attempt m k)
          λ r. Keeps-pure (add_line results line r)

    reconcile_item-Keeps :
        (results : List ReconcileLine)
        → Keeps AllUnbacked (reconcile_item repr hooks workload_names results item)
    unfolding reconcile_item given
    reconcile_item-Keeps results = by_number (is_null (issue_number_of item))
      where
        body : ClaimedItem → Bool → Reconcile (List ReconcileLine)
        body ci b =
            if b
            then pure results
            else (attempt (reset_item repr hooks workload_names item) >>= λ r.
                pure (add_line results (reset_to_ready (issue_number_of item)) r))

        by_backing :
            (ci : ClaimedItem)
            → issue_of repr item [] ≡ some ci
            → (b : Bool) → is_backed repr workload_names item ci ≡ b
            → Keeps AllUnbacked (body ci b)
        by_backing ci e true k = Keeps-pure results
        by_backing ci e false k =
            reported-Keeps (reset_item repr hooks workload_names item) results
              (reset_to_ready (issue_number_of item)) (reset_item-Keeps ci (unbacked [] ci e k))

        by_issue :
            (o : Option ClaimedItem)
            → issue_of repr item [] ≡ o
            → Keeps AllUnbacked
                (given o (pure results) λ ci. body ci (is_backed repr workload_names item ci))
        by_issue none e = Keeps-pure results
        by_issue (some ci) e = by_backing ci e (is_backed repr workload_names item ci) refl

        by_number :
            (b : Bool)
            → Keeps AllUnbacked (
                if b
                then pure results
                else (given
                    (issue_of repr item [])
                    (pure results)
                    λ ci. body ci (is_backed repr workload_names item ci)))
        by_number true = Keeps-pure results
        by_number false = by_issue (issue_of repr item []) refl

    fail-Keeps : Keeps AllUnbacked fail
    fail-Keeps = record { at = λ log h. h }

    release_issue-Keeps :
        (issue_id : Text) (results : List ReconcileLine) (ci : ClaimedItem)
        → has_ready (get (codes "labels") item) ≡ some true
        → issue_of repr item issue_id ≡ some ci
        → Keeps AllUnbacked (release_issue repr hooks workload_names results item ci)
    unfolding release_issue
    release_issue-Keeps issue_id results ci ready e =
        by_backing (is_backed repr workload_names item ci) refl
      where
        release : Reconcile Bool
        release = perform (λ r. claim_dropped ci (returned r)) (hooks.unclaim ci)

        by_backing :
            (b : Bool)
            → is_backed repr workload_names item ci ≡ b
            → Keeps AllUnbacked (
                if b
                then pure results
                else (attempt release >>= λ r.
                    pure (add_line results (released (issue_number_of item)) r)))
        by_backing true k = Keeps-pure results
        by_backing false k = reported-Keeps release results (released (issue_number_of item)) (
            Keeps-perform (λ r. claim_dropped ci (returned r)) (hooks.unclaim ci)
              λ r log h. ((item, unbacked issue_id ci e k, ready), h))

    release_ready-Keeps :
        (results : List ReconcileLine)
        → Keeps AllUnbacked (release_ready repr hooks workload_names results item)
    unfolding release_ready given
    release_ready-Keeps results = by_labels (has_ready (get (codes "labels") item)) refl
      where
        issue_id : Text
        issue_id = shown repr (get (codes "issueId") item)

        by_issue :
            (o : Option ClaimedItem)
            → has_ready (get (codes "labels") item) ≡ some true
            → issue_of repr item issue_id ≡ o
            → Keeps AllUnbacked
                (given o fail (release_issue repr hooks workload_names results item))
        by_issue none ready e = fail-Keeps
        by_issue (some ci) ready e = release_issue-Keeps issue_id results ci ready e

        by_labels :
            (o : Option Bool)
            → has_ready (get (codes "labels") item) ≡ o
            → Keeps AllUnbacked (
                given o fail λ is_ready.
                  if is_ready
                  then (given
                      (issue_of repr item issue_id)
                      fail
                      (release_issue repr hooks workload_names results item))
                  else pure results)
        by_labels none ready = fail-Keeps
        by_labels (some true) ready = by_issue (issue_of repr item issue_id) ready refl
        by_labels (some false) ready = Keeps-pure results

    release_numbered-Keeps :
        (results : List ReconcileLine)
        → Keeps AllUnbacked (release_json repr hooks workload_names results (obj item))
    unfolding release_json
    release_numbered-Keeps results =
        by_number (is_null (issue_number_of item)) (truthy (get (codes "labels") item))
      where
        by_number :
            (a b : Bool)
            → Keeps AllUnbacked (
                if a
                then pure results
                else if b
                then release_ready repr hooks workload_names results item
                else pure results)
        by_number true b = Keeps-pure results
        by_number false true = release_ready-Keeps results
        by_number false false = Keeps-pure results

  pub reconcile_json-Keeps :
      (results : List ReconcileLine) (j : Json)
      → Any (λ i. i ≡ j) claimed
      → Keeps AllUnbacked (reconcile_json repr hooks workload_names results j)
  unfolding reconcile_json
  reconcile_json-Keeps results (obj item) m = reconcile_item-Keeps item m results
  reconcile_json-Keeps results null m = Keeps-pure results
  reconcile_json-Keeps results (boolean b) m = Keeps-pure results
  reconcile_json-Keeps results (num n) m = Keeps-pure results
  reconcile_json-Keeps results (str t) m = Keeps-pure results
  reconcile_json-Keeps results (arr js) m = Keeps-pure results

  pub release_json-Keeps :
      (results : List ReconcileLine) (j : Json)
      → Any (λ i. i ≡ j) claimed
      → Keeps AllUnbacked (release_json repr hooks workload_names results j)
  unfolding release_json
  release_json-Keeps results (obj item) m = release_numbered-Keeps item m results
  release_json-Keeps results null m = record { at = λ log h. h }
  release_json-Keeps results (boolean b) m = record { at = λ log h. h }
  release_json-Keeps results (num n) m = record { at = λ log h. h }
  release_json-Keeps results (str t) m = record { at = λ log h. h }
  release_json-Keeps results (arr js) m = record { at = λ log h. h }
