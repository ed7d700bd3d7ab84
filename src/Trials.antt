-- ===== src/Trials.antt =====
-- The theorems on the retries of requests, the state of a pull request and the passes over Workloads, at
-- concrete inputs.
use foreman_dispatch_bridge.Base.{
  ◌≡◌, none, true, [], ◌∷◌, false, List, ℕ, suc, zero, ◌≤◌, refl, some, Option, length,
  if◌then◌else◌, given,
}
use foreman_dispatch_bridge.Base.Text
use foreman_dispatch_bridge.Base.Dict
use foreman_dispatch_bridge.Base.Json
use foreman_dispatch_bridge.Base.Text.{Text, codes, ◌==◌}
use foreman_dispatch_bridge.Base.Json.{
  Json, str, arr, obj, field, end, nil, cons, num, boolean, null,
}
use foreman_dispatch_bridge.Base.Effects.{raise, Result, ok}
use foreman_dispatch_bridge.Models.{Workload}
use foreman_dispatch_bridge.Prune.{Stamped, aware}
use foreman_dispatch_bridge.Prune.Pass.{PruneHooks, PruneSettings, prune_workloads}
use foreman_dispatch_bridge.Prune.Pass.Reasons.{AllReasons}
use foreman_dispatch_bridge.Prune.Pass.Whole.{prune_workloads-AllReasons}
use foreman_dispatch_bridge.Review.{ReviewHooks, ReviewLine, Dispatch, transition_to_in_review}
use foreman_dispatch_bridge.Review.Signals.{TaskResult, extract_already_resolved}
use foreman_dispatch_bridge.Review.Grounds.{Shows}
use foreman_dispatch_bridge.Review.Moves.{AllExplained}
use foreman_dispatch_bridge.Review.Explained.{transition_to_in_review-AllExplained}
use foreman_dispatch_bridge.Review.Lines.{Readable, transition_to_in_review-reports}
use foreman_dispatch_bridge.Http.{
  Reply, responded, raised, timeout_error, Response, Seconds, finite, retry_request,
}
use foreman_dispatch_bridge.Http.Decisive.{Ends, Retried, retry_request-Ends}
use foreman_dispatch_bridge.Http.Kubernetes.{
  KubeReply, answered, api_exception, default_backoff, delete_workload,
}
use foreman_dispatch_bridge.Http.Kubernetes.Gone.{Deletes, delete_workload-Deletes}
use foreman_dispatch_bridge.PrFix.Mergeable.{shown, check_pr_mergeable, pull_url, reviews_url}
use foreman_dispatch_bridge.PrFix.Mergeable.Ready.{
  IsMergeable, IsRefused, check_pr_mergeable-IsMergeable, check_pr_mergeable-IsRefused,
}

abbrev no_float : Text → Option Seconds
no_float t = some (finite 700)

abbrev response : ℕ → Response
response status = record { status_code = status; retry_after = codes "0.7"; body = null }

-- A timeout, a 429 with its header, and then a 200.
abbrev shaky : ℕ → Reply
shaky zero = raised (timeout_error (codes "slow"))
shaky (suc zero) = responded (response 429)
shaky (suc (suc n)) = responded (response 200)

retry_request-Ends_example :
    (length (retry_request no_float default_backoff shaky 2).1 ≤ 2)
    × Retried no_float default_backoff shaky 2 0 (retry_request no_float default_backoff shaky 2).1
    × Ends no_float default_backoff shaky 2
        (length (retry_request no_float default_backoff shaky 2).1)
        (retry_request no_float default_backoff shaky 2).0
retry_request-Ends_example = retry_request-Ends no_float default_backoff shaky 2

-- Two polls find the Workload, and the third does not.
abbrev third_poll : ℕ → ℕ → KubeReply (Unit {0})
third_poll (suc (suc i)) n = api_exception (some 404)
third_poll i n = answered tt

delete_workload-Deletes_example :
    Deletes (λ n. answered tt) third_poll 60 (delete_workload (λ n. answered tt) third_poll 60)
delete_workload-Deletes_example = delete_workload-Deletes (λ n. answered tt) third_poll 60

abbrev repo : Text
repo = codes "miso/app"

abbrev pull_in : Text → Json
pull_in state = obj (
    field (codes "state") (str (codes "open")) (
      field (codes "mergeable_state") (str state)
        (field (codes "head") (obj (field (codes "sha") (str (codes "abc")) end)) end)))

abbrev passing_runs : Json
passing_runs = obj (
    field (codes "check_runs")
      (arr (
        cons
          (obj (
            field (codes "conclusion") (str (codes "success"))
              (field (codes "status") (str (codes "completed")) end)))
          nil))
      end)

abbrev one_review : Json
one_review = arr (
    cons
      (obj (
        field (codes "state") (str (codes "CHANGES_REQUESTED"))
          (field (codes "user") (obj (field (codes "login") (str (codes "ann")) end)) end)))
      nil)

abbrev github : Text → Text → Result Json
github state url =
    if url == pull_url repo (codes "5")
    then ok (pull_in state)
    else if url == reviews_url repo (codes "5")
    then ok one_review
    else ok passing_runs

check_pr_mergeable-IsMergeable_example :
    IsMergeable (λ j. codes "?") (github (codes "clean")) repo (codes "5")
unfolding check_pr_mergeable ◌==◌ Json.get Text.lower given Text.mem_text
check_pr_mergeable-IsMergeable_example =
    check_pr_mergeable-IsMergeable (λ j. codes "?") (github (codes "clean")) repo (codes "5") refl

check_pr_mergeable-IsRefused_example :
    IsRefused (λ j. codes "?") (github (codes "blocked")) repo (codes "5")
unfolding check_pr_mergeable ◌==◌ Json.get Text.lower given Text.mem_text Text.upper Dict.insert
check_pr_mergeable-IsRefused_example =
    check_pr_mergeable-IsRefused (λ j. codes "?") (github (codes "blocked")) repo (codes "5") refl

abbrev pub a_done_workload : Workload
a_done_workload = record {
  name = codes "dispatch-miso-app-7";
  namespace = codes "agents";
  labels = [];
  annotations = [];
  spec = record {
    intent = codes "add a test";
    repo = codes "miso/app";
    issues = 7 ∷ [];
    coder_agent_ref = none;
    reviewer_agent_refs = [];
    verifier_agent_ref = none;
    revision_coder_agent_ref = none;
    pipeline = [];
    revise_from_branch = [];
    allow_overwrite = false;
    self_go = [];
    gate_profile = none;
  };
  phase = codes "Completed";
  task_statuses = [];
}

abbrev a_go : TaskResult
a_go = record { verdict = codes "GO"; summary = codes "done"; extra = end }

abbrev a_dispatch : Dispatch
a_dispatch = record {
  issue_is_parked = λ repo n log. ok false;
  add_label = λ item log. raise (codes "dispatch is down");
  post_comment = λ item text log. ok true;
}

-- A coder that says GO without a pull request.
abbrev review_hooks : ReviewHooks
review_hooks = record {
  list_workloads = λ log. ok (a_done_workload ∷ []);
  list_workload_tasks = λ name log. ok (a_go ∷ []);
  update_status = λ item status reason log. ok true;
  dispatch = some a_dispatch;
  close_issue = none;
}

transition_to_in_review-AllExplained_example :
    AllExplained
      (λ j. codes "?")
      review_hooks
      (a_done_workload ∷ [])
      (transition_to_in_review (λ j. codes "?") review_hooks []).1
unfolding Shows
transition_to_in_review-AllExplained_example =
    transition_to_in_review-AllExplained (λ j. codes "?") review_hooks (λ j. refl)

transition_to_in_review-reports_example :
    (lines : List ReviewLine) × ((transition_to_in_review (λ j. codes "?") review_hooks []).0
      ≡ ok lines)
    × (length lines ≡ length (a_done_workload ∷ []))
unfolding Readable extract_already_resolved Json.get ◌==◌ shown
transition_to_in_review-reports_example =
    transition_to_in_review-reports (λ j. codes "?") review_hooks (λ repo n log. refl)
      (λ name log. (a_go ∷ [], refl, refl)) (a_done_workload ∷ []) refl

-- A Failed Workload of an issue, stamped at 1 s; a TTL of 60 s; and the moment is 100 s.
abbrev an_old_workload : Stamped
an_old_workload = record {
  workload = record a_done_workload {
    phase = codes "Failed";
    labels = (codes "created-by", codes "dispatch-bridge") ∷ [];
  };
  creation_timestamp = codes "1970-01-01T00:00:01Z";
}

abbrev prune_hooks : PruneHooks
prune_hooks = record {
  list_workloads = λ log. ok (an_old_workload ∷ []);
  delete_workload = λ name log. ok tt;
  reset_issue = some (λ wl log. ok tt);
  is_parked_for_human = some (λ wl log. ok false);
}

abbrev prune_settings : PruneSettings
prune_settings = record { now = 100000000; completed_ttl_seconds = 0; failed_ttl_seconds = 60 }

prune_workloads-AllReasons_example :
    AllReasons
      (λ t. some (aware 1000000))
      prune_settings
      prune_hooks
      (an_old_workload ∷ [])
      (prune_workloads prune_hooks (λ t. some (aware 1000000)) prune_settings []).1
prune_workloads-AllReasons_example =
    prune_workloads-AllReasons (λ t. some (aware 1000000)) prune_settings prune_hooks
