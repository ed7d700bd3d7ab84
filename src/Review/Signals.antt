-- ===== src/Review/Signals.antt =====
-- bridge/review_transition.py: what it reads of a Workload and of its AgenticTasks. `repr` is Python's
-- `str` on values that are not texts.
use foreman_dispatch_bridge.Base.{
  ℕ, Bool, false, ◌&&◌, Option, none, some, List, [], ◌∷◌, ◌++◌, if◌then◌else◌, any, or_default,
}
use foreman_dispatch_bridge.Base.Text.{Text, codes, ◌==◌, is_empty, join}
use foreman_dispatch_bridge.Base.Dict.{lookup}
use foreman_dispatch_bridge.Base.Decimal.{show_nat}
use foreman_dispatch_bridge.Base.Json.{Json, Fields, get, truthy, or_else}
use foreman_dispatch_bridge.Base.Effects.{Result, ok, raise}
use foreman_dispatch_bridge.Models.{Condition, Workload}
use foreman_dispatch_bridge.Workload.Config.{issue_id_annotation}
use foreman_dispatch_bridge.PrFix.Mergeable.{shown, sha_text, dict_or_empty}

-- An AgenticTask's status.verdict, and the summary and the extra of its status.result; a missing text
-- is empty, and so is a missing extra.
pub record TaskResult : Type 0 where
  pub verdict : Text
  pub summary : Text
  pub extra : Fields

-- `_workload_is_completed`
unfoldable pub workload_is_completed : Workload → Bool
workload_is_completed wl = wl.phase == codes "Completed"

abbrev is_text? : Option Text → Text → Bool
is_text? none t = false
is_text? (some s) t = s == t

-- `_workload_is_prfix`
unfoldable pub workload_is_prfix : Workload → Bool
workload_is_prfix wl =
    is_text? (lookup (codes "created-by") wl.labels) (codes "dispatch-bridge-prfix")

-- A condition Completed for the reason AllAlreadyResolved.
unfoldable pub is_all_resolved : Condition → Bool
is_all_resolved c = c.type == codes "Completed" && (c.reason == codes "AllAlreadyResolved")

-- `_workload_all_already_resolved`
unfoldable pub workload_all_already_resolved : Workload → Bool
unfolding is_all_resolved
workload_all_already_resolved wl = any (any is_all_resolved) wl.task_statuses

abbrev no_signal : TaskResult
no_signal = record { verdict = []; summary = []; extra = Fields.end }

-- The loop of `_extract_task_signal`.
unfoldable pub signal_from : TaskResult → List TaskResult → TaskResult
signal_from s [] = s
signal_from s (t ∷ ts) = signal_from (if is_empty t.verdict then s else t) ts

-- `_extract_task_signal`: the result whose verdict, summary and extra are those returned.
unfoldable pub extract_task_signal : List TaskResult → TaskResult
unfolding signal_from
extract_task_signal = signal_from no_signal

module _ (repr : Json → Text) where
  -- `_extract_pr_url`
  unfoldable pub extract_pr_url : List TaskResult → Text
  extract_pr_url [] = []
  extract_pr_url (t ∷ ts) =
      let rest = extract_pr_url ts in
      let url = get (codes "pullRequestURL") t.extra in
      if truthy url then sha_text repr url else rest

  -- The claim of one task; `none` where it makes none, and an exception where its modelExtra is no
  -- dict.
  unfoldable pub claim_of : TaskResult → Result (Option Text)
  claim_of t = elim (dict_or_empty (get (codes "modelExtra") t.extra)) [
    | none ↦ raise []
    | some model_extra ↦ ok (
        if shown repr (get (codes "outcome") model_extra) == codes "ALREADY-RESOLVED"
        then some (
            shown repr (
              or_else (get (codes "resolvedBy") model_extra)
                (get (codes "resolvedByClaimed") t.extra)))
        else none)
  ]

  abbrev pub first_claim : Result (Option Text) → Result (Option Text) → Result (Option Text)
  first_claim (raise e) rest = raise e
  first_claim (ok none) rest = rest
  first_claim (ok (some evidence)) rest = ok (some evidence)

  -- `_extract_already_resolved`: the evidence, if a task claims that the issue is resolved.
  unfoldable pub extract_already_resolved : List TaskResult → Result (Option Text)
  unfolding claim_of
  extract_already_resolved [] = ok none
  extract_already_resolved (t ∷ ts) = first_claim (claim_of t) (extract_already_resolved ts)

abbrev newline : Text
newline = 10 ∷ []

-- `_already_resolved_comment`
unfoldable pub already_resolved_comment : (summary evidence : Text) → Text
already_resolved_comment summary evidence = join newline (
    codes
      "Closing: the coder found this already resolved on the base branch, so no change was made."
    ∷ ((if is_empty summary then [] else [] ∷ summary ∷ [])
        ++ ((if is_empty evidence then [] else [] ∷ codes "Evidence:" ∷ [] ∷ evidence ∷ [])
            ++ ([]
                ∷ codes
                    "This close is based on the coder reading the base branch, not on a merged PR. Reopen if that reading is wrong."
                ∷ []))))

-- The identity that `update_status` takes.
pub record Identity : Type 0 where
  pub issue_id : Text
  pub repo : Text
  pub number : ℕ

abbrev first_number : List ℕ → ℕ
first_number [] = 0
first_number (n ∷ ns) = n

-- `_item_from_workload`
unfoldable pub identity_from_workload : Workload → Identity
identity_from_workload wl = record {
  issue_id = or_default (lookup issue_id_annotation wl.annotations) [];
  repo = wl.spec.repo;
  number = first_number wl.spec.issues;
}

-- `_parked_for_human_comment`, with the default path.
unfoldable pub parked_for_human_comment : (repo : Text) → ℕ → (reason : Text) → Text
parked_for_human_comment repo issue_number reason = join newline (
    codes ":rotating_light: coder reported GO but no PR was opened. (`path: go-no-pr`)"
    ∷ []
    ∷ (codes "**Reason:** " ++ reason)
    ∷ []
    ∷ (codes "**Issue:** " ++ (repo ++ (codes "#" ++ show_nat issue_number)))
    ∷ codes
        "This issue is parked for a human. A reconciliation pass will not re-claim it while the ``needs-human`` label is present."
    ∷ [])
