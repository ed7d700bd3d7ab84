-- ===== src/PrFix/Mergeable.antt =====
-- bridge/main.py: `check_pr_mergeable`, over the answers of GitHub to its requests. `repr` is
-- Python's `str` on values that are not texts; `none` is an exception.
use foreman_dispatch_bridge.Base.{
  ℕ, nat_eq, Bool, true, false, ◌&&◌, ◌||◌, not, Option, none, some, List, [], ◌∷◌, ◌++◌,
  if◌then◌else◌, given, any,
}
use foreman_dispatch_bridge.Base.Text.{Text, codes, ◌==◌, lower, upper, mem_text, is_empty}
use foreman_dispatch_bridge.Base.Dict.{Dict, insert}
use foreman_dispatch_bridge.Base.Json.{
  Json, null, boolean, num, str, arr, obj, nil, cons, Items, Fields, end, get, find, truthy, items,
}
use foreman_dispatch_bridge.Base.Effects.{Result, ok, raise}
use foreman_dispatch_bridge.Claim.Queue.{is_text}
pub mod Verdicts
pub mod Reviews
pub mod Ready

pub data Mergeability : Type 0 where
  is_ok : Mergeability
  dirty : Mergeability
  conflicting : Mergeability
  checks_failed : Mergeability
  checks_pending : Mergeability
  merged : Mergeability
  closed : Mergeability
  changes_requested : Mergeability
  blocked : Mergeability

-- The text that the function returns.
unfoldable pub render_mergeability : Mergeability → Text
render_mergeability is_ok = codes "ok"
render_mergeability dirty = codes "dirty"
render_mergeability conflicting = codes "conflicting"
render_mergeability checks_failed = codes "checks_failed"
render_mergeability checks_pending = codes "checks_pending"
render_mergeability merged = codes "merged"
render_mergeability closed = codes "closed"
render_mergeability changes_requested = codes "changes_requested"
render_mergeability blocked = codes "blocked"

unfoldable pub failing_conclusions : List Text
failing_conclusions =
    codes "failure"
    ∷ codes "timed_out"
    ∷ codes "cancelled"
    ∷ codes "action_required"
    ∷ codes "startup_failure"
    ∷ codes "stale"
    ∷ []

unfoldable pub pending_statuses : List Text
pending_statuses =
    codes "queued"
    ∷ codes "in_progress"
    ∷ codes "waiting"
    ∷ codes "pending"
    ∷ codes "requested"
    ∷ []

-- `(v or {})`, as something with a `get`.
abbrev pub dict_or_empty : Json → Option Fields
dict_or_empty (obj fields) = some fields
dict_or_empty v = if truthy v then none else some end

-- `for x in v or []`: a text or a dict that is not empty gives texts, which the loops' `get` refuses,
-- as a number refuses the loop.
abbrev pub list_or_empty : Json → Option (List Json)
list_or_empty (arr js) = some (items js)
list_or_empty v = if truthy v then none else some []

-- `d.get(key, {})`
abbrev pub get_dict : Text → Fields → Option Fields
get_dict key fields = elim (find key fields) [
  | none ↦ some end
  | some (obj inner) ↦ some inner
  | some other ↦ none
]

-- `d.get(key, [])`
abbrev pub get_list : Text → Fields → Option (List Json)
get_list key fields = elim (find key fields) [ none ↦ some [] | some v ↦ list_or_empty v ]

-- `for x in xs: ...` over a variable, where the body may raise.
unfoldable pub loop {ℓ κ} : {S : Type ℓ} {A : Type κ} → (S → A → Option S) → S → List A → Option S
loop step s [] = some s
loop step s (x ∷ xs) = given (step s x) none λ s'. loop step s' xs

abbrev pub pull_url : (repo pr : Text) → Text
pull_url repo pr = codes "https://api.github.com/repos/" ++ (repo ++ (codes "/pulls/" ++ pr))

abbrev pub runs_url : (repo sha : Text) → Text
runs_url repo sha =
    codes "https://api.github.com/repos/"
    ++ (repo ++ (codes "/commits/" ++ (sha ++ codes "/check-runs")))

abbrev pub reviews_url : (repo pr : Text) → Text
reviews_url repo pr = pull_url repo pr ++ codes "/reviews?per_page=100"

abbrev pub note_review : Dict Text → (who state : Text) → Dict Text
note_review latest [] state = latest
note_review latest (c ∷ who) state = insert (c ∷ who) state latest

unfoldable pub wants_changes : Dict Text → Bool
wants_changes latest = any (λ entry. entry.1 == codes "CHANGES_REQUESTED") latest

module _ (repr : Json → Text) where
  -- `str(v or "")`
  unfoldable pub shown : Json → Text
  shown (str t) = t
  shown v = if truthy v then repr v else []

  unfoldable pub run_conclusion : Fields → Text
  unfolding shown
  run_conclusion run = lower (shown (get (codes "conclusion") run))

  unfoldable pub run_status : Fields → Text
  unfolding shown
  run_status run = lower (shown (get (codes "status") run))

  -- Whether a check run failed, and whether it is pending.
  unfoldable pub run_state : Fields → Bool × Bool
  unfolding run_conclusion run_status failing_conclusions pending_statuses
  run_state run = if mem_text (run_conclusion run) failing_conclusions then (true, false) else (
    false,
    mem_text (run_status run) pending_statuses
        || (is_empty (run_conclusion run) && not (run_status run == codes "completed")),
  )

  -- The round of the loop over the check runs: whether one failed, and whether one is pending.
  unfoldable pub scan_run : Bool × Bool → Json → Option (Bool × Bool)
  unfolding run_state
  scan_run seen run =
      given (dict_or_empty run) none
        λ fields. some (seen.0 || (run_state fields).0, seen.1 || (run_state fields).1)

  -- A review's state where it is a verdict.
  unfoldable pub decision_of : Fields → Option Text
  unfolding shown
  decision_of review =
      let state = upper (shown (get (codes "state") review)) in
      if state == codes "APPROVED" || state == codes "CHANGES_REQUESTED" then some state else none

  -- The review's reviewer, if it has one.
  unfoldable pub reviewer_of : Fields → Option Text
  unfolding shown
  reviewer_of review =
      given (dict_or_empty (get (codes "user") review)) none
        λ user. some (shown (get (codes "login") user))

  -- The round of the loop over the reviews: the last decision of each reviewer.
  unfoldable pub read_review : Dict Text → Json → Option (Dict Text)
  unfolding decision_of reviewer_of
  read_review latest review = given (dict_or_empty review) none λ fields.
      given (decision_of fields) (some latest)
        λ state. given (reviewer_of fields) none λ who. some (note_review latest who state)

  -- What the check runs say, if they end the call; `none` where the `try` block raises.
  unfoldable pub judge_runs : Json → Option (Option Mergeability)
  unfolding scan_run loop
  judge_runs answer = given (dict_or_empty answer) none λ fields.
      given (get_list (codes "check_runs") fields) none λ runs.
        given (loop scan_run (false, false) runs) none λ seen.
          some (if seen.0 then some checks_failed else if seen.1 then some checks_pending else none)

  -- Whether the reviews ask for changes; a failure says no.
  unfoldable pub asks_changes : Result Json → Bool
  unfolding read_review loop wants_changes
  asks_changes (raise e) = false
  asks_changes (ok reviews) =
      given (list_or_empty reviews) false λ rs. given (loop read_review [] rs) false wants_changes

  unfoldable pub merge_state : Fields → Text
  unfolding shown
  merge_state pull = lower (shown (get (codes "mergeable_state") pull))

  -- `f"{head_sha}"`
  abbrev pub sha_text : Json → Text
  sha_text (str t) = t
  sha_text v = repr v

  abbrev unless_raised : Option (Option Mergeability) → Option Mergeability
  unless_raised none = some checks_pending
  unless_raised (some o) = o

  abbrev judge_answer : Result Json → Option Mergeability
  judge_answer (raise e) = some checks_pending
  judge_answer (ok answer) = unless_raised (judge_runs answer)

  module _ (http_get : Text → Result Json) (repo pr : Text) where
    -- The block on the check runs, where it ends the call.
    unfoldable pub check_runs : Fields → Option Mergeability
    unfolding judge_runs
    check_runs pull = given (get_dict (codes "head") pull) (some checks_pending) λ head.
        let sha = get (codes "sha") head in
        if truthy sha then judge_answer (http_get (runs_url repo (sha_text sha))) else none

    -- What is left once no check run ends the call.
    unfoldable pub judge_blockers : (state : Text) → Mergeability
    unfolding asks_changes
    judge_blockers state =
        if state == codes "unstable" || state == codes "blocked"
        then (if asks_changes (http_get (reviews_url repo pr)) then changes_requested else blocked)
        else is_ok

    unfoldable pub judge_pull : Fields → Mergeability
    unfolding merge_state check_runs judge_blockers
    judge_pull pull =
        if truthy (get (codes "merged") pull)
        then merged
        else if is_text (get (codes "state") pull) (codes "closed")
        then closed
        else if merge_state pull == codes "dirty"
        then dirty
        else if merge_state pull == codes "conflicting"
        then conflicting
        else if merge_state pull == codes "unknown" || is_empty (merge_state pull)
        then checks_pending
        else given (check_runs pull) (judge_blockers (merge_state pull)) λ m. m

    abbrev pub judge_reply : Result Json → Option Mergeability
    judge_reply (raise e) = some checks_pending
    judge_reply (ok (obj pull)) = some (judge_pull pull)
    judge_reply (ok other) = none

    -- `check_pr_mergeable`; `none` if GitHub answers with no object.
    unfoldable pub check_pr_mergeable : Option Mergeability
    unfolding judge_pull
    check_pr_mergeable = judge_reply (http_get (pull_url repo pr))

-- `update_pull_request_branch`: whether GitHub took the update, from the status of its answer.
abbrev pub updated : Result ℕ → Bool
updated (raise e) = false
updated (ok status) = nat_eq status 200 || nat_eq status 202

unfoldable pub update_pull_request_branch : (http_put : Text → Result ℕ) → (repo pr : Text) → Bool
update_pull_request_branch http_put repo pr =
    updated (http_put (pull_url repo pr ++ codes "/update-branch"))
