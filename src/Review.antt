-- ===== src/Review.antt =====
-- bridge/review_transition.py: the pass that moves the issue of a completed Workload on. `repr` is
-- Python's `str` on values that are not texts.
use foreman_dispatch_bridge.Base.{
  ℕ, Bool, true, false, ◌&&◌, ◌||◌, not, nat_eq, Option, none, some, List, [], ◌∷◌, ◌++◌, is_some,
  if◌then◌else◌, given,
}
use foreman_dispatch_bridge.Base.Text.{Text, codes, ◌==◌, is_empty}
use foreman_dispatch_bridge.Base.Json.{Json, str, Fields, get, or_else}
use foreman_dispatch_bridge.Base.Effects.{
  Result, ok, raise, returned, M, pure, ◌>>=◌, ◌>>◌, perform, attempt, for_each,
}
use foreman_dispatch_bridge.Models.{Workload}
use foreman_dispatch_bridge.Retry.Parking.{succeeded, name_of}
use foreman_dispatch_bridge.PrFix.Mergeable.{sha_text}
pub mod Signals
use Signals.{
  TaskResult, Identity, workload_is_completed, workload_is_prfix, workload_all_already_resolved,
  extract_pr_url, extract_task_signal, extract_already_resolved, already_resolved_comment,
  identity_from_workload, parked_for_human_comment,
}
pub mod Grounds
pub mod Moves
pub mod Explained
pub mod Lines

-- A call and how it ended: whether it returned, or for a closed issue whether it returned true.
pub data ReviewCall : Type 0 where
  listed : ReviewCall
  listed_tasks : Text → ReviewCall
  asked_parked : (repo : Text) → ℕ → ReviewCall
  moved : Identity → (status reason : Text) → Bool → ReviewCall
  labelled : Identity → Bool → ReviewCall
  commented : Identity → Text → Bool → ReviewCall
  closed_issue : (repo : Text) → ℕ → Text → Bool → ReviewCall

abbrev pub ReviewLog : Type 0
ReviewLog = List ReviewCall

abbrev pub Review : Type 0 → Type 0
Review = M {0} ReviewCall

-- The methods of `dispatch` that the pass calls.
pub record Dispatch : Type 0 where
  pub issue_is_parked : Text → ℕ → ReviewLog → Result Bool
  pub add_label : Identity → ReviewLog → Result Bool
  pub post_comment : Identity → Text → ReviewLog → Result Bool

pub record ReviewHooks : Type 0 where
  pub list_workloads : ReviewLog → Result (List Workload)
  pub list_workload_tasks : Text → ReviewLog → Result (List TaskResult)
  pub update_status : Identity → (status reason : Text) → ReviewLog → Result Bool
  pub dispatch : Option Dispatch
  pub close_issue : Option (Text → ℕ → Text → ReviewLog → Result Bool)

-- One constructor for each line of the pass.
pub data ReviewLine : Type 0 where
  skip_not_completed : (name : Text) → ReviewLine
  skip_prfix : (name : Text) → ReviewLine
  review_error : (name error : Text) → ReviewLine
  already_resolved : (name : Text) (closed : Bool) → ReviewLine
  blocked_no_pr : (name verdict summary : Text) → ReviewLine
  parked_no_pr : (name commit_sha branch : Text) (replay : Bool) → ReviewLine
  in_review : (name url : Text) → ReviewLine

abbrev with_colon : Text → Text
with_colon [] = []
with_colon (c ∷ s) = codes ":" ++ (c ∷ s)

abbrev or_absent : Text → Text
or_absent [] = codes "absent"
or_absent (c ∷ s) = c ∷ s

unfoldable pub render_review : ReviewLine → Text
render_review (skip_not_completed name) = name ++ codes ":skip:not-completed"
render_review (skip_prfix name) = name ++ codes ":skip:prfix"
render_review (review_error name e) = name ++ (codes ":error:" ++ e)
render_review (already_resolved name closed) =
    name ++ (codes ":done:already-resolved" ++ (if closed then codes ":closed" else []))
render_review (blocked_no_pr name verdict summary) =
    name ++ (codes ":blocked:no-pr:verdict=" ++ (or_absent verdict ++ with_colon summary))
render_review (parked_no_pr name commit_sha branch replay) =
    name
    ++ (codes ":parked:go-no-pr:commitSHA="
        ++ (commit_sha
            ++ (codes ":branch=" ++ (branch ++ (if replay then codes ":replay" else [])))))
render_review (in_review name url) = name ++ (codes ":in-review:" ++ url)

module _ (repr : Json → Text) (hooks : ReviewHooks) where
  unfoldable pub move : Identity → (status reason : Text) → Review Bool
  unfolding perform
  move item status reason =
      perform (λ r. moved item status reason (returned r)) (hooks.update_status item status reason)

  -- `try: update_status(...)`, and on to the rest; an exception is the line that ends the turn.
  unfoldable pub move_or_report :
      Workload → (status reason : Text) → Review ReviewLine → Review ReviewLine
  unfolding move attempt ◌>>=◌
  move_or_report wl status reason rest =
      attempt (move (identity_from_workload wl) status reason) >>= λ r. elim r [
        | ok b ↦ rest
        | raise e ↦ pure (review_error (name_of wl) e)
      ]

  names_issue : Workload → Bool
  names_issue wl =
      not (is_empty (identity_from_workload wl).repo)
      && not (nat_eq (identity_from_workload wl).number 0)

  -- The closing of the GitHub issue; any exception reads as not closed.
  unfoldable pub close : Workload → (summary evidence : Text) → Review Bool
  unfolding names_issue perform attempt ◌>>=◌
  close wl summary evidence = given hooks.close_issue (pure false) λ close_issue.
      let item = identity_from_workload wl in
      let comment = already_resolved_comment summary evidence in
      if names_issue wl
      then (attempt (
            perform (λ r. closed_issue item.repo item.number comment (succeeded r))
              (close_issue item.repo item.number comment))
          >>= λ r. pure (succeeded r))
      else pure false

  unfoldable pub settle_resolved :
      Workload → List TaskResult → (evidence : Text) → Review ReviewLine
  unfolding move_or_report close ◌>>=◌
  settle_resolved wl tasks evidence = move_or_report wl (codes "done") [] (
      close wl (extract_task_signal tasks).summary evidence >>= λ closed.
      pure (already_resolved (name_of wl) closed))

  abbrev blocked_reason : TaskResult → Text
  blocked_reason signal =
      codes "Coder returned verdict "
      ++ (or_absent signal.verdict
          ++ (codes " with no PR"
              ++ (if is_empty signal.summary then [] else codes ": " ++ signal.summary)))

  unfoldable pub settle_blocked : Workload → TaskResult → Review ReviewLine
  unfolding move_or_report
  settle_blocked wl signal =
      move_or_report wl (codes "blocked") (blocked_reason signal)
        (pure (blocked_no_pr (name_of wl) signal.verdict signal.summary))

  -- `extra.get(key) or "none"`, as the lines show it.
  abbrev or_none : Text → TaskResult → Text
  or_none key signal = sha_text repr (or_else (get key signal.extra) (str (codes "none")))

  abbrev parking_reason : TaskResult → Text
  parking_reason signal =
      codes "Coder reported GO but no PR was opened (commitSHA="
      ++ (or_none (codes "commitSHA") signal
          ++ (codes ", branch="
              ++ (or_none (codes "branch") signal
                  ++ (codes ")."
                      ++ (if is_empty signal.summary then [] else codes " " ++ signal.summary)))))

  -- Whether Dispatch has the issue parked already; an exception ends the pass.
  unfoldable pub ask_whether_parked : Workload → Review Bool
  unfolding names_issue perform
  ask_whether_parked wl = given hooks.dispatch (pure false) λ dispatch.
      let item = identity_from_workload wl in
      if names_issue wl
      then perform (λ r. asked_parked item.repo item.number)
          (dispatch.issue_is_parked item.repo item.number)
      else pure false

  -- The label and the comment, both with their exceptions dropped.
  unfoldable pub mark_parked : Workload → (reason : Text) → Review (Unit {0})
  unfolding names_issue perform attempt ◌>>=◌
  mark_parked wl reason = given hooks.dispatch (pure tt) λ dispatch.
      let item = identity_from_workload wl in
      let comment = parked_for_human_comment item.repo item.number reason in
      if names_issue wl
      then (attempt (perform (λ r. labelled item (succeeded r)) (dispatch.add_label item)) >>= λ _.
          attempt (
            perform (λ r. commented item comment (succeeded r))
              (dispatch.post_comment item comment))
          >>= λ _. pure tt)
      else pure tt

  unfoldable pub park_go_no_pr : Workload → TaskResult → Review ReviewLine
  unfolding ask_whether_parked move_or_report mark_parked ◌>>=◌
  park_go_no_pr wl signal =
      let line =
        parked_no_pr (name_of wl) (or_none (codes "commitSHA") signal)
          (or_none (codes "branch") signal) in
      ask_whether_parked wl >>= λ parked.
      if parked
      then pure (line true)
      else move_or_report wl (codes "backlog") (parking_reason signal)
          (mark_parked wl (parking_reason signal) >>= λ _. pure (line false))

  abbrev is_resolved : Workload → Option Text → Bool
  is_resolved wl claim = workload_all_already_resolved wl || is_some claim

  abbrev evidence_of : Option Text → Text
  evidence_of none = []
  evidence_of (some evidence) = evidence

  -- A completed Workload without a pull request.
  unfoldable pub settle_without_pr : Workload → List TaskResult → Option Text → Review ReviewLine
  unfolding settle_resolved settle_blocked park_go_no_pr
  settle_without_pr wl tasks claim =
      let signal = extract_task_signal tasks in
      if is_resolved wl claim
      then settle_resolved wl tasks (evidence_of claim)
      else if signal.verdict == codes "GO"
      then park_go_no_pr wl signal
      else settle_blocked wl signal

  abbrev read_claim : List TaskResult → Review (Option Text)
  read_claim tasks log = (extract_already_resolved repr tasks, log)

  unfoldable pub settle_completed : Workload → List TaskResult → Review ReviewLine
  unfolding settle_without_pr move_or_report ◌>>=◌
  settle_completed wl tasks =
      let url = extract_pr_url repr tasks in
      if is_empty url
      then read_claim tasks >>= settle_without_pr wl tasks
      else move_or_report wl (codes "in-review") [] (pure (in_review (name_of wl) url))

  unfoldable pub list_tasks : Workload → Review (List TaskResult)
  unfolding perform
  list_tasks wl = perform (λ r. listed_tasks (name_of wl)) (hooks.list_workload_tasks (name_of wl))

  -- The body of the loop.
  unfoldable pub review_one : Workload → Review ReviewLine
  unfolding list_tasks settle_completed ◌>>=◌
  review_one wl =
      if not (workload_is_completed wl)
      then pure (skip_not_completed (name_of wl))
      else if workload_is_prfix wl
      then pure (skip_prfix (name_of wl))
      else list_tasks wl >>= settle_completed wl

  -- The loop's body appends its line.
  abbrev review_next : List ReviewLine → Workload → Review (List ReviewLine)
  review_next results wl = review_one wl >>= λ line. pure (results ++ line ∷ [])

  unfoldable pub transition_to_in_review : Review (List ReviewLine)
  unfolding review_one perform for_each ◌>>=◌
  transition_to_in_review = perform (λ r. listed) hooks.list_workloads >>= for_each review_next []
