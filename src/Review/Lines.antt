-- ===== src/Review/Lines.antt =====
-- bridge/review_transition.py: the lines of a pass.
use foreman_dispatch_bridge.Base.{
  ◌≡◌, ◌+◌, ℕ, Bool, true, false, not, Option, List, [], ◌∷◌, ◌++◌, length, length-append, arith,
}
use foreman_dispatch_bridge.Base.Text.{Text}
use foreman_dispatch_bridge.Base.Json.{Json}
use foreman_dispatch_bridge.Base.Effects.{
  Result, ok, raise, returned, pure, perform, ◌>>=◌, for_each,
}
use foreman_dispatch_bridge.Base.Effects.Rules.{Outcome, Outcome-any, bind_lem, for_each_lem}
use foreman_dispatch_bridge.Base.Effects.Returns.{
  Returns, Returns-pure, Returns-perform, Returns-bind, Returns-if, Returns-attempt, OnSome,
  Returns-given_if, Returns-for_each, Result-Outcome, returns_rules,
}
use foreman_dispatch_bridge.Models.{Workload}
use foreman_dispatch_bridge.Retry.Parking.{name_of}
use foreman_dispatch_bridge.Review.{
  listed, listed_tasks, asked_parked, ReviewLog, Review, ReviewHooks, Dispatch, ReviewLine,
  review_error, move_or_report, close, settle_resolved, settle_blocked, ask_whether_parked,
  mark_parked, park_go_no_pr, settle_without_pr, settle_completed, list_tasks, review_one,
  review_next, transition_to_in_review, skip_not_completed, skip_prfix,
}
use foreman_dispatch_bridge.Review.Signals.{
  TaskResult, Identity, workload_is_completed, workload_is_prfix, extract_already_resolved,
  identity_from_workload,
}

-- The question whether an issue is parked has an answer.
abbrev pub AnswersParked : Dispatch → Type 0
AnswersParked d =
    (repo : Text) (n : _) (log : ReviewLog) → returned (d.issue_is_parked repo n log) ≡ true

module _ (repr : Json → Text) (hooks : ReviewHooks) where
  -- The tasks of every Workload can be listed, and each modelExtra that is read in them is a dict.
  unfoldable pub Readable : Type 0
  Readable =
      (name : Text) (log : ReviewLog)
      → (tasks : List TaskResult) × (hooks.list_workload_tasks name log ≡ ok tasks)
        × (returned (extract_already_resolved repr tasks) ≡ true)

  module _ (wl : Workload) where
    move_or_report-Returns :
        (status reason : Text) (rest : Review ReviewLine)
        → Returns rest
        → Returns (move_or_report repr hooks wl status reason rest)
    unfolding move_or_report
    move_or_report-Returns status reason rest k = Returns-bind _ _ (Returns-attempt _) after
      where
        after :
            (r : Result Bool)
            → Returns (elim r [ ok b ↦ rest | raise e ↦ pure (review_error (name_of wl) e) ])
        after (ok b) = k
        after (raise e) = Returns-pure _

    close-Returns : (summary evidence : Text) → Returns (close repr hooks wl summary evidence)
    unfolding close
    close-Returns summary evidence = search returns_rules depth 8

    mark_parked-Returns : (reason : Text) → Returns (mark_parked repr hooks wl reason)
    unfolding mark_parked
    mark_parked-Returns reason = search returns_rules depth 12

    settle_resolved-Returns :
        (tasks : List TaskResult) (evidence : Text)
        → Returns (settle_resolved repr hooks wl tasks evidence)
    unfolding settle_resolved
    settle_resolved-Returns tasks evidence =
        search (returns_rules, move_or_report-Returns, close-Returns) depth 8

    settle_blocked-Returns : (signal : TaskResult) → Returns (settle_blocked repr hooks wl signal)
    unfolding settle_blocked
    settle_blocked-Returns signal = search (returns_rules, move_or_report-Returns)

  module _ (parked : OnSome AnswersParked hooks.dispatch) (wl : Workload) where
    ask_whether_parked-Returns : Returns (ask_whether_parked repr hooks wl)
    unfolding ask_whether_parked
    ask_whether_parked-Returns =
        Returns-given_if AnswersParked hooks.dispatch _ _ parked (Returns-pure false) λ d answers.
          Returns-if _ _ _
            (Returns-perform (λ r. asked_parked item.repo item.number)
              (d.issue_is_parked item.repo item.number) (answers item.repo item.number))
            (Returns-pure false)
      where
        item : Identity
        item = identity_from_workload wl

    park_go_no_pr-Returns : (signal : TaskResult) → Returns (park_go_no_pr repr hooks wl signal)
    unfolding park_go_no_pr
    park_go_no_pr-Returns signal =
        search
          (
            returns_rules,
            ask_whether_parked-Returns,
            move_or_report-Returns wl,
            mark_parked-Returns wl,
          )
          depth 12

    settle_without_pr-Returns :
        (tasks : List TaskResult) (claim : Option Text)
        → Returns (settle_without_pr repr hooks wl tasks claim)
    unfolding settle_without_pr
    settle_without_pr-Returns tasks claim =
        search
          (
            returns_rules,
            settle_resolved-Returns wl,
            settle_blocked-Returns wl,
            park_go_no_pr-Returns,
          )
          depth 8

    settle_completed-Returns :
        (tasks : List TaskResult)
        → returned (extract_already_resolved repr tasks) ≡ true
        → Returns (settle_completed repr hooks wl tasks)
    unfolding settle_completed
    settle_completed-Returns tasks h =
        Returns-if _ _ _
          (Returns-bind _ _ (record { at = λ log. h }) (settle_without_pr-Returns tasks))
          (move_or_report-Returns wl _ _ _ (Returns-pure _))

    settle_fetched-Returns :
        Readable → Returns (list_tasks repr hooks wl >>= settle_completed repr hooks wl)
    unfolding list_tasks perform ◌>>=◌ Readable
    settle_fetched-Returns readable = record {
      at = λ log.
          let (tasks, e, h) = readable (name_of wl) log in
          rw e ((settle_completed-Returns tasks h).at (listed_tasks (name_of wl) ∷ log));
    }

    review_one-Returns : Readable → Returns (review_one repr hooks wl)
    unfolding review_one
    review_one-Returns readable =
        Returns-if (not (workload_is_completed wl)) _ _
          (Returns-pure (skip_not_completed (name_of wl)))
          (Returns-if (workload_is_prfix wl) _ _ (Returns-pure (skip_prfix (name_of wl)))
            (settle_fetched-Returns readable))

  module _ (parked : OnSome AnswersParked hooks.dispatch) (readable : Readable) where
    review_next-Returns :
        (results : List ReviewLine) (wl : Workload) → Returns (review_next repr hooks results wl)
    review_next-Returns results wl =
        Returns-bind _ _ (review_one-Returns parked wl readable) λ line. Returns-pure _

    -- Each round adds one line.
    review_next-length :
        (n : ℕ) (results : List ReviewLine) (wl : Workload) (rest : List Workload) (log : ReviewLog)
        → length results + length (wl ∷ rest) ≡ n
        → Outcome
            (λ s l. length s + length rest ≡ n)
            (λ l. Unit)
            (review_next repr hooks results wl log)
    review_next-length n results wl rest log h =
        bind_lem (λ l. Unit) (λ line l. Unit) (λ s l. length s + length rest ≡ n)
          (review_one repr hooks wl) (λ line. pure (results ++ line ∷ [])) log
          (Outcome-any (review_one repr hooks wl log))
          λ line l u. omega (arith, length-append results (line ∷ []), h)

    -- Where the Workloads can be listed, their tasks can be listed and read, and the question whether
    -- an issue is parked is answered, the pass comes to its end, whatever the moves, the labels, the
    -- comments and the closings raise, and it reports exactly one line for each listed Workload.
    pub transition_to_in_review-reports :
        (workloads : List Workload)
        → hooks.list_workloads [] ≡ ok workloads
        → (lines : List ReviewLine) × ((transition_to_in_review repr hooks []).0 ≡ ok lines)
          × (length lines ≡ length workloads)
    unfolding transition_to_in_review perform ◌>>=◌
    transition_to_in_review-reports workloads e =
        let (lines, ended, count) =
          Result-Outcome (λ s l. length s + length {A = Workload} [] ≡ length workloads) (λ l. Unit)
            (for_each (review_next repr hooks) [] workloads (listed ∷ []))
            ((Returns-for_each (review_next repr hooks) review_next-Returns [] workloads).at
              (listed ∷ []))
            (for_each_lem (λ l. Unit) (λ rest s l. length s + length rest ≡ length workloads)
              (review_next repr hooks) (review_next-length (length workloads)) [] workloads
              (listed ∷ []) (omega arith)) in
        (lines, rw e ended, omega (arith, count))
