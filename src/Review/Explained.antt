-- ===== src/Review/Explained.antt =====
-- bridge/review_transition.py: the moves that a whole pass makes.
use foreman_dispatch_bridge.Base.{
  ◌≡◌, refl, true, false, List, [], ◌∷◌, ◌++◌, All, Bool-cases, inl, inr, subst,
}
use foreman_dispatch_bridge.Base.Text.{Text}
use foreman_dispatch_bridge.Base.Json.{Json}
use foreman_dispatch_bridge.Base.Effects.{
  Result, ok, raise, recover, pure, continue, perform, ◌>>=◌, for_each,
}
use foreman_dispatch_bridge.Base.Effects.Rules.{
  Outcome, bind_lem, for_each_lem, Keeps, Keeps-pure, Keeps-Outcome,
}
use foreman_dispatch_bridge.Models.{Workload}
use foreman_dispatch_bridge.Retry.Parking.{name_of}
use foreman_dispatch_bridge.Retry.Pass.Recreation.{OneOf, All-OneOf}
use foreman_dispatch_bridge.Review.{
  listed, listed_tasks, ReviewLog, ReviewHooks, ReviewLine, settle_completed, list_tasks,
  review_one, review_next, transition_to_in_review,
}
use foreman_dispatch_bridge.Review.Signals.{TaskResult, workload_is_completed, workload_is_prfix}
use foreman_dispatch_bridge.Review.Grounds.{Shows}
use foreman_dispatch_bridge.Review.Moves.{AllExplained, settle_completed-Keeps}

module _ (repr : Json → Text) (shows : Shows repr) (hooks : ReviewHooks)
    (workloads : List Workload) where
  abbrev P : ReviewLog → Type 0
  P = AllExplained repr hooks workloads

  settle_fetched-Keeps :
      (wl : Workload)
      → OneOf workloads wl
      → workload_is_completed wl ≡ true
      → workload_is_prfix wl ≡ false
      → Keeps P (list_tasks repr hooks wl >>= settle_completed repr hooks wl)
  unfolding list_tasks perform ◌>>=◌
  settle_fetched-Keeps wl m c n = record {
    at = λ log h. by_tasks log h (hooks.list_workload_tasks (name_of wl) log) refl;
  }
    where
      by_tasks :
          (log : ReviewLog)
          → P log
          → (r : Result (List TaskResult)) → hooks.list_workload_tasks (name_of wl) log ≡ r
          → P (continue r (settle_completed repr hooks wl) (listed_tasks (name_of wl) ∷ log)).1
      by_tasks log h (ok tasks) e =
          (settle_completed-Keeps repr hooks workloads wl m c n tasks log e shows).at _ (tt, h)
      by_tasks log h (raise t) e = (tt, h)

  review_one-Keeps : (wl : Workload) → OneOf workloads wl → Keeps P (review_one repr hooks wl)
  unfolding review_one
  review_one-Keeps wl m = elim (Bool-cases (workload_is_completed wl)) [
    | inr c ↦ rw (c, review_one) (Keeps-pure _)
    | inl c ↦ elim (Bool-cases (workload_is_prfix wl)) [
      | inl n ↦ rw (c, n, review_one) (Keeps-pure _)
      | inr n ↦ rw (c, n, review_one) (settle_fetched-Keeps wl m c n)
    ]
  ]

  abbrev Inv : List Workload → List ReviewLine → ReviewLog → Type 0
  Inv rest results log = All (OneOf workloads) rest × P log

  round :
      (results : List ReviewLine) (wl : Workload) (rest : List Workload) (log : ReviewLog)
      → Inv (wl ∷ rest) results log
      → Outcome (Inv rest) P (review_next repr hooks results wl log)
  round results wl rest log (m, h) =
      bind_lem P (λ line log'. P log') (Inv rest) (review_one repr hooks wl)
        (λ line. pure (results ++ line ∷ [])) log
        (Keeps-Outcome P (review_one repr hooks wl) log (review_one-Keeps wl m.0) h)
        λ line log' h'. (m.1, h')

-- In a pass every issue that is moved is that of a listed Workload which is completed and is no fix of
-- a pull request, and the tasks of the Workload, as the pass fetched them, have grounds for the move:
-- to in-review, a task with a pull request's URL; to any other status, no task with one, and to done,
-- the Workload or the coder saying that nothing was left to do; to blocked, with a reason, a last
-- verdict other than GO; and to backlog, with a reason, the last verdict GO. It holds also where an
-- exception cuts the pass off. Python's str of a value that counts as true is taken to be no empty text.
pub transition_to_in_review-AllExplained :
    (repr : Json → Text) (hooks : ReviewHooks)
    → Shows repr
    → AllExplained repr hooks
        (recover [] (hooks.list_workloads []))
        (transition_to_in_review repr hooks []).1
unfolding transition_to_in_review perform ◌>>=◌
transition_to_in_review-AllExplained repr hooks shows = by_list (hooks.list_workloads []) refl
  where
    workloads : List Workload
    workloads = recover [] (hooks.list_workloads [])

    either_way :
        (r : Result (List ReviewLine) × ReviewLog)
        → Outcome (Inv repr shows hooks workloads []) (P repr shows hooks workloads) r
        → P repr shows hooks workloads r.1
    either_way (ok s, log) h = h.1
    either_way (raise e, log) h = h

    by_list :
        (r : Result (List Workload))
        → recover [] r ≡ workloads
        → P repr shows hooks workloads
            (continue r (for_each (review_next repr hooks) []) (listed ∷ [])).1
    by_list (ok wls) e = either_way _ (
        for_each_lem (P repr shows hooks workloads) (Inv repr shows hooks workloads)
          (review_next repr hooks) (round repr shows hooks workloads) [] wls (listed ∷ [])
          (subst (λ ws. All (OneOf ws) wls) e (All-OneOf wls), (tt, tt)))
    by_list (raise t) e = (tt, tt)
