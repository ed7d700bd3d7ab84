-- ===== src/Review/Moves.antt =====
-- bridge/review_transition.py: every move of an issue in the calls of a pass, with its grounds.
use foreman_dispatch_bridge.Base.{
  ◌≡◌, ℕ, refl, Bool, true, false, ◌||◌, Option, none, some, List, ◌∷◌, All, Any, arith, Bool-cases,
  inl, inr, ◌⊎◌,
}
use foreman_dispatch_bridge.Base.Text.{Text, codes, ◌==◌, is_empty}
use foreman_dispatch_bridge.Base.Json.{Json}
use foreman_dispatch_bridge.Base.Effects.{Result, ok, raise, returned, pure, continue, ◌>>=◌}
use foreman_dispatch_bridge.Base.Effects.Rules.{
  Keeps, Keeps-pure, Keeps-bind, Keeps-perform, Keeps-attempt, Keeps-if, keeps_rules,
}
use foreman_dispatch_bridge.Models.{Workload}
use foreman_dispatch_bridge.Retry.Parking.{name_of}
use foreman_dispatch_bridge.Retry.Pass.Recreation.{OneOf}
use foreman_dispatch_bridge.Review.{
  ReviewCall, asked_parked, moved, labelled, commented, closed_issue, ReviewLog, Review,
  ReviewHooks, ReviewLine, move, move_or_report, close, settle_resolved, settle_blocked,
  ask_whether_parked, mark_parked, park_go_no_pr, is_resolved, settle_without_pr, read_claim,
  settle_completed, review_error,
}
use foreman_dispatch_bridge.Review.Signals.{
  TaskResult, Identity, workload_is_completed, workload_is_prfix, workload_all_already_resolved,
  extract_pr_url, extract_task_signal, extract_already_resolved, identity_from_workload,
}
use foreman_dispatch_bridge.Review.Grounds.{
  Grounds, ClaimsResolved, reviewed, resolved, unfinished, unpublished, Shows, HasNoUrl,
  extract_pr_url-HasUrl, extract_pr_url-HasNoUrl, extract_already_resolved-ClaimsResolved,
  extract_task_signal-last_verdict,
}

module _ (repr : Json → Text) (hooks : ReviewHooks) (workloads : List Workload) where
  -- A move is of a listed Workload that is completed and no fix of a pull request, and its tasks, as
  -- they were listed in the pass, have grounds for it.
  pub record Justified (item : Identity) (status reason : Text) : Type 0 where
    pub workload : Workload
    pub is_listed : OneOf workloads workload
    pub is_its_issue : item ≡ identity_from_workload workload
    pub completed : workload_is_completed workload ≡ true
    pub no_prfix : workload_is_prfix workload ≡ false
    pub tasks : List TaskResult
    pub earlier : ReviewLog
    pub fetched : hooks.list_workload_tasks (name_of workload) earlier ≡ ok tasks
    pub grounds : Grounds repr workload tasks status reason

  abbrev pub Explained : ReviewCall → Type 0
  Explained (moved item status reason b) = Justified item status reason
  Explained _ = Unit

  abbrev pub AllExplained : ReviewLog → Type 0
  AllExplained log = All Explained log

  asked_parked_keeps :
      (t : Text) (n : ℕ) (log : ReviewLog)
      → AllExplained log
      → AllExplained (asked_parked t n ∷ log)
  asked_parked_keeps t n log h = (tt, h)

  labelled_keeps :
      (item : Identity) (b : Bool) (log : ReviewLog)
      → AllExplained log
      → AllExplained (labelled item b ∷ log)
  labelled_keeps item b log h = (tt, h)

  commented_keeps :
      (item : Identity) (t : Text) (b : Bool) (log : ReviewLog)
      → AllExplained log
      → AllExplained (commented item t b ∷ log)
  commented_keeps item t b log h = (tt, h)

  closed_issue_keeps :
      (t : Text) (n : ℕ) (c : Text) (b : Bool) (log : ReviewLog)
      → AllExplained log
      → AllExplained (closed_issue t n c b ∷ log)
  closed_issue_keeps t n c b log h = (tt, h)

  module _ (wl : Workload) where
    close-Keeps :
        (summary evidence : Text) → Keeps AllExplained (close repr hooks wl summary evidence)
    unfolding close
    close-Keeps summary evidence = search (keeps_rules, closed_issue_keeps) depth 8

    ask_whether_parked-Keeps : Keeps AllExplained (ask_whether_parked repr hooks wl)
    unfolding ask_whether_parked
    ask_whether_parked-Keeps = search (keeps_rules, asked_parked_keeps) depth 8

    mark_parked-Keeps : (reason : Text) → Keeps AllExplained (mark_parked repr hooks wl reason)
    unfolding mark_parked
    mark_parked-Keeps reason = search (keeps_rules, labelled_keeps, commented_keeps) depth 12

  module _ (wl : Workload) (is_listed : OneOf workloads wl)
      (completed : workload_is_completed wl ≡ true) (no_prfix : workload_is_prfix wl ≡ false)
      (tasks : List TaskResult) (earlier : ReviewLog)
      (fetched : hooks.list_workload_tasks (name_of wl) earlier ≡ ok tasks) where
    justify :
        (status reason : Text)
        → Grounds repr wl tasks status reason
        → Justified (identity_from_workload wl) status reason
    justify status reason g = record {
      workload = wl;
      is_listed = is_listed;
      is_its_issue = refl;
      completed = completed;
      no_prfix = no_prfix;
      tasks = tasks;
      earlier = earlier;
      fetched = fetched;
      grounds = g;
    }

    move-Keeps :
        (status reason : Text)
        → Grounds repr wl tasks status reason
        → Keeps AllExplained (move repr hooks (identity_from_workload wl) status reason)
    unfolding move
    move-Keeps status reason g =
        Keeps-perform (λ r. moved (identity_from_workload wl) status reason (returned r)) _
          λ r log h. (justify status reason g, h)

    move_or_report-Keeps :
        (status reason : Text) (rest : Review ReviewLine)
        → Grounds repr wl tasks status reason
        → Keeps AllExplained rest
        → Keeps AllExplained (move_or_report repr hooks wl status reason rest)
    unfolding move_or_report
    move_or_report-Keeps status reason rest g k =
        Keeps-bind _ _ (Keeps-attempt _ (move-Keeps status reason g)) after
      where
        after :
            (r : Result Bool)
            → Keeps AllExplained
                (elim r [ ok b ↦ rest | raise e ↦ pure (review_error (name_of wl) e) ])
        after (ok b) = k
        after (raise e) = Keeps-pure _

    module _ (shows : Shows repr) (no_url : is_empty (extract_pr_url repr tasks) ≡ true) where
      without : All HasNoUrl tasks
      without = extract_pr_url-HasNoUrl repr shows tasks no_url

      resolved_by :
          (claim : Option Text)
          → extract_already_resolved repr tasks ≡ ok claim
          → is_resolved repr hooks wl claim ≡ true
          → (workload_all_already_resolved wl ≡ true) ⊎ Any (ClaimsResolved repr) tasks
      resolved_by none c h = inl (ground arith)
      resolved_by (some v) c h = inr (extract_already_resolved-ClaimsResolved repr tasks v c)

      settle_resolved-Keeps :
          (claim : Option Text)
          → extract_already_resolved repr tasks ≡ ok claim
          → is_resolved repr hooks wl claim ≡ true
          → (evidence : Text) → Keeps AllExplained (settle_resolved repr hooks wl tasks evidence)
      unfolding settle_resolved
      settle_resolved-Keeps claim c h evidence =
          move_or_report-Keeps _ _ _ (resolved refl without (resolved_by claim c h))
            (Keeps-bind _ _ (close-Keeps wl _ evidence) λ closed. Keeps-pure _)

      module _ (not_all : workload_all_already_resolved wl ≡ false) where
        settle_blocked-Keeps :
            ((extract_task_signal tasks).verdict == codes "GO") ≡ false
            → Keeps AllExplained (settle_blocked repr hooks wl (extract_task_signal tasks))
        unfolding settle_blocked
        settle_blocked-Keeps v =
            move_or_report-Keeps _ _ _
              (unfinished refl without not_all (rw (extract_task_signal-last_verdict tasks) at v)
                refl)
              (Keeps-pure _)

        park_go_no_pr-Keeps :
            ((extract_task_signal tasks).verdict == codes "GO") ≡ true
            → Keeps AllExplained (park_go_no_pr repr hooks wl (extract_task_signal tasks))
        unfolding park_go_no_pr
        park_go_no_pr-Keeps v = Keeps-bind _ _ (ask_whether_parked-Keeps wl) λ parked.
            Keeps-if parked _ _ (Keeps-pure _) (
              move_or_report-Keeps _ _ _
                (unpublished refl without not_all (rw (extract_task_signal-last_verdict tasks) at v)
                  refl)
                (Keeps-bind _ _ (mark_parked-Keeps wl _) λ u. Keeps-pure _))

      not_all_of : (a b : Bool) → (a || b) ≡ false → a ≡ false
      not_all_of true b h = cc
      not_all_of false b h = refl

      settle_without_pr-Keeps :
          (claim : Option Text)
          → extract_already_resolved repr tasks ≡ ok claim
          → Keeps AllExplained (settle_without_pr repr hooks wl tasks claim)
      unfolding settle_without_pr
      settle_without_pr-Keeps claim c = elim (Bool-cases (is_resolved repr hooks wl claim)) [
        | inl r ↦ rw (r, settle_without_pr) (settle_resolved-Keeps claim c r _)
        | inr r ↦
            rw (r, settle_without_pr)
              (elim (Bool-cases ((extract_task_signal tasks).verdict == codes "GO")) [
                | inl v ↦ rw v (park_go_no_pr-Keeps (not_all_of _ _ r) v)
                | inr v ↦ rw v (settle_blocked-Keeps (not_all_of _ _ r) v)
              ])
      ]

      read_claim-Keeps :
          (f : Option Text → Review ReviewLine)
          → ((claim : Option Text)
              → extract_already_resolved repr tasks ≡ ok claim
              → Keeps AllExplained (f claim))
          → Keeps AllExplained (read_claim repr hooks tasks >>= f)
      unfolding ◌>>=◌
      read_claim-Keeps f k = record { at = by_claim (extract_already_resolved repr tasks) refl }
        where
          by_claim :
              (c : Result (Option Text))
              → extract_already_resolved repr tasks ≡ c
              → (log : ReviewLog) → AllExplained log
              → AllExplained (continue c f log).1
          by_claim (ok claim) e log h = (k claim e).at log h
          by_claim (raise t) e log h = h

    pub settle_completed-Keeps :
        Shows repr → Keeps AllExplained (settle_completed repr hooks wl tasks)
    unfolding settle_completed
    settle_completed-Keeps shows = elim (Bool-cases (is_empty (extract_pr_url repr tasks))) [
      | inl e ↦
          rw (e, settle_completed) (read_claim-Keeps shows e _ (settle_without_pr-Keeps shows e))
      | inr e ↦
          rw (e, settle_completed)
            (move_or_report-Keeps _ _ _ (reviewed refl (extract_pr_url-HasUrl repr tasks e))
              (Keeps-pure _))
    ]
