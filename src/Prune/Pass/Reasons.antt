-- ===== src/Prune/Pass/Reasons.antt =====
-- bridge/prune.py: the calls of a pass, each with its reason.
use foreman_dispatch_bridge.Base.{
  ◌≡◌, refl, sym, ap, ◌∙◌, Bool, true, false, ◌&&◌, Option, none, some, List, [], ◌∷◌, ◌++◌,
  if◌then◌else◌, given, All, Any, inl, inr, subst, some_inj,
}
use foreman_dispatch_bridge.Base.Text.{Text, ◌==◌, eq→}
use foreman_dispatch_bridge.Base.Dict.{Dict, lookup, insert, lookup-insert}
use foreman_dispatch_bridge.Base.Effects.{Result, returned, pure, perform, attempt, ◌>>=◌}
use foreman_dispatch_bridge.Base.Effects.Rules.{
  Keeps, Keeps-pure, Keeps-bind, Keeps-perform, Keeps-attempt, Keeps-given, keeps_rules,
}
use foreman_dispatch_bridge.Base.Effects.Returns.{OnSome}
use foreman_dispatch_bridge.Models.{Workload}
use foreman_dispatch_bridge.Retry.Parking.{succeeded}
use foreman_dispatch_bridge.Prune.{Moment, Stamped, failed_phase, is_issue_workload, has_identity}
use foreman_dispatch_bridge.Prune.Pass.{
  PruneCall, deleted, asked_parked, reset, PruneLog, PruneHooks, PruneSettings, PruneLine, Prune,
  by_name, delete_named, check_line, ask_parked_for_human, reset_issue_of, settle_failed,
  reset_skipped_parked, reset_skipped, reset_line,
}
use foreman_dispatch_bridge.Prune.Pass.Due.{IsDue}

-- Every entry of the dict is a listed Workload, under its name.
abbrev pub Names : List Stamped → Dict Workload → Type 0
Names workloads index =
    (name : Text) (wl : Workload)
    → lookup name index ≡ some wl
    → (wl.name ≡ name) × Any (λ s. s.workload ≡ wl) workloads

pub Names-nil : (workloads : List Stamped) → Names workloads []
unfolding lookup
Names-nil workloads name wl e = cc

insert-Names :
    (workloads : List Stamped) (index : Dict Workload) (s : Stamped)
    → Any (λ t. t ≡ s) workloads
    → Names workloads index
    → Names workloads (insert s.workload.name s.workload index)
insert-Names workloads index s m h name wl e =
    by_key (name == s.workload.name) refl
      (sym (lookup-insert s.workload.name name s.workload index) ∙ e)
  where
    listed_as : (ts : List Stamped) → Any (λ t. t ≡ s) ts → Any (λ t. t.workload ≡ s.workload) ts
    listed_as [] m' = elim m' [ ]
    listed_as (t ∷ ts) (inl p) = inl (ap (λ (x : Stamped). x.workload) p)
    listed_as (t ∷ ts) (inr m') = inr (listed_as ts m')

    by_key :
        (b : Bool)
        → (name == s.workload.name) ≡ b
        → (if b then some s.workload else lookup name index) ≡ some wl
        → (wl.name ≡ name) × Any (λ t. t.workload ≡ wl) workloads
    by_key true k f =
        let w = some_inj f in
        (
          sym (ap (λ (x : Workload). x.name) w) ∙ sym (eq→ name s.workload.name k),
          subst (λ x. Any (λ t. t.workload ≡ x) workloads) w (listed_as workloads m),
        )
    by_key false k f = h name wl f

pub by_name-Names :
    (workloads rest : List Stamped) (index : Dict Workload)
    → All (λ s. Any (λ t. t ≡ s) workloads) rest
    → Names workloads index
    → Names workloads (by_name index rest)
unfolding by_name
by_name-Names workloads [] index m h = h
by_name-Names workloads (s ∷ ss) index (m, ms) h =
    by_name-Names workloads ss (insert s.workload.name s.workload index) ms
      (insert-Names workloads index s m h)

module _ (fromisoformat : Text → Option Moment) (settings : PruneSettings) (hooks : PruneHooks)
    (workloads : List Stamped) where
  -- The question whether the issue is parked was not answered with yes, if there is one.
  abbrev pub NotParked : Workload → Type 0
  NotParked wl =
      OnSome (λ is_parked. (earlier : PruneLog) × (succeeded (is_parked wl earlier) ≡ false))
        hooks.is_parked_for_human

  -- An issue is reset for a listed Workload of an issue, in the phase Failed for long enough, which
  -- names its issue, and which was not answered to be parked.
  pub record Resets (wl : Workload) : Type 0 where
    pub is_due : IsDue fromisoformat settings workloads wl.name failed_phase
    pub is_listed : Any (λ s. s.workload ≡ wl) workloads
    pub is_issue : is_issue_workload wl ≡ true
    pub identified : has_identity wl ≡ true
    pub not_parked : NotParked wl

  abbrev pub Reason : PruneCall → Type 0
  Reason (deleted name b) = (phase : Text) × IsDue fromisoformat settings workloads name phase
  Reason (reset wl b) = Resets wl
  Reason _ = Unit

  abbrev pub AllReasons : PruneLog → Type 0
  AllReasons log = All Reason log

  deleted_keeps :
      (name phase : Text)
      → IsDue fromisoformat settings workloads name phase
      → (b : Bool) (log : PruneLog) → AllReasons log
      → AllReasons (deleted name b ∷ log)
  deleted_keeps name phase d b log h = ((phase, d), h)

  pub delete_named-Keeps :
      (name phase : Text)
      → IsDue fromisoformat settings workloads name phase
      → Keeps AllReasons (delete_named hooks name)
  unfolding delete_named
  delete_named-Keeps name phase d = search (keeps_rules, deleted_keeps name phase d)

  both_true : (a b : Bool) → (a && b) ≡ true → (a ≡ true) × (b ≡ true)
  both_true true true h = (refl, refl)
  both_true true false h = cc
  both_true false b h = cc

  reset_issue_of-Keeps :
      (wl : Workload)
      → IsDue fromisoformat settings workloads wl.name failed_phase
      → Any (λ s. s.workload ≡ wl) workloads
      → NotParked wl
      → (name : Text) → Keeps AllReasons (reset_issue_of hooks name wl)
  unfolding reset_issue_of
  reset_issue_of-Keeps wl d m n name =
      Keeps-given hooks.reset_issue _ _ (Keeps-pure _)
        λ f. by_test f (is_issue_workload wl && has_identity wl) refl
    where
      by_test :
          (f : Workload → PruneLog → Result (Unit {0})) (b : Bool)
          → (is_issue_workload wl && has_identity wl) ≡ b
          → Keeps AllReasons (
              if b
              then (attempt (perform (λ r. reset wl (returned r)) (f wl)) >>= λ r.
                  pure (reset_line hooks name r ∷ []))
              else pure (reset_skipped name ∷ []))
      by_test f true e =
          let (issue, named) = both_true (is_issue_workload wl) (has_identity wl) e in
          Keeps-bind (attempt (perform (λ r. reset wl (returned r)) (f wl)))
            (λ r. pure (reset_line hooks name r ∷ []))
            (Keeps-attempt (perform (λ r. reset wl (returned r)) (f wl)) (
              Keeps-perform (λ r. reset wl (returned r)) (f wl)
                λ r log h. (
                  record {
                    is_due = d;
                    is_listed = m;
                    is_issue = issue;
                    identified = named;
                    not_parked = n;
                  },
                  h,
                )))
            λ r. Keeps-pure (reset_line hooks name r ∷ [])
      by_test f false e = Keeps-pure (reset_skipped name ∷ [])

  -- What follows the question.
  abbrev after_asking : Text → Workload → List PruneLine × Bool → Prune (List PruneLine)
  after_asking name wl asked =
      if asked.1
      then pure (asked.0 ++ reset_skipped_parked name ∷ [])
      else (reset_issue_of hooks name wl >>= λ lines. pure (asked.0 ++ lines))

  pub settle_failed-Keeps :
      (name : Text) (wl : Workload)
      → IsDue fromisoformat settings workloads wl.name failed_phase
      → Any (λ s. s.workload ≡ wl) workloads
      → Keeps AllReasons (settle_failed hooks name wl)
  unfolding settle_failed ask_parked_for_human given perform attempt ◌>>=◌
  settle_failed-Keeps name wl d m = record { at = by_hook hooks.is_parked_for_human refl }
    where
      unparked :
          (lines : List PruneLine) (log : PruneLog)
          → NotParked wl
          → AllReasons log
          → AllReasons (after_asking name wl (lines, false) log).1
      unparked lines log n h =
          (Keeps-bind (reset_issue_of hooks name wl) (λ more. pure (lines ++ more))
              (reset_issue_of-Keeps wl d m n name) (λ more. Keeps-pure _)).at
            log h

      by_answer :
          (f : Workload → PruneLog → Result Bool)
          → hooks.is_parked_for_human ≡ some f
          → (log earlier : PruneLog) (lines : List PruneLine) (b : Bool)
          → succeeded (f wl earlier) ≡ b
          → AllReasons log
          → AllReasons (after_asking name wl (lines, b) log).1
      by_answer f e log earlier lines true k h = h
      by_answer f e log earlier lines false k h =
          unparked lines log (subst (OnSome _) (sym e) (earlier, k)) h

      by_hook :
          (o : Option (Workload → PruneLog → Result Bool))
          → hooks.is_parked_for_human ≡ o
          → (log : PruneLog) → AllReasons log
          → AllReasons
              ((given o (pure ([], false)) (λ is_parked.
                    attempt (perform (λ r. asked_parked wl (succeeded r)) (is_parked wl)) >>= λ r.
                    pure (check_line hooks name r, succeeded r))
                  >>= after_asking name wl)
                log).1
      by_hook none e log h = unparked [] log (subst (OnSome _) (sym e) tt) h
      by_hook (some f) e log h =
          by_answer f e _ log (check_line hooks name (f wl log)) (succeeded (f wl log)) refl (tt, h)
