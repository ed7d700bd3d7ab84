-- ===== src/Prune/Pass/Whole.antt =====
-- bridge/prune.py: the calls of a whole pass.
use foreman_dispatch_bridge.Base.{
  ◌≡◌, refl, sym, Bool, true, false, ◌&&◌, Option, none, some, List, [], ◌∷◌, ◌++◌, leb,
  if◌then◌else◌, given, All, Any, inl, inr, subst,
}
use foreman_dispatch_bridge.Base.Text.{Text, ◌==◌, eq→}
use foreman_dispatch_bridge.Base.Dict.{Dict, lookup}
use foreman_dispatch_bridge.Base.Effects.{
  Result, ok, raise, recover, pure, continue, perform, ◌>>=◌, for_each,
}
use foreman_dispatch_bridge.Base.Effects.Rules.{
  Outcome, bind_lem, for_each_lem, Keeps, Keeps-pure, Keeps-bind, Keeps-Outcome,
}
use foreman_dispatch_bridge.Models.{Workload}
use foreman_dispatch_bridge.Prune.{Moment, Stamped, prunable_workloads, failed_phase}
use foreman_dispatch_bridge.Prune.Pass.{
  listed, PruneLog, PruneHooks, PruneSettings, PruneLine, by_name, delete_named, settle_named,
  prune_one, prune_next, prune_listed, prune_workloads,
}
use foreman_dispatch_bridge.Prune.Pass.Due.{IsDue, AllDue, prunable-AllDue}
use foreman_dispatch_bridge.Prune.Pass.Reasons.{
  Names, Names-nil, by_name-Names, AllReasons, delete_named-Keeps, settle_failed-Keeps,
}

module _ (fromisoformat : Text → Option Moment) (settings : PruneSettings) (hooks : PruneHooks)
    (workloads : List Stamped) where
  abbrev P : PruneLog → Type 0
  P = AllReasons fromisoformat settings hooks workloads

  settle_named-Keeps :
      (index : Dict Workload) (name : Text)
      → Names workloads index
      → IsDue fromisoformat settings workloads name failed_phase
      → (o : Option Workload) → lookup name index ≡ o
      → Keeps P (settle_named hooks name o)
  settle_named-Keeps index name h d none e = Keeps-pure []
  settle_named-Keeps index name h d (some wl) e =
      let (named, m) = h name wl e in
      settle_failed-Keeps fromisoformat settings hooks workloads name wl
        (subst (λ t. IsDue fromisoformat settings workloads t failed_phase) (sym named) d) m

  prune_one-Keeps :
      (index : Dict Workload) (name phase : Text)
      → Names workloads index
      → IsDue fromisoformat settings workloads name phase
      → Keeps P (prune_one hooks index (name, phase))
  unfolding prune_one
  prune_one-Keeps index name phase h d =
      Keeps-bind (delete_named hooks name) _
        (delete_named-Keeps fromisoformat settings hooks workloads name phase d)
        λ line. by_phase line (phase == failed_phase) refl
    where
      by_phase :
          (line : PruneLine) (b : Bool)
          → (phase == failed_phase) ≡ b
          → Keeps P (
              if b
              then (settle_named hooks name (lookup name index) >>= λ lines. pure (line ∷ lines))
              else pure (line ∷ []))
      by_phase line true e =
          Keeps-bind (settle_named hooks name (lookup name index)) (λ lines. pure (line ∷ lines))
            (settle_named-Keeps index name h
              (subst (IsDue fromisoformat settings workloads name) (eq→ phase failed_phase e) d)
              (lookup name index) refl)
            λ lines. Keeps-pure (line ∷ lines)
      by_phase line false e = Keeps-pure (line ∷ [])

  abbrev Inv : List (Text × Text) → List PruneLine → PruneLog → Type 0
  Inv rest lines log = AllDue fromisoformat settings workloads rest × P log

  round :
      (index : Dict Workload)
      → Names workloads index
      → (lines : List PruneLine) (due : Text × Text) (rest : List (Text × Text)) (log : PruneLog)
      → Inv (due ∷ rest) lines log
      → Outcome (Inv rest) P (prune_next hooks index lines due log)
  round index names lines (name, phase) rest log ((d, ds), h) =
      bind_lem P (λ more l. P l) (Inv rest) (prune_one hooks index (name, phase))
        (λ more. pure (lines ++ more)) log
        (Keeps-Outcome P (prune_one hooks index (name, phase)) log
          (prune_one-Keeps index name phase names d) h)
        λ more l h'. (ds, h')

  prune_listed-Reasons :
      All (λ s. Any (λ t. t ≡ s) workloads) workloads
      → (log : PruneLog) → P log
      → P (prune_listed hooks fromisoformat settings workloads log).1
  unfolding prune_listed given
  prune_listed-Reasons m log h =
      by_names
        (prunable_workloads fromisoformat settings.completed_ttl_seconds settings.failed_ttl_seconds
          settings.now workloads)
        refl
    where
      index : Dict Workload
      index = by_name [] workloads

      either_way : (r : Result (List PruneLine) × PruneLog) → Outcome (Inv []) P r → P r.1
      either_way (ok s, l) h' = h'.1
      either_way (raise e, l) h' = h'

      by_names :
          (o : Option (List (Text × Text)))
          → prunable_workloads fromisoformat settings.completed_ttl_seconds
              settings.failed_ttl_seconds settings.now workloads
            ≡ o
          → P (given o (λ l. (raise [], l)) (for_each (prune_next hooks index) []) log).1
      by_names none e = h
      by_names (some names) e = either_way _ (
          for_each_lem P Inv (prune_next hooks index)
            (round index (by_name-Names workloads workloads [] m (Names-nil workloads))) [] names
            log (prunable-AllDue fromisoformat settings workloads workloads names m e, h))

listed_self : (xs : List Stamped) → All (λ s. Any (λ t. t ≡ s) xs) xs
listed_self xs = reach xs (λ s m. m)
  where
    reach :
        (ys : List Stamped)
        → ((s : Stamped) → Any (λ t. t ≡ s) ys → Any (λ t. t ≡ s) xs)
        → All (λ s. Any (λ t. t ≡ s) xs) ys
    reach [] f = tt
    reach (y ∷ ys) f = (f y (inl refl), reach ys (λ s m. f s (inr m)))

-- In a pass every deletion is of a listed Workload that is in a phase whose TTL is on, and has been for
-- at least the TTL, by its terminal-since stamp or, failing that, its creation; and every issue that is
-- reset is that of such a Workload in the phase Failed, which the bridge made for an issue, which names
-- its repository and issue, and for which the question whether it is parked for a human, where there is
-- one, was not answered with yes. It holds also where the pass is cut off.
pub prune_workloads-AllReasons :
    (fromisoformat : Text → Option Moment) (settings : PruneSettings) (hooks : PruneHooks)
    → AllReasons fromisoformat settings hooks
        (recover [] (hooks.list_workloads []))
        (prune_workloads hooks fromisoformat settings []).1
unfolding prune_workloads perform ◌>>=◌
prune_workloads-AllReasons fromisoformat settings hooks =
    by_switch (leb settings.completed_ttl_seconds 0 && leb settings.failed_ttl_seconds 0)
  where
    workloads : List Stamped
    workloads = recover [] (hooks.list_workloads [])

    by_list :
        (r : Result (List Stamped))
        → recover [] r ≡ workloads
        → AllReasons fromisoformat settings hooks workloads
            (continue r (prune_listed hooks fromisoformat settings) (listed ∷ [])).1
    by_list (ok xs) e =
        subst
          (λ ys.
            AllReasons fromisoformat settings hooks ys
              (prune_listed hooks fromisoformat settings xs (listed ∷ [])).1)
          e
          (prune_listed-Reasons fromisoformat settings hooks xs (listed_self xs) (listed ∷ [])
            (tt, tt))
    by_list (raise t) e = (tt, tt)

    by_switch :
        (b : Bool)
        → AllReasons fromisoformat settings hooks workloads
            ((if b
                then pure []
                else (perform (λ r. listed) hooks.list_workloads
                    >>= prune_listed hooks fromisoformat settings))
              []).1
    by_switch true = tt
    by_switch false = by_list (hooks.list_workloads []) refl
