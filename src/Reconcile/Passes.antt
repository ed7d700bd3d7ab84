-- ===== src/Reconcile/Passes.antt =====
-- bridge/reconcile.py: the changes of a whole pass.
use foreman_dispatch_bridge.Base.{◌≡◌, refl, List, [], ◌∷◌, Any, inl, inr}
use foreman_dispatch_bridge.Base.Text.{Text, codes}
use foreman_dispatch_bridge.Base.Json.{Json}
use foreman_dispatch_bridge.Base.Effects.{
  Result, ok, raise, recover, continue, perform, ◌>>=◌, for_each,
}
use foreman_dispatch_bridge.Base.Effects.Rules.{Keeps, Keeps-pure, Keeps-bind}
use foreman_dispatch_bridge.Reconcile.{
  listed, ReconcileLog, Reconcile, ReconcileHooks, ReconcileLine, reconcile_json,
  reconcile_stranded_issues, release_json, release_stuck_claims,
}
use foreman_dispatch_bridge.Reconcile.Unbacked.{
  AllUnbacked, reconcile_json-Keeps, release_json-Keeps,
}

-- A loop keeps what its step keeps on the members of the list.
for_each-Keeps :
    {P : ReconcileLog → Type 0} (step : List ReconcileLine → Json → Reconcile (List ReconcileLine))
    (xs : List Json)
    → ((j : Json) → Any (λ i. i ≡ j) xs → (s : List ReconcileLine) → Keeps P (step s j))
    → (s : List ReconcileLine) → Keeps P (for_each step s xs)
unfolding for_each
for_each-Keeps step [] k s = Keeps-pure s
for_each-Keeps step (x ∷ xs) k s =
    Keeps-bind (step s x) (λ s'. for_each step s' xs) (k x (inl refl) s)
      λ s'. for_each-Keeps step xs (λ j m. k j (inr m)) s'

module _ (repr : Json → Text) (hooks : ReconcileHooks) (workload_names : List Text) where
  -- A pass over the items that `r` lists.
  pass_lem :
      (status : Text) (step : List ReconcileLine → Json → Reconcile (List ReconcileLine))
      (r : Result (List Json))
      → ((claimed : List Json) (s : List ReconcileLine) (j : Json)
          → Any (λ i. i ≡ j) claimed
          → Keeps (AllUnbacked repr hooks workload_names claimed) (step s j))
      → AllUnbacked repr hooks workload_names
          (recover [] r)
          (continue r (for_each step []) (listed status ∷ [])).1
  pass_lem status step (ok claimed) k =
      (for_each-Keeps step claimed (λ j m s. k claimed s j m) []).at (listed status ∷ []) (tt, tt)
  pass_lem status step (raise e) k = (tt, tt)

-- What either pass changes is a listed item with a number, whose issue has no Workload and no open pull
-- request; and a claim is released only where moreover the labels say status/ready. It holds also where
-- the pass is cut off.
pub reconcile-AllUnbacked :
    (repr : Json → Text) (hooks : ReconcileHooks) (workload_names : List Text)
    → AllUnbacked repr hooks workload_names
        (recover [] (hooks.list_claimed [] []))
        (reconcile_stranded_issues repr hooks workload_names []).1
      × AllUnbacked repr hooks workload_names
          (recover [] (hooks.list_claimed (codes "ready") []))
          (release_stuck_claims repr hooks workload_names []).1
unfolding reconcile_stranded_issues release_stuck_claims perform ◌>>=◌
reconcile-AllUnbacked repr hooks workload_names = (
  pass_lem repr hooks workload_names [] (reconcile_json repr hooks workload_names)
      (hooks.list_claimed [] []) (reconcile_json-Keeps repr hooks workload_names),
  pass_lem repr hooks workload_names (codes "ready") (release_json repr hooks workload_names)
      (hooks.list_claimed (codes "ready") []) (release_json-Keeps repr hooks workload_names),
)
