-- ===== src/Retry/Giveup/Isolation.antt =====
-- bridge/retry.py: exceptions in the branches that give up.
use foreman_dispatch_bridge.Base.{Bool, true, false, List}
use foreman_dispatch_bridge.Base.Text.{Text}
use foreman_dispatch_bridge.Base.Effects.{Result, ok, raise}
use foreman_dispatch_bridge.Base.Effects.Returns.{Returns, Returns-pure, OnSome, returns_rules}
use foreman_dispatch_bridge.Models.{ClaimedItem, Workload, Task}
use foreman_dispatch_bridge.Retry.Hooks.{Hooks, Settings, Line}
use foreman_dispatch_bridge.Retry.Parking.Isolation.{
  Answers, try_delete-Returns, park_exhausted-Returns, identify-Returns,
}
use foreman_dispatch_bridge.Retry.Giveup.{
  find_model, park_dead_backend, retire_if, give_up_infra, settle_repeated_nogo, park_spent,
  after_escalation, settle_exhausted,
}

module _ (hooks : Hooks) (settings : Settings) where
  find_model-Returns : (wl : Workload) → Returns (find_model hooks settings wl)
  unfolding find_model
  find_model-Returns wl = search returns_rules depth 8

  park_dead_backend-Returns :
      (wl : Workload) (model : Text) → Returns (park_dead_backend hooks settings wl model)
  unfolding park_dead_backend
  park_dead_backend-Returns wl model =
      search (returns_rules, park_exhausted-Returns hooks settings) depth 8

  retire_if-Returns :
      (done : Bool) (name : Text) (line : Line) → Returns (retire_if hooks settings done name line)
  unfolding retire_if
  retire_if-Returns done name line =
      search (returns_rules, try_delete-Returns hooks settings) depth 8

  pub give_up_infra-Returns :
      (wl : Workload) (is_infra : Bool) → Returns (give_up_infra hooks settings wl is_infra)
  unfolding give_up_infra
  give_up_infra-Returns wl is_infra =
      search (returns_rules, find_model-Returns, park_dead_backend-Returns, retire_if-Returns) depth
        8

  pub settle_repeated_nogo-Returns :
      (wl : Workload) (tasks : List Task) (is_infra : Bool)
      → Returns (settle_repeated_nogo hooks settings wl tasks is_infra)
  unfolding settle_repeated_nogo
  settle_repeated_nogo-Returns wl tasks is_infra =
      search
        (returns_rules, park_exhausted-Returns hooks settings, try_delete-Returns hooks settings)
        depth 8

  park_spent-Returns : (wl : Workload) → Returns (park_spent hooks settings wl)
  unfolding park_spent
  park_spent-Returns wl =
      search (returns_rules, park_exhausted-Returns hooks settings, retire_if-Returns) depth 8

  after_escalation-Returns :
      (wl : Workload) (item : ClaimedItem) (ended : Result Bool)
      → Returns (after_escalation hooks settings wl item ended)
  unfolding after_escalation
  after_escalation-Returns wl item (raise e) = Returns-pure _
  after_escalation-Returns wl item (ok true) = Returns-pure _
  after_escalation-Returns wl item (ok false) = park_spent-Returns wl

  pub settle_exhausted-Returns :
      OnSome Answers hooks.lookup_issue_id
      → (wl : Workload) (is_infra : Bool) → Returns (settle_exhausted hooks settings wl is_infra)
  unfolding settle_exhausted
  settle_exhausted-Returns known wl is_infra =
      search (returns_rules, identify-Returns hooks settings known, after_escalation-Returns) depth
        8
