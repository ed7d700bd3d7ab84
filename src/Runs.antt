-- ===== src/Runs.antt =====
-- The theorems on the passes over claimed issues and on the stamp of a Workload, at concrete inputs.
use foreman_dispatch_bridge.Base.{◌≡◌, refl, [], ◌∷◌, true, given, some}
use foreman_dispatch_bridge.Base.Text
use foreman_dispatch_bridge.Base.Json
use foreman_dispatch_bridge.Base.Text.{Text, codes}
use foreman_dispatch_bridge.Base.Int.{pos}
use foreman_dispatch_bridge.Base.Json.{Json, str, arr, obj, num, field, end, nil, cons}
use foreman_dispatch_bridge.Base.Effects.{ok}
use foreman_dispatch_bridge.Trials.{a_done_workload}
use foreman_dispatch_bridge.Models.{Workload}
use foreman_dispatch_bridge.Prune
use foreman_dispatch_bridge.Prune.{aware, stamp_terminal_since}
use foreman_dispatch_bridge.Prune.Stamp.{Settled, stamp_terminal_since-Settled}
use foreman_dispatch_bridge.Reconcile.{
  ReconcileHooks, reset_to_ready, released, reconcile_stranded_issues, release_stuck_claims,
}
use foreman_dispatch_bridge.Reconcile.Unbacked.{AllUnbacked}
use foreman_dispatch_bridge.Reconcile.Passes.{reconcile-AllUnbacked}

abbrev no_text : Json → Text
no_text j = codes "?"

-- An issue that was claimed and is ready again.
abbrev a_claim : Json
a_claim = obj (
    field (codes "number") (num (pos 7)) (
      field (codes "repoFullName") (str (codes "miso/app"))
        (field (codes "labels") (arr (cons (str (codes "status/ready")) nil)) end)))

abbrev claim_hooks : ReconcileHooks
claim_hooks = record {
  list_claimed = λ status log. ok (a_claim ∷ []);
  update_status = λ item status log. ok true;
  remove_label = λ item label log. ok true;
  unclaim = λ ci log. ok true;
}

test_reset :
    (reconcile_stranded_issues no_text claim_hooks [] []).0 ≡ ok (reset_to_ready (num (pos 7)) ∷ [])
unfolding reconcile_stranded_issues Json.get Text.◌==◌ given Text.mem_text
test_reset = refl

test_release : (release_stuck_claims no_text claim_hooks [] []).0 ≡ ok (released (num (pos 7)) ∷ [])
unfolding release_stuck_claims Json.get Text.◌==◌ given Text.mem_text
test_release = refl

reconcile-AllUnbacked_example :
    AllUnbacked no_text claim_hooks
      (codes "wl-miso-other-3" ∷ [])
      (a_claim ∷ [])
      (reconcile_stranded_issues no_text claim_hooks (codes "wl-miso-other-3" ∷ []) []).1
    × AllUnbacked no_text claim_hooks
        (codes "wl-miso-other-3" ∷ [])
        (a_claim ∷ [])
        (release_stuck_claims no_text claim_hooks (codes "wl-miso-other-3" ∷ []) []).1
reconcile-AllUnbacked_example =
    reconcile-AllUnbacked no_text claim_hooks (codes "wl-miso-other-3" ∷ [])

-- A Workload without a stamp.
abbrev a_failed_workload : Workload
a_failed_workload = record a_done_workload { phase = codes "Failed"; annotations = [] }

stamp_terminal_since-Settled_example :
    Settled
      (λ t. some (aware 5))
      (λ now. codes "1970-01-01T00:00:00Z")
      9
      []
      (stamp_terminal_since
        (λ t. some (aware 5))
        (λ now. codes "1970-01-01T00:00:00Z")
        5
        a_failed_workload)
unfolding Prune.is_terminal_phase Text.◌==◌ Prune.parse_ts
stamp_terminal_since-Settled_example =
    stamp_terminal_since-Settled (λ t. some (aware 5)) (λ now. codes "1970-01-01T00:00:00Z") 5 9 []
      a_failed_workload (aware 5) refl refl
