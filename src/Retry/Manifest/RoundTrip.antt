-- ===== src/Retry/Manifest/RoundTrip.antt =====
-- bridge/retry.py: reading back what `build_workload` writes.
use foreman_dispatch_bridge.Base.{ℕ, ◌≤◌, ◌≡◌, refl, some, arith}
use foreman_dispatch_bridge.Base.Text.{Text, ◌==◌}
use foreman_dispatch_bridge.Base.Dict.{lookup}
use foreman_dispatch_bridge.Base.Decimal.{show_nat, parse_int}
use foreman_dispatch_bridge.Base.Decimal.RoundTrip.{parse_int-show_nat}
use foreman_dispatch_bridge.Models.{ClaimedItem}
use foreman_dispatch_bridge.Workload.Config.{
  attempt_annotation, infra_attempt_annotation, issue_id_annotation,
}
use foreman_dispatch_bridge.Workload.Build.{lane_label, created_by, Request, build_workload}
use foreman_dispatch_bridge.Workload.Build.Pairing.{spec_kept}
use foreman_dispatch_bridge.Retry.Manifest.{
  counter, attempt_of, infra_attempt_of, item_from_workload,
}

pub counter_of_print : (n : ℕ) → 1 ≤ n → counter (parse_int (show_nat n)) ≡ n
unfolding counter
counter_of_print n h = rw parse_int-show_nat (ground arith)

annotated :
    (item : ClaimedItem) (namespace : Text) (q : Request)
    → let ann = (build_workload item namespace q).annotations in
      (lookup attempt_annotation ann ≡ some (show_nat q.attempt))
      × (lookup infra_attempt_annotation ann ≡ some (show_nat q.infra_attempt))
      × (lookup issue_id_annotation ann ≡ some item.issue_id)
unfolding build_workload lookup ◌==◌ attempt_annotation infra_attempt_annotation issue_id_annotation
annotated item namespace q = (refl, refl, refl)

-- The counters of a built Workload are the ones that it was asked for.
pub counters-build_workload :
    (item : ClaimedItem) (namespace : Text) (q : Request)
    → 1 ≤ q.attempt
    → 1 ≤ q.infra_attempt
    → (attempt_of (build_workload item namespace q) ≡ q.attempt)
      × (infra_attempt_of (build_workload item namespace q) ≡ q.infra_attempt)
unfolding attempt_of infra_attempt_of
counters-build_workload item namespace q h k =
    let (a, b, c) = annotated item namespace q in
    (rw a (counter_of_print q.attempt h), rw b (counter_of_print q.infra_attempt k))

lane_labelled :
    (item : ClaimedItem) (namespace : Text) (q : Request)
    → lookup lane_label (build_workload item namespace q).labels ≡ some item.lane
unfolding build_workload lookup ◌==◌ lane_label created_by
lane_labelled item namespace q = refl

-- A retry reconstructs from a Workload, first attempt or retry with feedback, the item that it was
-- built for.
pub item_from_workload-build_workload :
    (item : ClaimedItem) (namespace : Text) (q : Request)
    → item_from_workload (build_workload item namespace q) ≡ item
unfolding item_from_workload
item_from_workload-build_workload item namespace q =
    ground (
      arith,
      annotated item namespace q,
      lane_labelled item namespace q,
      spec_kept item namespace q,
    )
