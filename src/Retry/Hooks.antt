-- ===== src/Retry/Hooks.antt =====
-- bridge/retry.py: the callables that `reconcile_failures` is given, the calls that its log records,
-- its settings, and the lines that it returns.
use foreman_dispatch_bridge.Base.{ℕ, Bool, Option, List, [], ◌∷◌, ◌++◌, suc}
use foreman_dispatch_bridge.Base.Text.{Text, codes}
use foreman_dispatch_bridge.Base.Dict.{Dict}
use foreman_dispatch_bridge.Base.Json.{Json, Fields}
use foreman_dispatch_bridge.Base.Decimal.{show_nat}
use foreman_dispatch_bridge.Base.Effects.{Result}
use foreman_dispatch_bridge.Models.{ClaimedItem, Workload, Task}
use foreman_dispatch_bridge.Workload.Coder.{Routing}
use foreman_dispatch_bridge.Retry.Manifest.{LaneIndex}

-- A call and how it ended: for a deletion or a creation whether it returned, for a callable that
-- reports success whether it returned true. Lookups are logged as `asked`.
pub data Call : Type 0 where
  asked : Text → Call
  deleted : Text → Bool → Call
  created : Workload → Bool → Call
  parked : ClaimedItem → (path : Text) → Bool → Call
  labelled : ClaimedItem → Bool → Call
  parked_infra : ClaimedItem → Bool → Call
  escalated : ClaimedItem → Bool → Call

abbrev pub Log : Type 0
Log = List Call

-- What each callable answers, after the calls made so far. An optional one may be missing.
pub record Hooks : Type 0 where
  pub list_failed : Log → Result (List Workload)
  pub create_workload : Workload → Log → Result (Unit {0})
  pub delete_workload : Text → Log → Result (Unit {0})
  pub escalate : Option (ClaimedItem → Log → Result Bool)
  pub lookup_issue_id : Option (ClaimedItem → Log → Result Text)
  pub feedback_for : Option (Text → Log → Result Text)
  pub branch_pushed_for : Option (Text → Text → Text → Log → Result Bool)
  pub issue_state_for : Option (ClaimedItem → Log → Result (Option Text))
  pub declared_escalation_for : Option (Text → Log → Result (Option Text))
  pub park_for_human : Option (ClaimedItem → (reason path : Text) → Log → Result Bool)
  pub tasks_for : Option (Text → Log → Result (List Task))
  pub failed_model_for : Option (Text → Log → Result Text)
  pub park_infra : Option (ClaimedItem → Text → ℕ → Log → Result Bool)
  pub needs_human_for : Option (ClaimedItem → Log → Result (Option Bool))
  pub ensure_human_label : Option (ClaimedItem → Log → Result Bool)

pub record Settings : Type 0 where
  pub namespace : Text
  pub gate_profiles : Dict Fields
  pub max_attempts : ℕ
  pub infra_max_attempts : ℕ
  pub escalation_lane : Text
  pub routing : Routing
  pub current_lane_for : LaneIndex
  pub verify_enabled : Bool
  pub self_go : List Text
  pub agent_slots : Dict Json

-- One constructor for each line that the pass can append; the fields are those of its f-string.
pub data Line : Type 0 where
  issue_closed : (name : Text) → Line
  human_escalation : (name reason : Text) → Line
  rail_demoted : (name : Text) → Line
  giveup_infra : (name : Text) (attempt cap : ℕ) → Line
  repeated_nogo : (name : Text) → Line
  repeated_nogo_park_failed : (name : Text) → Line
  escalate_error : (name error : Text) → Line
  escalated_to : (name from to : Text) → Line
  giveup : (name : Text) (attempt cap : ℕ) → Line
  deferred : (name coder : Text) → Line
  retry_error : (name error : Text) → Line
  retry_infra : (name : Text) (attempt cap : ℕ) → Line
  retry : (name : Text) (attempt cap : ℕ) → Line

abbrev counted : Text → ℕ → ℕ → Text
counted tag n m = tag ++ (show_nat n ++ (codes "/" ++ show_nat m))

abbrev or_mark : Text → Text
or_mark [] = codes "?"
or_mark (c ∷ s) = c ∷ s

-- The line as it is logged.
unfoldable pub render : Line → Text
render (issue_closed name) = name ++ codes ":skip-retry:issue-closed"
render (human_escalation name reason) = name ++ (codes ":human-escalation:" ++ reason)
render (rail_demoted name) = name ++ codes ":rail-demoted:parked"
render (giveup_infra name n m) = name ++ counted (codes ":giveup-infra:") n m
render (repeated_nogo name) = name ++ codes ":repeated-nogo:parked"
render (repeated_nogo_park_failed name) = name ++ codes ":repeated-nogo:park-failed"
render (escalate_error name e) = name ++ (codes ":escalate-error:" ++ e)
render (escalated_to name from to) =
    name ++ (codes ":escalated:" ++ (or_mark from ++ (codes "->" ++ to)))
render (giveup name n m) = name ++ counted (codes ":giveup:") n m
render (deferred name coder) = name ++ (codes ":retry-deferred:coder-busy:" ++ coder)
render (retry_error name e) = name ++ (codes ":retry-error:" ++ e)
render (retry_infra name n m) = name ++ counted (codes ":retry-infra:") n m
render (retry name n m) = name ++ counted (codes ":retry:") (suc n) m
