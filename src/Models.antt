-- ===== src/Models.antt =====
-- bridge/models.py, and the Kubernetes objects that the bridge reads and writes.
use foreman_dispatch_bridge.Base.{ℕ, Bool, Option, List}
use foreman_dispatch_bridge.Base.Text.{Text}
use foreman_dispatch_bridge.Base.Dict.{Dict}
use foreman_dispatch_bridge.Base.Json.{Integer, Json, Fields}

pub record ClaimedItem : Type 0 where
  pub repo : Text
  pub issue_number : ℕ
  pub intent : Text
  pub lane : Text
  pub issue_id : Text

-- The payload of one pipeline step. An absent text is empty: the bridge never writes an empty one.
pub record Payload : Type 0 where
  pub repo : Text
  pub issue : Option Integer
  pub branch : Text
  pub prompt : Text
  pub revise_from_branch : Text
  pub branch_strategy : Text
  pub allow_overwrite : Bool
  pub open_pull_request : Bool

pub record Step : Type 0 where
  pub name : Text
  pub kind : Text
  pub agent_ref : Option Text
  pub depends_on : List Text
  pub payload : Payload

-- `Workload.spec`. A key that is left out is none, [] or false.
pub record Spec : Type 0 where
  pub intent : Text
  pub repo : Text
  pub issues : List ℕ
  pub coder_agent_ref : Option Text
  pub reviewer_agent_refs : List Text
  pub verifier_agent_ref : Option Text
  pub revision_coder_agent_ref : Option Text
  pub pipeline : List Step
  pub revise_from_branch : Text
  pub allow_overwrite : Bool
  pub self_go : List Text
  pub gate_profile : Option Fields

pub record Condition : Type 0 where
  pub type : Text
  pub reason : Text

-- A Workload as the API server serves it, with the parts of the status that the bridge reads.
-- Each of metadata.labels, metadata.annotations and status.taskStatuses may be missing, which the
-- bridge reads as empty.
pub record Workload : Type 0 where
  pub name : Text
  pub namespace : Text
  pub labels : Dict Text
  pub annotations : Dict Text
  pub spec : Spec
  pub phase : Text
  pub task_statuses : List (List Condition)

-- An AgenticTask's spec.kind, and its status. A missing text is empty.
pub record Task : Type 0 where
  pub kind : Text
  pub verdict : Text
  pub conditions : List Condition
  pub outcome : Text
  pub error : Text
  pub pull_request_url : Text
  pub model_extra : Json
