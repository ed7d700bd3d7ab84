-- ===== src/Workload/Build.antt =====
-- bridge/workload.py: `_pipeline_steps` and `build_workload`.
use foreman_dispatch_bridge.Base.{
  ℕ, suc, ◌+◌, Bool, true, false, not, Option, none, some, List, [], ◌∷◌, ◌++◌, if◌then◌else◌,
}
use foreman_dispatch_bridge.Base.Text
use foreman_dispatch_bridge.Base.Text.{Text, codes}
use foreman_dispatch_bridge.Base.Decimal.{show_nat}
use foreman_dispatch_bridge.Base.Int.{pos}
use foreman_dispatch_bridge.Base.Json.{integer, Fields, end, field}
use foreman_dispatch_bridge.Models.{ClaimedItem, Payload, Step, Spec, Workload}
use foreman_dispatch_bridge.Workload.Config.{
  verifier_agent, reviewer_agents, attempt_annotation, infra_attempt_annotation,
  issue_id_annotation,
}
use foreman_dispatch_bridge.Workload.Name.{workload_name}
pub mod Pairing
pub mod Started

unfoldable pub issue_fix : Text
issue_fix = codes "issue-fix"

unfoldable pub dispatch_bridge : Text
dispatch_bridge = codes "dispatch-bridge"

unfoldable pub created_by : Text
created_by = codes "created-by"

unfoldable pub lane_label : Text
lane_label = codes "lane"

abbrev base_payload : ClaimedItem → Text → Payload
base_payload item branch = record {
  repo = item.repo;
  issue = some (integer (pos item.issue_number));
  branch = branch;
  prompt = [];
  revise_from_branch = [];
  branch_strategy = [];
  allow_overwrite = false;
  open_pull_request = false;
}

code_step : Text → Payload → (coder_agent feedback : Text) → Bool → Step
unfolding issue_fix
code_step n payload coder_agent feedback allow_overwrite = record {
  name = codes "code-" ++ n;
  kind = issue_fix;
  agent_ref = some coder_agent;
  depends_on = [];
  payload = record payload { prompt = feedback; allow_overwrite = allow_overwrite };
}

verify_step : Text → Payload → Step
verify_step n payload = record {
  name = codes "verify-" ++ n;
  kind = codes "verify";
  agent_ref = some verifier_agent;
  depends_on = (codes "code-" ++ n) ∷ [];
  payload = payload;
}

-- The review steps from the i-th on.
review_steps : Text → Payload → Bool → ℕ → List Text → List Step
review_steps n payload verify_enabled i [] = []
review_steps n payload verify_enabled i (reviewer ∷ reviewers) =
    record {
      name = codes "review-" ++ (n ++ (b'-' ∷ show_nat i));
      kind = codes "review";
      agent_ref = some reviewer;
      depends_on = ((if verify_enabled then codes "verify-" else codes "code-") ++ n) ∷ [];
      payload = record payload { open_pull_request = true };
    }
    ∷ review_steps n payload verify_enabled (suc i) reviewers

unfoldable pub pipeline_steps :
    ClaimedItem
    → (name coder_agent feedback : Text) (allow_overwrite verify_enabled : Bool) → List Step
unfolding code_step verify_step review_steps
pipeline_steps item name coder_agent feedback allow_overwrite verify_enabled =
    let n = show_nat item.issue_number in
    let payload = base_payload item (codes "foreman/" ++ (name ++ (codes "/issue-" ++ n))) in
    code_step n payload coder_agent feedback allow_overwrite
    ∷ ((if verify_enabled then verify_step n payload ∷ [] else [])
        ++ review_steps n payload verify_enabled 0 reviewer_agents)

-- The keyword arguments of `build_workload` behind the item and the namespace.
pub record Request : Type 0 where
  pub gate_profile : Option Fields
  pub attempt : ℕ
  pub infra_attempt : ℕ
  pub coder_agent : Text
  pub feedback : Text
  pub revision_coder_agent : Text
  pub verify_enabled : Bool
  pub self_go : List Text
  pub revise_from_branch : Text

abbrev blank : ClaimedItem → Spec
blank item = record {
  intent = item.intent;
  repo = item.repo;
  issues = item.issue_number ∷ [];
  coder_agent_ref = none;
  reviewer_agent_refs = [];
  verifier_agent_ref = none;
  revision_coder_agent_ref = none;
  pipeline = [];
  revise_from_branch = [];
  allow_overwrite = false;
  self_go = [];
  gate_profile = none;
}

-- `if name: spec[key] = name`
abbrev if_named : Text → Option Text
if_named [] = none
if_named (c ∷ s) = some (c ∷ s)

-- The branches on the feedback.
shape : ClaimedItem → Request → Bool → Spec
unfolding pipeline_steps
shape item q allow_overwrite =
    if not (Text.is_empty q.feedback)
    then record (blank item) {
      pipeline =
          pipeline_steps item (workload_name item) q.coder_agent q.feedback allow_overwrite
            q.verify_enabled;
    }
    else record (blank item) {
      coder_agent_ref = some q.coder_agent;
      reviewer_agent_refs = reviewer_agents;
      verifier_agent_ref = if q.verify_enabled then some verifier_agent else none;
      revision_coder_agent_ref = if_named q.revision_coder_agent;
    }

abbrev pub if_profile : Option Fields → Option Fields
if_profile none = none
if_profile (some end) = none
if_profile (some (field k v fs)) = some (field k v fs)

build_spec : ClaimedItem → Request → Spec
unfolding shape
build_spec item q =
    let allow_overwrite = not (Text.is_empty q.revise_from_branch) in
    record (shape item q allow_overwrite) {
      revise_from_branch = q.revise_from_branch;
      allow_overwrite = allow_overwrite;
      self_go = q.self_go;
      gate_profile = if_profile q.gate_profile;
    }

unfoldable pub build_workload : ClaimedItem → (namespace : Text) → Request → Workload
unfolding build_spec
build_workload item namespace q = record {
  name = workload_name item;
  namespace = namespace;
  labels = (created_by, dispatch_bridge) ∷ (lane_label, item.lane) ∷ [];
  annotations =
      (attempt_annotation, show_nat q.attempt)
      ∷ (infra_attempt_annotation, show_nat q.infra_attempt)
      ∷ (issue_id_annotation, item.issue_id)
      ∷ [];
  spec = build_spec item q;
  phase = [];
  task_statuses = [];
}
