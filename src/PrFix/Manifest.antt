-- ===== src/PrFix/Manifest.antt =====
-- bridge/prfix.py: the manifests of the Workloads that fix pull requests, and what is read back from them.
use foreman_dispatch_bridge.Base.{
  ℕ, Bool, true, false, ◌&&◌, not, Option, none, some, List, [], ◌∷◌, ◌++◌, map, if◌then◌else◌,
  or_default, all,
}
use foreman_dispatch_bridge.Base.Text
use foreman_dispatch_bridge.Base.Text.{Text, codes, ◌==◌}
use foreman_dispatch_bridge.Base.Int.{ℤ, pos}
use foreman_dispatch_bridge.Base.Dict.{Dict, lookup, insert}
use foreman_dispatch_bridge.Base.Decimal.{show_nat}
use foreman_dispatch_bridge.Base.Decimal.Unicode.{is_unicode_digit, read_digits}
use foreman_dispatch_bridge.Base.Effects.{Result, ok, raise}
use foreman_dispatch_bridge.Base.Json.{Fields, Integer, integer}
use foreman_dispatch_bridge.Models.{Payload, Step, Spec, Workload}
use foreman_dispatch_bridge.Workload.Config.{
  verifier_agent, attempt_annotation, signature_annotation,
}
use foreman_dispatch_bridge.Workload.Build.{issue_fix, created_by, lane_label, if_profile}
use foreman_dispatch_bridge.PrFix.Item.{
  PrFixItem, show_integer, assemble_fix_prompt, prfix_workload_name,
}
pub mod Kept

unfoldable pub prfix_created_by : Text
prfix_created_by = codes "dispatch-bridge-prfix"

unfoldable pub prfix_repo_annotation : Text
prfix_repo_annotation = codes "foreman.llmkube.dev/prfix-repo"

unfoldable pub prfix_pr_annotation : Text
prfix_pr_annotation = codes "foreman.llmkube.dev/prfix-pr"

-- The arguments of `build_fix_workload` behind the item and the namespace.
pub record FixRequest : Type 0 where
  pub gate_profile : Option Fields
  pub coder_agent : Text
  pub attempt : ℕ
  pub verify_enabled : Bool
  pub self_go : List Text
  pub signature : Text

abbrev verify_payload : PrFixItem → Payload
verify_payload item = record {
  repo = item.repo;
  issue = item.issue;
  branch = or_default item.branch [];
  prompt = [];
  revise_from_branch = [];
  branch_strategy = [];
  allow_overwrite = false;
  open_pull_request = false;
}

abbrev code_payload : PrFixItem → Payload
code_payload item = record (verify_payload item) {
  prompt = assemble_fix_prompt item;
  revise_from_branch = or_default item.branch [];
  branch_strategy = codes "rebase";
  allow_overwrite = true;
}

unfoldable pub fix_steps : PrFixItem → FixRequest → List Step
unfolding issue_fix
fix_steps item q =
    record {
      name = codes "fix-" ++ show_integer item.pr;
      kind = issue_fix;
      agent_ref = some q.coder_agent;
      depends_on = [];
      payload = code_payload item;
    }
    ∷ (if q.verify_enabled
        then record {
          name = codes "fixverify-" ++ show_integer item.pr;
          kind = codes "verify";
          agent_ref = some verifier_agent;
          depends_on = (codes "fix-" ++ show_integer item.pr) ∷ [];
          payload = verify_payload item;
        }
          ∷ []
        else [])

unfoldable pub build_fix_workload : PrFixItem → (namespace : Text) → FixRequest → Workload
unfolding fix_steps
build_fix_workload item namespace q = record {
  name = prfix_workload_name item;
  namespace = namespace;
  labels = (created_by, prfix_created_by) ∷ (lane_label, item.lane) ∷ [];
  annotations =
      (attempt_annotation, show_nat q.attempt)
      ∷ (prfix_repo_annotation, item.repo)
      ∷ (prfix_pr_annotation, show_integer item.pr)
      ∷ (if Text.is_empty q.signature then [] else (signature_annotation, q.signature) ∷ []);
  spec = record {
    intent = codes "fix PR #" ++ show_integer item.pr;
    repo = item.repo;
    issues = [];
    coder_agent_ref = none;
    reviewer_agent_refs = [];
    verifier_agent_ref = none;
    revision_coder_agent_ref = none;
    pipeline = fix_steps item q;
    revise_from_branch = [];
    allow_overwrite = false;
    self_go = q.self_go;
    gate_profile = if_profile q.gate_profile;
  };
  phase = [];
  task_statuses = [];
}

with_signature : Text → Dict Text → Dict Text
with_signature signature annotations =
    if Text.is_empty signature
    then annotations
    else insert signature_annotation signature annotations

unfoldable pub rebuild_prfix_manifest : Workload → (attempt : ℤ) (signature : Text) → Workload
unfolding with_signature
rebuild_prfix_manifest wl attempt signature = record {
  name = wl.name;
  namespace = wl.namespace;
  labels = wl.labels;
  annotations =
      with_signature signature
        (insert attempt_annotation (show_integer (integer attempt)) wl.annotations);
  spec = wl.spec;
  phase = [];
  task_statuses = [];
}

-- `int(pr)` of a text that passes `isdigit`. A digit such as a superscript passes, but `int` refuses it.
abbrev pub int_of_digits : (pr : Text) → Option ℕ → Result (Option ℤ)
int_of_digits pr none =
    raise (codes "invalid literal for int() with base 10: '" ++ (pr ++ codes "'"))
int_of_digits pr (some n) = ok (some (pos n))

-- `int(pr) if pr and pr.isdigit() else None`
unfoldable pub pr_number : Option Text → Result (Option ℤ)
pr_number none = ok none
pr_number (some pr) =
    if not (Text.is_empty pr) && all is_unicode_digit pr
    then int_of_digits pr (read_digits pr)
    else ok none

abbrev pub keyed_by : Option Text → Result (Option ℤ) → Result (Option Text × Option ℤ)
keyed_by repo (ok pr) = ok (repo, pr)
keyed_by repo (raise e) = raise e

unfoldable pub prfix_key : Workload → Result (Option Text × Option ℤ)
unfolding pr_number
prfix_key wl =
    keyed_by (lookup prfix_repo_annotation wl.annotations)
      (pr_number (lookup prfix_pr_annotation wl.annotations))

unfoldable pub actionable_lanes : List Text
actionable_lanes = codes "NORMAL" ∷ codes "ESCALATED" ∷ []

-- The lane behind the first occurrence of a lane.
next_after : Text → List Text → Option Text
next_after lane [] = none
next_after lane (l ∷ []) = none
next_after lane (l ∷ m ∷ lanes) =
    let rest = next_after lane (m ∷ lanes) in if l == lane then some m else rest

unfoldable pub next_prfix_lane : Text → Option Text
unfolding next_after
next_prfix_lane lane = next_after lane actionable_lanes

coder_of_steps : List Step → Option Text
coder_of_steps [] = none
coder_of_steps (step ∷ steps) =
    let rest = coder_of_steps steps in if step.kind == issue_fix then step.agent_ref else rest

unfoldable pub prfix_current_coder : Workload → Option Text
unfolding coder_of_steps
prfix_current_coder wl = coder_of_steps wl.spec.pipeline

with_coder : Text → Step → Step
with_coder coder step =
    if step.kind == issue_fix then record step { agent_ref = some coder } else step

unfoldable pub escalate_prfix_manifest :
    Workload → (next_lane next_coder signature : Text) → Workload
unfolding with_coder
escalate_prfix_manifest wl next_lane next_coder signature =
    let m = rebuild_prfix_manifest wl (pos 1) signature in
    record m {
      labels = insert lane_label next_lane m.labels;
      spec = record m.spec { pipeline = map (with_coder next_coder) m.spec.pipeline };
    }
