-- ===== src/Workload/Build/Pairing.antt =====
-- When a manifest lets the coder overwrite its branch.
use foreman_dispatch_bridge.Base.{
  ℕ, suc, ◌≡◌, ◌↔◌, ◌≢◌, refl, Bool, true, false, not, List, [], ◌∷◌, ◌++◌, All, Bool-cases, inl,
  inr,
}
use foreman_dispatch_bridge.Base.Text
use foreman_dispatch_bridge.Base.Text.{Text, codes, ◌==◌}
use foreman_dispatch_bridge.Models.{ClaimedItem, Payload, Step}
use foreman_dispatch_bridge.Base.Decimal.{show_nat}
use foreman_dispatch_bridge.Workload.Config.{reviewer_agents}
use foreman_dispatch_bridge.Workload.Build.{
  Request, base_payload, build_workload, shape, pipeline_steps, review_steps,
}

-- A step overwrites only if the whole Workload revises a branch.
abbrev pub StepIsPaired : Text → Step → Type 0
StepIsPaired branch s = s.payload.allow_overwrite ≡ true → branch ≢ []

review_steps-paired :
    (n : Text) (p : Payload) (v : Bool) (i : ℕ) (reviewers : List Text) (branch : Text)
    → p.allow_overwrite ≡ false
    → All (StepIsPaired branch) (review_steps n p v i reviewers)
unfolding review_steps
review_steps-paired n p v i [] branch h = tt
review_steps-paired n p v i (r ∷ reviewers) branch h =
    (λ e. cc, review_steps-paired n p v (suc i) reviewers branch h)

abbrev step_payload : ClaimedItem → Text → Payload
step_payload item name =
    base_payload item
      (codes "foreman/" ++ (name ++ (codes "/issue-" ++ show_nat item.issue_number)))

pipeline_steps-paired :
    (item : ClaimedItem) (name coder feedback : Text) (a v : Bool) (branch : Text)
    → (a ≡ true → branch ≢ [])
    → All (StepIsPaired branch) (pipeline_steps item name coder feedback a v)
unfolding pipeline_steps
pipeline_steps-paired item name coder feedback a true branch h = (
  h,
  (
    (λ e p. cc),
    review_steps-paired (show_nat item.issue_number) (step_payload item name) true 0 reviewer_agents
        branch refl,
  ),
)
pipeline_steps-paired item name coder feedback a false branch h = (
  h,
  review_steps-paired (show_nat item.issue_number) (step_payload item name) false 0 reviewer_agents
      branch refl,
)

shape-paired :
    (item : ClaimedItem) (q : Request) (a : Bool) (branch : Text)
    → (a ≡ true → branch ≢ [])
    → All (StepIsPaired branch) (shape item q a).pipeline
unfolding shape
shape-paired item q a branch h = elim (Bool-cases (not (Text.is_empty q.feedback))) [
  | inl e ↦ rw e (pipeline_steps-paired item _ q.coder_agent q.feedback a q.verify_enabled branch h)
  | inr e ↦ rw e tt
]

not_empty_iff : (t : Text) → (not (Text.is_empty t) ≡ true) ↔ (t ≢ [])
not_empty_iff [] = (λ e. cc, λ h. absurd (h refl))
not_empty_iff (c ∷ s) = (λ e p. cc, λ h. refl)

-- `allowOverwrite` and `reviseFromBranch` stand in a manifest together or not at all: the manifest
-- allows the overwrite exactly when a branch to revise is given, it then names that branch, and no
-- step of the pipeline allows an overwrite without it.
pub build_workload_pairs :
    (item : ClaimedItem) (namespace : Text) (q : Request)
    → let spec = (build_workload item namespace q).spec in
      ((spec.allow_overwrite ≡ true) ↔ (q.revise_from_branch ≢ []))
      × (spec.revise_from_branch ≡ q.revise_from_branch)
      × All (StepIsPaired spec.revise_from_branch) spec.pipeline
unfolding build_workload
build_workload_pairs item namespace q = (
  not_empty_iff q.revise_from_branch,
  refl,
  shape-paired item q _ q.revise_from_branch (not_empty_iff q.revise_from_branch).0,
)

spec_kept_shape :
    (item : ClaimedItem) (q : Request) (a : Bool)
    → ((shape item q a).repo ≡ item.repo)
      × ((shape item q a).intent ≡ item.intent)
      × ((shape item q a).issues ≡ item.issue_number ∷ [])
unfolding shape
spec_kept_shape item q a = elim (Bool-cases (not (Text.is_empty q.feedback))) [
  | inl e ↦ rw e (refl, refl, refl)
  | inr e ↦ rw e (refl, refl, refl)
]

-- Whatever shape the pipeline takes, the manifest names the item's repository, text and issue.
pub spec_kept :
    (item : ClaimedItem) (namespace : Text) (q : Request)
    → let spec = (build_workload item namespace q).spec in
      (spec.repo ≡ item.repo) × (spec.intent ≡ item.intent) × (spec.issues ≡ item.issue_number ∷ [])
unfolding build_workload
spec_kept item namespace q = spec_kept_shape item q _
