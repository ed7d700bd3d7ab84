-- ===== src/PrFix/Manifest/Kept.antt =====
-- What is read back from the manifests that fix pull requests, and what a retry or an escalation keeps.
use foreman_dispatch_bridge.Base.{
  ℕ, ◌≡◌, ◌≤◌, refl, sym, ◌≢◌, ◌⊎◌, true, false, some, List, [], ◌∷◌, map, arith, Bool-cases, inl,
  inr, Any, All, ◌∙◌,
}
use mathlib.Core.Bool.{true≢false}
use foreman_dispatch_bridge.Base.Text.{Text, ◌==◌}
use foreman_dispatch_bridge.Base.Int.{ℤ, pos}
use foreman_dispatch_bridge.Base.Dict.{Dict, lookup, insert, lookup-insert, lookup-insert_self}
use foreman_dispatch_bridge.Base.Decimal.{show_nat}
use foreman_dispatch_bridge.Base.Decimal.RoundTrip.{IsDigit, show_nat-IsDigit, show_nat-ne-nil}
use foreman_dispatch_bridge.Base.Decimal.Unicode.{
  read_digits, all_unicode_digits, read_digits-show_nat,
}
use foreman_dispatch_bridge.Base.Effects.{ok}
use foreman_dispatch_bridge.Base.Json.{integer}
use foreman_dispatch_bridge.Models.{Step, Workload}
use foreman_dispatch_bridge.Workload.Config.{attempt_annotation, signature_annotation}
use foreman_dispatch_bridge.Workload.Build.{issue_fix, lane_label}
use foreman_dispatch_bridge.Retry.Manifest.{attempt_of}
use foreman_dispatch_bridge.Retry.Manifest.RoundTrip.{counter_of_print}
use foreman_dispatch_bridge.PrFix.Item.{PrFixItem, show_integer}
use foreman_dispatch_bridge.PrFix.Manifest.{
  FixRequest, prfix_repo_annotation, prfix_pr_annotation, build_fix_workload, with_signature,
  rebuild_prfix_manifest, pr_number, prfix_key, coder_of_steps, prfix_current_coder, with_coder,
  escalate_prfix_manifest,
}

-- Another key than the signature's is read as if no signature had been written.
lookup-with_signature :
    (k signature : Text) (d : Dict Text)
    → (k == signature_annotation) ≡ false
    → lookup k (with_signature signature d) ≡ lookup k d
unfolding with_signature
lookup-with_signature k [] d h = refl
lookup-with_signature k (c ∷ s) d h = rw (lookup-insert signature_annotation k (c ∷ s) d, h) refl

lookup-rebuild :
    (wl : Workload) (k signature : Text) (attempt : ℤ)
    → (k == signature_annotation) ≡ false
    → (k == attempt_annotation) ≡ false
    → lookup k (rebuild_prfix_manifest wl attempt signature).annotations ≡ lookup k wl.annotations
unfolding rebuild_prfix_manifest
lookup-rebuild wl k signature attempt h g =
    lookup-with_signature k signature _ h
    ∙ rw (lookup-insert attempt_annotation k (show_integer (integer attempt)) wl.annotations, g)
        refl

attempt_of-rebuild :
    (wl : Workload) (attempt : ℕ) (signature : Text)
    → 1 ≤ attempt
    → attempt_of (rebuild_prfix_manifest wl (pos attempt) signature) ≡ attempt
unfolding attempt_of rebuild_prfix_manifest show_integer ◌==◌ attempt_annotation
    signature_annotation
attempt_of-rebuild wl attempt signature h =
    rw
      (lookup-with_signature attempt_annotation signature _ refl
        ∙ lookup-insert_self attempt_annotation (show_nat attempt) wl.annotations)
      (counter_of_print attempt h)

pub prfix_key-rebuild :
    (wl : Workload) (attempt : ℤ) (signature : Text)
    → prfix_key (rebuild_prfix_manifest wl attempt signature) ≡ prfix_key wl
unfolding prfix_key ◌==◌ attempt_annotation signature_annotation prfix_repo_annotation
    prfix_pr_annotation
prfix_key-rebuild wl attempt signature =
    rw
      (
        lookup-rebuild wl prfix_repo_annotation signature attempt refl refl,
        lookup-rebuild wl prfix_pr_annotation signature attempt refl refl,
      )
      refl

-- The manifest of a retry has the attempt that it is asked for, where this is at least 1, and keeps the
-- Workload's name, its pipeline and the pull request that it is for.
pub rebuild_prfix_manifest_keeps :
    (wl : Workload) (attempt : ℕ) (signature : Text)
    → 1 ≤ attempt
    → let m = rebuild_prfix_manifest wl (pos attempt) signature in
      (attempt_of m ≡ attempt)
      × (prfix_key m ≡ prfix_key wl)
      × (m.name ≡ wl.name)
      × (m.spec ≡ wl.spec)
unfolding rebuild_prfix_manifest
rebuild_prfix_manifest_keeps wl attempt signature h = (
  attempt_of-rebuild wl attempt signature h,
  prfix_key-rebuild wl (pos attempt) signature,
  refl,
  refl,
)

-- Some step is the one that codes.
abbrev pub HasCodeStep : List Step → Type 0
HasCodeStep steps = Any (λ step. (step.kind == issue_fix) ≡ true) steps

with_coder-kind : (coder : Text) (step : Step) → (with_coder coder step).kind ≡ step.kind
unfolding with_coder
with_coder-kind coder step = ground arith

coder_of_steps-with_coder :
    (coder : Text) (steps : List Step)
    → HasCodeStep steps
    → coder_of_steps (map (with_coder coder) steps) ≡ some coder
unfolding coder_of_steps with_coder
coder_of_steps-with_coder coder [] h = elim h [ ]
coder_of_steps-with_coder coder (step ∷ steps) h = elim (Bool-cases (step.kind == issue_fix)) [
  | inl e ↦ rw e (rw e refl)
  | inr e ↦ rw e (rw e (coder_of_steps-with_coder coder steps (later e h)))
]
  where
    later :
        (step.kind == issue_fix) ≡ false
        → ((step.kind == issue_fix) ≡ true) ⊎ HasCodeStep steps
        → HasCodeStep steps
    later e (inl e') = absurd (true≢false (sym e' ∙ e))
    later e (inr k) = k

-- An escalation puts the stronger coder on the step that codes, gives it a fresh budget, moves the lane's
-- label, and keeps the Workload's name and the pull request that it is for, where the pipeline has a step
-- that codes.
pub escalate_prfix_manifest_lem :
    (wl : Workload) (next_lane next_coder signature : Text)
    → HasCodeStep wl.spec.pipeline
    → let m = escalate_prfix_manifest wl next_lane next_coder signature in
      (prfix_current_coder m ≡ some next_coder)
      × (attempt_of m ≡ 1)
      × (lookup lane_label m.labels ≡ some next_lane)
      × (prfix_key m ≡ prfix_key wl)
      × (m.name ≡ wl.name)
unfolding escalate_prfix_manifest prfix_current_coder rebuild_prfix_manifest insert attempt_of
    prfix_key
escalate_prfix_manifest_lem wl next_lane next_coder signature h = (
  coder_of_steps-with_coder next_coder wl.spec.pipeline h,
  attempt_of-rebuild wl 1 signature (omega arith),
  lookup-insert_self lane_label next_lane wl.labels,
  prfix_key-rebuild wl (pos 1) signature,
  refl,
)

pr_number-show_nat : (n : ℕ) → pr_number (some (show_nat n)) ≡ ok (some (pos n))
unfolding pr_number
pr_number-show_nat n =
    number_of (show_nat n) n (show_nat-ne-nil n) (show_nat-IsDigit n) (read_digits-show_nat n)
  where
    number_of :
        (t : Text) (n : ℕ)
        → t ≢ []
        → All IsDigit t
        → read_digits t ≡ some n
        → pr_number (some t) ≡ ok (some (pos n))
    number_of [] n h d e = absurd (h refl)
    number_of (c ∷ t) n h d e = rw (all_unicode_digits (c ∷ t) d, e) refl

-- The repository and the number that a later tick reads from a fix Workload are those of its item.
pub prfix_key-build_fix_workload :
    (item : PrFixItem) (namespace : Text) (q : FixRequest) (n : ℕ)
    → item.pr ≡ integer (pos n)
    → prfix_key (build_fix_workload item namespace q) ≡ ok (some item.repo, some (pos n))
unfolding prfix_key build_fix_workload lookup ◌==◌ attempt_annotation prfix_repo_annotation
    prfix_pr_annotation show_integer
prfix_key-build_fix_workload item namespace q n e = rw (e, pr_number-show_nat n) refl
