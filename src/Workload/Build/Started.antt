-- ===== src/Workload/Build/Started.antt =====
-- The coder that a Workload keeps busy, as its manifest says, and the counters of the Workloads that each
-- coder holds.
use foreman_dispatch_bridge.Base.{
  ℕ, ◌≡◌, ◌≤◌, ◌<◌, ◌+◌, refl, Bool, false, Option, none, some, List, [], ◌∷◌, if◌then◌else◌, arith,
  Bool-cases, inl, inr,
}
use foreman_dispatch_bridge.Base.Text
use foreman_dispatch_bridge.Base.Text.{Text, ◌==◌, eq_iff, eq_refl}
use foreman_dispatch_bridge.Base.Dict.{Dict, lookup-insert}
use foreman_dispatch_bridge.Base.Json.{Json}
use foreman_dispatch_bridge.Models.{ClaimedItem, Step, Workload}
use foreman_dispatch_bridge.Workload.Capacity.{bump, load_of, slots_for}
use foreman_dispatch_bridge.Workload.Build.{
  issue_fix, code_step, pipeline_steps, shape, build_spec, Request, build_workload,
}

-- The agent of the first step that codes.
abbrev pub code_agent : List Step → Option Text
code_agent [] = none
code_agent (step ∷ steps) = if step.kind == issue_fix then step.agent_ref else code_agent steps

-- The Workload's coder, which a Workload that is only a pipeline names on a step.
abbrev pub coder_at_work : Workload → Option Text
coder_at_work wl = named wl.spec.coder_agent_ref
  where
    named : Option Text → Option Text
    named (some coder) = some coder
    named none = code_agent wl.spec.pipeline

abbrev is_coder : Text → Option Text → Bool
is_coder coder none = false
is_coder coder (some agent) = agent == coder

-- One more where the Workload is this coder's.
abbrev pub count_started : Text → Workload → ℕ → ℕ
count_started coder wl n = if is_coder coder (coder_at_work wl) then n + 1 else n

pub build_workload-coder :
    (item : ClaimedItem) (namespace : Text) (q : Request)
    → coder_at_work (build_workload item namespace q) ≡ some q.coder_agent
unfolding build_workload build_spec shape pipeline_steps code_step
build_workload-coder item namespace q = elim (Bool-cases (Text.is_empty q.feedback)) [
  | inl e ↦ rw e refl
  | inr e ↦ rw (e, eq_refl issue_fix) refl
]

-- A counter is its value at the start and the Workloads started since, and no coder has more than its slots.
pub record Accounted (slots : Dict Json) (start load : Dict ℕ) (started : Text → ℕ) : Type 0 where
  pub is_count : (coder : Text) → load_of coder load ≡ load_of coder start + started coder
  pub is_within : (coder : Text) → load_of coder start + started coder ≤ slots_for coder slots

-- A Workload of a coder with a free slot is started and counted.
pub bump-Accounted :
    (slots : Dict Json) (start load : Dict ℕ) (started : Text → ℕ) (wl : Workload) (coder : Text)
    → coder_at_work wl ≡ some coder
    → load_of coder load < slots_for coder slots
    → Accounted slots start load started
    → Accounted slots start (bump coder load) (λ other. count_started other wl (started other))
unfolding bump
bump-Accounted slots start load started wl coder e room h = record {
  is_count = λ other. rw e (
      ground (
        arith,
        lookup-insert coder other (load_of coder load + 1) load,
        eq_iff coder other,
        eq_iff other coder,
        h.is_count other,
      ));
  is_within =
      λ other. rw e (ground (arith, eq_iff coder other, h.is_count other, h.is_within other, room));
}
