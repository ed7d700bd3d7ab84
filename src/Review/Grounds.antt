-- ===== src/Review/Grounds.antt =====
-- bridge/review_transition.py: what the tasks of a Workload say where its issue is moved.
use foreman_dispatch_bridge.Base.{
  ◌≡◌, refl, true, false, Option, none, some, List, [], ◌∷◌, if◌then◌else◌, All, Any, arith,
  Bool-cases, inl, inr, ◌⊎◌, ◌∙◌,
}
use foreman_dispatch_bridge.Base.Text.{Text, codes, ◌==◌, is_empty}
use foreman_dispatch_bridge.Base.Json.{Json, str, get, truthy, null, boolean, num, arr, obj}
use foreman_dispatch_bridge.Base.Effects.{Result, ok, raise}
use foreman_dispatch_bridge.Models.{Workload}
use foreman_dispatch_bridge.PrFix.Mergeable.{sha_text}
use foreman_dispatch_bridge.Review.Signals.{
  TaskResult, workload_all_already_resolved, extract_pr_url, extract_task_signal, signal_from,
  extract_already_resolved, claim_of, first_claim,
}

abbrev pub url_of : TaskResult → Json
url_of t = get (codes "pullRequestURL") t.extra

abbrev pub HasUrl : TaskResult → Type 0
HasUrl t = truthy (url_of t) ≡ true

abbrev pub HasNoUrl : TaskResult → Type 0
HasNoUrl t = truthy (url_of t) ≡ false

-- The verdict of the last task that has one.
pub last_verdict : List TaskResult → Text
last_verdict [] = []
last_verdict (t ∷ ts) = if is_empty (last_verdict ts) then t.verdict else last_verdict ts

abbrev go : Text
go = codes "GO"

module _ (repr : Json → Text) where
  -- The coder says in a task that there was nothing left to do.
  pub ClaimsResolved : TaskResult → Type 0
  ClaimsResolved t = (evidence : Text) × (claim_of repr t ≡ ok (some evidence))

  -- What the Workload and its tasks say where its issue moves to a status, for this reason.
  pub data Grounds (wl : Workload) (tasks : List TaskResult) (status reason : Text) : Type 0 where
    reviewed : status ≡ codes "in-review" → Any HasUrl tasks → Grounds wl tasks status reason
    resolved :
        status ≡ codes "done"
        → All HasNoUrl tasks
        → (workload_all_already_resolved wl ≡ true) ⊎ Any ClaimsResolved tasks
        → Grounds wl tasks status reason
    unfinished :
        status ≡ codes "blocked"
        → All HasNoUrl tasks
        → workload_all_already_resolved wl ≡ false
        → (last_verdict tasks == go) ≡ false
        → is_empty reason ≡ false
        → Grounds wl tasks status reason
    unpublished :
        status ≡ codes "backlog"
        → All HasNoUrl tasks
        → workload_all_already_resolved wl ≡ false
        → (last_verdict tasks == go) ≡ true
        → is_empty reason ≡ false
        → Grounds wl tasks status reason

  pub extract_pr_url-HasUrl :
      (tasks : List TaskResult) → is_empty (extract_pr_url repr tasks) ≡ false → Any HasUrl tasks
  unfolding extract_pr_url
  extract_pr_url-HasUrl [] h = cc
  extract_pr_url-HasUrl (t ∷ ts) h = elim (Bool-cases (truthy (url_of t))) [
    | inl e ↦ inl e
    | inr e ↦ inr (extract_pr_url-HasUrl ts (ground arith))
  ]

  -- Python's `str` of a value that counts as true is not empty.
  unfoldable pub Shows : Type 0
  Shows = (v : Json) → is_empty (repr v) ≡ false

  sha_text-nonempty : Shows → (v : Json) → truthy v ≡ true → is_empty (sha_text repr v) ≡ false
  unfolding Shows
  sha_text-nonempty shows null h = cc
  sha_text-nonempty shows (boolean b) h = shows _
  sha_text-nonempty shows (num n) h = shows _
  sha_text-nonempty shows (str []) h = cc
  sha_text-nonempty shows (str (c ∷ s)) h = refl
  sha_text-nonempty shows (arr js) h = shows _
  sha_text-nonempty shows (obj fs) h = shows _

  pub extract_pr_url-HasNoUrl :
      Shows
      → (tasks : List TaskResult) → is_empty (extract_pr_url repr tasks) ≡ true
      → All HasNoUrl tasks
  unfolding extract_pr_url
  extract_pr_url-HasNoUrl shows [] h = tt
  extract_pr_url-HasNoUrl shows (t ∷ ts) h = elim (Bool-cases (truthy (url_of t))) [
    | inl e ↦ absurd (ground (arith, sha_text-nonempty shows (url_of t) e))
    | inr e ↦ (e, extract_pr_url-HasNoUrl shows ts (ground arith))
  ]

  pub extract_already_resolved-ClaimsResolved :
      (tasks : List TaskResult) (evidence : Text)
      → extract_already_resolved repr tasks ≡ ok (some evidence)
      → Any ClaimsResolved tasks
  unfolding extract_already_resolved ClaimsResolved
  extract_already_resolved-ClaimsResolved [] evidence h = cc
  extract_already_resolved-ClaimsResolved (t ∷ ts) evidence h =
      by_claim (claim_of repr t) refl h (extract_already_resolved-ClaimsResolved ts evidence)
    where
      by_claim :
          (c : Result (Option Text))
          → claim_of repr t ≡ c
          → first_claim repr c (extract_already_resolved repr ts) ≡ ok (some evidence)
          → (extract_already_resolved repr ts ≡ ok (some evidence) → Any ClaimsResolved ts)
          → Any ClaimsResolved (t ∷ ts)
      by_claim (raise e) k h' ih = cc
      by_claim (ok none) k h' ih = inr (ih h')
      by_claim (ok (some v)) k h' ih = inl (v, k)

last_or : (v : Text) → (if is_empty v then [] else v) ≡ v
last_or [] = refl
last_or (c ∷ s) = refl

signal_from-verdict :
    (s : TaskResult) (tasks : List TaskResult)
    → (signal_from s tasks).verdict
      ≡ (if is_empty (last_verdict tasks) then s.verdict else last_verdict tasks)
unfolding signal_from last_verdict
signal_from-verdict s [] = refl
signal_from-verdict s (t ∷ ts) = ground (arith, signal_from-verdict s ts, signal_from-verdict t ts)

pub extract_task_signal-last_verdict :
    (tasks : List TaskResult) → (extract_task_signal tasks).verdict ≡ last_verdict tasks
unfolding extract_task_signal
extract_task_signal-last_verdict tasks = signal_from-verdict _ tasks ∙ last_or (last_verdict tasks)
