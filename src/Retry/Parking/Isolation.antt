-- ===== src/Retry/Parking/Isolation.antt =====
-- bridge/retry.py: exceptions in the branches that park an issue.
use foreman_dispatch_bridge.Base.{◌≡◌, Bool, true, List}
use foreman_dispatch_bridge.Base.Text.{Text}
use foreman_dispatch_bridge.Base.Effects.{Result, returned}
use foreman_dispatch_bridge.Base.Effects.Returns.{
  Returns, Returns-pure, Returns-perform, Returns-bind, Returns-if, OnSome, Returns-given_if,
  returns_rules,
}
use foreman_dispatch_bridge.Models.{ClaimedItem, Workload, Task}
use foreman_dispatch_bridge.Retry.Hooks.{Log, Hooks, Settings, Line, asked}
use foreman_dispatch_bridge.Retry.Parking.{
  try_delete, find_id, identify, already_parked, try_park, repair_label, park_exhausted, ask_state,
  skip_closed, settle_parked, ask_declared, settle_declared, settle_demoted,
}

-- A callable that answers every call.
abbrev pub Answers {ℓ} : {A : Type 0} {B : Type ℓ} → (A → Log → Result B) → Type 0
Answers f = (a : _) (log : Log) → returned (f a log) ≡ true

module _ (hooks : Hooks) (settings : Settings) where
  pub try_delete-Returns : (name : Text) → Returns (try_delete hooks settings name)
  unfolding try_delete
  try_delete-Returns name = search returns_rules

  pub park_exhausted-Returns :
      (wl : Workload) (reason path : Text) → Returns (park_exhausted hooks settings wl reason path)
  unfolding park_exhausted
  park_exhausted-Returns wl reason path = search returns_rules

  ask_state-Returns : (wl : Workload) → Returns (ask_state hooks settings wl)
  unfolding ask_state
  ask_state-Returns wl = search returns_rules

  pub skip_closed-Returns : (wl : Workload) → Returns (skip_closed hooks settings wl)
  unfolding skip_closed
  skip_closed-Returns wl = search (returns_rules, ask_state-Returns)

  already_parked-Returns : (item : ClaimedItem) → Returns (already_parked hooks settings item)
  unfolding already_parked
  already_parked-Returns item = search returns_rules

  try_park-Returns :
      (item : ClaimedItem) (reason path : Text) → Returns (try_park hooks settings item reason path)
  unfolding try_park
  try_park-Returns item reason path = search returns_rules

  repair_label-Returns : (item : ClaimedItem) → Returns (repair_label hooks settings item)
  unfolding repair_label
  repair_label-Returns item = search returns_rules depth 8

  settle_parked-Returns :
      (item : ClaimedItem) (reason path : Text) (line : Line)
      → Returns (settle_parked hooks settings item reason path line)
  unfolding settle_parked
  settle_parked-Returns item reason path line =
      search (returns_rules, already_parked-Returns, repair_label-Returns, try_park-Returns) depth 8

  ask_declared-Returns : (wl : Workload) → Returns (ask_declared hooks settings wl)
  unfolding ask_declared
  ask_declared-Returns wl = search returns_rules depth 8

  module _ (known : OnSome Answers hooks.lookup_issue_id) where
    find_id-Returns : (item : ClaimedItem) → Returns (find_id hooks settings item)
    unfolding find_id
    find_id-Returns item =
        Returns-if _ _ _
          (Returns-given_if Answers hooks.lookup_issue_id _ _ known (Returns-pure item)
            λ lookup answers.
              Returns-bind _ _ (Returns-perform (λ r. asked item.repo) (lookup item) (answers item))
                λ found. Returns-pure _)
          (Returns-pure item)

    pub identify-Returns : (wl : Workload) → Returns (identify hooks settings wl)
    unfolding identify
    identify-Returns wl = find_id-Returns _

    pub settle_declared-Returns : (wl : Workload) → Returns (settle_declared hooks settings wl)
    unfolding settle_declared
    settle_declared-Returns wl =
        search (returns_rules, ask_declared-Returns, identify-Returns, settle_parked-Returns) depth
          8

    pub settle_demoted-Returns :
        (wl : Workload) (tasks : List Task) (is_infra : Bool)
        → Returns (settle_demoted hooks settings wl tasks is_infra)
    unfolding settle_demoted
    settle_demoted-Returns wl tasks is_infra =
        search (returns_rules, identify-Returns, settle_parked-Returns) depth 8
