-- ===== src/Retry/Parking/Frame.antt =====
-- bridge/retry.py: what the branches that park an issue keep of the log.
use foreman_dispatch_bridge.Base.{Bool, List, ◌∷◌}
use foreman_dispatch_bridge.Base.Text.{Text}
use foreman_dispatch_bridge.Base.Effects.{◌>>=◌}
use foreman_dispatch_bridge.Base.Effects.Rules.{Keeps, keeps_rules}
use foreman_dispatch_bridge.Models.{ClaimedItem, Workload, Task}
use foreman_dispatch_bridge.Retry.Hooks.{
  Call, asked, deleted, created, parked, labelled, parked_infra, escalated, Log, Hooks, Settings,
  Line,
}
use foreman_dispatch_bridge.Retry.Parking.{
  delete, try_delete, find_id, identify, ask_parked, already_parked, call_park, try_park,
  repair_label, park_unless_parked, park_exhausted, ask_state, skip_closed, settle_parked,
  ask_declared, settle_declared, settle_demoted,
}

abbrev pub NotCreated : Call → Type 0
NotCreated (created m ok) = ⊥
NotCreated _ = Unit

-- Every call but a creation keeps P.
abbrev pub Neutral : (Log → Type 0) → Type 0
Neutral P = (e : Call) (log : Log) → NotCreated e → P log → P (e ∷ log)

module _ (P : Log → Type 0) (neutral : Neutral P) where
  pub asked_keeps : (t : Text) (log : Log) → P log → P (asked t ∷ log)
  asked_keeps t log h = neutral _ log tt h

  deleted_keeps : (t : Text) (b : Bool) (log : Log) → P log → P (deleted t b ∷ log)
  deleted_keeps t b log h = neutral _ log tt h

  parked_keeps :
      (item : ClaimedItem) (path : Text) (b : Bool) (log : Log)
      → P log
      → P (parked item path b ∷ log)
  parked_keeps item path b log h = neutral _ log tt h

  labelled_keeps : (item : ClaimedItem) (b : Bool) (log : Log) → P log → P (labelled item b ∷ log)
  labelled_keeps item b log h = neutral _ log tt h

  pub parked_infra_keeps :
      (item : ClaimedItem) (b : Bool) (log : Log) → P log → P (parked_infra item b ∷ log)
  parked_infra_keeps item b log h = neutral _ log tt h

  pub escalated_keeps :
      (item : ClaimedItem) (b : Bool) (log : Log) → P log → P (escalated item b ∷ log)
  escalated_keeps item b log h = neutral _ log tt h

module _ (hooks : Hooks) (settings : Settings) (P : Log → Type 0) (neutral : Neutral P) where
  pub delete-Keeps : (name : Text) → Keeps P (delete hooks settings name)
  unfolding delete
  delete-Keeps name = search (keeps_rules, deleted_keeps P neutral)

  pub try_delete-Keeps : (name : Text) → Keeps P (try_delete hooks settings name)
  unfolding try_delete
  try_delete-Keeps name = search (keeps_rules, delete-Keeps)

  find_id-Keeps : (item : ClaimedItem) → Keeps P (find_id hooks settings item)
  unfolding find_id
  find_id-Keeps item = search (keeps_rules, asked_keeps P neutral) depth 8

  pub identify-Keeps : (wl : Workload) → Keeps P (identify hooks settings wl)
  unfolding identify
  identify-Keeps wl = find_id-Keeps _

  ask_parked-Keeps : (item : ClaimedItem) → Keeps P (ask_parked hooks settings item)
  unfolding ask_parked
  ask_parked-Keeps item = search (keeps_rules, asked_keeps P neutral)

  already_parked-Keeps : (item : ClaimedItem) → Keeps P (already_parked hooks settings item)
  unfolding already_parked
  already_parked-Keeps item = search (keeps_rules, ask_parked-Keeps)

  call_park-Keeps :
      (item : ClaimedItem) (reason path : Text)
      → Keeps P (call_park hooks settings item reason path)
  unfolding call_park
  call_park-Keeps item reason path = search (keeps_rules, parked_keeps P neutral)

  try_park-Keeps :
      (item : ClaimedItem) (reason path : Text) → Keeps P (try_park hooks settings item reason path)
  unfolding try_park
  try_park-Keeps item reason path = search (keeps_rules, call_park-Keeps)

  repair_label-Keeps : (item : ClaimedItem) → Keeps P (repair_label hooks settings item)
  unfolding repair_label
  repair_label-Keeps item = search (keeps_rules, labelled_keeps P neutral) depth 8

  park_unless_parked-Keeps :
      (wl : Workload) (reason path : Text)
      → Keeps P (park_unless_parked hooks settings wl reason path)
  unfolding park_unless_parked
  park_unless_parked-Keeps wl reason path =
      search (keeps_rules, identify-Keeps, ask_parked-Keeps, call_park-Keeps) depth 8

  pub park_exhausted-Keeps :
      (wl : Workload) (reason path : Text) → Keeps P (park_exhausted hooks settings wl reason path)
  unfolding park_exhausted
  park_exhausted-Keeps wl reason path = search (keeps_rules, park_unless_parked-Keeps) depth 8

  ask_state-Keeps : (wl : Workload) → Keeps P (ask_state hooks settings wl)
  unfolding ask_state
  ask_state-Keeps wl = search (keeps_rules, asked_keeps P neutral) depth 8

  pub skip_closed-Keeps : (wl : Workload) → Keeps P (skip_closed hooks settings wl)
  unfolding skip_closed ◌>>=◌
  skip_closed-Keeps wl = search (keeps_rules, ask_state-Keeps)

  settle_parked-Keeps :
      (item : ClaimedItem) (reason path : Text) (line : Line)
      → Keeps P (settle_parked hooks settings item reason path line)
  unfolding settle_parked
  settle_parked-Keeps item reason path line =
      search (keeps_rules, already_parked-Keeps, repair_label-Keeps, try_park-Keeps) depth 8

  ask_declared-Keeps : (wl : Workload) → Keeps P (ask_declared hooks settings wl)
  unfolding ask_declared
  ask_declared-Keeps wl = search (keeps_rules, asked_keeps P neutral) depth 8

  pub settle_declared-Keeps : (wl : Workload) → Keeps P (settle_declared hooks settings wl)
  unfolding settle_declared
  settle_declared-Keeps wl =
      search (keeps_rules, ask_declared-Keeps, identify-Keeps, settle_parked-Keeps) depth 8

  pub settle_demoted-Keeps :
      (wl : Workload) (tasks : List Task) (is_infra : Bool)
      → Keeps P (settle_demoted hooks settings wl tasks is_infra)
  unfolding settle_demoted
  settle_demoted-Keeps wl tasks is_infra =
      search (keeps_rules, identify-Keeps, settle_parked-Keeps) depth 8
