-- ===== src/PrFix/Calls.antt =====
-- bridge/prfix.py: the callables that `reconcile_pr_fixes` is given, the calls that its log records, its
-- settings, and the lines that it returns.
use foreman_dispatch_bridge.Base.{ℕ, Bool, true, false, List, ◌++◌}
use foreman_dispatch_bridge.Base.Text.{Text, codes}
use foreman_dispatch_bridge.Base.Int.{ℤ, pos}
use foreman_dispatch_bridge.Base.Dict.{Dict}
use foreman_dispatch_bridge.Base.Json.{Json, integer}
use foreman_dispatch_bridge.Base.Effects.{Result}
use foreman_dispatch_bridge.Models.{Workload}
use foreman_dispatch_bridge.PrFix.Item.{show_integer}

-- The calls; each is logged with whether it returned, a mark with whether it reported success.
pub data FixCall : Type 0 where
  asked : Text → FixCall
  marked : (repo : Text) (pr : ℤ) (outcome : Text) → Bool → FixCall
  deleted : Text → Bool → FixCall
  created : Workload → Bool → FixCall

abbrev pub FixLog : Type 0
FixLog = List FixCall

pub record FixHooks : Type 0 where
  pub list_prfix_workloads : FixLog → Result (List Workload)
  pub delete_workload : Text → FixLog → Result (Unit {0})
  pub create_workload : Workload → FixLog → Result (Unit {0})
  pub mark_pr_fix : (repo : Text) (pr : ℤ) (outcome note : Text) → FixLog → Result Bool
  pub pr_is_mergeable : (repo : Text) (pr : ℤ) → FixLog → Result Text
  pub get_pr_fix_signature : (repo : Text) (pr : ℤ) → FixLog → Result Text
  pub update_pr_branch : (repo : Text) (pr : ℤ) → FixLog → Result Bool

pub record FixSettings : Type 0 where
  pub max_attempts : ℕ
  pub progress_max_attempts : ℕ
  pub lane_agents : Dict Text
  pub agent_slots : Dict Json

-- The lines behind a Workload's name; `failing` is that the PR's checks failed.
pub data FixLine : Type 0 where
  pr_over : (name status : Text) → FixLine
  pr_over_mark_failed : (name status : Text) → FixLine
  fixed : (name : Text) → FixLine
  mark_failed : (name : Text) (n : ℤ) (cap : ℕ) → FixLine
  changes_requested : (name : Text) (n : ℤ) (cap : ℕ) → FixLine
  blocked : (name : Text) (n : ℤ) (cap : ℕ) → FixLine
  checks_pending : (name : Text) (n : ℤ) (cap : ℕ) → FixLine
  retry_deferred : (name coder : Text) → FixLine
  progress_giveup : (name : Text) (n : ℤ) (cap : ℕ) → FixLine
  retry_progress : (name : Text) (failing : Bool) (n : ℤ) (cap : ℕ) → FixLine
  retried : (name : Text) (failing : Bool) (n : ℤ) (cap : ℕ) → FixLine
  escalate_deferred : (name coder : Text) → FixLine
  escalated : (name from to : Text) → FixLine
  gave_up : (name : Text) (failing : Bool) (n : ℤ) (cap : ℕ) → FixLine
  failed : (name error : Text) → FixLine

over : ℤ → ℕ → Text
over n cap = show_integer (integer n) ++ (codes "/" ++ show_integer (integer (pos cap)))

-- The line as it is logged.
unfoldable pub render_fix : FixLine → Text
unfolding over
render_fix (pr_over name status) = name ++ (codes ":pr-" ++ status)
render_fix (pr_over_mark_failed name status) =
    name ++ (codes ":pr-" ++ (status ++ codes ":mark-failed"))
render_fix (fixed name) = name ++ codes ":fixed"
render_fix (mark_failed name n cap) = name ++ (codes ":mark-failed:" ++ over n cap)
render_fix (changes_requested name n cap) = name ++ (codes ":changes-requested:" ++ over n cap)
render_fix (blocked name n cap) = name ++ (codes ":blocked:" ++ over n cap)
render_fix (checks_pending name n cap) = name ++ (codes ":checks-pending:" ++ over n cap)
render_fix (retry_deferred name coder) = name ++ (codes ":retry-deferred:coder-busy:" ++ coder)
render_fix (progress_giveup name n cap) = name ++ (codes ":progress-giveup:" ++ over n cap)
render_fix (retry_progress name true n cap) =
    name ++ (codes ":not-mergeable-retry-progress:" ++ over n cap)
render_fix (retry_progress name false n cap) = name ++ (codes ":retry-progress:" ++ over n cap)
render_fix (retried name true n cap) = name ++ (codes ":not-mergeable-retry:" ++ over n cap)
render_fix (retried name false n cap) = name ++ (codes ":retry:" ++ over n cap)
render_fix (escalate_deferred name coder) =
    name ++ (codes ":escalate-deferred:coder-busy:" ++ coder)
render_fix (escalated name from to) = name ++ (codes ":escalate:" ++ (from ++ (codes "->" ++ to)))
render_fix (gave_up name true n cap) = name ++ (codes ":not-mergeable-giveup:" ++ over n cap)
render_fix (gave_up name false n cap) = name ++ (codes ":giveup:" ++ over n cap)
render_fix (failed name e) = name ++ (codes ":error:" ++ e)
