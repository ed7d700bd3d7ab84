-- ===== src/Prune.antt =====
-- bridge/prune.py: the Workloads that are deleted once they are terminal for long enough. Moments are
-- microseconds. A TTL of 0 stands for each that is not positive.
use foreman_dispatch_bridge.Base.{
  ℕ, ◌+◌, ◌*◌, Bool, true, false, ◌&&◌, ◌||◌, not, Option, none, some, List, [], ◌∷◌, ◌++◌, leb,
  nat_eq, if◌then◌else◌, given, or_default, is_empty,
}
use foreman_dispatch_bridge.Base.Text
use foreman_dispatch_bridge.Base.Text.{Text, codes, ◌==◌}
use foreman_dispatch_bridge.Base.Dict.{Dict, lookup, insert}
use foreman_dispatch_bridge.Base.Effects.{
  Result, ok, raise, returned, M, pure, ◌>>=◌, ◌>>◌, perform, attempt, for_each,
}
use foreman_dispatch_bridge.Models.{Workload}
pub mod Pass
pub mod Stamp

unfoldable pub completed_phase : Text
completed_phase = codes "Completed"

unfoldable pub failed_phase : Text
failed_phase = codes "Failed"

unfoldable pub fallback_annotation : Text
fallback_annotation = codes "foreman.llmkube.dev/terminal-since"

-- `terminal_since_key`
unfoldable pub terminal_since_key : Text → Text
terminal_since_key phase = codes "foreman.llmkube.dev/terminal-since-" ++ phase

-- What `datetime.fromisoformat` makes of a text, if it does not raise: a moment, or a time without a
-- zone, which cannot be subtracted from one.
pub data Moment : Type 0 where
  aware : ℕ → Moment
  naive : Moment

-- A Workload with its metadata.creationTimestamp; a missing one is empty.
pub record Stamped : Type 0 where
  pub workload : Workload
  pub creation_timestamp : Text

-- `ts.replace("Z", "+00:00")`
unfoldable pub with_offset : Text → Text
with_offset [] = []
with_offset (c ∷ s) = (if nat_eq c b'Z' then codes "+00:00" else c ∷ []) ++ with_offset s

unfoldable pub is_terminal_phase : Text → Bool
unfolding completed_phase failed_phase
is_terminal_phase phase = phase == completed_phase || phase == failed_phase

abbrev pub first_of {ℓ} : {A : Type ℓ} → Option A → Option A → Option A
first_of none b = b
first_of (some a) b = some a

module _ (fromisoformat : Text → Option Moment) where
  -- `_parse_ts`
  unfoldable pub parse_ts : Text → Option Moment
  unfolding with_offset
  parse_ts [] = none
  parse_ts (c ∷ s) = fromisoformat (with_offset (c ∷ s))

  abbrev parse_annotation : Option Text → Option Moment
  parse_annotation none = none
  parse_annotation (some t) = parse_ts t

  -- `terminal_since`
  unfoldable pub terminal_since : Stamped → Option Moment
  unfolding parse_ts is_terminal_phase terminal_since_key fallback_annotation
  terminal_since s =
      let annotations = s.workload.annotations in
      let phase = s.workload.phase in
      let created = parse_ts s.creation_timestamp in
      if is_terminal_phase phase
      then first_of (parse_annotation (lookup (terminal_since_key phase) annotations))
          (first_of (parse_annotation (lookup fallback_annotation annotations)) created)
      else created

  -- `stamp_terminal_since` at a moment: the Workload after it, and the stamp.
  unfoldable pub stamp_terminal_since :
      (strftime : ℕ → Text) → ℕ → Workload → Workload × Option Text
  unfolding is_terminal_phase terminal_since_key parse_ts
  stamp_terminal_since strftime now wl =
      let key = terminal_since_key wl.phase in
      let existing = lookup key wl.annotations in
      let stamped : Workload × Option Text = (
        record wl { annotations = insert key (strftime now) wl.annotations },
        some (strftime now),
      ) in
      if is_terminal_phase wl.phase
      then (given (parse_annotation existing) stamped λ moment. (wl, existing))
      else (wl, none)

  module _ (completed_ttl failed_ttl : ℕ) where
    -- `ttl_for.get(phase, 0)`
    unfoldable pub ttl_for : Text → ℕ
    unfolding completed_phase failed_phase
    ttl_for phase =
        if phase == completed_phase
        then completed_ttl
        else if phase == failed_phase
        then failed_ttl
        else 0

    abbrev second : ℕ
    second = 1000000

    -- `(now - since).total_seconds() >= ttl`; `none` is the TypeError.
    abbrev is_older : (now ttl : ℕ) → Moment → Option Bool
    is_older now ttl (aware since) = some (leb (since + ttl * second) now)
    is_older now ttl naive = none

    -- Whether a Workload's age exceeds the TTL of its phase.
    unfoldable pub is_due : (now : ℕ) → Stamped → Option Bool
    unfolding ttl_for terminal_since
    is_due now s =
        if leb (ttl_for s.workload.phase) 0
        then some false
        else given (terminal_since s) (some false) (is_older now (ttl_for s.workload.phase))

    abbrev add_if : Bool → Stamped → List (Text × Text) → List (Text × Text)
    add_if due s rest =
        if due && not (Text.is_empty s.workload.name)
        then (s.workload.name, s.workload.phase) ∷ rest
        else rest

    -- `prunable_workloads`
    unfoldable pub prunable_workloads : (now : ℕ) → List Stamped → Option (List (Text × Text))
    unfolding is_due
    prunable_workloads now [] = some []
    prunable_workloads now (s ∷ ss) =
        let rest = prunable_workloads now ss in
        given (is_due now s) none λ due. given rest none λ names. some (add_if due s names)

abbrev label_is : Option Text → Text → Bool
label_is none t = false
label_is (some s) t = s == t

-- `_is_issue_workload`
unfoldable pub is_issue_workload : Workload → Bool
is_issue_workload wl = label_is (lookup (codes "created-by") wl.labels) (codes "dispatch-bridge")

-- `_has_identity`
unfoldable pub has_identity : Workload → Bool
has_identity wl = not (Text.is_empty wl.spec.repo) && not (is_empty wl.spec.issues)
