-- ===== src/PrFix/Settle.antt =====
-- bridge/prfix.py: `reconcile_pr_fixes`, the phases of the body of its loop.
use foreman_dispatch_bridge.Base.{
  ℕ, zero, suc, ◌+◌, Bool, true, false, ◌&&◌, ◌||◌, not, Option, none, some, List, [], ◌∷◌, ◌++◌,
  if◌then◌else◌, given, is_empty, or_default,
}
use foreman_dispatch_bridge.Base.Text
use foreman_dispatch_bridge.Base.Text.{Text, codes, ◌==◌, mem_text}
use foreman_dispatch_bridge.Base.Int.{ℤ, pos, negsuc, leb_ℤ}
use foreman_dispatch_bridge.Base.Dict.{Dict, lookup, insert}
use foreman_dispatch_bridge.Base.Decimal.{parse_int}
use foreman_dispatch_bridge.Base.Json.{Json, integer}
use foreman_dispatch_bridge.Base.Effects.{
  Result, ok, raise, returned, recover, M, pure, ◌>>=◌, perform, attempt, for_each,
}
use foreman_dispatch_bridge.Models.{Workload}
use foreman_dispatch_bridge.Workload.Config.{
  attempt_annotation, signature_annotation, progress_annotation,
}
use foreman_dispatch_bridge.Workload.Capacity.{bump, is_full}
use foreman_dispatch_bridge.Workload.Build.{lane_label}
use foreman_dispatch_bridge.PrFix.Calls.{
  FixCall, asked, marked, deleted, created, FixLog, FixHooks, FixSettings, FixLine, pr_over,
  pr_over_mark_failed, fixed, mark_failed, changes_requested, blocked, checks_pending,
  retry_deferred, progress_giveup, retry_progress, retried, escalate_deferred, escalated, gave_up,
  failed,
}
use foreman_dispatch_bridge.PrFix.Item.{show_integer, pr_fix_coder_for}
use foreman_dispatch_bridge.PrFix.Manifest.{
  prfix_key, next_prfix_lane, prfix_current_coder, rebuild_prfix_manifest, escalate_prfix_manifest,
}
pub mod Turn

pub record Settled : Type 0 where
  pub results : List FixLine
  pub load : Dict ℕ

abbrev pub FixAct : Type 0 → Type 0
FixAct = M {0} FixCall

abbrev pub told : Settled → FixLine → Settled
told s line = record s { results = s.results ++ (line ∷ []) }

-- `repo and pr is not None`
abbrev pub keyed : Option Text × Option ℤ → Option (Text × ℤ)
keyed (some (c ∷ repo), some pr) = some ((c ∷ repo), pr)
keyed _ = none

abbrev pub suc_ℤ : ℤ → ℤ
suc_ℤ (pos n) = pos (suc n)
suc_ℤ (negsuc zero) = pos 0
suc_ℤ (negsuc (suc n)) = negsuc n

-- `int(raw)`, with a text that it cannot read as an exception, in plain quotes.
abbrev int_or_raise : Text → Result ℤ
int_or_raise raw = elim (parse_int raw) [
  | none ↦ raise (codes "invalid literal for int() with base 10: '" ++ (raw ++ codes "'"))
  | some n ↦ ok n
]

abbrev or_text : Text → Option Text → Text
or_text d none = d
or_text d (some []) = d
or_text d (some (c ∷ s)) = c ∷ s

unfoldable pub fix_attempt : Workload → Result ℤ
fix_attempt wl = int_or_raise (or_text (codes "1") (lookup attempt_annotation wl.annotations))

-- The progress counter, 0 where it cannot be read.
unfoldable pub fix_progress : Workload → ℤ
fix_progress wl =
    recover (pos 0) (int_or_raise (or_text (codes "0") (lookup progress_annotation wl.annotations)))

abbrev pub fix_name : Workload → Text
fix_name wl = or_text (codes "?") (some wl.name)

unfoldable pub is_terminal : Text → Bool
is_terminal phase = mem_text phase (codes "Succeeded" ∷ codes "Completed" ∷ codes "Failed" ∷ [])

module _ (hooks : FixHooks) (settings : FixSettings) where
  -- `attempt < max_attempts`
  unfoldable pub has_budget : ℤ → Bool
  has_budget n = not (leb_ℤ (pos settings.max_attempts) n)

  unfoldable pub lift : {A : Type 0} → Result A → FixAct A
  lift r log = (r, log)

  unfoldable pub delete : Text → FixAct (Unit {0})
  unfolding perform
  delete name = perform (λ r. deleted name (returned r)) (hooks.delete_workload name)

  unfoldable pub create : Workload → FixAct (Unit {0})
  unfolding perform
  create m = perform (λ r. created m (returned r)) (hooks.create_workload m)

  unfoldable pub mark : Text × ℤ → (outcome note : Text) → FixAct Bool
  unfolding perform
  mark key outcome note =
      perform (λ r. marked key.0 key.1 outcome (recover false r))
        (hooks.mark_pr_fix key.0 key.1 outcome note)

  unfoldable pub probe : Option (Text × ℤ) → FixAct Text
  unfolding perform
  probe key =
      given key (pure (codes "ok")) λ k. perform (λ r. asked k.0) (hooks.pr_is_mergeable k.0 k.1)

  -- The update of a conflicting branch, and the second look at the PR.
  unfoldable pub offer_update : Option (Text × ℤ) → Text → FixAct Text
  unfolding perform attempt ◌>>=◌ probe
  offer_update key status = given key (pure status) λ k.
      if mem_text status (codes "dirty" ∷ codes "conflicting" ∷ [])
      then (attempt (perform (λ r. asked k.0) (hooks.update_pr_branch k.0 k.1)) >>= λ updated.
          if recover false updated then probe key else pure status)
      else pure status

  unfoldable pub settle_over : Settled → Text → Text → Text × ℤ → FixAct Settled
  unfolding mark delete ◌>>=◌
  settle_over s name status key = do
    resolved ←
        mark key (if status == codes "merged" then codes "FIXED" else codes "STALE")
          (codes "PR is " ++ (status ++ codes "; nothing left to fix"))
    if resolved
        then (delete name >>= λ _. pure (told s (pr_over name status)))
        else pure (told s (pr_over_mark_failed name status))

  unfoldable pub settle_fixed : Settled → Text → ℤ → Text × ℤ → FixAct Settled
  unfolding mark delete ◌>>=◌
  settle_fixed s name n key = do
    resolved ←
        mark key (codes "FIXED") (codes "foreman fix Workload " ++ (name ++ codes " succeeded"))
    if resolved
        then (delete name >>= λ _. pure (told s (fixed name)))
        else pure (told s (mark_failed name n settings.max_attempts))

  -- A Workload without a coder counts on no coder.
  unfoldable pub bump_coder : Option Text → Dict ℕ → Dict ℕ
  bump_coder none load = load
  bump_coder (some coder) load = bump coder load

  unfoldable pub lacks_slot : Text → Dict ℕ → Bool
  lacks_slot coder load =
      not (is_empty settings.agent_slots) && is_full coder load settings.agent_slots

  -- The deletion of a Workload and the creation of its successor.
  unfoldable pub replace_with : Text → Workload → FixAct (Unit {0})
  unfolding delete create ◌>>=◌
  replace_with name m = delete name >>= λ _. create m

  unfoldable pub fetch_signature : Option (Text × ℤ) → FixAct Text
  unfolding perform attempt ◌>>=◌
  fetch_signature key = given key (pure []) λ k.
      attempt (perform (λ r. asked k.0) (hooks.get_pr_fix_signature k.0 k.1)) >>= λ r.
      pure (recover [] r)

  abbrev pub checks_failed : Text → Bool
  checks_failed status = status == codes "checks_failed"

  unfoldable pub progress_manifest : Workload → Text → ℤ → Workload
  progress_manifest wl signature n =
      let m = rebuild_prfix_manifest wl (pos 1) signature in
      record m { annotations = insert progress_annotation (show_integer (integer n)) m.annotations }

  -- Another failure than the last one: a fresh attempt, on the budget of progressing retries.
  unfoldable pub retry_progressing :
      Settled → Workload → Text → Option (Text × ℤ) → Text → FixAct Settled
  unfolding mark replace_with delete progress_manifest bump_coder ◌>>=◌
  retry_progressing s wl status key signature =
      let n = suc_ℤ (fix_progress wl) in
      let cap = settings.progress_max_attempts in
      if leb_ℤ n (pos cap)
      then (replace_with (fix_name wl) (progress_manifest wl signature n) >>= λ _. pure (
          told (record s { load = bump_coder (prfix_current_coder wl) s.load })
            (retry_progress (fix_name wl) (checks_failed status) n cap)))
      else (given key (pure false) (λ k. mark k (codes "BLOCKED") (
            codes "foreman fix exhausted "
            ++ (show_integer (integer n)
                ++ (codes "/"
                    ++ (show_integer (integer (pos cap))
                        ++ (codes " progressing retries; last surface: "
                            ++ (signature ++ (codes " (" ++ (fix_name wl ++ codes ")")))))))))
          >>= λ _.
              delete (fix_name wl) >>= λ _. pure (told s (progress_giveup (fix_name wl) n cap)))

  unfoldable pub retry_same : Settled → Workload → Text → ℤ → Text → FixAct Settled
  unfolding replace_with bump_coder ◌>>=◌
  retry_same s wl status n signature =
      replace_with (fix_name wl) (rebuild_prfix_manifest wl (suc_ℤ n) signature) >>= λ _. pure (
        told (record s { load = bump_coder (prfix_current_coder wl) s.load })
          (retried (fix_name wl) (checks_failed status) (suc_ℤ n) settings.max_attempts))

  -- `retry_coder and free_slots(retry_coder, ...) <= 0`
  unfoldable pub retry_lacks_slot : Workload → Dict ℕ → Bool
  unfolding lacks_slot
  retry_lacks_slot wl load = lacks_named (prfix_current_coder wl)
    where
      lacks_named : Option Text → Bool
      lacks_named none = false
      lacks_named (some []) = false
      lacks_named (some (c ∷ coder)) = lacks_slot (c ∷ coder) load

  unfoldable pub has_progressed : Workload → Text → Bool
  has_progressed wl signature =
      let before = or_default (lookup signature_annotation wl.annotations) [] in
      not (Text.is_empty before) && (not (Text.is_empty signature) && not (before == signature))

  unfoldable pub retry_fix : Settled → Workload → Text → Option (Text × ℤ) → ℤ → FixAct Settled
  unfolding retry_progressing retry_same retry_lacks_slot has_progressed fetch_signature ◌>>=◌
  retry_fix s wl status key n =
      if retry_lacks_slot wl s.load
      then pure (told s (retry_deferred (fix_name wl) (or_default (prfix_current_coder wl) [])))
      else (fetch_signature key >>= λ signature.
          if has_progressed wl signature
          then retry_progressing s wl status key signature
          else retry_same s wl status n signature)
