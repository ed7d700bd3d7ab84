-- ===== src/PrFix/Settle/Turn/Guarded.antt =====
-- bridge/prfix.py: what `reconcile_pr_fixes` deletes and creates.
use foreman_dispatch_bridge.Base.{
  ℕ, ◌≡◌, refl, Bool, true, Option, List, [], ◌∷◌, All, Any, Bool-cases, inl, inr,
}
use foreman_dispatch_bridge.Base.Text.{Text, ◌==◌}
use foreman_dispatch_bridge.Base.Int.{ℤ, pos}
use foreman_dispatch_bridge.Base.Dict.{Dict, lookup-insert}
use foreman_dispatch_bridge.Base.Json.{integer}
use foreman_dispatch_bridge.Base.Effects.{
  Result, ok, raise, returned, recover, pure, ◌>>=◌, perform, attempt, continue, for_each,
}
use foreman_dispatch_bridge.Base.Effects.Rules.{Outcome, for_each_lem, Keeps, keeps_rules}
use foreman_dispatch_bridge.Models.{Workload}
use foreman_dispatch_bridge.Workload.Config.{progress_annotation}
use foreman_dispatch_bridge.Retry.Pass.Recreation.{All-OneOf}
use foreman_dispatch_bridge.PrFix.Item.{show_integer}
use foreman_dispatch_bridge.PrFix.Manifest.{
  prfix_key, prfix_repo_annotation, prfix_pr_annotation, rebuild_prfix_manifest,
  escalate_prfix_manifest,
}
use foreman_dispatch_bridge.PrFix.Manifest.Kept.{prfix_key-rebuild}
use foreman_dispatch_bridge.PrFix.Calls.{
  asked, marked, deleted, created, FixLog, FixHooks, FixSettings,
}
use foreman_dispatch_bridge.PrFix.Settle.{
  Settled, is_terminal, settle_over, settle_fixed, retry_progressing, retry_same, retry_fix,
  fix_name, keyed, lift, offer_update, probe, delete, create, mark, replace_with, fetch_signature,
  progress_manifest,
}
use foreman_dispatch_bridge.PrFix.Settle.Turn.{
  escalate_fix, block_fix, settle_spent, settle_open, settle_known, settle_terminal, after_turn,
  reconcile_fix, reconcile_pr_fixes,
}

-- A Workload under the same name, for the same pull request.
abbrev pub Succeeds : Workload → Workload → Type 0
Succeeds wl m = (m.name ≡ wl.name) × (prfix_key m ≡ prfix_key wl)

-- The call before the creation of `m` is a deletion, that returned, of one of the Workloads, in a
-- terminal phase, which `m` succeeds.
abbrev pub Replaces : List Workload → Workload → FixLog → Type 0
Replaces wls m (deleted name true ∷ log) =
    (wl : Workload) × Any (λ w. w ≡ wl) wls
    × (is_terminal wl.phase ≡ true)
    × (fix_name wl ≡ name)
    × Succeeds wl m
Replaces wls m _ = ⊥

abbrev pub AllReplace : List Workload → FixLog → Type 0
AllReplace wls [] = Unit
AllReplace wls (created m b ∷ log) = Replaces wls m log × AllReplace wls log
AllReplace wls (_ ∷ log) = AllReplace wls log

progress_manifest-Succeeds :
    (hooks : FixHooks) (settings : FixSettings) (wl : Workload) (signature : Text) (n : ℤ)
    → Succeeds wl (progress_manifest hooks settings wl signature n)
unfolding progress_manifest prfix_key rebuild_prfix_manifest ◌==◌ prfix_repo_annotation
    prfix_pr_annotation progress_annotation
progress_manifest-Succeeds hooks settings wl signature n = (
  refl,
  rw
      (
        lookup-insert progress_annotation prfix_repo_annotation (show_integer (integer n)) _,
        lookup-insert progress_annotation prfix_pr_annotation (show_integer (integer n)) _,
      )
      (prfix_key-rebuild wl (pos 1) signature),
)

rebuild-Succeeds :
    (wl : Workload) (n : ℤ) (signature : Text) → Succeeds wl (rebuild_prfix_manifest wl n signature)
unfolding rebuild_prfix_manifest
rebuild-Succeeds wl n signature = (refl, prfix_key-rebuild wl n signature)

escalate-Succeeds :
    (wl : Workload) (lane coder signature : Text)
    → Succeeds wl (escalate_prfix_manifest wl lane coder signature)
unfolding escalate_prfix_manifest rebuild_prfix_manifest prfix_key
escalate-Succeeds wl lane coder signature = (refl, prfix_key-rebuild wl (pos 1) signature)

module _ (hooks : FixHooks) (settings : FixSettings) (wls : List Workload) (wl : Workload)
    (member : Any (λ w. w ≡ wl) wls) (terminal : is_terminal wl.phase ≡ true) where
  P : FixLog → Type 0
  P log = AllReplace wls log

  asked_keeps : (t : Text) (log : FixLog) → P log → P (asked t ∷ log)
  unfolding P
  asked_keeps t log h = h

  marked_keeps :
      (repo : Text) (pr : ℤ) (outcome : Text) (b : Bool) (log : FixLog)
      → P log
      → P (marked repo pr outcome b ∷ log)
  unfolding P
  marked_keeps repo pr outcome b log h = h

  deleted_keeps : (name : Text) (b : Bool) (log : FixLog) → P log → P (deleted name b ∷ log)
  unfolding P
  deleted_keeps name b log h = h

  delete-Keeps : (name : Text) → Keeps P (delete hooks settings name)
  unfolding delete
  delete-Keeps name = search (keeps_rules, deleted_keeps) depth 8

  mark-Keeps :
      (key : Text × ℤ) (outcome note : Text) → Keeps P (mark hooks settings key outcome note)
  unfolding mark
  mark-Keeps key outcome note = search (keeps_rules, marked_keeps) depth 8

  probe-Keeps : (key : Option (Text × ℤ)) → Keeps P (probe hooks settings key)
  unfolding probe
  probe-Keeps key = search (keeps_rules, asked_keeps) depth 8

  offer_update-Keeps :
      (key : Option (Text × ℤ)) (status : Text) → Keeps P (offer_update hooks settings key status)
  unfolding offer_update
  offer_update-Keeps key status = search (keeps_rules, asked_keeps, probe-Keeps) depth 10

  fetch_signature-Keeps : (key : Option (Text × ℤ)) → Keeps P (fetch_signature hooks settings key)
  unfolding fetch_signature
  fetch_signature-Keeps key = search (keeps_rules, asked_keeps) depth 8

  replace_with-Keeps :
      (m : Workload) → Succeeds wl m → Keeps P (replace_with hooks settings (fix_name wl) m)
  unfolding replace_with delete create perform ◌>>=◌ P
  replace_with-Keeps m h = record {
    at = λ log p. after (hooks.delete_workload (fix_name wl) log) log p;
  }
    where
      after :
          (r : Result (Unit {0})) (log : FixLog)
          → AllReplace wls log
          → AllReplace wls
              (continue r
                (λ _. create hooks settings m)
                (deleted (fix_name wl) (returned r) ∷ log)).1
      after (ok u) log p = ((wl, member, terminal, refl, h), p)
      after (raise e) log p = p

  over-Keeps :
      (s : Settled) (status : Text) (key : Text × ℤ)
      → Keeps P (settle_over hooks settings s (fix_name wl) status key)
  unfolding settle_over
  over-Keeps s status key = search (keeps_rules, mark-Keeps, delete-Keeps) depth 8

  fixed-Keeps :
      (s : Settled) (n : ℤ) (key : Text × ℤ)
      → Keeps P (settle_fixed hooks settings s (fix_name wl) n key)
  unfolding settle_fixed
  fixed-Keeps s n key = search (keeps_rules, mark-Keeps, delete-Keeps) depth 8

  progressing-Keeps :
      (s : Settled) (status : Text) (key : Option (Text × ℤ)) (signature : Text)
      → Keeps P (retry_progressing hooks settings s wl status key signature)
  unfolding retry_progressing
  progressing-Keeps s status key signature =
      search
        (
          keeps_rules,
          mark-Keeps,
          delete-Keeps,
          replace_with-Keeps,
          progress_manifest-Succeeds hooks settings,
        )
        depth 10

  same-Keeps :
      (s : Settled) (status : Text) (n : ℤ) (signature : Text)
      → Keeps P (retry_same hooks settings s wl status n signature)
  unfolding retry_same
  same-Keeps s status n signature =
      search (keeps_rules, replace_with-Keeps, rebuild-Succeeds) depth 8

  retry-Keeps :
      (s : Settled) (status : Text) (key : Option (Text × ℤ)) (n : ℤ)
      → Keeps P (retry_fix hooks settings s wl status key n)
  unfolding retry_fix
  retry-Keeps s status key n =
      search (keeps_rules, fetch_signature-Keeps, progressing-Keeps, same-Keeps) depth 8

  escalate-Keeps :
      (s : Settled) (lane coder : Text) → Keeps P (escalate_fix hooks settings s wl lane coder)
  unfolding escalate_fix
  escalate-Keeps s lane coder = search (keeps_rules, replace_with-Keeps, escalate-Succeeds) depth 8

  block-Keeps :
      (s : Settled) (status : Text) (key : Option (Text × ℤ)) (n : ℤ)
      → Keeps P (block_fix hooks settings s wl status key n)
  unfolding block_fix
  block-Keeps s status key n = search (keeps_rules, mark-Keeps) depth 8

  spent-Keeps :
      (s : Settled) (status : Text) (key : Option (Text × ℤ)) (n : ℤ)
      → Keeps P (settle_spent hooks settings s wl status key n)
  unfolding settle_spent
  spent-Keeps s status key n = search (keeps_rules, escalate-Keeps, block-Keeps) depth 8

  open-Keeps :
      (s : Settled) (status : Text) (key : Option (Text × ℤ)) (n : ℤ)
      → Keeps P (settle_open hooks settings s wl status key n)
  unfolding settle_open
  open-Keeps s status key n = search (keeps_rules, delete-Keeps, retry-Keeps, spent-Keeps) depth 10

  known-Keeps :
      (s : Settled) (status : Text) (n : ℤ) (key : Text × ℤ)
      → Keeps P (settle_known hooks settings s wl status n key)
  unfolding settle_known
  known-Keeps s status n key = search (keeps_rules, over-Keeps, fixed-Keeps, open-Keeps) depth 8

  lift-Keeps : {A : Type 0} (r : Result A) → Keeps P (lift hooks settings r)
  unfolding lift
  lift-Keeps r = record { at = λ log h. h }

  terminal-Keeps :
      (s : Settled) (key : Option (Text × ℤ)) → Keeps P (settle_terminal hooks settings s wl key)
  unfolding settle_terminal
  terminal-Keeps s key =
      search (keeps_rules, lift-Keeps, probe-Keeps, offer_update-Keeps, open-Keeps, known-Keeps)
        depth 12

module _ (hooks : FixHooks) (settings : FixSettings) (wls : List Workload) where
  round-AllReplace :
      (s : Settled) (wl : Workload) (log : FixLog)
      → Any (λ w. w ≡ wl) wls
      → AllReplace wls log
      → AllReplace wls (reconcile_fix hooks settings s wl log).1
  unfolding reconcile_fix lift attempt ◌>>=◌ P
  round-AllReplace s wl log member h = elim (Bool-cases (is_terminal wl.phase)) [
    | inl e ↦ rw e (by_key e (prfix_key wl))
    | inr e ↦ rw e h
  ]
    where
      by_key :
          is_terminal wl.phase ≡ true
          → (r : Result (Option Text × Option ℤ))
          → AllReplace wls
              (continue r
                (λ key. attempt (settle_terminal hooks settings s wl (keyed key)) >>= λ ended.
                  pure (after_turn hooks settings s wl ended))
                log).1
      by_key e (ok key) = (terminal-Keeps hooks settings wls wl member e s (keyed key)).at log h
      by_key e (raise t) = h

  either_way :
      (Q : Type 0) (r : Result Settled × FixLog)
      → Q
      → AllReplace wls r.1
      → Outcome (λ s log. Q × AllReplace wls log) (AllReplace wls) r
  either_way Q (ok s, log) q h = (q, h)
  either_way Q (raise e, log) q h = h

  loop-AllReplace :
      (start : Settled) (rest : List Workload) (log : FixLog)
      → All (λ wl. Any (λ w. w ≡ wl) wls) rest
      → AllReplace wls log
      → Outcome
          (λ s log. Unit × AllReplace wls log)
          (AllReplace wls)
          (for_each (reconcile_fix hooks settings) start rest log)
  loop-AllReplace start rest log members h =
      for_each_lem (AllReplace wls)
        (λ rest s log. All (λ wl. Any (λ w. w ≡ wl) wls) rest × AllReplace wls log)
        (reconcile_fix hooks settings)
        (λ s wl rest log k.
          either_way (All (λ wl. Any (λ w. w ≡ wl) wls) rest)
            (reconcile_fix hooks settings s wl log) k.0.1 (round-AllReplace s wl log k.0.0 k.1))
        start rest log (members, h)

-- In a pass over the fix Workloads every creation comes directly after a deletion that returned, of one of
-- the listed Workloads, in a terminal phase, and the created one has its name and is for its pull request. It
-- holds also where the pass ends with an exception.
pub reconcile_pr_fixes-AllReplace :
    (hooks : FixHooks) (settings : FixSettings) (load : Dict ℕ)
    → AllReplace
        (recover [] (hooks.list_prfix_workloads []))
        (reconcile_pr_fixes hooks settings load []).1
unfolding reconcile_pr_fixes perform ◌>>=◌
reconcile_pr_fixes-AllReplace hooks settings load = from (hooks.list_prfix_workloads [])
  where
    start : Settled
    start = record { results = []; load = load }

    left :
        (wls : List Workload) (r : Result Settled × FixLog)
        → Outcome (λ s log. Unit × AllReplace wls log) (AllReplace wls) r
        → AllReplace wls r.1
    left wls (ok s, log) h = h.1
    left wls (raise e, log) h = h

    from :
        (r : Result (List Workload))
        → AllReplace
            (recover [] r)
            (continue r (for_each (reconcile_fix hooks settings) start) (asked [] ∷ [])).1
    from (ok wls) =
        left wls (for_each (reconcile_fix hooks settings) start wls (asked [] ∷ []))
          (loop-AllReplace hooks settings wls start wls (asked [] ∷ []) (All-OneOf wls) tt)
    from (raise e) = tt
