-- ===== src/PrFix/Drain/Bounds.antt =====
-- bridge/prfix.py: what `drain_pr_fixes` creates and reports.
use foreman_dispatch_bridge.Base.{
  ℕ, ◌≡◌, ◌+◌, refl, sym, true, false, some, List, [], ◌∷◌, is_empty, length, length-append, arith,
  Bool-cases, inl, inr,
}
use mathlib.Core.Bool.{true≢false}
use foreman_dispatch_bridge.Base.Text.{Text, mem_text, eq_refl}
use foreman_dispatch_bridge.Base.Dict.{Dict}
use foreman_dispatch_bridge.Base.Json.{Json}
use foreman_dispatch_bridge.Base.Effects.{
  Result, ok, raise, returned, recover, perform, attempt, ◌>>=◌, continue, for_each,
}
use foreman_dispatch_bridge.Base.Effects.Rules.{Outcome, for_each_lem}
use foreman_dispatch_bridge.Base.Effects.Returns.{Outcome-value, Outcome-given}
use foreman_dispatch_bridge.Workload.Capacity.{is_full}
use foreman_dispatch_bridge.Workload.Capacity.Laws.{is_full-false}
use foreman_dispatch_bridge.Retry.Pass.Capacity.{Fits}
use foreman_dispatch_bridge.Workload.Build.{issue_fix}
use foreman_dispatch_bridge.Workload.Build.Started.{
  coder_at_work, count_started, Accounted, bump-Accounted,
}
use foreman_dispatch_bridge.PrFix.Item.{PrFixItem, parse_pr_fix_item, prfix_workload_name}
use foreman_dispatch_bridge.PrFix.Manifest.{fix_steps, build_fix_workload}
use foreman_dispatch_bridge.PrFix.Drain.{
  DrainCall, listed, made, DrainHooks, DrainSettings, DrainLine, Drained, reported, fix_coder,
  fix_manifest, has_no_slot, after_fix, fix_item, drain_item, drain_one, drain_pr_fixes,
}

-- Every Workload that the log creates has a name that was not in use.
abbrev pub Fresh : List Text → List DrainCall → Type 0
Fresh existing [] = Unit
Fresh existing (listed ∷ log) = Fresh existing log
Fresh existing (made m r ∷ log) = (mem_text m.name existing ≡ false) × Fresh existing log

-- The Workloads of a coder whose creation returned.
abbrev pub started : List DrainCall → Text → ℕ
started [] coder = 0
started (made m (ok u) ∷ log) coder = count_started coder m (started log coder)
started (_ ∷ log) coder = started log coder

abbrev Never : List DrainCall → Type 0
Never log = ⊥

module _ (hooks : DrainHooks) (settings : DrainSettings) where
  after_fix-length :
      (s : Drained) (item : PrFixItem) (r : Result (Unit {0}))
      → length (after_fix hooks settings s item r).results ≡ length s.results + 1
  unfolding after_fix
  after_fix-length s item (raise e) = length-append s.results _
  after_fix-length s item (ok u) = length-append s.results _

  fix_manifest-name :
      (item : PrFixItem) → (fix_manifest hooks settings item).name ≡ prfix_workload_name item
  unfolding fix_manifest build_fix_workload
  fix_manifest-name item = refl

  module _ (K : Drained → List DrainCall → Type 0) (s : Drained) (log : List DrainCall)
      (by_line : (line : DrainLine) → K (reported s line) log)
      (by_creation : (item : PrFixItem) (r : Result (Unit {0}))
        → mem_text (prfix_workload_name item) settings.existing_prfix_names ≡ false
        → has_no_slot hooks settings (fix_coder hooks settings item) s.load ≡ false
        → K
            (after_fix hooks settings s item r)
            (made (fix_manifest hooks settings item) r ∷ log)) where
    fix_item-Outcome : (item : PrFixItem) → Outcome K Never (fix_item hooks settings s item log)
    unfolding fix_item attempt perform ◌>>=◌
    fix_item-Outcome item =
        elim (Bool-cases (mem_text (prfix_workload_name item) settings.existing_prfix_names)) [
          | inl used ↦ rw used (by_line _)
          | inr fresh ↦
              rw fresh
                (elim (Bool-cases
                  (has_no_slot hooks settings (fix_coder hooks settings item) s.load)) [
                    | inl full ↦ rw full (by_line _)
                    | inr free ↦ rw free (by_creation item _ fresh free)
                  ])
        ]

    drain_one-Outcome : (raw : Json) → Outcome K Never (drain_one hooks settings s raw log)
    unfolding drain_one drain_item
    drain_one-Outcome raw =
        Outcome-given K Never (parse_pr_fix_item settings.repr raw) _ _ log (by_line _) λ item.
          Outcome-given K Never item.branch _ _ log (by_line _) λ branch. fix_item-Outcome item

  drain-Outcome :
      (I : List Json → Drained → List DrainCall → Type 0) (load : Dict ℕ)
      → ((s : Drained) (raw : Json) (rest : List Json) (log : List DrainCall)
          → I (raw ∷ rest) s log
          → Outcome (I rest) Never (drain_one hooks settings s raw log))
      → returned (hooks.list_queued []) ≡ true
      → I (recover [] (hooks.list_queued [])) (record { results = []; load = load }) (listed ∷ [])
      → Outcome (I []) Never (drain_pr_fixes hooks settings load [])
  unfolding drain_pr_fixes perform ◌>>=◌
  drain-Outcome I load round answered start = from (hooks.list_queued []) answered start
    where
      from :
          (r : Result (List Json))
          → returned r ≡ true
          → I (recover [] r) (record { results = []; load = load }) (listed ∷ [])
          → Outcome (I []) Never (
              continue r
                (for_each (drain_one hooks settings) (record { results = []; load = load }))
                (listed ∷ []))
      from (ok queued) e h =
          for_each_lem Never I (drain_one hooks settings) round _ queued (listed ∷ []) h
      from (raise m) e h = true≢false (sym e)

  Inv : ℕ → List Json → Drained → List DrainCall → Type 0
  Inv n rest s log = (length s.results + length rest ≡ n) × Fresh settings.existing_prfix_names log

-- Once the queue is listed, a drain comes to its end whatever the creations raise: it reports exactly one line
-- for each element of the queue, and creates no Workload whose name was in use.
pub drain_pr_fixes-reports :
    (hooks : DrainHooks) (settings : DrainSettings) (load : Dict ℕ)
    → returned (hooks.list_queued []) ≡ true
    → let ended = drain_pr_fixes hooks settings load [] in
      (s : Drained) × (ended.0 ≡ ok s)
      × (length s.results ≡ length (recover [] (hooks.list_queued [])))
      × Fresh settings.existing_prfix_names ended.1
unfolding Inv
drain_pr_fixes-reports hooks settings load answered =
    let n : ℕ = length (recover [] (hooks.list_queued [])) in
    let (s, ended, (count, fresh)) =
      Outcome-value (Inv hooks settings n []) (drain_pr_fixes hooks settings load []) (
        drain-Outcome hooks settings (Inv hooks settings n) load
          (λ s raw rest log h.
            drain_one-Outcome hooks settings (Inv hooks settings n rest) s log
              (λ line. (omega (arith, h.0, length-append s.results (line ∷ [])), h.1))
              (λ item r fresh free. (
                omega (arith, h.0, after_fix-length hooks settings s item r),
                (rw (fix_manifest-name hooks settings item) fresh, h.1),
              ))
              raw)
          answered (omega arith, tt)) in
    (s, ended, omega (arith, count), fresh)

module _ (hooks : DrainHooks) (settings : DrainSettings)
    (bounded : is_empty settings.agent_slots ≡ false) where
  slot_left :
      (coder : Text) (load : Dict ℕ)
      → has_no_slot hooks settings coder load ≡ false
      → is_full coder load settings.agent_slots ≡ false
  unfolding has_no_slot
  slot_left coder load free = ground (arith, bounded, free)

  fix_manifest-coder :
      (item : PrFixItem)
      → coder_at_work (fix_manifest hooks settings item) ≡ some (fix_coder hooks settings item)
  unfolding fix_manifest build_fix_workload fix_steps
  fix_manifest-coder item = rw (eq_refl issue_fix) refl

  after_fix-Booked :
      (start : Dict ℕ) (s : Drained) (item : PrFixItem) (r : Result (Unit {0}))
      (log : List DrainCall)
      → is_full (fix_coder hooks settings item) s.load settings.agent_slots ≡ false
      → Accounted settings.agent_slots start s.load (started log)
      → Accounted settings.agent_slots start
          (after_fix hooks settings s item r).load
          (started (made (fix_manifest hooks settings item) r ∷ log))
  unfolding after_fix
  after_fix-Booked start s item (raise e) log free h = h
  after_fix-Booked start s item (ok u) log free h =
      bump-Accounted settings.agent_slots start s.load (started log)
        (fix_manifest hooks settings item) (fix_coder hooks settings item) (fix_manifest-coder item)
        (is_full-false (fix_coder hooks settings item) s.load settings.agent_slots free) h

  -- Where slots are configured, the queue is listed, and no coder starts a drain above its slots, the drain
  -- returns, what a coder held at the start and the Workloads that the drain created for it do not exceed its
  -- slots, and the counter of each coder is their sum.
  pub drain_pr_fixes-Fits :
      (load : Dict ℕ)
      → returned (hooks.list_queued []) ≡ true
      → Fits settings.agent_slots load
      → let ended = drain_pr_fixes hooks settings load [] in
        (s : Drained) × (ended.0 ≡ ok s)
        × Accounted settings.agent_slots load s.load (started ended.1)
  drain_pr_fixes-Fits load answered fits =
      Outcome-value (λ s log. Accounted settings.agent_slots load s.load (started log))
        (drain_pr_fixes hooks settings load [])
        (drain-Outcome hooks settings
          (λ rest s log. Accounted settings.agent_slots load s.load (started log)) load
          (λ s raw rest log h.
            drain_one-Outcome hooks settings
              (λ s log. Accounted settings.agent_slots load s.load (started log)) s log (λ line. h)
              (λ item r fresh free.
                after_fix-Booked load s item r log
                  (slot_left (fix_coder hooks settings item) s.load free) h)
              raw)
          answered
          (record {
            is_count = λ coder. omega arith;
            is_within = λ coder. omega (arith, fits coder);
          }))
