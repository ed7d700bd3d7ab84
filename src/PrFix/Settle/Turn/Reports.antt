-- ===== src/PrFix/Settle/Turn/Reports.antt =====
-- bridge/prfix.py: the lines of `reconcile_pr_fixes`, and exceptions in its turns.
use foreman_dispatch_bridge.Base.{
  ℕ, suc, ◌≡◌, ◌+◌, sym, Bool, true, false, Option, none, some, List, [], ◌∷◌, if◌then◌else◌,
  length, arith, keep, Bool-cases, inl, inr, refl, not, ◌&&◌, all, Any,
}
use mathlib.Core.Bool.{true≢false}
use foreman_dispatch_bridge.Base.Text
use foreman_dispatch_bridge.Base.Text.{Text}
use foreman_dispatch_bridge.Base.Decimal.Unicode.{
  decimal_value, is_unicode_digit, read_digits, read_digits-none,
}
use foreman_dispatch_bridge.Base.Int.{ℤ}
use foreman_dispatch_bridge.Base.Dict.{Dict, lookup}
use foreman_dispatch_bridge.Base.Effects.{
  Result, ok, raise, returned, recover, pure, ◌>>=◌, perform, attempt, continue, for_each,
}
use foreman_dispatch_bridge.Base.Effects.Rules.{Outcome, Outcome-map, for_each_lem}
use foreman_dispatch_bridge.Models.{Workload}
use foreman_dispatch_bridge.PrFix.Calls.{asked, FixLog, FixHooks, FixSettings}
use foreman_dispatch_bridge.PrFix.Manifest.{
  prfix_pr_annotation, prfix_repo_annotation, int_of_digits, pr_number, keyed_by, prfix_key,
}
use foreman_dispatch_bridge.PrFix.Settle.{keyed, lift, Settled, is_terminal}
use foreman_dispatch_bridge.PrFix.Settle.Turn.{
  settle_terminal, after_turn, reconcile_fix, reconcile_pr_fixes,
}
use foreman_dispatch_bridge.PrFix.Settle.Turn.Tells.{settle_terminal-Tells, after_turn-length}

abbrev pub terminals : List Workload → List Workload
terminals = keep (λ wl. is_terminal wl.phase)

-- The annotation with the number of the pull request has digits only, one of which is not decimal.
pub record IsUnreadable (wl : Workload) : Type 0 where
  pub in_terminal_phase : is_terminal wl.phase ≡ true
  pub pr : Text
  pub is_annotation : lookup prfix_pr_annotation wl.annotations ≡ some pr
  pub is_digits : all is_unicode_digit pr ≡ true
  pub has_other : Any (λ c. decimal_value c ≡ none) pr

prfix_key-raise :
    (wl : Workload) (e : Text)
    → is_terminal wl.phase ≡ true
    → prfix_key wl ≡ raise e
    → IsUnreadable wl
unfolding prfix_key pr_number
prfix_key-raise wl e over h = by_pr (lookup prfix_pr_annotation wl.annotations) refl h
  where
    refused :
        (pr : Text) (o : Option ℕ)
        → keyed_by (lookup prfix_repo_annotation wl.annotations) (int_of_digits pr o) ≡ raise e
        → o ≡ none
    refused pr none k = refl
    refused pr (some n) k = cc

    by_digits :
        (pr : Text) (b : Bool)
        → lookup prfix_pr_annotation wl.annotations ≡ some pr
        → (not (Text.is_empty pr) && all is_unicode_digit pr) ≡ b
        → keyed_by
            (lookup prfix_repo_annotation wl.annotations)
            (if b then int_of_digits pr (read_digits pr) else ok none)
          ≡ raise e
        → IsUnreadable wl
    by_digits pr false m d k = cc
    by_digits pr true m d k = record {
      in_terminal_phase = over;
      pr = pr;
      is_annotation = m;
      is_digits = ground (arith, d);
      has_other = read_digits-none pr (refused pr (read_digits pr) k);
    }

    by_pr :
        (o : Option Text)
        → lookup prfix_pr_annotation wl.annotations ≡ o
        → keyed_by (lookup prfix_repo_annotation wl.annotations) (pr_number o) ≡ raise e
        → IsUnreadable wl
    by_pr none m k = cc
    by_pr (some pr) m k = by_digits pr _ m refl k

module _ (hooks : FixHooks) (settings : FixSettings) (wls : List Workload) where
  abbrev Stuck : FixLog → Type 0
  Stuck log = Any IsUnreadable wls

  -- What is left adds up, and a Workload that is left is one of all.
  abbrev Counted : List Workload → Settled → FixLog → Type 0
  Counted rest s log =
      (length s.results + length (terminals rest) ≡ length (terminals wls))
      × (Any IsUnreadable rest → Any IsUnreadable wls)

  round-Counted :
      (s : Settled) (wl : Workload) (rest : List Workload) (log : FixLog)
      → Counted (wl ∷ rest) s log
      → Outcome (Counted rest) Stuck (reconcile_fix hooks settings s wl log)
  unfolding reconcile_fix lift attempt ◌>>=◌
  round-Counted s wl rest log (h, m) = elim (Bool-cases (is_terminal wl.phase)) [
    | inl e ↦ rw e (by_key e (rw e at h) (prfix_key wl) refl)
    | inr e ↦ rw e (rw e at h, λ k. m (inr k))
  ]
    where
      by_key :
          is_terminal wl.phase ≡ true
          → length s.results + suc (length (terminals rest)) ≡ length (terminals wls)
          → (r : Result (Option Text × Option ℤ)) → prfix_key wl ≡ r
          → Outcome (Counted rest) Stuck (
              continue r
                (λ key. attempt (settle_terminal hooks settings s wl (keyed key)) >>= λ ended.
                  pure (after_turn hooks settings s wl ended))
                log)
      by_key e n (ok key) k = (
        omega (
          arith,
          n,
          after_turn-length hooks settings s wl
              (settle_terminal hooks settings s wl (keyed key) log)
              ((settle_terminal-Tells hooks settings s wl (keyed key)).at log),
        ),
        λ k. m (inr k),
      )
      by_key e n (raise t) k = m (inl (prfix_key-raise wl t e k))

-- Once the fix Workloads are listed, and whatever the other calls raise, the pass either comes to its end and
-- reports exactly one line for each Workload that is in a terminal phase and none for any other, or it raises,
-- and then one of the Workloads in a terminal phase has an annotation with the number of its pull request that
-- passes isdigit but is refused by int, as it has a digit that is not decimal.
pub reconcile_pr_fixes-reports :
    (hooks : FixHooks) (settings : FixSettings) (load : Dict ℕ)
    → returned (hooks.list_prfix_workloads []) ≡ true
    → let wls = recover [] (hooks.list_prfix_workloads []) in
      Outcome
        (λ s log. length s.results ≡ length (terminals wls))
        (λ log. Any IsUnreadable wls)
        (reconcile_pr_fixes hooks settings load [])
unfolding reconcile_pr_fixes perform ◌>>=◌
reconcile_pr_fixes-reports hooks settings load answered =
    from (hooks.list_prfix_workloads []) answered
  where
    start : Settled
    start = record { results = []; load = load }

    from :
        (r : Result (List Workload))
        → returned r ≡ true
        → Outcome
            (λ s log. length s.results ≡ length (terminals (recover [] r)))
            (λ log. Any IsUnreadable (recover [] r))
            (continue r (for_each (reconcile_fix hooks settings) start) (asked [] ∷ []))
    from (ok wls) e =
        Outcome-map (Counted hooks settings wls []) _ (Stuck hooks settings wls) _ _
          (λ s log h. omega (arith, h.0)) (λ log h. h)
          (for_each_lem (Stuck hooks settings wls) (Counted hooks settings wls)
            (reconcile_fix hooks settings) (round-Counted hooks settings wls) start wls
            (asked [] ∷ []) (omega arith, λ k. k))
    from (raise m) e = true≢false (sym e)
