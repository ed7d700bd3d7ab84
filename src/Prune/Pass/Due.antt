-- ===== src/Prune/Pass/Due.antt =====
-- bridge/prune.py: why a Workload is deleted and an issue is reset.
use foreman_dispatch_bridge.Base.{
  ℕ, ◌+◌, ◌*◌, ◌≤◌, ◌<◌, ◌≡◌, refl, ap, ◌∙◌, Bool, true, false, not, Option, none, some, List, [],
  ◌∷◌, leb, if◌then◌else◌, given, given-eq-some, some_inj, All, Any, arith, subst,
}
use foreman_dispatch_bridge.Base.Text
use foreman_dispatch_bridge.Base.Text.{Text, codes, ◌==◌, eq→, eq_iff}
use foreman_dispatch_bridge.Prune.{
  Moment, aware, naive, Stamped, terminal_since, ttl_for, is_older, is_due, add_if,
  prunable_workloads,
}
use foreman_dispatch_bridge.Prune.Pass.{PruneSettings}

module _ (fromisoformat : Text → Option Moment) (settings : PruneSettings) where
  abbrev pub ttl : Text → ℕ
  ttl = ttl_for fromisoformat settings.completed_ttl_seconds settings.failed_ttl_seconds

  -- A Workload in a phase whose TTL is on, in which it has been for at least that long.
  pub record IsExpired (s : Stamped) : Type 0 where
    pub since : ℕ
    pub entered : terminal_since fromisoformat s ≡ some (aware since)
    pub is_on : 0 < ttl s.workload.phase
    pub is_past : since + ttl s.workload.phase * 1000000 ≤ settings.now

  is_older-past :
      (now t : ℕ) (m : Moment)
      → is_older fromisoformat settings.completed_ttl_seconds settings.failed_ttl_seconds now t m
        ≡ some true
      → (since : ℕ) × (m ≡ aware since) × (since + t * 1000000 ≤ now)
  is_older-past now t (aware since) h = (since, refl, ground arith)
  is_older-past now t naive h = cc

  is_due-IsExpired :
      (s : Stamped)
      → is_due fromisoformat settings.completed_ttl_seconds settings.failed_ttl_seconds settings.now
          s
        ≡ some true
      → IsExpired s
  unfolding is_due given
  is_due-IsExpired s h = by_ttl (leb (ttl s.workload.phase) 0) refl h
    where
      by_since :
          0 < ttl s.workload.phase
          → (o : Option Moment) → terminal_since fromisoformat s ≡ o
          → given o (some false) (
              is_older fromisoformat settings.completed_ttl_seconds settings.failed_ttl_seconds
                settings.now
                (ttl s.workload.phase))
            ≡ some true
          → IsExpired s
      by_since p none e h' = cc
      by_since p (some m) e h' =
          let (since, f, past) = is_older-past settings.now (ttl s.workload.phase) m h' in
          record { since = since; entered = e ∙ ap some f; is_on = p; is_past = past }

      by_ttl :
          (b : Bool)
          → leb (ttl s.workload.phase) 0 ≡ b
          → (if b
              then some false
              else given (terminal_since fromisoformat s) (some false) (
                  is_older fromisoformat settings.completed_ttl_seconds settings.failed_ttl_seconds
                    settings.now
                    (ttl s.workload.phase)))
            ≡ some true
          → IsExpired s
      by_ttl true e h' = cc
      by_ttl false e h' = by_since (ground arith) (terminal_since fromisoformat s) refl h'

  module _ (workloads : List Stamped) where
    -- A listed Workload with this name and this phase is expired.
    pub record IsDue (name phase : Text) : Type 0 where
      pub stamped : Stamped
      pub is_listed : Any (λ s. s ≡ stamped) workloads
      pub has_name : stamped.workload.name ≡ name
      pub has_phase : stamped.workload.phase ≡ phase
      pub expired : IsExpired stamped

    abbrev pub AllDue : List (Text × Text) → Type 0
    AllDue = All (λ due. IsDue due.0 due.1)

    add_if-AllDue :
        (due : Bool) (s : Stamped) (names : List (Text × Text))
        → Any (λ t. t ≡ s) workloads
        → is_due fromisoformat settings.completed_ttl_seconds settings.failed_ttl_seconds
            settings.now s
          ≡ some due
        → AllDue names
        → AllDue (
            add_if fromisoformat settings.completed_ttl_seconds settings.failed_ttl_seconds due s
              names)
    add_if-AllDue false s names m e h = h
    add_if-AllDue true s names m e h = by_name_test (Text.is_empty s.workload.name)
      where
        by_name_test :
            (b : Bool)
            → AllDue (if not b then (s.workload.name, s.workload.phase) ∷ names else names)
        by_name_test true = h
        by_name_test false = (
          record {
            stamped = s;
            is_listed = m;
            has_name = refl;
            has_phase = refl;
            expired = is_due-IsExpired s e;
          },
          h,
        )

    pub prunable-AllDue :
        (rest : List Stamped) (names : List (Text × Text))
        → All (λ s. Any (λ t. t ≡ s) workloads) rest
        → prunable_workloads fromisoformat settings.completed_ttl_seconds
            settings.failed_ttl_seconds settings.now rest
          ≡ some names
        → AllDue names
    unfolding prunable_workloads
    prunable-AllDue [] names m h = subst AllDue (some_inj h) tt
    prunable-AllDue (s ∷ ss) names (m, ms) h =
        let (due, e, h1) =
          given-eq-some
            (is_due fromisoformat settings.completed_ttl_seconds settings.failed_ttl_seconds
              settings.now s)
            _ h in
        let (more, f, h2) =
          given-eq-some
            (prunable_workloads fromisoformat settings.completed_ttl_seconds
              settings.failed_ttl_seconds settings.now ss)
            _ h1 in
        subst AllDue (some_inj h2) (add_if-AllDue due s more m e (prunable-AllDue ss more ms f))
