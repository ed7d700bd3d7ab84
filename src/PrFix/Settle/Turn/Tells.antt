-- ===== src/PrFix/Settle/Turn/Tells.antt =====
-- bridge/prfix.py: the line of a turn of `reconcile_pr_fixes`.
use foreman_dispatch_bridge.Base.{
  ℕ, ◌≡◌, ◌+◌, Bool, true, false, Option, none, some, [], ◌∷◌, if◌then◌else◌, given, length,
  length-append,
}
use foreman_dispatch_bridge.Base.Text.{Text}
use foreman_dispatch_bridge.Base.Int.{ℤ}
use foreman_dispatch_bridge.Base.Dict.{Dict}
use foreman_dispatch_bridge.Base.Effects.{Result, ok, raise, pure, ◌>>=◌}
use foreman_dispatch_bridge.Base.Effects.Rules.{Outcome, Outcome-any, bind_lem}
use foreman_dispatch_bridge.Models.{Workload}
use foreman_dispatch_bridge.PrFix.Calls.{FixLog, FixHooks, FixSettings, FixLine}
use foreman_dispatch_bridge.PrFix.Settle.{
  FixAct, Settled, told, settle_over, settle_fixed, retry_progressing, retry_same, retry_fix,
  fix_name,
}
use foreman_dispatch_bridge.PrFix.Settle.Turn.{
  escalate_fix, block_fix, settle_spent, settle_open, settle_known, settle_terminal, after_turn,
}

-- The code appends one line if it returns.
pub record Tells (s : Settled) (m : FixAct Settled) : Type 0 where
  pub at :
      (log : FixLog)
      → Outcome (λ s' l. length s'.results ≡ length s.results + 1) (λ l. Unit) (m log)

Tells-told :
    (s : Settled) (load : Dict ℕ) (line : FixLine)
    → Tells s (pure (told (record s { load = load }) line))
Tells-told s load line = record { at = λ log. length-append s.results (line ∷ []) }

Tells-told_same : (s : Settled) (line : FixLine) → Tells s (pure (told s line))
Tells-told_same s line = Tells-told s s.load line

Tells-bind :
    {A : Type 0} (s : Settled) (m : FixAct A) (f : A → FixAct Settled)
    → ((a : A) → Tells s (f a))
    → Tells s (m >>= f)
Tells-bind s m f k = record {
  at = λ log.
      bind_lem (λ l. Unit) (λ a l. Unit) (λ s' l. length s'.results ≡ length s.results + 1) m f log
        (Outcome-any (m log)) (λ a l h. (k a).at l);
}

Tells-if :
    (s : Settled) (b : Bool) (m n : FixAct Settled)
    → Tells s m
    → Tells s n
    → Tells s (if b then m else n)
Tells-if s true m n km kn = km
Tells-if s false m n km kn = kn

Tells-given :
    {F : Type 0} (s : Settled) (o : Option F) (m : FixAct Settled) (f : F → FixAct Settled)
    → Tells s m
    → ((h : F) → Tells s (f h))
    → Tells s (given o m f)
unfolding given
Tells-given s none m f km kf = km
Tells-given s (some h) m f km kf = kf h

ruleset tells_rules = (Tells-told, Tells-told_same, Tells-bind, Tells-if, Tells-given)

module _ (hooks : FixHooks) (settings : FixSettings) (s : Settled) (wl : Workload) where
  settle_over-Tells :
      (status : Text) (key : Text × ℤ)
      → Tells s (settle_over hooks settings s (fix_name wl) status key)
  unfolding settle_over
  settle_over-Tells status key = search tells_rules depth 8

  settle_fixed-Tells :
      (n : ℤ) (key : Text × ℤ) → Tells s (settle_fixed hooks settings s (fix_name wl) n key)
  unfolding settle_fixed
  settle_fixed-Tells n key = search tells_rules depth 8

  retry_progressing-Tells :
      (status : Text) (key : Option (Text × ℤ)) (signature : Text)
      → Tells s (retry_progressing hooks settings s wl status key signature)
  unfolding retry_progressing
  retry_progressing-Tells status key signature = search tells_rules depth 8

  retry_same-Tells :
      (status : Text) (n : ℤ) (signature : Text)
      → Tells s (retry_same hooks settings s wl status n signature)
  unfolding retry_same
  retry_same-Tells status n signature = search tells_rules depth 8

  retry_fix-Tells :
      (status : Text) (key : Option (Text × ℤ)) (n : ℤ)
      → Tells s (retry_fix hooks settings s wl status key n)
  unfolding retry_fix
  retry_fix-Tells status key n =
      search (tells_rules, retry_progressing-Tells, retry_same-Tells) depth 8

  escalate_fix-Tells : (lane coder : Text) → Tells s (escalate_fix hooks settings s wl lane coder)
  unfolding escalate_fix
  escalate_fix-Tells lane coder = search tells_rules depth 8

  block_fix-Tells :
      (status : Text) (key : Option (Text × ℤ)) (n : ℤ)
      → Tells s (block_fix hooks settings s wl status key n)
  unfolding block_fix
  block_fix-Tells status key n = search tells_rules depth 8

  settle_spent-Tells :
      (status : Text) (key : Option (Text × ℤ)) (n : ℤ)
      → Tells s (settle_spent hooks settings s wl status key n)
  unfolding settle_spent
  settle_spent-Tells status key n =
      search (tells_rules, escalate_fix-Tells, block_fix-Tells) depth 8

  settle_open-Tells :
      (status : Text) (key : Option (Text × ℤ)) (n : ℤ)
      → Tells s (settle_open hooks settings s wl status key n)
  unfolding settle_open
  settle_open-Tells status key n =
      search (tells_rules, retry_fix-Tells, settle_spent-Tells) depth 10

  settle_known-Tells :
      (status : Text) (n : ℤ) (key : Text × ℤ)
      → Tells s (settle_known hooks settings s wl status n key)
  unfolding settle_known
  settle_known-Tells status n key =
      search (tells_rules, settle_over-Tells, settle_fixed-Tells, settle_open-Tells) depth 8

  pub settle_terminal-Tells :
      (key : Option (Text × ℤ)) → Tells s (settle_terminal hooks settings s wl key)
  unfolding settle_terminal
  settle_terminal-Tells key = search (tells_rules, settle_open-Tells, settle_known-Tells) depth 10

  pub after_turn-length :
      (r : Result Settled × FixLog)
      → Outcome (λ s' l. length s'.results ≡ length s.results + 1) (λ l. Unit) r
      → length (after_turn hooks settings s wl r.0).results ≡ length s.results + 1
  unfolding after_turn
  after_turn-length (ok s', l) h = h
  after_turn-length (raise e, l) h = length-append s.results _
