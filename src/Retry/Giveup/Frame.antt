-- ===== src/Retry/Giveup/Frame.antt =====
-- bridge/retry.py: what the branches that give up keep of the log, and when they end the turn.
use foreman_dispatch_bridge.Base.{
  Bool, true, false, not, Option, none, some, List, if◌then◌else◌, ◌≡◌, refl, ◌&&◌, leb,
}
use foreman_dispatch_bridge.Base.Text.{Text}
use foreman_dispatch_bridge.Base.Effects.{Result, ok, raise, pure, ◌>>=◌, attempt}
use foreman_dispatch_bridge.Base.Effects.Rules.{
  Keeps, Keeps-pure, keeps_rules, Outcome, Outcome-any, bind_lem,
}
use foreman_dispatch_bridge.Models.{ClaimedItem, Workload, Task}
use foreman_dispatch_bridge.Retry.Hooks.{Log, Hooks, Settings, Line}
use foreman_dispatch_bridge.Retry.Parking.{Act, name_of, try_delete, identify, park_exhausted}
use foreman_dispatch_bridge.Retry.Manifest.{attempt_of, infra_attempt_of}
use foreman_dispatch_bridge.Retry.Parking.Frame.{
  Neutral, parked_infra_keeps, escalated_keeps, asked_keeps, delete-Keeps, try_delete-Keeps,
  identify-Keeps, park_exhausted-Keeps,
}
use foreman_dispatch_bridge.Retry.Giveup.{
  find_model, park_dead_backend, retire_if, give_up_infra, settle_repeated_nogo, call_escalate,
  escalate_and_delete, park_spent, after_escalation, settle_exhausted,
}

module _ (hooks : Hooks) (settings : Settings) (P : Log → Type 0) (neutral : Neutral P) where
  find_model-Keeps : (wl : Workload) → Keeps P (find_model hooks settings wl)
  unfolding find_model
  find_model-Keeps wl = search (keeps_rules, asked_keeps P neutral) depth 8

  park_dead_backend-Keeps :
      (wl : Workload) (model : Text) → Keeps P (park_dead_backend hooks settings wl model)
  unfolding park_dead_backend
  park_dead_backend-Keeps wl model =
      search
        (keeps_rules, park_exhausted-Keeps hooks settings P neutral, parked_infra_keeps P neutral)
        depth 8

  retire_if-Keeps :
      (done : Bool) (name : Text) (line : Line) → Keeps P (retire_if hooks settings done name line)
  unfolding retire_if
  retire_if-Keeps done name line =
      search (keeps_rules, try_delete-Keeps hooks settings P neutral) depth 8

  pub give_up_infra-Keeps :
      (wl : Workload) (is_infra : Bool) → Keeps P (give_up_infra hooks settings wl is_infra)
  unfolding give_up_infra
  give_up_infra-Keeps wl is_infra =
      search (keeps_rules, find_model-Keeps, park_dead_backend-Keeps, retire_if-Keeps) depth 8

  pub settle_repeated_nogo-Keeps :
      (wl : Workload) (tasks : List Task) (is_infra : Bool)
      → Keeps P (settle_repeated_nogo hooks settings wl tasks is_infra)
  unfolding settle_repeated_nogo
  settle_repeated_nogo-Keeps wl tasks is_infra =
      search
        (
          keeps_rules,
          park_exhausted-Keeps hooks settings P neutral,
          try_delete-Keeps hooks settings P neutral,
        )
        depth 8

  call_escalate-Keeps : (item : ClaimedItem) → Keeps P (call_escalate hooks settings item)
  unfolding call_escalate
  call_escalate-Keeps item = search (keeps_rules, escalated_keeps P neutral) depth 8

  escalate_and_delete-Keeps :
      (item : ClaimedItem) (name : Text) → Keeps P (escalate_and_delete hooks settings item name)
  unfolding escalate_and_delete
  escalate_and_delete-Keeps item name =
      search (keeps_rules, call_escalate-Keeps, delete-Keeps hooks settings P neutral) depth 8

  park_spent-Keeps : (wl : Workload) → Keeps P (park_spent hooks settings wl)
  unfolding park_spent
  park_spent-Keeps wl =
      search (keeps_rules, park_exhausted-Keeps hooks settings P neutral, retire_if-Keeps) depth 8

  after_escalation-Keeps :
      (wl : Workload) (item : ClaimedItem) (ended : Result Bool)
      → Keeps P (after_escalation hooks settings wl item ended)
  unfolding after_escalation
  after_escalation-Keeps wl item (raise e) = Keeps-pure _
  after_escalation-Keeps wl item (ok true) = Keeps-pure _
  after_escalation-Keeps wl item (ok false) = park_spent-Keeps wl

  pub settle_exhausted-Keeps :
      (wl : Workload) (is_infra : Bool) → Keeps P (settle_exhausted hooks settings wl is_infra)
  unfolding settle_exhausted
  settle_exhausted-Keeps wl is_infra =
      search
        (
          keeps_rules,
          identify-Keeps hooks settings P neutral,
          escalate_and_delete-Keeps,
          after_escalation-Keeps,
        )
        depth 8

-- What falls through to the code behind a test c saw it fail.
abbrev pub Through : Bool → Option Line → Type 0
Through c none = c ≡ false
Through c (some line) = Unit

abbrev pub Settles : Bool → Act (Option Line) → Type 0
Settles c m = (log : Log) → Outcome (λ o l. Through c o) (λ l. Unit) (m log)

after_any :
    {A : Type 0} (c : Bool) (m : Act A) (f : A → Act (Option Line))
    → ((a : A) → Settles c (f a))
    → Settles c (m >>= f)
after_any c m f k log =
    bind_lem (λ l. Unit) (λ a l. Unit) (λ o l. Through c o) m f log (Outcome-any (m log))
      λ a l h. k a l

under_test :
    (c : Bool) (m : Act (Option Line)) → Settles true m → Settles c (if c then m else pure none)
under_test true m k log = k log
under_test false m k log = refl

module _ (hooks : Hooks) (settings : Settings) where
  retire_if-some :
      (done : Bool) (name : Text) (line : Line)
      → Settles true (retire_if hooks settings done name line)
  unfolding retire_if
  retire_if-some true name line log =
      after_any true (try_delete hooks settings name) (λ _. pure (some line)) (λ a l. tt) log
  retire_if-some false name line log = tt

  pub give_up_infra-none :
      (wl : Workload) (is_infra : Bool)
      → Settles
          (is_infra && leb settings.infra_max_attempts (infra_attempt_of wl))
          (give_up_infra hooks settings wl is_infra)
  unfolding give_up_infra
  give_up_infra-none wl is_infra =
      under_test (is_infra && leb settings.infra_max_attempts (infra_attempt_of wl)) _ (
        after_any true (find_model hooks settings wl) _ λ model.
          after_any true (park_dead_backend hooks settings wl model) _
            λ done. retire_if-some done (name_of wl) _)

  park_spent-some : (wl : Workload) → Settles true (park_spent hooks settings wl)
  unfolding park_spent
  park_spent-some wl =
      after_any true (park_exhausted hooks settings wl _ _) _
        λ done. retire_if-some done (name_of wl) _

  after_escalation-some :
      (wl : Workload) (item : ClaimedItem) (ended : Result Bool)
      → Settles true (after_escalation hooks settings wl item ended)
  unfolding after_escalation
  after_escalation-some wl item (raise e) log = tt
  after_escalation-some wl item (ok true) log = tt
  after_escalation-some wl item (ok false) log = park_spent-some wl log

  pub settle_exhausted-none :
      (wl : Workload) (is_infra : Bool)
      → Settles
          (leb settings.max_attempts (attempt_of wl) && not is_infra)
          (settle_exhausted hooks settings wl is_infra)
  unfolding settle_exhausted
  settle_exhausted-none wl is_infra =
      under_test (leb settings.max_attempts (attempt_of wl) && not is_infra) _ (
        after_any true (identify hooks settings wl) _ λ item.
          after_any true (attempt (escalate_and_delete hooks settings item (name_of wl))) _
            λ ended. after_escalation-some wl item ended)
