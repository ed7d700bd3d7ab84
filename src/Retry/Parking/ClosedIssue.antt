-- ===== src/Retry/Parking/ClosedIssue.antt =====
-- What the skip of a closed issue does.
use foreman_dispatch_bridge.Base.{◌≡◌, refl, Option, some, ◌∷◌, given}
use foreman_dispatch_bridge.Base.Text.{Text, codes, eq_refl}
use foreman_dispatch_bridge.Base.Effects.{Result, ok, ◌>>=◌, perform, attempt}
use foreman_dispatch_bridge.Models.{ClaimedItem, Workload}
use foreman_dispatch_bridge.Retry.Manifest.{item_from_workload}
use foreman_dispatch_bridge.Retry.Hooks.{asked, Log, Hooks, Settings, issue_closed}
use foreman_dispatch_bridge.Retry.Parking.{name_of, ask_state, skip_closed}

pub skip_closed-closed :
    (hooks : Hooks) (settings : Settings) (wl : Workload) (log : Log)
    (ask : ClaimedItem → Log → Result (Option Text))
    → hooks.issue_state_for ≡ some ask
    → ask (item_from_workload wl) log ≡ ok (some (codes "closed"))
    → skip_closed hooks settings wl log
      ≡ (ok (some (issue_closed (name_of wl))), asked (name_of wl) ∷ log)
unfolding skip_closed ask_state given perform attempt ◌>>=◌
skip_closed-closed hooks settings wl log ask e closed =
    rw (e, closed, eq_refl (codes "closed")) refl
