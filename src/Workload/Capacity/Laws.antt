-- ===== src/Workload/Capacity/Laws.antt =====
-- What the counts of slots mean.
use foreman_dispatch_bridge.Base.{ℕ, ◌≤◌, ◌<◌, ◌≡◌, ◌↔◌, true, false, arith}
use foreman_dispatch_bridge.Base.Text.{Text}
use foreman_dispatch_bridge.Base.Json.{Json}
use foreman_dispatch_bridge.Base.Dict.{Dict}
use foreman_dispatch_bridge.Workload.Capacity.{slots_for, load_of, is_full}

-- A coder is full exactly when its load has reached its slots.
pub is_full_iff :
    (agent : Text) (load : Dict ℕ) (slots : Dict Json)
    → (is_full agent load slots ≡ true) ↔ (slots_for agent slots ≤ load_of agent load)
unfolding is_full
is_full_iff agent load slots = ground arith

pub is_full-false :
    (agent : Text) (load : Dict ℕ) (slots : Dict Json)
    → is_full agent load slots ≡ false
    → load_of agent load < slots_for agent slots
unfolding is_full
is_full-false agent load slots h = ground arith

-- A typo cannot take a coder out of rotation: every coder has a slot.
pub slots_for_pos : (agent : Text) (slots : Dict Json) → 0 < slots_for agent slots
unfolding slots_for
slots_for_pos agent slots = ground arith
