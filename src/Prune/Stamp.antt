-- ===== src/Prune/Stamp.antt =====
-- bridge/prune.py: the stamp that says since when a Workload is terminal.
use foreman_dispatch_bridge.Base.{
  ℕ, ◌≡◌, refl, Bool, true, false, Option, none, some, if◌then◌else◌, given,
}
use foreman_dispatch_bridge.Base.Text.{Text}
use foreman_dispatch_bridge.Base.Dict.{lookup, insert, lookup-insert_self}
use foreman_dispatch_bridge.Models.{Workload}
use foreman_dispatch_bridge.Prune.{
  Moment, parse_ts, parse_annotation, terminal_since_key, is_terminal_phase, terminal_since,
  stamp_terminal_since,
}

module _ (fromisoformat : Text → Option Moment) (strftime : ℕ → Text) where
  -- A Workload whose stamp reads as a moment is of that age, and keeps the stamp.
  stamped_lem :
      (wl : Workload) (created stamp : Text) (m : Moment) (later : ℕ)
      → is_terminal_phase wl.phase ≡ true
      → lookup (terminal_since_key wl.phase) wl.annotations ≡ some stamp
      → parse_ts fromisoformat stamp ≡ some m
      → (terminal_since fromisoformat (record { workload = wl; creation_timestamp = created })
          ≡ some m)
        × (stamp_terminal_since fromisoformat strftime later wl ≡ (wl, some stamp))
  unfolding terminal_since stamp_terminal_since given
  stamped_lem wl created stamp m later t e p = (simp (t, e, p), simp (t, e, p))

  -- `stamp` reads as a moment, is returned, and is what later reads of the Workload find.
  pub record Settled (later : ℕ) (created : Text) (after : Workload × Option Text) : Type 0 where
    pub stamp : Text
    pub moment : Moment
    pub is_read : parse_ts fromisoformat stamp ≡ some moment
    pub is_returned : after.1 ≡ some stamp
    pub is_age :
        terminal_since fromisoformat (record { workload = after.0; creation_timestamp = created })
        ≡ some moment
    pub is_kept : stamp_terminal_since fromisoformat strftime later after.0 ≡ (after.0, some stamp)

  -- The stamp that is written, where none can be read.
  stamped_now :
      (now later : ℕ) (created : Text) (wl : Workload) (m : Moment)
      → is_terminal_phase wl.phase ≡ true
      → parse_ts fromisoformat (strftime now) ≡ some m
      → Settled later created (
        record wl {
          annotations = insert (terminal_since_key wl.phase) (strftime now) wl.annotations;
        },
        some (strftime now),
      )
  stamped_now now later created wl m t p =
      let facts =
        stamped_lem
          (record wl {
            annotations = insert (terminal_since_key wl.phase) (strftime now) wl.annotations;
          })
          created (strftime now) m later t
          (lookup-insert_self (terminal_since_key wl.phase) (strftime now) wl.annotations) p in
      record {
        stamp = strftime now;
        moment = m;
        is_read = p;
        is_returned = refl;
        is_age = facts.0;
        is_kept = facts.1;
      }

  stamp-Settled :
      (now later : ℕ) (created : Text) (wl : Workload) (m : Moment)
      → is_terminal_phase wl.phase ≡ true
      → parse_ts fromisoformat (strftime now) ≡ some m
      → Settled later created (stamp_terminal_since fromisoformat strftime now wl)
  unfolding stamp_terminal_since given
  stamp-Settled now later created wl m t p =
      by_phase (is_terminal_phase wl.phase) t (lookup (terminal_since_key wl.phase) wl.annotations)
        refl
    where
      restamped : Workload × Option Text
      restamped = (
        record wl {
          annotations = insert (terminal_since_key wl.phase) (strftime now) wl.annotations;
        },
        some (strftime now),
      )

      by_moment :
          (existing : Text)
          → lookup (terminal_since_key wl.phase) wl.annotations ≡ some existing
          → (o : Option Moment) → parse_ts fromisoformat existing ≡ o
          → Settled later created (given o restamped λ moment. (wl, some existing))
      by_moment existing e none q = stamped_now now later created wl m t p
      by_moment existing e (some m') q =
          let facts = stamped_lem wl created existing m' later t e q in
          record {
            stamp = existing;
            moment = m';
            is_read = q;
            is_returned = refl;
            is_age = facts.0;
            is_kept = facts.1;
          }

      by_stamp :
          (o : Option Text)
          → lookup (terminal_since_key wl.phase) wl.annotations ≡ o
          → Settled later created
              (given (parse_annotation fromisoformat o) restamped λ moment. (wl, o))
      by_stamp none e = stamped_now now later created wl m t p
      by_stamp (some existing) e = by_moment existing e (parse_ts fromisoformat existing) refl

      by_phase :
          (b : Bool)
          → b ≡ true
          → (o : Option Text) → lookup (terminal_since_key wl.phase) wl.annotations ≡ o
          → Settled later created (
              if b
              then (given (parse_annotation fromisoformat o) restamped λ moment. (wl, o))
              else (wl, none))
      by_phase true h o e = by_stamp o e
      by_phase false h o e = cc

-- Once a Workload in a terminal phase is stamped, by a strftime whose text for that moment _parse_ts can
-- read, a stamp is returned that reads as a moment, the Workload counts as terminal since that moment,
-- whenever it was created, and a later tick leaves the Workload as it is and returns that same stamp.
pub stamp_terminal_since-Settled :
    (fromisoformat : Text → Option Moment) (strftime : ℕ → Text) (now later : ℕ) (created : Text)
    (wl : Workload) (m : Moment)
    → is_terminal_phase wl.phase ≡ true
    → parse_ts fromisoformat (strftime now) ≡ some m
    → Settled fromisoformat strftime later created
        (stamp_terminal_since fromisoformat strftime now wl)
stamp_terminal_since-Settled = stamp-Settled
