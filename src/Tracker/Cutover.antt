-- ===== src/Tracker/Cutover.antt =====
-- The tracker takes a snapshot of the generator from its begin to its end.
use dxfcxx_event_test.Base.{ℕ, ◌+◌, ◌≡◌, Bool, false, List, [], ◌∷◌}
use dxfcxx_event_test.Text.{Bytes}
use dxfcxx_event_test.Server.History.{SnapshotEvent}
use dxfcxx_event_test.Tracker.{SeriesEvent, Tracker}

-- A snapshot event as the client receives it: dxFeed gives it an index and a time.
abbrev pub received : (SnapshotEvent → ℕ × ℕ) → Bytes → SnapshotEvent → SeriesEvent
received stamp symbol e = record {
  symbol = symbol;
  index = (stamp e).0;
  time_nanos = (stamp e).1;
  flags = e.flags;
}

-- What the events of a snapshot do to the tracker of its symbol.
pub record Takes (symbol : Bytes) (n closed : ℕ) (t u : Tracker) : Type 0 where
  pub taken : u.snapshot_events + u.snapshot_removals ≡ t.snapshot_events + t.snapshot_removals + n
  pub completed : u.completed_symbols ≡ t.completed_symbols + closed
  pub premature : u.premature_live_events ≡ t.premature_live_events
  pub live : u.live_events ≡ t.live_events

abbrev begins_first : List SnapshotEvent → Bool
begins_first [] = false
begins_first (e ∷ es) = e.flags.begins
