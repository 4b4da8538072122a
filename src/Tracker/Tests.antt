-- ===== src/Tracker/Tests.antt =====
-- A tracker that takes a snapshot of two records and then a live event.
use dxfcxx_event_test.Base.{ℕ, ◌*◌, ◌≡◌, List, [], ◌∷◌, map, arith, length}
use dxfcxx_event_test.Base.Int.{pos}
use dxfcxx_event_test.Text.{codes}
use dxfcxx_event_test.Server.History.{SnapshotEvent, snapshot_of}
use dxfcxx_event_test.Server.{TimeAndSaleRecord, TimeAndSaleHistory}
use dxfcxx_event_test.Server.History.Retained.{window}
use dxfcxx_event_test.Tracker.{
  SeriesEvent, Tracker, initial_tracker, begin_snapshot, begin_measurement, handle,
}
use dxfcxx_event_test.Tracker.Counts.{
  IsCounted, sorted_events, Followed, created, subscribed, handled, measured, Followed-IsCounted,
}
use dxfcxx_event_test.Tracker.Cutover.{received}

abbrev sale : ℕ → TimeAndSaleRecord
sale n = record { time_nanos = n * 1_000_000; sequence = n; price = n }

abbrev history : TimeAndSaleHistory
history = window 2 (sale 1 ∷ sale 3 ∷ sale 4 ∷ [])

abbrev stamp : SnapshotEvent → ℕ × ℕ
stamp e = (7, 9)

abbrev events : List SeriesEvent
events = map (received stamp (codes "A")) (snapshot_of (codes "A") (pos 0) history)

abbrev waiting : Tracker
waiting = begin_measurement (begin_snapshot 1 5 initial_tracker)

waiting_followed : Followed 0 waiting
waiting_followed = measured (subscribed 1 5 created)

Followed-IsCounted_example :
    IsCounted (handle 10 events waiting)
    × (sorted_events (handle 10 events waiting) ≡ length events)
Followed-IsCounted_example = Followed-IsCounted (handled 10 events waiting_followed (omega arith))
