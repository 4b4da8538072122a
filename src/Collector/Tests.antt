-- ===== src/Collector/Tests.antt =====
-- A measurement of one publication of two quotes, of which one is delivered.
use dxfcxx_event_test.Base.{ℕ, ◌+◌, ◌≡◌, true, false, none, some, [], ◌∷◌, arith}
use dxfcxx_event_test.Text.{codes}
use dxfcxx_event_test.Task.{EventKind, quote}
use dxfcxx_event_test.Server.{ActiveTask, PendingTask}
use dxfcxx_event_test.Server.Worker.{activated}
use dxfcxx_event_test.Server.Publish.Safe.{IsReady, publish_lem}
use dxfcxx_event_test.Server.Worker.Invariant.{activated-IsReady}
use dxfcxx_event_test.Collector.Samples.{marker_timestamp}
use dxfcxx_event_test.Collector.{Settings, Collector, marker, described, initial_collector}
use dxfcxx_event_test.Collector.Callbacks.{begin_measurement, handle, take_window}
use dxfcxx_event_test.Collector.Marker.{marker_timestamp-publish}
use dxfcxx_event_test.Collector.Accounting.{IsBalanced}
use dxfcxx_event_test.Collector.Measurement.{
  created, Measured, begun, callback, Measured-IsBalanced, take_window-closes,
}

abbrev two_quotes : Settings
two_quotes = record {
  expected_by_kind = expected;
  batch_timeout_ms = 1_000;
  allow_conflation = false;
}
  where
    expected : EventKind → ℕ
    expected quote = 2
    expected kind = 0

abbrev measured : Collector
measured =
    handle two_quotes 50
      (described quote (codes "SYM00") (some 1) none ∷ marker 1 (codes "LATENCY_BATCH:40") ∷ [])
      (begin_measurement initial_collector)

measured-Measured : Measured two_quotes measured
measured-Measured = callback 50 _ (begun created)

Measured-IsBalanced_example : IsBalanced two_quotes measured
Measured-IsBalanced_example = Measured-IsBalanced two_quotes measured-Measured

take_window-closes_example :
    ((take_window two_quotes true 60 measured).pending ≡ [])
    × ((take_window two_quotes true 60 measured).totals.published quote
          + (take_window two_quotes true 60 measured).totals.excess quote
        ≡ (take_window two_quotes true 60 measured).totals.delivered quote
          + (take_window two_quotes true 60 measured).totals.listener_deficit quote)
take_window-closes_example = take_window-closes two_quotes 60 quote measured-Measured

abbrev waiting : PendingTask
waiting = record {
  command = codes "SUB:Q2@1s";
  pattern = record {
    items = record { kind = quote; quantity = 2 } ∷ [];
    publish_period = 1_000;
    subscribed_symbol_count = none;
    regional_source_count = 0;
    shuffle_seed = none;
  };
  active_symbol_count = 2;
  profile_symbols = [];
  market_symbols = [];
}

abbrev generator_task : ActiveTask
generator_task = activated waiting

generator_task-IsReady : IsReady generator_task
generator_task-IsReady =
    activated-IsReady waiting (record { items-pos = omega arith; count-pos = omega arith })

marker_timestamp-publish_example :
    marker_timestamp (publish_lem 1_000 5 1_500_000 [] generator_task generator_task-IsReady).1.text
    ≡ some 1_500_000
marker_timestamp-publish_example =
    marker_timestamp-publish 1_000 5 1_500_000 [] generator_task
      (publish_lem 1_000 5 1_500_000 [] generator_task generator_task-IsReady).0
      (publish_lem 1_000 5 1_500_000 [] generator_task generator_task-IsReady).1
      (publish_lem 1_000 5 1_500_000 [] generator_task generator_task-IsReady).2 (omega arith)
      (omega arith)
