-- ===== src/Server/Tests.antt =====
-- The theorems on the load generator at concrete tasks, histories and arguments.
use dxfcxx_event_test.Base.{
  ◌<◌, ltb, if◌then◌else◌, ℕ, ◌+◌, ◌*◌, ◌≤◌, ◌≡◌, refl, ◌⊎◌, true, none, some, List, [], ◌∷◌,
  reverse, arith, ok, length,
}
use dxfcxx_event_test.Base.Int.{pos}
use dxfcxx_event_test.Text.{Bytes, codes, same, scan_u64, int64_limit}
use dxfcxx_event_test.Task.{symbol_count, TaskPattern, quote, time_and_sale}
use dxfcxx_event_test.Server.{
  SubscriptionKind, subscription_kind_index, start, quotes, Command, TimeAndSaleRecord, Marker,
  ActiveTask, PendingTask,
}
use dxfcxx_event_test.Server.Shuffle.{pool_order}
use dxfcxx_event_test.Server.Shuffle.Order.{count, count-pool_order}
use dxfcxx_event_test.Server.Schedule.{advance, advance_lem}
use dxfcxx_event_test.Server.History.{history_or_none, find_history, snapshot_of}
use dxfcxx_event_test.Server.History.Retained.{retain_all, window, records_of, retain_all-window}
use dxfcxx_event_test.Server.History.Snapshot.{
  begins_once, ends_once, contents, IsRecent, snapshot_of-frame,
}
use dxfcxx_event_test.Server.Publish.{publish}
use dxfcxx_event_test.Server.Publish.Safe.{IsReady, pool_events, publish_lem}
use dxfcxx_event_test.Server.Pools.{make_event_pools}
use dxfcxx_event_test.Server.Pools.Entries.{HoldAll, make_event_pools-HoldAll}
use dxfcxx_event_test.Server.Worker.{
  Settings, Worker, Output, initial_worker, activated, command_at, step,
}
use dxfcxx_event_test.Server.Worker.Invariant.{
  IsStartable, activated-IsReady, initially, Reachable-step,
}
use dxfcxx_event_test.Server.Config.{
  Config, default_config, IsUsable, parse_args, set_option, parse_args-IsUsable,
}

abbrev small_task : TaskPattern
small_task = record {
  items =
      record { kind = quote; quantity = 2 } ∷ record { kind = time_and_sale; quantity = 1 } ∷ [];
  publish_period = 1_000;
  subscribed_symbol_count = none;
  regional_source_count = 1;
  shuffle_seed = some 7;
}

abbrev waiting : PendingTask
waiting = record {
  command = codes "SUB:Q2;N1@1s&1~7";
  pattern = small_task;
  active_symbol_count = 2;
  profile_symbols = [];
  market_symbols = [];
}

waiting-IsStartable : IsStartable waiting
waiting-IsStartable = record { items-pos = omega arith; count-pos = omega arith }

publish_lem_example :
    (next : ActiveTask) × (marker : Marker) × (publish 1_000 5 1_000_000 [] (activated waiting)
      ≡ some (next, marker))
    × IsReady next
    × (next.composite_events + next.regional_events
        ≡ (activated waiting).composite_events
          + (activated waiting).regional_events
          + pool_events (activated waiting).pools)
    × (length next.publication ≤ pool_events (activated waiting).pools)
    × (next.pools ≡ (activated waiting).pools)
publish_lem_example =
    publish_lem 1_000 5 1_000_000 [] (activated waiting)
      (activated-IsReady waiting waiting-IsStartable)

count-pool_order_example :
    (order : List ℕ) × (pool_order (some 7) 3 4 ≡ some order)
    × ((k : ℕ) → count k order ≡ (if ltb k 4 then 1 else 0))
count-pool_order_example = count-pool_order (some 7) 3 4

advance_lem_example :
    (next : ℕ) × (skipped : ℕ) × (advance 100 200 1_250 ≡ some (next, skipped))
    × (next < int64_limit)
    × (1_250 ≤ next)
    × (next ≡ 100 + 200 * (skipped + 1))
    × ((skipped ≡ 0) ⊎ (next ≤ 1_250 + 200))
advance_lem_example = advance_lem 100 200 1_250 (omega arith) (omega arith) (omega arith)

abbrev sale : ℕ → TimeAndSaleRecord
sale n = record { time_nanos = n * 1_000_000; sequence = n; price = n }

abbrev sales : List (Bytes × TimeAndSaleRecord)
sales = (codes "A", sale 1) ∷ (codes "B", sale 2) ∷ (codes "A", sale 3) ∷ (codes "A", sale 4) ∷ []

retain_all-window_example :
    history_or_none (find_history (codes "A") (retain_all 2 sales []))
    ≡ window 2 (records_of (codes "A") sales)
retain_all-window_example = retain_all-window 2 (codes "A") sales

abbrev three_sales : List TimeAndSaleRecord
three_sales = sale 1 ∷ sale 3 ∷ sale 4 ∷ []

snapshot_of-frame_example :
    (begins_once (snapshot_of (codes "A") (pos 2) (window 2 three_sales)) ≡ true)
    × (ends_once (snapshot_of (codes "A") (pos 2) (window 2 three_sales)) ≡ true)
    × IsRecent
        (pos 2)
        (reverse (window 2 three_sales).records)
        (contents (snapshot_of (codes "A") (pos 2) (window 2 three_sales)))
snapshot_of-frame_example = snapshot_of-frame (codes "A") (pos 2) (window 2 three_sales)

abbrev subscribed_task : TaskPattern
subscribed_task = record small_task { subscribed_symbol_count = some 2 }

two_symbols : 2 ≤ symbol_count subscribed_task
unfolding symbol_count
two_symbols = omega arith

make_event_pools-HoldAll_example :
    HoldAll subscribed_task 2 subscribed_task.items (make_event_pools subscribed_task 2)
make_event_pools-HoldAll_example = make_event_pools-HoldAll subscribed_task 2 two_symbols

abbrev settings : Settings
settings = record {
  max_sequence = 1_000;
  time_series_history_limit = 5;
  active_symbol_count = none;
}

abbrev start_command : Command
start_command = record {
  type = start;
  text = codes "SUB:Q1";
  subscription = quotes;
  symbols = [];
  time_series_requests = [];
}

Reachable-step_example :
    ((initial_worker.active ≡ none) ⊎ (initial_worker.pending ≡ none))
    × ((kind : SubscriptionKind) → subscription_kind_index kind < length initial_worker.subscribed)
    × ((next : Worker) × (sent : List Output) × (step settings
            (command_at 0 start_command)
            initial_worker
          ≡ some (next, sent)))
Reachable-step_example = Reachable-step settings (command_at 0 start_command) initially

abbrev arguments : List Bytes
arguments = codes "--time-series-history" ∷ codes "50" ∷ []

abbrev accepted : Config
accepted = record default_config { time_series_history_limit = 50 }

arguments-accepted : parse_args default_config arguments ≡ ok accepted
unfolding codes parse_args set_option same scan_u64
arguments-accepted = refl

parse_args-IsUsable_example : IsUsable accepted
parse_args-IsUsable_example = parse_args-IsUsable arguments arguments-accepted
