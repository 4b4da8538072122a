-- ===== src/Run.antt =====
-- src/runner.cpp: the command lines that `runBenchmarkSuite` builds for one run.

pub mod Generator
pub mod Client
pub mod Delivery
pub mod Analyzer
mod Tests
use dxfcxx_event_test.Base.{
  ℕ, zero, suc, ◌+◌, ◌-◌, ◌*◌, ◌/◌, ◌%◌, ◌^◌, ◌≤◌, ◌<◌, min, max, ◌≡◌, refl, sym, ap, ◌∙◌, subst,
  ◌≢◌, ◌↔◌, ◌⊎◌, inl, inr, Bool, true, false, not, ◌&&◌, ◌||◌, Option, none, some, List, [], ◌∷◌,
  ◌++◌, map, reverse, append-nil, append_assoc, arith, ltb, leb, ◌==◌, if◌then◌else◌, ltb→lt,
  lt→ltb, ltb→ge, ge→ltb, leb→le, le→leb, gt→leb, ==_iff, ==_refl, ne→==, Bool-cases, Option-cases,
  Result, ok, err, ◌>>=◌, ◌>>◌, guard, >>=-eq-ok, >>-eq-ok, guard-eq-ok, ok-injective,
  some-injective, none-ne-some, length, get_elem?, set, take, drop, replicate, length-append,
  length-reverse, length-take, length-drop, length-replicate, take-length-append,
  drop-length-append, length-set, length-map, All, All-append, All-reverse, All-mono,
}
use dxfcxx_event_test.Text.{
  Bytes, codes, same, starts_with, ends_with, remove_suffix, substr, find, find_from, is_digit,
  value, to_string, zero_padded, size_limit, int64_limit, Scan, invalid, out_of_range, scanned,
  span_digits, scan_u64, scan_i64, scanned_all,
}
use dxfcxx_event_test.Suite.{Suite}
use dxfcxx_event_test.Plan.{Run}

unfoldable pub active_arguments : Option ℕ → List Bytes
unfolding codes to_string
active_arguments none = []
active_arguments (some count) = codes "--active-symbols" ∷ to_string count ∷ []

-- `serverArguments`.
unfoldable pub server_arguments : Suite → Run → List Bytes
unfolding codes same to_string active_arguments
server_arguments suite run =
    codes "--address"
    ∷ suite.listen_address
    ∷ codes "--monitoring-stat"
    ∷ suite.monitoring_period
    ∷ codes "--time-series-history"
    ∷ to_string run.time_series_history_limit
    ∷ (active_arguments suite.active_symbol_count
        ++ (if same run.client_implementation (codes "graal")
            then []
            else codes "--task" ∷ run.task ∷ []))

-- The arguments of the client of the C API.
unfoldable pub legacy_arguments : Suite → Run → Bytes → List Bytes
unfolding codes
legacy_arguments suite run prefix =
    codes "--address"
    ∷ suite.address
    ∷ codes "--task"
    ∷ run.task
    ∷ codes "--warmup"
    ∷ suite.warmup
    ∷ codes "--duration"
    ∷ suite.duration
    ∷ codes "--startup-timeout"
    ∷ suite.startup_timeout
    ∷ codes "--output"
    ∷ prefix
    ∷ codes "--contract"
    ∷ codes "default"
    ∷ codes "--require-events"
    ∷ []

-- The arguments of the client that counts deliveries.
unfoldable pub delivery_arguments : Suite → Run → Bytes → List Bytes
unfolding codes
delivery_arguments suite run prefix =
    codes "--address"
    ∷ suite.address
    ∷ codes "--task"
    ∷ run.task
    ∷ codes "--role"
    ∷ run.client_role
    ∷ codes "--events-batch-limit"
    ∷ run.events_batch_limit
    ∷ codes "--aggregation-period"
    ∷ run.aggregation_period
    ∷ codes "--monitoring-stat"
    ∷ suite.monitoring_period
    ∷ codes "--warmup"
    ∷ suite.warmup
    ∷ codes "--duration"
    ∷ suite.duration
    ∷ codes "--startup-timeout"
    ∷ suite.startup_timeout
    ∷ codes "--output"
    ∷ prefix
    ∷ codes "--require-events"
    ∷ []

unfoldable pub after_arguments : Option Bytes → List Bytes
unfolding codes
after_arguments none = []
after_arguments (some after) = codes "--time-series-subscribe-after" ∷ after ∷ []

-- `clientArguments`, for the client that measures latency.
unfoldable pub client_arguments : Suite → Run → Bytes → List Bytes
unfolding codes after_arguments
client_arguments suite run prefix =
    codes "--address"
    ∷ suite.address
    ∷ codes "--task"
    ∷ run.task
    ∷ codes "--role"
    ∷ run.client_role
    ∷ codes "--listener-delay"
    ∷ run.listener_delay
    ∷ codes "--events-batch-limit"
    ∷ run.events_batch_limit
    ∷ codes "--aggregation-period"
    ∷ run.aggregation_period
    ∷ codes "--warmup"
    ∷ suite.warmup
    ∷ codes "--duration"
    ∷ suite.duration
    ∷ codes "--window"
    ∷ suite.window
    ∷ codes "--batch-timeout"
    ∷ suite.batch_timeout
    ∷ codes "--startup-timeout"
    ∷ suite.startup_timeout
    ∷ codes "--time-series-prefill"
    ∷ run.time_series_prefill
    ∷ codes "--monitoring-stat"
    ∷ suite.monitoring_period
    ∷ codes "--output"
    ∷ prefix
    ∷ (after_arguments run.time_series_subscribe_after
        ++ (if run.time_series_unsubscribe_after_snapshot
            then codes "--time-series-unsubscribe-after-snapshot" ∷ []
            else []))

-- The arguments of the analyzer, for the directory of the runs.
unfoldable pub analyzer_arguments : Suite → Bytes → List Bytes
unfolding codes
analyzer_arguments suite run_directory =
    codes "--run-directory"
    ∷ run_directory
    ∷ codes "--monitoring-period"
    ∷ suite.monitoring_period
    ∷ []
