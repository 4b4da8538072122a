-- ===== src/Clients/Graal.antt =====
-- src/client.cpp: `Config` and `parseArgs`, the command line of the client that measures latency.
use dxfcxx_event_test.Base.{
  ℕ, Bool, true, false, ◌&&◌, Option, none, some, List, if◌then◌else◌, Result, ok, err, ◌>>=◌,
}
use dxfcxx_event_test.Text.{Bytes, codes, same, value}
use dxfcxx_event_test.Duration.{parse_duration, parse_monitoring_period}
use dxfcxx_event_test.Arguments.{Refusal, unknown_argument, with_value, read_arguments}
use dxfcxx_event_test.Clients.{ClientRole, stream_feed, parse_role, parse_events_batch_limit}

-- Durations are counts of milliseconds.
pub record Config : Type 0 where
  pub address : Bytes
  pub task : Bytes
  pub warmup : ℕ
  pub duration : ℕ
  pub window : ℕ
  pub batch_timeout : ℕ
  pub startup_timeout : ℕ
  pub time_series_prefill : ℕ
  pub time_series_subscribe_after : Option ℕ
  pub time_series_unsubscribe_after_snapshot : Bool
  pub listener_delay : ℕ
  pub aggregation_period : ℕ
  pub monitoring_stat : Option ℕ
  pub output : Bytes
  pub role : ClientRole
  pub events_batch_limit : ℕ

-- An argument without a value.
unfoldable pub flag : Bytes → Option (Config → Config)
unfolding same codes
flag arg =
    if same arg (codes "--time-series-unsubscribe-after-snapshot")
    then some (λ c. record c { time_series_unsubscribe_after_snapshot = true })
    else none

-- The arguments with a duration.
unfoldable pub set_duration : Bytes → Config → ℕ → Result Refusal Config
unfolding same codes
set_duration arg c d =
    if same arg (codes "--warmup")
    then ok (record c { warmup = d })
    else if same arg (codes "--duration")
    then ok (record c { duration = d })
    else if same arg (codes "--window")
    then ok (record c { window = d })
    else if same arg (codes "--batch-timeout")
    then ok (record c { batch_timeout = d })
    else if same arg (codes "--startup-timeout")
    then ok (record c { startup_timeout = d })
    else if same arg (codes "--time-series-prefill")
    then ok (record c { time_series_prefill = d })
    else if same arg (codes "--time-series-subscribe-after")
    then ok (record c { time_series_subscribe_after = some d })
    else if same arg (codes "--listener-delay")
    then ok (record c { listener_delay = d })
    else if same arg (codes "--aggregation-period")
    then ok (record c { aggregation_period = d })
    else err (unknown_argument arg)

module _ (optimal_batch_limit max_batch_limit : ℕ) where
  abbrev pub default_config : Config
  default_config = record {
    address = codes "127.0.0.1:7400";
    task = codes "SUB:Q100";
    warmup = 30_000;
    duration = 300_000;
    window = 10_000;
    batch_timeout = 30_000;
    startup_timeout = 30_000;
    time_series_prefill = 2_000;
    time_series_subscribe_after = none;
    time_series_unsubscribe_after_snapshot = false;
    listener_delay = 0;
    aggregation_period = 0;
    monitoring_stat = some 10_000;
    output = codes "latency";
    role = stream_feed;
    events_batch_limit = optimal_batch_limit;
  }

  -- An argument with a value.
  unfoldable pub set_option : Bytes → Bytes → Config → Result Refusal Config
  unfolding same codes with_value parse_role parse_events_batch_limit set_duration
  set_option arg value c =
      if same arg (codes "--address")
      then ok (record c { address = value })
      else if same arg (codes "--task")
      then ok (record c { task = value })
      else if same arg (codes "--output")
      then ok (record c { output = value })
      else if same arg (codes "--monitoring-stat")
      then with_value (parse_monitoring_period value) (λ p. record c { monitoring_stat = p })
      else if same arg (codes "--role")
      then (parse_role value >>= λ r. ok (record c { role = r }))
      else if same arg (codes "--events-batch-limit")
      then (parse_events_batch_limit optimal_batch_limit max_batch_limit value >>= λ n.
          ok (record c { events_batch_limit = n }))
      else if same arg (codes "--aggregation-period") && same value (codes "0")
      then ok (record c { aggregation_period = 0 })
      else if same arg (codes "--listener-delay") && same value (codes "0")
      then ok (record c { listener_delay = 0 })
      else with_value (parse_duration value) (λ d. d) >>= λ d. set_duration arg c d

  unfoldable pub parse_args : List Bytes → Result Refusal Config
  unfolding read_arguments flag set_option
  parse_args = read_arguments flag set_option default_config
