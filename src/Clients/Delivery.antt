-- ===== src/Clients/Delivery.antt =====
-- src/graal_delivery_client.cpp: `Config` and `parseArgs`, the command line of the client that
-- counts deliveries.
use dxfcxx_event_test.Base.{
  ℕ, Bool, true, false, ◌&&◌, Option, none, some, List, if◌then◌else◌, Result, ok, err, ◌>>=◌,
}
use dxfcxx_event_test.Text.{Bytes, codes, same, value}
use dxfcxx_event_test.Duration.{parse_duration, parse_monitoring_period}
use dxfcxx_event_test.Arguments.{Refusal, unknown_argument, with_value, read_arguments}
use dxfcxx_event_test.Clients.{ClientRole, stream_feed, parse_role, parse_events_batch_limit}

-- Durations are counts of milliseconds.
pub record Config : Type 0 where
  pub address : Bytes
  pub task : Bytes
  pub warmup : ℕ
  pub duration : ℕ
  pub startup_timeout : ℕ
  pub monitoring_stat : Option ℕ
  pub output : Bytes
  pub role : ClientRole
  pub events_batch_limit : ℕ
  pub aggregation_period : ℕ
  pub require_events : Bool

-- An argument without a value.
unfoldable pub flag : Bytes → Option (Config → Config)
unfolding same codes
flag arg =
    if same arg (codes "--require-events")
    then some (λ c. record c { require_events = true })
    else none

module _ (optimal_batch_limit max_batch_limit : ℕ) where
  abbrev pub default_config : Config
  default_config = record {
    address = codes "127.0.0.1:7400";
    task = codes "SUB:T1@100ms";
    warmup = 2_000;
    duration = 5_000;
    startup_timeout = 30_000;
    monitoring_stat = none;
    output = codes "graal-delivery";
    role = stream_feed;
    events_batch_limit = optimal_batch_limit;
    aggregation_period = 0;
    require_events = false;
  }

  -- An argument with a value.
  unfoldable pub set_option : Bytes → Bytes → Config → Result Refusal Config
  unfolding same codes with_value parse_role parse_events_batch_limit
  set_option arg value c =
      if same arg (codes "--address")
      then ok (record c { address = value })
      else if same arg (codes "--task")
      then ok (record c { task = value })
      else if same arg (codes "--output")
      then ok (record c { output = value })
      else if same arg (codes "--role")
      then (parse_role value >>= λ r. ok (record c { role = r }))
      else if same arg (codes "--events-batch-limit")
      then (parse_events_batch_limit optimal_batch_limit max_batch_limit value >>= λ n.
          ok (record c { events_batch_limit = n }))
      else if same arg (codes "--aggregation-period") && same value (codes "0")
      then ok (record c { aggregation_period = 0 })
      else if same arg (codes "--monitoring-stat")
      then with_value (parse_monitoring_period value) (λ p. record c { monitoring_stat = p })
      else if same arg (codes "--warmup")
      then with_value (parse_duration value) (λ d. record c { warmup = d })
      else if same arg (codes "--duration")
      then with_value (parse_duration value) (λ d. record c { duration = d })
      else if same arg (codes "--startup-timeout")
      then with_value (parse_duration value) (λ d. record c { startup_timeout = d })
      else if same arg (codes "--aggregation-period")
      then with_value (parse_duration value) (λ d. record c { aggregation_period = d })
      else err (unknown_argument arg)

  unfoldable pub parse_args : List Bytes → Result Refusal Config
  unfolding read_arguments flag set_option
  parse_args = read_arguments flag set_option default_config
