-- ===== src/Run/Tests.antt =====
-- The command lines of the second run of a profile with time and sales.
use dxfcxx_event_test.Base.{ℕ, ◌⊎◌, ◌≡◌, refl, true, none, some, [], ◌∷◌, ok, err}
use dxfcxx_event_test.Text.{Bytes, codes, same, ends_with, span_digits, scan_i64}
use dxfcxx_event_test.Duration.{parse_duration, parse_monitoring_period}
use dxfcxx_event_test.Arguments.{bad_value}
use dxfcxx_event_test.Clients.{feed, parse_role, parse_events_batch_limit, limit_or_error}
use dxfcxx_event_test.Clients.Graal
use dxfcxx_event_test.Clients.Analyzer
use dxfcxx_event_test.Suite.{Suite, default_suite}
use dxfcxx_event_test.Plan.{Run}
use dxfcxx_event_test.Run.{client_arguments, analyzer_arguments}
use dxfcxx_event_test.Run.Client.{delay_of, Times, configured, client_arguments-read}
use dxfcxx_event_test.Run.Analyzer.{config, analyzer_arguments-parse_monitoring_period}

abbrev suite : Suite
suite = record default_suite {
  warmup = codes "1s";
  duration = codes "2s";
  window = codes "1s";
  batch_timeout = codes "3s";
  startup_timeout = codes "9s";
  monitoring_period = codes "0";
  address = codes "h:1";
}

abbrev run : Run
run = record {
  profile = codes "t";
  repetition = 2;
  prefix = codes "t-r02";
  task = codes "SUB:N2";
  client_role = codes "feed";
  listener_delay = codes "0";
  events_batch_limit = codes "250";
  aggregation_period = codes "5ms";
  client_implementation = codes "graal";
  time_series_prefill = codes "2s";
  time_series_history_limit = 50;
  time_series_subscribe_after = some (codes "1s");
  time_series_unsubscribe_after_snapshot = true;
}

times : Times suite run
unfolding parse_duration parse_monitoring_period delay_of codes same ends_with scan_i64 span_digits
times = record {
  warmup = 1_000;
  duration = 2_000;
  window = 1_000;
  batch_timeout = 3_000;
  startup_timeout = 9_000;
  time_series_prefill = 2_000;
  listener_delay = 0;
  aggregation_period = 5;
  monitoring_stat = none;
  warmup_is = refl;
  duration_is = refl;
  window_is = refl;
  batch_timeout_is = refl;
  startup_timeout_is = refl;
  time_series_prefill_is = refl;
  listener_delay_is = refl;
  aggregation_period_is = refl;
  monitoring_stat_is = refl;
}

role_is : parse_role run.client_role ≡ ok feed
unfolding parse_role codes same
role_is = refl

limit_is : parse_events_batch_limit 0 2_147_483_647 run.events_batch_limit ≡ ok 250
unfolding parse_events_batch_limit limit_or_error codes same scan_i64 span_digits
limit_is = refl

after_is : parse_duration (codes "1s") ≡ ok 1_000
unfolding parse_duration codes same ends_with scan_i64 span_digits
after_is = refl

client_arguments-read_example :
    Graal.parse_args 0 2_147_483_647 (client_arguments suite run (codes "runs/t-r02"))
    ≡ ok (
        configured 0 2_147_483_647 suite run times feed 250 role_is limit_is
          (codes "runs/t-r02")
          (some 1_000))
client_arguments-read_example =
    client_arguments-read 0 2_147_483_647 suite run times feed 250 role_is limit_is
      (codes "runs/t-r02") (some 1_000) after_is

analyzer_arguments-parse_monitoring_period_example :
    ((suite.monitoring_period ≡ codes "0")
      × (parse_monitoring_period suite.monitoring_period ≡ ok none)
      × ((e : Bytes) × (Analyzer.parse_args (analyzer_arguments suite (b'd' ∷ []))
            ≡ err (bad_value e))))
    ⊎ (((d : ℕ) × (parse_monitoring_period suite.monitoring_period ≡ ok (some d))
          × (Analyzer.parse_args (analyzer_arguments suite (b'd' ∷ [])) ≡ ok (config b'd' [] d)))
        ⊎ ((e : Bytes) × (parse_monitoring_period suite.monitoring_period ≡ err e)
            × (Analyzer.parse_args (analyzer_arguments suite (b'd' ∷ [])) ≡ err (bad_value e))))
analyzer_arguments-parse_monitoring_period_example =
    analyzer_arguments-parse_monitoring_period suite b'd' []
