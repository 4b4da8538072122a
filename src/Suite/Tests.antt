-- ===== src/Suite/Tests.antt =====
-- A configuration with a plain profile and one with time and sales.
use dxfcxx_event_test.Base.{◌≡◌, refl, none, some, [], ◌∷◌, ◌++◌, ok, All}
use dxfcxx_event_test.Text.{
  Bytes, codes, same, starts_with, ends_with, find, find_from, span_digits, scan_u64, scan_i64,
}
use dxfcxx_event_test.Task.{
  TaskPattern, parse_kind, event_count, largest_quantity, quantity_in, symbol_count,
  symbol_count_or,
}
use dxfcxx_event_test.Task.Parse.{parse_task, parse_sections, separators}
use dxfcxx_event_test.Suite.{SuiteProfile, Suite, default_suite}
use dxfcxx_event_test.Suite.Check.{
  check_active, check_profile, check_profiles, check_quantities, check_suite, check_time_series,
  finish, has_time_and_sale, parsed_or_error, valid_client_implementation, valid_role,
  parse_benchmark_suite,
}
use dxfcxx_event_test.Suite.Assign.{
  assign_repetitions, assign_all, assign_cooldown, assign_history, assign_active, assign_after,
  assign_unsubscribe, assign_experiment, check_known, fill_texts, assign_settings,
  complete_experiment, fill_experiments, fill_text, is_known, require,
}
use dxfcxx_event_test.Suite.Settings.{
  add_profile, assign_key, at_separator, drop_spaces, find_key, history_of, less, lines,
  named_profile, on_key, on_line, on_text, parse_boolean, parse_size, part, profile_of,
  profile_with, read_lines, trim,
}
use dxfcxx_event_test.Text.Split.{cons_first, split}
use dxfcxx_event_test.Suite.Accepted.{IsValid, parse_benchmark_suite-IsValid}
use dxfcxx_event_test.Suite.Started.{parse_benchmark_suite-starts}
use dxfcxx_event_test.Server.Pools.{value_or, resolve_active_symbol_count}
use dxfcxx_event_test.Plan.{Overrides}
use dxfcxx_event_test.Run.Generator.{parse_benchmark_suite-IsRead, IsRead}
use dxfcxx_event_test.Duration.{parse_duration, parse_monitoring_period}

abbrev line : Bytes → Bytes → Bytes
line key text = key ++ (b'=' ∷ (text ++ (b'\n' ∷ [])))

abbrev configuration : Bytes
configuration =
    codes "# comment"
    ++ (b'\n' ∷ [])
    ++ line (codes "REPETITIONS") (codes "2")
    ++ line (codes "WARMUP") (codes "1s")
    ++ line (codes "DURATION") (codes "2s")
    ++ line (codes "WINDOW") (codes "1s")
    ++ line (codes "BATCH_TIMEOUT") (codes "3s")
    ++ line (codes "STARTUP_TIMEOUT") (codes "9s")
    ++ line (codes "MONITORING_PERIOD") (codes "1s")
    ++ line (codes "CLIENT_ROLE") (codes "feed")
    ++ line (codes "ADDRESS") (codes "h:1")
    ++ line (codes "LISTEN_ADDRESS") (codes ":1")
    ++ line (codes "COOLDOWN_SECONDS") (codes "0")
    ++ line (codes "ACTIVE_SYMBOLS") (codes "2")
    ++ line (codes "PROFILE") (codes "q|SUB:Q2|stream-feed|||legacy")
    ++ line (codes "PROFILE") (codes "t|SUB:N2")

abbrev plain_profile : Bytes → Bytes → SuiteProfile
plain_profile name task = record {
  name = name;
  task = task;
  client_role = none;
  events_batch_limit = none;
  aggregation_period = none;
  client_implementation = none;
  time_series_prefill = none;
  time_series_history_limit = none;
  time_series_subscribe_after = none;
}

abbrev two_profiles : Suite
two_profiles = record default_suite {
  repetitions = 2;
  warmup = codes "1s";
  duration = codes "2s";
  window = codes "1s";
  batch_timeout = codes "3s";
  startup_timeout = codes "9s";
  monitoring_period = codes "1s";
  client_role = codes "feed";
  address = codes "h:1";
  listen_address = codes ":1";
  active_symbol_count = some 2;
  profiles =
      record (plain_profile (codes "q") (codes "SUB:Q2")) {
        client_role = some (codes "stream-feed");
        client_implementation = some (codes "legacy");
      }
      ∷ plain_profile (codes "t") (codes "SUB:N2")
      ∷ [];
}

accepted : parse_benchmark_suite configuration ≡ ok two_profiles
unfolding assign_repetitions assign_all assign_cooldown assign_history assign_active assign_after
    assign_unsubscribe assign_experiment check_known fill_texts assign_settings complete_experiment
    fill_experiments fill_text is_known require check_active check_profile check_profiles
    check_quantities check_suite check_time_series finish has_time_and_sale parsed_or_error
    valid_client_implementation valid_role parse_benchmark_suite add_profile assign_key at_separator
    drop_spaces find_key history_of less lines named_profile on_key on_line on_text parse_boolean
    parse_size part profile_of profile_with read_lines trim parse_task parse_sections separators
    parse_kind event_count largest_quantity quantity_in symbol_count symbol_count_or codes
    starts_with find find_from same scan_u64 span_digits cons_first split
accepted = refl

parse_benchmark_suite-IsValid_example : IsValid two_profiles
parse_benchmark_suite-IsValid_example = parse_benchmark_suite-IsValid configuration accepted

parse_benchmark_suite-starts_example :
    All
      (λ profile.
        (task : TaskPattern) × (parse_task profile.task ≡ ok task)
        × (resolve_active_symbol_count (some 2) task
            ≡ some (value_or (symbol_count task) (some 2))))
      two_profiles.profiles
parse_benchmark_suite-starts_example = parse_benchmark_suite-starts configuration accepted

abbrev no_overrides : Overrides
no_overrides = record {
  client_role = none;
  listener_delay = none;
  events_batch_limit = none;
  aggregation_period = none;
}

period_read : parse_monitoring_period (codes "1s") ≡ ok (some 1_000)
unfolding parse_monitoring_period parse_duration codes same ends_with scan_i64 span_digits
period_read = refl

parse_benchmark_suite-IsRead_example :
    All (IsRead no_overrides 2 (some 1_000) two_profiles) two_profiles.profiles
parse_benchmark_suite-IsRead_example =
    parse_benchmark_suite-IsRead no_overrides 2 (some 1_000) configuration accepted period_read
