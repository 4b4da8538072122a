-- ===== src/Duration/Tests.antt =====
-- The theorems on durations at concrete inputs.
use dxfcxx_event_test.Base.{◌≡◌, refl, some, ◌++◌, ok}
use dxfcxx_event_test.Text.{codes, same, ends_with, to_string, scan_i64}
use dxfcxx_event_test.Duration.{parse_duration, parse_monitoring_period, monitoring_value}
use dxfcxx_event_test.Duration.Parse.{milliseconds, suffix, Reads, parse_duration-suffix}
use dxfcxx_event_test.Duration.Monitoring.{Spells, monitoring_value_exact}

accepted : parse_duration (codes "250ms") ≡ ok 250
unfolding codes parse_duration ends_with scan_i64
accepted = refl

monitored : parse_monitoring_period (codes "250ms") ≡ ok (some 250)
unfolding codes parse_duration parse_monitoring_period same ends_with scan_i64
monitored = refl

parse_duration-suffix_example :
    parse_duration (to_string 250 ++ suffix milliseconds)
    ≡ Reads milliseconds 250 (to_string 250 ++ suffix milliseconds)
parse_duration-suffix_example = parse_duration-suffix milliseconds 250

monitoring_value_exact_example : Spells 1250 (monitoring_value (some 1250))
monitoring_value_exact_example = monitoring_value_exact 1250
