-- ===== src/Monitoring/Tests.antt =====
-- A profile whose name looks like a prefix itself, and a result with two event rows.
use dxfcxx_event_test.Base.{ℕ, ◌≡◌, refl, Option, none, List, [], ◌∷◌, map, arith, ◌>>=◌}
use dxfcxx_event_test.Text.{Bytes, codes, same, starts_with, scan_u64, scanned_all}
use dxfcxx_event_test.Suite.{SuiteProfile, default_suite}
use dxfcxx_event_test.Plan.{Overrides, run_of}
use dxfcxx_event_test.Monitoring.{parse_benchmark_profile}
use dxfcxx_event_test.Csv.{on_byte, read_row, parse_csv_row}
use dxfcxx_event_test.Monitoring.Measurement.{Columns, read_measurement}
use dxfcxx_event_test.Monitoring.Places.{ArePlaces, IsPlace}
use dxfcxx_event_test.Monitoring.Rows.{entries, whole, read_measurement-entries}
use dxfcxx_event_test.Monitoring.Prefix.{parse_benchmark_profile-prefix}

abbrev name : Bytes
name = b'a' ∷ b'-' ∷ b'r' ∷ b'7' ∷ []

abbrev profile : SuiteProfile
profile = record {
  name = name;
  task = codes "SUB:Q2";
  client_role = none;
  events_batch_limit = none;
  aggregation_period = none;
  client_implementation = none;
  time_series_prefill = none;
  time_series_history_limit = none;
  time_series_subscribe_after = none;
}

abbrev no_overrides : Overrides
no_overrides = record {
  client_role = none;
  listener_delay = none;
  events_batch_limit = none;
  aggregation_period = none;
}

parse_benchmark_profile-prefix_example :
    parse_benchmark_profile (run_of default_suite no_overrides 3 profile).prefix
    ≡ record { scenario = name; repetition = 3 }
parse_benchmark_profile-prefix_example =
    parse_benchmark_profile-prefix default_suite no_overrides 3 profile (λ e. cc)
      (refl, (refl, (refl, (refl, tt)))) (refl, (refl, (refl, (refl, tt)))) (omega arith)

abbrev headings : Bytes
headings = codes "window_start_utc,window_end_utc,sample_kind,expected_per_batch"

-- A row of another kind stands between two event rows.
abbrev rows : List Bytes
rows = codes "10,20,event,5" ∷ codes "20,30,batch,5" ∷ codes "20,30,event,7" ∷ []

abbrev number : Bytes → Option ℕ
number text = scanned_all (scan_u64 text)

abbrev columns : Columns
columns = record { start = 0; end = 1; kind = 2; expected = 3; nominal = none }

columns-ArePlaces : ArePlaces (parse_csv_row headings) columns
unfolding IsPlace parse_csv_row read_row on_byte same codes starts_with
columns-ArePlaces = record {
  start = record { there = refl; new = tt };
  end = record { there = refl; new = (refl, tt) };
  kind = record { there = refl; new = (refl, (refl, tt)) };
  expected = record { there = refl; new = (refl, (refl, (refl, tt))) };
  nominal = (refl, (refl, (refl, (refl, tt))));
}

read_measurement-entries_example :
    read_measurement number number (headings ∷ rows)
    ≡ (entries number number columns (map parse_csv_row rows) >>= whole number number)
read_measurement-entries_example =
    read_measurement-entries number number headings rows columns columns-ArePlaces
