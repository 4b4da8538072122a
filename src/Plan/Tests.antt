-- ===== src/Plan/Tests.antt =====
-- The plan of a suite with two profiles and two repetitions.
use dxfcxx_event_test.Base.{◌≡◌, none, [], ◌∷◌}
use dxfcxx_event_test.Text.{Bytes, codes}
use dxfcxx_event_test.Suite.{SuiteProfile, Suite, default_suite}
use dxfcxx_event_test.Plan.{Overrides, build_benchmark_plan}
use dxfcxx_event_test.Plan.Rotation.{rotations, build_benchmark_plan-rotations}

abbrev profile : Bytes → Bytes → SuiteProfile
profile name task = record {
  name = name;
  task = task;
  client_role = none;
  events_batch_limit = none;
  aggregation_period = none;
  client_implementation = none;
  time_series_prefill = none;
  time_series_history_limit = none;
  time_series_subscribe_after = none;
}

abbrev two_profiles : Suite
two_profiles = record default_suite {
  repetitions = 2;
  client_role = codes "feed";
  profiles = profile (codes "q") (codes "SUB:Q1") ∷ profile (codes "t") (codes "SUB:T1") ∷ [];
}

abbrev no_overrides : Overrides
no_overrides = record {
  client_role = none;
  listener_delay = none;
  events_batch_limit = none;
  aggregation_period = none;
}

build_benchmark_plan-rotations_example :
    build_benchmark_plan two_profiles no_overrides ≡ rotations two_profiles no_overrides 0 2
build_benchmark_plan-rotations_example = build_benchmark_plan-rotations two_profiles no_overrides
