-- ===== src/Suite.antt =====
-- src/runner.cpp and include/latency/runner.hpp: the configuration of a suite of benchmark runs.
pub mod Settings
pub mod Assign
pub mod Check
pub mod Sizes
pub mod Profiles
pub mod Valid
pub mod Accepted
pub mod Started
mod Tests
use dxfcxx_event_test.Base.{
  ℕ, zero, suc, ◌+◌, ◌-◌, ◌*◌, ◌/◌, ◌%◌, ◌^◌, ◌≤◌, ◌<◌, min, max, ◌≡◌, refl, sym, ap, ◌∙◌, subst,
  ◌≢◌, ◌↔◌, ◌⊎◌, inl, inr, Bool, true, false, not, ◌&&◌, ◌||◌, Option, none, some, List, [], ◌∷◌,
  ◌++◌, map, reverse, append-nil, append_assoc, arith, ltb, leb, ◌==◌, if◌then◌else◌, ltb→lt,
  lt→ltb, ltb→ge, ge→ltb, leb→le, le→leb, gt→leb, ==_iff, ==_refl, ne→==, Bool-cases, Option-cases,
  Result, ok, err, ◌>>=◌, ◌>>◌, guard, >>=-eq-ok, length, get_elem?, set, take, drop, replicate,
  length-append, length-reverse, length-take, length-drop, length-replicate, take-length-append,
  drop-length-append, length-set, length-map, All, All-append, All-reverse, All-mono,
}
use dxfcxx_event_test.Text.{
  Bytes, codes, same, starts_with, ends_with, remove_suffix, substr, find, find_from, is_digit,
  value, to_string, zero_padded, size_limit, int64_limit, Scan, invalid, out_of_range, scanned,
  span_digits, scan_u64, scan_i64, scanned_all,
}
use dxfcxx_event_test.Task.{ParseError}

pub record Experiment : Type 0 where
  pub title : Bytes
  pub objective : Bytes
  pub variable : Bytes
  pub controls : Bytes
  pub success_criteria : Bytes
  pub limitations : Bytes

pub record SuiteProfile : Type 0 where
  pub name : Bytes
  pub task : Bytes
  pub client_role : Option Bytes
  pub events_batch_limit : Option Bytes
  pub aggregation_period : Option Bytes
  pub client_implementation : Option Bytes
  pub time_series_prefill : Option Bytes
  pub time_series_history_limit : Option ℕ
  pub time_series_subscribe_after : Option Bytes

pub record Suite : Type 0 where
  pub experiment : Experiment
  pub repetitions : ℕ
  pub warmup : Bytes
  pub duration : Bytes
  pub window : Bytes
  pub batch_timeout : Bytes
  pub startup_timeout : Bytes
  pub monitoring_period : Bytes
  pub time_series_prefill : Bytes
  pub time_series_history_limit : ℕ
  pub active_symbol_count : Option ℕ
  pub time_series_subscribe_after : Option Bytes
  pub time_series_unsubscribe_after_snapshot : Bool
  pub client_role : Bytes
  pub listener_delay : Bytes
  pub events_batch_limit : Bytes
  pub aggregation_period : Bytes
  pub cooldown_seconds : ℕ
  pub address : Bytes
  pub listen_address : Bytes
  pub profiles : List SuiteProfile

abbrev no_experiment : Experiment
no_experiment = record {
  title = [];
  objective = [];
  variable = [];
  controls = [];
  success_criteria = [];
  limitations = [];
}

-- The initializers of the fields.
abbrev pub default_suite : Suite
default_suite = record {
  experiment = no_experiment;
  repetitions = 0;
  warmup = [];
  duration = [];
  window = [];
  batch_timeout = [];
  startup_timeout = [];
  monitoring_period = [];
  time_series_prefill = codes "2s";
  time_series_history_limit = 1_000;
  active_symbol_count = none;
  time_series_subscribe_after = none;
  time_series_unsubscribe_after_snapshot = false;
  client_role = [];
  listener_delay = codes "0";
  events_batch_limit = codes "optimal";
  aggregation_period = codes "0";
  cooldown_seconds = 0;
  address = [];
  listen_address = [];
  profiles = [];
}

-- The messages of `parseBenchmarkSuite`, with what they quote.
pub data SuiteError : Type 0 where
  invalid_line : Bytes → SuiteError
  invalid_profile : Bytes → SuiteError
  not_a_size : Bytes → Bool → SuiteError
  not_a_boolean : Bytes → SuiteError
  missing : Bytes → SuiteError
  empty : Bytes → SuiteError
  partial_experiment : SuiteError
  unknown_setting : Bytes → SuiteError
  invalid_role : SuiteError
  no_profiles : SuiteError
  invalid_profile_role : Bytes → Bytes → SuiteError
  invalid_implementation : Bytes → Bytes → SuiteError
  invalid_task : Bytes → ParseError → SuiteError
  too_many_active : ℕ → ℕ → Bytes → SuiteError
  quantity_not_active : ℕ → ℕ → Bytes → SuiteError
  no_time_series : Bytes → SuiteError
  time_series_role : Bytes → SuiteError
  time_series_implementation : Bytes → SuiteError
  time_series_not_delayed : Bytes → SuiteError
  no_time_series_profile : SuiteError

abbrev pub Checked : Type 0 → Type 0
Checked A = Result SuiteError A
