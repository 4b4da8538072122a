-- ===== src/Plan.antt =====
-- src/runner.cpp and include/latency/runner.hpp: `buildBenchmarkPlan`, the runs of a suite.
pub mod Rotation
mod Tests
use dxfcxx_event_test.Base.{
  ℕ, zero, suc, ◌+◌, ◌-◌, ◌*◌, ◌/◌, ◌%◌, ◌^◌, ◌≤◌, ◌<◌, min, max, ◌≡◌, refl, sym, ap, ◌∙◌, subst,
  ◌≢◌, ◌↔◌, ◌⊎◌, inl, inr, Bool, true, false, not, ◌&&◌, ◌||◌, Option, none, some, List, [], ◌∷◌,
  ◌++◌, map, reverse, append-nil, append_assoc, arith, ltb, leb, ◌==◌, if◌then◌else◌, ltb→lt,
  lt→ltb, ltb→ge, ge→ltb, leb→le, ==_iff, ==_refl, ne→==, Bool-cases, Option-cases, Result, ok, err,
  ◌>>=◌, ◌>>◌, guard, >>=-eq-ok, length, get_elem?, set, take, drop, replicate, length-append,
  length-reverse, length-take, length-drop, length-replicate, take-length-append,
  drop-length-append, length-set, length-map, All, All-append, All-reverse, All-mono,
}
use dxfcxx_event_test.Text.{
  Bytes, codes, same, starts_with, ends_with, remove_suffix, substr, find, find_from, is_digit,
  value, to_string, zero_padded, size_limit, int64_limit, Scan, invalid, out_of_range, scanned,
  span_digits, scan_u64, scan_i64, scanned_all,
}
use dxfcxx_event_test.Task.{TaskPattern, ParseError, time_and_sale, quantity_in}
use dxfcxx_event_test.Task.Parse.{parse_task}
use dxfcxx_event_test.Suite.{SuiteProfile, Suite}
use dxfcxx_event_test.Suite.Check.{or_default, has_value, has_time_and_sale}

pub record Overrides : Type 0 where
  pub client_role : Option Bytes
  pub listener_delay : Option Bytes
  pub events_batch_limit : Option Bytes
  pub aggregation_period : Option Bytes

pub record Run : Type 0 where
  pub profile : Bytes
  pub repetition : ℕ
  pub prefix : Bytes
  pub task : Bytes
  pub client_role : Bytes
  pub listener_delay : Bytes
  pub events_batch_limit : Bytes
  pub aggregation_period : Bytes
  pub client_implementation : Bytes
  pub time_series_prefill : Bytes
  pub time_series_history_limit : ℕ
  pub time_series_subscribe_after : Option Bytes
  pub time_series_unsubscribe_after_snapshot : Bool

abbrev or_else {ℓ} : {A : Type ℓ} → Option A → Option A → Option A
or_else none other = other
or_else (some a) other = some a

has_time_series : Result ParseError TaskPattern → Bool
unfolding has_time_and_sale
has_time_series (ok task) = has_time_and_sale task
has_time_series (err e) = false

-- The run of one profile, for the repetition from 1 on.
unfoldable pub run_of : Suite → Overrides → ℕ → SuiteProfile → Run
unfolding has_time_series codes zero_padded
run_of suite overrides repetition profile =
    let after =
      if has_time_series (parse_task profile.task)
      then or_else profile.time_series_subscribe_after suite.time_series_subscribe_after
      else none in
    record {
      profile = profile.name;
      repetition = repetition;
      prefix = profile.name ++ codes "-r" ++ zero_padded 2 repetition;
      task = profile.task;
      client_role =
          or_default profile.client_role (or_default overrides.client_role suite.client_role);
      listener_delay = or_default overrides.listener_delay suite.listener_delay;
      events_batch_limit =
          or_default profile.events_batch_limit
            (or_default overrides.events_batch_limit suite.events_batch_limit);
      aggregation_period =
          or_default profile.aggregation_period
            (or_default overrides.aggregation_period suite.aggregation_period);
      client_implementation = or_default profile.client_implementation (codes "graal");
      time_series_prefill = or_default profile.time_series_prefill suite.time_series_prefill;
      time_series_history_limit =
          or_default profile.time_series_history_limit suite.time_series_history_limit;
      time_series_subscribe_after = after;
      time_series_unsubscribe_after_snapshot =
          suite.time_series_unsubscribe_after_snapshot && has_value after;
    }

appended_run : Suite → Overrides → ℕ → Option SuiteProfile → List Run → List Run
appended_run suite overrides repetition none runs = runs
appended_run suite overrides repetition (some profile) runs =
    run_of suite overrides repetition profile ∷ runs

-- One repetition, from the position on, for the positions left.
unfoldable pub repetition_runs : Suite → Overrides → ℕ → ℕ → ℕ → List Run
unfolding appended_run
repetition_runs suite overrides repetition position zero = []
repetition_runs suite overrides repetition position (suc left) =
    appended_run suite overrides repetition
      (get_elem? suite.profiles ((position + repetition - 1) % length suite.profiles))
      (repetition_runs suite overrides repetition (position + 1) left)

-- The repetitions from one on, for those left.
unfoldable pub plan_from : Suite → Overrides → ℕ → ℕ → List Run
unfolding repetition_runs
plan_from suite overrides repetition zero = []
plan_from suite overrides repetition (suc left) =
    repetition_runs suite overrides repetition 0 (length suite.profiles)
    ++ plan_from suite overrides (repetition + 1) left

unfoldable pub build_benchmark_plan : Suite → Overrides → List Run
unfolding plan_from
build_benchmark_plan suite overrides = plan_from suite overrides 1 suite.repetitions
