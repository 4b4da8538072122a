-- ===== src/Suite/Check.antt =====
-- src/runner.cpp: `validRole`, `validClientImplementation`, the checks at the end of
-- `parseBenchmarkSuite`, and the whole of it.
use dxfcxx_event_test.Base.{
  ℕ, Bool, true, false, not, ◌&&◌, ◌||◌, Option, none, some, List, [], ◌∷◌, ltb, leb, if◌then◌else◌,
  Result, ok, err, ◌>>=◌, ◌>>◌, guard,
}
use dxfcxx_event_test.Text.{Bytes, codes, same}
use dxfcxx_event_test.Task.{
  time_and_sale, PatternItem, TaskPattern, ParseError, symbol_count, quantity_in,
}
use dxfcxx_event_test.Task.Parse.{parse_task}
use dxfcxx_event_test.Suite.{
  SuiteProfile, Suite, default_suite, invalid_role, no_profiles, invalid_profile_role,
  invalid_implementation, invalid_task, too_many_active, quantity_not_active, no_time_series,
  time_series_role, time_series_implementation, time_series_not_delayed, no_time_series_profile,
  Checked,
}
use dxfcxx_event_test.Suite.Settings.{Reading, lines, read_lines}
use dxfcxx_event_test.Suite.Assign.{assign_settings}

unfoldable pub valid_role : Bytes → Bool
unfolding same codes
valid_role role = same role (codes "feed") || same role (codes "stream-feed")

unfoldable pub valid_client_implementation : Bytes → Bool
unfolding same codes
valid_client_implementation implementation =
    same implementation (codes "graal")
    || same implementation (codes "graal-delivery")
    || same implementation (codes "legacy")

abbrev pub or_default {ℓ} : {A : Type ℓ} → Option A → A → A
or_default none default = default
or_default (some a) default = a

abbrev pub has_value {ℓ} : {A : Type ℓ} → Option A → Bool
has_value none = false
has_value (some a) = true

-- An optional text is missing or passes the test.
abbrev pub all_of : (Bytes → Bool) → Option Bytes → Bool
all_of test none = true
all_of test (some text) = test text

-- `task->quantity(EventKind::TIME_AND_SALE).value_or(0)`, as a condition.
unfoldable pub has_time_and_sale : TaskPattern → Bool
unfolding quantity_in
has_time_and_sale task = ltb 0 (or_default (quantity_in time_and_sale task.items) 0)

unfoldable pub check_quantities : ℕ → Bytes → List PatternItem → Checked (Unit {0})
check_quantities count name [] = ok tt
check_quantities count name (item ∷ items) =
    guard (leb item.quantity count) (quantity_not_active count item.quantity name)
    >> check_quantities count name items

-- The checks of `ACTIVE_SYMBOLS` against a profile's task.
unfoldable pub check_active : Option ℕ → Bytes → TaskPattern → Checked (Unit {0})
unfolding symbol_count check_quantities
check_active none name task = ok tt
check_active (some count) name task =
    guard (leb count (symbol_count task)) (too_many_active count (symbol_count task) name)
    >> check_quantities count name task.items

-- The checks of a profile whose task has time and sales.
unfoldable pub check_time_series : Suite → SuiteProfile → Checked (Unit {0})
unfolding same codes
check_time_series suite profile =
    guard (same (or_default profile.client_role suite.client_role) (codes "feed"))
      (time_series_role profile.name)
    >> guard (same (or_default profile.client_implementation (codes "graal")) (codes "graal"))
        (time_series_implementation profile.name)
    >> guard
        (not (
          suite.time_series_unsubscribe_after_snapshot
          && not (has_value profile.time_series_subscribe_after)
          && not (has_value suite.time_series_subscribe_after)))
        (time_series_not_delayed profile.name)

unfoldable pub parsed_or_error : Bytes → Result ParseError TaskPattern → Checked TaskPattern
parsed_or_error name (ok task) = ok task
parsed_or_error name (err e) = err (invalid_task name e)

-- One round of the loop over the profiles: does its task have time and sales?
unfoldable pub check_profile : Suite → SuiteProfile → Checked Bool
unfolding valid_role valid_client_implementation parsed_or_error check_active has_time_and_sale
    check_time_series
check_profile suite profile =
    guard (all_of valid_role profile.client_role)
      (invalid_profile_role profile.name (or_default profile.client_role []))
    >> guard (all_of valid_client_implementation profile.client_implementation)
        (invalid_implementation profile.name (or_default profile.client_implementation []))
    >> (parsed_or_error profile.name (parse_task profile.task) >>= λ task.
        check_active suite.active_symbol_count profile.name task
        >> guard
            (not (has_value profile.time_series_subscribe_after && not (has_time_and_sale task)))
            (no_time_series profile.name)
        >> (if has_time_and_sale task then check_time_series suite profile else ok tt)
        >> ok (has_time_and_sale task))

-- The loop, with `hasTimeSeriesProfile`.
unfoldable pub check_profiles : Suite → List SuiteProfile → Bool → Checked Bool
unfolding check_profile
check_profiles suite [] seen = ok seen
check_profiles suite (profile ∷ profiles) seen =
    check_profile suite profile >>= λ found. check_profiles suite profiles (seen || found)

-- `suite.profiles.empty()`, negated.
abbrev pub some_profile : List SuiteProfile → Bool
some_profile [] = false
some_profile (profile ∷ profiles) = true

unfoldable pub check_suite : Suite → Checked (Unit {0})
unfolding valid_role check_profiles
check_suite suite =
    guard (valid_role suite.client_role) invalid_role
    >> guard (some_profile suite.profiles) no_profiles
    >> (check_profiles suite suite.profiles false >>= λ seen.
        guard (not (suite.time_series_unsubscribe_after_snapshot && not seen))
          no_time_series_profile)

unfoldable pub finish : Reading → Checked Suite
unfolding assign_settings check_suite
finish r = assign_settings r.settings (record default_suite { profiles = r.profiles }) >>= λ suite.
    (check_suite suite >> ok suite)

unfoldable pub parse_benchmark_suite : Bytes → Checked Suite
unfolding lines read_lines finish
parse_benchmark_suite input =
    read_lines (lines input) (record { settings = []; profiles = [] }) >>= finish
