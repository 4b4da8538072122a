-- ===== src/Run/Generator.antt =====
-- The generator reads the command line that the runner builds for it.
use dxfcxx_event_test.Base.{
  ℕ, zero, suc, ◌≡◌, refl, sym, ap, ◌∙◌, Bool, true, false, Option, none, some, List, [], ◌∷◌, ◌++◌,
  append-nil, arith, if◌then◌else◌, ok, All,
}
use dxfcxx_event_test.Text.{Bytes, codes, same, to_string, scanned, scan_u64, scanned_all}
use dxfcxx_event_test.Text.Decimal.{scan_u64-to_string}
use dxfcxx_event_test.Task.{TaskPattern}
use dxfcxx_event_test.Task.Parse.{parse_task}
use dxfcxx_event_test.Duration.{parse_monitoring_period}
use dxfcxx_event_test.Suite.{SuiteProfile, Suite}
use dxfcxx_event_test.Suite.Check.{or_default, parse_benchmark_suite}
use dxfcxx_event_test.Suite.Sizes.{IsSize, IsSized, HistoryIsSize}
use dxfcxx_event_test.Suite.Valid.{ProfileIsValid}
use dxfcxx_event_test.Suite.Accepted.{parse_benchmark_suite-IsValid}
use dxfcxx_event_test.Plan.{Overrides, Run, run_of}
use dxfcxx_event_test.Run.{active_arguments, server_arguments}
use dxfcxx_event_test.Server.Config.{
  Config, Refusal, default_config, positive, with_active, with_history, with_task, with_monitoring,
  set_option, parse_args, history_not_positive, active_not_positive,
}

-- A printed size is read back.
positive-to_string :
    (e : Refusal) (n : ℕ) → IsSize n → positive e (scanned_all (scan_u64 (to_string n))) ≡ ok n
unfolding positive
positive-to_string e zero (p, fits) = absurd (omega arith)
positive-to_string e (suc n) (p, fits) =
    let read : scan_u64 (to_string (suc n)) ≡ scanned (suc n) [] =
      ap scan_u64 (sym (append-nil (to_string (suc n)))) ∙ scan_u64-to_string (suc n) [] fits tt in
    rw read refl

module _ (suite : Suite) (run : Run) (period : Option ℕ) where
  -- What the generator is to do for the run.
  abbrev pub generator_config : Config
  generator_config = record {
    address = suite.listen_address;
    task = if same run.client_implementation (codes "graal") then none else some run.task;
    monitoring_stat = period;
    trace_subscriptions = false;
    time_series_history_limit = run.time_series_history_limit;
    active_symbol_count = suite.active_symbol_count;
  }

  task_arguments : Bool → List Bytes
  unfolding codes
  task_arguments graal = if graal then [] else codes "--task" ∷ run.task ∷ []

  read_task :
      (graal : Bool) (c : Config) (task : TaskPattern)
      → parse_task run.task ≡ ok task
      → parse_args (record c { task = none }) (task_arguments graal)
        ≡ ok (record c { task = if graal then none else some run.task })
  unfolding task_arguments parse_args set_option same codes with_task
  read_task true c task h = refl
  read_task false c task h = rw h refl

  read_active :
      (active : Option ℕ) (c : Config) (rest : List Bytes)
      → ((n : ℕ) → active ≡ some n → IsSize n)
      → parse_args (record c { active_symbol_count = none }) (active_arguments active ++ rest)
        ≡ parse_args (record c { active_symbol_count = active }) rest
  unfolding active_arguments parse_args set_option same codes with_active
  read_active none c rest h = refl
  read_active (some n) c rest h = rw (positive-to_string active_not_positive n (h n refl)) refl

  read_first :
      (rest : List Bytes)
      → parse_monitoring_period suite.monitoring_period ≡ ok period
      → IsSize run.time_series_history_limit
      → parse_args default_config (
          codes "--address"
          ∷ suite.listen_address
          ∷ codes "--monitoring-stat"
          ∷ suite.monitoring_period
          ∷ codes "--time-series-history"
          ∷ to_string run.time_series_history_limit
          ∷ rest)
        ≡ parse_args (record generator_config { task = none; active_symbol_count = none }) rest
  unfolding parse_args set_option same codes with_monitoring with_history
  read_first rest p h =
      rw (p, positive-to_string history_not_positive run.time_series_history_limit h) refl

  server_arguments-words :
      server_arguments suite run
      ≡ codes "--address"
        ∷ suite.listen_address
        ∷ codes "--monitoring-stat"
        ∷ suite.monitoring_period
        ∷ codes "--time-series-history"
        ∷ to_string run.time_series_history_limit
        ∷ (active_arguments suite.active_symbol_count
            ++ task_arguments (same run.client_implementation (codes "graal")))
  unfolding server_arguments task_arguments
  server_arguments-words = refl

  server_arguments-read :
      (task : TaskPattern)
      → parse_monitoring_period suite.monitoring_period ≡ ok period
      → IsSize run.time_series_history_limit
      → ((n : ℕ) → suite.active_symbol_count ≡ some n → IsSize n)
      → parse_task run.task ≡ ok task
      → parse_args default_config (server_arguments suite run) ≡ ok generator_config
  server_arguments-read task p history active parsed =
      let graal = same run.client_implementation (codes "graal") in
      ap (parse_args default_config) server_arguments-words
      ∙ read_first (active_arguments suite.active_symbol_count ++ task_arguments graal) p history
      ∙ read_active suite.active_symbol_count (record generator_config { task = none })
          (task_arguments graal) active
      ∙ read_task graal generator_config task parsed

or_default-IsSize :
    (o : Option ℕ) (default : ℕ)
    → ((n : ℕ) → o ≡ some n → IsSize n)
    → IsSize default
    → IsSize (or_default o default)
or_default-IsSize none default h d = d
or_default-IsSize (some n) default h d = h n refl

module _ (overrides : Overrides) (repetition : ℕ) (period : Option ℕ) where
  -- The generator reads the runner's arguments for a profile's run as the run's settings.
  abbrev pub IsRead : Suite → SuiteProfile → Type 0
  IsRead suite profile =
      let run = run_of suite overrides repetition profile in
      parse_args default_config (server_arguments suite run)
      ≡ ok (generator_config suite run period)

  each-IsRead :
      (suite : Suite)
      → IsSized suite
      → parse_monitoring_period suite.monitoring_period ≡ ok period
      → (profiles : List SuiteProfile) → All HistoryIsSize profiles
      → All (ProfileIsValid suite) profiles
      → All (IsRead suite) profiles
  unfolding run_of
  each-IsRead suite sizes p [] hs vs = tt
  each-IsRead suite sizes p (profile ∷ profiles) (h, hs) (v, vs) =
      let limit =
        or_default-IsSize profile.time_series_history_limit suite.time_series_history_limit h
          sizes.history_is in
      (
        server_arguments-read suite (run_of suite overrides repetition profile) period v.task p
            limit sizes.active_is v.parses,
        each-IsRead suite sizes p profiles hs vs,
      )

  -- The generator accepts the command line that the runner builds for a run of any profile of an
  -- accepted suite, in any repetition and with any overrides, and reads from it the listening
  -- address, the monitoring period, the history limit and active symbols of the run, and the task
  -- unless the client hands it over, provided that the suite's monitoring period parses.
  pub parse_benchmark_suite-IsRead :
      (input : Bytes) {suite : Suite}
      → parse_benchmark_suite input ≡ ok suite
      → parse_monitoring_period suite.monitoring_period ≡ ok period
      → All (IsRead suite) suite.profiles
  parse_benchmark_suite-IsRead input {suite} h p =
      let valid = parse_benchmark_suite-IsValid input h in
      each-IsRead suite valid.sizes p suite.profiles valid.sizes.profiles_are valid.profiles
