-- ===== src/Run/Client.antt =====
-- The clients read the command lines that the runner builds for them.
use dxfcxx_event_test.Base.{
  ℕ, ◌≡◌, refl, ap, ◌∙◌, Bool, true, false, Option, none, some, List, [], ◌∷◌, ◌++◌, if◌then◌else◌,
  Result, ok, err, ◌>>=◌, ok-injective,
}
use dxfcxx_event_test.Text.{Bytes, codes, same}
use dxfcxx_event_test.Duration.{parse_duration, parse_monitoring_period}
use dxfcxx_event_test.Arguments.{Refusal, with_value, read_arguments}
use dxfcxx_event_test.Clients.{ClientRole, parse_role, parse_events_batch_limit}
use dxfcxx_event_test.Clients.Graal.{
  Config, flag, set_option, set_duration, default_config, parse_args,
}
use dxfcxx_event_test.Arguments.Words.{Setting, words, filled, read_arguments-words}
use dxfcxx_event_test.Suite.{Suite}
use dxfcxx_event_test.Plan.{Run}
use dxfcxx_event_test.Run.{client_arguments, after_arguments}

-- A delay: the literal `0`, or a duration.
unfoldable pub delay_of : Bytes → Result Bytes ℕ
unfolding same codes
delay_of text = if same text (codes "0") then ok 0 else parse_duration text

-- The settings of a run that only the client reads, as it reads them.
pub record Times (suite : Suite) (run : Run) : Type 0 where
  pub warmup : ℕ
  pub duration : ℕ
  pub window : ℕ
  pub batch_timeout : ℕ
  pub startup_timeout : ℕ
  pub time_series_prefill : ℕ
  pub listener_delay : ℕ
  pub aggregation_period : ℕ
  pub monitoring_stat : Option ℕ
  pub warmup_is : parse_duration suite.warmup ≡ ok warmup
  pub duration_is : parse_duration suite.duration ≡ ok duration
  pub window_is : parse_duration suite.window ≡ ok window
  pub batch_timeout_is : parse_duration suite.batch_timeout ≡ ok batch_timeout
  pub startup_timeout_is : parse_duration suite.startup_timeout ≡ ok startup_timeout
  pub time_series_prefill_is : parse_duration run.time_series_prefill ≡ ok time_series_prefill
  pub listener_delay_is : delay_of run.listener_delay ≡ ok listener_delay
  pub aggregation_period_is : delay_of run.aggregation_period ≡ ok aggregation_period
  pub monitoring_stat_is : parse_monitoring_period suite.monitoring_period ≡ ok monitoring_stat

-- The delay of the subscription, where the run has one.
abbrev pub AfterIs : Option Bytes → Option ℕ → Type 0
AfterIs none none = Unit {0}
AfterIs none (some d) = ⊥
AfterIs (some text) none = ⊥
AfterIs (some text) (some d) = parse_duration text ≡ ok d

delay-taken :
    {C : Type 0} (zero_text : Bool) (parsed : Result Bytes ℕ) (fill : ℕ → C) {d : ℕ}
    → (if zero_text then ok 0 else parsed) ≡ ok d
    → (if zero_text then ok (fill 0) else (with_value parsed (λ n. n) >>= λ n. ok (fill n)))
      ≡ ok (fill d)
unfolding with_value
delay-taken true parsed fill h = ap (λ n. ok (fill n)) (ok-injective h)
delay-taken false (ok n) fill h = ap (λ m. ok (fill m)) (ok-injective h)
delay-taken false (err e) fill h = cc

module _ (optimal_batch_limit max_batch_limit : ℕ) (suite : Suite) (run : Run)
    (times : Times suite run) (role : ClientRole) (limit : ℕ)
    (role_is : parse_role run.client_role ≡ ok role)
    (limit_is : parse_events_batch_limit optimal_batch_limit max_batch_limit run.events_batch_limit
      ≡ ok limit)
    (prefix : Bytes) where
  abbrev option : Bytes → Bytes → Config → Result Refusal Config
  option = set_option optimal_batch_limit max_batch_limit

  settings : List (Setting flag option)
  unfolding set_option same codes flag with_value set_duration delay_of
  settings =
      record {
        arg = codes "--address";
        value = suite.address;
        fill = λ c. record c { address = suite.address };
        plain = refl;
        not_help = refl;
        taken = λ c. refl;
      }
      ∷ record {
        arg = codes "--task";
        value = run.task;
        fill = λ c. record c { task = run.task };
        plain = refl;
        not_help = refl;
        taken = λ c. refl;
      }
      ∷ record {
        arg = codes "--role";
        value = run.client_role;
        fill = λ c. record c { role = role };
        plain = refl;
        not_help = refl;
        taken = λ c. rw role_is refl;
      }
      ∷ record {
        arg = codes "--listener-delay";
        value = run.listener_delay;
        fill = λ c. record c { listener_delay = times.listener_delay };
        plain = refl;
        not_help = refl;
        taken = λ c. delay-taken _ _ (λ n. record c { listener_delay = n }) times.listener_delay_is;
      }
      ∷ record {
        arg = codes "--events-batch-limit";
        value = run.events_batch_limit;
        fill = λ c. record c { events_batch_limit = limit };
        plain = refl;
        not_help = refl;
        taken = λ c. rw limit_is refl;
      }
      ∷ record {
        arg = codes "--aggregation-period";
        value = run.aggregation_period;
        fill = λ c. record c { aggregation_period = times.aggregation_period };
        plain = refl;
        not_help = refl;
        taken = λ c.
            delay-taken _ _ (λ n. record c { aggregation_period = n }) times.aggregation_period_is;
      }
      ∷ record {
        arg = codes "--warmup";
        value = suite.warmup;
        fill = λ c. record c { warmup = times.warmup };
        plain = refl;
        not_help = refl;
        taken = λ c. rw times.warmup_is refl;
      }
      ∷ record {
        arg = codes "--duration";
        value = suite.duration;
        fill = λ c. record c { duration = times.duration };
        plain = refl;
        not_help = refl;
        taken = λ c. rw times.duration_is refl;
      }
      ∷ record {
        arg = codes "--window";
        value = suite.window;
        fill = λ c. record c { window = times.window };
        plain = refl;
        not_help = refl;
        taken = λ c. rw times.window_is refl;
      }
      ∷ record {
        arg = codes "--batch-timeout";
        value = suite.batch_timeout;
        fill = λ c. record c { batch_timeout = times.batch_timeout };
        plain = refl;
        not_help = refl;
        taken = λ c. rw times.batch_timeout_is refl;
      }
      ∷ record {
        arg = codes "--startup-timeout";
        value = suite.startup_timeout;
        fill = λ c. record c { startup_timeout = times.startup_timeout };
        plain = refl;
        not_help = refl;
        taken = λ c. rw times.startup_timeout_is refl;
      }
      ∷ record {
        arg = codes "--time-series-prefill";
        value = run.time_series_prefill;
        fill = λ c. record c { time_series_prefill = times.time_series_prefill };
        plain = refl;
        not_help = refl;
        taken = λ c. rw times.time_series_prefill_is refl;
      }
      ∷ record {
        arg = codes "--monitoring-stat";
        value = suite.monitoring_period;
        fill = λ c. record c { monitoring_stat = times.monitoring_stat };
        plain = refl;
        not_help = refl;
        taken = λ c. rw times.monitoring_stat_is refl;
      }
      ∷ record {
        arg = codes "--output";
        value = prefix;
        fill = λ c. record c { output = prefix };
        plain = refl;
        not_help = refl;
        taken = λ c. refl;
      }
      ∷ []

  -- The configuration that the run asks for.
  abbrev pub configured : Option ℕ → Config
  configured after = record {
    address = suite.address;
    task = run.task;
    warmup = times.warmup;
    duration = times.duration;
    window = times.window;
    batch_timeout = times.batch_timeout;
    startup_timeout = times.startup_timeout;
    time_series_prefill = times.time_series_prefill;
    time_series_subscribe_after = after;
    time_series_unsubscribe_after_snapshot = run.time_series_unsubscribe_after_snapshot;
    listener_delay = times.listener_delay;
    aggregation_period = times.aggregation_period;
    monitoring_stat = times.monitoring_stat;
    output = prefix;
    role = role;
    events_batch_limit = limit;
  }

  rest_of : Option Bytes → Bool → List Bytes
  unfolding after_arguments codes
  rest_of after unsubscribe =
      after_arguments after
      ++ (if unsubscribe then codes "--time-series-unsubscribe-after-snapshot" ∷ [] else [])

  client_arguments-words :
      client_arguments suite run prefix
      ≡ words flag option settings
          (rest_of run.time_series_subscribe_after run.time_series_unsubscribe_after_snapshot)
  unfolding client_arguments words settings rest_of codes
  client_arguments-words = refl

  abbrev not_delayed : Config → Config
  not_delayed c = record c {
    time_series_subscribe_after = none;
    time_series_unsubscribe_after_snapshot = false;
  }

  read_arguments-rest_of :
      (text : Option Bytes) (after : Option ℕ) (unsubscribe : Bool) (c : Config)
      → AfterIs text after
      → read_arguments flag option (not_delayed c) (rest_of text unsubscribe)
        ≡ ok (record c {
          time_series_subscribe_after = after;
          time_series_unsubscribe_after_snapshot = unsubscribe;
        })
  unfolding read_arguments rest_of after_arguments set_option same codes flag set_duration
      with_value
  read_arguments-rest_of none none false c h = refl
  read_arguments-rest_of none none true c h = refl
  read_arguments-rest_of none (some d) unsubscribe c h = absurd h
  read_arguments-rest_of (some text) none unsubscribe c h = absurd h
  read_arguments-rest_of (some text) (some d) false c h = rw h refl
  read_arguments-rest_of (some text) (some d) true c h = rw h refl

  filled-settings :
      (after : Option ℕ)
      → filled flag option settings (default_config optimal_batch_limit max_batch_limit)
        ≡ not_delayed (configured after)
  unfolding filled settings
  filled-settings after = refl

  -- The client reads the command line that the runner builds for it as the run's settings: each
  -- duration, delay and period as its parser reads it, the role, the batch limit, the task and the
  -- prefix, provided that those parsers accept the texts.
  pub client_arguments-read :
      (after : Option ℕ)
      → AfterIs run.time_series_subscribe_after after
      → parse_args optimal_batch_limit max_batch_limit (client_arguments suite run prefix)
        ≡ ok (configured after)
  unfolding parse_args
  client_arguments-read after h =
      let default = default_config optimal_batch_limit max_batch_limit in
      let rest =
        rest_of run.time_series_subscribe_after run.time_series_unsubscribe_after_snapshot in
      ap (read_arguments flag option default) client_arguments-words
      ∙ read_arguments-words flag option settings rest default
      ∙ ap (λ c. read_arguments flag option c rest) (filled-settings after)
      ∙ read_arguments-rest_of run.time_series_subscribe_after after
          run.time_series_unsubscribe_after_snapshot (configured after) h
