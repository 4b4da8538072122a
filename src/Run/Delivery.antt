-- ===== src/Run/Delivery.antt =====
-- The client that counts deliveries reads the command line that the runner builds for it.
use dxfcxx_event_test.Base.{
  ℕ, ◌≡◌, refl, ap, ◌∙◌, Bool, true, false, Option, List, [], ◌∷◌, if◌then◌else◌, Result, ok, err,
  ok-injective,
}
use dxfcxx_event_test.Text.{Bytes, codes, same}
use dxfcxx_event_test.Duration.{parse_duration, parse_monitoring_period}
use dxfcxx_event_test.Arguments.{Refusal, with_value, read_arguments}
use dxfcxx_event_test.Arguments.Words.{Setting, words, filled, read_arguments-words}
use dxfcxx_event_test.Clients.{ClientRole, parse_role, parse_events_batch_limit}
use dxfcxx_event_test.Clients.Delivery.{Config, flag, set_option, default_config, parse_args}
use dxfcxx_event_test.Suite.{Suite}
use dxfcxx_event_test.Plan.{Run}
use dxfcxx_event_test.Run.{delivery_arguments}
use dxfcxx_event_test.Run.Client.{delay_of}

-- The settings of a run that only the client reads, as it reads them.
pub record Times (suite : Suite) (run : Run) : Type 0 where
  pub warmup : ℕ
  pub duration : ℕ
  pub startup_timeout : ℕ
  pub aggregation_period : ℕ
  pub monitoring_stat : Option ℕ
  pub warmup_is : parse_duration suite.warmup ≡ ok warmup
  pub duration_is : parse_duration suite.duration ≡ ok duration
  pub startup_timeout_is : parse_duration suite.startup_timeout ≡ ok startup_timeout
  pub aggregation_period_is : delay_of run.aggregation_period ≡ ok aggregation_period
  pub monitoring_stat_is : parse_monitoring_period suite.monitoring_period ≡ ok monitoring_stat

delay-taken :
    {C : Type 0} (zero_text : Bool) (parsed : Result Bytes ℕ) (fill : ℕ → C) {d : ℕ}
    → (if zero_text then ok 0 else parsed) ≡ ok d
    → (if zero_text then ok (fill 0) else with_value parsed fill) ≡ ok (fill d)
unfolding with_value
delay-taken true parsed fill h = ap (λ n. ok (fill n)) (ok-injective h)
delay-taken false (ok n) fill h = ap (λ m. ok (fill m)) (ok-injective h)
delay-taken false (err e) fill h = cc

module _ (optimal_batch_limit max_batch_limit : ℕ) (suite : Suite) (run : Run)
    (times : Times suite run) (role : ClientRole) (limit : ℕ)
    (role_is : parse_role run.client_role ≡ ok role)
    (limit_is : parse_events_batch_limit optimal_batch_limit max_batch_limit run.events_batch_limit
      ≡ ok limit)
    (prefix : Bytes) where
  abbrev option : Bytes → Bytes → Config → Result Refusal Config
  option = set_option optimal_batch_limit max_batch_limit

  settings : List (Setting flag option)
  unfolding set_option same codes flag with_value delay_of
  settings =
      record {
        arg = codes "--address";
        value = suite.address;
        fill = λ c. record c { address = suite.address };
        plain = refl;
        not_help = refl;
        taken = λ c. refl;
      }
      ∷ record {
        arg = codes "--task";
        value = run.task;
        fill = λ c. record c { task = run.task };
        plain = refl;
        not_help = refl;
        taken = λ c. refl;
      }
      ∷ record {
        arg = codes "--role";
        value = run.client_role;
        fill = λ c. record c { role = role };
        plain = refl;
        not_help = refl;
        taken = λ c. rw role_is refl;
      }
      ∷ record {
        arg = codes "--events-batch-limit";
        value = run.events_batch_limit;
        fill = λ c. record c { events_batch_limit = limit };
        plain = refl;
        not_help = refl;
        taken = λ c. rw limit_is refl;
      }
      ∷ record {
        arg = codes "--aggregation-period";
        value = run.aggregation_period;
        fill = λ c. record c { aggregation_period = times.aggregation_period };
        plain = refl;
        not_help = refl;
        taken = λ c.
            delay-taken _ _ (λ n. record c { aggregation_period = n }) times.aggregation_period_is;
      }
      ∷ record {
        arg = codes "--monitoring-stat";
        value = suite.monitoring_period;
        fill = λ c. record c { monitoring_stat = times.monitoring_stat };
        plain = refl;
        not_help = refl;
        taken = λ c. rw times.monitoring_stat_is refl;
      }
      ∷ record {
        arg = codes "--warmup";
        value = suite.warmup;
        fill = λ c. record c { warmup = times.warmup };
        plain = refl;
        not_help = refl;
        taken = λ c. rw times.warmup_is refl;
      }
      ∷ record {
        arg = codes "--duration";
        value = suite.duration;
        fill = λ c. record c { duration = times.duration };
        plain = refl;
        not_help = refl;
        taken = λ c. rw times.duration_is refl;
      }
      ∷ record {
        arg = codes "--startup-timeout";
        value = suite.startup_timeout;
        fill = λ c. record c { startup_timeout = times.startup_timeout };
        plain = refl;
        not_help = refl;
        taken = λ c. rw times.startup_timeout_is refl;
      }
      ∷ record {
        arg = codes "--output";
        value = prefix;
        fill = λ c. record c { output = prefix };
        plain = refl;
        not_help = refl;
        taken = λ c. refl;
      }
      ∷ []

  -- The configuration that the run asks for.
  abbrev pub configured : Config
  configured = record {
    address = suite.address;
    task = run.task;
    warmup = times.warmup;
    duration = times.duration;
    startup_timeout = times.startup_timeout;
    monitoring_stat = times.monitoring_stat;
    output = prefix;
    role = role;
    events_batch_limit = limit;
    aggregation_period = times.aggregation_period;
    require_events = true;
  }

  delivery_arguments-words :
      delivery_arguments suite run prefix
      ≡ words flag option settings (codes "--require-events" ∷ [])
  unfolding delivery_arguments words settings codes
  delivery_arguments-words = refl

  read_last :
      read_arguments flag option
        (filled flag option settings (default_config optimal_batch_limit max_batch_limit))
        (codes "--require-events" ∷ [])
      ≡ ok configured
  unfolding read_arguments filled settings flag same codes
  read_last = refl

  -- The client that counts deliveries reads the command line that the runner builds for it as the
  -- run's settings, and as one that must see events, provided that the parsers accept the texts.
  pub delivery_arguments-read :
      parse_args optimal_batch_limit max_batch_limit (delivery_arguments suite run prefix)
      ≡ ok configured
  unfolding parse_args
  delivery_arguments-read =
      let default = default_config optimal_batch_limit max_batch_limit in
      ap (read_arguments flag option default) delivery_arguments-words
      ∙ read_arguments-words flag option settings (codes "--require-events" ∷ []) default
      ∙ read_last
