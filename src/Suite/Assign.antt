-- ===== src/Suite/Assign.antt =====
-- src/runner.cpp: the part of `parseBenchmarkSuite` that fills the suite from the settings.
use dxfcxx_event_test.Base.{
  ℕ, ◌+◌, Bool, true, false, ◌||◌, Option, none, some, List, [], ◌∷◌, ◌==◌, if◌then◌else◌, ok, err,
  ◌>>=◌, ◌>>◌, guard,
}
use dxfcxx_event_test.Text.{Bytes, codes, same, value}
use dxfcxx_event_test.Suite.{
  Experiment, Suite, missing, empty, partial_experiment, unknown_setting, Checked,
}
use dxfcxx_event_test.Suite.Settings.{Settings, find_key, parse_size, parse_boolean}

-- `require`.
unfoldable pub require : Settings → Bytes → Checked Bytes
unfolding find_key
require settings name = present (find_key name settings)
  where
    present : Option Bytes → Checked Bytes
    present none = err (missing name)
    present (some []) = err (missing name)
    present (some (c ∷ text)) = ok (c ∷ text)

-- A setting with the field it fills.
abbrev pub Target : Type 0
Target = Bytes × (Bytes → Suite → Suite)

-- The loop over the texts that must be there, with `assign` for each.
unfoldable pub assign_all : Settings → List Target → Suite → Checked Suite
unfolding require
assign_all settings [] suite = ok suite
assign_all settings ((name, fill) ∷ targets) suite =
    require settings name >>= λ value. assign_all settings targets (fill value suite)

abbrev pub required_texts : List Target
required_texts =
    (codes "WARMUP", λ v s. record s { warmup = v })
    ∷ (codes "DURATION", λ v s. record s { duration = v })
    ∷ (codes "WINDOW", λ v s. record s { window = v })
    ∷ (codes "BATCH_TIMEOUT", λ v s. record s { batch_timeout = v })
    ∷ (codes "STARTUP_TIMEOUT", λ v s. record s { startup_timeout = v })
    ∷ (codes "MONITORING_PERIOD", λ v s. record s { monitoring_period = v })
    ∷ (codes "CLIENT_ROLE", λ v s. record s { client_role = v })
    ∷ (codes "ADDRESS", λ v s. record s { address = v })
    ∷ (codes "LISTEN_ADDRESS", λ v s. record s { listen_address = v })
    ∷ []

-- The sizes that must be there.
unfoldable pub assign_repetitions : Settings → Suite → Checked Suite
unfolding require parse_size codes
assign_repetitions settings suite = require settings (codes "REPETITIONS") >>= λ text.
    parse_size false (codes "REPETITIONS") text >>= λ n. ok (record suite { repetitions = n })

unfoldable pub assign_cooldown : Settings → Suite → Checked Suite
unfolding require parse_size codes
assign_cooldown settings suite = require settings (codes "COOLDOWN_SECONDS") >>= λ text.
    parse_size true (codes "COOLDOWN_SECONDS") text >>= λ n.
    ok (record suite { cooldown_seconds = n })

-- A text that may be missing.
unfoldable pub fill_text : Settings → Target → Suite → Suite
unfolding find_key
fill_text settings (name, fill) suite = filled (find_key name settings)
  where
    filled : Option Bytes → Suite
    filled none = suite
    filled (some value) = fill value suite

unfoldable pub fill_texts : Settings → List Target → Suite → Suite
unfolding fill_text
fill_texts settings [] suite = suite
fill_texts settings (target ∷ targets) suite =
    fill_texts settings targets (fill_text settings target suite)

abbrev pub optional_texts : List Target
optional_texts =
    (codes "LISTENER_DELAY", λ v s. record s { listener_delay = v })
    ∷ (codes "EVENTS_BATCH_LIMIT", λ v s. record s { events_batch_limit = v })
    ∷ (codes "AGGREGATION_PERIOD", λ v s. record s { aggregation_period = v })
    ∷ (codes "TIME_SERIES_PREFILL", λ v s. record s { time_series_prefill = v })
    ∷ []

unfoldable pub assign_history : Option Bytes → Suite → Checked Suite
unfolding parse_size codes
assign_history none suite = ok suite
assign_history (some text) suite = parse_size false (codes "TIME_SERIES_HISTORY") text >>= λ n.
    ok (record suite { time_series_history_limit = n })

unfoldable pub assign_active : Option Bytes → Suite → Checked Suite
unfolding parse_size codes
assign_active none suite = ok suite
assign_active (some text) suite = parse_size false (codes "ACTIVE_SYMBOLS") text >>= λ n.
    ok (record suite { active_symbol_count = some n })

unfoldable pub assign_after : Option Bytes → Suite → Checked Suite
unfolding codes
assign_after none suite = ok suite
assign_after (some []) suite = err (empty (codes "TIME_SERIES_SUBSCRIBE_AFTER"))
assign_after (some (c ∷ text)) suite =
    ok (record suite { time_series_subscribe_after = some (c ∷ text) })

unfoldable pub assign_unsubscribe : Option Bytes → Suite → Checked Suite
unfolding parse_boolean codes
assign_unsubscribe none suite = ok suite
assign_unsubscribe (some text) suite =
    parse_boolean (codes "TIME_SERIES_UNSUBSCRIBE_AFTER_SNAPSHOT") text >>= λ b.
    ok (record suite { time_series_unsubscribe_after_snapshot = b })

-- The experiment, and how many of its texts are there.
abbrev pub ExperimentTarget : Type 0
ExperimentTarget = Bytes × (Bytes → Experiment → Experiment)

abbrev pub experiment_texts : List ExperimentTarget
experiment_texts =
    (codes "EXPERIMENT_TITLE", λ v e. record e { title = v })
    ∷ (codes "EXPERIMENT_OBJECTIVE", λ v e. record e { objective = v })
    ∷ (codes "EXPERIMENT_VARIABLE", λ v e. record e { variable = v })
    ∷ (codes "EXPERIMENT_CONTROLS", λ v e. record e { controls = v })
    ∷ (codes "EXPERIMENT_SUCCESS_CRITERIA", λ v e. record e { success_criteria = v })
    ∷ (codes "EXPERIMENT_LIMITATIONS", λ v e. record e { limitations = v })
    ∷ []

fill_experiment : Option Bytes → ExperimentTarget → Experiment × ℕ → Checked (Experiment × ℕ)
fill_experiment none target (experiment, count) = ok (experiment, count)
fill_experiment (some []) (name, fill) (experiment, count) = err (empty name)
fill_experiment (some (c ∷ text)) (name, fill) (experiment, count) =
    ok (fill (c ∷ text) experiment, count + 1)

unfoldable pub fill_experiments :
    Settings → List ExperimentTarget → Experiment × ℕ → Checked (Experiment × ℕ)
unfolding find_key fill_experiment
fill_experiments settings [] filled = ok filled
fill_experiments settings ((name, fill) ∷ targets) filled =
    fill_experiment (find_key name settings) (name, fill) filled >>= λ next.
    fill_experiments settings targets next

unfoldable pub complete_experiment : Suite → Experiment × ℕ → Checked Suite
complete_experiment suite (experiment, count) =
    guard (count == 0 || count == 6) partial_experiment
    >> ok (record suite { experiment = experiment })

unfoldable pub assign_experiment : Settings → Suite → Checked Suite
unfolding fill_experiments complete_experiment
assign_experiment settings suite =
    fill_experiments settings experiment_texts (suite.experiment, 0) >>= λ filled.
    complete_experiment suite filled

abbrev pub known : List Bytes
known =
    codes "REPETITIONS"
    ∷ codes "WARMUP"
    ∷ codes "DURATION"
    ∷ codes "WINDOW"
    ∷ codes "BATCH_TIMEOUT"
    ∷ codes "STARTUP_TIMEOUT"
    ∷ codes "MONITORING_PERIOD"
    ∷ codes "TIME_SERIES_PREFILL"
    ∷ codes "TIME_SERIES_HISTORY"
    ∷ codes "ACTIVE_SYMBOLS"
    ∷ codes "TIME_SERIES_SUBSCRIBE_AFTER"
    ∷ codes "TIME_SERIES_UNSUBSCRIBE_AFTER_SNAPSHOT"
    ∷ codes "CLIENT_ROLE"
    ∷ codes "LISTENER_DELAY"
    ∷ codes "EVENTS_BATCH_LIMIT"
    ∷ codes "AGGREGATION_PERIOD"
    ∷ codes "COOLDOWN_SECONDS"
    ∷ codes "ADDRESS"
    ∷ codes "LISTEN_ADDRESS"
    ∷ codes "EXPERIMENT_TITLE"
    ∷ codes "EXPERIMENT_OBJECTIVE"
    ∷ codes "EXPERIMENT_VARIABLE"
    ∷ codes "EXPERIMENT_CONTROLS"
    ∷ codes "EXPERIMENT_SUCCESS_CRITERIA"
    ∷ codes "EXPERIMENT_LIMITATIONS"
    ∷ []

unfoldable pub is_known : List Bytes → Bytes → Bool
unfolding same
is_known [] key = false
is_known (name ∷ names) key = same name key || is_known names key

unfoldable pub check_known : Settings → Checked (Unit {0})
unfolding is_known codes
check_known [] = ok tt
check_known ((key, value) ∷ settings) =
    let rest = check_known settings in
    if is_known known key then rest else err (unknown_setting key)

-- All of them, in the order of the source.
unfoldable pub assign_settings : Settings → Suite → Checked Suite
unfolding find_key codes
assign_settings settings suite = assign_repetitions settings suite >>= λ s.
    assign_all settings required_texts s >>= λ s. assign_cooldown settings s >>= λ s.
    assign_history (find_key (codes "TIME_SERIES_HISTORY") settings)
      (fill_texts settings optional_texts s)
    >>= λ s. assign_active (find_key (codes "ACTIVE_SYMBOLS") settings) s >>= λ s.
        assign_after (find_key (codes "TIME_SERIES_SUBSCRIBE_AFTER") settings) s >>= λ s.
        assign_unsubscribe (find_key (codes "TIME_SERIES_UNSUBSCRIBE_AFTER_SNAPSHOT") settings) s
        >>= λ s. assign_experiment settings s >>= λ s. (check_known settings >> ok s)
