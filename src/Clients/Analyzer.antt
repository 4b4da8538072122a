-- ===== src/Clients/Analyzer.antt =====
-- src/analyzer.cpp: `Config` and `parseArgs`, the command line of the analyzer.
use dxfcxx_event_test.Base.{ℕ, Option, none, List, [], ◌∷◌, if◌then◌else◌, Result, ok, err, ◌>>=◌}
use dxfcxx_event_test.Text.{Bytes, codes, same, value}
use dxfcxx_event_test.Duration.{parse_duration}
use dxfcxx_event_test.Arguments.{
  Refusal, unknown_argument, directory_required, with_value, read_arguments,
}

pub record Config : Type 0 where
  pub run_directory : Bytes
  pub monitoring_period : ℕ

abbrev pub default_config : Config
default_config = record { run_directory = []; monitoring_period = 10_000 }

abbrev pub flag : Bytes → Option (Config → Config)
flag arg = none

-- An argument with a value.
unfoldable pub set_option : Bytes → Bytes → Config → Result Refusal Config
unfolding same codes with_value
set_option arg value c =
    if same arg (codes "--run-directory")
    then ok (record c { run_directory = value })
    else if same arg (codes "--monitoring-period")
    then with_value (parse_duration value) (λ d. record c { monitoring_period = d })
    else err (unknown_argument arg)

unfoldable pub with_directory : Config → Bytes → Result Refusal Config
with_directory c [] = err directory_required
with_directory c (b ∷ path) = ok c

unfoldable pub parse_args : List Bytes → Result Refusal Config
unfolding read_arguments set_option with_directory
parse_args args =
    read_arguments flag set_option default_config args >>= λ c. with_directory c c.run_directory
