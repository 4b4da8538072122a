-- ===== src/Clients/Legacy.antt =====
-- src/legacy_client.cpp: `Config` and `parseArgs`, the command line of the client of the C API.
use dxfcxx_event_test.Base.{
  ℕ, Bool, true, false, Option, none, some, List, if◌then◌else◌, Result, ok, err, ◌>>=◌,
}
use dxfcxx_event_test.Text.{Bytes, codes, same, value}
use dxfcxx_event_test.Duration.{parse_duration}
use dxfcxx_event_test.Arguments.{
  Refusal, unknown_contract, unknown_argument, with_value, read_arguments,
}

pub data Contract : Type 0 where
  default ticker stream : Contract

-- Durations are counts of milliseconds.
pub record Config : Type 0 where
  pub address : Bytes
  pub task : Bytes
  pub warmup : ℕ
  pub duration : ℕ
  pub startup_timeout : ℕ
  pub output : Bytes
  pub contract : Contract
  pub require_events : Bool

abbrev pub default_config : Config
default_config = record {
  address = codes "127.0.0.1:7400";
  task = codes "SUB:T1@100ms";
  warmup = 2_000;
  duration = 5_000;
  startup_timeout = 30_000;
  output = codes "legacy";
  contract = default;
  require_events = false;
}

-- An argument without a value.
unfoldable pub flag : Bytes → Option (Config → Config)
unfolding same codes
flag arg =
    if same arg (codes "--require-events")
    then some (λ c. record c { require_events = true })
    else none

-- The value of `--contract`.
unfoldable pub parse_contract : Bytes → Result Refusal Contract
unfolding same codes
parse_contract value =
    if same value (codes "default")
    then ok default
    else if same value (codes "ticker")
    then ok ticker
    else if same value (codes "stream")
    then ok stream
    else err (unknown_contract value)

-- An argument with a value.
unfoldable pub set_option : Bytes → Bytes → Config → Result Refusal Config
unfolding same codes with_value parse_contract
set_option arg value c =
    if same arg (codes "--address")
    then ok (record c { address = value })
    else if same arg (codes "--task")
    then ok (record c { task = value })
    else if same arg (codes "--warmup")
    then with_value (parse_duration value) (λ d. record c { warmup = d })
    else if same arg (codes "--duration")
    then with_value (parse_duration value) (λ d. record c { duration = d })
    else if same arg (codes "--startup-timeout")
    then with_value (parse_duration value) (λ d. record c { startup_timeout = d })
    else if same arg (codes "--output")
    then ok (record c { output = value })
    else if same arg (codes "--contract")
    then (parse_contract value >>= λ k. ok (record c { contract = k }))
    else err (unknown_argument arg)

unfoldable pub parse_args : List Bytes → Result Refusal Config
unfolding read_arguments flag set_option
parse_args = read_arguments flag set_option default_config
