-- ===== src/Clients/Tests.antt =====
-- A session of the C API whose listener is refused.
use dxfcxx_event_test.Base.{ℕ, ◌+◌, ◌≡◌, false, true, none, some, [], ◌∷◌}
use dxfcxx_event_test.Task.{quote, TaskPattern}
use dxfcxx_event_test.Clients.Legacy.{stream, default_config}
use dxfcxx_event_test.Clients.Session.{created, Library, session_calls}
use dxfcxx_event_test.Clients.Lifetime.{unopened, closing, follow, session_calls-closed}

abbrev refusing_library : Library ℕ ℕ
refusing_library = record {
  profile_mask = 1;
  quote_mask = 2;
  trade_mask = 4;
  trade_eth_mask = 8;
  summary_mask = 16;
  bit_or = λ m n. m + n;
  default_flag = 0;
  force_ticker = 1;
  force_stream = 2;
  create_connection = λ address. created 7;
  create_subscription = λ connection mask. created 8;
  create_subscription_with_flags = λ connection mask flag. created 9;
  attach_event_listener = λ subscription. false;
  add_symbols = λ subscription names. true;
}

abbrev two_quotes : TaskPattern
two_quotes = record {
  items = record { kind = quote; quantity = 2 } ∷ [];
  publish_period = 100;
  subscribed_symbol_count = none;
  regional_source_count = 0;
  shuffle_seed = none;
}

session_calls-closed_example :
    follow unopened
      (session_calls refusing_library (record default_config { contract = stream }) two_quotes)
    ≡ some (closing none none)
session_calls-closed_example =
    session_calls-closed refusing_library (record default_config { contract = stream }) two_quotes
