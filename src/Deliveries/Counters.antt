-- ===== src/Deliveries/Counters.antt =====
-- src/graal_delivery_client.cpp: `CallbackState`, the listeners that raise its counters, and the
-- snapshots at the ends of a measurement. The listeners are run one after the other here;
-- `Maximum` has the threads. A counter is a `std::size_t` and wraps around.
use dxfcxx_event_test.Base.{ℕ, ◌+◌, ◌-◌, ◌%◌, ◌^◌, max, List, [], ◌∷◌, length}

abbrev pub add_size : ℕ → ℕ → ℕ
add_size a b = (a + b) % 2 ^ 64

abbrev pub sub_size : ℕ → ℕ → ℕ
sub_size a b = (a + 2 ^ 64 - b) % 2 ^ 64

-- What the listener finds out about an event, by `sharedAs`.
pub data Delivered : Type 0 where
  quote trade trade_eth summary other : Delivered

pub record CallbackState : Type 0 where
  pub callbacks : ℕ
  pub recurring_events : ℕ
  pub quotes : ℕ
  pub trades : ℕ
  pub trade_eths : ℕ
  pub summaries : ℕ
  pub profiles : ℕ
  pub maximum_batch : ℕ

pub record CallbackSnapshot : Type 0 where
  pub callbacks : ℕ
  pub recurring_events : ℕ
  pub quotes : ℕ
  pub trades : ℕ
  pub trade_eths : ℕ
  pub summaries : ℕ
  pub profiles : ℕ

-- The local counters of the loop over a batch; a batch is shorter than 2 ^ 64.
pub record Tally : Type 0 where
  pub quotes : ℕ
  pub trades : ℕ
  pub trade_eths : ℕ
  pub summaries : ℕ

unfoldable pub counted : Delivered → Tally → Tally
counted quote t = record t { quotes = t.quotes + 1 }
counted trade t = record t { trades = t.trades + 1 }
counted trade_eth t = record t { trade_eths = t.trade_eths + 1 }
counted summary t = record t { summaries = t.summaries + 1 }
counted other t = t

unfoldable pub tally_from : Tally → List Delivered → Tally
unfolding counted
tally_from t [] = t
tally_from t (event ∷ events) = tally_from (counted event t) events

unfoldable pub tally : List Delivered → Tally
unfolding tally_from
tally events = tally_from (record { quotes = 0; trades = 0; trade_eths = 0; summaries = 0 }) events

-- `handleMarketEvents`; `updateMaximum` leaves the larger value.
unfoldable pub handle_market_events : CallbackState → List Delivered → CallbackState
unfolding tally
handle_market_events s events =
    let t = tally events in
    record s {
      callbacks = add_size s.callbacks 1;
      recurring_events = add_size s.recurring_events (length events);
      maximum_batch = max s.maximum_batch (length events);
      quotes = add_size s.quotes t.quotes;
      trades = add_size s.trades t.trades;
      trade_eths = add_size s.trade_eths t.trade_eths;
      summaries = add_size s.summaries t.summaries;
    }

-- The listener of the profiles.
unfoldable pub handle_profiles : CallbackState → ℕ → CallbackState
handle_profiles s count = record s { profiles = add_size s.profiles count }

pub data Call : Type 0 where
  market : List Delivered → Call
  profile_events : ℕ → Call

unfoldable pub call : CallbackState → Call → CallbackState
unfolding handle_market_events handle_profiles
call s (market events) = handle_market_events s events
call s (profile_events count) = handle_profiles s count

unfoldable pub call_all : CallbackState → List Call → CallbackState
unfolding call
call_all s [] = s
call_all s (c ∷ calls) = call_all (call s c) calls

unfoldable pub snapshot : CallbackState → CallbackSnapshot
snapshot s = record {
  callbacks = s.callbacks;
  recurring_events = s.recurring_events;
  quotes = s.quotes;
  trades = s.trades;
  trade_eths = s.trade_eths;
  summaries = s.summaries;
  profiles = s.profiles;
}

-- `operator-`.
unfoldable pub subtract : CallbackSnapshot → CallbackSnapshot → CallbackSnapshot
subtract end start = record {
  callbacks = sub_size end.callbacks start.callbacks;
  recurring_events = sub_size end.recurring_events start.recurring_events;
  quotes = sub_size end.quotes start.quotes;
  trades = sub_size end.trades start.trades;
  trade_eths = sub_size end.trade_eths start.trade_eths;
  summaries = sub_size end.summaries start.summaries;
  profiles = sub_size end.profiles start.profiles;
}
