-- ===== src/Deliveries/Tally.antt =====
-- The tally of a batch counts the events of each type.
use dxfcxx_event_test.Base.{
  ℕ, ◌+◌, ◌≡◌, ◌∙◌, Bool, true, false, List, [], ◌∷◌, arith, if◌then◌else◌,
}
use dxfcxx_event_test.Deliveries.Counters.{
  Delivered, quote, trade, trade_eth, summary, other, Tally, counted, tally_from,
}

-- How often an event type occurs.
pub occurrences : (Delivered → Bool) → List Delivered → ℕ
occurrences is [] = 0
occurrences is (event ∷ events) = (if is event then 1 else 0) + occurrences is events

abbrev pub is_quote : Delivered → Bool
is_quote quote = true
is_quote trade = false
is_quote trade_eth = false
is_quote summary = false
is_quote other = false

abbrev pub is_trade : Delivered → Bool
is_trade quote = false
is_trade trade = true
is_trade trade_eth = false
is_trade summary = false
is_trade other = false

abbrev pub is_trade_eth : Delivered → Bool
is_trade_eth quote = false
is_trade_eth trade = false
is_trade_eth trade_eth = true
is_trade_eth summary = false
is_trade_eth other = false

abbrev pub is_summary : Delivered → Bool
is_summary quote = false
is_summary trade = false
is_summary trade_eth = false
is_summary summary = true
is_summary other = false

pub tally_from-quotes :
    (t : Tally) (events : List Delivered)
    → (tally_from t events).quotes ≡ t.quotes + occurrences is_quote events
unfolding tally_from counted occurrences
tally_from-quotes t [] = omega arith
tally_from-quotes t (quote ∷ events) = tally_from-quotes (counted quote t) events ∙ omega arith
tally_from-quotes t (trade ∷ events) = tally_from-quotes (counted trade t) events ∙ omega arith
tally_from-quotes t (trade_eth ∷ events) =
    tally_from-quotes (counted trade_eth t) events ∙ omega arith
tally_from-quotes t (summary ∷ events) = tally_from-quotes (counted summary t) events ∙ omega arith
tally_from-quotes t (other ∷ events) = tally_from-quotes (counted other t) events ∙ omega arith

pub tally_from-trades :
    (t : Tally) (events : List Delivered)
    → (tally_from t events).trades ≡ t.trades + occurrences is_trade events
unfolding tally_from counted occurrences
tally_from-trades t [] = omega arith
tally_from-trades t (quote ∷ events) = tally_from-trades (counted quote t) events ∙ omega arith
tally_from-trades t (trade ∷ events) = tally_from-trades (counted trade t) events ∙ omega arith
tally_from-trades t (trade_eth ∷ events) =
    tally_from-trades (counted trade_eth t) events ∙ omega arith
tally_from-trades t (summary ∷ events) = tally_from-trades (counted summary t) events ∙ omega arith
tally_from-trades t (other ∷ events) = tally_from-trades (counted other t) events ∙ omega arith

pub tally_from-trade_eths :
    (t : Tally) (events : List Delivered)
    → (tally_from t events).trade_eths ≡ t.trade_eths + occurrences is_trade_eth events
unfolding tally_from counted occurrences
tally_from-trade_eths t [] = omega arith
tally_from-trade_eths t (quote ∷ events) =
    tally_from-trade_eths (counted quote t) events ∙ omega arith
tally_from-trade_eths t (trade ∷ events) =
    tally_from-trade_eths (counted trade t) events ∙ omega arith
tally_from-trade_eths t (trade_eth ∷ events) =
    tally_from-trade_eths (counted trade_eth t) events ∙ omega arith
tally_from-trade_eths t (summary ∷ events) =
    tally_from-trade_eths (counted summary t) events ∙ omega arith
tally_from-trade_eths t (other ∷ events) =
    tally_from-trade_eths (counted other t) events ∙ omega arith

pub tally_from-summaries :
    (t : Tally) (events : List Delivered)
    → (tally_from t events).summaries ≡ t.summaries + occurrences is_summary events
unfolding tally_from counted occurrences
tally_from-summaries t [] = omega arith
tally_from-summaries t (quote ∷ events) =
    tally_from-summaries (counted quote t) events ∙ omega arith
tally_from-summaries t (trade ∷ events) =
    tally_from-summaries (counted trade t) events ∙ omega arith
tally_from-summaries t (trade_eth ∷ events) =
    tally_from-summaries (counted trade_eth t) events ∙ omega arith
tally_from-summaries t (summary ∷ events) =
    tally_from-summaries (counted summary t) events ∙ omega arith
tally_from-summaries t (other ∷ events) =
    tally_from-summaries (counted other t) events ∙ omega arith
