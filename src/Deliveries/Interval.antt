-- ===== src/Deliveries/Interval.antt =====
-- The difference of two snapshots is what the listeners saw between them.
use dxfcxx_event_test.Base.{ℕ, ◌+◌, ◌%◌, ◌^◌, ◌<◌, ◌≡◌, refl, ap, ◌∙◌, List, [], ◌∷◌, arith, length}
use dxfcxx_event_test.Deliveries.Counters.{
  add_size, sub_size, Delivered, CallbackState, CallbackSnapshot, Tally, tally,
  handle_market_events, handle_profiles, Call, market, profile_events, call, call_all, snapshot,
  subtract,
}
use dxfcxx_event_test.Deliveries.Tally.{
  occurrences, is_quote, is_trade, is_trade_eth, is_summary, tally_from-quotes, tally_from-trades,
  tally_from-trade_eths, tally_from-summaries,
}

-- A sum over the calls, with no bound.
sum_of : (Call → ℕ) → List Call → ℕ
sum_of count [] = 0
sum_of count (c ∷ calls) = count c + sum_of count calls

difference : (a d : ℕ) → a < 2 ^ 64 → sub_size ((a + d) % 2 ^ 64) a ≡ d % 2 ^ 64
difference a d h = omega arith

module _ (field : CallbackState → ℕ) (count : Call → ℕ) where
  call_all-sum :
      ((s : CallbackState) (c : Call)
        → field s < 2 ^ 64
        → field (call s c) ≡ add_size (field s) (count c))
      → (calls : List Call) (s : CallbackState) → field s < 2 ^ 64
      → field (call_all s calls) ≡ (field s + sum_of count calls) % 2 ^ 64
  unfolding call_all sum_of
  call_all-sum step [] s h = omega arith
  call_all-sum step (c ∷ calls) s h =
      call_all-sum step calls (call s c) (omega (arith, step s c h)) ∙ omega (arith, step s c h)

abbrev zero_tally : Tally
zero_tally = record { quotes = 0; trades = 0; trade_eths = 0; summaries = 0 }

-- What one call adds to each counter.
abbrev of_market : (List Delivered → ℕ) → Call → ℕ
of_market count (market events) = count events
of_market count (profile_events n) = 0

abbrev of_profiles : Call → ℕ
of_profiles (market events) = 0
of_profiles (profile_events n) = n

-- What the listeners see in the calls, each number modulo 2 ^ 64.
pub seen : List Call → CallbackSnapshot
seen calls = record {
  callbacks = sum_of (of_market (λ events. 1)) calls % 2 ^ 64;
  recurring_events = sum_of (of_market length) calls % 2 ^ 64;
  quotes = sum_of (of_market (occurrences is_quote)) calls % 2 ^ 64;
  trades = sum_of (of_market (occurrences is_trade)) calls % 2 ^ 64;
  trade_eths = sum_of (of_market (occurrences is_trade_eth)) calls % 2 ^ 64;
  summaries = sum_of (of_market (occurrences is_summary)) calls % 2 ^ 64;
  profiles = sum_of of_profiles calls % 2 ^ 64;
}

-- The counters fit their type.
pub record Fits (s : CallbackState) : Type 0 where
  pub callbacks : s.callbacks < 2 ^ 64
  pub recurring_events : s.recurring_events < 2 ^ 64
  pub quotes : s.quotes < 2 ^ 64
  pub trades : s.trades < 2 ^ 64
  pub trade_eths : s.trade_eths < 2 ^ 64
  pub summaries : s.summaries < 2 ^ 64
  pub profiles : s.profiles < 2 ^ 64

call-callbacks :
    (s : CallbackState) (c : Call)
    → s.callbacks < 2 ^ 64
    → (call s c).callbacks ≡ add_size s.callbacks ((of_market (λ events. 1)) c)
unfolding call handle_market_events handle_profiles tally
call-callbacks s (market events) h = refl
call-callbacks s (profile_events n) h = omega arith

call-recurring_events :
    (s : CallbackState) (c : Call)
    → s.recurring_events < 2 ^ 64
    → (call s c).recurring_events ≡ add_size s.recurring_events ((of_market length) c)
unfolding call handle_market_events handle_profiles tally
call-recurring_events s (market events) h = refl
call-recurring_events s (profile_events n) h = omega arith

call-quotes :
    (s : CallbackState) (c : Call)
    → s.quotes < 2 ^ 64
    → (call s c).quotes ≡ add_size s.quotes ((of_market (occurrences is_quote)) c)
unfolding call handle_market_events handle_profiles tally
call-quotes s (market events) h =
    ap (add_size s.quotes) (tally_from-quotes zero_tally events ∙ omega arith)
call-quotes s (profile_events n) h = omega arith

call-trades :
    (s : CallbackState) (c : Call)
    → s.trades < 2 ^ 64
    → (call s c).trades ≡ add_size s.trades ((of_market (occurrences is_trade)) c)
unfolding call handle_market_events handle_profiles tally
call-trades s (market events) h =
    ap (add_size s.trades) (tally_from-trades zero_tally events ∙ omega arith)
call-trades s (profile_events n) h = omega arith

call-trade_eths :
    (s : CallbackState) (c : Call)
    → s.trade_eths < 2 ^ 64
    → (call s c).trade_eths ≡ add_size s.trade_eths ((of_market (occurrences is_trade_eth)) c)
unfolding call handle_market_events handle_profiles tally
call-trade_eths s (market events) h =
    ap (add_size s.trade_eths) (tally_from-trade_eths zero_tally events ∙ omega arith)
call-trade_eths s (profile_events n) h = omega arith

call-summaries :
    (s : CallbackState) (c : Call)
    → s.summaries < 2 ^ 64
    → (call s c).summaries ≡ add_size s.summaries ((of_market (occurrences is_summary)) c)
unfolding call handle_market_events handle_profiles tally
call-summaries s (market events) h =
    ap (add_size s.summaries) (tally_from-summaries zero_tally events ∙ omega arith)
call-summaries s (profile_events n) h = omega arith

call-profiles :
    (s : CallbackState) (c : Call)
    → s.profiles < 2 ^ 64
    → (call s c).profiles ≡ add_size s.profiles (of_profiles c)
unfolding call handle_market_events handle_profiles tally
call-profiles s (market events) h = omega arith
call-profiles s (profile_events n) h = refl

measured :
    (field : CallbackState → ℕ) (count : Call → ℕ)
    → ((s : CallbackState) (c : Call)
        → field s < 2 ^ 64
        → field (call s c) ≡ add_size (field s) (count c))
    → (s : CallbackState) (calls : List Call) → field s < 2 ^ 64
    → sub_size (field (call_all s calls)) (field s) ≡ sum_of count calls % 2 ^ 64
measured field count step s calls h =
    ap (λ n. sub_size n (field s)) (call_all-sum field count step calls s h)
    ∙ difference (field s) (sum_of count calls) h

abbrev snapshot_of : ℕ → ℕ → ℕ → ℕ → ℕ → ℕ → ℕ → CallbackSnapshot
snapshot_of a b c d e f g = record {
  callbacks = a;
  recurring_events = b;
  quotes = c;
  trades = d;
  trade_eths = e;
  summaries = f;
  profiles = g;
}

same_snapshot :
    {a b c d e f g a1 b1 c1 d1 e1 f1 g1 : ℕ}
    → a ≡ a1
    → b ≡ b1
    → c ≡ c1
    → d ≡ d1
    → e ≡ e1
    → f ≡ f1
    → g ≡ g1
    → snapshot_of a b c d e f g ≡ snapshot_of a1 b1 c1 d1 e1 f1 g1
same_snapshot a b c d e f g = cc

-- The difference of the snapshots before and after any calls of the listeners is what they saw in
-- those calls: the batches, their events, the events of each type and the profiles, each modulo
-- 2 ^ 64, also where a counter wrapped around in between.
pub subtract-seen :
    (s : CallbackState) (calls : List Call)
    → Fits s
    → subtract (snapshot (call_all s calls)) (snapshot s) ≡ seen calls
unfolding subtract snapshot seen
subtract-seen s calls fits =
    same_snapshot
      (measured (λ t. t.callbacks) (of_market (λ events. 1)) call-callbacks s calls fits.callbacks)
      (measured (λ t. t.recurring_events) (of_market length) call-recurring_events s calls
        fits.recurring_events)
      (measured (λ t. t.quotes) (of_market (occurrences is_quote)) call-quotes s calls fits.quotes)
      (measured (λ t. t.trades) (of_market (occurrences is_trade)) call-trades s calls fits.trades)
      (measured (λ t. t.trade_eths) (of_market (occurrences is_trade_eth)) call-trade_eths s calls
        fits.trade_eths)
      (measured (λ t. t.summaries) (of_market (occurrences is_summary)) call-summaries s calls
        fits.summaries)
      (measured (λ t. t.profiles) of_profiles call-profiles s calls fits.profiles)
