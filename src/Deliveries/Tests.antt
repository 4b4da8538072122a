-- ===== src/Deliveries/Tests.antt =====
-- Two threads that raise a maximum, and the calls of a short measurement.
use dxfcxx_event_test.Base.{ℕ, ◌-◌, ◌^◌, ◌≤◌, max, ◌≡◌, List, [], ◌∷◌, arith}
use dxfcxx_event_test.Deliveries.Counters.{
  quote, trade, CallbackState, Call, market, profile_events, call_all, snapshot, subtract,
}
use dxfcxx_event_test.Deliveries.Interval.{seen, subtract-seen}
use dxfcxx_event_test.Deliveries.Maximum.{
  looping, finished, Thread, load, leave, exchange, fail, Reachable, begun, moved, largest,
  AllFinished, Reachable-largest,
}
use dxfcxx_event_test.Deliveries.Alone.{Alone, Alone-finishes}

abbrev ended : ℕ → Thread
ended v = record { value = v; phase = finished }

abbrev at_test : ℕ → ℕ → Thread
at_test v current = record { value = v; phase = looping current }

-- Both load before either exchanges, so the second exchange fails once.
both_ended : Reachable 3 (8 ∷ 5 ∷ []) 8 (ended 8 ∷ ended 5 ∷ [])
both_ended =
    let a = moved [] _ begun (load (omega arith)) in
    let b = moved (at_test 8 3 ∷ []) [] a (load (omega arith)) in
    let c = moved [] (at_test 5 3 ∷ []) b (exchange (omega arith)) in
    let d = moved (ended 8 ∷ []) [] c (fail {seen = 8} (omega arith) (omega arith)) in
    moved (ended 8 ∷ []) [] d (leave (omega arith))

Reachable-largest_example :
    (3 ≤ 8)
    × (8 ≤ largest 3 (8 ∷ 5 ∷ []))
    × (AllFinished (ended 8 ∷ ended 5 ∷ []) → 8 ≡ largest 3 (8 ∷ 5 ∷ []))
Reachable-largest_example = Reachable-largest 3 (8 ∷ 5 ∷ []) 8 (ended 8 ∷ ended 5 ∷ []) both_ended

Alone-finishes_example : (steps : ℕ) × (steps ≤ 2) × Alone 9 6 (looping 4) (max 6 9) finished steps
Alone-finishes_example = Alone-finishes 9 6 (looping 4) (omega arith) (λ e. cc)

abbrev warmed_up : CallbackState
warmed_up = record {
  callbacks = 2 ^ 64 - 1;
  recurring_events = 40;
  quotes = 30;
  trades = 10;
  trade_eths = 0;
  summaries = 0;
  profiles = 2;
  maximum_batch = 20;
}

abbrev calls : List Call
calls = market (quote ∷ trade ∷ quote ∷ []) ∷ profile_events 1 ∷ market (trade ∷ []) ∷ []

subtract-seen_example :
    subtract (snapshot (call_all warmed_up calls)) (snapshot warmed_up) ≡ seen calls
subtract-seen_example = subtract-seen warmed_up calls (omega arith)
