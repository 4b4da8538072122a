-- ===== src/Tracker/Counts.antt =====
-- What the counters of the tracker say of the symbols' states.
use dxfcxx_event_test.Base.{
  ℕ, ◌+◌, ◌-◌, ◌≤◌, ◌≡◌, refl, inl, inr, List, [], ◌∷◌, arith, Bool-cases, length, length-append,
}
use dxfcxx_event_test.Text.{Bytes, same}
use dxfcxx_event_test.Tracker.{
  SeriesEvent, SymbolState, Tracker, first_time, initial_tracker, new_state, state_of, put_state,
  Phase, snapshot, premature, live, phase_of, one_if, advanced, count_snapshot, count_live,
  count_event, next_state, handle_event, handle_events, handle, begin_snapshot, begin_measurement,
  end_measurement,
}

-- The sum of a number over all states.
pub over_states : (SymbolState → ℕ) → List (Bytes × SymbolState) → ℕ
over_states f [] = 0
over_states f ((s, state) ∷ m) = f state + over_states f m

over_states-put_state :
    (f : SymbolState → ℕ) (symbol : Bytes) (state : SymbolState) (m : List (Bytes × SymbolState))
    → f new_state ≡ 0
    → over_states f (put_state symbol state m) + f (state_of symbol m) ≡ over_states f m + f state
unfolding over_states put_state state_of
over_states-put_state f symbol state [] fresh = omega arith
over_states-put_state f symbol state ((s, old) ∷ m) fresh = elim (Bool-cases (same s symbol)) [
  | inl e ↦ rw e (omega arith)
  | inr e ↦ rw e (omega (arith, over_states-put_state f symbol state m fresh))
]

abbrev pub is_complete : SymbolState → ℕ
is_complete state = one_if state.complete

abbrev pub index_count : SymbolState → ℕ
index_count state = length state.indices

-- The counters agree with the states of the symbols.
pub record IsCounted (t : Tracker) : Type 0 where
  pub completed : t.completed_symbols ≡ over_states is_complete t.symbols
  pub closed : t.completed_symbols ≤ t.snapshot_ends + t.snapshot_snips
  pub ends : t.snapshot_ends ≤ t.completed_symbols
  pub snips : t.snapshot_snips ≤ t.completed_symbols
  pub indices : over_states index_count t.symbols + t.duplicate_indices ≡ t.snapshot_events
  pub latencies : length t.live_latencies + t.clock_anomalies ≤ t.live_events

-- The events that the tracker has sorted.
pub sorted_events : Tracker → ℕ
sorted_events t = t.snapshot_events + t.snapshot_removals + t.premature_live_events + t.live_events

module _ (observed : ℕ) (e : SeriesEvent) (t : Tracker) where
  after : Phase → Tracker
  after phase = record t {
    symbols = put_state e.symbol (next_state phase (state_of e.symbol t.symbols) e) t.symbols;
    first_observed_ns = first_time t.first_observed_ns observed;
    snapshot_begins = t.snapshot_begins + one_if e.flags.begins;
  }

  count_event-IsCounted :
      (phase : Phase)
      → IsCounted t
      → IsCounted (count_event phase observed (state_of e.symbol t.symbols) e (after phase))
  unfolding after count_event next_state advanced count_snapshot count_live
  count_event-IsCounted snapshot c =
      let old = state_of e.symbol t.symbols in
      let completes = over_states-put_state is_complete e.symbol (advanced old e) t.symbols refl in
      let sizes = over_states-put_state index_count e.symbol (advanced old e) t.symbols refl in
      record {
        completed = ground (arith, completes);
        closed = ground arith;
        ends = ground arith;
        snips = ground arith;
        indices = ground (arith, sizes);
        latencies = c.latencies;
      }
  count_event-IsCounted premature c =
      let old = state_of e.symbol t.symbols in
      record {
        completed =
            omega
              (arith, c.completed, over_states-put_state is_complete e.symbol old t.symbols refl);
        closed = c.closed;
        ends = c.ends;
        snips = c.snips;
        indices =
            omega (arith, c.indices, over_states-put_state index_count e.symbol old t.symbols refl);
        latencies = c.latencies;
      }
  count_event-IsCounted live c =
      let old = state_of e.symbol t.symbols in
      record {
        completed =
            omega
              (arith, c.completed, over_states-put_state is_complete e.symbol old t.symbols refl);
        closed = c.closed;
        ends = c.ends;
        snips = c.snips;
        indices =
            omega (arith, c.indices, over_states-put_state index_count e.symbol old t.symbols refl);
        latencies = ground (arith, length-append t.live_latencies ((observed - e.time_nanos) ∷ []));
      }

  count_event-sorted :
      (phase : Phase)
      → sorted_events (count_event phase observed (state_of e.symbol t.symbols) e (after phase))
        ≡ sorted_events t + 1
  unfolding sorted_events after count_event next_state advanced count_snapshot count_live
  count_event-sorted snapshot = ground arith
  count_event-sorted premature = omega arith
  count_event-sorted live = omega arith

handle_events-IsCounted :
    (observed : ℕ) (events : List SeriesEvent) (t : Tracker)
    → IsCounted t
    → IsCounted (handle_events observed events t)
      × (sorted_events (handle_events observed events t) ≡ sorted_events t + length events)
unfolding handle_events handle_event after
handle_events-IsCounted observed [] t c = (c, omega arith)
handle_events-IsCounted observed (e ∷ events) t c =
    let phase = phase_of (state_of e.symbol t.symbols) e.flags in
    let (counted, sum) =
      handle_events-IsCounted observed events (handle_event observed e t)
        (count_event-IsCounted observed e t phase c) in
    (counted, omega (arith, sum, count_event-sorted observed e t phase))

-- A tracker that has taken `n` events, with its operations called in any order.
pub data Followed : ℕ → Tracker → Type 0 where
  created : Followed 0 initial_tracker
  subscribed :
      {n : ℕ} {t : Tracker} (expected at : ℕ)
      → Followed n t
      → Followed n (begin_snapshot expected at t)
  handled :
      {n m : ℕ} {t : Tracker} (observed : ℕ) (events : List SeriesEvent)
      → Followed n t
      → n + length events ≡ m
      → Followed m (handle observed events t)
  measured : {n : ℕ} {t : Tracker} → Followed n t → Followed n (begin_measurement t)
  stopped : {n : ℕ} {t : Tracker} → Followed n t → Followed n (end_measurement t)

-- Whatever the order of the calls: the completed symbols are those whose state is complete, each
-- closed by an end or a snip; the indices held for the symbols and the duplicate ones make up the
-- snapshot events; there are no more latency samples and clock anomalies than live events; and every
-- event taken is counted once, as an event of a snapshot, a removal, a premature or a live event.
pub Followed-IsCounted : {n : ℕ} {t : Tracker} → Followed n t → IsCounted t × (sorted_events t ≡ n)
unfolding begin_snapshot begin_measurement end_measurement handle sorted_events over_states
Followed-IsCounted created = (
  record {
    completed = refl;
    closed = omega arith;
    ends = omega arith;
    snips = omega arith;
    indices = refl;
    latencies = omega arith;
  },
  refl,
)
Followed-IsCounted (subscribed expected at f) =
    let (c, n) = Followed-IsCounted f in (omega arith, n)
Followed-IsCounted (handled {t} observed events f e) =
    let (c, n) = Followed-IsCounted f in
    let counted : IsCounted (record t { callbacks = t.callbacks + 1 }) = omega arith in
    let (d, sum) =
      handle_events-IsCounted observed events (record t { callbacks = t.callbacks + 1 }) counted in
    (omega arith, omega (arith, sum, n, e))
Followed-IsCounted (measured f) = let (c, n) = Followed-IsCounted f in (omega arith, n)
Followed-IsCounted (stopped f) = let (c, n) = Followed-IsCounted f in (omega arith, n)
