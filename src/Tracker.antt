-- ===== src/Tracker.antt =====
-- src/client.cpp: `TimeSeriesTracker`, which follows the TimeAndSale snapshot of each symbol to its
-- end and then counts the live events. The map of symbol states is an association list, a set of
-- indices a list. Times are nanoseconds, zero where none was stored; the wait for the snapshot and
-- the report are left out.
pub mod Counts
pub mod Cutover
mod Tests
use dxfcxx_event_test.Base.{
  ℕ, zero, suc, ◌+◌, ◌-◌, ◌*◌, ◌/◌, ◌%◌, ◌^◌, ◌≤◌, ◌<◌, min, max, ◌≡◌, refl, sym, ap, ◌∙◌, subst,
  ◌≢◌, ◌↔◌, ◌⊎◌, inl, inr, Bool, true, false, not, ◌&&◌, ◌||◌, Option, none, some, List, [], ◌∷◌,
  ◌++◌, map, reverse, append-nil, append_assoc, arith, ltb, leb, ◌==◌, if◌then◌else◌, ltb→lt,
  lt→ltb, ltb→ge, ge→ltb, leb→le, ==_iff, ==_refl, ne→==, Bool-cases, Option-cases, Result, ok, err,
  ◌>>=◌, ◌>>◌, guard, >>=-eq-ok, length, get_elem?, set, take, drop, replicate, length-append,
  length-reverse, length-take, length-drop, length-replicate, take-length-append,
  drop-length-append, length-set, length-map, All, All-append, All-reverse, All-mono,
}
use dxfcxx_event_test.Text.{
  Bytes, codes, same, starts_with, ends_with, remove_suffix, substr, find, find_from, is_digit,
  value, to_string, zero_padded, size_limit, int64_limit, Scan, invalid, out_of_range, scanned,
  span_digits, scan_u64, scan_i64, scanned_all,
}
use dxfcxx_event_test.Server.History.{Flags}

-- What `handle` reads of a TimeAndSale; the index is the bit pattern of an int64.
pub record SeriesEvent : Type 0 where
  pub symbol : Bytes
  pub index : ℕ
  pub time_nanos : ℕ
  pub flags : Flags

pub record SymbolState : Type 0 where
  pub started : Bool
  pub complete : Bool
  pub indices : List ℕ

pub record Tracker : Type 0 where
  pub symbols : List (Bytes × SymbolState)
  pub subscribed_at_ns : ℕ
  pub first_observed_ns : ℕ
  pub completed_at_ns : ℕ
  pub first_live_ns : ℕ
  pub expected_symbols : ℕ
  pub completed_symbols : ℕ
  pub callbacks : ℕ
  pub snapshot_callbacks : ℕ
  pub snapshot_events : ℕ
  pub snapshot_begins : ℕ
  pub snapshot_ends : ℕ
  pub snapshot_snips : ℕ
  pub snapshot_removals : ℕ
  pub live_events : ℕ
  pub premature_live_events : ℕ
  pub duplicate_indices : ℕ
  pub clock_anomalies : ℕ
  pub measuring : Bool
  pub live_latencies : List ℕ

abbrev pub initial_tracker : Tracker
initial_tracker = record {
  symbols = [];
  subscribed_at_ns = 0;
  first_observed_ns = 0;
  completed_at_ns = 0;
  first_live_ns = 0;
  expected_symbols = 0;
  completed_symbols = 0;
  callbacks = 0;
  snapshot_callbacks = 0;
  snapshot_events = 0;
  snapshot_begins = 0;
  snapshot_ends = 0;
  snapshot_snips = 0;
  snapshot_removals = 0;
  live_events = 0;
  premature_live_events = 0;
  duplicate_indices = 0;
  clock_anomalies = 0;
  measuring = false;
  live_latencies = [];
}

abbrev pub new_state : SymbolState
new_state = record { started = false; complete = false; indices = [] }

-- `symbols_[symbol]`, which makes a state for a new symbol.
unfoldable pub state_of : Bytes → List (Bytes × SymbolState) → SymbolState
state_of symbol [] = new_state
state_of symbol ((s, state) ∷ m) = if same s symbol then state else state_of symbol m

unfoldable pub put_state :
    Bytes → SymbolState → List (Bytes × SymbolState) → List (Bytes × SymbolState)
put_state symbol state [] = (symbol, state) ∷ []
put_state symbol state ((s, old) ∷ m) =
    if same s symbol then (s, state) ∷ m else (s, old) ∷ put_state symbol state m

pub contains_index : ℕ → List ℕ → Bool
contains_index index [] = false
contains_index index (i ∷ set) = i == index || contains_index index set

-- `snapshotBegin || snapshotEnd || snapshotSnip || inSnapshot`, and the two other ways on.
pub data Phase : Type 0 where
  snapshot premature live : Phase

abbrev pub ends_snapshot : Flags → Bool
ends_snapshot flags = flags.ends || flags.snips

unfoldable pub phase_of : SymbolState → Flags → Phase
phase_of state flags =
    if flags.begins || (ends_snapshot flags || (state.started && not state.complete))
    then snapshot
    else if state.complete
    then live
    else premature

abbrev pub one_if : Bool → ℕ
one_if true = 1
one_if false = 0

-- `if (!stored) stored = observed`.
abbrev pub first_time : ℕ → ℕ → ℕ
first_time stored observed = if stored == 0 then observed else stored

-- The state of the symbol after an event of the snapshot.
unfoldable pub advanced : SymbolState → SeriesEvent → SymbolState
unfolding contains_index
advanced state e = record {
  started = state.started || e.flags.begins;
  complete = state.complete || ends_snapshot e.flags;
  indices =
      if e.flags.removes || contains_index e.index state.indices
      then state.indices
      else e.index ∷ state.indices;
}

unfoldable pub count_snapshot : ℕ → SymbolState → SeriesEvent → Tracker → Tracker
unfolding contains_index
count_snapshot observed state e t =
    let closes = ends_snapshot e.flags && not state.complete in
    let completed = t.completed_symbols + one_if closes in
    record t {
      snapshot_removals = t.snapshot_removals + one_if e.flags.removes;
      snapshot_events = t.snapshot_events + one_if (not e.flags.removes);
      duplicate_indices =
          t.duplicate_indices
          + one_if (not e.flags.removes && contains_index e.index state.indices);
      completed_symbols = completed;
      snapshot_ends = t.snapshot_ends + one_if (closes && e.flags.ends);
      snapshot_snips = t.snapshot_snips + one_if (closes && e.flags.snips);
      completed_at_ns =
          if closes && completed == t.expected_symbols then observed else t.completed_at_ns;
    }

unfoldable pub count_live : ℕ → SeriesEvent → Tracker → Tracker
count_live observed e t =
    let early = ltb observed e.time_nanos in
    record t {
      live_events = t.live_events + 1;
      first_live_ns = first_time t.first_live_ns observed;
      clock_anomalies = t.clock_anomalies + one_if (t.measuring && early);
      live_latencies =
          if t.measuring && not early
          then t.live_latencies ++ (observed - e.time_nanos) ∷ []
          else t.live_latencies;
    }

unfoldable pub count_event : Phase → ℕ → SymbolState → SeriesEvent → Tracker → Tracker
unfolding count_snapshot count_live
count_event snapshot observed state e t = count_snapshot observed state e t
count_event premature observed state e t = record t {
  premature_live_events = t.premature_live_events + 1;
}
count_event live observed state e t = count_live observed e t

-- `state` as the code leaves it; a live event changes nothing.
unfoldable pub next_state : Phase → SymbolState → SeriesEvent → SymbolState
unfolding advanced
next_state snapshot state e = advanced state e
next_state premature state e = state
next_state live state e = state

-- The body of the loop over the events.
unfoldable pub handle_event : ℕ → SeriesEvent → Tracker → Tracker
unfolding count_event next_state phase_of state_of put_state
handle_event observed e t =
    let state = state_of e.symbol t.symbols in
    let phase = phase_of state e.flags in
    count_event phase observed state e (record t {
      symbols = put_state e.symbol (next_state phase state e) t.symbols;
      first_observed_ns = first_time t.first_observed_ns observed;
      snapshot_begins = t.snapshot_begins + one_if e.flags.begins;
    })

unfoldable pub handle_events : ℕ → List SeriesEvent → Tracker → Tracker
unfolding handle_event
handle_events observed [] t = t
handle_events observed (e ∷ events) t = handle_events observed events (handle_event observed e t)

abbrev is_snapshot : Phase → Bool
is_snapshot snapshot = true
is_snapshot phase = false

-- `containsSnapshotEvent`, over the same states as the loop.
contains_snapshot : ℕ → List SeriesEvent → Tracker → Bool
unfolding handle_event phase_of state_of
contains_snapshot observed [] t = false
contains_snapshot observed (e ∷ events) t =
    let later = contains_snapshot observed events (handle_event observed e t) in
    is_snapshot (phase_of (state_of e.symbol t.symbols) e.flags) || later

-- `handle`, of one callback at `observed`; events of other types are passed over.
unfoldable pub handle : ℕ → List SeriesEvent → Tracker → Tracker
unfolding handle_events contains_snapshot
handle observed events t =
    let counted = record t { callbacks = t.callbacks + 1 } in
    let done = handle_events observed events counted in
    record done {
      snapshot_callbacks =
          done.snapshot_callbacks + one_if (contains_snapshot observed events counted);
    }

unfoldable pub begin_snapshot : ℕ → ℕ → Tracker → Tracker
begin_snapshot expected subscribed t = record t {
  expected_symbols = expected;
  subscribed_at_ns = subscribed;
}

unfoldable pub begin_measurement : Tracker → Tracker
begin_measurement t = record t { measuring = true; live_latencies = [] }

unfoldable pub end_measurement : Tracker → Tracker
end_measurement t = record t { measuring = false }

pub snapshot_complete : Tracker → Bool
snapshot_complete t = ltb 0 t.expected_symbols && leb t.expected_symbols t.completed_symbols
