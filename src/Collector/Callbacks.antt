-- ===== src/Collector/Callbacks.antt =====
-- `Collector::handle`, `beginMeasurement`, `endMeasurement` and `takeWindow`.
use dxfcxx_event_test.Base.{
  ℕ, ◌+◌, ◌*◌, Bool, true, false, ◌||◌, Option, none, some, List, [], ◌∷◌, ◌++◌, ltb, if◌then◌else◌,
  set,
}
use dxfcxx_event_test.Base.Int.{ℤ, pos}
use dxfcxx_event_test.Text.{Bytes}
use dxfcxx_event_test.Task.{EventKind}
use dxfcxx_event_test.SourceTime.{observe, reset}
use dxfcxx_event_test.Collector.{
  PendingBatch, Counters, Settings, Collector, Received, no_counters, marker, described, other,
}
use dxfcxx_event_test.Collector.Samples.{marker_timestamp, on_counters, finish}
use dxfcxx_event_test.Collector.Batches.{add_event, first_time, add_marker}

unfoldable pub observed_source : EventKind → Bytes → Option ℤ → ℕ → Collector → Collector
unfolding observe
observed_source kind symbol none at c = c
observed_source kind symbol (some time) at c =
    if c.source_time_measuring
    then record c {
      source_times =
          observe c.source_times (record {
            kind = kind;
            symbol = symbol;
            source_time_ms = time;
            observed_at_ns = pos at;
          });
    }
    else c

unfoldable pub add_described : Settings → EventKind → Bytes → Option ℕ → ℕ → Collector → Collector
unfolding add_event
add_described s kind symbol none observed c = c
add_described s kind symbol (some sequence) observed c =
    add_event s sequence (record { observed = observed; kind = kind; symbol = symbol }) c

-- One event of a callback while measuring.
unfoldable pub receive : Settings → ℕ → Received → Collector → Collector
unfolding marker_timestamp add_marker observed_source add_described
receive s observed (marker sequence text) c =
    add_marker s sequence observed (marker_timestamp text) c
receive s observed (described kind symbol sequence source) c =
    add_described s kind symbol sequence observed (observed_source kind symbol source observed c)
receive s observed other c = c

unfoldable pub receive_all : Settings → ℕ → List Received → Collector → Collector
unfolding receive
receive_all s observed [] c = c
receive_all s observed (e ∷ events) c = receive_all s observed events (receive s observed e c)

exclude_marker : ℕ → Option ℕ → List ℕ → List ℕ
exclude_marker sequence none set = set
exclude_marker sequence (some time) set = sequence ∷ set

exclude_described : Option ℕ → List ℕ → List ℕ
exclude_described none set = set
exclude_described (some sequence) set = sequence ∷ set

-- The sequences of a callback before the measurement.
unfoldable pub exclude : Received → List ℕ → List ℕ
unfolding marker_timestamp exclude_marker exclude_described
exclude (marker sequence text) set = exclude_marker sequence (marker_timestamp text) set
exclude (described kind symbol sequence source) set = exclude_described sequence set
exclude other set = set

unfoldable pub exclude_all : List Received → List ℕ → List ℕ
unfolding exclude
exclude_all [] set = set
exclude_all (e ∷ events) set = exclude_all events (exclude e set)

unfoldable pub count_callback : Counters → Counters
count_callback n = record n { callbacks = n.callbacks + 1 }

-- `handle`, for a callback at `observed`.
unfoldable pub handle : Settings → ℕ → List Received → Collector → Collector
unfolding exclude_all receive_all on_counters count_callback
handle s observed events c =
    if c.measuring
    then receive_all s observed events
        (on_counters count_callback (record c { activity = c.activity + 1 }))
    else record c { pre_measurement_sequences = exclude_all events c.pre_measurement_sequences }

unfoldable pub begin_measurement : Collector → Collector
unfolding reset
begin_measurement c = record c {
  event_window = [];
  batch_window = [];
  pending = [];
  window = no_counters;
  source_times = reset c.source_times;
  accepting_new_batches = true;
  source_time_measuring = true;
  measuring = true;
}

unfoldable pub end_measurement : Collector → Collector
end_measurement c = record c { accepting_new_batches = false; source_time_measuring = false }

-- Whether a pending batch is finished incomplete: its time is before the cutoff.
unfoldable pub expired : Bool → ℕ → ℕ → PendingBatch → Bool
expired expire_all now timeout_ms b =
    expire_all || ltb (first_time b.first_observed b.timestamp + timeout_ms * 1_000_000) now

-- The loop over the pending batches; those before `kept` stay.
unfoldable pub expire :
    Settings → Bool → ℕ → List (ℕ × PendingBatch) → List (ℕ × PendingBatch) → Collector → Collector
unfolding expired finish
expire s expire_all now kept [] c = record c { pending = kept }
expire s expire_all now kept ((k, b) ∷ rest) c =
    if expired expire_all now s.batch_timeout_ms b
    then expire s expire_all now kept rest (finish s b b.timestamp c)
    else expire s expire_all now (kept ++ (k, b) ∷ []) rest c

-- `takeWindow`, on the collector.
unfoldable pub take_window : Settings → Bool → ℕ → Collector → Collector
unfolding expire
take_window s expire_all now c =
    let done = expire s expire_all now [] c.pending c in
    record done { event_window = []; batch_window = []; window = no_counters }
