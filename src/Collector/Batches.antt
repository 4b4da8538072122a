-- ===== src/Collector/Batches.antt =====
-- `Collector::addEvent`, `acceptBatch` and the marker's part of `handle`: the pending batches.
use dxfcxx_event_test.Base.{
  ℕ, ◌+◌, max, Bool, true, false, not, ◌&&◌, ◌||◌, Option, none, some, List, [], ◌∷◌, ◌++◌, ltb,
  ◌==◌, if◌then◌else◌, set,
}
use dxfcxx_event_test.Collector.{
  PendingEvent, PendingBatch, Counters, Settings, Collector, empty_batch,
}
use dxfcxx_event_test.Collector.Samples.{
  same_kind, on_counters, emit_events, emitted, has_expected_composition, finish,
}

unfoldable pub find_batch : ℕ → List (ℕ × PendingBatch) → Option PendingBatch
find_batch sequence [] = none
find_batch sequence ((k, b) ∷ m) = if k == sequence then some b else find_batch sequence m

unfoldable pub erase_batch : ℕ → List (ℕ × PendingBatch) → List (ℕ × PendingBatch)
erase_batch sequence [] = []
erase_batch sequence ((k, b) ∷ m) = if k == sequence then m else (k, b) ∷ erase_batch sequence m

-- At its place, for a key that is not in the map.
unfoldable pub insert_batch : ℕ → PendingBatch → List (ℕ × PendingBatch) → List (ℕ × PendingBatch)
insert_batch sequence b [] = (sequence, b) ∷ []
insert_batch sequence b ((k, d) ∷ m) =
    if ltb sequence k then (sequence, b) ∷ (k, d) ∷ m else (k, d) ∷ insert_batch sequence b m

unfoldable pub contains_sequence : ℕ → List ℕ → Bool
contains_sequence sequence [] = false
contains_sequence sequence (k ∷ set) = (k == sequence) || contains_sequence sequence set

abbrev pub is_found : Option PendingBatch → Bool
is_found none = false
is_found (some b) = true

abbrev pub batch_or_empty : Option PendingBatch → PendingBatch
batch_or_empty none = empty_batch
batch_or_empty (some b) = b

-- `acceptBatch`.
unfoldable pub accept_batch : ℕ → Collector → Bool
unfolding contains_sequence find_batch
accept_batch sequence c =
    not (contains_sequence sequence c.pre_measurement_sequences)
    && (c.accepting_new_batches || is_found (find_batch sequence c.pending))

-- The changed batch of a sequence goes back to the map, unless it is finished.
unfoldable pub put_back : Settings → Bool → ℕ → PendingBatch → Collector → Collector
unfolding finish insert_batch erase_batch
put_back s finished sequence b c =
    let others = erase_batch sequence c.pending in
    if finished
    then record (finish s b b.timestamp c) { pending = others }
    else record c { pending = insert_batch sequence b others }

unfoldable pub is_timed : Option ℕ → Bool
is_timed none = false
is_timed (some t) = true

unfoldable pub with_event : PendingEvent → PendingBatch → PendingBatch
unfolding same_kind
with_event e b = record b {
  first_observed = if b.received == 0 then e.observed else b.first_observed;
  last_observed = max b.last_observed e.observed;
  received = b.received + 1;
  received_by_kind = λ kind.
      if same_kind e.kind kind then b.received_by_kind kind + 1 else b.received_by_kind kind;
  events = b.events ++ e ∷ [];
}

-- `addEvent`.
unfoldable pub add_event : Settings → ℕ → PendingEvent → Collector → Collector
unfolding accept_batch with_event emit_events emitted is_timed put_back
add_event s sequence e c =
    let b = with_event e (batch_or_empty (find_batch sequence c.pending)) in
    let left = emitted b.timestamp b in
    if accept_batch sequence c
    then put_back s (is_timed b.timestamp && has_expected_composition s b) sequence left
        (emit_events b.timestamp b.events c)
    else c

unfoldable pub count_published : Settings → Counters → Counters
count_published s n = record n { published = λ kind. n.published kind + s.expected_by_kind kind }

-- The first marker of a batch.
unfoldable pub count_marker : Settings → Option ℕ → Collector → Collector
unfolding count_published
count_marker s none c = on_counters (count_published s) c
count_marker s (some time) c = c

abbrev pub first_time : ℕ → Option ℕ → ℕ
first_time time none = time
first_time time (some t) = t

unfoldable pub with_marker : ℕ → ℕ → PendingBatch → PendingBatch
with_marker time observed b = record b {
  timestamp = some (first_time time b.timestamp);
  first_observed = if b.first_observed == 0 then observed else b.first_observed;
  last_observed = max b.last_observed observed;
}

-- A marker in a callback, with the time that its text holds.
unfoldable pub add_marker : Settings → ℕ → ℕ → Option ℕ → Collector → Collector
unfolding accept_batch with_marker emit_events emitted count_marker put_back
add_marker s sequence observed none c = c
add_marker s sequence observed (some time) c =
    let old = batch_or_empty (find_batch sequence c.pending) in
    let b = with_marker time observed old in
    if accept_batch sequence c
    then put_back s (has_expected_composition s b) sequence (emitted b.timestamp b)
        (emit_events b.timestamp b.events (count_marker s old.timestamp c))
    else c
