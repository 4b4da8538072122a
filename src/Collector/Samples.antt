-- ===== src/Collector/Samples.antt =====
-- `Collector::emitEvents`, `hasExpectedComposition` and `finish`: what a finished batch adds to the
-- samples and the counters.
use dxfcxx_event_test.Base.{
  ℕ, zero, suc, ◌+◌, ◌-◌, Bool, true, false, ◌&&◌, ◌||◌, Option, none, some, List, [], ◌∷◌, ◌++◌,
  ltb, ◌==◌, if◌then◌else◌, drop,
}
use dxfcxx_event_test.Base.Int.{ℤ, pos, negsuc}
use dxfcxx_event_test.Text.{Bytes, codes, starts_with, scan_i64, scanned_all}
use dxfcxx_event_test.Task.{EventKind, quote, trade, trade_eth, summary, time_and_sale}
use dxfcxx_event_test.Collector.{PendingEvent, PendingBatch, Counters, Sample, Settings, Collector}

unfoldable pub same_kind : EventKind → EventKind → Bool
same_kind quote quote = true
same_kind trade trade = true
same_kind trade_eth trade_eth = true
same_kind summary summary = true
same_kind time_and_sale time_and_sale = true
same_kind kind kind' = false

-- `markerTimestamp`.
unfoldable pub positive_time : Option ℤ → Option ℕ
positive_time (some (pos (suc n))) = some (suc n)
positive_time (some (pos zero)) = none
positive_time (some (negsuc n)) = none
positive_time none = none

unfoldable pub marker_timestamp : Bytes → Option ℕ
unfolding codes starts_with scan_i64 positive_time
marker_timestamp text =
    if starts_with (codes "LATENCY_BATCH:") text
    then positive_time (scanned_all (scan_i64 (drop 14 text)))
    else none

-- Both the window's counters and the totals.
unfoldable pub on_counters : (Counters → Counters) → Collector → Collector
on_counters f c = record c { window = f c.window; totals = f c.totals }

abbrev pub count_negative : Counters → Counters
count_negative n = record n { negative = n.negative + 1 }

unfoldable pub sampled : ℕ → PendingEvent → Collector → Collector
unfolding on_counters
sampled time e c =
    let sample : Sample = record {
      observed = e.observed;
      publish_time = time;
      delta = e.observed - time;
      kind = e.kind;
      symbol = e.symbol;
    } in
    if ltb e.observed time then on_counters count_negative c else record c {
      event_window = c.event_window ++ sample ∷ [];
      event_global = c.event_global ++ sample ∷ [];
    }

unfoldable pub sample_all : ℕ → List PendingEvent → Collector → Collector
unfolding sampled
sample_all time [] c = c
sample_all time (e ∷ events) c = sample_all time events (sampled time e c)

-- `emitEvents`, on the collector; the batch loses the events that were emitted.
unfoldable pub emit_events : Option ℕ → List PendingEvent → Collector → Collector
emit_events none events c = c
emit_events (some time) events c = sample_all time events c

unfoldable pub emitted : Option ℕ → PendingBatch → PendingBatch
emitted none b = b
emitted (some time) b = record b { events = [] }

-- `hasExpectedComposition`, over the four kinds that the client counts.
unfoldable pub has_expected_composition : Settings → PendingBatch → Bool
has_expected_composition s b =
    (b.received_by_kind quote == s.expected_by_kind quote)
    && (b.received_by_kind trade == s.expected_by_kind trade)
    && (b.received_by_kind trade_eth == s.expected_by_kind trade_eth)
    && (b.received_by_kind summary == s.expected_by_kind summary)

-- The counters of a finished batch without a marker, and with one.
unfoldable pub count_uncorrelated : Settings → PendingBatch → Counters → Counters
count_uncorrelated s b n = record n {
  uncorrelated_events = n.uncorrelated_events + b.received;
  missing = if s.allow_conflation then n.missing else n.missing + 1;
}

unfoldable pub count_finished : Settings → PendingBatch → Counters → Counters
unfolding has_expected_composition
count_finished s b n =
    let complete = has_expected_composition s b in
    let empty = b.received == 0 in
    record n {
      delivered = λ kind. n.delivered kind + b.received_by_kind kind;
      listener_deficit =
          λ kind. n.listener_deficit kind + (s.expected_by_kind kind - b.received_by_kind kind);
      excess = λ kind. n.excess kind + (b.received_by_kind kind - s.expected_by_kind kind);
      full_publications = if complete then n.full_publications + 1 else n.full_publications;
      empty_publications =
          if complete
          then n.empty_publications
          else if empty
          then n.empty_publications + 1
          else n.empty_publications;
      partial_publications =
          if complete
          then n.partial_publications
          else if empty
          then n.partial_publications
          else n.partial_publications + 1;
      missing = if complete || s.allow_conflation then n.missing else n.missing + 1;
    }

-- The sample of a whole batch.
unfoldable pub sample_batch : ℕ → PendingBatch → Collector → Collector
unfolding on_counters
sample_batch time b c =
    let sample : Sample = record {
      observed = b.last_observed;
      publish_time = time;
      delta = b.last_observed - time;
      kind = quote;
      symbol = [];
    } in
    if b.received == 0
    then c
    else if ltb b.last_observed time
    then on_counters count_negative c
    else record c {
      batch_window = c.batch_window ++ sample ∷ [];
      batch_global = c.batch_global ++ sample ∷ [];
    }

-- `finish`, of a batch that is taken out of `pending`.
unfoldable pub finish : Settings → PendingBatch → Option ℕ → Collector → Collector
unfolding count_uncorrelated count_finished sample_batch emit_events
finish s b none c = on_counters (count_uncorrelated s b) c
finish s b (some time) c =
    sample_batch time b (on_counters (count_finished s b) (emit_events (some time) b.events c))
