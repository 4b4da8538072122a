-- ===== src/Collector/Marker.antt =====
-- The client reads the time that the generator writes into the text of a marker.
use dxfcxx_event_test.Base.{
  List, Option, length, some-injective, none-ne-some, none, ℕ, zero, suc, ◌<◌, ◌≡◌, sym, ap, ◌∙◌,
  some, [], ◌++◌, append-nil, arith,
}
use dxfcxx_event_test.Base.Int.{pos}
use dxfcxx_event_test.Text.{
  Bytes, codes, starts_with, to_string, scan_i64, scanned_all, scanned, int64_limit,
}
use dxfcxx_event_test.Text.Decimal.{scan_i64-to_string}
use dxfcxx_event_test.Server.{ActiveTask, Marker}
use dxfcxx_event_test.Server.Shuffle.{pool_order}
use dxfcxx_event_test.Server.Publish.{
  Batch, Progress, finished, batch_of, publish_in_order, publish,
}
use dxfcxx_event_test.Collector.Samples.{marker_timestamp, positive_time}

read_back : (time : ℕ) → time < int64_limit → scan_i64 (to_string time) ≡ scanned (pos time) []
read_back time fits =
    ap scan_i64 (sym (append-nil (to_string time))) ∙ scan_i64-to_string time [] fits tt

-- The marker that a batch leaves behind has the time of the batch as its text.
marker-finished :
    (a : ActiveTask) (b : Batch) (order : List ℕ) (counts : Option (List ℕ)) (p : Option Progress)
    {next : ActiveTask} {marker : Marker}
    → finished a b order counts p ≡ some (next, marker)
    → marker.text ≡ codes "LATENCY_BATCH:" ++ to_string b.now
unfolding finished
marker-finished a b order none p h = absurd (none-ne-some h)
marker-finished a b order (some counts) none h = absurd (none-ne-some h)
marker-finished a b order (some counts) (some p) h =
    sym (ap (λ (m : ActiveTask × Marker). m.1.text) (some-injective h))

marker-in_order :
    (a : ActiveTask) (b : Batch) (order : Option (List ℕ)) {next : ActiveTask} {marker : Marker}
    → publish_in_order a b order ≡ some (next, marker)
    → marker.text ≡ codes "LATENCY_BATCH:" ++ to_string b.now
unfolding publish_in_order
marker-in_order a b none h = absurd (none-ne-some h)
marker-in_order a b (some order) h = marker-finished a b order _ _ h

read_text :
    (time : ℕ)
    → 0 < time
    → time < int64_limit
    → marker_timestamp (codes "LATENCY_BATCH:" ++ to_string time) ≡ some time
unfolding marker_timestamp codes starts_with positive_time
read_text zero positive fits = absurd (omega arith)
read_text (suc n) positive fits = ap (λ s. positive_time (scanned_all s)) (read_back (suc n) fits)

-- The client reads the marker of a batch that the generator publishes at a positive time, in
-- nanoseconds that fit an int64, as the time of the batch.
pub marker_timestamp-publish :
    (max_sequence limit now : ℕ) (subscribed : List Bytes) (a next : ActiveTask) (marker : Marker)
    → publish max_sequence limit now subscribed a ≡ some (next, marker)
    → 0 < now
    → now < int64_limit
    → marker_timestamp marker.text ≡ some now
unfolding publish batch_of
marker_timestamp-publish max_sequence limit now subscribed a next marker h positive fits =
    ap marker_timestamp (
      marker-in_order a (batch_of max_sequence limit now subscribed a)
        (pool_order a.pattern.shuffle_seed a.publications (length a.pool_order)) h)
    ∙ read_text now positive fits
