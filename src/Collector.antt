-- ===== src/Collector.antt =====
-- src/client.cpp: `Collector`, which relates received market events to the marker of their batch.
-- An array over the kinds is a function of the kind; `std::map` is a list ordered by its keys. The
-- callback statistics and the number of profiles are left out, the mutex and the diagnostics too. A
-- received event of dxFeed is told by what `describe` and the marker's accessors give.
pub mod Samples
pub mod Batches
pub mod Callbacks
pub mod Accounting
pub mod Measurement
pub mod Marker
mod Tests
use dxfcxx_event_test.Base.{
  ℕ, zero, suc, ◌+◌, ◌-◌, ◌*◌, ◌/◌, ◌%◌, ◌^◌, ◌≤◌, ◌<◌, min, max, ◌≡◌, refl, sym, ap, ◌∙◌, subst,
  ◌≢◌, ◌↔◌, ◌⊎◌, inl, inr, Bool, true, false, not, ◌&&◌, ◌||◌, Option, none, some, List, [], ◌∷◌,
  ◌++◌, map, reverse, append-nil, append_assoc, arith, ltb, leb, ◌==◌, if◌then◌else◌, ltb→lt,
  lt→ltb, ltb→ge, ge→ltb, leb→le, ==_iff, ==_refl, ne→==, Bool-cases, Option-cases, Result, ok, err,
  ◌>>=◌, ◌>>◌, guard, >>=-eq-ok, length, get_elem?, set, take, drop, replicate, length-append,
  length-reverse, length-take, length-drop, length-replicate, take-length-append,
  drop-length-append, length-set, length-map, All, All-append, All-reverse, All-mono,
}
use dxfcxx_event_test.Base.Int.{
  ℤ, pos, negsuc, pos_part, neg_part, sub_ℕ, ◌-ℤ◌, ◌≤ℤ◌, ltb_ℤ, leb_ℤ, -ℤ_parts,
}
use dxfcxx_event_test.Text.{
  Bytes, codes, same, starts_with, ends_with, remove_suffix, substr, find, find_from, is_digit,
  value, to_string, zero_padded, size_limit, int64_limit, Scan, invalid, out_of_range, scanned,
  span_digits, scan_u64, scan_i64, scanned_all,
}
use dxfcxx_event_test.Task.{EventKind, quote, trade, trade_eth, summary, time_and_sale}
use dxfcxx_event_test.SourceTime.{Comparison, observe, reset}

pub record PendingEvent : Type 0 where
  pub observed : ℕ
  pub kind : EventKind
  pub symbol : Bytes

pub record PendingBatch : Type 0 where
  pub timestamp : Option ℕ
  pub received : ℕ
  pub received_by_kind : EventKind → ℕ
  pub first_observed : ℕ
  pub last_observed : ℕ
  pub events : List PendingEvent

-- The counters of `DeliveryCounters`, with the negative and missing ones that go with them.
pub record Counters : Type 0 where
  pub published : EventKind → ℕ
  pub delivered : EventKind → ℕ
  pub listener_deficit : EventKind → ℕ
  pub excess : EventKind → ℕ
  pub full_publications : ℕ
  pub partial_publications : ℕ
  pub empty_publications : ℕ
  pub uncorrelated_events : ℕ
  pub negative : ℕ
  pub missing : ℕ
  pub callbacks : ℕ

pub record Sample : Type 0 where
  pub observed : ℕ
  pub publish_time : ℕ
  pub delta : ℕ
  pub kind : EventKind
  pub symbol : Bytes

pub record Settings : Type 0 where
  pub expected_by_kind : EventKind → ℕ
  pub batch_timeout_ms : ℕ
  pub allow_conflation : Bool

pub record Collector : Type 0 where
  pub measuring : Bool
  pub source_time_measuring : Bool
  pub accepting_new_batches : Bool
  pub pre_measurement_sequences : List ℕ
  pub event_window : List Sample
  pub batch_window : List Sample
  pub event_global : List Sample
  pub batch_global : List Sample
  pub pending : List (ℕ × PendingBatch)
  pub window : Counters
  pub totals : Counters
  pub activity : ℕ
  pub source_times : Comparison

-- What a listener receives.
pub data Received : Type 0 where
  marker : ℕ → Bytes → Received
  described : EventKind → Bytes → Option ℕ → Option ℤ → Received
  other : Received

abbrev pub none_of : EventKind → ℕ
none_of kind = 0

abbrev pub no_counters : Counters
no_counters = record {
  published = none_of;
  delivered = none_of;
  listener_deficit = none_of;
  excess = none_of;
  full_publications = 0;
  partial_publications = 0;
  empty_publications = 0;
  uncorrelated_events = 0;
  negative = 0;
  missing = 0;
  callbacks = 0;
}

abbrev pub initial_collector : Collector
initial_collector = record {
  measuring = false;
  source_time_measuring = false;
  accepting_new_batches = false;
  pre_measurement_sequences = [];
  event_window = [];
  batch_window = [];
  event_global = [];
  batch_global = [];
  pending = [];
  window = no_counters;
  totals = no_counters;
  activity = 0;
  source_times = record {
    samples = record {
      all = [];
      per_series_monotonic = [];
      global_monotonic = [];
      per_series_rejected = 0;
      global_rejected = 0;
      negative_clamped = record { at_0 = 0; at_1 = 0; at_2 = 0 };
    };
    last_by_series = [];
    last_global = none;
  };
}

abbrev pub empty_batch : PendingBatch
empty_batch = record {
  timestamp = none;
  received = 0;
  received_by_kind = none_of;
  first_observed = 0;
  last_observed = 0;
  events = [];
}
