-- ===== src/SourceTime.antt =====
-- src/core.cpp and include/latency/core.hpp: `SourceTimeMethodComparison`.
-- Times are int64 values; a source time that is used is positive. The samples, clamped at zero, are
-- plain numbers. The map from series to last source time is an association list.
pub mod Series
pub mod Accepted
mod Tests
use dxfcxx_event_test.Base.{
  ℕ, zero, suc, ◌+◌, ◌-◌, ◌*◌, ◌/◌, ◌%◌, ◌^◌, ◌≤◌, ◌<◌, min, max, ◌≡◌, refl, sym, ap, ◌∙◌, subst,
  ◌≢◌, ◌↔◌, ◌⊎◌, inl, inr, Bool, true, false, not, ◌&&◌, ◌||◌, Option, none, some, List, [], ◌∷◌,
  ◌++◌, map, reverse, append-nil, append_assoc, arith, ltb, leb, ◌==◌, if◌then◌else◌, ltb→lt,
  lt→ltb, ltb→ge, ge→ltb, leb→le, ==_iff, ==_refl, ne→==, Bool-cases, Option-cases, Result, ok, err,
  ◌>>=◌, ◌>>◌, guard, >>=-eq-ok, length, get_elem?, set, take, drop, replicate, length-append,
  length-reverse, length-take, length-drop, length-replicate, take-length-append,
  drop-length-append, length-set, length-map, All, All-append, All-reverse, All-mono,
}
use dxfcxx_event_test.Base.Int.{
  ℤ, pos, negsuc, pos_part, neg_part, sub_ℕ, ◌-ℤ◌, ◌≤ℤ◌, ltb_ℤ, leb_ℤ, -ℤ_parts,
}
use dxfcxx_event_test.Text.{
  Bytes, codes, same, starts_with, ends_with, remove_suffix, substr, find, find_from, is_digit,
  value, to_string, zero_padded, size_limit, int64_limit, Scan, invalid, out_of_range, scanned,
  span_digits, scan_u64, scan_i64, scanned_all,
}
use dxfcxx_event_test.Task.{EventKind, kind_code}

-- `negativeClamped`: the array of three counters, by its indices 0, 1 and 2.
pub record Clamped : Type 0 where
  pub at_0 : ℕ
  pub at_1 : ℕ
  pub at_2 : ℕ

pub record Snapshot : Type 0 where
  pub all : List ℕ
  pub per_series_monotonic : List ℕ
  pub global_monotonic : List ℕ
  pub per_series_rejected : ℕ
  pub global_rejected : ℕ
  pub negative_clamped : Clamped

pub record Comparison : Type 0 where
  pub samples : Snapshot
  pub last_by_series : List (Bytes × ℕ)
  pub last_global : Option ℕ

pub record Observation : Type 0 where
  pub kind : EventKind
  pub symbol : Bytes
  pub source_time_ms : ℤ
  pub observed_at_ns : ℤ

unfoldable pub reset : Comparison → Comparison
reset c = record {
  samples = record {
    all = [];
    per_series_monotonic = [];
    global_monotonic = [];
    per_series_rejected = 0;
    global_rejected = 0;
    negative_clamped = record { at_0 = 0; at_1 = 0; at_2 = 0 };
  };
  last_by_series = [];
  last_global = none;
}

-- `/ 1'000'000`, which rounds towards zero.
milliseconds_of : ℤ → ℤ
milliseconds_of (pos n) = pos (n / 1_000_000)
milliseconds_of (negsuc n) = sub_ℕ 0 (suc n / 1_000_000)

pub latency_ms : ℤ → ℕ → ℤ
unfolding milliseconds_of ◌-ℤ◌
latency_ms observed_at_ns source = milliseconds_of observed_at_ns -ℤ pos source

-- `std::max<std::int64_t>(0, latencyMs) * 1'000'000`.
abbrev pub latency_ns : ℤ → ℕ
latency_ns latency = pos_part latency * 1_000_000

-- The counter of clamped values goes up for a negative latency.
abbrev bump : ℤ → ℕ → ℕ
bump latency n = if ltb_ℤ latency (pos 0) then n + 1 else n

append_all : ℤ → Snapshot → Snapshot
append_all latency s = record s {
  all = s.all ++ latency_ns latency ∷ [];
  negative_clamped = record {
    at_0 = bump latency s.negative_clamped.at_0;
    at_1 = s.negative_clamped.at_1;
    at_2 = s.negative_clamped.at_2;
  };
}

append_series : ℤ → Bool → Snapshot → Snapshot
append_series latency true s = record s {
  per_series_monotonic = s.per_series_monotonic ++ latency_ns latency ∷ [];
  negative_clamped = record {
    at_0 = s.negative_clamped.at_0;
    at_1 = bump latency s.negative_clamped.at_1;
    at_2 = s.negative_clamped.at_2;
  };
}
append_series latency false s = record s { per_series_rejected = s.per_series_rejected + 1 }

append_global : ℤ → Bool → Snapshot → Snapshot
append_global latency true s = record s {
  global_monotonic = s.global_monotonic ++ latency_ns latency ∷ [];
  negative_clamped = record {
    at_0 = s.negative_clamped.at_0;
    at_1 = s.negative_clamped.at_1;
    at_2 = bump latency s.negative_clamped.at_2;
  };
}
append_global latency false s = record s { global_rejected = s.global_rejected + 1 }

unfoldable pub lookup_series : Bytes → List (Bytes × ℕ) → Option ℕ
lookup_series key [] = none
lookup_series key ((k, v) ∷ m) = if same k key then some v else lookup_series key m

-- A time is accepted behind the last one, or if there is none.
abbrev pub advances : ℕ → Option ℕ → Bool
advances time none = true
advances time (some last) = ltb last time

-- `try_emplace`, and the assignment of a later time.
store_series : Bytes → ℕ → List (Bytes × ℕ) → List (Bytes × ℕ)
store_series key time [] = (key, time) ∷ []
store_series key time ((k, v) ∷ m) =
    if same k key then (k, if ltb v time then time else v) ∷ m else (k, v) ∷ store_series key time m

abbrev pub series_key : EventKind → Bytes → Bytes
series_key kind symbol = kind_code kind ∷ b':' ∷ symbol

observe_at : Bytes → ℤ → ℕ → Comparison → Comparison
unfolding append_all append_series append_global store_series lookup_series
observe_at key latency time c =
    let fresh = advances time (lookup_series key c.last_by_series) in
    let newest = advances time c.last_global in
    record {
      samples =
          append_global latency newest (append_series latency fresh (append_all latency c.samples));
      last_by_series = store_series key time c.last_by_series;
      last_global = if newest then some time else c.last_global;
    }

observe_time : Observation → ℤ → Comparison → Comparison
unfolding observe_at latency_ms
observe_time o (pos zero) c = c
observe_time o (negsuc n) c = c
observe_time o (pos (suc n)) c =
    observe_at (series_key o.kind o.symbol) (latency_ms o.observed_at_ns (suc n)) (suc n) c

unfoldable pub observe : Comparison → Observation → Comparison
unfolding observe_time
observe c o = observe_time o o.source_time_ms c

pub observe_list : Comparison → List Observation → Comparison
observe_list c [] = c
observe_list c (o ∷ os) = observe_list (observe c o) os
