-- ===== src/SourceTime/Tests.antt =====
-- The theorems on source times at concrete observations.
use dxfcxx_event_test.Base.{◌≡◌, none, List, [], ◌∷◌}
use dxfcxx_event_test.Base.Int.{pos}
use dxfcxx_event_test.Text.{Bytes, codes}
use dxfcxx_event_test.Task.{trade}
use dxfcxx_event_test.SourceTime.{
  Comparison, Observation, lookup_series, series_key, observe_list, reset,
}
use dxfcxx_event_test.SourceTime.Series.{newest_in, newest_of, observe_list-newest}
use dxfcxx_event_test.SourceTime.Accepted.{Balanced, samples_of, observe_list-Balanced}

abbrev fresh : Comparison
fresh = record {
  samples = record {
    all = [];
    per_series_monotonic = [];
    global_monotonic = [];
    per_series_rejected = 0;
    global_rejected = 0;
    negative_clamped = record { at_0 = 0; at_1 = 0; at_2 = 0 };
  };
  last_by_series = [];
  last_global = none;
}

abbrev trades : List Observation
trades =
    record {
      kind = trade;
      symbol = codes "SYM00";
      source_time_ms = pos 20;
      observed_at_ns = pos 25_000_000;
    }
    ∷ record {
      kind = trade;
      symbol = codes "SYM00";
      source_time_ms = pos 10;
      observed_at_ns = pos 26_000_000;
    }
    ∷ []

abbrev key : Bytes
key = series_key trade (codes "SYM00")

observe_list-newest_example :
    (lookup_series key (observe_list fresh trades).last_by_series
      ≡ newest_in key (lookup_series key fresh.last_by_series) trades)
    × ((observe_list fresh trades).last_global ≡ newest_of fresh.last_global trades)
observe_list-newest_example = observe_list-newest fresh trades key

observe_list-Balanced_example :
    ((observe_list (reset fresh) trades).samples.all ≡ samples_of trades)
    × Balanced (observe_list (reset fresh) trades).samples
observe_list-Balanced_example = observe_list-Balanced fresh trades
