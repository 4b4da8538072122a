-- ===== src/Monitoring/Measurement.antt =====
-- src/monitoring.cpp: `readMeasurement`, which takes the interval of a run from the rows of a
-- client's result. The lines are those of the file; the readers of timestamps and of floating-point
-- numbers are parameters.
use dxfcxx_event_test.Base.{
  ℕ, suc, max, Bool, true, false, ◌&&◌, Option, none, some, List, [], ◌∷◌, map, ltb, if◌then◌else◌,
  Result, ok, err, ◌>>=◌, length, get_elem?,
}
use dxfcxx_event_test.Text.{Bytes, codes, same}
use dxfcxx_event_test.Csv.{parse_csv_row}

-- The errors of `readMeasurement`.
pub data MeasurementError : Type 0 where
  empty_result : MeasurementError
  no_columns : MeasurementError
  invalid_row : MeasurementError
  no_event_rows : MeasurementError

-- `indexOf`.
unfoldable pub index_of : Bytes → List Bytes → Option ℕ
unfolding same
index_of name [] = none
index_of name (heading ∷ headings) = after (index_of name headings)
  where
    after : Option ℕ → Option ℕ
    after none = if same heading name then some 0 else none
    after (some i) = if same heading name then some 0 else some (suc i)

pub record Columns : Type 0 where
  pub start : ℕ
  pub end : ℕ
  pub kind : ℕ
  pub expected : ℕ
  pub nominal : Option ℕ

-- The columns, where the required ones are there.
unfoldable pub columns_of : List Bytes → Option Columns
unfolding index_of codes
columns_of headings =
    required (index_of (codes "window_start_utc") headings)
      (index_of (codes "window_end_utc") headings) (index_of (codes "sample_kind") headings)
      (index_of (codes "expected_per_batch") headings)
  where
    required : Option ℕ → Option ℕ → Option ℕ → Option ℕ → Option Columns
    required (some s) (some e) (some k) (some x) = some (record {
      start = s;
      end = e;
      kind = k;
      expected = x;
      nominal = index_of (codes "nominal_events_per_second") headings;
    })
    required (some s) (some e) (some k) none = none
    required (some s) (some e) none x = none
    required (some s) none k x = none
    required none e k x = none

-- `maximumIndex`.
abbrev pub maximum_index : Columns → ℕ
maximum_index c = max (max (max (max c.start c.end) c.kind) c.expected) (or_zero c.nominal)
  where
    or_zero : Option ℕ → ℕ
    or_zero none = 0
    or_zero (some n) = n

-- The column at an index; `maximum_index` keeps every index within the row.
abbrev pub column : List Bytes → ℕ → Bytes
column row i = text_or_empty (get_elem? row i)
  where
    text_or_empty : Option Bytes → Bytes
    text_or_empty none = []
    text_or_empty (some text) = text

-- A row that is long enough and of the kind `event`.
unfoldable pub is_event_row : Columns → List Bytes → Bool
unfolding same codes
is_event_row c row = ltb (maximum_index c) (length row) && same (column row c.kind) (codes "event")

pub record Measurement (T N : Type 0) : Type 0 where
  pub start : T
  pub end : T
  pub nominal : N

module _ {T N : Type 0} (parse_utc : Bytes → Option T) (parse_number : Bytes → Option N) where
  -- The values of an event row, where all of them parse.
  unfoldable pub values_or_error :
      Option T → Option T → Option N → Option N → Result MeasurementError (Measurement T N)
  values_or_error (some s) (some e) (some x) (some n) =
      ok (record { start = s; end = e; nominal = n })
  values_or_error (some s) (some e) (some x) none = err invalid_row
  values_or_error (some s) (some e) none n = err invalid_row
  values_or_error (some s) none x n = err invalid_row
  values_or_error none e x n = err invalid_row

  -- What an event row says.
  unfoldable pub entry_of : Columns → List Bytes → Result MeasurementError (Measurement T N)
  unfolding values_or_error
  entry_of c row =
      values_or_error (parse_utc (column row c.start)) (parse_utc (column row c.end))
        (parse_number (column row c.expected)) (nominal_of c.nominal)
    where
      nominal_of : Option ℕ → Option N
      nominal_of none = parse_number (column row c.expected)
      nominal_of (some i) = parse_number (column row i)

  -- The first row makes the measurement, a later one moves its end.
  unfoldable pub extend : Option (Measurement T N) → Measurement T N → Measurement T N
  extend none entry = entry
  extend (some m) entry = record m { end = entry.end }

  -- The loop over the rows.
  unfoldable pub read_rows :
      Columns
      → Option (Measurement T N)
      → List (List Bytes)
      → Result MeasurementError (Option (Measurement T N))
  unfolding is_event_row entry_of extend
  read_rows c m [] = ok m
  read_rows c m (row ∷ rows) = elim (is_event_row c row) [
    | true ↦ entry_of c row >>= λ entry. read_rows c (some (extend m entry)) rows
    | false ↦ read_rows c m rows
  ]

  unfoldable pub measurement_or_error :
      Option (Measurement T N) → Result MeasurementError (Measurement T N)
  measurement_or_error none = err no_event_rows
  measurement_or_error (some m) = ok m

  unfoldable pub read_body :
      Option Columns → List (List Bytes) → Result MeasurementError (Measurement T N)
  unfolding read_rows measurement_or_error
  read_body none rows = err no_columns
  read_body (some c) rows = read_rows c none rows >>= measurement_or_error

  unfoldable pub read_measurement : List Bytes → Result MeasurementError (Measurement T N)
  unfolding read_body columns_of parse_csv_row
  read_measurement [] = err empty_result
  read_measurement (line ∷ lines) =
      read_body (columns_of (parse_csv_row line)) (map parse_csv_row lines)
