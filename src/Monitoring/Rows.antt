-- ===== src/Monitoring/Rows.antt =====
-- `readMeasurement` as a reading of all event rows, of which the first and the last count.
use dxfcxx_event_test.Base.{
  ℕ, ◌≡◌, refl, sym, ap, ◌∙◌, inl, inr, true, false, Option, none, some, List, [], ◌∷◌, map,
  Bool-cases, Result, ok, err, ◌>>=◌,
}
use dxfcxx_event_test.Text.{Bytes}
use dxfcxx_event_test.Csv.{parse_csv_row}
use dxfcxx_event_test.Monitoring.Measurement.{
  MeasurementError, invalid_row, no_event_rows, values_or_error, Columns, Measurement, entry_of,
  extend, read_rows, measurement_or_error, read_body, read_measurement,
}
use dxfcxx_event_test.Monitoring.Places.{
  ArePlaces, columns_of-ArePlaces, cell, measures, is_event_row-measures,
}

abbrev needed : {A : Type 0} → Option A → Result MeasurementError A
needed none = err invalid_row
needed (some a) = ok a

module _ {T N : Type 0} (parse_utc : Bytes → Option T) (parse_number : Bytes → Option N) where
  -- What an event row says: its start, its end and its rate, which is the expected number where the
  -- file has no rates. A cell that does not parse, the expected number included, is an error.
  pub reading : Columns → List Bytes → Result MeasurementError (Measurement T N)
  unfolding cell
  reading c row = needed (parse_utc (cell row c.start)) >>= λ s.
      needed (parse_utc (cell row c.end)) >>= λ e.
      needed (parse_number (cell row c.expected)) >>= λ x.
      needed (rate c.nominal) >>= λ n. ok (record { start = s; end = e; nominal = n })
    where
      rate : Option ℕ → Option N
      rate none = parse_number (cell row c.expected)
      rate (some i) = parse_number (cell row i)

  values_or_error-needed :
      (s e : Option T) (x n : Option N)
      → values_or_error parse_utc parse_number s e x n ≡ (
          needed s >>= λ s. needed e >>= λ e.
          needed x >>= λ x. needed n >>= λ n. ok (record { start = s; end = e; nominal = n }))
  unfolding values_or_error
  values_or_error-needed (some s) (some e) (some x) (some n) = refl
  values_or_error-needed (some s) (some e) (some x) none = refl
  values_or_error-needed (some s) (some e) none n = refl
  values_or_error-needed (some s) none x n = refl
  values_or_error-needed none e x n = refl

  entry_of-reading :
      (c : Columns) (row : List Bytes) → entry_of parse_utc parse_number c row ≡ reading c row
  unfolding entry_of reading cell
  entry_of-reading c row = values_or_error-needed _ _ _ _

  -- All event rows, in their order.
  pub entries : Columns → List (List Bytes) → Result MeasurementError (List (Measurement T N))
  entries c [] = ok []
  entries c (row ∷ rows) = elim (measures c row) [
    | true ↦ reading c row >>= λ e. entries c rows >>= λ es. ok (e ∷ es)
    | false ↦ entries c rows
  ]

  last_end : T → List (Measurement T N) → T
  last_end end [] = end
  last_end end (e ∷ es) = last_end e.end es

  -- From the start of the first row to the end of the last, at the first row's rate.
  pub whole : List (Measurement T N) → Result MeasurementError (Measurement T N)
  unfolding last_end
  whole [] = err no_event_rows
  whole (e ∷ es) = ok (record e { end = last_end e.end es })

  extended : Option (Measurement T N) → List (Measurement T N) → Option (Measurement T N)
  unfolding last_end
  extended none [] = none
  extended none (e ∷ es) = some (record e { end = last_end e.end es })
  extended (some m) es = some (record m { end = last_end m.end es })

  extended-extend :
      (m : Option (Measurement T N)) (e : Measurement T N) (es : List (Measurement T N))
      → extended (some (extend parse_utc parse_number m e)) es ≡ extended m (e ∷ es)
  unfolding extended extend last_end
  extended-extend none e es = refl
  extended-extend (some m) e es = refl

  extended-nil : (m : Option (Measurement T N)) → extended m [] ≡ m
  unfolding extended last_end
  extended-nil none = refl
  extended-nil (some m) = refl

  after_first :
      (c : Columns) (m : Option (Measurement T N)) (e : Measurement T N)
      (r : Result MeasurementError (List (Measurement T N)))
      → (r >>= λ es. ok (extended (some (extend parse_utc parse_number m e)) es))
        ≡ ((r >>= λ es. ok (e ∷ es)) >>= λ es. ok (extended m es))
  after_first c m e (ok es) = ap ok (extended-extend m e es)
  after_first c m e (err reason) = refl

  chained :
      {E A B C : Type 0} (r : Result E A) (f : A → Result E C) (g : A → Result E B)
      (k : B → Result E C)
      → ((a : A) → f a ≡ (g a >>= k))
      → (r >>= f) ≡ ((r >>= g) >>= k)
  chained (ok a) f g k h = h a
  chained (err reason) f g k h = refl

  read_rows-entries :
      (c : Columns) (m : Option (Measurement T N)) (rows : List (List Bytes))
      → read_rows parse_utc parse_number c m rows ≡ (entries c rows >>= λ es. ok (extended m es))
  unfolding read_rows entries
  read_rows-entries c m [] = ap ok (sym (extended-nil m))
  read_rows-entries c m (row ∷ rows) = elim (Bool-cases (measures c row)) [
    | inr e ↦
        let f = is_event_row-measures c row ∙ e in
        rw (e, f, read_rows, entries) (read_rows-entries c m rows)
    | inl e ↦
        let f = is_event_row-measures c row ∙ e in
        rw (e, f, read_rows, entries)
          (ap
              (λ r. r >>= λ entry.
                read_rows parse_utc parse_number c (some (extend parse_utc parse_number m entry))
                  rows)
              (entry_of-reading c row)
            ∙ chained (reading c row) _ _ _ (λ entry.
              read_rows-entries c (some (extend parse_utc parse_number m entry)) rows
              ∙ after_first c m entry (entries c rows)))
  ]

  finished :
      (r : Result MeasurementError (List (Measurement T N)))
      → ((r >>= λ es. ok (extended none es)) >>= measurement_or_error parse_utc parse_number)
        ≡ (r >>= whole)
  unfolding extended whole measurement_or_error
  finished (err reason) = refl
  finished (ok []) = refl
  finished (ok (e ∷ es)) = refl

  -- Where the headings have the required columns, at the first places of their names, the
  -- measurement is read from the rows of the kind `event` that have all columns: an error if one of
  -- them does not parse or there are none, and otherwise it lasts from the start of the first to the
  -- end of the last, at the rate of the first.
  pub read_measurement-entries :
      (line : Bytes) (lines : List Bytes) (c : Columns)
      → ArePlaces (parse_csv_row line) c
      → read_measurement parse_utc parse_number (line ∷ lines)
        ≡ (entries c (map parse_csv_row lines) >>= whole)
  unfolding read_measurement read_body
  read_measurement-entries line lines c places =
      rw (columns_of-ArePlaces (parse_csv_row line) c places) (
        ap (λ r. r >>= measurement_or_error parse_utc parse_number)
          (read_rows-entries c none (map parse_csv_row lines))
        ∙ finished (entries c (map parse_csv_row lines)))
