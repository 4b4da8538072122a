-- ===== src/Csv/Tests.antt =====
-- Rows with a comma, a quotation mark and an empty field.
use dxfcxx_event_test.Base.{◌≡◌, refl, List, [], ◌∷◌, map}
use dxfcxx_event_test.Text.{Bytes}
use dxfcxx_event_test.Text.Split.{join, split}
use dxfcxx_event_test.Csv.{csv, write_csv_value, parse_csv_row}
use dxfcxx_event_test.Csv.RoundTrip.{parse_csv_row-join}
use dxfcxx_event_test.Csv.Plain.{parse_csv_row-split}

abbrev fields : List Bytes
fields = (b'a' ∷ b',' ∷ b'"' ∷ []) ∷ [] ∷ (b'"' ∷ b'\r' ∷ []) ∷ []

parse_csv_row-join_example :
    (parse_csv_row (join b',' (map csv fields)) ≡ fields)
    × (parse_csv_row (join b',' (map write_csv_value fields)) ≡ fields)
parse_csv_row-join_example = parse_csv_row-join fields (λ e. cc)

abbrev plain_row : Bytes
plain_row = b'a' ∷ b',' ∷ b',' ∷ b'b' ∷ []

parse_csv_row-split_example : parse_csv_row plain_row ≡ split b',' plain_row
parse_csv_row-split_example =
    parse_csv_row-split plain_row (refl, (refl, (refl, (refl, tt))))
      (refl, (refl, (refl, (refl, tt))))
