-- ===== src/Csv/RoundTrip.antt =====
-- The rows that `csv` and `writeCsvValue` write are read back by `parseCsvRow`.
use mathlib.Core.Path.{fun_ext}
use mathlib.Core.List.{cons-ne-nil}
use dxfcxx_event_test.Base.{
  ℕ, ◌≡◌, refl, sym, ap, ◌∙◌, ◌≢◌, inl, inr, Bool, true, false, List, [], ◌∷◌, ◌++◌, map,
  append-nil, append_assoc, ◌==◌, ==_iff, Bool-cases,
}
use dxfcxx_event_test.Text.{Bytes, starts_with, value}
use dxfcxx_event_test.Text.Split.{join}
use dxfcxx_event_test.Csv.{
  escaped, csv, doubled, write_csv_value, Reading, on_byte, read_row, parse_csv_row,
}

doubled-escaped : (text : Bytes) → doubled text ≡ escaped text
unfolding doubled escaped
doubled-escaped [] = refl
doubled-escaped (c ∷ text) = elim (Bool-cases (c == b'"')) [
  | inl e ↦
      rw (e, doubled-escaped text)
        (ap (λ d. d ∷ c ∷ escaped text) (sym ((==_iff c b'"').0 e))
          ∙ ap (λ d. c ∷ d ∷ escaped text) ((==_iff c b'"').0 e))
  | inr e ↦ rw (e, doubled-escaped text) refl
]

write_csv_value-csv : (text : Bytes) → write_csv_value text ≡ csv text
unfolding write_csv_value csv
write_csv_value-csv text = rw (doubled-escaped text) refl

module _ (result : List Bytes) (value : Bytes) where
  abbrev reading : Bool → Reading
  reading quoted = record { passed = false; quoted = quoted; value = value; result = result }

  on_byte-mark :
      (rest : Bytes)
      → starts_with (b'"' ∷ []) rest ≡ false
      → on_byte b'"' rest (reading true) ≡ reading false
  unfolding on_byte
  on_byte-mark rest h = rw h refl

  read_row-open :
      (rest : Bytes) → read_row (b'"' ∷ rest) (reading false) ≡ read_row rest (reading true)
  unfolding read_row on_byte
  read_row-open rest = refl

module _ (result : List Bytes) where
  on_byte-kept :
      (c : ℕ) (value rest : Bytes)
      → (c == b'"') ≡ false
      → on_byte c rest (reading result value true) ≡ reading result (value ++ c ∷ []) true
  unfolding on_byte
  on_byte-kept c value rest h = rw h refl

  read_row-pair :
      (value rest : Bytes)
      → read_row (b'"' ∷ b'"' ∷ rest) (reading result value true)
        ≡ read_row rest (reading result (value ++ b'"' ∷ []) true)
  unfolding read_row on_byte starts_with
  read_row-pair value rest = refl

  -- Behind a quoted field no quotation mark follows.
  read_row-escaped :
      (field value rest : Bytes)
      → starts_with (b'"' ∷ []) rest ≡ false
      → read_row (escaped field ++ b'"' ∷ rest) (reading result value true)
        ≡ read_row rest (reading result (value ++ field) false)
  unfolding escaped read_row
  read_row-escaped [] value rest h = rw (on_byte-mark result value rest h, append-nil value) refl
  read_row-escaped (c ∷ field) value rest h =
      let onward = read_row-escaped field (value ++ c ∷ []) rest h in
      let joined : (value ++ c ∷ []) ++ field ≡ value ++ c ∷ field =
        append_assoc value (c ∷ []) field in
      elim (Bool-cases (c == b'"')) [
        | inl e ↦
            let mark : c ≡ b'"' = (==_iff c b'"').0 e in
            rw (e, mark)
              (read_row-pair value (escaped field ++ b'"' ∷ rest)
                ∙ read_row-escaped field (value ++ b'"' ∷ []) rest h
                ∙ ap (λ v. read_row rest (reading result v false))
                    (append_assoc value (b'"' ∷ []) field))
        | inr e ↦
            rw (e, on_byte-kept c value (escaped field ++ b'"' ∷ rest) e)
              (onward ∙ ap (λ v. read_row rest (reading result v false)) joined)
      ]

  read_row-csv :
      (field rest : Bytes)
      → starts_with (b'"' ∷ []) rest ≡ false
      → read_row (csv field ++ rest) (reading result [] false)
        ≡ read_row rest (reading result field false)
  unfolding csv
  read_row-csv field rest h =
      read_row-open result [] ((escaped field ++ b'"' ∷ []) ++ rest)
      ∙ ap (λ t. read_row t (reading result [] true))
          (append_assoc (escaped field) (b'"' ∷ []) rest)
      ∙ read_row-escaped field [] rest h

  read_row-comma :
      (value rest : Bytes)
      → read_row (b',' ∷ rest) (reading result value false)
        ≡ read_row rest (reading (result ++ value ∷ []) [] false)
  unfolding read_row on_byte
  read_row-comma value rest = refl

  read_row-end : (value : Bytes) → read_row [] (reading result value false) ≡ result ++ value ∷ []
  unfolding read_row
  read_row-end value = refl

read_row-join :
    (result fields : List Bytes)
    → fields ≢ []
    → read_row (join b',' (map csv fields)) (reading result [] false) ≡ result ++ fields
unfolding join starts_with
read_row-join result [] h = absurd (h refl)
read_row-join result (field ∷ []) h =
    ap (λ t. read_row t (reading result [] false)) (sym (append-nil (csv field)))
    ∙ read_row-csv result field [] refl
    ∙ read_row-end result field
read_row-join result (field ∷ next ∷ fields) h =
    let rest = join b',' (map csv (next ∷ fields)) in
    read_row-csv result field (b',' ∷ rest) refl
    ∙ read_row-comma result field rest
    ∙ read_row-join (result ++ field ∷ []) (next ∷ fields) (cons-ne-nil next fields)
    ∙ append_assoc result (field ∷ []) (next ∷ fields)

-- The fields of a row, one or more and of any bytes, are read back from the row that either of
-- the two writers makes of them, a comma between each two.
pub parse_csv_row-join :
    (fields : List Bytes)
    → fields ≢ []
    → (parse_csv_row (join b',' (map csv fields)) ≡ fields)
      × (parse_csv_row (join b',' (map write_csv_value fields)) ≡ fields)
unfolding parse_csv_row
parse_csv_row-join fields h =
    let back = read_row-join [] fields h in
    (back, ap (λ w. parse_csv_row (join b',' (map w fields))) (fun_ext write_csv_value-csv) ∙ back)
