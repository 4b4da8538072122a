-- ===== src/Csv/Plain.antt =====
-- A row without quotation marks and carriage returns is cut at its commas, as `split` of
-- src/runner.cpp cuts it.
use dxfcxx_event_test.Base.{
  ℕ, ◌≡◌, refl, sym, ap, ◌∙◌, ◌≢◌, inl, inr, false, List, [], ◌∷◌, ◌++◌, append-nil, append_assoc,
  ◌==◌, ==_iff, Bool-cases,
}
use dxfcxx_event_test.Text.{Bytes, value}
use dxfcxx_event_test.Text.Find.{Lacks}
use dxfcxx_event_test.Text.Split.{split, parts, cons_first, split-parts, parts-ne-nil}
use dxfcxx_event_test.Csv.{Reading, on_byte, read_row, parse_csv_row}

-- The fields with a text in front of the first.
in_front : Bytes → List Bytes → List Bytes
in_front value [] = value ∷ []
in_front value (field ∷ fields) = (value ++ field) ∷ fields

in_front-cons_first :
    (value : Bytes) (c : ℕ) (fields : List Bytes)
    → in_front (value ++ c ∷ []) fields ≡ in_front value (cons_first c fields)
unfolding in_front cons_first
in_front-cons_first value c [] = refl
in_front-cons_first value c (field ∷ fields) =
    ap (λ f. f ∷ fields) (append_assoc value (c ∷ []) field)

in_front-nil : (fields : List Bytes) → fields ≢ [] → in_front [] fields ≡ fields
unfolding in_front
in_front-nil [] h = absurd (h refl)
in_front-nil (field ∷ fields) h = refl

abbrev plain : List Bytes → Bytes → Reading
plain result value = record { passed = false; quoted = false; value = value; result = result }

on_byte-comma :
    (result : List Bytes) (value rest : Bytes)
    → on_byte b',' rest (plain result value) ≡ plain (result ++ value ∷ []) []
unfolding on_byte
on_byte-comma result value rest = refl

read_row-parts :
    (result : List Bytes) (value text : Bytes)
    → Lacks b'"' text
    → Lacks b'\r' text
    → read_row text (plain result value) ≡ result ++ in_front value (parts b',' text)
unfolding read_row parts in_front
read_row-parts result value [] q r = ap (λ v. result ++ v ∷ []) (sym (append-nil value))
read_row-parts result value (c ∷ text) (q, qs) (r, rs) = elim (Bool-cases (c == b',')) [
  | inl e ↦
      let comma : c ≡ b',' = (==_iff c b',').0 e in
      rw (e, comma)
        (rw (on_byte-comma result value text) (
          read_row-parts (result ++ value ∷ []) [] text qs rs
          ∙ ap (λ f. (result ++ value ∷ []) ++ f)
              (in_front-nil (parts b',' text) (parts-ne-nil b',' text))
          ∙ append_assoc result (value ∷ []) (parts b',' text)
          ∙ ap (λ v. result ++ v ∷ parts b',' text) (sym (append-nil value))))
  | inr e ↦
      rw (e, q, r)
        (read_row-parts result (value ++ c ∷ []) text qs rs
          ∙ ap (λ t. result ++ t) (in_front-cons_first value c (parts b',' text)))
]

-- A row without quotation marks and carriage returns is read as the texts between its commas,
-- the empty ones included: the texts that `split` gives.
pub parse_csv_row-split :
    (text : Bytes) → Lacks b'"' text → Lacks b'\r' text → parse_csv_row text ≡ split b',' text
unfolding parse_csv_row
parse_csv_row-split text q r =
    read_row-parts [] [] text q r
    ∙ in_front-nil (parts b',' text) (parts-ne-nil b',' text)
    ∙ sym (split-parts b',' text)
