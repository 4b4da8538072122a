-- ===== src/Csv.antt =====
-- src/runner.cpp and src/monitoring.cpp: `csv` and `writeCsvValue`, which write a field of a row
-- of comma-separated values, and `parseCsvRow`, which reads a row.
pub mod RoundTrip
pub mod Plain
mod Tests
use dxfcxx_event_test.Base.{
  ℕ, zero, suc, ◌+◌, ◌-◌, ◌*◌, ◌/◌, ◌%◌, ◌^◌, ◌≤◌, ◌<◌, min, max, ◌≡◌, refl, sym, ap, ◌∙◌, subst,
  ◌≢◌, ◌↔◌, ◌⊎◌, inl, inr, Bool, true, false, not, ◌&&◌, ◌||◌, Option, none, some, List, [], ◌∷◌,
  ◌++◌, map, reverse, append-nil, append_assoc, arith, ltb, leb, ◌==◌, if◌then◌else◌, ltb→lt,
  lt→ltb, ltb→ge, ge→ltb, leb→le, le→leb, gt→leb, ==_iff, ==_refl, ne→==, Bool-cases, Option-cases,
  Result, ok, err, ◌>>=◌, ◌>>◌, guard, >>=-eq-ok, length, get_elem?, set, take, drop, replicate,
  length-append, length-reverse, length-take, length-drop, length-replicate, take-length-append,
  drop-length-append, length-set, length-map, All, All-append, All-reverse, All-mono,
}
use dxfcxx_event_test.Text.{
  Bytes, codes, same, starts_with, ends_with, remove_suffix, substr, find, find_from, is_digit,
  value, to_string, zero_padded, size_limit, int64_limit, Scan, invalid, out_of_range, scanned,
  span_digits, scan_u64, scan_i64, scanned_all,
}

-- The loop of `csv`: a quotation mark is followed by another.
escaped : Bytes → Bytes
escaped [] = []
escaped (c ∷ text) = let rest = escaped text in c ∷ (if c == b'"' then b'"' ∷ rest else rest)

-- `csv` of runner.cpp.
unfoldable pub csv : Bytes → Bytes
unfolding escaped
csv text = b'"' ∷ (escaped text ++ b'"' ∷ [])

-- The loop of `writeCsvValue`: a quotation mark follows another.
doubled : Bytes → Bytes
doubled [] = []
doubled (c ∷ text) = let rest = doubled text in if c == b'"' then b'"' ∷ c ∷ rest else c ∷ rest

-- `writeCsvValue` of monitoring.cpp, for a text.
unfoldable pub write_csv_value : Bytes → Bytes
unfolding doubled
write_csv_value text = b'"' ∷ (doubled text ++ b'"' ∷ [])

-- The state of `parseCsvRow`; `passed` stands for the extra `++i`.
pub record Reading : Type 0 where
  pub passed : Bool
  pub quoted : Bool
  pub value : Bytes
  pub result : List Bytes

abbrev push : ℕ → Reading → Reading
push c r = record r { value = r.value ++ c ∷ [] }

-- One round of the loop, at the byte `c` with `rest` behind it.
unfoldable pub on_byte : ℕ → Bytes → Reading → Reading
unfolding starts_with
on_byte c rest r =
    if r.passed
    then record r { passed = false }
    else if r.quoted
    then (if c == b'"' && starts_with (b'"' ∷ []) rest
        then record (push b'"' r) { passed = true }
        else if c == b'"'
        then record r { quoted = false }
        else push c r)
    else if c == b'"'
    then record r { quoted = true }
    else if c == b','
    then record r { value = []; result = r.result ++ r.value ∷ [] }
    else if c == b'\r'
    then r
    else push c r

unfoldable pub read_row : Bytes → Reading → List Bytes
unfolding on_byte
read_row [] r = r.result ++ r.value ∷ []
read_row (c ∷ rest) r = read_row rest (on_byte c rest r)

abbrev start : Reading
start = record { passed = false; quoted = false; value = []; result = [] }

unfoldable pub parse_csv_row : Bytes → List Bytes
unfolding read_row
parse_csv_row line = read_row line start
