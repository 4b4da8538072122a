-- ===== src/Task/Symbols.antt =====
-- src/core.cpp: the synthetic symbols of a task, `TaskPattern::symbols` and `marketSymbols`.
pub mod Universe
use dxfcxx_event_test.Base.{
  ℕ, zero, suc, ◌+◌, ◌-◌, ◌*◌, ◌/◌, ◌%◌, ◌^◌, ◌≤◌, ◌<◌, min, max, ◌≡◌, refl, sym, ap, ◌∙◌, subst,
  ◌≢◌, ◌↔◌, ◌⊎◌, inl, inr, Bool, true, false, not, ◌&&◌, ◌||◌, Option, none, some, List, [], ◌∷◌,
  ◌++◌, map, reverse, append-nil, append_assoc, arith, ltb, leb, ◌==◌, if◌then◌else◌, ltb→lt,
  lt→ltb, ltb→ge, ge→ltb, leb→le, ==_iff, ==_refl, ne→==, Bool-cases, Option-cases, Result, ok, err,
  ◌>>=◌, ◌>>◌, guard, >>=-eq-ok, length, get_elem?, set, take, drop, replicate, length-append,
  length-reverse, length-take, length-drop, length-replicate, take-length-append,
  drop-length-append, length-set, length-map, All, All-append, All-reverse, All-mono,
}
use dxfcxx_event_test.Text.{
  Bytes, codes, same, starts_with, ends_with, remove_suffix, substr, find, find_from, is_digit,
  value, to_string, zero_padded, size_limit, int64_limit, Scan, invalid, out_of_range, scanned,
  span_digits, scan_u64, scan_i64, scanned_all,
}
use dxfcxx_event_test.Task.{EventKind, TaskPattern, symbol_count, market_symbol_count, quantity_in}

-- `symbolWidth(quantity)`, which is called with a positive quantity only.
pub symbol_width : ℕ → ℕ
symbol_width quantity = max 2 (length (to_string (quantity - 1)))

-- `std::format("SYM{:0{}}", i, width)`.
unfoldable pub symbol_name : ℕ → ℕ → Bytes
symbol_name width i = b'S' ∷ b'Y' ∷ b'M' ∷ zero_padded width i

-- The loop from `i` on, for the rounds left.
unfoldable pub symbols_from : ℕ → ℕ → ℕ → List Bytes
symbols_from width i zero = []
symbols_from width i (suc rounds) = symbol_name width i ∷ symbols_from width (i + 1) rounds

unfoldable pub symbols : TaskPattern → List Bytes
unfolding symbols_from
symbols task =
    let count = symbol_count task in
    if count == 0 then [] else symbols_from (symbol_width count) 0 count

abbrev value_or_zero : Option ℕ → ℕ
value_or_zero none = 0
value_or_zero (some n) = n

-- The symbols of one event type.
unfoldable pub kind_symbols : TaskPattern → EventKind → List Bytes
unfolding symbols_from
kind_symbols task kind =
    let count = value_or_zero (quantity_in kind task.items) in
    if count == 0 then [] else symbols_from (symbol_width (symbol_count task)) 0 count

-- `std::format("{}&{}", symbol, static_cast<char>('A' + source))`.
abbrev pub regional_symbol : ℕ → Bytes → Bytes
regional_symbol source symbol = symbol ++ b'&' ∷ (b'A' + source) ∷ []

-- The regional blocks from `source` on, for the sources left.
unfoldable pub regional_blocks : List Bytes → ℕ → ℕ → List Bytes
regional_blocks composite source zero = []
regional_blocks composite source (suc sources) =
    map (regional_symbol source) composite ++ regional_blocks composite (source + 1) sources

-- `none` is the `std::overflow_error` of `marketSymbolCount`.
unfoldable pub market_symbols : TaskPattern → Option (List Bytes)
unfolding regional_blocks
market_symbols task = elim (market_symbol_count task) [
  | none ↦ none
  | some count ↦ some (symbols task ++ regional_blocks (symbols task) 0 task.regional_source_count)
]
