-- ===== src/Task.antt =====
-- include/latency/core.hpp and src/core.cpp: the task pattern, its counts and its canonical text.
pub mod Count
pub mod Parse
pub mod Symbols
mod Tests
use Prim.Native.String.{String}
use dxfcxx_event_test.Base.{
  ℕ, zero, suc, ◌+◌, ◌-◌, ◌*◌, ◌/◌, ◌%◌, ◌^◌, ◌≤◌, ◌<◌, min, max, ◌≡◌, refl, sym, ap, ◌∙◌, subst,
  ◌≢◌, ◌↔◌, ◌⊎◌, inl, inr, Bool, true, false, not, ◌&&◌, ◌||◌, Option, none, some, List, [], ◌∷◌,
  ◌++◌, map, reverse, append-nil, append_assoc, arith, ltb, leb, ◌==◌, if◌then◌else◌, ltb→lt,
  lt→ltb, ltb→ge, ge→ltb, leb→le, ==_iff, ==_refl, ne→==, Bool-cases, Option-cases, Result, ok, err,
  ◌>>=◌, ◌>>◌, guard, >>=-eq-ok, length, get_elem?, set, take, drop, replicate, length-append,
  length-reverse, length-take, length-drop, length-replicate, take-length-append,
  drop-length-append, length-set, length-map, All, All-append, All-reverse, All-mono,
}
use dxfcxx_event_test.Base.Int.{
  ℤ, pos, negsuc, pos_part, neg_part, sub_ℕ, ◌-ℤ◌, ◌≤ℤ◌, ltb_ℤ, leb_ℤ, -ℤ_parts,
}
use dxfcxx_event_test.Text.{
  Bytes, codes, same, starts_with, ends_with, remove_suffix, substr, find, find_from, is_digit,
  value, to_string, zero_padded, size_limit, int64_limit, Scan, invalid, out_of_range, scanned,
  span_digits, scan_u64, scan_i64, scanned_all,
}

pub data EventKind : Type 0 where
  quote trade trade_eth summary time_and_sale : EventKind

-- The enumerator's character.
abbrev pub kind_code : EventKind → ℕ
kind_code quote = b'Q'
kind_code trade = b'T'
kind_code trade_eth = b'E'
kind_code summary = b'S'
kind_code time_and_sale = b'N'

infix 50 ◌is◌
abbrev pub ◌is◌ : EventKind → EventKind → Bool
k is j = kind_code k == kind_code j

pub record PatternItem : Type 0 where
  pub kind : EventKind
  pub quantity : ℕ

-- The publish period is in milliseconds. It comes from `parseDuration`, which returns no negative.
pub record TaskPattern : Type 0 where
  pub items : List PatternItem
  pub publish_period : ℕ
  pub subscribed_symbol_count : Option ℕ
  pub regional_source_count : ℕ
  pub shuffle_seed : Option ℕ

pub record ParseError : Type 0 where
  pub position : ℕ
  pub message : Bytes

unfoldable pub parse_kind : ℕ → Option EventKind
parse_kind c =
    if c == b'Q'
    then some quote
    else if c == b'T'
    then some trade
    else if c == b'E'
    then some trade_eth
    else if c == b'S'
    then some summary
    else if c == b'N'
    then some time_and_sale
    else none

pub event_kind_name : EventKind → Bytes
event_kind_name quote = codes "Quote"
event_kind_name trade = codes "Trade"
event_kind_name trade_eth = codes "TradeETH"
event_kind_name summary = codes "Summary"
event_kind_name time_and_sale = codes "TimeAndSale"

abbrev pub marker_prefix : Bytes
marker_prefix =
    b'L' ∷ b'A' ∷ b'T' ∷ b'E' ∷ b'N' ∷ b'C' ∷ b'Y' ∷ b'_' ∷ b'M' ∷ b'A' ∷ b'R' ∷ b'K' ∷ b'E' ∷ b'R'
    ∷ b':' ∷ []

unfoldable pub marker_symbol : Bytes → Bytes
marker_symbol task = marker_prefix ++ task

unfoldable pub is_marker_symbol : Bytes → Bool
is_marker_symbol symbol = starts_with marker_prefix symbol

abbrev pub size_max : ℕ
size_max = size_limit - 1

-- `none` is the `std::overflow_error` of the running total.
add_quantities : ℕ → List PatternItem → Option ℕ
add_quantities result [] = some result
add_quantities result (item ∷ items) =
    if ltb (size_max - result) item.quantity
    then none
    else add_quantities (result + item.quantity) items

unfoldable pub event_count : List PatternItem → Option ℕ
unfolding add_quantities
event_count items = add_quantities 0 items

-- `std::ranges::max_element`: the first of the largest.
max_element : PatternItem → List PatternItem → PatternItem
max_element best [] = best
max_element best (item ∷ items) =
    max_element (if ltb best.quantity item.quantity then item else best) items

unfoldable pub largest_quantity : List PatternItem → ℕ
unfolding max_element
largest_quantity [] = 0
largest_quantity (item ∷ items) = (max_element item items).quantity

unfoldable pub symbol_count_or : Option ℕ → List PatternItem → ℕ
symbol_count_or (some count) items = count
symbol_count_or none items = largest_quantity items

unfoldable pub symbol_count : TaskPattern → ℕ
unfolding symbol_count_or
symbol_count task = symbol_count_or task.subscribed_symbol_count task.items

-- `none` is the `std::overflow_error`.
unfoldable pub market_symbol_count : TaskPattern → Option ℕ
market_symbol_count task =
    if ltb (size_max / (task.regional_source_count + 1)) (symbol_count task)
    then none
    else some (symbol_count task * (task.regional_source_count + 1))

unfoldable pub quantity_in : EventKind → List PatternItem → Option ℕ
quantity_in kind [] = none
quantity_in kind (item ∷ items) =
    if item.kind is kind then some item.quantity else quantity_in kind items

pub quantity : TaskPattern → EventKind → Option ℕ
quantity task kind = quantity_in kind task.items

-- `periods + (duration % period != 0)`, at a period that is not zero.
pub batch_count : TaskPattern → ℤ → ℕ
batch_count task (negsuc d) = 0
batch_count task (pos d) =
    if leb d 0 then 0 else d / task.publish_period + (if d % task.publish_period == 0 then 0 else 1)

-- The items, joined by `;`; the first argument is the loop's index.
pub items_text : ℕ → List PatternItem → Bytes
items_text i [] = []
items_text i (item ∷ items) =
    (if i == 0 then [] else b';' ∷ [])
    ++ (kind_code item.kind ∷ (to_string item.quantity ++ items_text (i + 1) items))

pub period_text : ℕ → Bytes
period_text period =
    if period == 1000
    then []
    else b'@'
      ∷ (if period % 1000 == 0
          then to_string (period / 1000) ++ b's' ∷ []
          else to_string period ++ b'm' ∷ b's' ∷ [])

-- A separator and a number, if there is one.
pub optional_text : ℕ → Option ℕ → Bytes
optional_text separator none = []
optional_text separator (some n) = separator ∷ to_string n

abbrev pub task_prefix : Bytes
task_prefix = b'S' ∷ b'U' ∷ b'B' ∷ b':' ∷ []

-- `TaskPattern::toString`.
unfoldable pub task_text : TaskPattern → Bytes
unfolding items_text period_text optional_text
task_text task =
    task_prefix
    ++ (items_text 0 task.items
        ++ (period_text task.publish_period
            ++ (optional_text b'#' task.subscribed_symbol_count
                ++ ((if task.regional_source_count == 0
                      then []
                      else b'&' ∷ to_string task.regional_source_count)
                    ++ optional_text b'~' task.shuffle_seed))))
