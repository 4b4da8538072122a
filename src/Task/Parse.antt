-- ===== src/Task/Parse.antt =====
-- src/core.cpp: `parseTask`, a function for each part of it, and its composition.
pub mod Valid
pub mod RoundTrip
pub mod Sections
pub mod Items
pub mod Printed
pub mod Ends
pub mod Fields
pub mod Parts
use Prim.Native.String.{String}
use mathlib.Core.Option
use dxfcxx_event_test.Base.{
  ℕ, zero, suc, ◌+◌, ◌-◌, ◌*◌, ◌/◌, ◌%◌, ◌^◌, ◌≤◌, ◌<◌, min, max, ◌≡◌, refl, sym, ap, ◌∙◌, subst,
  ◌≢◌, ◌↔◌, ◌⊎◌, inl, inr, Bool, true, false, not, ◌&&◌, ◌||◌, Option, none, some, List, [], ◌∷◌,
  ◌++◌, map, reverse, append-nil, append_assoc, arith, ltb, leb, ◌==◌, if◌then◌else◌, ltb→lt,
  lt→ltb, ltb→ge, ge→ltb, leb→le, ==_iff, ==_refl, ne→==, Bool-cases, Option-cases, Result, ok, err,
  ◌>>=◌, ◌>>◌, guard, >>=-eq-ok, length, get_elem?, set, take, drop, replicate, length-append,
  length-reverse, length-take, length-drop, length-replicate, take-length-append,
  drop-length-append, length-set, length-map, All, All-append, All-reverse, All-mono,
}
use dxfcxx_event_test.Text.{
  Bytes, codes, same, starts_with, ends_with, remove_suffix, substr, find, find_from, is_digit,
  value, to_string, zero_padded, size_limit, int64_limit, Scan, invalid, out_of_range, scanned,
  span_digits, scan_u64, scan_i64, scanned_all,
}
use dxfcxx_event_test.Duration.{parse_duration}
use dxfcxx_event_test.Task.{
  EventKind, PatternItem, TaskPattern, ParseError, kind_code, ◌is◌, parse_kind, event_count,
  largest_quantity, symbol_count, market_symbol_count, task_prefix,
}

abbrev pub Parsed : Type 0 → Type 0
Parsed A = Result ParseError A

abbrev fail : {A : Type 0} → ℕ → String → Parsed A
fail position message = err (record { position = position; message = codes message })

-- Unless the test holds, an early return with an error.
abbrev require : Bool → ℕ → String → Parsed (Unit {0})
require test position message = if test then ok tt else fail position message

-- The first positions of the four separators behind the prefix; `none` is `npos`.
pub record Separators : Type 0 where
  pub period : Option ℕ
  pub symbol : Option ℕ
  pub regional : Option ℕ
  pub shuffle : Option ℕ

unfoldable pub separators : Bytes → Separators
separators text = record {
  period = find_from b'@' 4 text;
  symbol = find_from b'#' 4 text;
  regional = find_from b'&' 4 text;
  shuffle = find_from b'~' 4 text;
}

-- The second separator may not stand before the first.
pub in_order : Option ℕ → Option ℕ → String → Parsed (Unit {0})
in_order (some first) (some second) message = require (leb first second) second message
in_order (some first) none message = ok tt
in_order none second message = ok tt

pub check_order : Separators → Parsed (Unit {0})
unfolding in_order
check_order s = do
  in_order s.period s.symbol "symbol count must follow publish period"
  in_order s.period s.shuffle "shuffle seed must follow publish period"
  in_order s.symbol s.shuffle "shuffle seed must follow symbol count"
  in_order s.period s.regional "regional source count must follow publish period"
  in_order s.symbol s.regional "regional source count must follow symbol count"
  in_order s.regional s.shuffle "shuffle seed must follow regional source count"

pub separator_position : Bytes → Option ℕ → ℕ
separator_position text none = length text
separator_position text (some separator) = separator

pub pattern_end : Bytes → Separators → ℕ
unfolding separator_position
pattern_end text s = min (separator_position text s.period) (
    min (separator_position text s.symbol)
      (min (separator_position text s.regional) (separator_position text s.shuffle)))

pub seen_before : EventKind → List EventKind → Bool
seen_before kind [] = false
seen_before kind (k ∷ seen) = k is kind || seen_before kind seen

abbrev pub is_some {ℓ} : {A : Type ℓ} → Option A → Bool
is_some none = false
is_some (some a) = true

-- The state of the item loop: the text position, the kinds seen and the items so far. `skip` bytes
-- of the unread text belong to the item just read: `next` passes over them, so that the loop
-- recurs on the text itself.
abbrev pub Loop : Type 0
Loop = ℕ → ℕ → List EventKind → List PatternItem → Parsed (List PatternItem)

-- Behind an item: the end of the pattern, or a `;` and more.
after_item : Loop → ℕ → ℕ → List EventKind → List PatternItem → Bytes → Parsed (List PatternItem)
after_item next skip position seen items [] = ok items
after_item next skip position seen items (c ∷ []) =
    if c == b';'
    then fail (position + 1) "trailing separator"
    else fail position "expected ';' or end of input"
after_item next skip position seen items (c ∷ d ∷ rest) =
    if c == b';'
    then next (skip + 1) (position + 1) seen items
    else fail position "expected ';' or end of input"

-- Behind the kind at `item_position`, `tail` is unread, and the number has been scanned.
after_number :
    Loop
    → ℕ
    → EventKind
    → List EventKind
    → List PatternItem
    → Bytes
    → Scan ℕ
    → Parsed (List PatternItem)
unfolding after_item
after_number next item_position kind seen items tail invalid =
    fail (item_position + 1) "expected positive quantity"
after_number next item_position kind seen items tail (out_of_range rest) =
    fail (item_position + 1) "quantity is too large"
after_number next item_position kind seen items tail (scanned quantity rest) =
    let consumed = length tail - length rest in
    let extended = items ++ record { kind = kind; quantity = quantity } ∷ [] in
    do
      require (not (quantity == 0)) (item_position + 1) "quantity must be greater than zero"
      require (is_some (event_count extended)) item_position "total quantity is too large"
      after_item next consumed (item_position + 1 + consumed) (kind ∷ seen) extended rest

read_item :
    Loop
    → ℕ
    → Option EventKind
    → List EventKind
    → List PatternItem
    → Bytes
    → Parsed (List PatternItem)
unfolding after_number seen_before
read_item next position none seen items tail = fail position "unknown event type"
read_item next position (some kind) seen items tail =
    if seen_before kind seen
    then fail position "duplicate event type"
    else after_number next position kind seen items tail (scan_u64 tail)

-- `while (pos < patternEnd)`, on the text from `pos` to `patternEnd`.
pub parse_items : Bytes → Loop
unfolding read_item
parse_items [] skip position seen items = ok items
parse_items (c ∷ tail) (suc skip) position seen items = parse_items tail skip position seen items
parse_items (c ∷ tail) zero position seen items =
    read_item (parse_items tail) position (parse_kind c) seen items tail

-- The text from behind a separator up to `end`.
pub section : Bytes → ℕ → ℕ → Bytes
section text separator end = substr text (separator + 1) (end - separator - 1)

-- No second separator of the kind in its own section.
no_duplicate : ℕ → ℕ → Bytes → String → Parsed (Unit {0})
no_duplicate c separator text message = elim (find c text) [
  | none ↦ ok tt
  | some at ↦ fail (separator + 1 + at) message
]

-- The error of `parseDuration`, placed in the task.
pub placed : ℕ → Result Bytes ℕ → Parsed ℕ
placed position (ok period) = ok period
placed position (err message) = err (record { position = position; message = message })

abbrev not_empty : Bytes → Bool
not_empty [] = false
not_empty (c ∷ text) = true

pub period_in : ℕ → Bytes → Parsed ℕ
unfolding no_duplicate placed
period_in separator text = do
  require (not_empty text) (separator + 1) "expected publish period"
  no_duplicate b'@' separator text "duplicate publish period"
  placed (separator + 1) (parse_duration text)

-- A number that takes the whole text.
pub whole_number : Bytes → Option ℕ
whole_number text = scanned_all (scan_u64 text)

-- The value, if it is there and the test accepts it.
pub accept : (ℕ → Bool) → ℕ → String → Option ℕ → Parsed ℕ
accept test position message none = fail position message
accept test position message (some n) = if test n then ok n else fail position message

-- A number behind the separator `c`, with the messages for an absent, a repeated and a bad one.
pub number_in : ℕ → String → String → String → (ℕ → Bool) → ℕ → Bytes → Parsed ℕ
unfolding no_duplicate whole_number accept
number_in c absent repeated bad test separator text = do
  require (not_empty text) (separator + 1) absent
  no_duplicate c separator text repeated
  accept test (separator + 1) bad (whole_number text)

abbrev pub symbol_count_in : ℕ → Bytes → Parsed ℕ
symbol_count_in =
    number_in b'#' "expected symbol count" "duplicate symbol count" "invalid symbol count"
      (λ n. not (n == 0))

abbrev pub regional_count_in : ℕ → Bytes → Parsed ℕ
regional_count_in =
    number_in b'&' "expected regional source count" "duplicate regional source count"
      "regional source count must be from 1 to 26" (λ n. not (n == 0) && leb n 26)

abbrev pub seed_in : ℕ → Bytes → Parsed ℕ
seed_in =
    number_in b'~' "expected shuffle seed" "duplicate shuffle seed" "invalid shuffle seed"
      (λ n. true)

-- The end of a part: the first of the separators that may follow it, or the end of the text.
pub period_end : Bytes → Separators → ℕ
unfolding separator_position
period_end text s =
    min (separator_position text s.symbol)
      (min (separator_position text s.regional) (separator_position text s.shuffle))

pub symbol_end : Bytes → Separators → ℕ
unfolding separator_position
symbol_end text s = min (separator_position text s.regional) (separator_position text s.shuffle)

-- The four optional parts; the last argument is the separator's position.
pub period_part : Bytes → Separators → TaskPattern → Option ℕ → Parsed TaskPattern
unfolding section period_in period_end
period_part text s task none = ok task
period_part text s task (some separator) = do
  period ← period_in separator (section text separator (period_end text s))
  ok (record task { publish_period = period })

pub with_symbol_count : ℕ → TaskPattern → ℕ → Parsed TaskPattern
with_symbol_count separator task count =
    if leb (symbol_count task) count
    then ok (record task { subscribed_symbol_count = some count })
    else fail (separator + 1) "symbol count must not be smaller than an event quantity"

pub symbol_part : Bytes → Separators → TaskPattern → Option ℕ → Parsed TaskPattern
unfolding section number_in symbol_end with_symbol_count
symbol_part text s task none = ok task
symbol_part text s task (some separator) = do
  count ← symbol_count_in separator (section text separator (symbol_end text s))
  with_symbol_count separator task count

pub with_regional_count : ℕ → TaskPattern → ℕ → Parsed TaskPattern
with_regional_count separator task count =
    let extended = record task { regional_source_count = count } in
    if is_some (market_symbol_count extended)
    then ok extended
    else fail (separator + 1) "market symbol count is too large"

pub regional_part : Bytes → Separators → TaskPattern → Option ℕ → Parsed TaskPattern
unfolding section number_in separator_position with_regional_count
regional_part text s task none = ok task
regional_part text s task (some separator) = do
  count ← regional_count_in separator (section text separator (separator_position text s.shuffle))
  with_regional_count separator task count

pub seed_part : Bytes → TaskPattern → Option ℕ → Parsed TaskPattern
unfolding number_in
seed_part text task none = ok task
seed_part text task (some separator) = do
  seed ← seed_in separator (drop (separator + 1) text)
  ok (record task { shuffle_seed = some seed })

-- `TaskPattern task;` with the items read.
abbrev default_task : List PatternItem → TaskPattern
default_task items = record {
  items = items;
  publish_period = 1000;
  subscribed_symbol_count = none;
  regional_source_count = 0;
  shuffle_seed = none;
}

unfoldable pub parse_sections : Bytes → Separators → Parsed TaskPattern
unfolding check_order pattern_end parse_items period_part symbol_part regional_part seed_part
parse_sections text s = do
  check_order s
  require (not (4 == pattern_end text s)) 4 "expected event pattern"
  items ← parse_items (substr text 4 (pattern_end text s - 4)) 0 4 [] []
  timed ← period_part text s (default_task items) s.period
  counted ← symbol_part text s timed s.symbol
  routed ← regional_part text s counted s.regional
  seed_part text routed s.shuffle

unfoldable pub parse_task : Bytes → Result ParseError TaskPattern
parse_task text =
    if starts_with task_prefix text
    then parse_sections text (separators text)
    else fail 0 "expected SUB:"
