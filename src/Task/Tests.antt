-- ===== src/Task/Tests.antt =====
-- Runs of the task parser and printer, and the theorems at concrete inputs.
use dxfcxx_event_test.Base.{
  ℕ, ◌*◌, ◌≤◌, ◌<◌, ◌≡◌, refl, ◌⊎◌, none, some, List, [], ◌∷◌, arith, ok, err, length, get_elem?,
}
use dxfcxx_event_test.Base.Int.{pos}
use dxfcxx_event_test.Text.{
  Bytes, codes, starts_with, ends_with, find_from, to_string, scan_u64, scan_i64,
}
use dxfcxx_event_test.Duration.{parse_duration}
use dxfcxx_event_test.Task.{
  TaskPattern, quote, trade, summary, parse_kind, event_count, symbol_count, largest_quantity,
  market_symbol_count, batch_count, task_text,
}
use dxfcxx_event_test.Task.Count.{
  sum_quantities, event_count-sum, market_symbol_count-product, batch_count_ceiling,
}
use dxfcxx_event_test.Task.Parse.{separators, parse_sections, parse_task}
use dxfcxx_event_test.Task.Parse.Valid.{IsValid, parse_task-IsValid}
use dxfcxx_event_test.Task.Parse.RoundTrip.{parse_task-task_text, parse_task-task_text-parse_task}
use dxfcxx_event_test.Task.Symbols.{symbols, market_symbols}
use dxfcxx_event_test.Task.Symbols.Universe.{symbols_distinct, length-market_symbols}

abbrev full_task : TaskPattern
full_task = record {
  items =
      record { kind = quote; quantity = 100 }
      ∷ record { kind = summary; quantity = 1 }
      ∷ record { kind = trade; quantity = 5 }
      ∷ [];
  publish_period = 100;
  subscribed_symbol_count = some 200;
  regional_source_count = 3;
  shuffle_seed = some 7;
}

abbrev full_text : Bytes
full_text = codes "SUB:Q100;S1;T5@100ms#200&3~7"

parse_full : parse_task full_text ≡ ok full_task
unfolding codes parse_task starts_with parse_sections separators find_from parse_kind scan_u64
    event_count parse_duration scan_i64 ends_with symbol_count largest_quantity market_symbol_count
parse_full = refl

print_full : task_text full_task ≡ full_text
unfolding codes task_text to_string
print_full = refl

parse_trailing :
    parse_task (codes "SUB:Q1;")
    ≡ err (record { position = 7; message = codes "trailing separator" })
unfolding codes parse_task starts_with parse_sections separators find_from parse_kind scan_u64
    event_count parse_duration scan_i64 ends_with symbol_count largest_quantity market_symbol_count
parse_trailing = refl

parse_duplicate :
    parse_task (codes "SUB:Q1;Q2")
    ≡ err (record { position = 7; message = codes "duplicate event type" })
unfolding codes parse_task starts_with parse_sections separators find_from parse_kind scan_u64
    event_count parse_duration scan_i64 ends_with symbol_count largest_quantity market_symbol_count
parse_duplicate = refl

parse_misplaced :
    parse_task (codes "SUB:Q1#10@1s")
    ≡ err (record { position = 6; message = codes "symbol count must follow publish period" })
unfolding codes parse_task starts_with parse_sections separators find_from parse_kind scan_u64
    event_count parse_duration scan_i64 ends_with symbol_count largest_quantity market_symbol_count
parse_misplaced = refl

parse_task-IsValid_example : IsValid full_task
parse_task-IsValid_example = parse_task-IsValid full_text parse_full

parse_task-task_text_example : parse_task (task_text full_task) ≡ ok full_task
parse_task-task_text_example =
    parse_task-task_text full_task (parse_task-IsValid full_text parse_full)

parse_task-task_text-parse_task_example : parse_task (task_text full_task) ≡ parse_task full_text
parse_task-task_text-parse_task_example = parse_task-task_text-parse_task full_text parse_full

event_count-sum_example : event_count full_task.items ≡ some 106
unfolding sum_quantities
event_count-sum_example = event_count-sum full_task.items

market_symbol_count-product_example : market_symbol_count full_task ≡ some 800
unfolding symbol_count
market_symbol_count-product_example = market_symbol_count-product full_task

batch_count_ceiling_example :
    (250 ≤ batch_count full_task (pos 250) * 100) × (batch_count full_task (pos 250) * 100 < 350)
batch_count_ceiling_example = batch_count_ceiling full_task (pos 250) (omega arith)

symbols_distinct_example :
    (length (symbols full_task) ≡ symbol_count full_task)
    × ((i j : ℕ) (s : Bytes)
        → get_elem? (symbols full_task) i ≡ some s
        → get_elem? (symbols full_task) j ≡ some s
        → i ≡ j)
symbols_distinct_example = symbols_distinct full_task

length-market_symbols_example :
    (market_symbol_count full_task ≡ none) × (market_symbols full_task ≡ none)
    ⊎ ((l : List Bytes) × (market_symbols full_task ≡ some l)
        × (market_symbol_count full_task ≡ some (length l)))
length-market_symbols_example = length-market_symbols full_task
