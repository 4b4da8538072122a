-- ===== src/Task/Parse/Parts.antt =====
-- The text that `TaskPattern::toString` prints, as the parts that `parseTask` looks for.
use mathlib.Core.Option
use dxfcxx_event_test.Base.{
  ℕ, ◌+◌, ◌≤◌, ◌<◌, ◌≡◌, refl, inl, inr, Bool, true, false, Option, none, some, List, [], ◌∷◌,
  arith, ◌==◌, if◌then◌else◌, Bool-cases, All, All-append,
}
use dxfcxx_event_test.Text.{Bytes, to_string}
use dxfcxx_event_test.Duration.{int64_max}
use dxfcxx_event_test.Task.{
  EventKind, quote, trade, trade_eth, summary, time_and_sale, kind_code, PatternItem, TaskPattern,
  items_text, optional_text, task_text,
}
use dxfcxx_event_test.Task.Parse.Sections.{Parts, ArePlain, IsPlain, PlainPart, field, layout}
use dxfcxx_event_test.Task.Parse.Fields.{
  period_option, period_option_cases, period_text-field, to_string-IsPlain,
}
use dxfcxx_event_test.Task.Parse.Valid.{IsValid}

unfoldable pub number_option : ℕ → Option Bytes
number_option n = if n == 0 then none else some (to_string n)

unfoldable pub parts_of : TaskPattern → Parts
unfolding number_option
parts_of task = record {
  pattern = items_text 0 task.items;
  period = period_option task.publish_period;
  symbol = Option.map to_string task.subscribed_symbol_count;
  regional = number_option task.regional_source_count;
  shuffle = Option.map to_string task.shuffle_seed;
}

optional_text-field : (c : ℕ) (o : Option ℕ) → optional_text c o ≡ field c (Option.map to_string o)
unfolding optional_text
optional_text-field c none = refl
optional_text-field c (some n) = refl

regional_text-field :
    (n : ℕ) → (if n == 0 then [] else b'&' ∷ to_string n) ≡ field b'&' (number_option n)
unfolding number_option
regional_text-field n = ground arith

pub task_text-layout : (task : TaskPattern) → task_text task ≡ layout (parts_of task)
unfolding task_text parts_of
task_text-layout task = rw (
  period_text-field task.publish_period,
  optional_text-field b'#' task.subscribed_symbol_count,
  regional_text-field task.regional_source_count,
  optional_text-field b'~' task.shuffle_seed,
)

kind_code-IsPlain : (k : EventKind) → IsPlain (kind_code k)
kind_code-IsPlain quote = ground arith
kind_code-IsPlain trade = ground arith
kind_code-IsPlain trade_eth = ground arith
kind_code-IsPlain summary = ground arith
kind_code-IsPlain time_and_sale = ground arith

items_text-IsPlain : (i : ℕ) (items : List PatternItem) → All IsPlain (items_text i items)
unfolding items_text
items_text-IsPlain i [] = tt
items_text-IsPlain i (item ∷ items) =
    All-append IsPlain (if i == 0 then [] else b';' ∷ []) _ (separator (i == 0)) (
      kind_code-IsPlain item.kind,
      All-append IsPlain (to_string item.quantity) (items_text (i + 1) items)
          (to_string-IsPlain item.quantity) (items_text-IsPlain (i + 1) items),
    )
  where
    separator : (b : Bool) → All IsPlain (if b then [] else b';' ∷ [])
    separator true = tt
    separator false = ground arith

mapped-PlainPart : (o : Option ℕ) → PlainPart (Option.map to_string o)
mapped-PlainPart none = tt
mapped-PlainPart (some n) = to_string-IsPlain n

number_option-PlainPart : (n : ℕ) → PlainPart (number_option n)
unfolding number_option
number_option-PlainPart n = elim (Bool-cases (n == 0)) [
  | inl e ↦ rw e tt
  | inr e ↦ rw e (to_string-IsPlain n)
]

period_option-PlainPart :
    (period : ℕ) → 0 < period → period ≤ int64_max → PlainPart (period_option period)
period_option-PlainPart period low high = elim (period_option_cases period low high) [
  | inl (_, e) ↦ rw e tt
  | inr (t, e, p) ↦ rw e p.plain
]

pub parts_of-ArePlain : (task : TaskPattern) → IsValid task → ArePlain (parts_of task)
unfolding parts_of
parts_of-ArePlain task v = record {
  pattern = items_text-IsPlain 0 task.items;
  period = period_option-PlainPart task.publish_period v.period_pos v.period_le;
  symbol = mapped-PlainPart task.subscribed_symbol_count;
  regional = number_option-PlainPart task.regional_source_count;
  shuffle = mapped-PlainPart task.shuffle_seed;
}
