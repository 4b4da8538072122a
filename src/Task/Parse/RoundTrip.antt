-- ===== src/Task/Parse/RoundTrip.antt =====
-- `parseTask` reads back what `TaskPattern::toString` prints, for every well-formed task.
use mathlib.Core.Option
use dxfcxx_event_test.Base.{
  ℕ, ◌+◌, ◌*◌, ◌≤◌, ◌<◌, ◌≡◌, refl, sym, ap, ◌∙◌, inl, inr, true, false, not, ◌&&◌, Option, none,
  some, List, [], ◌∷◌, arith, leb, ◌==◌, ne→==, Bool-cases, ok, length, drop, All-mono,
}
use dxfcxx_event_test.Text.{Bytes, to_string}
use dxfcxx_event_test.Text.Find.{starts_with-append}
use dxfcxx_event_test.Duration.{int64_max}
use dxfcxx_event_test.Task.{
  PatternItem, TaskPattern, size_max, items_text, task_prefix, task_text, largest_quantity,
  symbol_count,
}
use dxfcxx_event_test.Task.Count.{market_symbol_count-product, largest_quantity-upper}
use dxfcxx_event_test.Task.Parse.{
  separators, period_part, symbol_part, regional_part, seed_part, with_symbol_count,
  with_regional_count, default_task, parse_sections, parse_task,
}
use dxfcxx_event_test.Task.Parse.Items.{AreValid}
use dxfcxx_event_test.Task.Parse.Printed.{parse_items-items_text}
use dxfcxx_event_test.Task.Parse.Sections.{
  Parts, IsPlain, layout, located, position_of, period_at, symbol_at, regional_at, shuffle_at,
  separators-layout,
}
use dxfcxx_event_test.Task.Parse.Ends.{
  check_order-located, pattern_end-located, period_end-located, symbol_end-located,
  shuffle_position, period_section, symbol_section, regional_section, seed_section, pattern_section,
}
use dxfcxx_event_test.Task.Parse.Fields.{
  period_option, period_option_cases, period_in-IsPeriod, to_string-IsPlain, number_in-to_string,
}
use dxfcxx_event_test.Task.Parse.Parts.{
  number_option, parts_of, task_text-layout, parts_of-ArePlain,
}
use dxfcxx_event_test.Task.Parse.Valid.{IsValid, Covers, SeedFits, parse_task-IsValid}

period_part-located :
    (p : Parts) (task : TaskPattern) (period : ℕ)
    → task.publish_period ≡ 1000
    → p.period ≡ period_option period
    → 0 < period
    → period ≤ int64_max
    → period_part (layout p) (located p) task (located p).period
      ≡ ok (record task { publish_period = period })
unfolding period_part
period_part-located p task period default e low high = elim (period_option_cases period low high) [
  | inl (same_period, absent) ↦
      ap (λ o. period_part (layout p) (located p) task (position_of (period_at p) o)) (e ∙ absent)
      ∙ ap (λ n. ok (record task { publish_period = n })) (default ∙ sym same_period)
  | inr (t, there, read) ↦
      ap (λ o. period_part (layout p) (located p) task (position_of (period_at p) o)) (e ∙ there)
      ∙ rw (
        period_end-located p,
        period_section p t (e ∙ there),
        period_in-IsPeriod (period_at p) period t read,
      )
]

with_symbol_count_covers :
    (at : ℕ) (task : TaskPattern) (n : ℕ)
    → task.subscribed_symbol_count ≡ none
    → largest_quantity task.items ≤ n
    → with_symbol_count at task n ≡ ok (record task { subscribed_symbol_count = some n })
unfolding with_symbol_count symbol_count
with_symbol_count_covers at task n d h =
    let covers : leb (symbol_count task) n ≡ true = rw (d, symbol_count) (ground arith) in rw covers

with_regional_count_fits :
    (at : ℕ) (task : TaskPattern) (n : ℕ)
    → symbol_count (record task { regional_source_count = n }) * (n + 1) ≤ size_max
    → with_regional_count at task n ≡ ok (record task { regional_source_count = n })
unfolding with_regional_count
with_regional_count_fits at task n h =
    rw (market_symbol_count-product (record task { regional_source_count = n })) (ground arith)

number_option_zero : (n : ℕ) → (n == 0) ≡ true → number_option n ≡ none
unfolding number_option
number_option_zero n h = rw h

number_option-some : (n : ℕ) → (n == 0) ≡ false → number_option n ≡ some (to_string n)
unfolding number_option
number_option-some n h = rw h

symbol_part-located :
    (p : Parts) (task : TaskPattern) (o : Option ℕ)
    → task.subscribed_symbol_count ≡ none
    → p.symbol ≡ Option.map to_string o
    → Covers o task.items
    → 0 < largest_quantity task.items
    → symbol_part (layout p) (located p) task (located p).symbol
      ≡ ok (record task { subscribed_symbol_count = o })
unfolding symbol_part
symbol_part-located p task none default e _ _ =
    ap (λ o. symbol_part (layout p) (located p) task (position_of (symbol_at p) o)) e
    ∙ ap (λ o. ok (record task { subscribed_symbol_count = o })) default
symbol_part-located p task (some n) default e (covers, fits) positive =
    ap (λ o. symbol_part (layout p) (located p) task (position_of (symbol_at p) o)) e
    ∙ rw
        (
          symbol_end-located p,
          symbol_section p (to_string n) e,
          number_in-to_string b'#' "expected symbol count" "duplicate symbol count"
              "invalid symbol count" (λ m. not (m == 0)) (symbol_at p) n
              (All-mono IsPlain (λ d. (d == b'#') ≡ false) (λ d q. q.1) (to_string n)
                (to_string-IsPlain n))
              fits (ground arith),
        )
        (with_symbol_count_covers (symbol_at p) task n default covers)

regional_part-located :
    (p : Parts) (task : TaskPattern) (n : ℕ)
    → task.regional_source_count ≡ 0
    → p.regional ≡ number_option n
    → n ≤ 26
    → symbol_count (record task { regional_source_count = n }) * (n + 1) ≤ size_max
    → regional_part (layout p) (located p) task (located p).regional
      ≡ ok (record task { regional_source_count = n })
unfolding regional_part
regional_part-located p task n default e small fits = elim (Bool-cases (n == 0)) [
  | inl zero_sources ↦
      ap (λ o. regional_part (layout p) (located p) task (position_of (regional_at p) o))
        (e ∙ number_option_zero n zero_sources)
      ∙ ap (λ m. ok (record task { regional_source_count = m })) (default ∙ ground arith)
  | inr sources ↦
      let there = e ∙ number_option-some n sources in
      ap (λ o. regional_part (layout p) (located p) task (position_of (regional_at p) o)) there
      ∙ rw
          (
            shuffle_position p,
            regional_section p (to_string n) there,
            number_in-to_string b'&' "expected regional source count"
                "duplicate regional source count" "regional source count must be from 1 to 26"
                (λ m. not (m == 0) && leb m 26) (regional_at p) n
                (All-mono IsPlain (λ d. (d == b'&') ≡ false) (λ d q. q.2) (to_string n)
                  (to_string-IsPlain n))
                (omega arith) (ground arith),
          )
          (with_regional_count_fits (regional_at p) task n fits)
]

seed_part-located :
    (p : Parts) (task : TaskPattern) (o : Option ℕ)
    → task.shuffle_seed ≡ none
    → p.shuffle ≡ Option.map to_string o
    → SeedFits o
    → seed_part (layout p) task (located p).shuffle ≡ ok (record task { shuffle_seed = o })
unfolding seed_part
seed_part-located p task none default e _ =
    ap (λ o. seed_part (layout p) task (position_of (shuffle_at p) o)) e
    ∙ ap (λ o. ok (record task { shuffle_seed = o })) default
seed_part-located p task (some n) default e fits =
    ap (λ o. seed_part (layout p) task (position_of (shuffle_at p) o)) e
    ∙ rw (
      seed_section p (to_string n) e,
      number_in-to_string b'~' "expected shuffle seed" "duplicate shuffle seed"
          "invalid shuffle seed" (λ m. true) (shuffle_at p) n
          (All-mono IsPlain (λ d. (d == b'~') ≡ false) (λ d q. q.3) (to_string n)
            (to_string-IsPlain n))
          fits refl,
    )

largest_quantity-pos : (items : List PatternItem) → AreValid items → 0 < largest_quantity items
largest_quantity-pos [] v = absurd (v.nonempty refl)
largest_quantity-pos (item ∷ items) v =
    omega (arith, v.positive.0, (largest_quantity-upper (item ∷ items)).0)

pattern-pos : (items : List PatternItem) → AreValid items → 0 < length (items_text 0 items)
unfolding items_text
pattern-pos [] v = absurd (v.nonempty refl)
pattern-pos (item ∷ items) v = omega arith

market_unseeded :
    (task : TaskPattern)
    → IsValid task
    → symbol_count (record task { shuffle_seed = none }) * (task.regional_source_count + 1)
      ≤ size_max
unfolding symbol_count
market_unseeded task v = v.market

parse_task-layout :
    (p : Parts) → parse_task (layout p) ≡ parse_sections (layout p) (separators (layout p))
unfolding parse_task
parse_task-layout p = rw (starts_with-append task_prefix (drop 4 (layout p)))

parse_sections-located :
    (task : TaskPattern)
    → IsValid task
    → let p = parts_of task in parse_sections (layout p) (located p) ≡ ok task
unfolding parse_sections parts_of
parse_sections-located task v =
    let p = parts_of task in
    let timed = record (default_task task.items) { publish_period = task.publish_period } in
    let counted = record timed { subscribed_symbol_count = task.subscribed_symbol_count } in
    let routed = record counted { regional_source_count = task.regional_source_count } in
    rw (
      check_order-located p,
      pattern_end-located p,
      ne→== 4 (period_at p) (λ e. absurd (omega (arith, pattern-pos task.items v.items))),
      pattern_section p,
      parse_items-items_text task.items 4 v.items,
      period_part-located p (default_task task.items) task.publish_period refl refl v.period_pos
          v.period_le,
      symbol_part-located p timed task.subscribed_symbol_count refl refl v.universe
          (largest_quantity-pos task.items v.items),
      regional_part-located p counted task.regional_source_count refl refl v.regions
          (market_unseeded task v),
      seed_part-located p routed task.shuffle_seed refl refl v.seed,
    )

-- Every well-formed task is read back from its canonical text, unchanged.
pub parse_task-task_text :
    (task : TaskPattern) → IsValid task → parse_task (task_text task) ≡ ok task
parse_task-task_text task v =
    let p = parts_of task in
    ap parse_task (task_text-layout task)
    ∙ parse_task-layout p
    ∙ ap (parse_sections (layout p)) (separators-layout p (parts_of-ArePlain task v))
    ∙ parse_sections-located task v

-- Printing what was parsed and parsing it again gives the same task, whatever the first text was:
-- the canonical text keeps the meaning.
pub parse_task-task_text-parse_task :
    (text : Bytes) {task : TaskPattern}
    → parse_task text ≡ ok task
    → parse_task (task_text task) ≡ parse_task text
parse_task-task_text-parse_task text {task} h =
    parse_task-task_text task (parse_task-IsValid text h) ∙ sym h
