-- ===== src/Task/Parse/Valid.antt =====
-- What `parseTask` accepts is a well-formed task.
pub mod Pattern
pub mod Numbers
use Prim.Native.String.{String}
use dxfcxx_event_test.Base.{
  ℕ, ◌+◌, ◌-◌, ◌*◌, ◌≤◌, ◌<◌, ◌≡◌, refl, ap, subst, ◌≢◌, inl, inr, Bool, true, false, not, Option,
  none, some, List, [], ◌∷◌, arith, leb, ◌==◌, if◌then◌else◌, leb→le, Bool-cases, Option-cases,
  Result, ok, err, ◌>>◌, >>=-eq-ok, length, drop, length-take, length-drop,
}
use dxfcxx_event_test.Text.{
  Bytes, starts_with, substr, find_from, Scan, invalid, out_of_range, scanned, scan_u64,
  scanned_all,
}
use dxfcxx_event_test.Text.Decimal.{scan_u64_sound}
use dxfcxx_event_test.Text.Find.{find_from-bounds}
use dxfcxx_event_test.Duration.{int64_max, parse_duration}
use dxfcxx_event_test.Duration.Parse.{parse_duration_bounds}
use dxfcxx_event_test.Task.{
  PatternItem, TaskPattern, ParseError, largest_quantity, symbol_count, market_symbol_count,
  size_max, task_prefix,
}
use dxfcxx_event_test.Task.Count.{largest_quantity-le-sum, market_symbol_count-product}
use dxfcxx_event_test.Task.Parse.{
  Parsed, Separators, is_some, separators, separator_position, pattern_end, parse_items, section,
  no_duplicate, placed, period_part, whole_number, accept, symbol_part, regional_part, seed_part,
  default_task, parse_sections, parse_task, check_order, not_empty, period_in, number_in,
  period_end, symbol_end, with_symbol_count, with_regional_count, symbol_count_in,
  regional_count_in, seed_in, period_in, number_in, period_end, symbol_end, with_symbol_count,
  with_regional_count, symbol_count_in, regional_count_in, seed_in,
}
use dxfcxx_event_test.Task.Parse.Valid.Pattern.{
  separator_position-ge, separator_position-le, pattern_end-ge, pattern_end-le, pattern-ne-nil,
  starts_with-length,
}
use dxfcxx_event_test.Task.Parse.Valid.Numbers.{
  require_ok, placed_ok, accept_ok, scanned_all_le, whole_number_le, period_in_bounds,
  number_in_sound,
}
use dxfcxx_event_test.Task.Parse.Items.{AreValid, parse_items-AreValid}

-- An explicit symbol count covers the largest event quantity.
abbrev pub Covers : Option ℕ → List PatternItem → Type 0
Covers none items = Unit {0}
Covers (some n) items = (largest_quantity items ≤ n) × (n ≤ size_max)

abbrev pub SeedFits : Option ℕ → Type 0
SeedFits none = Unit {0}
SeedFits (some n) = n ≤ size_max

pub record IsValid (task : TaskPattern) : Type 0 where
  pub items : AreValid task.items
  pub period_pos : 0 < task.publish_period
  pub period_le : task.publish_period ≤ int64_max
  pub universe : Covers task.subscribed_symbol_count task.items
  pub regions : task.regional_source_count ≤ 26
  pub market : symbol_count task * (task.regional_source_count + 1) ≤ size_max
  pub seed : SeedFits task.shuffle_seed

-- What the later parts need of the task that they extend.
record Plainly (task : TaskPattern) : Type 0 where
  valid : IsValid task
  uncounted : task.subscribed_symbol_count ≡ none
  unrouted : task.regional_source_count ≡ 0

default_task-Plainly : (items : List PatternItem) → AreValid items → Plainly (default_task items)
unfolding symbol_count
default_task-Plainly items v = record {
  valid = record {
    items = v;
    period_pos = omega arith;
    period_le = omega arith;
    universe = tt;
    regions = omega arith;
    market = omega (arith, largest_quantity-le-sum items, v.total);
    seed = tt;
  };
  uncounted = refl;
  unrouted = refl;
}

uncounted_count :
    (task : TaskPattern)
    → task.subscribed_symbol_count ≡ none
    → symbol_count task ≡ largest_quantity task.items
unfolding symbol_count
uncounted_count task e = rw e

counted_count :
    (task : TaskPattern) (n : ℕ)
    → symbol_count (record task { subscribed_symbol_count = some n }) ≡ n
unfolding symbol_count
counted_count task n = refl

market_fits :
    (task : TaskPattern)
    → is_some (market_symbol_count task) ≡ true
    → symbol_count task * (task.regional_source_count + 1) ≤ size_max
market_fits task h = ground (arith, market_symbol_count-product task)

period_part-Plainly :
    (text : Bytes) (s : Separators) (task : TaskPattern) (o : Option ℕ) {t : TaskPattern}
    → Plainly task
    → period_part text s task o ≡ ok t
    → Plainly t
unfolding period_part symbol_count
period_part-Plainly text s task none {t} v h = let e : task ≡ t = ground arith in subst Plainly e v
period_part-Plainly text s task (some separator) {t} v h =
    let (p, e, h1) =
      >>=-eq-ok (period_in separator (section text separator (period_end text s)))
        (λ p. ok (record task { publish_period = p })) {b = t} h in
    let (low, high) = period_in_bounds _ _ e in
    let same_task : record task { publish_period = p } ≡ t = ground arith in
    subst Plainly same_task (timed p low high)
  where
    timed : (p : ℕ) → 0 < p → p ≤ int64_max → Plainly (record task { publish_period = p })
    timed p low high = record {
      valid = record {
        items = v.valid.items;
        period_pos = low;
        period_le = high;
        universe = v.valid.universe;
        regions = v.valid.regions;
        market = v.valid.market;
        seed = v.valid.seed;
      };
      uncounted = v.uncounted;
      unrouted = v.unrouted;
    }

-- A task whose symbols are counted, before the regional sources are.
record Counted (task : TaskPattern) : Type 0 where
  valid : IsValid task
  unrouted : task.regional_source_count ≡ 0

with_symbol_count-Counted :
    (separator count : ℕ) (task : TaskPattern) {t : TaskPattern}
    → Plainly task
    → count ≤ size_max
    → with_symbol_count separator task count ≡ ok t
    → Counted t
unfolding with_symbol_count symbol_count
with_symbol_count-Counted separator count task {t} v fits h =
    elim (Bool-cases (leb (symbol_count task) count)) [
      | inl covers ↦
          let e : record task { subscribed_symbol_count = some count } ≡ t = ground arith in
          subst Counted e (counted (leb→le (symbol_count task) count covers))
      | inr small ↦ absurd (ground arith)
    ]
  where
    largest : symbol_count task ≤ count → largest_quantity task.items ≤ count
    largest covers = rw (← uncounted_count task v.uncounted) covers

    counted :
        symbol_count task ≤ count → Counted (record task { subscribed_symbol_count = some count })
    counted covers = record {
      valid = record {
        items = v.valid.items;
        period_pos = v.valid.period_pos;
        period_le = v.valid.period_le;
        universe = (largest covers, fits);
        regions = v.valid.regions;
        market = rw (v.unrouted, counted_count task count) (omega arith);
        seed = v.valid.seed;
      };
      unrouted = v.unrouted;
    }

symbol_part-Counted :
    (text : Bytes) (s : Separators) (task : TaskPattern) (o : Option ℕ) {t : TaskPattern}
    → Plainly task
    → symbol_part text s task o ≡ ok t
    → Counted t
unfolding symbol_part
symbol_part-Counted text s task none {t} v h =
    let e : task ≡ t = ground arith in
    subst Counted e (record { valid = v.valid; unrouted = v.unrouted })
symbol_part-Counted text s task (some separator) {t} v h =
    let (n, e, h1) =
      >>=-eq-ok (symbol_count_in separator (section text separator (symbol_end text s)))
        (with_symbol_count separator task) {b = t} h in
    let (_, fits) = number_in_sound _ _ _ _ _ separator _ e in
    with_symbol_count-Counted separator n task v fits h1

with_regional_count-IsValid :
    (separator count : ℕ) (task : TaskPattern) {t : TaskPattern}
    → Counted task
    → count ≤ 26
    → with_regional_count separator task count ≡ ok t
    → IsValid t
unfolding with_regional_count
with_regional_count-IsValid separator count task {t} v small h =
    elim (Bool-cases
      (is_some (market_symbol_count (record task { regional_source_count = count })))) [
        | inl fits ↦
            let e : record task { regional_source_count = count } ≡ t = ground arith in
            subst IsValid e (routed (market_fits _ fits))
        | inr large ↦ absurd (ground arith)
      ]
  where
    routed :
        symbol_count (record task { regional_source_count = count }) * (count + 1) ≤ size_max
        → IsValid (record task { regional_source_count = count })
    routed fits = record {
      items = v.valid.items;
      period_pos = v.valid.period_pos;
      period_le = v.valid.period_le;
      universe = v.valid.universe;
      regions = small;
      market = fits;
      seed = v.valid.seed;
    }

regional_part-IsValid :
    (text : Bytes) (s : Separators) (task : TaskPattern) (o : Option ℕ) {t : TaskPattern}
    → Counted task
    → regional_part text s task o ≡ ok t
    → IsValid t
unfolding regional_part
regional_part-IsValid text s task none {t} v h =
    let e : task ≡ t = ground arith in subst IsValid e v.valid
regional_part-IsValid text s task (some separator) {t} v h =
    let (n, e, h1) =
      >>=-eq-ok
        (regional_count_in separator (section text separator (separator_position text s.shuffle)))
        (with_regional_count separator task) {b = t} h in
    let (good, _) = number_in_sound _ _ _ _ _ separator _ e in
    with_regional_count-IsValid separator n task v (ground arith) h1

seed_part-IsValid :
    (text : Bytes) (task : TaskPattern) (o : Option ℕ) {t : TaskPattern}
    → IsValid task
    → seed_part text task o ≡ ok t
    → IsValid t
unfolding seed_part symbol_count
seed_part-IsValid text task none {t} v h = let e : task ≡ t = ground arith in subst IsValid e v
seed_part-IsValid text task (some separator) {t} v h =
    let (n, e, h1) =
      >>=-eq-ok (seed_in separator (drop (separator + 1) text))
        (λ seed. ok (record task { shuffle_seed = some seed })) {b = t} h in
    let (_, fits) = number_in_sound _ _ _ _ (λ m. true) separator _ e in
    let same_task : record task { shuffle_seed = some n } ≡ t = ground arith in
    subst IsValid same_task (record {
      items = v.items;
      period_pos = v.period_pos;
      period_le = v.period_le;
      universe = v.universe;
      regions = v.regions;
      market = v.market;
      seed = fits;
    })

parse_sections-IsValid :
    (text : Bytes) {t : TaskPattern}
    → 4 ≤ length text
    → parse_sections text (separators text) ≡ ok t
    → IsValid t
unfolding parse_sections
parse_sections-IsValid text {t} long h =
    let s = separators text in
    let end = pattern_end text s in
    let (_, _, h1) = >>=-eq-ok (check_order s) _ {b = t} h in
    let (started, h2) = require_ok (not (4 == end)) _ _ h1 in
    let (items, e, h3) = >>=-eq-ok (parse_items (substr text 4 (end - 4)) 0 4 [] []) _ {b = t} h2 in
    let (timed, e1, h4) =
      >>=-eq-ok (period_part text s (default_task items) s.period) _ {b = t} h3 in
    let (counted, e2, h5) = >>=-eq-ok (symbol_part text s timed s.symbol) _ {b = t} h4 in
    let (routed, e3, h6) = >>=-eq-ok (regional_part text s counted s.regional) _ {b = t} h5 in
    let routed_valid =
      regional_part-IsValid text s counted s.regional
        (symbol_part-Counted text s timed s.symbol
          (period_part-Plainly text s (default_task items) s.period
            (default_task-Plainly items
              (parse_items-AreValid _ 4 items (pattern-ne-nil text (started_after started) long) e))
            e1)
          e2)
        e3 in
    seed_part-IsValid text routed s.shuffle routed_valid h6
  where
    started_after :
        not (4 == pattern_end text (separators text)) ≡ true
        → 4 < pattern_end text (separators text)
    started_after started = ground (arith, pattern_end-ge text long)

-- Whatever text `parseTask` accepts, the task has at least one item, positive quantities whose sum
-- does not overflow, no kind twice, a positive period that fits, an explicit symbol count only if
-- it covers the largest quantity, at most 26 regional sources, a market symbol count that does not
-- overflow, and a seed that fits.
pub parse_task-IsValid : (text : Bytes) {t : TaskPattern} → parse_task text ≡ ok t → IsValid t
unfolding parse_task
parse_task-IsValid text {t} h = elim (Bool-cases (starts_with task_prefix text)) [
  | inl yes_prefix ↦
      parse_sections-IsValid text (starts_with-length task_prefix text yes_prefix)
        (rw yes_prefix at h)
  | inr other ↦ absurd (ground arith)
]
