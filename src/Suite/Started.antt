-- ===== src/Suite/Started.antt =====
-- The generator accepts the tasks of an accepted suite.
use dxfcxx_event_test.Base.{
  ℕ, ◌≤◌, ◌≡◌, refl, true, Option, none, some, List, [], ◌∷◌, arith, ge→ltb, le→leb, ok, All,
  All-mono,
}
use dxfcxx_event_test.Task.{
  PatternItem, TaskPattern, largest_quantity, symbol_count, symbol_count_or,
}
use dxfcxx_event_test.Text.{Bytes}
use dxfcxx_event_test.Task.Parse.{parse_task}
use dxfcxx_event_test.Task.Parse.Valid.{Covers, parse_task-IsValid}
use dxfcxx_event_test.Task.Count.{AtMost, largest_quantity-upper}
use dxfcxx_event_test.Suite.{Suite}
use dxfcxx_event_test.Suite.Check.{parse_benchmark_suite}
use dxfcxx_event_test.Suite.Valid.{CoversTask}
use dxfcxx_event_test.Suite.Accepted.{parse_benchmark_suite-IsValid}
use dxfcxx_event_test.Server.Pools.{quantities_fit, value_or, resolve_active_symbol_count}

quantities_fit-true :
    (count : ℕ) (items : List PatternItem)
    → All (λ item. item.quantity ≤ count) items
    → quantities_fit count items ≡ true
unfolding quantities_fit
quantities_fit-true count [] h = refl
quantities_fit-true count (item ∷ items) (h, hs) =
    rw (le→leb item.quantity count h, quantities_fit-true count items hs) refl

quantities-covered :
    (o : Option ℕ) (items : List PatternItem)
    → Covers o items
    → All (λ item. item.quantity ≤ symbol_count_or o items) items
unfolding symbol_count_or
quantities-covered none items h = largest_quantity-upper items
quantities-covered (some n) items h =
    All-mono (AtMost (largest_quantity items)) (AtMost n) (λ item le. omega arith) items
      (largest_quantity-upper items)

resolve-some :
    (o : Option ℕ) (task : TaskPattern)
    → Covers task.subscribed_symbol_count task.items
    → CoversTask o task
    → resolve_active_symbol_count o task ≡ some (value_or (symbol_count task) o)
unfolding resolve_active_symbol_count symbol_count
resolve-some none task h c =
    let quantities = quantities-covered task.subscribed_symbol_count task.items h in
    rw
      (
        ge→ltb (symbol_count task) (symbol_count task) (omega arith),
        quantities_fit-true (symbol_count task) task.items quantities,
      )
      refl
resolve-some (some n) task h (le, quantities) =
    rw (ge→ltb (symbol_count task) n le, quantities_fit-true n task.items quantities) refl

-- The generator finds the number of symbols that it publishes, for the task of every profile of
-- an accepted suite, and it is the suite's number, where the suite sets one.
pub parse_benchmark_suite-starts :
    (input : Bytes) {suite : Suite}
    → parse_benchmark_suite input ≡ ok suite
    → All
        (λ profile.
          (task : TaskPattern) × (parse_task profile.task ≡ ok task)
          × (resolve_active_symbol_count suite.active_symbol_count task
              ≡ some (value_or (symbol_count task) suite.active_symbol_count)))
        suite.profiles
parse_benchmark_suite-starts input {suite} h =
    let valid = parse_benchmark_suite-IsValid input h in
    All-mono _ _
      (λ profile p. (
        p.task,
        p.parses,
        resolve-some suite.active_symbol_count p.task
            (parse_task-IsValid profile.task p.parses).universe p.active,
      ))
      suite.profiles valid.profiles
