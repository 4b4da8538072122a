-- ===== src/Task/Count.antt =====
-- The counts of a task pattern against plain sums, maxima and ceilings.
use dxfcxx_event_test.Base.{
  ℕ, suc, ◌+◌, ◌-◌, ◌*◌, ◌/◌, ◌%◌, ◌≤◌, ◌<◌, ◌≡◌, inl, inr, none, some, List, [], ◌∷◌, ◌++◌, arith,
  ltb, leb, ◌==◌, if◌then◌else◌, Bool-cases, All,
}
use dxfcxx_event_test.Base.Int.{ℤ, pos, negsuc, pos_part}
use dxfcxx_event_test.Task.{
  PatternItem, TaskPattern, size_max, add_quantities, event_count, max_element, largest_quantity,
  symbol_count, market_symbol_count, batch_count,
}

unfoldable pub sum_quantities : List PatternItem → ℕ
sum_quantities [] = 0
sum_quantities (item ∷ items) = item.quantity + sum_quantities items

add_quantities-sum :
    (result : ℕ) (items : List PatternItem)
    → result ≤ size_max
    → add_quantities result items ≡ (
        if leb (result + sum_quantities items) size_max
        then some (result + sum_quantities items)
        else none)
unfolding add_quantities sum_quantities
add_quantities-sum result [] h = ground arith
add_quantities-sum result (item ∷ items) h =
    elim (Bool-cases (ltb (size_max - result) item.quantity)) [
      | inl large ↦ rw large (ground arith)
      | inr small ↦
          rw (small, add_quantities-sum (result + item.quantity) items (ground arith))
            (ground arith)
    ]

-- The running total is the exact sum of the quantities when that fits, and overflows otherwise.
pub event_count-sum :
    (items : List PatternItem)
    → event_count items
      ≡ (if leb (sum_quantities items) size_max then some (sum_quantities items) else none)
unfolding event_count
event_count-sum items = rw (add_quantities-sum 0 items (omega arith)) (ground arith)

pub sum_quantities-append :
    (xs ys : List PatternItem) → sum_quantities (xs ++ ys) ≡ sum_quantities xs + sum_quantities ys
unfolding sum_quantities
sum_quantities-append [] ys = omega arith
sum_quantities-append (x ∷ xs) ys = omega (arith, sum_quantities-append xs ys)

pub sum_quantities-one : (x : PatternItem) → sum_quantities (x ∷ []) ≡ x.quantity
unfolding sum_quantities
sum_quantities-one x = omega arith

abbrev pub AtMost : ℕ → PatternItem → Type 0
AtMost n item = item.quantity ≤ n

max_element-ge :
    (best : PatternItem) (items : List PatternItem)
    → best.quantity ≤ (max_element best items).quantity
unfolding max_element
max_element-ge best [] = omega arith
max_element-ge best (item ∷ items) =
    ground (arith, max_element-ge best items, max_element-ge item items)

max_element-upper :
    (best : PatternItem) (items : List PatternItem)
    → All (AtMost (max_element best items).quantity) items
unfolding max_element
max_element-upper best [] = tt
max_element-upper best (item ∷ items) =
    let chosen = if ltb best.quantity item.quantity then item else best in
    (above chosen (ground arith), max_element-upper chosen items)
  where
    above :
        (chosen : PatternItem)
        → item.quantity ≤ chosen.quantity
        → item.quantity ≤ (max_element chosen items).quantity
    above chosen h = omega (arith, max_element-ge chosen items)

-- No event type has a larger quantity than the largest.
pub largest_quantity-upper :
    (items : List PatternItem) → All (AtMost (largest_quantity items)) items
unfolding largest_quantity
largest_quantity-upper [] = tt
largest_quantity-upper (item ∷ items) = (max_element-ge item items, max_element-upper item items)

max_element-le-sum :
    (best : PatternItem) (items : List PatternItem)
    → (max_element best items).quantity ≤ best.quantity + sum_quantities items
unfolding max_element sum_quantities
max_element-le-sum best [] = omega arith
max_element-le-sum best (item ∷ items) =
    ground (arith, max_element-le-sum best items, max_element-le-sum item items)

pub largest_quantity-le-sum :
    (items : List PatternItem) → largest_quantity items ≤ sum_quantities items
unfolding largest_quantity sum_quantities
largest_quantity-le-sum [] = omega arith
largest_quantity-le-sum (item ∷ items) = max_element-le-sum item items

-- The market symbol count is the exact product when that fits, and an overflow otherwise.
pub market_symbol_count-product :
    (task : TaskPattern)
    → let product = symbol_count task * (task.regional_source_count + 1) in
      market_symbol_count task ≡ (if leb product size_max then some product else none)
unfolding market_symbol_count
market_symbol_count-product task = product (symbol_count task) task.regional_source_count
  where
    le_product : (n m : ℕ) → n ≤ size_max / suc m → n * suc m ≤ size_max
    le_product n m h = grind arith

    gt_product : (n m : ℕ) → size_max / suc m < n → size_max < n * suc m
    gt_product n m h = grind arith

    product :
        (n m : ℕ)
        → (if ltb (size_max / (m + 1)) n then none else some (n * (m + 1)))
          ≡ (if leb (n * (m + 1)) size_max then some (n * (m + 1)) else none)
    product n m = ground (arith, le_product n m, gt_product n m)

ceiling :
    (d p : ℕ)
    → 0 < p
    → let n = if leb d 0 then 0 else d / p + (if d % p == 0 then 0 else 1) in
      (d ≤ n * p) × (n * p < d + p)
ceiling d p h = grind arith

-- The number of batches is the duration divided by the period, rounded up; a duration that is not
-- positive counts as 0 and has none.
pub batch_count_ceiling :
    (task : TaskPattern) (d : ℤ)
    → 0 < task.publish_period
    → (pos_part d ≤ batch_count task d * task.publish_period)
      × (batch_count task d * task.publish_period < pos_part d + task.publish_period)
unfolding batch_count
batch_count_ceiling task (pos d) h = ceiling d task.publish_period h
batch_count_ceiling task (negsuc d) h = (omega arith, omega arith)
