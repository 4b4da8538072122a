-- ===== src/Task/Symbols/Universe.antt =====
-- The symbol universe of a task: its size, its prefixes, and that no symbol stands in it twice.
use dxfcxx_event_test.Base.{
  ℕ, zero, suc, ◌+◌, ◌-◌, ◌*◌, ◌≤◌, ◌≡◌, refl, sym, ap, ◌∙◌, ◌⊎◌, inl, inr, none, some, List, ◌∷◌,
  ◌++◌, map, arith, ◌==◌, Bool-cases, Option-cases, length, get_elem?, take, drop, replicate,
  length-append, length-map,
}
use dxfcxx_event_test.Text.{Bytes, value, to_string, zero_padded}
use dxfcxx_event_test.Text.Decimal.{value-to_string}
use dxfcxx_event_test.Task.{EventKind, TaskPattern, symbol_count, market_symbol_count, quantity_in}
use dxfcxx_event_test.Task.Count.{market_symbol_count-product}
use dxfcxx_event_test.Task.Symbols.{
  symbol_width, symbol_name, symbols_from, symbols, value_or_zero, kind_symbols, regional_symbol,
  regional_blocks, market_symbols,
}

value-zeros : (k : ℕ) (ds : Bytes) → value (replicate k b'0' ++ ds) ≡ value ds
value-zeros zero ds = refl
value-zeros (suc k) ds = value-zeros k ds

value-zero_padded : (width n : ℕ) → value (zero_padded width n) ≡ n
unfolding zero_padded
value-zero_padded width n =
    value-zeros (width - length (to_string n)) (to_string n) ∙ value-to_string n

-- A symbol tells its number.
pub symbol_name-injective : (width i j : ℕ) → symbol_name width i ≡ symbol_name width j → i ≡ j
unfolding symbol_name
symbol_name-injective width i j e =
    sym (value-zero_padded width i) ∙ ap (λ s. value (drop 3 s)) e ∙ value-zero_padded width j

length-symbols_from : (width i n : ℕ) → length (symbols_from width i n) ≡ n
unfolding symbols_from
length-symbols_from width i zero = refl
length-symbols_from width i (suc n) = ap suc (length-symbols_from width (i + 1) n)

get_elem?-symbols_from :
    (width i n k : ℕ) {s : Bytes}
    → get_elem? (symbols_from width i n) k ≡ some s
    → s ≡ symbol_name width (i + k)
unfolding symbols_from
get_elem?-symbols_from width i zero k h = cc
get_elem?-symbols_from width i (suc n) zero {s} h =
    let e : symbol_name width i ≡ s = cc in sym e ∙ ap (symbol_name width) (omega arith)
get_elem?-symbols_from width i (suc n) (suc k) h =
    get_elem?-symbols_from width (i + 1) n k h ∙ ap (symbol_name width) (omega arith)

take-symbols_from :
    (width i n m : ℕ) → n ≤ m → take n (symbols_from width i m) ≡ symbols_from width i n
unfolding symbols_from
take-symbols_from width i zero m h = refl
take-symbols_from width i (suc n) zero h = absurd (omega arith)
take-symbols_from width i (suc n) (suc m) h =
    ap (λ t. symbol_name width i ∷ t) (take-symbols_from width (i + 1) n m (omega arith))

symbols-from :
    (task : TaskPattern)
    → symbols task ≡ symbols_from (symbol_width (symbol_count task)) 0 (symbol_count task)
unfolding symbols symbols_from
symbols-from task = elim (Bool-cases (symbol_count task == 0)) [
  | inl none_at_all ↦ let e : symbol_count task ≡ 0 = ground arith in rw (none_at_all, e)
  | inr some_there ↦ rw some_there
]

kind_symbols-from :
    (task : TaskPattern) (kind : EventKind)
    → kind_symbols task kind
      ≡ symbols_from
          (symbol_width (symbol_count task))
          0
          (value_or_zero (quantity_in kind task.items))
unfolding kind_symbols symbols_from
kind_symbols-from task kind = elim (Bool-cases (value_or_zero (quantity_in kind task.items) == 0)) [
  | inl none_at_all ↦
      let e : value_or_zero (quantity_in kind task.items) ≡ 0 = ground arith in rw (none_at_all, e)
  | inr some_there ↦ rw some_there
]

-- The universe has as many symbols as are subscribed, and no symbol stands at two places.
pub symbols_distinct :
    (task : TaskPattern)
    → (length (symbols task) ≡ symbol_count task)
      × ((i j : ℕ) (s : Bytes)
          → get_elem? (symbols task) i ≡ some s
          → get_elem? (symbols task) j ≡ some s
          → i ≡ j)
symbols_distinct task =
    let w = symbol_width (symbol_count task) in
    let n = symbol_count task in
    (
      ap length (symbols-from task) ∙ length-symbols_from w 0 n,
      λ i j s hi hj. symbol_name-injective w i j (sym (at i s hi) ∙ at j s hj),
    )
  where
    at :
        (k : ℕ) (s : Bytes)
        → get_elem? (symbols task) k ≡ some s
        → s ≡ symbol_name (symbol_width (symbol_count task)) k
    at k s h =
        get_elem?-symbols_from (symbol_width (symbol_count task)) 0 (symbol_count task) k
          (ap (λ l. get_elem? l k) (sym (symbols-from task)) ∙ h)
        ∙ ap (symbol_name (symbol_width (symbol_count task))) (omega arith)

-- The symbols of an event type are the first ones of the common universe, when its quantity is not
-- above the universe's size.
pub kind_symbols-take-symbols :
    (task : TaskPattern) (kind : EventKind) (q : ℕ)
    → quantity_in kind task.items ≡ some q
    → q ≤ symbol_count task
    → kind_symbols task kind ≡ take q (symbols task)
kind_symbols-take-symbols task kind q e h =
    kind_symbols-from task kind
    ∙ rw (e, symbols-from task)
        (sym (take-symbols_from (symbol_width (symbol_count task)) 0 q (symbol_count task) h))

pub length-regional_blocks :
    (composite : List Bytes) (source sources : ℕ)
    → length (regional_blocks composite source sources) ≡ length composite * sources
unfolding regional_blocks
length-regional_blocks composite source zero = omega arith
length-regional_blocks composite source (suc sources) = omega (
  arith,
  length-append (map (regional_symbol source) composite)
      (regional_blocks composite (source + 1) sources),
  length-map (regional_symbol source) composite,
  length-regional_blocks composite (source + 1) sources,
)

-- There are exactly as many market symbols as `marketSymbolCount` says, and none are made when it
-- overflows.
pub length-market_symbols :
    (task : TaskPattern)
    → (market_symbol_count task ≡ none) × (market_symbols task ≡ none)
      ⊎ ((l : List Bytes) × (market_symbols task ≡ some l)
          × (market_symbol_count task ≡ some (length l)))
unfolding market_symbols
length-market_symbols task = elim (Option-cases (market_symbol_count task)) [
  | inl e ↦ inl (e, rw (e, market_symbols))
  | inr (n, e) ↦ inr (
    symbols task ++ regional_blocks (symbols task) 0 task.regional_source_count,
    rw (e, market_symbols),
    e ∙ ap some (exact n e),
  )
]
  where
    exact :
        (n : ℕ)
        → market_symbol_count task ≡ some n
        → n ≡ length (symbols task ++ regional_blocks (symbols task) 0 task.regional_source_count)
    exact n e = ground (
      arith,
      market_symbol_count-product task,
      (symbols_distinct task).0,
      length-append (symbols task) (regional_blocks (symbols task) 0 task.regional_source_count),
      length-regional_blocks (symbols task) 0 task.regional_source_count,
    )
