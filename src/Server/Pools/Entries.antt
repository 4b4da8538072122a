-- ===== src/Server/Pools/Entries.antt =====
-- Which events the pools of a task hold.
use dxfcxx_event_test.Base.{
  ℕ, zero, suc, ◌+◌, ◌*◌, ◌-◌, ◌<◌, ◌≤◌, ◌≡◌, refl, sym, ap, ◌∙◌, Bool-cases, inl, inr, Option,
  none, some, List, [], ◌∷◌, ◌++◌, map, arith, if◌then◌else◌, length, get_elem?, take, replicate,
  length-append, length-map, length-take,
}
use dxfcxx_event_test.Text.{Bytes}
use dxfcxx_event_test.Task.{PatternItem, TaskPattern, symbol_count}
use dxfcxx_event_test.Task.Symbols.{symbols, regional_blocks}
use dxfcxx_event_test.Task.Symbols.Universe.{length-regional_blocks, symbols_distinct}
use dxfcxx_event_test.Server.{EventPool}
use dxfcxx_event_test.Server.Publish.{is_time_and_sale}
use dxfcxx_event_test.Server.Pools.{resize, length-resize, pool_of, make_event_pools}

-- The symbol of a source: the composite one is 0, and the regional ones `A`, `B` and so on behind an
-- ampersand are 1, 2 and so on.
pub symbol_at : ℕ → Option Bytes → Option Bytes
symbol_at source none = none
symbol_at zero (some symbol) = some symbol
symbol_at (suc source) (some symbol) = some (symbol ++ b'&' ∷ (b'A' + source) ∷ [])

-- The sources of an event kind.
abbrev pub sources_of : TaskPattern → PatternItem → ℕ
sources_of pattern item =
    if is_time_and_sale item.kind then 1 else pattern.regional_source_count + 1

-- The pool of an item holds, for each source of its kind, the events of the first `count` symbols of
-- the task, and nothing else.
pub record HoldsEvents (pattern : TaskPattern) (count : ℕ) (item : PatternItem) (pool : EventPool)
    : Type 0 where
  pub kind : pool.kind ≡ item.kind
  pub quantity : pool.quantity ≡ item.quantity
  pub size : length pool.events ≡ sources_of pattern item * count
  pub event_at :
      (source i : ℕ)
      → source < sources_of pattern item
      → i < count
      → get_elem? pool.events (source * count + i)
        ≡ symbol_at source (get_elem? (symbols pattern) i)

-- One pool for each item, in their order.
pub HoldAll : TaskPattern → ℕ → List PatternItem → List EventPool → Type 0
HoldAll pattern count [] [] = Unit
HoldAll pattern count [] (pool ∷ pools) = ⊥
HoldAll pattern count (item ∷ items) [] = ⊥
HoldAll pattern count (item ∷ items) (pool ∷ pools) =
    HoldsEvents pattern count item pool × HoldAll pattern count items pools

module _ {A : Type 0} where
  get_elem?-append :
      (xs ys : List A) (i : ℕ) → i < length xs → get_elem? (xs ++ ys) i ≡ get_elem? xs i
  get_elem?-append [] ys i h = absurd (omega arith)
  get_elem?-append (x ∷ xs) ys zero h = refl
  get_elem?-append (x ∷ xs) ys (suc i) h = get_elem?-append xs ys i (omega arith)

  get_elem?-append_behind :
      (xs ys : List A) (i : ℕ) → get_elem? (xs ++ ys) (length xs + i) ≡ get_elem? ys i
  get_elem?-append_behind [] ys i =
      let e : length {A = A} [] + i ≡ i = omega arith in ap (get_elem? ys) e
  get_elem?-append_behind (x ∷ xs) ys i =
      let e : length (x ∷ xs) + i ≡ suc (length xs + i) = omega arith in
      ap (get_elem? (x ∷ (xs ++ ys))) e ∙ get_elem?-append_behind xs ys i

  get_elem?-take : (n : ℕ) (xs : List A) (i : ℕ) → i < n → get_elem? (take n xs) i ≡ get_elem? xs i
  get_elem?-take zero xs i h = absurd (omega arith)
  get_elem?-take (suc n) [] i h = refl
  get_elem?-take (suc n) (x ∷ xs) zero h = refl
  get_elem?-take (suc n) (x ∷ xs) (suc i) h = get_elem?-take n xs i (omega arith)

get_elem?-resize :
    (n : ℕ) (list : List Bytes) (i : ℕ)
    → n ≤ length list
    → i < n
    → get_elem? (resize n list) i ≡ get_elem? list i
unfolding resize
get_elem?-resize n list i fits h =
    get_elem?-append (take n list) (replicate (n - length list) []) i
      (omega (arith, length-take n list))
    ∙ get_elem?-take n list i h

get_elem?-map :
    (source : ℕ) (xs : List Bytes) (i : ℕ)
    → get_elem? (map (λ s. s ++ b'&' ∷ (b'A' + source) ∷ []) xs) i
      ≡ symbol_at (suc source) (get_elem? xs i)
unfolding symbol_at
get_elem?-map source [] i = refl
get_elem?-map source (x ∷ xs) zero = refl
get_elem?-map source (x ∷ xs) (suc i) = get_elem?-map source xs i

regional_at :
    (composite : List Bytes) (first sources source i : ℕ)
    → source < sources
    → i < length composite
    → get_elem? (regional_blocks composite first sources) (source * length composite + i)
      ≡ symbol_at (suc (first + source)) (get_elem? composite i)
unfolding regional_blocks
regional_at composite first zero source i h small = absurd (omega arith)
regional_at composite first (suc sources) zero i h small =
    let block = map (λ s. s ++ b'&' ∷ (b'A' + first) ∷ []) composite in
    ap (get_elem? (block ++ regional_blocks composite (first + 1) sources)) (omega arith)
    ∙ get_elem?-append block (regional_blocks composite (first + 1) sources) i
        (omega (arith, length-map (λ s. s ++ b'&' ∷ (b'A' + first) ∷ []) composite))
    ∙ get_elem?-map first composite i
    ∙ ap (λ n. symbol_at (suc n) (get_elem? composite i)) (omega arith)
regional_at composite first (suc sources) (suc source) i h small =
    let block = map (λ s. s ++ b'&' ∷ (b'A' + first) ∷ []) composite in
    let size = length-map (λ s. s ++ b'&' ∷ (b'A' + first) ∷ []) composite in
    ap (get_elem? (block ++ regional_blocks composite (first + 1) sources)) (grind (arith, size))
    ∙ get_elem?-append_behind block (regional_blocks composite (first + 1) sources)
        (source * length composite + i)
    ∙ regional_at composite (first + 1) sources source i (omega arith) small
    ∙ ap (λ n. symbol_at (suc n) (get_elem? composite i)) (omega arith)

symbol_at-zero : (o : Option Bytes) → symbol_at 0 o ≡ o
unfolding symbol_at
symbol_at-zero none = refl
symbol_at-zero (some s) = refl

market_at :
    (base : List Bytes) (regions source i : ℕ)
    → source < regions + 1
    → i < length base
    → get_elem? (base ++ regional_blocks base 0 regions) (source * length base + i)
      ≡ symbol_at source (get_elem? base i)
market_at base regions zero i h small =
    ap (get_elem? (base ++ regional_blocks base 0 regions)) (omega arith)
    ∙ get_elem?-append base (regional_blocks base 0 regions) i small
    ∙ sym (symbol_at-zero (get_elem? base i))
market_at base regions (suc source) i h small =
    ap (get_elem? (base ++ regional_blocks base 0 regions)) (grind arith)
    ∙ get_elem?-append_behind base (regional_blocks base 0 regions) (source * length base + i)
    ∙ regional_at base 0 regions source i (omega arith) small
    ∙ ap (λ n. symbol_at (suc n) (get_elem? base i)) (omega arith)

module _ (pattern : TaskPattern) (count : ℕ) (enough : count ≤ symbol_count pattern) where
  base : List Bytes
  base = resize count (symbols pattern)

  base-length : length base ≡ count
  unfolding base
  base-length = length-resize count (symbols pattern)

  base_at : (i : ℕ) → i < count → get_elem? base i ≡ get_elem? (symbols pattern) i
  unfolding base
  base_at i h =
      let (size, _) = symbols_distinct pattern in
      get_elem?-resize count (symbols pattern) i (omega (arith, size, enough)) h

  market : List Bytes
  unfolding base
  market = base ++ regional_blocks base 0 pattern.regional_source_count

  market-length : length market ≡ (pattern.regional_source_count + 1) * count
  unfolding market
  market-length =
      length-append base (regional_blocks base 0 pattern.regional_source_count)
      ∙ grind (arith, length-regional_blocks base 0 pattern.regional_source_count, base-length)

  composite_event :
      (source i : ℕ)
      → source < 1
      → i < count
      → get_elem? base (source * count + i) ≡ symbol_at source (get_elem? (symbols pattern) i)
  unfolding symbol_at
  composite_event zero i h small =
      let e : zero * count + i ≡ i = omega arith in
      ap (get_elem? base) e ∙ base_at i small ∙ sym (symbol_at-zero (get_elem? (symbols pattern) i))
  composite_event (suc source) i h small = absurd (omega arith)

  market_event :
      (source i : ℕ)
      → source < pattern.regional_source_count + 1
      → i < count
      → get_elem? market (source * count + i) ≡ symbol_at source (get_elem? (symbols pattern) i)
  unfolding market
  market_event source i h small =
      ap (λ n. get_elem? market (source * n + i)) (sym base-length)
      ∙ market_at base pattern.regional_source_count source i h (omega (arith, base-length, small))
      ∙ ap (symbol_at source) (base_at i small)

  pool_of-HoldsEvents :
      (item : PatternItem) → HoldsEvents pattern count item (pool_of base market item)
  unfolding pool_of
  pool_of-HoldsEvents item = elim (Bool-cases (is_time_and_sale item.kind)) [
    | inl sale ↦ record {
      kind = refl;
      quantity = refl;
      size = rw sale (omega (arith, base-length));
      event_at = rw sale composite_event;
    }
    | inr other ↦ record {
      kind = refl;
      quantity = refl;
      size = rw other market-length;
      event_at = rw other market_event;
    }
  ]

  HoldAll-map :
      (items : List PatternItem) → HoldAll pattern count items (map (pool_of base market) items)
  unfolding HoldAll
  HoldAll-map [] = tt
  HoldAll-map (item ∷ items) = (pool_of-HoldsEvents item, HoldAll-map items)

  -- Where the task has as many symbols as are active, there is a pool for each of its items, and the
  -- pool holds the events of the active symbols of each source of its kind, source by source: the
  -- symbol itself, and with the suffixes `&A`, `&B` and so on of the regional sources.
  pub make_event_pools-HoldAll :
      HoldAll pattern count pattern.items (make_event_pools pattern count)
  unfolding make_event_pools base market
  make_event_pools-HoldAll = HoldAll-map pattern.items
