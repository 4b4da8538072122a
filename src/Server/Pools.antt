-- ===== src/Server/Pools.antt =====
-- src/server.cpp: `makeEventPools`, and the checks of the subscribed and active symbols before it.
pub mod Entries
use dxfcxx_event_test.Base.{
  ℕ, ◌+◌, ◌-◌, ◌*◌, ◌≡◌, ap, ◌∙◌, Bool, true, false, ◌&&◌, ◌||◌, Option, none, some, List, [], ◌∷◌,
  ◌++◌, map, arith, ltb, leb, if◌then◌else◌, length, get_elem?, set, take, replicate, length-append,
  length-take, length-replicate, length-map, All,
}
use dxfcxx_event_test.Text.{Bytes}
use dxfcxx_event_test.Task.{PatternItem, TaskPattern, symbol_count}
use dxfcxx_event_test.Task.Symbols.{symbols, regional_blocks}
use dxfcxx_event_test.Task.Symbols.Universe.{length-regional_blocks}
use dxfcxx_event_test.Server.{
  contains, subscription_kind_index, subscription_kind, SubscriptionKind, profiles, EventPool,
  PendingTask,
}
use dxfcxx_event_test.Server.Publish.{is_time_and_sale}
use dxfcxx_event_test.Server.Publish.Safe.{FitsPool}

-- `pools`: no quantity is larger than the active symbol count.
unfoldable pub quantities_fit : ℕ → List PatternItem → Bool
quantities_fit count [] = true
quantities_fit count (item ∷ items) = leb item.quantity count && quantities_fit count items

abbrev pub value_or : ℕ → Option ℕ → ℕ
value_or default none = default
value_or default (some n) = n

-- `resolveActiveSymbolCount`; `none` is an exception, which is only reported.
unfoldable pub resolve_active_symbol_count : Option ℕ → TaskPattern → Option ℕ
unfolding quantities_fit
resolve_active_symbol_count active_symbol_count pattern =
    let count = value_or (symbol_count pattern) active_symbol_count in
    if ltb (symbol_count pattern) count
    then none
    else if quantities_fit count pattern.items
    then some count
    else none

-- The six sets of subscribed symbols, by the kind's number.
abbrev pub Subscriptions : Type 0
Subscriptions = List (List Bytes)

subscribed_or_none : Option (List Bytes) → List Bytes
subscribed_or_none none = []
subscribed_or_none (some set) = set

unfoldable pub subscribed_to : SubscriptionKind → Subscriptions → List Bytes
unfolding subscribed_or_none
subscribed_to kind sets = subscribed_or_none (get_elem? sets (subscription_kind_index kind))

unfoldable pub contains_every : List Bytes → List Bytes → Bool
contains_every set [] = true
contains_every set (s ∷ symbols) = contains s set && contains_every set symbols

-- `containsAll`.
unfoldable pub contains_all : SubscriptionKind → List Bytes → Subscriptions → Bool
unfolding contains_every
contains_all kind symbols sets = contains_every (subscribed_to kind sets) symbols

unfoldable pub items_ready : List PatternItem → List Bytes → Subscriptions → Bool
items_ready [] market_symbols sets = true
items_ready (item ∷ items) market_symbols sets =
    (is_time_and_sale item.kind || contains_all (subscription_kind item.kind) market_symbols sets)
    && items_ready items market_symbols sets

-- `subscriptionsReady`.
unfoldable pub subscriptions_ready : PendingTask → Subscriptions → Bool
unfolding items_ready
subscriptions_ready pending sets =
    contains_all profiles pending.profile_symbols sets
    && items_ready pending.pattern.items pending.market_symbols sets

-- `std::vector::resize`, which adds empty strings where it grows.
unfoldable pub resize : ℕ → List Bytes → List Bytes
resize n list = take n list ++ replicate (n - length list) []

unfoldable pub pool_of : List Bytes → List Bytes → PatternItem → EventPool
pool_of base_symbols market_symbols item = record {
  kind = item.kind;
  quantity = item.quantity;
  events = if is_time_and_sale item.kind then base_symbols else market_symbols;
}

-- `makeEventPools`.
unfoldable pub make_event_pools : TaskPattern → ℕ → List EventPool
unfolding resize pool_of
make_event_pools pattern active_symbol_count =
    let base_symbols = resize active_symbol_count (symbols pattern) in
    let market_symbols =
      base_symbols ++ regional_blocks base_symbols 0 pattern.regional_source_count in
    map (pool_of base_symbols market_symbols) pattern.items

pub length-resize : (n : ℕ) (list : List Bytes) → length (resize n list) ≡ n
unfolding resize
length-resize n list = omega (
  arith,
  length-append (take n list) (replicate (n - length list) []),
  length-take n list,
  length-replicate {A = Bytes} (n - length list) [],
)

pools-fit :
    (base_symbols market_symbols : List Bytes) (base regions : ℕ) (items : List PatternItem)
    → length base_symbols ≡ base
    → length market_symbols ≡ (regions + 1) * base
    → All (FitsPool base regions) (map (pool_of base_symbols market_symbols) items)
unfolding pool_of
pools-fit base_symbols market_symbols base regions [] hb hm = tt
pools-fit base_symbols market_symbols base regions (item ∷ items) hb hm = (
  one (is_time_and_sale item.kind),
  pools-fit base_symbols market_symbols base regions items hb hm,
)
  where
    one :
        (t : Bool)
        → length (if t then base_symbols else market_symbols)
          ≡ (if t then base else (regions + 1) * base)
    one true = hb
    one false = hm

-- The pools have as many events as the sources of their kind times the active symbols.
pub make_event_pools-FitsPool :
    (pattern : TaskPattern) (count : ℕ)
    → All (FitsPool count pattern.regional_source_count) (make_event_pools pattern count)
unfolding make_event_pools
make_event_pools-FitsPool pattern count =
    let base_symbols = resize count (symbols pattern) in
    let size = length-resize count (symbols pattern) in
    let blocks = regional_blocks base_symbols 0 pattern.regional_source_count in
    let regional : length blocks ≡ count * pattern.regional_source_count =
      length-regional_blocks base_symbols 0 pattern.regional_source_count
      ∙ ap (λ n. n * pattern.regional_source_count) size in
    pools-fit base_symbols (base_symbols ++ blocks) count pattern.regional_source_count
      pattern.items size (length-append base_symbols blocks ∙ grind (arith, size, regional))

pub length-make_event_pools :
    (pattern : TaskPattern) (count : ℕ)
    → length (make_event_pools pattern count) ≡ length pattern.items
unfolding make_event_pools
length-make_event_pools pattern count =
    let base_symbols = resize count (symbols pattern) in
    length-map
      (pool_of base_symbols
        (base_symbols ++ regional_blocks base_symbols 0 pattern.regional_source_count))
      pattern.items
