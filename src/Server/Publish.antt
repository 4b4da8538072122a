-- ===== src/Server/Publish.antt =====
-- src/server.cpp: `Generator::publish`, a batch of events of every pool and its marker.
-- The clock and `TextMessage::MAX_SEQUENCE` are arguments. An access out of a vector's range, which
-- is undefined in C++, makes the result `none`.
pub mod Safe
use Prim.Native.Nat.{bit_xor}
use dxfcxx_event_test.Base.{
  ℕ, zero, suc, ◌+◌, ◌-◌, ◌*◌, ◌/◌, ◌%◌, ◌^◌, ◌≤◌, ◌<◌, min, max, ◌≡◌, refl, sym, ap, ◌∙◌, subst,
  ◌≢◌, ◌↔◌, ◌⊎◌, inl, inr, Bool, true, false, not, ◌&&◌, ◌||◌, Option, none, some, List, [], ◌∷◌,
  ◌++◌, map, reverse, append-nil, append_assoc, arith, ltb, leb, ◌==◌, if◌then◌else◌, ltb→lt,
  lt→ltb, ltb→ge, ge→ltb, leb→le, ==_iff, ==_refl, ne→==, Bool-cases, Option-cases, Result, ok, err,
  ◌>>=◌, ◌>>◌, guard, >>=-eq-ok, length, get_elem?, set, take, drop, replicate, length-append,
  length-reverse, length-take, length-drop, length-replicate, take-length-append,
  drop-length-append, length-set, length-map, All, All-append, All-reverse, All-mono,
}
use dxfcxx_event_test.Text.{
  Bytes, codes, same, starts_with, ends_with, remove_suffix, substr, find, find_from, is_digit,
  value, to_string, zero_padded, size_limit, int64_limit, Scan, invalid, out_of_range, scanned,
  span_digits, scan_u64, scan_i64, scanned_all,
}
use dxfcxx_event_test.Task.{EventKind, TaskPattern, quote, trade, trade_eth, summary, time_and_sale}
use dxfcxx_event_test.Server.{
  contains, subscription_kind, subscription_kind_index, EventPool, TimeAndSaleRecord,
  PublishedEvent, Marker, ActiveTask,
}
use dxfcxx_event_test.Server.Random.{next_random}
use dxfcxx_event_test.Server.Shuffle.{pool_order}
use dxfcxx_event_test.Server.History.{Histories, retain}

-- What the events of one batch share.
pub record Batch : Type 0 where
  pub sequence : ℕ
  pub now : ℕ
  pub tick : ℕ
  pub limit : ℕ
  pub subscribed : List Bytes
  pub base : ℕ
  pub regions : ℕ

-- What the loop over the events changes.
pub record Progress : Type 0 where
  pub publication : List PublishedEvent
  pub histories : Histories
  pub composite_events : ℕ
  pub regional_events : ℕ

abbrev stamped_time : EventKind → ℕ → Option ℕ
stamped_time quote now = none
stamped_time summary now = none
stamped_time kind now = some now

abbrev pub is_time_and_sale : EventKind → Bool
is_time_and_sale time_and_sale = true
is_time_and_sale kind = false

stamped : Batch → EventKind → Bytes → PublishedEvent
stamped b kind symbol = record {
  kind = kind;
  symbol = symbol;
  sequence = b.sequence;
  time_nanos = stamped_time kind b.now;
  price = b.tick % 100;
}

unfoldable pub routed : ℕ → Progress → Progress
routed zero p = record p { composite_events = p.composite_events + 1 }
routed (suc source) p = record p { regional_events = p.regional_events + 1 }

-- The event's fields; a TimeAndSale is retained, and published only if it is subscribed.
unfoldable pub emit_event : Batch → EventKind → Bytes → Progress → Progress
unfolding stamped
emit_event b kind symbol p =
    let published = p.publication ++ stamped b kind symbol ∷ [] in
    let entry : TimeAndSaleRecord = record {
      time_nanos = b.now;
      sequence = b.sequence;
      price = b.tick % 100;
    } in
    let histories = retain b.limit symbol entry p.histories in
    if is_time_and_sale kind
    then if contains symbol b.subscribed
      then record p { publication = published; histories = histories }
      else record p { histories = histories }
    else record p { publication = published }

-- The source of an event, composite or regional, and the random state after it.
unfoldable pub source_of : EventKind → ℕ → ℕ → ℕ × ℕ
source_of time_and_sale regions random = (0, random)
source_of kind zero random = (0, random)
source_of kind (suc regions) random =
    let (value, next) = next_random random in (value % (suc regions + 1), next)

unfoldable pub publish_event : Batch → EventKind → ℕ → Option Bytes → Progress → Option Progress
unfolding emit_event routed
publish_event b kind source none p = none
publish_event b kind source (some symbol) p = some (emit_event b kind symbol (routed source p))

-- `for (i = 0; i < pool.quantity; ++i)`, with `n` iterations left.
unfoldable pub publish_events :
    Batch → EventPool → ℕ → ℕ → ℕ → ℕ → Option Progress → Option Progress
unfolding publish_event source_of
publish_events b pool first zero i random p = p
publish_events b pool first (suc n) i random none = none
publish_events b pool first (suc n) i random (some p) =
    let base_index = (first + i) % b.base in
    let (source, next) = source_of pool.kind b.regions random in
    publish_events b pool first n (i + 1) next
      (publish_event b pool.kind source (get_elem? pool.events (source * b.base + base_index)) p)

abbrev pub seed_or : ℕ → Option ℕ → ℕ
seed_or default none = default
seed_or default (some seed) = seed

unfoldable pub publish_pool :
    Batch → Option ℕ → ℕ → ℕ → Option EventPool → Progress → Option Progress
unfolding publish_events
publish_pool b seed publications index none p = none
publish_pool b seed publications index (some pool) p =
    let first = (publications * pool.quantity) % size_limit % b.base in
    let random =
      bit_xor (bit_xor (seed_or 0x22805 seed) publications) ((index * 2 ^ 32) % size_limit) in
    publish_events b pool first pool.quantity 0 random (some p)

unfoldable pub publish_pools :
    Batch → Option ℕ → ℕ → List EventPool → List ℕ → Option Progress → Option Progress
unfolding publish_pool
publish_pools b seed publications pools [] p = p
publish_pools b seed publications pools (index ∷ order) none = none
publish_pools b seed publications pools (index ∷ order) (some p) =
    publish_pools b seed publications pools order
      (publish_pool b seed publications index (get_elem? pools index) p)

unfoldable pub back : List ℕ → Option ℕ
back [] = none
back (x ∷ []) = some x
back (x ∷ y ∷ xs) = back (y ∷ xs)

unfoldable pub pool_at : List EventPool → Option ℕ → Option EventPool
pool_at pools none = none
pool_at pools (some index) = get_elem? pools index

-- `++counts[i]`.
unfoldable pub increment : List ℕ → ℕ → Option (List ℕ)
increment counts i = elim (get_elem? counts i) [
  | none ↦ none
  | some n ↦ some (set counts i (n + 1))
]

-- `++active.lastBlockCounts[subscriptionKindIndex(subscriptionKind(lastKind))]`.
unfoldable pub count_last : Option EventPool → List ℕ → Option (List ℕ)
unfolding increment
count_last none counts = none
count_last (some pool) counts =
    increment counts (subscription_kind_index (subscription_kind pool.kind))

-- The task and the marker after the batch; the publication goes out before the marker.
unfoldable pub finished :
    ActiveTask → Batch → List ℕ → Option (List ℕ) → Option Progress → Option (ActiveTask × Marker)
finished a b order none p = none
finished a b order (some counts) none = none
finished a b order (some counts) (some p) = some (
  record a {
    tick = b.tick;
    publication = p.publication;
    pool_order = order;
    last_block_counts = counts;
    time_and_sale_history = p.histories;
    composite_events = p.composite_events;
    regional_events = p.regional_events;
    publications = (a.publications + 1) % size_limit;
  },
  record {
    time_ms = b.now / 1_000_000;
    sequence = b.sequence;
    text = codes "LATENCY_BATCH:" ++ to_string b.now;
  },
)

unfoldable pub batch_of : ℕ → ℕ → ℕ → List Bytes → ActiveTask → Batch
batch_of max_sequence limit now subscribed a =
    let tick = (a.tick + 1) % 2 ^ 32 in
    record {
      sequence = tick % max_sequence;
      now = now;
      tick = tick;
      limit = limit;
      subscribed = subscribed;
      base = a.active_symbol_count;
      regions = a.pattern.regional_source_count;
    }

-- The batch in an order of the pools.
unfoldable pub publish_in_order :
    ActiveTask → Batch → Option (List ℕ) → Option (ActiveTask × Marker)
unfolding publish_pools finished back pool_at count_last codes to_string
publish_in_order a b none = none
publish_in_order a b (some order) =
    let start : Progress = record {
      publication = [];
      histories = a.time_and_sale_history;
      composite_events = a.composite_events;
      regional_events = a.regional_events;
    } in
    finished a b order (count_last (pool_at a.pools (back order)) a.last_block_counts)
      (publish_pools b a.pattern.shuffle_seed a.publications a.pools order (some start))

unfoldable pub publish : ℕ → ℕ → ℕ → List Bytes → ActiveTask → Option (ActiveTask × Marker)
unfolding batch_of publish_in_order pool_order
publish max_sequence limit now subscribed a =
    publish_in_order a (batch_of max_sequence limit now subscribed a)
      (pool_order a.pattern.shuffle_seed a.publications (length a.pool_order))
