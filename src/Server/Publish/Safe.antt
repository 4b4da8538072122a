-- ===== src/Server/Publish/Safe.antt =====
-- A batch never reads a pool out of its range, and counts every one of its events.
use Prim.Native.Nat.{bit_xor}
use dxfcxx_event_test.Base.{
  ℕ, zero, suc, ◌+◌, ◌*◌, ◌%◌, ◌^◌, ◌≤◌, ◌<◌, ◌≡◌, refl, sym, ap, ◌∙◌, subst, inl, inr, Option,
  none, some, List, [], ◌∷◌, ◌++◌, arith, if◌then◌else◌, Bool-cases, length, get_elem?, set,
  length-set, length-append, All,
}
use dxfcxx_event_test.Text.{Bytes, size_limit}
use dxfcxx_event_test.Task.{EventKind, quote, trade, trade_eth, summary, time_and_sale}
use dxfcxx_event_test.Server.{
  subscription_kind, subscription_kind_index, contains, EventPool, PublishedEvent, Marker,
  ActiveTask,
}
use dxfcxx_event_test.Server.Shuffle.{iota}
use dxfcxx_event_test.Server.Shuffle.Order.{
  total, Reordered, length-iota, pool_order-Reordered, length-Reordered, Reordered-lt,
  total-iota-suc,
}
use dxfcxx_event_test.Server.Publish.{
  Batch, Progress, is_time_and_sale, routed, emit_event, source_of, publish_event, publish_events,
  publish_pool, publish_pools, seed_or, back, pool_at, increment, count_last, finished, batch_of,
  publish_in_order, publish,
}

-- One event per base symbol and source; a TimeAndSale has the composite source only.
abbrev pub FitsPool : ℕ → ℕ → EventPool → Type 0
FitsPool base regions pool =
    length pool.events ≡ (if is_time_and_sale pool.kind then base else (regions + 1) * base)

pub record IsReady (a : ActiveTask) : Type 0 where
  pub base-pos : 0 < a.active_symbol_count
  pub pools-fit : All (FitsPool a.active_symbol_count a.pattern.regional_source_count) a.pools
  pub pools-pos : 0 < length a.pools
  pub order-length : length a.pool_order ≡ length a.pools
  pub counts-length : length a.last_block_counts ≡ 6

-- The events that the pools of an order have together.
pub quantity_at : Option EventPool → ℕ
quantity_at none = 0
quantity_at (some pool) = pool.quantity

abbrev pub quantities : List EventPool → List ℕ → ℕ
quantities pools = total (λ index. quantity_at (get_elem? pools index))

get_elem?-lt {ℓ} :
    {A : Type ℓ} (xs : List A) (i : ℕ) → i < length xs → (x : A) × (get_elem? xs i ≡ some x)
get_elem?-lt [] i h = absurd (omega arith)
get_elem?-lt (x ∷ xs) zero h = (x, refl)
get_elem?-lt (x ∷ xs) (suc i) h = get_elem?-lt xs i (omega arith)

some-injective {ℓ} : {A : Type ℓ} {x y : A} → some x ≡ some y → x ≡ y
some-injective h = cc

get_elem?-All {ℓ κ} :
    {A : Type ℓ} (P : A → Type κ) (xs : List A) (i : ℕ) {x : A}
    → All P xs
    → get_elem? xs i ≡ some x
    → P x
get_elem?-All P [] i _ h = cc
get_elem?-All P (y ∷ xs) zero (p, _) h = subst P (some-injective h) p
get_elem?-All P (y ∷ xs) (suc i) (_, p) h = get_elem?-All P xs i p h

source_of-le :
    (kind : EventKind) (regions random : ℕ)
    → (source_of kind regions random).0 ≤ (if is_time_and_sale kind then 0 else regions)
unfolding source_of
source_of-le quote zero random = omega arith
source_of-le quote (suc regions) random = grind arith
source_of-le trade zero random = omega arith
source_of-le trade (suc regions) random = grind arith
source_of-le trade_eth zero random = omega arith
source_of-le trade_eth (suc regions) random = grind arith
source_of-le summary zero random = omega arith
source_of-le summary (suc regions) random = grind arith
source_of-le time_and_sale regions random = omega arith

index_in_range :
    (source base i regions : ℕ)
    → 0 < base
    → source ≤ regions
    → source * base + i % base < (regions + 1) * base
index_in_range source base i regions h le = grind arith

source_in_range :
    (kind : EventKind) (regions base random i : ℕ)
    → 0 < base
    → (source_of kind regions random).0 * base + i % base
      < (if is_time_and_sale kind then base else (regions + 1) * base)
source_in_range kind regions base random i pos = elim (Bool-cases (is_time_and_sale kind)) [
  | inl sale ↦
      let le = rw sale at (source_of-le kind regions random) in
      let none_left : (source_of kind regions random).0 ≡ 0 = omega (arith, le) in
      rw (sale, none_left) (grind arith)
  | inr other ↦ rw other (
      index_in_range (source_of kind regions random).0 base i regions pos
        (rw other at (source_of-le kind regions random)))
]

counted : Progress → ℕ
counted p = p.composite_events + p.regional_events

Grown : ℕ → Progress → Progress → Type 0
Grown n p q = (counted q ≡ counted p + n) × (length q.publication ≤ length p.publication + n)

routed-Grown :
    (source : ℕ) (p : Progress)
    → (counted (routed source p) ≡ counted p + 1) × ((routed source p).publication ≡ p.publication)
unfolding routed counted
routed-Grown zero p = (omega arith, refl)
routed-Grown (suc source) p = (omega arith, refl)

emit_event-Grown :
    (b : Batch) (kind : EventKind) (symbol : Bytes) (p : Progress)
    → (counted (emit_event b kind symbol p) ≡ counted p)
      × (length (emit_event b kind symbol p).publication ≤ length p.publication + 1)
unfolding emit_event counted
emit_event-Grown b kind symbol p = elim (Bool-cases (is_time_and_sale kind)) [
  | inl sale ↦ elim (Bool-cases (contains symbol b.subscribed)) [
    | inl e ↦ rw (sale, e) (refl, one_more _)
    | inr e ↦ rw (sale, e) (refl, omega arith)
  ]
  | inr other ↦ rw other (refl, one_more _)
]
  where
    one_more : (e : PublishedEvent) → length (p.publication ++ e ∷ []) ≤ length p.publication + 1
    one_more e = omega (arith, length-append p.publication (e ∷ []))

publish_event-Grown :
    (b : Batch) (kind : EventKind) (source : ℕ) (symbol : Bytes) (p : Progress)
    → (q : Progress) × (publish_event b kind source (some symbol) p ≡ some q) × Grown 1 p q
unfolding publish_event Grown
publish_event-Grown b kind source symbol p =
    let (count, kept) = routed-Grown source p in
    let (same_count, one) = emit_event-Grown b kind symbol (routed source p) in
    (
      emit_event b kind symbol (routed source p),
      refl,
      (
        same_count ∙ count,
        subst (λ l. length (emit_event b kind symbol (routed source p)).publication ≤ length l + 1)
            kept one,
      ),
    )

publish_events-Grown :
    (b : Batch) (pool : EventPool) (first n i random : ℕ) (p : Progress)
    → 0 < b.base
    → FitsPool b.base b.regions pool
    → (q : Progress) × (publish_events b pool first n i random (some p) ≡ some q) × Grown n p q
unfolding publish_events Grown
publish_events-Grown b pool first zero i random p pos fits = (p, refl, (omega arith, omega arith))
publish_events-Grown b pool first (suc n) i random p pos fits =
    let source = (source_of pool.kind b.regions random).0 in
    let next = (source_of pool.kind b.regions random).1 in
    let index = source * b.base + (first + i) % b.base in
    let (symbol, found) = get_elem?-lt pool.events index (
      subst (λ l. index < l) (sym fits)
        (source_in_range pool.kind b.regions b.base random (first + i) pos)) in
    let (q, one, grown) = publish_event-Grown b pool.kind source symbol p in
    let (r, rest, all) = publish_events-Grown b pool first n (i + 1) next q pos fits in
    (
      r,
      ap (λ o. publish_events b pool first n (i + 1) next (publish_event b pool.kind source o p))
            found
          ∙ ap (publish_events b pool first n (i + 1) next) one
          ∙ rest,
      (omega (arith, all.0, grown.0), omega (arith, all.1, grown.1)),
    )

publish_pools-Grown :
    (b : Batch) (seed : Option ℕ) (publications : ℕ) (pools : List EventPool) (order : List ℕ)
    (p : Progress)
    → 0 < b.base
    → All (FitsPool b.base b.regions) pools
    → All (λ index. index < length pools) order
    → (q : Progress) × (publish_pools b seed publications pools order (some p) ≡ some q)
      × Grown (quantities pools order) p q
unfolding publish_pools publish_pool Grown total quantity_at
publish_pools-Grown b seed publications pools [] p pos fits _ =
    (p, refl, (omega arith, omega arith))
publish_pools-Grown b seed publications pools (index ∷ order) p pos fits (lt, lts) =
    let (pool, found) = get_elem?-lt pools index lt in
    let first = (publications * pool.quantity) % size_limit % b.base in
    let random =
      bit_xor (bit_xor (seed_or 0x22805 seed) publications) ((index * 2 ^ 32) % size_limit) in
    let (q, one, grown) =
      publish_events-Grown b pool first pool.quantity 0 random p pos
        (get_elem?-All (FitsPool b.base b.regions) pools index fits found) in
    let (r, rest, all) = publish_pools-Grown b seed publications pools order q pos fits lts in
    let here : quantity_at (get_elem? pools index) ≡ pool.quantity = ap quantity_at found in
    (
      r,
      ap
            (λ o.
              publish_pools b seed publications pools order
                (publish_pool b seed publications index o p))
            found
          ∙ ap (publish_pools b seed publications pools order) one
          ∙ rest,
      (omega (arith, all.0, grown.0, here), omega (arith, all.1, grown.1, here)),
    )

-- The events of all pools.
pub pool_events : List EventPool → ℕ
pool_events [] = 0
pool_events (pool ∷ pools) = pool.quantity + pool_events pools

quantities-iota :
    (pools : List EventPool) → quantities pools (iota 0 (length pools)) ≡ pool_events pools
unfolding pool_events total iota quantity_at
quantities-iota [] = refl
quantities-iota (pool ∷ pools) = omega (
  arith,
  total-iota-suc (λ index. quantity_at (get_elem? (pool ∷ pools) index)) 0 (length pools),
  quantities-iota pools,
)

back-All :
    {P : ℕ → Type 0} (xs : List ℕ) → 0 < length xs → All P xs → (x : ℕ) × (back xs ≡ some x) × P x
unfolding back
back-All [] h _ = absurd (omega arith)
back-All (x ∷ []) h (px, _) = (x, refl, px)
back-All (x ∷ y ∷ xs) h (_, all) = back-All (y ∷ xs) (omega arith) all

kind_index-lt : (kind : EventKind) → subscription_kind_index (subscription_kind kind) < 6
kind_index-lt quote = omega arith
kind_index-lt trade = omega arith
kind_index-lt trade_eth = omega arith
kind_index-lt summary = omega arith
kind_index-lt time_and_sale = omega arith

increment-within :
    (counts : List ℕ) (i : ℕ)
    → i < length counts
    → (next : List ℕ) × (increment counts i ≡ some next) × (length next ≡ length counts)
unfolding increment
increment-within counts i h =
    let (n, found) = get_elem?-lt counts i h in
    (set counts i (n + 1), rw (found, increment) refl, length-set counts i (n + 1))

quantities-order :
    (a : ActiveTask) (order : List ℕ)
    → Reordered (iota 0 (length a.pools)) order
    → quantities a.pools order ≡ pool_events a.pools
unfolding Reordered
quantities-order a order kept =
    kept (λ index. quantity_at (get_elem? a.pools index)) ∙ quantities-iota a.pools

-- A batch of a ready task always succeeds: no event is read out of its pool. The task stays ready;
-- the composite and the regional events together grow by the events of all pools, whatever the
-- order and the routes; no more than these are published; and the pools stay as they are.
pub publish_lem :
    (max_sequence limit now : ℕ) (subscribed : List Bytes) (a : ActiveTask)
    → IsReady a
    → (next : ActiveTask) × (marker : Marker) × (publish max_sequence limit now subscribed a
        ≡ some (next, marker))
      × IsReady next
      × (next.composite_events + next.regional_events
          ≡ a.composite_events + a.regional_events + pool_events a.pools)
      × (length next.publication ≤ pool_events a.pools)
      × (next.pools ≡ a.pools)
unfolding publish publish_in_order finished pool_at count_last counted Grown
publish_lem max_sequence limit now subscribed a ready =
    let b = batch_of max_sequence limit now subscribed a in
    let seed = a.pattern.shuffle_seed in
    let start : Progress = record {
      publication = [];
      histories = a.time_and_sale_history;
      composite_events = a.composite_events;
      regional_events = a.regional_events;
    } in
    let (order, made, kept_order) =
      pool_order-Reordered seed a.publications (length a.pool_order) in
    let kept : Reordered (iota 0 (length a.pools)) order =
      subst (λ n. Reordered (iota 0 n) order) ready.order-length kept_order in
    let size : length order ≡ length a.pools =
      length-Reordered (iota 0 (length a.pools)) order kept ∙ length-iota 0 (length a.pools) in
    let in_range : All (λ k. k < length a.pools) order = Reordered-lt (length a.pools) order kept in
    let (q, ran, grown) =
      publish_pools-Grown b seed a.publications a.pools order start ready.base-pos ready.pools-fit
        in_range in
    let (last_index, at_back, last_lt) =
      back-All order (subst (λ n. 0 < n) (sym size) ready.pools-pos) in_range in
    let (pool, found) = get_elem?-lt a.pools last_index last_lt in
    let (counts, incremented, counts_size) =
      increment-within a.last_block_counts (subscription_kind_index (subscription_kind pool.kind)) (
        subst (λ n. subscription_kind_index (subscription_kind pool.kind) < n)
          (sym ready.counts-length) (kind_index-lt pool.kind)) in
    let counted_last : count_last (pool_at a.pools (back order)) a.last_block_counts ≡ some counts =
      ap (λ o. count_last (pool_at a.pools o) a.last_block_counts) at_back
      ∙ ap (λ o. count_last o a.last_block_counts) found
      ∙ incremented in
    let sum : quantities a.pools order ≡ pool_events a.pools = quantities-order a order kept in
    (
      _,
      _,
      ap (publish_in_order a b) made
          ∙ ap (finished a b order _) ran
          ∙ ap (λ c. finished a b order c (some q)) counted_last,
      record {
        base-pos = ready.base-pos;
        pools-fit = ready.pools-fit;
        pools-pos = ready.pools-pos;
        order-length = size;
        counts-length = counts_size ∙ ready.counts-length;
      },
      grown.0 ∙ ap (λ n. a.composite_events + a.regional_events + n) sum,
      omega (arith, grown.1, sum),
      refl,
    )
