-- ===== src/Server.antt =====
-- src/server.cpp: the data of the load generator. An event object of a pool is told by its kind and
-- symbol; `Profile`, `TextMessage` and the other dxFeed types are kept to the fields that the code
-- sets. Durations, which are only reported, are left out.
pub mod Random
pub mod Shuffle
pub mod History
pub mod Publish
pub mod Schedule
pub mod Pools
pub mod Worker
pub mod Config
mod Tests
use dxfcxx_event_test.Base.{
  ℕ, zero, suc, ◌+◌, ◌-◌, ◌*◌, ◌/◌, ◌%◌, ◌^◌, ◌≤◌, ◌<◌, min, max, ◌≡◌, refl, sym, ap, ◌∙◌, subst,
  ◌≢◌, ◌↔◌, ◌⊎◌, inl, inr, Bool, true, false, not, ◌&&◌, ◌||◌, Option, none, some, List, [], ◌∷◌,
  ◌++◌, map, reverse, append-nil, append_assoc, arith, ltb, leb, ◌==◌, if◌then◌else◌, ltb→lt,
  lt→ltb, ltb→ge, ge→ltb, leb→le, ==_iff, ==_refl, ne→==, Bool-cases, Option-cases, Result, ok, err,
  ◌>>=◌, ◌>>◌, guard, >>=-eq-ok, length, get_elem?, set, take, drop, replicate, length-append,
  length-reverse, length-take, length-drop, length-replicate, take-length-append,
  drop-length-append, length-set, length-map, All, All-append, All-reverse, All-mono,
}
use dxfcxx_event_test.Base.Int.{
  ℤ, pos, negsuc, pos_part, neg_part, sub_ℕ, ◌-ℤ◌, ◌≤ℤ◌, ltb_ℤ, leb_ℤ, -ℤ_parts,
}
use dxfcxx_event_test.Text.{
  Bytes, codes, same, starts_with, ends_with, remove_suffix, substr, find, find_from, is_digit,
  value, to_string, zero_padded, size_limit, int64_limit, Scan, invalid, out_of_range, scanned,
  span_digits, scan_u64, scan_i64, scanned_all,
}
use dxfcxx_event_test.Task.{EventKind, TaskPattern, quote, trade, trade_eth, summary, time_and_sale}

pub data SubscriptionKind : Type 0 where
  quotes trades trade_eths summaries profiles time_and_sales : SubscriptionKind

-- `subscriptionKindIndex`: the enumerator's number.
abbrev pub subscription_kind_index : SubscriptionKind → ℕ
subscription_kind_index quotes = 0
subscription_kind_index trades = 1
subscription_kind_index trade_eths = 2
subscription_kind_index summaries = 3
subscription_kind_index profiles = 4
subscription_kind_index time_and_sales = 5

abbrev pub subscription_kind : EventKind → SubscriptionKind
subscription_kind quote = quotes
subscription_kind trade = trades
subscription_kind trade_eth = trade_eths
subscription_kind summary = summaries
subscription_kind time_and_sale = time_and_sales

pub data CommandType : Type 0 where
  start stop symbols_added symbols_removed subscription_closed : CommandType

pub record Command : Type 0 where
  pub type : CommandType
  pub text : Bytes
  pub subscription : SubscriptionKind
  pub symbols : List Bytes
  pub time_series_requests : List (Bytes × ℤ)

-- `std::unordered_set<std::string>`, as the list of its elements.
unfoldable pub contains : Bytes → List Bytes → Bool
contains s [] = false
contains s (t ∷ set) = same t s || contains s set

unfoldable pub insert : Bytes → List Bytes → List Bytes
unfolding contains
insert s set = if contains s set then set else s ∷ set

unfoldable pub erase : Bytes → List Bytes → List Bytes
erase s [] = []
erase s (t ∷ set) = if same t s then erase s set else t ∷ erase s set

pub record EventPool : Type 0 where
  pub kind : EventKind
  pub quantity : ℕ
  pub events : List Bytes

-- The price is kept as the offset that is added to 100.
pub record TimeAndSaleRecord : Type 0 where
  pub time_nanos : ℕ
  pub sequence : ℕ
  pub price : ℕ

pub record TimeAndSaleHistory : Type 0 where
  pub records : List TimeAndSaleRecord
  pub truncated : Bool

-- An event of a publication: its kind, its symbol and the fields that `publish` sets: the number
-- of the batch (the bid size of a Quote, the day of a Summary), the time where the kind has one, and
-- the price, again as an offset.
pub record PublishedEvent : Type 0 where
  pub kind : EventKind
  pub symbol : Bytes
  pub sequence : ℕ
  pub time_nanos : Option ℕ
  pub price : ℕ

pub record Marker : Type 0 where
  pub time_ms : ℕ
  pub sequence : ℕ
  pub text : Bytes

pub record ActiveTask : Type 0 where
  pub command : Bytes
  pub pattern : TaskPattern
  pub active_symbol_count : ℕ
  pub pools : List EventPool
  pub publication : List PublishedEvent
  pub pool_order : List ℕ
  pub last_block_counts : List ℕ
  pub time_and_sale_history : List (Bytes × TimeAndSaleHistory)
  pub composite_events : ℕ
  pub regional_events : ℕ
  pub tick : ℕ
  pub publications : ℕ
  pub skipped_deadlines : ℕ

pub record PendingTask : Type 0 where
  pub command : Bytes
  pub pattern : TaskPattern
  pub active_symbol_count : ℕ
  pub profile_symbols : List Bytes
  pub market_symbols : List Bytes
