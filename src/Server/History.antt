-- ===== src/Server/History.antt =====
-- src/server.cpp: `retainTimeAndSale` and `publishTimeSeriesSnapshots`.
-- A history is kept per symbol in an association list, its records with the oldest first. The event
-- flags of dxFeed are four Booleans here.
pub mod Retained
pub mod Snapshot
use dxfcxx_event_test.Base.{
  ℕ, zero, suc, ◌+◌, ◌-◌, ◌*◌, ◌/◌, ◌%◌, ◌^◌, ◌≤◌, ◌<◌, min, max, ◌≡◌, refl, sym, ap, ◌∙◌, subst,
  ◌≢◌, ◌↔◌, ◌⊎◌, inl, inr, Bool, true, false, not, ◌&&◌, ◌||◌, Option, none, some, List, [], ◌∷◌,
  ◌++◌, map, reverse, append-nil, append_assoc, arith, ltb, leb, ◌==◌, if◌then◌else◌, ltb→lt,
  lt→ltb, ltb→ge, ge→ltb, leb→le, ==_iff, ==_refl, ne→==, Bool-cases, Option-cases, Result, ok, err,
  ◌>>=◌, ◌>>◌, guard, >>=-eq-ok, length, get_elem?, set, take, drop, replicate, length-append,
  length-reverse, length-take, length-drop, length-replicate, take-length-append,
  drop-length-append, length-set, length-map, All, All-append, All-reverse, All-mono,
}
use dxfcxx_event_test.Base.Int.{
  ℤ, pos, negsuc, pos_part, neg_part, sub_ℕ, ◌-ℤ◌, ◌≤ℤ◌, ltb_ℤ, leb_ℤ, -ℤ_parts,
}
use dxfcxx_event_test.Text.{
  Bytes, codes, same, starts_with, ends_with, remove_suffix, substr, find, find_from, is_digit,
  value, to_string, zero_padded, size_limit, int64_limit, Scan, invalid, out_of_range, scanned,
  span_digits, scan_u64, scan_i64, scanned_all,
}
use dxfcxx_event_test.Server.{TimeAndSaleRecord, TimeAndSaleHistory}

abbrev pub Histories : Type 0
Histories = List (Bytes × TimeAndSaleHistory)

unfoldable pub find_history : Bytes → Histories → Option TimeAndSaleHistory
find_history symbol [] = none
find_history symbol ((s, h) ∷ m) = if same s symbol then some h else find_history symbol m

-- `push_back`, and `pop_front` behind the limit.
unfoldable pub append_record : ℕ → TimeAndSaleRecord → TimeAndSaleHistory → TimeAndSaleHistory
append_record limit entry h =
    let records = h.records ++ entry ∷ [] in
    if ltb limit (length records)
    then record { records = drop 1 records; truncated = true }
    else record h { records = records }

abbrev no_history : TimeAndSaleHistory
no_history = record { records = []; truncated = false }

-- `active.timeAndSaleHistory[symbol]` makes an empty history for a new symbol.
unfoldable pub retain : ℕ → Bytes → TimeAndSaleRecord → Histories → Histories
unfolding append_record
retain limit symbol entry [] = (symbol, append_record limit entry no_history) ∷ []
retain limit symbol entry ((s, h) ∷ m) =
    if same s symbol
    then (s, append_record limit entry h) ∷ m
    else (s, h) ∷ retain limit symbol entry m

-- `SNAPSHOT_BEGIN`, `SNAPSHOT_END`, `SNAPSHOT_SNIP` and `REMOVE_EVENT`.
pub record Flags : Type 0 where
  pub begins : Bool
  pub ends : Bool
  pub snips : Bool
  pub removes : Bool

abbrev pub no_flags : Flags
no_flags = record { begins = false; ends = false; snips = false; removes = false }

-- What the event carries: a retained record, or the lower bound of the request.
pub data Payload : Type 0 where
  retained : TimeAndSaleRecord → Payload
  boundary : ℤ → Payload

pub record SnapshotEvent : Type 0 where
  pub symbol : Bytes
  pub payload : Payload
  pub flags : Flags

abbrev pub time_ms : TimeAndSaleRecord → ℤ
time_ms r = pos (r.time_nanos / 1_000_000)

-- From the newest record on, up to the first that is older than the request.
unfoldable pub recent : ℤ → List TimeAndSaleRecord → List TimeAndSaleRecord
recent from [] = []
recent from (r ∷ rs) = if ltb_ℤ (time_ms r) from then [] else r ∷ recent from rs

unfoldable pub retained_event : Bytes → TimeAndSaleRecord → SnapshotEvent
retained_event symbol r = record { symbol = symbol; payload = retained r; flags = no_flags }

-- `snapshot[first]->setEventFlags(SNAPSHOT_BEGIN)`.
unfoldable pub mark_first : List SnapshotEvent → List SnapshotEvent
mark_first [] = []
mark_first (e ∷ es) = record e { flags = record no_flags { begins = true } } ∷ es

-- `last->setEventFlags(last->getEventFlags() | SNAPSHOT_SNIP)`.
unfoldable pub mark_last : List SnapshotEvent → List SnapshotEvent
mark_last [] = []
mark_last (e ∷ []) = record e { flags = record e.flags { snips = true } } ∷ []
mark_last (e ∷ f ∷ es) = e ∷ mark_last (f ∷ es)

unfoldable pub boundary_event : Bytes → ℤ → Bool → SnapshotEvent
boundary_event symbol from alone = record {
  symbol = symbol;
  payload = boundary from;
  flags = record { begins = alone; ends = true; snips = false; removes = true };
}

abbrev pub is_empty {ℓ} : {A : Type ℓ} → List A → Bool
is_empty [] = true
is_empty (x ∷ xs) = false

-- The oldest record is newer than the request, and older ones were dropped.
unfoldable pub front_after : ℤ → List TimeAndSaleRecord → Bool
front_after from [] = false
front_after from (r ∷ rs) = ltb_ℤ from (time_ms r)

-- The events for one request; an absent history behaves as an empty one.
unfoldable pub snapshot_of : Bytes → ℤ → TimeAndSaleHistory → List SnapshotEvent
unfolding recent retained_event mark_first mark_last boundary_event front_after
snapshot_of symbol from h =
    let is_truncated = h.truncated && front_after from h.records in
    let events = mark_first (map (retained_event symbol) (recent from (reverse h.records))) in
    if is_truncated && not (is_empty events)
    then mark_last events
    else events ++ boundary_event symbol from (is_empty events) ∷ []

unfoldable pub history_or_none : Option TimeAndSaleHistory → TimeAndSaleHistory
history_or_none none = no_history
history_or_none (some h) = h

-- The events of all requests, in their order; the code publishes them at once.
unfoldable pub snapshots : Histories → List (Bytes × ℤ) → List SnapshotEvent
unfolding snapshot_of history_or_none find_history
snapshots m [] = []
snapshots m ((symbol, from) ∷ requests) =
    snapshot_of symbol from (history_or_none (find_history symbol m)) ++ snapshots m requests
