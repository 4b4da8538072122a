-- ===== src/Server/Worker.antt =====
-- src/server.cpp: the loop of `Generator::run` as a step on its state. The queue and the clock
-- deliver the inputs; an output is what goes to the publisher. Logging is left out.
pub mod Invariant
use dxfcxx_event_test.Base.{
  ℕ, zero, suc, ◌+◌, ◌-◌, ◌*◌, ◌/◌, ◌%◌, ◌^◌, ◌≤◌, ◌<◌, min, max, ◌≡◌, refl, sym, ap, ◌∙◌, subst,
  ◌≢◌, ◌↔◌, ◌⊎◌, inl, inr, Bool, true, false, not, ◌&&◌, ◌||◌, Option, none, some, List, [], ◌∷◌,
  ◌++◌, map, reverse, append-nil, append_assoc, arith, ltb, leb, ◌==◌, if◌then◌else◌, ltb→lt,
  lt→ltb, ltb→ge, ge→ltb, leb→le, ==_iff, ==_refl, ne→==, Bool-cases, Option-cases, Result, ok, err,
  ◌>>=◌, ◌>>◌, guard, >>=-eq-ok, length, get_elem?, set, take, drop, replicate, length-append,
  length-reverse, length-take, length-drop, length-replicate, take-length-append,
  drop-length-append, length-set, length-map, All, All-append, All-reverse, All-mono,
}
use dxfcxx_event_test.Base.Int.{ℤ}
use dxfcxx_event_test.Text.{
  Bytes, codes, same, starts_with, ends_with, remove_suffix, substr, find, find_from, is_digit,
  value, to_string, zero_padded, size_limit, int64_limit, Scan, invalid, out_of_range, scanned,
  span_digits, scan_u64, scan_i64, scanned_all,
}
use dxfcxx_event_test.Task.{TaskPattern, ParseError, event_count, marker_symbol}
use dxfcxx_event_test.Task.Parse.{parse_task}
use dxfcxx_event_test.Task.Symbols.{symbols, market_symbols}
use dxfcxx_event_test.Server.{
  SubscriptionKind, time_and_sales, subscription_kind_index, CommandType, start, stop,
  symbols_added, symbols_removed, subscription_closed, Command, insert, erase, Marker,
  PublishedEvent, ActiveTask, PendingTask,
}
use dxfcxx_event_test.Server.Shuffle.{iota}
use dxfcxx_event_test.Server.Schedule.{advance}
use dxfcxx_event_test.Server.History.{SnapshotEvent, snapshots}
use dxfcxx_event_test.Server.Publish.{publish}
use dxfcxx_event_test.Server.Pools.{
  resolve_active_symbol_count, Subscriptions, subscribed_to, subscriptions_ready, make_event_pools,
}

-- The generator's settings, and `TextMessage::MAX_SEQUENCE` of dxFeed.
pub record Settings : Type 0 where
  pub max_sequence : ℕ
  pub time_series_history_limit : ℕ
  pub active_symbol_count : Option ℕ

-- The deadline is `none` once it has left its type; what C++ does then is undefined, and the model
-- publishes no more until the next task.
pub record Worker : Type 0 where
  pub active : Option ActiveTask
  pub pending : Option PendingTask
  pub subscribed : Subscriptions
  pub next_tick : Option ℕ

-- A call of `publisher_->publishEvents`.
pub data Output : Type 0 where
  initial_profiles : List Bytes → Output
  snapshot : List SnapshotEvent → Output
  batch : Bytes → List PublishedEvent → Marker → Output

pub initial_worker : Worker
initial_worker = record {
  active = none;
  pending = none;
  subscribed = replicate 6 [];
  next_tick = some 0;
}

-- `active.emplace`.
unfoldable pub activated : PendingTask → ActiveTask
unfolding make_event_pools iota
activated p =
    let pools = make_event_pools p.pattern p.active_symbol_count in
    record {
      command = p.command;
      pattern = p.pattern;
      active_symbol_count = p.active_symbol_count;
      pools = pools;
      publication = [];
      pool_order = iota 0 (length pools);
      last_block_counts = replicate 6 0;
      time_and_sale_history = [];
      composite_events = 0;
      regional_events = 0;
      tick = 0;
      publications = 0;
      skipped_deadlines = 0;
    }

abbrev profiles_of : TaskPattern → List Output
profiles_of pattern = elim (symbols pattern) [
  | [] ↦ []
  | s ∷ rest ↦ initial_profiles (s ∷ rest) ∷ []
]

-- `startWhenReady`, at the clock `now`.
unfoldable pub start_when_ready :
    ℕ → Option ActiveTask → Option PendingTask → Worker → Worker × List Output
unfolding activated
start_when_ready now active none w = (w, [])
start_when_ready now (some a) (some p) w = (w, [])
start_when_ready now none (some p) w =
    if subscriptions_ready p w.subscribed
    then (
      record w { active = some (activated p); pending = none; next_tick = some now },
      profiles_of p.pattern,
    )
    else (w, [])

unfoldable pub pending_task :
    Bytes → TaskPattern → Option ℕ → Option (List Bytes) → Option PendingTask
pending_task text pattern none market = none
pending_task text pattern (some count) none = none
pending_task text pattern (some count) (some market) = some (record {
  command = text;
  pattern = pattern;
  active_symbol_count = count;
  profile_symbols = symbols pattern;
  market_symbols = market;
})

-- The task of a START; a text that does not parse, a count that does not fit or an overflow is
-- rejected with a message only.
unfoldable pub accepted_task : Settings → Bytes → Result ParseError TaskPattern → Option PendingTask
unfolding pending_task
accepted_task c text (err e) = none
accepted_task c text (ok pattern) =
    pending_task text pattern (resolve_active_symbol_count c.active_symbol_count pattern)
      (market_symbols pattern)

unfoldable pub handle_start :
    Settings → Bytes → Option ActiveTask → Option PendingTask → Worker → Worker
unfolding accepted_task
handle_start c text none none w = record w { pending = accepted_task c text (parse_task text) }
handle_start c text (some a) pending w = w
handle_start c text none (some p) w = w

-- An empty text stops any task.
unfoldable pub stops : Bytes → Bytes → Bool
stops [] command = true
stops (x ∷ text) command = same command (x ∷ text)

unfoldable pub stop_pending : Bytes → Option PendingTask → Option PendingTask
unfolding stops
stop_pending text none = none
stop_pending text (some p) = if stops text p.command then none else some p

unfoldable pub stop_active : Bytes → Option ActiveTask → Option ActiveTask
unfolding stops
stop_active text none = none
stop_active text (some a) = if stops text a.command then none else some a

insert_all : List Bytes → List Bytes → List Bytes
insert_all [] set = set
insert_all (s ∷ symbols) set = insert_all symbols (insert s set)

erase_all : List Bytes → List Bytes → List Bytes
erase_all [] set = set
erase_all (s ∷ symbols) set = erase_all symbols (erase s set)

unfoldable pub updated : CommandType → List Bytes → List Bytes → List Bytes
unfolding insert_all erase_all
updated symbols_added symbols set = insert_all symbols set
updated symbols_removed symbols set = erase_all symbols set
updated subscription_closed symbols set = []
updated start symbols set = set
updated stop symbols set = set

-- The snapshot for new time series of an active task.
requested : CommandType → SubscriptionKind → Option ActiveTask → List (Bytes × ℤ) → List Output
requested symbols_added time_and_sales (some a) (r ∷ requests) =
    snapshot (snapshots a.time_and_sale_history (r ∷ requests)) ∷ []
requested type kind active requests = []

unfoldable pub handle_subscription : Command → Worker → Worker × List Output
unfolding updated requested
handle_subscription command w =
    let kind = command.subscription in
    let subscribed = updated command.type command.symbols (subscribed_to kind w.subscribed) in
    (
      record w { subscribed = set w.subscribed (subscription_kind_index kind) subscribed },
      requested command.type kind w.active command.time_series_requests,
    )

unfoldable pub handle_command : Settings → CommandType → Command → Worker → Worker × List Output
unfolding handle_start stop_pending stop_active handle_subscription
handle_command c start command w = (handle_start c command.text w.active w.pending w, [])
handle_command c stop command w = (
  record w {
    active = stop_active command.text w.active;
    pending = stop_pending command.text w.pending;
  },
  [],
)
handle_command c symbols_added command w = handle_subscription command w
handle_command c symbols_removed command w = handle_subscription command w
handle_command c subscription_closed command w = handle_subscription command w

-- One turn of the loop with a command in the queue.
unfoldable pub on_command : Settings → ℕ → Command → Worker → Worker × List Output
unfolding handle_command start_when_ready
on_command c now command w =
    let (handled, sent) = handle_command c command.type command w in
    let (started, profiles) = start_when_ready now handled.active handled.pending handled in
    (started, sent ++ profiles)

-- The deadline after a batch, and the skipped ones.
unfoldable pub rescheduled : Worker → ActiveTask → Option (ℕ × ℕ) → Worker
rescheduled w a none = record w { active = some a; next_tick = none }
rescheduled w a (some (next_tick, skipped)) = record w {
  active = some (record a { skipped_deadlines = (a.skipped_deadlines + skipped) % size_limit });
  next_tick = some next_tick;
}

unfoldable pub published :
    Worker → ℕ → ℕ → ℕ → Option (ActiveTask × Marker) → Option (Worker × List Output)
unfolding rescheduled advance
published w tick period now none = none
published w tick period now (some (a, marker)) = some (
  rescheduled w a (advance tick period now),
  batch (marker_symbol a.command) a.publication marker ∷ [],
)

-- One turn with an empty queue: the clock is `now` before the batch, `wall` is the time of its
-- events, and `later` is the clock after it. `none` is an access outside a vector.
unfoldable pub on_deadline :
    Settings → ℕ → ℕ → ℕ → Option ActiveTask → Option ℕ → Worker → Option (Worker × List Output)
unfolding published publish subscribed_to
on_deadline c now wall later none tick w = some (w, [])
on_deadline c now wall later (some a) none w = some (w, [])
on_deadline c now wall later (some a) (some tick) w =
    if ltb now tick
    then some (w, [])
    else published w tick (a.pattern.publish_period * 1_000_000) later (
        publish c.max_sequence c.time_series_history_limit wall
          (subscribed_to time_and_sales w.subscribed) a)

-- What the queue and the clock give the loop.
pub data Input : Type 0 where
  command_at : ℕ → Command → Input
  deadline_at : ℕ → ℕ → ℕ → Input

unfoldable pub step : Settings → Input → Worker → Option (Worker × List Output)
unfolding on_command on_deadline
step c (command_at now command) w = some (on_command c now command w)
step c (deadline_at now wall later) w = on_deadline c now wall later w.active w.next_tick w
