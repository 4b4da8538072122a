-- ===== src/Server/Worker/Invariant.antt =====
-- What holds in every state that the loop of `Generator::run` reaches.
use dxfcxx_event_test.Base.{
  ℕ, ◌*◌, ◌<◌, ◌≡◌, refl, sym, ap, ◌∙◌, length-set, subst, ◌≢◌, ◌⊎◌, inl, inr, true, Option, none,
  some, List, [], ◌∷◌, arith, ltb, Bool-cases, Result, ok, err, length, All,
}
use dxfcxx_event_test.Text.{Bytes}
use dxfcxx_event_test.Task.{PatternItem, TaskPattern, ParseError, symbol_count}
use dxfcxx_event_test.Task.Parse.{parse_task}
use dxfcxx_event_test.Task.Parse.Items.{IsPositive, AreValid}
use dxfcxx_event_test.Task.Parse.Valid.{parse_task-IsValid}
use dxfcxx_event_test.Task.Symbols.{market_symbols}
use dxfcxx_event_test.Server.{
  start, stop, symbols_added, symbols_removed, subscription_closed, CommandType, Command,
  SubscriptionKind, subscription_kind_index, quotes, trades, trade_eths, summaries, profiles,
  time_and_sales, ActiveTask, PendingTask,
}
use dxfcxx_event_test.Server.Publish.Safe.{IsReady, publish_lem}
use dxfcxx_event_test.Server.Schedule.{advance}
use dxfcxx_event_test.Server.Shuffle.Order.{length-iota}
use dxfcxx_event_test.Server.Pools.{
  value_or, quantities_fit, resolve_active_symbol_count, subscribed_to, subscriptions_ready,
  make_event_pools, make_event_pools-FitsPool, length-make_event_pools,
}
use dxfcxx_event_test.Server.Worker.{
  Settings, Worker, Output, initial_worker, activated, start_when_ready, pending_task,
  accepted_task, handle_start, stops, stop_pending, stop_active, handle_subscription,
  handle_command, on_command, rescheduled, published, on_deadline, Input, command_at, deadline_at,
  step,
}

-- A task that can start: it has items, and events to publish on.
pub record IsStartable (p : PendingTask) : Type 0 where
  pub items-pos : 0 < length p.pattern.items
  pub count-pos : 0 < p.active_symbol_count

-- A waiting and a running task exclude each other.
abbrev Sound : Option ActiveTask → Option PendingTask → Type 0
Sound none none = Unit
Sound none (some p) = IsStartable p
Sound (some a) none = IsReady a
Sound (some a) (some p) = ⊥

pub IsSound : Worker → Type 0
IsSound w = Sound w.active w.pending

pub activated-IsReady : (p : PendingTask) → IsStartable p → IsReady (activated p)
unfolding activated
activated-IsReady p s = record {
  base-pos = s.count-pos;
  pools-fit = make_event_pools-FitsPool p.pattern p.active_symbol_count;
  pools-pos =
      subst (λ n. 0 < n) (sym (length-make_event_pools p.pattern p.active_symbol_count))
        s.items-pos;
  order-length = length-iota 0 (length (make_event_pools p.pattern p.active_symbol_count));
  counts-length = refl;
}

start_when_ready-IsSound :
    (now : ℕ) (active : Option ActiveTask) (pending : Option PendingTask) (w : Worker)
    → active ≡ w.active
    → pending ≡ w.pending
    → IsSound w
    → IsSound (start_when_ready now active pending w).0
unfolding start_when_ready IsSound
start_when_ready-IsSound now active none w ea ep s = s
start_when_ready-IsSound now (some a) (some p) w ea ep s = s
start_when_ready-IsSound now none (some p) w ea ep s =
    elim (Bool-cases (subscriptions_ready p w.subscribed)) [
      | inl e ↦
          let startable : IsStartable p =
            subst (λ o. Sound o (some p)) (sym ea) (subst (λ o. Sound w.active o) (sym ep) s) in
          rw e (activated-IsReady p startable)
      | inr e ↦ rw e s
    ]

length-pos {ℓ} : {A : Type ℓ} (xs : List A) → xs ≢ [] → 0 < length xs
length-pos [] h = absurd (h refl)
length-pos (x ∷ xs) h = omega arith

quantities_fit-pos :
    (count : ℕ) (items : List PatternItem)
    → items ≢ []
    → All IsPositive items
    → quantities_fit count items ≡ true
    → 0 < count
unfolding quantities_fit
quantities_fit-pos count [] ne _ h = absurd (ne refl)
quantities_fit-pos count (item ∷ items) ne (positive, _) h = ground arith

resolve-pos :
    (active : Option ℕ) (pattern : TaskPattern) {count : ℕ}
    → AreValid pattern.items
    → resolve_active_symbol_count active pattern ≡ some count
    → 0 < count
unfolding resolve_active_symbol_count
resolve-pos active pattern {count} v h =
    let wanted = value_or (symbol_count pattern) active in
    elim (Bool-cases (ltb (symbol_count pattern) wanted)) [
      | inl e ↦ absurd (ground arith)
      | inr e ↦ elim (Bool-cases (quantities_fit wanted pattern.items)) [
        | inl f ↦
            let same_count : wanted ≡ count = ground arith in
            subst (λ n. 0 < n) same_count
              (quantities_fit-pos wanted pattern.items v.nonempty v.positive f)
        | inr f ↦ absurd (ground arith)
      ]
    ]

pending_task-Sound :
    (text : Bytes) (pattern : TaskPattern) (count : Option ℕ) (market : Option (List Bytes))
    → 0 < length pattern.items
    → ((n : ℕ) → count ≡ some n → 0 < n)
    → Sound none (pending_task text pattern count market)
unfolding pending_task
pending_task-Sound text pattern none market items pos = tt
pending_task-Sound text pattern (some n) none items pos = tt
pending_task-Sound text pattern (some n) (some m) items pos = record {
  items-pos = items;
  count-pos = pos n refl;
}

accepted_task-Sound :
    (c : Settings) (text : Bytes) (parsed : Result ParseError TaskPattern)
    → parse_task text ≡ parsed
    → Sound none (accepted_task c text parsed)
unfolding accepted_task
accepted_task-Sound c text (err e) h = tt
accepted_task-Sound c text (ok pattern) h =
    let v = (parse_task-IsValid text h).items in
    pending_task-Sound text pattern (resolve_active_symbol_count c.active_symbol_count pattern)
      (market_symbols pattern) (length-pos pattern.items v.nonempty)
      (λ n e. resolve-pos c.active_symbol_count pattern v e)

handle_start-IsSound :
    (c : Settings) (text : Bytes) (active : Option ActiveTask) (pending : Option PendingTask)
    (w : Worker)
    → active ≡ w.active
    → IsSound w
    → IsSound (handle_start c text active pending w)
unfolding handle_start IsSound
handle_start-IsSound c text none none w e s =
    subst (λ o. Sound o (accepted_task c text (parse_task text))) e
      (accepted_task-Sound c text (parse_task text) refl)
handle_start-IsSound c text (some a) pending w e s = s
handle_start-IsSound c text none (some p) w e s = s

stop-Sound :
    (text : Bytes) (active : Option ActiveTask) (pending : Option PendingTask)
    → Sound active pending
    → Sound (stop_active text active) (stop_pending text pending)
unfolding stop_active stop_pending
stop-Sound text none none s = tt
stop-Sound text none (some p) s = elim (Bool-cases (stops text p.command)) [
  | inl e ↦ rw e tt
  | inr e ↦ rw e s
]
stop-Sound text (some a) none s = elim (Bool-cases (stops text a.command)) [
  | inl e ↦ rw e tt
  | inr e ↦ rw e s
]
stop-Sound text (some a) (some p) s = absurd s

handle_command-IsSound :
    (c : Settings) (type : CommandType) (command : Command) (w : Worker)
    → IsSound w
    → IsSound (handle_command c type command w).0
unfolding handle_command handle_subscription IsSound
handle_command-IsSound c start command w s =
    handle_start-IsSound c command.text w.active w.pending w refl s
handle_command-IsSound c stop command w s = stop-Sound command.text w.active w.pending s
handle_command-IsSound c symbols_added command w s = s
handle_command-IsSound c symbols_removed command w s = s
handle_command-IsSound c subscription_closed command w s = s

on_command-IsSound :
    (c : Settings) (now : ℕ) (command : Command) (w : Worker)
    → IsSound w
    → IsSound (on_command c now command w).0
unfolding on_command
on_command-IsSound c now command w s =
    let handled = (handle_command c command.type command w).0 in
    start_when_ready-IsSound now handled.active handled.pending handled refl refl
      (handle_command-IsSound c command.type command w s)

-- The sets of the subscribed symbols stay as many.
KeepsSets : Worker → Worker → Type 0
KeepsSets w next = length next.subscribed ≡ length w.subscribed

start_when_ready-KeepsSets :
    (now : ℕ) (active : Option ActiveTask) (pending : Option PendingTask) (w : Worker)
    → KeepsSets w (start_when_ready now active pending w).0
unfolding start_when_ready KeepsSets
start_when_ready-KeepsSets now active none w = refl
start_when_ready-KeepsSets now (some a) (some p) w = refl
start_when_ready-KeepsSets now none (some p) w =
    elim (Bool-cases (subscriptions_ready p w.subscribed)) [ inl e ↦ rw e refl | inr e ↦ rw e refl ]

handle_start-KeepsSets :
    (c : Settings) (text : Bytes) (active : Option ActiveTask) (pending : Option PendingTask)
    (w : Worker)
    → KeepsSets w (handle_start c text active pending w)
unfolding handle_start KeepsSets
handle_start-KeepsSets c text none none w = refl
handle_start-KeepsSets c text (some a) pending w = refl
handle_start-KeepsSets c text none (some p) w = refl

handle_command-KeepsSets :
    (c : Settings) (type : CommandType) (command : Command) (w : Worker)
    → KeepsSets w (handle_command c type command w).0
unfolding handle_command handle_subscription KeepsSets
handle_command-KeepsSets c start command w =
    handle_start-KeepsSets c command.text w.active w.pending w
handle_command-KeepsSets c stop command w = refl
handle_command-KeepsSets c symbols_added command w = length-set w.subscribed _ _
handle_command-KeepsSets c symbols_removed command w = length-set w.subscribed _ _
handle_command-KeepsSets c subscription_closed command w = length-set w.subscribed _ _

on_command-KeepsSets :
    (c : Settings) (now : ℕ) (command : Command) (w : Worker)
    → KeepsSets w (on_command c now command w).0
unfolding on_command KeepsSets
on_command-KeepsSets c now command w =
    let handled = (handle_command c command.type command w).0 in
    start_when_ready-KeepsSets now handled.active handled.pending handled
    ∙ handle_command-KeepsSets c command.type command w

Succeeds : Worker → Option (Worker × List Output) → Type 0
Succeeds w result =
    (next : Worker) × (sent : List Output) × (result ≡ some (next, sent))
    × IsSound next
    × KeepsSets w next

rescheduled-IsSound :
    (w : Worker) (a : ActiveTask) (deadline : Option (ℕ × ℕ))
    → IsReady a
    → w.pending ≡ none
    → IsSound (rescheduled w a deadline) × KeepsSets w (rescheduled w a deadline)
unfolding rescheduled IsSound KeepsSets
rescheduled-IsSound w a none ready idle = (subst (λ o. Sound (some a) o) (sym idle) ready, refl)
rescheduled-IsSound w a (some (next_tick, skipped)) ready idle = (
  subst (λ o. Sound (rescheduled w a (some (next_tick, skipped))).active o) (sym idle)
      (record {
        base-pos = ready.base-pos;
        pools-fit = ready.pools-fit;
        pools-pos = ready.pools-pos;
        order-length = ready.order-length;
        counts-length = ready.counts-length;
      }),
  refl,
)

running :
    (a : ActiveTask) (pending : Option PendingTask)
    → Sound (some a) pending
    → (IsReady a) × (pending ≡ none)
running a none s = (s, refl)
running a (some p) s = absurd s

on_deadline-Succeeds :
    (c : Settings) (now wall later : ℕ) (active : Option ActiveTask) (tick : Option ℕ) (w : Worker)
    → active ≡ w.active
    → IsSound w
    → Succeeds w (on_deadline c now wall later active tick w)
unfolding on_deadline Succeeds IsSound published KeepsSets
on_deadline-Succeeds c now wall later none tick w e s = (w, [], refl, s, refl)
on_deadline-Succeeds c now wall later (some a) none w e s = (w, [], refl, s, refl)
on_deadline-Succeeds c now wall later (some a) (some tick) w e s =
    elim (Bool-cases (ltb now tick)) [
      | inl early ↦ rw early (w, [], refl, s, refl)
      | inr due ↦
          let (ready, idle) = running a w.pending (subst (λ o. Sound o w.pending) (sym e) s) in
          let (next, marker, ran, next_ready, _, _, _) =
            publish_lem c.max_sequence c.time_series_history_limit wall
              (subscribed_to time_and_sales w.subscribed) a ready in
          let period = a.pattern.publish_period * 1_000_000 in
          let (sound, kept) =
            rescheduled-IsSound w next (advance tick period later) next_ready idle in
          rw due (_, _, ap (published w tick period later) ran, sound, kept)
    ]

step-Succeeds :
    (c : Settings) (input : Input) (w : Worker) → IsSound w → Succeeds w (step c input w)
unfolding step Succeeds
step-Succeeds c (command_at now command) w s =
    (_, _, refl, on_command-IsSound c now command w s, on_command-KeepsSets c now command w)
step-Succeeds c (deadline_at now wall later) w s =
    on_deadline-Succeeds c now wall later w.active w.next_tick w refl s

-- The states that the loop reaches, with every order of commands and deadlines.
pub data Reachable (c : Settings) : Worker → Type 0 where
  initially : Reachable c initial_worker
  then_step :
      {w next : Worker} {sent : List Output} (input : Input)
      → Reachable c w
      → step c input w ≡ some (next, sent)
      → Reachable c next

pub Reachable-IsSound :
    (c : Settings) {w : Worker} → Reachable c w → IsSound w × (length w.subscribed ≡ 6)
unfolding IsSound initial_worker Succeeds KeepsSets
Reachable-IsSound c initially = (tt, refl)
Reachable-IsSound c (then_step {w} {next} input r e) =
    let (sound_before, sets) = Reachable-IsSound c r in
    let (next_worker, sent, ran, sound, kept) = step-Succeeds c input w sound_before in
    let same_worker : next_worker ≡ next = ground arith in
    subst (λ v. IsSound v × (length v.subscribed ≡ 6)) same_worker (sound, kept ∙ sets)

-- In every state that the loop reaches, whatever the commands, the subscriptions and the clock, no
-- task runs while another one waits; there is a set of subscribed symbols for each subscription
-- kind; and the next turn, with any input, runs to its end without an access outside the orders,
-- the pools, the events and the counters of a batch.
pub Reachable-step :
    (c : Settings) {w : Worker} (input : Input)
    → Reachable c w
    → ((w.active ≡ none) ⊎ (w.pending ≡ none))
      × ((kind : SubscriptionKind) → subscription_kind_index kind < length w.subscribed)
      × ((next : Worker) × (sent : List Output) × (step c input w ≡ some (next, sent)))
unfolding Succeeds IsSound
Reachable-step c {w} input r =
    let (sound, sets) = Reachable-IsSound c r in
    let (next, sent, ran, _, _) = step-Succeeds c input w sound in
    (
      exclusive w.active w.pending sound,
      λ kind. omega (arith, sets, index-lt kind),
      (next, sent, ran),
    )
  where
    exclusive :
        (active : Option ActiveTask) (pending : Option PendingTask)
        → Sound active pending
        → (active ≡ none) ⊎ (pending ≡ none)
    exclusive none pending s = inl refl
    exclusive (some a) none s = inr refl
    exclusive (some a) (some p) s = absurd s

    index-lt : (kind : SubscriptionKind) → subscription_kind_index kind < 6
    index-lt quotes = omega arith
    index-lt trades = omega arith
    index-lt trade_eths = omega arith
    index-lt summaries = omega arith
    index-lt profiles = omega arith
    index-lt time_and_sales = omega arith
