-- ===== src/Collector/Measurement.antt =====
-- Measurements: every order of callbacks and reports keeps the delivery counters balanced.
use dxfcxx_event_test.Base.{
  ℕ, ◌+◌, ◌≡◌, refl, sym, subst, inl, inr, Bool, true, false, Option, none, some, List, [], ◌∷◌,
  ◌++◌, arith, Bool-cases,
}
use dxfcxx_event_test.Base.Int.{ℤ}
use dxfcxx_event_test.Text.{Bytes}
use dxfcxx_event_test.Task.{EventKind}
use dxfcxx_event_test.Collector.{
  PendingBatch, Settings, Collector, Received, marker, described, other, no_counters,
  initial_collector,
}
use dxfcxx_event_test.Collector.Samples.{marker_timestamp, on_counters}
use dxfcxx_event_test.Collector.Callbacks.{
  observed_source, add_described, receive, receive_all, count_callback, handle, begin_measurement,
  end_measurement, expired, expire, take_window,
}
use dxfcxx_event_test.Collector.Accounting.{
  timed_one, timed, Ledger, IsBalanced, finish-Ledger, add_event-IsBalanced, add_marker-IsBalanced,
}

observed_source-IsBalanced :
    (s : Settings) (kind : EventKind) (symbol : Bytes) (source : Option ℤ) (at : ℕ) (c : Collector)
    → IsBalanced s c
    → IsBalanced s (observed_source kind symbol source at c)
unfolding observed_source IsBalanced
observed_source-IsBalanced s kind symbol none at c l = l
observed_source-IsBalanced s kind symbol (some time) at c l =
    elim (Bool-cases c.source_time_measuring) [ inl e ↦ rw e l | inr e ↦ rw e l ]

add_described-IsBalanced :
    (s : Settings) (kind : EventKind) (symbol : Bytes) (sequence : Option ℕ) (observed : ℕ)
    (c : Collector)
    → IsBalanced s c
    → IsBalanced s (add_described s kind symbol sequence observed c)
unfolding add_described
add_described-IsBalanced s kind symbol none observed c l = l
add_described-IsBalanced s kind symbol (some sequence) observed c l =
    add_event-IsBalanced s sequence (record { observed = observed; kind = kind; symbol = symbol }) c
      l

receive_all-IsBalanced :
    (s : Settings) (observed : ℕ) (events : List Received) (c : Collector)
    → IsBalanced s c
    → IsBalanced s (receive_all s observed events c)
unfolding receive_all receive
receive_all-IsBalanced s observed [] c l = l
receive_all-IsBalanced s observed (marker sequence text ∷ events) c l =
    receive_all-IsBalanced s observed events _
      (add_marker-IsBalanced s sequence observed (marker_timestamp text) c l)
receive_all-IsBalanced s observed (described kind symbol sequence source ∷ events) c l =
    receive_all-IsBalanced s observed events _ (
      add_described-IsBalanced s kind symbol sequence observed _
        (observed_source-IsBalanced s kind symbol source observed c l))
receive_all-IsBalanced s observed (other ∷ events) c l =
    receive_all-IsBalanced s observed events c l

handle-IsBalanced :
    (s : Settings) (observed : ℕ) (events : List Received) (c : Collector)
    → IsBalanced s c
    → IsBalanced s (handle s observed events c)
unfolding handle count_callback on_counters IsBalanced
handle-IsBalanced s observed events c l = elim (Bool-cases c.measuring) [
  | inl e ↦ rw e (
      receive_all-IsBalanced s observed events _
        (record { events = l.events; publications = l.publications }))
  | inr e ↦ rw e l
]

timed-append : (xs ys : List (ℕ × PendingBatch)) → timed (xs ++ ys) ≡ timed xs + timed ys
unfolding timed timed_one
timed-append [] ys = omega arith
timed-append ((k, b) ∷ xs) ys = omega (arith, timed-append xs ys)

expire-IsBalanced :
    (s : Settings) (expire_all : Bool) (now : ℕ) (kept rest : List (ℕ × PendingBatch))
    (c : Collector)
    → Ledger s (timed kept + timed rest) c.totals
    → IsBalanced s (expire s expire_all now kept rest c)
unfolding expire IsBalanced timed timed_one
expire-IsBalanced s expire_all now kept [] c l = subst (λ n. Ledger s n c.totals) (omega arith) l
expire-IsBalanced s expire_all now kept ((k, b) ∷ rest) c l =
    elim (Bool-cases (expired expire_all now s.batch_timeout_ms b)) [
      | inl e ↦ rw e (
          expire-IsBalanced s expire_all now kept rest _ (
            finish-Ledger s (timed kept + timed rest) b b.timestamp c
              (subst (λ n. Ledger s n c.totals) (omega arith) l)))
      | inr e ↦ rw e (
          expire-IsBalanced s expire_all now (kept ++ (k, b) ∷ []) rest c
            (subst (λ n. Ledger s n c.totals) (omega (arith, timed-append kept ((k, b) ∷ []))) l))
    ]

take_window-IsBalanced :
    (s : Settings) (expire_all : Bool) (now : ℕ) (c : Collector)
    → IsBalanced s c
    → IsBalanced s (take_window s expire_all now c)
unfolding take_window IsBalanced timed
take_window-IsBalanced s expire_all now c l =
    expire-IsBalanced s expire_all now [] c.pending c
      (subst (λ n. Ledger s n c.totals) (omega arith) l)

-- A report with `expireAll` leaves nothing open.
expire-nothing :
    (s : Settings) (now : ℕ) (rest : List (ℕ × PendingBatch)) (c : Collector)
    → (expire s true now [] rest c).pending ≡ []
unfolding expire expired
expire-nothing s now [] c = refl
expire-nothing s now ((k, b) ∷ rest) c = expire-nothing s now rest _

-- The states of a client that measures once: callbacks, one start, then callbacks, the stop and
-- reports in every order.
pub data Before : Collector → Type 0 where
  created : Before initial_collector
  early_callback :
      {c : Collector} (s : Settings) (observed : ℕ) (events : List Received)
      → Before c
      → Before (handle s observed events c)

pub data Measured (s : Settings) : Collector → Type 0 where
  begun : {c : Collector} → Before c → Measured s (begin_measurement c)
  callback :
      {c : Collector} (observed : ℕ) (events : List Received)
      → Measured s c
      → Measured s (handle s observed events c)
  ended : {c : Collector} → Measured s c → Measured s (end_measurement c)
  reported :
      {c : Collector} (expire_all : Bool) (now : ℕ)
      → Measured s c
      → Measured s (take_window s expire_all now c)

Before-unmeasured : {c : Collector} → Before c → (c.measuring ≡ false) × (c.totals ≡ no_counters)
unfolding handle
Before-unmeasured created = (refl, refl)
Before-unmeasured (early_callback {c} s observed events b) =
    let (off, none_counted) = Before-unmeasured b in rw off (refl, none_counted)

-- In every state of a measurement, for every kind: the published events and the excess ones are the
-- delivered, the missing, and those expected of the publications still open; and the published
-- events are those of the full, partial, empty and open publications.
pub Measured-IsBalanced : (s : Settings) {c : Collector} → Measured s c → IsBalanced s c
unfolding begin_measurement end_measurement IsBalanced timed
Measured-IsBalanced s (begun {c} b) =
    let (_, none_counted) = Before-unmeasured b in
    subst (Ledger s 0) (sym none_counted)
      (record { events = λ kind. omega arith; publications = λ kind. omega arith })
Measured-IsBalanced s (callback {c} observed events m) =
    handle-IsBalanced s observed events c (Measured-IsBalanced s m)
Measured-IsBalanced s (ended m) = Measured-IsBalanced s m
Measured-IsBalanced s (reported {c} expire_all now m) =
    take_window-IsBalanced s expire_all now c (Measured-IsBalanced s m)

-- After a report that expires everything no batch is pending, and for every kind the published and
-- the excess events are exactly the delivered and the missing ones.
pub take_window-closes :
    (s : Settings) {c : Collector} (now : ℕ) (kind : EventKind)
    → Measured s c
    → let done = take_window s true now c in
      (done.pending ≡ [])
      × (done.totals.published kind + done.totals.excess kind
          ≡ done.totals.delivered kind + done.totals.listener_deficit kind)
unfolding take_window IsBalanced timed
take_window-closes s {c} now kind m =
    let empty = expire-nothing s now c.pending c in
    let balanced = take_window-IsBalanced s true now c (Measured-IsBalanced s m) in
    let closed = subst (λ p. Ledger s (timed p) (take_window s true now c).totals) empty balanced in
    (empty, omega (arith, closed.events kind))
