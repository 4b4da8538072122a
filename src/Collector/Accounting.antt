-- ===== src/Collector/Accounting.antt =====
-- The delivery counters of a measurement balance after every callback and every report.
use dxfcxx_event_test.Base.{
  ℕ, ◌+◌, ◌*◌, ◌≡◌, refl, sym, ap, ◌∙◌, subst, inl, inr, Bool, true, false, ◌&&◌, Option, none,
  some, List, [], ◌∷◌, arith, ltb, ◌==◌, if◌then◌else◌, Bool-cases,
}
use dxfcxx_event_test.Task.{EventKind}
use dxfcxx_event_test.Collector.{PendingEvent, PendingBatch, Counters, Settings, Collector}
use dxfcxx_event_test.Collector.Samples.{
  on_counters, sampled, sample_all, emit_events, emitted, has_expected_composition,
  count_uncorrelated, count_finished, sample_batch, finish,
}
use dxfcxx_event_test.Collector.Batches.{
  find_batch, erase_batch, insert_batch, batch_or_empty, accept_batch, put_back, is_timed,
  with_event, add_event, count_published, count_marker, with_marker, add_marker,
}

unfoldable pub timed_one : Option ℕ → ℕ
timed_one none = 0
timed_one (some time) = 1

-- The pending batches whose marker was seen.
unfoldable pub timed : List (ℕ × PendingBatch) → ℕ
unfolding timed_one
timed [] = 0
timed ((k, b) ∷ m) = timed_one b.timestamp + timed m

-- With `n` publications open: the events that were published are delivered, missing or still open;
-- those beyond are the excess; and every publication is full, partial, empty or open.
pub record Ledger (s : Settings) (n : ℕ) (c : Counters) : Type 0 where
  pub events :
      (kind : EventKind)
      → c.published kind + c.excess kind
        ≡ c.delivered kind + c.listener_deficit kind + s.expected_by_kind kind * n
  pub publications :
      (kind : EventKind)
      → c.published kind
        ≡ s.expected_by_kind kind
          * (c.full_publications + c.partial_publications + c.empty_publications + n)

unfoldable pub IsBalanced : Settings → Collector → Type 0
IsBalanced s c = Ledger s (timed c.pending) c.totals

timed-erase :
    (sequence : ℕ) (m : List (ℕ × PendingBatch))
    → timed m
      ≡ timed_one (batch_or_empty (find_batch sequence m)).timestamp
        + timed (erase_batch sequence m)
unfolding timed timed_one find_batch erase_batch
timed-erase sequence [] = refl
timed-erase sequence ((k, b) ∷ m) = elim (Bool-cases (k == sequence)) [
  | inl e ↦ rw e refl
  | inr e ↦ rw e (omega (arith, timed-erase sequence m))
]

timed-insert :
    (sequence : ℕ) (b : PendingBatch) (m : List (ℕ × PendingBatch))
    → timed (insert_batch sequence b m) ≡ timed_one b.timestamp + timed m
unfolding timed insert_batch
timed-insert sequence b [] = refl
timed-insert sequence b ((k, d) ∷ m) = elim (Bool-cases (ltb sequence k)) [
  | inl e ↦ rw e refl
  | inr e ↦ rw e (omega (arith, timed-insert sequence b m))
]

-- A sample changes no counter of the ledger, and no pending batch.
module _ (s : Settings) (n time : ℕ) where
  sampled-Ledger :
      (e : PendingEvent) (c : Collector)
      → Ledger s n c.totals
      → (Ledger s n (sampled time e c).totals) × ((sampled time e c).pending ≡ c.pending)
  unfolding sampled on_counters
  sampled-Ledger e c l = elim (Bool-cases (ltb e.observed time)) [
    | inl early ↦ rw early (record { events = l.events; publications = l.publications }, refl)
    | inr late ↦ rw late (l, refl)
  ]

  sample_all-Ledger :
      (events : List PendingEvent) (c : Collector)
      → Ledger s n c.totals
      → (Ledger s n (sample_all time events c).totals)
        × ((sample_all time events c).pending ≡ c.pending)
  unfolding sample_all
  sample_all-Ledger [] c l = (l, refl)
  sample_all-Ledger (e ∷ events) c l =
      let (one, kept) = sampled-Ledger e c l in
      let (all, still) = sample_all-Ledger events (sampled time e c) one in (all, still ∙ kept)

emit_events-Ledger :
    (s : Settings) (n : ℕ) (time : Option ℕ) (events : List PendingEvent) (c : Collector)
    → Ledger s n c.totals
    → (Ledger s n (emit_events time events c).totals)
      × ((emit_events time events c).pending ≡ c.pending)
unfolding emit_events
emit_events-Ledger s n none events c l = (l, refl)
emit_events-Ledger s n (some time) events c l = sample_all-Ledger s n time events c l

one_more :
    (complete empty : Bool) (f p e : ℕ)
    → (if complete then f + 1 else f)
        + (if complete then p else if empty then p else p + 1)
        + (if complete then e else if empty then e + 1 else e)
      ≡ f + p + e + 1
one_more true empty f p e = omega arith
one_more false true f p e = omega arith
one_more false false f p e = omega arith

count_finished-Ledger :
    (s : Settings) (n : ℕ) (b : PendingBatch) (c : Counters)
    → Ledger s (1 + n) c
    → Ledger s n (count_finished s b c)
unfolding count_finished
count_finished-Ledger s n b c l = record {
  events = λ kind. omega (arith, l.events kind);
  publications = λ kind.
      l.publications kind
      ∙ ap (λ t. s.expected_by_kind kind * t)
          (omega (
            arith,
            one_more (has_expected_composition s b) (b.received == 0) c.full_publications
                c.partial_publications c.empty_publications,
          ));
}

sample_batch-Ledger :
    (s : Settings) (n time : ℕ) (b : PendingBatch) (c : Collector)
    → Ledger s n c.totals
    → Ledger s n (sample_batch time b c).totals
unfolding sample_batch on_counters
sample_batch-Ledger s n time b c l = elim (Bool-cases (b.received == 0)) [
  | inl e ↦ rw e l
  | inr e ↦ elim (Bool-cases (ltb b.last_observed time)) [
    | inl early ↦ rw (e, early) (record { events = l.events; publications = l.publications })
    | inr late ↦ rw (e, late) l
  ]
]

pub finish-Ledger :
    (s : Settings) (n : ℕ) (b : PendingBatch) (time : Option ℕ) (c : Collector)
    → Ledger s (timed_one time + n) c.totals
    → Ledger s n (finish s b time c).totals
unfolding finish timed_one on_counters count_uncorrelated
finish-Ledger s n b none c l =
    let same_n : Ledger s n c.totals = subst (λ k. Ledger s k c.totals) (omega arith) l in
    record { events = same_n.events; publications = same_n.publications }
finish-Ledger s n b (some time) c l =
    let emitted_c = emit_events (some time) b.events c in
    let (kept, _) = emit_events-Ledger s (1 + n) (some time) b.events c l in
    sample_batch-Ledger s n time b (on_counters (count_finished s b) emitted_c)
      (count_finished-Ledger s n b emitted_c.totals kept)

put_back-IsBalanced :
    (s : Settings) (finished : Bool) (sequence : ℕ) (b : PendingBatch) (c : Collector)
    → Ledger s (timed_one b.timestamp + timed (erase_batch sequence c.pending)) c.totals
    → IsBalanced s (put_back s finished sequence b c)
unfolding put_back IsBalanced
put_back-IsBalanced s true sequence b c l =
    finish-Ledger s (timed (erase_batch sequence c.pending)) b b.timestamp c l
put_back-IsBalanced s false sequence b c l =
    subst (λ n. Ledger s n c.totals)
      (sym (timed-insert sequence b (erase_batch sequence c.pending))) l

emitted-timestamp : (time : Option ℕ) (b : PendingBatch) → (emitted time b).timestamp ≡ b.timestamp
unfolding emitted
emitted-timestamp none b = refl
emitted-timestamp (some time) b = refl

-- After the events of a batch are emitted it goes back, or is finished.
emit_put_back-IsBalanced :
    (s : Settings) (finished : Bool) (sequence : ℕ) (b : PendingBatch) (c : Collector)
    → Ledger s (timed_one b.timestamp + timed (erase_batch sequence c.pending)) c.totals
    → IsBalanced s
        (put_back s finished sequence (emitted b.timestamp b) (emit_events b.timestamp b.events c))
emit_put_back-IsBalanced s finished sequence b c l =
    let (kept, pending) =
      emit_events-Ledger s (timed_one b.timestamp + timed (erase_batch sequence c.pending))
        b.timestamp b.events c l in
    put_back-IsBalanced s finished sequence (emitted b.timestamp b)
      (emit_events b.timestamp b.events c)
      (subst (λ n. Ledger s n (emit_events b.timestamp b.events c).totals)
        (ap (λ t. timed_one t + timed (erase_batch sequence c.pending))
            (sym (emitted-timestamp b.timestamp b))
          ∙ ap (λ p. timed_one (emitted b.timestamp b).timestamp + timed (erase_batch sequence p))
              (sym pending))
        kept)

pub add_event-IsBalanced :
    (s : Settings) (sequence : ℕ) (e : PendingEvent) (c : Collector)
    → IsBalanced s c
    → IsBalanced s (add_event s sequence e c)
unfolding add_event with_event IsBalanced
add_event-IsBalanced s sequence e c l = elim (Bool-cases (accept_batch sequence c)) [
  | inl yes_accepted ↦
      let b = with_event e (batch_or_empty (find_batch sequence c.pending)) in
      rw yes_accepted (
        emit_put_back-IsBalanced s (is_timed b.timestamp && has_expected_composition s b) sequence b
          c (subst (λ n. Ledger s n c.totals) (timed-erase sequence c.pending) l))
  | inr refused ↦ rw refused l
]

count_marker-Ledger :
    (s : Settings) (n : ℕ) (time : Option ℕ) (c : Collector)
    → Ledger s (timed_one time + n) c.totals
    → (Ledger s (1 + n) (count_marker s time c).totals)
      × ((count_marker s time c).pending ≡ c.pending)
unfolding count_marker count_published on_counters timed_one
count_marker-Ledger s n none c l = (
  record {
    events = λ kind. grind (arith, l.events kind);
    publications = λ kind. grind (arith, l.publications kind);
  },
  refl,
)
count_marker-Ledger s n (some time) c l = (l, refl)

pub add_marker-IsBalanced :
    (s : Settings) (sequence observed : ℕ) (time : Option ℕ) (c : Collector)
    → IsBalanced s c
    → IsBalanced s (add_marker s sequence observed time c)
unfolding add_marker with_marker IsBalanced timed_one
add_marker-IsBalanced s sequence observed none c l = l
add_marker-IsBalanced s sequence observed (some time) c l =
    elim (Bool-cases (accept_batch sequence c)) [
      | inl yes_accepted ↦
          let old = batch_or_empty (find_batch sequence c.pending) in
          let b = with_marker time observed old in
          let others = timed (erase_batch sequence c.pending) in
          let (counted, kept) =
            count_marker-Ledger s others old.timestamp c
              (subst (λ n. Ledger s n c.totals) (timed-erase sequence c.pending) l) in
          rw yes_accepted (
            emit_put_back-IsBalanced s (has_expected_composition s b) sequence b
              (count_marker s old.timestamp c)
              (subst
                (λ p.
                  Ledger s (1 + timed (erase_batch sequence p))
                    (count_marker s old.timestamp c).totals)
                (sym kept) counted))
      | inr refused ↦ rw refused l
    ]
