-- ===== src/SourceTime/Accepted.antt =====
-- What the three selections of `observe` accept and reject.
use dxfcxx_event_test.Base.{
  ◌<◌, ◌-◌, ◌*◌, ◌/◌, sym, ap, ◌∙◌, append-nil, append_assoc, ℕ, zero, suc, ◌+◌, ◌≤◌, ◌≡◌, refl,
  subst, inl, inr, Bool, true, false, Option, none, some, List, [], ◌∷◌, ◌++◌, arith, ltb,
  if◌then◌else◌, ltb→lt, ltb→ge, Bool-cases, length, length-append, All, All-mono,
}
use dxfcxx_event_test.Base.Int.{ℤ, pos, negsuc, pos_part}
use dxfcxx_event_test.Text.{Bytes, same}
use dxfcxx_event_test.SourceTime.{
  Snapshot, Comparison, Observation, reset, lookup_series, store_series, advances, series_key,
  milliseconds_of, latency_ms, latency_ns, append_all, append_series, append_global, observe_at,
  observe_time, observe, observe_list,
}

-- A last time is not newer than the global one.
abbrev NotNewer : ℕ → Option ℕ → Type 0
NotNewer v none = ⊥
NotNewer v (some g) = v ≤ g

abbrev NoneNewer : Option ℕ → List (Bytes × ℕ) → Type 0
NoneNewer g m = All (λ (e : Bytes × ℕ). NotNewer e.1 g) m

-- Every observation that counts is accepted or rejected by each selection; the global selection
-- accepts no more than the selection by series; no counter of clamped values exceeds its samples.
pub record Balanced (s : Snapshot) : Type 0 where
  pub by_series : length s.per_series_monotonic + s.per_series_rejected ≡ length s.all
  pub globally : length s.global_monotonic + s.global_rejected ≡ length s.all
  pub fewer : length s.global_monotonic ≤ length s.per_series_monotonic
  pub clamped_all : s.negative_clamped.at_0 ≤ length s.all
  pub clamped_series : s.negative_clamped.at_1 ≤ length s.per_series_monotonic
  pub clamped_global : s.negative_clamped.at_2 ≤ length s.global_monotonic

pub record Inv (c : Comparison) : Type 0 where
  pub balanced : Balanced c.samples
  pub none_newer : NoneNewer c.last_global c.last_by_series

lookup_series-NotNewer :
    (key : Bytes) (g : Option ℕ) (m : List (Bytes × ℕ)) (v : ℕ)
    → NoneNewer g m
    → lookup_series key m ≡ some v
    → NotNewer v g
unfolding lookup_series
lookup_series-NotNewer key g [] v h e = absurd (cc)
lookup_series-NotNewer key g ((k, w) ∷ m) v (h, hs) e = elim (Bool-cases (same k key)) [
  | inl hit ↦ let w_v : w ≡ v = ground arith in subst (λ x. NotNewer x g) w_v h
  | inr miss ↦ lookup_series-NotNewer key g m v hs (ground arith)
]

-- What is new to the whole stream is new to its series.
newest_is_fresh :
    (time : ℕ) (g o : Option ℕ)
    → ((v : ℕ) → o ≡ some v → NotNewer v g)
    → advances time g ≡ true
    → advances time o ≡ true
newest_is_fresh time g none h n = refl
newest_is_fresh time none (some v) h n = absurd (h v refl)
newest_is_fresh time (some w) (some v) h n = ground (arith, h v refl)

after_newest : ℕ → Option ℕ → Option ℕ
after_newest time g = if advances time g then some time else g

NotNewer-step : (v time : ℕ) (g : Option ℕ) → NotNewer v g → NotNewer v (after_newest time g)
unfolding after_newest
NotNewer-step v time none h = absurd h
NotNewer-step v time (some w) h = elim (Bool-cases (ltb w time)) [
  | inl e ↦ rw e (omega (arith, ltb→lt w time e, h))
  | inr e ↦ rw e h
]

NotNewer-time : (time : ℕ) (g : Option ℕ) → NotNewer time (after_newest time g)
unfolding after_newest
NotNewer-time time none = omega arith
NotNewer-time time (some w) = elim (Bool-cases (ltb w time)) [
  | inl e ↦ rw e (omega arith)
  | inr e ↦ rw e (ltb→ge w time e)
]

NotNewer-stored :
    (v time : ℕ) (g : Option ℕ)
    → NotNewer v g
    → NotNewer (if ltb v time then time else v) (after_newest time g)
NotNewer-stored v time g h = elim (Bool-cases (ltb v time)) [
  | inl e ↦ rw e (NotNewer-time time g)
  | inr e ↦ rw e (NotNewer-step v time g h)
]

store_series-NoneNewer :
    (key : Bytes) (time : ℕ) (g : Option ℕ) (m : List (Bytes × ℕ))
    → NoneNewer g m
    → NoneNewer (after_newest time g) (store_series key time m)
unfolding store_series
store_series-NoneNewer key time g [] h = (NotNewer-time time g, tt)
store_series-NoneNewer key time g ((k, v) ∷ m) (h, hs) = elim (Bool-cases (same k key)) [
  | inl hit ↦
      rw hit (NotNewer-stored v time g h, All-mono _ _ (λ e n. NotNewer-step e.1 time g n) m hs)
  | inr miss ↦ rw miss (NotNewer-step v time g h, store_series-NoneNewer key time g m hs)
]

length-snoc : (xs : List ℕ) (x : ℕ) → length (xs ++ x ∷ []) ≡ length xs + 1
length-snoc xs x = length-append xs (x ∷ [])

append-Balanced :
    (latency : ℤ) (fresh newest : Bool) (s : Snapshot)
    → (newest ≡ true → fresh ≡ true)
    → Balanced s
    → Balanced (append_global latency newest (append_series latency fresh (append_all latency s)))
unfolding append_all append_series append_global
append-Balanced latency true true s h b = ground (
  arith,
  length-snoc s.all (latency_ns latency),
  length-snoc s.per_series_monotonic (latency_ns latency),
  length-snoc s.global_monotonic (latency_ns latency),
)
append-Balanced latency true false s h b = ground (
  arith,
  length-snoc s.all (latency_ns latency),
  length-snoc s.per_series_monotonic (latency_ns latency),
)
append-Balanced latency false true s h b = absurd (cc (h refl))
append-Balanced latency false false s h b = ground (arith, length-snoc s.all (latency_ns latency))

observe_time-Inv : (o : Observation) (t : ℤ) (c : Comparison) → Inv c → Inv (observe_time o t c)
unfolding observe_time after_newest
observe_time-Inv o (pos zero) c v = v
observe_time-Inv o (negsuc n) c v = v
observe_time-Inv o (pos (suc n)) c v =
    let key = series_key o.kind o.symbol in
    record {
      balanced =
          append-Balanced (latency_ms o.observed_at_ns (suc n)) _ _ c.samples
            (newest_is_fresh (suc n) c.last_global (lookup_series key c.last_by_series)
              (λ w e. lookup_series-NotNewer key c.last_global c.last_by_series w v.none_newer e))
            v.balanced;
      none_newer = store_series-NoneNewer key (suc n) c.last_global c.last_by_series v.none_newer;
    }

reset-Inv : (c : Comparison) → Inv (reset c)
unfolding reset
reset-Inv c = record { balanced = omega arith; none_newer = tt }

observe_list-Inv : (c : Comparison) (os : List Observation) → Inv c → Inv (observe_list c os)
unfolding observe_list observe
observe_list-Inv c [] v = v
observe_list-Inv c (o ∷ os) v =
    observe_list-Inv (observe c o) os (observe_time-Inv o o.source_time_ms c v)

-- The latency of an observation in nanoseconds, of whole milliseconds and at least 0; one without a
-- positive source time has none.
sample_of : ℤ → ℤ → List ℕ
sample_of observed (pos zero) = []
sample_of observed (negsuc n) = []
sample_of observed (pos (suc n)) = (pos_part observed / 1_000_000 - suc n) * 1_000_000 ∷ []

pub samples_of : List Observation → List ℕ
samples_of [] = []
samples_of (o ∷ os) = sample_of o.observed_at_ns o.source_time_ms ++ samples_of os

latency_ns-sample :
    (observed : ℤ) (time : ℕ)
    → 0 < time
    → latency_ns (latency_ms observed time) ≡ (pos_part observed / 1_000_000 - time) * 1_000_000
unfolding latency_ms milliseconds_of
latency_ns-sample (pos n) time h = ground arith
latency_ns-sample (negsuc n) time h = ground arith

all-append_global :
    (latency : ℤ) (newest : Bool) (s : Snapshot) → (append_global latency newest s).all ≡ s.all
unfolding append_global
all-append_global latency true s = refl
all-append_global latency false s = refl

all-append_series :
    (latency : ℤ) (fresh : Bool) (s : Snapshot) → (append_series latency fresh s).all ≡ s.all
unfolding append_series
all-append_series latency true s = refl
all-append_series latency false s = refl

all-observe_at :
    (key : Bytes) (latency : ℤ) (time : ℕ) (c : Comparison)
    → (observe_at key latency time c).samples.all ≡ c.samples.all ++ latency_ns latency ∷ []
unfolding observe_at append_all
all-observe_at key latency time c =
    let fresh = advances time (lookup_series key c.last_by_series) in
    all-append_global latency (advances time c.last_global)
      (append_series latency fresh (append_all latency c.samples))
    ∙ all-append_series latency fresh (append_all latency c.samples)

all-observe_time :
    (o : Observation) (t : ℤ) (c : Comparison)
    → (observe_time o t c).samples.all ≡ c.samples.all ++ sample_of o.observed_at_ns t
unfolding observe_time sample_of
all-observe_time o (pos zero) c = sym (append-nil c.samples.all)
all-observe_time o (negsuc n) c = sym (append-nil c.samples.all)
all-observe_time o (pos (suc n)) c =
    all-observe_at (series_key o.kind o.symbol) (latency_ms o.observed_at_ns (suc n)) (suc n) c
    ∙ ap (λ x. c.samples.all ++ x ∷ []) (latency_ns-sample o.observed_at_ns (suc n) (omega arith))

all-observe_list :
    (c : Comparison) (os : List Observation)
    → (observe_list c os).samples.all ≡ c.samples.all ++ samples_of os
unfolding observe_list observe samples_of
all-observe_list c [] = sym (append-nil c.samples.all)
all-observe_list c (o ∷ os) =
    all-observe_list (observe c o) os
    ∙ ap (λ l. l ++ samples_of os) (all-observe_time o o.source_time_ms c)
    ∙ append_assoc c.samples.all (sample_of o.observed_at_ns o.source_time_ms) (samples_of os)

-- After a reset and any observations, the samples of the unfiltered selection are the latencies of
-- the observations with a positive source time, in their order, in whole milliseconds and at least
-- 0; each other selection has accepted or rejected as many, the global one has accepted no more
-- than the one by series, and the clamped counters stay within the accepted samples.
pub observe_list-Balanced :
    (c : Comparison) (os : List Observation)
    → ((observe_list (reset c) os).samples.all ≡ samples_of os)
      × Balanced (observe_list (reset c) os).samples
unfolding reset
observe_list-Balanced c os =
    (all-observe_list (reset c) os, (observe_list-Inv (reset c) os (reset-Inv c)).balanced)

-- A sample is at most the observation time, so the product by 1'000'000 does not overflow.
pub latency_ns-le :
    (observed : ℤ) (source : ℕ) → latency_ns (latency_ms observed source) ≤ pos_part observed
unfolding latency_ms milliseconds_of
latency_ns-le (pos n) source = ground arith
latency_ns-le (negsuc n) source = ground arith
