-- ===== src/SourceTime/Series.antt =====
-- The last times that `observe` keeps are the newest source times of each series, and of all.
use dxfcxx_event_test.Base.{
  ℕ, zero, suc, ◌≡◌, refl, ap, ◌∙◌, inl, inr, true, false, Option, none, some, List, [], ◌∷◌, arith,
  ltb, if◌then◌else◌, Bool-cases,
}
use dxfcxx_event_test.Base.Int.{ℤ, pos, negsuc}
use dxfcxx_event_test.Text.{Bytes, same}
use dxfcxx_event_test.Text.Find.{same_sound, same_refl}
use dxfcxx_event_test.SourceTime.{
  Comparison, Observation, lookup_series, store_series, series_key, observe_time, observe,
  observe_list,
}

-- The newer of a last time, if there is one, and a time.
abbrev pub newer : ℕ → Option ℕ → Option ℕ
newer time none = some time
newer time (some last) = some (if ltb last time then time else last)

lookup_series-store_series :
    (key k : Bytes) (time : ℕ) (m : List (Bytes × ℕ))
    → lookup_series k (store_series key time m)
      ≡ (if same key k then newer time (lookup_series k m) else lookup_series k m)
unfolding lookup_series store_series
lookup_series-store_series key k time [] = ground arith
lookup_series-store_series key k time ((j, v) ∷ m) = elim (Bool-cases (same j key)) [
  | inl hit ↦ let e : j ≡ key = same_sound j key hit in rw (hit, e, lookup_series) (ground arith)
  | inr miss ↦
      rw (miss, lookup_series)
        (elim (Bool-cases (same j k)) [
          | inl here ↦
              let other : same key k ≡ false = differs j k key here miss in rw (here, other)
          | inr there ↦ rw there (lookup_series-store_series key k time m)
        ])
]
  where
    differs : (j k key : Bytes) → same j k ≡ true → same j key ≡ false → same key k ≡ false
    differs j k key h n = elim (Bool-cases (same key k)) [
      | inl e ↦
          let j_key : same j key ≡ true = rw (same_sound j k h, same_sound key k e) (same_refl k) in
          cc
      | inr e ↦ e
    ]

-- The source time, if it is one that counts.
abbrev pub positive_time : ℤ → Option ℕ
positive_time (pos zero) = none
positive_time (pos (suc n)) = some (suc n)
positive_time (negsuc n) = none

abbrev newer_of : Option ℕ → Option ℕ → Option ℕ
newer_of none last = last
newer_of (some time) last = newer time last

-- The newest positive source time in one series, of the observations and a time before them.
pub newest_in : Bytes → Option ℕ → List Observation → Option ℕ
newest_in key last [] = last
newest_in key last (o ∷ os) =
    newest_in key
      (if same (series_key o.kind o.symbol) key
        then newer_of (positive_time o.source_time_ms) last
        else last)
      os

-- The newest positive source time of all observations and a time before them.
pub newest_of : Option ℕ → List Observation → Option ℕ
newest_of last [] = last
newest_of last (o ∷ os) = newest_of (newer_of (positive_time o.source_time_ms) last) os

observe_time-series :
    (o : Observation) (t : ℤ) (c : Comparison) (key : Bytes)
    → lookup_series key (observe_time o t c).last_by_series ≡ (
        if same (series_key o.kind o.symbol) key
        then newer_of (positive_time t) (lookup_series key c.last_by_series)
        else lookup_series key c.last_by_series)
unfolding observe_time
observe_time-series o (pos zero) c key = ground arith
observe_time-series o (negsuc n) c key = ground arith
observe_time-series o (pos (suc n)) c key =
    lookup_series-store_series (series_key o.kind o.symbol) key (suc n) c.last_by_series

observe_time-global :
    (o : Observation) (t : ℤ) (c : Comparison)
    → (observe_time o t c).last_global ≡ newer_of (positive_time t) c.last_global
unfolding observe_time
observe_time-global o (pos zero) c = refl
observe_time-global o (negsuc n) c = refl
observe_time-global o (pos (suc n)) c = ground arith

-- After any observations the last time kept for a series is the newest one observed in that series
-- alone, and the global last time is the newest one of the whole stream; times that are not
-- positive do not count.
pub observe_list-newest :
    (c : Comparison) (os : List Observation) (key : Bytes)
    → (lookup_series key (observe_list c os).last_by_series
        ≡ newest_in key (lookup_series key c.last_by_series) os)
      × ((observe_list c os).last_global ≡ newest_of c.last_global os)
unfolding observe_list observe newest_in newest_of
observe_list-newest c [] key = (refl, refl)
observe_list-newest c (o ∷ os) key =
    let (s, g) = observe_list-newest (observe c o) os key in
    (
      s ∙ ap (λ last. newest_in key last os) (observe_time-series o o.source_time_ms c key),
      g ∙ ap (λ last. newest_of last os) (observe_time-global o o.source_time_ms c),
    )
