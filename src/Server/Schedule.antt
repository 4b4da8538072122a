-- ===== src/Server/Schedule.antt =====
-- src/server.cpp: the next deadline in `Generator::run`, in nanoseconds of the steady clock.
use dxfcxx_event_test.Base.{
  ℕ, ◌+◌, ◌-◌, ◌*◌, ◌/◌, ◌≤◌, ◌<◌, ◌≡◌, refl, ◌⊎◌, inl, inr, arith, ltb, if◌then◌else◌, ltb→lt,
  lt→ltb, Option, none, some, ltb→ge, Bool-cases,
}
use dxfcxx_event_test.Text.{int64_limit}

-- After a publication at deadline `tick` with clock `now`: the deadline and the skipped ones. A
-- deadline that leaves std::int64_t, which is undefined in C++, is `none`.
unfoldable pub advance : ℕ → ℕ → ℕ → Option (ℕ × ℕ)
advance tick period now =
    let next = tick + period in
    let skipped = (now - next) / period + 1 in
    if ltb next int64_limit
    then if ltb next now
      then if ltb (next + period * skipped) int64_limit
        then some (next + period * skipped, skipped)
        else none
      else some (next, 0)
    else none

next_multiple : (d p : ℕ) → 0 < p → (d < p * (d / p + 1)) × (p * (d / p + 1) ≤ d + p)
next_multiple d p h = grind arith

-- Where one period after the old deadline and one after the clock fit, the new deadline fits and is
-- not in the past; it lies on the grid of the old one, one period and the skipped ones later; and
-- when deadlines were skipped it is at most one period away: none is skipped that could still be
-- met.
pub advance_lem :
    (tick period now : ℕ)
    → 0 < period
    → tick + period < int64_limit
    → now + period < int64_limit
    → (next : ℕ) × (skipped : ℕ) × (advance tick period now ≡ some (next, skipped))
      × (next < int64_limit)
      × (now ≤ next)
      × (next ≡ tick + period * (skipped + 1))
      × ((skipped ≡ 0) ⊎ (next ≤ now + period))
unfolding advance
advance_lem tick period now h fits clock_fits = elim (Bool-cases (ltb (tick + period) now)) [
  | inl late ↦
      let d = now - (tick + period) in
      let new : ℕ = tick + period + period * (d / period + 1) in
      let lt = ltb→lt (tick + period) now late in
      let (past, near) = next_multiple d period h in
      let new_fits : new < int64_limit = omega (arith, lt, near) in
      (
        new,
        d / period + 1,
        rw (lt→ltb _ _ fits, late, lt→ltb _ _ new_fits) refl,
        new_fits,
        omega (arith, lt, past),
        grind arith,
        inr (omega (arith, lt, near)),
      )
  | inr early ↦ (
    tick + period,
    0,
    rw (lt→ltb _ _ fits, early) refl,
    fits,
    ltb→ge (tick + period) now early,
    omega arith,
    inl refl,
  )
]
