-- ===== src/Deliveries/Alone.antt =====
-- `updateMaximum` ends for a thread that no other thread disturbs.
use dxfcxx_event_test.Base.{
  ℕ, suc, ◌≤◌, ◌<◌, max, ◌≡◌, refl, sym, subst, ◌≢◌, inl, inr, arith, ltb, ◌==◌, ltb→lt, ltb→ge,
  ==_iff, Bool-cases,
}
use dxfcxx_event_test.Deliveries.Maximum.{
  Phase, loading, looping, finished, Move, load, leave, exchange, fail, PhaseFits,
}

-- The steps of one thread while the others stand still.
pub data Alone (v : ℕ) : ℕ → Phase → ℕ → Phase → ℕ → Type 0 where
  done : {m : ℕ} {p : Phase} → Alone v m p m p 0
  then_step :
      {m n k : ℕ} {p q r : Phase} {steps : ℕ}
      → Move v m p n q
      → Alone v n q k r steps
      → Alone v m p k r (suc steps)

decided : (v m : ℕ) → Alone v m (looping m) (max m v) finished 1
decided v m = elim (Bool-cases (ltb m v)) [
  | inl e ↦
      let lt : m < v = ltb→lt m v e in
      let raised : max m v ≡ v = omega arith in
      subst (λ k. Alone v m (looping m) k finished 1) (sym raised) (then_step (exchange lt) done)
  | inr e ↦
      let le : v ≤ m = ltb→ge m v e in
      let same_maximum : max m v ≡ m = omega arith in
      subst (λ k. Alone v m (looping m) k finished 1) (sym same_maximum) (then_step (leave le) done)
]

-- A thread that has not left its loop, and that no other disturbs, can leave it in one or two
-- steps, at whatever point it stands: the maximum is then the larger of what it was and of the
-- thread's value.
pub Alone-finishes :
    (v m : ℕ) (p : Phase)
    → PhaseFits m v p
    → p ≢ finished
    → (steps : ℕ) × (steps ≤ 2) × Alone v m p (max m v) finished steps
Alone-finishes v m loading f ne = (2, omega arith, then_step (load (omega arith)) (decided v m))
Alone-finishes v m finished f ne = absurd (ne refl)
Alone-finishes v m (looping current) f ne = elim (Bool-cases (ltb current v)) [
  | inr e ↦
      let le : v ≤ current = ltb→ge current v e in
      let same_maximum : max m v ≡ m = omega arith in
      (
        1,
        omega arith,
        subst (λ k. Alone v m (looping current) k finished 1) (sym same_maximum)
            (then_step (leave le) done),
      )
  | inl e ↦ elim (Bool-cases (current == m)) [
    | inl same_value ↦ (
      1,
      omega arith,
      subst (λ c. Alone v m (looping c) (max m v) finished 1)
          (sym ((==_iff current m).0 same_value)) (decided v m),
    )
    | inr other ↦
        (2, omega arith, then_step (fail (ltb→lt current v e) (omega arith)) (decided v m))
  ]
]
