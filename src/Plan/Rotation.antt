-- ===== src/Plan/Rotation.antt =====
-- The plan of a suite runs every profile once per repetition, each time from the next one on.
use dxfcxx_event_test.Base.{
  ℕ, zero, suc, ◌+◌, ◌-◌, ◌*◌, ◌/◌, ◌%◌, ◌≤◌, ◌<◌, ◌≡◌, refl, sym, ap, ◌∙◌, inl, inr, some, List,
  [], ◌∷◌, ◌++◌, map, arith, ltb, if◌then◌else◌, ltb→lt, ltb→ge, Bool-cases, length, get_elem?,
  take, drop, length-append, length-take, length-drop,
}
use dxfcxx_event_test.Suite.{Suite}
use dxfcxx_event_test.Plan.{
  Overrides, Run, run_of, appended_run, repetition_runs, plan_from, build_benchmark_plan,
}

-- From the `k`-th element on, and then the first ones.
abbrev pub rotate {ℓ} : {A : Type ℓ} → ℕ → List A → List A
rotate k xs = drop k xs ++ take k xs

module _ {ℓ} {A : Type ℓ} where
  get_elem?-append-left :
      (xs ys : List A) (i : ℕ) → i < length xs → get_elem? (xs ++ ys) i ≡ get_elem? xs i
  get_elem?-append-left [] ys i h = absurd (omega arith)
  get_elem?-append-left (x ∷ xs) ys zero h = refl
  get_elem?-append-left (x ∷ xs) ys (suc i) h = get_elem?-append-left xs ys i (omega arith)

  get_elem?-append-right :
      (xs ys : List A) (i : ℕ) → get_elem? (xs ++ ys) (length xs + i) ≡ get_elem? ys i
  get_elem?-append-right [] ys i = ap (get_elem? ys) (omega arith)
  get_elem?-append-right (x ∷ xs) ys i =
      ap (get_elem? (x ∷ (xs ++ ys))) (shape (length xs) i) ∙ get_elem?-append-right xs ys i
    where
      shape : (n i : ℕ) → suc n + i ≡ suc (n + i)
      shape n i = omega arith

  get_elem?-drop : (k : ℕ) (xs : List A) (i : ℕ) → get_elem? (drop k xs) i ≡ get_elem? xs (k + i)
  get_elem?-drop zero xs i = ap (get_elem? xs) (omega arith)
  get_elem?-drop (suc k) [] i = refl
  get_elem?-drop (suc k) (x ∷ xs) i = get_elem?-drop k xs i ∙ ap (get_elem? (x ∷ xs)) (shape k i)
    where
      shape : (k i : ℕ) → suc (k + i) ≡ suc k + i
      shape k i = omega arith

  get_elem?-take : (k : ℕ) (xs : List A) (i : ℕ) → i < k → get_elem? (take k xs) i ≡ get_elem? xs i
  get_elem?-take zero xs i h = absurd (omega arith)
  get_elem?-take (suc k) [] i h = refl
  get_elem?-take (suc k) (x ∷ xs) zero h = refl
  get_elem?-take (suc k) (x ∷ xs) (suc i) h = get_elem?-take k xs i (omega arith)

  drop-get_elem? :
      (xs : List A) (i : ℕ)
      → i < length xs
      → (x : A) × (get_elem? xs i ≡ some x) × (drop i xs ≡ x ∷ drop (i + 1) xs)
  drop-get_elem? [] i h = absurd (omega arith)
  drop-get_elem? (x ∷ xs) zero h = (x, refl, refl)
  drop-get_elem? (x ∷ xs) (suc i) h =
      let (y, found, e) = drop-get_elem? xs i (omega arith) in
      (y, found, e ∙ ap (λ n. y ∷ drop n (x ∷ xs)) (shape i))
    where
      shape : (i : ℕ) → suc (i + 1) ≡ suc i + 1
      shape i = omega arith

  drop-all : (xs : List A) (n : ℕ) → length xs ≤ n → drop n xs ≡ []
  drop-all [] zero h = refl
  drop-all [] (suc n) h = refl
  drop-all (x ∷ xs) zero h = absurd (omega arith)
  drop-all (x ∷ xs) (suc n) h = drop-all xs n (omega arith)

  length-rotate : (k : ℕ) (xs : List A) → length (rotate k xs) ≡ length xs
  length-rotate k xs =
      omega (arith, length-append (drop k xs) (take k xs), length-drop k xs, length-take k xs)

  get_elem?-rotate :
      (k : ℕ) (xs : List A) (i : ℕ)
      → k < length xs
      → i < length xs
      → get_elem? (rotate k xs) i
        ≡ get_elem? xs (if ltb (k + i) (length xs) then k + i else k + i - length xs)
  get_elem?-rotate k xs i hk hi = elim (Bool-cases (ltb (k + i) (length xs))) [
    | inl e ↦ rw e (
        get_elem?-append-left (drop k xs) (take k xs) i
          (omega (arith, length-drop k xs, ltb→lt (k + i) (length xs) e))
        ∙ get_elem?-drop k xs i)
    | inr e ↦
        let past = k + i - length xs in
        let at : i ≡ length (drop k xs) + past =
          omega (arith, length-drop k xs, ltb→ge (k + i) (length xs) e) in
        rw e (
          ap (get_elem? (rotate k xs)) at
          ∙ get_elem?-append-right (drop k xs) (take k xs) past
          ∙ get_elem?-take k xs past (omega (arith, ltb→ge (k + i) (length xs) e)))
  ]

mod_unique : (n c r : ℕ) → r < n → (n * c + r) % n ≡ r
mod_unique n c r h = grind arith

wrapped :
    (n q i : ℕ)
    → 0 < n
    → i < n
    → (i + (q + 1) - 1) % n ≡ (if ltb (q % n + i) n then q % n + i else q % n + i - n)
wrapped n q i pos h = elim (Bool-cases (ltb (q % n + i) n)) [
  | inl e ↦ let small = ltb→lt (q % n + i) n e in rw e (grind arith)
  | inr e ↦
      let large = ltb→ge (q % n + i) n e in
      let whole : i + (q + 1) - 1 ≡ n * (q / n + 1) + (q % n + i - n) = grind arith in
      rw e (ap (λ a. a % n) whole ∙ mod_unique n (q / n + 1) (q % n + i - n) (grind arith))
]

module _ (suite : Suite) (overrides : Overrides) (q : ℕ) where
  rest_of_row :
      (position left : ℕ)
      → position + left ≡ length suite.profiles
      → repetition_runs suite overrides (q + 1) position left
        ≡ map
            (run_of suite overrides (q + 1))
            (drop position (rotate (q % length suite.profiles) suite.profiles))
  unfolding repetition_runs appended_run
  rest_of_row position zero h = ap (map (run_of suite overrides (q + 1))) (
      sym (
        drop-all (rotate (q % length suite.profiles) suite.profiles) position
          (omega (arith, length-rotate (q % length suite.profiles) suite.profiles))))
  rest_of_row position (suc left) h =
      let ps = suite.profiles in
      let k = q % length ps in
      let small : k < length ps = grind arith in
      let (profile, found, e) =
        drop-get_elem? (rotate k ps) position (omega (arith, length-rotate k ps)) in
      let at : get_elem? ps ((position + (q + 1) - 1) % length ps) ≡ some profile =
        ap (get_elem? ps) (wrapped (length ps) q position (omega arith) (omega arith))
        ∙ sym (get_elem?-rotate k ps position small (omega arith))
        ∙ found in
      rw (at, e)
        (ap (λ t. run_of suite overrides (q + 1) profile ∷ t)
          (rest_of_row (position + 1) left (omega arith)))

  row :
      repetition_runs suite overrides (q + 1) 0 (length suite.profiles)
      ≡ map (run_of suite overrides (q + 1)) (rotate (q % length suite.profiles) suite.profiles)
  row = rest_of_row 0 (length suite.profiles) (omega arith)

-- The repetitions `q`, `q + 1`, ..., each with its rotation of the profiles.
pub rotations : Suite → Overrides → ℕ → ℕ → List Run
rotations suite overrides q zero = []
rotations suite overrides q (suc left) =
    map (run_of suite overrides (q + 1)) (rotate (q % length suite.profiles) suite.profiles)
    ++ rotations suite overrides (q + 1) left

plan_from-rotations :
    (suite : Suite) (overrides : Overrides) (q left : ℕ)
    → plan_from suite overrides (q + 1) left ≡ rotations suite overrides q left
unfolding plan_from rotations
plan_from-rotations suite overrides q zero = refl
plan_from-rotations suite overrides q (suc left) =
    ap (λ runs. runs ++ plan_from suite overrides (q + 1 + 1) left) (row suite overrides q)
    ∙ ap
        (λ runs.
          map (run_of suite overrides (q + 1)) (rotate (q % length suite.profiles) suite.profiles)
          ++ runs)
        (plan_from-rotations suite overrides (q + 1) left)

-- The plan is one block per repetition, in their order; the block of the repetition `q + 1` runs
-- all profiles of the suite, each once, rotated by `q` places.
pub build_benchmark_plan-rotations :
    (suite : Suite) (overrides : Overrides)
    → build_benchmark_plan suite overrides ≡ rotations suite overrides 0 suite.repetitions
unfolding build_benchmark_plan
build_benchmark_plan-rotations suite overrides =
    plan_from-rotations suite overrides 0 suite.repetitions
