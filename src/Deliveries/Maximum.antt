-- ===== src/Deliveries/Maximum.antt =====
-- `updateMaximum` of src/graal_delivery_client.cpp and src/legacy_client.cpp, on any number of
-- threads that raise one counter at the same time.
use dxfcxx_event_test.Base.{
  ℕ, ◌≤◌, ◌<◌, max, ◌≡◌, refl, ap, ◌∙◌, subst, ◌⊎◌, inl, inr, List, [], ◌∷◌, ◌++◌, map, arith, All,
  All-append, All-mono,
}

-- Where a thread stands: before the load, at the test of the loop with the value that it has
-- loaded, or behind the loop.
pub data Phase : Type 0 where
  loading : Phase
  looping : ℕ → Phase
  finished : Phase

-- A thread that raises the maximum to `value`.
pub record Thread : Type 0 where
  pub value : ℕ
  pub phase : Phase

-- One atomic step of a thread with the value `v`: the maximum and its phase, before and after. A
-- weak exchange may fail even where the values are equal; it then loads the maximum again. The
-- memory order is relaxed, so a load may see an older value, which is not larger as the maximum
-- never falls.
pub data Move (v : ℕ) : ℕ → Phase → ℕ → Phase → Type 0 where
  load : {m seen : ℕ} → seen ≤ m → Move v m loading m (looping seen)
  leave : {m current : ℕ} → v ≤ current → Move v m (looping current) m finished
  exchange : {current : ℕ} → current < v → Move v current (looping current) v finished
  fail : {m current seen : ℕ} → current < v → seen ≤ m → Move v m (looping current) m (looping seen)

abbrev pub waiting : ℕ → Thread
waiting v = record { value = v; phase = loading }

-- The maximum and the threads, after steps in any order.
pub data Reachable (start : ℕ) (values : List ℕ) : ℕ → List Thread → Type 0 where
  begun : Reachable start values start (map waiting values)
  moved :
      {m n v : ℕ} {p q : Phase} (before after : List Thread)
      → Reachable start values m (before ++ record { value = v; phase = p } ∷ after)
      → Move v m p n q
      → Reachable start values n (before ++ record { value = v; phase = q } ∷ after)

unfoldable pub largest : ℕ → List ℕ → ℕ
largest start [] = start
largest start (v ∷ values) = max v (largest start values)

-- What a thread may rely on, where `m` is the maximum and `bound` the largest of all values.
abbrev pub PhaseFits : ℕ → ℕ → Phase → Type 0
PhaseFits m v loading = Unit {0}
PhaseFits m v (looping current) = current ≤ m
PhaseFits m v finished = v ≤ m

abbrev Fits : ℕ → ℕ → Thread → Type 0
Fits bound m t = (t.value ≤ bound) × PhaseFits m t.value t.phase

module _ {A : Type 0} (P : A → Type 0) where
  All-middle :
      (xs : List A) (y : A) (ys : List A) → All P (xs ++ y ∷ ys) → All P xs × P y × All P ys
  All-middle [] y ys (h, hs) = (tt, h, hs)
  All-middle (x ∷ xs) y ys (h, hs) =
      let (front, middle, back) = All-middle xs y ys hs in ((h, front), middle, back)

PhaseFits-mono : (m n v : ℕ) (p : Phase) → m ≤ n → PhaseFits m v p → PhaseFits n v p
PhaseFits-mono m n v loading h f = tt
PhaseFits-mono m n v (looping current) h f = omega arith
PhaseFits-mono m n v finished h f = omega arith

Move-fits :
    (bound v m n : ℕ) (p q : Phase)
    → Move v m p n q
    → v ≤ bound
    → PhaseFits m v p
    → (m ≤ n) × PhaseFits n v q × ((n ≡ m) ⊎ (n ≡ v))
Move-fits bound v m n p q (load h) le f = (omega arith, omega arith, inl refl)
Move-fits bound v m n p q (leave h) le f = (omega arith, omega arith, inl refl)
Move-fits bound v m n p q (exchange h) le f = (omega arith, omega arith, inr refl)
Move-fits bound v m n p q (fail h up) le f = (omega arith, omega arith, inl refl)

start-le-largest : (start : ℕ) (values : List ℕ) → start ≤ largest start values
unfolding largest
start-le-largest start [] = omega arith
start-le-largest start (v ∷ values) = omega (arith, start-le-largest start values)

largest-upper : (start : ℕ) (values : List ℕ) → All (λ v. v ≤ largest start values) values
unfolding largest
largest-upper start [] = tt
largest-upper start (v ∷ values) = (
  omega arith,
  All-mono (λ w. w ≤ largest start values) (λ w. w ≤ max v (largest start values))
      (λ w h. omega arith) values (largest-upper start values),
)

largest-least :
    (start m : ℕ) (values : List ℕ) → start ≤ m → All (λ v. v ≤ m) values → largest start values ≤ m
unfolding largest
largest-least start m [] h hs = h
largest-least start m (v ∷ values) h (le, hs) = omega (arith, largest-least start m values h hs)

waiting-fit :
    (bound m : ℕ) (values : List ℕ)
    → All (λ v. v ≤ bound) values
    → All (Fits bound m) (map waiting values)
waiting-fit bound m [] h = tt
waiting-fit bound m (v ∷ values) (le, h) = ((le, tt), waiting-fit bound m values h)

abbrev value_of : Thread → ℕ
value_of t = t.value

map-waiting : (values : List ℕ) → map value_of (map waiting values) ≡ values
map-waiting [] = refl
map-waiting (v ∷ values) = ap (λ t. v ∷ t) (map-waiting values)

map-middle :
    (before after : List Thread) (v : ℕ) (p q : Phase)
    → map value_of (before ++ record { value = v; phase = q } ∷ after)
      ≡ map value_of (before ++ record { value = v; phase = p } ∷ after)
map-middle [] after v p q = refl
map-middle (t ∷ before) after v p q = ap (λ vs. t.value ∷ vs) (map-middle before after v p q)

record Invariant (start : ℕ) (values : List ℕ) (m : ℕ) (threads : List Thread) : Type 0 where
  above : start ≤ m
  below : m ≤ largest start values
  fits : All (Fits (largest start values) m) threads
  same_values : map value_of threads ≡ values

Reachable-Invariant :
    (start : ℕ) (values : List ℕ) (m : ℕ) (threads : List Thread)
    → Reachable start values m threads
    → Invariant start values m threads
Reachable-Invariant start values m threads begun = record {
  above = omega arith;
  below = start-le-largest start values;
  fits = waiting-fit (largest start values) start values (largest-upper start values);
  same_values = map-waiting values;
}
Reachable-Invariant start values _ _ (moved {m} {n} {v} {p} {q} before after reached move) =
    let bound = largest start values in
    let i = Reachable-Invariant start values m _ reached in
    let (front, (le, phase), back) = All-middle (Fits bound m) before _ after i.fits in
    let (up, next, either) = Move-fits bound v m n p q move le phase in
    let onward = λ (ts : List Thread).
      All-mono (Fits bound m) (Fits bound n)
        (λ t f. (f.0, PhaseFits-mono m n t.value t.phase up f.1)) ts in
    record {
      above = omega (arith, i.above, up);
      below = elim either [ inl e ↦ omega (arith, i.below, e) | inr e ↦ omega (arith, le, e) ];
      fits =
          All-append (Fits bound n) before _ (onward before front) ((le, next), onward after back);
      same_values = map-middle before after v p q ∙ i.same_values;
    }

-- Every thread is behind its loop.
abbrev pub AllFinished : List Thread → Type 0
AllFinished = All (λ t. t.phase ≡ finished)

finished-le :
    (bound m : ℕ) (threads : List Thread)
    → All (Fits bound m) threads
    → AllFinished threads
    → All (λ v. v ≤ m) (map value_of threads)
finished-le bound m [] fits done = tt
finished-le bound m (t ∷ threads) ((_, f), fits) (d, done) =
    (subst (PhaseFits m t.value) d f, finished-le bound m threads fits done)

-- However the steps of the threads interleave, and however often a weak exchange fails, the
-- counter never falls below where it started and never rises above the largest of its start and
-- the threads' values; once every thread has left its loop, it is that largest value.
pub Reachable-largest :
    (start : ℕ) (values : List ℕ) (m : ℕ) (threads : List Thread)
    → Reachable start values m threads
    → (start ≤ m) × (m ≤ largest start values) × (AllFinished threads → m ≡ largest start values)
Reachable-largest start values m threads reached =
    let i = Reachable-Invariant start values m threads reached in
    (
      i.above,
      i.below,
      λ done.
          let upper =
            subst (All (λ v. v ≤ m)) i.same_values
              (finished-le (largest start values) m threads i.fits done) in
          let least = largest-least start m values i.above upper in omega (arith, i.below, least),
    )
