-- ===== src/Server/Shuffle/Order.antt =====
-- Whatever the seed, the order of a publication is a permutation of all pools.
use Prim.Native.Nat.{bit_xor}
use dxfcxx_event_test.Base.{
  ℕ, zero, suc, ◌+◌, ◌%◌, ◌≤◌, ◌<◌, ◌≡◌, refl, sym, ap, ◌∙◌, subst, ◌≢◌, inl, inr, ◌&&◌, Option,
  none, some, List, [], ◌∷◌, arith, ltb, leb, ◌==◌, if◌then◌else◌, Bool-cases, length, get_elem?,
  set, length-set, All,
}
use dxfcxx_event_test.Server.Random.{next_random}
use dxfcxx_event_test.Server.Shuffle.{iota, swapped, swap, shuffle_loop, pool_order}

some-injective {ℓ} : {A : Type ℓ} {x y : A} → some x ≡ some y → x ≡ y
some-injective h = cc

unfoldable pub total : (ℕ → ℕ) → List ℕ → ℕ
total f [] = 0
total f (x ∷ xs) = f x + total f xs

pub count : ℕ → List ℕ → ℕ
count k = total (λ x. if x == k then 1 else 0)

-- A write takes one element away and adds one.
total-set :
    (f : ℕ → ℕ) (xs : List ℕ) (i v : ℕ) {x : ℕ}
    → get_elem? xs i ≡ some x
    → total f (set xs i v) + f x ≡ total f xs + f v
unfolding total
total-set f [] i v h = cc
total-set f (y ∷ xs) zero v {x} h =
    let same_value : f y ≡ f x = ap f (some-injective h) in omega (arith, same_value)
total-set f (y ∷ xs) (suc i) v h = omega (arith, total-set f xs i v h)

get_elem?-set_same :
    (xs : List ℕ) (i v : ℕ) {x : ℕ} → get_elem? xs i ≡ some x → get_elem? (set xs i v) i ≡ some v
get_elem?-set_same [] i v h = cc
get_elem?-set_same (y ∷ xs) zero v h = refl
get_elem?-set_same (y ∷ xs) (suc i) v h = get_elem?-set_same xs i v h

get_elem?-set_other : (xs : List ℕ) (i j v : ℕ) → i ≢ j → get_elem? (set xs i v) j ≡ get_elem? xs j
get_elem?-set_other [] i j v h = refl
get_elem?-set_other (y ∷ xs) zero zero v h = absurd (h refl)
get_elem?-set_other (y ∷ xs) zero (suc j) v h = refl
get_elem?-set_other (y ∷ xs) (suc i) zero v h = refl
get_elem?-set_other (y ∷ xs) (suc i) (suc j) v h = get_elem?-set_other xs i j v (λ e. h (ap suc e))

-- What stands at the second place after the first write.
second_place :
    (xs : List ℕ) (a b : ℕ) {x y : ℕ}
    → get_elem? xs a ≡ some x
    → get_elem? xs b ≡ some y
    → get_elem? (set xs a y) b ≡ some y
second_place xs a b {x} {y} ha hb = elim (Bool-cases (a == b)) [
  | inl e ↦
      let a_b : a ≡ b = ground arith in
      subst (λ c. get_elem? (set xs a y) c ≡ some y) a_b (get_elem?-set_same xs a y ha)
  | inr e ↦ get_elem?-set_other xs a b y (λ (p : a ≡ b). absurd (ground arith)) ∙ hb
]

get_elem?-lt : (xs : List ℕ) (i : ℕ) → i < length xs → (x : ℕ) × (get_elem? xs i ≡ some x)
get_elem?-lt [] i h = absurd (omega arith)
get_elem?-lt (x ∷ xs) zero h = (x, refl)
get_elem?-lt (x ∷ xs) (suc i) h = get_elem?-lt xs i (omega arith)

-- Every sum over the elements is the same.
unfoldable pub Reordered : List ℕ → List ℕ → Type 0
Reordered xs ys = (f : ℕ → ℕ) → total f ys ≡ total f xs

pub length-iota : (i n : ℕ) → length (iota i n) ≡ n
unfolding iota
length-iota i zero = refl
length-iota i (suc n) = ap suc (length-iota (i + 1) n)

-- A swap within the list does not fail and keeps its elements.
swap-Reordered :
    (xs : List ℕ) (a b : ℕ)
    → a < length xs
    → b < length xs
    → (ys : List ℕ) × (swap xs a b ≡ some ys) × (length ys ≡ length xs) × Reordered xs ys
unfolding swap swapped Reordered
swap-Reordered xs a b la lb =
    let (x, ha) = get_elem?-lt xs a la in
    let (y, hb) = get_elem?-lt xs b lb in
    (
      set (set xs a y) b x,
      rw (ha, hb) refl,
      length-set (set xs a y) b x ∙ length-set xs a y,
      λ f.
          omega (
            arith,
            total-set f (set xs a y) b x (second_place xs a b ha hb),
            total-set f xs a y ha,
          ),
    )

shuffle_loop-Reordered :
    (i state : ℕ) (xs : List ℕ)
    → i ≤ length xs
    → (ys : List ℕ) × (shuffle_loop i state (some xs) ≡ some ys) × Reordered xs ys
unfolding shuffle_loop Reordered
shuffle_loop-Reordered zero state xs h = (xs, refl, λ f. refl)
shuffle_loop-Reordered (suc zero) state xs h = (xs, refl, λ f. refl)
shuffle_loop-Reordered (suc (suc i)) state xs h =
    let (value, next) = next_random state in
    let (ys, swapped_to, same_size, kept) =
      swap-Reordered xs (suc i) (value % suc (suc i)) (omega arith) (omega arith) in
    let (zs, rest, kept_rest) = shuffle_loop-Reordered (suc i) next ys (omega (arith, same_size)) in
    (zs, ap (shuffle_loop (suc i) next) swapped_to ∙ rest, λ f. kept_rest f ∙ kept f)

pub pool_order-Reordered :
    (seed : Option ℕ) (publications pools : ℕ)
    → (order : List ℕ) × (pool_order seed publications pools ≡ some order)
      × Reordered (iota 0 pools) order
unfolding pool_order Reordered
pool_order-Reordered none publications pools = (iota 0 pools, refl, λ f. refl)
pool_order-Reordered (some seed) publications pools =
    shuffle_loop-Reordered pools (bit_xor seed publications) (iota 0 pools)
      (omega (arith, length-iota 0 pools))

length-total : (xs : List ℕ) → total (λ x. 1) xs ≡ length xs
unfolding total
length-total [] = refl
length-total (x ∷ xs) = omega (arith, length-total xs)

pub length-Reordered : (xs ys : List ℕ) → Reordered xs ys → length ys ≡ length xs
unfolding Reordered
length-Reordered xs ys h = sym (length-total ys) ∙ h (λ x. 1) ∙ length-total xs

count-iota : (k i n : ℕ) → count k (iota i n) ≡ (if leb i k && ltb k (i + n) then 1 else 0)
unfolding count total iota
count-iota k i zero = ground arith
count-iota k i (suc n) = ground (arith, count-iota k (i + 1) n)

-- For every seed and publication number the order is made without an access out of its range, each
-- pool stands in it exactly once, and nothing else does.
pub count-pool_order :
    (seed : Option ℕ) (publications pools : ℕ)
    → (order : List ℕ) × (pool_order seed publications pools ≡ some order)
      × ((k : ℕ) → count k order ≡ (if ltb k pools then 1 else 0))
unfolding count Reordered
count-pool_order seed publications pools =
    let (order, made, kept) = pool_order-Reordered seed publications pools in
    (order, made, λ k. kept (λ x. if x == k then 1 else 0) ∙ count-iota k 0 pools ∙ ground arith)

-- The elements that are too large are counted.
above : ℕ → ℕ → ℕ
above n k = if ltb k n then 0 else 1

above-All : (n : ℕ) (xs : List ℕ) → total (above n) xs ≡ 0 → All (λ k. k < n) xs
unfolding total above
above-All n [] h = tt
above-All n (x ∷ xs) h = (ground arith, above-All n xs (omega arith))

above-iota : (n i m : ℕ) → i + m ≤ n → total (above n) (iota i m) ≡ 0
unfolding total above iota
above-iota n i zero h = refl
above-iota n i (suc m) h = ground (arith, above-iota n (i + 1) m (omega arith))

-- Every index of the order is one of a pool.
pub Reordered-lt : (n : ℕ) (order : List ℕ) → Reordered (iota 0 n) order → All (λ k. k < n) order
unfolding Reordered
Reordered-lt n order h = above-All n order (h (above n) ∙ above-iota n 0 n (omega arith))

pub total-iota-suc :
    (f : ℕ → ℕ) (i n : ℕ) → total f (iota (i + 1) n) ≡ total (λ j. f (suc j)) (iota i n)
unfolding total iota
total-iota-suc f i zero = refl
total-iota-suc f i (suc n) =
    let same_value : f (i + 1) ≡ f (suc i) = ap f (omega arith) in
    omega (arith, same_value, total-iota-suc f (i + 1) n)
