-- ===== src/Server/Shuffle.antt =====
-- src/server.cpp: the order of the pools in a publication.
pub mod Order
use Prim.Native.Nat.{bit_xor}
use dxfcxx_event_test.Base.{
  ℕ, zero, suc, ◌+◌, ◌-◌, ◌*◌, ◌/◌, ◌%◌, ◌^◌, ◌≤◌, ◌<◌, min, max, ◌≡◌, refl, sym, ap, ◌∙◌, subst,
  ◌≢◌, ◌↔◌, ◌⊎◌, inl, inr, Bool, true, false, not, ◌&&◌, ◌||◌, Option, none, some, List, [], ◌∷◌,
  ◌++◌, map, reverse, append-nil, append_assoc, arith, ltb, leb, ◌==◌, if◌then◌else◌, ltb→lt,
  lt→ltb, ltb→ge, ge→ltb, leb→le, ==_iff, ==_refl, ne→==, Bool-cases, Option-cases, Result, ok, err,
  ◌>>=◌, ◌>>◌, guard, >>=-eq-ok, length, get_elem?, set, take, drop, replicate, length-append,
  length-reverse, length-take, length-drop, length-replicate, take-length-append,
  drop-length-append, length-set, length-map, All, All-append, All-reverse, All-mono,
}
use dxfcxx_event_test.Server.Random.{next_random}

-- `std::iota` from `i` on.
unfoldable pub iota : ℕ → ℕ → List ℕ
iota i zero = []
iota i (suc n) = i ∷ iota (i + 1) n

-- `std::swap(order[a], order[b])`; an index out of range, undefined in C++, gives `none`.
unfoldable pub swapped : List ℕ → ℕ → ℕ → Option ℕ → Option ℕ → Option (List ℕ)
swapped order a b (some x) (some y) = some (set (set order a y) b x)
swapped order a b (some x) none = none
swapped order a b none y = none

unfoldable pub swap : List ℕ → ℕ → ℕ → Option (List ℕ)
unfolding swapped
swap order a b = swapped order a b (get_elem? order a) (get_elem? order b)

-- `for (i = order.size(); i > 1; --i)`, unless an access was out of range.
unfoldable pub shuffle_loop : ℕ → ℕ → Option (List ℕ) → Option (List ℕ)
unfolding swap
shuffle_loop i state none = none
shuffle_loop zero state (some order) = some order
shuffle_loop (suc zero) state (some order) = some order
shuffle_loop (suc (suc i)) state (some order) =
    let (value, next) = next_random state in
    shuffle_loop (suc i) next (swap order (suc i) (value % suc (suc i)))

unfoldable pub pool_order : Option ℕ → ℕ → ℕ → Option (List ℕ)
unfolding iota shuffle_loop
pool_order none publications pools = some (iota 0 pools)
pool_order (some seed) publications pools =
    shuffle_loop pools (bit_xor seed publications) (some (iota 0 pools))
