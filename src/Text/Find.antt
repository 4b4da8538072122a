-- ===== src/Text/Find.antt =====
-- Laws of `find`, `starts_with` and `substr` at the places where a text is put together.
use mathlib.Core.Option
use dxfcxx_event_test.Base.{
  ℕ, suc, ◌+◌, ◌≤◌, ◌<◌, ◌≡◌, refl, true, false, [], ◌∷◌, ◌++◌, Option, none, some, arith, ◌==◌,
  length, drop, take-length-append, drop-length-append, All, ==_refl, Option-cases, inl, inr,
}
use dxfcxx_event_test.Text.{Bytes, find, find_from, starts_with, same, substr}

abbrev pub Lacks : ℕ → Bytes → Type 0
Lacks b = All (λ c. (c == b) ≡ false)

pub find-Lacks : (c : ℕ) (xs : Bytes) → Lacks c xs → find c xs ≡ none
unfolding find
find-Lacks c [] h = refl
find-Lacks c (x ∷ xs) (hx, h) = rw (hx, find-Lacks c xs h)

-- The first separator stands behind a text that lacks it.
pub find-append :
    (c : ℕ) (xs ys : Bytes)
    → Lacks c xs
    → find c (xs ++ ys) ≡ Option.map (λ i. length xs + i) (find c ys)
unfolding find
find-append c [] ys h = map_zero (find c ys)
  where
    map_zero : (o : Option ℕ) → o ≡ Option.map (λ i. 0 + i) o
    map_zero none = refl
    map_zero (some i) = ground arith
find-append c (x ∷ xs) ys (hx, h) = rw (hx, find-append c xs ys h) (map_suc (find c ys))
  where
    map_suc :
        (o : Option ℕ)
        → Option.map suc (Option.map (λ i. length xs + i) o)
          ≡ Option.map (λ i. suc (length xs) + i) o
    map_suc none = refl
    map_suc (some i) = ground arith

pub find_here : (c : ℕ) (ys : Bytes) → find c (c ∷ ys) ≡ some 0
unfolding find
find_here c ys = rw (==_refl c)

-- A position that `find` reports lies within the text.
pub find-lt : (c : ℕ) (xs : Bytes) {i : ℕ} → find c xs ≡ some i → i < length xs
unfolding find
find-lt c [] h = cc
find-lt c (x ∷ xs) {i} h = elim (Option-cases (find c xs)) [
  | inl e ↦ ground (arith, e)
  | inr (j, e) ↦ ground (arith, e, find-lt c xs e)
]

pub find_from-bounds :
    (c from : ℕ) (xs : Bytes) {i : ℕ}
    → find_from c from xs ≡ some i
    → (from ≤ i) × (i < from + length (drop from xs))
unfolding find_from
find_from-bounds c from xs {i} h = elim (Option-cases (find c (drop from xs))) [
  | inl e ↦ ground (arith, e)
  | inr (j, e) ↦ ground (arith, e, find-lt c (drop from xs) e)
]

pub starts_with-append : (prefix rest : Bytes) → starts_with prefix (prefix ++ rest) ≡ true
unfolding starts_with
starts_with-append [] rest = refl
starts_with-append (c ∷ prefix) rest = rw (==_refl c) (starts_with-append prefix rest)

pub same_sound : (s t : Bytes) → same s t ≡ true → s ≡ t
unfolding same
same_sound [] [] h = refl
same_sound [] (d ∷ t) h = cc
same_sound (c ∷ s) [] h = cc
same_sound (c ∷ s) (d ∷ t) h = ground (arith, same_sound s t)

pub same_refl : (s : Bytes) → same s s ≡ true
unfolding same
same_refl [] = refl
same_refl (c ∷ s) = rw (==_refl c) (same_refl s)

-- The text between two others.
pub substr_middle :
    (xs ys zs : Bytes) (at count : ℕ)
    → at ≡ length xs
    → count ≡ length ys
    → substr (xs ++ (ys ++ zs)) at count ≡ ys
substr_middle xs ys zs at count a b =
    rw (a, b, drop-length-append xs (ys ++ zs)) (take-length-append ys zs)
