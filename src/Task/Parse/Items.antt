-- ===== src/Task/Parse/Items.antt =====
-- The item loop of `parseTask`: what it accepts, and that it reads back a printed list of items.
use mathlib.Core.List.{cons-ne-nil}
use dxfcxx_event_test.Base.{
  ℕ, zero, suc, ◌+◌, ◌≤◌, ◌<◌, ◌≡◌, refl, sym, ap, ◌∙◌, ◌≢◌, inl, inr, Bool, true, false, not,
  Option, none, some, List, [], ◌∷◌, ◌++◌, arith, leb, ◌==◌, if◌then◌else◌, leb→le, Bool-cases, ok,
  err, ◌>>◌, All, All-append,
}
use dxfcxx_event_test.Text.{Bytes, Scan, invalid, out_of_range, scanned, scan_u64}
use dxfcxx_event_test.Task.{EventKind, PatternItem, ParseError, parse_kind, event_count, size_max}
use dxfcxx_event_test.Task.Count.{sum_quantities, event_count-sum}
use dxfcxx_event_test.Task.Parse.{
  Parsed, Loop, seen_before, after_item, after_number, read_item, parse_items, is_some,
}

-- No kind occurs twice, nor in the list of those seen.
abbrev pub Fresh : List EventKind → List PatternItem → Type 0
Fresh seen [] = Unit {0}
Fresh seen (item ∷ items) = (seen_before item.kind seen ≡ false) × Fresh (item.kind ∷ seen) items

-- The kinds seen after the items.
onto : List EventKind → List PatternItem → List EventKind
onto seen [] = seen
onto seen (item ∷ items) = onto (item.kind ∷ seen) items

abbrev pub IsPositive : PatternItem → Type 0
IsPositive item = 0 < item.quantity

pub record AreValid (items : List PatternItem) : Type 0 where
  pub nonempty : items ≢ []
  pub positive : All IsPositive items
  pub total : sum_quantities items ≤ size_max
  pub distinct : Fresh [] items

-- What holds of the items so far; they may still be none.
record SoFar (seen : List EventKind) (items : List PatternItem) : Type 0 where
  positive : All IsPositive items
  distinct : Fresh [] items
  known : seen ≡ onto [] items

Fresh-snoc :
    (seen : List EventKind) (xs : List PatternItem) (x : PatternItem)
    → Fresh seen xs
    → seen_before x.kind (onto seen xs) ≡ false
    → Fresh seen (xs ++ x ∷ [])
unfolding onto
Fresh-snoc seen [] x _ h = (h, tt)
Fresh-snoc seen (y ∷ xs) x (f, fs) h = (f, Fresh-snoc (y.kind ∷ seen) xs x fs h)

onto-snoc :
    (seen : List EventKind) (xs : List PatternItem) (x : PatternItem)
    → onto seen (xs ++ x ∷ []) ≡ x.kind ∷ onto seen xs
unfolding onto
onto-snoc seen [] x = refl
onto-snoc seen (y ∷ xs) x = onto-snoc (y.kind ∷ seen) xs x

snoc-ne-nil : (xs : List PatternItem) (x : PatternItem) → xs ++ x ∷ [] ≢ []
snoc-ne-nil [] x = cons-ne-nil x []
snoc-ne-nil (y ∷ xs) x = cons-ne-nil y (xs ++ x ∷ [])

SoFar-snoc :
    (seen : List EventKind) (items : List PatternItem) (k : EventKind) (q : ℕ)
    → SoFar seen items
    → 0 < q
    → seen_before k seen ≡ false
    → SoFar (k ∷ seen) (items ++ record { kind = k; quantity = q } ∷ [])
SoFar-snoc seen items k q s p f = record {
  positive = All-append IsPositive items (x ∷ []) s.positive (p, tt);
  distinct = Fresh-snoc [] items x s.distinct (rw (← s.known) f);
  known = ap (λ t. k ∷ t) s.known ∙ sym (onto-snoc [] items x);
}
  where
    x : PatternItem
    x = record { kind = k; quantity = q }

-- The rest of the loop, once there is an item.
abbrev Sound : Loop → Type 0
Sound next =
    (skip position : ℕ) (seen : List EventKind) (items r : List PatternItem)
    → SoFar seen items
    → items ≢ []
    → sum_quantities items ≤ size_max
    → next skip position seen items ≡ ok r
    → AreValid r

done_sound :
    (seen : List EventKind) (items r : List PatternItem)
    → SoFar seen items
    → items ≢ []
    → sum_quantities items ≤ size_max
    → ◌≡◌ {A = Parsed (List PatternItem)} (ok items) (ok r)
    → AreValid r
done_sound seen items r s ne total h =
    let e : items ≡ r = cc in
    rw (← e) (record { nonempty = ne; positive = s.positive; total = total; distinct = s.distinct })

after_item-Sound :
    (next : Loop)
    → Sound next
    → (skip position : ℕ) (seen : List EventKind) (items : List PatternItem) (text : Bytes)
      (r : List PatternItem)
    → SoFar seen items
    → items ≢ []
    → sum_quantities items ≤ size_max
    → after_item next skip position seen items text ≡ ok r
    → AreValid r
unfolding after_item
after_item-Sound next f skip position seen items [] r s ne total h =
    done_sound seen items r s ne total h
after_item-Sound next f skip position seen items (c ∷ []) r s ne total h = absurd (ground arith)
after_item-Sound next f skip position seen items (c ∷ d ∷ rest) r s ne total h =
    f (skip + 1) (position + 1) seen items r s ne total (ground arith)

require_passed :
    {A : Type 0} (test : Bool) (e : ParseError) (rest : Parsed A) {a : A}
    → ((if test then ok tt else err e) >> rest) ≡ ok a
    → (test ≡ true) × (rest ≡ ok a)
require_passed true e rest h = (refl, h)
require_passed false e rest h = cc

event_count-some :
    (items : List PatternItem) → is_some (event_count items) ≡ leb (sum_quantities items) size_max
event_count-some items = rw event_count-sum (ground arith)

after_number-Sound :
    (next : Loop)
    → Sound next
    → (position : ℕ) (kind : EventKind) (seen : List EventKind) (items : List PatternItem)
      (tail : Bytes) (scan : Scan ℕ) (r : List PatternItem)
    → SoFar seen items
    → seen_before kind seen ≡ false
    → after_number next position kind seen items tail scan ≡ ok r
    → AreValid r
unfolding after_number
after_number-Sound next f position kind seen items tail invalid r s fresh h = cc
after_number-Sound next f position kind seen items tail (out_of_range rest) r s fresh h = cc
after_number-Sound next f position kind seen items tail (scanned q rest) r s fresh h =
    let extended : List PatternItem = items ++ record { kind = kind; quantity = q } ∷ [] in
    let (positive, h') = require_passed (not (q == 0)) _ _ h in
    let (fits, h'') = require_passed (is_some (event_count extended)) _ _ h' in
    after_item-Sound next f _ _ (kind ∷ seen) extended rest r
      (SoFar-snoc seen items kind q s (ground arith) fresh) (snoc-ne-nil items _)
      (leb→le _ _ (rw (event_count-some extended) at fits)) h''

read_item-Sound :
    (next : Loop)
    → Sound next
    → (position : ℕ) (kind : Option EventKind) (seen : List EventKind) (items : List PatternItem)
      (tail : Bytes) (r : List PatternItem)
    → SoFar seen items
    → read_item next position kind seen items tail ≡ ok r
    → AreValid r
unfolding read_item
read_item-Sound next f position none seen items tail r s h = cc
read_item-Sound next f position (some k) seen items tail r s h =
    elim (Bool-cases (seen_before k seen)) [
      | inl old ↦ absurd (ground arith)
      | inr new ↦
          after_number-Sound next f position k seen items tail (scan_u64 tail) r s new (rw new at h)
    ]

parse_items-Sound : (text : Bytes) → Sound (parse_items text)
unfolding parse_items
parse_items-Sound [] skip position seen items r s ne total h = done_sound seen items r s ne total h
parse_items-Sound (c ∷ tail) (suc skip) position seen items r s ne total h =
    parse_items-Sound tail skip position seen items r s ne total h
parse_items-Sound (c ∷ tail) zero position seen items r s ne total h =
    read_item-Sound (parse_items tail) (parse_items-Sound tail) position (parse_kind c) seen items
      tail r s h

-- From a text that is not empty the loop returns at least one item; each has a positive quantity,
-- the quantities add up without overflow, and no kind occurs twice.
pub parse_items-AreValid :
    (text : Bytes) (position : ℕ) (r : List PatternItem)
    → text ≢ []
    → parse_items text 0 position [] [] ≡ ok r
    → AreValid r
unfolding parse_items onto
parse_items-AreValid [] position r ne h = absurd (ne refl)
parse_items-AreValid (c ∷ tail) position r ne h =
    read_item-Sound (parse_items tail) (parse_items-Sound tail) position (parse_kind c) [] [] tail r
      (record { positive = tt; distinct = tt; known = refl }) h
