-- ===== src/Monitoring/Places.antt =====
-- The columns that `readMeasurement` finds by their headings, and the rows that have all of them.
use dxfcxx_event_test.Base.{
  ℕ, zero, suc, max, ◌≡◌, refl, sym, ap, ◌∙◌, subst, inl, inr, Bool, true, false, ◌&&◌, Option,
  none, some, List, [], ◌∷◌, arith, ltb, Option-cases, some-injective, none-ne-some, length,
  get_elem?, take, All,
}
use dxfcxx_event_test.Text.{Bytes, codes, same}
use dxfcxx_event_test.Text.Find.{same_refl}
use dxfcxx_event_test.Monitoring.Measurement.{
  index_of, column, maximum_index, Columns, columns_of, is_event_row,
}

-- A heading is the first of its name.
pub record IsFirst (name : Bytes) (headings : List Bytes) (i : ℕ) : Type 0 where
  pub there : get_elem? headings i ≡ some name
  pub new : All (λ heading. same heading name ≡ false) (take i headings)

-- The place of a name among the headings, or that it is none of them.
unfoldable pub IsPlace : Bytes → List Bytes → Option ℕ → Type 0
IsPlace name headings none = All (λ heading. same heading name ≡ false) headings
IsPlace name headings (some i) = IsFirst name headings i

-- The places of the columns, by their names in the file.
pub record ArePlaces (headings : List Bytes) (c : Columns) : Type 0 where
  pub start : IsFirst (codes "window_start_utc") headings c.start
  pub end : IsFirst (codes "window_end_utc") headings c.end
  pub kind : IsFirst (codes "sample_kind") headings c.kind
  pub expected : IsFirst (codes "expected_per_batch") headings c.expected
  pub nominal : IsPlace (codes "nominal_events_per_second") headings c.nominal

index_of-IsFirst :
    (name : Bytes) (headings : List Bytes) (i : ℕ)
    → IsFirst name headings i
    → index_of name headings ≡ some i
unfolding index_of
index_of-IsFirst name [] i h = absurd (none-ne-some h.there)
index_of-IsFirst name (heading ∷ headings) zero h =
    let e : same heading name ≡ true =
      subst (λ n. same n name ≡ true) (sym (some-injective h.there)) (same_refl name) in
    elim (Option-cases (index_of name headings)) [
      | inl missing ↦ rw (missing, e) refl
      | inr (i, found) ↦ rw (found, e) refl
    ]
index_of-IsFirst name (heading ∷ headings) (suc i) h =
    let e : same heading name ≡ false = h.new.0 in
    let found = index_of-IsFirst name headings i (record { there = h.there; new = h.new.1 }) in
    rw (found, e) refl

index_of-IsPlace :
    (name : Bytes) (headings : List Bytes) (place : Option ℕ)
    → IsPlace name headings place
    → index_of name headings ≡ place
unfolding index_of IsPlace
index_of-IsPlace name headings (some i) h = index_of-IsFirst name headings i h
index_of-IsPlace name [] none h = refl
index_of-IsPlace name (heading ∷ headings) none h =
    let e : same heading name ≡ false = h.0 in
    let missing = index_of-IsPlace name headings none h.1 in rw (missing, e) refl

pub columns_of-ArePlaces :
    (headings : List Bytes) (c : Columns) → ArePlaces headings c → columns_of headings ≡ some c
unfolding columns_of
columns_of-ArePlaces headings c h =
    rw
      (
        index_of-IsFirst (codes "window_start_utc") headings c.start h.start,
        index_of-IsFirst (codes "window_end_utc") headings c.end h.end,
        index_of-IsFirst (codes "sample_kind") headings c.kind h.kind,
        index_of-IsFirst (codes "expected_per_batch") headings c.expected h.expected,
        index_of-IsPlace (codes "nominal_events_per_second") headings c.nominal h.nominal,
      )
      refl

-- The text at a place of a row; there is none behind its end.
unfoldable pub cell : List Bytes → ℕ → Bytes
cell row i = elim (get_elem? row i) [ none ↦ [] | some text ↦ text ]

pub column-cell : (row : List Bytes) (i : ℕ) → column row i ≡ cell row i
unfolding cell
column-cell row i = refl

-- A row has a cell at a place; the place of the rate may be missing.
abbrev reaches : Option ℕ → List Bytes → Bool
reaches none row = true
reaches (some i) row = ltb i (length row)

-- A row has all columns.
reaches_all : Columns → List Bytes → Bool
reaches_all c row =
    let size = length row in
    (((ltb c.start size && ltb c.end size) && ltb c.kind size) && ltb c.expected size)
    && reaches c.nominal row

-- A row that has all columns and is of the kind `event`.
pub measures : Columns → List Bytes → Bool
unfolding cell reaches_all
measures c row = reaches_all c row && same (cell row c.kind) (codes "event")

ltb-max : (a b n : ℕ) → ltb (max a b) n ≡ (ltb a n && ltb b n)
ltb-max a b n = ground arith

ltb-max_zero : (a n : ℕ) → ltb (max a 0) n ≡ (ltb a n && true)
ltb-max_zero a n = ground arith

ltb-max_four :
    (s e k x n : ℕ)
    → ltb (max (max (max s e) k) x) n ≡ (((ltb s n && ltb e n) && ltb k n) && ltb x n)
ltb-max_four s e k x n =
    ltb-max (max (max s e) k) x n
    ∙ ap (λ t. t && ltb x n) (ltb-max (max s e) k n ∙ ap (λ t. t && ltb k n) (ltb-max s e n))

measures_long :
    (c : Columns) (row : List Bytes) → ltb (maximum_index c) (length row) ≡ reaches_all c row
unfolding reaches_all
measures_long c row =
    let four = ltb-max_four c.start c.end c.kind c.expected (length row) in
    let largest = max (max (max c.start c.end) c.kind) c.expected in
    elim (Option-cases c.nominal) [
      | inl e ↦ rw e (ltb-max_zero largest (length row) ∙ ap (λ t. t && true) four)
      | inr (i, e) ↦ rw e (ltb-max largest i (length row) ∙ ap (λ t. t && ltb i (length row)) four)
    ]

pub is_event_row-measures : (c : Columns) (row : List Bytes) → is_event_row c row ≡ measures c row
unfolding is_event_row measures
is_event_row-measures c row = rw (measures_long c row, column-cell row c.kind) refl
