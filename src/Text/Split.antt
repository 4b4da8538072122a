-- ===== src/Text/Split.antt =====
-- `split` of src/runner.cpp, and `join` as its inverse.
use mathlib.Core.Option
use mathlib.Core.List.{cons-ne-nil}
use dxfcxx_event_test.Base.{
  ℕ, zero, suc, ◌+◌, ◌-◌, ◌<◌, ◌≡◌, refl, sym, ap, ◌∙◌, subst, ◌≢◌, inl, inr, true, false, Option,
  none, some, List, [], ◌∷◌, ◌++◌, append_assoc, arith, leb, ◌==◌, if◌then◌else◌, le→leb, gt→leb,
  ==_iff, Bool-cases, length, drop, length-append, drop-length-append, All,
}
use dxfcxx_event_test.Text.{Bytes, substr, find, find_from}
use dxfcxx_event_test.Text.Find.{Lacks, find-Lacks, find-append, find_here, substr_middle}

-- `value.substr(begin, end - begin)`, where `end` may be `npos`.
field_at : ℕ → Bytes → Option ℕ → Bytes
field_at begin text none = drop begin text
field_at begin text (some end) = substr text begin (end - begin)

next_begin : Bytes → Option ℕ → ℕ
next_begin text none = length text + 1
next_begin text (some end) = end + 1

-- The loop, with `n` rounds left.
split_from : ℕ → ℕ → ℕ → Bytes → List Bytes
unfolding field_at next_begin
split_from zero begin separator text = []
split_from (suc n) begin separator text =
    let end = find_from separator begin text in
    let rest = split_from n (next_begin text end) separator text in
    field_at begin text end ∷ (if leb (next_begin text end) (length text) then rest else [])

-- `split`: every round but the last passes a separator, so one more round than bytes is enough.
unfoldable pub split : ℕ → Bytes → List Bytes
unfolding split_from find_from
split separator text = split_from (suc (length text)) 0 separator text

-- The fields with the separator between them.
unfoldable pub join : ℕ → List Bytes → Bytes
join separator [] = []
join separator (field ∷ []) = field
join separator (field ∷ next ∷ fields) = field ++ separator ∷ join separator (next ∷ fields)

unfoldable pub cons_first : ℕ → List Bytes → List Bytes
cons_first c [] = (c ∷ []) ∷ []
cons_first c (field ∷ fields) = (c ∷ field) ∷ fields

-- The fields of a text, by recursion on the text.
unfoldable pub parts : ℕ → Bytes → List Bytes
unfolding cons_first
parts separator [] = [] ∷ []
parts separator (c ∷ text) =
    if c == separator then [] ∷ parts separator text else cons_first c (parts separator text)

join-cons_first :
    (separator c : ℕ) (fields : List Bytes)
    → join separator (cons_first c fields) ≡ c ∷ join separator fields
unfolding join cons_first
join-cons_first separator c [] = refl
join-cons_first separator c (field ∷ []) = refl
join-cons_first separator c (field ∷ next ∷ fields) = refl

join-nil-cons :
    (separator : ℕ) (fields : List Bytes)
    → fields ≢ []
    → join separator ([] ∷ fields) ≡ separator ∷ join separator fields
unfolding join
join-nil-cons separator [] h = absurd (h refl)
join-nil-cons separator (field ∷ fields) h = refl

pub parts-ne-nil : (separator : ℕ) (text : Bytes) → parts separator text ≢ []
unfolding parts cons_first
parts-ne-nil separator [] = λ h. cc
parts-ne-nil separator (c ∷ text) = elim (Bool-cases (c == separator)) [
  | inl e ↦ rw e (cons-ne-nil [] (parts separator text))
  | inr e ↦ rw e (full (parts separator text))
]
  where
    full : (fields : List Bytes) → cons_first c fields ≢ []
    full [] = λ h. cc
    full (field ∷ fields) = λ h. cc

join-parts : (separator : ℕ) (text : Bytes) → join separator (parts separator text) ≡ text
unfolding join parts
join-parts separator [] = refl
join-parts separator (c ∷ text) = elim (Bool-cases (c == separator)) [
  | inl e ↦
      let same_byte : c ≡ separator = (==_iff c separator).0 e in
      rw e (
        join-nil-cons separator (parts separator text) (parts-ne-nil separator text)
        ∙ ap (λ t. separator ∷ t) (join-parts separator text)
        ∙ ap (λ b. b ∷ text) (sym same_byte))
  | inr e ↦ rw e (
      join-cons_first separator c (parts separator text)
      ∙ ap (λ t. c ∷ t) (join-parts separator text))
]

parts-Lacks : (separator : ℕ) (text : Bytes) → All (Lacks separator) (parts separator text)
unfolding parts cons_first
parts-Lacks separator [] = (tt, tt)
parts-Lacks separator (c ∷ text) = elim (Bool-cases (c == separator)) [
  | inl e ↦ rw e (tt, parts-Lacks separator text)
  | inr e ↦ rw e (onto_first e (parts separator text) (parts-Lacks separator text))
]
  where
    onto_first :
        (c == separator) ≡ false
        → (fields : List Bytes) → All (Lacks separator) fields
        → All (Lacks separator) (cons_first c fields)
    onto_first e [] h = ((e, tt), tt)
    onto_first e (field ∷ fields) (h, hs) = ((e, h), hs)

find_from-behind :
    (separator : ℕ) (before text : Bytes)
    → find_from separator (length before) (before ++ text)
      ≡ Option.map (λ i. length before + i) (find separator text)
unfolding find_from
find_from-behind separator before text =
    ap (λ t. Option.map (λ i. length before + i) (find separator t))
      (drop-length-append before text)

find-behind :
    (separator : ℕ) (before field rest : Bytes)
    → Lacks separator field
    → find_from separator (length before) (before ++ (field ++ separator ∷ rest))
      ≡ some (length before + length field)
find-behind separator before field rest lack =
    find_from-behind separator before (field ++ separator ∷ rest)
    ∙ ap (Option.map (λ i. length before + i)) (find-append separator field (separator ∷ rest) lack)
    ∙ ap (λ o. Option.map (λ i. length before + i) (Option.map (λ i. length field + i) o))
        (find_here separator rest)
    ∙ ap some (omega arith)

module _ (separator : ℕ) where
  split_from-join :
      (fields : List Bytes) (n : ℕ) (before : Bytes)
      → fields ≢ []
      → All (Lacks separator) fields
      → length (join separator fields) < n
      → split_from n (length before) separator (before ++ join separator fields) ≡ fields
  unfolding split_from join
  split_from-join [] n before ne lacks fuel = absurd (ne refl)
  split_from-join (field ∷ fields) zero before ne lacks fuel = absurd (omega arith)
  split_from-join (field ∷ []) (suc n) before ne (lack, _) fuel =
      let end : find_from separator (length before) (before ++ field) ≡ none =
        find_from-behind separator before field
        ∙ ap (Option.map (λ i. length before + i)) (find-Lacks separator field lack) in
      rw
        (
          end,
          drop-length-append before field,
          gt→leb (length (before ++ field) + 1) (length (before ++ field)) (omega arith),
        )
        refl
  split_from-join (field ∷ next ∷ fields) (suc n) before ne (lack, lacks) fuel =
      let rest = join separator (next ∷ fields) in
      let text = before ++ (field ++ separator ∷ rest) in
      let ahead = before ++ (field ++ separator ∷ []) in
      let same_text : ahead ++ rest ≡ text =
        append_assoc before (field ++ separator ∷ []) rest
        ∙ ap (λ t. before ++ t) (append_assoc field (separator ∷ []) rest) in
      let at : length ahead ≡ length before + length field + 1 =
        rw (length-append before (field ++ separator ∷ []), length-append field (separator ∷ []))
          (omega arith) in
      let size : length text ≡ length before + length field + 1 + length rest =
        rw
          (length-append before (field ++ separator ∷ rest), length-append field (separator ∷ rest))
          (omega arith) in
      let enough : length rest < n = ground (arith, length-append field (separator ∷ rest), fuel) in
      let later = split_from-join (next ∷ fields) n ahead (cons-ne-nil next fields) lacks enough in
      let inside : leb (length before + length field + 1) (length text) ≡ true =
        le→leb _ _ (omega arith) in
      let here : substr text (length before) (length before + length field - length before)
          ≡ field =
        substr_middle before field (separator ∷ rest) (length before) _ refl (omega arith) in
      rw (find-behind separator before field rest lack, inside, here)
        (ap (λ r. field ∷ r)
          (sym (ap (λ a. split_from n a separator text) at)
            ∙ sym (ap (λ t. split_from n (length ahead) separator t) same_text)
            ∙ later))

  -- Splitting a row of one field or more, put together with the separator between them,
  -- gives back the fields, where no field holds the separator.
  pub split-join :
      (fields : List Bytes)
      → fields ≢ []
      → All (Lacks separator) fields
      → split separator (join separator fields) ≡ fields
  unfolding split
  split-join fields ne lacks =
      split_from-join fields (suc (length (join separator fields))) [] ne lacks (omega arith)

  pub split-parts : (text : Bytes) → split separator text ≡ parts separator text
  split-parts text =
      subst (λ t. split separator t ≡ parts separator text) (join-parts separator text)
        (split-join (parts separator text) (parts-ne-nil separator text)
          (parts-Lacks separator text))

  -- Every text is the fields that `split` cuts it into, the empty ones included, with the
  -- separator between them, and no field holds the separator.
  pub join-split :
      (text : Bytes)
      → (join separator (split separator text) ≡ text)
        × All (Lacks separator) (split separator text)
  join-split text = rw (split-parts text) (join-parts separator text, parts-Lacks separator text)
