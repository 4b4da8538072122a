-- ===== src/Text/Decimal.antt =====
-- Laws of the decimal printing and reading of `Text`: what is printed is read back.
use mathlib.Core.List.{foldl, cons-ne-nil}
use dxfcxx_event_test.Base.{
  ℕ, zero, suc, ◌+◌, ◌-◌, ◌*◌, ◌/◌, ◌%◌, ◌<◌, ◌≤◌, ◌≡◌, ◌≢◌, refl, sym, ap, ◌∙◌, Bool, true, false,
  [], ◌∷◌, ◌++◌, arith, ltb, length, All, All-append, Bool-cases, inl, inr,
}
use dxfcxx_event_test.Base.Int.{pos}
use dxfcxx_event_test.Text.{
  Bytes, is_digit, value, digits, to_string, scanned, out_of_range, span_digits, scan_run, scan_u64,
  scan_i64, size_limit, int64_limit,
}

abbrev pub IsDigit : ℕ → Type 0
IsDigit c = is_digit c ≡ true

abbrev pub IsDigits : Bytes → Type 0
IsDigits = All IsDigit

-- No digit follows.
abbrev pub Stops : Bytes → Type 0
Stops [] = Unit {0}
Stops (c ∷ text) = is_digit c ≡ false

value_from-snoc :
    (n : ℕ) (ds : Bytes) (c : ℕ)
    → foldl (λ m d. m * 10 + (d - b'0')) n (ds ++ c ∷ [])
      ≡ foldl (λ m d. m * 10 + (d - b'0')) n ds * 10 + (c - b'0')
value_from-snoc n [] c = refl
value_from-snoc n (d ∷ ds) c = value_from-snoc (n * 10 + (d - b'0')) ds c

pub value-snoc : (ds : Bytes) (c : ℕ) → value (ds ++ c ∷ []) ≡ value ds * 10 + (c - b'0')
value-snoc ds c = value_from-snoc 0 ds c

digits-IsDigits : (f n : ℕ) → IsDigits (digits f n)
unfolding digits
digits-IsDigits zero n = tt
digits-IsDigits (suc f) n = elim (Bool-cases (ltb n 10)) [
  | inl small ↦ rw small (ground arith, tt)
  | inr large ↦ rw large (
      All-append IsDigit (digits f (n / 10)) ((b'0' + n % 10) ∷ []) (digits-IsDigits f (n / 10))
        (ground arith, tt))
]

value-digits : (f n : ℕ) → n < f → value (digits f n) ≡ n
unfolding digits
value-digits zero n h = absurd (omega arith)
value-digits (suc f) n h = elim (Bool-cases (ltb n 10)) [
  | inl small ↦ rw small (omega arith)
  | inr large ↦ rw large (
      rw (value-snoc (digits f (n / 10)) (b'0' + n % 10), value-digits f (n / 10) (ground arith))
        (omega arith))
]

snoc-ne-nil : (ds : Bytes) (c : ℕ) → ds ++ c ∷ [] ≢ []
snoc-ne-nil [] c = cons-ne-nil c []
snoc-ne-nil (d ∷ ds) c = cons-ne-nil d (ds ++ c ∷ [])

digits-ne-nil : (f n : ℕ) → digits (suc f) n ≢ []
unfolding digits
digits-ne-nil f n = elim (Bool-cases (ltb n 10)) [
  | inl small ↦ rw small (cons-ne-nil _ _)
  | inr large ↦ rw large (snoc-ne-nil (digits f (n / 10)) _)
]

pub to_string-IsDigits : (n : ℕ) → IsDigits (to_string n)
unfolding to_string
to_string-IsDigits n = digits-IsDigits (suc n) n

pub value-to_string : (n : ℕ) → value (to_string n) ≡ n
unfolding to_string
value-to_string n = value-digits (suc n) n (omega arith)

pub to_string-ne-nil : (n : ℕ) → to_string n ≢ []
unfolding to_string
to_string-ne-nil n = digits-ne-nil n n

pub to_string-injective : (m n : ℕ) → to_string m ≡ to_string n → m ≡ n
to_string-injective m n e = sym (value-to_string m) ∙ ap value e ∙ value-to_string n

-- A printed number as a first digit and the rest of them.
pub uncons-digits :
    (ds : Bytes) → ds ≢ [] → IsDigits ds → (c : ℕ) × (cs : Bytes) × (ds ≡ c ∷ cs) × IsDigit c
uncons-digits [] h _ = absurd (h refl)
uncons-digits (c ∷ cs) h (d, ds) = (c, cs, refl, d)

span-Stops : (rest : Bytes) → Stops rest → span_digits rest ≡ ([], rest)
unfolding span_digits
span-Stops [] h = refl
span-Stops (c ∷ rest) h = ground arith

pub span_digits-append :
    (ds rest : Bytes) → IsDigits ds → Stops rest → span_digits (ds ++ rest) ≡ (ds, rest)
unfolding span_digits
span_digits-append [] rest _ h = span-Stops rest h
span_digits-append (c ∷ ds) rest (d, hs) h = rw (span_digits-append ds rest hs h, d)

scan_run-digits :
    {A : Type 0} (fits : ℕ → Bool) (read : ℕ → A) (ds rest : Bytes)
    → ds ≢ []
    → fits (value ds) ≡ true
    → scan_run fits read (ds, rest) ≡ scanned (read (value ds)) rest
unfolding scan_run
scan_run-digits fits read [] rest ne h = absurd (ne refl)
scan_run-digits fits read (c ∷ ds) rest ne h = rw h

-- A printed number that fits is read back, and the reading stops where it ends.
pub scan_u64-to_string :
    (n : ℕ) (rest : Bytes)
    → n < size_limit
    → Stops rest
    → scan_u64 (to_string n ++ rest) ≡ scanned n rest
unfolding scan_u64
scan_u64-to_string n rest fits h =
    ap (scan_run (λ m. ltb m size_limit) (λ m. m))
      (span_digits-append (to_string n) rest (to_string-IsDigits n) h)
    ∙ scan_run-digits (λ m. ltb m size_limit) (λ m. m) (to_string n) rest (to_string-ne-nil n)
        (rw (value-to_string n) (ground arith))
    ∙ ap (λ m. scanned m rest) (value-to_string n)

scan_run-overflow :
    {A : Type 0} (fits : ℕ → Bool) (read : ℕ → A) (ds rest : Bytes)
    → ds ≢ []
    → fits (value ds) ≡ false
    → scan_run fits read (ds, rest) ≡ out_of_range rest
unfolding scan_run
scan_run-overflow fits read [] rest ne h = absurd (ne refl)
scan_run-overflow fits read (c ∷ ds) rest ne h = rw h

scan_i64_digit :
    (c : ℕ) (text : Bytes)
    → IsDigit c
    → scan_i64 (c ∷ text) ≡ scan_run (λ n. ltb n int64_limit) pos (span_digits (c ∷ text))
unfolding scan_i64
scan_i64_digit c text d = ground arith

scan_i64_printed :
    (n : ℕ) (rest : Bytes)
    → Stops rest
    → scan_i64 (to_string n ++ rest) ≡ scan_run (λ m. ltb m int64_limit) pos (to_string n, rest)
scan_i64_printed n rest h =
    let (c, cs, e, d) = uncons-digits (to_string n) (to_string-ne-nil n) (to_string-IsDigits n) in
    ap (λ t. scan_i64 (t ++ rest)) e
    ∙ scan_i64_digit c (cs ++ rest) d
    ∙ ap (λ t. scan_run (λ m. ltb m int64_limit) pos (span_digits (t ++ rest))) (sym e)
    ∙ ap (scan_run (λ m. ltb m int64_limit) pos)
        (span_digits-append (to_string n) rest (to_string-IsDigits n) h)

pub scan_i64-to_string :
    (n : ℕ) (rest : Bytes)
    → n < int64_limit
    → Stops rest
    → scan_i64 (to_string n ++ rest) ≡ scanned (pos n) rest
scan_i64-to_string n rest fits h =
    scan_i64_printed n rest h
    ∙ scan_run-digits (λ m. ltb m int64_limit) pos (to_string n) rest (to_string-ne-nil n)
        (rw (value-to_string n) (ground arith))
    ∙ ap (λ m. scanned (pos m) rest) (value-to_string n)

pub scan_i64-overflow :
    (n : ℕ) (rest : Bytes)
    → int64_limit ≤ n
    → Stops rest
    → scan_i64 (to_string n ++ rest) ≡ out_of_range rest
scan_i64-overflow n rest large h =
    scan_i64_printed n rest h
    ∙ scan_run-overflow (λ m. ltb m int64_limit) pos (to_string n) rest (to_string-ne-nil n)
        (rw (value-to_string n) (ground arith))

-- The digits and the rest make up the text.
pub length-span_digits :
    (text : Bytes) → length (span_digits text).0 + length (span_digits text).1 ≡ length text
unfolding span_digits
length-span_digits [] = refl
length-span_digits (c ∷ text) = ground (arith, length-span_digits text)

scan_run_sound :
    {A : Type 0} (fits : ℕ → Bool) (read : ℕ → A) (p : Bytes × Bytes) {a : A} {rest : Bytes}
    → scan_run fits read p ≡ scanned a rest
    → (a ≡ read (value p.0)) × (fits (value p.0) ≡ true) × (rest ≡ p.1) × (p.0 ≢ [])
unfolding scan_run
scan_run_sound fits read ([], r) h = cc
scan_run_sound fits read (c ∷ ds, r) h = ground (arith, cons-ne-nil c ds)

length-pos : (ds : Bytes) → ds ≢ [] → 0 < length ds
length-pos [] h = absurd (h refl)
length-pos (d ∷ ds) h = omega arith

-- A value that is read fits its type, and at least one byte is consumed.
pub scan_u64_sound :
    (text : Bytes) {n : ℕ} {rest : Bytes}
    → scan_u64 text ≡ scanned n rest
    → (n < size_limit) × (length rest < length text)
unfolding scan_u64
scan_u64_sound text {n} {rest} h =
    let (exact, fits, e, ne) =
      scan_run_sound (λ m. ltb m size_limit) (λ m. m) (span_digits text) h in
    (
      ground arith,
      omega (arith, ap length e, length-pos (span_digits text).0 ne, length-span_digits text),
    )
