-- ===== src/Duration/Parse.antt =====
-- `parseDuration` on a printed number with each suffix, and the range of what it accepts.
use mathlib.Core.List.{reverse-append, cons-ne-nil}
use dxfcxx_event_test.Base.{
  ℕ, ◌-◌, ◌*◌, ◌/◌, ◌≤◌, ◌<◌, ◌≡◌, refl, ap, ◌∙◌, ◌≢◌, inl, inr, false, ◌&&◌, [], ◌∷◌, ◌++◌,
  reverse, append-nil, arith, ltb, leb, if◌then◌else◌, ltb→lt, ltb→ge, Bool-cases, Result, ok, err,
  length, length-append, length-reverse, take-length-append, All-reverse,
}
use dxfcxx_event_test.Base.Int.{ℤ, pos, negsuc}
use dxfcxx_event_test.Text.{
  Bytes, starts_with, ends_with, remove_suffix, is_digit, to_string, int64_limit, Scan, invalid,
  out_of_range, scanned, scan_i64,
}
use dxfcxx_event_test.Text.Decimal.{
  IsDigit, IsDigits, to_string-IsDigits, to_string-ne-nil, uncons-digits, scan_i64-to_string,
  scan_i64-overflow,
}
use dxfcxx_event_test.Duration.{
  int64_max, unit_of, duration_of, read_units, parse_duration, invalid_duration,
}

-- The suffixes that a duration may have.
pub data TimeUnit : Type 0 where
  milliseconds seconds minutes hours unmarked : TimeUnit

abbrev pub suffix : TimeUnit → Bytes
suffix milliseconds = b'm' ∷ b's' ∷ []
suffix seconds = b's' ∷ []
suffix minutes = b'm' ∷ []
suffix hours = b'h' ∷ []
suffix unmarked = []

abbrev pub in_milliseconds : TimeUnit → ℕ
in_milliseconds milliseconds = 1
in_milliseconds seconds = 1000
in_milliseconds minutes = 60_000
in_milliseconds hours = 3_600_000
in_milliseconds unmarked = 1000

reverse-ne-nil : (ds : Bytes) → ds ≢ [] → reverse ds ≢ []
reverse-ne-nil [] h = absurd (h refl)
reverse-ne-nil (d ∷ ds) h = λ e. absurd (omega (arith, length-reverse (d ∷ ds), ap length e))

last-IsDigit :
    (ds : Bytes)
    → ds ≢ []
    → IsDigits ds
    → (c : ℕ) × (cs : Bytes) × (reverse ds ≡ c ∷ cs) × IsDigit c
last-IsDigit ds ne h = uncons-digits (reverse ds) (reverse-ne-nil ds ne) (All-reverse IsDigit ds h)

-- The suffix test sees the last bytes only.
ends_with-append :
    (s ds t : Bytes) → ends_with s (ds ++ t) ≡ starts_with (reverse s) (reverse t ++ reverse ds)
unfolding ends_with
ends_with-append s ds t = rw (reverse-append ds t)

remove_suffix-append : (ds t : Bytes) → remove_suffix (length t) (ds ++ t) ≡ ds
remove_suffix-append ds t =
    let e : length (ds ++ t) - length t ≡ length ds = omega (arith, length-append ds t) in
    rw e (take-length-append ds t)

ends_with-digits :
    (x : ℕ) (front ds : Bytes)
    → is_digit x ≡ false
    → ds ≢ []
    → IsDigits ds
    → ends_with (front ++ x ∷ []) ds ≡ false
unfolding ends_with starts_with
ends_with-digits x front ds nx ne h =
    let (c, cs, e, d) = last-IsDigit ds ne h in rw (e, reverse-append front (x ∷ [])) (ground arith)

unit_of-suffix :
    (u : TimeUnit) (ds : Bytes)
    → ds ≢ []
    → IsDigits ds
    → unit_of (ds ++ suffix u) ≡ (in_milliseconds u, ds)
unfolding unit_of starts_with
unit_of-suffix milliseconds ds ne h =
    rw (ends_with-append, remove_suffix-append ds (b'm' ∷ b's' ∷ []))
unit_of-suffix seconds ds ne h =
    let (c, cs, e, d) = last-IsDigit ds ne h in
    simp (ends_with-append, remove_suffix-append ds (b's' ∷ [])) (ground arith)
unit_of-suffix minutes ds ne h =
    simp (ends_with-append, remove_suffix-append ds (b'm' ∷ [])) (ground arith)
unit_of-suffix hours ds ne h =
    let (c, cs, e, d) = last-IsDigit ds ne h in
    simp (ends_with-append, e, remove_suffix-append ds (b'h' ∷ [])) (ground arith)
unit_of-suffix unmarked ds ne h = rw (
  append-nil,
  ends_with-digits b's' (b'm' ∷ []) ds refl ne h,
  ends_with-digits b's' [] ds refl ne h,
  ends_with-digits b'm' [] ds refl ne h,
  ends_with-digits b'h' [] ds refl ne h,
)

-- The limit of a unit is below the largest count of milliseconds.
limit-lt : (u : TimeUnit) (n : ℕ) → int64_limit ≤ n → leb n (int64_max / in_milliseconds u) ≡ false
limit-lt milliseconds n h = ground arith
limit-lt seconds n h = ground arith
limit-lt minutes n h = ground arith
limit-lt hours n h = ground arith
limit-lt unmarked n h = ground arith

-- The accepted range, and what is returned or refused.
abbrev pub Reads : TimeUnit → ℕ → Bytes → Result Bytes ℕ
Reads u n text =
    if ltb 0 n && leb n (int64_max / in_milliseconds u)
    then ok (n * in_milliseconds u)
    else err (invalid_duration text)

duration_of-printed :
    (text : Bytes) (u : TimeUnit) (n : ℕ)
    → duration_of text (in_milliseconds u) (scan_i64 (to_string n)) ≡ Reads u n text
unfolding duration_of
duration_of-printed text u n = elim (Bool-cases (ltb n int64_limit)) [
  | inl small ↦
      rw (← append-nil (to_string n), scan_i64-to_string n [] (ltb→lt n int64_limit small) tt)
        (ground arith)
  | inr large ↦
      let big = ltb→ge n int64_limit large in
      rw (← append-nil (to_string n), scan_i64-overflow n [] big tt, limit-lt u n big)
        (ground arith)
]

parse_duration-ne-nil :
    (text : Bytes) → text ≢ [] → parse_duration text ≡ read_units text (unit_of text)
unfolding parse_duration
parse_duration-ne-nil [] h = absurd (h refl)
parse_duration-ne-nil (c ∷ text) h = refl

append-ne-nil : (ds t : Bytes) → ds ≢ [] → ds ++ t ≢ []
append-ne-nil [] t h = absurd (h refl)
append-ne-nil (d ∷ ds) t h = cons-ne-nil d (ds ++ t)

-- A printed number with a unit is read as that many units when it is positive and its milliseconds
-- fit, and refused with the text in the message otherwise; no suffix is taken for another.
pub parse_duration-suffix :
    (u : TimeUnit) (n : ℕ)
    → parse_duration (to_string n ++ suffix u) ≡ Reads u n (to_string n ++ suffix u)
unfolding read_units
parse_duration-suffix u n =
    parse_duration-ne-nil _ (append-ne-nil (to_string n) (suffix u) (to_string-ne-nil n))
    ∙ ap (read_units (to_string n ++ suffix u))
        (unit_of-suffix u (to_string n) (to_string-ne-nil n) (to_string-IsDigits n))
    ∙ duration_of-printed (to_string n ++ suffix u) u n

multiplier_of-pos : (text : Bytes) → 0 < (unit_of text).0
unfolding unit_of
multiplier_of-pos text = ground arith

product_fits : (m n : ℕ) → 0 < m → n ≤ int64_max / m → n * m ≤ int64_max
product_fits m n p h = grind arith

product_pos : (m n : ℕ) → 0 < m → 0 < n → 0 < n * m
product_pos m n p h = grind arith

duration_of_sound :
    (text : Bytes) (m : ℕ) (s : Scan ℤ) {d : ℕ}
    → 0 < m
    → duration_of text m s ≡ ok d
    → (0 < d) × (d ≤ int64_max)
unfolding duration_of
duration_of_sound text m invalid p h = cc
duration_of_sound text m (out_of_range rest) p h = cc
duration_of_sound text m (scanned v (c ∷ rest)) p h = cc
duration_of_sound text m (scanned (pos n) []) p h =
    ground (arith, product_fits m n, product_pos m n)
duration_of_sound text m (scanned (negsuc n) []) p h = ground arith

-- An accepted duration is positive and fits the signed 64-bit count of milliseconds: the product
-- does not overflow, for any text.
pub parse_duration_bounds :
    (text : Bytes) {d : ℕ} → parse_duration text ≡ ok d → (0 < d) × (d ≤ int64_max)
unfolding parse_duration read_units
parse_duration_bounds [] h = cc
parse_duration_bounds (c ∷ text) h =
    duration_of_sound (c ∷ text) _ (scan_i64 (unit_of (c ∷ text)).1) (multiplier_of-pos (c ∷ text))
      h
