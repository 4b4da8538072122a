-- ===== src/Task/Parse/Valid/Numbers.antt =====
-- What the checks and numbers in the sections of a task let pass.
use Prim.Native.String.{String}
use dxfcxx_event_test.Base.{
  ℕ, ◌+◌, ◌≤◌, ◌<◌, ◌≡◌, refl, ap, inl, inr, Bool, true, false, Option, none, some, [], ◌∷◌, arith,
  if◌then◌else◌, Bool-cases, Result, ok, err, ◌>>◌, >>=-eq-ok,
}
use dxfcxx_event_test.Text.{Bytes, Scan, invalid, out_of_range, scanned, scan_u64, scanned_all}
use dxfcxx_event_test.Text.Decimal.{scan_u64_sound}
use dxfcxx_event_test.Duration.{int64_max, parse_duration}
use dxfcxx_event_test.Duration.Parse.{parse_duration_bounds}
use dxfcxx_event_test.Task.{ParseError, size_max}
use dxfcxx_event_test.Task.Parse.{
  Parsed, no_duplicate, placed, whole_number, accept, not_empty, period_in, number_in, period_in,
  number_in,
}

pub require_ok :
    {A : Type 0} (test : Bool) (e : ParseError) (rest : Parsed A) {a : A}
    → ((if test then ok tt else err e) >> rest) ≡ ok a
    → (test ≡ true) × (rest ≡ ok a)
require_ok true e rest h = (refl, h)
require_ok false e rest h = cc

pub placed_ok : (position : ℕ) (r : Result Bytes ℕ) {p : ℕ} → placed position r ≡ ok p → r ≡ ok p
unfolding placed
placed_ok position (ok a) h = cc
placed_ok position (err e) h = cc

pub accept_ok :
    (test : ℕ → Bool) (position : ℕ) (message : String) (o : Option ℕ) {n : ℕ}
    → accept test position message o ≡ ok n
    → (o ≡ some n) × (test n ≡ true)
unfolding accept
accept_ok test position message none h = cc
accept_ok test position message (some m) {n} h = elim (Bool-cases (test m)) [
  | inl good ↦ let e : m ≡ n = ground arith in (ap some e, rw (← e) good)
  | inr bad ↦ absurd (ground arith)
]

pub scanned_all_le :
    (text : Bytes) (s : Scan ℕ) {n : ℕ} → scan_u64 text ≡ s → scanned_all s ≡ some n → n ≤ size_max
scanned_all_le text invalid e h = cc
scanned_all_le text (out_of_range rest) e h = cc
scanned_all_le text (scanned m []) e h = ground (arith, scan_u64_sound text e)
scanned_all_le text (scanned m (c ∷ rest)) e h = cc

pub whole_number_le : (text : Bytes) {n : ℕ} → whole_number text ≡ some n → n ≤ size_max
unfolding whole_number
whole_number_le text h = scanned_all_le text (scan_u64 text) refl h

pub period_in_bounds :
    (separator : ℕ) (text : Bytes) {p : ℕ}
    → period_in separator text ≡ ok p
    → (0 < p) × (p ≤ int64_max)
unfolding period_in
period_in_bounds separator text {p} h =
    let (_, h1) = require_ok (not_empty text) _ _ h in
    let (_, _, h2) =
      >>=-eq-ok (no_duplicate b'@' separator text "duplicate publish period")
        (λ _. placed (separator + 1) (parse_duration text)) {b = p} h1 in
    parse_duration_bounds text (placed_ok (separator + 1) (parse_duration text) h2)

pub number_in_sound :
    (c : ℕ) (absent repeated bad : String) (test : ℕ → Bool) (separator : ℕ) (text : Bytes) {n : ℕ}
    → number_in c absent repeated bad test separator text ≡ ok n
    → (test n ≡ true) × (n ≤ size_max)
unfolding number_in
number_in_sound c absent repeated bad test separator text {n} h =
    let (_, h1) = require_ok (not_empty text) _ _ h in
    let (_, _, h2) =
      >>=-eq-ok (no_duplicate c separator text repeated)
        (λ _. accept test (separator + 1) bad (whole_number text)) {b = n} h1 in
    let (e, good) = accept_ok test (separator + 1) bad (whole_number text) h2 in
    (good, whole_number_le text e)
