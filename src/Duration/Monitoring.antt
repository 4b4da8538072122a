-- ===== src/Duration/Monitoring.antt =====
-- `parseMonitoringPeriod` and `monitoringPeriodPropertyValue`: what is printed is the exact period.
use dxfcxx_event_test.Base.{
  ℕ, zero, suc, ◌+◌, ◌-◌, ◌*◌, ◌/◌, ◌%◌, ◌^◌, ◌≤◌, ◌<◌, ◌≡◌, ◌≢◌, refl, ◌⊎◌, inl, inr, Bool, true,
  false, not, ◌&&◌, ◌||◌, Option, none, some, [], ◌∷◌, ◌++◌, arith, leb, ◌==◌, Bool-cases, ok,
  >>=-eq-ok, length,
}
use dxfcxx_event_test.Text.{Bytes, same, is_digit, value, to_string, zero_padded}
use dxfcxx_event_test.Text.Decimal.{IsDigits, to_string-IsDigits, to_string-ne-nil, value-to_string}
use dxfcxx_event_test.Text.Find.{same_sound}
use dxfcxx_event_test.Duration.{
  int64_max, parse_duration, parse_monitoring_period, fraction_of, monitoring_value,
}
use dxfcxx_event_test.Duration.Parse.{parse_duration_bounds}

-- The literal `0` alone disables monitoring; any other accepted text is a duration that fits.
pub parse_monitoring_period_cases :
    (text : Bytes) {p : Option ℕ}
    → parse_monitoring_period text ≡ ok p
    → ((text ≡ b'0' ∷ []) × (p ≡ none))
      ⊎ ((d : ℕ) × (p ≡ some d) × (parse_duration text ≡ ok d) × (0 < d) × (d ≤ int64_max))
unfolding parse_monitoring_period
parse_monitoring_period_cases text {p} h = elim (Bool-cases (same text (b'0' ∷ []))) [
  | inl off ↦ inl (same_sound text (b'0' ∷ []) off, ground arith)
  | inr other ↦
      let (d, e, f) = >>=-eq-ok (parse_duration text) (λ d. ok (some d)) {b = p} (ground arith) in
      let (low, high) = parse_duration_bounds text e in inr (d, ground arith, e, low, high)
]

-- A test that every number under a bound passes.
passes : (ℕ → Bool) → ℕ → Bool
passes test zero = true
passes test (suc bound) = passes test bound && test bound

passes-each : (test : ℕ → Bool) (bound k : ℕ) → passes test bound ≡ true → k < bound → test k ≡ true
unfolding passes
passes-each test zero k all small = absurd (omega arith)
passes-each test (suc bound) k all small = ground (arith, passes-each test bound k)

pub last_zero : Bytes → Bool
last_zero [] = true
last_zero (c ∷ []) = c == b'0'
last_zero (c ∷ d ∷ text) = last_zero (d ∷ text)

are_digits : Bytes → Bool
are_digits [] = true
are_digits (c ∷ text) = is_digit c && are_digits text

are_digits-IsDigits : (text : Bytes) → are_digits text ≡ true → IsDigits text
unfolding are_digits
are_digits-IsDigits [] h = tt
are_digits-IsDigits (c ∷ text) h = elim (Bool-cases (is_digit c)) [
  | inl e ↦ (e, are_digits-IsDigits text (rw e at h))
  | inr e ↦ absurd (cc (rw e at h))
]

fraction_ok : ℕ → Bool
fraction_ok r =
    r == 0
    || (are_digits (fraction_of r)
        && value (fraction_of r) * 10 ^ (3 - length (fraction_of r)) == r
        && leb (length (fraction_of r)) 3
        && not (last_zero (fraction_of r)))

fraction_table : passes fraction_ok 1000 ≡ true
unfolding passes fraction_ok fraction_of last_zero zero_padded are_digits
fraction_table = refl

fraction_of-ok : (r : ℕ) → r < 1000 → fraction_ok r ≡ true
fraction_of-ok r h = passes-each fraction_ok 1000 r fraction_table h

-- The digits behind the point, as a part of the text; there is no point without them.
abbrev pub pointed : Bytes → Bytes
pointed [] = []
pointed (c ∷ text) = b'.' ∷ c ∷ text

-- `whole` and `fraction` are decimal digits that spell a number of thousandths; the whole part is not
-- empty, and the fraction has no trailing zero.
pub record Spells (ms : ℕ) (text : Bytes) : Type 0 where
  pub whole : Bytes
  pub fraction : Bytes
  pub spelled : text ≡ whole ++ (pointed fraction ++ b's' ∷ [])
  pub digits : IsDigits whole × (whole ≢ [])
  pub fraction_digits : IsDigits fraction
  pub exact : value whole * 1000 + value fraction * 10 ^ (3 - length fraction) ≡ ms
  pub short : length fraction ≤ 3
  pub trimmed : (fraction ≡ []) ⊎ (last_zero fraction ≡ false)

fraction-Spells :
    (ms : ℕ) (f : Bytes)
    → (are_digits f
        && value f * 10 ^ (3 - length f) == ms % 1000
        && leb (length f) 3
        && not (last_zero f))
      ≡ true
    → Spells ms (to_string (ms / 1000) ++ b'.' ∷ (f ++ b's' ∷ []))
unfolding last_zero
fraction-Spells ms [] h = absurd (ground arith)
fraction-Spells ms (c ∷ f) h = record {
  whole = to_string (ms / 1000);
  fraction = c ∷ f;
  spelled = refl;
  digits = (to_string-IsDigits (ms / 1000), to_string-ne-nil (ms / 1000));
  fraction_digits = are_digits-IsDigits (c ∷ f) (ground arith);
  exact = ground (arith, value-to_string (ms / 1000));
  short = ground arith;
  trimmed = inr (ground arith);
}

-- The printed value of a period spells its seconds in decimal digits, with up to three of them behind
-- a point, the last of which is not 0, and is exactly the period.
pub monitoring_value_exact : (ms : ℕ) → Spells ms (monitoring_value (some ms))
unfolding monitoring_value
monitoring_value_exact ms = elim (Bool-cases (ms % 1000 == 0)) [
  | inl even ↦ rw even (record {
    whole = to_string (ms / 1000);
    fraction = [];
    spelled = refl;
    digits = (to_string-IsDigits (ms / 1000), to_string-ne-nil (ms / 1000));
    fraction_digits = tt;
    exact = ground (arith, value-to_string (ms / 1000));
    short = omega arith;
    trimmed = inl refl;
  })
  | inr odd ↦ rw odd (
      fraction-Spells ms (fraction_of (ms % 1000))
        (unfold fraction_ok in (rw odd at (fraction_of-ok (ms % 1000) (omega arith)))))
]
