-- ===== src/Monitoring/Prefix.antt =====
-- The prefix that the plan gives a run is taken apart again into its profile and repetition.
use mathlib.Core.List.{reverse-append, reverse-reverse, cons-ne-nil}
use dxfcxx_event_test.Base.{
  ℕ, zero, suc, ◌-◌, ◌<◌, ◌≡◌, refl, sym, ap, ◌∙◌, ◌≢◌, true, some, [], ◌∷◌, ◌++◌, reverse,
  append_assoc, lt→ltb, length, replicate, All-append, All-reverse,
}
use dxfcxx_event_test.Text.{Bytes, codes, value, to_string, zero_padded, size_limit, span_digits}
use dxfcxx_event_test.Text.Decimal.{
  IsDigit, IsDigits, to_string-IsDigits, value-to_string, to_string-ne-nil, span_digits-append,
}
use dxfcxx_event_test.Text.Find.{Lacks}
use dxfcxx_event_test.Suite.{SuiteProfile, Suite}
use dxfcxx_event_test.Plan.{Overrides, run_of}
use dxfcxx_event_test.Monitoring.{one_line, groups, profile_or_text, parse_benchmark_profile}

one_line-true : (text : Bytes) → Lacks b'\n' text → Lacks b'\r' text → one_line text ≡ true
unfolding one_line
one_line-true [] n r = refl
one_line-true (c ∷ text) (n, ns) (r, rs) = rw (n, r, one_line-true text ns rs) refl

zeros-IsDigits : (k : ℕ) → IsDigits (replicate k b'0')
zeros-IsDigits zero = tt
zeros-IsDigits (suc k) = (refl, zeros-IsDigits k)

zero_padded-IsDigits : (w n : ℕ) → IsDigits (zero_padded w n)
unfolding zero_padded
zero_padded-IsDigits w n =
    All-append IsDigit _ _ (zeros-IsDigits (w - length (to_string n))) (to_string-IsDigits n)

value-zeros : (k : ℕ) (text : Bytes) → value (replicate k b'0' ++ text) ≡ value text
value-zeros zero text = refl
value-zeros (suc k) text = value-zeros k text

value-zero_padded : (w n : ℕ) → value (zero_padded w n) ≡ n
unfolding zero_padded
value-zero_padded w n = value-zeros (w - length (to_string n)) (to_string n) ∙ value-to_string n

append-ne-nil : (xs ys : Bytes) → ys ≢ [] → xs ++ ys ≢ []
append-ne-nil [] ys h = h
append-ne-nil (x ∷ xs) ys h = cons-ne-nil x (xs ++ ys)

reverse-ne-nil : (text : Bytes) → text ≢ [] → reverse text ≢ []
reverse-ne-nil text h e = h (sym (reverse-reverse text) ∙ ap reverse e)

groups-some :
    (digits front : Bytes)
    → digits ≢ []
    → front ≢ []
    → one_line front ≡ true
    → groups (digits, b'r' ∷ b'-' ∷ front) ≡ some (reverse front, reverse digits)
unfolding groups
groups-some [] front d f o = absurd (d refl)
groups-some (x ∷ digits) [] d f o = absurd (f refl)
groups-some (x ∷ digits) (c ∷ front) d f o = rw o refl

profile_or_text-fits :
    (text scenario digits : Bytes) (n : ℕ)
    → value digits ≡ n
    → n < size_limit
    → profile_or_text text (some (scenario, digits))
      ≡ record { scenario = scenario; repetition = n }
unfolding profile_or_text
profile_or_text-fits text scenario digits n v fits = rw (v, lt→ltb n size_limit fits) refl

reverse-prefix :
    (name digits : Bytes)
    → reverse (name ++ (b'-' ∷ b'r' ∷ digits)) ≡ reverse digits ++ (b'r' ∷ b'-' ∷ reverse name)
reverse-prefix name digits =
    reverse-append name (b'-' ∷ b'r' ∷ digits)
    ∙ ap (λ t. t ++ reverse name) (reverse-append (b'-' ∷ b'r' ∷ []) digits)
    ∙ append_assoc (reverse digits) (b'r' ∷ b'-' ∷ []) (reverse name)

parse-prefix :
    (name digits : Bytes) (n : ℕ)
    → name ≢ []
    → Lacks b'\n' name
    → Lacks b'\r' name
    → IsDigits digits
    → digits ≢ []
    → value digits ≡ n
    → n < size_limit
    → parse_benchmark_profile (name ++ (b'-' ∷ b'r' ∷ digits))
      ≡ record { scenario = name; repetition = n }
unfolding parse_benchmark_profile
parse-prefix name digits n ne nl cr ds dne v fits =
    let text = name ++ (b'-' ∷ b'r' ∷ digits) in
    let back = reverse name in
    let run =
      span_digits-append (reverse digits) (b'r' ∷ b'-' ∷ back) (All-reverse IsDigit digits ds)
        refl in
    let found =
      groups-some (reverse digits) back (reverse-ne-nil digits dne) (reverse-ne-nil name ne)
        (one_line-true back (All-reverse _ name nl) (All-reverse _ name cr)) in
    ap (λ t. profile_or_text text (groups (span_digits t))) (reverse-prefix name digits)
    ∙ ap (λ p. profile_or_text text (groups p)) run
    ∙ ap (profile_or_text text) found
    ∙ profile_or_text-fits text (reverse back) (reverse (reverse digits)) n
        (ap value (reverse-reverse digits) ∙ v) fits
    ∙ ap (λ s. record { scenario = s; repetition = n }) (reverse-reverse name)

zero_padded-ne-nil : (w n : ℕ) → zero_padded w n ≢ []
unfolding zero_padded
zero_padded-ne-nil w n =
    append-ne-nil (replicate (w - length (to_string n)) b'0') (to_string n) (to_string-ne-nil n)

prefix_of :
    (suite : Suite) (overrides : Overrides) (repetition : ℕ) (profile : SuiteProfile)
    → (run_of suite overrides repetition profile).prefix
      ≡ profile.name ++ (b'-' ∷ b'r' ∷ zero_padded 2 repetition)
unfolding run_of codes
prefix_of suite overrides repetition profile =
    append_assoc profile.name (b'-' ∷ b'r' ∷ []) (zero_padded 2 repetition)

-- The monitoring analysis takes the prefix that the plan gives a run apart into the run's profile
-- and repetition, whatever the name holds (another `-r` and digits, too), provided that the name
-- is not empty and is on one line, and that the repetition fits 64 bits.
pub parse_benchmark_profile-prefix :
    (suite : Suite) (overrides : Overrides) (repetition : ℕ) (profile : SuiteProfile)
    → profile.name ≢ []
    → Lacks b'\n' profile.name
    → Lacks b'\r' profile.name
    → repetition < size_limit
    → parse_benchmark_profile (run_of suite overrides repetition profile).prefix
      ≡ record { scenario = profile.name; repetition = repetition }
parse_benchmark_profile-prefix suite overrides repetition profile ne nl cr fits =
    ap parse_benchmark_profile (prefix_of suite overrides repetition profile)
    ∙ parse-prefix profile.name (zero_padded 2 repetition) repetition ne nl cr
        (zero_padded-IsDigits 2 repetition) (zero_padded-ne-nil 2 repetition)
        (value-zero_padded 2 repetition) fits
