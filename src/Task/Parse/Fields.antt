-- ===== src/Task/Parse/Fields.antt =====
-- What the optional parts of a task's text are read as.
use Prim.Native.String.{String}
use dxfcxx_event_test.Base.{
  ℕ, ◌*◌, ◌/◌, ◌%◌, ◌≤◌, ◌<◌, ◌≡◌, refl, sym, ap, ◌∙◌, ◌≢◌, ◌⊎◌, inl, inr, Bool, true, false,
  Option, none, some, [], ◌∷◌, ◌++◌, append-nil, arith, leb, ◌==◌, if◌then◌else◌, lt→ltb,
  Bool-cases, ok, All, All-append, All-mono,
}
use dxfcxx_event_test.Text.{Bytes, to_string, scan_u64, scanned_all}
use dxfcxx_event_test.Text.Decimal.{
  IsDigit, to_string-IsDigits, to_string-ne-nil, scan_u64-to_string,
}
use dxfcxx_event_test.Text.Find.{Lacks, find-Lacks}
use dxfcxx_event_test.Duration.{int64_max, parse_duration}
use dxfcxx_event_test.Duration.Parse.{
  TimeUnit, milliseconds, seconds, suffix, in_milliseconds, parse_duration-suffix,
}
use dxfcxx_event_test.Task.{size_max, period_text}
use dxfcxx_event_test.Task.Parse.{
  no_duplicate, placed, period_in, whole_number, accept, number_in, not_empty,
}
use dxfcxx_event_test.Task.Parse.Sections.{IsPlain, field}

-- The text behind `@`, if the period is not the default one.
pub period_option : ℕ → Option Bytes
period_option period =
    if period == 1000
    then none
    else if period % 1000 == 0
    then some (to_string (period / 1000) ++ b's' ∷ [])
    else some (to_string period ++ b'm' ∷ b's' ∷ [])

pub period_text-field : (period : ℕ) → period_text period ≡ field b'@' (period_option period)
unfolding period_text period_option
period_text-field period = ground arith

digit-IsPlain : (c : ℕ) → IsDigit c → IsPlain c
digit-IsPlain c d = ground arith

pub to_string-IsPlain : (n : ℕ) → All IsPlain (to_string n)
to_string-IsPlain n = All-mono IsDigit IsPlain digit-IsPlain (to_string n) (to_string-IsDigits n)

-- A text that is read as the period.
pub record IsPeriod (period : ℕ) (t : Bytes) : Type 0 where
  pub nonempty : not_empty t ≡ true
  pub plain : All IsPlain t
  pub read : parse_duration t ≡ ok period

append-not_empty : (s t : Bytes) → s ≢ [] → not_empty (s ++ t) ≡ true
append-not_empty [] t h = absurd (h refl)
append-not_empty (c ∷ s) t h = refl

suffix-IsPlain : (u : TimeUnit) → All IsPlain (suffix u)
suffix-IsPlain TimeUnit.milliseconds = ground arith
suffix-IsPlain TimeUnit.seconds = ground arith
suffix-IsPlain TimeUnit.minutes = ground arith
suffix-IsPlain TimeUnit.hours = ground arith
suffix-IsPlain TimeUnit.unmarked = tt

suffixed-IsPeriod :
    (u : TimeUnit) (n period : ℕ)
    → 0 < n
    → n ≤ int64_max / in_milliseconds u
    → n * in_milliseconds u ≡ period
    → IsPeriod period (to_string n ++ suffix u)
suffixed-IsPeriod u n period low high e = record {
  nonempty = append-not_empty (to_string n) (suffix u) (to_string-ne-nil n);
  plain = All-append IsPlain (to_string n) (suffix u) (to_string-IsPlain n) (suffix-IsPlain u);
  read = parse_duration-suffix u n ∙ rw (lt→ltb 0 n low, le→leb n _ high) (ap ok e);
}
  where
    le→leb : (a b : ℕ) → a ≤ b → leb a b ≡ true
    le→leb a b h = ground arith

-- The printed period is the default one, or a text that is read as it.
pub period_option_cases :
    (period : ℕ)
    → 0 < period
    → period ≤ int64_max
    → ((period ≡ 1000) × (period_option period ≡ none))
      ⊎ ((t : Bytes) × (period_option period ≡ some t) × IsPeriod period t)
unfolding period_option
period_option_cases period low high = elim (Bool-cases (period == 1000)) [
  | inl default ↦ inl (ground arith, rw default)
  | inr other ↦ elim (Bool-cases (period % 1000 == 0)) [
    | inl whole ↦ inr (
      to_string (period / 1000) ++ b's' ∷ [],
      rw (other, whole),
      suffixed-IsPeriod seconds (period / 1000) period (ground arith) (omega arith) (ground arith),
    )
    | inr odd ↦ inr (
      to_string period ++ b'm' ∷ b's' ∷ [],
      rw (other, odd),
      suffixed-IsPeriod milliseconds period period low (omega arith) (omega arith),
    )
  ]
]

no_duplicate-IsPlain :
    (c separator : ℕ) (t : Bytes) (message : String)
    → Lacks c t
    → no_duplicate c separator t message ≡ ok tt
unfolding no_duplicate
no_duplicate-IsPlain c separator t message h = rw (find-Lacks c t h, no_duplicate)

pub period_in-IsPeriod :
    (separator period : ℕ) (t : Bytes) → IsPeriod period t → period_in separator t ≡ ok period
unfolding period_in placed
period_in-IsPeriod separator period t p = rw (
  p.nonempty,
  no_duplicate-IsPlain b'@' separator t _
      (All-mono IsPlain (λ d. (d == b'@') ≡ false) (λ d q. q.0) t p.plain),
  p.read,
)

whole_number-to_string : (n : ℕ) → n ≤ size_max → whole_number (to_string n) ≡ some n
unfolding whole_number
whole_number-to_string n h =
    ap (λ t. scanned_all (scan_u64 t)) (sym (append-nil (to_string n)))
    ∙ ap scanned_all (scan_u64-to_string n [] (omega arith) tt)

to_string-not_empty : (n : ℕ) → not_empty (to_string n) ≡ true
to_string-not_empty n =
    ap not_empty (sym (append-nil (to_string n)))
    ∙ append-not_empty (to_string n) [] (to_string-ne-nil n)

-- A printed number is read back, if it passes the part's test.
pub number_in-to_string :
    (c : ℕ) (absent repeated bad : String) (test : ℕ → Bool) (separator n : ℕ)
    → Lacks c (to_string n)
    → n ≤ size_max
    → test n ≡ true
    → number_in c absent repeated bad test separator (to_string n) ≡ ok n
unfolding number_in accept
number_in-to_string c absent repeated bad test separator n lacks fits good = rw (
  to_string-not_empty n,
  no_duplicate-IsPlain c separator (to_string n) repeated lacks,
  whole_number-to_string n fits,
  good,
)
