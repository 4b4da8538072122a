-- ===== src/Run/Analyzer.antt =====
-- The analyzer reads the command line that the runner builds for it.
use dxfcxx_event_test.Base.{
  [], some, ◌⊎◌, inl, inr, false, Bool-cases, ℕ, ◌≡◌, refl, ap, ◌∙◌, none, ◌∷◌, Result, ok, err,
  ◌>>=◌,
}
use dxfcxx_event_test.Text.{Bytes, codes, same, ends_with, scan_i64}
use dxfcxx_event_test.Text.Find.{same_sound}
use dxfcxx_event_test.Duration.{parse_duration, parse_monitoring_period}
use dxfcxx_event_test.Arguments.{bad_value, with_value, read_arguments}
use dxfcxx_event_test.Clients.Analyzer.{Config, set_option, with_directory, parse_args}
use dxfcxx_event_test.Suite.{Suite}
use dxfcxx_event_test.Run.{analyzer_arguments}

abbrev pub config : ℕ → Bytes → ℕ → Config
config b path d = record { run_directory = b ∷ path; monitoring_period = d }

checked :
    (b : ℕ) (path : Bytes) (parsed : Result Bytes ℕ)
    → (with_value parsed (config b path) >>= (λ c. ok c) >>= λ c. with_directory c c.run_directory)
      ≡ with_value parsed (config b path)
unfolding with_value with_directory
checked b path (ok d) = refl
checked b path (err e) = refl

zero_is_off : parse_monitoring_period (codes "0") ≡ ok none
unfolding parse_monitoring_period same codes
zero_is_off = refl

zero_is_no_duration : (e : Bytes) × (parse_duration (codes "0") ≡ err e)
unfolding parse_duration codes scan_i64 ends_with
zero_is_no_duration = (_, refl)

module _ (suite : Suite) (b : ℕ) (path : Bytes) where
  -- The analyzer reads the directory, which is not empty, and the suite's monitoring period as a
  -- duration, or refuses it as the parser of durations does.
  pub analyzer_arguments-read :
      parse_args (analyzer_arguments suite (b ∷ path))
      ≡ with_value (parse_duration suite.monitoring_period) (config b path)
  unfolding parse_args analyzer_arguments read_arguments set_option same codes
  analyzer_arguments-read = checked b path (parse_duration suite.monitoring_period)

  -- What the two parsers make of the suite's monitoring period, when it is not `0`.
  ReadAlike : Type 0
  ReadAlike =
      ((d : ℕ) × (parse_monitoring_period suite.monitoring_period ≡ ok (some d))
        × (parse_args (analyzer_arguments suite (b ∷ path)) ≡ ok (config b path d)))
      ⊎ ((e : Bytes) × (parse_monitoring_period suite.monitoring_period ≡ err e)
          × (parse_args (analyzer_arguments suite (b ∷ path)) ≡ err (bad_value e)))

  read_alike :
      same suite.monitoring_period (b'0' ∷ []) ≡ false
      → (parsed : Result Bytes ℕ) → parse_duration suite.monitoring_period ≡ parsed
      → ReadAlike
  unfolding ReadAlike with_value parse_monitoring_period
  read_alike other (ok d) e =
      inl
        (d, rw (other, e) refl, analyzer_arguments-read ∙ ap (λ r. with_value r (config b path)) e)
  read_alike other (err reason) e = inr (
    reason,
    rw (other, e) refl,
    analyzer_arguments-read ∙ ap (λ r. with_value r (config b path)) e,
  )

  -- The analyzer, on the command line that the runner makes for it with a directory that is not
  -- empty, takes each monitoring period that `parseMonitoringPeriod` takes as a duration, reads that
  -- directory and that duration, and refuses the texts that `parseMonitoringPeriod` refuses, with
  -- the same error; but it also refuses `0`, which `parseMonitoringPeriod` takes as no period.
  pub analyzer_arguments-parse_monitoring_period :
      ((suite.monitoring_period ≡ codes "0")
        × (parse_monitoring_period suite.monitoring_period ≡ ok none)
        × ((e : Bytes) × (parse_args (analyzer_arguments suite (b ∷ path)) ≡ err (bad_value e))))
      ⊎ (((d : ℕ) × (parse_monitoring_period suite.monitoring_period ≡ ok (some d))
            × (parse_args (analyzer_arguments suite (b ∷ path)) ≡ ok (config b path d)))
          ⊎ ((e : Bytes) × (parse_monitoring_period suite.monitoring_period ≡ err e)
              × (parse_args (analyzer_arguments suite (b ∷ path)) ≡ err (bad_value e))))
  unfolding with_value ReadAlike codes
  analyzer_arguments-parse_monitoring_period =
      elim (Bool-cases (same suite.monitoring_period (b'0' ∷ []))) [
        | inl off ↦
            let h : suite.monitoring_period ≡ codes "0" =
              same_sound suite.monitoring_period (b'0' ∷ []) off in
            let (e, refused) = zero_is_no_duration in
            inl (
              h,
              ap parse_monitoring_period h ∙ zero_is_off,
              (
                e,
                analyzer_arguments-read
                    ∙ ap (λ text. with_value (parse_duration text) (config b path)) h
                    ∙ ap (λ r. with_value r (config b path)) refused,
              ),
            )
        | inr other ↦ inr (read_alike other (parse_duration suite.monitoring_period) refl)
      ]
