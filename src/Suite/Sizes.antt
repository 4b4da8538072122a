-- ===== src/Suite/Sizes.antt =====
-- The sizes that the settings leave in a suite.
use dxfcxx_event_test.Base.{
  ℕ, ◌<◌, ◌≡◌, sym, ◌∙◌, subst, inl, inr, true, false, ◌||◌, Option, none, some, List, [], ◌∷◌,
  ◌==◌, Option-cases, ok, guard, >>=-eq-ok, >>-eq-ok, ok-injective, some-injective, none-ne-some,
  All,
}
use dxfcxx_event_test.Text.{
  Bytes, codes, size_limit, Scan, invalid, out_of_range, scanned, scan_u64, scanned_all,
}
use dxfcxx_event_test.Text.Decimal.{scan_u64_sound}
use dxfcxx_event_test.Suite.{Experiment, SuiteProfile, Suite, partial_experiment}
use dxfcxx_event_test.Suite.Settings.{Settings, find_key, parse_size, parse_size-pos, parse_boolean}
use dxfcxx_event_test.Suite.Assign.{
  require, Target, assign_all, required_texts, assign_repetitions, assign_cooldown, fill_text,
  fill_texts, optional_texts, assign_history, assign_active, assign_after, assign_unsubscribe,
  complete_experiment, experiment_texts, fill_experiments, assign_experiment, assign_settings,
  check_known,
}

abbrev pub IsSize : ℕ → Type 0
IsSize n = (0 < n) × (n < size_limit)

-- The history limit of a profile, where it has one.
abbrev pub HistoryIsSize : SuiteProfile → Type 0
HistoryIsSize profile = (n : ℕ) → profile.time_series_history_limit ≡ some n → IsSize n

pub record Sizes (repetitions history : ℕ) (active : Option ℕ) (profiles : List SuiteProfile)
    : Type 0 where
  pub repetitions_is : IsSize repetitions
  pub history_is : IsSize history
  pub active_is : (n : ℕ) → active ≡ some n → IsSize n
  pub profiles_are : All HistoryIsSize profiles

abbrev pub IsSized : Suite → Type 0
IsSized s = Sizes s.repetitions s.time_series_history_limit s.active_symbol_count s.profiles

scanned_all-eq-some : (s : Scan ℕ) {n : ℕ} → scanned_all s ≡ some n → s ≡ scanned n []
scanned_all-eq-some invalid h = cc
scanned_all-eq-some (out_of_range rest) h = cc
scanned_all-eq-some (scanned a []) h = cc
scanned_all-eq-some (scanned a (c ∷ rest)) h = cc

pub parse_size-IsSize : (name text : Bytes) {n : ℕ} → parse_size false name text ≡ ok n → IsSize n
parse_size-IsSize name text h =
    let (positive, read) = parse_size-pos name text h in
    (positive, (scan_u64_sound text (scanned_all-eq-some (scan_u64 text) read)).0)

module _ (P : Suite → Type 0) where
  -- Filling the field keeps the property.
  abbrev Keeps : Target → Type 0
  Keeps (name, fill) = (v : Bytes) (s : Suite) → P s → P (fill v s)

  assign_all-keeps :
      (settings : Settings) (targets : List Target) (s : Suite) {r : Suite}
      → All Keeps targets
      → P s
      → assign_all settings targets s ≡ ok r
      → P r
  unfolding assign_all
  assign_all-keeps settings [] s keeps p h = subst P (ok-injective h) p
  assign_all-keeps settings ((name, fill) ∷ targets) s (keep, keeps) p h =
      let (v, _, rest) =
        >>=-eq-ok (require settings name) (λ v. assign_all settings targets (fill v s)) h in
      assign_all-keeps settings targets (fill v s) keeps (keep v s p) rest

  fill_texts-keeps :
      (settings : Settings) (targets : List Target) (s : Suite)
      → All Keeps targets
      → P s
      → P (fill_texts settings targets s)
  unfolding fill_texts fill_text find_key
  fill_texts-keeps settings [] s keeps p = p
  fill_texts-keeps settings ((name, fill) ∷ targets) s (keep, keeps) p =
      elim (Option-cases (find_key name settings)) [
        | inl e ↦ rw e (fill_texts-keeps settings targets s keeps p)
        | inr (v, e) ↦ rw e (fill_texts-keeps settings targets (fill v s) keeps (keep v s p))
      ]

required_texts-keep : All (Keeps IsSized) required_texts
required_texts-keep = (
  λ v s p. p,
  (
    λ v s p. p,
    (
      λ v s p. p,
      (λ v s p. p, (λ v s p. p, (λ v s p. p, (λ v s p. p, (λ v s p. p, (λ v s p. p, tt)))))),
    ),
  ),
)

optional_texts-keep : All (Keeps IsSized) optional_texts
optional_texts-keep = (λ v s p. p, (λ v s p. p, (λ v s p. p, (λ v s p. p, tt))))

assign_history-IsSized :
    (o : Option Bytes) (s : Suite) {r : Suite} → IsSized s → assign_history o s ≡ ok r → IsSized r
unfolding assign_history
assign_history-IsSized none s p h = subst IsSized (ok-injective h) p
assign_history-IsSized (some text) s p h =
    let (n, read, rest) = >>=-eq-ok (parse_size false (codes "TIME_SERIES_HISTORY") text) _ h in
    subst IsSized (ok-injective rest) (record {
      repetitions_is = p.repetitions_is;
      history_is = parse_size-IsSize (codes "TIME_SERIES_HISTORY") text read;
      active_is = p.active_is;
      profiles_are = p.profiles_are;
    })

assign_active-IsSized :
    (o : Option Bytes) (s : Suite) {r : Suite} → IsSized s → assign_active o s ≡ ok r → IsSized r
unfolding assign_active
assign_active-IsSized none s p h = subst IsSized (ok-injective h) p
assign_active-IsSized (some text) s p h =
    let (n, read, rest) = >>=-eq-ok (parse_size false (codes "ACTIVE_SYMBOLS") text) _ h in
    subst IsSized (ok-injective rest) (record {
      repetitions_is = p.repetitions_is;
      history_is = p.history_is;
      active_is = λ m e.
          subst IsSize (some-injective e) (parse_size-IsSize (codes "ACTIVE_SYMBOLS") text read);
      profiles_are = p.profiles_are;
    })

assign_after-IsSized :
    (o : Option Bytes) (s : Suite) {r : Suite} → IsSized s → assign_after o s ≡ ok r → IsSized r
unfolding assign_after
assign_after-IsSized none s p h = subst IsSized (ok-injective h) p
assign_after-IsSized (some []) s p h = cc
assign_after-IsSized (some (c ∷ text)) s p h = subst IsSized (ok-injective h) p

assign_unsubscribe-IsSized :
    (o : Option Bytes) (s : Suite) {r : Suite}
    → IsSized s
    → assign_unsubscribe o s ≡ ok r
    → IsSized r
unfolding assign_unsubscribe
assign_unsubscribe-IsSized none s p h = subst IsSized (ok-injective h) p
assign_unsubscribe-IsSized (some text) s p h =
    let (b, _, rest) =
      >>=-eq-ok (parse_boolean (codes "TIME_SERIES_UNSUBSCRIBE_AFTER_SNAPSHOT") text) _ h in
    subst IsSized (ok-injective rest) p

assign_cooldown-IsSized :
    (settings : Settings) (s : Suite) {r : Suite}
    → IsSized s
    → assign_cooldown settings s ≡ ok r
    → IsSized r
unfolding assign_cooldown
assign_cooldown-IsSized settings s p h =
    let (text, _, more) = >>=-eq-ok (require settings (codes "COOLDOWN_SECONDS")) _ h in
    let (n, _, rest) = >>=-eq-ok (parse_size true (codes "COOLDOWN_SECONDS") text) _ more in
    subst IsSized (ok-injective rest) p

-- The suite before the settings are read.
assign_repetitions-IsSized :
    (settings : Settings) (s : Suite) {r : Suite}
    → IsSize s.time_series_history_limit
    → s.active_symbol_count ≡ none
    → All HistoryIsSize s.profiles
    → assign_repetitions settings s ≡ ok r
    → IsSized r
unfolding assign_repetitions
assign_repetitions-IsSized settings s history active profiles h =
    let (text, _, more) = >>=-eq-ok (require settings (codes "REPETITIONS")) _ h in
    let (n, read, rest) = >>=-eq-ok (parse_size false (codes "REPETITIONS") text) _ more in
    subst IsSized (ok-injective rest) (record {
      repetitions_is = parse_size-IsSize (codes "REPETITIONS") text read;
      history_is = history;
      profiles_are = profiles;
      active_is = λ m e. absurd (none-ne-some (sym active ∙ e));
    })

complete_experiment-IsSized :
    (filled : Experiment × ℕ) (s : Suite) {r : Suite}
    → IsSized s
    → complete_experiment s filled ≡ ok r
    → IsSized r
unfolding complete_experiment
complete_experiment-IsSized (experiment, count) s p h =
    let (_, rest) = >>-eq-ok (guard (count == 0 || count == 6) partial_experiment) _ h in
    subst IsSized (ok-injective rest) p

assign_experiment-IsSized :
    (settings : Settings) (s : Suite) {r : Suite}
    → IsSized s
    → assign_experiment settings s ≡ ok r
    → IsSized r
unfolding assign_experiment
assign_experiment-IsSized settings s p h =
    let (filled, _, rest) =
      >>=-eq-ok (fill_experiments settings experiment_texts (s.experiment, 0)) _ h in
    complete_experiment-IsSized filled s p rest

-- The settings leave sizes that are positive and fit their type.
pub assign_settings-IsSized :
    (settings : Settings) (s : Suite) {r : Suite}
    → IsSize s.time_series_history_limit
    → s.active_symbol_count ≡ none
    → All HistoryIsSize s.profiles
    → assign_settings settings s ≡ ok r
    → IsSized r
unfolding assign_settings
assign_settings-IsSized settings s history active profiles h =
    let (s1, e1, h1) = >>=-eq-ok (assign_repetitions settings s) _ h in
    let (s2, e2, h2) = >>=-eq-ok (assign_all settings required_texts s1) _ h1 in
    let (s3, e3, h3) = >>=-eq-ok (assign_cooldown settings s2) _ h2 in
    let filled = fill_texts settings optional_texts s3 in
    let (s4, e4, h4) =
      >>=-eq-ok (assign_history (find_key (codes "TIME_SERIES_HISTORY") settings) filled) _ h3 in
    let (s5, e5, h5) =
      >>=-eq-ok (assign_active (find_key (codes "ACTIVE_SYMBOLS") settings) s4) _ h4 in
    let (s6, e6, h6) =
      >>=-eq-ok (assign_after (find_key (codes "TIME_SERIES_SUBSCRIBE_AFTER") settings) s5) _ h5 in
    let (s7, e7, h7) =
      >>=-eq-ok
        (assign_unsubscribe (find_key (codes "TIME_SERIES_UNSUBSCRIBE_AFTER_SNAPSHOT") settings) s6)
        _ h6 in
    let (s8, e8, h8) = >>=-eq-ok (assign_experiment settings s7) _ h7 in
    let (_, e9) = >>-eq-ok (check_known settings) (ok s8) h8 in
    let p1 = assign_repetitions-IsSized settings s history active profiles e1 in
    let p2 = assign_all-keeps IsSized settings required_texts s1 required_texts-keep p1 e2 in
    let p3 = assign_cooldown-IsSized settings s2 p2 e3 in
    let p3f = fill_texts-keeps IsSized settings optional_texts s3 optional_texts-keep p3 in
    let p4 = assign_history-IsSized _ filled p3f e4 in
    let p5 = assign_active-IsSized _ s4 p4 e5 in
    let p6 = assign_after-IsSized _ s5 p5 e6 in
    let p7 = assign_unsubscribe-IsSized _ s6 p6 e7 in
    subst IsSized (ok-injective e9) (assign_experiment-IsSized settings s7 p7 e8)
