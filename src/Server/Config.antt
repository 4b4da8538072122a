-- ===== src/Server/Config.antt =====
-- src/server.cpp: `Config` and `parseArgs`, the arguments of the generator.
use dxfcxx_event_test.Base.{
  ℕ, zero, suc, ◌<◌, ◌≡◌, refl, subst, Bool, true, false, Option, none, some, List, [], ◌∷◌, arith,
  if◌then◌else◌, Result, ok, err, ◌>>=◌, >>=-eq-ok, ok-injective, some-injective,
}
use dxfcxx_event_test.Text.{Bytes, codes, same, value, scan_u64, scanned_all}
use dxfcxx_event_test.Task.{TaskPattern, ParseError}
use dxfcxx_event_test.Task.Parse.{parse_task}
use dxfcxx_event_test.Duration.{parse_monitoring_period}

pub record Config : Type 0 where
  pub address : Bytes
  pub task : Option Bytes
  pub monitoring_stat : Option ℕ
  pub trace_subscriptions : Bool
  pub time_series_history_limit : ℕ
  pub active_symbol_count : Option ℕ

abbrev pub default_config : Config
default_config = record {
  address = codes ":7400";
  task = none;
  monitoring_stat = some 10_000;
  trace_subscriptions = false;
  time_series_history_limit = 1_000;
  active_symbol_count = none;
}

-- `std::exit(0)` for the help, or the exception that is thrown.
pub data Refusal : Type 0 where
  help : Refusal
  missing_value : Bytes → Refusal
  task_error : ParseError → Refusal
  period_error : Bytes → Refusal
  history_not_positive : Refusal
  active_not_positive : Refusal
  unknown_argument : Bytes → Refusal

unfoldable pub positive : Refusal → Option ℕ → Result Refusal ℕ
positive e none = err e
positive e (some zero) = err e
positive e (some (suc n)) = ok (suc n)

unfoldable pub with_task : Config → Bytes → Result ParseError TaskPattern → Result Refusal Config
with_task c value (ok pattern) = ok (record c { task = some value })
with_task c value (err e) = err (task_error e)

unfoldable pub with_monitoring : Config → Result Bytes (Option ℕ) → Result Refusal Config
with_monitoring c (ok period) = ok (record c { monitoring_stat = period })
with_monitoring c (err e) = err (period_error e)

unfoldable pub with_history : Config → Result Refusal ℕ → Result Refusal Config
with_history c n = n >>= λ limit. ok (record c { time_series_history_limit = limit })

unfoldable pub with_active : Config → Result Refusal ℕ → Result Refusal Config
with_active c n = n >>= λ count. ok (record c { active_symbol_count = some count })

-- An argument with a value.
unfoldable pub set_option : Bytes → Bytes → Config → Result Refusal Config
unfolding codes same scan_u64 with_task with_monitoring with_history with_active positive
set_option arg value c =
    if same arg (codes "--address")
    then ok (record c { address = value })
    else if same arg (codes "--task")
    then with_task c value (parse_task value)
    else if same arg (codes "--monitoring-stat")
    then with_monitoring c (parse_monitoring_period value)
    else if same arg (codes "--time-series-history")
    then with_history c (positive history_not_positive (scanned_all (scan_u64 value)))
    else if same arg (codes "--active-symbols")
    then with_active c (positive active_not_positive (scanned_all (scan_u64 value)))
    else err (unknown_argument arg)

unfoldable pub parse_args : Config → List Bytes → Result Refusal Config
unfolding set_option codes same
parse_args c [] = ok c
parse_args c (arg ∷ []) =
    if same arg (codes "--help")
    then err help
    else if same arg (codes "--trace-subscriptions")
    then ok (record c { trace_subscriptions = true })
    else err (missing_value arg)
parse_args c (arg ∷ value ∷ rest) =
    let traced = parse_args (record c { trace_subscriptions = true }) (value ∷ rest) in
    if same arg (codes "--help")
    then err help
    else if same arg (codes "--trace-subscriptions")
    then traced
    else set_option arg value c >>= λ next. parse_args next rest

-- What the generator may rely on.
pub record IsUsable (c : Config) : Type 0 where
  pub history : 0 < c.time_series_history_limit
  pub active : (n : ℕ) → c.active_symbol_count ≡ some n → 0 < n
  pub parses : (text : Bytes) → c.task ≡ some text → (t : TaskPattern) × (parse_task text ≡ ok t)

positive-pos : (e : Refusal) (n : Option ℕ) {m : ℕ} → positive e n ≡ ok m → 0 < m
unfolding positive
positive-pos e none h = cc
positive-pos e (some zero) h = cc
positive-pos e (some (suc n)) {m} h =
    let same_value : suc n ≡ m = ok-injective h in omega (arith, same_value)

with_task-IsUsable :
    (c : Config) (value : Bytes) (parsed : Result ParseError TaskPattern) {d : Config}
    → IsUsable c
    → parse_task value ≡ parsed
    → with_task c value parsed ≡ ok d
    → IsUsable d
unfolding with_task
with_task-IsUsable c value (err e) u p h = cc
with_task-IsUsable c value (ok pattern) u p h = subst IsUsable (ok-injective h) (record {
  history = u.history;
  active = u.active;
  parses = λ text e. (pattern, subst (λ t. parse_task t ≡ ok pattern) (some-injective e) p);
})

with_monitoring-IsUsable :
    (c : Config) (period : Result Bytes (Option ℕ)) {d : Config}
    → IsUsable c
    → with_monitoring c period ≡ ok d
    → IsUsable d
unfolding with_monitoring
with_monitoring-IsUsable c (err e) u h = cc
with_monitoring-IsUsable c (ok period) u h =
    subst IsUsable (ok-injective h)
      (record { history = u.history; active = u.active; parses = u.parses })

with_history-IsUsable :
    (c : Config) (n : Option ℕ) {d : Config}
    → IsUsable c
    → with_history c (positive history_not_positive n) ≡ ok d
    → IsUsable d
unfolding with_history
with_history-IsUsable c n u h =
    let (limit, e, f) = >>=-eq-ok (positive history_not_positive n) _ h in
    subst IsUsable (ok-injective f) (record {
      history = positive-pos history_not_positive n e;
      active = u.active;
      parses = u.parses;
    })

with_active-IsUsable :
    (c : Config) (n : Option ℕ) {d : Config}
    → IsUsable c
    → with_active c (positive active_not_positive n) ≡ ok d
    → IsUsable d
unfolding with_active
with_active-IsUsable c n u h =
    let (count, e, f) = >>=-eq-ok (positive active_not_positive n) _ h in
    subst IsUsable (ok-injective f) (record {
      history = u.history;
      active = λ m g. subst (λ k. 0 < k) (some-injective g) (positive-pos active_not_positive n e);
      parses = u.parses;
    })

-- A test of the argument's name.
option-IsUsable :
    (t : Bool) (taken left : Result Refusal Config) {d : Config}
    → (taken ≡ ok d → IsUsable d)
    → (left ≡ ok d → IsUsable d)
    → (if t then taken else left) ≡ ok d
    → IsUsable d
option-IsUsable true taken left f g h = f h
option-IsUsable false taken left f g h = g h

set_option-IsUsable :
    (arg value : Bytes) (c : Config) {d : Config}
    → IsUsable c
    → set_option arg value c ≡ ok d
    → IsUsable d
unfolding set_option
set_option-IsUsable arg value c u =
    option-IsUsable (same arg (codes "--address")) _ _
      (λ h.
        subst IsUsable (ok-injective h)
          (record { history = u.history; active = u.active; parses = u.parses }))
      (option-IsUsable (same arg (codes "--task")) _ _
        (with_task-IsUsable c value (parse_task value) u refl)
        (option-IsUsable (same arg (codes "--monitoring-stat")) _ _
          (with_monitoring-IsUsable c (parse_monitoring_period value) u)
          (option-IsUsable (same arg (codes "--time-series-history")) _ _
            (with_history-IsUsable c (scanned_all (scan_u64 value)) u)
            (option-IsUsable (same arg (codes "--active-symbols")) _ _
              (with_active-IsUsable c (scanned_all (scan_u64 value)) u) (λ h. cc)))))

parse_args-from :
    (c : Config) (args : List Bytes) {d : Config}
    → IsUsable c
    → parse_args c args ≡ ok d
    → IsUsable d
unfolding parse_args
parse_args-from c [] u h = subst IsUsable (ok-injective h) u
parse_args-from c (arg ∷ []) u h =
    option-IsUsable (same arg (codes "--help")) _ _ (λ e. cc)
      (option-IsUsable (same arg (codes "--trace-subscriptions")) _ _
        (λ e.
          subst IsUsable (ok-injective e)
            (record { history = u.history; active = u.active; parses = u.parses }))
        (λ e. cc))
      h
parse_args-from c (arg ∷ value ∷ rest) u h =
    option-IsUsable (same arg (codes "--help")) _ _ (λ e. cc)
      (option-IsUsable (same arg (codes "--trace-subscriptions")) _ _
        (parse_args-from (record c { trace_subscriptions = true }) (value ∷ rest)
          (record { history = u.history; active = u.active; parses = u.parses }))
        (λ e.
          let (next, f, g) = >>=-eq-ok (set_option arg value c) _ e in
          parse_args-from next rest (set_option-IsUsable arg value c u f) g))
      h

-- Arguments that the generator accepts give a positive history limit, a positive active symbol
-- count if there is one, and a task that parses if there is one.
pub parse_args-IsUsable :
    (args : List Bytes) {c : Config} → parse_args default_config args ≡ ok c → IsUsable c
parse_args-IsUsable args h =
    parse_args-from default_config args
      (record { history = omega arith; active = λ n e. cc; parses = λ text e. cc }) h
