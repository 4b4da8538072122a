-- ===== src/Suite/Valid.antt =====
-- What the checks at the end of `parseBenchmarkSuite` establish.
use dxfcxx_event_test.Base.{
  ℕ, ◌≤◌, ◌≡◌, refl, ap, ◌∙◌, subst, ◌≢◌, ◌⊎◌, inl, inr, Bool, true, false, not, ◌&&◌, ◌||◌, Option,
  none, some, List, [], ◌∷◌, leb, if◌then◌else◌, leb→le, Result, ok, err, ◌>>◌, guard, >>=-eq-ok,
  >>-eq-ok, guard-eq-ok, ok-injective, some-injective, All,
}
use dxfcxx_event_test.Text.{Bytes, codes, same}
use dxfcxx_event_test.Text.Find.{same_sound}
use dxfcxx_event_test.Task.{PatternItem, TaskPattern, ParseError, symbol_count}
use dxfcxx_event_test.Task.Parse.{parse_task}
use dxfcxx_event_test.Suite.{SuiteProfile, Suite, Checked}
use dxfcxx_event_test.Suite.Check.{
  valid_role, valid_client_implementation, or_default, has_value, all_of, has_time_and_sale,
  check_quantities, check_active, check_time_series, parsed_or_error, check_profile,
}

abbrev pub IsRole : Bytes → Type 0
IsRole role = (role ≡ codes "feed") ⊎ (role ≡ codes "stream-feed")

abbrev pub IsImplementation : Bytes → Type 0
IsImplementation name =
    (name ≡ codes "graal") ⊎ (name ≡ codes "graal-delivery") ⊎ (name ≡ codes "legacy")

-- The active symbols against a task: no more than it has, and enough for every quantity.
abbrev pub CoversTask : Option ℕ → TaskPattern → Type 0
CoversTask none task = Unit {0}
CoversTask (some count) task =
    (count ≤ symbol_count task) × All (λ item. item.quantity ≤ count) task.items

-- What time and sales ask of the profile.
pub record SeriesAllowed (suite : Suite) (profile : SuiteProfile) : Type 0 where
  pub role : or_default profile.client_role suite.client_role ≡ codes "feed"
  pub implementation : or_default profile.client_implementation (codes "graal") ≡ codes "graal"
  pub delayed :
      suite.time_series_unsubscribe_after_snapshot ≡ true
      → (has_value profile.time_series_subscribe_after ≡ true)
        ⊎ (has_value suite.time_series_subscribe_after ≡ true)

pub record ProfileIsValid (suite : Suite) (profile : SuiteProfile) : Type 0 where
  pub task : TaskPattern
  pub parses : parse_task profile.task ≡ ok task
  pub role : (text : Bytes) → profile.client_role ≡ some text → IsRole text
  pub implementation :
      (text : Bytes) → profile.client_implementation ≡ some text → IsImplementation text
  pub active : CoversTask suite.active_symbol_count task
  pub after : has_value profile.time_series_subscribe_after ≡ true → has_time_and_sale task ≡ true
  pub series : has_time_and_sale task ≡ true → SeriesAllowed suite profile

-- Some profile's task has time and sales.
abbrev pub HasSeries : List SuiteProfile → Type 0
HasSeries [] = ⊥
HasSeries (profile ∷ profiles) =
    ((task : TaskPattern) × (parse_task profile.task ≡ ok task) × (has_time_and_sale task ≡ true))
    ⊎ HasSeries profiles

pub record IsChecked (suite : Suite) : Type 0 where
  pub role : IsRole suite.client_role
  pub profiles : All (ProfileIsValid suite) suite.profiles
  pub not_empty : suite.profiles ≢ []
  pub unsubscribe : suite.time_series_unsubscribe_after_snapshot ≡ true → HasSeries suite.profiles

pub or-true : (a b : Bool) → (a || b) ≡ true → (a ≡ true) ⊎ (b ≡ true)
or-true false b h = inr h
or-true true b h = inl refl

pub valid_role-IsRole : (role : Bytes) → valid_role role ≡ true → IsRole role
unfolding valid_role
valid_role-IsRole role h = elim (or-true (same role (codes "feed")) _ h) [
  | inl e ↦ inl (same_sound role (codes "feed") e)
  | inr e ↦ inr (same_sound role (codes "stream-feed") e)
]

valid_client_implementation-IsImplementation :
    (name : Bytes) → valid_client_implementation name ≡ true → IsImplementation name
unfolding valid_client_implementation
valid_client_implementation-IsImplementation name h =
    elim (or-true (same name (codes "graal") || same name (codes "graal-delivery")) _ h) [
      | inl either ↦ elim (or-true (same name (codes "graal")) _ either) [
        | inl e ↦ inl (same_sound name (codes "graal") e)
        | inr e ↦ inr (inl (same_sound name (codes "graal-delivery") e))
      ]
      | inr e ↦ inr (inr (same_sound name (codes "legacy") e))
    ]

all_of-sound :
    (test : Bytes → Bool) (P : Bytes → Type 0)
    → ((text : Bytes) → test text ≡ true → P text)
    → (o : Option Bytes) → all_of test o ≡ true
    → (text : Bytes) → o ≡ some text
    → P text
all_of-sound test P sound none h text e = cc
all_of-sound test P sound (some found) h text e = subst P (some-injective e) (sound found h)

check_quantities-le :
    (count : ℕ) (name : Bytes) (items : List PatternItem)
    → check_quantities count name items ≡ ok tt
    → All (λ item. item.quantity ≤ count) items
unfolding check_quantities
check_quantities-le count name [] h = tt
check_quantities-le count name (item ∷ items) h =
    let (fits, rest) =
      >>-eq-ok (guard (leb item.quantity count) _) (check_quantities count name items) h in
    (leb→le item.quantity count (guard-eq-ok _ _ fits), check_quantities-le count name items rest)

check_active-CoversTask :
    (o : Option ℕ) (name : Bytes) (task : TaskPattern)
    → check_active o name task ≡ ok tt
    → CoversTask o task
unfolding check_active
check_active-CoversTask none name task h = tt
check_active-CoversTask (some count) name task h =
    let (fits, rest) = >>-eq-ok (guard (leb count (symbol_count task)) _) _ h in
    (
      leb→le count (symbol_count task) (guard-eq-ok _ _ fits),
      check_quantities-le count name task.items rest,
    )

not-and-not : (u p s : Bool) → not (u && not p && not s) ≡ true → u ≡ true → (p ≡ true) ⊎ (s ≡ true)
not-and-not true true s h e = inl refl
not-and-not true false true h e = inr refl
not-and-not true false false h e = cc
not-and-not false p s h e = cc

check_time_series-SeriesAllowed :
    (suite : Suite) (profile : SuiteProfile)
    → check_time_series suite profile ≡ ok tt
    → SeriesAllowed suite profile
unfolding check_time_series
check_time_series-SeriesAllowed suite profile h =
    let (first, delayed) = >>-eq-ok (guard _ _ >> guard _ _) _ h in
    let (role, implementation) = >>-eq-ok (guard _ _) (guard _ _) first in
    record {
      role = same_sound _ (codes "feed") (guard-eq-ok _ _ role);
      implementation = same_sound _ (codes "graal") (guard-eq-ok _ _ implementation);
      delayed =
          not-and-not suite.time_series_unsubscribe_after_snapshot _ _ (guard-eq-ok _ _ delayed);
    }

not-and : (a b : Bool) → not (a && not b) ≡ true → a ≡ true → b ≡ true
not-and true true h e = refl
not-and true false h e = cc
not-and false b h e = cc

parsed_or_error-ok :
    (name : Bytes) (r : Result ParseError TaskPattern) {task : TaskPattern}
    → parsed_or_error name r ≡ ok task
    → r ≡ ok task
unfolding parsed_or_error
parsed_or_error-ok name (ok t) h = ap ok (ok-injective h)
parsed_or_error-ok name (err e) h = cc

if-eq-ok :
    (b : Bool) (c : Checked (Unit {0})) → (if b then c else ok tt) ≡ ok tt → b ≡ true → c ≡ ok tt
if-eq-ok true c h e = h
if-eq-ok false c h e = cc

pub check_profile-IsValid :
    (suite : Suite) (profile : SuiteProfile) {found : Bool}
    → check_profile suite profile ≡ ok found
    → ProfileIsValid suite profile × (found ≡ true → HasSeries (profile ∷ []))
unfolding check_profile
check_profile-IsValid suite profile h =
    let (guards, more) = >>-eq-ok (guard _ _ >> guard _ _) _ h in
    let (role, implementation) = >>-eq-ok (guard _ _) (guard _ _) guards in
    let (task, parsed, checks) =
      >>=-eq-ok (parsed_or_error profile.name (parse_task profile.task)) _ more in
    let (before, result) = >>-eq-ok _ (ok (has_time_and_sale task)) checks in
    let (front, series) =
      >>-eq-ok _ (if has_time_and_sale task then check_time_series suite profile else ok tt)
        before in
    let (active, after) =
      >>-eq-ok (check_active suite.active_symbol_count profile.name task) (guard _ _) front in
    let parses : parse_task profile.task ≡ ok task = parsed_or_error-ok profile.name _ parsed in
    (
      record {
        task = task;
        parses = parses;
        role =
            all_of-sound valid_role IsRole valid_role-IsRole profile.client_role
              (guard-eq-ok _ _ role);
        implementation =
            all_of-sound valid_client_implementation IsImplementation
              valid_client_implementation-IsImplementation profile.client_implementation
              (guard-eq-ok _ _ implementation);
        active = check_active-CoversTask suite.active_symbol_count profile.name task active;
        after = not-and _ (has_time_and_sale task) (guard-eq-ok _ _ after);
        series = λ e. check_time_series-SeriesAllowed suite profile (if-eq-ok _ _ series e);
      },
      λ e. inl (task, parses, ok-injective result ∙ e),
    )
