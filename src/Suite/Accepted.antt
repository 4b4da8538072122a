-- ===== src/Suite/Accepted.antt =====
-- What an accepted configuration of a suite guarantees.
use dxfcxx_event_test.Base.{
  ◌≡◌, refl, ◌∙◌, subst, ◌≢◌, ◌⊎◌, inl, inr, Bool, true, false, not, ◌&&◌, ◌||◌, List, [], ◌∷◌,
  arith, ok, ◌>>◌, guard, >>=-eq-ok, >>-eq-ok, guard-eq-ok, ok-injective, All,
}
use dxfcxx_event_test.Text.{Bytes}
use dxfcxx_event_test.Suite.{SuiteProfile, Suite, default_suite}
use dxfcxx_event_test.Suite.Settings.{lines, read_lines}
use dxfcxx_event_test.Suite.Assign.{assign_settings}
use dxfcxx_event_test.Suite.Check.{
  check_profile, check_profiles, some_profile, check_suite, finish, parse_benchmark_suite,
}
use dxfcxx_event_test.Suite.Sizes.{IsSized, assign_settings-IsSized}
use dxfcxx_event_test.Suite.Profiles.{read_lines-HistoryIsSize}
use dxfcxx_event_test.Suite.Valid.{
  IsRole, ProfileIsValid, HasSeries, valid_role-IsRole, or-true, check_profile-IsValid,
}

pub record IsValid (suite : Suite) : Type 0 where
  pub sizes : IsSized suite
  pub role : IsRole suite.client_role
  pub profiles : All (ProfileIsValid suite) suite.profiles
  pub not_empty : suite.profiles ≢ []
  pub unsubscribe : suite.time_series_unsubscribe_after_snapshot ≡ true → HasSeries suite.profiles

HasSeries-cons :
    (profile : SuiteProfile) (profiles : List SuiteProfile)
    → HasSeries (profile ∷ []) ⊎ HasSeries profiles
    → HasSeries (profile ∷ profiles)
HasSeries-cons profile profiles (inl (inl here)) = inl here
HasSeries-cons profile profiles (inl (inr none_left)) = absurd none_left
HasSeries-cons profile profiles (inr there) = inr there

check_profiles-IsValid :
    (suite : Suite) (profiles : List SuiteProfile) (seen : Bool) {found : Bool}
    → check_profiles suite profiles seen ≡ ok found
    → All (ProfileIsValid suite) profiles × (found ≡ true → (seen ≡ true) ⊎ HasSeries profiles)
unfolding check_profiles
check_profiles-IsValid suite [] seen h = (tt, λ e. inl (ok-injective h ∙ e))
check_profiles-IsValid suite (profile ∷ profiles) seen h =
    let (here, now, later) = >>=-eq-ok (check_profile suite profile) _ h in
    let (valid, series) = check_profile-IsValid suite profile now in
    let (all_valid, more) = check_profiles-IsValid suite profiles (seen || here) later in
    (
      (valid, all_valid),
      λ e. elim (more e) [
        | inl either ↦ elim (or-true seen here either) [
          | inl before ↦ inl before
          | inr found ↦ inr (HasSeries-cons profile profiles (inl (series found)))
        ]
        | inr behind ↦ inr (HasSeries-cons profile profiles (inr behind))
      ],
    )

some_profile-ne-nil : (profiles : List SuiteProfile) → some_profile profiles ≡ true → profiles ≢ []
some_profile-ne-nil [] h = cc
some_profile-ne-nil (profile ∷ profiles) h = λ e. cc

unsubscribes : (u seen : Bool) → not (u && not seen) ≡ true → u ≡ true → seen ≡ true
unsubscribes true true h e = refl
unsubscribes true false h e = cc
unsubscribes false seen h e = cc

check_suite-IsValid : (suite : Suite) → IsSized suite → check_suite suite ≡ ok tt → IsValid suite
unfolding check_suite
check_suite-IsValid suite sizes h =
    let (guards, rest) = >>-eq-ok (guard _ _ >> guard _ _) _ h in
    let (role, not_empty) = >>-eq-ok (guard _ _) (guard _ _) guards in
    let (seen, checked, delayed) = >>=-eq-ok (check_profiles suite suite.profiles false) _ rest in
    let (profiles, series) = check_profiles-IsValid suite suite.profiles false checked in
    record {
      sizes = sizes;
      role = valid_role-IsRole suite.client_role (guard-eq-ok _ _ role);
      profiles = profiles;
      not_empty = some_profile-ne-nil suite.profiles (guard-eq-ok _ _ not_empty);
      unsubscribe = λ e. elim (series (unsubscribes _ seen (guard-eq-ok _ _ delayed) e)) [
        | inl impossible ↦ cc
        | inr found ↦ found
      ];
    }

-- An accepted configuration gives a suite that can be run: its repetitions, its history limit,
-- its active symbols and its profiles' history limits, where it sets them, are positive and fit 64 bits; its role is known; it has
-- a profile; every profile's task parses, has the active symbols that the suite sets and no larger
-- quantity, and names only known roles and implementations; a profile with time and sales is for
-- the feed role and the Graal client, and for a delayed subscription, if the suite unsubscribes
-- after the snapshot; a profile with a delay has time and sales, and a suite that unsubscribes
-- has such a profile.
pub parse_benchmark_suite-IsValid :
    (input : Bytes) {suite : Suite} → parse_benchmark_suite input ≡ ok suite → IsValid suite
unfolding parse_benchmark_suite finish
parse_benchmark_suite-IsValid input h =
    let (r, collected, finished) = >>=-eq-ok (read_lines (lines input) _) finish h in
    let histories = read_lines-HistoryIsSize (lines input) _ tt collected in
    let start = record default_suite { profiles = r.profiles } in
    let (suite, assigned, checks) = >>=-eq-ok (assign_settings r.settings start) _ finished in
    let (checked, same_suite) = >>-eq-ok (check_suite suite) (ok suite) checks in
    let sizes =
      assign_settings-IsSized r.settings start (omega arith, omega arith) refl histories assigned in
    subst IsValid (ok-injective same_suite) (check_suite-IsValid suite sizes checked)
