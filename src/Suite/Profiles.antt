-- ===== src/Suite/Profiles.antt =====
-- The history limits of the profiles that the loop over the lines collects.
use dxfcxx_event_test.Base.{
  ℕ, ◌+◌, ◌≡◌, ◌∙◌, subst, Bool, true, false, Option, none, some, List, [], ◌∷◌, ◌==◌,
  if◌then◌else◌, ok, ◌>>=◌, guard, >>=-eq-ok, >>-eq-ok, ok-injective, some-injective, none-ne-some,
  drop, All, All-append,
}
use dxfcxx_event_test.Text.{Bytes, codes, same, substr, find}
use dxfcxx_event_test.Text.Split.{split}
use dxfcxx_event_test.Suite.{SuiteProfile, Checked}
use dxfcxx_event_test.Suite.Settings.{
  Reading, parse_size, part, history_of, profile_with, named_profile, profile_of, add_profile,
  on_key, at_separator, on_text, on_line, read_lines, trim,
}
use dxfcxx_event_test.Suite.Sizes.{IsSize, HistoryIsSize, parse_size-IsSize}

history_of-IsSize :
    (name : Bytes) (o : Option Bytes) {limit : Option ℕ}
    → history_of name o ≡ ok limit
    → (n : ℕ) → limit ≡ some n
    → IsSize n
unfolding history_of
history_of-IsSize name none h n e = absurd (none-ne-some (ok-injective h ∙ e))
history_of-IsSize name (some text) h n e =
    let (m, read, rest) = >>=-eq-ok (parse_size false _ text) _ h in
    subst IsSize (some-injective (ok-injective rest ∙ e)) (parse_size-IsSize _ text read)

named_profile-HistoryIsSize :
    (raw_line : Bytes) (parts : List Bytes) (name task : Option Bytes) {profile : SuiteProfile}
    → named_profile raw_line parts name task ≡ ok profile
    → HistoryIsSize profile
unfolding named_profile profile_with
named_profile-HistoryIsSize raw_line parts none task h = cc
named_profile-HistoryIsSize raw_line parts (some name) none h = cc
named_profile-HistoryIsSize raw_line parts (some name) (some task) h =
    let (limit, read, rest) = >>=-eq-ok (history_of name (part parts 7)) _ h in
    subst HistoryIsSize (ok-injective rest) (history_of-IsSize name (part parts 7) read)

profile_of-HistoryIsSize :
    (raw_line : Bytes) (parts : List Bytes) {profile : SuiteProfile}
    → profile_of raw_line parts ≡ ok profile
    → HistoryIsSize profile
unfolding profile_of
profile_of-HistoryIsSize raw_line parts h =
    let (_, named) =
      >>-eq-ok (guard _ _) (named_profile raw_line parts (part parts 0) (part parts 1)) h in
    named_profile-HistoryIsSize raw_line parts (part parts 0) (part parts 1) named

abbrev Collected : Reading → Type 0
Collected r = All HistoryIsSize r.profiles

either_branch :
    {A Q : Type 0} (b : Bool) (x y : Checked A) {a : A}
    → (x ≡ ok a → Q)
    → (y ≡ ok a → Q)
    → (if b then x else y) ≡ ok a
    → Q
either_branch true x y f g h = f h
either_branch false x y f g h = g h

on_key-Collected :
    (raw_line : Bytes) (r : Reading) (key text : Bytes) {next : Reading}
    → Collected r
    → on_key raw_line r key text ≡ ok next
    → Collected next
unfolding on_key add_profile profile_of
on_key-Collected raw_line r key text {next} p h =
    either_branch (same key (codes "PROFILE")) _ _ added (λ e. subst Collected (ok-injective e) p) h
  where
    added :
        (profile_of raw_line (split b'|' text) >>= λ profile. ok (add_profile r profile)) ≡ ok next
        → Collected next
    added e =
        let (profile, read, rest) =
          >>=-eq-ok (profile_of raw_line (split b'|' text)) (λ q. ok (add_profile r q)) e in
        let sized = profile_of-HistoryIsSize raw_line (split b'|' text) read in
        subst Collected (ok-injective rest)
          (All-append HistoryIsSize r.profiles (profile ∷ []) p (sized, tt))

at_separator-Collected :
    (raw_line : Bytes) (r : Reading) (line : Bytes) (o : Option ℕ) {next : Reading}
    → Collected r
    → at_separator raw_line r line o ≡ ok next
    → Collected next
unfolding at_separator
at_separator-Collected raw_line r line none p h = cc
at_separator-Collected raw_line r line (some separator) p h =
    on_key-Collected raw_line r (substr line 0 separator) (drop (separator + 1) line) p h

on_text-Collected :
    (raw_line : Bytes) (r : Reading) (line : Bytes) {next : Reading}
    → Collected r
    → on_text raw_line r line ≡ ok next
    → Collected next
unfolding on_text
on_text-Collected raw_line r [] p h = subst Collected (ok-injective h) p
on_text-Collected raw_line r (c ∷ line) p h =
    either_branch (c == b'#') _ _ (λ e. subst Collected (ok-injective e) p)
      (at_separator-Collected raw_line r (c ∷ line) (find b'=' (c ∷ line)) p) h

-- Every profile that the loop collects has a history limit that is positive and fits its type.
pub read_lines-HistoryIsSize :
    (lines : List Bytes) (r : Reading) {next : Reading}
    → All HistoryIsSize r.profiles
    → read_lines lines r ≡ ok next
    → All HistoryIsSize next.profiles
unfolding read_lines on_line
read_lines-HistoryIsSize [] r p h = subst Collected (ok-injective h) p
read_lines-HistoryIsSize (line ∷ rest) r p h =
    let (next, now, later) = >>=-eq-ok (on_line line r) _ h in
    read_lines-HistoryIsSize rest next (on_text-Collected line r (trim line) p now) later
