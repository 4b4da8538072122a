-- ===== src/Suite/Settings.antt =====
-- src/runner.cpp: `trim`, `parseSize`, `parseBoolean`, and the loop of `parseBenchmarkSuite` over
-- the lines of a configuration.
use dxfcxx_event_test.Base.{
  ℕ, zero, suc, ◌+◌, ◌<◌, ◌≡◌, Bool, true, false, not, ◌&&◌, ◌||◌, Option, none, some, List, [],
  ◌∷◌, ◌++◌, reverse, arith, ltb, leb, ◌==◌, if◌then◌else◌, ok, err, ◌>>=◌, ◌>>◌, guard, length,
  get_elem?, drop,
}
use dxfcxx_event_test.Text.{Bytes, codes, same, substr, find, value, scan_u64, scanned_all}
use dxfcxx_event_test.Text.Split.{split, cons_first}
use dxfcxx_event_test.Suite.{
  SuiteProfile, invalid_line, invalid_profile, not_a_size, not_a_boolean, Checked,
}

-- `std::isspace` in the classic locale: the blank, and the codes from the tabulator to the return.
abbrev is_space : ℕ → Bool
is_space c = c == b' ' || leb b'\t' c && leb c b'\r'

unfoldable pub drop_spaces : Bytes → Bytes
drop_spaces [] = []
drop_spaces (c ∷ text) = let rest = drop_spaces text in if is_space c then rest else c ∷ text

-- `trim`: from the first byte that is no space to the last.
unfoldable pub trim : Bytes → Bytes
unfolding drop_spaces
trim text = reverse (drop_spaces (reverse (drop_spaces text)))

size_or_error : Bool → Bytes → Option ℕ → Checked ℕ
size_or_error allow_zero name none = err (not_a_size name allow_zero)
size_or_error allow_zero name (some n) =
    if not allow_zero && n == 0 then err (not_a_size name allow_zero) else ok n

-- `parseSize`.
unfoldable pub parse_size : Bool → Bytes → Bytes → Checked ℕ
unfolding scan_u64 size_or_error
parse_size allow_zero name text = size_or_error allow_zero name (scanned_all (scan_u64 text))

-- `parseBoolean`.
unfoldable pub parse_boolean : Bytes → Bytes → Checked Bool
unfolding same codes
parse_boolean name text =
    if same text (codes "true")
    then ok true
    else if same text (codes "false")
    then ok false
    else err (not_a_boolean name)

-- The order of `std::less` on strings.
unfoldable pub less : Bytes → Bytes → Bool
less text [] = false
less [] (d ∷ other) = true
less (c ∷ text) (d ∷ other) = let rest = less text other in ltb c d || c == d && rest

-- `std::map`, in the order of its keys.
abbrev pub Settings : Type 0
Settings = List (Bytes × Bytes)

-- `settings[key] = value`.
unfoldable pub assign_key : Bytes → Bytes → Settings → Settings
unfolding same less
assign_key key value [] = (key, value) ∷ []
assign_key key value ((other, old) ∷ settings) =
    let rest = assign_key key value settings in
    if same key other
    then (key, value) ∷ settings
    else if less key other
    then (key, value) ∷ (other, old) ∷ settings
    else (other, old) ∷ rest

-- `settings.find(name)`.
unfoldable pub find_key : Bytes → Settings → Option Bytes
unfolding same
find_key name [] = none
find_key name ((key, value) ∷ settings) =
    let rest = find_key name settings in if same name key then some value else rest

-- `std::getline`, until the input ends.
unfoldable pub lines : Bytes → List Bytes
unfolding cons_first
lines [] = []
lines (c ∷ text) = let rest = lines text in if c == b'\n' then [] ∷ rest else cons_first c rest

not_empty : Option Bytes → Option Bytes
not_empty none = none
not_empty (some []) = none
not_empty (some (c ∷ text)) = some (c ∷ text)

-- `parts.size() > i && !parts[i].empty()`, and then `parts[i]`.
unfoldable pub part : List Bytes → ℕ → Option Bytes
unfolding not_empty
part parts i = not_empty (get_elem? parts i)

-- The history limit of a profile, where its field is there and not empty.
unfoldable pub history_of : Bytes → Option Bytes → Checked (Option ℕ)
unfolding parse_size codes
history_of name none = ok none
history_of name (some text) =
    parse_size false (codes "Time-series history for profile " ++ name) text >>= λ n. ok (some n)

unfoldable pub profile_with : List Bytes → Bytes → Bytes → Option ℕ → SuiteProfile
unfolding part
profile_with parts name task limit = record {
  name = name;
  task = task;
  client_role = part parts 2;
  events_batch_limit = part parts 3;
  aggregation_period = part parts 4;
  client_implementation = part parts 5;
  time_series_prefill = part parts 6;
  time_series_history_limit = limit;
  time_series_subscribe_after = part parts 8;
}

-- The name and the task must not be empty.
unfoldable pub named_profile :
    Bytes → List Bytes → Option Bytes → Option Bytes → Checked SuiteProfile
unfolding part history_of profile_with
named_profile raw_line parts (some name) (some task) =
    history_of name (part parts 7) >>= λ limit. ok (profile_with parts name task limit)
named_profile raw_line parts (some name) none = err (invalid_profile raw_line)
named_profile raw_line parts none task = err (invalid_profile raw_line)

-- The fields of a `PROFILE` line.
unfoldable pub profile_of : Bytes → List Bytes → Checked SuiteProfile
unfolding part named_profile
profile_of raw_line parts =
    guard (not (ltb (length parts) 2 || ltb 9 (length parts))) (invalid_profile raw_line)
    >> named_profile raw_line parts (part parts 0) (part parts 1)

pub record Reading : Type 0 where
  pub settings : Settings
  pub profiles : List SuiteProfile

unfoldable pub add_profile : Reading → SuiteProfile → Reading
add_profile r profile = record r { profiles = r.profiles ++ profile ∷ [] }

-- A key with its value; the raw line stands in the messages.
unfoldable pub on_key : Bytes → Reading → Bytes → Bytes → Checked Reading
unfolding same codes split profile_of assign_key add_profile
on_key raw_line r key value =
    if same key (codes "PROFILE")
    then (profile_of raw_line (split b'|' value) >>= λ profile. ok (add_profile r profile))
    else ok (record r { settings = assign_key key value r.settings })

unfoldable pub at_separator : Bytes → Reading → Bytes → Option ℕ → Checked Reading
unfolding on_key
at_separator raw_line r line none = err (invalid_line raw_line)
at_separator raw_line r line (some separator) =
    on_key raw_line r (substr line 0 separator) (drop (separator + 1) line)

-- The trimmed line: blank lines and comments are passed over.
unfoldable pub on_text : Bytes → Reading → Bytes → Checked Reading
unfolding at_separator find
on_text raw_line r [] = ok r
on_text raw_line r (c ∷ line) =
    if c == b'#' then ok r else at_separator raw_line r (c ∷ line) (find b'=' (c ∷ line))

-- One round of the loop.
unfoldable pub on_line : Bytes → Reading → Checked Reading
unfolding trim on_text
on_line raw_line r = on_text raw_line r (trim raw_line)

unfoldable pub read_lines : List Bytes → Reading → Checked Reading
unfolding on_line
read_lines [] r = ok r
read_lines (line ∷ rest) r = on_line line r >>= λ next. read_lines rest next

size_or_error-pos :
    (name : Bytes) (o : Option ℕ) {n : ℕ}
    → size_or_error false name o ≡ ok n
    → (0 < n) × (o ≡ some n)
unfolding size_or_error
size_or_error-pos name none h = cc
size_or_error-pos name (some zero) h = cc
size_or_error-pos name (some (suc m)) h = ground (arith, h)

-- A size that must be positive is positive, and the text is read as it.
pub parse_size-pos :
    (name text : Bytes) {n : ℕ}
    → parse_size false name text ≡ ok n
    → (0 < n) × (scanned_all (scan_u64 text) ≡ some n)
unfolding parse_size
parse_size-pos name text h = size_or_error-pos name (scanned_all (scan_u64 text)) h
