-- ===== src/Monitoring.antt =====
-- src/monitoring.cpp: `parseBenchmarkProfile`, which takes a profile and a repetition from the
-- prefix of a run's files.
pub mod Prefix
pub mod Measurement
pub mod Places
pub mod Rows
mod Tests
use dxfcxx_event_test.Base.{
  ℕ, zero, suc, ◌+◌, ◌-◌, ◌*◌, ◌/◌, ◌%◌, ◌^◌, ◌≤◌, ◌<◌, min, max, ◌≡◌, refl, sym, ap, ◌∙◌, subst,
  ◌≢◌, ◌↔◌, ◌⊎◌, inl, inr, Bool, true, false, not, ◌&&◌, ◌||◌, Option, none, some, List, [], ◌∷◌,
  ◌++◌, map, reverse, append-nil, append_assoc, arith, ltb, leb, ◌==◌, if◌then◌else◌, ltb→lt,
  lt→ltb, ltb→ge, ge→ltb, leb→le, le→leb, gt→leb, ==_iff, ==_refl, ne→==, Bool-cases, Option-cases,
  Result, ok, err, ◌>>=◌, ◌>>◌, guard, >>=-eq-ok, >>-eq-ok, guard-eq-ok, ok-injective,
  some-injective, none-ne-some, length, get_elem?, set, take, drop, replicate, length-append,
  length-reverse, length-take, length-drop, length-replicate, take-length-append,
  drop-length-append, length-set, length-map, All, All-append, All-reverse, All-mono,
}
use dxfcxx_event_test.Text.{
  Bytes, codes, same, starts_with, ends_with, remove_suffix, substr, find, find_from, is_digit,
  value, to_string, zero_padded, size_limit, int64_limit, Scan, invalid, out_of_range, scanned,
  span_digits, scan_u64, scan_i64, scanned_all,
}

pub record BenchmarkProfile : Type 0 where
  pub scenario : Bytes
  pub repetition : ℕ

-- The dot of the expression stands for any byte but the two that end a line.
unfoldable pub one_line : Bytes → Bool
one_line [] = true
one_line (c ∷ text) = not (c == b'\n') && not (c == b'\r') && one_line text

-- The groups of `^(.+)-r([0-9]+)$`, from the digits at the end and what stands before them, both
-- from the last byte on. The byte `r` is no digit, so no other split matches.
unfoldable pub groups : Bytes × Bytes → Option (Bytes × Bytes)
unfolding one_line
groups ([], rest) = none
groups (x ∷ digits, []) = none
groups (x ∷ digits, r ∷ []) = none
groups (x ∷ digits, r ∷ dash ∷ []) = none
groups (x ∷ digits, r ∷ dash ∷ c ∷ front) =
    if r == b'r' && dash == b'-' && one_line (c ∷ front)
    then some (reverse (c ∷ front), reverse (x ∷ digits))
    else none

-- `std::stoull` fails on a number that does not fit.
unfoldable pub profile_or_text : Bytes → Option (Bytes × Bytes) → BenchmarkProfile
profile_or_text text none = record { scenario = text; repetition = 1 }
profile_or_text text (some (scenario, digits)) =
    if ltb (value digits) size_limit
    then record { scenario = scenario; repetition = value digits }
    else record { scenario = text; repetition = 1 }

unfoldable pub parse_benchmark_profile : Bytes → BenchmarkProfile
unfolding span_digits groups profile_or_text
parse_benchmark_profile text = profile_or_text text (groups (span_digits (reverse text)))
