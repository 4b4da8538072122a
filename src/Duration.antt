-- ===== src/Duration.antt =====
-- src/core.cpp: `parseDuration`, `parseMonitoringPeriod` and `monitoringPeriodPropertyValue`.
-- A duration is a count of milliseconds; an accepted one is positive, so it is a plain number here.
pub mod Parse
pub mod Monitoring
mod Tests
use mathlib.Core.List.{head?}
use dxfcxx_event_test.Base.{
  ℕ, ◌+◌, ◌-◌, ◌*◌, ◌/◌, ◌%◌, ◌^◌, Bool, true, false, ◌||◌, List, [], ◌∷◌, ◌++◌, reverse, Option,
  none, some, ltb, leb, ◌==◌, if◌then◌else◌, Result, ok, err, ◌>>=◌,
}
use dxfcxx_event_test.Base.Int.{ℤ, pos, ltb_ℤ, leb_ℤ, pos_part, neg_part}
use dxfcxx_event_test.Text.{
  Bytes, codes, same, ends_with, remove_suffix, to_string, zero_padded, Scan, invalid, out_of_range,
  scanned, scan_i64,
}

abbrev pub int64_max : ℕ
int64_max = 2 ^ 63 - 1

-- The multiplier that the suffix chooses, and the text in front of the suffix.
unit_of : Bytes → ℕ × Bytes
unit_of text =
    if ends_with (b'm' ∷ b's' ∷ []) text
    then (1, remove_suffix 2 text)
    else if ends_with (b's' ∷ []) text
    then (1000, remove_suffix 1 text)
    else if ends_with (b'm' ∷ []) text
    then (60_000, remove_suffix 1 text)
    else if ends_with (b'h' ∷ []) text
    then (3_600_000, remove_suffix 1 text)
    else (1000, text)

pub invalid_duration : Bytes → Bytes
invalid_duration text = codes "invalid duration: " ++ text

duration_of : Bytes → ℕ → Scan ℤ → Result Bytes ℕ
duration_of text multiplier invalid = err (invalid_duration text)
duration_of text multiplier (out_of_range rest) = err (invalid_duration text)
duration_of text multiplier (scanned v (c ∷ rest)) = err (invalid_duration text)
duration_of text multiplier (scanned v []) =
    if leb_ℤ v (pos 0) || ltb_ℤ (pos (int64_max / multiplier)) v
    then err (invalid_duration text)
    else ok (pos_part v * multiplier)

read_units : Bytes → ℕ × Bytes → Result Bytes ℕ
unfolding duration_of
read_units text (multiplier, number) = duration_of text multiplier (scan_i64 number)

unfoldable pub parse_duration : Bytes → Result Bytes ℕ
unfolding unit_of read_units
parse_duration [] = err (codes "empty duration")
parse_duration (c ∷ text) = read_units (c ∷ text) (unit_of (c ∷ text))

-- The literal `0` disables monitoring.
unfoldable pub parse_monitoring_period : Bytes → Result Bytes (Option ℕ)
parse_monitoring_period text =
    if same text (b'0' ∷ []) then ok none else (do d ← parse_duration text; ok (some d))

-- `while (fraction.ends_with('0')) fraction.pop_back()`, from the last byte on.
pop_zeros : Bytes → Bytes
pop_zeros [] = []
pop_zeros (c ∷ text) = if c == b'0' then pop_zeros text else c ∷ text

fraction_of : ℕ → Bytes
unfolding pop_zeros zero_padded
fraction_of remainder = reverse (pop_zeros (reverse (zero_padded 3 remainder)))

pub monitoring_value : Option ℕ → Bytes
monitoring_value none = b'0' ∷ []
monitoring_value (some milliseconds) =
    let seconds = milliseconds / 1000 in
    let remainder = milliseconds % 1000 in
    if remainder == 0
    then to_string seconds ++ b's' ∷ []
    else to_string seconds ++ b'.' ∷ (fraction_of remainder ++ b's' ∷ [])
