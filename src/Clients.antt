-- ===== src/Clients.antt =====
-- src/client.cpp, src/graal_delivery_client.cpp, src/legacy_client.cpp and src/analyzer.cpp: the
-- command lines of the programs that the runner starts beside the generator, and the session of
-- the client of the C API.
pub mod Limit
pub mod Graal
pub mod Delivery
pub mod Legacy
pub mod Session
pub mod Lifetime
pub mod Analyzer
mod Tests
use dxfcxx_event_test.Base.{
  ℕ, zero, suc, ◌+◌, ◌-◌, ◌*◌, ◌/◌, ◌%◌, ◌^◌, ◌≤◌, ◌<◌, min, max, ◌≡◌, refl, sym, ap, ◌∙◌, subst,
  ◌≢◌, ◌↔◌, ◌⊎◌, inl, inr, Bool, true, false, not, ◌&&◌, ◌||◌, Option, none, some, List, [], ◌∷◌,
  ◌++◌, map, reverse, append-nil, append_assoc, arith, ltb, leb, ◌==◌, if◌then◌else◌, ltb→lt,
  lt→ltb, ltb→ge, ge→ltb, leb→le, le→leb, gt→leb, ==_iff, ==_refl, ne→==, Bool-cases, Option-cases,
  Result, ok, err, ◌>>=◌, ◌>>◌, guard, >>=-eq-ok, >>-eq-ok, guard-eq-ok, ok-injective,
  some-injective, none-ne-some, length, get_elem?, set, take, drop, replicate, length-append,
  length-reverse, length-take, length-drop, length-replicate, take-length-append,
  drop-length-append, length-set, length-map, All, All-append, All-reverse, All-mono,
}
use dxfcxx_event_test.Base.Int.{
  ℤ, pos, negsuc, pos_part, neg_part, sub_ℕ, ◌-ℤ◌, ◌≤ℤ◌, ltb_ℤ, leb_ℤ, -ℤ_parts,
}
use dxfcxx_event_test.Text.{
  Bytes, codes, same, starts_with, ends_with, remove_suffix, substr, find, find_from, is_digit,
  value, to_string, zero_padded, size_limit, int64_limit, Scan, invalid, out_of_range, scanned,
  span_digits, scan_u64, scan_i64, scanned_all,
}
use dxfcxx_event_test.Arguments.{Refusal, unknown_role, invalid_limit}

pub data ClientRole : Type 0 where
  stream_feed feed : ClientRole

-- `roleName`.
unfoldable pub role_name : ClientRole → Bytes
unfolding codes
role_name feed = codes "feed"
role_name stream_feed = codes "stream-feed"

-- The value of `--role`.
unfoldable pub parse_role : Bytes → Result Refusal ClientRole
unfolding same codes
parse_role value =
    if same value (codes "feed")
    then ok feed
    else if same value (codes "stream-feed")
    then ok stream_feed
    else err (unknown_role value)

abbrev pub int32_max : ℕ
int32_max = 2 ^ 31 - 1

-- The event-notification batch limits that dxFeed names; they are not negative.
module _ (optimal_batch_limit max_batch_limit : ℕ) where
  -- `eventsBatchLimitName`.
  unfoldable pub events_batch_limit_name : ℕ → Bytes
  unfolding codes to_string
  events_batch_limit_name limit =
      if limit == optimal_batch_limit
      then codes "optimal"
      else if limit == max_batch_limit
      then codes "maximum"
      else to_string limit

  -- A limit that `std::from_chars` reads into a `std::int32_t`.
  unfoldable pub limit_or_error : Bytes → Scan ℤ → Result Refusal ℕ
  limit_or_error value invalid = err (invalid_limit value)
  limit_or_error value (out_of_range rest) = err (invalid_limit value)
  limit_or_error value (scanned (negsuc n) rest) = err (invalid_limit value)
  limit_or_error value (scanned (pos n) (c ∷ rest)) = err (invalid_limit value)
  limit_or_error value (scanned (pos n) []) =
      if n == 0 || ltb int32_max n then err (invalid_limit value) else ok n

  -- `parseEventsBatchLimit`.
  unfoldable pub parse_events_batch_limit : Bytes → Result Refusal ℕ
  unfolding same codes scan_i64 limit_or_error
  parse_events_batch_limit value =
      if same value (codes "optimal") || same value (codes "0")
      then ok optimal_batch_limit
      else if same value (codes "maximum")
      then ok max_batch_limit
      else limit_or_error value (scan_i64 value)
