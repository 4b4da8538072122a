-- ===== src/Text.antt =====
-- What the source uses of the standard library's text functions, over lists of bytes: `find`,
-- `substr`, `starts_with`, `ends_with`, `std::to_string`, `std::format("{:0{}}")`, `std::from_chars`.
pub mod Find
pub mod Decimal
pub mod Split
mod Tests
use Prim.Native.Char.{code}
use Prim.Native.String.{String}
use mathlib.Core.Option
use mathlib.Core.List.{foldl}
use dxfcxx_event_test.Base.{
  ℕ, zero, suc, ◌+◌, ◌-◌, ◌*◌, ◌/◌, ◌%◌, ◌^◌, Bool, true, false, not, ◌&&◌, List, [], ◌∷◌, ◌++◌,
  reverse, Option, none, some, ltb, leb, ◌==◌, if◌then◌else◌, length, take, drop, replicate,
}
use dxfcxx_event_test.Base.Int.{ℤ, pos, negsuc, sub_ℕ}

abbrev pub Bytes : Type 0
Bytes = List ℕ

-- The code points of a literal; its bytes, if it is ASCII.
unfoldable pub codes : String → Bytes
codes String.[] = []
codes (String.◌∷◌ c s) = code c ∷ codes s

unfoldable pub same : Bytes → Bytes → Bool
same [] [] = true
same [] (d ∷ t) = false
same (c ∷ s) [] = false
same (c ∷ s) (d ∷ t) = c == d && same s t

-- `text.starts_with(prefix)`; the prefix comes first.
unfoldable pub starts_with : Bytes → Bytes → Bool
starts_with [] text = true
starts_with (c ∷ prefix) [] = false
starts_with (c ∷ prefix) (d ∷ text) = c == d && starts_with prefix text

-- `text.ends_with(suffix)`; the suffix comes first.
unfoldable pub ends_with : Bytes → Bytes → Bool
unfolding starts_with
ends_with suffix text = starts_with (reverse suffix) (reverse text)

abbrev pub remove_suffix : ℕ → Bytes → Bytes
remove_suffix n text = take (length text - n) text

abbrev pub substr : Bytes → ℕ → ℕ → Bytes
substr text at count = take count (drop at text)

-- The position of the first byte `c`; `none` is `npos`.
unfoldable pub find : ℕ → Bytes → Option ℕ
find c [] = none
find c (d ∷ text) = if d == c then some 0 else Option.map suc (find c text)

-- `text.find(c, from)`.
unfoldable pub find_from : ℕ → ℕ → Bytes → Option ℕ
unfolding find
find_from c from text = Option.map (λ i. from + i) (find c (drop from text))

abbrev pub is_digit : ℕ → Bool
is_digit c = leb b'0' c && leb c b'9'

-- The number that digits spell, with no bound.
abbrev pub value : Bytes → ℕ
value = foldl (λ n c. n * 10 + (c - b'0')) 0

-- `std::to_string`: at most `n + 1` digits, so `n + 1` rounds are enough.
digits : ℕ → ℕ → Bytes
digits zero n = []
digits (suc rounds) n =
    let front = digits rounds (n / 10) in
    if ltb n 10 then (b'0' + n) ∷ [] else front ++ (b'0' + n % 10) ∷ []

unfoldable pub to_string : ℕ → Bytes
unfolding digits
to_string n = digits (suc n) n

-- `std::format("{:0{}}", n, width)`.
unfoldable pub zero_padded : ℕ → ℕ → Bytes
unfolding to_string
zero_padded width n = replicate (width - length (to_string n)) b'0' ++ to_string n

abbrev pub size_limit : ℕ
size_limit = 2 ^ 64

abbrev pub int64_limit : ℕ
int64_limit = 2 ^ 63

-- The result of `std::from_chars`: the errors `invalid_argument` and `result_out_of_range`, or the
-- value; `rest` is the text from the returned pointer on.
pub data Scan (A : Type 0) : Type 0 where
  invalid : Scan A
  out_of_range : Bytes → Scan A
  scanned : A → Bytes → Scan A

-- The longest run of digits at the front, and what follows it.
unfoldable pub span_digits : Bytes → Bytes × Bytes
span_digits [] = ([], [])
span_digits (c ∷ text) =
    let (front, rest) = span_digits text in if is_digit c then (c ∷ front, rest) else ([], c ∷ text)

scan_run : {A : Type 0} → (ℕ → Bool) → (ℕ → A) → Bytes × Bytes → Scan A
scan_run fits read ([], rest) = invalid
scan_run fits read (c ∷ front, rest) =
    if fits (value (c ∷ front)) then scanned (read (value (c ∷ front))) rest else out_of_range rest

-- `std::from_chars` into a `std::size_t` or `std::uint64_t`.
unfoldable pub scan_u64 : Bytes → Scan ℕ
unfolding span_digits scan_run
scan_u64 text = scan_run (λ n. ltb n size_limit) (λ n. n) (span_digits text)

-- `std::from_chars` into a `std::int64_t`: a minus sign may stand in front.
unfoldable pub scan_i64 : Bytes → Scan ℤ
unfolding span_digits scan_run
scan_i64 [] = invalid
scan_i64 (c ∷ text) =
    if c == b'-'
    then scan_run (λ n. leb n int64_limit) (λ n. sub_ℕ 0 n) (span_digits text)
    else scan_run (λ n. ltb n int64_limit) pos (span_digits (c ∷ text))

-- The value, if `std::from_chars` read the whole text.
abbrev pub scanned_all : {A : Type 0} → Scan A → Option A
scanned_all invalid = none
scanned_all (out_of_range rest) = none
scanned_all (scanned a []) = some a
scanned_all (scanned a (c ∷ rest)) = none
