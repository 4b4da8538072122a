-- ===== src/Task/Parse/Sections.antt =====
-- Where `parseTask` finds the parts of a text that is put together from them.
use mathlib.Core.Option
use dxfcxx_event_test.Base.{
  ℕ, ◌+◌, ◌≡◌, refl, ap, ◌∙◌, false, Option, none, some, [], ◌∷◌, ◌++◌, arith, ◌==◌, length, drop,
  All, All-append, All-mono,
}
use dxfcxx_event_test.Text.{Bytes, find, find_from}
use dxfcxx_event_test.Text.Find.{Lacks, find-Lacks, find-append, find_here}
use dxfcxx_event_test.Task.{task_prefix}
use dxfcxx_event_test.Task.Parse.{Separators, separators}

-- A part behind its separator, if there is one.
abbrev pub field : ℕ → Option Bytes → Bytes
field c none = []
field c (some t) = c ∷ t

-- No separator stands in the part.
abbrev pub IsPlain : ℕ → Type 0
IsPlain c =
    ((c == b'@') ≡ false) × ((c == b'#') ≡ false) × ((c == b'&') ≡ false) × ((c == b'~') ≡ false)

abbrev pub PlainPart : Option Bytes → Type 0
PlainPart none = Unit {0}
PlainPart (some t) = All IsPlain t

-- The parts of a task's text, none of which holds a separator.
pub record Parts : Type 0 where
  pub pattern : Bytes
  pub period : Option Bytes
  pub symbol : Option Bytes
  pub regional : Option Bytes
  pub shuffle : Option Bytes

pub record ArePlain (p : Parts) : Type 0 where
  pub pattern : All IsPlain p.pattern
  pub period : PlainPart p.period
  pub symbol : PlainPart p.symbol
  pub regional : PlainPart p.regional
  pub shuffle : PlainPart p.shuffle

abbrev pub layout : Parts → Bytes
layout p =
    task_prefix
    ++ (p.pattern
        ++ (field b'@' p.period
            ++ (field b'#' p.symbol ++ (field b'&' p.regional ++ field b'~' p.shuffle))))

-- Where each part begins.
abbrev pub period_at : Parts → ℕ
period_at p = 4 + length p.pattern

abbrev pub symbol_at : Parts → ℕ
symbol_at p = period_at p + length (field b'@' p.period)

abbrev pub regional_at : Parts → ℕ
regional_at p = symbol_at p + length (field b'#' p.symbol)

abbrev pub shuffle_at : Parts → ℕ
shuffle_at p = regional_at p + length (field b'&' p.regional)

abbrev pub position_of : ℕ → Option Bytes → Option ℕ
position_of at none = none
position_of at (some t) = some at

abbrev pub located : Parts → Separators
located p = record {
  period = position_of (period_at p) p.period;
  symbol = position_of (symbol_at p) p.symbol;
  regional = position_of (regional_at p) p.regional;
  shuffle = position_of (shuffle_at p) p.shuffle;
}

data IsSeparator : ℕ → Type 0 where
  at_sign : IsSeparator b'@'
  hash : IsSeparator b'#'
  ampersand : IsSeparator b'&'
  tilde : IsSeparator b'~'

All-IsPlain-Lacks : {c : ℕ} → IsSeparator c → (t : Bytes) → All IsPlain t → Lacks c t
All-IsPlain-Lacks at_sign t h = All-mono IsPlain (λ d. (d == b'@') ≡ false) (λ d p. p.0) t h
All-IsPlain-Lacks hash t h = All-mono IsPlain (λ d. (d == b'#') ≡ false) (λ d p. p.1) t h
All-IsPlain-Lacks ampersand t h = All-mono IsPlain (λ d. (d == b'&') ≡ false) (λ d p. p.2) t h
All-IsPlain-Lacks tilde t h = All-mono IsPlain (λ d. (d == b'~') ≡ false) (λ d p. p.3) t h

field-Lacks :
    {c : ℕ}
    → IsSeparator c
    → (d : ℕ) (o : Option Bytes) → (d == c) ≡ false
    → PlainPart o
    → Lacks c (field d o)
field-Lacks s d none ne h = tt
field-Lacks s d (some t) ne h = (ne, All-IsPlain-Lacks s t h)

shift : ℕ → Option ℕ → Option ℕ
shift n o = Option.map (λ i. n + i) o

shift-position_of :
    (n at : ℕ) (o : Option Bytes) → shift n (position_of at o) ≡ position_of (n + at) o
unfolding shift
shift-position_of n at none = refl
shift-position_of n at (some t) = refl

-- The separator of a part stands at its beginning, if the part is there and nothing behind it
-- repeats the separator.
find-field :
    (c : ℕ) (o : Option Bytes) (rest : Bytes)
    → find c rest ≡ none
    → find c (field c o ++ rest) ≡ position_of 0 o
find-field c none rest h = h
find-field c (some t) rest h = find_here c (t ++ rest)

find_past :
    (c : ℕ) (xs rest : Bytes) (at : ℕ) (o : Option Bytes)
    → Lacks c xs
    → find c rest ≡ position_of at o
    → find c (xs ++ rest) ≡ position_of (length xs + at) o
unfolding shift
find_past c xs rest at o h e =
    find-append c xs rest h
    ∙ ap (Option.map (λ i. length xs + i)) e
    ∙ shift-position_of (length xs) at o

module _ (p : Parts) (plain : ArePlain p) where
  tail_of_symbol : Bytes
  tail_of_symbol = field b'#' p.symbol ++ (field b'&' p.regional ++ field b'~' p.shuffle)

  pattern-Lacks : {c : ℕ} → IsSeparator c → Lacks c p.pattern
  pattern-Lacks s = All-IsPlain-Lacks s p.pattern plain.pattern

  find_period : find b'@' (drop 4 (layout p)) ≡ position_of (length p.pattern + 0) p.period
  find_period = find_past b'@' p.pattern _ 0 p.period (pattern-Lacks at_sign) (
      find-field b'@' p.period _ (
        find-Lacks b'@' _ (
          All-append _ (field b'#' p.symbol) _ (field-Lacks at_sign b'#' p.symbol refl plain.symbol)
            (All-append _ (field b'&' p.regional) _
              (field-Lacks at_sign b'&' p.regional refl plain.regional)
              (field-Lacks at_sign b'~' p.shuffle refl plain.shuffle)))))

  find_symbol :
      find b'#' (drop 4 (layout p))
      ≡ position_of (length p.pattern + (length (field b'@' p.period) + 0)) p.symbol
  find_symbol = find_past b'#' p.pattern _ _ p.symbol (pattern-Lacks hash) (
      find_past b'#' (field b'@' p.period) _ 0 p.symbol
        (field-Lacks hash b'@' p.period refl plain.period)
        (find-field b'#' p.symbol _ (
          find-Lacks b'#' _ (
            All-append _ (field b'&' p.regional) _
              (field-Lacks hash b'&' p.regional refl plain.regional)
              (field-Lacks hash b'~' p.shuffle refl plain.shuffle)))))

  find_regional :
      find b'&' (drop 4 (layout p))
      ≡ position_of
          (length p.pattern + (length (field b'@' p.period) + (length (field b'#' p.symbol) + 0)))
          p.regional
  find_regional = find_past b'&' p.pattern _ _ p.regional (pattern-Lacks ampersand) (
      find_past b'&' (field b'@' p.period) _ _ p.regional
        (field-Lacks ampersand b'@' p.period refl plain.period)
        (find_past b'&' (field b'#' p.symbol) _ 0 p.regional
          (field-Lacks ampersand b'#' p.symbol refl plain.symbol)
          (find-field b'&' p.regional _
            (find-Lacks b'&' _ (field-Lacks ampersand b'~' p.shuffle refl plain.shuffle)))))

  find_shuffle :
      find b'~' (drop 4 (layout p))
      ≡ position_of
          (length p.pattern
            + (length (field b'@' p.period)
                + (length (field b'#' p.symbol) + (length (field b'&' p.regional) + 0))))
          p.shuffle
  find_shuffle = find_past b'~' p.pattern _ _ p.shuffle (pattern-Lacks tilde) (
      find_past b'~' (field b'@' p.period) _ _ p.shuffle
        (field-Lacks tilde b'@' p.period refl plain.period)
        (find_past b'~' (field b'#' p.symbol) _ _ p.shuffle
          (field-Lacks tilde b'#' p.symbol refl plain.symbol)
          (find_past b'~' (field b'&' p.regional) _ 0 p.shuffle
            (field-Lacks tilde b'&' p.regional refl plain.regional) (find_last p.shuffle))))
    where
      find_last : (o : Option Bytes) → find b'~' (field b'~' o) ≡ position_of 0 o
      find_last none = find-Lacks b'~' [] tt
      find_last (some t) = find_here b'~' t

at_position :
    (c n m : ℕ) (text : Bytes) (o : Option Bytes)
    → find c (drop 4 text) ≡ position_of n o
    → 4 + n ≡ m
    → find_from c 4 text ≡ position_of m o
unfolding find_from shift
at_position c n m text o e k =
    ap (Option.map (λ i. 4 + i)) e ∙ shift-position_of 4 n o ∙ ap (λ i. position_of i o) k

-- The separators that are found are those in front of the parts.
pub separators-layout : (p : Parts) → ArePlain p → separators (layout p) ≡ located p
unfolding separators
separators-layout p plain = λ i. record {
  period =
      at_position b'@' _ (period_at p) (layout p) p.period (find_period p plain) (omega arith) i;
  symbol =
      at_position b'#' _ (symbol_at p) (layout p) p.symbol (find_symbol p plain) (omega arith) i;
  regional =
      at_position b'&' _ (regional_at p) (layout p) p.regional (find_regional p plain) (omega arith)
        i;
  shuffle =
      at_position b'~' _ (shuffle_at p) (layout p) p.shuffle (find_shuffle p plain) (omega arith) i;
}
