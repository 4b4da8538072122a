-- ===== src/Task/Parse/Valid/Pattern.antt =====
-- Where the pattern of a task ends, in `parseTask`.
use dxfcxx_event_test.Base.{
  ℕ, ◌-◌, ◌≤◌, ◌<◌, ◌≡◌, ap, ◌≢◌, inl, inr, true, [], ◌∷◌, arith, Option-cases, length, drop,
  length-take, length-drop,
}
use dxfcxx_event_test.Text.{Bytes, starts_with, substr, find_from}
use dxfcxx_event_test.Text.Find.{find_from-bounds}
use dxfcxx_event_test.Task.Parse.{separators, separator_position, pattern_end}

pub separator_position-ge :
    (c : ℕ) (text : Bytes) → 4 ≤ length text → 4 ≤ separator_position text (find_from c 4 text)
unfolding separator_position
separator_position-ge c text h = elim (Option-cases (find_from c 4 text)) [
  | inl e ↦ rw e h
  | inr (i, e) ↦ rw e (find_from-bounds c 4 text e).0
]

pub separator_position-le :
    (c : ℕ) (text : Bytes)
    → 4 ≤ length text
    → separator_position text (find_from c 4 text) ≤ length text
unfolding separator_position
separator_position-le c text h = elim (Option-cases (find_from c 4 text)) [
  | inl e ↦ rw e (omega arith)
  | inr (i, e) ↦ rw e (omega (arith, find_from-bounds c 4 text e, length-drop 4 text))
]

pub pattern_end-ge : (text : Bytes) → 4 ≤ length text → 4 ≤ pattern_end text (separators text)
unfolding pattern_end separators
pattern_end-ge text h = omega (
  arith,
  separator_position-ge b'@' text h,
  separator_position-ge b'#' text h,
  separator_position-ge b'&' text h,
  separator_position-ge b'~' text h,
)

pub pattern_end-le :
    (text : Bytes) → 4 ≤ length text → pattern_end text (separators text) ≤ length text
unfolding pattern_end separators
pattern_end-le text h = omega (arith, separator_position-le b'@' text h)

pub pattern-ne-nil :
    (text : Bytes)
    → 4 < pattern_end text (separators text)
    → 4 ≤ length text
    → substr text 4 (pattern_end text (separators text) - 4) ≢ []
pattern-ne-nil text k long =
    let n = pattern_end text (separators text) - 4 in
    λ e. absurd (
      omega (
        arith,
        ap length e,
        length-take n (drop 4 text),
        length-drop 4 text,
        pattern_end-le text long,
      ))

pub starts_with-length :
    (prefix text : Bytes) → starts_with prefix text ≡ true → length prefix ≤ length text
unfolding starts_with
starts_with-length [] text h = omega arith
starts_with-length (c ∷ prefix) [] h = cc
starts_with-length (c ∷ prefix) (d ∷ text) h = ground (arith, starts_with-length prefix text)
