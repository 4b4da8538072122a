-- ===== src/Task/Parse/Ends.antt =====
-- The order and the ends of the parts of a text that is put together, and the parts themselves.
use Prim.Native.String.{String}
use dxfcxx_event_test.Base.{
  ℕ, ◌+◌, ◌-◌, ◌≤◌, min, ◌≡◌, refl, sym, ap, ◌∙◌, Option, none, some, [], ◌∷◌, ◌++◌, append_assoc,
  arith, ok, length, drop, length-append, drop-length-append,
}
use dxfcxx_event_test.Text.{Bytes, substr}
use dxfcxx_event_test.Text.Find.{substr_middle}
use dxfcxx_event_test.Task.{task_prefix}
use dxfcxx_event_test.Task.Parse.{
  in_order, check_order, separator_position, pattern_end, period_end, symbol_end, section,
}
use dxfcxx_event_test.Task.Parse.Sections.{
  Parts, field, layout, located, position_of, period_at, symbol_at, regional_at, shuffle_at,
}

in_order-position_of :
    (n m : ℕ) (a b : Option Bytes) (message : String)
    → n ≤ m
    → in_order (position_of n a) (position_of m b) message ≡ ok tt
unfolding in_order
in_order-position_of n m none b message h = refl
in_order-position_of n m (some t) none message h = refl
in_order-position_of n m (some t) (some u) message h = ground arith

-- The parts stand in the order that is asked for.
pub check_order-located : (p : Parts) → check_order (located p) ≡ ok tt
unfolding check_order
check_order-located p = rw (
  in_order-position_of (period_at p) (symbol_at p) p.period p.symbol _ (omega arith),
  in_order-position_of (period_at p) (shuffle_at p) p.period p.shuffle _ (omega arith),
  in_order-position_of (symbol_at p) (shuffle_at p) p.symbol p.shuffle _ (omega arith),
  in_order-position_of (period_at p) (regional_at p) p.period p.regional _ (omega arith),
  in_order-position_of (symbol_at p) (regional_at p) p.symbol p.regional _ (omega arith),
  in_order-position_of (regional_at p) (shuffle_at p) p.regional p.shuffle _ (omega arith),
)

pub length-layout : (p : Parts) → length (layout p) ≡ shuffle_at p + length (field b'~' p.shuffle)
length-layout p =
    let t3 = field b'&' p.regional ++ field b'~' p.shuffle in
    let t2 = field b'#' p.symbol ++ t3 in
    let t1 = field b'@' p.period ++ t2 in
    omega (
      arith,
      length-append p.pattern t1,
      length-append (field b'@' p.period) t2,
      length-append (field b'#' p.symbol) t3,
      length-append (field b'&' p.regional) (field b'~' p.shuffle),
    )

-- The last part ends with the text.
end_of_last :
    (text : Bytes) (c n : ℕ) (o : Option Bytes)
    → length text ≡ n + length (field c o)
    → separator_position text (position_of n o) ≡ n
unfolding separator_position
end_of_last text c n none h = omega arith
end_of_last text c n (some t) h = refl

-- The part before ends where this one begins, or where the next one does.
end_before :
    (text : Bytes) (c n m : ℕ) (o : Option Bytes)
    → m ≡ n + length (field c o)
    → m ≤ length text
    → min (separator_position text (position_of n o)) m ≡ n
unfolding separator_position
end_before text c n m none h k = omega arith
end_before text c n m (some t) h k = omega arith

pub shuffle_position :
    (p : Parts) → separator_position (layout p) (located p).shuffle ≡ shuffle_at p
shuffle_position p = end_of_last (layout p) b'~' (shuffle_at p) p.shuffle (length-layout p)

pub symbol_end-located : (p : Parts) → symbol_end (layout p) (located p) ≡ regional_at p
unfolding symbol_end
symbol_end-located p = rw (shuffle_position p) (
    end_before (layout p) b'&' (regional_at p) (shuffle_at p) p.regional refl
      (omega (arith, length-layout p)))

pub period_end-located : (p : Parts) → period_end (layout p) (located p) ≡ symbol_at p
unfolding period_end symbol_end
period_end-located p =
    ap (min (separator_position (layout p) (located p).symbol)) (symbol_end-located p)
    ∙ end_before (layout p) b'#' (symbol_at p) (regional_at p) p.symbol refl
        (omega (arith, length-layout p))

pub pattern_end-located : (p : Parts) → pattern_end (layout p) (located p) ≡ period_at p
unfolding pattern_end period_end
pattern_end-located p =
    ap (min (separator_position (layout p) (located p).period)) (period_end-located p)
    ∙ end_before (layout p) b'@' (period_at p) (symbol_at p) p.period refl
        (omega (arith, length-layout p))

-- A part behind a known front.
section-front :
    (text front t rest : Bytes) (c separator end : ℕ)
    → text ≡ front ++ (c ∷ (t ++ rest))
    → separator ≡ length front
    → end ≡ separator + 1 + length t
    → section text separator end ≡ t
unfolding section
section-front text front t rest c separator end e k l =
    ap (λ u. substr u (separator + 1) (end - separator - 1))
      (e ∙ sym (append_assoc front (c ∷ []) (t ++ rest)))
    ∙ substr_middle (front ++ c ∷ []) t rest (separator + 1) (end - separator - 1)
        (omega (arith, length-append front (c ∷ []))) (omega arith)

pub period_section :
    (p : Parts) (t : Bytes) → p.period ≡ some t → section (layout p) (period_at p) (symbol_at p) ≡ t
period_section p t e =
    section-front (layout p) (task_prefix ++ p.pattern) t
      (field b'#' p.symbol ++ (field b'&' p.regional ++ field b'~' p.shuffle)) b'@' _ _ (rw e refl)
      (omega arith) (rw e (omega arith))

pub symbol_section :
    (p : Parts) (t : Bytes)
    → p.symbol ≡ some t
    → section (layout p) (symbol_at p) (regional_at p) ≡ t
symbol_section p t e =
    section-front (layout p) (task_prefix ++ (p.pattern ++ field b'@' p.period)) t
      (field b'&' p.regional ++ field b'~' p.shuffle) b'#' _ _
      (rw e (ap (λ u. task_prefix ++ u) (sym (append_assoc p.pattern (field b'@' p.period) _))))
      (omega (arith, length-append p.pattern (field b'@' p.period))) (rw e (omega arith))

pub regional_section :
    (p : Parts) (t : Bytes)
    → p.regional ≡ some t
    → section (layout p) (regional_at p) (shuffle_at p) ≡ t
regional_section p t e =
    section-front (layout p)
      (task_prefix ++ (p.pattern ++ (field b'@' p.period ++ field b'#' p.symbol))) t
      (field b'~' p.shuffle) b'&' _ _ (rw e (simp append_assoc))
      (omega (
        arith,
        length-append p.pattern (field b'@' p.period ++ field b'#' p.symbol),
        length-append (field b'@' p.period) (field b'#' p.symbol),
      ))
      (rw e (omega arith))

pub seed_section :
    (p : Parts) (t : Bytes) → p.shuffle ≡ some t → drop (shuffle_at p + 1) (layout p) ≡ t
seed_section p t e =
    let front =
      task_prefix
      ++ (p.pattern ++ (field b'@' p.period ++ (field b'#' p.symbol ++ field b'&' p.regional))) in
    let f3 = field b'#' p.symbol ++ field b'&' p.regional in
    let split : layout p ≡ (front ++ b'~' ∷ []) ++ t = rw e (simp append_assoc) in
    let measured : shuffle_at p + 1 ≡ length (front ++ b'~' ∷ []) = omega (
      arith,
      length-append front (b'~' ∷ []),
      length-append p.pattern (field b'@' p.period ++ f3),
      length-append (field b'@' p.period) f3,
      length-append (field b'#' p.symbol) (field b'&' p.regional),
    ) in
    ap (λ n. drop n (layout p)) measured
    ∙ ap (drop (length (front ++ b'~' ∷ []))) split
    ∙ drop-length-append (front ++ b'~' ∷ []) t

-- The pattern stands behind the prefix.
pub pattern_section : (p : Parts) → substr (layout p) 4 (period_at p - 4) ≡ p.pattern
pattern_section p = substr_middle task_prefix p.pattern _ 4 (period_at p - 4) refl (omega arith)
