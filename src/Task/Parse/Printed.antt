-- ===== src/Task/Parse/Printed.antt =====
-- The item loop of `parseTask` reads back what `toString` prints.
use dxfcxx_event_test.Base.{
  ℕ, suc, ◌+◌, ◌-◌, ◌≤◌, ◌<◌, ◌≡◌, refl, sym, ap, ◌∙◌, true, false, some, List, [], ◌∷◌, ◌++◌,
  append_assoc, arith, ne→==, ok, length, length-append, All,
}
use dxfcxx_event_test.Text.{Bytes, to_string, size_limit}
use dxfcxx_event_test.Text.Decimal.{Stops, scan_u64-to_string}
use dxfcxx_event_test.Task.{
  EventKind, quote, trade, trade_eth, summary, time_and_sale, PatternItem, kind_code, parse_kind,
  event_count, items_text, size_max,
}
use dxfcxx_event_test.Task.Count.{
  sum_quantities, event_count-sum, sum_quantities-append, sum_quantities-one,
}
use dxfcxx_event_test.Task.Parse.{
  Loop, seen_before, after_item, after_number, read_item, parse_items, is_some,
}
use dxfcxx_event_test.Task.Parse.Items.{Fresh, IsPositive, AreValid}

pub parse_kind-kind_code : (k : EventKind) → parse_kind (kind_code k) ≡ some k
unfolding parse_kind
parse_kind-kind_code quote = refl
parse_kind-kind_code trade = refl
parse_kind-kind_code trade_eth = refl
parse_kind-kind_code summary = refl
parse_kind-kind_code time_and_sale = refl

parse_items-skip :
    (xs ys : Bytes) (position : ℕ) (seen : List EventKind) (items : List PatternItem)
    → parse_items (xs ++ ys) (length xs) position seen items ≡ parse_items ys 0 position seen items
unfolding parse_items
parse_items-skip [] ys position seen items = refl
parse_items-skip (x ∷ xs) ys position seen items = parse_items-skip xs ys position seen items

-- The items behind the first, each with a `;` in front.
more_text : List PatternItem → Bytes
more_text [] = []
more_text (item ∷ items) = b';' ∷ kind_code item.kind ∷ (to_string item.quantity ++ more_text items)

items_text-more : (i : ℕ) (items : List PatternItem) → items_text (suc i) items ≡ more_text items
unfolding items_text more_text
items_text-more i [] = refl
items_text-more i (item ∷ items) =
    rw (items_text_suc, items_text-more (suc i) items, ne→== (suc i) 0 (λ z. absurd (omega arith)))
  where
    items_text_suc : items_text (suc i + 1) items ≡ items_text (suc (suc i)) items
    items_text_suc = ap (λ n. items_text n items) (omega arith)

items_text-first :
    (item : PatternItem) (items : List PatternItem)
    → items_text 0 (item ∷ items)
      ≡ kind_code item.kind ∷ (to_string item.quantity ++ more_text items)
unfolding items_text
items_text-first item items =
    ap (λ t. kind_code item.kind ∷ (to_string item.quantity ++ t)) (items_text-more 0 items)

more_text-Stops : (items : List PatternItem) → Stops (more_text items)
unfolding more_text
more_text-Stops [] = tt
more_text-Stops (item ∷ items) = refl

consumed : (ds rest : Bytes) → length (ds ++ rest) - length rest ≡ length ds
consumed ds rest = omega (arith, length-append ds rest)

-- A valid item behind those read so far.
record Extends (seen : List EventKind) (done : List PatternItem) (item : PatternItem) : Type 0 where
  positive : 0 < item.quantity
  fits : sum_quantities (done ++ item ∷ []) ≤ size_max
  fresh : seen_before item.kind seen ≡ false

event_count-fits :
    (items : List PatternItem)
    → sum_quantities items ≤ size_max
    → is_some (event_count items) ≡ true
event_count-fits items h = rw event_count-sum (ground arith)

quantity-fits :
    (done : List PatternItem) (item : PatternItem)
    → sum_quantities (done ++ item ∷ []) ≤ size_max
    → item.quantity < size_limit
quantity-fits done item h =
    omega (arith, sum_quantities-append done (item ∷ []), sum_quantities-one item)

read_item-printed :
    (next : Loop) (position : ℕ) (seen : List EventKind) (done : List PatternItem)
    (item : PatternItem) (items : List PatternItem)
    → Extends seen done item
    → read_item next position
        (parse_kind (kind_code item.kind))
        seen
        done
        (to_string item.quantity ++ more_text items)
      ≡ after_item next
          (length (to_string item.quantity))
          (position + 1 + length (to_string item.quantity))
          (item.kind ∷ seen)
          (done ++ item ∷ [])
          (more_text items)
unfolding read_item after_number
read_item-printed next position seen done item items e = rw (
  parse_kind-kind_code item.kind,
  e.fresh,
  scan_u64-to_string item.quantity (more_text items) (quantity-fits done item e.fits)
      (more_text-Stops items),
  consumed (to_string item.quantity) (more_text items),
  ne→== item.quantity 0 (λ z. absurd (omega (arith, e.positive))),
  event_count-fits (done ++ item ∷ []) e.fits,
)

after_item-more :
    (t rest : Bytes) (c position : ℕ) (seen : List EventKind) (items : List PatternItem)
    → after_item
        (parse_items (t ++ (b';' ∷ c ∷ rest)))
        (length t)
        position
        seen
        items
        (b';' ∷ c ∷ rest)
      ≡ parse_items (c ∷ rest) 0 (position + 1) seen items
unfolding after_item
after_item-more t rest c position seen items =
    ap (λ n. parse_items (t ++ (b';' ∷ c ∷ rest)) n (position + 1) seen items) longer
    ∙ ap (λ u. parse_items u (length (t ++ b';' ∷ [])) (position + 1) seen items)
        (sym (append_assoc t (b';' ∷ []) (c ∷ rest)))
    ∙ parse_items-skip (t ++ b';' ∷ []) (c ∷ rest) (position + 1) seen items
  where
    longer : length t + 1 ≡ length (t ++ b';' ∷ [])
    longer = omega (arith, length-append t (b';' ∷ []))

parse_items-printed :
    (items : List PatternItem) (item : PatternItem) (position : ℕ) (seen : List EventKind)
    (done : List PatternItem)
    → All IsPositive (item ∷ items)
    → Fresh seen (item ∷ items)
    → sum_quantities (done ++ item ∷ items) ≤ size_max
    → parse_items
        (kind_code item.kind ∷ (to_string item.quantity ++ more_text items))
        0
        position
        seen
        done
      ≡ ok (done ++ item ∷ items)
unfolding parse_items more_text after_item
parse_items-printed [] item position seen done (p, _) (f, _) fits =
    read_item-printed (parse_items (to_string item.quantity ++ more_text [])) position seen done
      item [] (record { positive = p; fits = fits; fresh = f })
    ∙ refl
parse_items-printed (item' ∷ items) item position seen done (p, ps) (f, fs) fits =
    read_item-printed (parse_items (to_string item.quantity ++ more_text (item' ∷ items))) position
      seen done item (item' ∷ items) (record { positive = p; fits = partial; fresh = f })
    ∙ after_item-more (to_string item.quantity) (to_string item'.quantity ++ more_text items)
        (kind_code item'.kind) _ (item.kind ∷ seen) (done ++ item ∷ [])
    ∙ parse_items-printed items item' _ (item.kind ∷ seen) (done ++ item ∷ []) ps fs
        (rw (append_assoc done (item ∷ []) (item' ∷ items)) fits)
    ∙ ap ok (append_assoc done (item ∷ []) (item' ∷ items))
  where
    partial : sum_quantities (done ++ item ∷ []) ≤ size_max
    partial = omega (
      arith,
      sum_quantities-append done (item ∷ item' ∷ items),
      sum_quantities-append done (item ∷ []),
      sum_quantities-append (item ∷ []) (item' ∷ items),
    )

-- A printed list of valid items is read back.
pub parse_items-items_text :
    (items : List PatternItem) (position : ℕ)
    → AreValid items
    → parse_items (items_text 0 items) 0 position [] [] ≡ ok items
parse_items-items_text [] position v = absurd (v.nonempty refl)
parse_items-items_text (item ∷ items) position v =
    rw (items_text-first item items)
      (parse_items-printed items item position [] [] v.positive v.distinct v.total)
