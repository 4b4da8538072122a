-- ===== src/Server/History/Retained.antt =====
-- The retained history of a symbol is exactly the newest records, up to the limit.
use dxfcxx_event_test.Base.{
  ℕ, zero, suc, ◌+◌, ◌-◌, ◌≤◌, ◌≡◌, refl, sym, ap, ◌∙◌, subst, inl, inr, false, some, List, [], ◌∷◌,
  ◌++◌, append-nil, append_assoc, arith, ltb, if◌then◌else◌, ltb→lt, lt→ltb, ltb→ge, ge→ltb,
  Bool-cases, length, drop, length-append, length-drop,
}
use dxfcxx_event_test.Text.{Bytes, same}
use dxfcxx_event_test.Text.Find.{same_sound, same_refl}
use dxfcxx_event_test.Server.{TimeAndSaleRecord, TimeAndSaleHistory}
use dxfcxx_event_test.Server.History.{
  Histories, find_history, append_record, history_or_none, retain,
}

-- What is kept of all records of one symbol.
abbrev pub window : ℕ → List TimeAndSaleRecord → TimeAndSaleHistory
window limit all = record {
  records = drop (length all - limit) all;
  truncated = ltb limit (length all);
}

drop-append :
    (n : ℕ) (xs ys : List TimeAndSaleRecord) → n ≤ length xs → drop n (xs ++ ys) ≡ drop n xs ++ ys
drop-append zero xs ys h = refl
drop-append (suc n) [] ys h = absurd (omega arith)
drop-append (suc n) (x ∷ xs) ys h = drop-append n xs ys (omega arith)

drop-nil : (n : ℕ) → drop {A = TimeAndSaleRecord} n [] ≡ []
drop-nil zero = refl
drop-nil (suc n) = refl

drop-drop : (m n : ℕ) (xs : List TimeAndSaleRecord) → drop m (drop n xs) ≡ drop (n + m) xs
drop-drop m zero xs = ap (λ k. drop k xs) (omega arith)
drop-drop m (suc n) [] = drop-nil m ∙ sym (drop-nil (suc n + m))
drop-drop m (suc n) (x ∷ xs) = drop-drop m n xs ∙ ap (λ k. drop k (x ∷ xs)) (shape m n)
  where
    shape : (m n : ℕ) → suc (n + m) ≡ suc n + m
    shape m n = omega arith

same_history :
    {a b : TimeAndSaleHistory} → (a.records ≡ b.records) × (a.truncated ≡ b.truncated) → a ≡ b
same_history (er, et) = λ i. record { records = er i; truncated = et i }

append_record-window :
    (limit : ℕ) (r : TimeAndSaleRecord) (all : List TimeAndSaleRecord)
    → append_record limit r (window limit all) ≡ window limit (all ++ r ∷ [])
unfolding append_record
append_record-window limit r all =
    let l = length all in
    let kept = l - limit in
    let grown = drop kept all ++ r ∷ [] in
    let size : length grown ≡ l - kept + 1 =
      omega (arith, length-append (drop kept all) (r ∷ []), length-drop kept all) in
    let total : length (all ++ r ∷ []) ≡ l + 1 = length-append all (r ∷ []) in
    let joined : grown ≡ drop kept (all ++ r ∷ []) =
      sym (drop-append kept all (r ∷ []) (omega arith)) in
    elim (Bool-cases (ltb limit (length grown))) [
      | inl full ↦ rw full (
          same_history (
            ap (drop 1) joined
                ∙ drop-drop 1 kept (all ++ r ∷ [])
                ∙ ap (λ k. drop k (all ++ r ∷ []))
                    (omega (arith, size, total, ltb→lt limit (length grown) full)),
            sym (
                lt→ltb limit (length (all ++ r ∷ []))
                  (omega (arith, size, total, ltb→lt limit (length grown) full))),
          ))
      | inr room ↦ rw room (
          same_history (
            joined
                ∙ ap (λ k. drop k (all ++ r ∷ []))
                    (omega (arith, size, total, ltb→ge limit (length grown) room)),
            ge→ltb limit l (omega (arith, size, ltb→ge limit (length grown) room))
                ∙ sym (
                    ge→ltb limit (length (all ++ r ∷ []))
                      (omega (arith, size, total, ltb→ge limit (length grown) room))),
          ))
    ]

find_history-retain-same :
    (limit : ℕ) (symbol : Bytes) (r : TimeAndSaleRecord) (m : Histories)
    → history_or_none (find_history symbol (retain limit symbol r m))
      ≡ append_record limit r (history_or_none (find_history symbol m))
unfolding find_history retain history_or_none
find_history-retain-same limit symbol r [] = rw (same_refl symbol) refl
find_history-retain-same limit symbol r ((s, h) ∷ m) = elim (Bool-cases (same s symbol)) [
  | inl e ↦ rw (e, e) refl
  | inr e ↦ rw (e, e) (find_history-retain-same limit symbol r m)
]

find_history-retain-other :
    (limit : ℕ) (symbol other : Bytes) (r : TimeAndSaleRecord) (m : Histories)
    → same symbol other ≡ false
    → find_history other (retain limit symbol r m) ≡ find_history other m
unfolding find_history retain
find_history-retain-other limit symbol other r [] ne = rw ne refl
find_history-retain-other limit symbol other r ((s, h) ∷ m) ne = elim (Bool-cases (same s symbol)) [
  | inl e ↦
      let differs : same s other ≡ false =
        subst (λ t. same t other ≡ false) (sym (same_sound s symbol e)) ne in
      rw (e, differs) refl
  | inr e ↦ rw e (
      ap (λ o. if same s other then some h else o)
        (find_history-retain-other limit symbol other r m ne))
]

-- All records in the order of their arrival, and those of one symbol.
pub retain_all : ℕ → List (Bytes × TimeAndSaleRecord) → Histories → Histories
retain_all limit [] m = m
retain_all limit ((symbol, r) ∷ entries) m = retain_all limit entries (retain limit symbol r m)

pub records_of : Bytes → List (Bytes × TimeAndSaleRecord) → List TimeAndSaleRecord
records_of symbol [] = []
records_of symbol ((s, r) ∷ entries) =
    if same s symbol then r ∷ records_of symbol entries else records_of symbol entries

retain_all-from :
    (limit : ℕ) (symbol : Bytes) (entries : List (Bytes × TimeAndSaleRecord)) (m : Histories)
    (before : List TimeAndSaleRecord)
    → history_or_none (find_history symbol m) ≡ window limit before
    → history_or_none (find_history symbol (retain_all limit entries m))
      ≡ window limit (before ++ records_of symbol entries)
unfolding retain_all records_of
retain_all-from limit symbol [] m before h = h ∙ ap (window limit) (sym (append-nil before))
retain_all-from limit symbol ((s, r) ∷ entries) m before h = elim (Bool-cases (same s symbol)) [
  | inl e ↦ rw e (
      retain_all-from limit symbol entries (retain limit s r m) (before ++ r ∷ []) (
        ap (λ t. history_or_none (find_history symbol (retain limit t r m))) (same_sound s symbol e)
        ∙ find_history-retain-same limit symbol r m
        ∙ ap (append_record limit r) h
        ∙ append_record-window limit r before)
      ∙ ap (window limit) (append_assoc before (r ∷ []) (records_of symbol entries)))
  | inr e ↦ rw e (
      retain_all-from limit symbol entries (retain limit s r m) before
        (ap history_or_none (find_history-retain-other limit s symbol r m e) ∙ h))
]

-- After any sequence of retained records of any symbols, from no histories on, the history of a
-- symbol holds exactly the newest records of that symbol, up to the limit and in their order, and is
-- marked truncated exactly if there were more than the limit.
pub retain_all-window :
    (limit : ℕ) (symbol : Bytes) (entries : List (Bytes × TimeAndSaleRecord))
    → history_or_none (find_history symbol (retain_all limit entries []))
      ≡ window limit (records_of symbol entries)
unfolding find_history history_or_none
retain_all-window limit symbol entries =
    retain_all-from limit symbol entries [] []
      (same_history (sym (drop-nil (0 - limit)), sym (ge→ltb limit 0 (omega arith))))
