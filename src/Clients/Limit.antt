-- ===== src/Clients/Limit.antt =====
-- The name of a batch limit is read back as the limit.
use dxfcxx_event_test.Base.{
  ℕ, ◌≤◌, ◌<◌, ◌≡◌, refl, sym, ap, ◌∙◌, subst, ◌⊎◌, inl, inr, false, [], ◌∷◌, append-nil, arith,
  ◌==◌, ge→ltb, ==_iff, ne→==, Bool-cases, ok,
}
use dxfcxx_event_test.Base.Int.{pos}
use dxfcxx_event_test.Text.{Bytes, codes, same, is_digit, to_string, scanned, scan_i64}
use dxfcxx_event_test.Text.Decimal.{
  IsDigits, to_string-IsDigits, to_string-injective, scan_i64-to_string,
}
use dxfcxx_event_test.Text.Find.{same_sound}
use dxfcxx_event_test.Clients.{
  int32_max, limit_or_error, events_batch_limit_name, parse_events_batch_limit,
}

-- A text that starts with no digit is no number.
same-to_string :
    (n c : ℕ) (text : Bytes) → is_digit c ≡ false → same (to_string n) (c ∷ text) ≡ false
same-to_string n c text h = elim (Bool-cases (same (to_string n) (c ∷ text))) [
  | inl e ↦
      let (digit, _) =
        subst IsDigits (same_sound (to_string n) (c ∷ text) e) (to_string-IsDigits n) in
      cc
  | inr e ↦ e
]

same-to_string-zero : (n : ℕ) → 0 < n → same (to_string n) (codes "0") ≡ false
unfolding codes to_string
same-to_string-zero n h = elim (Bool-cases (same (to_string n) (b'0' ∷ []))) [
  | inl e ↦
      let zero_text : n ≡ 0 = to_string-injective n 0 (same_sound (to_string n) (b'0' ∷ []) e) in
      absurd (omega arith)
  | inr e ↦ e
]

module _ (optimal_batch_limit max_batch_limit : ℕ) where
  limit_or_error-to_string :
      (n : ℕ)
      → 0 < n
      → n ≤ int32_max
      → limit_or_error optimal_batch_limit max_batch_limit (to_string n) (scan_i64 (to_string n))
        ≡ ok n
  unfolding limit_or_error
  limit_or_error-to_string n p fits =
      let read : scan_i64 (to_string n) ≡ scanned (pos n) [] =
        ap scan_i64 (sym (append-nil (to_string n))) ∙ scan_i64-to_string n [] (omega arith) tt in
      rw (read, ne→== n 0 (omega arith), ge→ltb int32_max n fits) refl

  parse_events_batch_limit-to_string :
      (n : ℕ)
      → 0 < n
      → n ≤ int32_max
      → parse_events_batch_limit optimal_batch_limit max_batch_limit (to_string n) ≡ ok n
  unfolding parse_events_batch_limit codes
  parse_events_batch_limit-to_string n p fits =
      rw
        (
          same-to_string n b'o' (codes "ptimal") refl,
          same-to_string-zero n p,
          same-to_string n b'm' (codes "aximum") refl,
        )
        (limit_or_error-to_string n p fits)

  name-to_string :
      (limit : ℕ)
      → (limit == optimal_batch_limit) ≡ false
      → (limit == max_batch_limit) ≡ false
      → events_batch_limit_name optimal_batch_limit max_batch_limit limit ≡ to_string limit
  unfolding events_batch_limit_name
  name-to_string limit a b = rw (a, b) refl

  third :
      {limit : ℕ} {A : Type 0}
      → (limit ≡ optimal_batch_limit) ⊎ (limit ≡ max_batch_limit) ⊎ A
      → (limit == optimal_batch_limit) ≡ false
      → (limit == max_batch_limit) ≡ false
      → A
  third (inl e) a b = ground (arith, e, a)
  third (inr (inl e)) a b = ground (arith, e, b)
  third (inr (inr h)) a b = h

  -- The name of a batch limit is read back as the limit: as one of the two that dxFeed names, or
  -- as a positive number that fits 32 bits.
  pub parse_events_batch_limit-name :
      (limit : ℕ)
      → (limit ≡ optimal_batch_limit)
        ⊎ (limit ≡ max_batch_limit)
        ⊎ ((0 < limit) × (limit ≤ int32_max))
      → parse_events_batch_limit optimal_batch_limit max_batch_limit
          (events_batch_limit_name optimal_batch_limit max_batch_limit limit)
        ≡ ok limit
  unfolding parse_events_batch_limit events_batch_limit_name
  parse_events_batch_limit-name limit h = elim (Bool-cases (limit == optimal_batch_limit)) [
    | inl e ↦ rw e (ap ok (sym ((==_iff limit optimal_batch_limit).0 e)))
    | inr other ↦ elim (Bool-cases (limit == max_batch_limit)) [
      | inl e ↦ rw (other, e) (ap ok (sym ((==_iff limit max_batch_limit).0 e)))
      | inr number ↦
          let (p, fits) = third h other number in
          ap (parse_events_batch_limit optimal_batch_limit max_batch_limit)
            (name-to_string limit other number)
          ∙ parse_events_batch_limit-to_string limit p fits
    ]
  ]
