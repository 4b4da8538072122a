-- ===== src/Arguments.antt =====
-- The loop over command-line arguments that `parseArgs` of src/client.cpp,
-- src/graal_delivery_client.cpp, src/legacy_client.cpp and src/analyzer.cpp share.
pub mod Words
use dxfcxx_event_test.Base.{
  ℕ, zero, suc, ◌+◌, ◌-◌, ◌*◌, ◌/◌, ◌%◌, ◌^◌, ◌≤◌, ◌<◌, min, max, ◌≡◌, refl, sym, ap, ◌∙◌, subst,
  ◌≢◌, ◌↔◌, ◌⊎◌, inl, inr, Bool, true, false, not, ◌&&◌, ◌||◌, Option, none, some, List, [], ◌∷◌,
  ◌++◌, map, reverse, append-nil, append_assoc, arith, ltb, leb, ◌==◌, if◌then◌else◌, ltb→lt,
  lt→ltb, ltb→ge, ge→ltb, leb→le, le→leb, gt→leb, ==_iff, ==_refl, ne→==, Bool-cases, Option-cases,
  Result, ok, err, ◌>>=◌, ◌>>◌, guard, >>=-eq-ok, >>-eq-ok, guard-eq-ok, ok-injective,
  some-injective, none-ne-some, length, get_elem?, set, take, drop, replicate, length-append,
  length-reverse, length-take, length-drop, length-replicate, take-length-append,
  drop-length-append, length-set, length-map, All, All-append, All-reverse, All-mono,
}
use dxfcxx_event_test.Text.{
  Bytes, codes, same, starts_with, ends_with, remove_suffix, substr, find, find_from, is_digit,
  value, to_string, zero_padded, size_limit, int64_limit, Scan, invalid, out_of_range, scanned,
  span_digits, scan_u64, scan_i64, scanned_all,
}

-- The help, after which the program ends, or the exception that is thrown.
pub data Refusal : Type 0 where
  help : Refusal
  missing_value : Bytes → Refusal
  bad_value : Bytes → Refusal
  unknown_role : Bytes → Refusal
  invalid_limit : Bytes → Refusal
  unknown_contract : Bytes → Refusal
  unknown_argument : Bytes → Refusal
  directory_required : Refusal

-- A value that another parser reads; its message becomes the exception's.
unfoldable pub with_value {ℓ} : {A C : Type ℓ} → Result Bytes A → (A → C) → Result Refusal C
with_value (ok a) fill = ok (fill a)
with_value (err e) fill = err (bad_value e)

-- `flag` knows the arguments without a value; `option` takes an argument and its value.
module _ {C : Type 0} (flag : Bytes → Option (C → C))
    (option : Bytes → Bytes → C → Result Refusal C) where
  last_argument : Bytes → Option (C → C) → C → Result Refusal C
  last_argument arg none c = err (missing_value arg)
  last_argument arg (some fill) c = ok (fill c)

  unfoldable pub read_arguments : C → List Bytes → Result Refusal C
  unfolding same codes last_argument
  read_arguments c [] = ok c
  read_arguments c (arg ∷ []) =
      if same arg (codes "--help") then err help else last_argument arg (flag arg) c
  read_arguments c (arg ∷ value ∷ rest) =
      if same arg (codes "--help") then err help else elim (flag arg) [
        | none ↦ option arg value c >>= λ next. read_arguments next rest
        | some fill ↦ read_arguments (fill c) (value ∷ rest)
      ]
