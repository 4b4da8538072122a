-- ===== src/Arguments/Words.antt =====
-- A command line of arguments with their values is read one after the other.
use dxfcxx_event_test.Base.{◌≡◌, refl, false, Option, none, List, [], ◌∷◌, Result, ok}
use dxfcxx_event_test.Text.{Bytes, codes, same}
use dxfcxx_event_test.Arguments.{Refusal, read_arguments}

module _ {C : Type 0} (flag : Bytes → Option (C → C))
    (option : Bytes → Bytes → C → Result Refusal C) where
  -- An argument and its value, with what it does to the configuration.
  pub record Setting : Type 0 where
    pub arg : Bytes
    pub value : Bytes
    pub fill : C → C
    pub plain : flag arg ≡ none
    pub not_help : same arg (codes "--help") ≡ false
    pub taken : (c : C) → option arg value c ≡ ok (fill c)

  unfoldable pub words : List Setting → List Bytes → List Bytes
  words [] rest = rest
  words (s ∷ settings) rest = s.arg ∷ s.value ∷ words settings rest

  unfoldable pub filled : List Setting → C → C
  filled [] c = c
  filled (s ∷ settings) c = filled settings (s.fill c)

  pub read_arguments-words :
      (settings : List Setting) (rest : List Bytes) (c : C)
      → read_arguments flag option c (words settings rest)
        ≡ read_arguments flag option (filled settings c) rest
  unfolding words filled read_arguments
  read_arguments-words [] rest c = refl
  read_arguments-words (s ∷ settings) rest c =
      rw (s.not_help, s.plain, s.taken c) (read_arguments-words settings rest (s.fill c))
