-- ===== src/Base/Results.antt =====
-- `std::expected`: a value or an error, and the chaining of fallible steps.
use mathlib.Core.Path.{◌≡◌, refl}
use mathlib.Core.Bool.{Bool, true, false}
use mathlib.Core.Option.{Option, none, some}

pub data Result {ℓ κ} (E : Type κ) (A : Type ℓ) : Type (ℓ ⊔ κ) where
  ok : A → Result E A
  err : E → Result E A

infixl 5 ◌>>=◌
abbrev pub ◌>>=◌ {ℓ κ μ} :
    {E : Type μ} {A : Type ℓ} {B : Type κ} → Result E A → (A → Result E B) → Result E B
err reason >>= next = err reason
ok value >>= next = next value

-- A chain succeeds by its first step and then the rest.
pub >>=-eq-ok {ℓ κ μ} :
    {E : Type μ} {A : Type ℓ} {B : Type κ} (first : Result E A) (rest : A → Result E B) {b : B}
    → (first >>= rest) ≡ ok b
    → (value : A) × (first ≡ ok value) × (rest value ≡ ok b)
>>=-eq-ok (err reason) rest failed = cc
>>=-eq-ok (ok value) rest done = (value, refl, done)

-- An early return with an error unless the test holds.
abbrev pub guard {μ} : {E : Type μ} → Bool → E → Result E (Unit {0})
guard false reason = err reason
guard true reason = ok tt

infixl 5 ◌>>◌
abbrev pub ◌>>◌ {κ μ} : {E : Type μ} {B : Type κ} → Result E (Unit {0}) → Result E B → Result E B
first >> second = first >>= λ done. second

-- A chain behind a check succeeds when the check does and the rest does.
pub >>-eq-ok {κ μ} :
    {E : Type μ} {B : Type κ} (first : Result E (Unit {0})) (rest : Result E B) {b : B}
    → (first >> rest) ≡ ok b
    → (first ≡ ok tt) × (rest ≡ ok b)
>>-eq-ok (err reason) rest failed = cc
>>-eq-ok (ok tt) rest done = (refl, done)

pub guard-eq-ok {μ} : {E : Type μ} (b : Bool) (e : E) → guard b e ≡ ok tt → b ≡ true
guard-eq-ok false e h = cc
guard-eq-ok true e h = refl

pub ok-injective {ℓ κ} :
    {E : Type κ} {A : Type ℓ} {a b : A} → Path (Result E A) (ok a) (ok b) → a ≡ b
ok-injective h = cc

pub some-injective {ℓ} : {A : Type ℓ} {a b : A} → some a ≡ some b → a ≡ b
some-injective h = cc

pub none-ne-some {ℓ} : {A : Type ℓ} {a : A} → Path (Option A) none (some a) → ⊥
none-ne-some h = cc
