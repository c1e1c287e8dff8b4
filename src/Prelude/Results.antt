-- ===== src/Prelude/Results.antt =====
-- Code that throws: the value, or what was thrown.
use mathlib.Core.Path.{◌≡◌, refl}
use mathlib.Core.Logic.{◌⊎◌, inl, inr}
use mathlib.Core.Bool.{Bool, true, false}

-- The standard exception classes that the code throws.
pub data Exception : Type 0 where
  invalid_argument length_error runtime_error logic_error overflow_error : Exception

pub data Result {ℓ} (E : Type 0) (A : Type ℓ) : Type ℓ where
  throw : E → Result E A
  ok : A → Result E A

infixl 5 ◌>>=◌ ◌>>◌
abbrev pub ◌>>=◌ {ℓ κ} :
    {E : Type 0} {A : Type ℓ} {B : Type κ} → Result E A → (A → Result E B) → Result E B
throw thrown >>= rest = throw thrown
ok value >>= rest = rest value

abbrev pub ◌>>◌ {κ} : {E : Type 0} {B : Type κ} → Result E (Unit {0}) → Result E B → Result E B
throw thrown >> rest = throw thrown
ok _ >> rest = rest

-- `if (!test) throw e;`
abbrev pub require : {E : Type 0} → Bool → E → Result E (Unit {0})
require false thrown = throw thrown
require true thrown = ok tt

module _ {ℓ κ} {E : Type 0} {A : Type ℓ} {B : Type κ} where
  -- What returned has returned in both its parts.
  pub >>=-inv :
      (first : Result E A) (rest : A → Result E B) (result : B)
      → (first >>= rest) ≡ ok result
      → (value : A) × (first ≡ ok value) × (rest value ≡ ok result)
  >>=-inv (throw thrown) rest result returned = cc
  >>=-inv (ok value) rest result returned = (value, refl, returned)

-- What returned after a test has passed it.
module _ {κ} {E : Type 0} {B : Type κ} where
  pub require-inv :
      (test : Bool) (thrown : E) (rest : Result E B) (result : B)
      → (require test thrown >> rest) ≡ ok result
      → (test ≡ true) × (rest ≡ ok result)
  require-inv false thrown rest result returned = cc
  require-inv true thrown rest result returned = (refl, returned)

pub Result-cases {ℓ} :
    {E : Type 0} {A : Type ℓ} (result : Result E A)
    → ((thrown : E) × (result ≡ throw thrown)) ⊎ ((value : A) × (result ≡ ok value))
Result-cases (throw thrown) = inl (thrown, refl)
Result-cases (ok value) = inr (value, refl)

-- A result is one value at most.
pub ok_injective {κ} :
    {E : Type 0} {B : Type κ} (result : Result E B) (a b : B)
    → result ≡ ok a
    → result ≡ ok b
    → b ≡ a
ok_injective result a b first second = cc (first, second)
