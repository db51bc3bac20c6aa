-- ===== src/Prelude/Results.antt =====
-- What a call of fallible code ends in: a value, or the way in which it left.
use mathlib.Core.Path.{◌≡◌, refl, subst}
use mathlib.Core.Bool.{Bool, true, false}

-- `position` is a ByteBufferPositionException and `invalid_value` a
-- ByteBufferInvalidValueException; `aborted` is a failed ASSERT, which ends the process, and
-- `fault` an access outside of the storage, which the source leaves undefined.
pub data Error : Type 0 where
  position invalid_value aborted fault : Error

pub data Result {ℓ} (Value : Type ℓ) : Type ℓ where
  err : Error → Result Value
  ok : Value → Result Value

-- Goes on if the test holds, and leaves by the error otherwise.
abbrev pub require : Bool → Error → Result (Unit {0})
require false failure = err failure
require true failure = ok tt

infixl 5 ◌>>=◌
abbrev pub ◌>>=◌ {ℓ κ} :
    {Value : Type ℓ} {Next : Type κ} → Result Value → (Value → Result Next) → Result Next
err failure >>= rest = err failure
ok value >>= rest = rest value

pub >>=_assoc {ℓ} :
    {First Second Third : Type ℓ} (m : Result First) (f : First → Result Second)
    (g : Second → Result Third)
    → (m >>= f >>= g) ≡ (m >>= λ a. f a >>= g)
>>=_assoc (err failure) f g = refl
>>=_assoc (ok a) f g = refl

-- Inversion of a successful bind, for proofs where the parts stay shut.
pub >>=-eq-ok {ℓ κ} :
    {Value : Type ℓ} {Next : Type κ} (first : Result Value) (rest : Value → Result Next)
    {next : Next}
    → (first >>= rest) ≡ ok next
    → (value : Value) × (first ≡ ok value) × (rest value ≡ ok next)
>>=-eq-ok (err failure) rest h = cc
>>=-eq-ok (ok value) rest h = (value, refl, h)

-- The same without a value to hand on.
infixl 5 ◌>>◌
abbrev pub ◌>>◌ {ℓ κ} : {Value : Type ℓ} {Next : Type κ} → Result Value → Result Next → Result Next
first >> rest = first >>= λ done. rest

-- `P` holds of the value, if the call returned one.
abbrev pub OnOk {ℓ κ} : {Value : Type ℓ} → (Value → Type κ) → Result Value → Type κ
OnOk P (err failure) = Unit
OnOk P (ok value) = P value

module _ {ℓ κ} {Value Next : Type ℓ} {P : Value → Type κ} where
  pub OnOk-bind :
      (Q : Next → Type κ) (r : Result Value) (rest : Value → Result Next)
      → OnOk P r
      → ((value : Value) → P value → OnOk Q (rest value))
      → OnOk Q (r >>= rest)
  OnOk-bind Q (err failure) rest p k = tt
  OnOk-bind Q (ok value) rest p k = k value p

pub OnOk-ok {ℓ κ} :
    {Value : Type ℓ} (P : Value → Type κ) (r : Result Value) (value : Value)
    → r ≡ ok value
    → OnOk P r
    → P value
OnOk-ok P r value e p = subst (OnOk P) e p

pub OnOk-and {ℓ κ κ'} :
    {Value : Type ℓ} (P : Value → Type κ) (Q : Value → Type κ') (r : Result Value)
    → OnOk P r
    → OnOk Q r
    → OnOk (λ value. P value × Q value) r
OnOk-and P Q (err failure) p q = tt
OnOk-and P Q (ok value) p q = (p, q)
