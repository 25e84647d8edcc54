-- ===== src/Base/Results.antt =====
-- A value or an error, for the functions that return an `error` beside their result.
use mathlib.Core.Path.{◌≡◌, refl}
use mathlib.Core.Bool.{Bool, true, false}
use native.Mathlib.Omega.{arith}

pub data Result {ℓ} (E : Type 0) (A : Type ℓ) : Type ℓ where
  ok : A → Result E A
  err : E → Result E A

infixl 5 ◌>>=◌ ◌>>◌
-- The next step runs on the value; an error is returned at once.
abbrev pub ◌>>=◌ {ℓ κ} :
    {E : Type 0} {X : Type ℓ} {Y : Type κ} → Result E X → (X → Result E Y) → Result E Y
err failed >>= next = err failed
ok value >>= next = next value

-- `if bad { return err }`.
abbrev pub reject_if : {E : Type 0} → Bool → E → Result E (Unit {0})
reject_if true e = err e
reject_if false e = ok tt

abbrev pub ◌>>◌ {ℓ} : {E : Type 0} {Y : Type ℓ} → Result E (Unit {0}) → Result E Y → Result E Y
first >> next = first >>= (λ done. next)

-- A successful bind comes from a successful first step.
pub >>=-eq-ok {ℓ κ} :
    {E : Type 0} {X : Type ℓ} {Y : Type κ} (first : Result E X) (next : X → Result E Y) {last : Y}
    → (first >>= next) ≡ ok last
    → (value : X) × (first ≡ ok value) × (next value ≡ ok last)
>>=-eq-ok (err failed) next success = absurd (ground arith)
>>=-eq-ok (ok value) next success = (value, refl, success)
