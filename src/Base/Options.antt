-- ===== src/Base/Options.antt =====
-- A value or none, for the functions that return `ok = false`.
use mathlib.Core.Path.{◌≡◌, subst}
use mathlib.Core.Option.{Option, none, some}

infixl 5 ◌>>=◌
abbrev pub ◌>>=◌ {ℓ κ} : {X : Type ℓ} {Y : Type κ} → Option X → (X → Option Y) → Option Y
none >>= next = none
some x >>= next = next x

-- What holds of the value, where there is one.
abbrev pub Holds {ℓ κ} : {X : Type ℓ} → (X → Type κ) → Option X → Type κ
Holds P none = Unit
Holds P (some x) = P x

pub >>=-Holds {ℓ κ μ} :
    {X : Type ℓ} {Y : Type κ} (P : Y → Type μ) (o : Option X) (next : X → Option Y)
    → ((x : X) → Holds P (next x))
    → Holds P (o >>= next)
>>=-Holds P none next h = tt
>>=-Holds P (some x) next h = h x

-- The value of a chain is made from one at its first step, of which `Q` holds.
pub >>=-Holds_of {ℓ κ μ ν} :
    {X : Type ℓ} {Y : Type κ} (Q : X → Type ν) (P : Y → Type μ) (o : Option X) (next : X → Option Y)
    → Holds Q o
    → ((x : X) → Q x → Holds P (next x))
    → Holds P (o >>= next)
>>=-Holds_of Q P none next q h = tt
>>=-Holds_of Q P (some x) next q h = h x q

pub Holds-some {ℓ κ} :
    {X : Type ℓ} (P : X → Type κ) (o : Option X) (x : X) → Holds P o → o ≡ some x → P x
Holds-some P o x h e = subst (Holds P) e h
