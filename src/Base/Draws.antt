-- ===== src/Base/Draws.antt =====
-- Computations that draw numbers from a generator: the state is the place of the next number, and
-- `none` is the answer when the fuel is used up.
use Prim.Native.Nat.{ℕ}
use mathlib.Core.Path.{◌≡◌, refl}
use mathlib.Core.Option.{Option, none, some}
use calculated_tennis.Base.Results.{Result, ok, err}

abbrev pub Draws : Type 0 → Type 0 → Type 0
Draws E X = ℕ → Option (Result E (X × ℕ))

abbrev pub and_then :
    {E X Y : Type 0} → Option (Result E (X × ℕ)) → (X → Draws E Y) → Option (Result E (Y × ℕ))
and_then none f = none
and_then (some (err e)) f = some (err e)
and_then (some (ok (x, t))) f = f x t

infixl 5 ◌>>=◌
abbrev pub ◌>>=◌ : {E X Y : Type 0} → Draws E X → (X → Draws E Y) → Draws E Y
◌>>=◌ m f t = and_then (m t) f

abbrev pub pure : {E X : Type 0} → X → Draws E X
pure a t = some (ok (a, t))

abbrev pub fail : {E X : Type 0} → E → Draws E X
fail e t = some (err e)

abbrev pub of_result : {E X : Type 0} → Result E X → Draws E X
of_result (ok a) = pure a
of_result (err e) = fail e

abbrev pub relabelled :
    {E G X : Type 0} → (E → G) → Option (Result E (X × ℕ)) → Option (Result G (X × ℕ))
relabelled f none = none
relabelled f (some (err e)) = some (err (f e))
relabelled f (some (ok r)) = some (ok r)

-- The errors of a part as those of the whole.
abbrev pub relabel : {E G X : Type 0} → (E → G) → Draws E X → Draws G X
relabel f m t = relabelled f (m t)

-- The computation ends: with an error of which `Q` holds, or a value of which `P` holds.
abbrev pub Ends : {E X : Type 0} → (E → Type 0) → (X → Type 0) → Option (Result E (X × ℕ)) → Type 0
Ends Q P none = ⊥
Ends Q P (some (err e)) = Q e
Ends Q P (some (ok (x, t))) = P x

pub and_then-Ends :
    {E X Y : Type 0} (Q : E → Type 0) (S : X → Type 0) (P : Y → Type 0)
    (o : Option (Result E (X × ℕ))) (f : X → Draws E Y)
    → Ends Q S o
    → ((x : X) (t : ℕ) → S x → Ends Q P (f x t))
    → Ends Q P (and_then o f)
and_then-Ends Q S P none f h k = absurd h
and_then-Ends Q S P (some (err e)) f h k = h
and_then-Ends Q S P (some (ok (x, t))) f h k = k x t h

pub relabelled-Ends :
    {E G X : Type 0} (Q : G → Type 0) (P : X → Type 0) (f : E → G) (o : Option (Result E (X × ℕ)))
    → Ends (λ e. Q (f e)) P o
    → Ends Q P (relabelled f o)
relabelled-Ends Q P f none h = absurd h
relabelled-Ends Q P f (some (err e)) h = h
relabelled-Ends Q P f (some (ok (x, t))) h = h

-- A stronger statement of the value, from the equation that gives it.
pub Ends-by :
    {E X : Type 0} (Q : E → Type 0) (S P : X → Type 0) (o : Option (Result E (X × ℕ)))
    → Ends Q S o
    → ((x : X) (t : ℕ) → o ≡ some (ok (x, t)) → P x)
    → Ends Q P o
Ends-by Q S P none h k = absurd h
Ends-by Q S P (some (err e)) h k = h
Ends-by Q S P (some (ok (x, t))) h k = k x t refl

-- A weaker statement of the errors.
pub Ends-errors :
    {E X : Type 0} (Q S : E → Type 0) (P : X → Type 0) (o : Option (Result E (X × ℕ)))
    → ((e : E) → Q e → S e)
    → Ends Q P o
    → Ends S P o
Ends-errors Q S P none f h = absurd h
Ends-errors Q S P (some (err e)) f h = f e h
Ends-errors Q S P (some (ok (x, t))) f h = h

-- A result is an error of which `Q` holds, or a value of which `P` holds.
abbrev pub Yields : {E X : Type 0} → (E → Type 0) → (X → Type 0) → Result E X → Type 0
Yields Q P (err e) = Q e
Yields Q P (ok x) = P x

pub of_result-Ends :
    {E X : Type 0} (Q : E → Type 0) (P : X → Type 0) (r : Result E X) (t : ℕ)
    → Yields Q P r
    → Ends Q P (of_result r t)
of_result-Ends Q P (err e) t h = h
of_result-Ends Q P (ok x) t h = h
