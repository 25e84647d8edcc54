-- ===== src/Base/Members.antt =====
-- Membership of a list, and the entries that a filter keeps.
use mathlib.Core.Path.{◌≡◌, refl, subst}
use mathlib.Core.Logic.{◌⊎◌, inl, inr}
use mathlib.Core.Bool.{Bool, true, false}
use mathlib.Core.List.{List, [], ◌∷◌, ◌++◌}
use native.Mathlib.Omega.{arith}
use calculated_tennis.Base.Tests.{if◌then◌else◌}
use calculated_tennis.Base.Lists.{All}
use calculated_tennis.Base.Sorting.{filter}

-- A list that has a value.
abbrev pub IsAmong : {A : Type 0} → A → List A → Type 0
IsAmong x [] = ⊥
IsAmong x (y ∷ ys) = (y ≡ x) ⊎ IsAmong x ys

pub append_nil {ℓ} : {A : Type ℓ} (xs : List A) → xs ++ [] ≡ xs
append_nil [] = refl
append_nil (x ∷ xs) = rw (append_nil xs) refl

pub append_snoc {ℓ} :
    {A : Type ℓ} (xs : List A) (y : A) (zs : List A) → (xs ++ y ∷ []) ++ zs ≡ xs ++ y ∷ zs
append_snoc [] y zs = refl
append_snoc (x ∷ xs) y zs = rw (append_snoc xs y zs) refl

pub All-filter_iff :
    {A : Type 0} (P : A → Type 0) (keep : A → Bool) (xs : List A)
    → All P (filter keep xs)
    → All (λ x. keep x ≡ true → P x) xs
All-filter_iff P keep [] h = tt
All-filter_iff P keep (x ∷ xs) h = by_test (keep x) (All-filter_iff P keep xs) h
  where
    by_test :
        (b : Bool)
        → (All P (filter keep xs) → All (λ y. keep y ≡ true → P y) xs)
        → All P (if b then x ∷ filter keep xs else filter keep xs)
        → (b ≡ true → P x) × All (λ y. keep y ≡ true → P y) xs
    by_test true rest h = ((λ _. h.0), rest h.1)
    by_test false rest h = ((λ e. absurd (ground (arith, e))), rest h)

pub IsAmong-filter :
    {A : Type 0} (keep : A → Bool) (x : A) (xs : List A)
    → IsAmong x (filter keep xs)
    → IsAmong x xs × (keep x ≡ true)
IsAmong-filter keep x [] h = absurd h
IsAmong-filter keep x (y ∷ ys) h = by_test (keep y) (IsAmong-filter keep x ys) refl h
  where
    by_test :
        (b : Bool)
        → (IsAmong x (filter keep ys) → IsAmong x ys × (keep x ≡ true))
        → keep y ≡ b
        → IsAmong x (if b then y ∷ filter keep ys else filter keep ys)
        → ((y ≡ x) ⊎ IsAmong x ys) × (keep x ≡ true)
    by_test true rest e (inl same) = (inl same, subst (λ z. keep z ≡ true) same e)
    by_test true rest e (inr there) = (inr (rest there).0, (rest there).1)
    by_test false rest e there = (inr (rest there).0, (rest there).1)
