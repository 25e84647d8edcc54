-- ===== src/Base/Sorting.antt =====
-- Go's `sort.SliceStable` and the reading of its result, and the front of a list.
use Prim.Native.Nat.{ℕ, zero, suc, ◌-◌, min}
use mathlib.Core.Path.{◌≡◌, refl}
use mathlib.Core.Bool.{Bool, true, false}
use mathlib.Core.List.Permᴰ
use mathlib.Core.List.{List, [], ◌∷◌, ◌++◌, Permᴰ}
use native.Mathlib.Omega.{arith}
use calculated_tennis.Base.Tests.{if◌then◌else◌, if_case, ltb}
use calculated_tennis.Base.Lists.{length, All}

module _ {A : Type 0} where
  -- `x` goes before the first entry that is not less than it.
  abbrev pub insert : (A → A → Bool) → A → List A → List A
  insert less x [] = x ∷ []
  insert less x (y ∷ ys) = if less y x then y ∷ insert less x ys else x ∷ y ∷ ys

  unfoldable pub sort_stable : (A → A → Bool) → List A → List A
  sort_stable less [] = []
  sort_stable less (x ∷ xs) = insert less x (sort_stable less xs)

  abbrev pub filter : (A → Bool) → List A → List A
  filter keep [] = []
  filter keep (x ∷ xs) = if keep x then x ∷ filter keep xs else filter keep xs

  abbrev pub take : ℕ → List A → List A
  take zero xs = []
  take (suc n) [] = []
  take (suc n) (x ∷ xs) = x ∷ take n xs

  abbrev pub drop : ℕ → List A → List A
  drop zero xs = xs
  drop (suc n) [] = []
  drop (suc n) (x ∷ xs) = drop n xs

  pub take-append-drop : (n : ℕ) (xs : List A) → take n xs ++ drop n xs ≡ xs
  take-append-drop zero xs = refl
  take-append-drop (suc n) [] = refl
  take-append-drop (suc n) (x ∷ xs) = rw (take-append-drop n xs)

  pub length-take : (n : ℕ) (xs : List A) → length (take n xs) ≡ min n (length xs)
  length-take zero xs = omega arith
  length-take (suc n) [] = omega arith
  length-take (suc n) (x ∷ xs) = omega (arith, length-take n xs)

  pub length-drop : (n : ℕ) (xs : List A) → length (drop n xs) ≡ length xs - n
  length-drop zero xs = omega arith
  length-drop (suc n) [] = omega arith
  length-drop (suc n) (x ∷ xs) = omega (arith, length-drop n xs)

  pub All-drop : (P : A → Type 0) (n : ℕ) (xs : List A) → All P xs → All P (drop n xs)
  All-drop P zero xs h = h
  All-drop P (suc n) [] h = tt
  All-drop P (suc n) (x ∷ xs) h = All-drop P n xs h.1

  pub take_all : (n : ℕ) (xs : List A) → ltb n (length xs) ≡ false → take n xs ≡ xs
  take_all zero [] h = refl
  take_all zero (x ∷ xs) h = absurd (ground arith)
  take_all (suc n) [] h = refl
  take_all (suc n) (x ∷ xs) h = rw (take_all n xs (ground arith))

  -- No later entry is less than an earlier one.
  abbrev pub IsSorted : (A → A → Bool) → List A → Type 0
  IsSorted less [] = Unit
  IsSorted less (x ∷ xs) = All (λ y. less y x ≡ false) xs × IsSorted less xs

  pub All-filter : (keep : A → Bool) (xs : List A) → All (λ x. keep x ≡ true) (filter keep xs)
  All-filter keep [] = tt
  All-filter keep (x ∷ xs) =
      let rest = All-filter keep xs in
      if_case (All (λ x. keep x ≡ true)) (keep x) (λ e. (e, rest)) (λ e. rest)

  pub All-take : (P : A → Type 0) (n : ℕ) (xs : List A) → All P xs → All P (take n xs)
  All-take P zero xs h = tt
  All-take P (suc n) [] h = tt
  All-take P (suc n) (x ∷ xs) h = (h.0, All-take P n xs h.1)

  insert-All :
      (P : A → Type 0) (less : A → A → Bool) (x : A) (xs : List A)
      → P x
      → All P xs
      → All P (insert less x xs)
  insert-All P less x [] p h = (p, tt)
  insert-All P less x (y ∷ ys) p h =
      let more = insert-All P less x ys p h.1 in
      if_case (All P) (less y x) (λ e. (h.0, more)) (λ e. (p, h))

  pub sort_stable-All :
      (P : A → Type 0) (less : A → A → Bool) (xs : List A) → All P xs → All P (sort_stable less xs)
  unfolding sort_stable
  sort_stable-All P less [] h = tt
  sort_stable-All P less (x ∷ xs) h =
      insert-All P less x (sort_stable less xs) h.0 (sort_stable-All P less xs h.1)

  insert-perm : (less : A → A → Bool) (x : A) (xs : List A) → Permᴰ (insert less x xs) (x ∷ xs)
  insert-perm less x [] = Permᴰ.refl (x ∷ [])
  insert-perm less x (y ∷ ys) =
      let later = Permᴰ.trans (Permᴰ.cons refl (insert-perm less x ys)) (Permᴰ.swap refl refl) in
      if_case (λ zs. Permᴰ zs (x ∷ y ∷ ys)) (less y x) (λ e. later) (λ e. Permᴰ.refl (x ∷ y ∷ ys))

  -- A strict weak order.
  pub record IsStrict (less : A → A → Bool) : Type 0 where
    pub asym : (a b : A) → less a b ≡ true → less b a ≡ false
    pub trans : (a b c : A) → less b a ≡ false → less c b ≡ false → less c a ≡ false

  pub All-map-to : {P Q : A → Type 0} (xs : List A) → ((x : A) → P x → Q x) → All P xs → All Q xs
  All-map-to [] f h = tt
  All-map-to (x ∷ xs) f h = (f x h.0, All-map-to xs f h.1)

  insert-IsSorted :
      (less : A → A → Bool) (x : A) (xs : List A)
      → IsStrict less
      → IsSorted less xs
      → IsSorted less (insert less x xs)
  insert-IsSorted less x [] s h = (tt, tt)
  insert-IsSorted less x (y ∷ ys) s h =
      let more = insert-IsSorted less x ys s h.1 in
      if_case (IsSorted less) (less y x)
        (λ e. (insert-All (λ z. less z y ≡ false) less x ys (s.asym y x e) h.0, more))
        (λ e. ((e, All-map-to ys (λ z k. s.trans x y z e k) h.0), h))

  pub sort_stable-IsSorted :
      (less : A → A → Bool) (xs : List A) → IsStrict less → IsSorted less (sort_stable less xs)
  unfolding sort_stable
  sort_stable-IsSorted less [] s = tt
  sort_stable-IsSorted less (x ∷ xs) s =
      insert-IsSorted less x (sort_stable less xs) s (sort_stable-IsSorted less xs s)

  pub sort_stable-perm : (less : A → A → Bool) (xs : List A) → Permᴰ (sort_stable less xs) xs
  unfolding sort_stable
  sort_stable-perm less [] = Permᴰ.nil
  sort_stable-perm less (x ∷ xs) =
      Permᴰ.trans (insert-perm less x (sort_stable less xs))
        (Permᴰ.cons refl (sort_stable-perm less xs))

  length-insert :
      (less : A → A → Bool) (x : A) (xs : List A) → length (insert less x xs) ≡ suc (length xs)
  length-insert less x [] = refl
  length-insert less x (y ∷ ys) = ground (arith, length-insert less x ys)

  pub length-sort_stable :
      (less : A → A → Bool) (xs : List A) → length (sort_stable less xs) ≡ length xs
  unfolding sort_stable
  length-sort_stable less [] = refl
  length-sort_stable less (x ∷ xs) =
      omega (arith, length-insert less x (sort_stable less xs), length-sort_stable less xs)
