-- ===== src/Base/Int.antt =====
-- A signed Go `int` argument, its order and its difference.
use Prim.Native.Nat.{ℕ, suc, ◌+◌, ◌-◌}
use native.Mathlib.Omega.{arith}
use mathlib.Core.Path.{◌≡◌, refl}
use mathlib.Core.Bool.{Bool, true, false}
use calculated_tennis.Base.Tests.{ltb, ◌==◌, if◌then◌else◌}

-- `negsuc n` is -(n + 1).
pub data ℤ : Type 0 where
  pos : ℕ → ℤ
  negsuc : ℕ → ℤ

abbrev pub ltℤ : ℤ → ℤ → Bool
ltℤ (pos a) (pos b) = ltb a b
ltℤ (pos a) (negsuc b) = false
ltℤ (negsuc a) (pos b) = true
ltℤ (negsuc a) (negsuc b) = ltb b a

abbrev pub eqℤ : ℤ → ℤ → Bool
eqℤ (pos a) (pos b) = a == b
eqℤ (pos a) (negsuc b) = false
eqℤ (negsuc a) (pos b) = false
eqℤ (negsuc a) (negsuc b) = a == b

pub eqℤ_eq : (a b : ℤ) → eqℤ a b ≡ true → a ≡ b
eqℤ_eq (pos a) (pos b) h = ground arith
eqℤ_eq (pos a) (negsuc b) h = ground arith
eqℤ_eq (negsuc a) (pos b) h = ground arith
eqℤ_eq (negsuc a) (negsuc b) h = ground arith

-- The difference of two naturals.
abbrev pub difference : ℕ → ℕ → ℤ
difference a b = if ltb a b then negsuc (b - a - 1) else pos (a - b)

infixl 20 ◌-ℤ◌
abbrev pub ◌-ℤ◌ : ℤ → ℤ → ℤ
pos a -ℤ pos b = difference a b
pos a -ℤ negsuc b = pos (suc (a + b))
negsuc a -ℤ pos b = negsuc (a + b)
negsuc a -ℤ negsuc b = difference b a

pub ltℤ-trans : (x y z : ℤ) → ltℤ y x ≡ false → ltℤ z y ≡ false → ltℤ z x ≡ false
ltℤ-trans (pos x) (pos y) (pos z) h k = ground arith
ltℤ-trans (pos x) (pos y) (negsuc z) h k = absurd (ground arith)
ltℤ-trans (pos x) (negsuc y) z h k = absurd (ground arith)
ltℤ-trans (negsuc x) (pos y) (pos z) h k = refl
ltℤ-trans (negsuc x) (pos y) (negsuc z) h k = absurd (ground arith)
ltℤ-trans (negsuc x) (negsuc y) (pos z) h k = refl
ltℤ-trans (negsuc x) (negsuc y) (negsuc z) h k = ground arith

pub ltℤ-irrefl : (x : ℤ) → ltℤ x x ≡ false
ltℤ-irrefl (pos x) = ground arith
ltℤ-irrefl (negsuc x) = ground arith

pub ltℤ-asym : (x y : ℤ) → ltℤ x y ≡ true → ltℤ y x ≡ false
ltℤ-asym (pos x) (pos y) h = ground arith
ltℤ-asym (pos x) (negsuc y) h = absurd (ground arith)
ltℤ-asym (negsuc x) (pos y) h = refl
ltℤ-asym (negsuc x) (negsuc y) h = ground arith

pub ltℤ-far : (m x y : ℤ) → ltℤ m x ≡ false → ltℤ m y ≡ true → ltℤ y x ≡ false
ltℤ-far m x y h k = ltℤ-trans x m y h (ltℤ-asym m y k)
