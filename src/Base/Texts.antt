-- ===== src/Base/Texts.antt =====
-- Go strings as lists of code points, and what the source uses of `strings`. Case is that of the
-- ASCII letters; `unicode.IsSpace` is whole.
use Prim.Native.Nat.{ℕ, ◌+◌}
use Prim.Native.Char.{code}
use Prim.Native.String.{String}
use mathlib.Core.Path.{◌≡◌, refl}
use mathlib.Core.Logic.{◌↔◌}
use mathlib.Core.Bool.{Bool, true, false, ◌&&◌, ◌||◌}
use mathlib.Core.List.{List, [], ◌∷◌, reverse, map}
use native.Mathlib.Omega.{arith}
use calculated_tennis.Base.Tests.{leb, ltb, ◌==◌, ==_iff, if◌then◌else◌}

abbrev pub Text : Type 0
Text = List ℕ

abbrev pub codes : String → Text
codes String.[] = []
codes (String.◌∷◌ c s) = code c ∷ codes s

-- An equality test.
pub record Eq (A : Type 0) : Type 0 where
  pub test : A → A → Bool
  pub test_iff : (a b : A) → (test a b ≡ true) ↔ (a ≡ b)

abbrev pub text_test : Text → Text → Bool
text_test [] [] = true
text_test [] (d ∷ ds) = false
text_test (c ∷ cs) [] = false
text_test (c ∷ cs) (d ∷ ds) = c == d && text_test cs ds

pub text_test_iff : (s t : Text) → (text_test s t ≡ true) ↔ (s ≡ t)
text_test_iff [] [] = ((λ _. refl), λ _. refl)
text_test_iff [] (d ∷ ds) = ground arith
text_test_iff (c ∷ cs) [] = ground arith
text_test_iff (c ∷ cs) (d ∷ ds) = ground (arith, ==_iff c d, text_test_iff cs ds)

abbrev pub text_eq : Eq Text
text_eq = record { test = text_test; test_iff = text_test_iff }

abbrev pub nat_eq : Eq ℕ
nat_eq = record { test = ◌==◌; test_iff = ==_iff }

abbrev pub is_empty {ℓ} : {A : Type ℓ} → List A → Bool
is_empty [] = true
is_empty (x ∷ xs) = false

abbrev pub between : ℕ → ℕ → ℕ → Bool
between lo hi c = leb lo c && leb c hi

-- `unicode.IsSpace`.
unfoldable pub is_space : ℕ → Bool
is_space c =
    between 9 13 c
    || c == 32
    || c == 0x85
    || c == 0xA0
    || c == 0x1680
    || between 0x2000 0x200a c
    || between 0x2028 0x2029 c
    || c == 0x202f
    || c == 0x205f
    || c == 0x3000

unfoldable pub trim_left : Text → Text
unfolding is_space
trim_left [] = []
trim_left (c ∷ cs) = if is_space c then trim_left cs else c ∷ cs

unfoldable pub trim_space : Text → Text
unfolding trim_left
trim_space s = reverse (trim_left (reverse (trim_left s)))

abbrev pub lower : ℕ → ℕ
lower c = if between b'A' b'Z' c then c + 32 else c

-- `strings.ToLower`.
abbrev pub to_lower : Text → Text
to_lower s = map lower s

-- `strings.EqualFold`.
abbrev pub equal_fold : Text → Text → Bool
equal_fold s t = text_test (to_lower s) (to_lower t)

abbrev pub has_prefix : Text → Text → Bool
has_prefix s [] = true
has_prefix [] (d ∷ ds) = false
has_prefix (c ∷ cs) (d ∷ ds) = c == d && has_prefix cs ds

abbrev pub contains : Text → Text → Bool
contains [] t = is_empty t
contains (c ∷ cs) t = has_prefix (c ∷ cs) t || contains cs t

-- Strings are ordered by their bytes; of code points in UTF-8 that is the order of the numbers.
abbrev pub text_less : Text → Text → Bool
text_less s [] = false
text_less [] (d ∷ ds) = true
text_less (c ∷ cs) (d ∷ ds) = ltb c d || c == d && text_less cs ds
