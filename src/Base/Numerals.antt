-- ===== src/Base/Numerals.antt =====
-- `strconv.Itoa`, `strconv.Atoi` and the zero-padded verbs of `fmt`, on lists of code points.
use Prim.Native.Nat.{ℕ, zero, suc, ◌+◌, ◌-◌, ◌*◌, ◌/◌, ◌%◌, ◌^◌}
use mathlib.Core.Bool.{true, false}
use mathlib.Core.Option.{Option, none, some}
use mathlib.Core.List.{[], ◌∷◌, ◌++◌}
use calculated_tennis.Base.Tests.{ltb, leb, if◌then◌else◌}
use calculated_tennis.Base.Lists.{length}
use calculated_tennis.Base.Texts.{Text, between}
use calculated_tennis.Base.Int.{ℤ, pos, negsuc}

-- The decimal digits before `rest`; `suc n` digits are enough for `n`.
unfoldable pub digits_of : ℕ → ℕ → Text → Text
digits_of zero n rest = rest
digits_of (suc fuel) n rest = elim (ltb n 10) [
  | true ↦ (b'0' + n) ∷ rest
  | false ↦ digits_of fuel (n / 10) ((b'0' + n % 10) ∷ rest)
]

unfoldable pub itoa : ℤ → Text
unfolding digits_of
itoa (pos n) = digits_of (suc n) n []
itoa (negsuc n) = b'-' ∷ digits_of (suc (suc n)) (suc n) []

abbrev pub zeros : ℕ → Text
zeros zero = []
zeros (suc n) = b'0' ∷ zeros n

-- `%0{w}d`.
unfoldable pub padded : ℕ → ℕ → Text
unfolding itoa
padded w n = let s = itoa (pos n) in zeros (w - length s) ++ s

unfoldable pub value_of : ℕ → Text → Option ℕ
value_of n [] = some n
value_of n (c ∷ cs) = elim (between b'0' b'9' c) [
  | true ↦ value_of (n * 10 + (c - b'0')) cs
  | false ↦ none
]

-- The digits of a number up to `bound`, with the number that `make` gives.
abbrev pub bounded : ℕ → (ℕ → ℤ) → Option ℕ → Option ℤ
bounded bound make none = none
bounded bound make (some n) = if leb n bound then some (make n) else none

abbrev pub negative : ℕ → ℤ
negative zero = pos 0
negative (suc n) = negsuc n

abbrev pub unsigned : Text → Option ℕ
unfolding value_of
unsigned [] = none
unsigned (c ∷ cs) = value_of 0 (c ∷ cs)

-- A 64-bit `int`.
unfoldable pub atoi : Text → Option ℤ
atoi [] = none
atoi (c ∷ cs) = elim (between b'-' b'-' c) [
  | true ↦ bounded (2 ^ 63) negative (unsigned cs)
  | false ↦ elim (between b'+' b'+' c) [
    | true ↦ bounded (2 ^ 63 - 1) pos (unsigned cs)
    | false ↦ bounded (2 ^ 63 - 1) pos (unsigned (c ∷ cs))
  ]
]
