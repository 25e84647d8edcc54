-- ===== src/MoneyManager/Decimals.antt =====
-- `decimal.Decimal` of shopspring/decimal, as a parameter: the type, and the operations that
-- moneymanager uses.
use mathlib.Core.Bool.{Bool}
use mathlib.Core.Option.{Option}
use calculated_tennis.Base.{ℕ, ℤ, Text}

pub record Decimal : Type 1 where
  pub D : Type 0
  pub of_int : ℕ → D
  -- `NewFromBigInt(raw, -6)`.
  pub of_micro : ℤ → D
  -- `NewFromFloat(defaultMaxPctBalance)`.
  pub five_percent : D
  -- `NewFromString`.
  pub parse : Text → Option D
  pub is_positive : D → Bool
  pub is_negative : D → Bool
  pub greater : D → D → Bool
  pub less : D → D → Bool
  pub mul : D → D → D
  pub sub : D → D → D
  pub div : D → D → D
  -- `Truncate(2)`.
  pub truncate : D → D
