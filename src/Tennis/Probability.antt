-- ===== src/Tennis/Probability.antt =====
-- tennis/tennis/probability.go, over a float64 arithmetic.
use calculated_tennis.Base.{Bool, ◌||◌, if◌then◌else◌, Result, ok, err, Float64}

-- The errors of tennis/tennis/probability.go.
pub data RateError : Type 0 where
  invalid_alpha invalid_rate : RateError

module _ (R : Float64) where
  open R use {F, zero, one, two, lt, le, add, sub, div, pow}

  -- `x < 0 || x > 1`.
  abbrev pub outside_unit : F → Bool
  outside_unit x = lt x zero || lt one x

  unfoldable pub game_win_prob : F → F → F → Result RateError F
  game_win_prob server_hold opponent_break alpha =
      if le alpha zero
      then err invalid_alpha
      else if outside_unit server_hold || outside_unit opponent_break
      then err invalid_rate
      else if le opponent_break server_hold
      then ok (div (add one (pow (sub server_hold opponent_break) alpha)) two)
      else ok (div (sub one (pow (sub opponent_break server_hold) alpha)) two)
