-- ===== src/Tennis/Score.antt =====
-- tennis/tennis/score.go: the set tokens of a score string, and the errors.
pub mod Validate
pub mod Parse
pub mod Hydrate
use calculated_tennis.Base.{ℕ, Bool, true, false, Option, none, some}
use calculated_tennis.Tennis.State.{Tally, zero_tally}
use calculated_tennis.Tennis.Rules.{MatchError}

-- `of_match` is an error of the match's own operations, passed on.
pub data ScoreError : Type 0 where
  score_empty invalid_token invalid_set score_match_complete too_many_sets hydration : ScoreError
  of_match : MatchError → ScoreError

-- The pointers `TiebreakA` and `TiebreakB`, which are set together or not at all, are one option.
pub record SetScore : Type 0 where
  pub games_a : ℕ
  pub games_b : ℕ
  pub tiebreak : Option Tally

abbrev pub has_tiebreak : Option Tally → Bool
has_tiebreak none = false
has_tiebreak (some t) = true

abbrev pub points_of : Option Tally → Tally
points_of none = zero_tally
points_of (some t) = t

abbrev pub tiebreak_points : SetScore → Tally
tiebreak_points s = points_of s.tiebreak
