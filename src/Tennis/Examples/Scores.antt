-- ===== src/Tennis/Examples/Scores.antt =====
-- The theorems on tennis/tennis/score.go at concrete scores.
use calculated_tennis.Base.{◌<◌, ◌≡◌, refl, none, some, List, [], ◌∷◌, ok, err, arith, All}
use calculated_tennis.Tennis.State.{A, default_format, zero_tally}
use calculated_tennis.Tennis.Score.{SetScore, hydration}
use calculated_tennis.Tennis.Score.Validate.{
  validate_score_sequence, validate_game_totals, classify_set, validate_in_progress_set,
}
use calculated_tennis.Tennis.Score.Hydrate.{match_from_sets}
use calculated_tennis.Tennis.Score.Hydrate.Steps.{IsStandard}
use calculated_tennis.Tennis.Score.Hydrate.Tokens.{HasFuel}
use calculated_tennis.Tennis.Score.Hydrate.Sequence.{Replays, IsReplayable, match_from_sets-Replays}
use calculated_tennis.Tennis.Score.Hydrate.Level.{level_score, match_from_sets-level}

default-IsStandard : IsStandard default_format
unfolding default_format
default-IsStandard = record {
  some_set = omega arith;
  some_game = omega arith;
  games = refl;
  by_two = refl;
  by_two_points = refl;
}

default-HasFuel : HasFuel default_format 40
unfolding default_format
default-HasFuel = record { games = omega arith; points = omega arith; final_points = omega arith }

-- 7-6 3-6 6-6(3-2).
abbrev third_set_tiebreak : List SetScore
third_set_tiebreak =
    record { games_a = 7; games_b = 6; tiebreak = none }
    ∷ record { games_a = 3; games_b = 6; tiebreak = none }
    ∷ record { games_a = 6; games_b = 6; tiebreak = some (record { a = 3; b = 2 }) }
    ∷ []

third_set-valid : validate_score_sequence default_format third_set_tiebreak ≡ ok tt
unfolding validate_score_sequence default_format validate_game_totals classify_set
    validate_in_progress_set
third_set-valid = refl

third_set-All : All (IsReplayable default_format 40) third_set_tiebreak
unfolding default_format
third_set-All = (
  record { within = λ e. ground arith; enough = omega arith },
  (
    record { within = λ e. ground arith; enough = omega arith },
    (record { within = λ e. omega arith; enough = omega arith }, tt),
  ),
)

match_from_sets-Replays_example :
    Replays default_format [] zero_tally third_set_tiebreak
      (match_from_sets 40 default_format A third_set_tiebreak)
match_from_sets-Replays_example =
    match_from_sets-Replays default_format 40 default-IsStandard default-HasFuel A
      third_set_tiebreak third_set-valid third_set-All

nine_above : default_format.tiebreak_at_games_each < 9
unfolding default_format
nine_above = omega arith

match_from_sets-level_example :
    (validate_score_sequence default_format (level_score 9 ∷ []) ≡ ok tt)
    × (match_from_sets 40 default_format A (level_score 9 ∷ []) ≡ some (err hydration))
match_from_sets-level_example =
    match_from_sets-level default_format default-IsStandard 9 nine_above 40 A default-HasFuel
