-- ===== src/Tennis/Examples.antt =====
-- Runs of the tennis modules (tennis/tennis), and the theorems at concrete inputs.
mod Matches
mod Simulations
mod Scores
use calculated_tennis.Base.{
  codes, ℕ, ◌≡◌, refl, Bool, true, false, Option, none, some, List, [], ◌∷◌, ok, err, Result, map,
}
use calculated_tennis.Tennis.State.{Player, A, B, default_format, Tally, Match, new_match}
use calculated_tennis.Tennis.Rules.{win_game, win_tiebreak_point, complete_set}
use calculated_tennis.Tennis.Score.{SetScore, ScoreError}
use calculated_tennis.Tennis.Score.Validate.{
  validate_score_sequence, validate_game_totals, classify_set, validate_in_progress_set,
}
use calculated_tennis.Tennis.Score.Parse.{parse_score}
use calculated_tennis.Tennis.Score.Hydrate.{
  Replay, match_from_score, hydrate_set, score_needs_tiebreak_hydration,
  replay_tiebreak_until_set_complete, replay_regular_games_until_set_complete,
  replay_regular_games_to, pick_needed_game_winner, pick_tiebreak_progress_winner,
  replay_tiebreak_points_to, pick_needed_tiebreak_winner,
}

abbrev games : ℕ → ℕ → SetScore
games a b = record { games_a = a; games_b = b; tiebreak = none }

parse_run :
    parse_score (codes "  7-5 6-6(3-2) ")
    ≡ ok (
        games 7 5
        ∷ record { games_a = 6; games_b = 6; tiebreak = some (record { a = 3; b = 2 }) }
        ∷ [])
unfolding parse_score
parse_run = refl

parse_bad_run : parse_score (codes "7-5 6-5(3-2)") ≡ err ScoreError.invalid_set
unfolding parse_score
parse_bad_run = refl

abbrev state_of : Replay → Option (Tally × Tally × Tally)
state_of none = none
state_of (some (err e)) = none
state_of (some (ok m)) = some (m.sets_won, m.current.games, m.current.tiebreak_points)

from_score_run :
    state_of (match_from_score 40 default_format A (codes "7-6 3-6 6-6(3-2)"))
    ≡ some (record { a = 1; b = 1 }, record { a = 6; b = 6 }, record { a = 3; b = 2 })
unfolding match_from_score validate_score_sequence default_format validate_game_totals classify_set
    validate_in_progress_set hydrate_set score_needs_tiebreak_hydration
    replay_tiebreak_until_set_complete replay_regular_games_until_set_complete new_match
    replay_regular_games_to win_game pick_needed_game_winner win_tiebreak_point
    pick_tiebreak_progress_winner complete_set replay_tiebreak_points_to pick_needed_tiebreak_winner
from_score_run = refl
