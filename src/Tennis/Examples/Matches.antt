-- ===== src/Tennis/Examples/Matches.antt =====
-- The theorems on the rules of tennis/tennis/rules.go at concrete matches.
use calculated_tennis.Base.{◌*◌, ◌<◌, ◌≡◌, List, [], ◌∷◌, arith, length}
use calculated_tennis.Tennis.State.{
  Player, A, B, default_format, Match, new_match, regular, tiebreak,
}
use calculated_tennis.Tennis.Rules.{win_game, win_tiebreak_point, server_for_tb_point}
use calculated_tennis.Tennis.Rules.Invariant.{IsPlayable, Inv, new_match-Inv}
use calculated_tennis.Tennis.Rules.Preservation.{win_game-Inv, win_tiebreak_point-Inv}
use calculated_tennis.Tennis.Rules.Outcome.{
  IsGuarded, win_game-IsGuarded, win_tiebreak_point-IsGuarded,
}
use calculated_tennis.Tennis.Rules.Rotation.{Rotates, alternate, server_for_tb_point-alternate}
use calculated_tennis.Tennis.Simulation.Play.{
  play, play-new-Inv, play-new-Rotates, play-completed_sets,
}

default-IsPlayable : IsPlayable default_format
unfolding default_format
default-IsPlayable = omega arith

opening : Match
opening = new_match A default_format

opening-Inv : Inv opening
unfolding opening
opening-Inv = new_match-Inv A default_format default-IsPlayable

win_game-Inv_example : Inv (win_game opening B).0
unfolding opening new_match
win_game-Inv_example = win_game-Inv opening B default-IsPlayable opening-Inv

win_tiebreak_point-Inv_example : Inv (win_tiebreak_point opening B).0
unfolding opening new_match
win_tiebreak_point-Inv_example = win_tiebreak_point-Inv opening B default-IsPlayable opening-Inv

win_game-IsGuarded_example :
    IsGuarded
      (opening.current.phase ≡ regular)
      (opening.current.phase ≡ tiebreak)
      opening
      (win_game opening A)
win_game-IsGuarded_example = win_game-IsGuarded opening A

win_tiebreak_point-IsGuarded_example :
    IsGuarded
      (opening.current.phase ≡ tiebreak)
      (opening.current.phase ≡ regular)
      opening
      (win_tiebreak_point opening A)
win_tiebreak_point-IsGuarded_example = win_tiebreak_point-IsGuarded opening A

server_for_tb_point-alternate_example : server_for_tb_point 5 A ≡ alternate 3 A
server_for_tb_point-alternate_example = server_for_tb_point-alternate 5 A

abbrev rally : List Player
rally = A ∷ A ∷ B ∷ A ∷ A ∷ A ∷ A ∷ B ∷ []

play-new-Inv_example : Inv (play (new_match A default_format) rally)
play-new-Inv_example = play-new-Inv A default_format rally default-IsPlayable

play-new-Rotates_example : Rotates (play (new_match A default_format) rally)
play-new-Rotates_example = play-new-Rotates A default_format rally default-IsPlayable

play-completed_sets_example :
    length (play (new_match A default_format) rally).completed_sets < 2 * default_format.sets_to_win
play-completed_sets_example = play-completed_sets A default_format rally default-IsPlayable
