-- ===== src/Tennis/Rules/Outcome.antt =====
-- When the operations of tennis/tennis/rules.go refuse, and what they leave alone.
use calculated_tennis.Base.{◌≡◌, true, false, Option, none, some, arith, ◌↔◌, ◌≢◌}
use calculated_tennis.Tennis.State.{Player, regular, tiebreak, Match}
use calculated_tennis.Tennis.Rules.{
  MatchError, match_complete, wrong_phase, win_game, win_tiebreak_point,
}

-- What the result of an operation that wants a live match, in a phase that `Right` describes, is.
pub record IsGuarded (Right Wrong : Type 0) (m : Match) (r : Match × Option MatchError)
    : Type 0 where
  pub complete : (r.1 ≡ some match_complete) ↔ (m.done ≡ true)
  pub wrong : (r.1 ≡ some wrong_phase) ↔ ((m.done ≡ false) × Wrong)
  pub accepted : (r.1 ≡ none) ↔ ((m.done ≡ false) × Right)
  pub unchanged : r.1 ≢ none → r.0 ≡ m

-- WinGame returns ErrMatchComplete exactly on a finished match, ErrWrongPhase exactly in a tiebreak
-- of an unfinished one, and no error otherwise; with an error the match is unchanged.
pub win_game-IsGuarded :
    (m : Match) (w : Player)
    → IsGuarded (m.current.phase ≡ regular) (m.current.phase ≡ tiebreak) m (win_game m w)
unfolding win_game
win_game-IsGuarded m w = record {
  complete = ground arith;
  wrong = ground arith;
  accepted = ground arith;
  unchanged = ground arith;
}

-- WinTiebreakPoint returns ErrMatchComplete exactly on a finished match, ErrWrongPhase exactly in
-- the regular games of an unfinished one, and no error otherwise; with an error the match is
-- unchanged.
pub win_tiebreak_point-IsGuarded :
    (m : Match) (w : Player)
    → IsGuarded (m.current.phase ≡ tiebreak) (m.current.phase ≡ regular) m (win_tiebreak_point m w)
unfolding win_tiebreak_point
win_tiebreak_point-IsGuarded m w = record {
  complete = ground arith;
  wrong = ground arith;
  accepted = ground arith;
  unchanged = ground arith;
}
