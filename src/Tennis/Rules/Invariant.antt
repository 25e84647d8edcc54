-- ===== src/Tennis/Rules/Invariant.antt =====
-- What holds of a match between two calls of tennis/tennis/rules.go, for every format that can be
-- played, and that each operation keeps it.
use calculated_tennis.Base.{
  ◌+◌, ◌≤◌, ◌<◌, ◌≡◌, refl, true, false, none, some, List, [], ◌∷◌, ltb, if◌then◌else◌, ok, All,
  arith,
}
use calculated_tennis.Tennis.State.{
  Player, A, B, opponent, Tally, get, increment, zero_tally, MatchFormat, regular, tiebreak,
  SetResult, SetState, empty_set, Match, new_match,
}
use calculated_tennis.Tennis.Rules.{wins_by, points_target, server_for_tb_point}
use calculated_tennis.Tennis.Score.{SetScore}
use calculated_tennis.Tennis.Score.Validate.{impossible_game_score, classify_set, completed}

-- A format under which a set is won at `at + 1` games at the latest.
pub record IsPlayable (f : MatchFormat) : Type 0 where
  pub some_set : 1 ≤ f.sets_to_win
  pub some_game : 1 ≤ f.tiebreak_at_games_each
  pub reachable : f.games_per_set ≤ f.tiebreak_at_games_each
  pub ahead : 1 ≤ f.game_margin
  pub close : f.game_margin ≤ 2
  pub ahead_in_points : 1 ≤ f.tiebreak_point_margin

-- The set as a token of a score string.
abbrev pub as_token : SetResult → SetScore
as_token r = record { games_a = r.games_a; games_b = r.games_b; tiebreak = none }

-- The side with more games.
abbrev pub side_ahead : SetResult → Player
side_ahead r = if ltb r.games_a r.games_b then B else A

-- The score validator takes the set for one that its leader has won.
pub record IsLegal (f : MatchFormat) (r : SetResult) : Type 0 where
  pub possible : impossible_game_score r.games_a r.games_b f ≡ false
  pub classified : (won : Tally) → classify_set (as_token r) f won ≡ ok (completed (side_ahead r))

-- How many of the sets each side won.
unfoldable pub sets_of : List SetResult → Tally
sets_of [] = zero_tally
sets_of (r ∷ rs) = increment (sets_of rs) (side_ahead r)

-- A set under way.
pub record IsOpen (f : MatchFormat) (won : Tally) (server : Player) (c : SetState) : Type 0 where
  pub bounded_a : c.games.a ≤ f.tiebreak_at_games_each
  pub bounded_b : c.games.b ≤ f.tiebreak_at_games_each
  pub games_open :
      c.phase ≡ regular
      → (wins_by f.games_per_set f.game_margin c.games A ≡ false)
        × (wins_by f.games_per_set f.game_margin c.games B ≡ false)
        × (c.games.a + c.games.b < f.tiebreak_at_games_each + f.tiebreak_at_games_each)
  pub level :
      c.phase ≡ tiebreak
      → (c.games.a ≡ f.tiebreak_at_games_each) × (c.games.b ≡ f.tiebreak_at_games_each)
  pub played :
      c.phase ≡ tiebreak → c.points_played_in_tb ≡ c.tiebreak_points.a + c.tiebreak_points.b
  pub rotation :
      c.phase ≡ tiebreak
      → server ≡ server_for_tb_point c.points_played_in_tb c.first_server_of_tiebreak
  pub points_open :
      c.phase ≡ tiebreak
      → (wins_by (points_target f won) f.tiebreak_point_margin c.tiebreak_points A ≡ false)
        × (wins_by (points_target f won) f.tiebreak_point_margin c.tiebreak_points B ≡ false)

pub record Inv (m : Match) : Type 0 where
  pub legal : All (IsLegal m.format) m.completed_sets
  pub counted : sets_of m.completed_sets ≡ m.sets_won
  pub undecided :
      m.done ≡ false
      → (m.sets_won.a < m.format.sets_to_win)
        × (m.sets_won.b < m.format.sets_to_win)
        × (m.winner ≡ none)
        × IsOpen m.format m.sets_won m.server m.current
  pub decided :
      m.done ≡ true
      → (w : Player) × (m.winner ≡ some w)
        × (get m.sets_won w ≡ m.format.sets_to_win)
        × (get m.sets_won (opponent w) < m.format.sets_to_win)

pub fresh-IsOpen :
    (f : MatchFormat) (won : Tally) (p : Player) → IsPlayable f → IsOpen f won p empty_set
fresh-IsOpen f won p v = record {
  bounded_a = omega arith;
  bounded_b = omega arith;
  games_open = λ _. (ground arith, ground arith, ground arith);
  level = λ e. cc;
  played = λ e. cc;
  rotation = λ e. cc;
  points_open = λ e. cc;
}

pub new_match-Inv : (p : Player) (f : MatchFormat) → IsPlayable f → Inv (new_match p f)
unfolding new_match sets_of
new_match-Inv p f v = record {
  legal = tt;
  counted = refl;
  undecided = λ _. (ground arith, ground arith, refl, fresh-IsOpen f zero_tally p v);
  decided = λ e. cc;
}
