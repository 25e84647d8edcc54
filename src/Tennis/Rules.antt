-- ===== src/Tennis/Rules.antt =====
-- tennis/tennis/rules.go. A method on `*Match` returns the new match and its error. A difference
-- `x - y >= d` of Go's signed integers is written `y + d ≤ x`, and `x == y - 1` as `x + 1 == y`.
pub mod Cases
pub mod Invariant
pub mod Outcome
pub mod Preservation
pub mod Rotation
use calculated_tennis.Base.{
  ℕ, ◌+◌, ◌-◌, ◌/◌, ◌%◌, Bool, true, not, ◌&&◌, Option, none, some, [], ◌∷◌, ◌++◌, ltb, leb, ◌==◌,
  if◌then◌else◌,
}
use calculated_tennis.Tennis.State.{
  Player, A, B, opponent, Tally, get, set, increment, zero_tally, MatchFormat, tiebreak,
  is_tiebreak, SetResult, empty_set, Match,
}

pub data MatchError : Type 0 where
  match_complete wrong_phase : MatchError

unfoldable pub enter_tiebreak : Match → Match
enter_tiebreak m = record m {
  current = record current {
    phase = tiebreak;
    tiebreak_points = zero_tally;
    points_played_in_tb = 0;
    first_server_of_tiebreak = server;
  };
}
  where
    open m use {current, server}

unfoldable pub reset_current_set : Match → Match
reset_current_set m = record m { current = empty_set }

unfoldable pub complete_set : Match → Player → Match
unfolding reset_current_set opponent
complete_set m winner =
    let result : SetResult = record { games_a = m.current.games.a; games_b = m.current.games.b } in
    let won = increment m.sets_won winner in
    let m1 = record m { completed_sets = m.completed_sets ++ result ∷ []; sets_won = won } in
    if leb m.format.sets_to_win (get won winner)
    then record m1 { winner = some winner; done = true }
    else let m2 = reset_current_set m1 in record m2 { server = opponent m2.server }

-- The set is won: enough games (or points), by the margin.
abbrev pub wins_by : ℕ → ℕ → Tally → Player → Bool
wins_by target margin t A = leb target t.a && leb (t.b + margin) t.a
wins_by target margin t B = leb target t.b && leb (t.a + margin) t.b

unfoldable pub win_game : Match → Player → Match × Option MatchError
unfolding enter_tiebreak
win_game m winner =
    let games = increment m.current.games winner in
    let m1 = record m { current = record (m.current) { games = games } } in
    let f = m.format in
    if m.done
    then (m, some match_complete)
    else if is_tiebreak m.current.phase
    then (m, some wrong_phase)
    else if games.a == f.tiebreak_at_games_each && games.b == f.tiebreak_at_games_each
    then (enter_tiebreak (record m1 { server = opponent m.server }), none)
    else if wins_by f.games_per_set f.game_margin games winner
    then (complete_set m1 winner, none)
    else (record m1 { server = opponent m.server }, none)

abbrev pub is_deciding : MatchFormat → Tally → Bool
is_deciding f won = won.a + 1 == f.sets_to_win && won.b + 1 == f.sets_to_win

unfoldable pub is_deciding_set : Match → Bool
is_deciding_set m = is_deciding m.format m.sets_won

-- The target of a tiebreak that is played at `won` sets each.
abbrev pub points_target : MatchFormat → Tally → ℕ
points_target f won =
    if ltb 0 f.final_set_tiebreak_points_to_win && is_deciding f won
    then f.final_set_tiebreak_points_to_win
    else f.tiebreak_points_to_win

unfoldable pub tiebreak_points_to_win : Match → ℕ
unfolding is_deciding_set
tiebreak_points_to_win m =
    if ltb 0 m.format.final_set_tiebreak_points_to_win && is_deciding_set m
    then m.format.final_set_tiebreak_points_to_win
    else m.format.tiebreak_points_to_win

-- `n` points are already played.
unfoldable pub server_for_tb_point : ℕ → Player → Player
unfolding opponent
server_for_tb_point n first =
    if n == 0 then first else if (n - 1) / 2 % 2 == 0 then opponent first else first

unfoldable pub win_tiebreak_point : Match → Player → Match × Option MatchError
unfolding tiebreak_points_to_win
win_tiebreak_point m winner =
    let c = m.current in
    let points = increment c.tiebreak_points winner in
    let played = c.points_played_in_tb + 1 in
    let c1 = record c { tiebreak_points = points; points_played_in_tb = played } in
    let f = m.format in
    let at = f.tiebreak_at_games_each in
    let games = set (set c.games winner (at + 1)) (opponent winner) at in
    if m.done
    then (m, some match_complete)
    else if not (is_tiebreak c.phase)
    then (m, some wrong_phase)
    else if wins_by (tiebreak_points_to_win m) f.tiebreak_point_margin points winner
    then (
      complete_set
          (record m { current = record c1 { games = games }; server = c.first_server_of_tiebreak })
          winner,
      none,
    )
    else (
      record m { current = c1; server = server_for_tb_point played c.first_server_of_tiebreak },
      none,
    )
