-- ===== src/Tennis/Rules/Cases.antt =====
-- The branches of `WinGame` and `WinTiebreakPoint` in tennis/tennis/rules.go, as rules for a proof.
use calculated_tennis.Base.{◌+◌, ◌≡◌, refl, true, false, Option, none, some, arith}
use calculated_tennis.Tennis.State.{Player, opponent, set, increment, regular, tiebreak, Match}
use calculated_tennis.Tennis.Rules.{
  MatchError, match_complete, wrong_phase, enter_tiebreak, complete_set, wins_by, win_game,
  points_target, tiebreak_points_to_win, server_for_tb_point, win_tiebreak_point,
}

-- The match with the game's winner counted.
abbrev pub with_game : Match → Player → Match
with_game m w = record m { current = record (m.current) { games = increment m.current.games w } }

-- After the game both sides stand at the count at which a tiebreak is played.
abbrev pub Level : Match → Player → Type 0
Level m w =
    let games = increment m.current.games w in
    (games.a ≡ m.format.tiebreak_at_games_each) × (games.b ≡ m.format.tiebreak_at_games_each)

-- The match with the point's winner counted.
abbrev pub with_point : Match → Player → Match
with_point m w = record m {
  current = record (m.current) {
    tiebreak_points = increment m.current.tiebreak_points w;
    points_played_in_tb = m.current.points_played_in_tb + 1;
  };
}

-- The match with a tiebreak's winner given the set's last game.
abbrev pub with_tiebreak_game : Match → Player → Match
with_tiebreak_game m w =
    let at = m.format.tiebreak_at_games_each in
    let q = with_point m w in
    record q {
      current = record (q.current) { games = set (set m.current.games w (at + 1)) (opponent w) at };
      server = m.current.first_server_of_tiebreak;
    }

tiebreak_points_to_win-eq-target :
    (m : Match) → tiebreak_points_to_win m ≡ points_target m.format m.sets_won
unfolding tiebreak_points_to_win
tiebreak_points_to_win-eq-target m = refl

module _ (P : Match × Option MatchError → Type 0) (m : Match) (w : Player) where
  pub win_game_cases :
      (m.done ≡ true → P (m, some match_complete))
      → (m.done ≡ false → m.current.phase ≡ tiebreak → P (m, some wrong_phase))
      → (m.done ≡ false
          → m.current.phase ≡ regular
          → Level m w
          → P (enter_tiebreak (record (with_game m w) { server = opponent m.server }), none))
      → (m.done ≡ false
          → m.current.phase ≡ regular
          → ¬ Level m w
          → wins_by m.format.games_per_set m.format.game_margin (increment m.current.games w) w
            ≡ true
          → P (complete_set (with_game m w) w, none))
      → (m.done ≡ false
          → m.current.phase ≡ regular
          → ¬ Level m w
          → wins_by m.format.games_per_set m.format.game_margin (increment m.current.games w) w
            ≡ false
          → P (record (with_game m w) { server = opponent m.server }, none))
      → P (win_game m w)
  unfolding win_game
  win_game_cases over wrong enters completes goes_on = ground arith

  pub win_tiebreak_point_cases :
      (m.done ≡ true → P (m, some match_complete))
      → (m.done ≡ false → m.current.phase ≡ regular → P (m, some wrong_phase))
      → (m.done ≡ false
          → m.current.phase ≡ tiebreak
          → wins_by
              (points_target m.format m.sets_won)
              m.format.tiebreak_point_margin
              (increment m.current.tiebreak_points w)
              w
            ≡ true
          → P (complete_set (with_tiebreak_game m w) w, none))
      → (m.done ≡ false
          → m.current.phase ≡ tiebreak
          → wins_by
              (points_target m.format m.sets_won)
              m.format.tiebreak_point_margin
              (increment m.current.tiebreak_points w)
              w
            ≡ false
          → P (
            record (with_point m w) {
              server =
                  server_for_tb_point
                    (m.current.points_played_in_tb + 1)
                    m.current.first_server_of_tiebreak;
            },
            none,
          ))
      → P (win_tiebreak_point m w)
  unfolding win_tiebreak_point
  win_tiebreak_point_cases over wrong completes goes_on = ground arith
