-- ===== src/Tennis/State.antt =====
-- tennis/tennis/player.go, format.go and state.go. A Go `[2]int` indexed by player is a `Tally`. A
-- count of games, sets or points grows by one from 0, so it is a plain natural number, and the
-- fields of a format are non-negative.
use calculated_tennis.Base.{ℕ, ◌+◌, ◌≡◌, refl, Bool, true, false, Option, none, List, []}

pub data Player : Type 0 where
  A B : Player

unfoldable pub opponent : Player → Player
opponent A = B
opponent B = A

pub record Tally : Type 0 where
  pub a : ℕ
  pub b : ℕ

-- Reads and writes at `p.index()`.
abbrev pub get : Tally → Player → ℕ
get t A = t.a
get t B = t.b

abbrev pub set : Tally → Player → ℕ → Tally
set t A n = record t { a = n }
set t B n = record t { b = n }

abbrev pub increment : Tally → Player → Tally
increment t A = record t { a = t.a + 1 }
increment t B = record t { b = t.b + 1 }

abbrev pub zero_tally : Tally
zero_tally = record { a = 0; b = 0 }

pub record MatchFormat : Type 0 where
  pub sets_to_win : ℕ
  pub games_per_set : ℕ
  pub game_margin : ℕ
  pub tiebreak_at_games_each : ℕ
  pub tiebreak_points_to_win : ℕ
  pub tiebreak_point_margin : ℕ
  pub final_set_tiebreak_points_to_win : ℕ

unfoldable pub default_format : MatchFormat
default_format = record {
  sets_to_win = 2;
  games_per_set = 6;
  game_margin = 2;
  tiebreak_at_games_each = 6;
  tiebreak_points_to_win = 7;
  tiebreak_point_margin = 2;
  final_set_tiebreak_points_to_win = 0;
}

unfoldable pub grand_slam_format : ℕ → MatchFormat
grand_slam_format sets_to_win = record {
  sets_to_win = sets_to_win;
  games_per_set = 6;
  game_margin = 2;
  tiebreak_at_games_each = 6;
  tiebreak_points_to_win = 7;
  tiebreak_point_margin = 2;
  final_set_tiebreak_points_to_win = 10;
}

unfoldable pub grand_slam_men_format : MatchFormat
unfolding grand_slam_format
grand_slam_men_format = grand_slam_format 3

unfoldable pub grand_slam_women_format : MatchFormat
unfolding grand_slam_format
grand_slam_women_format = grand_slam_format 2

pub data Phase : Type 0 where
  regular tiebreak : Phase

abbrev pub is_tiebreak : Phase → Bool
is_tiebreak regular = false
is_tiebreak tiebreak = true

pub record SetResult : Type 0 where
  pub games_a : ℕ
  pub games_b : ℕ

pub record SetState : Type 0 where
  pub games : Tally
  pub phase : Phase
  pub tiebreak_points : Tally
  pub points_played_in_tb : ℕ
  pub first_server_of_tiebreak : Player

-- The zero value `Set{}`.
abbrev pub empty_set : SetState
empty_set = record {
  games = zero_tally;
  phase = regular;
  tiebreak_points = zero_tally;
  points_played_in_tb = 0;
  first_server_of_tiebreak = A;
}

pub record Match : Type 0 where
  pub format : MatchFormat
  pub first_server : Player
  pub sets_won : Tally
  pub completed_sets : List SetResult
  pub current : SetState
  pub server : Player
  pub done : Bool
  pub winner : Option Player

unfoldable pub new_match : Player → MatchFormat → Match
new_match first_server f = record {
  format = f;
  first_server = first_server;
  sets_won = zero_tally;
  completed_sets = [];
  current = empty_set;
  server = first_server;
  done = false;
  winner = none;
}

pub opponent-opponent : (p : Player) → opponent (opponent p) ≡ p
unfolding opponent
opponent-opponent A = refl
opponent-opponent B = refl
