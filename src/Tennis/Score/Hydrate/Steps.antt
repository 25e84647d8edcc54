-- ===== src/Tennis/Score/Hydrate/Steps.antt =====
-- tennis/tennis/score.go: the states between two rounds of a replay, and what one game or point does
-- to them.
use calculated_tennis.Base.{
  ℕ, ◌+◌, ◌≤◌, ◌≡◌, refl, true, false, none, List, [], ◌∷◌, ◌++◌, ◌⊎◌, inl, leb, arith,
}
use calculated_tennis.Tennis.State.{
  Player, A, B, opponent, Tally, get, increment, zero_tally, MatchFormat, SetResult, Match, regular,
  tiebreak,
}
use calculated_tennis.Tennis.Rules.{
  complete_set, win_game, win_tiebreak_point, wins_by, points_target,
}
use calculated_tennis.Tennis.Score.Hydrate.{
  pick_needed_game_winner, pick_needed_tiebreak_winner, same_tally, tiebreak_set_games,
}

-- The formats of the program: a set of `at` games, won by two, with a tiebreak at `at` games each
-- that is won by two points.
pub record IsStandard (f : MatchFormat) : Type 0 where
  pub some_set : 1 ≤ f.sets_to_win
  pub some_game : 1 ≤ f.tiebreak_at_games_each
  pub games : f.games_per_set ≡ f.tiebreak_at_games_each
  pub by_two : f.game_margin ≡ 2
  pub by_two_points : f.tiebreak_point_margin ≡ 2

-- On the way to a target: neither side is past it, and either both are level, A one ahead at most,
-- or one side is there and the other behind it no longer.
pub record OnWay (g t : Tally) : Type 0 where
  pub below_a : g.a ≤ t.a
  pub below_b : g.b ≤ t.b
  pub path :
      ((g.b ≤ g.a) × (g.a ≤ g.b + 1)) ⊎ ((g.b ≡ t.b) × (g.b ≤ g.a)) ⊎ ((g.a ≡ t.a) × (g.a ≤ g.b))

pub start-OnWay : (t : Tally) → OnWay zero_tally t
start-OnWay t = record { below_a = omega arith; below_b = omega arith; path = inl (omega arith) }

pub next-OnWay :
    (g t : Tally)
    → OnWay g t
    → same_tally g t ≡ false
    → OnWay (increment g (pick_needed_game_winner g t)) t
unfolding pick_needed_game_winner
next-OnWay g t o e = ground arith

-- The counts of a set that is not over.
pub record IsOpenTarget (target margin : ℕ) (t : Tally) : Type 0 where
  pub open_a : wins_by target margin t A ≡ false
  pub open_b : wins_by target margin t B ≡ false

-- No count on the way to one of a set under way wins it.
pub next-wins_by :
    (target margin : ℕ) (g t : Tally)
    → 2 ≤ margin
    → OnWay g t
    → same_tally g t ≡ false
    → IsOpenTarget target margin t
    → let w = pick_needed_game_winner g t in wins_by target margin (increment g w) w ≡ false
unfolding pick_needed_game_winner
next-wins_by target margin g t m o e p = ground arith

-- The points of a tiebreak are awarded by the same rule.
pub pick_needed_tiebreak_winner-eq :
    (g t : Tally) → pick_needed_tiebreak_winner g t ≡ pick_needed_game_winner g t
unfolding pick_needed_tiebreak_winner pick_needed_game_winner
pick_needed_tiebreak_winner-eq g t = refl

module _ (f : MatchFormat) (cs : List SetResult) (won : Tally) where
  -- A match of format `f` with these sets completed, in the regular games of another.
  pub record InGames (g : Tally) (m : Match) : Type 0 where
    pub same : m.format ≡ f
    pub live : m.done ≡ false
    pub completed : m.completed_sets ≡ cs
    pub sets : m.sets_won ≡ won
    pub phase : m.current.phase ≡ regular
    pub games : m.current.games ≡ g

  -- The same in the tiebreak of another set.
  pub record InTiebreak (p : Tally) (m : Match) : Type 0 where
    pub same : m.format ≡ f
    pub live : m.done ≡ false
    pub completed : m.completed_sets ≡ cs
    pub sets : m.sets_won ≡ won
    pub phase : m.current.phase ≡ tiebreak
    pub games_a : m.current.games.a ≡ f.tiebreak_at_games_each
    pub games_b : m.current.games.b ≡ f.tiebreak_at_games_each
    pub points : m.current.tiebreak_points ≡ p

  -- The games won by `w` make another set of `g`.
  pub record HasSet (g : Tally) (w : Player) (m : Match) : Type 0 where
    pub same : m.format ≡ f
    pub completed : m.completed_sets ≡ cs ++ record { games_a = g.a; games_b = g.b } ∷ []
    pub sets : m.sets_won ≡ increment won w
    pub over : m.done ≡ leb f.sets_to_win (get (increment won w) w)
    pub phase : m.done ≡ false → m.current.phase ≡ regular
    pub games : m.done ≡ false → m.current.games ≡ zero_tally

  pub game_step :
      (g : Tally) (w : Player) (m : Match)
      → InGames g m
      → ((increment g w).a ≡ f.tiebreak_at_games_each
          → (increment g w).b ≡ f.tiebreak_at_games_each
          → ⊥)
      → wins_by f.games_per_set f.game_margin (increment g w) w ≡ false
      → ((win_game m w).1 ≡ none) × InGames (increment g w) (win_game m w).0
  unfolding win_game
  game_step g w m s n e = (
    ground arith,
    record {
      same = ground arith;
      live = ground arith;
      completed = ground arith;
      sets = ground arith;
      phase = ground arith;
      games = ground arith;
    },
  )

  pub level_step :
      (g : Tally) (w : Player) (m : Match)
      → InGames g m
      → (increment g w).a ≡ f.tiebreak_at_games_each
      → (increment g w).b ≡ f.tiebreak_at_games_each
      → ((win_game m w).1 ≡ none) × InTiebreak zero_tally (win_game m w).0
  unfolding win_game
  level_step g w m s ea eb = (
    ground arith,
    record {
      same = ground arith;
      live = ground arith;
      completed = ground arith;
      sets = ground arith;
      phase = ground arith;
      games_a = ground arith;
      games_b = ground arith;
      points = ground arith;
    },
  )

  pub set_step :
      (g : Tally) (w : Player) (m : Match)
      → InGames g m
      → ((increment g w).a ≡ f.tiebreak_at_games_each
          → (increment g w).b ≡ f.tiebreak_at_games_each
          → ⊥)
      → wins_by f.games_per_set f.game_margin (increment g w) w ≡ true
      → ((win_game m w).1 ≡ none) × HasSet (increment g w) w (win_game m w).0
  unfolding win_game complete_set
  set_step g w m s n e = (
    ground arith,
    record {
      same = ground arith;
      completed = ground arith;
      sets = ground arith;
      over = ground arith;
      phase = ground arith;
      games = ground arith;
    },
  )

  pub point_step :
      (p : Tally) (w : Player) (m : Match)
      → InTiebreak p m
      → wins_by (points_target f won) f.tiebreak_point_margin (increment p w) w ≡ false
      → ((win_tiebreak_point m w).1 ≡ none) × InTiebreak (increment p w) (win_tiebreak_point m w).0
  unfolding win_tiebreak_point
  point_step p w m s e = (
    ground arith,
    record {
      same = ground arith;
      live = ground arith;
      completed = ground arith;
      sets = ground arith;
      phase = ground arith;
      games_a = ground arith;
      games_b = ground arith;
      points = ground arith;
    },
  )

  pub tiebreak_step :
      (p : Tally) (w : Player) (m : Match)
      → InTiebreak p m
      → wins_by (points_target f won) f.tiebreak_point_margin (increment p w) w ≡ true
      → ((win_tiebreak_point m w).1 ≡ none)
        × HasSet (tiebreak_set_games f w) w (win_tiebreak_point m w).0
  unfolding win_tiebreak_point complete_set opponent
  tiebreak_step p A m s e = (
    ground arith,
    record {
      same = ground arith;
      completed = ground arith;
      sets = ground arith;
      over = ground arith;
      phase = ground arith;
      games = ground arith;
    },
  )
  tiebreak_step p B m s e = (
    ground arith,
    record {
      same = ground arith;
      completed = ground arith;
      sets = ground arith;
      over = ground arith;
      phase = ground arith;
      games = ground arith;
    },
  )
