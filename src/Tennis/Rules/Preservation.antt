-- ===== src/Tennis/Rules/Preservation.antt =====
-- tennis/tennis/rules.go: `WinGame` and `WinTiebreakPoint` keep the invariant of a match.
use calculated_tennis.Base.{
  ℕ, ◌+◌, ◌≤◌, ◌<◌, ◌≡◌, refl, true, false, List, [], ◌∷◌, ◌++◌, leb, All, All-snoc, arith, inl,
  inr, Bool-cases, ap, ◌∙◌,
}
use calculated_tennis.Tennis.State.{
  Player, A, B, opponent, Tally, get, increment, zero_tally, MatchFormat, regular, tiebreak,
  SetResult, SetState, Match,
}
use calculated_tennis.Tennis.Rules.{
  enter_tiebreak, complete_set, wins_by, win_game, points_target, server_for_tb_point,
  win_tiebreak_point,
}
use calculated_tennis.Tennis.Rules.Invariant.{
  IsPlayable, IsLegal, side_ahead, sets_of, IsOpen, Inv, fresh-IsOpen,
}
use calculated_tennis.Tennis.Rules.Cases.{
  Level, with_point, with_tiebreak_game, win_game_cases, win_tiebreak_point_cases,
}
use calculated_tennis.Tennis.Score.Validate.{impossible_game_score, classify_set}

increment_swap :
    (t : Tally) (p q : Player) → increment (increment t p) q ≡ increment (increment t q) p
increment_swap t A A = refl
increment_swap t A B = refl
increment_swap t B A = refl
increment_swap t B B = refl

sets_of-append :
    (rs : List SetResult) (r : SetResult)
    → sets_of (rs ++ r ∷ []) ≡ increment (sets_of rs) (side_ahead r)
unfolding sets_of
sets_of-append [] r = refl
sets_of-append (q ∷ rs) r =
    ap (λ t. increment t (side_ahead q)) (sets_of-append rs r)
    ∙ increment_swap (sets_of rs) (side_ahead r) (side_ahead q)

-- The result of a set in which `w` won the last regular game.
game_end_IsLegal :
    (f : MatchFormat) (a b : ℕ)
    → IsPlayable f
    → b < a
    → a ≤ f.tiebreak_at_games_each + 1
    → f.games_per_set ≤ a
    → b + f.game_margin ≤ a
    → (a ≡ f.tiebreak_at_games_each + 1 → b + 1 ≡ f.tiebreak_at_games_each)
    → IsLegal f (record { games_a = a; games_b = b })
      × IsLegal f (record { games_a = b; games_b = a })
unfolding impossible_game_score classify_set
game_end_IsLegal f a b v h1 h2 h3 h4 h5 = (
  record { possible = ground arith; classified = λ won. ground arith },
  record { possible = ground arith; classified = λ won. ground arith },
)

tiebreak_end_IsLegal :
    (f : MatchFormat)
    → let at = f.tiebreak_at_games_each in
      IsLegal f (record { games_a = at + 1; games_b = at })
      × IsLegal f (record { games_a = at; games_b = at + 1 })
unfolding impossible_game_score classify_set
tiebreak_end_IsLegal f = (
  record { possible = ground arith; classified = λ won. ground arith },
  record { possible = ground arith; classified = λ won. ground arith },
)

module _ (m : Match) (v : IsPlayable m.format) (i : Inv m) (live : m.done ≡ false) where
  complete_set-Inv :
      (c : SetState) (s w : Player)
      → IsLegal m.format (record { games_a = c.games.a; games_b = c.games.b })
      → side_ahead (record { games_a = c.games.a; games_b = c.games.b }) ≡ w
      → Inv (complete_set (record m { current = c; server = s }) w)
  unfolding complete_set opponent
  complete_set-Inv c s w l ahead =
      elim (Bool-cases (leb m.format.sets_to_win (get (increment m.sets_won w) w))) [
        | inl won ↦ rw won (record {
          legal = legal;
          counted = counted;
          undecided = λ e. cc;
          decided = λ _. (w, refl, target w won, others w);
        })
        | inr more ↦ rw more (record {
          legal = legal;
          counted = counted;
          undecided = λ _. (
            (below w more).0,
            (below w more).1,
            (i.undecided live).2,
            fresh-IsOpen m.format _ _ v,
          );
          decided = λ e. cc;
        })
      ]
    where
      legal :
          All
            (IsLegal m.format)
            (m.completed_sets ++ record { games_a = c.games.a; games_b = c.games.b } ∷ [])
      legal = All-snoc (IsLegal m.format) m.completed_sets _ i.legal l

      counted :
          sets_of (m.completed_sets ++ record { games_a = c.games.a; games_b = c.games.b } ∷ [])
          ≡ increment m.sets_won w
      counted = sets_of-append m.completed_sets _ ∙ rw (ahead, i.counted)

      target :
          (p : Player)
          → leb m.format.sets_to_win (get (increment m.sets_won p) p) ≡ true
          → get (increment m.sets_won p) p ≡ m.format.sets_to_win
      target A e = ground (arith, i.undecided live)
      target B e = ground (arith, i.undecided live)

      others : (p : Player) → get (increment m.sets_won p) (opponent p) < m.format.sets_to_win
      others A = ground (arith, i.undecided live)
      others B = ground (arith, i.undecided live)

      below :
          (p : Player)
          → leb m.format.sets_to_win (get (increment m.sets_won p) p) ≡ false
          → ((increment m.sets_won p).a < m.format.sets_to_win)
            × ((increment m.sets_won p).b < m.format.sets_to_win)
      below A e = ground (arith, i.undecided live)
      below B e = ground (arith, i.undecided live)

-- The fields of an open set that a regular game can end.
win_game-IsLegal :
    (m : Match) (w : Player)
    → IsPlayable m.format
    → Inv m
    → m.done ≡ false
    → m.current.phase ≡ regular
    → let games = increment m.current.games w in
      ¬ Level m w
      → wins_by m.format.games_per_set m.format.game_margin games w ≡ true
      → IsLegal m.format (record { games_a = games.a; games_b = games.b })
        × (side_ahead (record { games_a = games.a; games_b = games.b }) ≡ w)
win_game-IsLegal m A v i live p n e = (
  ground (
    arith,
    i.undecided live,
    game_end_IsLegal m.format (m.current.games.a + 1) m.current.games.b v,
  ),
  ground arith,
)
win_game-IsLegal m B v i live p n e = (
  ground (
    arith,
    i.undecided live,
    game_end_IsLegal m.format (m.current.games.b + 1) m.current.games.a v,
  ),
  ground arith,
)

increment_bound :
    (f : MatchFormat) (t : Tally) (w : Player)
    → t.a ≤ f.tiebreak_at_games_each
    → t.b ≤ f.tiebreak_at_games_each
    → t.a + t.b < f.tiebreak_at_games_each + f.tiebreak_at_games_each
    → IsPlayable f
    → wins_by f.games_per_set f.game_margin (increment t w) w ≡ false
    → ((increment t w).a ≤ f.tiebreak_at_games_each)
      × ((increment t w).b ≤ f.tiebreak_at_games_each)
increment_bound f t A ha hb hs v e = (ground arith, ground arith)
increment_bound f t B ha hb hs v e = (ground arith, ground arith)

module _ (m : Match) (v : IsPlayable m.format) (i : Inv m) (live : m.done ≡ false)
    (reg : m.current.phase ≡ regular) where
  IsOpen-game :
      (w s : Player)
      → let games = increment m.current.games w in
        ¬ Level m w
        → wins_by m.format.games_per_set m.format.game_margin games w ≡ false
        → IsOpen m.format m.sets_won s (record (m.current) { games = games })
  IsOpen-game A s n e = record {
    bounded_a = ground (arith, i.undecided live);
    bounded_b = ground (arith, i.undecided live);
    games_open = λ _. (e, ground (arith, i.undecided live), ground (arith, i.undecided live));
    level = λ q. cc;
    played = λ q. cc;
    rotation = λ q. cc;
    points_open = λ q. cc;
  }
  IsOpen-game B s n e = record {
    bounded_a = ground (arith, i.undecided live);
    bounded_b = ground (arith, i.undecided live);
    games_open = λ _. (ground (arith, i.undecided live), e, ground (arith, i.undecided live));
    level = λ q. cc;
    played = λ q. cc;
    rotation = λ q. cc;
    points_open = λ q. cc;
  }

  IsOpen-tiebreak :
      (w s : Player)
      → let games = increment m.current.games w in
        Level m w
        → IsOpen m.format m.sets_won s (record {
          games = games;
          phase = tiebreak;
          tiebreak_points = zero_tally;
          points_played_in_tb = 0;
          first_server_of_tiebreak = s;
        })
  unfolding server_for_tb_point
  IsOpen-tiebreak w s lv = record {
    bounded_a = omega arith;
    bounded_b = omega arith;
    games_open = λ q. cc;
    level = λ _. lv;
    played = λ _. omega arith;
    rotation = λ _. refl;
    points_open = λ _. (ground arith, ground arith);
  }

module _ (m : Match) (v : IsPlayable m.format) (i : Inv m) (live : m.done ≡ false) where
  -- A live match with another set under way.
  resume-Inv :
      (c : SetState) (s : Player)
      → IsOpen m.format m.sets_won s c
      → Inv (record m { current = c; server = s })
  resume-Inv c s o = record {
    legal = i.legal;
    counted = i.counted;
    undecided = λ _. ((i.undecided live).0, (i.undecided live).1, (i.undecided live).2, o);
    decided = λ e. cc;
  }

  IsOpen-points :
      (w : Player)
      → m.current.phase ≡ tiebreak
      → wins_by
          (points_target m.format m.sets_won)
          m.format.tiebreak_point_margin
          (increment m.current.tiebreak_points w)
          w
        ≡ false
      → IsOpen m.format m.sets_won
          (server_for_tb_point
            (m.current.points_played_in_tb + 1)
            m.current.first_server_of_tiebreak)
          (with_point m w).current
  IsOpen-points A p e = record {
    bounded_a = ground (arith, i.undecided live);
    bounded_b = ground (arith, i.undecided live);
    games_open = λ q. cc;
    level = λ _. (i.undecided live).3.level p;
    played = λ _. ground (arith, (i.undecided live).3.played p);
    rotation = λ _. refl;
    points_open = λ _. (e, ground (arith, (i.undecided live).3.points_open p, v.ahead_in_points));
  }
  IsOpen-points B p e = record {
    bounded_a = ground (arith, i.undecided live);
    bounded_b = ground (arith, i.undecided live);
    games_open = λ q. cc;
    level = λ _. (i.undecided live).3.level p;
    played = λ _. ground (arith, (i.undecided live).3.played p);
    rotation = λ _. refl;
    points_open = λ _. (ground (arith, (i.undecided live).3.points_open p, v.ahead_in_points), e);
  }

  tiebreak-Inv : (w : Player) → Inv (complete_set (with_tiebreak_game m w) w)
  unfolding opponent
  tiebreak-Inv A =
      complete_set-Inv m v i live _ _ A (tiebreak_end_IsLegal m.format).0 (ground arith)
  tiebreak-Inv B =
      complete_set-Inv m v i live _ _ B (tiebreak_end_IsLegal m.format).1 (ground arith)

-- WinGame keeps the match invariant in a format that can be played, also when it refuses.
pub win_game-Inv : (m : Match) (w : Player) → IsPlayable m.format → Inv m → Inv (win_game m w).0
unfolding enter_tiebreak
win_game-Inv m w v i =
    win_game_cases (λ r. Inv r.0) m w (λ _. i) (λ _ _. i)
      (λ live reg lv. resume-Inv m v i live _ _ (IsOpen-tiebreak m v i live reg w _ lv))
      (λ live reg n won.
        let end = win_game-IsLegal m w v i live reg n won in
        complete_set-Inv m v i live _ _ w end.0 end.1)
      (λ live reg n more. resume-Inv m v i live _ _ (IsOpen-game m v i live reg w _ n more))

-- WinTiebreakPoint keeps the match invariant in a format that can be played, also when it refuses.
pub win_tiebreak_point-Inv :
    (m : Match) (w : Player) → IsPlayable m.format → Inv m → Inv (win_tiebreak_point m w).0
win_tiebreak_point-Inv m w v i =
    win_tiebreak_point_cases (λ r. Inv r.0) m w (λ _. i) (λ _ _. i)
      (λ live p won. tiebreak-Inv m v i live w)
      (λ live p more. resume-Inv m v i live _ _ (IsOpen-points m v i live w p more))
