-- ===== src/Tennis/Score/Hydrate/Regular.antt =====
-- tennis/tennis/score.go: the replays of regular games end, at the target, with enough fuel.
use calculated_tennis.Base.{
  ℕ, zero, suc, ◌+◌, ◌≤◌, ◌<◌, ◌≡◌, true, false, none, some, List, inl, inr, ok, arith, ◌∙◌,
  Bool-cases, subst,
}
use calculated_tennis.Tennis.State.{
  Player, A, B, Tally, increment, zero_tally, MatchFormat, SetResult, Match,
}
use calculated_tennis.Tennis.Rules.{win_game}
use calculated_tennis.Tennis.Score.Hydrate.{
  pick_needed_game_winner, same_tally, exceeds, replay_regular_games_to,
}
use calculated_tennis.Tennis.Score.Hydrate.Steps.{
  IsStandard, OnWay, next-OnWay, IsOpenTarget, next-wins_by, InGames, InTiebreak, game_step,
  level_step,
}

pub same_tally-eq : (s t : Tally) → same_tally s t ≡ true → s ≡ t
same_tally-eq s t h = ground arith

pub not-exceeds : (g t : Tally) → OnWay g t → exceeds g t ≡ false
not-exceeds g t o = ground arith

-- The sum of a tally counts its increments.
pub fuel_left :
    (t : Tally) (fuel : ℕ) (g : Tally) (w : Player)
    → t.a + t.b < suc fuel + (g.a + g.b)
    → t.a + t.b < fuel + ((increment g w).a + (increment g w).b)
fuel_left t fuel g A h = omega arith
fuel_left t fuel g B h = omega arith

pub no_fuel : (t g : Tally) → OnWay g t → t.a + t.b < 0 + (g.a + g.b) → ⊥
no_fuel t g o h = omega (arith, o.below_a, o.below_b)

module _ (f : MatchFormat) (cs : List SetResult) (won : Tally) (t : Tally) where
  regular_stop :
      (fuel : ℕ) (m : Match)
      → InGames f cs won t m
      → replay_regular_games_to (suc fuel) m t ≡ some (ok m)
  unfolding replay_regular_games_to
  regular_stop fuel m s = ground arith

  -- In the tiebreak the replay stops where the games are the target's.
  tiebreak_stop :
      (fuel : ℕ) (m : Match)
      → InTiebreak f cs won zero_tally m
      → t.a ≡ f.tiebreak_at_games_each
      → t.b ≡ f.tiebreak_at_games_each
      → 0 < fuel
      → replay_regular_games_to fuel m t ≡ some (ok m)
  unfolding replay_regular_games_to
  tiebreak_stop zero m s ea eb h = absurd (omega arith)
  tiebreak_stop (suc fuel) m s ea eb h = ground arith

  regular_round :
      (fuel : ℕ) (g : Tally) (m : Match)
      → InGames f cs won g m
      → same_tally g t ≡ false
      → exceeds g t ≡ false
      → (win_game m (pick_needed_game_winner g t)).1 ≡ none
      → replay_regular_games_to (suc fuel) m t
        ≡ replay_regular_games_to fuel (win_game m (pick_needed_game_winner g t)).0 t
  unfolding replay_regular_games_to
  regular_round fuel g m s e x w = ground arith

  module _ (v : IsStandard f) (o : IsOpenTarget f.games_per_set f.game_margin t)
      (within_a : t.a ≤ f.tiebreak_at_games_each) (within_b : t.b ≤ f.tiebreak_at_games_each) where
    -- A game on the way reaches the level at which a tiebreak begins at the target only.
    level-target :
        (g : Tally)
        → OnWay g t
        → g.a ≡ f.tiebreak_at_games_each
        → g.b ≡ f.tiebreak_at_games_each
        → (t.a ≡ f.tiebreak_at_games_each) × (t.b ≡ f.tiebreak_at_games_each)
    level-target g w ea eb = omega (arith, w.below_a, w.below_b)

    pub replay-InGames :
        (fuel : ℕ) (g : Tally) (m : Match)
        → t.a + t.b < fuel + (g.a + g.b)
        → (t.a ≡ f.tiebreak_at_games_each → t.b ≡ f.tiebreak_at_games_each → ⊥)
        → OnWay g t
        → InGames f cs won g m
        → (m' : Match) × (replay_regular_games_to fuel m t ≡ some (ok m')) × InGames f cs won t m'
    replay-InGames zero g m h n w s = absurd (no_fuel t g w h)
    replay-InGames (suc fuel) g m h n w s = elim (Bool-cases (same_tally g t)) [
      | inl there ↦
          let s' = subst (λ q. InGames f cs won q m) (same_tally-eq g t there) s in
          (m, regular_stop fuel m s', s')
      | inr away ↦
          let p = pick_needed_game_winner g t in
          let w' = next-OnWay g t w away in
          let (fine, s') =
            game_step f cs won g p m s
              (λ ea eb. let (ta, tb) = level-target (increment g p) w' ea eb in n ta tb)
              (next-wins_by f.games_per_set f.game_margin g t (omega (arith, v.by_two)) w away o) in
          let (m', e, r) =
            replay-InGames fuel (increment g p) (win_game m p).0 (fuel_left t fuel g p h) n w' s' in
          (m', regular_round fuel g m s away (not-exceeds g t w) fine ∙ e, r)
    ]

    -- At the level target the replay stops in a new tiebreak.
    pub replay-InTiebreak :
        (fuel : ℕ) (g : Tally) (m : Match)
        → t.a + t.b < fuel + (g.a + g.b)
        → t.a ≡ f.tiebreak_at_games_each
        → t.b ≡ f.tiebreak_at_games_each
        → same_tally g t ≡ false
        → OnWay g t
        → InGames f cs won g m
        → (m' : Match) × (replay_regular_games_to fuel m t ≡ some (ok m'))
          × InTiebreak f cs won zero_tally m'
    replay-InTiebreak zero g m h ea eb away w s = absurd (no_fuel t g w h)
    replay-InTiebreak (suc fuel) g m h ea eb away w s =
        let p = pick_needed_game_winner g t in
        let w' = next-OnWay g t w away in
        elim (Bool-cases (same_tally (increment g p) t)) [
          | inl there ↦
              let (fine, s') = level_step f cs won g p m s (ground arith) (ground arith) in
              let h' = fuel_left t fuel g p h in
              (
                (win_game m p).0,
                regular_round fuel g m s away (not-exceeds g t w) fine
                    ∙ tiebreak_stop fuel (win_game m p).0 s' ea eb (ground arith),
                s',
              )
          | inr still ↦
              let (fine, s') =
                game_step f cs won g p m s (λ da db. ground arith)
                  (next-wins_by f.games_per_set f.game_margin g t (omega (arith, v.by_two)) w away
                    o) in
              let (m', e, r) =
                replay-InTiebreak fuel (increment g p) (win_game m p).0 (fuel_left t fuel g p h) ea
                  eb still w' s' in
              (m', regular_round fuel g m s away (not-exceeds g t w) fine ∙ e, r)
        ]
