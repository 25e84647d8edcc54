-- ===== src/Tennis/Score/Hydrate/TiebreakLoop.antt =====
-- tennis/tennis/score.go: the replays of tiebreak points end, at the target, with enough fuel.
use native.Mathlib.Decide.{dec_le}
use calculated_tennis.Base.{
  ℕ, zero, suc, ◌+◌, ◌*◌, ◌≤◌, ◌<◌, ◌≡◌, refl, true, false, none, some, List, inl, inr, ok, arith,
  ap, ◌∙◌, Bool-cases, subst, length,
}
use calculated_tennis.Tennis.State.{
  Player, A, B, opponent, Tally, increment, zero_tally, MatchFormat, SetResult, Match,
}
use calculated_tennis.Tennis.Rules.{win_tiebreak_point, wins_by, points_target}
use calculated_tennis.Tennis.Score.Hydrate.{
  pick_needed_game_winner, same_tally, exceeds, replay_tiebreak_points_to, tiebreak_set_games,
  pick_tiebreak_progress_winner, tiebreak_set_loop, replay_tiebreak_until_set_complete,
}
use calculated_tennis.Tennis.Score.Hydrate.Steps.{
  IsStandard, OnWay, next-OnWay, IsOpenTarget, next-wins_by, InTiebreak, HasSet, point_step,
  tiebreak_step, pick_needed_tiebreak_winner-eq,
}
use calculated_tennis.Tennis.Score.Hydrate.Regular.{same_tally-eq, not-exceeds, fuel_left, no_fuel}
use calculated_tennis.Tennis.Score.Hydrate.SetLoop.{check_last_set-HasSet, length-HasSet}

module _ (f : MatchFormat) (cs : List SetResult) (won : Tally) (v : IsStandard f) where
  module _ (t : Tally) (o : IsOpenTarget (points_target f won) f.tiebreak_point_margin t) where
    points_stop :
        (fuel : ℕ) (m : Match)
        → InTiebreak f cs won t m
        → replay_tiebreak_points_to (suc fuel) m t ≡ some (ok m)
    unfolding replay_tiebreak_points_to
    points_stop fuel m s = ground arith

    points_round :
        (fuel : ℕ) (p : Tally) (m : Match)
        → InTiebreak f cs won p m
        → same_tally p t ≡ false
        → exceeds p t ≡ false
        → let q = win_tiebreak_point m (pick_needed_game_winner p t) in
          q.1 ≡ none
          → q.0.completed_sets ≡ cs
          → replay_tiebreak_points_to (suc fuel) m t ≡ replay_tiebreak_points_to fuel q.0 t
    unfolding replay_tiebreak_points_to
    points_round fuel p m s e x w c = ground (
      arith,
      pick_needed_tiebreak_winner-eq m.current.tiebreak_points t,
      ap (λ (xs : List SetResult). length xs) c,
      ap (λ (xs : List SetResult). length xs) s.completed,
    )

    pub replay-points :
        (fuel : ℕ) (p : Tally) (m : Match)
        → t.a + t.b < fuel + (p.a + p.b)
        → OnWay p t
        → InTiebreak f cs won p m
        → (m' : Match) × (replay_tiebreak_points_to fuel m t ≡ some (ok m'))
          × InTiebreak f cs won t m'
    replay-points zero p m h w s = absurd (no_fuel t p w h)
    replay-points (suc fuel) p m h w s = elim (Bool-cases (same_tally p t)) [
      | inl there ↦
          let s' = subst (λ q. InTiebreak f cs won q m) (same_tally-eq p t there) s in
          (m, points_stop fuel m s', s')
      | inr away ↦
          let x = pick_needed_game_winner p t in
          let (fine, s') = point_step f cs won p x m s (
            next-wins_by (points_target f won) f.tiebreak_point_margin p t
              (omega (arith, v.by_two_points)) w away o) in
          let (m', e, r) =
            replay-points fuel (increment p x) (win_tiebreak_point m x).0 (fuel_left t fuel p x h)
              (next-OnWay p t w away) s' in
          (m', points_round fuel p m s away (not-exceeds p t w) fine s'.completed ∙ e, r)
    ]

  abbrev level : ℕ → Tally
  level k = record { a = k; b = k }

  -- `w` leads by a point.
  abbrev lead : ℕ → Player → Tally
  lead k w = increment (level k) w

  pick_level :
      (k : ℕ) (w : Player) (m : Match)
      → InTiebreak f cs won (level k) m
      → pick_tiebreak_progress_winner m (tiebreak_set_games f w) ≡ w
  unfolding pick_tiebreak_progress_winner
  pick_level k A m s = ground (arith, v.by_two_points)
  pick_level k B m s = ground (arith, v.by_two_points)

  pick_last :
      (k : ℕ) (w : Player) (m : Match)
      → InTiebreak f cs won (lead k w) m
      → points_target f won ≤ k + 2
      → pick_tiebreak_progress_winner m (tiebreak_set_games f w) ≡ w
  unfolding pick_tiebreak_progress_winner
  pick_last k A m s h = ground (arith, v.by_two_points)
  pick_last k B m s h = ground (arith, v.by_two_points)

  pick_even :
      (k : ℕ) (w : Player) (m : Match)
      → InTiebreak f cs won (lead k w) m
      → k + 2 < points_target f won
      → pick_tiebreak_progress_winner m (tiebreak_set_games f w) ≡ opponent w
  unfolding pick_tiebreak_progress_winner opponent
  pick_even k A m s h = ground (arith, v.by_two_points)
  pick_even k B m s h = ground (arith, v.by_two_points)

  even_again : (k : ℕ) (w : Player) → increment (lead k w) (opponent w) ≡ level (k + 1)
  unfolding opponent
  even_again k A = refl
  even_again k B = refl

  level_open :
      (k : ℕ) (w : Player)
      → wins_by (points_target f won) f.tiebreak_point_margin (lead k w) w ≡ false
  level_open k A = ground (arith, v.by_two_points)
  level_open k B = ground (arith, v.by_two_points)

  lead_open :
      (k : ℕ) (w : Player)
      → wins_by
          (points_target f won)
          f.tiebreak_point_margin
          (increment (lead k w) (opponent w))
          (opponent w)
        ≡ false
  unfolding opponent
  lead_open k A = ground (arith, v.by_two_points)
  lead_open k B = ground (arith, v.by_two_points)

  lead_wins :
      (k : ℕ) (w : Player)
      → points_target f won ≤ k + 2
      → wins_by (points_target f won) f.tiebreak_point_margin (increment (lead k w) w) w ≡ true
  lead_wins k A h = ground (arith, v.by_two_points)
  lead_wins k B h = ground (arith, v.by_two_points)

  loop_round :
      (fuel : ℕ) (p : Tally) (w x : Player) (m : Match)
      → InTiebreak f cs won p m
      → pick_tiebreak_progress_winner m (tiebreak_set_games f w) ≡ x
      → (win_tiebreak_point m x).1 ≡ none
      → tiebreak_set_loop (suc fuel) (length cs) m (tiebreak_set_games f w)
        ≡ tiebreak_set_loop fuel (length cs) (win_tiebreak_point m x).0 (tiebreak_set_games f w)
  unfolding tiebreak_set_loop
  loop_round fuel p w x m s e n =
      ground (arith, ap (λ (xs : List SetResult). length xs) s.completed)

  loop_stop :
      (fuel : ℕ) (w : Player) (m : Match)
      → HasSet f cs won (tiebreak_set_games f w) w m
      → 0 < fuel
      → tiebreak_set_loop fuel (length cs) m (tiebreak_set_games f w) ≡ some (ok m)
  unfolding tiebreak_set_loop
  loop_stop zero w m s h = absurd (omega arith)
  loop_stop (suc fuel) w m s h = ground (
    arith,
    length-HasSet f cs won (tiebreak_set_games f w) w m s,
    check_last_set-HasSet f cs won (tiebreak_set_games f w) w m s,
  )

  -- `k` points each are played; two rounds lead to `k + 1` each, or to the set.
  loop-HasSet :
      (fuel k : ℕ) (w : Player) (m : Match)
      → 2 * points_target f won + 4 ≤ fuel + 2 * k
      → k ≤ points_target f won
      → InTiebreak f cs won (level k) m
      → (m' : Match) × (tiebreak_set_loop fuel (length cs) m (tiebreak_set_games f w)
          ≡ some (ok m'))
        × HasSet f cs won (tiebreak_set_games f w) w m'
  loop-HasSet zero k w m h b s = absurd (omega arith)
  loop-HasSet (suc zero) k w m h b s = absurd (omega arith)
  loop-HasSet (suc (suc fuel)) k w m h b s =
      let (fine, s1) = point_step f cs won (level k) w m s (level_open k w) in
      let m1 = (win_tiebreak_point m w).0 in
      let first = loop_round (suc fuel) (level k) w w m s (pick_level k w m s) fine in
      elim (dec_le (points_target f won) (k + 2)) [
        | yes near ↦
            let (fine', s2) = tiebreak_step f cs won (lead k w) w m1 s1 (lead_wins k w near) in
            (
              (win_tiebreak_point m1 w).0,
              first
                  ∙ loop_round fuel (lead k w) w w m1 s1 (pick_last k w m1 s1 near) fine'
                  ∙ loop_stop fuel w _ s2 (omega arith),
              s2,
            )
        | no far ↦
            let (fine', s2) = point_step f cs won (lead k w) (opponent w) m1 s1 (lead_open k w) in
            let s2' : InTiebreak f cs won (level (k + 1)) (win_tiebreak_point m1 (opponent w)).0 =
              subst (λ q. InTiebreak f cs won q (win_tiebreak_point m1 (opponent w)).0)
                (even_again k w) s2 in
            let (m', e, r) =
              loop-HasSet fuel (k + 1) w (win_tiebreak_point m1 (opponent w)).0 (omega arith)
                (omega arith) s2' in
            (
              m',
              first
                  ∙ loop_round fuel (lead k w) w (opponent w) m1 s1
                      (pick_even k w m1 s1 (omega arith)) fine'
                  ∙ e,
              r,
            )
      ]

  -- From a new tiebreak the replay ends with the set of its winner completed.
  pub replay_tiebreak-HasSet :
      (fuel : ℕ) (w : Player) (m : Match)
      → 2 * points_target f won + 4 ≤ fuel
      → InTiebreak f cs won zero_tally m
      → (m' : Match) × (replay_tiebreak_until_set_complete fuel m (tiebreak_set_games f w)
          ≡ some (ok m'))
        × HasSet f cs won (tiebreak_set_games f w) w m'
  unfolding replay_tiebreak_until_set_complete
  replay_tiebreak-HasSet fuel w m h s =
      let (m', e, r) = loop-HasSet fuel 0 w m (omega arith) (omega arith) s in
      (
        m',
        ap (λ xs. tiebreak_set_loop fuel (length xs) m (tiebreak_set_games f w)) s.completed ∙ e,
        r,
      )
