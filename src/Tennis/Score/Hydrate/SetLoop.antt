-- ===== src/Tennis/Score/Hydrate/SetLoop.antt =====
-- tennis/tennis/score.go: `replayRegularGamesUntilSetComplete` ends with the wanted set completed.
use mathlib.Core.List.{get_last?}
use mathlib.Core.Path.{ap₂, subst₂}
use calculated_tennis.Base.{
  ℕ, zero, suc, ◌+◌, ◌<◌, ◌≡◌, refl, true, false, none, some, List, [], ◌∷◌, ◌++◌, ◌⊎◌, inl, inr,
  ok, arith, ap, ◌∙◌, Bool-cases, length, length-append,
}
use calculated_tennis.Tennis.State.{
  Player, A, B, opponent, Tally, get, increment, zero_tally, MatchFormat, SetResult, Match,
}
use calculated_tennis.Tennis.Rules.{win_game, wins_by}
use calculated_tennis.Tennis.Score.Hydrate.{
  pick_needed_game_winner, same_tally, regular_set_loop, check_last_set,
  replay_regular_games_until_set_complete,
}
use calculated_tennis.Tennis.Score.Hydrate.Steps.{
  IsStandard, OnWay, start-OnWay, next-OnWay, InGames, HasSet, game_step, set_step,
}
use calculated_tennis.Tennis.Score.Hydrate.Regular.{same_tally-eq, fuel_left, no_fuel}

pub get_last?-append {ℓ} : {X : Type ℓ} (xs : List X) (x : X) → get_last? (xs ++ x ∷ []) ≡ some x
get_last?-append [] x = refl
get_last?-append (y ∷ []) x = refl
get_last?-append (y ∷ (z ∷ xs)) x = get_last?-append (z ∷ xs) x

-- The check after a loop that ends with a set completed is passed by a match with that set.
pub check_last_set-HasSet :
    (f : MatchFormat) (cs : List SetResult) (won t : Tally) (w : Player) (m : Match)
    → HasSet f cs won t w m
    → check_last_set t m ≡ some (ok m)
check_last_set-HasSet f cs won t w m s =
    let last : get_last? m.completed_sets ≡ some (record { games_a = t.a; games_b = t.b }) =
      ap get_last? s.completed ∙ get_last?-append cs _ in
    ground arith

pub length-HasSet :
    (f : MatchFormat) (cs : List SetResult) (won t : Tally) (w : Player) (m : Match)
    → HasSet f cs won t w m
    → length m.completed_sets ≡ suc (length cs)
length-HasSet f cs won t w m s =
    omega (
      arith,
      ap length s.completed,
      length-append cs (record { games_a = t.a; games_b = t.b } ∷ []),
    )

-- The games of a set that `w` wins without a tiebreak, with no surplus.
pub record IsSetOf (f : MatchFormat) (w : Player) (t : Tally) : Type 0 where
  pub wins : wins_by f.games_per_set f.game_margin t w ≡ true
  pub needed :
      get t w ≡ f.tiebreak_at_games_each
      ⊎ (get t w ≡ f.tiebreak_at_games_each + 1)
        × (get t (opponent w) + 1 ≡ f.tiebreak_at_games_each)

module _ (f : MatchFormat) (cs : List SetResult) (won : Tally) (t : Tally) (v : IsStandard f) where
  before_set :
      (g : Tally) (w : Player)
      → IsSetOf f w t
      → OnWay g t
      → same_tally g t ≡ false
      → let p = pick_needed_game_winner g t in
        same_tally (increment g p) t ≡ false
        → wins_by f.games_per_set f.game_margin (increment g p) p ≡ false
  unfolding pick_needed_game_winner opponent
  before_set g A d o e e' = ground arith
  before_set g B d o e e' = ground arith

  -- The last game of the way is won by the side whose set it is.
  last_game :
      (g : Tally) (w : Player)
      → IsSetOf f w t
      → OnWay g t
      → same_tally g t ≡ false
      → let p = pick_needed_game_winner g t in same_tally (increment g p) t ≡ true → p ≡ w
  unfolding pick_needed_game_winner opponent
  last_game g A d o e e' = ground arith
  last_game g B d o e e' = ground arith

  -- Nor does the way pass the level at which a tiebreak begins.
  never_level :
      (g : Tally) (w : Player)
      → IsSetOf f w t
      → OnWay g t
      → g.a ≡ f.tiebreak_at_games_each
      → g.b ≡ f.tiebreak_at_games_each
      → ⊥
  unfolding opponent
  never_level g A d o ea eb = ground (arith, v.by_two)
  never_level g B d o ea eb = ground (arith, v.by_two)

  loop_round :
      (fuel : ℕ) (g : Tally) (m : Match)
      → InGames f cs won g m
      → (win_game m (pick_needed_game_winner g t)).1 ≡ none
      → regular_set_loop (suc fuel) (length cs) m t
        ≡ regular_set_loop fuel (length cs) (win_game m (pick_needed_game_winner g t)).0 t
  unfolding regular_set_loop
  loop_round fuel g m s w = ground (arith, ap (λ (xs : List SetResult). length xs) s.completed)

  loop_stop :
      (fuel : ℕ) (w : Player) (m : Match)
      → HasSet f cs won t w m
      → 0 < fuel
      → regular_set_loop fuel (length cs) m t ≡ some (ok m)
  unfolding regular_set_loop
  loop_stop zero w m s h = absurd (omega arith)
  loop_stop (suc fuel) w m s h =
      ground (arith, length-HasSet f cs won t w m s, check_last_set-HasSet f cs won t w m s)

  pub loop-HasSet :
      (fuel : ℕ) (g : Tally) (w : Player) (m : Match)
      → IsSetOf f w t
      → t.a + t.b < fuel + (g.a + g.b)
      → same_tally g t ≡ false
      → OnWay g t
      → InGames f cs won g m
      → (m' : Match) × (regular_set_loop fuel (length cs) m t ≡ some (ok m'))
        × HasSet f cs won t w m'
  loop-HasSet zero g w m d h away o s = absurd (no_fuel t g o h)
  loop-HasSet (suc fuel) g w m d h away o s =
      let p = pick_needed_game_winner g t in
      let o' = next-OnWay g t o away in
      let h' = fuel_left t fuel g p h in
      elim (Bool-cases (same_tally (increment g p) t)) [
        | inl there ↦
            let same = same_tally-eq (increment g p) t there in
            let last = last_game g w d o away there in
            let wins : wins_by f.games_per_set f.game_margin (increment g p) p ≡ true =
              ap₂ (wins_by f.games_per_set f.game_margin) same last ∙ d.wins in
            let (fine, s') = set_step f cs won g p m s (never_level (increment g p) w d o') wins in
            let s'' : HasSet f cs won t w (win_game m p).0 =
              subst₂ (λ q x. HasSet f cs won q x (win_game m p).0) same last s' in
            (
              (win_game m p).0,
              loop_round fuel g m s fine ∙ loop_stop fuel w _ s'' (ground arith),
              s'',
            )
        | inr still ↦
            let (fine, s') =
              game_step f cs won g p m s (never_level (increment g p) w d o')
                (before_set g w d o away still) in
            let (m', e, r) = loop-HasSet fuel (increment g p) w (win_game m p).0 d h' still o' s' in
            (m', loop_round fuel g m s fine ∙ e, r)
      ]

  not_new : (w : Player) → IsSetOf f w t → same_tally zero_tally t ≡ false
  unfolding opponent
  not_new A d = ground (arith, v.some_game)
  not_new B d = ground (arith, v.some_game)

  -- From a new set the replay ends with the set of the target completed.
  pub replay-HasSet :
      (fuel : ℕ) (w : Player) (m : Match)
      → IsSetOf f w t
      → t.a + t.b < fuel
      → InGames f cs won zero_tally m
      → (m' : Match) × (replay_regular_games_until_set_complete fuel m t ≡ some (ok m'))
        × HasSet f cs won t w m'
  unfolding replay_regular_games_until_set_complete
  replay-HasSet fuel w m d h s =
      let (m', e, r) =
        loop-HasSet fuel zero_tally w m d (omega arith) (not_new w d) (start-OnWay t) s in
      (m', ap (λ xs. regular_set_loop fuel (length xs) m t) s.completed ∙ e, r)
