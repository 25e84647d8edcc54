-- ===== src/Tennis/Score/Hydrate/Level.antt =====
-- tennis/tennis/score.go: a set in progress with level games above those of the tiebreak, which the
-- validator takes and the replay cannot reach.
use calculated_tennis.Base.{
  ℕ, zero, suc, ◌+◌, ◌≤◌, ◌<◌, ◌≡◌, refl, false, none, some, [], ◌∷◌, inl, inr, ok, err, arith, ◌∙◌,
  Bool-cases,
}
use calculated_tennis.Tennis.State.{
  Player, Tally, increment, zero_tally, MatchFormat, Match, new_match,
}
use calculated_tennis.Tennis.Rules.{win_game}
use calculated_tennis.Tennis.Score.{hydration, SetScore}
use calculated_tennis.Tennis.Score.Validate.{
  in_progress, validate_game_totals, impossible_game_score, classify_set, validate_from,
  validate_score_sequence, validate_in_progress_set,
}
use calculated_tennis.Tennis.Score.Hydrate.{
  hydrate_set, hydrate_sets, match_from_sets, same_tally, exceeds, pick_needed_game_winner,
  replay_regular_games_to, score_needs_tiebreak_hydration,
}
use calculated_tennis.Tennis.Score.Hydrate.Steps.{
  IsStandard, InGames, InTiebreak, OnWay, start-OnWay, next-OnWay, next-wins_by, game_step,
  level_step, IsOpenTarget,
}
use calculated_tennis.Tennis.Score.Hydrate.Regular.{not-exceeds, fuel_left}
use calculated_tennis.Tennis.Score.Hydrate.Tokens.{HasFuel}

-- `k`-`k` without tiebreak points.
abbrev pub level_score : ℕ → SetScore
level_score k = record { games_a = k; games_b = k; tiebreak = none }

abbrev level : ℕ → Tally
level k = record { a = k; b = k }

module _ (f : MatchFormat) (v : IsStandard f) (k : ℕ) (above : f.tiebreak_at_games_each < k) where
  level-validate : validate_score_sequence f (level_score k ∷ []) ≡ ok tt
  unfolding validate_score_sequence validate_from validate_game_totals impossible_game_score
      classify_set validate_in_progress_set
  level-validate = let g = v.games in let m = v.by_two in let s = v.some_set in ground arith

  level-classify : classify_set (level_score k) f zero_tally ≡ ok in_progress
  unfolding classify_set
  level-classify = let m = v.by_two in ground arith

  level-open : IsOpenTarget f.games_per_set f.game_margin (level k)
  level-open = let m = v.by_two in record { open_a = ground arith; open_b = ground arith }

  stuck_round :
      (fuel : ℕ) (m : Match)
      → InTiebreak f [] zero_tally zero_tally m
      → 0 < fuel
      → replay_regular_games_to fuel m (level k) ≡ some (err hydration)
  unfolding replay_regular_games_to
  stuck_round zero m s h = absurd (omega arith)
  stuck_round (suc fuel) m s h = ground arith

  games_round :
      (fuel : ℕ) (g : Tally) (m : Match)
      → InGames f [] zero_tally g m
      → same_tally g (level k) ≡ false
      → exceeds g (level k) ≡ false
      → (win_game m (pick_needed_game_winner g (level k))).1 ≡ none
      → replay_regular_games_to (suc fuel) m (level k)
        ≡ replay_regular_games_to fuel
            (win_game m (pick_needed_game_winner g (level k))).0
            (level k)
  unfolding replay_regular_games_to
  games_round fuel g m s e x w = ground arith

  next-level :
      (g : Tally)
      → OnWay g (level k)
      → g.a ≤ f.tiebreak_at_games_each
      → g.b ≤ f.tiebreak_at_games_each
      → same_tally g (level f.tiebreak_at_games_each) ≡ false
      → ((increment g (pick_needed_game_winner g (level k))).a ≤ f.tiebreak_at_games_each)
        × ((increment g (pick_needed_game_winner g (level k))).b ≤ f.tiebreak_at_games_each)
  unfolding pick_needed_game_winner
  next-level g w la lb away = ground arith

  -- The replay ends in the tiebreak, short of the target.
  level-stuck :
      (fuel : ℕ) (g : Tally) (m : Match)
      → f.tiebreak_at_games_each + f.tiebreak_at_games_each < fuel + (g.a + g.b)
      → g.a ≤ f.tiebreak_at_games_each
      → g.b ≤ f.tiebreak_at_games_each
      → same_tally g (level f.tiebreak_at_games_each) ≡ false
      → OnWay g (level k)
      → InGames f [] zero_tally g m
      → replay_regular_games_to fuel m (level k) ≡ some (err hydration)
  level-stuck zero g m h la lb away w s = absurd (omega arith)
  level-stuck (suc fuel) g m h la lb away w s =
      let p = pick_needed_game_winner g (level k) in
      let far : same_tally g (level k) ≡ false = ground arith in
      let w' = next-OnWay g (level k) w far in
      let h' = fuel_left (level f.tiebreak_at_games_each) fuel g p h in
      elim (Bool-cases (same_tally (increment g p) (level f.tiebreak_at_games_each))) [
        | inl there ↦
            let (fine, s') = level_step f [] zero_tally g p m s (ground arith) (ground arith) in
            games_round fuel g m s far (not-exceeds g (level k) w) fine
            ∙ stuck_round fuel (win_game m p).0 s' (ground arith)
        | inr still ↦
            let (fine, s') =
              game_step f [] zero_tally g p m s (λ da db. ground arith)
                (next-wins_by f.games_per_set f.game_margin g (level k) (omega (arith, v.by_two)) w
                  far level-open) in
            let (la', lb') = next-level g w la lb away in
            games_round fuel g m s far (not-exceeds g (level k) w) fine
            ∙ level-stuck fuel (increment g p) (win_game m p).0 h' la' lb' still w' s'
      ]

  -- In a format in the usual proportions, a single set in progress at k games each, k above the
  -- games at which the tiebreak begins, passes ValidateScoreSequence, and MatchFromScore ends in
  -- ErrScoreHydration on it, with fuel for the games up to the tiebreak.
  pub match_from_sets-level :
      (fuel : ℕ) (p : Player)
      → HasFuel f fuel
      → (validate_score_sequence f (level_score k ∷ []) ≡ ok tt)
        × (match_from_sets fuel f p (level_score k ∷ []) ≡ some (err hydration))
  unfolding match_from_sets hydrate_sets hydrate_set new_match score_needs_tiebreak_hydration
  match_from_sets-level fuel p h =
      let start = v.some_game in
      let stuck =
        level-stuck fuel zero_tally (new_match p f) (omega (arith, h.games)) (omega arith)
          (omega arith) (ground arith) (start-OnWay (level k))
          (record {
            same = refl;
            live = refl;
            completed = refl;
            sets = refl;
            phase = refl;
            games = refl;
          }) in
      let set : hydrate_set fuel (new_match p f) (level_score k) f false ≡ some (err hydration) =
        ground arith in
      (level-validate, rw level-validate (rw level-classify (rw set)))
