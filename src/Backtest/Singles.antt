-- ===== src/Backtest/Singles.antt =====
-- tennis/cmd/backtestbets/backtest.go: the walk that places single bets. For each match the sim,
-- the favorite and the sim with recent form decide in turn, on one generator.
use calculated_tennis.Base.{
  ℕ, Bool, true, false, not, Option, none, some, List, [], ◌∷◌, if◌then◌else◌, Result, ok, err,
  Text, codes, ℤ, pos, Float64,
}
use calculated_tennis.Base.Draws.{Draws, ◌>>=◌, pure, of_result, relabel}
use calculated_tennis.Tennis.State.{A}
use calculated_tennis.Tennis.Simulation.{Rates, Rng, SimulationError, simulate_fresh, win_count}
use calculated_tennis.MoneyManager.Decimals.{Decimal}
use calculated_tennis.TennisAbstract.Dates.{Time}
use calculated_tennis.TennisAbstract.Surfaces.{Process}
use calculated_tennis.TennisAbstract.Form.{no_options, form_options_from_env}
use calculated_tennis.TennisAbstract.Rates.{
  MatchWithOdds, PlayerRatesMap, Client, match_with_odds_player_rates,
}
use calculated_tennis.TennisAbstract.Sides.{
  BetSide, side_none, side_a, side_b, Decision, decide_bet, decide_favorite_bet,
}
use calculated_tennis.Backtest.Config.{BacktestConfig, normalized_stake}
use calculated_tennis.Backtest.Stats.{
  BacktestStats, skip, apply_bet, win_prob_for_side, expected_value_decimal_odds,
}
use calculated_tennis.Backtest.Log.{Track, record_skip, record_bet}
use calculated_tennis.Backtest.Stakes.{Panic, Conversions, Allocator, allocate_stake}

pub data BacktestError : Type 0 where
  of_simulation : SimulationError → BacktestError
  invalid_decision invalid_favorite invalid_cap : BacktestError
  panicked : Panic → BacktestError

-- The winner of a row is its player A.
abbrev pub historical_winner_side : BetSide
historical_winner_side = side_a

module _ (R : Float64) where
  open R use {F, zero, lt, le}

  unfoldable pub odds_allowed : BacktestConfig R → F → Bool
  odds_allowed cfg odds = if le cfg.min_odds zero then true else le cfg.min_odds odds

  unfoldable pub positive_ev_allowed : BacktestConfig R → F → F → Bool
  positive_ev_allowed cfg p odds =
      if not cfg.require_positive_ev then true else lt zero (expected_value_decimal_odds R p odds)

  -- What `simulateAndDecide` returns.
  pub record SimDecision : Type 0 where
    pub wins_a : ℤ
    pub side : BetSide
    pub odds : F
    pub win_prob : F
    pub bet : Bool

  unfoldable pub decided : BacktestConfig R → ℤ → Decision R → Result BacktestError SimDecision
  decided cfg wins_a none = err invalid_decision
  decided cfg wins_a (some (side_none, odds)) =
      ok (record { wins_a = wins_a; side = side_none; odds = odds; win_prob = zero; bet = false })
  decided cfg wins_a (some (side_a, odds)) = ok (record {
    wins_a = wins_a;
    side = side_a;
    odds = odds;
    win_prob = win_prob_for_side R wins_a cfg.sims side_a;
    bet = true;
  })
  decided cfg wins_a (some (side_b, odds)) = ok (record {
    wins_a = wins_a;
    side = side_b;
    odds = odds;
    win_prob = win_prob_for_side R wins_a cfg.sims side_b;
    bet = true;
  })

  -- How often A wins; `fuel` bounds each simulated match.
  unfoldable pub simulated_wins :
      ℕ → MatchWithOdds R → Rates R → BacktestConfig R → Rng R → Draws BacktestError ℤ
  unfolding simulate_fresh
  simulated_wins fuel m rates cfg rng =
      relabel of_simulation (simulate_fresh R fuel m.match_format rates cfg.alpha cfg.sims rng)
      >>= λ wins. pure (pos (win_count wins A))

  unfoldable pub simulate_and_decide :
      ℕ → MatchWithOdds R → Rates R → BacktestConfig R → Rng R → Draws BacktestError SimDecision
  unfolding simulated_wins decided decide_bet
  simulate_and_decide fuel m rates cfg rng = simulated_wins fuel m rates cfg rng >>= λ n.
      of_result (decided cfg n (decide_bet R n cfg.sims cfg.min_pick m.avg_w m.avg_l))

  module _ (M : Decimal) (C : Conversions R M) (format_float : F → ℕ → Text) where
    unfoldable pub skip_match : Track R → MatchWithOdds R → Text → F → F → Track R
    unfolding record_skip
    skip_match track m reason p odds = record {
      stats = skip R track.stats;
      log = record_skip R format_float track m reason p odds;
    }

    unfoldable pub apply_bet_with_log :
        Track R → MatchWithOdds R → BetSide → F → F → F → BetSide → Track R
    unfolding record_bet apply_bet
    apply_bet_with_log track m picked odds stake p winner = record {
      stats = apply_bet R track.stats m.surface picked odds stake winner;
      log = record_bet R format_float track m picked odds stake p winner;
    }

    -- With a stake that is allocated, or refused.
    unfoldable pub try_apply_bet :
        Option F → Track R → MatchWithOdds R → BetSide → F → F → BetSide → Track R
    unfolding apply_bet_with_log skip_match
    try_apply_bet none track m picked odds p winner = skip_match track m (codes "ALLOC") p odds
    try_apply_bet (some stake) track m picked odds p winner =
        apply_bet_with_log track m picked odds stake p winner

    -- The stake of the allocator, or the fixed one.
    unfoldable pub stake_for :
        Option (Allocator R M C) → BacktestStats R → F → F → Result Panic (Option F)
    unfolding allocate_stake
    stake_for none stats odds fixed = ok (some fixed)
    stake_for (some alloc) stats odds fixed = allocate_stake R M C alloc stats odds

    -- By the stake, unless its allocation panics.
    abbrev pub with_stake :
        Result Panic (Option F) → (Option F → Track R) → Result BacktestError (Track R)
    with_stake (err e) bet = err (panicked e)
    with_stake (ok stake) bet = ok (bet stake)

    unfoldable pub place_bet :
        Option (Allocator R M C)
        → Track R
        → MatchWithOdds R
        → BetSide
        → F
        → F
        → BetSide
        → F
        → Result BacktestError (Track R)
    unfolding stake_for try_apply_bet
    place_bet alloc track m picked odds p winner fixed =
        with_stake (stake_for alloc track.stats odds fixed)
          (λ stake. try_apply_bet stake track m picked odds p winner)

    -- The guards that follow the decision to bet.
    unfoldable pub guarded_bet :
        BacktestConfig R
        → Option (Allocator R M C)
        → Track R
        → MatchWithOdds R
        → BetSide
        → F
        → F
        → Result BacktestError (Track R)
    unfolding place_bet skip_match positive_ev_allowed odds_allowed
    guarded_bet cfg alloc track m picked odds p =
        if not (positive_ev_allowed cfg p odds)
        then ok (skip_match track m (codes "NEG_EV") p odds)
        else if not (odds_allowed cfg odds)
        then ok (skip_match track m (codes "MIN_ODDS") p odds)
        else place_bet alloc track m picked odds p historical_winner_side
            (normalized_stake R cfg.stake)

    unfoldable pub try_place_sim_bet :
        BacktestConfig R
        → Option (Allocator R M C)
        → Track R
        → MatchWithOdds R
        → SimDecision
        → Result BacktestError (Track R)
    unfolding guarded_bet skip_match
    try_place_sim_bet cfg alloc track m d =
        if not d.bet
        then ok (skip_match track m (codes "MINPICK") zero zero)
        else guarded_bet cfg alloc track m d.side d.odds d.win_prob

    unfoldable pub place_favorite :
        BacktestConfig R
        → Option (Allocator R M C)
        → Track R
        → MatchWithOdds R
        → ℤ
        → Decision R
        → Result BacktestError (Track R)
    unfolding guarded_bet
    place_favorite cfg alloc track m wins_a none = err invalid_favorite
    place_favorite cfg alloc track m wins_a (some (side, odds)) =
        guarded_bet cfg alloc track m side odds (win_prob_for_side R wins_a cfg.sims side)

    -- The favorite bets where the sim does.
    unfoldable pub try_place_favorite_bet :
        BacktestConfig R
        → Option (Allocator R M C)
        → Track R
        → MatchWithOdds R
        → SimDecision
        → Result BacktestError (Track R)
    unfolding place_favorite skip_match decide_favorite_bet
    try_place_favorite_bet cfg alloc track m d =
        if not d.bet
        then ok (skip_match track m (codes "MINPICK") zero zero)
        else place_favorite cfg alloc track m d.wins_a (decide_favorite_bet R m.avg_w m.avg_l)

    -- The three tracks.
    pub record BacktestRunResult : Type 0 where
      pub sim : Track R
      pub sim_form : Track R
      pub favorite : Track R

    -- The allocators of the three tracks: all or none.
    pub record MmWalkAllocators : Type 0 where
      pub sim : Option (Allocator R M C)
      pub sim_form : Option (Allocator R M C)
      pub favorite : Option (Allocator R M C)

    module _ (P : Process R) (now : Time) (client : Client R) where
      -- The track of the sim with recent form.
      unfoldable pub walk_form :
          ℕ
          → BacktestConfig R
          → Option (Allocator R M C)
          → Rng R
          → MatchWithOdds R
          → Option (Rates R)
          → Track R
          → Draws BacktestError (Track R)
      unfolding skip_match simulate_and_decide try_place_sim_bet
      walk_form fuel cfg alloc rng m none track = pure (skip_match track m [] zero zero)
      walk_form fuel cfg alloc rng m (some rates) track =
          simulate_and_decide fuel m rates cfg rng >>= λ d.
          of_result (try_place_sim_bet cfg alloc track m d)

      -- One match, by its season rates.
      unfoldable pub walk_match :
          ℕ
          → BacktestConfig R
          → MmWalkAllocators
          → PlayerRatesMap R
          → Rng R
          → MatchWithOdds R
          → Option (Rates R)
          → BacktestRunResult
          → Draws BacktestError BacktestRunResult
      unfolding walk_form simulate_and_decide try_place_sim_bet try_place_favorite_bet skip_match
          match_with_odds_player_rates form_options_from_env
      walk_match fuel cfg allocs rates rng m none out = pure (record {
        sim = skip_match out.sim m [] zero zero;
        sim_form = skip_match out.sim_form m [] zero zero;
        favorite = skip_match out.favorite m [] zero zero;
      })
      walk_match fuel cfg allocs rates rng m (some base) out = do
        d ← simulate_and_decide fuel m base cfg rng
        sim ← of_result (try_place_sim_bet cfg allocs.sim out.sim m d)
        favorite ← of_result (try_place_favorite_bet cfg allocs.favorite out.favorite m d)
        form ←
            walk_form fuel cfg allocs.sim_form rng m
              (match_with_odds_player_rates R P now client m rates true
                (form_options_from_env R P m.surface))
              out.sim_form
        pure (record { sim = sim; sim_form = form; favorite = favorite })

      unfoldable pub walk_backtests_singles :
          ℕ
          → BacktestConfig R
          → MmWalkAllocators
          → PlayerRatesMap R
          → Rng R
          → List (MatchWithOdds R)
          → BacktestRunResult
          → Draws BacktestError BacktestRunResult
      unfolding walk_match match_with_odds_player_rates
      walk_backtests_singles fuel cfg allocs rates rng [] out = pure out
      walk_backtests_singles fuel cfg allocs rates rng (m ∷ ms) out =
          walk_match fuel cfg allocs rates rng m
            (match_with_odds_player_rates R P now client m rates false (no_options R)) out
          >>= walk_backtests_singles fuel cfg allocs rates rng ms
