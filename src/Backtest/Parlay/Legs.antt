-- ===== src/Backtest/Parlay/Legs.antt =====
-- tennis/cmd/backtestbets/parlay.go: the legs of parlays, and their cache. The hook of the tests is
-- not set.
use calculated_tennis.Base.{
  ℕ, Bool, true, false, ◌&&◌, Option, none, some, List, [], ◌∷◌, ◌==◌, if◌then◌else◌, Text,
  text_test, ℤ, eqℤ, Float64,
}
use calculated_tennis.Base.Draws.{Draws, ◌>>=◌, pure}
use calculated_tennis.Tennis.Simulation.{Rates, Rng}
use calculated_tennis.TennisAbstract.Dates.{Time}
use calculated_tennis.TennisAbstract.Surfaces.{Process}
use calculated_tennis.TennisAbstract.Form.{no_options, form_options_from_env}
use calculated_tennis.TennisAbstract.Rates.{
  MatchWithOdds, PlayerRatesMap, Client, match_with_odds_player_rates,
}
use calculated_tennis.TennisAbstract.Sides.{
  BetSide, Decision, decide_sim_favored_side, decide_favorite_bet,
}
use calculated_tennis.Backtest.Config.{BacktestConfig}
use calculated_tennis.Backtest.Stats.{win_prob_for_side}
use calculated_tennis.Backtest.Singles.{BacktestError, historical_winner_side, simulated_wins}

pub data ParlayStrategy : Type 0 where
  strategy_sim strategy_favorite strategy_sim_form : ParlayStrategy

pub record ParlayMatchKey : Type 0 where
  pub tourney_id : Text
  pub tourney_date : ℕ
  pub match_num : ℤ

abbrev pub same_key : ParlayMatchKey → ParlayMatchKey → Bool
same_key k l =
    text_test k.tourney_id l.tourney_id
    && k.tourney_date == l.tourney_date
    && eqℤ k.match_num l.match_num

module _ (R : Float64) where
  open R use {F}

  abbrev pub parlay_match_key_of : MatchWithOdds R → ParlayMatchKey
  parlay_match_key_of m = record {
    tourney_id = m.tourney_id;
    tourney_date = m.tourney_date;
    match_num = m.match_num;
  }

  pub record ParlayLeg : Type 0 where
    pub of_match : MatchWithOdds R
    pub pick : BetSide
    pub odds : F
    pub win_prob : F
    pub winner : BetSide

  abbrev pub Cache : Type 0
  Cache = List (ParlayMatchKey × ParlayLeg)

  abbrev pub cached : Cache → ParlayMatchKey → Option ParlayLeg
  cached [] key = none
  cached ((k, leg) ∷ rest) key = if same_key k key then some leg else cached rest key

  -- The decision of the strategy.
  abbrev pub decide_leg : ParlayStrategy → BacktestConfig R → MatchWithOdds R → ℤ → Decision R
  decide_leg strategy_sim cfg m n = decide_sim_favored_side R n cfg.sims m.avg_w m.avg_l
  decide_leg strategy_sim_form cfg m n = decide_sim_favored_side R n cfg.sims m.avg_w m.avg_l
  decide_leg strategy_favorite cfg m n = decide_favorite_bet R m.avg_w m.avg_l

  abbrev pub leg_of : BacktestConfig R → MatchWithOdds R → ℤ → Decision R → Option ParlayLeg
  leg_of cfg m n none = none
  leg_of cfg m n (some (side, odds)) = some (record {
    of_match = m;
    pick = side;
    odds = odds;
    win_prob = win_prob_for_side R n cfg.sims side;
    winner = historical_winner_side;
  })

  module _ (P : Process R) (now : Time) (client : Client R) (rates : PlayerRatesMap R) where
    abbrev pub rates_for : ParlayStrategy → MatchWithOdds R → Option (Rates R)
    rates_for strategy_sim m =
        match_with_odds_player_rates R P now client m rates false (no_options R)
    rates_for strategy_favorite m =
        match_with_odds_player_rates R P now client m rates false (no_options R)
    rates_for strategy_sim_form m =
        match_with_odds_player_rates R P now client m rates true
          (form_options_from_env R P m.surface)

    module _ (fuel : ℕ) (cfg : BacktestConfig R) (rng : Rng R) (strategy : ParlayStrategy) where
      -- A leg by the rates of the match; `none` is the result `ok = false`.
      unfoldable pub leg_by :
          MatchWithOdds R → Option (Rates R) → Draws BacktestError (Option ParlayLeg)
      unfolding simulated_wins
      leg_by m none = pure none
      leg_by m (some r) = simulated_wins R fuel m r cfg rng >>= λ n.
          pure (leg_of cfg m n (decide_leg strategy cfg m n))

      unfoldable pub build_leg : MatchWithOdds R → Draws BacktestError (Option ParlayLeg)
      unfolding leg_by
      build_leg m = leg_by m (rates_for strategy m)

      -- A leg that was built is kept.
      abbrev pub keep : Cache → ParlayMatchKey → Option ParlayLeg → Option ParlayLeg × Cache
      keep cache key none = (none, cache)
      keep cache key (some leg) = (some leg, (key, leg) ∷ cache)

      unfoldable pub look_up :
          Cache
          → MatchWithOdds R
          → Option ParlayLeg
          → Draws BacktestError (Option ParlayLeg × Cache)
      unfolding build_leg
      look_up cache m (some leg) = pure (some leg, cache)
      look_up cache m none = build_leg m >>= λ leg. pure (keep cache (parlay_match_key_of m) leg)

      unfoldable pub eval_leg :
          Cache → MatchWithOdds R → Draws BacktestError (Option ParlayLeg × Cache)
      unfolding look_up
      eval_leg cache m = look_up cache m (cached cache (parlay_match_key_of m))
