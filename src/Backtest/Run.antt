-- ===== src/Backtest/Run.antt =====
-- tennis/cmd/backtestbets/backtest.go: a whole walk, from the rows of the file and the rates on.
pub mod Panics
pub mod Kept
use calculated_tennis.Base.{
  ℕ, zero, suc, ◌+◌, ◌≤◌, ◌≡◌, refl, sym, subst, Bool, true, false, not, Option, none, some, List,
  [], ◌∷◌, length, if◌then◌else◌, Result, ok, err, Text, text_test, is_empty, Float64, arith, All,
}
use calculated_tennis.Base.Draws.{Draws, and_then, ◌>>=◌, pure, fail, Ends, and_then-Ends}
use calculated_tennis.Base.Sorting.{filter, sort_stable, All-filter, sort_stable-All, All-map-to}
use calculated_tennis.Tennis.Simulation.{Rates, Rng}
use calculated_tennis.MoneyManager.Decimals.{Decimal}
use calculated_tennis.MoneyManager.Risk.{Config}
use calculated_tennis.TennisAbstract.Dates.{Time}
use calculated_tennis.TennisAbstract.Surfaces.{Process}
use calculated_tennis.TennisAbstract.Form.{no_options, form_options_from_env}
use calculated_tennis.TennisAbstract.Rates.{
  MatchWithOdds, PlayerRatesMap, Client, match_with_odds_player_rates,
}
use calculated_tennis.Backtest.Config.{MoneyManagerConfig, BacktestConfig, parlay}
use calculated_tennis.Backtest.Config.Usable.{IsFunded, IsUsable}
use calculated_tennis.Backtest.Eligible.{
  backtest_match_eligible, filter_backtest_matches, earlier, load_eligible_matches,
}
use calculated_tennis.Backtest.Stats.{no_stats}
use calculated_tennis.Backtest.Log.{StrategyBetLog, Track}
use calculated_tennis.Backtest.Stakes.{
  LimitError, bad_cap, panics, Conversions, Allocator, risk_config_from_money_manager,
}
use calculated_tennis.Backtest.Singles.{
  BacktestError, invalid_cap, panicked, BacktestRunResult, MmWalkAllocators, walk_backtests_singles,
}
use calculated_tennis.Backtest.Accounting.{IsSettled, IsBooked}
use calculated_tennis.Backtest.Walk.{IsOfSimulation, Simulates, HasOdds, eligible-HasOdds}
use calculated_tennis.Backtest.Walk.Books.{AreBooked, IsPlayable, walk_backtests_singles-AreBooked}
use calculated_tennis.Backtest.Parlay.Legs.{
  ParlayStrategy, strategy_sim, strategy_favorite, strategy_sim_form, rates_for,
}
use calculated_tennis.Backtest.Parlay.Sound.{IsAnswered}
use calculated_tennis.Backtest.Parlay.Track.{walk_parlay_track, walk_backtests_parlay}
use calculated_tennis.Backtest.Parlay.Books.{IsParlayBooked, walk_parlay_track-IsParlayBooked}

module _ (R : Float64) (M : Decimal) (C : Conversions R M) (format_float : R.F → ℕ → Text) where
  -- The balance that the logs begin with.
  abbrev pub initial_of : Option (MoneyManagerConfig R) → R.F
  initial_of none = R.zero
  initial_of (some mm) = mm.initial_balance

  abbrev pub new_log : BacktestConfig R → Option (StrategyBetLog R)
  new_log cfg =
      if is_empty cfg.bet_log_dir
      then none
      else some (record { initial = initial_of cfg.money_manager; rows = [] })

  abbrev pub new_track : BacktestConfig R → ℕ → Track R
  new_track cfg n = record { stats = no_stats R n; log = new_log cfg }

  -- Each track has an allocator on its own balance.
  abbrev pub allocators_of : R.F → Config M → MmWalkAllocators R M C format_float
  allocators_of balance limits =
      let alloc : Option (Allocator R M C) = some (record { initial = balance; limits = limits }) in
      record { sim = alloc; sim_form = alloc; favorite = alloc }

  abbrev pub with_limits :
      R.F → Result LimitError (Config M) → Result LimitError (MmWalkAllocators R M C format_float)
  with_limits balance (err e) = err e
  with_limits balance (ok limits) = ok (allocators_of balance limits)

  unfoldable pub new_mm_walk_allocators :
      Option (MoneyManagerConfig R) → Result LimitError (MmWalkAllocators R M C format_float)
  unfolding risk_config_from_money_manager
  new_mm_walk_allocators none = ok (record { sim = none; sim_form = none; favorite = none })
  new_mm_walk_allocators (some mm) =
      with_limits mm.initial_balance (risk_config_from_money_manager R M C mm)

  -- As an error of the backtest.
  abbrev pub error_of_limits : LimitError → BacktestError
  error_of_limits bad_cap = invalid_cap
  error_of_limits (panics e) = panicked e

  module _ (P : Process R) (now : Time) (client : Client R) (fuel : ℕ) (cfg : BacktestConfig R)
      (rates : PlayerRatesMap R) (rng : Rng R) where
    unfoldable pub walk_by_mode :
        List (MatchWithOdds R)
        → Result LimitError (MmWalkAllocators R M C format_float)
        → Draws BacktestError (BacktestRunResult R M C format_float)
    unfolding walk_backtests_singles walk_backtests_parlay
    walk_by_mode eligible (err e) = fail (error_of_limits e)
    walk_by_mode eligible (ok allocs) =
        let track = new_track cfg (length eligible) in
        let out : BacktestRunResult R M C format_float = record {
          sim = track;
          sim_form = track;
          favorite = track;
        } in
        if text_test cfg.bet_mode parlay
        then walk_backtests_parlay R M C format_float P now client rates fuel cfg rng allocs
            eligible out
        else walk_backtests_singles R M C format_float P now client fuel cfg allocs rates rng
            eligible out

    unfoldable pub walk_backtests :
        List (MatchWithOdds R) → Draws BacktestError (BacktestRunResult R M C format_float)
    unfolding walk_by_mode new_mm_walk_allocators
    walk_backtests eligible = walk_by_mode eligible (new_mm_walk_allocators cfg.money_manager)

    -- `RunBacktests` with a valid configuration, from the rows that were read on.
    unfoldable pub run_backtests :
        List (MatchWithOdds R) → Draws BacktestError (BacktestRunResult R M C format_float)
    unfolding walk_backtests load_eligible_matches
    run_backtests rows = walk_backtests (load_eligible_matches R rows rates)
