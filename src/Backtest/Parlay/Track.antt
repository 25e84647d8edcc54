-- ===== src/Backtest/Parlay/Track.antt =====
-- tennis/cmd/backtestbets/backtest.go: the walk of a track of parlays. The fuel `steps` bounds the
-- windows; the number of matches is enough.
use calculated_tennis.Base.{
  ℕ, zero, suc, Option, none, some, List, [], ◌∷◌, length, Text, codes, Float64,
}
use calculated_tennis.Base.Draws.{Draws, ◌>>=◌, pure, of_result}
use calculated_tennis.Base.Sorting.{drop}
use calculated_tennis.Tennis.Simulation.{Rng}
use calculated_tennis.MoneyManager.Decimals.{Decimal}
use calculated_tennis.TennisAbstract.Dates.{Time}
use calculated_tennis.TennisAbstract.Surfaces.{Process}
use calculated_tennis.TennisAbstract.Rates.{MatchWithOdds, PlayerRatesMap, Client}
use calculated_tennis.Backtest.Config.{BacktestConfig}
use calculated_tennis.Backtest.Stats.{skip}
use calculated_tennis.Backtest.Log.{Track, record_parlay_skip}
use calculated_tennis.Backtest.Stakes.{Conversions, Allocator}
use calculated_tennis.Backtest.Singles.{BacktestError, BacktestRunResult, MmWalkAllocators}
use calculated_tennis.Backtest.Parlay.Legs.{
  ParlayStrategy, strategy_sim, strategy_favorite, strategy_sim_form, ParlayLeg, Cache, eval_leg,
}
use calculated_tennis.Backtest.Parlay.Window.{select_parlay_window}
use calculated_tennis.Backtest.Parlay.Place.{place_parlay}

module _ (R : Float64) (M : Decimal) (C : Conversions R M) (format_float : R.F → ℕ → Text) where
  -- `NO_RATES` where the anchor itself has no leg.
  abbrev pub skip_reason : Option (ParlayLeg R) → Text
  skip_reason none = codes "NO_RATES"
  skip_reason (some leg) = codes "NO_VALID_PARLAY"

  unfoldable pub skip_anchor : Track R → MatchWithOdds R → Option (ParlayLeg R) → Track R
  unfolding record_parlay_skip
  skip_anchor track m leg = record {
    stats = skip R track.stats;
    log = record_parlay_skip R format_float track m (skip_reason leg) R.zero R.zero;
  }

  module _ (P : Process R) (now : Time) (client : Client R) (rates : PlayerRatesMap R) (fuel : ℕ)
      (cfg : BacktestConfig R) (rng : Rng R) where
    module _ (strategy : ParlayStrategy) (alloc : Option (Allocator R M C)) where
      -- The rest of the walk: by its matches, the cache and the track.
      abbrev pub Rest : Type 0
      Rest = List (MatchWithOdds R) → Cache R → Track R → Draws BacktestError (Track R)

      -- The parlay is placed and its matches are passed; without one, the anchor is skipped.
      unfoldable pub with_window :
          Rest
          → MatchWithOdds R
          → List (MatchWithOdds R)
          → Track R
          → Option (List (ParlayLeg R) × ℕ) × Cache R
          → Draws BacktestError (Track R)
      unfolding place_parlay skip_anchor eval_leg
      with_window rest m ms track (some (legs, k), cache) =
          of_result (place_parlay R format_float M C cfg alloc track legs) >>= λ track'.
          rest (drop k (m ∷ ms)) cache track'
      with_window rest m ms track (none, cache) =
          eval_leg R P now client rates fuel cfg rng strategy cache m >>= λ e.
          rest ms e.1 (skip_anchor track m e.0)

      unfoldable pub walk_parlay :
          ℕ → List (MatchWithOdds R) → Cache R → Track R → Draws BacktestError (Track R)
      unfolding select_parlay_window with_window
      walk_parlay steps [] cache track = pure track
      walk_parlay zero (m ∷ ms) cache track = λ t. none
      walk_parlay (suc steps) (m ∷ ms) cache track =
          select_parlay_window R P now client rates fuel cfg rng strategy (m ∷ ms) cache
          >>= with_window (walk_parlay steps) m ms track

      unfoldable pub walk_parlay_track :
          List (MatchWithOdds R) → Track R → Draws BacktestError (Track R)
      unfolding walk_parlay
      walk_parlay_track eligible track = walk_parlay (length eligible) eligible [] track

    -- The three tracks, one after the other.
    unfoldable pub walk_backtests_parlay :
        MmWalkAllocators R M C format_float
        → List (MatchWithOdds R)
        → BacktestRunResult R M C format_float
        → Draws BacktestError (BacktestRunResult R M C format_float)
    unfolding walk_parlay_track
    walk_backtests_parlay allocs eligible out = do
      sim ← walk_parlay_track strategy_sim allocs.sim eligible out.sim
      favorite ← walk_parlay_track strategy_favorite allocs.favorite eligible out.favorite
      sim_form ← walk_parlay_track strategy_sim_form allocs.sim_form eligible out.sim_form
      pure (record { sim = sim; sim_form = sim_form; favorite = favorite })
