-- ===== src/Backtest/Parlay/Window.antt =====
-- tennis/cmd/backtestbets/parlay.go: the choice of a window of legs.
use calculated_tennis.Base.{
  ℕ, zero, suc, min, Bool, Option, none, some, List, [], ◌∷◌, length, if◌then◌else◌, ℤ, pos, negsuc,
  Float64,
}
use calculated_tennis.Base.Draws.{Draws, ◌>>=◌, pure}
use calculated_tennis.Base.Sorting.{take}
use calculated_tennis.Tennis.Simulation.{Rng}
use calculated_tennis.TennisAbstract.Dates.{Time}
use calculated_tennis.TennisAbstract.Surfaces.{Process}
use calculated_tennis.TennisAbstract.Rates.{MatchWithOdds, PlayerRatesMap, Client}
use calculated_tennis.Backtest.Config.{BacktestConfig}
use calculated_tennis.Backtest.Singles.{BacktestError, positive_ev_allowed}
use calculated_tennis.Backtest.Parlay.Legs.{ParlayStrategy, ParlayLeg, Cache, eval_leg}

module _ (R : Float64) where
  open R use {F, one, mul}

  abbrev pub multiply : List (ParlayLeg R) → F → F → F × F
  multiply [] p odds = (p, odds)
  multiply (leg ∷ legs) p odds = multiply legs (mul p leg.win_prob) (mul odds leg.odds)

  unfoldable pub combined_parlay_prob_odds : List (ParlayLeg R) → F × F
  combined_parlay_prob_odds [] = (R.zero, R.zero)
  combined_parlay_prob_odds (leg ∷ legs) = multiply (leg ∷ legs) one one

  unfoldable pub parlay_ev_allowed : BacktestConfig R → List (ParlayLeg R) → Bool
  unfolding positive_ev_allowed combined_parlay_prob_odds
  parlay_ev_allowed cfg legs =
      positive_ev_allowed R cfg (combined_parlay_prob_odds legs).0
        (combined_parlay_prob_odds legs).1

  -- The most legs that the setting allows.
  abbrev pub at_most : ℤ → ℕ
  at_most (pos n) = n
  at_most (negsuc n) = 0

  module _ (P : Process R) (now : Time) (client : Client R) (rates : PlayerRatesMap R) (fuel : ℕ)
      (cfg : BacktestConfig R) (rng : Rng R) (strategy : ParlayStrategy) where
    abbrev pub Built : Type 0
    Built = Option (List (ParlayLeg R)) × Cache R

    -- `leg` before the legs of the later matches, where these all have one.
    abbrev pub cons_leg : ParlayLeg R → Built → Built
    cons_leg leg (none, cache) = (none, cache)
    cons_leg leg (some legs, cache) = (some (leg ∷ legs), cache)

    -- Without a leg of this match, the later ones are not evaluated.
    abbrev pub with_leg :
        (Cache R → Draws BacktestError Built)
        → Option (ParlayLeg R) × Cache R
        → Draws BacktestError Built
    with_leg later (none, cache) = pure (none, cache)
    with_leg later (some leg, cache) = later cache >>= λ r. pure (cons_leg leg r)

    -- The legs of the matches of a window, or none where one of them has no leg.
    unfoldable pub build_parlay_legs : List (MatchWithOdds R) → Cache R → Draws BacktestError Built
    unfolding eval_leg
    build_parlay_legs [] cache = pure (some [], cache)
    build_parlay_legs (m ∷ ms) cache =
        eval_leg R P now client rates fuel cfg rng strategy cache m
        >>= with_leg (build_parlay_legs ms)

    abbrev pub Selection : Type 0
    Selection = Option (List (ParlayLeg R) × ℕ) × Cache R

    -- A window of `k` legs that passes is chosen; else the smaller ones are tried.
    abbrev pub check_window :
        (Cache R → Draws BacktestError Selection) → ℕ → Built → Draws BacktestError Selection
    check_window smaller k (none, cache) = smaller cache
    check_window smaller k (some legs, cache) =
        if parlay_ev_allowed cfg legs then pure (some (legs, k), cache) else smaller cache

    -- The first window that passes, from `k` legs down.
    unfoldable pub try_windows :
        ℕ → List (MatchWithOdds R) → Cache R → Draws BacktestError Selection
    unfolding build_parlay_legs parlay_ev_allowed
    try_windows zero ms cache = pure (none, cache)
    try_windows (suc k) ms cache =
        build_parlay_legs (take (suc k) ms) cache >>= check_window (try_windows k ms) (suc k)

    unfoldable pub select_parlay_window :
        List (MatchWithOdds R) → Cache R → Draws BacktestError Selection
    unfolding try_windows
    select_parlay_window ms cache =
        try_windows (min (at_most cfg.max_parlay_matches) (length ms)) ms cache
