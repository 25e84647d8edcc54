-- ===== src/Backtest/Walk.antt =====
-- tennis/cmd/backtestbets/backtest.go: how the walk of single bets ends.
pub mod Books
use calculated_tennis.Base.{
  ℕ, zero, suc, ◌+◌, ◌≤◌, ◌≡◌, refl, sym, subst, Bool, true, false, not, ◌&&◌, ◌||◌, Option, none,
  some, List, [], ◌∷◌, length, if◌then◌else◌, if_case, Result, ok, err, Text, Float64, arith, All,
  ℤ, pos, ltℤ,
}
use calculated_tennis.Base.Draws.{
  Draws, and_then, ◌>>=◌, pure, of_result, relabel, Ends, and_then-Ends, relabelled-Ends, Ends-by,
}
use calculated_tennis.Tennis.State.{A, Tally}
use calculated_tennis.Tennis.Simulation.{Rates, Rng, SimulationError, simulate_fresh, win_count}
use calculated_tennis.Tennis.Simulation.Runs.{simulate_fresh-count}
use calculated_tennis.MoneyManager.Decimals.{Decimal}
use calculated_tennis.TennisAbstract.Dates.{Time}
use calculated_tennis.TennisAbstract.Surfaces.{Process}
use calculated_tennis.TennisAbstract.Form.{FormOptions, no_options, form_options_from_env}
use calculated_tennis.TennisAbstract.Rates.{
  MatchWithOdds, PlayerRatesMap, Client, match_with_odds_player_rates,
}
use calculated_tennis.TennisAbstract.Sides.{
  BetSide, side_none, side_a, side_b, Decision, bad_counts, decide_bet, decide_favorite_bet,
}
use calculated_tennis.Backtest.Config.{BacktestConfig}
use calculated_tennis.Backtest.Config.Usable.{IsUsable}
use calculated_tennis.Backtest.Eligible.{backtest_match_eligible}
use calculated_tennis.Backtest.Stats.{BacktestStats}
use calculated_tennis.Backtest.Log.{Track}
use calculated_tennis.Backtest.Stakes.{Conversions, Allocator}
use calculated_tennis.Backtest.Singles.{
  BacktestError, of_simulation, invalid_decision, invalid_favorite, invalid_cap, panicked,
  SimDecision, decided, simulated_wins, simulate_and_decide, try_place_sim_bet, place_favorite,
  try_place_favorite_bet, BacktestRunResult, MmWalkAllocators, walk_form, walk_match,
  walk_backtests_singles,
}
use calculated_tennis.Backtest.Accounting.{
  IsBooked, skip_match-IsBooked, guarded_bet-IsBooked, try_place_sim_bet-IsBooked,
}

-- An error of the simulation, not of a decision.
abbrev pub IsOfSimulation : BacktestError → Type 0
IsOfSimulation (of_simulation e) = Unit
IsOfSimulation invalid_decision = ⊥
IsOfSimulation invalid_favorite = ⊥
IsOfSimulation invalid_cap = ⊥
IsOfSimulation (panicked e) = ⊥

abbrev pub Anything {ℓ} : {A : Type ℓ} → A → Type 0
Anything _ = Unit

-- The simulations of a match end.
abbrev pub Simulates :
    (R : Float64) → BacktestConfig R → ℕ → Rng R → MatchWithOdds R → Rates R → Type 0
Simulates R cfg fuel rng m r =
    (t : ℕ)
    → Ends Anything Anything (simulate_fresh R fuel m.match_format r cfg.alpha cfg.sims rng t)

module _ (R : Float64) where
  -- The odds of a match are positive.
  pub record HasOdds (m : MatchWithOdds R) : Type 0 where
    pub winner : R.le m.avg_w R.zero ≡ false
    pub loser : R.le m.avg_l R.zero ≡ false

  pub eligible-HasOdds :
      (rates : PlayerRatesMap R) (m : MatchWithOdds R)
      → backtest_match_eligible R rates m ≡ true
      → HasOdds m
  unfolding backtest_match_eligible
  eligible-HasOdds rates m h = record { winner = ground arith; loser = ground arith }

  module _ (M : Decimal) (cfg : BacktestConfig R) (usable : IsUsable R M cfg) where
    -- A sum of wins is a valid count.
    counted : (a b : ℕ) → cfg.sims ≡ pos (a + b) → bad_counts R (pos a) cfg.sims ≡ false
    counted a b e =
        let sum : ltℤ (pos (a + b)) (pos 1) ≡ false → bad_counts R (pos a) (pos (a + b)) ≡ false =
          λ h. ground arith in
        subst (λ n. ltℤ n (pos 1) ≡ false → bad_counts R (pos a) n ≡ false) (sym e) sum
          usable.some_sims

    pub simulated_wins-Counted :
        (fuel : ℕ) (m : MatchWithOdds R) (r : Rates R) (rng : Rng R) (t : ℕ)
        → Simulates R cfg fuel rng m r
        → Ends IsOfSimulation
            (λ n. bad_counts R n cfg.sims ≡ false)
            (simulated_wins R fuel m r cfg rng t)
    unfolding simulated_wins
    simulated_wins-Counted fuel m r rng t s =
        let sim = simulate_fresh R fuel m.match_format r cfg.alpha cfg.sims rng in
        let Sums = λ (wins : Tally). cfg.sims ≡ pos (wins.a + wins.b) in
        and_then-Ends IsOfSimulation Sums (λ n. bad_counts R n cfg.sims ≡ false)
          (relabel of_simulation sim t) (λ wins. pure (pos (win_count wins A)))
          (relabelled-Ends IsOfSimulation Sums of_simulation (sim t) (
            Ends-by Anything Anything Sums (sim t) (s t) (λ wins u e.
              simulate_fresh-count R fuel m.match_format r cfg.alpha cfg.sims rng t u {r = wins}
                e)))
          (λ wins u e. counted wins.a wins.b e)

    decide_bet-Some :
        (n : ℤ) (m : MatchWithOdds R)
        → HasOdds m
        → bad_counts R n cfg.sims ≡ false
        → decide_bet R n cfg.sims cfg.min_pick m.avg_w m.avg_l ≡ none
        → ⊥
    unfolding decide_bet
    decide_bet-Some n m o c h =
        ground (arith, o.winner, o.loser, usable.pick_above, usable.pick_below)

    decided-Ends :
        (n : ℤ) (d : Decision R) (t : ℕ)
        → (d ≡ none → ⊥)
        → Ends IsOfSimulation Anything (of_result (decided R cfg n d) t)
    unfolding decided
    decided-Ends n none t h = absurd (h refl)
    decided-Ends n (some (side_none, odds)) t h = tt
    decided-Ends n (some (side_a, odds)) t h = tt
    decided-Ends n (some (side_b, odds)) t h = tt

    pub simulate_and_decide-Ends :
        (fuel : ℕ) (m : MatchWithOdds R) (r : Rates R) (rng : Rng R) (t : ℕ)
        → HasOdds m
        → Simulates R cfg fuel rng m r
        → Ends IsOfSimulation Anything (simulate_and_decide R fuel m r cfg rng t)
    unfolding simulate_and_decide
    simulate_and_decide-Ends fuel m r rng t o s =
        let decide = λ (n : ℤ). decide_bet R n cfg.sims cfg.min_pick m.avg_w m.avg_l in
        and_then-Ends IsOfSimulation (λ n. bad_counts R n cfg.sims ≡ false) Anything
          (simulated_wins R fuel m r cfg rng t) (λ n. of_result (decided R cfg n (decide n)))
          (simulated_wins-Counted fuel m r rng t s)
          (λ n u c. decided-Ends n (decide n) u (decide_bet-Some n m o c))
