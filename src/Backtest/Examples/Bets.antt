-- ===== src/Backtest/Examples/Bets.antt =====
-- The theorems on the walks of a backtest, at a walk of two matches.
use mathlib.Core.Option.{some-injective}
use calculated_tennis.Base.{◌≡◌, refl, sym, subst, length, text_test, [], ◌∷◌, arith, All, inl}
use calculated_tennis.Base.Draws.{Ends}
use calculated_tennis.Tennis.State.{default_format, new_match, opponent}
use calculated_tennis.Tennis.Rules.{win_game, complete_set}
use calculated_tennis.Tennis.Probability.{game_win_prob}
use calculated_tennis.Tennis.Simulation.{
  Rates, simulate_fresh, run_once, simulate_point, server_win_prob, apply_simulated_point,
}
use calculated_tennis.TennisAbstract.Rates.{
  match_with_odds_player_rates, player_rates_with_form, rates_with_form,
}
use calculated_tennis.TennisAbstract.Dates.{tourney_date_as_time, parse_tourney_date}
use calculated_tennis.Base.Texts.{trim_space, trim_left, is_space}
use calculated_tennis.Base.Numerals.{padded, itoa, digits_of, atoi, value_of}
use calculated_tennis.Backtest.Config.Usable.{IsUsable}
use calculated_tennis.Backtest.Walk.{IsOfSimulation, Simulates}
use calculated_tennis.Backtest.Parlay.Legs.{strategy_sim}
use calculated_tennis.Backtest.Parlay.Window.{select_parlay_window}
use calculated_tennis.Backtest.Parlay.Sound.{IsAnswered, IsSelected, select_parlay_window-Ends}
use calculated_tennis.Base.Sorting.{sort_stable}
use calculated_tennis.Backtest.Config.{parlay}
use calculated_tennis.Backtest.Eligible.{
  load_eligible_matches, filter_backtest_matches, backtest_match_eligible,
}
use calculated_tennis.Backtest.Run.{run_backtests}
use calculated_tennis.Backtest.Run.Panics.{IsExplained}
use calculated_tennis.Backtest.Run.Kept.{IsReady, AreKept, run_backtests-AreKept}
use calculated_tennis.Backtest.Examples.{
  cents, millionths, by_cents, plain, bare, today, no_client, rates, first_match, second_match,
  draws, settings,
}

abbrev sure : Rates cents
sure = record {
  of_a = record { hold_pct = 100; break_pct = 100 };
  of_b = record { hold_pct = 0; break_pct = 0 };
}

settings-IsUsable : IsUsable cents millionths settings
settings-IsUsable = record {
  some_sims = refl;
  alpha_positive = refl;
  pick_above = refl;
  pick_below = refl;
  odds_bound = refl;
  odds_above = refl;
  staked = refl;
  funded = tt;
  mode = inl refl;
}

sure-Simulates : Simulates cents settings 12 draws first_match sure
unfolding simulate_fresh run_once default_format new_match simulate_point server_win_prob
    game_win_prob opponent apply_simulated_point win_game complete_set
sure-Simulates t = tt

first-IsAnswered :
    IsAnswered cents millionths settings settings-IsUsable bare today no_client rates 12 draws
      strategy_sim first_match
unfolding match_with_odds_player_rates
first-IsAnswered r e =
    subst (Simulates cents settings 12 draws first_match) (some-injective sure r e) sure-Simulates

second-IsAnswered :
    IsAnswered cents millionths settings settings-IsUsable bare today no_client rates 12 draws
      strategy_sim second_match
unfolding match_with_odds_player_rates
second-IsAnswered r e = absurd (ground (arith, e))

select_parlay_window-Ends_example :
    Ends IsOfSimulation
      (IsSelected cents millionths settings settings-IsUsable bare today no_client rates 12 draws
        strategy_sim
        (first_match ∷ second_match ∷ []))
      (select_parlay_window cents bare today no_client rates 12 settings draws strategy_sim
        (first_match ∷ second_match ∷ [])
        []
        0)
select_parlay_window-Ends_example =
    select_parlay_window-Ends cents millionths settings settings-IsUsable bare today no_client rates
      12 draws strategy_sim (first_match ∷ second_match ∷ []) [] 0
      (first-IsAnswered, (second-IsAnswered, tt)) tt

first-IsReady :
    IsReady cents millionths settings settings-IsUsable by_cents plain bare today no_client 12 rates
      draws first_match
unfolding match_with_odds_player_rates rates_with_form player_rates_with_form tourney_date_as_time
    parse_tourney_date padded itoa digits_of atoi value_of trim_space trim_left is_space
first-IsReady = (first-IsAnswered, λ r e. absurd (ground (arith, e)))

-- The second match is not eligible.
eligible_run :
    load_eligible_matches cents (second_match ∷ first_match ∷ []) rates ≡ first_match ∷ []
unfolding load_eligible_matches filter_backtest_matches backtest_match_eligible sort_stable
eligible_run = refl

run_backtests-AreKept_example :
    Ends
      (IsExplained cents millionths settings by_cents)
      (AreKept cents millionths settings settings-IsUsable by_cents plain
        (text_test settings.bet_mode parlay)
        (length (load_eligible_matches cents (second_match ∷ first_match ∷ []) rates)))
      (run_backtests cents millionths by_cents plain bare today no_client 12 settings rates draws
        (second_match ∷ first_match ∷ [])
        0)
run_backtests-AreKept_example =
    run_backtests-AreKept cents millionths settings settings-IsUsable by_cents plain bare today
      no_client 12 rates draws (second_match ∷ first_match ∷ []) 0
      (subst
        (All (
          IsReady cents millionths settings settings-IsUsable by_cents plain bare today no_client 12
            rates draws))
        (sym eligible_run) (first-IsReady, tt))
