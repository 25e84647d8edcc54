-- ===== src/TennisAbstract/Examples.antt =====
-- The theorems on tennis/tennisabstract at concrete inputs: floats in hundredths, and a client that
-- returns two results.
mod Tables
use calculated_tennis.Base.{
  ℕ, ◌+◌, ◌-◌, ◌*◌, ◌/◌, ◌^◌, ◌≡◌, refl, arith, true, false, none, some, List, [], ◌∷◌, ltb, leb,
  codes, pos, negsuc, Float64,
}
use calculated_tennis.Base.Texts.{trim_space, trim_left, is_space}
use calculated_tennis.Base.Numerals.{padded, itoa, digits_of, atoi, value_of}
use calculated_tennis.Base.Sorting.{sort_stable}
use calculated_tennis.Tennis.State.{default_format}
use calculated_tennis.Tennis.Simulation.{Rates}
use calculated_tennis.TennisAbstract.Dates.{
  Time, date, year, month, day_of_month, iso_date, is_zero, tourney_date_as_time,
  parse_tourney_date,
}
use calculated_tennis.TennisAbstract.Surfaces.{
  Process, hard, positive_int_from_env, positive_float_from_env,
}
use calculated_tennis.TennisAbstract.Recent.{
  RecentResult, recent_results_before, IsNewest, recent_results_before-IsNewest,
}
use calculated_tennis.TennisAbstract.Seasons.{
  season_baseline, build_effective_current_season, most_recent_challenger_year, effective,
}
use calculated_tennis.TennisAbstract.Form.{
  no_options, with_defaults, evaluation_date, recent_dr_form, average, form_ratio_of,
  form_weight_of, rates_at, adjusted_hold_break,
}
use calculated_tennis.TennisAbstract.Rates.{
  MatchWithOdds, PlayerRatesMap, Client, HasUnit, IsValid, player_stats_for_backtest_form,
  adjusted_hold_break_as_of, player_rates_with_preloaded_recent, player_rates_with_form,
  rates_with_form, match_with_odds_player_rates, match_with_odds_player_rates-AreValid,
}
use calculated_tennis.TennisAbstract.Sides.{
  BetSide, IsQuoted, decide_bet, decide_sim_favored_side, decide_favorite_bet, decisions-AreQuoted,
}

leap_run :
    (iso_date (date 2024 2 29) ≡ codes "2024-02-29")
    × (iso_date (date 2025 13 41) ≡ codes "2026-02-10")
    × (iso_date (date 1 1 1) ≡ codes "0001-01-01")
    × (is_zero (date 1 1 1) ≡ true)
unfolding iso_date date year month day_of_month padded itoa digits_of is_zero
leap_run = (refl, refl, refl, refl)

abbrev pub cents : Float64
cents = record {
  F = ℕ;
  zero = 0;
  one = 100;
  two = 200;
  half = 50;
  lt = ltb;
  le = leb;
  add = λ x y. x + y;
  sub = λ x y. x - y;
  div = λ x y. x * 100 / y;
  pow = λ x y. 100;
  mul = λ x y. x * y / 100;
  neg = λ x. 0;
  of_int = elim [ pos n ↦ 100 * n | negsuc n ↦ 0 ];
  literal = λ n k. 100 * n / 10 ^ k;
}

abbrev unset : Process cents
unset = record { getenv = λ _. []; parse_float = λ _. none }

abbrev today : Time
today = record { day = 740000; clock = 0 }

abbrev played : ℕ → ℕ → RecentResult cents
played day dr = record { date = record { day = day; clock = 0 }; dominance_ratio = some dr }

-- The last of these is not before the date.
abbrev results : List (RecentResult cents)
results = played 739000 120 ∷ played 739100 100 ∷ played 739600 300 ∷ []

recent_results_before-IsNewest_example :
    IsNewest cents results
      (recent_results_before cents results (record { day = 739500; clock = 0 }) 1)
      (record { day = 739500; clock = 0 })
      1
recent_results_before-IsNewest_example =
    recent_results_before-IsNewest cents results (record { day = 739500; clock = 0 }) 1

newest_run :
    recent_results_before cents results (record { day = 739500; clock = 0 }) 1
    ≡ played 739100 100 ∷ []
unfolding recent_results_before sort_stable
newest_run = refl

abbrev client : Client cents
client name as_of limit = some results

abbrev rates : PlayerRatesMap cents
rates =
    (codes "AnnA", record { hold = 80; breaks = 30; dr = 100 })
    ∷ (codes "BobB", record { hold = 70; breaks = 20; dr = 100 })
    ∷ []

abbrev game : MatchWithOdds cents
game = record {
  tourney_id = codes "2025-1";
  surface = hard;
  player_a = codes "Ann A";
  player_b = codes "Bob B";
  player_a_slug = codes "AnnA";
  player_b_slug = codes "BobB";
  match_format = default_format;
  score = codes "6-0 6-0";
  tourney_date = 20250106;
  match_num = pos 1;
  avg_w = 150;
  avg_l = 250;
}

abbrev with_form : Rates cents
with_form = record {
  of_a = record { hold_pct = 79; break_pct = 29 };
  of_b = record { hold_pct = 69; break_pct = 19 };
}

form_run :
    match_with_odds_player_rates cents unset today client game rates true (no_options cents)
    ≡ some with_form
unfolding match_with_odds_player_rates rates_with_form player_rates_with_form
    player_rates_with_preloaded_recent adjusted_hold_break_as_of player_stats_for_backtest_form
    adjusted_hold_break rates_at form_ratio_of form_weight_of recent_dr_form average sort_stable
    recent_results_before season_baseline build_effective_current_season most_recent_challenger_year
    effective with_defaults positive_int_from_env positive_float_from_env evaluation_date is_zero
    year month tourney_date_as_time parse_tourney_date date padded itoa digits_of atoi value_of
    trim_space trim_left is_space
form_run = refl

cents-HasUnit : HasUnit cents
cents-HasUnit = record { zero_zero = refl; one_zero = refl; one_one = refl }

match_with_odds_player_rates-AreValid_example :
    IsValid cents with_form.of_a × IsValid cents with_form.of_b
match_with_odds_player_rates-AreValid_example =
    match_with_odds_player_rates-AreValid cents unset today client cents-HasUnit game rates
      (no_options cents) with_form form_run

decisions-AreQuoted_example :
    IsQuoted cents 150 250 (decide_bet cents (pos 70) (pos 100) 60 150 250)
    × IsQuoted cents 150 250 (decide_sim_favored_side cents (pos 70) (pos 100) 150 250)
    × IsQuoted cents 150 250 (decide_favorite_bet cents 150 250)
    × ((side : BetSide) (odds : ℕ)
        → decide_favorite_bet cents 150 250 ≡ some (side, odds)
        → (ltb 150 odds ≡ false) × (ltb 250 odds ≡ false))
decisions-AreQuoted_example =
    decisions-AreQuoted cents (pos 70) (pos 100) 60 150 250 (λ x y h. ground arith)
