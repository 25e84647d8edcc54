-- ===== src/Backtest/Eligible.antt =====
-- The matches that a backtest walks: FilterBacktestMatches of
-- tennis/tennisabstract/matches_odds_csv.go, and loadEligibleMatches of
-- tennis/cmd/backtestbets/backtest.go from the rows of the file on.
use calculated_tennis.Base.{
  Bool, true, false, not, ◌&&◌, ◌||◌, Option, none, some, List, if◌then◌else◌, ltb, ◌==◌, ltℤ,
  text_test, Float64,
}
use calculated_tennis.Base.Texts.{text_less}
use calculated_tennis.Base.Sorting.{sort_stable, filter}
use calculated_tennis.TennisAbstract.Columns.{score_is_incomplete}
use calculated_tennis.TennisAbstract.Rates.{MatchWithOdds, PlayerRatesMap, rates_entry}

module _ (R : Float64) where
  abbrev pub is_found {ℓ} : {A : Type ℓ} → Option A → Bool
  is_found none = false
  is_found (some x) = true

  abbrev pub match_with_odds_has_rates : MatchWithOdds R → PlayerRatesMap R → Bool
  match_with_odds_has_rates m rates =
      is_found (rates_entry R rates m.player_a_slug)
      && is_found (rates_entry R rates m.player_b_slug)

  unfoldable pub backtest_match_eligible : PlayerRatesMap R → MatchWithOdds R → Bool
  backtest_match_eligible rates m =
      not (score_is_incomplete m.score)
      && match_with_odds_has_rates m rates
      && not (R.le m.avg_w R.zero || R.le m.avg_l R.zero)

  unfoldable pub filter_backtest_matches :
      List (MatchWithOdds R) → PlayerRatesMap R → List (MatchWithOdds R)
  unfolding backtest_match_eligible
  filter_backtest_matches rows rates = filter (backtest_match_eligible rates) rows

  -- By the date, the tourney and the number.
  abbrev pub earlier : MatchWithOdds R → MatchWithOdds R → Bool
  earlier m n =
      if not (m.tourney_date == n.tourney_date)
      then ltb m.tourney_date n.tourney_date
      else if not (text_test m.tourney_id n.tourney_id)
      then text_less m.tourney_id n.tourney_id
      else ltℤ m.match_num n.match_num

  unfoldable pub load_eligible_matches :
      List (MatchWithOdds R) → PlayerRatesMap R → List (MatchWithOdds R)
  unfolding filter_backtest_matches sort_stable
  load_eligible_matches rows rates = sort_stable earlier (filter_backtest_matches rows rates)
