-- ===== src/Backtest/Parlay/Place.antt =====
-- tennis/cmd/backtestbets/parlay.go and bet_log.go: the placing and logging of a parlay.
use calculated_tennis.Base.{
  ℕ, Bool, true, false, ◌&&◌, Option, none, some, List, [], ◌∷◌, ◌++◌, map, length, if◌then◌else◌,
  Text, codes, Float64, Result, ok,
}
use calculated_tennis.MoneyManager.Decimals.{Decimal}
use calculated_tennis.Backtest.Config.{BacktestConfig, normalized_stake}
use calculated_tennis.Backtest.Stats.{BacktestStats, skip, same_side, count_bet}
use calculated_tennis.Backtest.Log.{
  Row, no_extras, Track, logged, bet_side_player_name, format_bet_float, bet_log_row,
  record_parlay_skip,
}
use calculated_tennis.Backtest.Stakes.{Conversions, Allocator}
use calculated_tennis.Backtest.Singles.{BacktestError, stake_for, with_stake}
use calculated_tennis.Backtest.Parlay.Legs.{ParlayLeg}
use calculated_tennis.Backtest.Parlay.Window.{combined_parlay_prob_odds}

module _ (R : Float64) where
  open R use {F, zero, one, add, sub, mul, neg}

  abbrev pub all_won : List (ParlayLeg R) → Bool
  all_won [] = true
  all_won (leg ∷ legs) = same_side leg.pick leg.winner && all_won legs

  unfoldable pub parlay_wins : List (ParlayLeg R) → Bool
  parlay_wins [] = false
  parlay_wins (leg ∷ legs) = all_won (leg ∷ legs)

  unfoldable pub settle_parlay : List (ParlayLeg R) → F → F
  unfolding parlay_wins combined_parlay_prob_odds
  settle_parlay legs stake =
      if parlay_wins legs
      then mul stake (sub (combined_parlay_prob_odds R legs).1 one)
      else neg stake

  -- The legs of a parlay, of which there is one.
  unfoldable pub apply_parlay :
      BacktestStats R → ParlayLeg R → List (ParlayLeg R) → F → BacktestStats R
  unfolding count_bet settle_parlay
  apply_parlay s anchor legs stake =
      count_bet R s anchor.of_match.surface (length (anchor ∷ legs)) stake
        (settle_parlay (anchor ∷ legs) stake)

  module _ (format_float : F → ℕ → Text) where
    unfoldable pub bet_log_parlay_leg_row : ParlayLeg R → Row
    unfolding bet_log_row
    bet_log_parlay_leg_row leg =
        bet_log_row R format_float leg.of_match (bet_side_player_name R leg.of_match leg.pick)
          (bet_side_player_name R leg.of_match leg.winner)
          (format_bet_float R format_float leg.odds) [] [] [] leg.win_prob leg.odds [] (no_extras R)

    unfoldable pub start_row : ParlayLeg R → ℕ → Row
    unfolding bet_log_row
    start_row anchor size =
        bet_log_row R format_float anchor.of_match [] [] [] [] [] [] zero zero
          (codes "START PARLAY")
          (record { parlay_size = size; combined_odds = zero; combined_win_prob = zero })

    unfoldable pub end_row : ParlayLeg R → List (ParlayLeg R) → F → F → Row
    unfolding bet_log_row settle_parlay parlay_wins combined_parlay_prob_odds
    end_row anchor legs stake before =
        let parlay = anchor ∷ legs in
        let p = (combined_parlay_prob_odds R parlay).0 in
        let odds = (combined_parlay_prob_odds R parlay).1 in
        bet_log_row R format_float anchor.of_match []
          (if parlay_wins parlay then codes "WON" else codes "LOST") []
          (format_bet_float R format_float stake) (format_bet_float R format_float before)
          (format_bet_float R format_float (add before (settle_parlay parlay stake))) p odds
          (codes "END PARLAY")
          (record { parlay_size = length parlay; combined_odds = odds; combined_win_prob = p })

    -- The rows of `recordParlayBet`.
    abbrev pub parlay_rows : ParlayLeg R → List (ParlayLeg R) → F → F → List Row
    parlay_rows anchor legs stake before =
        start_row anchor (length (anchor ∷ legs)) ∷ map bet_log_parlay_leg_row (anchor ∷ legs)
        ++ end_row anchor legs stake before ∷ []

    module _ (M : Decimal) (C : Conversions R M) where
      -- By the stake that is allocated, or refused.
      unfoldable pub apply_parlay_with_log :
          Option F → Track R → ParlayLeg R → List (ParlayLeg R) → Track R
      unfolding apply_parlay record_parlay_skip combined_parlay_prob_odds
      apply_parlay_with_log none track anchor legs = record {
        stats = skip R track.stats;
        log =
            record_parlay_skip R format_float track anchor.of_match (codes "ALLOC")
              (combined_parlay_prob_odds R (anchor ∷ legs)).0
              (combined_parlay_prob_odds R (anchor ∷ legs)).1;
      }
      apply_parlay_with_log (some stake) track anchor legs = record {
        stats = apply_parlay track.stats anchor legs stake;
        log = logged R (parlay_rows anchor legs stake) track.stats track.log;
      }

      unfoldable pub place_parlay :
          BacktestConfig R
          → Option (Allocator R M C)
          → Track R
          → List (ParlayLeg R)
          → Result BacktestError (Track R)
      unfolding stake_for apply_parlay_with_log combined_parlay_prob_odds
      place_parlay cfg alloc track [] = ok track
      place_parlay cfg alloc track (anchor ∷ legs) =
          with_stake R M C format_float
            (stake_for R M C format_float alloc track.stats
              (combined_parlay_prob_odds R (anchor ∷ legs)).1 (normalized_stake R cfg.stake))
            (λ stake. apply_parlay_with_log stake track anchor legs)
