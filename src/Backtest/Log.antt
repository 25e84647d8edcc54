-- ===== src/Backtest/Log.antt =====
-- tennis/cmd/backtestbets/bet_log.go: the rows that a track logs. `strconv.FormatFloat` is a
-- parameter: a float and its number of decimals to a text.
use calculated_tennis.Base.{
  ℕ, ◌||◌, Option, none, some, List, [], ◌∷◌, ◌++◌, if◌then◌else◌, ltb, Text, codes, itoa, pos,
  Float64,
}
use calculated_tennis.TennisAbstract.Dates.{Time, tourney_date_as_time, iso_date}
use calculated_tennis.TennisAbstract.Sides.{BetSide, side_none, side_a, side_b}
use calculated_tennis.TennisAbstract.Rates.{MatchWithOdds}
use calculated_tennis.Backtest.Stats.{
  BacktestStats, settle_bet, expected_value_decimal_odds, notional_bankroll,
}

-- A row of the table, by column.
abbrev pub Row : Type 0
Row = List Text

abbrev pub bet_log_header : Row
bet_log_header =
    codes "date"
    ∷ codes "player_a"
    ∷ codes "player_b"
    ∷ codes "pick"
    ∷ codes "winner"
    ∷ codes "odds"
    ∷ codes "stake"
    ∷ codes "balance_before"
    ∷ codes "balance_after"
    ∷ codes "win_prob"
    ∷ codes "ev"
    ∷ codes "skip_reason"
    ∷ codes "parlay_size"
    ∷ codes "combined_odds"
    ∷ codes "combined_win_prob"
    ∷ codes "legs"
    ∷ []

unfoldable dated : ℕ → Option Time → Text
unfolding itoa iso_date
dated n none = itoa (pos n)
dated n (some t) = iso_date t

unfoldable pub format_tourney_date : ℕ → Text
unfolding dated tourney_date_as_time
format_tourney_date n = dated n (tourney_date_as_time n)

module _ (R : Float64) where
  open R use {F, zero, lt, le, add}

  abbrev pub bet_side_player_name : MatchWithOdds R → BetSide → Text
  bet_side_player_name m side_a = m.player_a
  bet_side_player_name m side_b = m.player_b
  bet_side_player_name m side_none = []

  pub record ParlayExtras : Type 0 where
    pub parlay_size : ℕ
    pub combined_odds : F
    pub combined_win_prob : F

  abbrev pub no_extras : ParlayExtras
  no_extras = record { parlay_size = 0; combined_odds = zero; combined_win_prob = zero }

  pub record StrategyBetLog : Type 0 where
    pub initial : F
    pub rows : List Row

  abbrev pub append_rows : StrategyBetLog → List Row → StrategyBetLog
  append_rows l new = record { initial = l.initial; rows = l.rows ++ new }

  -- A track: its statistics, and its log where there is one.
  pub record Track : Type 0 where
    pub stats : BacktestStats R
    pub log : Option StrategyBetLog

  -- The new rows depend on the bankroll before the bet.
  abbrev pub logged :
      (F → List Row) → BacktestStats R → Option StrategyBetLog → Option StrategyBetLog
  logged rows stats none = none
  logged rows stats (some l) =
      some (append_rows l (rows (notional_bankroll R l.initial stats.final_balance)))

  module _ (format_float : F → ℕ → Text) where
    abbrev pub format_bet_float : F → Text
    format_bet_float x = format_float x 2

    abbrev pub format_win_prob : F → Text
    format_win_prob p = if le p zero then [] else format_float p 4

    abbrev pub format_ev : F → F → Text
    format_ev p odds =
        if le p zero || le odds zero
        then []
        else format_bet_float (expected_value_decimal_odds R p odds)

    unfoldable pub format_parlay_extras : ParlayExtras → Row
    unfolding itoa
    format_parlay_extras p =
        (if ltb 0 p.parlay_size then itoa (pos p.parlay_size) else [])
        ∷ (if lt zero p.combined_odds then format_bet_float p.combined_odds else [])
        ∷ format_win_prob p.combined_win_prob
        ∷ []
        ∷ []

    unfoldable pub bet_log_row :
        MatchWithOdds R
        → Text
        → Text
        → Text
        → Text
        → Text
        → Text
        → F
        → F
        → Text
        → ParlayExtras
        → Row
    unfolding format_tourney_date format_parlay_extras
    bet_log_row m pick winner odds stake before after win_prob decimal_odds reason extras =
        format_tourney_date m.tourney_date
        ∷ m.player_a
        ∷ m.player_b
        ∷ pick
        ∷ winner
        ∷ odds
        ∷ stake
        ∷ before
        ∷ after
        ∷ format_win_prob win_prob
        ∷ format_ev win_prob decimal_odds
        ∷ reason
        ∷ format_parlay_extras extras

    unfoldable pub skip_row : MatchWithOdds R → Text → F → F → Row
    unfolding bet_log_row
    skip_row m reason win_prob odds = bet_log_row m [] [] [] [] [] [] win_prob odds reason no_extras

    -- `recordSkip`.
    unfoldable pub record_skip : Track → MatchWithOdds R → Text → F → F → Option StrategyBetLog
    unfolding skip_row
    record_skip track m reason win_prob odds =
        logged (λ before. skip_row m reason win_prob odds ∷ []) track.stats track.log

    unfoldable pub parlay_skip_row : MatchWithOdds R → Text → F → F → Row
    unfolding bet_log_row
    parlay_skip_row m reason win_prob odds =
        bet_log_row m [] [] [] [] [] [] win_prob odds reason
          (record { parlay_size = 0; combined_odds = odds; combined_win_prob = win_prob })

    unfoldable pub record_parlay_skip :
        Track → MatchWithOdds R → Text → F → F → Option StrategyBetLog
    unfolding parlay_skip_row
    record_parlay_skip track m reason win_prob odds =
        logged (λ before. parlay_skip_row m reason win_prob odds ∷ []) track.stats track.log

    -- The row of a bet on the bankroll `before`.
    unfoldable pub bet_row : MatchWithOdds R → BetSide → F → F → F → BetSide → F → Row
    unfolding bet_log_row settle_bet
    bet_row m picked odds stake win_prob winner before =
        let pnl = settle_bet R picked winner odds stake in
        bet_log_row m (bet_side_player_name m picked) (bet_side_player_name m winner)
          (format_bet_float odds) (format_bet_float stake) (format_bet_float before)
          (format_bet_float (add before pnl)) win_prob odds [] no_extras

    unfoldable pub record_bet :
        Track → MatchWithOdds R → BetSide → F → F → F → BetSide → Option StrategyBetLog
    unfolding bet_row
    record_bet track m picked odds stake win_prob winner =
        logged (λ before. bet_row m picked odds stake win_prob winner before ∷ []) track.stats
          track.log
