-- ===== src/Backtest/Stats.antt =====
-- tennis/cmd/backtestbets/backtest.go: the statistics of a track, and the settling of a bet. The
-- counters are natural numbers.
use calculated_tennis.Base.{
  ℕ, suc, ◌+◌, Bool, true, false, if◌then◌else◌, ℤ, pos, ◌-ℤ◌, Float64, Option, none, some, ◌==◌,
  float_eq,
}
use calculated_tennis.TennisAbstract.Surfaces.{MatchSurface, hard, clay, grass, unknown}
use calculated_tennis.TennisAbstract.Sides.{BetSide, side_none, side_a, side_b}

pub record SurfaceBetStats : Type 0 where
  pub wins : ℕ
  pub bets : ℕ

abbrev pub no_surface_bets : SurfaceBetStats
no_surface_bets = record { wins = 0; bets = 0 }

-- `picked == winner`.
abbrev pub same_side : BetSide → BetSide → Bool
same_side side_none side_none = true
same_side side_a side_a = true
same_side side_b side_b = true
same_side side_none side_a = false
same_side side_none side_b = false
same_side side_a side_none = false
same_side side_a side_b = false
same_side side_b side_none = false
same_side side_b side_a = false

module _ (R : Float64) where
  open R use {F, zero, one, lt, add, sub, mul, div, neg, of_int}

  pub record BacktestStats : Type 0 where
    pub final_balance : F
    pub gross_profit : F
    pub gross_loss : F
    pub total_wagered : F
    pub bets : ℕ
    pub wins : ℕ
    pub losses : ℕ
    pub skipped : ℕ
    pub parlay_legs : ℕ
    pub matches_walk : ℕ
    pub hard_bets : SurfaceBetStats
    pub clay_bets : SurfaceBetStats
    pub grass_bets : SurfaceBetStats

  -- The statistics of a walk of `n` matches before the first.
  abbrev pub no_stats : ℕ → BacktestStats
  no_stats n = record {
    final_balance = zero;
    gross_profit = zero;
    gross_loss = zero;
    total_wagered = zero;
    bets = 0;
    wins = 0;
    losses = 0;
    skipped = 0;
    parlay_legs = 0;
    matches_walk = n;
    hard_bets = no_surface_bets;
    clay_bets = no_surface_bets;
    grass_bets = no_surface_bets;
  }

  -- `stats.Skipped++`.
  abbrev pub skip : BacktestStats → BacktestStats
  skip s = record {
    final_balance = s.final_balance;
    gross_profit = s.gross_profit;
    gross_loss = s.gross_loss;
    total_wagered = s.total_wagered;
    bets = s.bets;
    wins = s.wins;
    losses = s.losses;
    skipped = suc s.skipped;
    parlay_legs = s.parlay_legs;
    matches_walk = s.matches_walk;
    hard_bets = s.hard_bets;
    clay_bets = s.clay_bets;
    grass_bets = s.grass_bets;
  }

  abbrev pub surface_stats : BacktestStats → MatchSurface → SurfaceBetStats
  surface_stats s hard = s.hard_bets
  surface_stats s clay = s.clay_bets
  surface_stats s grass = s.grass_bets
  surface_stats s unknown = no_surface_bets

  -- `updated` where the surface is this one.
  abbrev pub set_hard : MatchSurface → SurfaceBetStats → SurfaceBetStats → SurfaceBetStats
  set_hard hard updated old = updated
  set_hard clay updated old = old
  set_hard grass updated old = old
  set_hard unknown updated old = old

  abbrev pub set_clay : MatchSurface → SurfaceBetStats → SurfaceBetStats → SurfaceBetStats
  set_clay hard updated old = old
  set_clay clay updated old = updated
  set_clay grass updated old = old
  set_clay unknown updated old = old

  abbrev pub set_grass : MatchSurface → SurfaceBetStats → SurfaceBetStats → SurfaceBetStats
  set_grass hard updated old = old
  set_grass clay updated old = old
  set_grass grass updated old = updated
  set_grass unknown updated old = old

  unfoldable pub settle_bet : BetSide → BetSide → F → F → F
  settle_bet picked winner odds stake =
      if same_side picked winner then mul stake (sub odds one) else neg stake

  -- A bet or a parlay of `legs` legs is counted, with its profit or loss, on the surface.
  unfoldable pub count_bet : BacktestStats → MatchSurface → ℕ → F → F → BacktestStats
  count_bet s surface legs stake pnl =
      let won = lt zero pnl in
      let old = surface_stats s surface in
      let surf : SurfaceBetStats = record {
        wins = if won then suc old.wins else old.wins;
        bets = suc old.bets;
      } in
      record {
        final_balance = add s.final_balance pnl;
        gross_profit = if won then add s.gross_profit pnl else s.gross_profit;
        gross_loss = if won then s.gross_loss else add s.gross_loss (neg pnl);
        total_wagered = add s.total_wagered stake;
        bets = suc s.bets;
        wins = if won then suc s.wins else s.wins;
        losses = if won then s.losses else suc s.losses;
        skipped = s.skipped;
        parlay_legs = s.parlay_legs + legs;
        matches_walk = s.matches_walk;
        hard_bets = set_hard surface surf s.hard_bets;
        clay_bets = set_clay surface surf s.clay_bets;
        grass_bets = set_grass surface surf s.grass_bets;
      }

  unfoldable pub apply_bet :
      BacktestStats → MatchSurface → BetSide → F → F → BetSide → BacktestStats
  unfolding count_bet settle_bet
  apply_bet s surface picked odds stake winner =
      count_bet s surface 0 stake (settle_bet picked winner odds stake)

  abbrev pub win_prob_for_side : ℤ → ℤ → BetSide → F
  win_prob_for_side wins_a sims side_a = div (of_int wins_a) (of_int sims)
  win_prob_for_side wins_a sims side_b = div (of_int (sims -ℤ wins_a)) (of_int sims)
  win_prob_for_side wins_a sims side_none = zero

  -- `risk.ExpectedValueDecimalOdds`.
  abbrev pub expected_value_decimal_odds : F → F → F
  expected_value_decimal_odds p odds = sub (mul p odds) one

  -- `initial` with the net profit, floored at 0.
  abbrev pub notional_bankroll : F → F → F
  notional_bankroll initial net = let b = add initial net in if lt b zero then zero else b

  -- `none` stands for the NaN that the code returns.
  unfoldable pub win_rate : BacktestStats → Option F
  win_rate s = if s.bets == 0 then none else some (div (of_int (pos s.wins)) (of_int (pos s.bets)))

  unfoldable pub return_pct : BacktestStats → F → Option F
  return_pct s stake =
      let wagered =
        if float_eq R s.total_wagered zero
        then mul (of_int (pos s.bets)) stake
        else s.total_wagered in
      if float_eq R wagered zero
      then none
      else some (div (mul (of_int (pos 100)) s.final_balance) wagered)
