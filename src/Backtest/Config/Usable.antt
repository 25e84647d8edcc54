-- ===== src/Backtest/Config/Usable.antt =====
-- tennis/cmd/backtestbets/backtest.go: what a configuration that `validate` accepts is good for.
use calculated_tennis.Base.{
  ◌≡◌, true, false, ◌&&◌, Option, none, some, text_test, is_empty, pos, ltℤ, Float64, ◌⊎◌,
}
use calculated_tennis.MoneyManager.Decimals.{Decimal}
use calculated_tennis.Backtest.Config.{singles, parlay, MoneyManagerConfig, BacktestConfig, Check}

abbrev pub IsPassed : Check → Type 0
IsPassed c = c.0 ≡ false

module _ (R : Float64) (M : Decimal) where
  open R use {zero, one, lt, le}

  -- The settings of a bankroll that can be bet with.
  abbrev pub IsFunded : Option (MoneyManagerConfig R) → Type 0
  IsFunded none = Unit
  IsFunded (some mm) =
      (le mm.initial_balance zero ≡ false)
      × (le mm.max_pct_balance zero ≡ false)
      × (lt one mm.max_pct_balance ≡ false)
      × (le mm.min_share_size zero ≡ false)
      × (is_empty mm.max_order_usdc ≡ false
          → (cap : M.D) × (M.parse mm.max_order_usdc ≡ some cap) × (M.is_negative cap ≡ false))

  pub record IsUsable (cfg : BacktestConfig R) : Type 0 where
    pub some_sims : ltℤ cfg.sims (pos 1) ≡ false
    pub alpha_positive : le cfg.alpha zero ≡ false
    pub pick_above : le cfg.min_pick zero ≡ false
    pub pick_below : lt one cfg.min_pick ≡ false
    pub odds_bound : lt cfg.min_odds zero ≡ false
    pub odds_above : (lt zero cfg.min_odds && lt cfg.min_odds one) ≡ false
    pub staked : le cfg.stake zero ≡ false
    pub funded : IsFunded cfg.money_manager
    pub mode :
        (text_test cfg.bet_mode singles ≡ true)
        ⊎ ((text_test cfg.bet_mode parlay ≡ true) × (ltℤ cfg.max_parlay_matches (pos 1) ≡ false))
