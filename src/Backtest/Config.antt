-- ===== src/Backtest/Config.antt =====
-- tennis/cmd/backtestbets/backtest.go: the configuration of a backtest, and its check. The paths,
-- the seed and the logger are not kept.
pub mod Usable
use calculated_tennis.Base.{
  ℕ, Bool, true, false, not, ◌&&◌, ◌||◌, Option, none, some, if◌then◌else◌, Result, ok, err, ◌>>◌,
  reject_if, List, [], ◌∷◌, ◌++◌, Text, codes, text_test, is_empty, ℤ, pos, ltℤ, Float64, float_eq,
}
use calculated_tennis.MoneyManager.Decimals.{Decimal}

abbrev pub singles : Text
singles = codes "singles"

abbrev pub parlay : Text
parlay = codes "parlay"

pub data ConfigError : Type 0 where
  bad_sims bad_alpha bad_min_pick negative_min_odds low_min_odds bad_stake : ConfigError
  bad_initial_balance bad_max_pct_balance bad_min_share_size : ConfigError
  malformed_max_order negative_max_order bad_max_parlay bad_bet_mode : ConfigError

-- A test with the error that is returned where it holds.
abbrev pub Check : Type 0
Check = Bool × ConfigError

-- `if bad { return err }`, one after the other.
unfoldable pub first_error : List Check → Result ConfigError (Unit {0})
first_error [] = ok tt
first_error ((bad, e) ∷ rest) = reject_if bad e >> first_error rest

module _ (R : Float64) where
  open R use {F, zero, one, lt, le}

  pub record MoneyManagerConfig : Type 0 where
    pub initial_balance : F
    -- Empty is no cap.
    pub max_order_usdc : Text
    pub max_pct_balance : F
    pub min_share_size : F

  pub record BacktestConfig : Type 0 where
    pub sims : ℤ
    pub alpha : F
    pub min_pick : F
    pub min_odds : F
    pub require_positive_ev : Bool
    pub stake : F
    pub money_manager : Option MoneyManagerConfig
    pub bet_log_dir : Text
    pub bet_mode : Text
    pub max_parlay_matches : ℤ

  abbrev pub normalized_stake : F → F
  normalized_stake stake = if float_eq R stake zero then one else stake

  abbrev pub normalized_mode : Text → Text
  normalized_mode mode = if is_empty mode then singles else mode

  -- The configuration that `validate` leaves.
  abbrev pub normalized : BacktestConfig → BacktestConfig
  normalized cfg = record {
    sims = cfg.sims;
    alpha = cfg.alpha;
    min_pick = cfg.min_pick;
    min_odds = cfg.min_odds;
    require_positive_ev = cfg.require_positive_ev;
    stake = normalized_stake cfg.stake;
    money_manager = cfg.money_manager;
    bet_log_dir = cfg.bet_log_dir;
    bet_mode = normalized_mode cfg.bet_mode;
    max_parlay_matches = cfg.max_parlay_matches;
  }

  -- `x <= 0 || x > 1`.
  abbrev pub outside_share : F → Bool
  outside_share x = le x zero || lt one x

  module _ (M : Decimal) where
    abbrev pub cap_checks : Option M.D → List Check
    cap_checks none = (true, malformed_max_order) ∷ []
    cap_checks (some limit) = (M.is_negative limit, negative_max_order) ∷ []

    abbrev pub max_order_checks : Text → List Check
    max_order_checks raw = if is_empty raw then [] else cap_checks (M.parse raw)

    abbrev pub money_manager_checks : Option MoneyManagerConfig → List Check
    money_manager_checks none = []
    money_manager_checks (some mm) =
        (le mm.initial_balance zero, bad_initial_balance)
        ∷ (outside_share mm.max_pct_balance, bad_max_pct_balance)
        ∷ (le mm.min_share_size zero, bad_min_share_size)
        ∷ max_order_checks mm.max_order_usdc

    abbrev pub mode_checks : Text → ℤ → List Check
    mode_checks mode max_parlay =
        if text_test mode singles
        then []
        else if text_test mode parlay
        then (ltℤ max_parlay (pos 1), bad_max_parlay) ∷ []
        else (true, bad_bet_mode) ∷ []

    -- The checks in the order of the code.
    abbrev pub range_checks : BacktestConfig → List Check
    range_checks cfg =
        (ltℤ cfg.sims (pos 1), bad_sims)
        ∷ (le cfg.alpha zero, bad_alpha)
        ∷ (outside_share cfg.min_pick, bad_min_pick)
        ∷ (lt cfg.min_odds zero, negative_min_odds)
        ∷ (lt zero cfg.min_odds && lt cfg.min_odds one, low_min_odds)
        ∷ (le (normalized_stake cfg.stake) zero, bad_stake)
        ∷ []

    abbrev pub checks : BacktestConfig → List Check
    checks cfg =
        range_checks cfg
        ++ money_manager_checks cfg.money_manager
        ++ mode_checks (normalized_mode cfg.bet_mode) cfg.max_parlay_matches

    unfoldable pub validate : BacktestConfig → Result ConfigError BacktestConfig
    unfolding first_error
    validate cfg = first_error (checks cfg) >> ok (normalized cfg)
