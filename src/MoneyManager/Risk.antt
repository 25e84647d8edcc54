-- ===== src/MoneyManager/Risk.antt =====
-- moneymanager/pkg/risk/allocator.go and ev.go: the size of an order, its expected value, and the
-- limits. Of an error the gRPC code is kept and the message is not. The balance of the wallet, as
-- the `BalanceReader` gives it, is an argument.
pub mod Allocation
use calculated_tennis.Base.{
  ℕ, ◌+◌, ◌*◌, Bool, true, false, not, ◌&&◌, ◌||◌, Option, none, some, List, [], ◌∷◌, ltb,
  if◌then◌else◌, Result, ok, err, ◌>>=◌, ◌>>◌, reject_if, Text, codes, text_test, is_empty, ℤ, pos,
  negsuc, Float64,
}
use calculated_tennis.Base.Texts.{trim_space}
use calculated_tennis.MoneyManager.Decimals.{Decimal}

pub data Code : Type 0 where
  invalid_argument failed_precondition internal : Code

abbrev pub side_buy : Text
side_buy = codes "BUY"

abbrev pub side_sell : Text
side_sell = codes "SELL"

-- `MONEYMANAGER_MAX_ORDER_USDC`, `MONEYMANAGER_MAX_PCT_BALANCE`, `MONEYMANAGER_MIN_SHARE_SIZE`.
pub record Environment : Type 0 where
  pub max_order_usdc : Text
  pub max_pct_balance : Text
  pub min_share_size : Text

-- Which variable is wrong, and how.
pub data ConfigError : Type 0 where
  malformed out_of_range : Text → ConfigError

module _ (M : Decimal) where
  pub record Config : Type 0 where
    pub deposit_wallet : Text
    -- Zero is no absolute cap.
    pub max_order_usdc : M.D
    pub max_pct_balance : M.D
    pub min_share_size : M.D

  -- A variable that is set is parsed and checked; one that is not leaves the default.
  abbrev pub read_limit : Text → Text → M.D → (M.D → Bool) → Result ConfigError M.D
  read_limit name raw default bad =
      let v = trim_space raw in if is_empty v then ok default else checked (M.parse v)
    where
      checked : Option M.D → Result ConfigError M.D
      checked none = err (malformed name)
      checked (some d) = if bad d then err (out_of_range name) else ok d

  unfoldable pub config_from_env : Environment → Text → Result ConfigError Config
  config_from_env env wallet = do
    max_order ←
        read_limit (codes "MONEYMANAGER_MAX_ORDER_USDC") env.max_order_usdc (M.of_int 0)
          M.is_negative
    max_pct ←
        read_limit (codes "MONEYMANAGER_MAX_PCT_BALANCE") env.max_pct_balance M.five_percent
          (λ d. M.is_negative d || M.greater d (M.of_int 1))
    min_share ←
        read_limit (codes "MONEYMANAGER_MIN_SHARE_SIZE") env.min_share_size (M.of_int 5)
          (λ d. not (M.is_positive d))
    ok (record {
      deposit_wallet = wallet;
      max_order_usdc = max_order;
      max_pct_balance = max_pct;
      min_share_size = min_share;
    })

  -- The capital of one order.
  abbrev pub allocated : Config → M.D → M.D
  allocated cfg available =
      let share = M.mul available cfg.max_pct_balance in
      let capped =
        if M.is_positive cfg.max_order_usdc && M.greater share cfg.max_order_usdc
        then cfg.max_order_usdc
        else share in
      if M.greater capped available then available else capped

  -- What follows the reading of the balance.
  unfoldable pub size_of : Config → M.D → ℤ → Result Code M.D
  size_of cfg price raw =
      let available = M.of_micro raw in
      let capital = allocated cfg available in
      let size = M.truncate (M.div capital price) in
      if not (M.is_positive available)
      then err failed_precondition
      else if not (M.is_positive capital)
      then err failed_precondition
      else if M.less size cfg.min_share_size
      then err failed_precondition
      else ok size

  -- `balance` is the result of `USDCTotal`.
  unfoldable pub allocate : Config → Option ℤ → Text → M.D → Result Code M.D
  unfolding size_of
  allocate cfg balance side price =
      if not (text_test side side_buy)
      then err failed_precondition
      else if not (M.is_positive price)
      then err invalid_argument
      else read balance
    where
      read : Option ℤ → Result Code M.D
      read none = err internal
      read (some raw) = size_of cfg price raw

  module _ (N : Float64) (of_float : N.F → M.D) where
    -- `math.IsNaN(p)` is `p != p`.
    unfoldable pub validate_win_probability : N.F → Result Code (Unit {0})
    validate_win_probability p =
        if not (N.le p p) || N.le p N.zero || N.lt N.one p then err invalid_argument else ok tt

    unfoldable pub expected_value_buy_price : N.F → M.D → Result Code M.D
    expected_value_buy_price p price =
        if not (M.is_positive price)
        then err invalid_argument
        else ok (M.sub (M.div (of_float p) price) (M.of_int 1))

    abbrev pub require_positive : M.D → Result Code (Unit {0})
    require_positive ev = reject_if (not (M.is_positive ev)) failed_precondition

    unfoldable pub validate_positive_ev : N.F → Text → M.D → Result Code (Unit {0})
    unfolding validate_win_probability expected_value_buy_price
    validate_positive_ev p side price =
        let positive = expected_value_buy_price p price >>= require_positive in
        validate_win_probability p
        >> (if text_test side side_sell
            then err failed_precondition
            else if text_test side side_buy
            then positive
            else err invalid_argument)
