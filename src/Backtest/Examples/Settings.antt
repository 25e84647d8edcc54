-- ===== src/Backtest/Examples/Settings.antt =====
-- The theorems on the configuration, the inputs and the stakes of a backtest, at concrete ones.
use calculated_tennis.Base.{◌≡◌, refl, false, some, [], ◌∷◌, ok, codes, arith, ◌>>◌, ℤ, pos}
use calculated_tennis.Base.Texts.{trim_space, trim_left, is_space}
use calculated_tennis.Base.Numerals.{atoi, value_of}
use calculated_tennis.MoneyManager.Risk.{side_buy, allocate, size_of}
use calculated_tennis.MoneyManager.Risk.Allocation.{IsOrdered, IsPermitted}
use calculated_tennis.Backtest.Config.{BacktestConfig, normalized, first_error, validate, singles}
use calculated_tennis.Backtest.Inputs.{
  BacktestInputFlags, Reader, continued, read_line, ask, flag_or_answer, yes_or_answer,
  parse_yes_no, resolve_bet_mode, resolve_max_parlay_matches, resolve_sims, resolve_number,
  resolve_max_order_usdc, resolve_money_manager_config, resolve_backtest_inputs,
}
use calculated_tennis.Backtest.Inputs.Accepted.{
  HasDefaults, only_cap, resolve_backtest_inputs-validate,
}
use calculated_tennis.Backtest.Stats.{no_stats}
use calculated_tennis.Backtest.Stakes.{
  Allocator, converted, usdc_total, price_of, balance_read, allocate_stake,
  allocate_stake-IsPermitted,
}
use calculated_tennis.Backtest.Examples.{cents, millionths, by_cents, bare, settings}

-- No stake and no mode are set.
abbrev unset : BacktestConfig cents
unset = record settings { stake = 0; bet_mode = [] }

abbrev flags : BacktestInputFlags cents bare
flags = record {
  stake = [];
  min_pick = [];
  min_odds = [];
  sims = codes "200";
  require_positive_ev = false;
  parlay_set = false;
  max_parlay_matches = [];
  money_manager = false;
  initial_balance = codes "150";
  max_order_usdc = [];
  max_pct_balance = [];
  min_share_size = [];
}

-- The answers: a stake, and the money manager; the later reads find the end of the input.
abbrev answers : Reader
answers = some (
    some (codes " 1.5 ")
    ∷ some []
    ∷ some []
    ∷ some (codes "n")
    ∷ some (codes "Singles")
    ∷ some (codes "Yes")
    ∷ [])

abbrev resolved : BacktestConfig cents
resolved = record {
  sims = pos 200;
  alpha = 100;
  min_pick = 50;
  min_odds = 0;
  require_positive_ev = false;
  stake = 150;
  money_manager = some (record {
    initial_balance = 150;
    max_order_usdc = [];
    max_pct_balance = 5;
    min_share_size = 500;
  });
  bet_log_dir = [];
  bet_mode = singles;
  max_parlay_matches = pos 0;
}

resolved_run : resolve_backtest_inputs cents bare 100 [] flags answers ≡ ok (resolved, some [])
unfolding resolve_backtest_inputs resolve_number resolve_sims yes_or_answer resolve_bet_mode
    resolve_max_parlay_matches resolve_money_manager_config resolve_max_order_usdc flag_or_answer
    ask read_line continued parse_yes_no trim_space trim_left is_space atoi value_of
resolved_run = refl

cents-HasDefaults : HasDefaults cents bare
cents-HasDefaults = record {
  stake = refl;
  min_pick = refl;
  min_odds = refl;
  max_pct = refl;
  min_share = refl;
}

resolve_backtest_inputs-validate_example : validate cents millionths resolved ≡ (
    first_error (only_cap cents bare millionths resolved.money_manager)
    >> ok (normalized cents resolved))
resolve_backtest_inputs-validate_example =
    resolve_backtest_inputs-validate cents bare millionths 100 [] flags answers (some []) resolved
      cents-HasDefaults refl resolved_run

-- A hundred in the bank, of which a tenth may be staked.
abbrev bank : Allocator cents millionths by_cents
bank = record {
  initial = 10000;
  limits = record {
    deposit_wallet = [];
    max_order_usdc = 0;
    max_pct_balance = 100000;
    min_share_size = 5000000;
  };
}

millionths-IsOrdered : IsOrdered millionths
millionths-IsOrdered = record {
  irrefl = λ a. ground arith;
  asym = λ a b h. ground arith;
  trans = λ a b c h k. ground arith;
}

bank_stake : allocate_stake cents millionths by_cents bank (no_stats cents 2) 200 ≡ ok (some 1000)
unfolding allocate_stake price_of balance_read usdc_total converted allocate size_of
bank_stake = refl

allocate_stake-IsPermitted_example :
    (quoted size : millionths.D) × (balance : ℤ) × (by_cents.of_float 200 ≡ some quoted)
    × (usdc_total cents millionths by_cents bank.initial (no_stats cents 2) ≡ ok balance)
    × IsPermitted millionths bank.limits
        (some balance)
        side_buy
        (millionths.div (millionths.of_int 1) quoted)
        size
    × (1000 ≡ by_cents.to_float (millionths.mul size (millionths.div (millionths.of_int 1) quoted)))
allocate_stake-IsPermitted_example =
    allocate_stake-IsPermitted cents millionths by_cents bank (no_stats cents 2) 200 1000
      millionths-IsOrdered bank_stake
