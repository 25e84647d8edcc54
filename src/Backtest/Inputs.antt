-- ===== src/Backtest/Inputs.antt =====
-- tennis/cmd/backtestbets/inputs.go: the inputs of a backtest, from the flags and, on a terminal,
-- from the answers to prompts. A prompt is written and one line is read: tennis/internal/prompt.
pub mod Accepted
use calculated_tennis.Base.{
  ℕ, Bool, true, false, ◌&&◌, ◌||◌, Option, none, some, List, [], ◌∷◌, if◌then◌else◌, Result, ok,
  err, Text, codes, text_test, is_empty, to_lower, atoi, ℤ, pos, ltℤ, Float64,
}
use calculated_tennis.Base.Texts.{trim_space}
use calculated_tennis.TennisAbstract.Surfaces.{Process}
use calculated_tennis.Backtest.Config.{
  singles, parlay, outside_share, MoneyManagerConfig, BacktestConfig,
}

pub data InputError : Type 0 where
  read_failed invalid_stake invalid_min_pick invalid_sims invalid_min_odds : InputError
  invalid_initial_balance invalid_max_pct_balance invalid_min_share_size : InputError
  invalid_max_order_usdc invalid_bet_mode invalid_max_parlay_matches : InputError

-- The lines to come, `none` for a read that fails; after the last one, reads are empty. Without a
-- terminal there is no reader.
abbrev pub Reader : Type 0
Reader = Option (List (Option Text))

abbrev pub Prompted : Type 0 → Type 0
Prompted X = Reader → Result InputError (X × Reader)

unfoldable pub continued :
    {X Y : Type 0}
    → Result InputError (X × Reader)
    → (X → Prompted Y)
    → Result InputError (Y × Reader)
continued (err e) next = err e
continued (ok (x, r)) next = next x r

infixl 5 ◌>>=◌
abbrev pub ◌>>=◌ : {X Y : Type 0} → Prompted X → (X → Prompted Y) → Prompted Y
◌>>=◌ m next r = continued (m r) next

abbrev pub pure : {X : Type 0} → X → Prompted X
pure x r = ok (x, r)

-- `prompt.ReadLineFrom`.
unfoldable pub read_line : List (Option Text) → Result InputError (Text × Reader)
read_line [] = ok ([], some [])
read_line (none ∷ rest) = err read_failed
read_line (some line ∷ rest) = ok (trim_space line, some rest)

-- A line where there is a reader.
unfoldable pub ask : Prompted Text
unfolding read_line
ask none = ok ([], none)
ask (some lines) = read_line lines

-- The flag, or the answer where it is not set.
unfoldable pub flag_or_answer : Text → Prompted Text
unfolding ask
flag_or_answer flag r = let raw = trim_space flag in if is_empty raw then ask r else ok (raw, r)

-- What a text stands for, as a result of the chain.
abbrev pub lift : {X : Type 0} → Result InputError X → Prompted X
lift (err e) r = err e
lift (ok x) r = ok (x, r)

-- A parsed value that is not bad.
abbrev pub accept : {X : Type 0} → Option X → (X → Bool) → InputError → Result InputError X
accept none bad e = err e
accept (some x) bad e = if bad x then err e else ok x

abbrev pub one_of : Text → List Text → Bool
one_of s [] = false
one_of s (t ∷ ts) = text_test s t || one_of s ts

unfoldable pub parse_yes_no : Text → Bool
parse_yes_no raw = one_of (to_lower (trim_space raw)) (codes "y" ∷ codes "yes" ∷ [])

-- A set flag is yes.
unfoldable pub yes_or_answer : Bool → Prompted Bool
unfolding ask parse_yes_no
yes_or_answer true = pure true
yes_or_answer false = ask >>= λ raw. pure (parse_yes_no raw)

abbrev pub is_singles_answer : Text → Bool
is_singles_answer s = one_of s ([] ∷ codes "singles" ∷ codes "single" ∷ codes "s" ∷ [])

abbrev pub is_parlay_answer : Text → Bool
is_parlay_answer s = one_of s (codes "parlay" ∷ codes "parlays" ∷ codes "p" ∷ [])

abbrev pub mode_of : Text → Result InputError Text
mode_of raw =
    let s = to_lower (trim_space raw) in
    if is_singles_answer s
    then ok singles
    else if is_parlay_answer s
    then ok parlay
    else err invalid_bet_mode

unfoldable pub resolve_bet_mode : Bool → Text → Prompted Text
unfolding ask
resolve_bet_mode flag max_parlay =
    if flag
    then pure parlay
    else if is_empty (trim_space max_parlay)
    then (ask >>= λ raw. lift (mode_of raw))
    else pure parlay

-- The default on a terminal only.
abbrev pub max_parlay_of : Text → Reader → Result InputError ℤ
max_parlay_of [] none = err invalid_max_parlay_matches
max_parlay_of [] (some lines) = ok (pos 5)
max_parlay_of (c ∷ cs) r = accept (atoi (c ∷ cs)) (λ n. ltℤ n (pos 1)) invalid_max_parlay_matches

abbrev pub max_parlay_answer : Text → Prompted ℤ
max_parlay_answer raw r = lift (max_parlay_of raw r) r

unfoldable pub resolve_max_parlay_matches : Text → Text → Prompted ℤ
unfolding flag_or_answer
resolve_max_parlay_matches mode flag =
    if text_test mode parlay then flag_or_answer flag >>= max_parlay_answer else pure (pos 0)

abbrev pub sims_of : Text → Result InputError ℤ
sims_of [] = ok (pos 5000)
sims_of (c ∷ cs) = accept (atoi (c ∷ cs)) (λ n. ltℤ n (pos 1)) invalid_sims

unfoldable pub resolve_sims : Text → Prompted ℤ
unfolding flag_or_answer
resolve_sims flag = flag_or_answer flag >>= λ raw. lift (sims_of raw)

module _ (R : Float64) (P : Process R) where
  open R use {F, zero, one, lt, le, literal}

  -- A number that is not bad, with a default for an empty text.
  abbrev pub number_of : Text → Result InputError F → (F → Bool) → InputError → Result InputError F
  number_of [] default bad e = default
  number_of (c ∷ cs) default bad e = accept (P.parse_float (c ∷ cs)) bad e

  unfoldable pub resolve_number : Text → Result InputError F → (F → Bool) → InputError → Prompted F
  unfolding flag_or_answer
  resolve_number flag default bad e =
      flag_or_answer flag >>= λ raw. lift (number_of raw default bad e)

  -- `x < 0 || x > 0 && x < 1`.
  abbrev pub bad_odds : F → Bool
  bad_odds x = lt x zero || lt zero x && lt x one

  abbrev pub resolve_stake : Text → Prompted F
  resolve_stake flag = resolve_number flag (ok (literal 1 0)) (λ x. le x zero) invalid_stake

  abbrev pub resolve_min_pick : Text → Prompted F
  resolve_min_pick flag = resolve_number flag (ok (literal 5 1)) (outside_share R) invalid_min_pick

  abbrev pub resolve_min_odds : Text → Prompted F
  resolve_min_odds flag = resolve_number flag (ok zero) bad_odds invalid_min_odds

  abbrev pub resolve_initial_balance : Text → Prompted F
  resolve_initial_balance flag =
      resolve_number flag (err invalid_initial_balance) (λ x. le x zero) invalid_initial_balance

  abbrev pub resolve_max_pct_balance : Text → Prompted F
  resolve_max_pct_balance flag =
      resolve_number flag (ok (literal 5 2)) (outside_share R) invalid_max_pct_balance

  abbrev pub resolve_min_share_size : Text → Prompted F
  resolve_min_share_size flag =
      resolve_number flag (ok (literal 5 0)) (λ x. le x zero) invalid_min_share_size

  -- The text itself, where it is a number that is not negative.
  abbrev pub cap_of : Text → Option F → Result InputError Text
  cap_of raw none = err invalid_max_order_usdc
  cap_of raw (some x) = if lt x zero then err invalid_max_order_usdc else ok raw

  abbrev pub max_order_of : Text → Result InputError Text
  max_order_of [] = ok []
  max_order_of (c ∷ cs) = cap_of (c ∷ cs) (P.parse_float (c ∷ cs))

  unfoldable pub resolve_max_order_usdc : Text → Prompted Text
  unfolding flag_or_answer
  resolve_max_order_usdc flag = flag_or_answer flag >>= λ raw. lift (max_order_of raw)

  pub record BacktestInputFlags : Type 0 where
    pub stake : Text
    pub min_pick : Text
    pub min_odds : Text
    pub sims : Text
    pub require_positive_ev : Bool
    pub parlay_set : Bool
    pub max_parlay_matches : Text
    pub money_manager : Bool
    pub initial_balance : Text
    pub max_order_usdc : Text
    pub max_pct_balance : Text
    pub min_share_size : Text

  unfoldable pub resolve_money_manager_config :
      Bool → BacktestInputFlags → Prompted (Option (MoneyManagerConfig R))
  unfolding resolve_number resolve_max_order_usdc
  resolve_money_manager_config false flags = pure none
  resolve_money_manager_config true flags = do
    balance ← resolve_initial_balance flags.initial_balance
    max_order ← resolve_max_order_usdc flags.max_order_usdc
    max_pct ← resolve_max_pct_balance flags.max_pct_balance
    min_share ← resolve_min_share_size flags.min_share_size
    pure (
        some (record {
          initial_balance = balance;
          max_order_usdc = max_order;
          max_pct_balance = max_pct;
          min_share_size = min_share;
        }))

  -- The configuration that `exitRun` makes of the inputs, with the flag `alpha` and the directory
  -- of the logs.
  unfoldable pub resolve_backtest_inputs :
      F → Text → BacktestInputFlags → Prompted (BacktestConfig R)
  unfolding resolve_number resolve_sims yes_or_answer resolve_bet_mode resolve_max_parlay_matches
      resolve_money_manager_config
  resolve_backtest_inputs alpha dir flags = do
    stake ← resolve_stake flags.stake
    min_pick ← resolve_min_pick flags.min_pick
    sims ← resolve_sims flags.sims
    min_odds ← resolve_min_odds flags.min_odds
    require_ev ← yes_or_answer flags.require_positive_ev
    mode ← resolve_bet_mode flags.parlay_set flags.max_parlay_matches
    max_parlay ← resolve_max_parlay_matches mode flags.max_parlay_matches
    use_mm ← yes_or_answer flags.money_manager
    mm ← resolve_money_manager_config use_mm flags
    pure (record {
      sims = sims;
      alpha = alpha;
      min_pick = min_pick;
      min_odds = min_odds;
      require_positive_ev = require_ev;
      stake = stake;
      money_manager = mm;
      bet_log_dir = dir;
      bet_mode = mode;
      max_parlay_matches = max_parlay;
    })
