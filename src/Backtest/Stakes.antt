-- ===== src/Backtest/Stakes.antt =====
-- tennis/cmd/backtestbets/backtest.go: the stake of a bet under the money manager. The conversions
-- between floats and decimals are those of shopspring/decimal, which panics at a float that is not
-- finite and at a division by zero.
use calculated_tennis.Base.{
  true, not, ◌||◌, Option, none, some, if◌then◌else◌, Result, ok, err, ◌>>=◌, >>=-eq-ok, Text, [],
  is_empty, ℤ, Float64, ◌≡◌, refl, arith, sym, subst,
}
use calculated_tennis.MoneyManager.Decimals.{Decimal}
use calculated_tennis.MoneyManager.Risk.{Config, allocate, side_buy, Code}
use calculated_tennis.MoneyManager.Risk.Allocation.{IsOrdered, IsPermitted, allocate-IsPermitted}
use calculated_tennis.Backtest.Config.{MoneyManagerConfig}
use calculated_tennis.Backtest.Stats.{BacktestStats}

pub data Panic : Type 0 where
  not_finite division_by_zero : Panic

-- The error of a cap that is no number, or a panic.
pub data LimitError : Type 0 where
  bad_cap : LimitError
  panics : Panic → LimitError

module _ (R : Float64) (M : Decimal) where
  pub record Conversions : Type 0 where
    -- `NewFromFloat`; `none` is its panic.
    pub of_float : R.F → Option M.D
    -- `Float64`.
    pub to_float : M.D → R.F
    pub add : M.D → M.D → M.D
    -- `Round(0).BigInt()`.
    pub round : M.D → ℤ

  module _ (C : Conversions) where
    abbrev pub finite : Option M.D → Result Panic M.D
    finite none = err not_finite
    finite (some d) = ok d

    -- `NewFromFloat`.
    unfoldable pub converted : R.F → Result Panic M.D
    converted x = finite (C.of_float x)

    -- `simBalance.USDCTotal`: the initial balance with the net profit, in millionths.
    unfoldable pub usdc_total : R.F → BacktestStats R → Result Panic ℤ
    unfolding converted
    usdc_total initial stats = converted initial >>= λ start.
        converted stats.final_balance >>= λ profit.
        let available = C.add start profit in
        let floored = if M.is_negative available then M.of_int 0 else available in
        ok (C.round (M.mul floored (M.of_int 1000000)))

    abbrev pub read_cap : Text → Option M.D
    read_cap raw = if is_empty raw then some (M.of_int 0) else M.parse raw

    abbrev pub with_cap : Option M.D → M.D → M.D → Result LimitError (Config M)
    with_cap none pct size = err bad_cap
    with_cap (some limit) pct size = ok (record {
      deposit_wallet = [];
      max_order_usdc = limit;
      max_pct_balance = pct;
      min_share_size = size;
    })

    abbrev pub or_panic {ℓ} : {A : Type ℓ} → Result Panic A → Result LimitError A
    or_panic (ok a) = ok a
    or_panic (err e) = err (panics e)

    unfoldable pub risk_config_from_money_manager :
        MoneyManagerConfig R → Result LimitError (Config M)
    unfolding converted
    risk_config_from_money_manager mm = or_panic (converted mm.max_pct_balance) >>= λ pct.
        or_panic (converted mm.min_share_size) >>= λ size.
        with_cap (read_cap mm.max_order_usdc) pct size

    -- The allocator of a track: the initial balance and the risk configuration.
    pub record Allocator : Type 0 where
      pub initial : R.F
      pub limits : Config M

    -- `1 / d`, which panics at zero.
    abbrev pub reciprocal : M.D → Result Panic M.D
    reciprocal d =
        if M.is_positive d || M.is_negative d
        then ok (M.div (M.of_int 1) d)
        else err division_by_zero

    unfoldable pub price_of : R.F → Result Panic M.D
    unfolding converted
    price_of odds = converted odds >>= reciprocal

    abbrev pub stake_of : M.D → Result Code M.D → Option R.F
    stake_of price (err e) = none
    stake_of price (ok size) = some (C.to_float (M.mul size price))

    -- The balance is read only for a positive price.
    unfoldable pub balance_read : Allocator → BacktestStats R → M.D → Result Panic (Option ℤ)
    unfolding usdc_total
    balance_read a stats price =
        if not (M.is_positive price)
        then ok none
        else usdc_total a.initial stats >>= λ balance. ok (some balance)

    -- On the balance of the track; `none` is a refusal.
    unfoldable pub allocate_stake : Allocator → BacktestStats R → R.F → Result Panic (Option R.F)
    unfolding price_of balance_read allocate
    allocate_stake a stats odds = price_of odds >>= λ price.
        balance_read a stats price >>= λ balance.
        ok (stake_of price (allocate M a.limits balance side_buy price))

    converted-ok : (x : R.F) (d : M.D) → converted x ≡ ok d → C.of_float x ≡ some d
    unfolding converted
    converted-ok x d h = by_value (C.of_float x) h
      where
        by_value : (o : Option M.D) → finite o ≡ ok d → o ≡ some d
        by_value none h = absurd (ground arith)
        by_value (some e) h = ground arith

    price_of-ok :
        (odds : R.F) (price : M.D)
        → price_of odds ≡ ok price
        → (d : M.D) × (C.of_float odds ≡ some d) × (M.div (M.of_int 1) d ≡ price)
    unfolding price_of
    price_of-ok odds price h =
        let (d, read, made) = >>=-eq-ok (converted odds) reciprocal h in
        (d, converted-ok odds d read, ground (arith, made))

    -- At a positive price, the balance was read.
    balance_read-ok :
        (a : Allocator) (stats : BacktestStats R) (price : M.D) (balance : Option ℤ)
        → M.is_positive price ≡ true
        → balance_read a stats price ≡ ok balance
        → (raw : ℤ) × (usdc_total a.initial stats ≡ ok raw) × (balance ≡ some raw)
    unfolding balance_read
    balance_read-ok a stats price balance p h =
        let (raw, read, same) =
          >>=-eq-ok (usdc_total a.initial stats) (λ raw. ok (some raw)) (rw p at h) in
        (raw, read, ground (arith, same))

    stake_of-some :
        (price : M.D) (r : Result Code M.D) (stake : R.F)
        → stake_of price r ≡ some stake
        → (size : M.D) × (r ≡ ok size) × (stake ≡ C.to_float (M.mul size price))
    stake_of-some price (err e) stake h = absurd (ground arith)
    stake_of-some price (ok size) stake h = (size, refl, ground arith)

    -- If the comparison of decimals is a strict order: for a stake that is allocated, the odds have
    -- a decimal and the bankroll of the track was read, and the stake is the value of a size that
    -- the risk rules permit on that bankroll at the price 1 divided by the decimal of the odds.
    pub allocate_stake-IsPermitted :
        (a : Allocator) (stats : BacktestStats R) (odds stake : R.F)
        → IsOrdered M
        → allocate_stake a stats odds ≡ ok (some stake)
        → (quoted size : M.D) × (balance : ℤ) × (C.of_float odds ≡ some quoted)
          × (usdc_total a.initial stats ≡ ok balance)
          × IsPermitted M a.limits (some balance) side_buy (M.div (M.of_int 1) quoted) size
          × (stake ≡ C.to_float (M.mul size (M.div (M.of_int 1) quoted)))
    unfolding allocate_stake
    allocate_stake-IsPermitted a stats odds stake ordered h =
        let (price, priced, h1) = >>=-eq-ok (price_of odds) _ h in
        let (balance, read, h2) = >>=-eq-ok (balance_read a stats price) _ h1 in
        let (size, sized, worth) =
          stake_of-some price (allocate M a.limits balance side_buy price) stake
            (ground (arith, h2)) in
        let permitted = allocate-IsPermitted M a.limits balance side_buy price size ordered sized in
        let (quoted, known, made) = price_of-ok odds price priced in
        let (raw, total, same) = balance_read-ok a stats price balance permitted.priced read in
        let (allowed, value) =
          subst
            (λ p.
              IsPermitted M a.limits (some raw) side_buy p size
              × (stake ≡ C.to_float (M.mul size p)))
            (sym made)
            (subst (λ b. IsPermitted M a.limits b side_buy price size) same permitted, worth) in
        (quoted, size, raw, known, total, allowed, value)
